-- ===== src/Values/Decimal.antt =====
-- `str` of a Python `int`.
use Prim.Native.Nat.{◌%◌}
use Prim.Native.String.{◌++◌, slice}
use fastapi_ws_rpc.Base.{ℕ, zero, suc, ◌+◌, ◌/◌, ◌<◌, String, ◌≡◌, refl, arith, ltb, if◌then◌else◌}
use fastapi_ws_rpc.Base.Int.{ℤ, pos, negsuc}

digit : ℕ → String
digit d = slice "0123456789" d (d + 1)

-- The digits of `n`, the last one first, in front of `tail`. The fuel is spent only above nine.
pub digits_before : ℕ → ℕ → String → String
unfolding digit
digits_before zero n tail = tail
digits_before (suc f) n tail =
    let rest = digits_before f (n / 10) (digit (n % 10) ++ tail) in
    if ltb n 10 then digit n ++ tail else rest

unfoldable pub str_of_nat : ℕ → String
unfolding digits_before
str_of_nat n = digits_before (suc n) n ""

unfoldable pub str_of_int : ℤ → String
unfolding str_of_nat
str_of_int (pos n) = str_of_nat n
str_of_int (negsuc n) = "-" ++ str_of_nat (n + 1)

-- The fuel of `str_of_nat` is enough: any two amounts above the number print the same text.
pub digits_before_fuel :
    (f g n : ℕ) (tail : String) → n < f → n < g → digits_before f n tail ≡ digits_before g n tail
unfolding digits_before digit
digits_before_fuel zero g n tail p q = elim p [ ]
digits_before_fuel (suc f) zero n tail p q = elim q [ ]
digits_before_fuel (suc f) (suc g) n tail p q =
    ground (arith, digits_before_fuel f g (n / 10) (digit (n % 10) ++ tail))

str_of_int_runs : str_of_int (negsuc 1029) ≡ "-1030"
unfolding str_of_int
str_of_int_runs = refl
