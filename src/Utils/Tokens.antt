-- ===== src/Utils/Tokens.antt =====
-- The tokens and times that come of given random numbers.
use Prim.Native.Nat.{◌%◌}
use native.Mathlib.Nat.{pow-le-pow_right, pow-suc}
use fastapi_ws_rpc.Base.{
  ℕ, zero, suc, ◌+◌, ◌*◌, ◌/◌, ◌-◌, ◌^◌, ◌≤◌, ◌<◌, ◌≡◌, refl, Option, some, List, [], ◌∷◌, ◌++◌,
  length, length-append, arith,
}
use fastapi_ws_rpc.Base.Int.{pos}
use fastapi_ws_rpc.Values.{ok, class_of, value_error}
use fastapi_ws_rpc.Utils.{
  hex_digits, uuid_hex, gen_token, second_us, day_us, or_else, random_datetime,
}

-- The number that digits stand for, after those that were read.
unfoldable pub value : ℕ → List ℕ → ℕ
value acc [] = acc
value acc (d ∷ ds) = value (acc * 16 + d) ds

value-append : (acc d : ℕ) (ds : List ℕ) → value acc (ds ++ (d ∷ [])) ≡ value acc ds * 16 + d
unfolding value
value-append acc d [] = refl
value-append acc d (x ∷ ds) = value-append (acc * 16 + x) d ds

hex_digits-length : (w n : ℕ) → length (hex_digits w n) ≡ w
unfolding hex_digits
hex_digits-length zero n = refl
hex_digits-length (suc w) n =
    omega (arith, length-append (hex_digits w (n / 16)) (n % 16 ∷ []), hex_digits-length w (n / 16))

hex_digits-value : (w n : ℕ) → n < 16 ^ w → value 0 (hex_digits w n) ≡ n
unfolding hex_digits value
hex_digits-value zero n lt = omega (arith, lt)
hex_digits-value (suc w) n lt = omega (
  arith,
  value-append 0 (n % 16) (hex_digits w (n / 16)),
  hex_digits-value w (n / 16) (omega (arith, pow-suc 16 w)),
)

uuid_hex-ok : (n : ℕ) → n < 2 ^ 128 → uuid_hex n ≡ ok (hex_digits 32 n)
unfolding uuid_hex
uuid_hex-ok n lt = ground arith

uuid_hex-refused : (n : ℕ) → 2 ^ 128 ≤ n → class_of (uuid_hex n) ≡ some value_error
unfolding uuid_hex
uuid_hex-refused n le = ground arith

below_uuid : (k n : ℕ) → k ≤ 128 → n < 2 ^ k → n < 2 ^ 128
below_uuid k n le lt = omega (arith, pow-le-pow_right {n = 2} (omega arith) {i = k} {j = 128} le)

module _ (first second : ℕ → ℕ) (size : ℕ) where
  -- The halves of a token.
  gen_token-halves :
      (xs ys : List ℕ)
      → size % 2 ≡ 0
      → uuid_hex (first (size / 2)) ≡ ok xs
      → uuid_hex (second (size / 2)) ≡ ok ys
      → gen_token first second (pos size) ≡ ok (xs ++ ys)
  unfolding gen_token
  gen_token-halves xs ys even left right = ground (arith, left, right)

  -- A token of an even size up to 256 bits has 64 digits, whatever the size: the first half stands
  -- for the first random number and the second for the other.
  gen_token_lem :
      size % 2 ≡ 0
      → size ≤ 256
      → first (size / 2) < 2 ^ (size / 2)
      → second (size / 2) < 2 ^ (size / 2)
      → (xs ys : List ℕ) × (gen_token first second (pos size) ≡ ok (xs ++ ys))
        × (length xs ≡ 32)
        × (length ys ≡ 32)
        × (value 0 xs ≡ first (size / 2))
        × (value 0 ys ≡ second (size / 2))
  gen_token_lem even small left right =
      let a = first (size / 2) in
      let b = second (size / 2) in
      let half : size / 2 ≤ 128 = omega (arith, small) in
      let la = below_uuid (size / 2) a half left in
      let lb = below_uuid (size / 2) b half right in
      (
        hex_digits 32 a,
        hex_digits 32 b,
        gen_token-halves (hex_digits 32 a) (hex_digits 32 b) even (uuid_hex-ok a la)
            (uuid_hex-ok b lb),
        hex_digits-length 32 a,
        hex_digits-length 32 b,
        hex_digits-value 32 a la,
        hex_digits-value 32 b lb,
      )

  -- A half that does not fit 128 bits makes the token fail.
  gen_token-too_large :
      size % 2 ≡ 0
      → 2 ^ 128 ≤ first (size / 2)
      → class_of (gen_token first second (pos size)) ≡ some value_error
  unfolding gen_token
  gen_token-too_large even large = ground (arith, uuid_hex-refused (first (size / 2)) large)

-- A random time lies in its range, at least a second before the end, if the range has a whole second;
-- a shorter range, or one that ends before it starts, raises ValueError.
random_datetime_bounds :
    (randrange : ℕ → ℕ) (now : ℕ) (start end : Option ℕ)
    → ((n : ℕ) → 0 < n → randrange n < n)
    → let from = or_else start now in
      let to = or_else end (now + day_us) in
      (from + second_us ≤ to
        → (t : ℕ) × (random_datetime randrange now start end ≡ ok t)
          × (from ≤ t)
          × (t + second_us ≤ to))
      × (to < from + second_us
          → class_of (random_datetime randrange now start end) ≡ some value_error)
unfolding random_datetime
random_datetime_bounds randrange now start end fair =
    let from = or_else start now in
    let to = or_else end (now + day_us) in
    let seconds = (to - from) / second_us in
    (
      λ room. (
        from + randrange seconds * second_us,
        ground arith,
        omega arith,
        omega (arith, fair seconds (omega (arith, room))),
      ),
      λ none_left. ground arith,
    )
