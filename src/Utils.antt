-- ===== src/Utils.antt =====
-- fastapi_ws_rpc/utils.py: tokens, random times and the spelling of names. The random numbers are
-- given. Times are naturals in microseconds. A hexadecimal text is the list of its digits, and a text
-- is the list of its code points, in ASCII.
pub mod Tokens
pub mod Spelling
mod Examples
use Prim.Native.Nat.{◌%◌}
use fastapi_ws_rpc.Base.{
  ℕ, zero, suc, ◌+◌, ◌-◌, ◌*◌, ◌/◌, ◌^◌, Bool, true, false, ◌&&◌, ◌||◌, not, Option, none, some,
  List, [], ◌∷◌, ◌++◌, map, ltb, leb, nat_eq, if◌then◌else◌,
}
use fastapi_ws_rpc.Base.Int.{ℤ, pos, negsuc}
use fastapi_ws_rpc.Values.{Outcome, ok, raised, exn, value_error}

-- The last so many hexadecimal digits of a number.
unfoldable pub hex_digits : ℕ → ℕ → List ℕ
hex_digits zero n = []
hex_digits (suc w) n = hex_digits w (n / 16) ++ (n % 16 ∷ [])

abbrev pub uuid_bits : ℕ
uuid_bits = 128

-- `uuid.UUID(int=n).hex`
unfoldable pub uuid_hex : ℕ → Outcome (List ℕ)
uuid_hex n =
    if ltb n (2 ^ uuid_bits)
    then ok (hex_digits 32 n)
    else raised (exn value_error "int is out of range (need a 128-bit value)")

abbrev pub concat : Outcome (List ℕ) → Outcome (List ℕ) → Outcome (List ℕ)
concat (raised e) r = raised e
concat (ok xs) (raised e) = raised e
concat (ok xs) (ok ys) = ok (xs ++ ys)

-- `gen_token`; `getrandbits` gives a number for a count of bits, once for each half.
unfoldable pub gen_token : (ℕ → ℕ) → (ℕ → ℕ) → ℤ → Outcome (List ℕ)
unfolding uuid_hex
gen_token first second (negsuc n) = raised (exn value_error "negative size")
gen_token first second (pos size) =
    if nat_eq (size % 2) 0
    then concat (uuid_hex (first (size / 2))) (uuid_hex (second (size / 2)))
    else raised (exn value_error "Size in bits must be an even number.")

abbrev pub second_us : ℕ
second_us = 1_000_000

abbrev pub day_us : ℕ
day_us = 86_400_000_000

abbrev pub or_else : Option ℕ → ℕ → ℕ
or_else none d = d
or_else (some t) d = t

-- `random_datetime`; `randrange` gives a number below its argument, or raises if that is not positive.
unfoldable pub random_datetime : (ℕ → ℕ) → ℕ → Option ℕ → Option ℕ → Outcome ℕ
random_datetime randrange now start end =
    let from = or_else start now in
    let seconds = (or_else end (now + day_us) - from) / second_us in
    if nat_eq seconds 0
    then raised (exn value_error "empty range for randrange()")
    else ok (from + randrange seconds * second_us)

abbrev pub between : ℕ → ℕ → ℕ → Bool
between lo hi c = leb lo c && leb c hi

abbrev pub is_upper : ℕ → Bool
is_upper c = between b'A' b'Z' c

abbrev pub is_lower : ℕ → Bool
is_lower c = between b'a' b'z' c

abbrev pub is_digit : ℕ → Bool
is_digit c = between b'0' b'9' c

abbrev pub is_newline : ℕ → Bool
is_newline c = nat_eq c 10

abbrev pub underscore : ℕ
underscore = b'_'

-- `re.sub("(.)([A-Z][a-z]+)", r"\1_\2", name)`; the flag says that a match has begun, whose last group
-- takes the lower letters that follow.
unfoldable pub split_words : Bool → List ℕ → List ℕ
split_words inside [] = []
split_words inside (c ∷ []) = c ∷ []
split_words inside (c ∷ u ∷ []) = c ∷ u ∷ []
split_words inside (c ∷ u ∷ l ∷ cs) =
    let matched = c ∷ underscore ∷ u ∷ l ∷ split_words true cs in
    let passed = c ∷ split_words (inside && is_lower c) (u ∷ l ∷ cs) in
    if not (inside && is_lower c) && not (is_newline c) && is_upper u && is_lower l
    then matched
    else passed

-- `re.sub("([a-z0-9])([A-Z])", r"\1_\2", s1)`
unfoldable pub split_capitals : List ℕ → List ℕ
split_capitals [] = []
split_capitals (c ∷ []) = c ∷ []
split_capitals (c ∷ u ∷ cs) =
    let matched = c ∷ underscore ∷ u ∷ split_capitals cs in
    let passed = c ∷ split_capitals (u ∷ cs) in
    if (is_lower c || is_digit c) && is_upper u then matched else passed

unfoldable pub to_lower : ℕ → ℕ
to_lower c = if is_upper c then c + 32 else c

unfoldable pub to_upper : ℕ → ℕ
to_upper c = if is_lower c then c - 32 else c

unfoldable pub convert_camelcase_to_underscore : Bool → List ℕ → List ℕ
unfolding split_words split_capitals to_lower to_upper
convert_camelcase_to_underscore lower name =
    map (if lower then to_lower else to_upper) (split_capitals (split_words false name))
