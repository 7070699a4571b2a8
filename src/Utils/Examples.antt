-- ===== src/Utils/Examples.antt =====
-- The spelling of a name, and a token.
use fastapi_ws_rpc.Base.{ℕ, ◌≡◌, refl, true, false, List, [], ◌∷◌}
use fastapi_ws_rpc.Utils.{split_words, split_capitals, convert_camelcase_to_underscore, hex_digits}
use fastapi_ws_rpc.Utils.Spelling.{HasNoSeam, convert_splits}

to_snake :
    convert_camelcase_to_underscore true
      (b'g' ∷ b'e' ∷ b't' ∷ b'H' ∷ b'T' ∷ b'T' ∷ b'P' ∷ b'C' ∷ b'o' ∷ [])
    ≡ b'g' ∷ b'e' ∷ b't' ∷ b'_' ∷ b'h' ∷ b't' ∷ b't' ∷ b'p' ∷ b'_' ∷ b'c' ∷ b'o' ∷ []
unfolding convert_camelcase_to_underscore
to_snake = refl

two_hundred : hex_digits 4 200 ≡ 0 ∷ 0 ∷ 12 ∷ 8 ∷ []
unfolding hex_digits
two_hundred = refl

abbrev name : List ℕ
name = b'f' ∷ b'o' ∷ b'o' ∷ b'B' ∷ b'a' ∷ b'r' ∷ []

convert_splits_example : HasNoSeam (split_capitals (split_words false name))
convert_splits_example = (convert_splits name).3
