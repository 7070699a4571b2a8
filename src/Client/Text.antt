-- ===== src/Client/Text.antt =====
-- The tests `… in str(e)` and `… in str(e).lower()` of fastapi_ws_rpc/websocket_rpc_client.py. A text
-- is the list of its code points; the messages are ASCII, where `lower` changes only letters.
use Prim.Native.Char.{code}
use fastapi_ws_rpc.Base.{
  ℕ, ◌+◌, String, Bool, true, false, ◌&&◌, ◌||◌, List, [], ◌∷◌, leb, nat_eq, map, if◌then◌else◌,
}
use fastapi_ws_rpc.Values.{Exn}

abbrev pub codes : String → List ℕ
codes String.[] = []
codes (String.◌∷◌ c s) = code c ∷ codes s

abbrev pub lower : ℕ → ℕ
lower c = if leb b'A' c && leb c b'Z' then c + 32 else c

abbrev pub begins : List ℕ → List ℕ → Bool
begins [] s = true
begins (a ∷ needle) [] = false
begins (a ∷ needle) (b ∷ bs) = let rest = begins needle bs in nat_eq a b && rest

-- `needle in text`
abbrev pub is_in : List ℕ → List ℕ → Bool
is_in needle [] = begins needle []
is_in needle (c ∷ s) = let rest = is_in needle s in begins needle (c ∷ s) || rest

-- The test of `_establish_websocket` for a failed negotiation of compression.
unfoldable pub names_compression : Exn → Bool
names_compression e =
    let text = map lower (codes e.text) in
    is_in (codes "extension") text
    || is_in (codes "compression") text
    || is_in (codes "deflate") text

-- `"max_message_size" in str(e)`
unfoldable pub names_max_message_size : Exn → Bool
names_max_message_size e = is_in (codes "max_message_size") (codes e.text)
