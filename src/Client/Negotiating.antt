-- ===== src/Client/Negotiating.antt =====
-- What `__connect__` of fastapi_ws_rpc/websocket_rpc_client.py passes to `websockets.connect`, and the
-- socket that it gets.
use fastapi_ws_rpc.Base.{
  String, Bool, true, false, ◌&&◌, ◌||◌, Option, none, some, List, [], ◌∷◌, map, ◌==◌,
  if◌then◌else◌,
}
use fastapi_ws_rpc.Base.Int.{ℤ}
use fastapi_ws_rpc.Base.Dict.{Dict, lookup, insert}
use fastapi_ws_rpc.Values.{Json, items, is_exception, exn, Outcome, ok, raised, value_error}
use fastapi_ws_rpc.Client.{Socket, Client, Env, outcome_of}
use fastapi_ws_rpc.Client.Text.{names_compression}

abbrev pub with_subprotocols : Option (List String) → Dict Json → Dict Json
with_subprotocols none d = d
with_subprotocols (some []) d = d
with_subprotocols (some (s ∷ ss)) d =
    insert "subprotocols" (Json.arr (items (map Json.str (s ∷ ss)))) d

-- An empty text is false.
abbrev pub compression_value : Option String → Json
compression_value none = Json.null
compression_value (some s) = if s == "" then Json.null else Json.str s

abbrev pub with_ping_timeout : Option ℤ → Dict Json → Dict Json
with_ping_timeout none d = d
with_ping_timeout (some t) d = insert "ping_timeout" (Json.int t) d

-- `_prepare_connection_kwargs`
unfoldable pub prepare_connection_kwargs : Client → Dict Json
prepare_connection_kwargs c =
    let ws = c.config.websocket in
    insert "max_size" (Json.int c.config.backpressure.max_message_size) (
      with_ping_timeout ws.ping_timeout (
        insert "compression" (compression_value ws.compression)
          (with_subprotocols ws.subprotocols c.connect_kwargs)))

-- `connect_kwargs.get("compression") is not None`
abbrev pub compression_enabled : Option Json → Bool
compression_enabled none = false
compression_enabled (some Json.null) = false
compression_enabled (some _) = true

-- The `except` clause around the first connection.
unfoldable pub fall_back :
    (Dict Json → Outcome Socket) → Dict Json → Outcome Socket → Outcome Socket
fall_back connect kwargs (ok s) = ok s
fall_back connect kwargs (raised e) =
    if is_exception e.cls && names_compression e
    then connect (insert "compression" Json.null kwargs)
    else raised e

unfoldable pub establish_websocket : (Dict Json → Outcome Socket) → Dict Json → Outcome Socket
unfolding fall_back
establish_websocket connect kwargs =
    if compression_enabled (lookup "compression" kwargs)
    then fall_back connect kwargs (connect kwargs)
    else connect kwargs

abbrev pub is_member : String → List String → Bool
is_member s [] = false
is_member s (t ∷ ts) = let rest = is_member s ts in s == t || rest

abbrev pub refuse : Outcome (Unit {0}) → Outcome (Unit {0})
refuse (ok u) = raised (exn value_error "Server negotiated unsupported subprotocol")
refuse (raised e) = raised e

-- `_validate_subprotocol`
unfoldable pub validate_subprotocol :
    Env → Option (List String) → Option String → Outcome (Unit {0})
validate_subprotocol env none negotiated = ok tt
validate_subprotocol env (some []) negotiated = ok tt
validate_subprotocol env (some (s ∷ ss)) none = ok tt
validate_subprotocol env (some (s ∷ ss)) (some n) =
    if is_member n (s ∷ ss) then ok tt else refuse (outcome_of env.ws_close)
