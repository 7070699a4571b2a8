-- ===== src/SimpleWebSocket.antt =====
-- fastapi_ws_rpc/simplewebsocket.py, with the serialization of fastapi_ws_rpc/utils.py. The json module, pydantic and UTF-8 are not part of
-- the repository: a codec stands for them.
pub mod Frames
pub mod Wire
mod Examples
use fastapi_ws_rpc.Base.{
  ℕ, String, Bool, false, Option, none, some, List, length, ltb, if◌then◌else◌,
}
use fastapi_ws_rpc.Values.{Json, Fields, Outcome, ok, raised, exn, rpc_message_too_large}
use fastapi_ws_rpc.Exec.{lift, ◌>>=◌}
use fastapi_ws_rpc.Protocols.{SocketProtocol}

-- What is passed to `send`: a dictionary, or a pydantic model, which has fields.
pub data Message : Type 0 where
  dict : Fields → Message
  model : Fields → Message

pub record Codec : Type 0 where
  -- `json.dumps` on a dictionary
  pub dumps : Fields → String
  -- `is_pydantic_pre_v2()`, and `model.json()` and `model.model_dump_json()`
  pub is_pydantic_pre_v2 : Bool
  pub json : Fields → String
  pub model_dump_json : Fields → String
  pub loads : String → Outcome Json
  -- `len(message.encode("utf-8"))`
  pub utf8_length : String → ℕ
  -- `buffer.decode("utf-8")`
  pub decode : List ℕ → Outcome String

-- What the socket's `recv` returns: text, bytes, or something else.
pub data Raw : Type 0 where
  text : String → Raw
  bytes : List ℕ → Raw
  other_value : Raw

abbrev pub default_max_message_size : ℕ
default_max_message_size = 10_485_760

unfoldable pub pydantic_serialize : Codec → Fields → String
pydantic_serialize codec fs =
    if codec.is_pydantic_pre_v2 then codec.json fs else codec.model_dump_json fs

-- `_serialize`
unfoldable pub serialize : Codec → Message → String
unfolding pydantic_serialize
serialize codec (dict fs) = codec.dumps fs
serialize codec (model fs) = pydantic_serialize codec fs

unfoldable pub message_size : Codec → Raw → ℕ
message_size codec (text s) = codec.utf8_length s
message_size codec (bytes b) = length b
message_size codec other_value = 0

abbrev pub parse : Codec → Outcome String → Outcome Json
parse codec (ok s) = codec.loads s
parse codec (raised e) = raised e

-- `_deserialize`; the exception of `json.loads` on another value is `refused`.
unfoldable pub deserialize : Codec → Outcome Json → Raw → Outcome Json
deserialize codec refused (text s) = codec.loads s
deserialize codec refused (bytes b) = parse codec (codec.decode b)
deserialize codec refused other_value = refused

-- `recv`, once the socket has a message.
unfoldable pub recv : Codec → Outcome Json → ℕ → Raw → Outcome Json
unfolding message_size deserialize
recv codec refused max_message_size raw =
    if ltb max_message_size (message_size codec raw)
    then raised (exn rpc_message_too_large "Incoming message size exceeds limit")
    else deserialize codec refused raw

-- `getattr(websocket, "closed", False)`
abbrev pub closed_or_false : {S : Type 0} → Option (S → Bool) → S → Bool
closed_or_false none s = false
closed_or_false (some closed) s = closed s

-- `max_message_size` of the constructor
abbrev pub size_or_default : Option ℕ → ℕ
size_or_default none = default_max_message_size
size_or_default (some n) = n

-- `JsonSerializingWebSocket(websocket, max_message_size)`
module _ {S : Type 0} (codec : Codec) (refused : Outcome Json) where
  unfoldable pub json_socket : Option ℕ → SocketProtocol S Raw Raw → SocketProtocol S Message Json
  unfolding serialize recv
  json_socket max_message_size websocket = record {
    send = λ m. websocket.send (text (serialize codec m));
    recv =
        websocket.recv >>= λ raw. lift (recv codec refused (size_or_default max_message_size) raw);
    close = websocket.close;
    closed = some (closed_or_false websocket.closed);
  }
