-- ===== src/SimpleWebSocket/Frames.antt =====
-- `WebSocketSimplifier` of fastapi_ws_rpc/websocket_rpc_endpoint.py and the frame types of
-- fastapi_ws_rpc/schemas.py. The websocket is FastAPI's, an argument.
use fastapi_ws_rpc.Base.{ℕ, false, Option, some}
use fastapi_ws_rpc.Values.{Json, Outcome}
use fastapi_ws_rpc.Exec.{Exec}
use fastapi_ws_rpc.Protocols.{SocketProtocol}
use fastapi_ws_rpc.SimpleWebSocket.{Raw, Message, Codec, json_socket}

-- `WebSocketFrameType`
pub data FrameType : Type 0 where
  text_frame binary_frame : FrameType

-- What the endpoint uses of a FastAPI `WebSocket`.
pub record FastApiWebSocket (S : Type 0) : Type 0 where
  pub send_text : Raw → Exec S Unit
  pub send_bytes : Raw → Exec S Unit
  pub receive_text : Exec S Raw
  pub receive_bytes : Exec S Raw
  pub close : ℕ → Exec S Unit

module _ {S : Type 0} where
  -- `WebSocketSimplifier`; `closed` is that of `SimpleWebSocket`.
  unfoldable pub simplifier : FrameType → FastApiWebSocket S → SocketProtocol S Raw Raw
  simplifier frame_type websocket = record {
    send = elim frame_type [
      | text_frame ↦ websocket.send_text
      | binary_frame ↦ websocket.send_bytes
    ];
    recv = elim frame_type [
      | text_frame ↦ websocket.receive_text
      | binary_frame ↦ websocket.receive_bytes
    ];
    close = websocket.close;
    closed = some (λ s. false);
  }

  -- The socket that `main_loop` gives to its channel.
  unfoldable pub endpoint_socket :
      Codec
      → Outcome Json
      → FrameType
      → Option ℕ
      → FastApiWebSocket S
      → SocketProtocol S Message Json
  unfolding simplifier json_socket
  endpoint_socket codec refused frame_type max_message_size websocket =
      json_socket codec refused max_message_size (simplifier frame_type websocket)
