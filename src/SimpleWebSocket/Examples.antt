-- ===== src/SimpleWebSocket/Examples.antt =====
-- A codec that knows one message, and a queue from a client to an endpoint that uses binary frames.
use fastapi_ws_rpc.Base.{◌≡◌, refl, true, none, some, List, [], ◌∷◌, ◌++◌, ◌==◌, if◌then◌else◌}
use fastapi_ws_rpc.Values.{
  Json, Fields, Outcome, ok, raised, exn, rpc_message_too_large, type_error, runtime_error,
}
use fastapi_ws_rpc.Exec.{Exec}
use fastapi_ws_rpc.Protocols.{SocketProtocol}
use fastapi_ws_rpc.SimpleWebSocket.{Codec, Message, dict, model, Raw, text, json_socket, serialize}
use fastapi_ws_rpc.SimpleWebSocket.Frames.{FastApiWebSocket, binary_frame, simplifier}
use fastapi_ws_rpc.SimpleWebSocket.Wire.{as_sent, Fifo, send_all, recv_each, send_all-recv_each}

abbrev codec : Codec
codec = record {
  dumps = λ fs. "{}";
  is_pydantic_pre_v2 = true;
  json = λ fs. "{ }";
  model_dump_json = λ fs. "";
  loads = λ s. ok (Json.obj Fields.end);
  utf8_length = λ s. if s == "{}" then 2 else 3;
  decode = λ b. ok "{}";
}

abbrev closed_outcome : Outcome Raw
closed_outcome = raised (exn runtime_error "no message")

abbrev put : Raw → Exec (List Raw) Unit
put raw q = (ok tt, q ++ (raw ∷ []))

abbrev take : Exec (List Raw) Raw
take [] = (closed_outcome, [])
take (raw ∷ q) = (ok raw, q)

abbrev client_websocket : SocketProtocol (List Raw) Raw Raw
client_websocket = record { send = put; recv = take; close = λ code q. (ok tt, []); closed = none }

abbrev server_websocket : FastApiWebSocket (List Raw)
server_websocket = record {
  send_text = put;
  send_bytes = put;
  receive_text = take;
  receive_bytes = take;
  close = λ code q. (ok tt, []);
}

queue : Fifo (List Raw) codec client_websocket (simplifier binary_frame server_websocket) (λ q. q)
unfolding simplifier
queue = record {
  queues = λ raw s t eq. (raw, as_sent raw, cc);
  takes = λ raw rest s eq. (rest, rw eq, refl);
}

abbrev messages : List Message
messages = dict Fields.end ∷ model Fields.end ∷ []

-- The limit of two bytes is too small for the second message.
send_all-recv_each_example :
    (u : List Raw) × (recv_each
        (json_socket codec
          (raised (exn type_error ""))
          (some 2)
          (simplifier binary_frame server_websocket))
        2
        (text "{}" ∷ text "{ }" ∷ [])
      ≡ (
        ok (Json.obj Fields.end)
            ∷ raised (exn rpc_message_too_large "Incoming message size exceeds limit")
            ∷ [],
        u,
      ))
    × (u ≡ [])
unfolding serialize send_all json_socket
send_all-recv_each_example =
    send_all-recv_each codec (raised (exn type_error "")) none (some 2) client_websocket
      (simplifier binary_frame server_websocket) (λ q. q) queue messages []
      (text "{}" ∷ text "{ }" ∷ []) (refl, (refl, tt)) refl refl
