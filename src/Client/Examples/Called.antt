-- ===== src/Client/Examples/Called.antt =====
-- A call of a client that reads, to an endpoint that waits, with a codec that knows the two messages.
use fastapi_ws_rpc.Base.{
  ◌≡◌, refl, true, false, Option, none, some, [], ◌∷◌, ◌++◌, arith, ◌==◌, if◌then◌else◌,
}
use fastapi_ws_rpc.Base.Dict.{Dict, lookup, contains}
use fastapi_ws_rpc.Values.{Json, fields, entries, str_id, Exn, ok}
use fastapi_ws_rpc.Schemas.{validate_id}
use fastapi_ws_rpc.MethodInvoker.{
  value, convert_params, convert_result, get_return_type, convert_value, is_protected,
}
use fastapi_ws_rpc.Pydantic.Strict.{strict, dump_request, dump_response}
use fastapi_ws_rpc.Pydantic.Strict.Lawful.{strict-laws}
use fastapi_ws_rpc.ProtocolHandler.{result_response}
use fastapi_ws_rpc.PromiseManager.{store_response}
use fastapi_ws_rpc.PromiseManager.Operating.{creates}
use fastapi_ws_rpc.PromiseManager.Invariant.Runs
use fastapi_ws_rpc.Channel
use fastapi_ws_rpc.Channel.{Channel, new_request, finish_call, handler}
use fastapi_ws_rpc.Channel.Examples.{
  transmit, counting, methods, call, render, type_name, request, promise, waiting, waiting-made,
  fresh-HasRoom, waiting_open, waiting_pending,
}
use fastapi_ws_rpc.SimpleWebSocket.{Codec, recv}
use fastapi_ws_rpc.Endpoint.{Connection, waits, serve}
use fastapi_ws_rpc.Client.{Client, validate_connected}
use fastapi_ws_rpc.Client.Calling.{begin_call}
use fastapi_ws_rpc.Client.Reading.{Close, reader_round}
use fastapi_ws_rpc.Client.RoundTrip.{to_round, to_reader, frame, Passes, client_call_round_trip}
use fastapi_ws_rpc.Client.Examples.{env, up}

abbrev ask : Dict Json
ask = strict.dump_request request

abbrev answer : Dict Json
answer = strict.dump_response (result_response (str_id "u1") (Json.str "3"))

abbrev codec : Codec
codec = record {
  dumps = λ fs. if contains "method" (entries fs) then "?" else "!";
  is_pydantic_pre_v2 = false;
  json = λ fs. "";
  model_dump_json = λ fs. "";
  loads = λ s. ok (Json.obj (fields (if s == "?" then ask else answer)));
  utf8_length = λ s. 1;
  decode = λ b. ok "";
}

ask-Passes : Passes codec 100 ask
unfolding dump_request lookup
ask-Passes = record { back = refl; size = omega arith }

answer-Passes : Passes codec 100 answer
unfolding dump_response lookup
answer-Passes = record { back = refl; size = omega arith }

abbrev caller : Client
caller = record up { channel = some Channel.Examples.fresh }

abbrev reader : Client
reader = record up { channel = some (record Channel.Examples.fresh { promises = waiting }) }

abbrev endpoint : Connection
endpoint = record {
  websocket = 0;
  active = 0 ∷ [];
  channel = Channel.Examples.fresh;
  disconnecting = none;
}

abbrev rcvd : Exn → Option Close
rcvd e = none

client_call_round_trip_example :
    let response = result_response (str_id "u1") (Json.str "3") in
    let own = handler strict transmit methods call render type_name false in
    let stored = record Channel.Examples.fresh { promises = (store_response response waiting).1 } in
    (begin_call env strict transmit 5 "u1" "count" none caller ≡ (
      ok promise,
      record caller {
        channel = some (record Channel.Examples.fresh {
          promises = waiting;
          sent = Channel.Examples.fresh.sent ++ (ask ∷ []);
        });
      },
    ))
    × (serve own true none
          (record {
            before = 6;
            result = to_round (recv codec (ok Json.null) 100 (frame codec ask));
            after = 7;
          }
            ∷ [])
          4
          endpoint
        ≡ (
          waits,
          record endpoint {
            channel = record Channel.Examples.fresh {
              sent = Channel.Examples.fresh.sent ++ (answer ∷ []);
            };
          },
        ))
    × (reader_round rcvd own (to_reader (recv codec (ok Json.null) 100 (frame codec answer))) reader
        ≡ record reader { channel = some stored })
    × ((finish_call strict transmit promise stored).0 ≡ ok response)
unfolding validate_connected new_request validate_id is_protected convert_params convert_result
    get_return_type convert_value Channel.init
client_call_round_trip_example =
    client_call_round_trip strict strict-laws transmit transmit methods methods call call render
      type_name false codec (ok Json.null) 100 100 env true none rcvd 5 6 7 4 "u1" "count" none
      request promise waiting caller reader Channel.Examples.fresh
      (record Channel.Examples.fresh { promises = waiting }) Channel.Examples.fresh endpoint
      counting [] (value (Json.str "3")) (Json.str "3") refl refl refl waiting-made
      (fresh-HasRoom waiting waiting_open) refl ask-Passes refl refl refl refl refl refl refl
      (fresh-HasRoom Channel.Examples.fresh.promises refl) refl answer-Passes refl refl
      (Runs.run-init-IsValid true none none (creates true 5 request ∷ [])) waiting_pending
