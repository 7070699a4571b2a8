-- ===== src/Client/Examples/Reconnected.antt =====
-- Clients that connect again, and messages that they read.
use fastapi_ws_rpc.Base.{ℕ, ◌+◌, ◌≡◌, refl, true, false, Option, none, some, List, [], ◌∷◌, arith}
use fastapi_ws_rpc.Base.Dict.{Dict, lookup, insert}
use fastapi_ws_rpc.Values.{
  Json, Exn, exn, Outcome, ok, raised, value_error, timeout_error, connection_closed,
}
use fastapi_ws_rpc.Schemas.{JsonRpcResponse}
use fastapi_ws_rpc.MethodInvoker.{Methods, Call, value}
use fastapi_ws_rpc.Pydantic.Strict.{strict}
use fastapi_ws_rpc.ProtocolHandler.{Handler}
use fastapi_ws_rpc.Config.{post_init_keepalive, keepalive_enabled}
use fastapi_ws_rpc.Channel.{Channel, handler}
use fastapi_ws_rpc.Client.{is_connected}
use fastapi_ws_rpc.Client.Negotiating.{
  establish_websocket, validate_subprotocol, prepare_connection_kwargs, fall_back,
}
use fastapi_ws_rpc.Client.Connecting.{Attempt, wrap_socket, connect}
use fastapi_ws_rpc.Client.Connected.{Opens, Accepts}
use fastapi_ws_rpc.Client.Reconnecting.{attempt_reconnection}
use fastapi_ws_rpc.Client.Shutting.{begin_close, finish_close}
use fastapi_ws_rpc.Client.Readiness.{connect_unanswered}
use fastapi_ws_rpc.Client.Reading.{Close, refused, reader_round, ws_close_code_normal}
use fastapi_ws_rpc.Client.Losing.{reader_round_lost}
use fastapi_ws_rpc.Client.Reopening.{attempt_reconnection_resets, close_reopened}
use fastapi_ws_rpc.Client.Operating.{closes, connects, reads, runs, run}
use fastapi_ws_rpc.Client.Runs.{IsValid, run_from_init-IsValid}
use fastapi_ws_rpc.Client.Examples.{
  config, fresh, env, socket, answer, accepting, uniform, up, init-fresh,
}

abbrev answering : (ℕ → Outcome JsonRpcResponse) → Attempt
answering answers = record accepting { answers = answers }

up-Opens : (answers : ℕ → Outcome JsonRpcResponse) → Opens env (answering answers) socket up
unfolding establish_websocket fall_back prepare_connection_kwargs validate_subprotocol wrap_socket
    post_init_keepalive keepalive_enabled lookup insert
up-Opens answers = record {
  established = refl;
  negotiated = refl;
  wrapped = refl;
  constructed = refl;
  live = refl;
  keepalive = refl;
}

up-Accepts : Accepts env accepting socket up
up-Accepts = record {
  opens = up-Opens (λ n. ok answer);
  answer = answer;
  answered = refl;
  callbacks = refl;
}

attempt_reconnection_resets_example :
    is_connected env (attempt_reconnection env (λ n. accepting) uniform up).1 ≡ true
attempt_reconnection_resets_example =
    (attempt_reconnection_resets env (λ n. accepting) uniform socket up refl (omega arith)
      up-Accepts).1

abbrev transmit : List (Dict Json) → Dict Json → Option Exn
transmit sent d = none

abbrev methods : Methods
methods name = none

abbrev call : Call Channel
call name arguments c = (ok (value Json.null), c)

abbrev own : Handler Channel
own = handler strict transmit methods call (λ j. "value") (λ cls. "Error") false

abbrev normal_close : Exn
normal_close = exn connection_closed "received 1000 (OK)"

abbrev rcvd : Exn → Option Close
rcvd e = some (record { code = ws_close_code_normal; reason = "" })

close_reopened_example :
    let closed =
      (finish_close env (reader_round rcvd own (refused normal_close) (begin_close env up))).1 in
    (attempt_reconnection env (λ n. accepting) uniform closed).1.closing ≡ false
close_reopened_example =
    (close_reopened env (λ n. accepting) uniform rcvd own normal_close socket up refl refl refl
      (omega arith) refl refl up-Accepts).4

abbrev bad : ℕ → Outcome JsonRpcResponse
bad n = raised (exn value_error "bad")

abbrev late : ℕ → Outcome JsonRpcResponse
late n = raised (exn timeout_error "")

connect_unanswered_example : (connect env (answering late) up).1.pings ≡ 0 + 5
connect_unanswered_example =
    (connect_unanswered env (answering late) socket up (up-Opens late) (λ n. refl) refl).2

reader_round_lost_example :
    (reader_round rcvd own (refused normal_close) up).connection_closed ≡ true
reader_round_lost_example = (reader_round_lost rcvd own normal_close up refl refl).1

run_from_init-IsValid_example : IsValid (
    run env
      (connects accepting
        ∷ reads rcvd own (refused normal_close)
        ∷ runs (λ n. accepting) uniform
        ∷ closes
        ∷ [])
      fresh)
run_from_init-IsValid_example =
    run_from_init-IsValid env config fresh
      (connects accepting
        ∷ reads rcvd own (refused normal_close)
        ∷ runs (λ n. accepting) uniform
        ∷ closes
        ∷ [])
      init-fresh
