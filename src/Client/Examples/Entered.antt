-- ===== src/Client/Examples/Entered.antt =====
-- A client that retries, whose first connection is refused.
use fastapi_ws_rpc.Base.{ℕ, zero, suc, ◌≤◌, ◌<◌, ◌≡◌, refl, true, Option, none, arith}
use fastapi_ws_rpc.Base.Dict.{lookup, insert}
use fastapi_ws_rpc.Values.{Exn, exn, os_error}
use fastapi_ws_rpc.Config.{post_init_keepalive, keepalive_enabled}
use fastapi_ws_rpc.Config.Presets.{production_retry}
use fastapi_ws_rpc.Retry.Loop.{retry, retry-laws}
use fastapi_ws_rpc.Client.{Client, is_connected}
use fastapi_ws_rpc.Client.Negotiating.{
  establish_websocket, validate_subprotocol, prepare_connection_kwargs, fall_back,
}
use fastapi_ws_rpc.Client.Connecting.{Attempt, wrap_socket}
use fastapi_ws_rpc.Client.Connected.{Accepts}
use fastapi_ws_rpc.Client.Refusals.{Refuses}
use fastapi_ws_rpc.Client.Entering.{aenter, aenter-aexit}
use fastapi_ws_rpc.Client.Examples.{
  config, fresh, env, env-Tolerates, socket, answer, accepting, refusing,
}

abbrev new : Client
new = record fresh { config = record config { retry = production_retry } }

abbrev attempts : ℕ → Attempt
attempts zero = refusing os_error
attempts (suc n) = accepting

abbrev errors : ℕ → Exn
errors n = exn os_error "refused"

abbrev status_code : Exn → Option ℕ
status_code e = none

first-Refuses : (i : ℕ) → 0 ≤ i → i < 1 → Refuses (errors i) (attempts i)
first-Refuses zero above below = λ kwargs. refl
first-Refuses (suc i) above below = absurd (omega (arith, below))

new-Accepts : Accepts env accepting socket new
unfolding establish_websocket fall_back prepare_connection_kwargs validate_subprotocol wrap_socket
    post_init_keepalive keepalive_enabled lookup insert
new-Accepts = record {
  opens = record {
    established = refl;
    negotiated = refl;
    wrapped = refl;
    constructed = refl;
    live = refl;
    keepalive = refl;
  };
  answer = answer;
  answered = refl;
  callbacks = refl;
}

aenter-aexit_example : is_connected env (aenter env attempts retry status_code new).1 ≡ true
aenter-aexit_example =
    (aenter-aexit env attempts retry retry-laws status_code errors 1 socket new refl (omega arith)
      refl refl env-Tolerates first-Refuses new-Accepts).1
