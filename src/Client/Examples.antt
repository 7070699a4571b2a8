-- ===== src/Client/Examples.antt =====
-- A client with three attempts to reconnect, and what it meets.
mod Reconnected
mod Entered
mod Called
use fastapi_ws_rpc.Base.{
  ℕ, suc, ◌+◌, ◌*◌, ◌^◌, ◌≤◌, ◌≡◌, refl, String, Bool, true, false, Option, none, some, List, [],
  ◌∷◌, ◌++◌, arith, is_none, is_some, if◌then◌else◌,
}
use fastapi_ws_rpc.Base.Int.{ℤ, pos, pos_part}
use fastapi_ws_rpc.Base.Dict.{Dict, lookup, insert, contains}
use fastapi_ws_rpc.Values.{
  Json, end, RpcId, str_id, ExnClass, Exn, exn, Outcome, ok, raised, os_error, value_error,
  timeout_error, connection_closed, other, rpc_message_too_large,
}
use fastapi_ws_rpc.Schemas.{JsonRpcResponse, JsonRpcRequest, call_id_of}
use fastapi_ws_rpc.MethodInvoker.{Methods, Call, value}
use fastapi_ws_rpc.Pydantic.Strict.{strict}
use fastapi_ws_rpc.Pydantic.Strict.Lawful.{strict-laws}
use fastapi_ws_rpc.ProtocolHandler.{Handler, result_response}
use fastapi_ws_rpc.PromiseManager
use fastapi_ws_rpc.Config.{
  WebSocketRpcClientConfig, validate, validate_connection, validate_websocket, post_init_keepalive,
  keepalive_enabled,
}
use fastapi_ws_rpc.Config.Presets.{default_connection, development_defaults}
use fastapi_ws_rpc.Channel
use fastapi_ws_rpc.Channel.{Channel, is_closed, handler}
use fastapi_ws_rpc.SendQueue
use fastapi_ws_rpc.Keepalive
use fastapi_ws_rpc.Keepalive.{RpcKeepalive, Round, ping, send_protocol_ping, is_running, nothing}
use fastapi_ws_rpc.Client.{
  Socket, Reader, no_reader, reading, failed, Client, Env, Job, reconnect_job, init, is_connected,
}
use fastapi_ws_rpc.Client.Shutting.{close}
use fastapi_ws_rpc.Client.Negotiating.{
  establish_websocket, validate_subprotocol, prepare_connection_kwargs, fall_back,
}
use fastapi_ws_rpc.Client.Connecting.{Attempt, wrap_socket, connect}
use fastapi_ws_rpc.Client.Connected.{Opens, Accepts}
use fastapi_ws_rpc.Client.Closing.{Tolerates, IsShut, close-IsShut, close_crashed_keepalive}
use fastapi_ws_rpc.Client.Backoff.{delay_bounds}
use fastapi_ws_rpc.Client.Reconnecting.{max_delay, capped_delay, delay, attempt_reconnection}
use fastapi_ws_rpc.Client.Attempts.{attempt_reconnection_ends}
use fastapi_ws_rpc.Client.Exhaustion.{
  attempt_reconnection_exhausted, attempt_reconnection_permanent,
}

abbrev pub config : WebSocketRpcClientConfig
config = record development_defaults {
  connection = record default_connection {
    auto_reconnect = true;
    reconnect_delay = pos 1000;
    max_reconnect_attempts = pos 3;
  };
  keepalive = record {
    interval = pos 30_000;
    max_consecutive_failures = pos 3;
    use_protocol_ping = true;
  };
}

abbrev pub fresh : Client
fresh = record {
  config = config;
  connect_kwargs = ("open_timeout", Json.int (pos 30)) ∷ [];
  ws = none;
  channel = none;
  reader = no_reader;
  keepalive = none;
  connection_closed = false;
  closing = false;
  close_code = none;
  close_reason = none;
  reconnect_attempt = 0;
  is_reconnecting = false;
  scheduled = [];
  connects = 0;
  pings = 0;
  slept = 0;
  dropped = [];
  strays = [];
}

pub init-fresh : init config ≡ ok fresh
unfolding init validate validate_connection validate_websocket lookup insert
init-fresh = refl

abbrev pub env : Env
env = record { reports_closed = false; os_timeout = true; ws_close = none; callbacks = none }

pub env-Tolerates : Tolerates env
env-Tolerates = record { socket = refl; callbacks = refl }

abbrev pub socket : Socket
socket = record { subprotocol = some "jsonrpc2.0"; has_ended = false }

abbrev pub answer : JsonRpcResponse
answer = result_response (str_id "u1") (Json.str "pong")

abbrev pub accepting : Attempt
accepting = record {
  connect = λ kwargs. ok socket;
  wrap = λ limited. none;
  make_channel = none;
  answers = λ n. ok answer;
  callbacks = none;
}

abbrev pub refusing : ExnClass → Attempt
refusing cls = record accepting { connect = λ kwargs. raised (exn cls "refused") }

abbrev pub uniform : ℕ → ℕ → ℕ
uniform n bound = 0

uniform-le : (n bound : ℕ) → uniform n bound ≤ bound
uniform-le n bound = omega arith

abbrev pub keepalive : RpcKeepalive
keepalive = record (Keepalive.new (pos 30_000) (pos 3) true true) { task = Keepalive.running }

-- A client that reads.
abbrev pub up : Client
up = record fresh {
  ws = some socket;
  channel = some (Channel.init true false none none);
  reader = reading;
  keepalive = some keepalive;
}

close-IsShut_example :
    let (r, c') = close env up in
    (r ≡ ok tt) × IsShut env c' × (is_connected env c' ≡ false) × (close env c' ≡ (ok tt, c'))
close-IsShut_example = close-IsShut env up refl env-Tolerates refl refl

-- Its ping meets the end of the connection.
abbrev dead : Round
dead = record {
  has_ping = true;
  has_send_ping = false;
  frame = raised (exn connection_closed "no close frame");
  answer = ok nothing;
}

close_crashed_keepalive_example :
    let c = record up { keepalive = some (Keepalive.keepalive_round dead keepalive) } in
    (close env c).1.reader ≡ reading
unfolding ping send_protocol_ping is_running
close_crashed_keepalive_example =
    (close_crashed_keepalive env
      (record up { keepalive = some (Keepalive.keepalive_round dead keepalive) }) keepalive dead
      (exn connection_closed "no close frame") refl env-Tolerates refl refl refl refl refl).1

delay_bounds_example :
    (capped : ℕ) × (next : ℕ) × (d : ℕ) × (capped_delay (pos 1000) 2 ≡ ok capped)
    × (capped_delay (pos 1000) 3 ≡ ok next)
    × (delay (uniform 2) (pos 1000) 2 ≡ ok d)
    × (capped ≤ d)
    × (4 * d ≤ 5 * capped)
    × (d ≤ 75_000)
    × (capped ≤ next)
    × (pos_part (pos 1000) * 2 ^ 2 ≤ max_delay → capped ≡ pos_part (pos 1000) * 2 ^ 2)
    × (delay (uniform 2) (pos 1000) (1024 + 0)
        ≡ raised (exn (other "OverflowError") "int too large to convert to float"))
delay_bounds_example = delay_bounds (uniform 2) (pos 1000) 2 0 (uniform-le 2) (omega arith)

attempt_reconnection_ends_example :
    (attempt_reconnection env (λ n. accepting) uniform up).1.connects ≤ 0 + 3
attempt_reconnection_ends_example =
    (attempt_reconnection_ends env (λ n. accepting) uniform uniform-le up refl
      (omega arith)).spends.connects

attempt_reconnection_exhausted_example :
    (attempt_reconnection env (λ n. refusing os_error) uniform up).1.connects ≡ 0 + 3
attempt_reconnection_exhausted_example =
    (attempt_reconnection_exhausted env (λ n. refusing os_error) uniform up (exn os_error "refused")
      refl refl env-Tolerates refl refl (λ n kwargs. refl) refl (omega arith)).connects
