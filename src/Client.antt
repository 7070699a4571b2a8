-- ===== src/Client.antt =====
-- fastapi_ws_rpc/websocket_rpc_client.py: the state of `WebSocketRpcClient` and its
-- checks. A task that the client creates is an entry of `scheduled` until it runs. `connects`,
-- `pings` and `slept` (milliseconds) count what reconnecting does. Where the attributes `channel`
-- and `_keepalive` get a new object, `dropped` and `strays` hold what they referred to before.
pub mod Text
pub mod Shutting
pub mod Negotiating
pub mod Connecting
pub mod Reconnecting
pub mod Reading
pub mod Closing
pub mod Backoff
pub mod Costs
pub mod ConnectCosts
pub mod Attempts
pub mod Connected
pub mod Refusals
pub mod Exhaustion
pub mod Reopening
pub mod Runs
pub mod Options
pub mod Losing
pub mod Readiness
pub mod Calling
pub mod Delivery
pub mod Operating
pub mod Cleaning
pub mod Entering
pub mod RoundTrip
mod Examples
use fastapi_ws_rpc.Base.{
  ℕ, suc, ◌+◌, String, Bool, true, false, not, ◌&&◌, ◌||◌, Option, none, some, List, [], ◌∷◌, ◌++◌,
  is_some, if◌then◌else◌,
}
use fastapi_ws_rpc.Base.Int.{ℤ, pos, pos_part}
use fastapi_ws_rpc.Base.Dict.{Dict, insert, contains}
use fastapi_ws_rpc.Values.{
  Json, ExnClass, is_exception, Exn, exn, Outcome, ok, raised, value_error, validation_error,
  type_error, runtime_error, attribute_error, connection_closed, web_socket_exception,
  invalid_status, rpc_invalid_state,
}
use fastapi_ws_rpc.Exec.{Exec, pure, raise, lift, ◌>>=◌, ◌>>◌, try}
use fastapi_ws_rpc.Config.{WebSocketRpcClientConfig, validate}
use fastapi_ws_rpc.Channel
use fastapi_ws_rpc.Channel.{Channel, is_closed, on_disconnect}
use fastapi_ws_rpc.Keepalive
use fastapi_ws_rpc.Keepalive.{RpcKeepalive}

-- `ws`: the wrapper around a socket, with the subprotocol that was negotiated.
pub record Socket : Type 0 where
  pub subprotocol : Option String
  pub has_ended : Bool

-- `_read_task`: none, one that has not run yet, one that reads, one that has returned, or one that
-- an exception ended.
pub data Reader : Type 0 where
  no_reader created reading finished : Reader
  failed : Exn → Reader

-- What a task created by `asyncio.create_task` runs.
pub data Job : Type 0 where
  close_job reconnect_job : Job

pub record Client : Type 0 where
  pub config : WebSocketRpcClientConfig
  pub connect_kwargs : Dict Json
  pub ws : Option Socket
  pub channel : Option Channel
  pub reader : Reader
  pub keepalive : Option RpcKeepalive
  pub connection_closed : Bool
  pub closing : Bool
  pub close_code : Option ℕ
  pub close_reason : Option String
  pub reconnect_attempt : ℕ
  pub is_reconnecting : Bool
  pub scheduled : List Job
  pub connects : ℕ
  pub pings : ℕ
  pub slept : ℕ
  pub dropped : List Channel
  pub strays : List RpcKeepalive

-- What the client relies on outside: whether the socket has an attribute `closed` and whether
-- `asyncio.TimeoutError` is an `OSError`, which depend on versions, what closing the socket raises,
-- and what calling the disconnect callbacks raises.
pub record Env : Type 0 where
  pub reports_closed : Bool
  pub os_timeout : Bool
  pub ws_close : Option Exn
  pub callbacks : Option Exn

-- `dict.setdefault`
abbrev pub set_default : String → Json → Dict Json → Dict Json
set_default k v d = if contains k d then d else insert k v d

-- `WebSocketRpcClient.__init__`, where the configuration is given. Seconds are kept in what is
-- passed to `websockets.connect`.
unfoldable pub init : WebSocketRpcClientConfig → Outcome Client
unfolding validate
init config = elim (validate config) [
  | raised e ↦ raised e
  | ok u ↦ ok (record {
    config = config;
    connect_kwargs = set_default "open_timeout" (Json.int (pos 30)) config.websocket_kwargs;
    ws = none;
    channel = none;
    reader = no_reader;
    keepalive = none;
    connection_closed = false;
    closing = false;
    close_code = none;
    close_reason = none;
    reconnect_attempt = 0;
    is_reconnecting = false;
    scheduled = [];
    connects = 0;
    pings = 0;
    slept = 0;
    dropped = [];
    strays = [];
  })
]

-- Nothing, or the exception.
abbrev pub outcome_of : Option Exn → Outcome (Unit {0})
outcome_of none = ok tt
outcome_of (some e) = raised e

-- `asyncio.create_task`
abbrev pub schedule : Job → Client → Client
schedule j c = record c { scheduled = c.scheduled ++ (j ∷ []) }

-- `_read_task is not None and not _read_task.done()`
abbrev pub is_live : Reader → Bool
is_live created = true
is_live reading = true
is_live _ = false

abbrev pub is_channel_open : Option Channel → Bool
is_channel_open none = false
is_channel_open (some ch) = not (is_closed ch)

-- `ws.close()`: the socket has ended, also if that raises.
abbrev pub end_socket : Client → Client
end_socket c = elim c.ws [
  | none ↦ c
  | some s ↦ record c { ws = some (record s { has_ended = true }) }
]

module _ (env : Env) where
  -- `getattr(self.ws, "closed", False)`
  abbrev pub seems_closed : Socket → Bool
  seems_closed s = env.reports_closed && s.has_ended

  unfoldable pub validate_connected : Client → Outcome (Unit {0})
  validate_connected c = elim c.ws [
    | none ↦ raised (exn rpc_invalid_state "WebSocket not initialized.")
    | some s ↦
        if not (is_some c.channel)
        then raised (exn rpc_invalid_state "RPC channel not initialized.")
        else if seems_closed s
        then raised (exn rpc_invalid_state "WebSocket connection is closed.")
        else ok tt
  ]

  unfoldable pub is_connected : Client → Bool
  is_connected c = elim c.ws [
    | none ↦ false
    | some s ↦ not (seems_closed s) && is_channel_open c.channel && is_live c.reader
  ]
