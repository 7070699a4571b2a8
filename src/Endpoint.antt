-- ===== src/Endpoint.antt =====
-- fastapi_ws_rpc/connection_manager.py and `WebSocketRpcEndpoint` of
-- fastapi_ws_rpc/websocket_rpc_endpoint.py: the tracking of connections and the loop that serves one
-- of them. A websocket is its identity, a number. What the socket and the clock do is given round by
-- round; times are milliseconds. Two tests depend on the Python version and on pydantic and are
-- arguments: whether `asyncio.TimeoutError` is an `OSError`, and the flag of `Pydantic`.
pub mod Serving
pub mod IdleTimeout
pub mod Starting
mod Examples
use fastapi_ws_rpc.Base.{
  ℕ, suc, ◌+◌, String, Bool, true, false, not, ◌&&◌, ◌||◌, Option, none, some, List, [], ◌∷◌, ◌++◌,
  nat_eq, leb, length, if◌then◌else◌,
}
use fastapi_ws_rpc.Base.Dict.{Dict}
use fastapi_ws_rpc.Values.{
  Json, ExnClass, Exn, exn, Outcome, ok, raised, value_error, validation_error, type_error,
  runtime_error, connection_error, os_error, cancelled_error, timeout_error, web_socket_disconnect,
  other,
}
use fastapi_ws_rpc.ProtocolHandler.{Handler}
use fastapi_ws_rpc.Channel.{Channel, is_closed, on_disconnect, on_message}

-- `ConnectionManager.active_connections`
abbrev pub Connections : Type 0
Connections = List ℕ

-- `connect`, once the websocket is accepted.
unfoldable pub connect : ℕ → Connections → Connections
connect w active = active ++ (w ∷ [])

-- `disconnect`: the first occurrence is removed, if there is one.
unfoldable pub disconnect : ℕ → Connections → Connections
disconnect w [] = []
disconnect w (x ∷ active) =
    let rest = disconnect w active in if nat_eq x w then active else x ∷ rest

unfoldable pub is_connected : ℕ → Connections → Bool
is_connected w [] = false
is_connected w (x ∷ active) = nat_eq x w || is_connected w active

unfoldable pub get_connection_count : Connections → ℕ
get_connection_count active = length active

-- The subprotocol that is passed to `accept`.
abbrev pub offered : Option (List String) → Option String
offered none = none
offered (some []) = none
offered (some (s ∷ ss)) = some s

-- `scope.get("subprotocols", [None])[0]`, where subprotocols are configured.
unfoldable pub negotiated : Option (List String) → Option (List String) → Outcome (Option String)
negotiated configured requested = elim (offered configured) [
  | none ↦ ok none
  | some s ↦ elim requested [
    | none ↦ ok none
    | some names ↦ elim names [
      | [] ↦ raised (exn (other "IndexError") "list index out of range")
      | n ∷ ns ↦ ok (some n)
    ]
  ]
]

-- The endpoint while it serves the websocket `websocket`, and what calling the disconnect callbacks
-- raises, a cancellation included.
pub record Connection : Type 0 where
  pub websocket : ℕ
  pub active : Connections
  pub channel : Channel
  pub disconnecting : Option Exn

-- The websocket is untracked first; the callbacks of a channel that is closed are not called again.
unfoldable pub handle_disconnect : Connection → Outcome (Unit {0}) × Connection
unfolding disconnect on_disconnect
handle_disconnect c = (
  if is_closed c.channel then ok tt else elim c.disconnecting [ none ↦ ok tt | some e ↦ raised e ],
  record c { active = disconnect c.websocket c.active; channel = on_disconnect c.channel },
)

-- How a `recv` with its timeout ends.
pub data Received : Type 0 where
  received : Json → Received
  timed_out : Received
  failed : Exn → Received

-- One round: the clock before `recv`, its end, and the clock after it.
pub record Round : Type 0 where
  pub before : ℕ
  pub result : Received
  pub after : ℕ

-- How the loop ends: it returns, an exception leaves it, or it still waits.
pub data Exit : Type 0 where
  returns waits : Exit
  escapes : Exn → Exit

-- The classes of the inner `except` clauses. `ConnectionError` is an `OSError`.
abbrev pub is_connection_failure : Bool → ExnClass → Bool
is_connection_failure os_timeout web_socket_disconnect = true
is_connection_failure os_timeout runtime_error = true
is_connection_failure os_timeout connection_error = true
is_connection_failure os_timeout os_error = true
is_connection_failure os_timeout cancelled_error = true
is_connection_failure os_timeout timeout_error = os_timeout
is_connection_failure os_timeout _ = false

-- `except asyncio.TimeoutError` around `recv`
abbrev pub is_timeout : ExnClass → Bool
is_timeout timeout_error = true
is_timeout _ = false

-- The classes of the outer `except` clause.
abbrev pub is_start_failure : Bool → Bool → ExnClass → Bool
is_start_failure os_timeout subclass runtime_error = true
is_start_failure os_timeout subclass connection_error = true
is_start_failure os_timeout subclass os_error = true
is_start_failure os_timeout subclass value_error = true
is_start_failure os_timeout subclass type_error = true
is_start_failure os_timeout subclass timeout_error = os_timeout
is_start_failure os_timeout subclass validation_error = subclass
is_start_failure os_timeout subclass _ = false

-- `idle_timeout - (now - last) <= 0`
abbrev pub is_idle : Option ℕ → ℕ → ℕ → Bool
is_idle none last now = false
is_idle (some idle_timeout) last now = leb (last + idle_timeout) now

module _ (h : Handler Channel) (os_timeout : Bool) (idle_timeout : Option ℕ) where
  -- The outer `except` clause.
  unfoldable pub on_outer_exception : Exn → Connection → Exit × Connection
  unfolding disconnect
  on_outer_exception e c =
      if is_start_failure os_timeout h.py.validation_is_value_error e.cls
      then (returns, record c { active = disconnect c.websocket c.active })
      else (escapes e, c)

  -- `handle_disconnect` where an exception of it goes to the given handler.
  unfoldable pub disconnecting_to :
      (Exn → Connection → Exit × Connection) → Connection → Exit × Connection
  unfolding handle_disconnect
  disconnecting_to handler c = elim (handle_disconnect c).0 [
    | ok u ↦ (returns, (handle_disconnect c).1)
    | raised e ↦ handler e (handle_disconnect c).1
  ]

  -- The handlers around the loop: what the inner clauses raise only the outer one sees.
  unfoldable pub on_exception : Exn → Connection → Exit × Connection
  unfolding disconnecting_to on_outer_exception
  on_exception e c =
      if is_connection_failure os_timeout e.cls
      then disconnecting_to on_outer_exception c
      else on_outer_exception e c

  -- The loop gives up an idle connection, within the inner `try`.
  unfoldable pub give_up : Connection → Exit × Connection
  unfolding disconnecting_to on_exception
  give_up c = disconnecting_to on_exception c

  -- A message was handled: the loop goes on, or the handler's exception ends it.
  unfoldable pub continue_loop :
      (Connection → Exit × Connection)
      → Outcome (Unit {0}) × Channel
      → Connection
      → Exit × Connection
  unfolding on_exception
  continue_loop next (ok u, channel) c = next (record c { channel = channel })
  continue_loop next (raised e, channel) c = on_exception e (record c { channel = channel })

  -- The rest of a round, by the end of `recv`.
  unfoldable pub after_recv :
      (Connection → Exit × Connection) → Received → Connection → Exit × Connection
  unfolding give_up on_exception continue_loop on_message
  after_recv next (received message) c = continue_loop next (on_message h message c.channel) c
  after_recv next timed_out c = give_up c
  after_recv next (failed e) c = if is_timeout e.cls then give_up c else on_exception e c

  -- The `while` loop of `main_loop`, over the rounds that the socket and the clock play.
  unfoldable pub serve : List Round → ℕ → Connection → Exit × Connection
  unfolding give_up after_recv
  serve [] last c = (waits, c)
  serve (r ∷ rs) last c =
      let next = λ (c' : Connection). serve rs r.after c' in
      if is_idle idle_timeout last r.before then give_up c else after_recv next r.result c
