-- ===== src/Channel.antt =====
-- fastapi_ws_rpc/rpc_channel.py. A channel holds the promise manager, the flags of its closure and
-- what it has sent. The socket is not modelled beyond its effects: `transmit` says for the messages
-- sent so far and the next one whether the socket's `send` raises. Sends are atomic here; the module
-- SendQueue interleaves them. `disconnect_runs` counts how often the disconnect callbacks were
-- invoked (those of `on_error` in `error_runs`), `socket_closes` how often `socket.close()` was called.
pub mod Calling
pub mod Examples
pub mod Lifecycle
pub mod Callbacks
pub mod IdSync
pub mod RoundTrip
pub mod Callable
use fastapi_ws_rpc.Base.{
  ℕ, suc, ◌+◌, ◌-◌, String, Bool, true, false, ◌||◌, ◌&&◌, not, Option, none, some, List, [], ◌∷◌,
  ◌++◌, ◌==◌, ltb, leb, nat_eq, if◌then◌else◌,
}
use fastapi_ws_rpc.Base.Dict.{Dict}
use fastapi_ws_rpc.Values.{
  Json, Fields, field, end, fields, RpcId, str_id, ExnClass, is_exception, Exn, exn, Outcome, ok,
  raised, validation_error, rpc_backpressure, rpc_channel_closed,
}
use fastapi_ws_rpc.Schemas.{JsonRpcRequest, JsonRpcResponse, Params, named, positional, validate_id}
use fastapi_ws_rpc.Exec.{Exec, pure, raise, lift, ◌>>=◌, ◌>>◌, try}
use fastapi_ws_rpc.Pydantic.{Pydantic}
use fastapi_ws_rpc.MethodInvoker.{Methods, Call}
use fastapi_ws_rpc.ProtocolHandler.{Handler, handle_message}
use fastapi_ws_rpc.PromiseManager
use fastapi_ws_rpc.PromiseManager.{
  PromiseManager, RpcPromise, create_promise, resume, store_response,
}
use fastapi_ws_rpc.SendQueue
use fastapi_ws_rpc.SendQueue.{SendQueue, begin, acquire, finish, is_limited}

-- `_duration_watchdog_task`: none was started or `close` dropped it, it sleeps, or it has ended.
pub data Watchdog : Type 0 where
  absent sleeping ended : Watchdog

pub record Channel : Type 0 where
  pub promises : PromiseManager
  pub queue : SendQueue
  pub sent : List (Dict Json)
  pub closing : Bool
  pub watchdog : Watchdog
  pub disconnect_runs : ℕ
  pub error_runs : ℕ
  pub socket_closes : ℕ

-- `RpcChannel.__init__`; the second argument says whether `max_connection_duration` is set.
unfoldable pub init : Bool → Bool → Option ℕ → Option ℕ → Channel
unfolding PromiseManager.init SendQueue.init
init loop_running has_duration max_pending max_send = record {
  promises = PromiseManager.init loop_running max_pending none;
  queue = SendQueue.init max_send;
  sent = [];
  closing = false;
  watchdog = if has_duration then sleeping else absent;
  disconnect_runs = 0;
  error_runs = 0;
  socket_closes = 0;
}

abbrev pub is_closed : Channel → Bool
is_closed c = c.promises.closed

-- An operation of the promise manager, on the channel's.
abbrev pub on_promises :
    {A : Type 0} → (PromiseManager → Outcome A × PromiseManager) → Exec Channel A
on_promises f c = let (r, m) = f c.promises in (r, record c { promises = m })

-- The rest of `close`, once it has set the flag: the watchdog is cancelled, the promise manager and
-- the socket are closed.
unfoldable pub close_rest : Channel → Channel
unfolding PromiseManager.close
close_rest c = record c {
  watchdog = absent;
  promises = PromiseManager.close c.promises;
  socket_closes = c.socket_closes + 1;
}

-- `close` up to the point where it waits for the watchdog that it has cancelled; whether it goes on.
unfoldable pub start_close : Channel → Bool × Channel
start_close c =
    if c.closing || is_closed c
    then (false, c)
    else (true, record c { closing = true; watchdog = absent })

-- `close` as a whole, where no other task runs while it waits.
unfoldable pub close : Channel → Channel
unfolding close_rest
close c = if c.closing || is_closed c then c else close_rest (record c { closing = true })

unfoldable pub on_disconnect : Channel → Channel
unfolding PromiseManager.close
on_disconnect c = if is_closed c then c else record c {
  promises = PromiseManager.close c.promises;
  disconnect_runs = c.disconnect_runs + 1;
}

abbrev pub is_sleeping : Watchdog → Bool
is_sleeping sleeping = true
is_sleeping _ = false

-- `_connection_duration_watchdog`, when its sleep is over.
unfoldable pub watchdog_fires : Channel → Channel
unfolding on_disconnect close
watchdog_fires c =
    if is_sleeping c.watchdog
    then (let c' = record c { watchdog = ended } in
        if not (is_closed c') && not c'.closing
        then close (on_disconnect (record c' { closing = true }))
        else c')
    else c

-- `get_remaining_duration`, with the age of the connection.
unfoldable pub get_remaining_duration : Option ℕ → ℕ → Option ℕ
get_remaining_duration none age = none
get_remaining_duration (some limit) age = some (limit - age)

-- `timeout` of `call`: the sentinel, or a value of the caller's, which may be `None`.
pub data Timeout : Type 0 where
  default_timeout : Timeout
  given : Option ℕ → Timeout

unfoldable pub actual_timeout : Option ℕ → Timeout → Option ℕ
actual_timeout default_response_timeout default_timeout = default_response_timeout
actual_timeout default_response_timeout (given t) = t

-- `JsonRpcRequest(id=…, method=…, params=args if args else None)`
abbrev pub params_of : Fields → Option Params
params_of end = none
params_of (field k v fs) = some (named (field k v fs))

unfoldable pub new_request : Option RpcId → String → Fields → Outcome JsonRpcRequest
new_request id name args = elim (validate_id id) [
  | raised e ↦ raised (exn validation_error e.text)
  | ok i ↦ ok (record { jsonrpc = "2.0"; id = i; method = name; params = params_of args })
]

-- `call_id or gen_uid()`; `uid` is the fresh id that `gen_uid()` would give.
abbrev pub call_id_or : Option String → String → String
call_id_or none uid = uid
call_id_or (some s) uid = if s == "" then uid else s

module _ (py : Pydantic) (transmit : List (Dict Json) → Dict Json → Option Exn) where
  -- `self.socket.send(data)`
  socket_send : Dict Json → Exec Channel Unit
  socket_send d c = elim (transmit c.sent d) [
    | none ↦ (ok tt, record c { sent = c.sent ++ (d ∷ []) })
    | some e ↦ (raised e, c)
  ]

  -- The send with its semaphore, where no other send is under way.
  guarded_send : Dict Json → Outcome (Unit {0}) × SendQueue → Exec Channel Unit
  unfolding socket_send acquire finish
  guarded_send d (raised e, q) c = (raised e, record c { queue = q })
  guarded_send d (ok _, q) c =
      let (r, c') = socket_send d (record c { queue = acquire q }) in
      (r, record c' { queue = finish c'.queue })

  unfoldable pub send_raw : Dict Json → Exec Channel Unit
  unfolding guarded_send begin is_limited
  send_raw d c = guarded_send d (begin (is_closed c) c.queue) c

  -- `async_call`
  unfoldable pub async_call :
      Bool → ℕ → String → String → Fields → Option String → Exec Channel RpcPromise
  unfolding new_request create_promise send_raw
  async_call loop_running now uid name args call_id = do
    q ← lift (new_request (some (str_id (call_id_or call_id uid))) name args)
    p ← on_promises (create_promise loop_running now q)
    send_raw (py.dump_request q)
    pure p

  -- `call` ends here once its promise is ready (`PromiseManager.is_ready`).
  unfoldable pub finish_call : RpcPromise → Exec Channel JsonRpcResponse
  unfolding resume
  finish_call p = on_promises (resume p)

  unfoldable pub notify : String → Fields → Exec Channel Unit
  unfolding new_request send_raw
  notify name args = do q ← lift (new_request none name args); send_raw (py.dump_request q)

  -- `self._protocol_handler`: it sends by `send_raw` and stores into the channel's promise manager.
  -- The methods act on the channel, which `call` describes.
  unfoldable pub handler :
      Methods → Call Channel → (Json → String) → (ExnClass → String) → Bool → Handler Channel
  unfolding send_raw store_response
  handler methods call render type_name debug_mode = record {
    py = py;
    methods = methods;
    call = call;
    render = render;
    type_name = type_name;
    send = send_raw;
    store = λ r c. record c { promises = (store_response r c.promises).1 };
    debug_mode = debug_mode;
  }

-- `on_message`: an exception of the handler runs the error callbacks and is raised again.
unfoldable pub on_message : Handler Channel → Json → Exec Channel Unit
unfolding handle_message
on_message h message = try (handle_message h message) (λ e c.
    if is_exception e.cls
    then (raised e, record c { error_runs = c.error_runs + 1 })
    else (raised e, c))
