-- ===== src/Client/Calling.antt =====
-- `call`, `other`, `wait_on_reader`, `close_code` and `close_reason` of
-- fastapi_ws_rpc/websocket_rpc_client.py.
use fastapi_ws_rpc.Base.{ℕ, String, true, Option, none, some, List}
use fastapi_ws_rpc.Base.Dict.{Dict}
use fastapi_ws_rpc.Values.{Json, Fields, Exn, exn, Outcome, ok, raised, rpc_invalid_state}
use fastapi_ws_rpc.Pydantic.{Pydantic}
use fastapi_ws_rpc.PromiseManager.{RpcPromise}
use fastapi_ws_rpc.Channel.{Channel, Timeout, given, async_call}
use fastapi_ws_rpc.Channel.Callable.{or_empty}
use fastapi_ws_rpc.Client.{Reader, failed, Client, Env, validate_connected}

-- The timeout that `call` passes to the channel: its own argument, `None` included.
unfoldable pub call_timeout : Option ℕ → Timeout
call_timeout timeout = given timeout

abbrev pub with_channel : {A : Type 0} → Client → Outcome A × Channel → Outcome A × Client
with_channel c (r, ch) = (r, record c { channel = some ch })

-- `call`, up to its wait for the response: the promise, and how long it waits.
unfoldable pub begin_call :
    Env
    → Pydantic
    → (List (Dict Json) → Dict Json → Option Exn)
    → ℕ
    → String
    → String
    → Option Fields
    → Client
    → Outcome RpcPromise × Client
unfolding validate_connected async_call
begin_call env py transmit now uid name args c = elim (validate_connected env c) [
  | raised e ↦ (raised e, c)
  | ok u ↦ elim c.channel [
    | none ↦ (raised (exn rpc_invalid_state "RPC channel not initialized."), c)
    | some ch ↦ with_channel c (async_call py transmit true now uid name (or_empty args) none ch)
  ]
]

-- `wait_on_reader`, once the task has ended: what it raises.
unfoldable pub wait_on_reader : Reader → Outcome (Unit {0})
wait_on_reader (failed e) = raised e
wait_on_reader _ = ok tt
