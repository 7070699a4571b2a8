-- ===== src/Methods.antt =====
-- fastapi_ws_rpc/rpc_methods.py: `RpcMethodsBase` and `RpcUtilityMethods`. The methods objects live in
-- a store, where an object is known by its place; a channel is known by a number. What subclasses add
-- to an object are references under names, which a shallow copy shares.
pub mod Isolation
pub mod CallingBack
mod Examples
use fastapi_ws_rpc.Base.{
  ℕ, zero, suc, ◌+◌, ◌≡◌, refl, String, Bool, true, false, Option, none, some, List, [], ◌∷◌, ◌++◌,
  length, get_elem?, arith,
}
use fastapi_ws_rpc.Base.Dict.{Dict}
use fastapi_ws_rpc.Values.{Json, Exn, exn, Outcome, ok, raised, runtime_error, Fields, end}
use fastapi_ws_rpc.Schemas.{JsonRpcResponse}
use fastapi_ws_rpc.Exec.{Exec}
use fastapi_ws_rpc.Protocols.{RpcCallable}

pub record MethodsObject : Type 0 where
  pub attributes : Dict ℕ
  pub channel : Option ℕ

abbrev pub Store : Type 0
Store = List MethodsObject

abbrev pub set_at : {A : Type 0} → ℕ → A → List A → List A
set_at n a [] = []
set_at zero a (x ∷ xs) = a ∷ xs
set_at (suc n) a (x ∷ xs) = x ∷ set_at n a xs

abbrev pub update : {A : Type 0} → (A → A) → ℕ → List A → List A
update f n [] = []
update f zero (x ∷ xs) = f x ∷ xs
update f (suc n) (x ∷ xs) = x ∷ update f n xs

-- `_set_channel_`
unfoldable pub set_channel : ℕ → ℕ → Store → Store
set_channel channel object store = update (λ m. record m { channel = some channel }) object store

-- `copy.copy(self)`: a new object with the same references.
unfoldable pub copy : MethodsObject → Store → Store
copy m store = store ++ (m ∷ [])

-- What `RpcChannel.__init__` does with the methods object that it is given, whose state is `m`: the
-- place of the copy, and the store.
unfoldable pub attach : ℕ → MethodsObject → Store → ℕ × Store
unfolding copy set_channel
attach channel m store = (length store, set_channel channel (length store) (copy m store))

abbrev pub ping_response : String
ping_response = "pong"

unfoldable pub ping : MethodsObject → String
ping m = ping_response

-- `_get_channel_id_`; the ids of the channels are given.
unfoldable pub get_channel_id : (ℕ → String) → MethodsObject → Outcome String
get_channel_id id m = elim m.channel [
  | none ↦ raised (exn runtime_error "Channel not initialized")
  | some c ↦ ok (id c)
]

-- `channel.async_call(method_name, args=args, call_id=call_id)`, as a task.
pub record AsyncCall : Type 0 where
  pub channel : ℕ
  pub method_name : String
  pub args : Fields
  pub call_id : String

-- `call_me_back`: what it returns, and the task that it creates; `uid` is what `gen_uid()` gives.
unfoldable pub call_me_back :
    String → String → Option Fields → MethodsObject → String × Option AsyncCall
call_me_back uid method_name args m = elim m.channel [
  | none ↦ ("", none)
  | some c ↦ (
    uid,
    some (record {
      channel = c;
      method_name = method_name;
      args = elim args [ none ↦ end | some fs ↦ fs ];
      call_id = uid;
    }),
  )
]

module _ {S Promise : Type 0} (rpc : RpcCallable S Promise) where
  -- The task that `call_me_back` creates, when it runs.
  unfoldable pub run_call : AsyncCall → Exec S Promise
  run_call call = rpc.async_call call.method_name (some call.args) (some call.call_id)

  -- The channel's part of `get_response`: the saved response is cleared once it was found.
  unfoldable pub take_response : String → Exec S (Option JsonRpcResponse)
  take_response call_id s = elim (rpc.get_saved_response call_id s) [
    | raised e ↦ (raised e, s)
    | ok r ↦ (ok (some r), rpc.clear_saved_call call_id s)
  ]

  unfoldable pub get_response : String → MethodsObject → Exec S (Option JsonRpcResponse)
  unfolding take_response
  get_response call_id m s = elim m.channel [
    | none ↦ (ok none, s)
    | some c ↦ take_response call_id s
  ]

unfoldable pub echo : String → String
echo text = text
