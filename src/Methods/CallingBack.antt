-- ===== src/Methods/CallingBack.antt =====
-- The answers to calls back: over any `RpcCallable` that keeps its contract, and over the channel.
use fastapi_ws_rpc.Base.{
  ℕ, String, ◌≡◌, sym, ap, ◌∙◌, Bool, true, false, Option, some, List, arith, eq_iff, ◌==◌,
  if◌then◌else◌, Option-cases, inl, inr,
}
use fastapi_ws_rpc.Base.Dict.{Dict, lookup, lookup-insert}
use fastapi_ws_rpc.Values.{Json, Fields, str_id, Exn, exn, Outcome, ok, raised, key_error}
use fastapi_ws_rpc.Schemas.{JsonRpcResponse, call_id_of}
use fastapi_ws_rpc.Pydantic.{Pydantic}
use fastapi_ws_rpc.PromiseManager
use fastapi_ws_rpc.PromiseManager.{
  PromiseManager, RpcPromise, call_id, create_promise, store_response, store_at,
}
use fastapi_ws_rpc.Protocols.{RpcCallable, Laws}
use fastapi_ws_rpc.Channel.{Channel, async_call, call_id_or}
use fastapi_ws_rpc.Channel.Calling.{create_promise-Files, call_id-new_request}
use fastapi_ws_rpc.Channel.Callable.{get_saved_response, clear_saved_call, callable}
use fastapi_ws_rpc.Channel.Callable.Contract.{async_call-made, callable-Laws}
use fastapi_ws_rpc.Methods.{
  MethodsObject, AsyncCall, call_me_back, run_call, take_response, get_response,
}

-- A saved response is given out once: after that the call id is unknown.
get_response_once :
    {S Promise : Type 0} (rpc : RpcCallable S Promise) (IsValid : S → Type 0) (k : String)
    (m : MethodsObject) (c : ℕ) (r : JsonRpcResponse) (s : S)
    → Laws rpc rpc IsValid
    → m.channel ≡ some c
    → rpc.get_saved_response k s ≡ ok r
    → (get_response rpc k m s ≡ (ok (some r), rpc.clear_saved_call k s))
      × (get_response rpc k m (rpc.clear_saved_call k s)
          ≡ (raised (exn key_error k), rpc.clear_saved_call k s))
unfolding get_response take_response
get_response_once rpc IsValid k m c r s laws bound saved =
    (ground (arith, bound, saved), ground (arith, bound, laws.cleared k s))

-- A stored response is saved under its id.
saved_stored :
    (k : String) (p : RpcPromise) (r : JsonRpcResponse) (m : PromiseManager)
    → r.id ≡ some (str_id k)
    → lookup k m.requests ≡ some p
    → PromiseManager.get_saved_response k (store_response r m).1 ≡ ok r
unfolding PromiseManager.get_saved_response store_response store_at call_id_of
saved_stored k p r m names pending =
    ground (arith, names, pending, eq_iff k k, lookup-insert k k r m.responses)

-- A call back that creates a task does so on the object's channel, with the id that it returns.
call_me_back_bound :
    (k name : String) (args : Option Fields) (m : MethodsObject) (call : AsyncCall)
    → call_me_back k name args m ≡ (k, some call)
    → (n : ℕ) × (m.channel ≡ some n) × (call.call_id ≡ k)
unfolding call_me_back
call_me_back_bound k name args m call back = elim (Option-cases m.channel) [
  | inl unbound ↦ absurd (ground (arith, unbound))
  | inr (n, bound) ↦ (n, bound, ground (arith, bound))
]

module _ (py : Pydantic) (transmit : List (Dict Json) → Dict Json → Option Exn) (now : ℕ)
    (uid : String) where
  -- A call that returns has left its promise pending under its id.
  async_call-pending :
      (name : String) (args : Fields) (k : String) (p : RpcPromise) (c t : Channel)
      → (k == "") ≡ false
      → async_call py transmit true now uid name args (some k) c ≡ (ok p, t)
      → lookup k t.promises.requests ≡ some p
  unfolding call_id call_id_of
  async_call-pending name args k p c t named made =
      let (q, asked, promised) =
        async_call-made py transmit now uid name args (some k) p c t made in
      let key : call_id p ≡ call_id_of (some (str_id k)) =
        call_id-new_request (str_id (call_id_or (some k) uid)) name args true now q p c.promises
          t.promises asked promised
        ∙ ap (λ (b : Bool). call_id_of (some (str_id (if b then uid else k)))) named in
      let filed =
        (create_promise-Files true now q c.promises).files p
          (ap (λ (r : Outcome RpcPromise × PromiseManager). r.0) promised) in
      ap (λ (x : String). lookup x t.promises.requests) (sym key)
      ∙ ap (λ (x : Outcome RpcPromise × PromiseManager). lookup (call_id p) x.1.requests)
          (sym promised)
      ∙ filed.1

  -- If call_me_back returns an id that is not empty and a task, and the task runs on the channel
  -- and its call returns, then a response with that id that is stored next is what get_response
  -- returns, and a further get_response for the id raises KeyError.
  pub call_me_back_answered :
      (id name k : String) (default_response_timeout : Option ℕ) (args : Option Fields)
      (m : MethodsObject) (call : AsyncCall) (p : RpcPromise) (r : JsonRpcResponse) (c t : Channel)
      → (k == "") ≡ false
      → call_me_back k name args m ≡ (k, some call)
      → let rpc = callable py transmit now uid id default_response_timeout in
        run_call rpc call c ≡ (ok p, t)
        → r.id ≡ some (str_id k)
        → let rpc = callable py transmit now uid id default_response_timeout in
          let stored = record t { promises = (store_response r t.promises).1 } in
          let u = clear_saved_call k stored in
          (get_response rpc k m stored ≡ (ok (some r), u))
          × (get_response rpc k m u ≡ (raised (exn key_error k), u))
  unfolding run_call callable get_saved_response clear_saved_call
  call_me_back_answered id name k timeout args m call p r c t named back ran names =
      let (n, bound, same) = call_me_back_bound k name args m call back in
      let pending = async_call-pending call.method_name call.args k p c t named (
        ap
          (λ (x : String).
            async_call py transmit true now uid call.method_name call.args (some x) c)
          (sym same)
        ∙ ran) in
      get_response_once (callable py transmit now uid id timeout) _ k m n r
        (record t { promises = (store_response r t.promises).1 })
        (callable-Laws py transmit now now uid uid id timeout) bound
        (saved_stored k p r t.promises names pending)
