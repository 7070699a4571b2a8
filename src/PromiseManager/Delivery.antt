-- ===== src/PromiseManager/Delivery.antt =====
-- How a response reaches the caller that waits for it.
use fastapi_ws_rpc.Base.{
  String, ◌≡◌, ◌≢◌, ap, true, false, ◌⊎◌, inl, inr, none, some, arith, eq_iff, Option-cases,
  if◌then◌else◌,
}
use fastapi_ws_rpc.Base.Dict.{lookup, insert, lookup-insert, lookup-erase}
use fastapi_ws_rpc.Values.{RpcId, ok, raised, exn, timeout_error, rpc_channel_closed}
use fastapi_ws_rpc.Schemas.{JsonRpcResponse, call_id_of}
use fastapi_ws_rpc.PromiseManager.{
  RpcPromise, call_id, PromiseManager, store_at, store_response, clear_saved_call, resume, is_ready,
}
use fastapi_ws_rpc.PromiseManager.Invariant.{IsValid}

-- A response to a pending request of a valid manager is accepted, makes its waiter ready and is
-- what the waiter returns, and the call is then forgotten.
pub store-resume :
    (m : PromiseManager) (p : RpcPromise) (r : JsonRpcResponse) (id : RpcId)
    → IsValid m
    → r.id ≡ some id
    → lookup (call_id_of (some id)) m.requests ≡ some p
    → let (accepted, m') = store_response r m in
      (accepted ≡ true)
      × (is_ready false p m' ≡ true)
      × ((resume p m').0 ≡ ok r)
      × (lookup (call_id p) (resume p m').1.requests ≡ none)
      × (lookup (call_id p) (resume p m').1.responses ≡ none)
unfolding store_response store_at resume is_ready clear_saved_call
store-resume m p r id v own pending =
    let k = call_id_of (some id) in
    ground (
      arith,
      v.filed k p pending,
      lookup-insert k k r m.responses,
      eq_iff k k,
      lookup-erase k k m.requests,
      lookup-erase k k (insert k r m.responses),
    )

-- A response whose id is null or of no pending request is refused and changes nothing.
store_unexpected :
    (m : PromiseManager) (r : JsonRpcResponse)
    → (r.id ≡ none) ⊎ (lookup (call_id_of r.id) m.requests ≡ none)
    → store_response r m ≡ (false, m)
unfolding store_response store_at
store_unexpected m r unexpected = elim (Option-cases r.id) [
  | inl e ↦ rw (e, store_response)
  | inr (id, e) ↦
      rw (e, store_response)
        (elim unexpected [ inl n ↦ cc | inr n ↦ ground (arith, ap call_id_of e) ])
]

-- Once a waiter has resumed, a further response to its call is refused and changes nothing.
resume-store :
    (m : PromiseManager) (p : RpcPromise) (r : JsonRpcResponse)
    → call_id_of r.id ≡ call_id p
    → let m' = (resume p m).1 in store_response r m' ≡ (false, m')
unfolding resume clear_saved_call
resume-store m p r same = store_unexpected (resume p m).1 r (
    inr (
      ground (
        arith,
        same,
        lookup-erase (call_id p) (call_id p) m.requests,
        eq_iff (call_id p) (call_id p),
      )))

-- A waiter that wakes with no response stored raises RpcChannelClosedError exactly when the
-- manager is closed and a timeout otherwise; its call is forgotten and no other call is touched.
resume_unanswered :
    (m : PromiseManager) (p : RpcPromise) (j : String)
    → lookup (call_id p) m.responses ≡ none
    → let (outcome, m') = resume p m in
      (outcome ≡ (
        if m.closed
        then raised (exn rpc_channel_closed "Channel closed before response for call")
        else raised (exn timeout_error "Timeout waiting for response to call")))
      × (lookup (call_id p) m'.requests ≡ none)
      × (j ≢ call_id p
          → (lookup j m'.requests ≡ lookup j m.requests)
            × (lookup j m'.responses ≡ lookup j m.responses))
unfolding resume clear_saved_call
resume_unanswered m p j silent =
    let k = call_id p in
    (
      rw (silent, resume),
      ground (arith, lookup-erase k k m.requests, eq_iff k k),
      λ ne. ground (arith, lookup-erase k j m.requests, lookup-erase k j m.responses, eq_iff k j),
    )
