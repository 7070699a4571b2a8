-- ===== src/PromiseManager/Calls.antt =====
-- The contract of the promise manager: seen from outside, a call id is free, waits for a response,
-- or has one, and there are four moves on such a table.
use Prim.Native.String.{count}
use fastapi_ws_rpc.Base.{
  ltb, leb, if_cases, ℕ, String, ◌≡◌, ◌≢◌, refl, ap, Bool, true, false, inl, inr, Option, none,
  some, List, [], ◌∷◌, ◌==◌, ◌||◌, if_both, arith, eq_iff, if◌then◌else◌, Option-cases,
}
use fastapi_ws_rpc.Base.Dict.{lookup, contains, size, lookup-insert, lookup-erase}
use fastapi_ws_rpc.Values.{Outcome}
use fastapi_ws_rpc.Schemas.{JsonRpcRequest, JsonRpcResponse, call_id_of}
use fastapi_ws_rpc.PromiseManager.{
  max_request_id_length, in_cooldown, RpcPromise, call_id, PromiseManager,
  ensure_cleanup_task_started, register, admit, create_promise, store_at, store_response,
  clear_saved_call, resume, close,
}
use fastapi_ws_rpc.PromiseManager.Operating.{
  Op, creates, stores, resumes, clears, cleans, closes, step,
}
use fastapi_ws_rpc.PromiseManager.CleanupTask.{
  clear_all, expired_ids, cleanup_expired_promises, periodic_cleanup,
}
use fastapi_ws_rpc.PromiseManager.Invariant.{IsValid, ensure_cleanup_task_started-IsValid}

pub data Call : Type 0 where
  free : Call
  waiting : Call
  answered : JsonRpcResponse → Call

abbrev pub Table : Type 0
Table = String → Call

abbrev pub state : Option RpcPromise → Option JsonRpcResponse → Call
state none r = free
state (some p) none = waiting
state (some p) (some r) = answered r

-- What the manager says of a call id.
unfoldable pub view : PromiseManager → Table
view m k = state (lookup k m.requests) (lookup k m.responses)

abbrev pub assign : String → Call → Table → Table
assign k c t j = if k == j then c else t j

-- The moves of the contract.
pub data Move (t u : Table) : Type 0 where
  stay : ((j : String) → u j ≡ t j) → Move t u
  issue : (k : String) → t k ≡ free → ((j : String) → u j ≡ assign k waiting t j) → Move t u
  answer :
      (k : String) (r : JsonRpcResponse)
      → call_id_of r.id ≡ k
      → t k ≢ free
      → ((j : String) → u j ≡ assign k (answered r) t j)
      → Move t u
  retire : (ks : String → Bool) → ((j : String) → u j ≡ (if ks j then free else t j)) → Move t u

register-Move :
    (now : ℕ) (q : JsonRpcRequest) (m : PromiseManager)
    → IsValid m
    → lookup (call_id_of q.id) m.requests ≡ none
    → Move (view m) (view (register now q m).1)
unfolding view register
register-Move now q m v new =
    let k = call_id_of q.id in
    let p : RpcPromise = record { request = q; event = m.next_event; created_at = now } in
    issue k (ground (arith, new))
      (λ j. ground (arith, lookup-insert k j p m.requests, eq_iff k j, v.expected k new))

admit-Move :
    (now : ℕ) (q : JsonRpcRequest) (m : PromiseManager)
    → IsValid m
    → Move (view m) (view (admit now q m).1)
unfolding admit
admit-Move now q m v =
    let P = λ (s : Outcome RpcPromise × PromiseManager). Move (view m) (view s.1) in
    let k = call_id_of q.id in
    if_both P (ltb max_request_id_length (count k)) (stay (λ j. refl)) (
      if_both P (in_cooldown now k m.recently_used_ids) (stay (λ j. refl)) (
        if_both P (leb m.max_pending_requests (size m.requests)) (stay (λ j. refl)) (
          if_cases P (contains k m.requests) (λ e. stay (λ j. refl))
            (λ e. register-Move now q m v (ground (arith, e))))))

store_at-Move :
    (k : String) (r : JsonRpcResponse) (m : PromiseManager)
    → call_id_of r.id ≡ k
    → Move (view m) (view (store_at k r m).1)
unfolding store_at view
store_at-Move k r m own = elim (Option-cases (lookup k m.requests)) [
  | inl e ↦ stay (λ j. ground arith)
  | inr (p, e) ↦
      answer k r own (ground (arith, Option-cases (lookup k m.responses)))
        (λ j. ground (arith, lookup-insert k j r m.responses, eq_iff k j))
]

store_response-Move :
    (r : JsonRpcResponse) (m : PromiseManager) → Move (view m) (view (store_response r m).1)
unfolding store_response
store_response-Move r m = elim (Option-cases r.id) [
  | inl e ↦ rw (e, store_response) (stay (λ j. refl))
  | inr (id, e) ↦
      rw (e, store_response) (store_at-Move (call_id_of (some id)) r m (ap call_id_of e))
]

clear_saved_call-view :
    (k j : String) (m : PromiseManager)
    → view (clear_saved_call k m) j ≡ (if k == j then free else view m j)
unfolding view clear_saved_call
clear_saved_call-view k j m =
    ground (arith, lookup-erase k j m.requests, lookup-erase k j m.responses)

-- Clearing some ids one after another.
abbrev listed : String → List String → Bool
listed k [] = false
listed k (j ∷ js) = j == k || listed k js

clear_all-view :
    (ks : List String) (j : String) (m : PromiseManager)
    → view (clear_all ks m) j ≡ (if listed j ks then free else view m j)
unfolding clear_all
clear_all-view [] j m = refl
clear_all-view (k ∷ ks) j m =
    ground (arith, clear_all-view ks j (clear_saved_call k m), clear_saved_call-view k j m)

periodic_cleanup-Move :
    (now : ℕ) (m : PromiseManager) → Move (view m) (view (periodic_cleanup now m))
unfolding periodic_cleanup cleanup_expired_promises
periodic_cleanup-Move now m =
    let ks = expired_ids now m.promise_ttl m.requests in
    if_both (λ s. Move (view m) (view s)) m.closed (stay (λ j. unfold view in refl))
      (if_both (λ (s : ℕ × PromiseManager). Move (view m) (view s.1)) m.closed (stay (λ j. refl))
        (retire (λ j. listed j ks) (λ j. clear_all-view ks j m)))

-- Every operation on a valid manager is a move of the abstract table of calls: it issues a free
-- id, stores a response at the issued id that the response names, frees ids, or leaves the table
-- alone.
pub step-Move : (o : Op) (m : PromiseManager) → IsValid m → Move (view m) (view (step o m))
unfolding step create_promise resume view
step-Move (creates loop_running now q) m v =
    admit-Move now q (ensure_cleanup_task_started loop_running m)
      (ensure_cleanup_task_started-IsValid loop_running m v)
step-Move (stores r) m v = store_response-Move r m
step-Move (resumes p) m v =
    retire (λ j. call_id p == j) (λ j. clear_saved_call-view (call_id p) j m)
step-Move (clears k) m v = retire (λ j. k == j) (λ j. clear_saved_call-view k j m)
step-Move (cleans now) m v = periodic_cleanup-Move now m
step-Move closes m v = retire (λ j. true) (λ j. unfold view close lookup in refl)
