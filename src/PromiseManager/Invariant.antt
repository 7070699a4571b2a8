-- ===== src/PromiseManager/Invariant.antt =====
-- The invariant of the promise manager, on its pending requests, their responses and their events.
pub mod Cleanup
pub mod Runs
use fastapi_ws_rpc.Base.{
  ℕ, ◌≤◌, ◌<◌, String, ◌≡◌, refl, Bool, false, Option, none, some, List, [], ◌∷◌, arith, eq_iff, ap,
  ◌∙◌, inl, inr, if_both, Option-cases, is_some,
}
use fastapi_ws_rpc.Base.Dict.{
  Dict, lookup, insert, size, IsDistinct, lookup-insert, lookup-erase, insert-IsDistinct,
  erase-IsDistinct, size-insert_new, size-erase-le,
}
use fastapi_ws_rpc.Schemas.{JsonRpcRequest, JsonRpcResponse, call_id_of}
use fastapi_ws_rpc.PromiseManager.{
  RpcPromise, call_id, PromiseManager, init, set_event, ensure_cleanup_task_started, register,
  admit, create_promise, store_at, store_response, clear_saved_call, resume, set_all, close,
}
use fastapi_ws_rpc.PromiseManager.Operating.{
  Op, creates, stores, resumes, clears, cleans, closes, step, run,
}
use fastapi_ws_rpc.PromiseManager.CleanupTask.{
  expired_ids, clear_all, cleanup_expired_promises, periodic_cleanup,
}

pub record IsValid (m : PromiseManager) : Type 0 where
  pub distinct : IsDistinct m.requests
  pub bounded : size m.requests ≤ m.max_pending_requests
  pub filed : (k : String) (p : RpcPromise) → lookup k m.requests ≡ some p → call_id p ≡ k
  pub answered :
      (k : String) (p : RpcPromise)
      → lookup k m.requests ≡ some p
      → m.is_set p.event ≡ is_some (lookup k m.responses)
  pub expected : (k : String) → lookup k m.requests ≡ none → lookup k m.responses ≡ none
  pub addressed :
      (k : String) (r : JsonRpcResponse) → lookup k m.responses ≡ some r → call_id_of r.id ≡ k
  pub allotted :
      (k : String) (p : RpcPromise) → lookup k m.requests ≡ some p → p.event < m.next_event
  pub separate :
      (j k : String) (p q : RpcPromise)
      → lookup j m.requests ≡ some p
      → lookup k m.requests ≡ some q
      → p.event ≡ q.event
      → j ≡ k
  pub unused : (e : ℕ) → m.next_event ≤ e → m.is_set e ≡ false

pub init-IsValid :
    (loop_running : Bool) (max_pending ttl : Option ℕ) → IsValid (init loop_running max_pending ttl)
unfolding init lookup
init-IsValid loop_running max_pending ttl = record {
  distinct = tt;
  bounded = omega arith;
  filed = λ k p h. cc;
  answered = λ k p h. cc;
  expected = λ k h. refl;
  addressed = λ k r h. cc;
  allotted = λ k p h. absurd (cc);
  separate = λ j k p q h. cc;
  unused = λ e h. refl;
}

module _ (now : ℕ) (request : JsonRpcRequest) (m : PromiseManager) where
  pub register-IsValid :
      size m.requests < m.max_pending_requests
      → lookup (call_id_of request.id) m.requests ≡ none
      → IsValid m
      → IsValid (register now request m).1
  unfolding register call_id
  register-IsValid room new v =
      let k = call_id_of request.id in
      let p : RpcPromise = record { request = request; event = m.next_event; created_at = now } in
      record {
        distinct = insert-IsDistinct k p m.requests v.distinct;
        bounded = omega (arith, size-insert_new k p m.requests new);
        filed = λ j q h. ground (arith, lookup-insert k j p m.requests, eq_iff k j, v.filed j q);
        answered = λ j q h. ground (
          arith,
          lookup-insert k j p m.requests,
          eq_iff k j,
          v.answered j q,
          v.expected k new,
          v.unused m.next_event,
        );
        expected = λ j h. ground (arith, lookup-insert k j p m.requests, eq_iff k j, v.expected j);
        addressed = v.addressed;
        allotted =
            λ j q h. ground (arith, lookup-insert k j p m.requests, eq_iff k j, v.allotted j q);
        separate = λ i j q r h g e. ground (
          arith,
          lookup-insert k i p m.requests,
          lookup-insert k j p m.requests,
          eq_iff k i,
          eq_iff k j,
          v.separate i j q r,
          v.allotted i q,
          v.allotted j r,
        );
        unused = λ e h. v.unused e (omega arith);
      }

pub admit-IsValid :
    (now : ℕ) (request : JsonRpcRequest) (m : PromiseManager)
    → IsValid m
    → IsValid (admit now request m).1
unfolding admit
admit-IsValid now request m v = ground (
  arith,
  register-IsValid now request m,
  Option-cases (lookup (call_id_of request.id) m.requests),
)

pub ensure_cleanup_task_started-IsValid :
    (loop_running : Bool) (m : PromiseManager)
    → IsValid m
    → IsValid (ensure_cleanup_task_started loop_running m)
unfolding ensure_cleanup_task_started
ensure_cleanup_task_started-IsValid loop_running m v = record {
  distinct = v.distinct;
  bounded = v.bounded;
  filed = v.filed;
  answered = v.answered;
  expected = v.expected;
  addressed = v.addressed;
  allotted = v.allotted;
  separate = v.separate;
  unused = v.unused;
}

pub create_promise-IsValid :
    (loop_running : Bool) (now : ℕ) (request : JsonRpcRequest) (m : PromiseManager)
    → IsValid m
    → IsValid (create_promise loop_running now request m).1
unfolding create_promise
create_promise-IsValid loop_running now request m v =
    admit-IsValid now request (ensure_cleanup_task_started loop_running m)
      (ensure_cleanup_task_started-IsValid loop_running m v)

module _ (k : String) (r : JsonRpcResponse) (p : RpcPromise) (m : PromiseManager) where
  abbrev stored : PromiseManager
  stored = record m { responses = insert k r m.responses; is_set = set_event p.event m.is_set }

  stored-IsValid : call_id_of r.id ≡ k → lookup k m.requests ≡ some p → IsValid m → IsValid stored
  stored-IsValid own pending v = record {
    distinct = v.distinct;
    bounded = v.bounded;
    filed = v.filed;
    answered = λ j q h. ground (
      arith,
      lookup-insert k j r m.responses,
      eq_iff k j,
      v.answered j q h,
      v.separate k j p q pending h,
    );
    expected = λ j h. ground (arith, lookup-insert k j r m.responses, eq_iff k j, v.expected j h);
    addressed =
        λ j q h. ground (arith, lookup-insert k j r m.responses, eq_iff k j, v.addressed j q);
    allotted = v.allotted;
    separate = v.separate;
    unused = λ e h. ground (arith, v.unused e h, v.allotted k p pending);
  }

pub store_at-IsValid :
    (k : String) (r : JsonRpcResponse) (m : PromiseManager)
    → call_id_of r.id ≡ k
    → IsValid m
    → IsValid (store_at k r m).1
unfolding store_at
store_at-IsValid k r m own v = elim (Option-cases (lookup k m.requests)) [
  | inl e ↦ rw (e, store_at) v
  | inr (p, e) ↦ rw (e, store_at) (stored-IsValid k r p m own e v)
]

pub store_response-IsValid :
    (r : JsonRpcResponse) (m : PromiseManager) → IsValid m → IsValid (store_response r m).1
unfolding store_response
store_response-IsValid r m v = elim (Option-cases r.id) [
  | inl e ↦ rw (e, store_response) v
  | inr (id, e) ↦
      rw (e, store_response) (store_at-IsValid (call_id_of (some id)) r m (ap call_id_of e) v)
]
