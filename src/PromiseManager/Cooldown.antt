-- ===== src/PromiseManager/Cooldown.antt =====
-- Which requests `create_promise` accepts, and how long an id stays unusable.
mod RecentIds
use Prim.Native.String.{count}
use fastapi_ws_rpc.Base.{
  ℕ, ◌+◌, ◌≤◌, ◌<◌, String, ◌≡◌, ◌≢◌, refl, ap, Bool, true, false, ◌↔◌, none, some, List, [], ◌∷◌,
  arith, eq_iff, ltb, if_both, if◌then◌else◌, All,
}
use fastapi_ws_rpc.Base.Dict.{
  Dict, lookup, insert, size, IsDistinct, lookup-insert, lookup-retain, insert-IsDistinct,
  retain-IsDistinct,
}
use fastapi_ws_rpc.Values.{is_ok, Outcome, ok, raised, value_error, class_of}
use fastapi_ws_rpc.Schemas.{JsonRpcRequest, JsonRpcResponse, call_id_of}
use fastapi_ws_rpc.PromiseManager.{
  RpcPromise, PromiseManager, in_cooldown, mark_used, register, admit, create_promise,
  ensure_cleanup_task_started, max_request_id_length, request_id_cooldown, max_recent_ids,
  store_response, store_at, resume, clear_saved_call, close,
}
use fastapi_ws_rpc.PromiseManager.Cooldown.RecentIds.{
  mark_used-IsDistinct, mark_used-in_cooldown, mark_used_ne, mark_used_self,
}
use fastapi_ws_rpc.PromiseManager.Operating.{
  Op, creates, stores, resumes, clears, cleans, closes, step, run,
}
use fastapi_ws_rpc.PromiseManager.CleanupTask.{
  clear_all, expired_ids, cleanup_expired_promises, periodic_cleanup,
}

-- A request is accepted exactly if its id is not too long and not in cooldown, fewer requests than
-- the limit are pending and none has the id.
pub create_promise-accepted_iff :
    (loop_running : Bool) (now : ℕ) (q : JsonRpcRequest) (m : PromiseManager)
    → (is_ok (create_promise loop_running now q m).0 ≡ true) ↔ (
        (count (call_id_of q.id) ≤ max_request_id_length)
        × (in_cooldown now (call_id_of q.id) m.recently_used_ids ≡ false)
        × (size m.requests < m.max_pending_requests)
        × (lookup (call_id_of q.id) m.requests ≡ none))
unfolding create_promise ensure_cleanup_task_started admit register
create_promise-accepted_iff loop_running now q m = (ground arith, ground arith)

-- The id `k` was last used at `t`.
abbrev pub UsedAt : String → ℕ → PromiseManager → Type 0
UsedAt k t m = IsDistinct m.recently_used_ids × (lookup k m.recently_used_ids ≡ some t)

-- The operation reads no clock at or after `end`.
abbrev pub Before : ℕ → Op → Type 0
Before end (creates loop_running now q) = now < end
Before end (stores r) = Unit
Before end (resumes p) = Unit
Before end (clears k) = Unit
Before end (cleans now) = Unit
Before end closes = Unit

abbrev recent : PromiseManager → Dict ℕ
recent m = m.recently_used_ids

create_promise-recent :
    (loop_running : Bool) (now : ℕ) (q : JsonRpcRequest) (m : PromiseManager)
    → recent (create_promise loop_running now q m).1 ≡ (
        if is_ok (create_promise loop_running now q m).0
        then mark_used now (call_id_of q.id) (recent m)
        else recent m)
unfolding create_promise ensure_cleanup_task_started admit register
create_promise-recent loop_running now q m = ground arith

-- An id that is still in its cooldown is refused.
pub in_cooldown-refused :
    (k : String) (t : ℕ) (loop_running : Bool) (now : ℕ) (q : JsonRpcRequest) (m : PromiseManager)
    → lookup k m.recently_used_ids ≡ some t
    → now < t + request_id_cooldown
    → call_id_of q.id ≡ k
    → is_ok (create_promise loop_running now q m).0 ≡ false
unfolding create_promise ensure_cleanup_task_started admit register
in_cooldown-refused k t loop_running now q m at young same =
    ground (arith, ap (λ (j : String). lookup j m.recently_used_ids) same)

create_promise-UsedAt :
    (k : String) (t : ℕ) (loop_running : Bool) (now : ℕ) (q : JsonRpcRequest) (m : PromiseManager)
    → now < t + request_id_cooldown
    → UsedAt k t m
    → UsedAt k t (create_promise loop_running now q m).1
create_promise-UsedAt k t loop_running now q m young used =
    rw (create_promise-recent loop_running now q m) (
      ground (
        arith,
        eq_iff (call_id_of q.id) k,
        in_cooldown-refused k t loop_running now q m used.1 young,
        mark_used-IsDistinct now (call_id_of q.id) (recent m) used.0,
        mark_used_ne now t (call_id_of q.id) k (recent m) used.0,
      ))

clear_all-recent : (ks : List String) (m : PromiseManager) → recent (clear_all ks m) ≡ recent m
unfolding clear_all
clear_all-recent [] m = refl
clear_all-recent (j ∷ ks) m = clear_all-recent ks (clear_saved_call j m)

store_response-recent :
    (r : JsonRpcResponse) (m : PromiseManager) → recent (store_response r m).1 ≡ recent m
unfolding store_response store_at
store_response-recent r m = ground arith

periodic_cleanup-recent :
    (now : ℕ) (m : PromiseManager) → recent (periodic_cleanup now m) ≡ recent m
unfolding periodic_cleanup cleanup_expired_promises
periodic_cleanup-recent now m =
    ground (arith, clear_all-recent (expired_ids now m.promise_ttl m.requests) m)

step-UsedAt :
    (k : String) (t : ℕ) (o : Op) (m : PromiseManager)
    → Before (t + request_id_cooldown) o
    → UsedAt k t m
    → UsedAt k t (step o m)
unfolding step resume clear_saved_call close
step-UsedAt k t (creates loop_running now q) m young used =
    create_promise-UsedAt k t loop_running now q m young used
step-UsedAt k t (stores r) m young used = rw store_response-recent used
step-UsedAt k t (resumes p) m young used = used
step-UsedAt k t (clears j) m young used = used
step-UsedAt k t (cleans now) m young used = rw periodic_cleanup-recent used
step-UsedAt k t closes m young used = used

run-UsedAt :
    (k : String) (t : ℕ) (os : List Op) (m : PromiseManager)
    → All (Before (t + request_id_cooldown)) os
    → UsedAt k t m
    → UsedAt k t (run os m)
unfolding run
run-UsedAt k t [] m young used = used
run-UsedAt k t (o ∷ os) m young used =
    run-UsedAt k t os (step o m) young.1 (step-UsedAt k t o m young.0 used)

-- An accepted id was used at that time.
pub accepted-UsedAt :
    (loop_running : Bool) (t : ℕ) (q : JsonRpcRequest) (m : PromiseManager)
    → IsDistinct m.recently_used_ids
    → is_ok (create_promise loop_running t q m).0 ≡ true
    → UsedAt (call_id_of q.id) t (create_promise loop_running t q m).1
accepted-UsedAt loop_running t q m dist fine =
    rw (create_promise-recent loop_running t q m, fine)
      (
        mark_used-IsDistinct t (call_id_of q.id) (recent m) dist,
        mark_used_self t (call_id_of q.id) (recent m) dist,
      )

-- An id that is in its cooldown, or too long, is refused with ValueError.
pub in_cooldown-value_error :
    (loop_running : Bool) (now t : ℕ) (q : JsonRpcRequest) (m : PromiseManager)
    → lookup (call_id_of q.id) m.recently_used_ids ≡ some t
    → now < t + request_id_cooldown
    → class_of (create_promise loop_running now q m).0 ≡ some value_error
unfolding create_promise ensure_cleanup_task_started admit in_cooldown
in_cooldown-value_error loop_running now t q m at young = ground (arith, at)

-- On a manager whose recent ids have distinct keys, an id accepted at time t is refused at any
-- time before t plus the cooldown, whatever operations with earlier clock readings ran in between.
pub create_promise_cooldown :
    (loop_running : Bool) (t later : ℕ) (q q' : JsonRpcRequest) (m : PromiseManager) (os : List Op)
    → IsDistinct m.recently_used_ids
    → is_ok (create_promise loop_running t q m).0 ≡ true
    → All (Before (t + request_id_cooldown)) os
    → later < t + request_id_cooldown
    → call_id_of q'.id ≡ call_id_of q.id
    → let m' = run os (create_promise loop_running t q m).1 in
      is_ok (create_promise loop_running later q' m').0 ≡ false
create_promise_cooldown loop_running t later q q' m os dist fine young soon same =
    let k = call_id_of q.id in
    let first = (create_promise loop_running t q m).1 in
    let used : UsedAt k t first = accepted-UsedAt loop_running t q m dist fine in
    in_cooldown-refused k t loop_running later q' (run os first)
      (run-UsedAt k t os first young used).1 soon same
