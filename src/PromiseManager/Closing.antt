-- ===== src/PromiseManager/Closing.antt =====
-- What closing the manager does to its waiters, and what it leaves possible.
use fastapi_ws_rpc.Base.{ℕ, String, ◌≡◌, refl, Bool, true, false, some, [], ◌∷◌, arith}
use fastapi_ws_rpc.Base.Dict.{Dict, lookup}
use fastapi_ws_rpc.Values.{ok, raised, exn, rpc_channel_closed, key_error}
use fastapi_ws_rpc.Schemas.{JsonRpcRequest}
use fastapi_ws_rpc.PromiseManager.{
  RpcPromise, PromiseManager, set_event, set_all, close, resume, is_ready, get_saved_response,
  get_pending_count, register, admit, create_promise, ensure_cleanup_task_started,
}
use fastapi_ws_rpc.PromiseManager.CleanupTask.{cleanup_expired_promises}

set_all_keeps :
    (d : Dict RpcPromise) (is_set : ℕ → Bool) (e : ℕ) → is_set e ≡ true → set_all d is_set e ≡ true
unfolding set_all
set_all_keeps [] is_set e h = h
set_all_keeps ((k, p) ∷ d) is_set e h = set_all_keeps d (set_event p.event is_set) e (ground arith)

pub set_all_sets :
    (d : Dict RpcPromise) (is_set : ℕ → Bool) (k : String) (p : RpcPromise)
    → lookup k d ≡ some p
    → set_all d is_set p.event ≡ true
unfolding set_all lookup
set_all_sets [] is_set k p h = cc
set_all_sets ((j, q) ∷ d) is_set k p h = ground (
  arith,
  set_all_sets d (set_event q.event is_set) k p,
  set_all_keeps d (set_event q.event is_set) p.event,
)

-- After close every request that was pending has its event set, its waiter is ready and raises
-- RpcChannelClosedError, and nothing is pending or saved.
pub close-resume :
    (m : PromiseManager) (k : String) (p : RpcPromise)
    → lookup k m.requests ≡ some p
    → let m' = close m in
      (m'.is_set p.event ≡ true)
      × (is_ready false p m' ≡ true)
      × ((resume p m').0
          ≡ raised (exn rpc_channel_closed "Channel closed before response for call"))
      × (get_pending_count m' ≡ 0)
      × ((j : String) → get_saved_response j m' ≡ raised (exn key_error j))
unfolding close resume is_ready get_pending_count get_saved_response lookup
close-resume m k p pending = (
  set_all_sets m.requests m.is_set k p pending,
  ground (arith, set_all_sets m.requests m.is_set k p pending),
  refl,
  refl,
  λ j. refl,
)

-- A closed manager that accepts a request stays closed, and no cleanup removes what it accepted.
create_promise_after_close :
    (loop_running : Bool) (now later : ℕ) (q : JsonRpcRequest) (m : PromiseManager) (p : RpcPromise)
    → m.closed ≡ true
    → (create_promise loop_running now q m).0 ≡ ok p
    → let m' = (create_promise loop_running now q m).1 in
      (m'.closed ≡ true) × (cleanup_expired_promises later m' ≡ (0, m'))
unfolding create_promise ensure_cleanup_task_started admit register cleanup_expired_promises
create_promise_after_close loop_running now later q m p shut fine = ground arith
