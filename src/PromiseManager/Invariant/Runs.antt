-- ===== src/PromiseManager/Invariant/Runs.antt =====
-- The invariant along any run of a new manager.
use fastapi_ws_rpc.Base.{
  ℕ, ◌<◌, String, ◌≡◌, refl, Bool, Option, some, List, [], ◌∷◌, arith, eq_iff, ◌∙◌,
}
use fastapi_ws_rpc.Base.Dict.{Dict, lookup, IsDistinct}
use fastapi_ws_rpc.PromiseManager.{
  RpcPromise, call_id, PromiseManager, init, set_event, resume, set_all, close,
}
use fastapi_ws_rpc.PromiseManager.Operating.{
  Op, creates, stores, resumes, clears, cleans, closes, step, run,
}
use fastapi_ws_rpc.PromiseManager.Invariant.{
  IsValid, init-IsValid, create_promise-IsValid, store_response-IsValid,
}
use fastapi_ws_rpc.PromiseManager.Invariant.Cleanup.{
  clear_saved_call-IsValid, periodic_cleanup-IsValid,
}

-- An event that no pending promise holds is left as it was.
pub set_all_unused :
    (d : Dict RpcPromise) (is_set : ℕ → Bool) (e : ℕ)
    → IsDistinct d
    → ((k : String) (p : RpcPromise) → lookup k d ≡ some p → p.event < e)
    → set_all d is_set e ≡ is_set e
unfolding set_all lookup
set_all_unused [] is_set e dist below = refl
set_all_unused ((k, p) ∷ d) is_set e dist below =
    set_all_unused d (set_event p.event is_set) e dist.1
      (λ j q h. ground (arith, below j q, eq_iff k j, dist.0))
    ∙ ground (arith, below k p, eq_iff k k)

pub close-IsValid : (m : PromiseManager) → IsValid m → IsValid (close m)
unfolding close lookup
close-IsValid m v = record {
  distinct = tt;
  bounded = omega arith;
  filed = λ k p h. cc;
  answered = λ k p h. cc;
  expected = λ k h. refl;
  addressed = λ k r h. cc;
  allotted = λ k p h. absurd (cc);
  separate = λ j k p q h. cc;
  unused = λ e h.
      set_all_unused m.requests m.is_set e v.distinct (λ k p g. omega (arith, v.allotted k p g, h))
      ∙ v.unused e h;
}

pub step-IsValid : (o : Op) (m : PromiseManager) → IsValid m → IsValid (step o m)
unfolding step resume
step-IsValid (creates loop_running now request) m v =
    create_promise-IsValid loop_running now request m v
step-IsValid (stores r) m v = store_response-IsValid r m v
step-IsValid (resumes p) m v = clear_saved_call-IsValid (call_id p) m v
step-IsValid (clears k) m v = clear_saved_call-IsValid k m v
step-IsValid (cleans now) m v = periodic_cleanup-IsValid now m v
step-IsValid closes m v = close-IsValid m v

pub run-IsValid : (os : List Op) (m : PromiseManager) → IsValid m → IsValid (run os m)
unfolding run
run-IsValid [] m v = v
run-IsValid (o ∷ os) m v = run-IsValid os (step o m) (step-IsValid o m v)

-- Whatever sequence of creations, responses, resumptions, cleanups and closes runs on a new
-- manager, at most max_pending_requests requests are pending, each filed under its own id with an
-- event of its own, and an event is set exactly when its response is stored.
pub run-init-IsValid :
    (loop_running : Bool) (max_pending ttl : Option ℕ) (os : List Op)
    → IsValid (run os (init loop_running max_pending ttl))
run-init-IsValid loop_running max_pending ttl os =
    run-IsValid os (init loop_running max_pending ttl) (init-IsValid loop_running max_pending ttl)
