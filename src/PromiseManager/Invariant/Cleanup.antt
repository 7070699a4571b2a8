-- ===== src/PromiseManager/Invariant/Cleanup.antt =====
-- The invariant of the promise manager when calls are cleared, by a caller or by the cleanup task.
use fastapi_ws_rpc.Base.{ℕ, String, false, List, [], ◌∷◌, arith, if_both}
use fastapi_ws_rpc.Base.Dict.{lookup-erase, erase-IsDistinct, size-erase-le}
use fastapi_ws_rpc.PromiseManager.{PromiseManager, clear_saved_call}
use fastapi_ws_rpc.PromiseManager.CleanupTask.{
  expired_ids, clear_all, cleanup_expired_promises, periodic_cleanup,
}
use fastapi_ws_rpc.PromiseManager.Invariant.{IsValid}

pub clear_saved_call-IsValid :
    (k : String) (m : PromiseManager) → IsValid m → IsValid (clear_saved_call k m)
unfolding clear_saved_call
clear_saved_call-IsValid k m v = record {
  distinct = erase-IsDistinct k m.requests v.distinct;
  bounded = omega (arith, size-erase-le k m.requests, v.bounded);
  filed = λ j q h. ground (arith, lookup-erase k j m.requests, v.filed j q);
  answered = λ j q h.
      ground (arith, lookup-erase k j m.requests, lookup-erase k j m.responses, v.answered j q);
  expected = λ j h.
      ground (arith, lookup-erase k j m.requests, lookup-erase k j m.responses, v.expected j);
  addressed = λ j q h. ground (arith, lookup-erase k j m.responses, v.addressed j q);
  allotted = λ j q h. ground (arith, lookup-erase k j m.requests, v.allotted j q);
  separate = λ i j q r h g e.
      ground (arith, lookup-erase k i m.requests, lookup-erase k j m.requests, v.separate i j q r);
  unused = v.unused;
}

pub clear_all-IsValid :
    (ks : List String) (m : PromiseManager) → IsValid m → IsValid (clear_all ks m)
unfolding clear_all
clear_all-IsValid [] m v = v
clear_all-IsValid (k ∷ ks) m v =
    clear_all-IsValid ks (clear_saved_call k m) (clear_saved_call-IsValid k m v)

pub stop_cleanup-IsValid :
    (m : PromiseManager) → IsValid m → IsValid (record m { cleanup_running = false })
stop_cleanup-IsValid m v = record {
  distinct = v.distinct;
  bounded = v.bounded;
  filed = v.filed;
  answered = v.answered;
  expected = v.expected;
  addressed = v.addressed;
  allotted = v.allotted;
  separate = v.separate;
  unused = v.unused;
}

pub periodic_cleanup-IsValid :
    (now : ℕ) (m : PromiseManager) → IsValid m → IsValid (periodic_cleanup now m)
unfolding periodic_cleanup cleanup_expired_promises
periodic_cleanup-IsValid now m v = if_both IsValid m.closed (stop_cleanup-IsValid m v) (
    if_both (λ (s : ℕ × PromiseManager). IsValid s.1) m.closed v
      (clear_all-IsValid (expired_ids now m.promise_ttl m.requests) m v))
