-- ===== src/SendQueue/Bounds.antt =====
-- How many messages are being sent at once.
use fastapi_ws_rpc.Base.{ℕ, ◌+◌, ◌≤◌, ◌<◌, ◌≡◌, refl, true, false, Option, List, [], ◌∷◌, arith}
use fastapi_ws_rpc.SendQueue.{
  SendQueue, or_default, init, is_limited, begin, acquire, finish, Step, begins, acquires, gives_up,
  finishes, step, run,
}

-- The semaphore's value and the sends that hold it make up the configured size.
pub record IsValid (q : SendQueue) : Type 0 where
  pub balanced : q.free + q.pending_sends ≡ q.max_send_queue_size

step-IsValid : (a : Step) (q : SendQueue) → IsValid q → IsValid (step a q)
unfolding step
step-IsValid (begins closed) q v = record { balanced = ground (arith, v.balanced) }
step-IsValid acquires q v = record { balanced = ground (arith, v.balanced) }
step-IsValid gives_up q v = record { balanced = ground (arith, v.balanced) }
step-IsValid finishes q v = record { balanced = ground (arith, v.balanced) }

size-step : (a : Step) (q : SendQueue) → (step a q).max_send_queue_size ≡ q.max_send_queue_size
unfolding step
size-step (begins closed) q = ground arith
size-step acquires q = ground arith
size-step gives_up q = ground arith
size-step finishes q = ground arith

run-IsValid :
    (steps : List Step) (q : SendQueue)
    → IsValid q
    → IsValid (run steps q) × ((run steps q).max_send_queue_size ≡ q.max_send_queue_size)
unfolding run
run-IsValid [] q v = (v, refl)
run-IsValid (a ∷ steps) q v =
    ground (arith, run-IsValid steps (step a q) (step-IsValid a q v), size-step a q)

-- If the configured size is not 0, which means no limit: however the steps of concurrent sends
-- interleave, at most so many messages are being sent at once, and the free slots and the pending
-- sends add up to it.
pub run-init-bounded :
    (size : Option ℕ) (steps : List Step)
    → is_limited (init size) ≡ true
    → let q = run steps (init size) in
      (q.pending_sends ≤ or_default size) × (q.free + q.pending_sends ≡ or_default size)
unfolding init
run-init-bounded size steps limited =
    let (v, same) = run-IsValid steps (init size) (record { balanced = ground arith }) in
    (omega (arith, v.balanced, same), omega (arith, v.balanced, same))

-- A send that passes the checks, gets the semaphore and ends, leaves the queue as it was.
pub send_restores :
    (q : SendQueue)
    → IsValid q
    → is_limited q ≡ true
    → q.pending_sends < q.max_send_queue_size
    → finish (acquire (begin false q).1) ≡ q
unfolding begin acquire finish is_limited
send_restores q v limited room = ground (arith, v.balanced)
