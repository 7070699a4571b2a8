-- ===== src/SendQueue.antt =====
-- `send_raw` of fastapi_ws_rpc/rpc_channel.py as many tasks run it at once. A send goes through three
-- steps between which other tasks run: the checks, the acquisition of the semaphore (which may time
-- out), and the end of the socket's send. A task that has passed the checks waits in `waiting`, one
-- that holds the semaphore is counted in `pending_sends`. Without a limit no send is counted.
pub mod Bounds
mod Examples
use fastapi_ws_rpc.Base.{
  ℕ, zero, suc, ◌+◌, ◌-◌, ◌≤◌, ◌<◌, ◌≡◌, refl, Bool, true, false, Option, none, some, List, [], ◌∷◌,
  arith, ltb, leb, nat_eq, if◌then◌else◌,
}
use fastapi_ws_rpc.Values.{Outcome, ok, raised, exn, rpc_backpressure, rpc_channel_closed}

-- `free` is the value of `_send_semaphore`.
pub record SendQueue : Type 0 where
  pub max_send_queue_size : ℕ
  pub free : ℕ
  pub pending_sends : ℕ
  pub waiting : ℕ

abbrev pub or_default : Option ℕ → ℕ
or_default none = 1000
or_default (some n) = n

-- `RpcChannel.__init__`; a size of 0 means that there is no semaphore.
unfoldable pub init : Option ℕ → SendQueue
init size = record {
  max_send_queue_size = or_default size;
  free = or_default size;
  pending_sends = 0;
  waiting = 0;
}

-- `self._send_semaphore is not None`
unfoldable pub is_limited : SendQueue → Bool
is_limited q = ltb 0 q.max_send_queue_size

-- The checks on the closed channel and on the pending sends.
unfoldable pub begin : Bool → SendQueue → Outcome (Unit {0}) × SendQueue
unfolding is_limited
begin closed q =
    if closed
    then (raised (exn rpc_channel_closed "Cannot send on closed channel"), q)
    else if is_limited q
    then (if leb q.max_send_queue_size q.pending_sends
        then (raised (exn rpc_backpressure "Send queue full"), q)
        else (ok tt, record q { waiting = q.waiting + 1 }))
    else (ok tt, q)

-- `acquire()` returns while the semaphore is positive; then `_pending_sends += 1`.
unfoldable pub acquire : SendQueue → SendQueue
acquire q =
    if ltb 0 q.waiting
    then (if ltb 0 q.free
        then record q {
          free = q.free - 1;
          pending_sends = q.pending_sends + 1;
          waiting = q.waiting - 1;
        }
        else q)
    else q

-- The second for which a send waits for the semaphore is over.
unfoldable pub give_up : SendQueue → SendQueue
give_up q = if ltb 0 q.waiting then record q { waiting = q.waiting - 1 } else q

-- The `finally` block, after the socket's send has returned or raised.
unfoldable pub finish : SendQueue → SendQueue
finish q =
    if ltb 0 q.pending_sends
    then record q { free = q.free + 1; pending_sends = q.pending_sends - 1 }
    else q

pub data Step : Type 0 where
  begins : Bool → Step
  acquires gives_up finishes : Step

unfoldable pub step : Step → SendQueue → SendQueue
unfolding begin acquire give_up finish
step (begins closed) q = (begin closed q).1
step acquires q = acquire q
step gives_up q = give_up q
step finishes q = finish q

unfoldable pub run : List Step → SendQueue → SendQueue
unfolding step
run [] q = q
run (a ∷ steps) q = run steps (step a q)
