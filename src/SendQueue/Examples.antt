-- ===== src/SendQueue/Examples.antt =====
-- A queue of size one that three sends use at once.
use fastapi_ws_rpc.Base.{◌+◌, ◌≤◌, ◌≡◌, refl, false, some, List, [], ◌∷◌}
use fastapi_ws_rpc.SendQueue.{init, is_limited, begins, acquires, gives_up, finishes, Step, run}
use fastapi_ws_rpc.SendQueue.Bounds.{run-init-bounded}

-- All three pass the check before one of them has counted itself.
abbrev crowd : List Step
crowd =
    begins false
    ∷ begins false
    ∷ begins false
    ∷ acquires
    ∷ acquires
    ∷ gives_up
    ∷ finishes
    ∷ acquires
    ∷ []

run-init-bounded_example :
    let q = run crowd (init (some 1)) in (q.pending_sends ≤ 1) × (q.free + q.pending_sends ≡ 1)
unfolding init is_limited
run-init-bounded_example = run-init-bounded (some 1) crowd refl
