-- ===== src/Keepalive/Streaks.antt =====
-- Which sequences of pings close the connection.
use fastapi_ws_rpc.Base.{
  ℕ, ◌+◌, ◌≡◌, refl, ap, ◌∙◌, Bool, true, false, ◌||◌, List, [], ◌∷◌, ◌++◌, arith, if◌then◌else◌,
  All, length,
}
use fastapi_ws_rpc.Base.Int.{pos, ◌≤ℤ◌, ◌<ℤ◌}
use fastapi_ws_rpc.Values.{Outcome, ok, raised}
use fastapi_ws_rpc.Config.{RpcKeepaliveConfig, keepalive_enabled}
use fastapi_ws_rpc.Config.Validity.{IsKeepaliveValid}
use fastapi_ws_rpc.Keepalive.{
  done, ending, RpcKeepalive, init_checks, is_running, reset_failures, Round, ping, is_failure,
  count_ping, check_failures, keepalive_round, run,
}

-- A valid keepalive configuration that is on passes the checks of RpcKeepalive, if it pings by
-- frames or is given a ping function.
init_checks-ok :
    (c : RpcKeepaliveConfig) (has_ping_fn : Bool)
    → IsKeepaliveValid c
    → keepalive_enabled c ≡ true
    → (c.use_protocol_ping || has_ping_fn) ≡ true
    → init_checks c.interval c.max_consecutive_failures c.use_protocol_ping has_ping_fn ≡ ok tt
unfolding init_checks keepalive_enabled
init_checks-ok c has_ping_fn v on pings = ground (arith, v.interval, v.failures)

-- How the ping of a round ends, by the settings of `k`.
abbrev pub Succeeds : RpcKeepalive → Round → Type 0
Succeeds k r = ping k r ≡ ok tt

abbrev pub counts : Outcome (Unit {0}) → Bool
counts (ok u) = false
counts (raised e) = is_failure e.cls

abbrev pub Fails : RpcKeepalive → Round → Type 0
Fails k r = counts (ping k r) ≡ true

abbrev failures : ℕ → RpcKeepalive → RpcKeepalive
failures f k = record k { consecutive_failures = f }

round_at :
    (r : Round) (k : RpcKeepalive)
    → is_running k ≡ true
    → keepalive_round r k ≡ check_failures (count_ping (ping k r) k)
unfolding keepalive_round
round_at r k going =
    ap (λ (b : Bool). if b then check_failures (count_ping (ping k r) k) else k) going

count_fails :
    (o : Outcome (Unit {0})) (k : RpcKeepalive)
    → counts o ≡ true
    → count_ping o k ≡ failures (k.consecutive_failures + 1) k
unfolding count_ping
count_fails (ok u) k h = cc
count_fails (raised e) k h =
    ap
      (λ (b : Bool).
        if b then failures (k.consecutive_failures + 1) k else record k { task = ending e })
      h

check_below :
    (k : RpcKeepalive) → pos k.consecutive_failures <ℤ k.max_failures → check_failures k ≡ k
unfolding check_failures is_running
check_below k below = ground arith

check_reached :
    (k : RpcKeepalive)
    → is_running k ≡ true
    → k.max_failures ≤ℤ pos k.consecutive_failures
    → check_failures k ≡ record k { task = done; close_requests = k.close_requests + 1 }
unfolding check_failures is_running
check_reached k going reached = ground arith

round-Fails :
    (r : Round) (k : RpcKeepalive)
    → is_running k ≡ true
    → Fails k r
    → keepalive_round r k ≡ check_failures (failures (k.consecutive_failures + 1) k)
round-Fails r k going fails =
    round_at r k going ∙ ap check_failures (count_fails (ping k r) k fails)

round-Succeeds :
    (r : Round) (k : RpcKeepalive)
    → is_running k ≡ true
    → pos 1 ≤ℤ k.max_failures
    → Succeeds k r
    → keepalive_round r k ≡ failures 0 k
unfolding count_ping
round-Succeeds r k going tolerant good =
    round_at r k going
    ∙ ap (λ o. check_failures (count_ping o k)) good
    ∙ check_below (failures 0 k) (omega (arith, tolerant))

run_append : (rs rs' : List Round) (k : RpcKeepalive) → run (rs ++ rs') k ≡ run rs' (run rs k)
unfolding run
run_append [] rs' k = refl
run_append (r ∷ rs) rs' k = run_append rs rs' (keepalive_round r k)

-- Fewer failures than tolerated are counted and have no other effect.
run-Fails :
    (rs : List Round) (f : ℕ) (k : RpcKeepalive)
    → is_running k ≡ true
    → All (Fails k) rs
    → pos (f + length rs) <ℤ k.max_failures
    → run rs (failures f k) ≡ failures (f + length rs) k
unfolding run is_running ping
run-Fails [] f k going fails below = ap (λ (n : ℕ). failures n k) (omega arith)
run-Fails (r ∷ rs) f k going fails below =
    ap (run rs) (
      round-Fails r (failures f k) going fails.0
      ∙ check_below (failures (f + 1) k) (omega (arith, below)))
    ∙ run-Fails rs (f + 1) k going fails.1 (omega (arith, below))
    ∙ ap (λ (n : ℕ). failures n k) (omega arith)

run-Fails_fresh :
    (rs : List Round) (k : RpcKeepalive)
    → is_running k ≡ true
    → All (Fails k) rs
    → pos (length rs) <ℤ k.max_failures
    → run rs (failures 0 k) ≡ failures (length rs) k
run-Fails_fresh rs k going fails below =
    run-Fails rs 0 k going fails (omega (arith, below)) ∙ ap (λ (n : ℕ). failures n k) (omega arith)

-- A streak of failures that a success ends.
pub record Streak : Type 0 where
  pub fails : List Round
  pub success : Round

abbrev pub rounds : List Streak → List Round
rounds [] = []
rounds (b ∷ bs) = b.fails ++ (b.success ∷ rounds bs)

-- The streak is shorter than what is tolerated.
pub record IsShort (k : RpcKeepalive) (b : Streak) : Type 0 where
  pub all_fail : All (Fails k) b.fails
  pub below : pos (length b.fails) <ℤ k.max_failures
  pub ends : Succeeds k b.success

run_streaks :
    (bs : List Streak) (k : RpcKeepalive)
    → is_running k ≡ true
    → pos 1 ≤ℤ k.max_failures
    → All (IsShort k) bs
    → run (rounds bs) (failures 0 k) ≡ failures 0 k
unfolding run is_running ping
run_streaks [] k going tolerant short = refl
run_streaks (b ∷ bs) k going tolerant short =
    run_append b.fails (b.success ∷ rounds bs) (failures 0 k)
    ∙ ap (run (b.success ∷ rounds bs))
        (run-Fails_fresh b.fails k going short.0.all_fail short.0.below)
    ∙ ap (run (rounds bs))
        (round-Succeeds b.success (failures (length b.fails) k) going tolerant short.0.ends)
    ∙ run_streaks bs k going tolerant short.1

-- After any number of shorter streaks of failures ended by a success, and further failures below
-- the limit, the keepalive loop runs and has counted just those; at the last of max_failures
-- failures in a row it requests one close and ends.
pub streaks-run :
    (k : RpcKeepalive) (bs : List Streak) (rs : List Round) (r : Round)
    → is_running k ≡ true
    → All (IsShort k) bs
    → All (Fails k) rs
    → pos (length rs) <ℤ k.max_failures
    → Fails k r
    → k.max_failures ≤ℤ pos (length rs + 1)
    → (run (rounds bs ++ rs) (reset_failures k) ≡ record k { consecutive_failures = length rs })
      × (run (rounds bs ++ (rs ++ (r ∷ []))) (reset_failures k) ≡ record k {
        consecutive_failures = length rs + 1;
        task = done;
        close_requests = k.close_requests + 1;
      })
unfolding run is_running ping reset_failures
streaks-run k bs rs r going short fails below last limit =
    let quiet = run_streaks bs k going (omega (arith, below)) short in
    let counted = run-Fails_fresh rs k going fails below in
    (
      run_append (rounds bs) rs (failures 0 k) ∙ ap (run rs) quiet ∙ counted,
      run_append (rounds bs) (rs ++ (r ∷ [])) (failures 0 k)
          ∙ ap (run (rs ++ (r ∷ []))) quiet
          ∙ run_append rs (r ∷ []) (failures 0 k)
          ∙ ap (keepalive_round r) counted
          ∙ round-Fails r (failures (length rs) k) going last
          ∙ check_reached (failures (length rs + 1) k) going limit,
    )
