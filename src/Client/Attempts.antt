-- ===== src/Client/Attempts.antt =====
-- The loop of reconnections ends, and how.
use fastapi_ws_rpc.Base.{
  ℕ, zero, suc, ◌+◌, ◌*◌, ◌≤◌, ◌≡◌, ◌⊎◌, inl, inr, refl, true, false, arith, if_both, if_cases,
}
use fastapi_ws_rpc.Base.Int.{pos_part}
use fastapi_ws_rpc.Values.{is_exception, Outcome, ok, raised}
use fastapi_ws_rpc.Exec.{Exec, continue}
use fastapi_ws_rpc.Client.{Client, Env}
use fastapi_ws_rpc.Client.Shutting.{close}
use fastapi_ws_rpc.Client.Connecting.{Attempt, connect}
use fastapi_ws_rpc.Client.Reconnecting.{
  is_retryable, is_permanent, reset, End, connected, exhausted, after_attempt, sleep, attempt_loop,
  close_unless_connected, finally_reset, attempt_reconnection,
}
use fastapi_ws_rpc.Client.Backoff.{duration, duration-le, attempt_loop-suc}
use fastapi_ws_rpc.Client.Costs.{close-counts}
use fastapi_ws_rpc.Client.ConnectCosts.{connect-Costs}
use fastapi_ws_rpc.Client.Closing.{close-closing}

-- What `n` attempts may cost, each of five pings and a sleep of 75 seconds.
pub record Spends (n : ℕ) (c c' : Client) : Type 0 where
  pub connects : c'.connects ≤ c.connects + n
  pub pings : c'.pings ≤ c.pings + 5 * n
  pub slept : c'.slept ≤ c.slept + 75_000 * n

-- How the loop may end: an attempt returned and the flags are reset, none did, or an exception that
-- is no `Exception` left it.
abbrev pub Ends : Outcome End → Client → Type 0
Ends (ok connected) c =
    (c.closing ≡ false) × (c.connection_closed ≡ false) × (c.reconnect_attempt ≡ 0)
Ends (ok exhausted) c = Unit
Ends (raised e) c = is_exception e.cls ≡ false

pub record Run (n : ℕ) (c : Client) (r : Outcome End × Client) : Type 0 where
  pub spends : Spends n c r.1
  pub ends : Ends r.0 r.1

module _ (env : Env) (attempts : ℕ → Attempt) (uniform : ℕ → ℕ → ℕ)
    (jitter : (n bound : ℕ) → uniform n bound ≤ bound) where
  -- A connection after its delay.
  abbrev delayed_connect : ℕ → Client → Outcome (Unit {0}) × Client
  delayed_connect n c =
      connect env (attempts n)
        (sleep env attempts uniform (duration (uniform n) c.config.connection.reconnect_delay n) c)

  attempt-Spends : (n : ℕ) (c : Client) → Spends 1 c (delayed_connect n c).1
  attempt-Spends n c =
      let d = duration (uniform n) c.config.connection.reconnect_delay n in
      let costs = connect-Costs env (attempts n) (sleep env attempts uniform d c) in
      record {
        connects = omega (arith, costs.connects);
        pings = omega (arith, costs.pings);
        slept = omega (
          arith,
          costs.slept,
          duration-le (uniform n) c.config.connection.reconnect_delay n (jitter n),
        );
      }

  more : (c d : Client) (left : ℕ) → Spends 1 c d → Spends (suc left) c d
  more c d left spent = record {
    connects = omega (arith, spent.connects);
    pings = omega (arith, spent.pings);
    slept = omega (arith, spent.slept);
  }

  later :
      {left : ℕ} (c d : Client) (r : Outcome End × Client)
      → Spends 1 c d
      → Run left d r
      → Run (suc left) c r
  later c d r spent run = record {
    spends = record {
      connects = omega (arith, spent.connects, run.spends.connects);
      pings = omega (arith, spent.pings, run.spends.pings);
      slept = omega (arith, spent.slept, run.spends.slept);
    };
    ends = run.ends;
  }

  after-Run :
      (n left : ℕ) (c : Client) (r : Outcome (Unit {0}) × Client) (rest : Exec Client End)
      → Spends 1 c r.1
      → ((d : Client) → Run left d (rest d))
      → Run (suc left) c (after_attempt env attempts uniform n rest r)
  unfolding after_attempt reset
  after-Run n left c (ok u, d) rest spent next = record {
    spends = record {
      connects = omega (arith, spent.connects);
      pings = omega (arith, spent.pings);
      slept = omega (arith, spent.slept);
    };
    ends = (refl, refl, refl);
  }
  after-Run n left c (raised e, d) rest spent next =
      if_both (Run (suc left) c) (is_retryable env.os_timeout e.cls)
        (let d' = record d { reconnect_attempt = suc n } in
          later c d' (rest d')
            (record { connects = spent.connects; pings = spent.pings; slept = spent.slept })
            (next d'))
        (if_both (Run (suc left) c) (is_permanent e.cls)
          (record { spends = more c d left spent; ends = tt })
          (if_cases (Run (suc left) c) (is_exception e.cls) (λ h. later c d (rest d) spent (next d))
            (λ h. record { spends = more c d left spent; ends = h })))

  attempt_loop-Run :
      (left n : ℕ) (c : Client)
      → n + left ≤ 1024
      → Run left c (attempt_loop env attempts uniform left n c)
  unfolding attempt_loop
  attempt_loop-Run zero n c few = record {
    spends = record { connects = omega arith; pings = omega arith; slept = omega arith };
    ends = tt;
  }
  attempt_loop-Run (suc left) n c few =
      rw (attempt_loop-suc env attempts uniform left n c (omega (arith, few))) (
        after-Run n left c (delayed_connect n c) (attempt_loop env attempts uniform left (suc n))
          (attempt-Spends n c) (λ d. attempt_loop-Run left (suc n) d (omega (arith, few))))

  -- How the whole ends: an attempt returned and the flags are reset, closed, or by an exception that is no
  -- `Exception`.
  abbrev pub Settled : Outcome (Unit {0}) → Client → Type 0
  Settled (ok u) c =
      (c.closing ≡ true)
      ⊎ ((c.closing ≡ false) × (c.connection_closed ≡ false) × (c.reconnect_attempt ≡ 0))
  Settled (raised e) c = (is_exception e.cls ≡ false) ⊎ (c.closing ≡ true)

  closed-Settled : (r : Outcome (Unit {0})) (c : Client) → c.closing ≡ true → Settled r c
  closed-Settled (ok u) c h = inl h
  closed-Settled (raised e) c h = inr h

  -- The rest of `_attempt_reconnection` after its loop.
  pub record IsDone (n : ℕ) (c : Client) (r : Outcome (Unit {0}) × Client) : Type 0 where
    pub settled : Settled r.0 r.1
    pub idle : r.1.is_reconnecting ≡ false
    pub spends : Spends n c r.1

  finish-IsDone :
      (n : ℕ) (c : Client) (r : Outcome End × Client)
      → Run n c r
      → IsDone n c (
          finally_reset env attempts uniform
            (continue (close_unless_connected env attempts uniform) r))
  unfolding close_unless_connected
  finish-IsDone n c (ok connected, d) run = record {
    settled = inr run.ends;
    idle = refl;
    spends = record {
      connects = run.spends.connects;
      pings = run.spends.pings;
      slept = run.spends.slept;
    };
  }
  finish-IsDone n c (ok exhausted, d) run = record {
    settled =
        closed-Settled (close env d).0 (record (close env d).1 { is_reconnecting = false })
          (close-closing env d);
    idle = refl;
    spends = record {
      connects = omega (arith, run.spends.connects, (close-counts env d).0);
      pings = omega (arith, run.spends.pings, (close-counts env d).1);
      slept = omega (arith, run.spends.slept, (close-counts env d).2);
    };
  }
  finish-IsDone n c (raised e, d) run = record {
    settled = inl run.ends;
    idle = refl;
    spends = record {
      connects = run.spends.connects;
      pings = run.spends.pings;
      slept = run.spends.slept;
    };
  }

  -- With a jitter within its bound and max_reconnect_attempts at most 1024, a reconnection that is
  -- not already under way ends after at most so many connections, five pings and 75 seconds of
  -- sleep for each: the flag is clear again, and an attempt returned and the flags of the client
  -- are reset, or the client is closing, or an exception that is no Exception left the loop.
  pub attempt_reconnection_ends :
      (c : Client)
      → c.is_reconnecting ≡ false
      → pos_part c.config.connection.max_reconnect_attempts ≤ 1024
      → IsDone
          (pos_part c.config.connection.max_reconnect_attempts)
          c
          (attempt_reconnection env attempts uniform c)
  unfolding attempt_reconnection
  attempt_reconnection_ends c idle few =
      let n = pos_part c.config.connection.max_reconnect_attempts in
      let d = record c { is_reconnecting = true } in
      if_cases (IsDone n c) c.is_reconnecting (λ h. cc)
        (λ h. finish-IsDone n c (attempt_loop env attempts uniform n 0 d) (
          let run = attempt_loop-Run n 0 d (omega (arith, few)) in
          record {
            spends = record {
              connects = run.spends.connects;
              pings = run.spends.pings;
              slept = run.spends.slept;
            };
            ends = run.ends;
          }))
