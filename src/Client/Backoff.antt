-- ===== src/Client/Backoff.antt =====
-- The delays between the attempts to reconnect.
use fastapi_ws_rpc.Base.{ℕ, suc, ◌+◌, ◌*◌, ◌^◌, ◌/◌, ◌≤◌, ◌<◌, ◌≡◌, ap, arith}
use fastapi_ws_rpc.Base.Int.{ℤ, pos_part}
use fastapi_ws_rpc.Values.{exn, other, ok, raised}
use fastapi_ws_rpc.Exec.{continue}
use fastapi_ws_rpc.Client.{Client, Env}
use fastapi_ws_rpc.Client.Connecting.{Attempt, connect}
use fastapi_ws_rpc.Client.Reconnecting.{
  max_delay, exponential, capped_delay, with_jitter, delay, sleep, pause, after_attempt,
  attempt_loop,
}

double : (m n : ℕ) → m * 2 ^ suc n ≡ m * 2 ^ n + m * 2 ^ n
double m n = grind arith

-- How long an attempt is delayed, where that can be computed.
abbrev pub duration : (ℕ → ℕ) → ℤ → ℕ → ℕ
duration uniform reconnect_delay attempt = with_jitter uniform (exponential reconnect_delay attempt)

pub duration-le :
    (uniform : ℕ → ℕ) (reconnect_delay : ℤ) (attempt : ℕ)
    → ((bound : ℕ) → uniform bound ≤ bound)
    → duration uniform reconnect_delay attempt ≤ 75_000
duration-le uniform reconnect_delay attempt jitter =
    ground (arith, jitter (exponential reconnect_delay attempt / 4))

-- Before attempt 1023, with a jitter within its bound, a delay is at least the capped exponential
-- one, at most a quarter more and at most 75 seconds; the next capped delay is not less, and below
-- the cap a capped delay is the exponential one. From attempt 1024 on the delay raises
-- OverflowError.
pub delay_bounds :
    (uniform : ℕ → ℕ) (reconnect_delay : ℤ) (attempt beyond : ℕ)
    → ((bound : ℕ) → uniform bound ≤ bound)
    → suc attempt < 1024
    → (capped : ℕ) × (next : ℕ) × (d : ℕ) × (capped_delay reconnect_delay attempt ≡ ok capped)
      × (capped_delay reconnect_delay (suc attempt) ≡ ok next)
      × (delay uniform reconnect_delay attempt ≡ ok d)
      × (capped ≤ d)
      × (4 * d ≤ 5 * capped)
      × (d ≤ 75_000)
      × (capped ≤ next)
      × (pos_part reconnect_delay * 2 ^ attempt ≤ max_delay
          → capped ≡ pos_part reconnect_delay * 2 ^ attempt)
      × (delay uniform reconnect_delay (1024 + beyond)
          ≡ raised (exn (other "OverflowError") "int too large to convert to float"))
unfolding delay capped_delay
delay_bounds uniform reconnect_delay attempt beyond jitter early =
    let bound = jitter (exponential reconnect_delay attempt / 4) in
    (
      exponential reconnect_delay attempt,
      exponential reconnect_delay (suc attempt),
      duration uniform reconnect_delay attempt,
      ground (arith, early),
      ground (arith, early),
      ground (arith, early),
      omega arith,
      ground (arith, bound),
      ground (arith, bound),
      ground (arith, double (pos_part reconnect_delay) attempt),
      ground arith,
      ground arith,
    )

module _ (env : Env) (attempts : ℕ → Attempt) (uniform : ℕ → ℕ → ℕ) where
  pub pause-ok :
      (n : ℕ) (c : Client)
      → n < 1024
      → pause env attempts uniform n c ≡ (
        ok tt,
        sleep env attempts uniform (duration (uniform n) c.config.connection.reconnect_delay n) c,
      )
  unfolding pause delay capped_delay
  pause-ok n c early = ground (arith, early)

  -- A round of the loop whose delay can be computed.
  pub attempt_loop-suc :
      (left n : ℕ) (c : Client)
      → n < 1024
      → attempt_loop env attempts uniform (suc left) n c
        ≡ after_attempt env attempts uniform n (attempt_loop env attempts uniform left (suc n)) (
            connect env (attempts n) (
              sleep env attempts uniform
                (duration (uniform n) c.config.connection.reconnect_delay n)
                c))
  unfolding attempt_loop
  attempt_loop-suc left n c early =
      let rest = attempt_loop env attempts uniform left (suc n) in
      ap
        (continue (λ (u : Unit {0}) (d : Client).
          after_attempt env attempts uniform n rest (connect env (attempts n) d)))
        (pause-ok n c early)
