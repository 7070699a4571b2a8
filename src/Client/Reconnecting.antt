-- ===== src/Client/Reconnecting.antt =====
-- `_attempt_reconnection` of fastapi_ws_rpc/websocket_rpc_client.py. Delays are milliseconds. The
-- number of attempts is that of the configuration, so the loop runs on it without other fuel.
use fastapi_ws_rpc.Base.{
  ℕ, zero, suc, ◌+◌, ◌*◌, ◌^◌, ◌/◌, min, Bool, true, false, none, ltb, if◌then◌else◌,
}
use fastapi_ws_rpc.Base.Int.{ℤ, pos_part}
use fastapi_ws_rpc.Values.{
  ExnClass, exn, other, is_exception, Outcome, ok, raised, value_error, validation_error,
  type_error, runtime_error, connection_error, os_error, timeout_error, connection_closed,
  web_socket_exception, invalid_status,
}
use fastapi_ws_rpc.Exec.{Exec, pure, ◌>>=◌, ◌>>◌}
use fastapi_ws_rpc.Client.{Client, Env}
use fastapi_ws_rpc.Client.Shutting.{close}
use fastapi_ws_rpc.Client.Connecting.{Attempt, connect}

-- `min(reconnect_delay * 2**attempt, 60.0)`; a negative delay is no sleep at all.
abbrev pub max_delay : ℕ
max_delay = 60_000

abbrev pub exponential : ℤ → ℕ → ℕ
exponential reconnect_delay attempt = min (pos_part reconnect_delay * 2 ^ attempt) max_delay

-- The product is one of floats: `2**attempt` has no float from this exponent on.
abbrev pub float_exponents : ℕ
float_exponents = 1024

unfoldable pub capped_delay : ℤ → ℕ → Outcome ℕ
capped_delay reconnect_delay attempt =
    if ltb attempt float_exponents
    then ok (exponential reconnect_delay attempt)
    else raised (exn (other "OverflowError") "int too large to convert to float")

-- With the jitter, `random.uniform(0, 0.25 * capped_delay)`: `uniform` is given the upper bound.
abbrev pub with_jitter : (ℕ → ℕ) → ℕ → ℕ
with_jitter uniform capped = capped + uniform (capped / 4)

unfoldable pub delay : (ℕ → ℕ) → ℤ → ℕ → Outcome ℕ
unfolding capped_delay
delay uniform reconnect_delay attempt = elim (capped_delay reconnect_delay attempt) [
  | raised e ↦ raised e
  | ok capped ↦ ok (with_jitter uniform capped)
]

-- The classes that are retried: `ConnectionRefusedError` is a `ConnectionError`, which is an
-- `OSError`, and the others are those of websockets.
abbrev pub is_retryable : Bool → ExnClass → Bool
is_retryable os_timeout connection_error = true
is_retryable os_timeout os_error = true
is_retryable os_timeout connection_closed = true
is_retryable os_timeout web_socket_exception = true
is_retryable os_timeout invalid_status = true
is_retryable os_timeout timeout_error = os_timeout
is_retryable os_timeout _ = false

abbrev pub is_permanent : ExnClass → Bool
is_permanent validation_error = true
is_permanent value_error = true
is_permanent type_error = true
is_permanent runtime_error = true
is_permanent _ = false

-- What a successful attempt resets.
unfoldable pub reset : Client → Client
reset c = record c {
  connection_closed = false;
  closing = false;
  close_code = none;
  close_reason = none;
  reconnect_attempt = 0;
}

-- How the loop ends: an attempt returned, or none did.
pub data End : Type 0 where
  connected exhausted : End

-- The attempts of the outside by their number, and the jitter of each.
module _ (env : Env) (attempts : ℕ → Attempt) (uniform : ℕ → ℕ → ℕ) where
  -- The `except` clauses around an attempt; `rest` is what the loop does next.
  unfoldable pub after_attempt :
      ℕ → Exec Client End → Outcome (Unit {0}) × Client → Outcome End × Client
  unfolding reset
  after_attempt attempt rest (ok u, c) = (ok connected, reset c)
  after_attempt attempt rest (raised e, c) =
      if is_retryable env.os_timeout e.cls
      then rest (record c { reconnect_attempt = suc attempt })
      else if is_permanent e.cls
      then (ok exhausted, c)
      else if is_exception e.cls
      then rest c
      else (raised e, c)

  abbrev pub sleep : ℕ → Client → Client
  sleep duration c = record c { slept = c.slept + duration }

  -- The delay before an attempt. What its computation raises no `except` clause sees.
  unfoldable pub pause : ℕ → Exec Client Unit
  unfolding delay
  pause attempt c = elim (delay (uniform attempt) c.config.connection.reconnect_delay attempt) [
    | raised e ↦ (raised e, c)
    | ok duration ↦ (ok tt, sleep duration c)
  ]

  -- The `for` loop, with the number of attempts that are left.
  unfoldable pub attempt_loop : ℕ → ℕ → Exec Client End
  unfolding after_attempt pause connect
  attempt_loop zero attempt c = (ok exhausted, c)
  attempt_loop (suc left) attempt c =
      let rest = attempt_loop left (suc attempt) in
      (pause attempt >> (λ d. after_attempt attempt rest (connect env (attempts attempt) d))) c

  unfoldable pub close_unless_connected : End → Exec Client Unit
  unfolding close
  close_unless_connected connected = pure tt
  close_unless_connected exhausted = close env

  -- `finally: self._is_reconnecting = False`
  abbrev pub finally_reset : Outcome (Unit {0}) × Client → Outcome (Unit {0}) × Client
  finally_reset (r, c) = (r, record c { is_reconnecting = false })

  unfoldable pub attempt_reconnection : Exec Client Unit
  unfolding attempt_loop close_unless_connected
  attempt_reconnection c =
      if c.is_reconnecting
      then (ok tt, c)
      else finally_reset (
          (attempt_loop (pos_part c.config.connection.max_reconnect_attempts) 0
              >>= close_unless_connected)
            (record c { is_reconnecting = true }))
