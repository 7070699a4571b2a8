-- ===== src/Client/Exhaustion.antt =====
-- Reconnecting where no attempt gets a socket.
use fastapi_ws_rpc.Base.{ℕ, ◌+◌, ◌≤◌, ◌<◌, ◌≡◌, refl, ap, ◌∙◌, true, false, arith}
use fastapi_ws_rpc.Base.Int.{pos_part}
use fastapi_ws_rpc.Values.{Exn, Outcome, ok, raised}
use fastapi_ws_rpc.Exec.{continue}
use fastapi_ws_rpc.Client.{Client, Env}
use fastapi_ws_rpc.Client.Costs.{close-counts}
use fastapi_ws_rpc.Client.Closing.{Tolerates, IsShut, has_failed, has_crashed, close-IsShut}
use fastapi_ws_rpc.Client.Connecting.{Attempt}
use fastapi_ws_rpc.Client.Reconnecting.{
  is_retryable, is_permanent, End, connected, exhausted, attempt_loop, close_unless_connected,
  finally_reset, attempt_reconnection,
}
use fastapi_ws_rpc.Client.Refusals.{Refuses, Fails, loop-refused, loop-permanent}

module _ (env : Env) (attempts : ℕ → Attempt) (uniform : ℕ → ℕ → ℕ) where
  -- The rest of `_attempt_reconnection`, after the flag is found clear.
  reconnecting-eq :
      (c : Client)
      → c.is_reconnecting ≡ false
      → attempt_reconnection env attempts uniform c
        ≡ finally_reset env attempts uniform (
            continue (close_unless_connected env attempts uniform) (
              attempt_loop env attempts uniform
                (pos_part c.config.connection.max_reconnect_attempts)
                0
                (record c { is_reconnecting = true })))
  unfolding attempt_reconnection
  reconnecting-eq c idle = ground (arith, idle)

  -- A client that gives up.
  pub record IsGivenUp (k : ℕ) (c : Client) (r : Outcome (Unit {0}) × Client) : Type 0 where
    pub outcome : r.0 ≡ ok tt
    pub shut : IsShut env r.1
    pub idle : r.1.is_reconnecting ≡ false
    pub connects : r.1.connects ≡ c.connects + k
    pub pings : r.1.pings ≤ c.pings

  give_up :
      (k : ℕ) (c : Client) (r : Outcome End × Client)
      → c.closing ≡ false
      → Tolerates env
      → has_failed c.reader ≡ false
      → has_crashed c.keepalive ≡ false
      → Fails k c r
      → IsGivenUp k c (
          finally_reset env attempts uniform
            (continue (close_unless_connected env attempts uniform) r))
  unfolding close_unless_connected
  give_up k c (ok exhausted, d) fresh t quiet calm failed =
      let same = failed.untouched in
      let shut =
        close-IsShut env d (same.closing ∙ fresh) t (ap has_failed same.reader ∙ quiet)
          (ap has_crashed same.keepalive ∙ calm) in
      record {
        outcome = shut.0;
        shut = record {
          closing = shut.1.closing;
          signalled = shut.1.signalled;
          socket = shut.1.socket;
          channel = shut.1.channel;
          reader = shut.1.reader;
          keepalive = shut.1.keepalive;
        };
        idle = refl;
        connects = ground (arith, close-counts env d, failed.connects);
        pings = ground (arith, close-counts env d, same.pings);
      }
  give_up k c (ok connected, d) fresh t quiet calm failed = ground (arith, failed.outcome)
  give_up k c (raised e, d) fresh t quiet calm failed = ground (arith, failed.outcome)

  -- The flag that the loop runs under plays no part.
  unflagged :
      {k : ℕ} (c : Client) (r : Outcome End × Client)
      → Fails k (record c { is_reconnecting = true }) r
      → Fails k c r
  unflagged c r failed =
      let same = failed.untouched in
      record {
        outcome = failed.outcome;
        untouched = record {
          ws = same.ws;
          channel = same.channel;
          reader = same.reader;
          keepalive = same.keepalive;
          closing = same.closing;
          pings = same.pings;
        };
        connects = failed.connects;
      }

  given_up :
      (k : ℕ) (c : Client)
      → c.is_reconnecting ≡ false
      → c.closing ≡ false
      → Tolerates env
      → has_failed c.reader ≡ false
      → has_crashed c.keepalive ≡ false
      → Fails k
          (record c { is_reconnecting = true })
          (attempt_loop env attempts uniform
            (pos_part c.config.connection.max_reconnect_attempts)
            0
            (record c { is_reconnecting = true }))
      → IsGivenUp k c (attempt_reconnection env attempts uniform c)
  given_up k c idle fresh t quiet calm failed = rw (reconnecting-eq c idle) (
      give_up k c
        (attempt_loop env attempts uniform (pos_part c.config.connection.max_reconnect_attempts) 0
          (record c { is_reconnecting = true }))
        fresh t quiet calm (unflagged c _ failed))

  -- If every connection is refused with a retryable exception and max_reconnect_attempts is at
  -- most 1024, a client that is neither reconnecting nor closing, with nothing in the way of its
  -- close, tries exactly so many times, sends no ping and is then shut.
  pub attempt_reconnection_exhausted :
      (c : Client) (e : Exn)
      → c.is_reconnecting ≡ false
      → c.closing ≡ false
      → Tolerates env
      → has_failed c.reader ≡ false
      → has_crashed c.keepalive ≡ false
      → ((n : ℕ) → Refuses e (attempts n))
      → is_retryable env.os_timeout e.cls ≡ true
      → pos_part c.config.connection.max_reconnect_attempts ≤ 1024
      → IsGivenUp
          (pos_part c.config.connection.max_reconnect_attempts)
          c
          (attempt_reconnection env attempts uniform c)
  attempt_reconnection_exhausted c e idle fresh t quiet calm refuses again few =
      let n = pos_part c.config.connection.max_reconnect_attempts in
      given_up n c idle fresh t quiet calm (
        loop-refused env attempts uniform e n 0 (record c { is_reconnecting = true }) refuses again
          (omega (arith, few)))

  -- If the first connection is refused with an exception that retrying does not help, such a
  -- client tries once and is then shut.
  pub attempt_reconnection_permanent :
      (c : Client) (e : Exn)
      → c.is_reconnecting ≡ false
      → c.closing ≡ false
      → Tolerates env
      → has_failed c.reader ≡ false
      → has_crashed c.keepalive ≡ false
      → 0 < pos_part c.config.connection.max_reconnect_attempts
      → Refuses e (attempts 0)
      → is_permanent e.cls ≡ true
      → IsGivenUp 1 c (attempt_reconnection env attempts uniform c)
  attempt_reconnection_permanent c e idle fresh t quiet calm some_left refuses wrong =
      let n = pos_part c.config.connection.max_reconnect_attempts in
      given_up 1 c idle fresh t quiet calm (
        loop-permanent env attempts uniform e n (record c { is_reconnecting = true }) some_left
          refuses wrong (ground arith))
