-- ===== src/Client/Refusals.antt =====
-- The loop of reconnections where no attempt gets a socket.
use fastapi_ws_rpc.Base.{ℕ, zero, suc, ◌+◌, ◌≤◌, ◌<◌, ◌≡◌, refl, true, false, arith}
use fastapi_ws_rpc.Base.Dict.{Dict, insert}
use fastapi_ws_rpc.Values.{Json, Exn, Outcome, ok, raised}
use fastapi_ws_rpc.Client.{Client, Env}
use fastapi_ws_rpc.Client.Connecting.{Attempt, connect}
use fastapi_ws_rpc.Client.Negotiating.{establish_websocket, fall_back, prepare_connection_kwargs}
use fastapi_ws_rpc.Client.Backoff.{duration, attempt_loop-suc}
use fastapi_ws_rpc.Client.Reconnecting.{
  is_retryable, is_permanent, End, exhausted, sleep, after_attempt, attempt_loop,
}

-- The outside refuses every connection with the exception.
abbrev pub Refuses : Exn → Attempt → Type 0
Refuses e a = (kwargs : Dict Json) → a.connect kwargs ≡ raised e

-- What `close` looks at is as it was.
pub record Untouched (c d : Client) : Type 0 where
  pub ws : d.ws ≡ c.ws
  pub channel : d.channel ≡ c.channel
  pub reader : d.reader ≡ c.reader
  pub keepalive : d.keepalive ≡ c.keepalive
  pub closing : d.closing ≡ c.closing
  pub pings : d.pings ≡ c.pings

untouched : (c : Client) → Untouched c c
untouched c = record {
  ws = refl;
  channel = refl;
  reader = refl;
  keepalive = refl;
  closing = refl;
  pings = refl;
}

establish-refused :
    (e : Exn) (a : Attempt) (kwargs : Dict Json)
    → Refuses e a
    → establish_websocket a.connect kwargs ≡ raised e
unfolding establish_websocket fall_back
establish-refused e a kwargs refuses =
    ground (arith, refuses kwargs, refuses (insert "compression" Json.null kwargs))

pub connect-refused :
    (env : Env) (e : Exn) (a : Attempt) (c : Client)
    → Refuses e a
    → connect env a c ≡ (raised e, record c { connects = suc c.connects })
unfolding connect
connect-refused env e a c refuses =
    ground (arith, establish-refused e a (prepare_connection_kwargs c) refuses)

-- The loop ends with no attempt that returned, after so many connections.
pub record Fails (k : ℕ) (c : Client) (r : Outcome End × Client) : Type 0 where
  pub outcome : r.0 ≡ ok exhausted
  pub untouched : Untouched c r.1
  pub connects : r.1.connects ≡ c.connects + k

module _ (env : Env) (attempts : ℕ → Attempt) (uniform : ℕ → ℕ → ℕ) where
  -- The state in which an attempt that is refused leaves the loop.
  refused_at : ℕ → Client → Client
  refused_at n c = record c {
    slept = c.slept + duration (uniform n) c.config.connection.reconnect_delay n;
    connects = suc c.connects;
  }

  attempt-refused :
      (e : Exn) (n : ℕ) (c : Client)
      → Refuses e (attempts n)
      → connect env (attempts n) (
          sleep env attempts uniform (duration (uniform n) c.config.connection.reconnect_delay n) c)
        ≡ (raised e, refused_at n c)
  unfolding refused_at
  attempt-refused e n c refuses =
      connect-refused env e (attempts n)
        (sleep env attempts uniform (duration (uniform n) c.config.connection.reconnect_delay n) c)
        refuses

  pub loop-refused :
      (e : Exn) (left n : ℕ) (c : Client)
      → ((k : ℕ) → Refuses e (attempts k))
      → is_retryable env.os_timeout e.cls ≡ true
      → n + left ≤ 1024
      → Fails left c (attempt_loop env attempts uniform left n c)
  unfolding attempt_loop after_attempt refused_at
  loop-refused e zero n c refuses again few = record {
    outcome = refl;
    untouched = untouched c;
    connects = omega arith;
  }
  loop-refused e (suc left) n c refuses again few =
      let d = record (refused_at n c) { reconnect_attempt = suc n } in
      let rest = loop-refused e left (suc n) d refuses again (omega (arith, few)) in
      let eq = attempt-refused e n c (refuses n) in
      let now = attempt_loop-suc env attempts uniform left n c (omega (arith, few)) in
      record {
        outcome = ground (arith, now, eq, again, rest.outcome);
        untouched = ground (arith, now, eq, again, rest.untouched);
        connects = ground (arith, now, eq, again, rest.connects);
      }

  pub loop-permanent :
      (e : Exn) (left : ℕ) (c : Client)
      → 0 < left
      → Refuses e (attempts 0)
      → is_permanent e.cls ≡ true
      → is_retryable env.os_timeout e.cls ≡ false
      → Fails 1 c (attempt_loop env attempts uniform left 0 c)
  unfolding attempt_loop after_attempt refused_at
  loop-permanent e zero c some_left refuses wrong other = ground arith
  loop-permanent e (suc left) c some_left refuses wrong other =
      let eq = attempt-refused e 0 c refuses in
      let now = attempt_loop-suc env attempts uniform left 0 c (omega arith) in
      record {
        outcome = ground (arith, now, eq, wrong, other);
        untouched = ground (arith, now, eq, wrong, other, untouched c);
        connects = ground (arith, now, eq, wrong, other);
      }
