-- ===== src/Client/Runs.antt =====
-- What holds of a client over any sequence of its operations.
use fastapi_ws_rpc.Base.{
  ℕ, zero, suc, ◌≡◌, refl, ◌∙◌, true, false, Option, List, [], ◌∷◌, arith, is_some, if_both,
}
use fastapi_ws_rpc.Base.Int.{pos_part}
use fastapi_ws_rpc.Values.{is_exception, Exn, Outcome, ok, raised}
use fastapi_ws_rpc.Exec.{Exec, continue}
use fastapi_ws_rpc.Config.{WebSocketRpcClientConfig}
use fastapi_ws_rpc.ProtocolHandler.{Handler}
use fastapi_ws_rpc.Channel.{Channel}
use fastapi_ws_rpc.Keepalive.{Round}
use fastapi_ws_rpc.Client.{Client, Env, Job, close_job, reconnect_job, init}
use fastapi_ws_rpc.Client.Shutting.{begin_close, close}
use fastapi_ws_rpc.Client.Connecting.{Attempt, connect}
use fastapi_ws_rpc.Client.Costs.{Costs, finish_close-Costing}
use fastapi_ws_rpc.Client.ConnectCosts.{connect-Costs}
use fastapi_ws_rpc.Client.Reading.{
  Close, Received, connection_lost, on_exception, after_message, after_recv, reader_round,
}
use fastapi_ws_rpc.Client.Reconnecting.{
  is_retryable, is_permanent, reset, End, connected, exhausted, pause, after_attempt, attempt_loop,
  close_unless_connected, attempt_reconnection,
}
use fastapi_ws_rpc.Client.Operating.{
  keepalive_round, Op, closes, connects, reads, pings, runs, run_job, run_first, step, run,
}

-- A client that closes has signalled it, one with a channel has a socket, and no
-- reconnection is under way between the operations.
pub record IsValid (c : Client) : Type 0 where
  pub signalled : c.closing ≡ true → c.connection_closed ≡ true
  pub paired : is_some c.channel ≡ true → is_some c.ws ≡ true
  pub idle : c.is_reconnecting ≡ false

-- The same from one state to another.
record Safe (c c' : Client) : Type 0 where
  signalled :
      (c.closing ≡ true → c.connection_closed ≡ true)
      → c'.closing ≡ true
      → c'.connection_closed ≡ true
  paired :
      (is_some c.channel ≡ true → is_some c.ws ≡ true)
      → is_some c'.channel ≡ true
      → is_some c'.ws ≡ true
  idle : c'.is_reconnecting ≡ c.is_reconnecting

Safe-IsValid : {c c' : Client} → Safe c c' → IsValid c → IsValid c'
Safe-IsValid safe v = record {
  signalled = safe.signalled v.signalled;
  paired = safe.paired v.paired;
  idle = safe.idle ∙ v.idle;
}

trans : {c d e : Client} → Safe c d → Safe d e → Safe c e
trans a b = record {
  signalled = λ h. b.signalled (a.signalled h);
  paired = λ h. b.paired (a.paired h);
  idle = b.idle ∙ a.idle;
}

same : {c : Client} → Safe c c
same = record { signalled = λ h. h; paired = λ h. h; idle = refl }

Costs-Safe : {n : ℕ} {c c' : Client} → Costs n c c' → Safe c c'
Costs-Safe costs = record {
  signalled = λ h now. costs.signalled (h (ground (arith, now, costs.closing)));
  paired = costs.paired;
  idle = costs.is_reconnecting;
}

close-Safe : (env : Env) (c : Client) → Safe c (close env c).1
unfolding close begin_close
close-Safe env c =
    let costs = finish_close-Costing env (begin_close env c) in
    record {
      signalled = λ h. ground (arith, costs.signalled (ground arith));
      paired = λ h.
          if_both
            (λ (r : Outcome (Unit {0}) × Client).
              is_some r.1.channel ≡ true → is_some r.1.ws ≡ true)
            c.closing h (costs.paired (λ g. ground (arith, g, h)));
      idle = ground (arith, costs.is_reconnecting);
    }

reader_round-Safe :
    (rcvd : Exn → Option Close) (h : Handler Channel) (r : Received) (c : Client)
    → Safe c (reader_round rcvd h r c)
unfolding reader_round after_recv on_exception after_message connection_lost
reader_round-Safe rcvd h r c = record {
  signalled = λ v. ground (arith, v);
  paired = λ v. ground (arith, v);
  idle = ground arith;
}

keepalive_round-Safe : (r : Round) (c : Client) → Safe c (keepalive_round r c)
unfolding keepalive_round
keepalive_round-Safe r c = record {
  signalled = λ v. ground (arith, v);
  paired = λ v. ground (arith, v);
  idle = ground arith;
}

module _ (env : Env) (attempts : ℕ → Attempt) (uniform : ℕ → ℕ → ℕ) where
  after_attempt-Safe :
      (n : ℕ) (c : Client) (r : Outcome (Unit {0}) × Client) (rest : Exec Client End)
      → Safe c r.1
      → ((d : Client) → Safe d (rest d).1)
      → Safe c (after_attempt env attempts uniform n rest r).1
  unfolding after_attempt reset
  after_attempt-Safe n c (ok u, d) rest safe next =
      trans safe (record { signalled = λ h now. cc; paired = λ h. h; idle = refl })
  after_attempt-Safe n c (raised e, d) rest safe next = trans safe (
      if_both (λ (o : Outcome End × Client). Safe d o.1) (is_retryable env.os_timeout e.cls)
        (let d' = record d { reconnect_attempt = suc n } in
          trans (record { signalled = λ h. h; paired = λ h. h; idle = refl }) (next d'))
        (if_both (λ (o : Outcome End × Client). Safe d o.1) (is_permanent e.cls) same
          (if_both (λ (o : Outcome End × Client). Safe d o.1) (is_exception e.cls) (next d) same)))

  connect-Safe : (a : Attempt) (c : Client) → Safe c (connect env a c).1
  connect-Safe a c =
      trans {d = record c { connects = suc c.connects }}
        (record { signalled = λ h. h; paired = λ h. h; idle = refl })
        (Costs-Safe (connect-Costs env a c))

  pause-Safe : (n : ℕ) (c : Client) → Safe c (pause env attempts uniform n c).1
  unfolding pause
  pause-Safe n c = record {
    signalled = λ h. ground (arith, h);
    paired = λ h. ground (arith, h);
    idle = ground arith;
  }

  continue-Safe :
      (f : Unit {0} → Exec Client End) (c : Client) (r : Outcome (Unit {0}) × Client)
      → Safe c r.1
      → ((d : Client) → Safe d (f tt d).1)
      → Safe c (continue f r).1
  continue-Safe f c (ok u, d) safe next = trans safe (next d)
  continue-Safe f c (raised e, d) safe next = safe

  attempt_loop-Safe :
      (left n : ℕ) (c : Client) → Safe c (attempt_loop env attempts uniform left n c).1
  unfolding attempt_loop
  attempt_loop-Safe zero n c = same
  attempt_loop-Safe (suc left) n c =
      let rest = attempt_loop env attempts uniform left (suc n) in
      continue-Safe
        (λ (u : Unit {0}) (d : Client).
          after_attempt env attempts uniform n rest (connect env (attempts n) d))
        c (pause env attempts uniform n c) (pause-Safe n c)
        (λ d.
          after_attempt-Safe n d (connect env (attempts n) d) rest (connect-Safe (attempts n) d)
            (attempt_loop-Safe left (suc n)))

  rest-Safe :
      (c : Client) (r : Outcome End × Client)
      → Safe c r.1
      → Safe c (continue (close_unless_connected env attempts uniform) r).1
  unfolding close_unless_connected
  rest-Safe c (ok connected, d) safe = safe
  rest-Safe c (ok exhausted, d) safe = trans safe (close-Safe env d)
  rest-Safe c (raised e, d) safe = safe

  attempt_reconnection-IsValid :
      (c : Client) → IsValid c → IsValid (attempt_reconnection env attempts uniform c).1
  unfolding attempt_reconnection
  attempt_reconnection-IsValid c v =
      let n = pos_part c.config.connection.max_reconnect_attempts in
      let d = record c { is_reconnecting = true } in
      let safe = rest-Safe d (attempt_loop env attempts uniform n 0 d) (attempt_loop-Safe n 0 d) in
      if_both (λ (r : Outcome (Unit {0}) × Client). IsValid r.1) c.is_reconnecting v
        (record {
          signalled = safe.signalled v.signalled;
          paired = safe.paired v.paired;
          idle = refl;
        })

module _ (env : Env) where
  run_job-IsValid :
      (attempts : ℕ → Attempt) (uniform : ℕ → ℕ → ℕ) (j : Job) (c : Client)
      → IsValid c
      → IsValid (run_job env attempts uniform j c)
  unfolding run_job
  run_job-IsValid attempts uniform close_job c v = Safe-IsValid (close-Safe env c) v
  run_job-IsValid attempts uniform reconnect_job c v =
      attempt_reconnection-IsValid env attempts uniform c v

  run_first-IsValid :
      (attempts : ℕ → Attempt) (uniform : ℕ → ℕ → ℕ) (js : List Job) (c : Client)
      → IsValid c
      → IsValid (run_first env attempts uniform js c)
  unfolding run_first
  run_first-IsValid attempts uniform [] c v = v
  run_first-IsValid attempts uniform (j ∷ js) c v =
      run_job-IsValid attempts uniform j (record c { scheduled = js })
        (record { signalled = v.signalled; paired = v.paired; idle = v.idle })

  step-IsValid : (o : Op) (c : Client) → IsValid c → IsValid (step env o c)
  unfolding step
  step-IsValid closes c v = Safe-IsValid (close-Safe env c) v
  step-IsValid (connects a) c v = Safe-IsValid (connect-Safe env (λ n. a) (λ n k. k) a c) v
  step-IsValid (reads rcvd h r) c v = Safe-IsValid (reader_round-Safe rcvd h r c) v
  step-IsValid (pings r) c v = Safe-IsValid (keepalive_round-Safe r c) v
  step-IsValid (runs attempts uniform) c v = run_first-IsValid attempts uniform c.scheduled c v

  run-IsValid : (os : List Op) (c : Client) → IsValid c → IsValid (run env os c)
  unfolding run
  run-IsValid [] c v = v
  run-IsValid (o ∷ os) c v = run-IsValid os (step env o c) (step-IsValid o c v)

  -- Over any sequence of closes, connections, reader rounds, keepalive rounds and created tasks of
  -- a new client, where also the constructors of the wrapper and of the channel may raise, a
  -- client that is closing has signalled it, one with a channel has a socket, and no reconnection
  -- stays under way.
  pub run_from_init-IsValid :
      (config : WebSocketRpcClientConfig) (c : Client) (os : List Op)
      → init config ≡ ok c
      → IsValid (run env os c)
  unfolding init
  run_from_init-IsValid config c os new = run-IsValid os c (record {
    signalled = λ h. ground (arith, new, h);
    paired = λ h. ground (arith, new, h);
    idle = ground (arith, new);
  })
