-- ===== src/Client/Entering.antt =====
-- `__aenter__` and `__aexit__` of fastapi_ws_rpc/websocket_rpc_client.py: connecting with retries, and
-- closing. What the outside does in each connection is given by the number of connections so far.
use fastapi_ws_rpc.Base.{
  ℕ, zero, suc, ◌+◌, ◌≤◌, ◌<◌, ◌≡◌, refl, ap, ◌∙◌, true, false, Option, arith,
}
use fastapi_ws_rpc.Base.Int.{pos_part}
use fastapi_ws_rpc.Values.{Exn, ok}
use fastapi_ws_rpc.Exec.{Exec}
use fastapi_ws_rpc.Retry
use fastapi_ws_rpc.Retry.{Settings, client_retry, wrap, Laws}
use fastapi_ws_rpc.Retry.Attempts.{Fails, done, fails, client_retries}
use fastapi_ws_rpc.Keepalive.{reset_failures}
use fastapi_ws_rpc.Client.{Socket, Client, Env, is_connected}
use fastapi_ws_rpc.Client.Shutting.{close}
use fastapi_ws_rpc.Client.Closing.{Tolerates, IsShut, has_failed, has_crashed, close-IsShut}
use fastapi_ws_rpc.Client.Connecting.{Attempt, connect, set_channel}
use fastapi_ws_rpc.Client.Connected.{Accepts, counted-Accepts, connect-ok, connect-IsConnected}
use fastapi_ws_rpc.Client.Refusals.{Refuses, connect-refused}

module _ (env : Env) (attempts : ℕ → Attempt) where
  -- `__connect__`, which meets the next thing outside.
  unfoldable pub connect_next : Exec Client Unit
  unfolding connect
  connect_next c = connect env (attempts c.connects) c

  unfoldable pub aenter :
      (Settings → Exec Client Unit → Exec Client Unit) → (Exn → Option ℕ) → Exec Client Unit
  unfolding wrap Retry.init client_retry connect_next
  aenter retry status_code c =
      wrap retry (Retry.init status_code (client_retry c.config.retry)) connect_next c

  unfoldable pub aexit : Exec Client Unit
  unfolding close
  aexit = close env

  module _ (retry : Settings → Exec Client Unit → Exec Client Unit) (laws : Laws retry)
      (status_code : Exn → Option ℕ) where
    -- Connections that are refused fail in a row, and change only how many there were.
    refused-Fails :
        (errors : ℕ → Exn) (n m : ℕ) (c : Client)
        → ((i : ℕ) → c.connects ≤ i → i < c.connects + n → Refuses (errors i) (attempts i))
        → m ≡ c.connects + n
        → Fails retry laws connect_next n c (record c { connects = m })
    unfolding connect_next
    refused-Fails errors zero m c refuses eq =
        let same : m ≡ c.connects = omega (arith, eq) in rw same done
    refused-Fails errors (suc n) m c refuses eq =
        fails (errors c.connects)
          (connect-refused env (errors c.connects) (attempts c.connects) c
            (refuses c.connects (omega arith) (omega arith)))
          (refused-Fails errors n m (record c { connects = suc c.connects })
            (λ i above below. refuses i (omega (arith, above)) (omega (arith, below)))
            (omega (arith, eq)))

    -- A client that has just connected has a reader that reads and a keepalive that runs.
    connected-calm :
        (a : Attempt) (s : Socket) (c : Client)
        → Accepts env a s c
        → has_crashed c.keepalive ≡ false
        → let c' = (connect env a c).1 in
          (has_failed c'.reader ≡ false)
          × (has_crashed c'.keepalive ≡ false)
          × (c'.connects ≡ suc c.connects)
    unfolding set_channel reset_failures
    connected-calm a s c accepts calm = ground (arith, connect-ok env a s c accepts)

    -- After refusals that leave an attempt, the client is what the next connection makes of it.
    entered :
        (errors : ℕ → Exn) (n : ℕ) (c u : Client)
        → c.config.retry.enabled ≡ true
        → n < pos_part c.config.retry.max_attempts
        → ((i : ℕ) → c.connects ≤ i → i < c.connects + n → Refuses (errors i) (attempts i))
        → connect env (attempts (c.connects + n)) (record c { connects = c.connects + n })
          ≡ (ok tt, u)
        → aenter retry status_code c ≡ (ok tt, u)
    unfolding aenter connect_next
    entered errors n c u on lt refuses eq =
        (client_retries retry laws connect_next status_code c.config.retry tt (errors 0)
            (refused-Fails errors n (c.connects + n) c refuses refl)).0
          on lt eq

    -- With a retry loop that runs as tenacity is documented, entering an enabled client whose
    -- first n connections are refused, n below max_attempts, and whose next one is accepted,
    -- returns with the client connected after exactly those connections and one ping; if it was
    -- not closing and its keepalive had not crashed, and nothing outside is in the way of its
    -- close, leaving returns and shuts it, and leaving again does nothing.
    pub aenter-aexit :
        (errors : ℕ → Exn) (n : ℕ) (s : Socket) (c : Client)
        → c.config.retry.enabled ≡ true
        → n < pos_part c.config.retry.max_attempts
        → c.closing ≡ false
        → has_crashed c.keepalive ≡ false
        → Tolerates env
        → ((i : ℕ) → c.connects ≤ i → i < c.connects + n → Refuses (errors i) (attempts i))
        → Accepts env (attempts (c.connects + n)) s c
        → let (o, entered) = aenter retry status_code c in
          let (r, left) = aexit entered in
          (o ≡ ok tt)
          × (is_connected env entered ≡ true)
          × (entered.connects ≡ c.connects + suc n)
          × (entered.pings ≡ suc c.pings)
          × (r ≡ ok tt)
          × IsShut env left
          × (aexit left ≡ (ok tt, left))
    unfolding aexit
    aenter-aexit errors n s c on lt open_yet calm t refuses accepts =
        let d = record c { connects = c.connects + n } in
        let a = attempts (c.connects + n) in
        let u = (connect env a d).1 in
        let ready = counted-Accepts (c.connects + n) accepts in
        let up = connect-IsConnected env a s d ready in
        let quiet = connected-calm a s d ready calm in
        let shut = close-IsShut env u (up.4 ∙ open_yet) t quiet.0 quiet.1 in
        rw (entered errors n c u on lt refuses (ap (λ o. (o, u)) up.0))
          (refl, up.1, omega (arith, quiet.2), up.5, shut.0, shut.1, shut.3)
