-- ===== src/Client/Operating.antt =====
-- The operations of a client as steps: what it is asked and what it meets, each run to its end.
use fastapi_ws_rpc.Base.{ℕ, Option, none, some, List, [], ◌∷◌, ltb, if◌then◌else◌}
use fastapi_ws_rpc.Values.{Exn}
use fastapi_ws_rpc.ProtocolHandler.{Handler}
use fastapi_ws_rpc.Channel.{Channel}
use fastapi_ws_rpc.Keepalive
use fastapi_ws_rpc.Keepalive.{Round, RpcKeepalive}
use fastapi_ws_rpc.Client.{Client, Env, Job, close_job, reconnect_job, schedule}
use fastapi_ws_rpc.Client.Shutting.{close}
use fastapi_ws_rpc.Client.Connecting.{Attempt, connect}
use fastapi_ws_rpc.Client.Reading.{Close, Received, reader_round}
use fastapi_ws_rpc.Client.Reconnecting.{attempt_reconnection}

-- A round of the client's keepalive: each close that it asks for becomes a task.
abbrev pub after_round : ℕ → RpcKeepalive → Client → Client
after_round asked k c =
    let c' = record c { keepalive = some k } in
    if ltb asked k.close_requests then schedule close_job c' else c'

unfoldable pub keepalive_round : Round → Client → Client
unfolding Keepalive.keepalive_round
keepalive_round r c = elim c.keepalive [
  | none ↦ c
  | some k ↦ after_round k.close_requests (Keepalive.keepalive_round r k) c
]

-- The user closes or connects, the reader and the keepalive go on, and the first task that was
-- created runs.
pub data Op : Type 0 where
  closes : Op
  connects : Attempt → Op
  reads : (Exn → Option Close) → Handler Channel → Received → Op
  pings : Round → Op
  runs : (ℕ → Attempt) → (ℕ → ℕ → ℕ) → Op

module _ (env : Env) where
  unfoldable pub run_job : (ℕ → Attempt) → (ℕ → ℕ → ℕ) → Job → Client → Client
  unfolding close attempt_reconnection
  run_job attempts uniform close_job c = (close env c).1
  run_job attempts uniform reconnect_job c = (attempt_reconnection env attempts uniform c).1

  unfoldable pub run_first : (ℕ → Attempt) → (ℕ → ℕ → ℕ) → List Job → Client → Client
  unfolding run_job
  run_first attempts uniform [] c = c
  run_first attempts uniform (j ∷ js) c = run_job attempts uniform j (record c { scheduled = js })

  unfoldable pub step : Op → Client → Client
  unfolding close connect reader_round keepalive_round run_first
  step closes c = (close env c).1
  step (connects a) c = (connect env a c).1
  step (reads rcvd h r) c = reader_round rcvd h r c
  step (pings r) c = keepalive_round r c
  step (runs attempts uniform) c = run_first attempts uniform c.scheduled c

  unfoldable pub run : List Op → Client → Client
  unfolding step
  run [] c = c
  run (o ∷ os) c = run os (step o c)
