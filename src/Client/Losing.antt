-- ===== src/Client/Losing.antt =====
-- How the reader ends, and what it starts.
use fastapi_ws_rpc.Base.{
  ℕ, ◌≡◌, ◌≢◌, ◌↔◌, refl, Bool, true, false, Option, none, some, [], ◌∷◌, ◌++◌, arith,
}
use fastapi_ws_rpc.Values.{Exn, connection_closed, is_rpc_error, ok, raised}
use fastapi_ws_rpc.ProtocolHandler.{Handler}
use fastapi_ws_rpc.Channel.{Channel}
use fastapi_ws_rpc.Client.{reading, finished, failed, Job, reconnect_job, Client, Env}
use fastapi_ws_rpc.Client.Shutting.{close}
use fastapi_ws_rpc.Client.Closing.{Tolerates, has_crashed, close_failed_reader}
use fastapi_ws_rpc.Client.Reading.{
  Close, refused, is_non_retryable, job_after, connection_lost, on_exception, after_recv,
  reader_round,
}

-- No close code of a permanent failure: protocol error, unsupported data, invalid data, policy
-- violation, internal error.
abbrev pub IsRetried : Option ℕ → Type 0
IsRetried code =
    (code ≢ some 1002)
    × (code ≢ some 1003)
    × (code ≢ some 1007)
    × (code ≢ some 1008)
    × (code ≢ some 1011)

retried : (code : Option ℕ) → is_non_retryable code ≡ false → IsRetried code
unfolding is_non_retryable
retried code h = ground (arith, h)

not_retried : (code : Option ℕ) → IsRetried code → is_non_retryable code ≡ false
unfolding is_non_retryable
not_retried none h = refl
not_retried (some n) h = ground (arith, h)

job_after-reconnect :
    (code : Option ℕ) (auto_reconnect : Bool)
    → (job_after code auto_reconnect ≡ reconnect_job) ↔ ((auto_reconnect ≡ true) × IsRetried code)
unfolding job_after
job_after-reconnect code auto_reconnect = (
  λ h. (ground (arith, h), retried code (ground (arith, h))),
  λ h. ground (arith, h.0, not_retried code h.1),
)

-- The code that the client knows after a close frame, or none.
abbrev pub code_after : Option Close → Client → Option ℕ
code_after none c = c.close_code
code_after (some f) c = some f.code

-- When the connection of a reading client ends, the reader ends and signals it, the code of a
-- close frame is kept, and one task is created: a reconnection exactly if those are configured and
-- the code is none of 1002, 1003, 1007, 1008 and 1011, and otherwise a close.
pub reader_round_lost :
    (rcvd : Exn → Option Close) (h : Handler Channel) (e : Exn) (c : Client)
    → c.reader ≡ reading
    → e.cls ≡ connection_closed
    → let c' = reader_round rcvd h (refused e) c in
      (c'.reader ≡ finished)
      × (c'.connection_closed ≡ true)
      × (c'.close_code ≡ code_after (rcvd e) c)
      × (c'.channel ≡ c.channel)
      × (j : Job) × (c'.scheduled ≡ c.scheduled ++ (j ∷ []))
      × ((j ≡ reconnect_job)
          ↔ ((c.config.connection.auto_reconnect ≡ true) × IsRetried (code_after (rcvd e) c)))
unfolding reader_round after_recv on_exception connection_lost
reader_round_lost rcvd h e c runs gone =
    let code = code_after (rcvd e) c in
    let j = job_after code c.config.connection.auto_reconnect in
    (
      ground (arith, runs, gone),
      ground (arith, runs, gone),
      ground (arith, runs, gone),
      ground (arith, runs, gone),
      j,
      ground (arith, runs, gone),
      job_after-reconnect code c.config.connection.auto_reconnect,
    )

-- An RpcError ends the reader and is all that happens.
reader_round-rpc_error :
    (rcvd : Exn → Option Close) (h : Handler Channel) (e : Exn) (c : Client)
    → c.reader ≡ reading
    → is_rpc_error e.cls ≡ true
    → reader_round rcvd h (refused e) c ≡ record c { reader = failed e }
unfolding reader_round after_recv on_exception
reader_round-rpc_error rcvd h e c runs rpc = ground (arith, runs, rpc)

-- An RpcError that ends the reader of a client that is not closing signals nothing and creates no
-- task; the close that follows, with nothing else in its way, raises that error, keeps the failed
-- reader, and is not repeated by a second close.
rpc_error_silent :
    (env : Env) (rcvd : Exn → Option Close) (h : Handler Channel) (e : Exn) (c : Client)
    → c.reader ≡ reading
    → is_rpc_error e.cls ≡ true
    → c.closing ≡ false
    → Tolerates env
    → has_crashed c.keepalive ≡ false
    → let c' = reader_round rcvd h (refused e) c in
      let (r, d) = close env c' in
      (c'.connection_closed ≡ c.connection_closed)
      × (c'.scheduled ≡ c.scheduled)
      × (c'.channel ≡ c.channel)
      × (r ≡ raised e)
      × (d.reader ≡ failed e)
      × (close env d ≡ (ok tt, d))
rpc_error_silent env rcvd h e c runs rpc fresh t calm =
    let failing = record c { reader = failed e } in
    let closed = close_failed_reader env failing e fresh t calm refl in
    rw (reader_round-rpc_error rcvd h e c runs rpc) (refl, refl, refl, closed.0, closed.1, closed.3)
