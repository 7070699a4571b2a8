-- ===== src/Retry/Examples.antt =====
-- A function that fails twice.
use fastapi_ws_rpc.Base.{ℕ, suc, ◌≡◌, refl, Option, none, arith, if◌then◌else◌, leb}
use fastapi_ws_rpc.Values.{Exn, exn, ok, raised, invalid_status}
use fastapi_ws_rpc.Exec.{Exec}
use fastapi_ws_rpc.Config.Presets.{production_retry}
use fastapi_ws_rpc.Retry.{init, client_retry, wrap}
use fastapi_ws_rpc.Retry.Loop.{retry, retry-laws}
use fastapi_ws_rpc.Retry.Attempts.{Fails, done, fails, client_retries}

-- It raises until it was called twice.
abbrev forbidden : Exn
forbidden = exn invalid_status "HTTP 401"

abbrev third_time : Exec ℕ ℕ
third_time n = if leb 2 n then (ok n, suc n) else (raised forbidden, suc n)

abbrev status_code : Exn → Option ℕ
status_code e = none

twice : Fails retry retry-laws third_time 2 0 2
twice = fails forbidden refl (fails forbidden refl done)

client_retries_example :
    wrap retry (init status_code (client_retry production_retry)) third_time 0 ≡ (ok 2, 3)
client_retries_example =
    (client_retries retry retry-laws third_time status_code production_retry 2 forbidden twice).0
      refl (omega arith) refl
