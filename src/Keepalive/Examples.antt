-- ===== src/Keepalive/Examples.antt =====
-- A keepalive that tolerates two failures in a row.
use fastapi_ws_rpc.Base.{◌≡◌, refl, true, false, [], ◌∷◌, ◌++◌, arith}
use fastapi_ws_rpc.Base.Int.{pos}
use fastapi_ws_rpc.Values.{exn, Outcome, ok, raised, timeout_error, connection_error}
use fastapi_ws_rpc.Config.Presets.{production_defaults}
use fastapi_ws_rpc.Config.Validity.{IsKeepaliveValid}
use fastapi_ws_rpc.Keepalive.{
  RpcKeepalive, running, done, new, is_running, reset_failures, Round, nothing, ping,
  send_protocol_ping, run,
}
use fastapi_ws_rpc.Keepalive.Streaks.{Streak, rounds, IsShort, streaks-run}

abbrev frame_round : Outcome (Unit {0}) → Round
frame_round o = record { has_ping = true; has_send_ping = false; frame = o; answer = ok nothing }

abbrev lost : Round
lost = frame_round (raised (exn timeout_error ""))

abbrev refused : Round
refused = frame_round (raised (exn connection_error "reset"))

abbrev k : RpcKeepalive
k = record (new (pos 30_000) (pos 3) true false) { task = running }

-- Two failures, then a success.
abbrev bad_patch : Streak
bad_patch = record { fails = lost ∷ refused ∷ []; success = frame_round (ok tt) }

bad_patch-IsShort : IsShort k bad_patch
unfolding ping send_protocol_ping
bad_patch-IsShort = record { all_fail = (refl, (refl, tt)); below = omega arith; ends = refl }

production-IsKeepaliveValid : IsKeepaliveValid production_defaults.keepalive
production-IsKeepaliveValid = record { interval = omega arith; failures = λ h. omega arith }

streaks-run_example :
    (run (rounds (bad_patch ∷ []) ++ (lost ∷ lost ∷ [])) (reset_failures k)
      ≡ record k { consecutive_failures = 2 })
    × (run (rounds (bad_patch ∷ []) ++ ((lost ∷ lost ∷ []) ++ (refused ∷ []))) (reset_failures k)
        ≡ record k { consecutive_failures = 3; task = done; close_requests = 1 })
unfolding ping send_protocol_ping is_running
streaks-run_example =
    streaks-run k (bad_patch ∷ []) (lost ∷ lost ∷ []) refused refl (bad_patch-IsShort, tt)
      (refl, (refl, tt)) (omega arith) refl (omega arith)
