-- ===== src/Logger/Examples.antt =====
-- A program that turns logging off after it has asked for a logger.
use fastapi_ws_rpc.Base.{◌≡◌, refl, none, some, [], ◌∷◌}
use fastapi_ws_rpc.Values.{ok}
use fastapi_ws_rpc.Logger.{upper, no_logs, set_mode, get_mode, sets, gets, logs, run, init}
use fastapi_ws_rpc.Logger.Modes.{mode_in_force}

mode_in_force_example :
    get_mode
      (some "LOGURU")
      (run (logs (some "UVICORN") "rpc" ∷ sets no_logs 10 ∷ gets none ∷ []) init)
    ≡ (ok no_logs, set_mode no_logs 10 (run (logs (some "UVICORN") "rpc" ∷ []) init))
unfolding upper
mode_in_force_example =
    (mode_in_force no_logs 10 "No_logs" none (some "LOGURU") (logs (some "UVICORN") "rpc" ∷ [])
      (gets none ∷ []) init refl (refl, tt)).0
