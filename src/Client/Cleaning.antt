-- ===== src/Client/Cleaning.antt =====
-- A connection that fails after its channel is made.
use fastapi_ws_rpc.Base.{ℕ, Option, none, some}
use fastapi_ws_rpc.PromiseManager
use fastapi_ws_rpc.Channel
use fastapi_ws_rpc.Channel.{Channel, is_closed}
use fastapi_ws_rpc.Keepalive
use fastapi_ws_rpc.Keepalive.{RpcKeepalive, init_checks, start, is_running, reset_failures}
use fastapi_ws_rpc.Client.{Client}

-- How often a channel's disconnect callbacks ran.
abbrev pub runs_of : Option Channel → ℕ
runs_of none = 0
runs_of (some ch) = ch.disconnect_runs
