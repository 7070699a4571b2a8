-- ===== src/Channel/IdSync.antt =====
-- The id of the other side: `get_other_channel_id` and `_get_other_channel_id` of
-- fastapi_ws_rpc/rpc_channel.py.
use fastapi_ws_rpc.Base.{
  zero, ◌≡◌, String, Bool, true, false, not, Option, none, some, arith, ◌==◌, if◌then◌else◌,
}
use fastapi_ws_rpc.Base.Int.{pos}
use fastapi_ws_rpc.Values.{Json, nil, end, exn, Outcome, ok, raised, remote_value, timeout_error}
use fastapi_ws_rpc.Schemas.{JsonRpcResponse}

-- `_other_channel_id`, and the event `_channel_id_synced`.
pub record IdSync : Type 0 where
  pub other_channel_id : Option String
  pub is_synced : Bool

abbrev pub init : IdSync
init = record { other_channel_id = none; is_synced = false }

-- `bool(value)`; the flag says whether the literal of a number with a fraction is a zero.
unfoldable pub is_true : (String → Bool) → Json → Bool
is_true is_zero Json.null = false
is_true is_zero (Json.bool b) = b
is_true is_zero (Json.int (pos zero)) = false
is_true is_zero (Json.float s) = not (is_zero s)
is_true is_zero (Json.str s) = not (s == "")
is_true is_zero (Json.arr nil) = false
is_true is_zero (Json.obj end) = false
is_true is_zero _ = true

module _ (is_zero : String → Bool) (render : Json → String) where
  -- The end of the remote call.
  unfoldable pub take_id : Outcome JsonRpcResponse → IdSync → Outcome String × IdSync
  unfolding is_true
  take_id (raised e) s = (raised e, s)
  take_id (ok r) s =
      if is_true is_zero r.result
      then (
        ok (render r.result),
        record s { other_channel_id = some (render r.result); is_synced = true },
      )
      else (raised (exn remote_value ""), record s { other_channel_id = none })

  -- `_get_other_channel_id`; `answer` is how the call of `_get_channel_id_` on the other side ends.
  unfoldable pub fetch_other_channel_id : Outcome JsonRpcResponse → IdSync → Outcome String × IdSync
  unfolding take_id
  fetch_other_channel_id answer s = elim s.other_channel_id [
    | none ↦ take_id answer s
    | some id ↦ (ok id, s)
  ]

-- `get_other_channel_id`, when its wait for the event is over: the event is set, or time is up.
unfoldable pub get_other_channel_id : IdSync → Outcome String
get_other_channel_id s =
    if s.is_synced
    then elim s.other_channel_id [
      | none ↦ raised (exn remote_value "Other channel ID not available")
      | some id ↦ ok id
    ]
    else raised (exn timeout_error "")

-- The first true answer of the other side is its id, for whoever waits and for every later fetch; an
-- answer that is not true raises, and who waits runs into the timeout.
fetch_then_get :
    (is_zero : String → Bool) (render : Json → String) (r : JsonRpcResponse)
    (later : Outcome JsonRpcResponse)
    → let (found, s) = fetch_other_channel_id is_zero render (ok r) init in
      (is_true is_zero r.result ≡ true
        → (found ≡ ok (render r.result))
          × (get_other_channel_id s ≡ ok (render r.result))
          × (fetch_other_channel_id is_zero render later s ≡ (ok (render r.result), s)))
      × (is_true is_zero r.result ≡ false
          → (found ≡ raised (exn remote_value ""))
            × (get_other_channel_id s ≡ raised (exn timeout_error "")))
unfolding fetch_other_channel_id take_id get_other_channel_id
fetch_then_get is_zero render r later = (λ h. ground (arith, h), λ h. ground (arith, h))
