-- ===== src/PromiseManager/Cooldown/RecentIds.antt =====
-- The dictionary of recent ids, `_recently_used_ids`, when an id is marked as used.
use fastapi_ws_rpc.Base.{ℕ, ◌+◌, ◌≤◌, ◌<◌, String, ◌≡◌, ◌≢◌, some, arith, eq_iff, ltb, if_both}
use fastapi_ws_rpc.Base.Dict.{
  Dict, lookup, insert, size, IsDistinct, lookup-insert, lookup-retain, insert-IsDistinct,
  retain-IsDistinct,
}
use fastapi_ws_rpc.PromiseManager.{in_cooldown, mark_used, request_id_cooldown, max_recent_ids}

pub mark_used-IsDistinct :
    (now : ℕ) (k : String) (d : Dict ℕ) → IsDistinct d → IsDistinct (mark_used now k d)
unfolding mark_used
mark_used-IsDistinct now k d h =
    let marked = insert k now d in
    let dist = insert-IsDistinct k now d h in
    if_both IsDistinct (ltb max_recent_ids (size marked))
      (retain-IsDistinct (λ used. ltb now (used + request_id_cooldown)) marked dist) dist

-- Dropping old entries from recent ids with distinct keys changes no cooldown decision at that or
-- any later time.
pub mark_used-in_cooldown :
    (now later : ℕ) (k j : String) (d : Dict ℕ)
    → IsDistinct d
    → now ≤ later
    → in_cooldown later j (mark_used now k d) ≡ in_cooldown later j (insert k now d)
unfolding mark_used in_cooldown
mark_used-in_cooldown now later k j d h le =
    let marked = insert k now d in
    ground (
      arith,
      lookup-retain (λ used. ltb now (used + request_id_cooldown)) j marked
          (insert-IsDistinct k now d h),
    )

-- The entry of an id that is not old enough to be dropped survives the marking of another id.
pub mark_used_ne :
    (now t : ℕ) (k j : String) (d : Dict ℕ)
    → IsDistinct d
    → k ≢ j
    → lookup j d ≡ some t
    → now < t + request_id_cooldown
    → lookup j (mark_used now k d) ≡ some t
unfolding mark_used
mark_used_ne now t k j d h ne at young =
    let marked = insert k now d in
    ground (
      arith,
      lookup-insert k j now d,
      eq_iff k j,
      lookup-retain (λ used. ltb now (used + request_id_cooldown)) j marked
          (insert-IsDistinct k now d h),
    )

pub mark_used_self :
    (now : ℕ) (k : String) (d : Dict ℕ) → IsDistinct d → lookup k (mark_used now k d) ≡ some now
unfolding mark_used
mark_used_self now k d h =
    let marked = insert k now d in
    ground (
      arith,
      lookup-insert k k now d,
      eq_iff k k,
      lookup-retain (λ used. ltb now (used + request_id_cooldown)) k marked
          (insert-IsDistinct k now d h),
    )
