-- ===== src/PromiseManager/Expiry.antt =====
-- What the periodic cleanup removes, and what it leaves.
use fastapi_ws_rpc.Base.{
  ℕ, ◌+◌, String, ◌≡◌, refl, Bool, false, none, some, List, [], ◌∷◌, arith, eq_iff, ◌==◌, ◌||◌, ltb,
  if◌then◌else◌,
}
use fastapi_ws_rpc.Base.Dict.{Dict, lookup, IsDistinct, lookup-erase}
use fastapi_ws_rpc.PromiseManager.{RpcPromise, PromiseManager, clear_saved_call}
use fastapi_ws_rpc.PromiseManager.CleanupTask.{expired_ids, clear_all, cleanup_expired_promises}
use fastapi_ws_rpc.PromiseManager.Invariant.{IsValid}

-- `k` is one of `ks`.
abbrev listed : String → List String → Bool
listed k [] = false
listed k (j ∷ js) = j == k || listed k js

module _ (k : String) where
  requests-clear_all :
      (ks : List String) (m : PromiseManager)
      → lookup k (clear_all ks m).requests ≡ (if listed k ks then none else lookup k m.requests)
  unfolding clear_all clear_saved_call
  requests-clear_all [] m = refl
  requests-clear_all (j ∷ ks) m =
      ground (arith, requests-clear_all ks (clear_saved_call j m), lookup-erase j k m.requests)

  responses-clear_all :
      (ks : List String) (m : PromiseManager)
      → lookup k (clear_all ks m).responses ≡ (if listed k ks then none else lookup k m.responses)
  unfolding clear_all clear_saved_call
  responses-clear_all [] m = refl
  responses-clear_all (j ∷ ks) m =
      ground (arith, responses-clear_all ks (clear_saved_call j m), lookup-erase j k m.responses)

  listed-expired_ids_absent :
      (now ttl : ℕ) (d : Dict RpcPromise)
      → lookup k d ≡ none
      → listed k (expired_ids now ttl d) ≡ false
  unfolding expired_ids lookup
  listed-expired_ids_absent now ttl [] h = refl
  listed-expired_ids_absent now ttl ((j, p) ∷ d) h =
      ground (arith, listed-expired_ids_absent now ttl d)

  listed-expired_ids :
      (now ttl : ℕ) (d : Dict RpcPromise) (p : RpcPromise)
      → IsDistinct d
      → lookup k d ≡ some p
      → listed k (expired_ids now ttl d) ≡ ltb (p.created_at + ttl) now
  unfolding expired_ids lookup
  listed-expired_ids now ttl [] p dist h = cc
  listed-expired_ids now ttl ((j, q) ∷ d) p dist h = ground (
    arith,
    listed-expired_ids now ttl d p dist.1,
    listed-expired_ids_absent now ttl d,
    eq_iff j k,
  )

-- On a valid open manager the cleanup forgets a pending request and its response exactly if the
-- request is older than the TTL.
pub cleanup_exact :
    (now : ℕ) (m : PromiseManager) (k : String) (p : RpcPromise)
    → IsValid m
    → m.closed ≡ false
    → lookup k m.requests ≡ some p
    → let m' = (cleanup_expired_promises now m).1 in
      (lookup k m'.requests ≡ (if ltb (p.created_at + m.promise_ttl) now then none else some p))
      × (lookup k m'.responses
          ≡ (if ltb (p.created_at + m.promise_ttl) now then none else lookup k m.responses))
unfolding cleanup_expired_promises
cleanup_exact now m k p v is_open pending =
    let ks = expired_ids now m.promise_ttl m.requests in
    ground (
      arith,
      requests-clear_all k ks m,
      responses-clear_all k ks m,
      listed-expired_ids k now m.promise_ttl m.requests p v.distinct pending,
    )
