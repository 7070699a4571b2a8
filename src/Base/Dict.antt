-- ===== src/Base/Dict.antt =====
-- Python's `dict` with string keys, in insertion order: writing to a key that is there keeps its
-- place, a new key goes to the end. The laws have no side condition; those on `size` need the keys
-- to be distinct, which `insert` and `erase` keep.
use Prim.Native.Nat.{ℕ, suc, ◌≤◌}
use Prim.Native.String.{String}
use mathlib.Core.Path.{◌≡◌, refl}
use mathlib.Core.Bool.{Bool}
use mathlib.Core.List.{List, [], ◌∷◌}
use mathlib.Core.Option.{Option, none, some}
use native.Mathlib.Omega.{arith}
use text.Mathlib.Text.{◌==◌}
use text.Mathlib.TextEquality.{eq_iff}
use fastapi_ws_rpc.Base.Logic.{if◌then◌else◌, is_some}
use fastapi_ws_rpc.Base.Lists.{length}

abbrev pub Dict {ℓ} : Type ℓ → Type ℓ
Dict V = List (String × V)

module _ {ℓ} {V : Type ℓ} where
  -- d.get(k)
  unfoldable pub lookup : String → Dict V → Option V
  lookup k [] = none
  lookup k ((j, v) ∷ d) = if j == k then some v else lookup k d

  -- d[k] = v
  unfoldable pub insert : String → V → Dict V → Dict V
  insert k v [] = (k, v) ∷ []
  insert k v ((j, w) ∷ d) = if j == k then (k, v) ∷ d else (j, w) ∷ insert k v d

  -- d.pop(k, None)
  unfoldable pub erase : String → Dict V → Dict V
  erase k [] = []
  erase k ((j, w) ∷ d) = let rest = erase k d in if j == k then rest else (j, w) ∷ rest

  -- {k: v for k, v in d.items() if keep(v)}
  unfoldable pub retain : (V → Bool) → Dict V → Dict V
  retain keep [] = []
  retain keep ((j, w) ∷ d) = let rest = retain keep d in if keep w then (j, w) ∷ rest else rest

  -- k in d
  abbrev pub contains : String → Dict V → Bool
  contains k d = is_some (lookup k d)

  -- len(d)
  abbrev pub size : Dict V → ℕ
  size = length

  -- No key stands twice.
  abbrev pub IsDistinct : Dict V → Type ℓ
  IsDistinct [] = Unit
  IsDistinct ((k, v) ∷ d) = (lookup k d ≡ none) × IsDistinct d

  pub lookup-insert :
      (k j : String) (v : V) (d : Dict V)
      → lookup j (insert k v d) ≡ (if k == j then some v else lookup j d)
  unfolding lookup insert
  lookup-insert k j v [] = refl
  lookup-insert k j v ((i, w) ∷ d) =
      ground (arith, eq_iff k j, eq_iff i k, eq_iff i j, lookup-insert k j v d)

  pub lookup-erase :
      (k j : String) (d : Dict V) → lookup j (erase k d) ≡ (if k == j then none else lookup j d)
  unfolding lookup erase
  lookup-erase k j [] = ground arith
  lookup-erase k j ((i, w) ∷ d) =
      ground (arith, eq_iff k j, eq_iff i k, eq_iff i j, lookup-erase k j d)

  -- Which entries survive a comprehension: with distinct keys, those that pass the test.
  abbrev pub kept : (V → Bool) → Option V → Option V
  kept keep none = none
  kept keep (some v) = if keep v then some v else none

  pub lookup-retain :
      (keep : V → Bool) (k : String) (d : Dict V)
      → IsDistinct d
      → lookup k (retain keep d) ≡ kept keep (lookup k d)
  unfolding lookup retain
  lookup-retain keep k [] h = refl
  lookup-retain keep k ((i, w) ∷ d) h = ground (arith, eq_iff i k, h.0, lookup-retain keep k d h.1)

  pub insert-IsDistinct :
      (k : String) (v : V) (d : Dict V) → IsDistinct d → IsDistinct (insert k v d)
  unfolding insert lookup
  insert-IsDistinct k v [] h = (refl, tt)
  insert-IsDistinct k v ((i, w) ∷ d) h =
      ground (arith, eq_iff i k, eq_iff k i, insert-IsDistinct k v d h.1, lookup-insert k i v d)

  pub erase-IsDistinct : (k : String) (d : Dict V) → IsDistinct d → IsDistinct (erase k d)
  unfolding erase
  erase-IsDistinct k [] h = tt
  erase-IsDistinct k ((i, w) ∷ d) h = ground (arith, erase-IsDistinct k d h.1, lookup-erase k i d)

  pub retain-IsDistinct : (keep : V → Bool) (d : Dict V) → IsDistinct d → IsDistinct (retain keep d)
  unfolding retain
  retain-IsDistinct keep [] h = tt
  retain-IsDistinct keep ((i, w) ∷ d) h =
      ground (arith, retain-IsDistinct keep d h.1, lookup-retain keep i d h.1)

  pub size-insert_new :
      (k : String) (v : V) (d : Dict V) → lookup k d ≡ none → size (insert k v d) ≡ suc (size d)
  unfolding insert lookup
  size-insert_new k v [] h = refl
  size-insert_new k v ((i, w) ∷ d) h = ground (arith, size-insert_new k v d)

  pub size-erase-le : (k : String) (d : Dict V) → size (erase k d) ≤ size d
  unfolding erase
  size-erase-le k [] = omega arith
  size-erase-le k ((i, w) ∷ d) = ground (arith, size-erase-le k d)

  pub erase_absent : (k : String) (d : Dict V) → lookup k d ≡ none → erase k d ≡ d
  unfolding erase lookup
  erase_absent k [] h = refl
  erase_absent k ((i, w) ∷ d) h = ground (arith, erase_absent k d)

  pub size-retain-le : (keep : V → Bool) (d : Dict V) → size (retain keep d) ≤ size d
  unfolding retain
  size-retain-le keep [] = omega arith
  size-retain-le keep ((i, w) ∷ d) = ground (arith, size-retain-le keep d)

pub ruleset dict_laws = (lookup-insert, lookup-erase)
