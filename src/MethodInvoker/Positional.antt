-- ===== src/MethodInvoker/Positional.antt =====
-- How positional arguments meet the parameters of a method.
use fastapi_ws_rpc.Base.{
  ℕ, zero, suc, ◌≤◌, ◌<◌, String, ◌≡◌, ◌≢◌, refl, true, false, ◌↔◌, Option, none, some, List, [],
  ◌∷◌, eq_iff, arith, get_elem?, length, Bool-cases, inl, inr,
}
use fastapi_ws_rpc.Base.Dict.{Dict, lookup, insert, lookup-insert}
use fastapi_ws_rpc.Values.{Json, ok}
use fastapi_ws_rpc.MethodInvoker.{
  Parameter, has_keyword_only, required_count, bind, convert_positional,
}

-- No parameter of `ps` has the name.
abbrev pub IsFresh : String → List Parameter → Type 0
IsFresh k [] = Unit
IsFresh k (p ∷ ps) = (p.name ≢ k) × IsFresh k ps

-- `inspect.signature` lists each name once, and Python wants the parameters with a default last.
abbrev pub IsSignature : List Parameter → Type 0
IsSignature [] = Unit
IsSignature (p ∷ ps) =
    IsFresh p.name ps × (p.has_default ≡ true → required_count ps ≡ 0) × IsSignature ps

-- Positional parameters convert exactly if none is keyword-only and their number lies between the
-- required and the maximal one, and the result is the binding in order.
convert_positional-ok_iff :
    (name : String) (ps : List Parameter) (vs : List Json) (d : Dict Json)
    → (convert_positional name ps vs ≡ ok d) ↔ (
        (has_keyword_only ps ≡ false)
        × (required_count ps ≤ length vs)
        × (length vs ≤ length ps)
        × (bind ps vs [] ≡ d))
unfolding convert_positional
convert_positional-ok_iff name ps vs d = (ground arith, ground arith)

-- A name of no parameter keeps its entry.
pub lookup-bind_fresh :
    (k : String) (ps : List Parameter) (vs : List Json) (d : Dict Json)
    → IsFresh k ps
    → lookup k (bind ps vs d) ≡ lookup k d
unfolding bind
lookup-bind_fresh k [] vs d h = refl
lookup-bind_fresh k (p ∷ ps) [] d h = refl
lookup-bind_fresh k (p ∷ ps) (v ∷ vs) d h = ground (
  arith,
  lookup-bind_fresh k ps vs (insert p.name v d) h.1,
  lookup-insert p.name k v d,
  eq_iff p.name k,
  h.0,
)

abbrev or_else : Option Json → Option Json → Option Json
or_else none o = o
or_else (some v) o = some v

IsFresh-ne :
    (k : String) (ps : List Parameter) (i : ℕ) (p : Parameter)
    → IsFresh k ps
    → get_elem? ps i ≡ some p
    → p.name ≢ k
IsFresh-ne k [] i p h e = cc
IsFresh-ne k (q ∷ ps) zero p h e = ground (arith, h.0)
IsFresh-ne k (q ∷ ps) (suc i) p h e = IsFresh-ne k ps i p h.1 e

lookup-bind :
    (ps : List Parameter) (vs : List Json) (d : Dict Json) (i : ℕ) (p : Parameter)
    → IsSignature ps
    → get_elem? ps i ≡ some p
    → lookup p.name (bind ps vs d) ≡ or_else (get_elem? vs i) (lookup p.name d)
unfolding bind
lookup-bind [] vs d i p s h = cc
lookup-bind (q ∷ ps) [] d i p s h = refl
lookup-bind (q ∷ ps) (v ∷ vs) d zero p s h = ground (
  arith,
  lookup-bind_fresh q.name ps vs (insert q.name v d) s.0,
  lookup-insert q.name q.name v d,
  eq_iff q.name q.name,
)
lookup-bind (q ∷ ps) (v ∷ vs) d (suc i) p s h = ground (
  arith,
  lookup-bind ps vs (insert q.name v d) i p s.2 h,
  lookup-insert q.name p.name v d,
  eq_iff q.name p.name,
  IsFresh-ne q.name ps i p s.0 h,
)

-- A parameter with no default stands among the first `required_count`.
required_early :
    (ps : List Parameter) (i : ℕ) (p : Parameter)
    → IsSignature ps
    → get_elem? ps i ≡ some p
    → p.has_default ≡ false
    → i < required_count ps
unfolding required_count
required_early [] i p s h e = cc
required_early (q ∷ ps) zero p s h e = ground arith
required_early (q ∷ ps) (suc i) p s h e = ground (arith, required_early ps i p s.2 h e, s.1)

get_elem?_below : (vs : List Json) (i : ℕ) → i < length vs → get_elem? vs i ≢ none
get_elem?_below [] i h = elim h [ ]
get_elem?_below (v ∷ vs) zero h = λ e. cc
get_elem?_below (v ∷ vs) (suc i) h = get_elem?_below vs i (omega arith)

-- Where the conversion succeeds on a proper signature, each parameter is bound to the argument at
-- its place, one without an argument has a default, and no other name is bound.
convert_positional_binds :
    (name : String) (ps : List Parameter) (vs : List Json) (d : Dict Json)
    → IsSignature ps
    → convert_positional name ps vs ≡ ok d
    → ((i : ℕ) (p : Parameter)
        → get_elem? ps i ≡ some p
        → (lookup p.name d ≡ get_elem? vs i) × (get_elem? vs i ≡ none → p.has_default ≡ true))
      × ((k : String) → IsFresh k ps → lookup k d ≡ none)
unfolding lookup
convert_positional_binds name ps vs d s e =
    let (_, enough, _, same) = (convert_positional-ok_iff name ps vs d).0 e in
    (
      λ i p h. (
        rw (← same) (ground (arith, lookup-bind ps vs [] i p s h)),
        λ absent. elim (Bool-cases p.has_default) [
          | inl yes_default ↦ yes_default
          | inr without ↦ absurd (
              get_elem?_below vs i (omega (arith, required_early ps i p s h without, enough))
                absent)
        ],
      ),
      λ k fresh. rw (← same) (lookup-bind_fresh k ps vs [] fresh),
    )
