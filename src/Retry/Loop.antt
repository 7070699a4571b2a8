-- ===== src/Retry/Loop.antt =====
-- A loop as tenacity is documented to run.
use fastapi_ws_rpc.Base.{
  ℕ, zero, suc, ◌-◌, ◌<◌, ◌≡◌, ◌⊎◌, inl, inr, ap, ◌∙◌, Bool, true, false, arith, if◌then◌else◌,
}
use fastapi_ws_rpc.Values.{Exn, Outcome, ok, raised}
use fastapi_ws_rpc.Exec.{Exec}
use fastapi_ws_rpc.Retry.{Settings, Laws}

one_left : (n : ℕ) → 1 < n → n - 1 ≡ suc (n - 1 - 1)
one_left n lt = omega (arith, lt)

module _ {S A : Type 0} where
  after : (Exn → Bool) → Exec S A → Outcome A × S → Outcome A × S
  after retries rest (ok a, t) = (ok a, t)
  after retries rest (raised e, t) = if retries e then rest t else (raised e, t)

  -- The loop, with the number of attempts after the first.
  loop : ℕ → (Exn → Bool) → Exec S A → Exec S A
  unfolding after
  loop zero retries func s = func s
  loop (suc n) retries func s = let rest = loop n retries func in after retries rest (func s)

  unfoldable pub retry : Settings → Exec S A → Exec S A
  unfolding loop
  retry k func = loop (k.max_attempts - 1) k.retries func

  loop-returns :
      (n : ℕ) (retries : Exn → Bool) (func : Exec S A) (s t : S) (a : A)
      → func s ≡ (ok a, t)
      → loop n retries func s ≡ (ok a, t)
  unfolding loop after
  loop-returns zero retries func s t a eq = eq
  loop-returns (suc n) retries func s t a eq = ap (after retries (loop n retries func)) eq

  loop-again :
      (n : ℕ) (retries : Exn → Bool) (func : Exec S A) (s t : S) (e : Exn)
      → func s ≡ (raised e, t)
      → retries e ≡ true
      → loop (suc n) retries func s ≡ loop n retries func t
  unfolding loop after
  loop-again n retries func s t e eq again =
      ap (after retries (loop n retries func)) eq
      ∙ ap (λ (b : Bool). if b then loop n retries func t else (raised e, t)) again

  loop-stops :
      (n : ℕ) (retries : Exn → Bool) (func : Exec S A) (s t : S) (e : Exn)
      → func s ≡ (raised e, t)
      → (retries e ≡ false) ⊎ (n ≡ 0)
      → loop n retries func s ≡ (raised e, t)
  unfolding loop after
  loop-stops zero retries func s t e eq why = eq
  loop-stops (suc n) retries func s t e eq (inl never) =
      ap (after retries (loop n retries func)) eq
      ∙ ap (λ (b : Bool). if b then loop n retries func t else (raised e, t)) never
  loop-stops (suc n) retries func s t e eq (inr none_left) = ground (arith, none_left)

  pub retry-laws : Laws retry
  unfolding retry
  retry-laws = record {
    returns = λ k func s t a eq. loop-returns (k.max_attempts - 1) k.retries func s t a eq;
    again = λ k func s t e eq more lt.
        ap (λ (m : ℕ). loop m k.retries func s) (one_left k.max_attempts lt)
        ∙ loop-again (k.max_attempts - 1 - 1) k.retries func s t e eq more;
    stops = λ k func s t e eq why plain reraise.
        loop-stops (k.max_attempts - 1) k.retries func s t e eq (ground (arith, why));
  }
