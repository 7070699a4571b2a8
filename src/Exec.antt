-- ===== src/Exec.antt =====
-- Coroutines of the library as actions on a state: an action ends with a value or an exception, and
-- the state comes back after a raise too, since what was written stays written. An `await` of a
-- modelled coroutine is a bind; where other tasks can run in between, the modules say so.
use fastapi_ws_rpc.Base.{◌≡◌, refl}
use fastapi_ws_rpc.Values.{Exn, Outcome, ok, raised}

abbrev pub Exec : Type 0 → Type 0 → Type 0
Exec S A = S → Outcome A × S

module _ {S A : Type 0} where
  abbrev pub pure : A → Exec S A
  pure a s = (ok a, s)

  abbrev pub raise : Exn → Exec S A
  raise e s = (raised e, s)

  abbrev pub lift : Outcome A → Exec S A
  lift r s = (r, s)

abbrev pub continue : {S A B : Type 0} → (A → Exec S B) → Outcome A × S → Outcome B × S
continue f (ok a, s) = f a s
continue f (raised e, s) = (raised e, s)

infixl 5 ◌>>=◌ ◌>>◌
abbrev pub ◌>>=◌ : {S A B : Type 0} → Exec S A → (A → Exec S B) → Exec S B
◌>>=◌ m f s = continue f (m s)

abbrev pub ◌>>◌ : {S A B : Type 0} → Exec S A → Exec S B → Exec S B
m >> k = m >>= λ _. k

-- `try m except e: h e`; a handler that does not fit raises again.
abbrev pub handled : {S A : Type 0} → (Exn → Exec S A) → Outcome A × S → Outcome A × S
handled h (ok a, s) = (ok a, s)
handled h (raised e, s) = h e s

abbrev pub try : {S A : Type 0} → Exec S A → (Exn → Exec S A) → Exec S A
try m h s = handled h (m s)

-- Binds and handlers that agree on every value, or on every exception, agree.
pub continue-ext :
    {S A B : Type 0} (f g : A → Exec S B) (r : Outcome A × S)
    → ((a : A) (s : S) → f a s ≡ g a s)
    → continue f r ≡ continue g r
continue-ext f g (ok a, s) same = same a s
continue-ext f g (raised e, s) same = refl

pub handled-ext :
    {S A : Type 0} (f g : Exn → Exec S A) (r : Outcome A × S)
    → ((e : Exn) (s : S) → f e s ≡ g e s)
    → handled f r ≡ handled g r
handled-ext f g (ok a, s) same = refl
handled-ext f g (raised e, s) same = same e s

-- A bind that returns has a first part that returns.
pub continue-eq-ok :
    {S A B : Type 0} (f : A → Exec S B) (r : Outcome A × S) {b : B} {t : S}
    → continue f r ≡ (ok b, t)
    → (a : A) × (u : S) × (r ≡ (ok a, u)) × (f a u ≡ (ok b, t))
continue-eq-ok f (ok a, u) eq = (a, u, refl, eq)
continue-eq-ok f (raised e, u) eq = cc
