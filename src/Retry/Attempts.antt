-- ===== src/Retry/Attempts.antt =====
-- How often the client tries to connect first.
use fastapi_ws_rpc.Base.{
  ℕ, suc, ◌-◌, ◌<◌, ◌≡◌, inr, refl, ap, ◌∙◌, Bool, true, false, not, Option, arith, if◌then◌else◌,
}
use fastapi_ws_rpc.Base.Int.{pos_part}
use fastapi_ws_rpc.Values.{Exn, ok, raised}
use fastapi_ws_rpc.Exec.{Exec}
use fastapi_ws_rpc.Config.{RpcRetryConfig}
use fastapi_ws_rpc.Retry.{Settings, flag, settings, init, client_retry, wrap, Laws}

module _ {S A : Type 0} (retry : Settings → Exec S A → Exec S A) (laws : Laws retry)
    (func : Exec S A) where
  -- The function raises so many times in a row, each time from the state of the time before.
  pub data Fails : ℕ → S → S → Type 0 where
    done : {s : S} → Fails 0 s s
    fails : {n : ℕ} {s t u : S} (e : Exn) → func s ≡ (raised e, t) → Fails n t u → Fails (suc n) s u

  retried :
      {n : ℕ} {s t : S} (k : Settings)
      → ((e : Exn) → k.retries e ≡ true)
      → n < k.max_attempts
      → Fails n s t
      → retry k func s ≡ retry (record k { max_attempts = k.max_attempts - n }) func t
  retried k all lt (done {s}) =
      ap (λ (m : ℕ). retry (record k { max_attempts = m }) func s) (omega arith)
  retried k all lt (fails {n} {s} {t} {u} e eq rest) =
      let less = record k { max_attempts = k.max_attempts - 1 } in
      laws.again k func s t e eq (all e) (omega (arith, lt))
      ∙ retried less all (omega (arith, lt)) rest
      ∙ ap (λ (m : ℕ). retry (record k { max_attempts = m }) func u) (omega arith)

  -- The settings of a client that retries.
  client_settings : RpcRetryConfig → Settings
  client_settings c = record {
    max_attempts = pos_part c.max_attempts;
    min_wait = c.min_wait;
    max_wait = c.max_wait;
    jitter = c.jitter;
    retries = λ e. true;
    reraise = true;
    retry_error_callback = false;
  }

  wrap-enabled :
      (status_code : Exn → Option ℕ) (c : RpcRetryConfig) (s : S)
      → c.enabled ≡ true
      → wrap retry (init status_code (client_retry c)) func s ≡ retry (client_settings c) func s
  unfolding wrap init client_retry client_settings
  wrap-enabled status_code c s on =
      ap
        (λ (b : Bool).
          wrap retry (init status_code (if not b then flag false else settings (client_settings c)))
            func s)
        on

  wrap-disabled :
      (status_code : Exn → Option ℕ) (c : RpcRetryConfig) (s : S)
      → c.enabled ≡ false
      → wrap retry (init status_code (client_retry c)) func s ≡ func s
  unfolding wrap init client_retry client_settings
  wrap-disabled status_code c s off =
      ap
        (λ (b : Bool).
          wrap retry (init status_code (if not b then flag false else settings (client_settings c)))
            func s)
        off

  -- With a loop that runs as tenacity is documented, an enabled client whose function raises any
  -- exceptions fewer than max_attempts times and then returns gives that result, one that raises
  -- max_attempts times raises the last exception, and a disabled one calls the function once.
  pub client_retries :
      {n : ℕ} {s t u : S} (status_code : Exn → Option ℕ) (c : RpcRetryConfig) (a : A) (e : Exn)
      → Fails n s t
      → let run = wrap retry (init status_code (client_retry c)) func s in
        (c.enabled ≡ true → n < pos_part c.max_attempts → func t ≡ (ok a, u) → run ≡ (ok a, u))
        × (c.enabled ≡ true
            → suc n ≡ pos_part c.max_attempts
            → func t ≡ (raised e, u)
            → run ≡ (raised e, u))
        × (c.enabled ≡ false → run ≡ func s)
  unfolding client_settings
  client_retries {n} {s} {t} {u} status_code c a e failed =
      let k = client_settings c in
      let left = record k { max_attempts = k.max_attempts - n } in
      (
        λ on lt eq.
            wrap-enabled status_code c s on
            ∙ retried k (λ e. refl) lt failed
            ∙ laws.returns left func t u a eq,
        λ on last eq.
            wrap-enabled status_code c s on
            ∙ retried k (λ e. refl) (omega (arith, last)) failed
            ∙ laws.stops left func t u e eq (inr (omega (arith, last))) refl refl,
        λ off. wrap-disabled status_code c s off,
      )
