-- ===== src/Retry.antt =====
-- fastapi_ws_rpc/_internal/rpc_retry.py, and the settings that
-- fastapi_ws_rpc/websocket_rpc_client.py makes for it. The loop itself is the library tenacity: an
-- argument, with what its documentation says as laws. Durations are milliseconds.
pub mod Attempts
pub mod Loop
mod Examples
use fastapi_ws_rpc.Base.{
  ℕ, ◌-◌, ◌≤◌, ◌<◌, ◌≡◌, ◌⊎◌, refl, Bool, true, false, not, ◌&&◌, ◌||◌, Option, none, some, nat_eq,
  is_some, if◌then◌else◌,
}
use fastapi_ws_rpc.Base.Int.{ℤ, pos, pos_part}
use fastapi_ws_rpc.Values.{ExnClass, Exn, Outcome, ok, raised, invalid_status}
use fastapi_ws_rpc.Exec.{Exec}
use fastapi_ws_rpc.Config.{RpcRetryConfig}

-- What is passed to tenacity: how often and how long, which exceptions it retries, and whether a
-- callback is called in the end.
pub record Settings : Type 0 where
  pub max_attempts : ℕ
  pub min_wait : ℤ
  pub max_wait : ℤ
  pub jitter : Bool
  pub retries : Exn → Bool
  pub reraise : Bool
  pub retry_error_callback : Bool

-- The argument of `RpcRetryManager`.
pub data Given : Type 0 where
  nothing : Given
  flag : Bool → Given
  settings : Settings → Given

abbrev is_invalid_status : ExnClass → Bool
is_invalid_status invalid_status = true
is_invalid_status _ = false

-- `_is_not_forbidden`, with the attribute `status_code` of the exception, if it has one.
unfoldable pub is_not_forbidden : (Exn → Option ℕ) → Exn → Bool
is_not_forbidden status_code e = not (
    is_invalid_status e.cls
    && elim (status_code e) [ none ↦ false | some code ↦ nat_eq code 401 || nat_eq code 403 ])

unfoldable pub default_config : (Exn → Option ℕ) → Settings
unfolding is_not_forbidden
default_config status_code = record {
  max_attempts = 10;
  min_wait = pos 100;
  max_wait = pos 120_000;
  jitter = true;
  retries = is_not_forbidden status_code;
  reraise = true;
  retry_error_callback = true;
}

-- `__init__`: the flag is never a request for retries.
unfoldable pub init : (Exn → Option ℕ) → Given → Option Settings
unfolding default_config
init status_code nothing = some (default_config status_code)
init status_code (flag b) = none
init status_code (settings s) = some s

unfoldable pub is_enabled : Option Settings → Bool
is_enabled config = is_some config

-- What the client passes.
unfoldable pub client_retry : RpcRetryConfig → Given
client_retry c =
    if not c.enabled
    then flag false
    else settings (record {
      max_attempts = pos_part c.max_attempts;
      min_wait = c.min_wait;
      max_wait = c.max_wait;
      jitter = c.jitter;
      retries = λ e. true;
      reraise = true;
      retry_error_callback = false;
    })

module _ {S A : Type 0} where
  -- `wrap`, with tenacity's decorator.
  unfoldable pub wrap : (Settings → Exec S A → Exec S A) → Option Settings → Exec S A → Exec S A
  wrap retry none func = func
  wrap retry (some s) func = retry s func

  -- tenacity as it is documented: a value is returned; an exception that the predicate retries
  -- leads to a further attempt while some are left, and otherwise it is raised again, unless there is
  -- a callback, which is called in place of that.
  pub record Laws (retry : Settings → Exec S A → Exec S A) : Type 0 where
    pub returns :
        (k : Settings) (func : Exec S A) (s t : S) (a : A)
        → func s ≡ (ok a, t)
        → retry k func s ≡ (ok a, t)
    pub again :
        (k : Settings) (func : Exec S A) (s t : S) (e : Exn)
        → func s ≡ (raised e, t)
        → k.retries e ≡ true
        → 1 < k.max_attempts
        → retry k func s ≡ retry (record k { max_attempts = k.max_attempts - 1 }) func t
    pub stops :
        (k : Settings) (func : Exec S A) (s t : S) (e : Exn)
        → func s ≡ (raised e, t)
        → (k.retries e ≡ false) ⊎ (k.max_attempts ≤ 1)
        → k.retry_error_callback ≡ false
        → k.reraise ≡ true
        → retry k func s ≡ (raised e, t)
