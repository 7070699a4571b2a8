-- ===== src/Logger/Modes.antt =====
-- Which mode is in force after any sequence of calls.
use fastapi_ws_rpc.Base.{
  ℕ, String, ◌≡◌, refl, ap, ◌∙◌, Bool, true, false, Option, some, List, [], ◌∷◌, ◌++◌, All, arith,
}
use fastapi_ws_rpc.Values.{Outcome, ok}
use fastapi_ws_rpc.Logger.{
  codes, upper, member, LoggingMode, no_logs, uvicorn, simple, loguru, LoggingConfig, init, name_of,
  mode_named, or_blank, set_mode, get_mode, get_logger, with_mode, Op, sets, gets, logs, step, run,
  info,
}

-- The operation asks for the mode or for a logger.
abbrev pub is_read : Op → Bool
is_read (sets m level) = false
is_read (gets env) = true
is_read (logs env name) = true

member-name_of : (m : LoggingMode) → member (codes (name_of m)) ≡ m
member-name_of no_logs = refl
member-name_of uvicorn = refl
member-name_of simple = refl
member-name_of loguru = refl

-- A text in any case names the mode whose name it spells.
mode_named-spelled :
    (m : LoggingMode) (text : String) → upper text ≡ codes (name_of m) → mode_named text ≡ m
unfolding mode_named
mode_named-spelled m text spelled = ap member spelled ∙ member-name_of m

set_mode-mode :
    (m : LoggingMode) (level : ℕ) (c : LoggingConfig) → (set_mode m level c).mode ≡ some m
unfolding set_mode
set_mode-mode no_logs level c = refl
set_mode-mode uvicorn level c = refl
set_mode-mode simple level c = refl
set_mode-mode loguru level c = refl

-- Once a mode is set, reading gives it and changes nothing.
get_mode-set :
    (m : LoggingMode) (env : Option String) (c : LoggingConfig)
    → c.mode ≡ some m
    → get_mode env c ≡ (ok m, c)
unfolding get_mode
get_mode-set m env c set = ground (arith, set)

-- The first reading sets the mode that the environment names.
get_mode-unset :
    (env : Option String)
    → let k = mode_named (or_blank env) in get_mode env init ≡ (ok k, set_mode k info init)
unfolding get_mode
get_mode-unset env =
    let k = mode_named (or_blank env) in let set = set_mode-mode k info init in ground (arith, set)

step-read :
    (m : LoggingMode) (o : Op) (c : LoggingConfig)
    → is_read o ≡ true
    → c.mode ≡ some m
    → step o c ≡ c
unfolding step get_logger
step-read m (sets k level) c reads set = cc
step-read m (gets env) c reads set =
    ap (λ (r : Outcome LoggingMode × LoggingConfig). r.1) (get_mode-set m env c set)
step-read m (logs env name) c reads set =
    ap (λ (r : Outcome LoggingMode × LoggingConfig). (with_mode name r).1)
      (get_mode-set m env c set)

run-reads :
    (m : LoggingMode) (os : List Op) (c : LoggingConfig)
    → All (λ o. is_read o ≡ true) os
    → c.mode ≡ some m
    → run os c ≡ c
unfolding run
run-reads m [] c reads set = refl
run-reads m (o ∷ os) c reads set =
    ap (run os) (step-read m o c reads.0 set) ∙ run-reads m os c reads.1 set

run-append : (os ps : List Op) (c : LoggingConfig) → run (os ++ ps) c ≡ run ps (run os c)
unfolding run
run-append [] ps c = refl
run-append (o ∷ os) ps c = run-append os ps (step o c)

-- Over ASCII: however the modes were set before, the last one that was set is the mode, and
-- reading it or asking for loggers since then has configured nothing; if none was set, the first
-- reading sets the mode that the environment names then, or SIMPLE, once and for all; a text that
-- spells the name of a mode in any case selects it.
pub mode_in_force :
    (m : LoggingMode) (level : ℕ) (text : String) (first later : Option String)
    (before reads : List Op) (c : LoggingConfig)
    → upper text ≡ codes (name_of m)
    → All (λ o. is_read o ≡ true) reads
    → let told = set_mode m level (run before c) in
      let defaulted = set_mode (mode_named (or_blank first)) info init in
      (get_mode later (run (before ++ (sets m level ∷ reads)) c) ≡ (ok m, told))
      × (get_mode later (run (gets first ∷ reads) init)
          ≡ (ok (mode_named (or_blank first)), defaulted))
      × (get_mode (some text) init ≡ (ok m, set_mode m info init))
unfolding run step
mode_in_force m level text first later before reads c spelled fine =
    let told = set_mode m level (run before c) in
    let k = mode_named (or_blank first) in
    let defaulted = set_mode k info init in
    let is_told = set_mode-mode m level (run before c) in
    let is_defaulted = set_mode-mode k info init in
    (
      ap (get_mode later)
            (run-append before (sets m level ∷ reads) c ∙ run-reads m reads told fine is_told)
          ∙ get_mode-set m later told is_told,
      ap (get_mode later) (
            ap (λ (x : LoggingConfig). run reads x)
              (ap (λ (r : Outcome LoggingMode × LoggingConfig). r.1) (get_mode-unset first))
            ∙ run-reads k reads defaulted fine is_defaulted)
          ∙ get_mode-set k later defaulted is_defaulted,
      get_mode-unset (some text)
          ∙ ap (λ (n : LoggingMode). (ok n, set_mode n info init))
              (mode_named-spelled m text spelled),
    )
