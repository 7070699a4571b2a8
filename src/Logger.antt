-- ===== src/Logger.antt =====
-- fastapi_ws_rpc/logger.py. The state holds the mode of the `LoggingConfig` object, the level in the
-- class attribute `UVICORN_LOGGERS`, which its copies share, and what `dictConfig` was called with.
-- The value of the environment variable is a text in ASCII.
pub mod Modes
mod Examples
use fastapi_ws_rpc.Base.{
  ℕ, String, Bool, Option, none, some, List, [], ◌∷◌, ◌++◌, map, nat_eq, true, false, ◌&&◌,
  if◌then◌else◌,
}
use fastapi_ws_rpc.Values.{Exn, exn, Outcome, ok, raised, runtime_error}
use Prim.Native.String.{◌++◌ as joined}
use Prim.Native.String
use Prim.Native.Char.{code}
use fastapi_ws_rpc.Utils.{to_upper}

-- `LoggingModes`
pub data LoggingMode : Type 0 where
  no_logs uvicorn simple loguru : LoggingMode

-- The levels of `logging` that are named here.
abbrev pub info : ℕ
info = 20

-- The loggers that are passed to `dictConfig`: none, or those of uvicorn and of this library, the
-- latter at a level.
pub data Loggers : Type 0 where
  no_loggers : Loggers
  uvicorn_loggers : ℕ → Loggers

pub record LoggingConfig : Type 0 where
  pub mode : Option LoggingMode
  pub uvicorn_level : ℕ
  pub configured : List Loggers

abbrev pub init : LoggingConfig
init = record { mode = none; uvicorn_level = info; configured = [] }

-- The names in `LoggingModes.__members__`
abbrev pub name_of : LoggingMode → String
name_of no_logs = "NO_LOGS"
name_of uvicorn = "UVICORN"
name_of simple = "SIMPLE"
name_of loguru = "LOGURU"

-- The code points of a text.
abbrev pub codes : String → List ℕ
codes String.[] = []
codes (String.◌∷◌ c s) = code c ∷ codes s

-- `s.upper()`, as code points
unfoldable pub upper : String → List ℕ
unfolding to_upper
upper s = map to_upper (codes s)

abbrev pub is_same : List ℕ → List ℕ → Bool
is_same [] [] = true
is_same (x ∷ xs) (y ∷ ys) = nat_eq x y && is_same xs ys
is_same _ _ = false

-- `LoggingModes.__members__.get(….upper(), LoggingModes.SIMPLE)`
abbrev pub member : List ℕ → LoggingMode
member name =
    if is_same name (codes (name_of no_logs))
    then no_logs
    else if is_same name (codes (name_of uvicorn))
    then uvicorn
    else if is_same name (codes (name_of loguru))
    then loguru
    else simple

unfoldable pub mode_named : String → LoggingMode
unfolding upper
mode_named s = member (upper s)

abbrev pub dict_config : Loggers → LoggingConfig → LoggingConfig
dict_config loggers c = record c { configured = c.configured ++ (loggers ∷ []) }

-- `set_mode`: the level is written into the shared dictionary.
unfoldable pub set_mode : LoggingMode → ℕ → LoggingConfig → LoggingConfig
set_mode uvicorn level c =
    dict_config (uvicorn_loggers level) (record c { mode = some uvicorn; uvicorn_level = level })
set_mode simple level c = record c { mode = some simple }
set_mode loguru level c = record c { mode = some loguru }
set_mode no_logs level c = dict_config no_loggers (record c { mode = some no_logs })

-- The value of the environment variable, or the empty text.
abbrev pub or_blank : Option String → String
or_blank none = ""
or_blank (some s) = s

-- `get_mode` after the mode was set if it was not.
abbrev pub checked : LoggingConfig → Outcome LoggingMode × LoggingConfig
checked c = (
  elim c.mode [
    | none ↦ raised (exn runtime_error "Logging mode must be set by set_mode() method")
    | some m ↦ ok m
  ],
  c,
)

unfoldable pub get_mode : Option String → LoggingConfig → Outcome LoggingMode × LoggingConfig
unfolding mode_named set_mode
get_mode env c = elim c.mode [
  | none ↦ checked (set_mode (mode_named (or_blank env)) info c)
  | some m ↦ checked c
]

-- What `get_logger` returns: the logger of loguru, or one of `logging` under a name.
pub data Logger : Type 0 where
  of_loguru : Logger
  named : String → Logger

abbrev pub logger_for : String → LoggingMode → Logger
logger_for name loguru = of_loguru
logger_for name _ = named (joined "fastapi_ws_rpc." name)

abbrev pub with_mode : String → Outcome LoggingMode × LoggingConfig → Outcome Logger × LoggingConfig
with_mode name (raised e, c) = (raised e, c)
with_mode name (ok m, c) = (ok (logger_for name m), c)

unfoldable pub get_logger : Option String → String → LoggingConfig → Outcome Logger × LoggingConfig
unfolding get_mode
get_logger env name c = with_mode name (get_mode env c)

-- What a program asks of it.
pub data Op : Type 0 where
  sets : LoggingMode → ℕ → Op
  gets : Option String → Op
  logs : Option String → String → Op

unfoldable pub step : Op → LoggingConfig → LoggingConfig
unfolding set_mode get_mode get_logger
step (sets m level) c = set_mode m level c
step (gets env) c = (get_mode env c).1
step (logs env name) c = (get_logger env name c).1

unfoldable pub run : List Op → LoggingConfig → LoggingConfig
unfolding step
run [] c = c
run (o ∷ os) c = run os (step o c)
