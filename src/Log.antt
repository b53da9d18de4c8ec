-- ===== src/Log.antt =====
-- common/log/logger.cpp: the levels, the options and the one initialisation of the default logger.
-- The sinks are spdlog's: whether the daily file sink can be built is an argument. Log lines written
-- through the logger are left out, except the warnings of the initialisation, which are counted.
pub mod Laws
pub mod DailySink
use kd.Base.{
  ℕ, ◌+◌, ◌==◌, ◌*◌, Bool, true, false, not, ◌&&◌, ◌||◌, Option, none, some, Text, lit, map, str_eq,
  is_empty, lower_byte, if◌then◌else◌, [], ◌∷◌, List, ◌++◌,
}

-- spdlog::level::level_enum
pub data Level : Type 0 where
  trace debug info warn err critical off : Level

unfoldable pub to_lower_ascii : Text → Text
to_lower_ascii = map lower_byte

unfoldable pub parse_log_level : Text → Option Level
unfolding to_lower_ascii
parse_log_level level_name =
    let normalized : Text = to_lower_ascii level_name in
    if str_eq normalized (lit "trace")
    then some trace
    else if str_eq normalized (lit "debug")
    then some debug
    else if str_eq normalized (lit "info")
    then some info
    else if str_eq normalized (lit "warn") || str_eq normalized (lit "warning")
    then some warn
    else if str_eq normalized (lit "error") || str_eq normalized (lit "err")
    then some err
    else if str_eq normalized (lit "critical")
    then some critical
    else if str_eq normalized (lit "off")
    then some off
    else none

unfoldable pub log_level_name : Level → Text
log_level_name trace = lit "trace"
log_level_name debug = lit "debug"
log_level_name info = lit "info"
log_level_name warn = lit "warn"
log_level_name err = lit "error"
log_level_name critical = lit "critical"
log_level_name off = lit "off"

pub record LoggerOptions : Type 0 where
  pub service_name : Text
  pub log_dir : Text
  pub max_file_size_mb : ℕ
  pub max_files : ℕ
  pub level : Text
  pub enable_console : Bool

-- the values of the header
abbrev pub default_options : LoggerOptions
default_options = record {
  service_name = [];
  log_dir = lit "logs";
  max_file_size_mb = 100;
  max_files = 10;
  level = lit "info";
  enable_console = true;
}

abbrev pub use_or_default : ℕ → ℕ → ℕ
use_or_default value fallback = if value == 0 then fallback else value

abbrev text_or : Text → Text → Text
text_or value fallback = if is_empty value then fallback else value

unfoldable pub normalize_options : LoggerOptions → LoggerOptions
normalize_options options = record {
  service_name = text_or options.service_name (lit "kd39");
  log_dir = text_or options.log_dir (lit "logs");
  max_file_size_mb = use_or_default options.max_file_size_mb 100;
  max_files = use_or_default options.max_files 10;
  level = text_or options.level (lit "info");
  enable_console = options.enable_console;
}

unfoldable pub is_same_options : LoggerOptions → LoggerOptions → Bool
is_same_options lhs rhs =
    str_eq lhs.service_name rhs.service_name
    && str_eq lhs.log_dir rhs.log_dir
    && lhs.max_file_size_mb == rhs.max_file_size_mb
    && lhs.max_files == rhs.max_files
    && str_eq lhs.level rhs.level
    && (if lhs.enable_console then rhs.enable_console else not rhs.enable_console)

pub data Sink : Type 0 where
  console : Sink
  daily_file : (log_dir service_name : Text) → (max_file_size_bytes max_files : ℕ) → Sink

pub record Logger : Type 0 where
  pub name : Text
  pub sinks : List Sink
  pub level : Level

-- The globals of the file. `logger` is `none` until `g_init_once` has run.
pub record LogState : Type 0 where
  pub init_options : LoggerOptions
  pub logger : Option Logger
  pub conflict_warned : Bool
  pub warnings : ℕ

abbrev level_or : Option Level → Level → Level
level_or none fallback = fallback
level_or (some level) fallback = level

abbrev missing : Option Level → ℕ
missing none = 1
missing (some level) = 0

-- The sinks that the initialisation builds; `file_ok` is false when the daily sink throws.
unfoldable build_sinks : LoggerOptions → (file_ok : Bool) → List Sink
build_sinks normalized file_ok =
    let file =
      daily_file normalized.log_dir normalized.service_name
        (normalized.max_file_size_mb * (1024 * 1024)) normalized.max_files in
    let first : List Sink = if normalized.enable_console then console ∷ [] else [] in
    let sinks : List Sink = first ++ (if file_ok then file ∷ [] else []) in
    elim sinks [ [] ↦ console ∷ [] | s ∷ rest ↦ s ∷ rest ]

-- The body of `call_once`, unless it has run: the third argument is the logger of `s`.
unfoldable pub initialized : LoggerOptions → (file_ok : Bool) → Option Logger → LogState → LogState
unfolding parse_log_level build_sinks
initialized normalized file_ok (some logger) s = s
initialized normalized file_ok none s = record {
  init_options = normalized;
  logger = some (record {
    name = normalized.service_name;
    sinks = build_sinks normalized file_ok;
    level = level_or (parse_log_level normalized.level) info;
  });
  conflict_warned = s.conflict_warned;
  warnings = s.warnings + (if file_ok then 0 else 1) + missing (parse_log_level normalized.level);
}

-- EnsureInitialized
unfoldable pub ensure_initialized : LoggerOptions → (file_ok : Bool) → LogState → LogState
unfolding normalize_options initialized
ensure_initialized options file_ok s = initialized (normalize_options options) file_ok s.logger s

-- The warning of InitLogger, written once
unfoldable pub warn_conflict : (same : Bool) → LogState → LogState
warn_conflict true s = s
warn_conflict false s = record s {
  conflict_warned = true;
  warnings = s.warnings + (if s.conflict_warned then 0 else 1);
}

unfoldable pub init_logger : LoggerOptions → (file_ok : Bool) → LogState → LogState
unfolding ensure_initialized is_same_options warn_conflict
init_logger options file_ok s =
    let normalized = normalize_options options in
    let s' = ensure_initialized normalized file_ok s in
    warn_conflict (is_same_options s'.init_options normalized) s'

-- InitLogger of a service's name alone
unfoldable init_named_logger : (service_name : Text) → (file_ok : Bool) → LogState → LogState
unfolding init_logger
init_named_logger service_name file_ok s =
    init_logger (record default_options { service_name = service_name }) file_ok s

abbrev logger_level : Option Logger → Level
logger_level none = info
logger_level (some logger) = logger.level

-- `Raw()` initialises the logger with the default options first.
unfoldable pub get_log_level : (file_ok : Bool) → LogState → Level × LogState
unfolding ensure_initialized
get_log_level file_ok s =
    let s' = ensure_initialized default_options file_ok s in (logger_level s'.logger, s')

abbrev with_level : Level → Option Logger → Option Logger
with_level level none = none
with_level level (some logger) = some (record logger { level = level })

unfoldable pub set_level : Level → (file_ok : Bool) → LogState → LogState
unfolding ensure_initialized
set_level level file_ok s =
    let s' = ensure_initialized default_options file_ok s in
    record s' { logger = with_level level s'.logger }

unfoldable pub set_parsed : Option Level → (file_ok : Bool) → LogState → Bool × LogState
unfolding set_level
set_parsed none file_ok s = (false, s)
set_parsed (some level) file_ok s = (true, set_level level file_ok s)

-- SetLogLevel of a name
unfoldable pub set_log_level : Text → (file_ok : Bool) → LogState → Bool × LogState
unfolding parse_log_level set_parsed
set_log_level level_name file_ok s = set_parsed (parse_log_level level_name) file_ok s
