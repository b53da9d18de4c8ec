-- ===== src/Log/DailySink.antt =====
-- DailyRotatingFileSink of common/log/logger.cpp: one file for each day. The file sink is spdlog's: it
-- is kept as its arguments and its formatter, which is told by its pattern, and whether it can be
-- opened is an argument. `day` is what DateString makes of the message's time.
pub mod Days
use kd.Base.{
  ℕ, ◌++◌, Bool, true, false, not, ◌&&◌, Option, none, some, List, [], ◌∷◌, Text, lit, str_eq,
  if◌then◌else◌, Result, ok, raised, ◌==◌, ◌*◌,
}
use kd.Base.Exec.{Exec}
use kd.Log.{use_or_default}

-- spdlog::sinks::rotating_file_sink_mt
pub record FileSink : Type 0 where
  pub path : Text
  pub max_size : ℕ
  pub max_files : ℕ
  pub formatter : Option Text

-- A line in a file, as it was formatted.
pub record Written : Type 0 where
  pub path : Text
  pub formatter : Option Text
  pub message : Text

-- The sink, with what it opened and wrote so far.
pub record DailySink : Type 0 where
  pub log_dir : Text
  pub service_name : Text
  pub max_file_size_bytes : ℕ
  pub max_files : ℕ
  pub formatter : Option Text
  pub active_day : Text
  pub active_sink : Option FileSink
  pub opened : List Text
  pub lines : List Written

-- The constructor; base_sink has a formatter from the start
unfoldable pub new_daily_sink :
    (log_dir service_name : Text) (max_file_size_bytes max_files : ℕ) (formatter : Option Text)
    → DailySink
new_daily_sink log_dir service_name max_file_size_bytes max_files formatter = record {
  log_dir = log_dir;
  service_name = service_name;
  max_file_size_bytes = use_or_default max_file_size_bytes (100 * (1024 * 1024));
  max_files = use_or_default max_files 10;
  formatter = formatter;
  active_day = [];
  active_sink = none;
  opened = [];
  lines = [];
}

-- Whether something follows the last `/`: path::has_filename
abbrev has_filename : Text → Bool
has_filename [] = false
has_filename (c ∷ s) = elim s [ [] ↦ not (c == b'/') | d ∷ rest ↦ has_filename s ]

abbrev is_absolute : Text → Bool
is_absolute [] = false
is_absolute (c ∷ s) = c == b'/'

-- `path / name` of std::filesystem on POSIX
unfoldable append_path : (path name : Text) → Text
append_path path name =
    if is_absolute name
    then name
    else if has_filename path
    then path ++ (lit "/" ++ name)
    else path ++ name

-- BuildFilePath
unfoldable pub build_file_path : DailySink → (day : Text) → Text
unfolding append_path
build_file_path s day = append_path s.log_dir (s.service_name ++ (lit "-" ++ (day ++ lit ".log")))

abbrev pub formatted : Option Text → FileSink → FileSink
formatted none sink = sink
formatted (some formatter) sink = record sink { formatter = some formatter }

-- What follows the early return of EnsureSinkForDay.
unfoldable pub open_sink :
    (day default_formatter : Text) → (open_ok : Bool) → Exec DailySink (Unit {0})
unfolding build_file_path
open_sink day default_formatter open_ok s =
    let path : Text = build_file_path s day in
    let sink : FileSink = record {
      path = path;
      max_size = s.max_file_size_bytes;
      max_files = s.max_files;
      formatter = some default_formatter;
    } in
    if open_ok
    then (
      ok tt,
      record s {
        active_sink = some (formatted s.formatter sink);
        active_day = day;
        opened = s.opened ++ path ∷ [];
      },
    )
    else (raised (lit "Failed opening file"), s)

abbrev pub is_active : Option FileSink → Bool
is_active none = false
is_active (some sink) = true

unfoldable pub ensure_sink_for_day :
    (day default_formatter : Text) → (open_ok : Bool) → Exec DailySink (Unit {0})
unfolding open_sink
ensure_sink_for_day day default_formatter open_ok s =
    if is_active s.active_sink && str_eq day s.active_day
    then (ok tt, s)
    else open_sink day default_formatter open_ok s

-- `active_sink_->log(msg)`
abbrev pub log_to : Option FileSink → (message : Text) → DailySink → DailySink
log_to none message s = s
log_to (some sink) message s = record s {
  lines =
      s.lines ++ record { path = sink.path; formatter = sink.formatter; message = message } ∷ [];
}

abbrev logged : (message : Text) → Result (Unit {0}) × DailySink → Result (Unit {0}) × DailySink
logged message (raised what, s) = (raised what, s)
logged message (ok done, s) = (ok tt, log_to s.active_sink message s)

-- sink_it_
unfoldable pub sink_it :
    (day message default_formatter : Text) → (open_ok : Bool) → Exec DailySink (Unit {0})
unfolding ensure_sink_for_day
sink_it day message default_formatter open_ok s =
    logged message (ensure_sink_for_day day default_formatter open_ok s)

abbrev reformatted : Option Text → Option FileSink → Option FileSink
reformatted formatter none = none
reformatted formatter (some sink) = some (formatted formatter sink)

-- set_formatter_
unfoldable set_formatter : (formatter : Text) → DailySink → DailySink
set_formatter formatter s = record s {
  formatter = some formatter;
  active_sink = reformatted (some formatter) s.active_sink;
}

-- set_pattern_: base_sink makes a formatter of the pattern and calls set_formatter_
unfoldable set_pattern : (pattern_text : Text) → DailySink → DailySink
unfolding set_formatter
set_pattern pattern_text s =
    let s' = set_formatter pattern_text s in
    record s' { active_sink = reformatted (some pattern_text) s'.active_sink }
