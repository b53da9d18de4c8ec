-- ===== src/Log/Laws.antt =====
-- What the logger of the process keeps.
use kd.Base.{
  ◌≡◌, refl, ◌∙◌, ap, Bool, true, false, not, ◌||◌, Option, none, some, lit, str_eq, str_eq_refl,
  arith,
}
use kd.Log.{
  Level, trace, debug, info, warn, err, critical, off, parse_log_level, log_level_name,
  to_lower_ascii, LoggerOptions, normalize_options, is_same_options, Logger, LogState, initialized,
  ensure_initialized, init_logger, get_log_level, set_level, set_log_level, set_parsed,
  warn_conflict, logger_level, with_level, default_options,
}

-- The name of a level is read as that level.
parse-name : (l : Level) → parse_log_level (log_level_name l) ≡ some l
unfolding parse_log_level log_level_name str_eq lit to_lower_ascii
parse-name trace = refl
parse-name debug = refl
parse-name info = refl
parse-name warn = refl
parse-name err = refl
parse-name critical = refl
parse-name off = refl

initialized-some :
    (o : LoggerOptions) (file_ok : Bool) (logger : Option Logger) (s : LogState) {x : Logger}
    → logger ≡ some x
    → initialized o file_ok logger s ≡ s
unfolding initialized
initialized-some o file_ok none s e = absurd (cc e)
initialized-some o file_ok (some x) s e = refl

initialized-logger :
    (o : LoggerOptions) (file_ok : Bool) (logger : Option Logger) (s : LogState)
    → s.logger ≡ logger
    → (x : Logger) × ((initialized o file_ok logger s).logger ≡ some x)
unfolding initialized
initialized-logger o file_ok none s e = (_, refl)
initialized-logger o file_ok (some x) s e = (x, e)

get-initialized :
    (again : Bool) (s : LogState) {x : Logger}
    → s.logger ≡ some x
    → (get_log_level again s).0 ≡ x.level
unfolding get_log_level ensure_initialized
get-initialized again s e =
    ap (λ (t : LogState). logger_level t.logger) (initialized-some _ again s.logger s e)
    ∙ ap logger_level e

set_level-get :
    (l : Level) (file_ok again : Bool) (s : LogState)
    → (get_log_level again (set_level l file_ok s)).0 ≡ l
unfolding set_level ensure_initialized
set_level-get l file_ok again s =
    let (x, e) = initialized-logger (normalize_options default_options) file_ok s.logger s refl in
    get-initialized again (set_level l file_ok s) (ap (with_level l) e)

set_parsed-get :
    (parsed : Option Level) (file_ok again : Bool) (s : LogState) {l : Level}
    → parsed ≡ some l
    → let out = set_parsed parsed file_ok s in (out.0 ≡ true) × ((get_log_level again out.1).0 ≡ l)
unfolding set_parsed
set_parsed-get none file_ok again s e = absurd (cc e)
set_parsed-get (some k) file_ok again s e = (refl, set_level-get k file_ok again s ∙ cc e)

-- Setting the level by the name of a level, in any state of the logger, succeeds, and that level is
-- read back.
set-get :
    (l : Level) (file_ok again : Bool) (s : LogState)
    → let out = set_log_level (log_level_name l) file_ok s in
      (out.0 ≡ true) × ((get_log_level again out.1).0 ≡ l)
unfolding set_log_level
set-get l file_ok again s = set_parsed-get _ file_ok again s (parse-name l)

normalize_idempotent :
    (o : LoggerOptions) → normalize_options (normalize_options o) ≡ normalize_options o
unfolding normalize_options
normalize_idempotent o = ground arith

is_same_refl : (o : LoggerOptions) → is_same_options o o ≡ true
unfolding is_same_options
is_same_refl o =
    rw (str_eq_refl o.service_name, str_eq_refl o.log_dir, str_eq_refl o.level) (ground arith)

warn_conflict_lem :
    (same : Bool) (s : LogState)
    → let t = warn_conflict same s in
      (t.logger ≡ s.logger)
      × (t.init_options ≡ s.init_options)
      × (t.conflict_warned ≡ (s.conflict_warned || not same))
unfolding warn_conflict
warn_conflict_lem true s = (refl, refl, ground arith)
warn_conflict_lem false s = (refl, refl, ground arith)

init-some :
    (o : LoggerOptions) (file_ok : Bool) (s : LogState) {x : Logger}
    → s.logger ≡ some x
    → let t = init_logger o file_ok s in
      (t.logger ≡ s.logger)
      × (t.init_options ≡ s.init_options)
      × (t.conflict_warned
          ≡ (s.conflict_warned || not (is_same_options s.init_options (normalize_options o))))
unfolding init_logger ensure_initialized
init-some o file_ok s e =
    rw (initialized-some (normalize_options (normalize_options o)) file_ok s.logger s e)
      (warn_conflict_lem _ s)

initialized-none :
    (o : LoggerOptions) (file_ok : Bool) (logger : Option Logger) (s : LogState)
    → logger ≡ none
    → let t = initialized o file_ok logger s in
      (t.init_options ≡ o) × (t.conflict_warned ≡ s.conflict_warned)
unfolding initialized
initialized-none o file_ok none s e = (refl, refl)
initialized-none o file_ok (some x) s e = absurd (cc e)

init-none :
    (o : LoggerOptions) (file_ok : Bool) (s : LogState)
    → s.logger ≡ none
    → let t = init_logger o file_ok s in
      ((x : Logger) × (t.logger ≡ some x))
      × (t.init_options ≡ normalize_options o)
      × (t.conflict_warned ≡ s.conflict_warned)
unfolding init_logger ensure_initialized
init-none o file_ok s e =
    let n = normalize_options (normalize_options o) in
    let (a, b) = initialized-none n file_ok s.logger s e in
    let (x, c) = initialized-logger n file_ok s.logger s refl in
    let t = initialized n file_ok s.logger s in
    let options : t.init_options ≡ normalize_options o = a ∙ normalize_idempotent o in
    let same : is_same_options t.init_options (normalize_options o) ≡ true =
      rw options (is_same_refl (normalize_options o)) in
    let (d, f, g) = warn_conflict_lem (is_same_options t.init_options (normalize_options o)) t in
    ((x, d ∙ c), f ∙ options, g ∙ (rw (same, b) (ground arith)))

-- The first initialisation wins: a later one, with whatever options, keeps the logger with its
-- sinks and level and the options, and warns exactly when its normalized options differ from those
-- of the first.
first_init_wins :
    (first later : LoggerOptions) (file_ok file_ok' : Bool) (s : LogState)
    → s.logger ≡ none
    → s.conflict_warned ≡ false
    → let s1 = init_logger first file_ok s in
      let s2 = init_logger later file_ok' s1 in
      (s2.logger ≡ s1.logger)
      × (s2.init_options ≡ normalize_options first)
      × (s2.conflict_warned
          ≡ not (is_same_options (normalize_options first) (normalize_options later)))
first_init_wins first later file_ok file_ok' s e w =
    let ((x, a), b, c) = init-none first file_ok s e in
    let (d, f, g) = init-some later file_ok' (init_logger first file_ok s) a in
    (d, f ∙ b, g ∙ rw (b, c, w) refl)
