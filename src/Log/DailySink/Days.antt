-- ===== src/Log/DailySink/Days.antt =====
-- Which file a message goes to.
use kd.Base.{
  ◌≡◌, refl, ◌∙◌, ap, true, false, Bool-cases, ◌&&◌, inl, inr, Option, none, some, List, [], ◌∷◌,
  ◌++◌, map, Text, str_eq, eq_of_str_eq, append_assoc, append_nil, subst, sym,
}
use kd.Log.DailySink.{
  DailySink, FileSink, Written, build_file_path, formatted, open_sink, is_active,
  ensure_sink_for_day, log_to, sink_it,
}

-- What stands in the active sink is the file of the active day, with the sink's own formatter.
abbrev IsCurrent : Option FileSink → DailySink → Type 0
IsCurrent none s = Unit
IsCurrent (some sink) s =
    (sink.path ≡ build_file_path s s.active_day) × (sink.formatter ≡ s.formatter)

-- The line that a message of a day makes, with the formatter `f` of the sink `s`.
abbrev pub line_for : DailySink → Text × Text → Written
line_for s (day, message) = record {
  path = build_file_path s day;
  formatter = s.formatter;
  message = message;
}

-- The messages one after the other, with no failure to open a file.
abbrev pub sink_all : (default_formatter : Text) → List (Text × Text) → DailySink → DailySink
sink_all d [] s = s
sink_all d ((day, message) ∷ messages) s = sink_all d messages (sink_it day message d true s).1

-- The state after a message: its day's file is active, and the options are as before.
record Logged (day message : Text) (s s' : DailySink) : Type 0 where
  line : s'.lines ≡ s.lines ++ line_for s (day, message) ∷ []
  current : IsCurrent s'.active_sink s'
  same_dir : s'.log_dir ≡ s.log_dir
  same_name : s'.service_name ≡ s.service_name
  same_formatter : s'.formatter ≡ s.formatter

-- A formatter that is there goes to the sink, which keeps its path.
with_formatter :
    (own : Option Text) (f : Text) (sink : FileSink)
    → own ≡ some f
    → ((formatted own sink).path ≡ sink.path) × ((formatted own sink).formatter ≡ own)
with_formatter none f sink e = absurd (cc e)
with_formatter (some own) f sink e = (refl, refl)

opened-Logged :
    (day message d f : Text) (s : DailySink)
    → s.formatter ≡ some f
    → is_active s.active_sink && str_eq day s.active_day ≡ false
    → Logged day message s (sink_it day message d true s).1
unfolding sink_it ensure_sink_for_day open_sink build_file_path
opened-Logged day message d f s e other =
    let sink : FileSink = record {
      path = build_file_path s day;
      max_size = s.max_file_size_bytes;
      max_files = s.max_files;
      formatter = some d;
    } in
    let (same_path, same_formatter) = with_formatter s.formatter f sink e in
    rw other (record {
      line = rw (same_path, same_formatter) refl;
      current = (same_path, same_formatter);
      same_dir = refl;
      same_name = refl;
      same_formatter = refl;
    })

-- The active file takes the message if its day is the message's.
sink_it-reused :
    (day message d : Text) (s : DailySink)
    → is_active s.active_sink && str_eq day s.active_day ≡ true
    → (sink_it day message d true s).1 ≡ log_to s.active_sink message s
unfolding sink_it ensure_sink_for_day
sink_it-reused day message d s same = rw same refl

log_to-Logged :
    (day message : Text) (active : Option FileSink) (s : DailySink)
    → s.active_sink ≡ active
    → IsCurrent active s
    → is_active active && str_eq day s.active_day ≡ true
    → Logged day message s (log_to active message s)
unfolding build_file_path
log_to-Logged day message none s e current same = absurd (cc same)
log_to-Logged day message (some sink) s e (at_path, formatted_so) same = record {
  line = rw (at_path, formatted_so, eq_of_str_eq day s.active_day same) refl;
  current = subst (λ a. IsCurrent a (log_to (some sink) message s)) (sym e) (at_path, formatted_so);
  same_dir = refl;
  same_name = refl;
  same_formatter = refl;
}

sink_it-Logged :
    (day message d f : Text) (s : DailySink)
    → s.formatter ≡ some f
    → IsCurrent s.active_sink s
    → Logged day message s (sink_it day message d true s).1
sink_it-Logged day message d f s e current =
    elim (Bool-cases (is_active s.active_sink && str_eq day s.active_day)) [
      | inl same ↦
          subst (Logged day message s) (sym (sink_it-reused day message d s same))
            (log_to-Logged day message s.active_sink s refl current same)
      | inr other ↦ opened-Logged day message d f s e other
    ]

-- The options of a sink decide the lines.
line_for_same :
    (s s' : DailySink)
    → s'.log_dir ≡ s.log_dir
    → s'.service_name ≡ s.service_name
    → s'.formatter ≡ s.formatter
    → (messages : List (Text × Text)) → map (line_for s') messages ≡ map (line_for s) messages
unfolding build_file_path
line_for_same s s' dir name formatter [] = refl
line_for_same s s' dir name formatter (m ∷ messages) =
    rw (dir, name, formatter, line_for_same s s' dir name formatter messages) refl

-- Of a sink that has a formatter and whose active file, if any, is that of the active day, messages of
-- any days in any order go each to the file of its own day, in the formatter that the sink was given,
-- if the files can be opened: the lines written are those of the messages in their order, whatever file
-- was open between them, and no message is lost where the day changes.
pub messages_by_day :
    (d f : Text) (messages : List (Text × Text)) (s : DailySink)
    → s.formatter ≡ some f
    → IsCurrent s.active_sink s
    → (sink_all d messages s).lines ≡ s.lines ++ map (line_for s) messages
messages_by_day d f [] s e current = sym (append_nil s.lines)
messages_by_day d f ((day, message) ∷ messages) s e current =
    let logged = sink_it-Logged day message d f s e current in
    let s' : DailySink = (sink_it day message d true s).1 in
    let rest = messages_by_day d f messages s' (logged.same_formatter ∙ e) logged.current in
    rest
    ∙ ap (λ l. s'.lines ++ l)
        (line_for_same s s' logged.same_dir logged.same_name logged.same_formatter messages)
    ∙ rw logged.line
        (append_assoc s.lines (line_for s (day, message) ∷ []) (map (line_for s) messages))
