-- ===== src/Tests/Configuring.antt =====
-- Examples of the configuration of the processes.
use kd.Base.{
  ◌≡◌, refl, some, List, [], ◌∷◌, Text, lit, lookup, arith, starts_with, insert, str_eq, find_char,
}
use kd.AppConfig.{
  load_flat_config, trim_front, trim_back, unquote, load_lines, get_lines, load_line, trim,
}
use kd.AppConfig.Lines.{IsEntry, write_entries, last_line_wins}

-- Comments, spaces and quotation marks.
quoted :
    lookup (lit "host") (load_flat_config (some (lit "# hosts\n  host : \"a b\" \nport: 1")))
    ≡ some (lit "a b")
unfolding load_flat_config get_lines load_lines load_line trim trim_front trim_back unquote
    find_char lookup insert str_eq lit starts_with
quoted = refl

abbrev two_ports : List (Text × Text)
two_ports = (lit "port", lit "1") ∷ (lit "port", lit "2") ∷ []

port-IsEntry : IsEntry (lit "port", lit "1")
unfolding lit trim_front trim_back unquote starts_with
port-IsEntry = record {
  key_tight = (refl, refl, refl);
  no_comment = refl;
  no_colon = (ground arith, (ground arith, (ground arith, (ground arith, tt))));
  key_in_line = (ground arith, (ground arith, (ground arith, (ground arith, tt))));
  value_tight = (refl, refl, refl);
  bare = refl;
  value_in_line = (ground arith, tt);
}

later_port-IsEntry : IsEntry (lit "port", lit "2")
unfolding lit trim_front trim_back unquote starts_with
later_port-IsEntry = record {
  key_tight = (refl, refl, refl);
  no_comment = refl;
  no_colon = port-IsEntry.no_colon;
  key_in_line = port-IsEntry.key_in_line;
  value_tight = (refl, refl, refl);
  bare = refl;
  value_in_line = (ground arith, tt);
}

last_line_wins_example :
    lookup (lit "port") (load_flat_config (some (write_entries two_ports))) ≡ some (lit "2")
unfolding lit str_eq
last_line_wins_example =
    last_line_wins two_ports (lit "port") (port-IsEntry, (later_port-IsEntry, tt))
