-- ===== src/Bench/Options.antt =====
-- ParseArgs of bench/gateway_http_ws_bench.cpp. An option that is no number leaves it as an exception.
use kd.Base.{
  ℕ, Bool, ◌||◌, List, [], ◌∷◌, ◌++◌, Text, lit, str_eq, ℤ, pos, max_ℤ, stoi, Result, ok, ◌>>=◌,
  if◌then◌else◌,
}
use kd.Bench.{Doubles, BenchConfig}

module _ (d : Doubles) where
  unfoldable default_config : BenchConfig d
  default_config = record {
    mode = lit "http";
    concurrency = pos 32;
    requests = pos 2000;
    warmup = pos 200;
    io_threads = pos 4;
    mixed_http_ratio = d.half;
    ws_read_delay_ms = pos 0;
    ws_message_interval_ms = pos 0;
    output_file = [];
  }

  -- The loop's end: what `cfg` is, or what is written to the error stream before `false`.
  pub data Parsed : Type 0 where
    accepted : BenchConfig d → Parsed
    refused : (err : Text) → Parsed

  unfoldable is_mode : Text → Bool
  is_mode mode = str_eq mode (lit "http") || (str_eq mode (lit "ws") || str_eq mode (lit "mixed"))

  unfoldable takes_value : (arg : Text) → Bool
  takes_value arg =
      str_eq arg (lit "--mode")
      || (str_eq arg (lit "--concurrency")
          || (str_eq arg (lit "--requests")
              || (str_eq arg (lit "--warmup")
                  || (str_eq arg (lit "--io-threads")
                      || (str_eq arg (lit "--mixed-http-ratio")
                          || (str_eq arg (lit "--ws-read-delay-ms")
                              || (str_eq arg (lit "--ws-message-interval-ms")
                                  || str_eq arg (lit "--output"))))))))

  -- `std::max(least, std::stoi(v))`
  abbrev at_least : (least : ℕ) → (v : Text) → Result ℤ
  at_least least v = stoi v >>= λ n. ok (max_ℤ (pos least) n)

  -- The assignment of an option that takes a value
  unfoldable set_option : (arg v : Text) → BenchConfig d → Result (BenchConfig d)
  set_option arg v cfg =
      if str_eq arg (lit "--mode")
      then ok (record cfg { mode = v })
      else if str_eq arg (lit "--concurrency")
      then (at_least 1 v >>= λ n. ok (record cfg { concurrency = n }))
      else if str_eq arg (lit "--requests")
      then (at_least 1 v >>= λ n. ok (record cfg { requests = n }))
      else if str_eq arg (lit "--warmup")
      then (at_least 0 v >>= λ n. ok (record cfg { warmup = n }))
      else if str_eq arg (lit "--io-threads")
      then (at_least 1 v >>= λ n. ok (record cfg { io_threads = n }))
      else if str_eq arg (lit "--mixed-http-ratio")
      then (d.stod v >>= λ r. ok (record cfg { mixed_http_ratio = d.clamp_unit r }))
      else if str_eq arg (lit "--ws-read-delay-ms")
      then (at_least 0 v >>= λ n. ok (record cfg { ws_read_delay_ms = n }))
      else if str_eq arg (lit "--ws-message-interval-ms")
      then (at_least 0 v >>= λ n. ok (record cfg { ws_message_interval_ms = n }))
      else ok (record cfg { output_file = v })

  -- An argument that takes no value: a call for help, or one that is unknown.
  unfoldable pub refuse : (arg : Text) → Parsed
  refuse arg =
      if str_eq arg (lit "--help") || str_eq arg (lit "-h")
      then refused []
      else refused (lit "unknown arg: " ++ (arg ++ 10 ∷ []))

  -- ParseArgs
  unfoldable pub parse_args : List Text → BenchConfig d → Result Parsed
  unfolding is_mode takes_value set_option refuse
  parse_args [] cfg = ok (if is_mode cfg.mode then accepted cfg else refused [])
  parse_args (arg ∷ []) cfg = ok (
      if takes_value arg
      then refused (lit "missing value for " ++ (arg ++ 10 ∷ []))
      else refuse arg)
  parse_args (arg ∷ v ∷ rest) cfg =
      if takes_value arg
      then (set_option arg v cfg >>= λ cfg'. parse_args rest cfg')
      else ok (refuse arg)
