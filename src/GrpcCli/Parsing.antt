-- ===== src/GrpcCli/Parsing.antt =====
-- Reading back the options of a command line.
use kd.Base.{
  ◌≡◌, refl, ap, ◌∙◌, List, [], ◌∷◌, ◌++◌, Text, lit, starts_with, lookup, insert, lookup-insert,
  last_value, map, All, take-append, drop-append_past,
}
use kd.Auth.Token.Split.{Lacks, find_char-append}
use kd.GrpcCli.Arguments.{Args, parse_arg, parse_args}

-- `--key=value`
abbrev option : Text × Text → Text
option (key, value) = b'-' ∷ b'-' ∷ (key ++ b'=' ∷ value)

parse_arg-option :
    (key value : Text) (args : Args)
    → Lacks b'=' key
    → parse_arg (option (key, value)) args ≡ insert key value args
unfolding parse_arg starts_with lit
parse_arg-option key value args plain =
    rw (find_char-append b'=' key value plain)
      (rw (take-append key (b'=' ∷ value)) (rw (drop-append_past key value b'=') refl))

-- Options `--key=value` are read back: a key without `=` has the value of its last option, which may
-- hold any characters, `=` included, or else what it had before.
options_parsed :
    (options : List (Text × Text)) (args : Args) (key : Text)
    → All (λ (o : Text × Text). Lacks b'=' o.0) options
    → lookup key (parse_args (map option options) args) ≡ last_value key options (lookup key args)
unfolding parse_args
options_parsed [] args key plain = refl
options_parsed ((k, v) ∷ options) args key (plain, others) =
    ap (λ a. lookup key (parse_args (map option options) a)) (parse_arg-option k v args plain)
    ∙ options_parsed options (insert k v args) key others
    ∙ ap (last_value key options) (lookup-insert k key v args)
