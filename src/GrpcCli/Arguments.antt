-- ===== src/GrpcCli/Arguments.antt =====
-- ParseArgs, GetOr, AddMetadata and DefaultTarget of tools/grpc_cli/main.cpp.
use kd.Base.{
  ℕ, suc, Option, none, some, List, [], ◌∷◌, ◌++◌, Text, lit, str_eq, is_empty, starts_with, Dict,
  lookup, insert, if◌then◌else◌, take, drop, find_char,
}
use kd.Context.Metadata.{Metadata}

abbrev pub Args : Type 0
Args = Dict Text

-- An argument without its `--`: a flag, or a key and a value around the first `=`.
abbrev add_option : (token : Text) → Option ℕ → Args → Args
add_option token none args = insert token (lit "true") args
add_option token (some at) args = insert (take at token) (drop (suc at) token) args

unfoldable pub parse_arg : (token : Text) → Args → Args
parse_arg token args =
    if starts_with token (lit "--")
    then add_option (drop 2 token) (find_char b'=' (drop 2 token)) args
    else args

-- ParseArgs: the loop from `argv[start]`, which `tokens` begins with
unfoldable pub parse_args : (tokens : List Text) → Args → Args
unfolding parse_arg
parse_args [] args = args
parse_args (token ∷ tokens) args = parse_args tokens (parse_arg token args)

abbrev value_or : Option Text → (fallback : Text) → Text
value_or none fallback = fallback
value_or (some value) fallback = value

unfoldable pub get_or : Args → (key fallback : Text) → Text
get_or args key fallback = value_or (lookup key args) fallback

-- `if (auto v = GetOr(args, key); !v.empty()) ctx.AddMetadata(name, v)`
unfoldable metadata_entry : Args → (key name : Text) → Metadata
unfolding get_or
metadata_entry args key name =
    if is_empty (get_or args key []) then [] else (name, get_or args key []) ∷ []

unfoldable pub add_metadata : Args → Metadata
unfolding metadata_entry
add_metadata args =
    metadata_entry args (lit "request-id") (lit "x-request-id")
    ++ (metadata_entry args (lit "trace-id") (lit "x-trace-id")
        ++ (metadata_entry args (lit "user-id") (lit "x-user-id")
            ++ (metadata_entry args (lit "tag") (lit "x-traffic-tag")
                ++ (metadata_entry args (lit "client-version") (lit "x-client-version")
                    ++ metadata_entry args (lit "zone") (lit "x-zone")))))

unfoldable pub default_target : (service : Text) → Text
default_target service =
    if str_eq service (lit "config")
    then lit "127.0.0.1:50051"
    else if str_eq service (lit "user")
    then lit "127.0.0.1:50052"
    else if str_eq service (lit "game")
    then lit "127.0.0.1:50053"
    else lit "127.0.0.1:50051"
