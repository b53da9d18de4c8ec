-- ===== src/GrpcCli/EndToEnd.antt =====
-- The command line against the configuration and the user service of services/.
use kd.Base.{
  ℕ, ◌≡◌, refl, ◌∙◌, false, Option, none, some, List, [], ◌∷◌, ◌++◌, Text, lit, is_empty, str_eq,
  starts_with, find_char, insert, lookup, ℤ, pos, to_string, FitsInt64, Result, ok, raised,
}
use kd.Json.{JsonApi, JsonLaws}
use kd.Api.{ConfigEntry, Status, status_ok, no_entry}
use kd.Services.Answering.{answered, answered-ok}
use kd.Services.Config.{ConfigService, get_config, answer, find_entry}
use kd.Services.Config.Publish.{publish_config, is_invalid, versioned}
use kd.Services.Config.Lookup.{publish_find}
use kd.GrpcCli.{
  Services, printed, report, cli_main, run_service, run_config, config_get, config_publish,
  shown_entry,
}
use kd.GrpcCli.Arguments.{Args, parse_args, parse_arg, get_or, add_metadata, default_target}

-- The command line's view of a configuration service in the state `s`.
abbrev pub config_service :
    (api : JsonApi) → (unhandled : Text → Status) → (now : ℕ) → Services → ConfigService → Services
config_service api unhandled now others s = record others {
  get_config =
      λ target metadata request. answered unhandled no_entry (get_config api now request s);
  publish_config = λ target metadata entry. answered unhandled (pos 0) (publish_config api entry s);
}

abbrev pub publish_command : (namespace_name key value : Text) → List Text
publish_command namespace_name key value =
    lit "grpc_cli"
    ∷ lit "config"
    ∷ lit "publish"
    ∷ (lit "--namespace=" ++ namespace_name)
    ∷ (lit "--key=" ++ key)
    ∷ (lit "--value=" ++ value)
    ∷ []

abbrev pub get_command : (namespace_name key : Text) → List Text
get_command namespace_name key =
    lit "grpc_cli"
    ∷ lit "config"
    ∷ lit "get"
    ∷ (lit "--namespace=" ++ namespace_name)
    ∷ (lit "--key=" ++ key)
    ∷ []

-- The entry that the command publishes.
abbrev pub commanded : (namespace_name key value : Text) → ConfigEntry
commanded namespace_name key value = record {
  namespace_name = namespace_name;
  key = key;
  value = value;
  version = pos 0;
  environment = lit "dev";
}

-- The commands with the options read.
module _ (api : JsonApi) (dump_indented : api.Json → Result Text) (services : Services)
    (namespace_name key : Text) where
  abbrev named : Args
  named = (lit "namespace", namespace_name) ∷ (lit "key", key) ∷ []

  publish_command_lem :
      (value : Text)
      → (let r =
            services.publish_config
              (default_target (lit "config"))
              (add_metadata (named ++ (lit "value", value) ∷ []))
              (commanded namespace_name key value) in
          cli_main api dump_indented services (publish_command namespace_name key value)
          ≡ report r.0 (ok (lit "published version=" ++ to_string r.1)))
  unfolding cli_main run_service run_config config_publish parse_args parse_arg get_or
      default_target starts_with find_char insert lookup str_eq lit
  publish_command_lem value = refl

  get_command_lem :
      let r =
        services.get_config
          (default_target (lit "config"))
          (add_metadata named)
          (record { namespace_name = namespace_name; key = key }) in
      cli_main api dump_indented services (get_command namespace_name key)
      ≡ report r.0 (dump_indented (shown_entry api dump_indented services r.1))
  unfolding cli_main run_service run_config config_get parse_args parse_arg get_or default_target
      starts_with find_char insert lookup str_eq lit
  get_command_lem = refl

answer-found :
    (api : JsonApi) (found : Result (Option ConfigEntry) × ConfigService) (e : ConfigEntry)
    → found.0 ≡ ok (some e)
    → (answer api found).0 ≡ ok (status_ok, e)
answer-found api (raised what, s) e h = cc h
answer-found api (ok none, s) e h = cc h
answer-found api (ok (some x), s) e h = let same : x ≡ e = cc h in rw same refl

module _ (api : JsonApi) (laws : JsonLaws api) (unhandled : Text → Status)
    (dump_indented : api.Json → Result Text) (others : Services) where
  -- `grpc_cli config publish` of a non-empty namespace, a non-empty key and a value, followed by
  -- `grpc_cli config get` of the namespace and the key, against a configuration service that has
  -- Redis, or neither Redis nor MySQL, and a next version of at most 64 bits. Where the service
  -- completes the publication, and the entry with that version and the environment `dev` can be dumped
  -- as indented JSON, the first command prints the next version, the second prints that JSON, and both
  -- exit with 0, whatever was stored before.
  pub config_round_trip :
      (now : ℕ) (namespace_name key value shown : Text) (s : ConfigService) {res : Status × ℤ}
      → is_empty namespace_name ≡ false
      → is_empty key ≡ false
      → FitsInt64 (pos s.next_version)
      → (s.redis ≡ none → s.mysql ≡ none)
      → (publish_config api (commanded namespace_name key value) s).0 ≡ ok res
      → dump_indented (
          shown_entry api dump_indented others
            (versioned (commanded namespace_name key value) s.next_version))
        ≡ ok shown
      → (cli_main api dump_indented
            (config_service api unhandled now others s)
            (publish_command namespace_name key value)
          ≡ ok (printed (lit "published version=" ++ to_string (pos s.next_version))))
        × (cli_main api dump_indented
              (config_service api unhandled now others
                (publish_config api (commanded namespace_name key value) s).1)
              (get_command namespace_name key)
            ≡ ok (printed shown))
  unfolding report get_config shown_entry
  config_round_trip now namespace_name key value shown s named keyed fits reach completes dumps =
      let request : ConfigEntry = commanded namespace_name key value in
      let valid : is_invalid request ≡ false = rw (named, keyed) refl in
      let (published, found) = publish_find api laws now request s valid fits reach completes in
      let s' : ConfigService = (publish_config api request s).1 in
      (
        publish_command_lem api dump_indented (config_service api unhandled now others s)
              namespace_name key value
            ∙ rw
                (
                  answered-ok unhandled (pos 0) (publish_config api request s) _ completes,
                  published,
                )
                refl,
        get_command_lem api dump_indented (config_service api unhandled now others s')
              namespace_name key
            ∙ rw
                (
                  answered-ok unhandled no_entry
                      (answer api (find_entry api now namespace_name key (lit "dev") s')) _
                      (answer-found api (find_entry api now namespace_name key (lit "dev") s') _
                        found),
                  dumps,
                )
                refl,
      )
