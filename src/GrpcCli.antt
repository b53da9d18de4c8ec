-- ===== src/GrpcCli.antt =====
-- tools/grpc_cli/main.cpp. The services at the other end of the channels are a parameter, by the target
-- and the metadata of a call, and so is `dump(2)`. An exception of std::stoi, std::stoll or the JSON
-- library is not caught. What the program prints is a part of its result.
pub mod Arguments
pub mod Parsing
pub mod EndToEnd
use kd.Base.{
  ℕ, Bool, List, [], ◌∷◌, ◌++◌, Text, lit, str_eq, if◌then◌else◌, ℤ, to_string, stoi, stoll, Result,
  ok, raised, ◌>>=◌, map, pos,
}
use kd.Json.{JsonApi}
use kd.Api.{
  ConfigEntry, UserProfile, GetConfigRequest, CreateRoomRequest, JoinRoomRequest, Status, is_ok,
}
use kd.Context.Metadata.{Metadata}
use kd.GrpcCli.Arguments.{Args, parse_args, get_or, add_metadata, default_target}

-- A call by target, metadata and request.
abbrev pub Call : Type 0 → Type 0 → Type 0
Call Q R = Text → Metadata → Q → Status × R

pub record Services : Type 0 where
  pub get_config : Call GetConfigRequest ConfigEntry
  pub batch_get_config : Call Text (List ConfigEntry)
  pub publish_config : Call ConfigEntry ℤ
  pub watch_config : Call (Text × ℤ) (List (List ConfigEntry))
  pub get_user : Call Text UserProfile
  pub create_user : Call Text UserProfile
  pub create_room : Call CreateRoomRequest Text
  pub join_room : Call JoinRoomRequest Bool

pub record Output : Type 0 where
  pub exit_code : ℕ
  pub out : Text
  pub err : Text

abbrev pub line : Text → Text
line text = text ++ 10 ∷ []

abbrev pub printed : Text → Output
printed text = record { exit_code = 0; out = line text; err = [] }

-- `std::cerr << status.error_message() << "\n"; return 1`
abbrev pub failed : Status → Output
failed status = record { exit_code = 1; out = []; err = line status.message }

-- no method of that name
abbrev no_method : Output
no_method = record { exit_code = 1; out = []; err = [] }

-- PrintUsage, with the exit code of `main` after it
unfoldable usage : Output
usage = record {
  exit_code = 1;
  out =
      line (lit "Usage:")
      ++ (line (lit "  grpc_cli config get --namespace=ns --key=k [--target=host:port]")
          ++ (line (lit "  grpc_cli config batch-get --namespace=ns")
              ++ (line (
                    lit
                      "  grpc_cli config publish --namespace=ns --key=k --value=v [--environment=dev]")
                  ++ (line (lit "  grpc_cli config watch --namespace=ns [--since-version=0]")
                      ++ (line (lit "  grpc_cli user get --user-id=id")
                          ++ (line (lit "  grpc_cli user create --nickname=name")
                              ++ (line (
                                    lit
                                      "  grpc_cli game create-room --room-name=name --max-players=4")
                                  ++ line (
                                      lit
                                        "  grpc_cli game join-room --room-id=id --user-id=user_1"))))))));
  err = [];
}

-- `entry.namespace_name() << "/" << …` for each entry of each update
unfoldable update_lines : List ConfigEntry → Text
update_lines [] = []
update_lines (e ∷ entries) =
    line (
      e.namespace_name
      ++ (lit "/"
          ++ (e.key ++ (lit " = " ++ (e.value ++ (lit " version=" ++ to_string e.version))))))
    ++ update_lines entries

unfoldable watched_lines : List (List ConfigEntry) → Text
unfolding update_lines
watched_lines [] = []
watched_lines (updates ∷ rest) = update_lines updates ++ watched_lines rest

-- What follows an answer: the error, or what is printed of the response.
unfoldable pub report : Status → Result Text → Result Output
report status shown =
    if is_ok status then (shown >>= λ text. ok (printed text)) else ok (failed status)

module _ (api : JsonApi) (dump_indented : api.Json → Result Text) (services : Services) where
  unfoldable pub shown_entry : ConfigEntry → api.Json
  shown_entry e = api.object (
      (lit "namespace_name", api.string e.namespace_name)
      ∷ (lit "key", api.string e.key)
      ∷ (lit "value", api.string e.value)
      ∷ (lit "version", api.number e.version)
      ∷ (lit "environment", api.string e.environment)
      ∷ [])

  unfoldable shown_profile : UserProfile → api.Json
  shown_profile p = api.object (
      (lit "user_id", api.string p.user_id)
      ∷ (lit "nickname", api.string p.nickname)
      ∷ (lit "avatar", api.string p.avatar)
      ∷ (lit "level", api.number p.level)
      ∷ (lit "created_at", api.number p.created_at)
      ∷ [])

  unfoldable pub config_get : (target : Text) → Args → Result Output
  unfolding report shown_entry get_or add_metadata
  config_get target args =
      let answer = services.get_config target (add_metadata args) (record {
        namespace_name = get_or args (lit "namespace") [];
        key = get_or args (lit "key") [];
      }) in
      report answer.0 (dump_indented (shown_entry answer.1))

  unfoldable config_batch_get : (target : Text) → Args → Result Output
  unfolding report shown_entry get_or add_metadata
  config_batch_get target args =
      let answer =
        services.batch_get_config target (add_metadata args) (get_or args (lit "namespace") []) in
      report answer.0 (dump_indented (api.array (map shown_entry answer.1)))

  unfoldable pub config_publish : (target : Text) → Args → Result Output
  unfolding report get_or add_metadata
  config_publish target args =
      let answer = services.publish_config target (add_metadata args) (record {
        namespace_name = get_or args (lit "namespace") [];
        key = get_or args (lit "key") [];
        value = get_or args (lit "value") [];
        version = pos 0;
        environment = get_or args (lit "environment") (lit "dev");
      }) in
      report answer.0 (ok (lit "published version=" ++ to_string answer.1))

  -- The updates are printed as they come, also before a status that is an error.
  unfoldable config_watch : (target : Text) → Args → Result Output
  unfolding watched_lines get_or add_metadata
  config_watch target args =
      stoll (get_or args (lit "since-version") (lit "0")) >>= λ since_version.
      let answer =
        services.watch_config target (add_metadata args)
          (get_or args (lit "namespace") [], since_version) in
      ok (record {
        exit_code = if is_ok answer.0 then 0 else 1;
        out = watched_lines answer.1;
        err = [];
      })

  unfoldable pub run_config : (method : Text) → Args → Result Output
  unfolding config_get config_batch_get config_publish config_watch get_or default_target
  run_config method args =
      let target : Text = get_or args (lit "target") (default_target (lit "config")) in
      if str_eq method (lit "get")
      then config_get target args
      else if str_eq method (lit "batch-get")
      then config_batch_get target args
      else if str_eq method (lit "publish")
      then config_publish target args
      else if str_eq method (lit "watch")
      then config_watch target args
      else ok no_method

  unfoldable user_get : (target : Text) → Args → Result Output
  unfolding report shown_profile get_or add_metadata
  user_get target args =
      let answer = services.get_user target (add_metadata args) (get_or args (lit "user-id") []) in
      report answer.0 (dump_indented (shown_profile answer.1))

  unfoldable user_create : (target : Text) → Args → Result Output
  unfolding report get_or add_metadata
  user_create target args =
      let answer =
        services.create_user target (add_metadata args) (get_or args (lit "nickname") []) in
      report answer.0 (ok answer.1.user_id)

  unfoldable run_user : (method : Text) → Args → Result Output
  unfolding user_get user_create get_or default_target
  run_user method args =
      let target : Text = get_or args (lit "target") (default_target (lit "user")) in
      if str_eq method (lit "get")
      then user_get target args
      else if str_eq method (lit "create")
      then user_create target args
      else ok no_method

  unfoldable pub create_room : (target : Text) → Args → Result Output
  unfolding report get_or add_metadata
  create_room target args = stoi (get_or args (lit "max-players") (lit "4")) >>= λ max_players.
      let answer =
        services.create_room target (add_metadata args)
          (record { room_name = get_or args (lit "room-name") []; max_players = max_players }) in
      report answer.0 (ok answer.1)

  unfoldable pub join_room : (target : Text) → Args → Result Output
  unfolding get_or add_metadata
  join_room target args =
      let answer = services.join_room target (add_metadata args) (record {
        room_id = get_or args (lit "room-id") [];
        user_id = get_or args (lit "user-id") [];
      }) in
      if is_ok answer.0
      then ok (
          if answer.1
          then printed (lit "joined")
          else record (printed (lit "failed")) { exit_code = 1 })
      else ok (failed answer.0)

  unfoldable run_game : (method : Text) → Args → Result Output
  unfolding create_room join_room get_or default_target
  run_game method args =
      let target : Text = get_or args (lit "target") (default_target (lit "game")) in
      if str_eq method (lit "create-room")
      then create_room target args
      else if str_eq method (lit "join-room")
      then join_room target args
      else ok no_method

  unfoldable pub run_service : (service method : Text) → Args → Result Output
  unfolding run_config run_user run_game usage
  run_service service method args =
      if str_eq service (lit "config")
      then run_config method args
      else if str_eq service (lit "user")
      then run_user method args
      else if str_eq service (lit "game")
      then run_game method args
      else ok usage

  -- `main`; the arguments begin with the program's name
  unfoldable pub cli_main : (argv : List Text) → Result Output
  unfolding run_service parse_args usage
  cli_main [] = ok usage
  cli_main (program ∷ []) = ok usage
  cli_main (program ∷ service ∷ []) = ok usage
  cli_main (program ∷ service ∷ method ∷ tokens) = run_service service method (parse_args tokens [])
