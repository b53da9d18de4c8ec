-- ===== src/Tests/Serving.antt =====
-- Examples of the services.
use kd.Base.{
  ◌≡◌, ◌≢◌, ◌↔◌, ◌-◌, refl, true, ◌&&◌, none, some, List, [], ◌∷◌, arith, insert, Text, lit, ℤ, pos,
  ok, str_eq, lookup, if◌then◌else◌, show,
}
use kd.Api.{Status, status_ok, ConfigEntry, CreateRoomRequest, JoinRoomRequest, no_entry}
use kd.Storage.Redis.{empty_redis}
use kd.Services.Game
use kd.Services.Game.{GameService, RoomState, create_room, join_room, member}
use kd.Services.Game.Capacity
use kd.Services.Game.Capacity.{
  IsValid, creates, joins, run, is_invalid, new_room, create_outcome, capacity_kept,
}
use kd.Services.Game.Joining.{has_place, members_of, join_outcome}
use kd.Services.User.{UserService, create_user, get_user, new_profile, serialize_profile}
use kd.Services.User.Lookup.{create_get}
use kd.Services.Config.{
  ConfigService, find_entry, collect_namespace, build_store_key, serialize_entry,
}
use kd.Services.Config.Publish.{publish_config, versioned}
use kd.Services.Config.Lookup.{publish_find}
use kd.Services.Config.Watching.{Member, NoRepeats}
use kd.Services.Config.Watching.Changes.{publish_all, watch_changes}
use kd.Tests.Encoding.{toy_json, toy_laws, string, number, object}

abbrev arena : CreateRoomRequest
arena = record { room_name = lit "arena"; max_players = pos 1 }

abbrev join : Text → JoinRoomRequest
join user = record { room_id = lit "room_1"; user_id = user }

abbrev calls : List Capacity.Call
calls = creates arena ∷ joins (join (lit "a")) ∷ joins (join (lit "b")) ∷ []

capacity_kept_example : IsValid (run toy_json calls (Game.init none))
capacity_kept_example = capacity_kept toy_json none calls

abbrev start : GameService
start = Game.init (some empty_redis)

abbrev full : GameService
full = record start {
  rooms =
      (
        lit "room_1",
        record { room_name = lit "arena"; max_players = pos 1; members = lit "a" ∷ [] },
      )
      ∷ [];
}

join_outcome_example :
    let found = lookup (lit "room_1") full.rooms in
    let out = join_room (join (lit "a")) full in
    (out.1 ≡ has_place found)
    × (member (lit "b") (members_of (lookup (lit "room_1") out.2.rooms)) ≡ (
        if has_place found && str_eq (lit "room_1") (lit "room_1") && str_eq (lit "a") (lit "b")
        then true
        else member (lit "b") (members_of (lookup (lit "room_1") full.rooms))))
join_outcome_example = join_outcome (join (lit "a")) full (lit "room_1") (lit "b")

abbrev users : UserService
users = record { redis = some empty_redis; mysql = some []; users = []; next_user_id = 1 }

abbrev payload : Text
payload = object (
    (lit "user_id", string (lit "user_1"))
    ∷ (lit "nickname", string (lit "bo"))
    ∷ (lit "avatar", string [])
    ∷ (lit "level", number (pos 1))
    ∷ (lit "created_at", number (pos 9))
    ∷ [])

create_get_example :
    let p = new_profile 1 (lit "bo") (pos 9) in
    let out = create_user toy_json (lit "bo") (pos 9) users in
    (out.0 ≡ ok (status_ok, p)) × ((get_user toy_json 5 p.user_id out.1).0 ≡ ok (status_ok, p))
unfolding serialize_profile new_profile show lookup lit
create_get_example =
    create_get toy_json toy_laws 5 (lit "bo") payload (pos 9) users (ground arith, ground arith) tt
      refl

abbrev pub configs : ConfigService
configs = record {
  config_provider = none;
  mysql = none;
  redis = some empty_redis;
  mq_producer = none;
  entries = [];
  next_version = 7;
}

abbrev request : ConfigEntry
request = record no_entry { namespace_name = lit "ns"; key = lit "k"; value = lit "v" }

abbrev pub published : Status × ℤ
published = (status_ok, pos 7)

publish_find_example :
    (published ≡ (status_ok, pos 7))
    × ((find_entry toy_json 5 (lit "ns") (lit "k") [] (publish_config toy_json request configs).1).0
        ≡ ok (some (versioned request 7)))
unfolding publish_config serialize_entry lit
publish_find_example =
    publish_find toy_json toy_laws 5 request configs refl (ground arith, ground arith)
      (λ e. absurd (cc e)) refl

-- A service without back ends, and what is published before and after the watch begins.
abbrev fresh_configs : ConfigService
fresh_configs = record configs { redis = none; next_version = 1 }

abbrev other_request : ConfigEntry
other_request = record request { key = lit "l" }

watch_changes_example :
    let s = publish_all toy_json (request ∷ other_request ∷ []) fresh_configs in
    let t = publish_all toy_json (other_request ∷ no_entry ∷ []) s in
    let updates = collect_namespace (lit "ns") (pos (s.next_version - 1)) t in
    (Member (versioned other_request 3) updates ↔ (
      (k : Text) × (lookup k t.entries ≡ some (versioned other_request 3))
      × (other_request.namespace_name ≡ lit "ns")
      × (lookup k s.entries ≢ some (versioned other_request 3))))
    × NoRepeats updates
unfolding versioned
watch_changes_example =
    watch_changes toy_json (request ∷ other_request ∷ []) (other_request ∷ no_entry ∷ [])
      fresh_configs (lit "ns") (versioned other_request 3) refl (omega arith)

-- The updates of that watch.
watched :
    let s = publish_all toy_json (request ∷ other_request ∷ []) fresh_configs in
    let t = publish_all toy_json (other_request ∷ no_entry ∷ []) s in
    collect_namespace (lit "ns") (pos (s.next_version - 1)) t ≡ versioned other_request 3 ∷ []
unfolding publish_config lookup insert str_eq lit versioned collect_namespace build_store_key
watched = refl
