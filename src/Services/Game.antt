-- ===== src/Services/Game.antt =====
-- services/game_service/game_service_impl.cpp. `rooms_` and the Redis back end are the state; a
-- method of the service is one step of it. `redis` is `none` for a null client. An exception of the
-- JSON library leaves CreateRoom after the room was stored.
pub mod Capacity
pub mod Joining
use kd.Base.{
  ℕ, suc, ◌+◌, ◌++◌, Bool, true, false, not, ◌||◌, Option, none, some, List, [], ◌∷◌, Text, lit,
  str_eq, is_empty, Dict, lookup, insert, if◌then◌else◌, ℤ, pos, leb_ℤ, show, length, Result, ok,
  raised,
}
use kd.Base.Exec.{Exec}
use kd.Json.{JsonApi}
use kd.Api.{
  CreateRoomRequest, JoinRoomRequest, Status, status_ok, invalid_argument, not_found,
  failed_precondition,
}
use kd.Storage.Redis.{Redis, set}

-- `members` is an unordered set: a list without duplicates
pub record RoomState : Type 0 where
  pub room_name : Text
  pub max_players : ℤ
  pub members : List Text

pub record GameService : Type 0 where
  pub redis : Option Redis
  pub rooms : Dict RoomState
  pub next_room_id : ℕ

abbrev pub init : Option Redis → GameService
init redis = record { redis = redis; rooms = []; next_room_id = 1 }

unfoldable build_room_cache_key : Text → Text
build_room_cache_key room_id = lit "room:" ++ room_id

abbrev pub member : Text → List Text → Bool
member user_id [] = false
member user_id (m ∷ members) = if str_eq m user_id then true else member user_id members

-- members.insert(user_id)
unfoldable pub add_member : Text → List Text → List Text
add_member user_id members = if member user_id members then members else user_id ∷ members

-- What CreateRoom does with the dump of the payload.
unfoldable pub cache_room : Text → Result Text → Redis → Exec GameService (Status × Text)
unfolding build_room_cache_key
cache_room room_id (raised what) redis s = (raised what, s)
cache_room room_id (ok payload) redis s = (
  ok (status_ok, room_id),
  record s { redis = some (set (build_room_cache_key room_id) payload redis) },
)

module _ (api : JsonApi) where
  room_json : Text → RoomState → api.Json
  room_json room_id state = api.object (
      (lit "room_id", api.string room_id)
      ∷ (lit "room_name", api.string state.room_name)
      ∷ (lit "max_players", api.number state.max_players)
      ∷ (lit "members", api.array [])
      ∷ [])

  unfoldable pub cache_if : Option Redis → Text → RoomState → Exec GameService (Status × Text)
  unfolding cache_room room_json
  cache_if none room_id state s = (ok (status_ok, room_id), s)
  cache_if (some redis) room_id state s =
      cache_room room_id (api.dump (room_json room_id state)) redis s

  -- The status and the response's `room_id`
  unfoldable pub create_room : CreateRoomRequest → Exec GameService (Status × Text)
  unfolding cache_if
  create_room request s =
      let room_id : Text = lit "room_" ++ show s.next_room_id in
      let state : RoomState = record {
        room_name = request.room_name;
        max_players = request.max_players;
        members = [];
      } in
      if is_empty request.room_name || leb_ℤ request.max_players (pos 0)
      then (
        ok (
          record {
            code = invalid_argument;
            message = lit "room_name and max_players are required";
          },
          [],
        ),
        s,
      )
      else cache_if s.redis room_id state
          (record s { rooms = insert room_id state s.rooms; next_room_id = suc s.next_room_id })

-- JoinRoom: the status, the response's `success` and the state
unfoldable pub join_found :
    Option RoomState → JoinRoomRequest → GameService → Status × Bool × GameService
unfolding add_member
join_found none request s = (record { code = not_found; message = lit "room not found" }, false, s)
join_found (some room) request s =
    if leb_ℤ room.max_players (pos (length room.members))
    then (record { code = failed_precondition; message = lit "room full" }, false, s)
    else (
      status_ok,
      true,
      record s {
        rooms =
            insert request.room_id
              (record room { members = add_member request.user_id room.members }) s.rooms;
      },
    )

unfoldable pub join_room : JoinRoomRequest → GameService → Status × Bool × GameService
unfolding join_found
join_room request s = join_found (lookup request.room_id s.rooms) request s
