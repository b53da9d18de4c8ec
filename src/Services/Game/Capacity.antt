-- ===== src/Services/Game/Capacity.antt =====
-- Rooms over a sequence of calls.
use kd.Base.{
  ℕ, suc, ◌+◌, ◌++◌, ◌≤◌, ◌<◌, ◌≡◌, refl, subst, sym, ◌∙◌, ◌⊎◌, inl, inr, Bool, true, false,
  Bool-cases, ◌||◌, Option, none, some, List, [], ◌∷◌, Text, lit, str_eq, eq_of_str_eq, is_empty,
  lookup, insert, lookup-insert_self, Dict, arith, ℤ, pos, negsuc, leb_ℤ, ◌≤ℤ◌, show,
  show_injective, length, All, Result, ok, raised,
}
use kd.Json.{JsonApi}
use kd.Api.{CreateRoomRequest, JoinRoomRequest}
use kd.Storage.Redis.{Redis}
use kd.Services.Game.{
  RoomState, GameService, init, member, add_member, cache_room, cache_if, create_room, join_found,
  join_room,
}

-- A room with capacity, no more members than that, and no member twice.
abbrev IsDistinct : List Text → Type 0
IsDistinct [] = Unit
IsDistinct (m ∷ members) = (member m members ≡ false) × IsDistinct members

abbrev IsValidRoom : RoomState → Type 0
IsValidRoom room =
    (pos (length room.members) ≤ℤ room.max_players)
    × (pos 1 ≤ℤ room.max_players)
    × IsDistinct room.members

-- The entry of a room: a valid room under an id that was given out.
abbrev IsValidEntry : ℕ → Text × RoomState → Type 0
IsValidEntry next (room_id, room) =
    IsValidRoom room × ((k : ℕ) × (k < next) × (room_id ≡ lit "room_" ++ show k))

abbrev pub IsValid : GameService → Type 0
IsValid s = All (IsValidEntry s.next_room_id) s.rooms

All-later :
    (next : ℕ) (rooms : Dict RoomState)
    → All (IsValidEntry next) rooms
    → All (IsValidEntry (suc next)) rooms
All-later next [] h = h
All-later next ((id, room) ∷ rooms) ((valid, (k, lt, e)), h) =
    ((valid, (k, omega arith, e)), All-later next rooms h)

insert-All :
    (next : ℕ) (id : Text) (room : RoomState) (rooms : Dict RoomState)
    → IsValidEntry next (id, room)
    → All (IsValidEntry next) rooms
    → All (IsValidEntry next) (insert id room rooms)
unfolding insert
insert-All next id room [] h k = (h, k)
insert-All next id room ((j, r) ∷ rooms) (valid, (n, lt, e)) (a, k) =
    elim (Bool-cases (str_eq j id)) [
      | inl same ↦ rw same ((valid, (n, lt, eq_of_str_eq j id same ∙ e)), k)
      | inr other ↦ rw other (a, insert-All next id room rooms (valid, (n, lt, e)) k)
    ]

lookup-All :
    (next : ℕ) (id : Text) (rooms : Dict RoomState) {room : RoomState}
    → All (IsValidEntry next) rooms
    → lookup id rooms ≡ some room
    → IsValidEntry next (id, room)
unfolding lookup
lookup-All next id [] h e = absurd (cc e)
lookup-All next id ((j, r) ∷ rooms) {room} (a, h) e = elim (Bool-cases (str_eq j id)) [
  | inl same ↦
      let found : ◌≡◌ {A = Option RoomState} (some r) (some room) = rw same at e in
      let e1 : r ≡ room = cc found in
      let e2 : j ≡ id = eq_of_str_eq j id same in
      subst (λ x. IsValidEntry next (id, x)) e1 (subst (λ x. IsValidEntry next (x, r)) e2 a)
  | inr other ↦ lookup-All next id rooms h (rw other at e)
]

add_member-IsDistinct :
    (u : Text) (members : List Text) → IsDistinct members → IsDistinct (add_member u members)
unfolding add_member
add_member-IsDistinct u members h = elim (Bool-cases (member u members)) [
  | inl inside ↦ rw inside h
  | inr outside ↦ rw outside (outside, h)
]

length-add_member :
    (u : Text) (members : List Text) → length (add_member u members) ≤ length members + 1
unfolding add_member
length-add_member u members = elim (Bool-cases (member u members)) [
  | inl inside ↦ rw inside (omega arith)
  | inr outside ↦ rw outside (omega arith)
]

-- The room is checked before its member is added.
join_found-IsValid :
    (found : Option RoomState) (request : JoinRoomRequest) (s : GameService)
    → lookup request.room_id s.rooms ≡ found
    → IsValid s
    → IsValid (join_found found request s).2
unfolding join_found
join_found-IsValid none request s e h = h
join_found-IsValid (some room) request s e h =
    elim (Bool-cases (leb_ℤ room.max_players (pos (length room.members)))) [
      | inl full ↦ rw full h
      | inr free ↦
          let ((fits, positive, distinct), (k, lt, same)) =
            lookup-All s.next_room_id request.room_id s.rooms h e in
          let more = length-add_member request.user_id room.members in
          let roomy : pos (length (add_member request.user_id room.members)) ≤ℤ room.max_players =
            still_fits room.max_players (length room.members) _ free more in
          rw free (
            insert-All s.next_room_id request.room_id _ s.rooms
              (
                (roomy, positive, add_member-IsDistinct request.user_id room.members distinct),
                (k, lt, same),
              )
              h)
    ]
  where
    still_fits :
        (max_players : ℤ) (n m : ℕ)
        → leb_ℤ max_players (pos n) ≡ false
        → m ≤ n + 1
        → pos m ≤ℤ max_players
    still_fits (pos k) n m h le = ground arith
    still_fits (negsuc k) n m h le = ground arith

join-IsValid :
    (request : JoinRoomRequest) (s : GameService) → IsValid s → IsValid (join_room request s).2
unfolding join_room
join-IsValid request s h = join_found-IsValid _ request s refl h

append_cancel : (s t u : Text) → s ++ t ≡ s ++ u → t ≡ u
append_cancel [] t u e = e
append_cancel (c ∷ s) t u e = append_cancel s t u (cc e)

-- An id with a later number is not among the rooms.
later_fresh :
    (next m : ℕ) (rooms : Dict RoomState)
    → next ≤ m
    → All (IsValidEntry next) rooms
    → lookup (lit "room_" ++ show m) rooms ≡ none
unfolding lookup
later_fresh next m [] le h = refl
later_fresh next m ((id, room) ∷ rooms) le ((valid, (k, lt, e)), h) =
    elim (Bool-cases (str_eq id (lit "room_" ++ show m))) [
      | inl same ↦
          let e1 : lit "room_" ++ show k ≡ lit "room_" ++ show m = sym e ∙ eq_of_str_eq id _ same in
          let e2 : k ≡ m = show_injective k m (append_cancel (lit "room_") (show k) (show m) e1) in
          absurd (omega arith)
      | inr other ↦ rw other (later_fresh next m rooms le h)
    ]

cache_room-rooms :
    (id : Text) (payload : Result Text) (redis : Redis) (s : GameService)
    → let t = (cache_room id payload redis s).1 in
      (t.rooms ≡ s.rooms) × (t.next_room_id ≡ s.next_room_id)
unfolding cache_room
cache_room-rooms id (ok payload) redis s = (refl, refl)
cache_room-rooms id (raised what) redis s = (refl, refl)

-- Whether a request is refused.
abbrev pub is_invalid : CreateRoomRequest → Bool
is_invalid request = is_empty request.room_name || leb_ℤ request.max_players (pos 0)

abbrev pub new_room : CreateRoomRequest → RoomState
new_room request = record {
  room_name = request.room_name;
  max_players = request.max_players;
  members = [];
}

-- A call of the service.
pub data Call : Type 0 where
  creates : CreateRoomRequest → Call
  joins : JoinRoomRequest → Call

module _ (api : JsonApi) where
  cache_if-rooms :
      (redis : Option Redis) (id : Text) (room : RoomState) (s : GameService)
      → let t = (cache_if api redis id room s).1 in
        (t.rooms ≡ s.rooms) × (t.next_room_id ≡ s.next_room_id)
  unfolding cache_if
  cache_if-rooms none id room s = (refl, refl)
  cache_if-rooms (some redis) id room s = cache_room-rooms id _ redis s

  -- A request with a name and a positive capacity makes a new room, without members, under an id that
  -- no room had, and keeps the rooms valid; this also if the dump for the cache raises. Any other
  -- request is refused and changes nothing.
  pub create_outcome :
      (request : CreateRoomRequest) (s : GameService)
      → IsValid s
      → let out = create_room api request s in
        let id = lit "room_" ++ show s.next_room_id in
        IsValid out.1
        × (((is_invalid request ≡ true) × (out.1 ≡ s))
            ⊎ ((is_invalid request ≡ false)
                × (lookup id s.rooms ≡ none)
                × (lookup id out.1.rooms ≡ some (new_room request))))
  unfolding create_room
  create_outcome request s h = elim (Bool-cases (is_invalid request)) [
    | inl bad ↦ rw bad (h, inl (refl, refl))
    | inr good ↦
        let id : Text = lit "room_" ++ show s.next_room_id in
        let t : GameService = record s {
          rooms = insert id (new_room request) s.rooms;
          next_room_id = suc s.next_room_id;
        } in
        let (rooms, next) = cache_if-rooms s.redis id (new_room request) t in
        let positive : pos 1 ≤ℤ request.max_players =
          positive_capacity request.max_players (and_false _ _ good) in
        let entry : IsValidEntry (suc s.next_room_id) (id, new_room request) = (
          (capacity request.max_players positive, positive, tt),
          (s.next_room_id, omega arith, refl),
        ) in
        rw (good, rooms, next)
          (
            insert-All (suc s.next_room_id) id (new_room request) s.rooms entry
                (All-later s.next_room_id s.rooms h),
            inr (
              refl,
              later_fresh s.next_room_id s.next_room_id s.rooms (omega arith) h,
              lookup-insert_self id (new_room request) s.rooms,
            ),
          )
  ]
    where
      and_false : (a b : Bool) → (a || b) ≡ false → b ≡ false
      and_false a b e = ground arith

      positive_capacity : (z : ℤ) → leb_ℤ z (pos 0) ≡ false → pos 1 ≤ℤ z
      positive_capacity (pos n) e = ground arith
      positive_capacity (negsuc n) e = ground arith

      capacity : (z : ℤ) → pos 1 ≤ℤ z → pos 0 ≤ℤ z
      capacity (pos n) e = ground arith
      capacity (negsuc n) e = ground arith

  unfoldable pub step : Call → GameService → GameService
  unfolding create_room join_room
  step (creates request) s = (create_room api request s).1
  step (joins request) s = (join_room request s).2

  unfoldable pub run : List Call → GameService → GameService
  unfolding step
  run [] s = s
  run (c ∷ cs) s = run cs (step c s)

  run-IsValid : (cs : List Call) (s : GameService) → IsValid s → IsValid (run cs s)
  unfolding run step
  run-IsValid [] s h = h
  run-IsValid (creates request ∷ cs) s h = run-IsValid cs _ (create_outcome request s h).0
  run-IsValid (joins request ∷ cs) s h = run-IsValid cs _ (join-IsValid request s h)

  -- After any calls from the start, every room has at most `max_players` members, none of them twice.
  pub capacity_kept : (redis : Option Redis) (cs : List Call) → IsValid (run cs (init redis))
  capacity_kept redis cs = run-IsValid cs (init redis) tt
