-- ===== src/Services/Game/Joining.antt =====
-- What joining a room does.
use kd.Base.{
  ◌≡◌, refl, subst, sym, ap, ◌∙◌, ◌&&◌, inl, inr, Bool, true, false, Bool-cases, Option, none, some,
  List, [], Text, str_eq, eq_of_str_eq, lookup, insert, lookup-insert, if◌then◌else◌, pos, leb_ℤ,
  length,
}
use kd.Api.{JoinRoomRequest}
use kd.Services.Game.{RoomState, GameService, member, add_member, join_found, join_room}

-- Whether the room takes another member.
abbrev pub has_place : Option RoomState → Bool
has_place none = false
has_place (some room) = if leb_ℤ room.max_players (pos (length room.members)) then false else true

abbrev pub members_of : Option RoomState → List Text
members_of none = []
members_of (some room) = room.members

member-add :
    (u v : Text) (members : List Text)
    → member v (add_member u members) ≡ (if str_eq u v then true else member v members)
unfolding add_member
member-add u v members = elim (Bool-cases (member u members)) [
  | inl inside ↦ elim (Bool-cases (str_eq u v)) [
    | inl same ↦
        rw (inside, same) (subst (λ x. member x members ≡ true) (eq_of_str_eq u v same) inside)
    | inr other ↦ rw (inside, other) refl
  ]
  | inr outside ↦ rw outside refl
]

seated :
    (r : RoomState) (request : JoinRoomRequest) (s : GameService) (room u : Text)
    → let joined = record r { members = add_member request.user_id r.members } in
      member u (members_of (lookup room (insert request.room_id joined s.rooms))) ≡ (
        if str_eq request.room_id room
        then (if str_eq request.user_id u then true else member u r.members)
        else member u (members_of (lookup room s.rooms)))
seated r request s room u = elim (Bool-cases (str_eq request.room_id room)) [
  | inl same ↦
      rw (lookup-insert request.room_id room, same) (member-add request.user_id u r.members)
  | inr other ↦ rw (lookup-insert request.room_id room, other) refl
]

join_found_lem :
    (found : Option RoomState) (request : JoinRoomRequest) (s : GameService) (room u : Text)
    → lookup request.room_id s.rooms ≡ found
    → let out = join_found found request s in
      (out.1 ≡ has_place found)
      × (member u (members_of (lookup room out.2.rooms)) ≡ (
          if has_place found && str_eq request.room_id room && str_eq request.user_id u
          then true
          else member u (members_of (lookup room s.rooms))))
unfolding join_found
join_found_lem none request s room u e = (refl, refl)
join_found_lem (some r) request s room u e =
    elim (Bool-cases (leb_ℤ r.max_players (pos (length r.members)))) [
      | inl full ↦ rw full (refl, refl)
      | inr free ↦ rw free (refl, seated r request s room u ∙ regroup)
    ]
  where
    regroup :
        (if str_eq request.room_id room
          then (if str_eq request.user_id u then true else member u r.members)
          else member u (members_of (lookup room s.rooms)))
        ≡ (if str_eq request.room_id room && str_eq request.user_id u
            then true
            else member u (members_of (lookup room s.rooms)))
    regroup = elim (Bool-cases (str_eq request.room_id room)) [
      | inl same ↦
          let before : member u (members_of (lookup room s.rooms)) ≡ member u r.members =
            ap (λ k. member u (members_of (lookup k s.rooms)))
              (sym (eq_of_str_eq request.room_id room same))
            ∙ ap (λ o. member u (members_of o)) e in
          rw (same, before) refl
      | inr other ↦ rw other refl
    ]

-- JoinRoom succeeds exactly when the room is there and has fewer members than its capacity, whoever
-- asks: a member of a full room is refused as well. A success makes the user a member of that room;
-- every other membership in every room is as before, and a refusal changes none.
pub join_outcome :
    (request : JoinRoomRequest) (s : GameService) (room u : Text)
    → let found = lookup request.room_id s.rooms in
      let out = join_room request s in
      (out.1 ≡ has_place found)
      × (member u (members_of (lookup room out.2.rooms)) ≡ (
          if has_place found && str_eq request.room_id room && str_eq request.user_id u
          then true
          else member u (members_of (lookup room s.rooms))))
unfolding join_room
join_outcome request s room u = join_found_lem _ request s room u refl
