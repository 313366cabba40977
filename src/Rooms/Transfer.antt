-- ===== src/Rooms/Transfer.antt =====
-- What `transferOwnership` does.
use study_room_sdk.Base.{
  ℕ, ◌≡◌, ◌∙◌, refl, true, false, not, List, [], ◌∷◌, ◌++◌, ◌&&◌, some, arith, ◌==◌, any, find?,
  count, any-and_right, any-of_count_pos, any-update_where_all, any-none, update_where, any-weaken,
  any-update_where, any-other_of_one, any-update_where_none, count-update_where,
  count-update_where_new,
}
use study_room_sdk.Domain.{
  Db, Ambient, Identity, Room, RoomMembership, owner, member, is_owner, owner_transferred,
  new_owner,
}
use study_room_sdk.Domain.World.{World}
use study_room_sdk.Domain.Wire.{RoomDto}
use study_room_sdk.Service.Monad.{done, actions, resume, stored, rolled_back}
use study_room_sdk.Database.{
  room_is, member_is, owner_in, set_role, update_room, next_version, insert_audit, commit,
  room_transaction,
}
use study_room_sdk.Rooms.Defs.{membership_in, live_room}
use study_room_sdk.Rooms.Methods.{
  audit_row, find_member, handover, transfer_to_other, transfer_ownership,
}
use study_room_sdk.Rooms.Snapshot.{Shows, updated_room_lem}
use study_room_sdk.Rooms.Effects.{require_owner_lem, one_owner_holds, live_after}

abbrev demote : RoomMembership → RoomMembership
demote m = record m { role = member }

abbrev promote : RoomMembership → RoomMembership
promote m = record m { role = owner }

-- The memberships after the caller `me` has handed the room to `user`.
abbrev pub handed_over : ℕ → ℕ → ℕ → List RoomMembership → List RoomMembership
handed_over room me user ms =
    update_where (member_is room user) promote (update_where (member_is room me) demote ms)

module _ (room me user : ℕ) (ms : List RoomMembership) where
  no_owner_left :
      count (owner_in room) ms ≡ 1
      → any (λ m. owner_in room m && member_is room me m) ms ≡ true
      → any (owner_in room) (update_where (member_is room me) demote ms) ≡ false
  no_owner_left one mine =
      any-update_where_none (owner_in room) (member_is room me) demote ms (λ x h. ground arith)
        (any-other_of_one (owner_in room) (member_is room me) ms one mine)

  user_kept :
      count (member_is room user) (update_where (member_is room me) demote ms)
      ≡ count (member_is room user) ms
  user_kept = count-update_where (member_is room user) (member_is room me) demote ms (λ x h. refl)

  handed_over_owners :
      count (owner_in room) ms ≡ 1
      → any (λ m. owner_in room m && member_is room me m) ms ≡ true
      → count (member_is room user) ms ≡ 1
      → count (owner_in room) (handed_over room me user ms) ≡ 1
  handed_over_owners one mine once =
      count-update_where_new (owner_in room) (member_is room user) promote
        (update_where (member_is room me) demote ms) (λ x h. ground arith) (no_owner_left one mine)
      ∙ user_kept
      ∙ once

user_owns :
    (room me user : ℕ) (ms : List RoomMembership)
    → count (member_is room user) ms ≡ 1
    → any (λ m. member_is room user m && owner_in room m) (handed_over room me user ms) ≡ true
user_owns room me user ms once =
    any-update_where_all (λ m. member_is room user m && owner_in room m) (member_is room user)
      promote (update_where (member_is room me) demote ms) (λ x h. ground arith)
      (any-of_count_pos (member_is room user) (update_where (member_is room me) demote ms)
        (user_kept room me user ms ∙ once))

caller_owns_not :
    (room me user : ℕ) (ms : List RoomMembership)
    → (user == me) ≡ false
    → any (λ m. member_is room me m && owner_in room m) (handed_over room me user ms) ≡ false
caller_owns_not room me user ms ne =
    any-update_where (λ m. member_is room me m && owner_in room m) (member_is room user) promote
      (update_where (member_is room me) demote ms) (λ x h. other x h)
    ∙ any-update_where_none (λ m. member_is room me m && owner_in room m) (member_is room me) demote
        ms (λ x h. ground arith)
        (any-none (λ m. (member_is room me m && owner_in room m) && not (member_is room me m)) ms
          (λ x. ground arith))
  where
    other :
        (x : RoomMembership)
        → member_is room user x ≡ true
        → (member_is room me (promote x) && owner_in room (promote x))
          ≡ (member_is room me x && owner_in room x)
    other x h = ground arith

-- The tables after the handover.
abbrev pub after_handover : ℕ → ℕ → Identity → Db → Db
after_handover room user identity d = record d {
  memberships = handed_over room identity.user_id user d.memberships;
  rooms = update_where (room_is room) next_version d.rooms;
  audit_logs = d.audit_logs ++ audit_row identity owner_transferred room (new_owner user) ∷ [];
}

handover_lem :
    (room user : ℕ) (identity : Identity) (w : World) {r : Room}
    → count (owner_in room) w.db.memberships ≡ 1
    → any (λ m. owner_in room m && member_is room identity.user_id m) w.db.memberships ≡ true
    → count (member_is room user) w.db.memberships ≡ 1
    → find? (room_is room) w.db.rooms ≡ some r
    → handover room user identity w
      ≡ (done tt, record w { db = after_handover room user identity w.db })
unfolding actions resume stored rolled_back handover room_transaction commit set_role update_room
    insert_audit
handover_lem room user identity w one mine once found =
    rw
      (
        there,
        user_there,
        any-weaken (λ m. owner_in room m && not (member_is room user m)) (owner_in room)
            (update_where (member_is room identity.user_id) demote w.db.memberships)
            (λ x h. ground arith)
            (no_owner_left room identity.user_id user w.db.memberships one mine),
        found,
        one_owner_holds room (after_handover room user identity w.db)
            (handed_over_owners room identity.user_id user w.db.memberships one mine once),
      )
      refl
  where
    there : any (member_is room identity.user_id) w.db.memberships ≡ true
    there = any-and_right (owner_in room) (member_is room identity.user_id) w.db.memberships mine

    user_there :
        any
          (member_is room user)
          (update_where (member_is room identity.user_id) demote w.db.memberships)
        ≡ true
    user_there =
        any-update_where (member_is room user) (member_is room identity.user_id) demote
          w.db.memberships (λ x h. refl)
        ∙ any-of_count_pos (member_is room user) w.db.memberships once

-- The owner hands the room to another member: if, when the transaction runs, the caller is the one
-- owner, the other user has one membership and the room is live, the answer shows the room at its
-- next version; afterwards the room has one owner, that user is it, and the caller is not.
pub transfer_hands_over :
    (ambient : Ambient) (others : World → World) (room user : ℕ) (identity : Identity) (w : World)
    {mine target : RoomMembership} {r : Room}
    → find? (membership_in identity.app_id room identity.user_id w.db) w.db.memberships ≡ some mine
    → is_owner mine.role ≡ true
    → (user == identity.user_id) ≡ false
    → find_member room user w.db ≡ some target
    → count (owner_in room) (others w).db.memberships ≡ 1
    → any (λ m. owner_in room m && member_is room identity.user_id m) (others w).db.memberships
      ≡ true
    → count (member_is room user) (others w).db.memberships ≡ 1
    → find? (room_is room) (others w).db.rooms ≡ some r
    → find? (live_room identity.app_id room) (others w).db.rooms ≡ some r
    → let (answer, u) = transfer_ownership ambient others room user identity w in
      ((dto : RoomDto) × (answer ≡ done dto) × Shows (next_version r) dto)
      × (count (owner_in room) u.db.memberships ≡ 1)
      × (any (λ m. member_is room user m && owner_in room m) u.db.memberships ≡ true)
      × (any (λ m. member_is room identity.user_id m && owner_in room m) u.db.memberships ≡ false)
unfolding actions resume transfer_ownership transfer_to_other find_member
transfer_hands_over ambient others room user identity w mine_found mine_owner ne found one mine once
      row live =
    let v = others w in
    let (dto, redis, e, s) =
      updated_room_lem ambient.now identity room
        (record v { db = after_handover room user identity v.db })
        (live_after identity.app_id room v.db live) in
    rw
      (
        require_owner_lem room identity w mine_found mine_owner,
        ne,
        found,
        handover_lem room user identity v one mine once row,
        e,
      )
      (
        (dto, refl, s),
        handed_over_owners room identity.user_id user v.db.memberships one mine once,
        user_owns room identity.user_id user v.db.memberships once,
        caller_owns_not room identity.user_id user v.db.memberships ne,
      )
