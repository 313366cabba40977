-- ===== src/Rooms/Effects.antt =====
-- What the methods that change the members of a room do when they succeed, and when they succeed.
use study_room_sdk.Base.{
  ℕ, ◌≡◌, ◌≢◌, ◌∙◌, refl, true, false, [], ◌∷◌, ◌++◌, ◌&&◌, some, arith, any, find?, count,
  delete_where, update_where, find?-holds, find?-delete_where, any-delete_where,
  find?-update_where_kept, count-delete_where_rows,
}
use study_room_sdk.Domain.{
  Db, Redis, Ambient, Identity, Room, RoomMembership, is_owner, member_removed, in_room,
}
use study_room_sdk.Domain.World.{World}
use study_room_sdk.Domain.Wire.{RoomDto}
use study_room_sdk.Service.Monad.{done, actions, resume, stored, rolled_back}
use study_room_sdk.Database.{
  room_is, member_is, owner_in, delete_membership, update_room, next_version, insert_audit,
  has_exactly_one_owner, commit, room_transaction,
}
use study_room_sdk.Rooms.Defs.{membership_in, live_room, require_member, require_owner}
use study_room_sdk.Rooms.Methods.{audit_row, find_member, removal, remove_member}
use study_room_sdk.Rooms.Snapshot.{Shows, updated_room_lem, remove_user_lem}

pub one_owner_holds :
    (room : ℕ) (d : Db)
    → count (owner_in room) d.memberships ≡ 1
    → has_exactly_one_owner room d ≡ true
unfolding has_exactly_one_owner
one_owner_holds room d h = ground arith

-- The tables after a member has gone.
abbrev pub without_member : ℕ → ℕ → Identity → Db → Db
without_member room user identity d = record d {
  memberships = delete_where (member_is room user) d.memberships;
  rooms = update_where (room_is room) next_version d.rooms;
  audit_logs = d.audit_logs ++ audit_row identity member_removed user (in_room room) ∷ [];
}

removal_lem :
    (room user : ℕ) (identity : Identity) (w : World) {r : Room}
    → any (member_is room user) w.db.memberships ≡ true
    → find? (room_is room) w.db.rooms ≡ some r
    → count (owner_in room) (delete_where (member_is room user) w.db.memberships) ≡ 1
    → removal room user identity w
      ≡ (done tt, record w { db = without_member room user identity w.db })
unfolding actions resume stored rolled_back removal room_transaction commit delete_membership
    update_room insert_audit
removal_lem room user identity w there found owners =
    rw (there, found, one_owner_holds room (without_member room user identity w.db) owners) refl

pub require_owner_lem :
    (room : ℕ) (identity : Identity) (w : World) {mine : RoomMembership}
    → find? (membership_in identity.app_id room identity.user_id w.db) w.db.memberships ≡ some mine
    → is_owner mine.role ≡ true
    → require_owner room identity w ≡ (done mine, w)
unfolding actions resume require_owner require_member
require_owner_lem room identity w found o = rw (found, o) refl

pub live_after :
    (app room : ℕ) (d : Db) {r : Room}
    → find? (live_room app room) d.rooms ≡ some r
    → find? (live_room app room) (update_where (room_is room) next_version d.rooms)
      ≡ some (next_version r)
live_after app room d e =
    find?-update_where_kept (live_room app room) (room_is room) next_version d.rooms (λ y h. refl) e
      (ground (arith, find?-holds (live_room app room) d.rooms e))

module _ (ambient : Ambient) (others : World → World) (room user : ℕ) (identity : Identity)
    (w : World) where
  remove_member_lem :
      {mine target : RoomMembership} {r : Room}
      → find? (membership_in identity.app_id room identity.user_id w.db) w.db.memberships
        ≡ some mine
      → is_owner mine.role ≡ true
      → find_member room user w.db ≡ some target
      → is_owner target.role ≡ false
      → any (member_is room user) (others w).db.memberships ≡ true
      → count (owner_in room) (delete_where (member_is room user) (others w).db.memberships) ≡ 1
      → find? (room_is room) (others w).db.rooms ≡ some r
      → find? (live_room identity.app_id room) (others w).db.rooms ≡ some r
      → (dto : RoomDto) × (redis : Redis) × (remove_member ambient others room user identity w ≡ (
        done dto,
        record (others w) { db = without_member room user identity (others w).db; redis = redis },
      ))
        × Shows (next_version r) dto
  unfolding actions resume remove_member find_member
  remove_member_lem mine_found mine_owner found plain there owners row live =
      let gone : World = record (others w) {
        db = without_member room user identity (others w).db;
      } in
      let (r1, e1) = remove_user_lem ambient.now identity.app_id room user gone in
      let (dto, r2, e2, s) =
        updated_room_lem ambient.now identity room (record gone { redis = r1 })
          (live_after identity.app_id room (others w).db live) in
      (
        dto,
        r2,
        rw
            (
              require_owner_lem room identity w mine_found mine_owner,
              found,
              plain,
              removal_lem room user identity (others w) there row owners,
              e1,
              e2,
            )
            refl,
        s,
      )

  -- The owner removes a plain member: if, when the transaction runs, the user is still a member and
  -- not the owner, and the room is live with one owner, the answer shows the room at its next version;
  -- afterwards the user has no membership in the room, the membership of any other user `i` is as it was,
  -- and the room has one owner.
  pub remove_member_removes :
      {mine target : RoomMembership} {r : Room}
      → find? (membership_in identity.app_id room identity.user_id w.db) w.db.memberships
        ≡ some mine
      → is_owner mine.role ≡ true
      → find_member room user w.db ≡ some target
      → is_owner target.role ≡ false
      → any (member_is room user) (others w).db.memberships ≡ true
      → any (λ m. member_is room user m && owner_in room m) (others w).db.memberships ≡ false
      → count (owner_in room) (others w).db.memberships ≡ 1
      → find? (room_is room) (others w).db.rooms ≡ some r
      → find? (live_room identity.app_id room) (others w).db.rooms ≡ some r
      → (i : ℕ) → i ≢ user
      → let (answer, u) = remove_member ambient others room user identity w in
        ((dto : RoomDto) × (answer ≡ done dto) × Shows (next_version r) dto)
        × (any (member_is room user) u.db.memberships ≡ false)
        × (find? (member_is room i) u.db.memberships
            ≡ find? (member_is room i) (others w).db.memberships)
        × (count (owner_in room) u.db.memberships ≡ 1)
  remove_member_removes mine_found mine_owner found plain there not_owner owners row live i ne =
      let kept : count (owner_in room)
            (delete_where (member_is room user) (others w).db.memberships)
          ≡ 1 =
        count-delete_where_rows (owner_in room) (member_is room user) (others w).db.memberships
          not_owner
        ∙ owners in
      let (dto, redis, e, s) =
        remove_member_lem mine_found mine_owner found plain there kept row live in
      rw e (
        (dto, refl, s),
        any-delete_where (member_is room user) (others w).db.memberships,
        find?-delete_where (member_is room i) (member_is room user) (others w).db.memberships
            (λ x h. ground arith),
        kept,
      )
