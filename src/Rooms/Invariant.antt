-- ===== src/Rooms/Invariant.antt =====
-- The methods of the rooms service keep one owner to a room.
use study_room_sdk.Base.{
  ℕ, refl, Bool, true, false, List, [], ◌∷◌, Option, none, some, ◌==◌, if◌then◌else◌,
}
use study_room_sdk.Domain.{Db, Ambient, Identity, Text, Room, RoomRole, AuditLog, owner, member}
use study_room_sdk.Domain.World.{World}
use study_room_sdk.Service.Monad.{write, ◌>>=◌, ◌>>◌, resume}
use study_room_sdk.Service.Keeps.{
  Keeps, bind-Keeps, or_throw-Keeps, plain-Keeps, query-Keeps, return_value-Keeps, throw_if-Keeps,
  meanwhile-Keeps, then-Keeps,
}
use study_room_sdk.Text.{trim}
use study_room_sdk.Database.{
  delete_membership, set_role, update_room, next_version, insert_audit, insert_room,
  insert_membership,
}
use study_room_sdk.Presence.{change_redis, remove_user, statuses_for}
use study_room_sdk.Rooms.Defs.{
  create_room, to_room_dto, snapshot, snapshot_found, require_member, require_owner, get,
  member_room,
}
use study_room_sdk.Rooms.Methods.{
  create, removal, remove_member, departure, leave, handover, transfer_to_other, transfer_ownership,
  deletion, removed_at, delete, updated_room, remove_users,
}
use study_room_sdk.Rooms.OneOwner.{
  OneOwner, after, SameElsewhere, Confined, write-Confined, room_transaction-OneOwner,
  insert_room-elsewhere, insert_membership-elsewhere, set_role-elsewhere,
  delete_membership-elsewhere, update_room-elsewhere,
}

audit_elsewhere :
    (room : ℕ) (a : AuditLog) (d : Db) → SameElsewhere room d (after d (insert_audit a d))
unfolding insert_audit
audit_elsewhere room a d r ne = (refl, refl)

pub audit-Confined : (room : ℕ) (a : AuditLog) → Confined room (write (insert_audit a))
audit-Confined room a = write-Confined room (insert_audit a) (audit_elsewhere room a)

pub create_room-Confined :
    (now : ℕ) (title : Text) (identity : Identity) (id : ℕ)
    → Confined id (create_room now title identity id)
unfolding create_room
create_room-Confined now title identity id d =
    bind-Keeps (write-Confined id (insert_room _) (insert_room-elsewhere _) d) λ r.
      bind-Keeps (query-Keeps _) λ user. then-Keeps (or_throw-Keeps user _) (
        then-Keeps (write-Confined id (insert_membership _) (insert_membership-elsewhere _) d)
          (then-Keeps (audit-Confined id _ d) (return_value-Keeps r)))

-- Presence is not part of the invariant.
remove_user-OneOwner : (now app room user : ℕ) → Keeps OneOwner (remove_user now app room user)
unfolding remove_user change_redis ◌>>◌ ◌>>=◌ resume
remove_user-OneOwner now app room user = plain-Keeps λ w h. h

statuses_for-OneOwner :
    (now app room : ℕ) (users : List ℕ) → Keeps OneOwner (statuses_for now app room users)
unfolding statuses_for
statuses_for-OneOwner now app room [] = plain-Keeps λ w h. h
statuses_for-OneOwner now app room (u ∷ us) = plain-Keeps λ w h. h

to_room_dto-OneOwner : (now : ℕ) (r : Room) (d : Db) → Keeps OneOwner (to_room_dto now r d)
unfolding to_room_dto
to_room_dto-OneOwner now r d =
    bind-Keeps (statuses_for-OneOwner now _ _ _) λ s. return_value-Keeps _

snapshot_at :
    (now app room : ℕ) (w : World) (o : Option Room)
    → OneOwner w
    → OneOwner (snapshot_found now w o).1
unfolding snapshot_found
snapshot_at now app room w none h = h
snapshot_at now app room w (some r) h =
    (bind-Keeps (to_room_dto-OneOwner now r w.db) λ dto. return_value-Keeps _).keeps w h

updated_room-OneOwner :
    (now : ℕ) (identity : Identity) (room : ℕ) → Keeps OneOwner (updated_room now identity room)
unfolding updated_room snapshot
updated_room-OneOwner now identity room =
    bind-Keeps (plain-Keeps (λ w h. snapshot_at now identity.app_id room w _ h))
      λ o. or_throw-Keeps o _

require_member-OneOwner :
    (room : ℕ) (identity : Identity) → Keeps OneOwner (require_member room identity)
unfolding require_member
require_member-OneOwner room identity = bind-Keeps (query-Keeps _) λ o. or_throw-Keeps o _

pub require_owner-OneOwner :
    (room : ℕ) (identity : Identity) → Keeps OneOwner (require_owner room identity)
unfolding require_owner
require_owner-OneOwner room identity =
    bind-Keeps (require_member-OneOwner room identity)
      λ m. then-Keeps (throw_if-Keeps _ _) (return_value-Keeps m)

get-OneOwner : (now room : ℕ) (identity : Identity) → Keeps OneOwner (get now room identity)
unfolding get member_room
get-OneOwner now room identity =
    bind-Keeps (bind-Keeps (query-Keeps _) λ o. or_throw-Keeps o _)
      λ r. bind-Keeps (query-Keeps _) λ d. to_room_dto-OneOwner now r d

pub create-OneOwner :
    (ambient : Ambient) (title : Text) (identity : Identity)
    → Keeps OneOwner (create ambient title identity)
unfolding create
create-OneOwner ambient title identity =
    bind-Keeps
      (room_transaction-OneOwner ambient.uuid _
        (create_room-Confined ambient.now (trim title) identity ambient.uuid))
      λ r. bind-Keeps (query-Keeps _) λ d. to_room_dto-OneOwner ambient.now r d

pub version-Confined : (room : ℕ) → Confined room (write (update_room room next_version))
version-Confined room =
    write-Confined room (update_room room next_version)
      (λ d. update_room-elsewhere room next_version d (λ x. refl))

member-Confined : (room user : ℕ) → Confined room (write (delete_membership room user))
member-Confined room user =
    write-Confined room (delete_membership room user) (delete_membership-elsewhere room user)

role-Confined : (room user : ℕ) (role : RoomRole) → Confined room (write (set_role room user role))
role-Confined room user role =
    write-Confined room (set_role room user role) (set_role-elsewhere room user role)

removal-OneOwner :
    (room user : ℕ) (identity : Identity) → Keeps OneOwner (removal room user identity)
unfolding removal
removal-OneOwner room user identity = room_transaction-OneOwner room _ λ d.
    then-Keeps (member-Confined room user d)
      (then-Keeps (version-Confined room d) (audit-Confined room _ d))

departure-OneOwner : (room : ℕ) (identity : Identity) → Keeps OneOwner (departure room identity)
unfolding departure
departure-OneOwner room identity =
    room_transaction-OneOwner room _
      λ d. then-Keeps (member-Confined room identity.user_id d) (version-Confined room d)

handover-OneOwner :
    (room user : ℕ) (identity : Identity) → Keeps OneOwner (handover room user identity)
unfolding handover
handover-OneOwner room user identity = room_transaction-OneOwner room _ λ d.
    then-Keeps (role-Confined room identity.user_id member d) (
      then-Keeps (role-Confined room user owner d)
        (then-Keeps (version-Confined room d) (audit-Confined room _ d)))

deletion-OneOwner :
    (now room : ℕ) (identity : Identity) → Keeps OneOwner (deletion now room identity)
unfolding deletion
deletion-OneOwner now room identity = room_transaction-OneOwner room _ λ d.
    bind-Keeps
      (write-Confined room (update_room room (removed_at now))
        (λ e. update_room-elsewhere room (removed_at now) e (λ x. refl)) d)
      λ r. then-Keeps (audit-Confined room _ d) (return_value-Keeps r)

remove_users-OneOwner :
    (now app room : ℕ) (users : List ℕ) → Keeps OneOwner (remove_users now app room users)
unfolding remove_users
remove_users-OneOwner now app room [] = return_value-Keeps tt
remove_users-OneOwner now app room (u ∷ us) =
    then-Keeps (remove_user-OneOwner now app room u) (remove_users-OneOwner now app room us)

-- The methods, among requests that keep the owners.
module _ (ambient : Ambient) (others : World → World)
    (kept : (w : World) → OneOwner w → OneOwner (others w)) where
  pub remove_member-OneOwner :
      (room user : ℕ) (identity : Identity)
      → Keeps OneOwner (remove_member ambient others room user identity)
  unfolding remove_member
  remove_member-OneOwner room user identity = then-Keeps (require_owner-OneOwner room identity) (
      bind-Keeps (query-Keeps _) λ found. bind-Keeps (or_throw-Keeps found _) λ target.
        then-Keeps (throw_if-Keeps _ _) (
          then-Keeps (meanwhile-Keeps others kept) (
            then-Keeps (removal-OneOwner room user identity) (
              then-Keeps (remove_user-OneOwner ambient.now identity.app_id room user)
                (updated_room-OneOwner ambient.now identity room)))))

  pub leave-OneOwner :
      (room : ℕ) (identity : Identity) → Keeps OneOwner (leave ambient others room identity)
  unfolding leave
  leave-OneOwner room identity = bind-Keeps (require_member-OneOwner room identity) λ membership.
      then-Keeps (throw_if-Keeps _ _) (
        then-Keeps (meanwhile-Keeps others kept) (
          then-Keeps (departure-OneOwner room identity) (
            then-Keeps (remove_user-OneOwner ambient.now identity.app_id room identity.user_id)
              (updated_room-OneOwner ambient.now identity room))))

  pub transfer_to_other-OneOwner :
      (room user : ℕ) (identity : Identity)
      → Keeps OneOwner (transfer_to_other ambient others room user identity)
  unfolding transfer_to_other
  transfer_to_other-OneOwner room user identity = bind-Keeps (query-Keeps _) λ found.
      then-Keeps (or_throw-Keeps found _) (
        then-Keeps (meanwhile-Keeps others kept) (
          then-Keeps (handover-OneOwner room user identity)
            (updated_room-OneOwner ambient.now identity room)))

  choice-OneOwner :
      (b : Bool) (room user : ℕ) (identity : Identity)
      → Keeps OneOwner (
          if b
          then get ambient.now room identity
          else transfer_to_other ambient others room user identity)
  choice-OneOwner true room user identity = get-OneOwner ambient.now room identity
  choice-OneOwner false room user identity = transfer_to_other-OneOwner room user identity

  pub transfer_ownership-OneOwner :
      (room user : ℕ) (identity : Identity)
      → Keeps OneOwner (transfer_ownership ambient others room user identity)
  unfolding transfer_ownership
  transfer_ownership-OneOwner room user identity =
      then-Keeps (require_owner-OneOwner room identity)
        (choice-OneOwner (user == identity.user_id) room user identity)

  pub delete-OneOwner :
      (room : ℕ) (identity : Identity) → Keeps OneOwner (delete ambient others room identity)
  unfolding delete
  delete-OneOwner room identity = then-Keeps (require_owner-OneOwner room identity) (
      bind-Keeps (query-Keeps _) λ members. then-Keeps (meanwhile-Keeps others kept) (
        bind-Keeps (deletion-OneOwner ambient.now room identity) λ deleted.
          then-Keeps (remove_users-OneOwner ambient.now identity.app_id room members)
            (return_value-Keeps _)))
