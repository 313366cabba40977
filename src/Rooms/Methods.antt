-- ===== src/Rooms/Methods.antt =====
-- The methods of `RoomsService` that write rooms and memberships.
use study_room_sdk.Base.{
  ℕ, ◌+◌, true, List, [], ◌∷◌, map, Option, none, some, ◌==◌, if◌then◌else◌, find?, select,
}
use study_room_sdk.Domain.{
  Text, Db, Ambient, Identity, Room, RoomMembership, owner, member, is_owner, AuditLog, AuditAction,
  Metadata, member_removed, owner_transferred, room_deleted, no_metadata, in_room, new_owner,
  rooms_create,
}
use study_room_sdk.Domain.World.{World}
use study_room_sdk.Domain.Wire.{RoomDto}
use study_room_sdk.Service.Monad.{
  not_found, conflict, message, Action, ◌>>=◌, ◌>>◌, return_value, query, write, or_throw, throw_if,
  meanwhile,
}
use study_room_sdk.Text.{trim}
use study_room_sdk.Database.{
  member_is, delete_membership, set_role, update_room, next_version, insert_audit, commit,
  room_transaction,
}
use study_room_sdk.Presence.{remove_user}
use study_room_sdk.Idempotency.{IdempotentResult, Digest, create_room as room_request, execute}
use study_room_sdk.Rooms.Defs.{
  require_member, require_owner, snapshot, to_room_dto, get, create_room, room_not_found,
}

abbrev pub audit_row : Identity → AuditAction → ℕ → Metadata → AuditLog
audit_row identity act resource meta = record {
  app_id = identity.app_id;
  actor_id = identity.user_id;
  action = act;
  resource_id = resource;
  metadata = meta;
}

-- `create`
unfoldable pub create : Ambient → Text → Identity → Action RoomDto
create ambient title identity = do
  room ← room_transaction ambient.uuid (create_room ambient.now (trim title) identity ambient.uuid)
  d ← query (λ d. d)
  to_room_dto ambient.now room d

-- What `createIdempotent` creates, with the room as it is shown
unfoldable pub created_room : Ambient → Text → Identity → ℕ → Action RoomDto
created_room ambient title identity id = do
  room ← create_room ambient.now (trim title) identity id
  d ← query (λ d. d)
  to_room_dto ambient.now room d

-- `createIdempotent`. The transaction is that of the idempotency service, and ends with the creation,
-- so that the trigger looks at the room then.
unfoldable pub create_idempotent :
    Digest
    → Ambient
    → (World → World)
    → Text
    → Identity
    → Option Text
    → Action (IdempotentResult RoomDto)
create_idempotent digest ambient others title identity none = do
  value ← create ambient title identity
  return_value (record { value = value; created = true })
create_idempotent digest ambient others title identity (some key) =
    execute digest ambient others
      (record {
        app_id = identity.app_id;
        user_id = identity.user_id;
        operation = rooms_create;
        key = key;
        request = room_request (trim title);
      })
      (λ id. created_room ambient title identity id >>= commit id)
      (λ id. snapshot ambient.now identity.app_id id)

-- What `removeMember`, `leave` and `transferOwnership` end with.
unfoldable pub updated_room : ℕ → Identity → ℕ → Action RoomDto
updated_room now identity room = do
  updated ← snapshot now identity.app_id room
  or_throw updated room_not_found

-- The transaction of `removeMember`
unfoldable pub removal : ℕ → ℕ → Identity → Action (Unit {0})
removal room user identity = room_transaction room do
  write (delete_membership room user)
  write (update_room room next_version)
  write (insert_audit (audit_row identity member_removed user (in_room room)))

unfoldable pub find_member : ℕ → ℕ → Db → Option RoomMembership
find_member room user d = find? (member_is room user) d.memberships

-- `removeMember`
unfoldable pub remove_member : Ambient → (World → World) → ℕ → ℕ → Identity → Action RoomDto
remove_member ambient others room user identity = do
  require_owner room identity
  found ← query (find_member room user)
  target ← or_throw found (not_found (message "Room member not found"))
  throw_if (is_owner target.role)
      (conflict (message "Transfer ownership before removing the owner"))
  meanwhile others
  removal room user identity
  remove_user ambient.now identity.app_id room user
  updated_room ambient.now identity room

-- The transaction of `leave`
unfoldable pub departure : ℕ → Identity → Action Room
departure room identity =
    room_transaction room
      do write (delete_membership room identity.user_id); write (update_room room next_version)

-- `leave`
unfoldable pub leave : Ambient → (World → World) → ℕ → Identity → Action RoomDto
leave ambient others room identity = do
  membership ← require_member room identity
  throw_if (is_owner membership.role)
      (conflict (message "Transfer ownership or delete the room before leaving"))
  meanwhile others
  departure room identity
  remove_user ambient.now identity.app_id room identity.user_id
  updated_room ambient.now identity room

-- The transaction of `transferOwnership`
unfoldable pub handover : ℕ → ℕ → Identity → Action (Unit {0})
handover room user identity = room_transaction room do
  write (set_role room identity.user_id member)
  write (set_role room user owner)
  write (update_room room next_version)
  write (insert_audit (audit_row identity owner_transferred room (new_owner user)))

-- `transferOwnership` to another user
unfoldable pub transfer_to_other : Ambient → (World → World) → ℕ → ℕ → Identity → Action RoomDto
transfer_to_other ambient others room user identity = do
  found ← query (find_member room user)
  or_throw found (not_found (message "Target owner must already be a room member"))
  meanwhile others
  handover room user identity
  updated_room ambient.now identity room

-- `transferOwnership`
unfoldable pub transfer_ownership : Ambient → (World → World) → ℕ → ℕ → Identity → Action RoomDto
transfer_ownership ambient others room user identity = do
  require_owner room identity
  if user == identity.user_id
      then get ambient.now room identity
      else transfer_to_other ambient others room user identity

abbrev pub removed_at : ℕ → Room → Room
removed_at now r = record r { deleted_at = some now; version = r.version + 1 }

-- The transaction of `delete`
unfoldable pub deletion : ℕ → ℕ → Identity → Action Room
deletion now room identity = room_transaction room do
  deleted ← write (update_room room (removed_at now))
  write (insert_audit (audit_row identity room_deleted room no_metadata))
  return_value deleted

-- `Promise.all` over the members' `removeUser`
unfoldable pub remove_users : ℕ → ℕ → ℕ → List ℕ → Action (Unit {0})
remove_users now app room [] = return_value tt
remove_users now app room (u ∷ us) = do remove_user now app room u; remove_users now app room us

-- `delete`: the users to tell, and the version of the deleted room
unfoldable pub delete : Ambient → (World → World) → ℕ → Identity → Action (List ℕ × ℕ)
delete ambient others room identity = do
  require_owner room identity
  members ← query (λ d. map (λ m. m.user_id) (select (λ m. m.room_id == room) d.memberships))
  meanwhile others
  deleted ← deletion ambient.now room identity
  remove_users ambient.now identity.app_id room members
  return_value (members, deleted.version)
