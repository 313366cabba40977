-- ===== src/Api/Rooms.antt =====
-- server/src/rooms/rooms.controller.ts
use study_room_sdk.Base.{ℕ, false, List, [], ◌∷◌, Option, none, some}
use study_room_sdk.Domain.{Text, Ambient, Identity}
use study_room_sdk.Domain.World.{World}
use study_room_sdk.Domain.Wire.{
  RoomDto, JoinRequestDto, room_state, membership_updated, join_request_created,
  join_request_updated,
}
use study_room_sdk.Service.Monad.{Action, ◌>>=◌, ◌>>◌, return_value, only_if, meanwhile}
use study_room_sdk.Idempotency.{Digest}
use study_room_sdk.Realtime.{publish_room, publish_user, evict_user}
use study_room_sdk.Rooms.Defs.{snapshot, owner_user_id}
use study_room_sdk.Rooms.Methods.{
  create_idempotent, remove_member, leave, transfer_ownership, delete,
}
use study_room_sdk.Rooms.Requests.{request_join, Decision, decide_join_request}

-- `publishRoom` of the type `room.state`
abbrev pub publish_state : ℕ → ℕ → RoomDto → Action (Unit {0})
publish_state app room dto = publish_room app room (room_state dto) (some dto.version)

-- `create`
unfoldable pub post_room :
    Digest → Ambient → (World → World) → Text → Identity → Option Text → Action RoomDto
post_room digest ambient others title identity key = do
  result ← create_idempotent digest ambient others title identity key
  only_if result.created (publish_state identity.app_id result.value.id result.value)
  return_value result.value

unfoldable pub tell_owner : (World → World) → ℕ → Identity → JoinRequestDto → Action (Unit {0})
tell_owner between room identity request = do
  meanwhile between
  owner ← owner_user_id room identity.app_id
  publish_user identity.app_id owner (join_request_created request) room none

-- `requestJoin`
unfoldable pub post_join_request :
    Ambient → (World → World) → (World → World) → ℕ → Identity → Action JoinRequestDto
post_join_request ambient others between room identity = do
  result ← request_join ambient others room identity
  only_if result.created (tell_owner between room identity result.request)
  return_value result.request

-- `if (room) publishRoom`
unfoldable pub publish_if_live : ℕ → ℕ → Option RoomDto → Action (Unit {0})
publish_if_live app room none = return_value tt
publish_if_live app room (some dto) = publish_state app room dto

-- `if (result.roomVersion)`
unfoldable pub publish_new_version :
    ℕ → (World → World) → ℕ → Identity → Option ℕ → Action (Unit {0})
publish_new_version now between room identity none = return_value tt
publish_new_version now between room identity (some version) = do
  meanwhile between
  found ← snapshot now identity.app_id room
  publish_if_live identity.app_id room found

-- `decideRequest`
unfoldable pub patch_join_request :
    Ambient
    → (World → World)
    → (World → World)
    → ℕ
    → ℕ
    → Decision
    → Identity
    → Action JoinRequestDto
patch_join_request ambient others between room request decision identity = do
  result ← decide_join_request ambient others room request decision identity
  publish_user identity.app_id result.0.user_id (join_request_updated result.0) room none
  publish_new_version ambient.now between room identity result.1
  return_value result.0

-- `leave`
unfoldable pub delete_me : Ambient → (World → World) → ℕ → Identity → Action (Unit {0})
delete_me ambient others room identity = do
  dto ← leave ambient others room identity
  evict_user identity.app_id room identity.user_id
  publish_user identity.app_id identity.user_id (membership_updated room false) room
      (some dto.version)
  publish_state identity.app_id room dto

-- `removeMember`
unfoldable pub delete_member : Ambient → (World → World) → ℕ → ℕ → Identity → Action (Unit {0})
delete_member ambient others room user identity = do
  dto ← remove_member ambient others room user identity
  publish_user identity.app_id user (membership_updated room false) room (some dto.version)
  evict_user identity.app_id room user
  publish_state identity.app_id room dto

-- `transferOwner`
unfoldable pub put_owner : Ambient → (World → World) → ℕ → ℕ → Identity → Action RoomDto
put_owner ambient others room user identity = do
  dto ← transfer_ownership ambient others room user identity
  publish_state identity.app_id room dto
  return_value dto

-- The loop of `delete`
unfoldable pub dismiss : ℕ → ℕ → ℕ → List ℕ → Action (Unit {0})
dismiss app room version [] = return_value tt
dismiss app room version (u ∷ us) = do
  publish_user app u (membership_updated room false) room (some version)
  evict_user app room u
  dismiss app room version us

-- `delete`
unfoldable pub delete_room : Ambient → (World → World) → ℕ → Identity → Action (Unit {0})
delete_room ambient others room identity = do
  result ← delete ambient others room identity
  dismiss identity.app_id room result.1 result.0
