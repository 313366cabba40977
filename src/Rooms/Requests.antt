-- ===== src/Rooms/Requests.antt =====
-- The methods of `RoomsService` on join requests.
use study_room_sdk.Base.{
  ℕ, Bool, true, false, not, ◌&&◌, ◌||◌, Option, none, some, ltb, leb, ◌==◌, find?, select, sort_by,
}
use study_room_sdk.Domain.{
  Db, Ambient, Identity, JoinRequest, JoinRequestStatus, pending, approved, rejected, cancelled,
  is_pending, member, AuditAction, join_request_approved, join_request_rejected, applicant, Page,
}
use study_room_sdk.Domain.World.{World}
use study_room_sdk.Domain.Wire.{JoinRequestDto}
use study_room_sdk.Service.Monad.{
  Failure, not_found, conflict, message, Action, ◌>>=◌, ◌>>◌, return_value, query, write, or_throw,
  throw_if, meanwhile, transaction, attempt, is_unique_violation,
}
use study_room_sdk.Database.{
  pending_of, insert_join_request, update_join_request, upsert_membership, update_room,
  next_version, insert_audit, room_transaction,
}
use study_room_sdk.Page.{Seek, page, map_page}
use study_room_sdk.Rooms.Defs.{
  live_room, display_name_of, user_of, is_member, require_owner, room_not_found,
}
use study_room_sdk.Rooms.Methods.{audit_row}

-- `toJoinRequestDto`
unfoldable pub to_join_request_dto : Db → JoinRequest → JoinRequestDto
to_join_request_dto d q = record {
  id = q.id;
  room_id = q.room_id;
  user_id = q.user_id;
  display_name = display_name_of (user_of q.app_id q.user_id d);
  status = q.status;
  created_at = q.created_at;
  updated_at = q.updated_at;
}

-- The result of `requestJoin`
pub record JoinResult : Type 0 where
  pub request : JoinRequestDto
  pub created : Bool

-- `where: { roomId, appId, userId, status: 'PENDING' }`
abbrev pub my_pending : ℕ → Identity → JoinRequest → Bool
my_pending room identity q = q.app_id == identity.app_id && pending_of room identity.user_id q

unfoldable pub find_my_pending : ℕ → Identity → Db → Option JoinRequest
find_my_pending room identity d = find? (my_pending room identity) d.join_requests

unfoldable pub join_result : Bool → JoinRequest → Action JoinResult
join_result is_new q = do
  d ← query (λ d. d)
  return_value (record { request = to_join_request_dto d q; created = is_new })

-- The `catch` block of `requestJoin`
unfoldable pub join_concurrently : ℕ → Identity → Failure → Action JoinResult
join_concurrently room identity e = do
  throw_if (not (is_unique_violation e)) e
  concurrent ← query (find_my_pending room identity)
  q ← or_throw concurrent e
  join_result false q

abbrev pub new_request : Ambient → ℕ → Identity → JoinRequest
new_request ambient room identity = record {
  id = ambient.uuid;
  room_id = room;
  app_id = identity.app_id;
  user_id = identity.user_id;
  status = pending;
  decided_by = none;
  created_at = ambient.now;
  updated_at = ambient.now;
}

-- The `try` statement of `requestJoin`
unfoldable pub join_newly : Ambient → ℕ → Identity → Action JoinResult
join_newly ambient room identity =
    attempt (write (insert_join_request (new_request ambient room identity)) >>= join_result true)
      (join_concurrently room identity)

-- What follows the lookup of a pending request. `others` runs before the insertion.
unfoldable pub join_existing :
    Ambient → (World → World) → ℕ → Identity → Option JoinRequest → Action JoinResult
join_existing ambient others room identity (some q) = join_result false q
join_existing ambient others room identity none =
    meanwhile others >> join_newly ambient room identity

-- `requestJoin`.
unfoldable pub request_join : Ambient → (World → World) → ℕ → Identity → Action JoinResult
request_join ambient others room identity = do
  found ← query (λ d. find? (live_room identity.app_id room) d.rooms)
  or_throw found room_not_found
  already ← query (is_member room identity)
  throw_if already (conflict (message "Already a room member"))
  existing ← query (find_my_pending room identity)
  join_existing ambient others room identity existing

-- `createdAt` descending, then `id` descending
abbrev pub newest_first : JoinRequest → JoinRequest → Bool
newest_first a b = ltb b.created_at a.created_at || (a.created_at == b.created_at && leb b.id a.id)

abbrev pub oldest_first : JoinRequest → JoinRequest → Bool
oldest_first a b = ltb a.created_at b.created_at || (a.created_at == b.created_at && leb a.id b.id)

-- `listMyJoinRequests`
unfoldable pub list_my_join_requests : Seek → Identity → Option ℕ → ℕ → Action (Page JoinRequestDto)
list_my_join_requests seek identity cursor limit = query λ d. map_page (to_join_request_dto d) (
    page seek (λ q. q.id) cursor limit
      (sort_by newest_first (
        select (λ q. q.app_id == identity.app_id && q.user_id == identity.user_id)
          d.join_requests)))

-- `listRoomJoinRequests`
unfoldable pub list_room_join_requests :
    Seek → ℕ → Identity → Option ℕ → ℕ → Action (Page JoinRequestDto)
list_room_join_requests seek room identity cursor limit = do
  require_owner room identity
  query λ d. map_page (to_join_request_dto d) (
      page seek (λ q. q.id) cursor limit
        (sort_by oldest_first (
          select (λ q. q.room_id == room && q.app_id == identity.app_id && is_pending q.status)
            d.join_requests)))

-- `cancelJoinRequest`: the update names the request by its id alone. `others` runs in between.
unfoldable pub cancel_join_request : Ambient → (World → World) → ℕ → Identity → Action (Unit {0})
cancel_join_request ambient others room identity = do
  found ← query (find_my_pending room identity)
  q ← or_throw found (not_found (message "Pending join request not found"))
  meanwhile others
  write (update_join_request q.id (λ r. record r { status = cancelled; updated_at = ambient.now }))
  return_value tt

pub data Decision : Type 0 where
  approve reject : Decision

abbrev pub status_after : Decision → JoinRequestStatus
status_after approve = approved
status_after reject = rejected

abbrev pub audit_action : Decision → AuditAction
audit_action approve = join_request_approved
audit_action reject = join_request_rejected

-- `if (status === 'APPROVED')`: the applicant joins, and the room has a new version.
unfoldable pub admit : Ambient → ℕ → ℕ → Identity → Decision → Action (Option ℕ)
admit ambient room user identity reject = return_value none
admit ambient room user identity approve = do
  write (
      upsert_membership (record {
        room_id = room;
        app_id = identity.app_id;
        user_id = user;
        role = member;
        joined_at = ambient.now;
      }))
  r ← write (update_room room next_version)
  return_value (some r.version)

abbrev pub decided : Ambient → Identity → Decision → JoinRequest → JoinRequest
decided ambient identity decision q = record q {
  status = status_after decision;
  decided_by = some identity.user_id;
  updated_at = ambient.now;
}

-- The trigger looks at a room that the transaction writes, which a rejection does not do.
unfoldable pub decision_transaction : {A : Type 0} → Decision → ℕ → Action A → Action A
decision_transaction approve room m = room_transaction room m
decision_transaction reject room m = transaction m

-- The transaction of `decideJoinRequest`
unfoldable pub decide_in_transaction :
    Ambient → ℕ → ℕ → Decision → Identity → Action (JoinRequest × Option ℕ)
decide_in_transaction ambient room request decision identity = decision_transaction decision room do
  found ← query λ d.
      find?
        (λ q.
          q.id == request
          && q.room_id == room
          && q.app_id == identity.app_id
          && is_pending q.status)
        d.join_requests
  q ← or_throw found (not_found (message "Pending join request not found"))
  updated ← write (update_join_request q.id (decided ambient identity decision))
  version ← admit ambient room q.user_id identity decision
  write (insert_audit (audit_row identity (audit_action decision) q.id (applicant room q.user_id)))
  return_value (updated, version)

-- `decideJoinRequest`: the request, and the new version of the room if it has one
unfoldable pub decide_join_request :
    Ambient → (World → World) → ℕ → ℕ → Decision → Identity → Action (JoinRequestDto × Option ℕ)
decide_join_request ambient others room request decision identity = do
  require_owner room identity
  meanwhile others
  result ← decide_in_transaction ambient room request decision identity
  d ← query (λ d. d)
  return_value (to_join_request_dto d result.0, result.1)
