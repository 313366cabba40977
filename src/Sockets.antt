-- ===== src/Sockets.antt =====
-- server/src/realtime/realtime.gateway.ts: a socket with its data, what a client is answered, and what
-- the gateway does to presence and publishes.
use study_room_sdk.Base.{
  ℕ, String, Bool, ◌&&◌, List, [], ◌∷◌, ◌++◌, Option, none, some, ◌==◌, if◌then◌else◌, find?, any,
  delete_where,
}
use study_room_sdk.Domain.{Text, Identity}
use study_room_sdk.Domain.Wire.{RoomDto, MemberDto, member_presence_updated}
use study_room_sdk.Service.Monad.{Action, ◌>>=◌, ◌>>◌, return_value}
use study_room_sdk.Realtime.{publish_room}
use study_room_sdk.Rooms.Defs.{snapshot}
use study_room_sdk.Presence.{refresh, unregister}
use study_room_sdk.Text.{trim}

-- A socket with its `data`. `server.sockets` has only those that the middleware let through, and
-- it has given them their identity.
pub record Socket : Type 0 where
  pub id : ℕ
  pub identity : Identity
  pub joined_room_ids : List ℕ

-- What a client is answered.
pub data Reply : Type 0 where
  ok : Reply
  refused : String → String → Reply

abbrev pub room_required : Reply
room_required = refused "invalid_request" "roomId is required"

abbrev pub away_required : Reply
away_required = refused "invalid_request" "roomId and away are required"

abbrev pub membership_required : Reply
membership_required = refused "membership_required" "Room membership is required"

abbrev pub subscription_required : Reply
subscription_required = refused "subscription_required" "Realtime room subscription is required"

abbrev pub has : ℕ → List ℕ → Bool
has room rooms = any (λ r. r == room) rooms

-- `Set.add`
unfoldable pub add : ℕ → List ℕ → List ℕ
add room rooms = if has room rooms then rooms else rooms ++ room ∷ []

-- `Set.delete`
unfoldable pub remove : ℕ → List ℕ → List ℕ
remove room rooms = delete_where (λ r. r == room) rooms

unfoldable pub publish_member : ℕ → ℕ → RoomDto → Option MemberDto → Action (Unit {0})
publish_member app room dto none = return_value tt
publish_member app room dto (some m) =
    publish_room app room (member_presence_updated m) (some dto.version)

unfoldable pub publish_found : ℕ → ℕ → ℕ → Option RoomDto → Action (Unit {0})
unfolding publish_member
publish_found app room user none = return_value tt
publish_found app room user (some dto) =
    publish_member app room dto (find? (λ m. m.id == user) dto.members)

-- `publishPresence`
unfoldable pub publish_presence : ℕ → ℕ → ℕ → ℕ → Action (Unit {0})
unfolding publish_found
publish_presence now app room user = do
  found ← snapshot now app room
  publish_found app room user found

unfoldable pub leave_rooms : ℕ → ℕ → Identity → List ℕ → Action (Unit {0})
unfolding publish_presence
leave_rooms now socket identity [] = return_value tt
leave_rooms now socket identity (room ∷ rooms) = do
  unregister identity.app_id room socket
  publish_presence now identity.app_id room identity.user_id
  leave_rooms now socket identity rooms

unfoldable pub refresh_rooms : ℕ → ℕ → Socket → List ℕ → Action (Unit {0})
refresh_rooms ttl now client [] = return_value tt
refresh_rooms ttl now client (room ∷ rooms) = do
  refresh ttl now client.identity.app_id room client.id
  refresh_rooms ttl now client rooms

-- Whether the message evicts this socket: the same user, with the room among its rooms.
abbrev pub is_evicted : ℕ → ℕ → ℕ → Socket → Bool
is_evicted app room user c =
    c.identity.app_id == app && c.identity.user_id == user && has room c.joined_room_ids

abbrev pub verified : (Text → Option Identity) → Text → Text → Option Identity
verified verify token [] = none
verified verify token (_ ∷ _) = verify token

-- A token that is missing or blank is not verified.
abbrev pub identity_from : (Text → Option Identity) → Option Text → Option Identity
identity_from verify none = none
identity_from verify (some token) = verified verify token (trim token)
