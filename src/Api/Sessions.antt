-- ===== src/Api/Sessions.antt =====
-- server/src/sessions/sessions.controller.ts
use study_room_sdk.Base.{ℕ, Option, none, some, ◌==◌, find?}
use study_room_sdk.Domain.{Text, Ambient, Identity, SessionStatus}
use study_room_sdk.Domain.World.{World}
use study_room_sdk.Domain.Wire.{
  MemberDto, RoomDto, StudySessionDto, session_updated, member_presence_updated,
}
use study_room_sdk.Service.Monad.{Action, ◌>>=◌, ◌>>◌, return_value, only_if, meanwhile}
use study_room_sdk.Idempotency.{Digest}
use study_room_sdk.Realtime.{publish_room}
use study_room_sdk.Rooms.Defs.{snapshot}
use study_room_sdk.Sessions.{start_idempotent, update}

unfoldable pub publish_member : ℕ → ℕ → RoomDto → Option MemberDto → Action (Unit {0})
publish_member app room dto none = return_value tt
publish_member app room dto (some m) =
    publish_room app room (member_presence_updated m) (some dto.version)

unfoldable pub publish_presence_in : Identity → ℕ → Option RoomDto → Action (Unit {0})
publish_presence_in identity room none = return_value tt
publish_presence_in identity room (some dto) =
    publish_member identity.app_id room dto (find? (λ m. m.id == identity.user_id) dto.members)

-- `publishPresence`
unfoldable pub publish_presence : ℕ → (World → World) → Identity → ℕ → Action (Unit {0})
publish_presence now between identity room = do
  meanwhile between
  found ← snapshot now identity.app_id room
  publish_presence_in identity room found

unfoldable pub announce_session :
    ℕ → (World → World) → Identity → ℕ → StudySessionDto → Action (Unit {0})
announce_session now between identity room session = do
  publish_room identity.app_id room (session_updated session) none
  publish_presence now between identity room

-- `start`
unfoldable pub post_session :
    Digest
    → Ambient
    → (World → World)
    → (World → World)
    → ℕ
    → Identity
    → Option Text
    → Action StudySessionDto
post_session digest ambient others between room identity key = do
  result ← start_idempotent digest ambient others room identity key
  only_if result.created (announce_session ambient.now between identity room result.value)
  return_value result.value

-- `update`
unfoldable pub patch_session :
    Ambient
    → (World → World)
    → (World → World)
    → ℕ
    → SessionStatus
    → Identity
    → Action StudySessionDto
patch_session ambient others between id next identity = do
  session ← update ambient others id next identity
  announce_session ambient.now between identity session.room_id session
  return_value session
