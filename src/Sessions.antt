-- ===== src/Sessions.antt =====
-- server/src/sessions/sessions.service.ts: the life of a study session.
pub mod OneActive
pub mod Moves
use study_room_sdk.Base.{
  ℕ, Bool, true, false, not, ◌&&◌, ◌||◌, List, [], ◌∷◌, Option, none, some, ltb, leb, ◌==◌,
  if◌then◌else◌, find?, any, count, select, update_where, sort_by,
}
use study_room_sdk.Domain.{
  Text, Db, Ambient, Identity, StudySession, SessionStatus, running, paused, finished, is_active,
  same_status, session_started, in_room, sessions_start, Page,
}
use study_room_sdk.Domain.World.{World}
use study_room_sdk.Domain.Wire.{StudySessionDto}
use study_room_sdk.Service.Monad.{
  Outcome, done, thrown, Failure, bad_request, forbidden, not_found, conflict, known_request, p2025,
  message, Action, throw, ◌>>=◌, ◌>>◌, return_value, query, write, or_throw, throw_if, meanwhile,
  transaction, attempt, is_unique_violation,
}
use study_room_sdk.Database.{session_is, insert_session, insert_audit}
use study_room_sdk.Page.{Seek, page, map_page}
use study_room_sdk.Idempotency.{IdempotentResult, Digest, start_session, execute}
use study_room_sdk.Rooms.Defs.{require_member}
use study_room_sdk.Rooms.Methods.{audit_row}

-- `toDto`
unfoldable pub to_session_dto : StudySession → StudySessionDto
to_session_dto s = record {
  id = s.id;
  room_id = s.room_id;
  user_id = s.user_id;
  status = s.status;
  started_at = s.started_at;
  finished_at = s.finished_at;
  updated_at = s.updated_at;
}

abbrev pub new_session : Ambient → ℕ → Identity → ℕ → StudySession
new_session ambient room identity id = record {
  id = id;
  room_id = room;
  app_id = identity.app_id;
  user_id = identity.user_id;
  status = running;
  started_at = ambient.now;
  finished_at = none;
  updated_at = ambient.now;
}

-- `createSession`, in a transaction
unfoldable pub create_session : Ambient → ℕ → Identity → ℕ → Action StudySession
create_session ambient room identity id = do
  s ← write (insert_session (new_session ambient room identity id))
  write (insert_audit (audit_row identity session_started s.id (in_room room)))
  return_value s

abbrev pub already_active : Failure
already_active = conflict (message "An active study session already exists")

-- The `catch` block of `start` and of `startIdempotent`
unfoldable pub explain_conflict : {A : Type 0} → Failure → Action A
explain_conflict e = throw (if is_unique_violation e then already_active else e)

-- `start`
unfoldable pub start : Ambient → ℕ → Identity → Action StudySessionDto
start ambient room identity = do
  require_member room identity
  attempt
      (transaction (create_session ambient room identity ambient.uuid) >>= λ s.
        return_value (to_session_dto s))
      explain_conflict

-- The `replay` that `startIdempotent` hands over
unfoldable pub replay_session : Identity → ℕ → Action (Option StudySessionDto)
replay_session identity id = query λ d.
    elim (find? (λ s. s.id == id && s.app_id == identity.app_id) d.sessions) [
      | none ↦ none
      | some s ↦ some (to_session_dto s)
    ]

-- `startIdempotent`
unfoldable pub start_idempotent :
    Digest
    → Ambient
    → (World → World)
    → ℕ
    → Identity
    → Option Text
    → Action (IdempotentResult StudySessionDto)
start_idempotent digest ambient others room identity none = do
  value ← start ambient room identity
  return_value (record { value = value; created = true })
start_idempotent digest ambient others room identity (some key) = do
  require_member room identity
  attempt
      (execute digest ambient others
        (record {
          app_id = identity.app_id;
          user_id = identity.user_id;
          operation = sessions_start;
          key = key;
          request = start_session room;
        })
        (λ id. do s ← create_session ambient room identity id; return_value (to_session_dto s))
        (replay_session identity))
      explain_conflict

-- `allowed.includes(next)`
unfoldable pub is_allowed : SessionStatus → SessionStatus → Bool
is_allowed running paused = true
is_allowed running finished = true
is_allowed paused running = true
is_allowed paused finished = true
is_allowed _ _ = false

abbrev pub finish_time : ℕ → SessionStatus → Option ℕ
finish_time now finished = some now
finish_time now _ = none

abbrev pub moved : ℕ → SessionStatus → StudySession → StudySession
moved now next s = record s { status = next; finished_at = finish_time now next; updated_at = now }

abbrev pub unmoved : ℕ → SessionStatus → StudySession → Bool
unmoved id status s = s.id == id && same_status s.status status

-- `updateMany` where the status is still the one that was read: the number of rows changed
unfoldable pub move_where : ℕ → ℕ → SessionStatus → SessionStatus → Db → Outcome (ℕ × Db)
move_where now id from next d = done (
  count (unmoved id from) d.sessions,
  record d { sessions = update_where (unmoved id from) (moved now next) d.sessions },
)

-- The checks of `update`
unfoldable pub movable_session : ℕ → SessionStatus → Identity → Action StudySession
movable_session id next identity = do
  found ← query (λ d. find? (λ s. s.id == id && s.app_id == identity.app_id) d.sessions)
  s ← or_throw found (not_found (message "Study session not found"))
  throw_if (not (s.user_id == identity.user_id))
      (forbidden (message "Only the session creator can control this session"))
  throw_if (not (is_allowed s.status next)) (bad_request (message "Cannot move session"))
  return_value s

-- The writing part of the transaction of `update`, from the status that was read
unfoldable pub move_session : ℕ → ℕ → SessionStatus → SessionStatus → Action StudySession
move_session now id from next = do
  changed ← write (move_where now id from next)
  throw_if (not (changed == 1)) (conflict (message "Study session changed concurrently"))
  after ← query (λ d. find? (session_is id) d.sessions)
  or_throw after (known_request p2025)

-- `update`. The reads of its transaction take no lock: `others` runs between the read of the session
-- and the conditional write, and a rollback does not concern it.
unfoldable pub update :
    Ambient → (World → World) → ℕ → SessionStatus → Identity → Action StudySessionDto
update ambient others id next identity = do
  s ← movable_session id next identity
  meanwhile others
  after ← transaction (move_session ambient.now s.id s.status next)
  return_value (to_session_dto after)

-- `updatedAt` descending, then `id` descending
abbrev pub latest_first : StudySession → StudySession → Bool
latest_first a b = ltb b.updated_at a.updated_at || (a.updated_at == b.updated_at && leb b.id a.id)

-- `listActive`
unfoldable pub list_active : Seek → ℕ → Identity → Option ℕ → ℕ → Action (Page StudySessionDto)
list_active seek room identity cursor limit = do
  require_member room identity
  query λ d. map_page to_session_dto (
      page seek (λ s. s.id) cursor limit
        (sort_by latest_first (
          select (λ s. s.app_id == identity.app_id && s.room_id == room && is_active s.status)
            d.sessions)))
