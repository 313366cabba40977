-- ===== src/Domain.antt =====
-- The data of the server: the models and enums of server/prisma/schema.prisma, the identity of
-- server/src/domain.ts, and the presence keys that server/src/realtime/presence.service.ts keeps.
-- Identifiers are only compared, so they are numbers; a text is the list of its UTF-16 code units;
-- a time is a number of milliseconds.
pub mod Wire
pub mod World
use study_room_sdk.Base.{ℕ, Bool, true, false, List, Option}

abbrev pub Text : Type 0
Text = List ℕ

-- `ExternalIdentity`
pub record Identity : Type 0 where
  pub user_id : ℕ
  pub app_id : ℕ
  pub display_name : Text
  pub avatar_url : Text
  pub expires_at : ℕ

pub data RoomRole : Type 0 where
  owner member : RoomRole

pub data JoinRequestStatus : Type 0 where
  pending approved rejected cancelled : JoinRequestStatus

pub data SessionStatus : Type 0 where
  running paused finished : SessionStatus

pub data PresenceStatus : Type 0 where
  offline online focusing idle away : PresenceStatus

abbrev pub is_owner : RoomRole → Bool
is_owner owner = true
is_owner member = false

abbrev pub is_pending : JoinRequestStatus → Bool
is_pending pending = true
is_pending _ = false

-- `status IN (RUNNING, PAUSED)`
abbrev pub is_active : SessionStatus → Bool
is_active finished = false
is_active _ = true

abbrev pub is_running : SessionStatus → Bool
is_running running = true
is_running _ = false

abbrev pub same_status : SessionStatus → SessionStatus → Bool
same_status running running = true
same_status paused paused = true
same_status finished finished = true
same_status _ _ = false

pub record Application : Type 0 where
  pub app_id : ℕ
  pub issuer : Text
  pub audience : Text
  pub jwks_uri : Text
  pub enabled : Bool
  pub chat_retention_days : Option ℕ
  pub session_retention_days : Option ℕ

pub record TenantUser : Type 0 where
  pub app_id : ℕ
  pub user_id : ℕ
  pub display_name : Text
  pub avatar_url : Text

pub record Room : Type 0 where
  pub id : ℕ
  pub app_id : ℕ
  pub title : Text
  pub version : ℕ
  pub deleted_at : Option ℕ

pub record RoomMembership : Type 0 where
  pub room_id : ℕ
  pub app_id : ℕ
  pub user_id : ℕ
  pub role : RoomRole
  pub joined_at : ℕ

pub record JoinRequest : Type 0 where
  pub id : ℕ
  pub room_id : ℕ
  pub app_id : ℕ
  pub user_id : ℕ
  pub status : JoinRequestStatus
  pub decided_by : Option ℕ
  pub created_at : ℕ
  pub updated_at : ℕ

pub record StudySession : Type 0 where
  pub id : ℕ
  pub room_id : ℕ
  pub app_id : ℕ
  pub user_id : ℕ
  pub status : SessionStatus
  pub started_at : ℕ
  pub finished_at : Option ℕ
  pub updated_at : ℕ

pub record ChatMessage : Type 0 where
  pub id : ℕ
  pub room_id : ℕ
  pub app_id : ℕ
  pub sender_id : ℕ
  pub text : Text
  pub sent_at : ℕ

pub data AuditAction : Type 0 where
  room_created join_request_approved join_request_rejected member_removed : AuditAction
  owner_transferred room_deleted session_started chat_message_created : AuditAction
  application_created application_updated : AuditAction

-- `UpdateApplicationBodyDto`: a field that is not given stays; a term of retention can be taken away.
pub record ApplicationChange : Type 0 where
  pub issuer : Option Text
  pub audience : Option Text
  pub jwks_uri : Option Text
  pub enabled : Option Bool
  pub chat_retention_days : Option (Option ℕ)
  pub session_retention_days : Option (Option ℕ)

-- The JSON that an audit row carries.
pub data Metadata : Type 0 where
  no_metadata : Metadata
  in_room : ℕ → Metadata
  applicant : ℕ → ℕ → Metadata
  new_owner : ℕ → Metadata
  application_change : ApplicationChange → Metadata

pub record AuditLog : Type 0 where
  pub app_id : ℕ
  pub actor_id : ℕ
  pub action : AuditAction
  pub resource_id : ℕ
  pub metadata : Metadata

-- `IDEMPOTENCY_OPERATIONS`
pub data IdempotencyOperation : Type 0 where
  rooms_create chat_send sessions_start : IdempotencyOperation

pub record IdempotencyRecord : Type 0 where
  pub app_id : ℕ
  pub user_id : ℕ
  pub operation : IdempotencyOperation
  pub key : Text
  pub request_hash : ℕ
  pub resource_id : ℕ
  pub created_at : ℕ

-- The PostgreSQL tables.
pub record Db : Type 0 where
  pub applications : List Application
  pub users : List TenantUser
  pub rooms : List Room
  pub memberships : List RoomMembership
  pub join_requests : List JoinRequest
  pub sessions : List StudySession
  pub messages : List ChatMessage
  pub audit_logs : List AuditLog
  pub idempotency_records : List IdempotencyRecord

-- The JSON under a presence key: what `JSON.stringify({ userId, away })` writes, or anything that
-- the reader cannot use.
pub data PresenceValue : Type 0 where
  presence : ℕ → Bool → PresenceValue
  unreadable : PresenceValue

-- A connection key of Redis with its value and the time at which it expires.
pub record Connection : Type 0 where
  pub app_id : ℕ
  pub room_id : ℕ
  pub socket_id : ℕ
  pub value : PresenceValue
  pub expires_at : ℕ

-- One member of the set under a room's index key.
pub record IndexEntry : Type 0 where
  pub app_id : ℕ
  pub room_id : ℕ
  pub socket_id : ℕ

-- The time at which the index key of a room expires.
pub record IndexExpiry : Type 0 where
  pub app_id : ℕ
  pub room_id : ℕ
  pub expires_at : ℕ

pub record Redis : Type 0 where
  pub connections : List Connection
  pub index : List IndexEntry
  pub index_expiry : List IndexExpiry

-- What a call draws from its surroundings: the clock, and the identifier that `randomUUID` or the
-- default of a new row yields.
pub record Ambient : Type 0 where
  pub now : ℕ
  pub uuid : ℕ

-- The answer to a list request.
pub record Page (A : Type 0) : Type 0 where
  pub items : List A
  pub next_cursor : Option ℕ
