-- ===== src/Domain/Wire.antt =====
-- The wire types of server/src/generated/contract-types.ts that server/src/domain.ts names, and
-- the realtime events with their payloads.
use study_room_sdk.Base.{ℕ, Bool, List, Option}
use study_room_sdk.Domain.{Text, RoomRole, JoinRequestStatus, SessionStatus, PresenceStatus}

-- `MemberWire`
pub record MemberDto : Type 0 where
  pub id : ℕ
  pub display_name : Text
  pub avatar_url : Text
  pub role : RoomRole
  pub status : PresenceStatus

-- `RoomWire`
pub record RoomDto : Type 0 where
  pub id : ℕ
  pub app_id : ℕ
  pub title : Text
  pub version : ℕ
  pub members : List MemberDto

-- `JoinRequestWire`
pub record JoinRequestDto : Type 0 where
  pub id : ℕ
  pub room_id : ℕ
  pub user_id : ℕ
  pub display_name : Text
  pub status : JoinRequestStatus
  pub created_at : ℕ
  pub updated_at : ℕ

-- `StudySessionWire`
pub record StudySessionDto : Type 0 where
  pub id : ℕ
  pub room_id : ℕ
  pub user_id : ℕ
  pub status : SessionStatus
  pub started_at : ℕ
  pub finished_at : Option ℕ
  pub updated_at : ℕ

-- `ChatMessageWire`
pub record ChatMessageDto : Type 0 where
  pub id : ℕ
  pub room_id : ℕ
  pub sender_id : ℕ
  pub sender_name : Text
  pub text : Text
  pub sent_at : ℕ

-- The events of `RealtimeEnvelopeWire`, by their `type`, with the payload of each.
pub data EventPayload : Type 0 where
  room_state : RoomDto → EventPayload
  membership_updated : ℕ → Bool → EventPayload
  join_request_created join_request_updated : JoinRequestDto → EventPayload
  member_presence_updated : MemberDto → EventPayload
  chat_message_created : ChatMessageDto → EventPayload
  session_updated : StudySessionDto → EventPayload

-- `roomTopic`, `userTopic` and `appTopic` of the publisher.
pub data Topic : Type 0 where
  room_topic : ℕ → ℕ → Topic
  user_topic : ℕ → ℕ → Topic
  app_topic : ℕ → Topic

-- What the publisher hands on: an envelope to the sockets of a topic, or the order that a user's
-- sockets leave a room.
pub data Emission : Type 0 where
  event : Topic → EventPayload → ℕ → Option ℕ → Emission
  evict : ℕ → ℕ → ℕ → Emission
