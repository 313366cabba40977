-- ===== src/Realtime/Envelope.antt =====
-- The envelope of server/src/realtime/realtime.publisher.ts around a payload.
use study_room_sdk.Base.{ℕ, String, ◌≡◌, ◌∙◌, sym, ap, refl, Option, if◌then◌else◌}
use text.Mathlib.Text.{◌==◌}
use study_room_sdk.Domain.{Ambient}
use study_room_sdk.Domain.Wire.{
  EventPayload, room_state, membership_updated, join_request_created, join_request_updated,
  member_presence_updated, chat_message_created, session_updated, RoomDto,
}

-- `realtimeSchemaVersion`
abbrev pub realtime_schema_version : ℕ
realtime_schema_version = 1

-- The `type` of each event
unfoldable pub event_type : EventPayload → String
event_type (room_state r) = "room.state"
event_type (membership_updated room active) = "membership.updated"
event_type (join_request_created q) = "join-request.created"
event_type (join_request_updated q) = "join-request.updated"
event_type (member_presence_updated m) = "member.presence.updated"
event_type (chat_message_created m) = "chat.message.created"
event_type (session_updated s) = "session.updated"

pub record Envelope : Type 0 where
  pub schema_version : ℕ
  pub event_id : ℕ
  pub type : String
  pub room_id : ℕ
  pub room_version : Option ℕ
  pub occurred_at : ℕ
  pub payload : EventPayload

-- `toRoomWire`
unfoldable pub to_room_wire : RoomDto → RoomDto
to_room_wire value = value

-- `toRealtimeEnvelopeWire`
unfoldable pub to_realtime_envelope_wire : Envelope → Envelope
to_realtime_envelope_wire value = value

-- `envelope`
unfoldable pub envelope : Ambient → EventPayload → ℕ → Option ℕ → Envelope
unfolding event_type to_realtime_envelope_wire
envelope ambient payload room version = to_realtime_envelope_wire (record {
  schema_version = realtime_schema_version;
  event_id = ambient.uuid;
  type = event_type payload;
  room_id = room;
  room_version = version;
  occurred_at = ambient.now;
  payload = payload;
})

-- The form that the contract gives the payload of an event
abbrev pub form_of : EventPayload → ℕ
form_of (room_state r) = 0
form_of (membership_updated room active) = 1
form_of (join_request_created q) = 2
form_of (join_request_updated q) = 3
form_of (member_presence_updated m) = 4
form_of (chat_message_created m) = 5
form_of (session_updated s) = 6

form_from : String → ℕ
form_from t =
    if t == "room.state"
    then 0
    else if t == "membership.updated"
    then 1
    else if t == "join-request.created"
    then 2
    else if t == "join-request.updated"
    then 3
    else if t == "member.presence.updated"
    then 4
    else if t == "chat.message.created"
    then 5
    else 6

form_from-event_type : (p : EventPayload) → form_from (event_type p) ≡ form_of p
unfolding form_from event_type
form_from-event_type (room_state r) = refl
form_from-event_type (membership_updated room active) = refl
form_from-event_type (join_request_created q) = refl
form_from-event_type (join_request_updated q) = refl
form_from-event_type (member_presence_updated m) = refl
form_from-event_type (chat_message_created m) = refl
form_from-event_type (session_updated s) = refl

-- A client that looks at the type of an envelope knows the form of its payload.
pub type_tells :
    (a b : Ambient) (p q : EventPayload) (r s : ℕ) (v w : Option ℕ)
    → (envelope a p r v).type ≡ (envelope b q s w).type
    → form_of p ≡ form_of q
unfolding envelope
type_tells a b p q r s v w h =
    sym (form_from-event_type p) ∙ ap form_from h ∙ form_from-event_type q
