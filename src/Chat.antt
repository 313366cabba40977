-- ===== src/Chat.antt =====
-- server/src/chat/chat.service.ts: sending messages to a room and reading its history.
pub mod Retry
use study_room_sdk.Base.{
  ℕ, Bool, true, false, not, ◌&&◌, ◌||◌, List, [], ◌∷◌, map, reverse, Option, none, some, ltb, leb,
  ◌==◌, if◌then◌else◌, find?, any, select, sort_by,
}
use study_room_sdk.Domain.{
  Text, Db, Ambient, Identity, ChatMessage, chat_message_created, in_room, chat_send, Page,
}
use study_room_sdk.Domain.World.{World}
use study_room_sdk.Domain.Wire.{ChatMessageDto}
use study_room_sdk.Service.Monad.{
  Outcome, done, thrown, Failure, Action, ◌>>=◌, ◌>>◌, return_value, query, write, or_throw,
  transaction,
}
use study_room_sdk.Text.{trim}
use study_room_sdk.Database.{insert_message, insert_audit}
use study_room_sdk.Page.{Seek, page}
use study_room_sdk.Idempotency.{IdempotentResult, Digest, send_message, execute}
use study_room_sdk.Rooms.Defs.{require_member, display_name_of, user_of}
use study_room_sdk.Rooms.Methods.{audit_row}

-- `toDto`, of a message with its sender
unfoldable pub to_message_dto : Db → ChatMessage → ChatMessageDto
to_message_dto d m = record {
  id = m.id;
  room_id = m.room_id;
  sender_id = m.sender_id;
  sender_name = display_name_of (user_of m.app_id m.sender_id d);
  text = m.text;
  sent_at = m.sent_at;
}

-- `createMessage`, in a transaction
unfoldable pub create_message : Ambient → ℕ → Identity → Text → ℕ → Action ChatMessage
create_message ambient room identity text id = do
  m ← write (
      insert_message (record {
        id = id;
        room_id = room;
        app_id = identity.app_id;
        sender_id = identity.user_id;
        text = text;
        sent_at = ambient.now;
      }))
  write (insert_audit (audit_row identity chat_message_created m.id (in_room room)))
  return_value m

-- `send`
unfoldable pub send : Ambient → ℕ → Identity → Text → Action ChatMessageDto
send ambient room identity text = do
  require_member room identity
  m ← transaction (create_message ambient room identity (trim text) ambient.uuid)
  query (λ d. to_message_dto d m)

-- The `replay` that `sendIdempotent` hands over
unfoldable pub replay_message : Identity → ℕ → Action (Option ChatMessageDto)
replay_message identity id = query λ d.
    elim (find? (λ m. m.id == id && m.app_id == identity.app_id) d.messages) [
      | none ↦ none
      | some m ↦ some (to_message_dto d m)
    ]

-- `sendIdempotent`
unfoldable pub send_idempotent :
    Digest
    → Ambient
    → (World → World)
    → ℕ
    → Identity
    → Text
    → Option Text
    → Action (IdempotentResult ChatMessageDto)
send_idempotent digest ambient others room identity text none = do
  value ← send ambient room identity text
  return_value (record { value = value; created = true })
send_idempotent digest ambient others room identity text (some key) = do
  require_member room identity
  execute digest ambient others
      (record {
        app_id = identity.app_id;
        user_id = identity.user_id;
        operation = chat_send;
        key = key;
        request = send_message room (trim text);
      })
      (λ id. do
        m ← create_message ambient room identity (trim text) id
        query (λ d. to_message_dto d m))
      (replay_message identity)

-- `sentAt` descending, then `id` descending
abbrev pub latest_first : ChatMessage → ChatMessage → Bool
latest_first a b = ltb b.sent_at a.sent_at || (a.sent_at == b.sent_at && leb b.id a.id)

-- `history`: the latest messages, the oldest of them first. The cursor is that of the page before
-- it is turned round.
unfoldable pub history : Seek → ℕ → Identity → Option ℕ → ℕ → Action (Page ChatMessageDto)
history seek room identity cursor limit = do
  require_member room identity
  query λ d.
      let found =
        page seek (λ m. m.id) cursor limit
          (sort_by latest_first
            (select (λ m. m.room_id == room && m.app_id == identity.app_id) d.messages)) in
      record {
        items = map (to_message_dto d) (reverse found.items);
        next_cursor = found.next_cursor;
      }
