-- ===== src/Chat/Retry.antt =====
-- Sending a message twice under one key.
use study_room_sdk.Base.{
  ℕ, ◌≡◌, refl, true, false, [], ◌∷◌, ◌++◌, some, arith, ◌==◌, ==_refl, any, find?, find?-any,
  find?-append, any-weaken, ◌&&◌,
}
use study_room_sdk.Domain.{
  Text, Ambient, Identity, ChatMessage, RoomMembership, chat_send, chat_message_created, in_room,
}
use study_room_sdk.Domain.World.{World, IdempotencyOutcome, replayed}
use study_room_sdk.Domain.Wire.{ChatMessageDto}
use study_room_sdk.Service.Monad.{done, actions, quiet, resume, stored, query, ◌>>=◌}
use study_room_sdk.Text.{trim, text_eq_refl}
use study_room_sdk.Database.{insert_message, insert_audit}
use study_room_sdk.Idempotency.{Digest, Options, send_message, finder, is_valid_key}
use study_room_sdk.Idempotency.Replay.{
  record_for, with_record, counted, execute_creates, execute_replays,
}
use study_room_sdk.Rooms.Defs.{membership_in, require_member}
use study_room_sdk.Rooms.Methods.{audit_row}
use study_room_sdk.Chat.{create_message, to_message_dto, replay_message, send_idempotent}

abbrev pub options : ℕ → Identity → Text → Text → Options
options room identity text key = record {
  app_id = identity.app_id;
  user_id = identity.user_id;
  operation = chat_send;
  key = key;
  request = send_message room (trim text);
}

abbrev pub message_of : Ambient → ℕ → Identity → Text → ChatMessage
message_of ambient room identity text = record {
  id = ambient.uuid;
  room_id = room;
  app_id = identity.app_id;
  sender_id = identity.user_id;
  text = trim text;
  sent_at = ambient.now;
}

-- The world with the message and its audit row.
abbrev with_message : Ambient → ℕ → Identity → Text → World → World
with_message ambient room identity text w = record w {
  db = record w.db {
    messages = w.db.messages ++ message_of ambient room identity text ∷ [];
    audit_logs =
        w.db.audit_logs ++ audit_row identity chat_message_created ambient.uuid (in_room room) ∷ [];
  };
}

module _ (digest : Digest) (ambient : Ambient) (room : ℕ) (identity : Identity) (text key : Text)
    (w : World) where
  abbrev pub after_first : World
  after_first = counted (options room identity text key) IdempotencyOutcome.created (
      with_message ambient room identity text
        (with_record (record_for digest ambient (options room identity text key)) w))

  abbrev pub sent : ChatMessageDto
  sent = to_message_dto w.db (message_of ambient room identity text)

  abbrev before_create : World
  before_create = with_record (record_for digest ambient (options room identity text key)) w

  creates :
      any (λ x. x.id == ambient.uuid) w.db.messages ≡ false
      → (create_message ambient room identity (trim text) ambient.uuid >>= λ m.
            query (λ d. to_message_dto d m))
          before_create
        ≡ (done sent, with_message ambient room identity text before_create)
  unfolding actions resume stored create_message insert_message insert_audit to_message_dto
  creates fresh = rw fresh refl

  pub sends :
      {m : RoomMembership} (others : World → World)
      → find? (membership_in identity.app_id room identity.user_id w.db) w.db.memberships ≡ some m
      → is_valid_key key ≡ true
      → any (finder (options room identity text key)) w.db.idempotency_records ≡ false
      → any (λ x. x.id == ambient.uuid) w.db.messages ≡ false
      → send_idempotent digest ambient others room identity text (some key) w
        ≡ (done (record { value = sent; created = true }), after_first)
  unfolding actions resume send_idempotent require_member
  sends others member valid free fresh = rw member (
      execute_creates digest ambient others (options room identity text key) _
        (replay_message identity) w valid free (creates fresh))

  taken :
      any (finder (options room identity text key)) w.db.idempotency_records ≡ false
      → find? (finder (options room identity text key)) after_first.db.idempotency_records
        ≡ some (record_for digest ambient (options room identity text key))
  taken free =
      find?-append _ w.db.idempotency_records _ free
        (ground (arith, ==_refl identity.app_id, ==_refl identity.user_id, text_eq_refl key))

  replays :
      any (λ x. x.id == ambient.uuid) w.db.messages ≡ false
      → replay_message identity ambient.uuid after_first ≡ (done (some sent), after_first)
  unfolding actions replay_message to_message_dto
  replays fresh =
      rw
        (find?-append (λ m. m.id == ambient.uuid && m.app_id == identity.app_id) w.db.messages
          (message_of ambient room identity text)
          (any-weaken _ (λ m. m.id == ambient.uuid) w.db.messages (λ m h. ground arith) fresh)
          (ground arith))
        refl

  pub resends :
      {m : RoomMembership} (later : Ambient)
      → find? (membership_in identity.app_id room identity.user_id w.db) w.db.memberships ≡ some m
      → is_valid_key key ≡ true
      → any (finder (options room identity text key)) w.db.idempotency_records ≡ false
      → any (λ x. x.id == ambient.uuid) w.db.messages ≡ false
      → send_idempotent digest later quiet room identity text (some key) after_first ≡ (
        done (record { value = sent; created = false }),
        counted (options room identity text key) replayed after_first,
      )
  unfolding actions resume send_idempotent require_member
  resends later member valid free fresh = rw member (
      execute_replays digest later quiet (options room identity text key) _
        (replay_message identity) after_first valid
        (find?-any _ after_first.db.idempotency_records (taken free)) (taken free)
        (==_refl (digest (send_message room (trim text)))) (replays fresh))

  -- A member who sends a message under a key that is new, and sends it again, gets the same message
  -- twice: the first call creates it, with the text trimmed, and the second changes no table. The
  -- identifier drawn by the first call is new among the messages.
  pub send_twice :
      {m : RoomMembership} (later : Ambient)
      → find? (membership_in identity.app_id room identity.user_id w.db) w.db.memberships ≡ some m
      → is_valid_key key ≡ true
      → any (finder (options room identity text key)) w.db.idempotency_records ≡ false
      → any (λ x. x.id == ambient.uuid) w.db.messages ≡ false
      → let first = send_idempotent digest ambient quiet room identity text (some key) w in
        let second = send_idempotent digest later quiet room identity text (some key) first.1 in
        (first.0 ≡ done (record { value = sent; created = true }))
        × (second.0 ≡ done (record { value = sent; created = false }))
        × (second.1.db ≡ first.1.db)
        × (first.1.db.messages ≡ w.db.messages ++ message_of ambient room identity text ∷ [])
  send_twice later member valid free fresh =
      rw (sends quiet member valid free fresh)
        (rw (resends later member valid free fresh) (refl, refl, refl, refl))
