-- ===== src/Tests/Services.antt =====
-- The theorems on keyed creates, pages, limits, the clean-up, presence and what is published.
use study_room_sdk.Base.{
  ℕ, ◌≡◌, ◌≢◌, refl, true, false, List, [], ◌∷◌, ◌++◌, Option, none, some, arith, ◌==◌, ltb, ◌+◌,
  if◌then◌else◌, ==_refl, find?, any, all, count, select, update_where, delete_where,
}
use study_room_sdk.Domain.{ApplicationChange, Text, Db, chat_send, ChatMessage, offline}
use study_room_sdk.Domain.World.{World}
use study_room_sdk.Domain.Wire.{chat_message_created, room_topic, event}
use study_room_sdk.Service.Monad.{
  done, thrown, fault, Action, actions, resume, stored, rolled_back, quiet,
}
use study_room_sdk.Idempotency.{execute, is_valid_key, is_key_character}
use study_room_sdk.Idempotency.Replay.{execute_fails}
use study_room_sdk.Chat.Retry.{options, sent}
use study_room_sdk.Page.{Seek}
use study_room_sdk.Page.Walk.{Seeks, distinct, walk, pages_give_all}
use study_room_sdk.RateLimit.{Kind, user}
use study_room_sdk.RateLimit.Limit.{Request, let_through, window_limit}
use study_room_sdk.Retention.{Clock, clean}
use study_room_sdk.Retention.Expiry.{due_message, due_session, SameOtherwise, clean_deletes_expired}
use study_room_sdk.Presence.{status_of, register, remove_user, change_redis}
use study_room_sdk.Presence.Status.{described, status_described}
use study_room_sdk.Presence.Connections.{register_shows}
use study_room_sdk.Api.Chat.{post_message}
use study_room_sdk.Api.Rooms.{delete_room}
use study_room_sdk.Api.Announce.{post_message_told_once, dismissals, delete_room_tells}
use study_room_sdk.Rooms.Defs.{require_owner, require_member}
use study_room_sdk.Rooms.Methods.{delete, deletion, remove_users}
use study_room_sdk.Database.{
  room_transaction, update_room, insert_audit, commit, has_exactly_one_owner,
}
use study_room_sdk.Presence.Keys.{m_get, s_members, del, s_rem}
use study_room_sdk.Applications.{
  Applications, Policy, get, on_change, update, row_of, refusal_of, with_change,
}
use study_room_sdk.Applications.Cache.{get_after_change, get_after_update}
use study_room_sdk.Tests.Data.{application, ann, at_noon, at_one, tables, world, digest, client_key}

abbrev hi : Text
hi = b'h' ∷ b'i' ∷ []

-- A create that fails.
abbrev failing : ℕ → Action ℕ
failing id w = (thrown (fault "down"), w)

abbrev no_replay : ℕ → Action (Option ℕ)
no_replay id w = (done none, w)

execute_fails_example :
    execute digest at_noon quiet (options 10 ann hi client_key) failing no_replay world
    ≡ (thrown (fault "down"), world)
unfolding find? any all is_valid_key is_key_character
execute_fails_example =
    execute_fails digest at_noon quiet (options 10 ann hi client_key) failing no_replay world refl
      refl refl refl

-- The key was used for a text of another length.
abbrev used : World
used = record world {
  db = record tables {
    idempotency_records =
        record {
          app_id = 7;
          user_id = 1;
          operation = chat_send;
          key = client_key;
          request_hash = 34;
          resource_id = 60;
          created_at = 5;
        }
        ∷ [];
  };
}

-- The rows after the first one with the key.
seek_row : {A : Type 0} → (A → ℕ) → ℕ → List A → List A
seek_row key c [] = []
seek_row key c (x ∷ xs) = if key x == c then xs else seek_row key c xs

abbrev seek : Seek
seek A key c rows = seek_row key c rows

seek_after :
    {A : Type 0} (key : A → ℕ) (xs : List A) (x : A) (ys : List A)
    → any (λ y. key y == key x) xs ≡ false
    → seek_row key (key x) (xs ++ x ∷ ys) ≡ ys
unfolding seek_row any
seek_after key [] x ys h = rw (==_refl (key x)) refl
seek_after key (z ∷ zs) x ys h = ground (arith, seek_after key zs x ys)

seek-Seeks : Seeks seek
seek-Seeks = record { after = seek_after }

pages_give_all_example :
    walk seek (λ (n : ℕ). n) 2 (1 ∷ 2 ∷ 3 ∷ 4 ∷ 5 ∷ []) 5 none ≡ 1 ∷ 2 ∷ 3 ∷ 4 ∷ 5 ∷ []
unfolding distinct any
pages_give_all_example =
    pages_give_all seek (λ (n : ℕ). n) 2 (1 ∷ 2 ∷ 3 ∷ 4 ∷ 5 ∷ []) seek-Seeks refl

abbrev request_at : ℕ → ℕ → Request
request_at client t = record { kind = user; identity = client; at = t }

-- The first client asks three times in a minute, another one in between.
abbrev requests : List Request
requests = request_at 1 60000 ∷ request_at 2 61000 ∷ request_at 1 62000 ∷ request_at 1 119999 ∷ []

abbrev two_each : Kind → ℕ
two_each kind = 2

window_limit_example : let_through two_each user 1 requests [] ≡ 2
unfolding find? all count
window_limit_example = window_limit two_each user 1 1 requests [] refl refl

abbrev old_message : ChatMessage
old_message = record { id = 40; room_id = 10; app_id = 7; sender_id = 1; text = hi; sent_at = 1 }

abbrev with_old_message : Db
with_old_message = record tables { messages = old_message ∷ [] }

abbrev at_thirty_days : Clock
at_thirty_days app = (2592000003, 2592000004)

clean_deletes_expired_example :
    ((clean 2592000002 at_thirty_days true with_old_message).messages
      ≡ delete_where (due_message at_thirty_days tables.applications) (old_message ∷ []))
    × ((clean 2592000002 at_thirty_days true with_old_message).sessions
        ≡ delete_where (due_session at_thirty_days tables.applications) tables.sessions)
    × ((clean 2592000002 at_thirty_days true with_old_message).idempotency_records
        ≡ delete_where (λ r. ltb (r.created_at + 86400000) 2592000002) [])
    × SameOtherwise (clean 2592000002 at_thirty_days true with_old_message) with_old_message
    × (clean 2592000002 at_thirty_days false with_old_message ≡ with_old_message)
clean_deletes_expired_example = clean_deletes_expired 2592000002 at_thirty_days with_old_message

status_described_example : status_of 43200000 7 10 2 world ≡ described 43200000 7 10 2 world
status_described_example = status_described 43200000 7 10 2 world

register_shows_example :
    status_of 43200001 7 10 1 (register 60 43200000 7 10 1 51 world).1 ≢ offline
register_shows_example = register_shows 60 43200000 7 10 1 51 43200001 world (omega arith)

post_message_told_once_example :
    let first = post_message digest at_noon quiet 10 ann hi (some client_key) world in
    let second = post_message digest at_one quiet 10 ann hi (some client_key) first.1 in
    let dto = sent digest at_noon 10 ann hi client_key world in
    (first.0 ≡ done dto)
    × (second.0 ≡ done dto)
    × (second.1.emissions ≡ event (room_topic 7 10) (chat_message_created dto) 10 none ∷ [])
unfolding find? any all is_valid_key is_key_character
post_message_told_once_example =
    post_message_told_once digest at_noon at_one 10 ann hi client_key world refl refl refl refl

-- What `delete` leaves of the world
abbrev deleted : World
deleted = (delete at_noon quiet 10 ann world).1

delete_room_tells_example :
    delete_room at_noon quiet 10 ann world
    ≡ (done tt, record deleted { emissions = dismissals 7 10 4 (1 ∷ 2 ∷ []) ++ deleted.emissions })
unfolding actions resume stored rolled_back delete require_owner require_member deletion
    room_transaction update_room insert_audit commit has_exactly_one_owner remove_users remove_user
    change_redis m_get s_members del s_rem find? any count select update_where delete_where
delete_room_tells_example = delete_room_tells at_noon quiet 10 ann world deleted (1 ∷ 2 ∷ []) 4 refl

-- The application is in the cache as it was before it was enabled.
abbrev applications : Applications
applications = record {
  rows = application ∷ [];
  cache = record { value = record application { enabled = false }; expires_at = 90000000 } ∷ [];
  audit_logs = [];
  published = [];
}

get_after_change_example :
    let (first, t) = get 43200000 7 (on_change 7 applications) in
    let (second, u) = get 43499999 7 (record t { rows = [] }) in
    (first ≡ some application) × (second ≡ some application)
unfolding find?
get_after_change_example = get_after_change 43200000 43499999 7 applications [] refl (omega arith)

-- The application is switched off.
abbrev switched_off : ApplicationChange
switched_off = record {
  issuer = none;
  audience = none;
  jwks_uri = none;
  enabled = some false;
  chat_retention_days = none;
  session_retention_days = some (some 5);
}

abbrev any_address : Policy
any_address uri = none

get_after_update_example :
    let (answer, t) = update any_address 7 1 switched_off applications in
    (answer ≡ done (with_change switched_off application))
    × ((get 43200000 7 t).0 ≡ some (with_change switched_off application))
    × (find? (row_of 8) t.rows ≡ none)
unfolding find? refusal_of
get_after_update_example =
    get_after_update any_address 43200000 7 1 8 switched_off applications refl refl refl
