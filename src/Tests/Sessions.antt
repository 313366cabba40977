-- ===== src/Tests/Sessions.antt =====
-- The theorems on study sessions and messages at a room of three.
use study_room_sdk.Base.{
  ℕ, ◌≡◌, ◌≤◌, refl, true, false, [], ◌∷◌, none, some, arith, find?, any, all, count,
}
use study_room_sdk.Domain.{StudySession, Text, paused, finished}
use study_room_sdk.Domain.World.{World}
use study_room_sdk.Service.Monad.{done, thrown, conflict, message, quiet}
use study_room_sdk.Database.{session_is, active_of}
use study_room_sdk.Idempotency.{is_valid_key, is_key_character}
use study_room_sdk.Sessions.{update, is_allowed, moved, to_session_dto}
use study_room_sdk.Sessions.Moves.{IsMoved, pause, update_moves, update_conflict}
use study_room_sdk.Sessions.OneActive.{starts, updates, History, nothing, call, run, run-OneActive}
use study_room_sdk.Chat.{send_idempotent}
use study_room_sdk.Chat.Retry.{message_of, sent, send_twice}
use study_room_sdk.Tests.Data.{ann, bob, at_noon, at_one, bob_studies, world, digest, client_key}

-- Bob starts a second session while he ends the first.
abbrev restart : History
restart =
    call at_noon bob (updates 30 finished) (call at_noon bob (starts 10 none) nothing nothing)
      (call at_one bob (starts 10 (some client_key)) nothing nothing)

world_has_one_active : (room user : ℕ) → count (active_of room user) world.db.sessions ≤ 1
unfolding count
world_has_one_active room user = ground arith

run-OneActive_example : count (active_of 10 2) (run digest restart world).db.sessions ≤ 1
run-OneActive_example = run-OneActive digest restart world world_has_one_active 10 2

update_moves_example :
    let (answer, v) = update at_noon quiet 30 paused bob world in
    (u : StudySession) × (answer ≡ done (to_session_dto u))
    × (find? (session_is 30) v.db.sessions ≡ some u)
    × IsMoved 43200000 paused bob_studies u
    × (find? (session_is 31) v.db.sessions ≡ none)
unfolding find? count
update_moves_example =
    update_moves at_noon quiet 30 paused bob world refl refl pause refl refl refl 31 (omega arith)

-- Bob's other device ends the session between the read and the write.
abbrev ended : World → World
ended w = record w { db = record w.db { sessions = moved 43200000 finished bob_studies ∷ [] } }

update_conflict_example :
    update at_noon ended 30 paused bob world
    ≡ (thrown (conflict (message "Study session changed concurrently")), ended world)
unfolding find? any is_allowed
update_conflict_example = update_conflict at_noon ended 30 paused bob world refl refl refl refl

-- A text with blanks around it
abbrev hello : Text
hello = 32 ∷ b'h' ∷ b'i' ∷ 32 ∷ []

send_twice_example :
    let first = send_idempotent digest at_noon quiet 10 ann hello (some client_key) world in
    let second = send_idempotent digest at_one quiet 10 ann hello (some client_key) first.1 in
    let dto = sent digest at_noon 10 ann hello client_key world in
    (first.0 ≡ done (record { value = dto; created = true }))
    × (second.0 ≡ done (record { value = dto; created = false }))
    × (second.1.db ≡ first.1.db)
    × (first.1.db.messages ≡ message_of at_noon 10 ann hello ∷ [])
unfolding find? any all is_valid_key is_key_character
send_twice_example =
    send_twice digest at_noon 10 ann hello client_key world at_one refl refl refl refl
