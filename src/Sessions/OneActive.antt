-- ===== src/Sessions/OneActive.antt =====
-- A user has at most one active session in a room, whatever calls run in whatever order.
use study_room_sdk.Base.{
  ℕ, ◌≤◌, ◌≡◌, true, Option, none, some, arith, count, count-append_one, count-of_none,
  count-update_where_le,
}
use study_room_sdk.Domain.{
  Db, Ambient, Identity, Text, StudySession, AuditLog, IdempotencyRecord, IdempotencyOperation,
  SessionStatus,
}
use study_room_sdk.Domain.World.{World}
use study_room_sdk.Service.Monad.{
  Outcome, done, thrown, Failure, Action, actions, resume, write, rolled_back, transaction,
}
use study_room_sdk.Service.Keeps.{
  Keeps, bind-Keeps, bind-Keeps_post, then-Keeps, or_throw-Keeps, attempt-Keeps, plain-Keeps,
  query-Keeps, return_value-Keeps, throw_if-Keeps, throw-Keeps, meanwhile-Keeps,
}
use study_room_sdk.Database.{active_of, insert_session, insert_audit, insert_record}
use study_room_sdk.Domain.World.{IdempotencyOutcome}
use study_room_sdk.Idempotency.{Digest, count_request}
use study_room_sdk.Idempotency.Invariant.{execute-Keeps}
use study_room_sdk.Rooms.OneOwner.{after, stored-db}
use study_room_sdk.Rooms.Defs.{require_member}
use study_room_sdk.Sessions.{
  create_session, start, start_idempotent, is_allowed, moved, unmoved, move_where, move_session,
  replay_session, movable_session, update, explain_conflict,
}

abbrev pub OneActive : World → Type 0
OneActive w = (room user : ℕ) → count (active_of room user) w.db.sessions ≤ 1

abbrev FewActive : Db → Type 0
FewActive d = (room user : ℕ) → count (active_of room user) d.sessions ≤ 1

insert_session-FewActive :
    (s : StudySession) (d : Db) → FewActive d → FewActive (after d (insert_session s d))
unfolding insert_session
insert_session-FewActive s d h room user = ground (
  arith,
  h room user,
  count-append_one (active_of room user) d.sessions s,
  count-of_none (active_of s.room_id s.user_id) d.sessions,
)

move_where-FewActive :
    (now id : ℕ) (from next : SessionStatus) (d : Db)
    → is_allowed from next ≡ true
    → FewActive d
    → FewActive (after d (move_where now id from next d))
unfolding move_where is_allowed
move_where-FewActive now id from next d allowed h room user = ground (
  arith,
  h room user,
  count-update_where_le (active_of room user) (unmoved id from) (moved now next) d.sessions
      (λ s e k. was_active now id from next room user s allowed e k),
)
  where
    was_active :
        (now id : ℕ) (from next : SessionStatus) (room user : ℕ) (s : StudySession)
        → is_allowed from next ≡ true
        → unmoved id from s ≡ true
        → active_of room user (moved now next s) ≡ true
        → active_of room user s ≡ true
    was_active now id from next room user s a e k = ground arith

write-OneActive :
    {A : Type 0} (f : Db → Outcome (A × Db))
    → ((d : Db) → FewActive d → FewActive (after d (f d)))
    → Keeps OneActive (write f)
unfolding write
write-OneActive f k = plain-Keeps λ w h room user. rw (stored-db w (f w.db)) (k w.db h room user)

rolled_back-OneActive :
    {A : Type 0} (w : World) (r : Outcome A × World)
    → OneActive w
    → OneActive r.1
    → OneActive (rolled_back w r).1
unfolding rolled_back
rolled_back-OneActive w (done a, v) h k = k
rolled_back-OneActive w (thrown e, v) h k = h

transaction-OneActive :
    {A : Type 0} {m : Action A} → Keeps OneActive m → Keeps OneActive (transaction m)
unfolding transaction
transaction-OneActive {m} km = plain-Keeps λ w h. rolled_back-OneActive w (m w) h (km.keeps w h)

audit-OneActive : (a : AuditLog) → Keeps OneActive (write (insert_audit a))
unfolding insert_audit
audit-OneActive a = write-OneActive (insert_audit a) (λ d h. h)

create_session-OneActive :
    (ambient : Ambient) (room : ℕ) (identity : Identity) (id : ℕ)
    → Keeps OneActive (create_session ambient room identity id)
unfolding create_session
create_session-OneActive ambient room identity id =
    bind-Keeps (write-OneActive (insert_session _) (insert_session-FewActive _))
      λ s. then-Keeps (audit-OneActive _) (return_value-Keeps s)

require_member-OneActive :
    (room : ℕ) (identity : Identity) → Keeps OneActive (require_member room identity)
unfolding require_member
require_member-OneActive room identity = bind-Keeps (query-Keeps _) λ o. or_throw-Keeps o _

explain_conflict-OneActive :
    {A : Type 0} (e : Failure) → Keeps OneActive (explain_conflict {A = A} e)
unfolding explain_conflict
explain_conflict-OneActive e = throw-Keeps _

start-OneActive :
    (ambient : Ambient) (room : ℕ) (identity : Identity)
    → Keeps OneActive (start ambient room identity)
unfolding start
start-OneActive ambient room identity = then-Keeps (require_member-OneActive room identity) (
    attempt-Keeps
      (bind-Keeps
        (transaction-OneActive (create_session-OneActive ambient room identity ambient.uuid))
        λ s. return_value-Keeps _)
      explain_conflict-OneActive)

movable_session_lem :
    (id : ℕ) (next : SessionStatus) (identity : Identity) (w : World) (s : StudySession) (v : World)
    → movable_session id next identity w ≡ (done s, v)
    → is_allowed s.status next ≡ true
unfolding movable_session actions resume
movable_session_lem id next identity w s v e = ground arith

record-OneActive : (r : IdempotencyRecord) → Keeps OneActive (write (insert_record r))
unfolding insert_record
record-OneActive r = write-OneActive (insert_record r) (λ d h. ground (arith))

count_request-OneActive :
    (operation : IdempotencyOperation) (outcome : IdempotencyOutcome)
    → Keeps OneActive (count_request operation outcome)
unfolding count_request
count_request-OneActive operation outcome = plain-Keeps λ w h. h

replay_session-OneActive :
    (identity : Identity) (id : ℕ) → Keeps OneActive (replay_session identity id)
unfolding replay_session
replay_session-OneActive identity id = query-Keeps _

module _ (ambient : Ambient) (others : World → World)
    (kept : (w : World) → OneActive w → OneActive (others w)) where
  pub start_idempotent-OneActive :
      (digest : Digest) (room : ℕ) (identity : Identity) (key : Option Text)
      → Keeps OneActive (start_idempotent digest ambient others room identity key)
  unfolding start_idempotent
  start_idempotent-OneActive digest room identity none =
      bind-Keeps (start-OneActive ambient room identity) λ v. return_value-Keeps _
  start_idempotent-OneActive digest room identity (some key) =
      then-Keeps (require_member-OneActive room identity) (
        attempt-Keeps
          (execute-Keeps OneActive count_request-OneActive record-OneActive
            (λ B m. transaction-OneActive) digest ambient others kept _ _ _
            (λ id.
              bind-Keeps (create_session-OneActive ambient room identity id)
                λ s. return_value-Keeps _)
            (replay_session-OneActive identity))
          explain_conflict-OneActive)

  move_session-OneActive :
      (now id : ℕ) (from next : SessionStatus)
      → is_allowed from next ≡ true
      → Keeps OneActive (move_session now id from next)
  unfolding move_session
  move_session-OneActive now id from next allowed =
      bind-Keeps
        (write-OneActive (move_where now id from next)
          (λ d. move_where-FewActive now id from next d allowed))
        λ changed.
          then-Keeps (throw_if-Keeps _ _)
            (bind-Keeps (query-Keeps _) λ found. or_throw-Keeps found _)

  movable_session-OneActive :
      (id : ℕ) (next : SessionStatus) (identity : Identity)
      → Keeps OneActive (movable_session id next identity)
  unfolding movable_session
  movable_session-OneActive id next identity = bind-Keeps (query-Keeps _) λ found.
      bind-Keeps (or_throw-Keeps found _) λ s.
        then-Keeps (throw_if-Keeps _ _) (then-Keeps (throw_if-Keeps _ _) (return_value-Keeps s))

  pub update-OneActive :
      (id : ℕ) (next : SessionStatus) (identity : Identity)
      → Keeps OneActive (update ambient others id next identity)
  unfolding update
  update-OneActive id next identity =
      bind-Keeps_post (λ s. is_allowed s.status next ≡ true) (movable_session_lem id next identity)
        (movable_session-OneActive id next identity)
        λ s allowed. then-Keeps (meanwhile-Keeps others kept) (
          bind-Keeps
            (transaction-OneActive (move_session-OneActive ambient.now s.id s.status next allowed))
            λ after. return_value-Keeps _)

-- The calls on sessions: to start one, with a key or without, and to change its status.
pub data SessionCall : Type 0 where
  starts : ℕ → Option Text → SessionCall
  updates : ℕ → SessionStatus → SessionCall

abbrev ignored : {A : Type 0} → Outcome A × World → World
ignored r = r.1

pub handle : Digest → Ambient → (World → World) → Identity → SessionCall → World → World
handle digest ambient others identity (starts room key) w =
    ignored (start_idempotent digest ambient others room identity key w)
handle digest ambient others identity (updates id next) w =
    ignored (update ambient others id next identity w)

-- A history: each call, the history that runs while it awaits, and the history that follows.
pub data History : Type 0 where
  nothing : History
  call : Ambient → Identity → SessionCall → History → History → History

pub run : Digest → History → World → World
run digest nothing w = w
run digest (call ambient identity c inside rest) w =
    run digest rest (handle digest ambient (run digest inside) identity c w)

handle-OneActive :
    (digest : Digest) (ambient : Ambient) (others : World → World) (identity : Identity)
    (c : SessionCall) (w : World)
    → ((v : World) → OneActive v → OneActive (others v))
    → OneActive w
    → OneActive (handle digest ambient others identity c w)
unfolding handle
handle-OneActive digest ambient others identity (starts room key) w kept h =
    (start_idempotent-OneActive ambient others kept digest room identity key).keeps w h
handle-OneActive digest ambient others identity (updates id next) w kept h =
    (update-OneActive ambient others kept id next identity).keeps w h

-- If every user has at most one active session in each room, this holds after any history of
-- starts, keyed or not, and changes of status, also where other such calls run between the read of
-- a session and its conditional write.
pub run-OneActive :
    (digest : Digest) (history : History) (w : World)
    → OneActive w
    → OneActive (run digest history w)
unfolding run
run-OneActive digest nothing w h = h
run-OneActive digest (call ambient identity c inside rest) w h = run-OneActive digest rest _ (
    handle-OneActive digest ambient (run digest inside) identity c w (run-OneActive digest inside)
      h)
