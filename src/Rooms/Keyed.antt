-- ===== src/Rooms/Keyed.antt =====
-- The creation of a room under a key keeps one owner to a room, and leaves the rows of other
-- applications alone.
use study_room_sdk.Base.{ℕ, ◌≡◌, ◌≢◌, refl, Option, none, some, arith}
use study_room_sdk.Domain.{Db, Ambient, Identity, Text, IdempotencyOperation, IdempotencyRecord}
use study_room_sdk.Domain.World.{World, IdempotencyOutcome}
use study_room_sdk.Service.Monad.{
  Outcome, done, thrown, Action, ◌>>=◌, ◌>>◌, resume, write, transaction,
}
use study_room_sdk.Service.Keeps.{
  Keeps, bind-Keeps, then-Keeps, or_throw-Keeps, plain-Keeps, query-Keeps, return_value-Keeps,
  transaction-Keeps,
}
use study_room_sdk.Service.Ensures.{write-Keeps}
use study_room_sdk.Database.{commit, room_transaction, insert_record}
use study_room_sdk.Idempotency.{Digest, count_request}
use study_room_sdk.Idempotency.Invariant.{transaction-execute-Keeps}
use study_room_sdk.Rooms.Defs.{create_room}
use study_room_sdk.Rooms.Methods.{create_idempotent, created_room}
use study_room_sdk.Rooms.Snapshot.{to_room_dto-Keeps, snapshot-Keeps}
use study_room_sdk.Rooms.OneOwner.{OneOwner, Confined, write-Confined, room_transaction-OneOwner}
use study_room_sdk.Rooms.Invariant.{create_room-Confined, create-OneOwner}
use study_room_sdk.Rooms.Isolation.{
  Kept, KeepsRows, insert_room-Kept, insert_membership-Kept, insert_audit-Kept,
}
use study_room_sdk.Rooms.Tenants.{commit-Kept, create-Kept}

module _ {A B : Type 0} (m : Action A) (k : Action B) (room : ℕ) where
  -- The commit at the end of the second action is the commit at the end of both.
  commit_last : (w : World) → (m >> (k >>= commit room)) w ≡ ((m >> k) >>= commit room) w
  unfolding ◌>>◌ ◌>>=◌ resume
  commit_last w = go (m w)
    where
      go :
          (r : Outcome A × World)
          → resume (λ _ v. resume (commit room) (k v)) r ≡ resume (commit room) (resume (λ _. k) r)
      go (done a, v) = refl
      go (thrown e, v) = refl

  commit_last-OneOwner :
      Confined room (m >> k) → Keeps OneOwner (transaction (m >> (k >>= commit room)))
  unfolding transaction room_transaction
  commit_last-OneOwner confined =
      plain-Keeps
        λ w h. rw (commit_last w) ((room_transaction-OneOwner room (m >> k) confined).keeps w h)

record-Confined : (room : ℕ) (r : IdempotencyRecord) → Confined room (write (insert_record r))
unfolding insert_record
record-Confined room r = write-Confined room (insert_record r) λ d x ne. ground arith

created_room-Confined :
    (ambient : Ambient) (title : Text) (identity : Identity) (id : ℕ)
    → Confined id (created_room ambient title identity id)
unfolding created_room
created_room-Confined ambient title identity id d =
    bind-Keeps (create_room-Confined ambient.now _ identity id d)
      λ room. bind-Keeps (query-Keeps _) λ e. to_room_dto-Keeps _ (λ w r h. h) ambient.now room e

count_request-OneOwner :
    (operation : IdempotencyOperation) (outcome : IdempotencyOutcome)
    → Keeps OneOwner (count_request operation outcome)
unfolding count_request
count_request-OneOwner operation outcome = plain-Keeps λ w h. h

pub create_idempotent-OneOwner :
    (digest : Digest) (ambient : Ambient) (others : World → World)
    → ((w : World) → OneOwner w → OneOwner (others w))
    → (title : Text) (identity : Identity) (key : Option Text)
    → Keeps OneOwner (create_idempotent digest ambient others title identity key)
unfolding create_idempotent
create_idempotent-OneOwner digest ambient others kept title identity none =
    bind-Keeps (create-OneOwner ambient title identity) λ v. return_value-Keeps _
create_idempotent-OneOwner digest ambient others kept title identity (some key) =
    transaction-execute-Keeps OneOwner count_request-OneOwner digest ambient others kept _ _ _
      (λ r id.
        commit_last-OneOwner (write (insert_record r)) (created_room ambient title identity id) id
          (λ d.
            then-Keeps (record-Confined id r d)
              (created_room-Confined ambient title identity id d)))
      (λ id. snapshot-Keeps OneOwner (λ w r h. h) ambient.now identity.app_id id)

module _ (app : ℕ) (before : Db) (identity : Identity) (ne : identity.app_id ≢ app) where
  record-Kept : (r : IdempotencyRecord) → KeepsRows app before (write (insert_record r))
  unfolding insert_record
  record-Kept r = write-Keeps λ d e u h k. ground arith

  count_request-Kept :
      (operation : IdempotencyOperation) (outcome : IdempotencyOutcome)
      → KeepsRows app before (count_request operation outcome)
  unfolding count_request
  count_request-Kept operation outcome = plain-Keeps λ w h. h

  created_room-Kept :
      (ambient : Ambient) (title : Text) (id : ℕ)
      → KeepsRows app before (created_room ambient title identity id)
  unfolding created_room create_room
  created_room-Kept ambient title id =
      bind-Keeps
        (bind-Keeps (insert_room-Kept app before _ ne) λ r. bind-Keeps (query-Keeps _) λ user.
          then-Keeps (or_throw-Keeps user _) (
            then-Keeps (insert_membership-Kept app before _ ne)
              (then-Keeps (insert_audit-Kept app before _) (return_value-Keeps r))))
        λ r. bind-Keeps (query-Keeps _) λ d. to_room_dto-Keeps _ (λ w u h. h) ambient.now r d

  pub create_idempotent-Kept :
      (digest : Digest) (ambient : Ambient) (others : World → World)
      → ((w : World) → Kept app before w.db → Kept app before (others w).db)
      → (title : Text) (key : Option Text)
      → KeepsRows app before (create_idempotent digest ambient others title identity key)
  unfolding create_idempotent
  create_idempotent-Kept digest ambient others kept title none =
      bind-Keeps (create-Kept app before identity ne ambient title) λ v. return_value-Keeps _
  create_idempotent-Kept digest ambient others kept title (some key) =
      transaction-execute-Keeps (λ w. Kept app before w.db) count_request-Kept digest ambient others
        kept _ _ _
        (λ r id. transaction-Keeps (Kept app before) (
          then-Keeps (record-Kept r) (
            bind-Keeps (created_room-Kept ambient title id)
              λ dto. commit-Kept app before identity ne id dto)))
        (λ id. snapshot-Keeps _ (λ w r h. h) ambient.now identity.app_id id)
