-- ===== src/Idempotency/Replay.antt =====
-- What `execute` does on each of its branches.
use study_room_sdk.Base.{
  ℕ, ◌≡◌, refl, true, false, [], ◌∷◌, ◌++◌, Option, none, some, ◌==◌, any, find?,
}
use study_room_sdk.Domain.{Ambient, IdempotencyRecord}
use study_room_sdk.Domain.World.{World, IdempotencyOutcome, replayed, conflicting}
use study_room_sdk.Service.Monad.{
  done, thrown, Failure, Action, actions, resume, rolled_back, recovered, stored,
  is_unique_violation,
}
use study_room_sdk.Database.{insert_record}
use study_room_sdk.Idempotency.{
  Digest, Options, finder, execute, run_create, run_replay, replay_record, replay_found, refuse,
  count_request, is_valid_key, invalid_key, key_conflict, result_unavailable,
}

abbrev pub record_for : Digest → Ambient → Options → IdempotencyRecord
record_for digest ambient o = record {
  app_id = o.app_id;
  user_id = o.user_id;
  operation = o.operation;
  key = o.key;
  request_hash = digest o.request;
  resource_id = ambient.uuid;
  created_at = ambient.now;
}

-- The world in which the resource is created: the key is taken.
abbrev pub with_record : IdempotencyRecord → World → World
with_record r w = record w {
  db = record w.db { idempotency_records = w.db.idempotency_records ++ r ∷ [] };
}

abbrev pub counted : Options → IdempotencyOutcome → World → World
counted o outcome w = record w {
  idempotency_requests = (o.operation, outcome) ∷ w.idempotency_requests;
}

module _ {A : Type 0} (digest : Digest) (ambient : Ambient) (others : World → World) (o : Options)
    (create : ℕ → Action A) (replay : ℕ → Action (Option A)) (w : World) where
  -- An unused key: the resource is created under the record's identifier.
  pub execute_creates :
      {v : A} {w' : World}
      → is_valid_key o.key ≡ true
      → any (finder o) w.db.idempotency_records ≡ false
      → create ambient.uuid (with_record (record_for digest ambient o) w) ≡ (done v, w')
      → execute digest ambient others o create replay w
        ≡ (done (record { value = v; created = true }), counted o IdempotencyOutcome.created w')
  unfolding actions execute run_create insert_record count_request resume rolled_back recovered
      stored
  execute_creates valid free e = rw (valid, free, e) refl

  -- A create that fails for another reason than a unique constraint: the failure is passed on, and
  -- the database is as it was, so that the key is not used up.
  pub execute_fails :
      {e : Failure} {w' : World}
      → is_valid_key o.key ≡ true
      → any (finder o) w.db.idempotency_records ≡ false
      → create ambient.uuid (with_record (record_for digest ambient o) w) ≡ (thrown e, w')
      → is_unique_violation e ≡ false
      → execute digest ambient others o create replay w ≡ (thrown e, record w' { db = w.db })
  unfolding actions execute run_create run_replay insert_record count_request resume rolled_back
      recovered stored
  execute_fails valid free e other = rw (valid, free, e, other) refl

  -- The same for a unique constraint other than that of the key, as long as nobody takes the key in
  -- between.
  pub execute_fails_unique :
      {e : Failure} {w' : World}
      → is_valid_key o.key ≡ true
      → any (finder o) w.db.idempotency_records ≡ false
      → create ambient.uuid (with_record (record_for digest ambient o) w) ≡ (thrown e, w')
      → is_unique_violation e ≡ true
      → find? (finder o) (others (record w' { db = w.db })).db.idempotency_records ≡ none
      → execute digest ambient others o create replay w
        ≡ (thrown e, others (record w' { db = w.db }))
  unfolding actions execute run_create run_replay insert_record count_request resume rolled_back
      recovered stored
  execute_fails_unique valid free e unique none_there = rw (valid, free, e, unique, none_there) refl

  -- A key that is taken by the same request: the answer is that of `replay`, nothing is created.
  pub execute_replays :
      {r : IdempotencyRecord} {v : A} {w' : World}
      → is_valid_key o.key ≡ true
      → any (finder o) w.db.idempotency_records ≡ true
      → find? (finder o) (others w).db.idempotency_records ≡ some r
      → (r.request_hash == digest o.request) ≡ true
      → replay r.resource_id (others w) ≡ (done (some v), w')
      → execute digest ambient others o create replay w
        ≡ (done (record { value = v; created = false }), counted o replayed w')
  unfolding actions execute run_create run_replay replay_record replay_found insert_record
      count_request resume rolled_back recovered stored
  execute_replays valid taken there same e = rw (valid, taken, there, same, e) refl

  -- A key that is taken by another request: a conflict, and nothing is created.
  pub execute_conflicts :
      {r : IdempotencyRecord}
      → is_valid_key o.key ≡ true
      → any (finder o) w.db.idempotency_records ≡ true
      → find? (finder o) (others w).db.idempotency_records ≡ some r
      → (r.request_hash == digest o.request) ≡ false
      → execute digest ambient others o create replay w
        ≡ (thrown key_conflict, counted o conflicting (others w))
  unfolding actions execute run_create run_replay replay_record replay_found refuse insert_record
      count_request resume rolled_back recovered stored
  execute_conflicts valid taken there other = rw (valid, taken, there, other) refl

  -- The resource has gone: a conflict of its own, and nothing is created.
  pub execute_unavailable :
      {r : IdempotencyRecord} {w' : World}
      → is_valid_key o.key ≡ true
      → any (finder o) w.db.idempotency_records ≡ true
      → find? (finder o) (others w).db.idempotency_records ≡ some r
      → (r.request_hash == digest o.request) ≡ true
      → replay r.resource_id (others w) ≡ (done none, w')
      → execute digest ambient others o create replay w
        ≡ (thrown result_unavailable, counted o conflicting w')
  unfolding actions execute run_create run_replay replay_record replay_found refuse insert_record
      count_request resume rolled_back recovered stored
  execute_unavailable valid taken there same e = rw (valid, taken, there, same, e) refl

  pub execute_invalid :
      is_valid_key o.key ≡ false
      → execute digest ambient others o create replay w ≡ (thrown invalid_key, w)
  unfolding actions execute resume
  execute_invalid invalid = rw invalid refl
