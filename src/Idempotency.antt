-- ===== src/Idempotency.antt =====
-- server/src/common/idempotency.service.ts: a create that is keyed by the client runs once; a
-- repetition answers with what the first run made.
pub mod Replay
pub mod Canonical
pub mod FieldOrder
pub mod Invariant
use study_room_sdk.Base.{
  ℕ, Bool, true, false, not, ◌&&◌, ◌||◌, List, [], ◌∷◌, Option, none, some, leb, ltb, ◌==◌,
  if◌then◌else◌, find?, all, length,
}
use study_room_sdk.Domain.{Text, Db, Ambient, IdempotencyOperation, IdempotencyRecord}
use study_room_sdk.Domain.World.{World, IdempotencyOutcome, created, replayed, conflicting}
use study_room_sdk.Service.Monad.{
  Outcome, done, thrown, Failure, bad_request, conflict, coded, Action, throw, ◌>>=◌, ◌>>◌,
  return_value, query, write, or_throw, throw_if, meanwhile, transaction, attempt,
  is_unique_violation,
}
use study_room_sdk.Database.{insert_record, record_is}

-- `IdempotentResult`
pub record IdempotentResult (A : Type 0) : Type 0 where
  pub value : A
  pub created : Bool

-- The `request` objects that the services hash.
pub data IdempotentRequest : Type 0 where
  create_room : Text → IdempotentRequest
  send_message : ℕ → Text → IdempotentRequest
  start_session : ℕ → IdempotentRequest

-- `hash`: SHA-256 of the canonical JSON.
abbrev pub Digest : Type 0
Digest = IdempotentRequest → ℕ

-- `A-Za-z0-9._:-`
unfoldable pub is_key_character : ℕ → Bool
is_key_character c =
    (leb b'A' c && leb c b'Z')
    || (leb b'a' c && leb c b'z')
    || (leb b'0' c && leb c b'9')
    || c == b'.'
    || c == b'_'
    || c == b':'
    || c == b'-'

-- `idempotencyKeyPattern`
unfoldable pub is_valid_key : Text → Bool
is_valid_key key = leb 1 (length key) && leb (length key) 128 && all is_key_character key

abbrev pub invalid_key : Failure
invalid_key = bad_request (
    coded "invalid_idempotency_key"
      "Idempotency-Key must contain 1 to 128 A-Z, a-z, 0-9, dot, underscore, colon, or hyphen characters")

-- `idempotencyRequests.inc`
unfoldable pub count_request : IdempotencyOperation → IdempotencyOutcome → Action (Unit {0})
count_request operation outcome w =
    (done tt, record w { idempotency_requests = (operation, outcome) ∷ w.idempotency_requests })

-- `conflict`
unfoldable pub refuse : {A : Type 0} → IdempotencyOperation → Failure → Action A
refuse operation e = count_request operation conflicting >> throw e

abbrev pub key_conflict : Failure
key_conflict =
    conflict
      (coded "idempotency_conflict" "Idempotency key was already used with a different request")

abbrev pub result_unavailable : Failure
result_unavailable = conflict (
    coded "idempotency_result_unavailable"
      "The resource created for this idempotency key is no longer available")

-- `ExecuteOptions` without the functions.
pub record Options : Type 0 where
  pub app_id : ℕ
  pub user_id : ℕ
  pub operation : IdempotencyOperation
  pub key : Text
  pub request : IdempotentRequest

abbrev pub finder : Options → IdempotencyRecord → Bool
finder o = record_is o.app_id o.user_id o.operation o.key

-- The `try` block.
unfoldable pub run_create :
    {A : Type 0} → Digest → Ambient → Options → (ℕ → Action A) → Action (IdempotentResult A)
run_create digest ambient o create = do
  value ← transaction (
      write (
        insert_record (record {
          app_id = o.app_id;
          user_id = o.user_id;
          operation = o.operation;
          key = o.key;
          request_hash = digest o.request;
          resource_id = ambient.uuid;
          created_at = ambient.now;
        }))
      >> create ambient.uuid)
  count_request o.operation IdempotencyOutcome.created
  return_value (record { value = value; created = true })

-- What follows the call of `replay`
unfoldable pub replay_found : {A : Type 0} → Options → Option A → Action (IdempotentResult A)
replay_found o none = refuse o.operation result_unavailable
replay_found o (some value) =
    count_request o.operation replayed >> return_value (record { value = value; created = false })

-- What follows the comparison of the hashes, for the resource of the record
unfoldable pub replay_record :
    {A : Type 0} → Options → (ℕ → Action (Option A)) → Bool → ℕ → Action (IdempotentResult A)
replay_record o replay true id = replay id >>= replay_found o
replay_record o replay false id = refuse o.operation key_conflict

-- The `catch` block. `others` is what other requests do before the record is looked up.
unfoldable pub run_replay :
    {A : Type 0}
    → Digest
    → Options
    → (World → World)
    → (ℕ → Action (Option A))
    → Failure
    → Action (IdempotentResult A)
run_replay digest o others replay e = do
  throw_if (not (is_unique_violation e)) e
  meanwhile others
  found ← query (λ d. find? (finder o) d.idempotency_records)
  r ← or_throw found e
  replay_record o replay (r.request_hash == digest o.request) r.resource_id

-- `execute`
unfoldable pub execute :
    {A : Type 0}
    → Digest
    → Ambient
    → (World → World)
    → Options
    → (ℕ → Action A)
    → (ℕ → Action (Option A))
    → Action (IdempotentResult A)
execute digest ambient others o create replay = do
  throw_if (not (is_valid_key o.key)) invalid_key
  attempt (run_create digest ambient o create) (run_replay digest o others replay)
