-- ===== src/Idempotency/Invariant.antt =====
-- An invariant that the counter keeps is kept by `execute` if the transaction with the record and the
-- creation keeps it, and what else it is given does.
use study_room_sdk.Base.{ℕ, Bool, true, false, Option, none, some}
use study_room_sdk.Domain.{Ambient, IdempotencyOperation, IdempotencyRecord}
use study_room_sdk.Domain.World.{World, IdempotencyOutcome}
use study_room_sdk.Service.Monad.{Failure, Action, ◌>>◌, write, transaction}
use study_room_sdk.Service.Keeps.{
  Keeps, bind-Keeps, then-Keeps, or_throw-Keeps, attempt-Keeps, query-Keeps, return_value-Keeps,
  throw_if-Keeps, throw-Keeps, meanwhile-Keeps,
}
use study_room_sdk.Database.{insert_record}
use study_room_sdk.Idempotency.{
  Digest, Options, execute, run_create, run_replay, replay_record, replay_found, refuse,
  count_request,
}

module _ (P : World → Type 0)
    (count_kept : (operation : IdempotencyOperation) (outcome : IdempotencyOutcome)
      → Keeps P (count_request operation outcome)) where
  refuse-Keeps :
      {A : Type 0} (operation : IdempotencyOperation) (e : Failure)
      → Keeps P (refuse {A = A} operation e)
  unfolding refuse
  refuse-Keeps operation e = then-Keeps (count_kept operation _) (throw-Keeps e)

  replay_found-Keeps :
      {A : Type 0} (o : Options) (found : Option A) → Keeps P (replay_found o found)
  unfolding replay_found
  replay_found-Keeps o none = refuse-Keeps o.operation _
  replay_found-Keeps o (some v) = then-Keeps (count_kept o.operation _) (return_value-Keeps _)

  replay_record-Keeps :
      {A : Type 0} (same : Bool) (o : Options) (replay : ℕ → Action (Option A)) (id : ℕ)
      → ((id : ℕ) → Keeps P (replay id))
      → Keeps P (replay_record o replay same id)
  unfolding replay_record
  replay_record-Keeps true o replay id k = bind-Keeps (k id) (replay_found-Keeps o)
  replay_record-Keeps false o replay id k = refuse-Keeps o.operation _

  pub transaction-execute-Keeps :
      {A : Type 0} (digest : Digest) (ambient : Ambient) (others : World → World)
      → ((w : World) → P w → P (others w))
      → (o : Options) (create : ℕ → Action A) (replay : ℕ → Action (Option A))
      → ((r : IdempotencyRecord) (id : ℕ)
          → Keeps P (transaction (write (insert_record r) >> create id)))
      → ((id : ℕ) → Keeps P (replay id))
      → Keeps P (execute digest ambient others o create replay)
  unfolding execute run_create run_replay
  transaction-execute-Keeps digest ambient others kept o create replay kc kr =
      then-Keeps (throw_if-Keeps _ _) (
        attempt-Keeps
          (bind-Keeps (kc _ ambient.uuid) λ v. then-Keeps (count_kept _ _) (return_value-Keeps _))
          λ e. then-Keeps (throw_if-Keeps _ e) (
            then-Keeps (meanwhile-Keeps others kept) (
              bind-Keeps (query-Keeps _) λ found.
                bind-Keeps (or_throw-Keeps found e)
                  λ r. replay_record-Keeps _ o replay r.resource_id kr)))

  -- The same where the record and the creation keep it on their own
  pub execute-Keeps :
      {A : Type 0} (record_kept : (r : IdempotencyRecord) → Keeps P (write (insert_record r)))
      (transaction_kept : (B : Type 0) (m : Action B) → Keeps P m → Keeps P (transaction m))
      (digest : Digest) (ambient : Ambient) (others : World → World)
      → ((w : World) → P w → P (others w))
      → (o : Options) (create : ℕ → Action A) (replay : ℕ → Action (Option A))
      → ((id : ℕ) → Keeps P (create id))
      → ((id : ℕ) → Keeps P (replay id))
      → Keeps P (execute digest ambient others o create replay)
  execute-Keeps record_kept transaction_kept digest ambient others kept o create replay kc kr =
      transaction-execute-Keeps digest ambient others kept o create replay
        (λ r id. transaction_kept _ _ (then-Keeps (record_kept r) (kc id))) kr
