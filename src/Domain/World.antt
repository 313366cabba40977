-- ===== src/Domain/World.antt =====
-- The state that a request works on: the tables, Redis, the counter of idempotent requests and
-- what has been handed to the realtime publisher, the latest first.
use study_room_sdk.Base.{List}
use study_room_sdk.Domain.{Db, Redis, IdempotencyOperation}
use study_room_sdk.Domain.Wire.{Emission}

-- The label `outcome` of the counter `study_room_idempotency_requests_total`.
pub data IdempotencyOutcome : Type 0 where
  created replayed conflicting : IdempotencyOutcome

pub record World : Type 0 where
  pub db : Db
  pub redis : Redis
  pub idempotency_requests : List (IdempotencyOperation × IdempotencyOutcome)
  pub emissions : List Emission
