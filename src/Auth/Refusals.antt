-- ===== src/Auth/Refusals.antt =====
-- What a caller is told whose token is not accepted.
use study_room_sdk.Base.{ℕ, String, ◌≡◌, some, ◌⊎◌}
use study_room_sdk.Domain.{Text, Identity}
use study_room_sdk.Service.Monad.{Outcome, thrown, Failure}
use study_room_sdk.Applications.{Policy}
use study_room_sdk.Auth.Tokens.{IsAccepted}
use study_room_sdk.Claims.{Jwt, Tenants, denied}

-- The failure is `Unauthorized`, with a text.
abbrev pub IsDenied : Failure → Type 0
IsDenied e = (t : String) × (e ≡ denied t)

-- Whatever is thrown is `Unauthorized`.
abbrev Denies : {A : Type 0} → Outcome A → Type 0
Denies m = (e : Failure) → m ≡ thrown e → IsDenied e

module _ (jwt : Jwt) (policy : Policy) (id_of : Text → ℕ) where
  -- A caller is told that its token is not accepted, or it is accepted, and what the database threw
  -- at the row of the user comes through.
  abbrev pub IsRefusal : ℕ → Text → Tenants → Failure → Type 0
  IsRefusal now token s e =
      IsDenied e
      ⊎ ((i : Identity) × IsAccepted jwt policy id_of now token s i × (s.upsert_throws i ≡ some e))
