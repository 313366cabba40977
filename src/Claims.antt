-- ===== src/Claims.antt =====
-- server/src/auth/auth.service.ts: tokens and their claims, as the libraries jsonwebtoken and jwks-rsa
-- give them, and what the service reads of them and of the environment. The libraries are the
-- argument `Jwt`.
use study_room_sdk.Base.{
  ℕ, String, ◌*◌, ◌&&◌, ◌||◌, List, [], ◌∷◌, Option, none, some, ltb, ◌==◌, if◌then◌else◌, any,
}
use study_room_sdk.Domain.{Text, Identity, TenantUser}
use study_room_sdk.Service.Monad.{Outcome, done, thrown, Failure, fault, unauthorized, message}
use study_room_sdk.Text.{text_eq, trim, is_space}
use study_room_sdk.Text.Split.{is_not_empty, words}
use study_room_sdk.Applications.{Applications}

-- The value of a claim: what `typeof` and `Array.isArray` tell apart. An item of an array is a
-- string or something else.
pub data Claim : Type 0 where
  missing other : Claim
  text : Text → Claim
  number : ℕ → Claim
  items : List (Option Text) → Claim

-- The claims of a `JwtPayload` that are read.
pub record Payload : Type 0 where
  pub sub : Claim
  pub app_id : Claim
  pub display_name : Claim
  pub avatar_url : Claim
  pub exp : Claim
  pub scope : Claim

-- A payload is an object or a string.
pub data Decoded : Type 0 where
  claims : Payload → Decoded
  plain_text : Decoded

pub record Header : Type 0 where
  pub kid : Option Text
  pub alg : Option Text

-- `jwt.decode`, with `complete` and without; `getSigningKey` of the client for an address;
-- `jwt.verify` with the algorithms, the issuer and the audience. Without a value they throw, or
-- answer with null.
pub record Jwt : Type 1 where
  pub Key : Type 0
  pub decode : Text → Option Decoded
  pub decode_complete : Text → Option (Header × Decoded)
  pub get_signing_key : Text → Text → Option Key
  pub verify : Text → Key → List Text → Text → Text → Option Decoded

-- `AdminIdentity`
pub record AdminIdentity : Type 0 where
  pub subject : Text
  pub scopes : List Text
  pub expires_at : ℕ

-- The variables `STUDY_ROOM_ADMIN_JWKS_URL`, `..._ISSUER` and `..._AUDIENCE`
pub record AdminEnvironment : Type 0 where
  pub jwks_url : Option Text
  pub issuer : Option Text
  pub audience : Option Text

-- The tenants with their cache, and the table of their users; `upsert_throws` is what the database
-- throws when the row of an identity is written, if it throws.
pub record Tenants : Type 0 where
  pub applications : Applications
  pub users : List TenantUser
  pub upsert_throws : Identity → Option Failure

abbrev pub denied : String → Failure
denied t = unauthorized (message t)

-- What follows a check that did not throw.
unfoldable pub next : {A B : Type 0} → Outcome A → (A → Outcome B) → Outcome B
next (done a) f = f a
next (thrown e) f = thrown e

abbrev pub value_or : {A : Type 0} → Option A → Failure → Outcome A
value_or none e = thrown e
value_or (some a) e = done a

abbrev pub rs256 : Text
rs256 = b'R' ∷ b'S' ∷ b'2' ∷ b'5' ∷ b'6' ∷ []

abbrev pub es256 : Text
es256 = b'E' ∷ b'S' ∷ b'2' ∷ b'5' ∷ b'6' ∷ []

abbrev pub algorithms : List Text
algorithms = rs256 ∷ es256 ∷ []

abbrev pub or_empty : Option Text → Text
or_empty none = []
or_empty (some t) = t

-- `'Bearer '`
abbrev pub bearer : Text
bearer = b'B' ∷ b'e' ∷ b'a' ∷ b'r' ∷ b'e' ∷ b'r' ∷ b' ' ∷ []

-- `startsWith` and `slice`
unfoldable pub after_prefix : Text → Text → Option Text
after_prefix [] s = some s
after_prefix (p ∷ ps) [] = none
after_prefix (p ∷ ps) (c ∷ s) = let rest = after_prefix ps s in if c == p then rest else none

abbrev pub token_from : Option Text → Outcome Text
token_from none = thrown (denied "Bearer token is required")
token_from (some t) =
    if is_not_empty (trim t) then done (trim t) else thrown (denied "Bearer token is required")

abbrev pub prefixed : Option Text → Option Text
prefixed none = none
prefixed (some authorization) = after_prefix bearer authorization

-- `bearerToken`
unfoldable pub bearer_token : Option Text → Outcome Text
unfolding after_prefix
bearer_token authorization = token_from (prefixed authorization)

abbrev pub strings : List (Option Text) → List Text
strings [] = []
strings (none ∷ ts) = strings ts
strings (some t ∷ ts) = t ∷ strings ts

-- `scopes`
unfoldable pub scopes : Claim → List Text
scopes (text value) = words is_space value
scopes (items ts) = strings ts
scopes _ = []

-- `requiredEnv`
unfoldable pub required_env : String → Option Text → Outcome Text
required_env failure none = thrown (denied failure)
required_env failure (some value) =
    if is_not_empty value then done value else thrown (denied failure)

abbrev pub object_of : Decoded → Outcome Payload
object_of (claims p) = done p
object_of plain_text = thrown (denied "JWT payload must be an object")

-- The key identifier of a header with an allowed algorithm
abbrev pub kid_of : Header → Outcome Text
kid_of h =
    if is_not_empty (or_empty h.kid) && any (text_eq (or_empty h.alg)) algorithms
    then done (or_empty h.kid)
    else thrown (denied "JWT algorithm or kid is invalid")

abbrev pub allowed_by : Option String → Outcome (Unit {0})
allowed_by none = done tt
allowed_by (some reason) = thrown (denied "Invalid or expired JWT")

-- `typeof value === 'string'`
abbrev pub as_text : Claim → Option Text
as_text (text t) = some t
as_text _ = none

-- `typeof value === 'number'`
abbrev pub as_number : Claim → Option ℕ
as_number (number n) = some n
as_number _ = none

-- A picture may be missing: `avatarUrl ?? ''`
abbrev pub as_avatar : Claim → Option Text
as_avatar missing = some []
as_avatar (text t) = some t
as_avatar _ = none

-- The policy's own exception
abbrev pub policy_allows : Option String → Outcome (Unit {0})
policy_allows none = done tt
policy_allows (some reason) = thrown (fault reason)

-- `jwksCacheMs`
unfoldable pub cache_time : Option ℕ → Outcome (Unit {0})
cache_time none = thrown (denied "STUDY_ROOM_JWKS_CACHE_MS must be between 1000 and 86400000")
cache_time (some ms) =
    if ltb ms 1000 || ltb (24 * 60 * 60 * 1000) ms
    then thrown (denied "STUDY_ROOM_JWKS_CACHE_MS must be between 1000 and 86400000")
    else done tt

abbrev pub missing_claims : Failure
missing_claims = denied "JWT is missing required claims"

-- `decoded.appId`
abbrev pub claimed_app : Option Decoded → Outcome Text
claimed_app (some (claims p)) = value_or (as_text p.app_id) (denied "JWT is missing appId")
claimed_app _ = thrown (denied "JWT is missing appId")
