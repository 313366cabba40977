-- ===== src/Auth.antt =====
-- server/src/auth/auth.service.ts and auth.guard.ts: who a caller is, from a signed token. The
-- libraries jsonwebtoken and jwks-rsa are the argument `Jwt`; `id_of` is the identifier that a
-- string stands for, as identifiers are only compared.
pub mod Users
pub mod Tokens
pub mod Refusals
pub mod Scopes
pub mod Clients
use study_room_sdk.Base.{
  ℕ, String, ◌+◌, ◌*◌, Bool, true, false, not, ◌&&◌, ◌||◌, List, [], ◌∷◌, ◌++◌, Option, none, some,
  ltb, leb, ◌==◌, if◌then◌else◌, any, length, update_where,
}
use study_room_sdk.Domain.{Text, Identity, TenantUser, Application}
use study_room_sdk.Service.Monad.{Outcome, done, thrown, Failure, fault, unauthorized, message}
use study_room_sdk.Text.{text_eq, trim, is_space}
use study_room_sdk.Text.Split.{is_not_empty, words}
use study_room_sdk.Applications.{Applications, Policy, get_enabled}
use study_room_sdk.Rooms.Defs.{user_is}
use study_room_sdk.Claims.{
  Claim, Payload, Decoded, Header, Jwt, AdminIdentity, AdminEnvironment, Tenants, denied, next,
  value_or, rs256, es256, algorithms, or_empty, bearer, after_prefix, token_from, prefixed,
  bearer_token, strings, scopes, required_env, object_of, kid_of, allowed_by, as_text, as_number,
  as_avatar, policy_allows, cache_time, missing_claims, claimed_app, missing, other, text, number,
  items, claims, plain_text,
}

-- `tenantUser.upsert`
unfoldable pub upsert_user : Identity → List TenantUser → List TenantUser
upsert_user i users =
    if any (user_is i.app_id i.user_id) users
    then update_where (user_is i.app_id i.user_id)
        (λ u. record u { display_name = i.display_name; avatar_url = i.avatar_url }) users
    else users
      ++ record {
        app_id = i.app_id;
        user_id = i.user_id;
        display_name = i.display_name;
        avatar_url = i.avatar_url;
      }
        ∷ []

-- A request with what the decorators say of its route.
pub record Route : Type 0 where
  pub is_http : Bool
  pub is_public : Bool
  pub admin_scope : Option Text
  pub authorization : List Text

-- `request.identity` or `request.adminIdentity`, if the guard sets one
pub data Caller : Type 0 where
  unidentified : Caller
  as_user : Identity → Caller
  as_admin : AdminIdentity → Caller

-- `Array.isArray(header) ? header[0] : header`
abbrev pub first_of : List Text → Option Text
first_of [] = none
first_of (t ∷ ts) = some t

module _ (jwt : Jwt) (policy : Policy) (id_of : Text → ℕ) where
  -- `verify`; `client` asks the policy before it makes or finds the client of an address
  unfoldable pub verify : Text → Text → Text → Text → Outcome Payload
  verify token jwks_uri issuer audience =
      next (value_or (jwt.decode_complete token) (denied "JWT payload must be an object"))
        λ decoded. next (object_of decoded.1) λ _. next (kid_of decoded.0) λ kid.
          next (allowed_by (policy jwks_uri)) λ _.
            next (value_or (jwt.get_signing_key jwks_uri kid) (denied "Invalid or expired JWT"))
              λ key.
                next
                  (value_or (jwt.verify token key algorithms issuer audience)
                    (denied "Invalid or expired JWT"))
                  object_of

  -- The identity of claims that have their types, if they have their lengths and name the tenant
  unfoldable pub identity_of : Application → Text → Text → Text → ℕ → Text → Outcome Identity
  identity_of a sub app name exp avatar =
      if is_not_empty (trim sub)
        && leb (length (trim sub)) 256
        && id_of app == a.app_id
        && is_not_empty (trim name)
      then done (record {
        user_id = id_of (trim sub);
        app_id = a.app_id;
        display_name = trim name;
        avatar_url = avatar;
        expires_at = exp * 1000;
      })
      else thrown missing_claims

  -- The claims that `verifyUserToken` requires
  unfoldable pub identity_in : Application → Payload → Outcome Identity
  unfolding identity_of
  identity_in a p = next (value_or (as_text p.sub) missing_claims) λ sub.
      next (value_or (as_text p.app_id) missing_claims) λ app.
        next (value_or (as_text p.display_name) missing_claims) λ name.
          next (value_or (as_number p.exp) missing_claims) λ exp.
            next (value_or (as_avatar p.avatar_url) missing_claims) (identity_of a sub app name exp)

  unfoldable pub user_written : Identity → Tenants → Option Failure → Outcome Identity × Tenants
  unfolding upsert_user
  user_written i s none = (done i, record s { users = upsert_user i s.users })
  user_written i s (some e) = (thrown e, s)

  -- The last statements of `verifyUserToken`: what the upsert throws is not caught.
  unfoldable pub upserted : Outcome Identity → Tenants → Outcome Identity × Tenants
  unfolding user_written
  upserted (done i) s = user_written i s (s.upsert_throws i)
  upserted (thrown e) s = (thrown e, s)

  unfoldable pub identified : Text → Option Application → Outcome Identity
  unfolding verify identity_in
  identified token found =
      next (value_or found (denied "Invalid or disabled application"))
        λ a. next (verify token a.jwks_uri a.issuer a.audience) (identity_in a)

  unfoldable pub verify_claimed : ℕ → Text → Outcome Text → Tenants → Outcome Identity × Tenants
  unfolding identified upserted
  verify_claimed now token (thrown e) s = (thrown e, s)
  verify_claimed now token (done app) s =
      let (found, t) = get_enabled now (id_of app) s.applications in
      upserted (identified token found) (record s { applications = t })

  -- `verifyUserToken`
  unfoldable pub verify_user_token : ℕ → Text → Tenants → Outcome Identity × Tenants
  unfolding verify_claimed
  verify_user_token now token s = verify_claimed now token (claimed_app (jwt.decode token)) s

  abbrev verify_token : ℕ → Outcome Text → Tenants → Outcome Identity × Tenants
  verify_token now (thrown e) s = (thrown e, s)
  verify_token now (done token) s = verify_user_token now token s

  -- `verifyBearer`
  unfoldable pub verify_bearer : ℕ → Option Text → Tenants → Outcome Identity × Tenants
  unfolding bearer_token
  verify_bearer now authorization s = verify_token now (bearer_token authorization) s

  abbrev admin_of : List Text → Claim → Claim → Outcome AdminIdentity
  admin_of granted (text sub) (number exp) =
      done (record { subject = sub; scopes = granted; expires_at = exp * 1000 })
  admin_of granted _ _ = thrown (denied "Admin JWT is missing required claims")

  -- The checks of `verifyAdminBearer` on the claims
  unfoldable pub admin_in : Text → Payload → Outcome AdminIdentity
  unfolding scopes
  admin_in required p =
      if any (text_eq required) (scopes p.scope)
      then admin_of (scopes p.scope) p.sub p.exp
      else thrown (denied "Missing required scope")

  -- `verifyAdminBearer`
  unfoldable pub verify_admin_bearer : AdminEnvironment → Option Text → Text → Outcome AdminIdentity
  unfolding bearer_token required_env verify admin_in
  verify_admin_bearer env authorization required = next (bearer_token authorization) λ token.
      next (required_env "STUDY_ROOM_ADMIN_JWKS_URL is not configured" env.jwks_url) λ uri.
        next (required_env "STUDY_ROOM_ADMIN_JWT_ISSUER is not configured" env.issuer) λ issuer.
          next (required_env "STUDY_ROOM_ADMIN_JWT_AUDIENCE is not configured" env.audience)
            λ audience. next (verify token uri issuer audience) (admin_in required)

  abbrev user_caller : Outcome Identity × Tenants → Outcome Caller × Tenants
  user_caller (r, t) = (next r (λ i. done (as_user i)), t)

  unfoldable pub identify :
      ℕ → AdminEnvironment → Option Text → Text → Tenants → Outcome Caller × Tenants
  unfolding verify_bearer verify_admin_bearer
  identify now env authorization [] s = user_caller (verify_bearer now authorization s)
  identify now env authorization (c ∷ scope) s =
      (next (verify_admin_bearer env authorization (c ∷ scope)) (λ a. done (as_admin a)), s)

  -- `AuthGuard.canActivate`
  unfoldable pub can_activate : ℕ → AdminEnvironment → Route → Tenants → Outcome Caller × Tenants
  unfolding identify
  can_activate now env route s =
      if not route.is_http || route.is_public
      then (done unidentified, s)
      else identify now env (first_of route.authorization) (or_empty route.admin_scope) s

  -- `onModuleInit`; `cache_ms` is the configured time for key sets, if it is a safe integer
  unfoldable pub on_module_init : AdminEnvironment → Option ℕ → Outcome (Unit {0})
  unfolding required_env
  on_module_init env cache_ms =
      next (required_env "STUDY_ROOM_ADMIN_JWKS_URL is not configured" env.jwks_url) λ uri.
        next (policy_allows (policy uri)) λ _.
          next (required_env "STUDY_ROOM_ADMIN_JWT_ISSUER is not configured" env.issuer) λ _.
            next (required_env "STUDY_ROOM_ADMIN_JWT_AUDIENCE is not configured" env.audience)
              λ _. cache_time cache_ms
