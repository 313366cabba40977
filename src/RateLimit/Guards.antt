-- ===== src/RateLimit/Guards.antt =====
-- server/src/common/ip-rate-limit.guard.ts and tenant-rate-limit.guard.ts: which client a request
-- counts for; and what `consume` makes of the answers of Redis, also of none.
use study_room_sdk.Base.{
  ℕ, String, ◌∷◌, [], List, Bool, true, false, not, ◌||◌, Option, none, some, max, ltb,
  if◌then◌else◌,
}
use study_room_sdk.Domain.{Text, Identity}
use study_room_sdk.Service.Monad.{Outcome, done, thrown, Failure, unavailable, rate_limited, coded}
use study_room_sdk.RateLimit.{
  ip, app, user, admin, Counter, Verdict, allowed, limited, consume, EnvNumber, configured_limit,
  seconds_up,
}

-- What the key of a counter is the digest of: an address, `appId`, `appId:userId`, or a subject.
pub data Client : Type 0 where
  address subject : Text → Client
  tenant : ℕ → Client
  tenant_user : ℕ → ℕ → Client

-- `STUDY_ROOM_IP_RATE_LIMIT` and its siblings
pub record Limits : Type 0 where
  pub ip : EnvNumber
  pub app : EnvNumber
  pub user : EnvNumber
  pub admin : EnvNumber

-- `'unknown'`
abbrev pub unknown : Text
unknown = b'u' ∷ b'n' ∷ b'k' ∷ b'n' ∷ b'o' ∷ b'w' ∷ b'n' ∷ []

-- `request.ip || request.socket.remoteAddress || 'unknown'`
abbrev pub address_of : Option Text → Option Text → Text
address_of (some (c ∷ s)) remote = c ∷ s
address_of _ (some (c ∷ s)) = c ∷ s
address_of _ _ = unknown

module _ (digest : Client → ℕ) (limits : Limits) where
  -- `IpRateLimitGuard.canActivate`
  unfoldable pub ip_guard :
      ℕ → Bool → Bool → Option Text → Option Text → List Counter → Verdict × List Counter
  ip_guard now is_http is_skipped ip_address remote counters =
      if not is_http || is_skipped
      then (allowed, counters)
      else consume ip (digest (address (address_of ip_address remote)))
          (configured_limit limits.ip 120) now counters

  unfoldable pub user_after : ℕ → Identity → Verdict × List Counter → Verdict × List Counter
  user_after now identity (limited seconds, counters) = (limited seconds, counters)
  user_after now identity (allowed, counters) =
      consume user (digest (tenant_user identity.app_id identity.user_id))
        (configured_limit limits.user 180) now counters

  -- The callers that the guard knows: `request.identity`, else `request.adminIdentity`.
  unfoldable pub tenant_guard :
      ℕ → Bool → Option Identity → Option Text → List Counter → Verdict × List Counter
  unfolding user_after
  tenant_guard now false identity admin_subject counters = (allowed, counters)
  tenant_guard now true (some identity) admin_subject counters =
      user_after now identity (
        consume app (digest (tenant identity.app_id)) (configured_limit limits.app 600) now
          counters)
  tenant_guard now true none (some s) counters =
      consume admin (digest (subject s)) (configured_limit limits.admin 120) now counters
  tenant_guard now true none none counters = (allowed, counters)

abbrev invalid_response : Failure
invalid_response =
    unavailable (coded "rate_limit_unavailable" "Rate limiting returned an invalid response")

-- `consume` after the script: Redis may not answer, and an item of its answer may not be a number.
unfoldable pub checked : String → ℕ → Option (List (Option ℕ)) → Outcome (Unit {0})
checked exceeded limit none =
    thrown (unavailable (coded "rate_limit_unavailable" "Rate limiting is temporarily unavailable"))
checked exceeded limit (some (some hits ∷ some ttl ∷ _)) =
    if ltb limit hits
    then thrown (rate_limited exceeded (max 1 (seconds_up (max 1 ttl))))
    else done tt
checked exceeded limit (some _) = thrown invalid_response
