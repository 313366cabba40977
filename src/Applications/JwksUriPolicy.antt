-- ===== src/Applications/JwksUriPolicy.antt =====
-- server/src/applications/jwks-uri.policy.ts: which addresses of key sets are allowed. The URL parser
-- of the platform is the argument `parse_url`, and `number` is `Number` of a label of a host name, if
-- that is a whole number that is not negative.
use study_room_sdk.Base.{
  ℕ, String, ◌+◌, Bool, false, not, ◌&&◌, ◌||◌, List, [], ◌∷◌, map, Option, none, some, leb, ◌==◌,
  if◌then◌else◌, all,
}
use study_room_sdk.Domain.{Text}
use study_room_sdk.Text.{text_eq}
use study_room_sdk.Text.Split.{split_where}

-- What the policy reads of a `URL`.
pub record Url : Type 0 where
  pub protocol : Text
  pub hostname : Text

-- `StudyRoomRuntimeProfile`
pub data Profile : Type 0 where
  production dev test : Profile

-- `STUDY_ROOM_RUNTIME_PROFILE` and `STUDY_ROOM_ALLOW_INSECURE_JWKS`
pub record Environment : Type 0 where
  pub runtime_profile : Option Text
  pub allow_insecure_jwks : Option Text

pub data Refusal : Type 0 where
  bad_profile bad_url bad_protocol insecure_in_production insecure_not_enabled not_local : Refusal

-- The text of a `JwksUriPolicyError` with the label `JWKS URI`
abbrev pub reason : Refusal → String
reason bad_profile = "STUDY_ROOM_RUNTIME_PROFILE must be one of production, dev, or test"
reason bad_url = "JWKS URI must be an absolute URL"
reason bad_protocol = "JWKS URI must use HTTPS"
reason insecure_in_production = "JWKS URI must use HTTPS in production"
reason insecure_not_enabled =
    "JWKS URI may use HTTP in dev/test only when STUDY_ROOM_ALLOW_INSECURE_JWKS=true"
reason not_local =
    "JWKS URI may use HTTP in dev/test only for localhost, loopback addresses, or the jwks fixture host"

abbrev pub https : Text
https = b'h' ∷ b't' ∷ b't' ∷ b'p' ∷ b's' ∷ b':' ∷ []

abbrev pub http : Text
http = b'h' ∷ b't' ∷ b't' ∷ b'p' ∷ b':' ∷ []

abbrev pub localhost : Text
localhost = b'l' ∷ b'o' ∷ b'c' ∷ b'a' ∷ b'l' ∷ b'h' ∷ b'o' ∷ b's' ∷ b't' ∷ []

abbrev pub jwks_host : Text
jwks_host = b'j' ∷ b'w' ∷ b'k' ∷ b's' ∷ []

abbrev pub loopback : Text
loopback = b'[' ∷ b':' ∷ b':' ∷ b'1' ∷ b']' ∷ []

abbrev pub production_name : Text
production_name = b'p' ∷ b'r' ∷ b'o' ∷ b'd' ∷ b'u' ∷ b'c' ∷ b't' ∷ b'i' ∷ b'o' ∷ b'n' ∷ []

abbrev pub dev_name : Text
dev_name = b'd' ∷ b'e' ∷ b'v' ∷ []

abbrev pub test_name : Text
test_name = b't' ∷ b'e' ∷ b's' ∷ b't' ∷ []

abbrev pub true_name : Text
true_name = b't' ∷ b'r' ∷ b'u' ∷ b'e' ∷ []

-- `runtimeProfile`, without a value where it throws
unfoldable pub runtime_profile : Option Text → Option Profile
runtime_profile none = some production
runtime_profile (some t) =
    if text_eq t production_name
    then some production
    else if text_eq t dev_name
    then some dev
    else if text_eq t test_name
    then some test
    else none

-- `toLowerCase`: a host name that the URL parser gives has no letters beyond ASCII.
unfoldable pub to_lower_case : Text → Text
to_lower_case s = map (λ c. if leb b'A' c && leb c b'Z' then c + 32 else c) s

abbrev pub message_of : Option Refusal → Option String
message_of none = none
message_of (some r) = some (reason r)

abbrev pub is_enabled : Option Text → Bool
is_enabled none = false
is_enabled (some t) = text_eq t true_name

module _ (parse_url : Text → Option Url) (number : Text → Option ℕ) where
  abbrev is_octet : Option ℕ → Bool
  is_octet none = false
  is_octet (some n) = leb n 255

  abbrev is_127 : Option ℕ → Bool
  is_127 none = false
  is_127 (some n) = n == 127

  -- `octets.length === 4 && octets[0] === 127 && octets.every(...)`
  abbrev are_loopback : List (Option ℕ) → Bool
  are_loopback (a ∷ b ∷ c ∷ d ∷ []) = is_127 a && all is_octet (a ∷ b ∷ c ∷ d ∷ [])
  are_loopback _ = false

  -- `isLocalFixtureHost`
  unfoldable pub is_local_fixture_host : Text → Bool
  unfolding to_lower_case
  is_local_fixture_host hostname =
      let normalized = to_lower_case hostname in
      text_eq normalized localhost
      || text_eq normalized jwks_host
      || text_eq normalized loopback
      || are_loopback (map number (split_where (λ c. c == b'.') normalized))

  -- The checks of an address without encryption, in their order
  unfoldable pub insecure_refusal : Environment → Profile → Url → Option Refusal
  unfolding is_local_fixture_host
  insecure_refusal env production url = some insecure_in_production
  insecure_refusal env _ url =
      if not (is_enabled env.allow_insecure_jwks)
      then some insecure_not_enabled
      else if is_local_fixture_host url.hostname
      then none
      else some not_local

  unfoldable pub url_refusal : Environment → Profile → Option Url → Option Refusal
  unfolding insecure_refusal
  url_refusal env profile none = some bad_url
  url_refusal env profile (some url) =
      if text_eq url.protocol https
      then none
      else if not (text_eq url.protocol http)
      then some bad_protocol
      else insecure_refusal env profile url

  unfoldable pub profile_refusal : Environment → Option Profile → Text → Option Refusal
  unfolding url_refusal
  profile_refusal env none value = some bad_profile
  profile_refusal env (some profile) value = url_refusal env profile (parse_url value)

  -- `assertAllowed`
  unfoldable pub assert_allowed : Environment → Text → Option Refusal
  unfolding profile_refusal runtime_profile
  assert_allowed env value = profile_refusal env (runtime_profile env.runtime_profile) value

  -- The policy as the applications service uses it
  abbrev pub policy_of : Environment → Text → Option String
  policy_of env value = message_of (assert_allowed env value)
