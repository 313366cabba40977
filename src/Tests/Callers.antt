-- ===== src/Tests/Callers.antt =====
-- The theorems on who a caller is, on the addresses of keys, on the limits and on what is configured.
use study_room_sdk.Auth.Clients.{
  JwksClient, AreSound, client, if_allowed, find_or_add, add_client, cache_max_age_of,
  client_served,
}
use study_room_sdk.Base.{
  ℕ, count, ◌≡◌, refl, List, [], ◌∷◌, Option, none, some, arith, if◌then◌else◌, length, All, any,
  find?,
}
use study_room_sdk.Domain.{Text, Identity, Application}
use study_room_sdk.Text.{text_eq, trim, is_space}
use study_room_sdk.Applications.{Applications, Policy, get, get_enabled, check_at_start}
use study_room_sdk.Applications.JwksUriPolicy.{Url, Environment, https, assert_allowed}
use study_room_sdk.Applications.Https.{Call, creates, IsHttps, https_policy, run, run-IsHttps}
use study_room_sdk.Auth.{verify_user_token}
use study_room_sdk.Service.Monad.{done}
use study_room_sdk.Claims.{
  cache_time, text, number, missing, Payload, claims, rs256, Jwt, Tenants, next,
}
use study_room_sdk.Auth.Users.{IsStored}
use study_room_sdk.Auth.Tokens.{IsAccepted, verify_user_token_sound}
use study_room_sdk.RateLimit.{Kind, user}
use study_room_sdk.RateLimit.Limit.{Request}
use study_room_sdk.RateLimit.Refinement.{answers, specified, consume_refines, nothing-Represents}
use study_room_sdk.Startup.{trust_proxy_hops}
use study_room_sdk.Startup.Hops.{decimal, trust_proxy_hops-decimal}
use study_room_sdk.Tests.Data.{application}

-- An address with encryption and one without.
abbrev secure_uri : Text
secure_uri = b's' ∷ []

abbrev insecure_uri : Text
insecure_uri = b'i' ∷ []

abbrev parsed : Text → Option Url
parsed value =
    if text_eq value secure_uri
    then some (record { protocol = https; hostname = [] })
    else some (record { protocol = []; hostname = [] })

abbrev no_number : Text → Option ℕ
no_number label = none

-- Nothing is configured: the profile is production.
abbrev unconfigured : Environment
unconfigured = record { runtime_profile = none; allow_insecure_jwks = none }

abbrev tenant : Application
tenant = record application { jwks_uri = secure_uri }

abbrev stored : Applications
stored = record { rows = tenant ∷ []; cache = []; audit_logs = []; published = [] }

abbrev calls : List Call
calls =
    creates 1 (record tenant { app_id = 8 })
    ∷ creates 1 (record tenant { app_id = 9; jwks_uri = insecure_uri })
    ∷ []

run-IsHttps_example :
    All
      (λ a. IsHttps parsed no_number a.jwks_uri)
      (run (https_policy parsed no_number unconfigured) calls stored).rows
unfolding assert_allowed check_at_start text_eq
run-IsHttps_example = run-IsHttps parsed no_number unconfigured calls stored refl refl

abbrev b_text : Text
b_text = b'b' ∷ []

-- A string stands for its length.
abbrev by_length : Text → ℕ
by_length s = length s

abbrev payload : Payload
payload = record {
  sub = text b_text;
  app_id = text (1 ∷ 1 ∷ 1 ∷ 1 ∷ 1 ∷ 1 ∷ 1 ∷ []);
  display_name = text b_text;
  avatar_url = missing;
  exp = number 90;
  scope = missing;
}

-- One token is good, and all others cannot be read.
abbrev one_token : Jwt
one_token = record {
  Key = ℕ;
  decode = λ t. if text_eq t b_text then some (claims payload) else none;
  decode_complete = λ t. some (record { kid = some b_text; alg = some rs256 }, claims payload);
  get_signing_key = λ uri kid. some 5;
  verify = λ t key allowed issuer audience. some (claims payload);
}

abbrev allow_all : Policy
allow_all uri = none

abbrev tenants : Tenants
tenants = record { applications = stored; users = []; upsert_throws = λ i. none }

abbrev caller : Identity
caller = record {
  user_id = 1;
  app_id = 7;
  display_name = b_text;
  avatar_url = [];
  expires_at = 90000;
}

verify_user_token_sound_example :
    IsAccepted one_token allow_all by_length 5 b_text tenants caller
    × IsStored caller [] (verify_user_token one_token allow_all by_length 5 b_text tenants).1.users
unfolding verify_user_token get_enabled get text_eq trim is_space find? any next
verify_user_token_sound_example =
    verify_user_token_sound one_token allow_all by_length 5 b_text tenants caller refl

abbrev request_at : ℕ → Request
request_at t = record { kind = user; identity = 5; at = t }

abbrev two_each : Kind → ℕ
two_each k = 2

consume_refines_example :
    answers two_each (request_at 1 ∷ request_at 59999 ∷ request_at 2 ∷ request_at 60000 ∷ []) []
    ≡ specified two_each (request_at 1 ∷ request_at 59999 ∷ request_at 2 ∷ request_at 60000 ∷ []) []
consume_refines_example =
    consume_refines two_each
      (request_at 1 ∷ request_at 59999 ∷ request_at 2 ∷ request_at 60000 ∷ []) [] []
      nothing-Represents

trust_proxy_hops-decimal_example : trust_proxy_hops (some (decimal 42)) ≡ some 42
trust_proxy_hops-decimal_example = trust_proxy_hops-decimal 42 (omega arith)

-- A client is there for one address, and another one is asked for.
abbrev old_client : JwksClient
old_client = record { jwks_uri = b'a' ∷ []; cache_max_age = 2000 }

abbrev new_client : JwksClient
new_client = record { jwks_uri = b'b' ∷ []; cache_max_age = 300000 }

abbrev any_address : Policy
any_address uri = none

one_client : AreSound any_address (old_client ∷ [])
unfolding count
one_client = (((refl, omega arith, omega arith), tt), λ uri. ground arith)

client_served_example :
    AreSound any_address (old_client ∷ new_client ∷ [])
    × (new_client.jwks_uri ≡ b'b' ∷ [])
    × (client any_address (some 5000) (b'b' ∷ []) (old_client ∷ new_client ∷ [])
        ≡ (done new_client, old_client ∷ new_client ∷ []))
client_served_example =
    client_served any_address (some 300000) (some 5000) (b'b' ∷ []) (old_client ∷ []) new_client
      (old_client ∷ new_client ∷ []) one_client
      (unfold client if_allowed find_or_add add_client cache_max_age_of cache_time next find?
          text_eq in
        refl)
