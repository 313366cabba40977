-- ===== src/Startup.antt =====
-- What the server reads of its environment when it starts: server/src/common/runtime-config.ts, the
-- allowed origins of server/src/main.ts, and the two times of server/src/realtime/presence.service.ts.
pub mod Hops
pub mod Shutdown
use study_room_sdk.Base.{
  ℕ, ◌+◌, ◌-◌, ◌*◌, Bool, true, false, not, ◌&&◌, ◌||◌, List, [], ◌∷◌, map, Option, none, some, ltb,
  leb, ◌==◌, if◌then◌else◌, any, all, select,
}
use study_room_sdk.Domain.{Text}
use study_room_sdk.Text.{text_eq, trim}
use study_room_sdk.Text.Split.{split_where, is_not_empty}
use study_room_sdk.RateLimit.{EnvNumber, absent, not_a_number, integer, negative, max_safe_integer}

abbrev pub is_digit : ℕ → Bool
is_digit c = leb 48 c && leb c 57

-- `Number` of a text of digits
unfoldable pub number_from : ℕ → Text → ℕ
number_from n [] = n
number_from n (c ∷ s) = number_from (n * 10 + (c - 48)) s

abbrev pub if_safe : ℕ → Option ℕ
if_safe hops = if leb hops max_safe_integer then some hops else none

-- `trustProxyHops`; without a value it throws
unfoldable pub trust_proxy_hops : Option Text → Option ℕ
unfolding number_from
trust_proxy_hops none = some 0
trust_proxy_hops (some []) = some 0
trust_proxy_hops (some (c ∷ s)) =
    if all is_digit (c ∷ s) then if_safe (number_from 0 (c ∷ s)) else none

-- The origins of `STUDY_ROOM_ALLOWED_ORIGINS`
unfoldable pub origins_of : Text → List Text
origins_of value = select is_not_empty (map trim (split_where (λ c. c == b',') value))

-- The set of allowed origins; in production it has to be configured, without a value `bootstrap`
-- throws. `fallback` are the two addresses of a local client.
unfoldable pub allowed_origins : Bool → Text → Option Text → Option (List Text)
unfolding origins_of
allowed_origins is_production fallback none =
    if is_production then none else some (origins_of fallback)
allowed_origins is_production fallback (some []) =
    if is_production then none else some (origins_of [])
allowed_origins is_production fallback (some (c ∷ value)) = some (origins_of (c ∷ value))

-- `origin` of `enableCors`: a request without an origin is let through.
unfoldable pub is_origin_allowed : List Text → Option Text → Bool
is_origin_allowed allowed none = true
is_origin_allowed allowed (some []) = true
is_origin_allowed allowed (some (c ∷ origin)) = any (text_eq (c ∷ origin)) allowed

-- `integerEnvironment`; without a value it throws
unfoldable pub integer_environment : EnvNumber → ℕ → ℕ → ℕ → Option ℕ
integer_environment absent fallback minimum maximum = some fallback
integer_environment (integer n) fallback minimum maximum =
    if not (leb n max_safe_integer) || ltb n minimum || ltb maximum n then none else some n
integer_environment _ fallback minimum maximum = none

-- The constructor of `PresenceService`: the times to live and to refresh, in seconds
unfoldable pub presence_times : EnvNumber → EnvNumber → Option (ℕ × ℕ)
unfolding integer_environment
presence_times ttl refresh =
    times_of (integer_environment ttl 60 3 3600) (integer_environment refresh 20 1 3599)
  where
    times_of : Option ℕ → Option ℕ → Option (ℕ × ℕ)
    times_of (some t) (some r) = if leb t r then none else some (t, r)
    times_of _ _ = none
