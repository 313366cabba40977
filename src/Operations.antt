-- ===== src/Operations.antt =====
-- server/src/operations/operations.controller.ts and metrics.interceptor.ts,
-- server/src/common/request-context.middleware.ts with server/src/telemetry-marker.ts, and the handlers
-- of server/src/redis/redis.service.ts. `after` is the time that a dependency takes to
-- answer, in milliseconds; nothing stands for one that never does.
use study_room_sdk.Base.{
  ℕ, ◌-◌, Bool, true, false, ◌&&◌, ◌||◌, List, [], ◌∷◌, ◌++◌, Option, none, some, ltb, leb, ◌==◌,
  if◌then◌else◌, find?, any, all, length, update_where,
}
use study_room_sdk.Domain.{Text}
use study_room_sdk.Text.{text_eq}
use study_room_sdk.Service.Monad.{Outcome, done, thrown, unavailable, message}

abbrev pub readiness_deadline_ms : ℕ
readiness_deadline_ms = 3000

-- How a dependency answers: after some time whether it is available, or never.
pub data Probe : Type 0 where
  answers : ℕ → Bool → Probe
  silent : Probe

-- `Promise.all` of the two, and `withDeadline`
abbrev pub in_time : Probe → Bool
in_time silent = false
in_time (answers after available) = ltb after readiness_deadline_ms && available

-- `ready`
unfoldable pub ready : Probe → Probe → Outcome (Unit {0})
ready database redis =
    if in_time database && in_time redis
    then done tt
    else thrown (unavailable (message "Dependencies are unavailable"))

-- The identifier of a request: the header `x-request-id`, if it is not empty and has at most 128
-- units, else a drawn one.
unfoldable pub request_id : Text → Option Text → Text
request_id drawn (some (c ∷ incoming)) =
    if leb (length (c ∷ incoming)) 128 then c ∷ incoming else drawn
request_id drawn _ = drawn

-- The handlers of a channel, in the order of their subscription
pub record Channel (S : Type 0) : Type 0 where
  pub name : ℕ
  pub handlers : List (Text → S → S)

module _ {S : Type 0} where
  -- `RedisService.subscribe`: the first handler of a channel subscribes to it.
  unfoldable pub subscribe : ℕ → (Text → S → S) → List (Channel S) → List (Channel S)
  subscribe channel handler cs =
      if any (λ c. c.name == channel) cs
      then update_where (λ c. c.name == channel)
          (λ c. record c { handlers = c.handlers ++ handler ∷ [] }) cs
      else cs ++ record { name = channel; handlers = handler ∷ [] } ∷ []

  abbrev run_handlers : List (Text → S → S) → Text → S → S
  run_handlers [] t s = s
  run_handlers (h ∷ hs) t s = run_handlers hs t (h t s)

  abbrev handlers_of : Option (Channel S) → List (Text → S → S)
  handlers_of none = []
  handlers_of (some c) = c.handlers

  -- What a message on a channel does; a handler that throws leaves the state that it reached.
  unfoldable pub on_message : ℕ → Text → List (Channel S) → S → S
  on_message channel t cs s = run_handlers (handlers_of (find? (λ c. c.name == channel) cs)) t s

-- `method`, `route` and `status`
pub record Labels : Type 0 where
  pub method : Text
  pub route : Text
  pub status : ℕ

-- The histogram of durations in nanoseconds and the counter of errors, the latest first.
pub record HttpMetrics : Type 0 where
  pub durations : List (Labels × ℕ)
  pub errors : List Labels

-- `'unmatched'`
abbrev pub unmatched : Text
unmatched = b'u' ∷ b'n' ∷ b'm' ∷ b'a' ∷ b't' ∷ b'c' ∷ b'h' ∷ b'e' ∷ b'd' ∷ []

abbrev pub route_of : Text → Text
route_of [] = unmatched
route_of (c ∷ s) = c ∷ s

-- What `MetricsInterceptor.intercept` records when a request is finished, whether it failed or not.
-- `path` is the route's path, or empty.
unfoldable pub observe : Bool → Text → Text → Text → ℕ → ℕ → ℕ → HttpMetrics → HttpMetrics
observe false method base path status started ended m = m
observe true method base path status started ended m =
    let labels : Labels = record {
      method = method;
      route = route_of (base ++ path);
      status = status;
    } in
    record {
      durations = (labels, ended - started) ∷ m.durations;
      errors = if leb 400 status then labels ∷ m.errors else m.errors;
    }

abbrev is_alphanumeric : ℕ → Bool
is_alphanumeric c =
    (leb b'A' c && leb c b'Z') || (leb b'a' c && leb c b'z') || (leb b'0' c && leb c b'9')

abbrev is_marker_character : ℕ → Bool
is_marker_character c = is_alphanumeric c || c == b'.' || c == b'_' || c == b':' || c == b'-'

-- `^[A-Za-z0-9][A-Za-z0-9._:-]{0,127}$`
abbrev pub is_marker : Text → Bool
is_marker [] = false
is_marker (c ∷ s) = is_alphanumeric c && leb (length s) 127 && all is_marker_character s

-- `'test'`
abbrev pub test_profile : Text
test_profile = b't' ∷ b'e' ∷ b's' ∷ b't' ∷ []

-- `applyE2eTraceMarker`: the attribute that a span gets, if any. A header that is repeated is no
-- string.
unfoldable pub trace_marker : Option Text → List Text → Option Text
trace_marker (some profile) (marker ∷ []) =
    if text_eq profile test_profile && is_marker marker then some marker else none
trace_marker _ _ = none
