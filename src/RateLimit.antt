-- ===== src/RateLimit.antt =====
-- server/src/common/rate-limit.service.ts: fixed windows of a minute, counted in Redis by a script.
-- Here Redis answers; RateLimit/Guards has what happens when it does not.
pub mod Limit
pub mod Refinement
pub mod Guards
use study_room_sdk.Base.{
  ℕ, suc, ◌+◌, ◌-◌, ◌*◌, ◌/◌, ◌%◌, max, Bool, true, false, ◌&&◌, ◌||◌, List, [], ◌∷◌, Option, none,
  some, ltb, leb, ◌==◌, if◌then◌else◌, find?, delete_where,
}

abbrev pub window_ms : ℕ
window_ms = 60000

-- The kinds of clients that are limited
pub data Kind : Type 0 where
  ip app user admin : Kind

abbrev pub same_kind : Kind → Kind → Bool
same_kind ip ip = true
same_kind app app = true
same_kind user user = true
same_kind admin admin = true
same_kind _ _ = false

-- A counter in Redis under `study-room:rate:v2:kind:digest:window`, and when it expires.
pub record Counter : Type 0 where
  pub kind : Kind
  pub identity : ℕ
  pub window : ℕ
  pub hits : ℕ
  pub expires_at : ℕ

abbrev pub counter_of : Kind → ℕ → ℕ → Counter → Bool
counter_of kind identity window c =
    same_kind c.kind kind && c.identity == identity && c.window == window

abbrev pub live_counter : Kind → ℕ → ℕ → ℕ → Counter → Bool
live_counter kind identity window now c = counter_of kind identity window c && ltb now c.expires_at

abbrev pub hits_of : Option Counter → ℕ
hits_of none = 0
hits_of (some c) = c.hits

abbrev pub expiry_of : ℕ → Option Counter → ℕ
expiry_of fresh none = fresh
expiry_of fresh (some c) = c.expires_at

-- `CONSUME_SCRIPT`: `INCR`, and `PEXPIRE` for a counter that is new. It answers with the count and
-- the milliseconds left.
unfoldable pub consume_script : Kind → ℕ → ℕ → ℕ → ℕ → List Counter → (ℕ × ℕ) × List Counter
consume_script kind identity window now expiry_ms counters =
    let found = find? (live_counter kind identity window now) counters in
    let at = expiry_of (now + expiry_ms) found in
    (
      (suc (hits_of found), at - now),
      record {
        kind = kind;
        identity = identity;
        window = window;
        hits = suc (hits_of found);
        expires_at = at;
      }
          ∷ delete_where (counter_of kind identity window) counters,
    )

-- Whether a request is let through, or after how many seconds to try again
pub data Verdict : Type 0 where
  allowed : Verdict
  limited : ℕ → Verdict

-- `Math.ceil(ms / 1000)`
abbrev pub seconds_up : ℕ → ℕ
seconds_up ms = (ms + 999) / 1000

abbrev pub verdict : ℕ → ℕ × ℕ → Verdict
verdict limit (hits, ttl) =
    if ltb limit hits then limited (max 1 (seconds_up (max 1 ttl))) else allowed

-- `consume`
unfoldable pub consume : Kind → ℕ → ℕ → ℕ → List Counter → Verdict × List Counter
unfolding consume_script
consume kind identity limit now counters =
    let (answer, after) =
      consume_script kind identity (now / window_ms) now (window_ms - now % window_ms) counters in
    (verdict limit answer, after)

-- What `Number(process.env[name])` can yield
pub data EnvNumber : Type 0 where
  absent not_a_number : EnvNumber
  integer : ℕ → EnvNumber
  negative : EnvNumber

abbrev pub max_safe_integer : ℕ
max_safe_integer = 9007199254740991

-- `configuredLimit`
unfoldable pub configured_limit : EnvNumber → ℕ → ℕ
configured_limit (integer n) fallback = if leb n max_safe_integer && ltb 0 n then n else fallback
configured_limit _ fallback = fallback
