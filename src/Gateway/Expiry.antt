-- ===== src/Gateway/Expiry.antt =====
-- `scheduleExpiry` of server/src/realtime/realtime.gateway.ts. A timer of the platform takes at most
-- 2147483647 milliseconds, so that a later expiry is reached by a chain of timers. `wake` is the time
-- at which a timer that was set at a time with a delay goes off.
use study_room_sdk.Base.{
  ℕ, zero, suc, ◌+◌, ◌-◌, ◌*◌, ◌≤◌, ◌<◌, min, max, ◌≡◌, refl, Option, none, some, arith, ltb,
  if◌then◌else◌, Bool-cases, inl, inr,
}

abbrev pub maximum_delay : ℕ
maximum_delay = 2147483647

abbrev pub delay : ℕ → ℕ → ℕ
delay expires_at now = min (expires_at - now) maximum_delay

-- The time at which the socket is told `token_expired` and disconnected, if `fuel` timers are
-- enough for it.
unfoldable pub schedule_expiry : (ℕ → ℕ → ℕ) → ℕ → ℕ → ℕ → Option ℕ
schedule_expiry wake expires_at zero now = none
schedule_expiry wake expires_at (suc fuel) now =
    let later = wake now (delay expires_at now) in
    let again = schedule_expiry wake expires_at fuel later in
    if ltb later expires_at then again else some later

module _ (wake : ℕ → ℕ → ℕ) (late : ℕ)
    (punctual : (now d : ℕ)
      → d ≤ 2147483647
      → (now + d ≤ wake now d) × (wake now d ≤ now + d + late)) where
  -- Timers of at most 2147483647 milliseconds that go off at most `late` milliseconds too late, and
  -- never too early, while nothing is known of longer ones: the socket is
  -- disconnected when the token has expired, not earlier and at most `late` milliseconds later (or
  -- after the start, if the token had expired then); one timer for each 2147483647 milliseconds that
  -- remain and one more are enough.
  pub schedule_expiry_disconnects :
      (expires_at fuel now : ℕ)
      → expires_at - now < fuel * maximum_delay
      → (t : ℕ) × (schedule_expiry wake expires_at fuel now ≡ some t)
        × (expires_at ≤ t)
        × (t ≤ max now expires_at + late)
  unfolding schedule_expiry
  schedule_expiry_disconnects expires_at zero now h = ground arith
  schedule_expiry_disconnects expires_at (suc fuel) now h =
      let later = wake now (delay expires_at now) in
      let (early, on_time) = punctual now (delay expires_at now) (omega arith) in
      elim (Bool-cases (ltb later expires_at)) [
        | inl e ↦
            let (t, r, a, b) =
              schedule_expiry_disconnects expires_at fuel later
                (let k : later < expires_at = ground arith in omega arith) in
            (t, rw e r, a, (let k : later < expires_at = ground arith in omega arith))
        | inr e ↦ let k : expires_at ≤ later = ground arith in (later, rw e refl, k, omega arith)
      ]
