-- ===== src/RateLimit/Limit.antt =====
-- How many requests `consume` of `RateLimitService` lets through in a window.
use native.Mathlib.Numerals.{unary_clauses}
use study_room_sdk.Base.{
  ℕ, zero, suc, ◌+◌, ◌-◌, ◌*◌, ◌/◌, ◌%◌, min, ◌≡◌, ◌∙◌, refl, Bool, true, false, not, inl, inr,
  ◌&&◌, ◌||◌, List, [], ◌∷◌, none, some, arith, ltb, ◌==◌, if◌then◌else◌, Bool-cases, find?, all,
  count, find?-delete_where,
}
use study_room_sdk.RateLimit.{
  Kind, ip, app, user, admin, same_kind, Counter, counter_of, live_counter, consume_script, Verdict,
  allowed, limited, consume, window_ms,
}

-- A request of a client: its kind, the client and the time.
pub record Request : Type 0 where
  pub kind : Kind
  pub identity : ℕ
  pub at : ℕ

abbrev pub is_from : Kind → ℕ → Request → Bool
is_from kind identity r = same_kind r.kind kind && r.identity == identity

abbrev pub is_allowed : Verdict → Bool
is_allowed allowed = true
is_allowed (limited _) = false

-- How many requests of a client are let through, of all the requests that are served in turn.
pub let_through : (Kind → ℕ) → Kind → ℕ → List Request → List Counter → ℕ
let_through limit kind identity [] counters = 0
let_through limit kind identity (r ∷ rs) counters =
    let (v, after) = consume r.kind r.identity (limit r.kind) r.at counters in
    let rest = let_through limit kind identity rs after in
    if is_from kind identity r && is_allowed v then suc rest else rest

-- A request of the client lies in the window `k`.
abbrev pub in_window : Kind → ℕ → ℕ → Request → Bool
in_window kind identity k r = not (is_from kind identity r) || r.at / window_ms == k

-- The counter of the client in the window `k` has `n` hits and lives until the window ends; with no
-- hits there is none.
unfoldable pub Stands : Kind → ℕ → ℕ → ℕ → List Counter → Type 0
Stands kind identity k zero counters = find? (counter_of kind identity k) counters ≡ none
Stands kind identity k (suc n) counters =
    (c : Counter) × (find? (counter_of kind identity k) counters ≡ some c)
    × (c.hits ≡ suc n)
    × (c.expires_at ≡ window_ms * suc k)

same_kind_refl : (k : Kind) → same_kind k k ≡ true
same_kind_refl ip = refl
same_kind_refl app = refl
same_kind_refl user = refl
same_kind_refl admin = refl

module _ (kind : Kind) (identity k : ℕ) where
  live_of_found :
      (now : ℕ) (cs : List Counter) {c : Counter}
      → find? (counter_of kind identity k) cs ≡ some c
      → ltb now c.expires_at ≡ true
      → find? (live_counter kind identity k now) cs ≡ some c
  unfolding find?
  live_of_found now [] h e = h
  live_of_found now (x ∷ xs) {c} h e = ground (arith, live_of_found now xs {c = c})

  live_of_none :
      (now : ℕ) (cs : List Counter)
      → find? (counter_of kind identity k) cs ≡ none
      → find? (live_counter kind identity k now) cs ≡ none
  unfolding find?
  live_of_none now [] h = refl
  live_of_none now (x ∷ xs) h = ground (arith, live_of_none now xs)

  window_end :
      (now : ℕ) → now / window_ms ≡ k → now + (window_ms - now % window_ms) ≡ window_ms * suc k
  window_end now h = omega arith

  before_end : (now : ℕ) → now / window_ms ≡ k → ltb now (window_ms * suc k) ≡ true
  before_end now h = ground arith

  -- A request of the client in the window: it is let through when the hits were below the limit.
  pub own_request :
      (n limit now : ℕ) (cs : List Counter)
      → now / window_ms ≡ k
      → Stands kind identity k n cs
      → Stands kind identity k (suc n) (consume kind identity limit now cs).1
        × (is_allowed (consume kind identity limit now cs).0 ≡ ltb n limit)
  unfolding consume consume_script Stands find?
  own_request zero limit now cs w h =
      rw (w, live_of_none now cs h)
        (
          (
            record {
              kind = kind;
              identity = identity;
              window = k;
              hits = 1;
              expires_at = now + (window_ms - now % window_ms);
            },
            ground (arith, same_kind_refl kind),
            refl,
            window_end now w,
          ),
          ground arith,
        )
  own_request (suc n) limit now cs w (c, found, hits, ends) =
      rw (w, live_of_found now cs found (rw ends (before_end now w)))
        (
          (
            record {
              kind = kind;
              identity = identity;
              window = k;
              hits = suc c.hits;
              expires_at = c.expires_at;
            },
            ground (arith, same_kind_refl kind),
            rw hits refl,
            ends,
          ),
          ground arith,
        )

pub same_kind_sound : (a b : Kind) → same_kind a b ≡ true → a ≡ b
same_kind_sound ip ip h = refl
same_kind_sound app app h = refl
same_kind_sound user user h = refl
same_kind_sound admin admin h = refl
same_kind_sound ip app h = cc
same_kind_sound ip user h = cc
same_kind_sound ip admin h = cc
same_kind_sound app ip h = cc
same_kind_sound app user h = cc
same_kind_sound app admin h = cc
same_kind_sound user ip h = cc
same_kind_sound user app h = cc
same_kind_sound user admin h = cc
same_kind_sound admin ip h = cc
same_kind_sound admin app h = cc
same_kind_sound admin user h = cc

-- A counter of another client is not the client's.
apart :
    (kind : Kind) (identity k : ℕ) (r : Request) (window : ℕ) (c : Counter)
    → is_from kind identity r ≡ false
    → counter_of r.kind r.identity window c ≡ true
    → counter_of kind identity k c ≡ false
apart kind identity k r window c other own =
    let same : c.kind ≡ r.kind = same_kind_sound c.kind r.kind (ground arith) in
    rw same (ground arith)

-- A request of another client leaves the counter alone.
other_request :
    (kind : Kind) (identity k limit : ℕ) (r : Request) (cs : List Counter)
    → is_from kind identity r ≡ false
    → find? (counter_of kind identity k) (consume r.kind r.identity limit r.at cs).1
      ≡ find? (counter_of kind identity k) cs
unfolding consume consume_script find?
other_request kind identity k limit r cs other = ground (
  arith,
  find?-delete_where (counter_of kind identity k) (counter_of r.kind r.identity (r.at / window_ms))
      cs (λ x h. apart kind identity k r (r.at / window_ms) x other h),
)

other-Stands :
    (kind : Kind) (identity k n limit : ℕ) (r : Request) (cs : List Counter)
    → is_from kind identity r ≡ false
    → Stands kind identity k n cs
    → Stands kind identity k n (consume r.kind r.identity limit r.at cs).1
unfolding Stands
other-Stands kind identity k zero limit r cs other h =
    other_request kind identity k limit r cs other ∙ h
other-Stands kind identity k (suc n) limit r cs other (c, found, hits, ends) =
    (c, other_request kind identity k limit r cs other ∙ found, hits, ends)

-- The requests `rs` let through a client whose counter stands at `n`.
abbrev Lets : (Kind → ℕ) → Kind → ℕ → ℕ → ℕ → List Request → List Counter → Type 0
Lets limit kind identity k n rs cs =
    let_through limit kind identity rs cs ≡ min (limit kind - n) (count (is_from kind identity) rs)

module _ (limit : Kind → ℕ) (kind : Kind) (identity k n : ℕ) (r : Request) (rs : List Request)
    (cs : List Counter) (h : Stands kind identity k n cs) where
  own_step :
      all (in_window kind identity k) (r ∷ rs) ≡ true
      → ((m : ℕ) (ds : List Counter)
          → Stands kind identity k m ds
          → Lets limit kind identity k m rs ds)
      → is_from kind identity r ≡ true
      → Lets limit kind identity k n (r ∷ rs) cs
  unfolding let_through all count
  own_step w rest own =
      let kinds : r.kind ≡ kind = same_kind_sound r.kind kind (ground arith) in
      let clients : r.identity ≡ identity = ground arith in
      let there : r.at / window_ms ≡ k = ground arith in
      let (next, answer) = own_request kind identity k n (limit kind) r.at cs there h in
      rw (own, kinds, clients, answer, rest (suc n) _ next) (ground arith)

  other_step :
      ((m : ℕ) (ds : List Counter)
        → Stands kind identity k m ds
        → Lets limit kind identity k m rs ds)
      → is_from kind identity r ≡ false
      → Lets limit kind identity k n (r ∷ rs) cs
  unfolding let_through count
  other_step rest other =
      rw other (rest n _ (other-Stands kind identity k n (limit r.kind) r cs other h))

let_through_from :
    (limit : Kind → ℕ) (kind : Kind) (identity k : ℕ) (rs : List Request)
    → all (in_window kind identity k) rs ≡ true
    → (n : ℕ) (cs : List Counter) → Stands kind identity k n cs
    → Lets limit kind identity k n rs cs
unfolding let_through all count
let_through_from limit kind identity k [] w n cs h = omega arith
let_through_from limit kind identity k (r ∷ rs) w n cs h =
    let inside : all (in_window kind identity k) rs ≡ true = ground arith in
    let rest = let_through_from limit kind identity k rs inside in
    elim (Bool-cases (is_from kind identity r)) [
      | inl own ↦ own_step limit kind identity k n r rs cs h w rest own
      | inr other ↦ other_step limit kind identity k n r rs cs h rest other
    ]

-- In a window of a minute in which a client has no counter yet, whatever other clients do in
-- between, exactly as many of the client's requests are let through as its limit allows: all of
-- them up to the limit, and none above it.
pub window_limit :
    (limit : Kind → ℕ) (kind : Kind) (identity k : ℕ) (rs : List Request) (cs : List Counter)
    → find? (counter_of kind identity k) cs ≡ none
    → all (in_window kind identity k) rs ≡ true
    → let_through limit kind identity rs cs ≡ min (limit kind) (count (is_from kind identity) rs)
unfolding Stands
window_limit limit kind identity k rs cs h w =
    simp unary_clauses at (let_through_from limit kind identity k rs w zero cs h)
