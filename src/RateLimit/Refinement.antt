-- ===== src/RateLimit/Refinement.antt =====
-- What the rate limit promises: a request is let through if fewer requests of the client than its
-- limit came before it in the same minute. The counters in Redis are an implementation of that.
use study_room_sdk.Base.{
  ℕ, zero, suc, ◌/◌, ◌≡◌, ◌∙◌, refl, Bool, true, false, inl, inr, ◌&&◌, List, [], ◌∷◌, arith, ltb,
  ◌==◌, Bool-cases, find?, count, find?-delete_where,
}
use study_room_sdk.RateLimit.{Kind, Counter, counter_of, consume, consume_script, window_ms}
use study_room_sdk.RateLimit.Limit.{
  Request, is_from, is_allowed, Stands, own_request, same_kind_sound,
}

-- The requests of a client in a window
abbrev pub is_within : Kind → ℕ → ℕ → Request → Bool
is_within kind identity k r = is_from kind identity r && r.at / window_ms == k

-- The specification: the state is the log of the requests, the latest first.
pub admits : (Kind → ℕ) → Request → List Request → Bool
admits limit r log = ltb (count (is_within r.kind r.identity (r.at / window_ms)) log) (limit r.kind)

pub specified : (Kind → ℕ) → List Request → List Request → List Bool
specified limit [] log = []
specified limit (r ∷ rs) log = admits limit r log ∷ specified limit rs (r ∷ log)

-- The answers of `consume` to requests in turn
pub answers : (Kind → ℕ) → List Request → List Counter → List Bool
answers limit [] cs = []
answers limit (r ∷ rs) cs =
    let (v, after) = consume r.kind r.identity (limit r.kind) r.at cs in
    is_allowed v ∷ answers limit rs after

-- Every client's counter of every window has as many hits as the log has requests.
pub Represents : List Request → List Counter → Type 0
Represents log cs =
    (kind : Kind) (identity k : ℕ)
    → Stands kind identity k (count (is_within kind identity k) log) cs

-- A counter of another client or another window is not this one.
other_counter :
    (kind : Kind) (identity k : ℕ) (r : Request) (c : Counter)
    → is_within kind identity k r ≡ false
    → counter_of r.kind r.identity (r.at / window_ms) c ≡ true
    → counter_of kind identity k c ≡ false
other_counter kind identity k r c other own =
    let same : c.kind ≡ r.kind = same_kind_sound c.kind r.kind (ground arith) in
    rw same (ground arith)

elsewhere :
    (kind : Kind) (identity k limit : ℕ) (r : Request) (cs : List Counter)
    → is_within kind identity k r ≡ false
    → find? (counter_of kind identity k) (consume r.kind r.identity limit r.at cs).1
      ≡ find? (counter_of kind identity k) cs
unfolding consume consume_script find?
elsewhere kind identity k limit r cs other = ground (
  arith,
  find?-delete_where (counter_of kind identity k) (counter_of r.kind r.identity (r.at / window_ms))
      cs (λ c h. other_counter kind identity k r c other h),
)

elsewhere-Stands :
    (kind : Kind) (identity k n limit : ℕ) (r : Request) (cs : List Counter)
    → is_within kind identity k r ≡ false
    → Stands kind identity k n cs
    → Stands kind identity k n (consume r.kind r.identity limit r.at cs).1
unfolding Stands
elsewhere-Stands kind identity k zero limit r cs other h =
    elsewhere kind identity k limit r cs other ∙ h
elsewhere-Stands kind identity k (suc n) limit r cs other (c, found, hits, ends) =
    (c, elsewhere kind identity k limit r cs other ∙ found, hits, ends)

step-Stands :
    (kind : Kind) (identity k n limit : ℕ) (r : Request) (cs : List Counter)
    → is_within kind identity k r ≡ true
    → Stands kind identity k n cs
    → Stands kind identity k (suc n) (consume r.kind r.identity limit r.at cs).1
step-Stands kind identity k n limit r cs own h =
    let kinds : r.kind ≡ kind = same_kind_sound r.kind kind (ground arith) in
    let clients : r.identity ≡ identity = ground arith in
    rw (kinds, clients) (own_request kind identity k n limit r.at cs (ground arith) h).0

consume-Represents :
    (limit : Kind → ℕ) (r : Request) (log : List Request) (cs : List Counter)
    → Represents log cs
    → Represents (r ∷ log) (consume r.kind r.identity (limit r.kind) r.at cs).1
unfolding Represents count
consume-Represents limit r log cs h kind identity k =
    elim (Bool-cases (is_within kind identity k r)) [
      | inl own ↦ rw own (step-Stands kind identity k _ (limit r.kind) r cs own (h kind identity k))
      | inr other ↦
          rw other
            (elsewhere-Stands kind identity k _ (limit r.kind) r cs other (h kind identity k))
    ]

consume-admits :
    (limit : Kind → ℕ) (r : Request) (log : List Request) (cs : List Counter)
    → Represents log cs
    → is_allowed (consume r.kind r.identity (limit r.kind) r.at cs).0 ≡ admits limit r log
unfolding Represents admits
consume-admits limit r log cs h =
    (own_request r.kind r.identity (r.at / window_ms) _ (limit r.kind) r.at cs refl
      (h r.kind r.identity (r.at / window_ms))).1

-- From counters that represent a log, the answers to any further requests, of any clients and at any
-- times, are those of the specification: a request is let through exactly if fewer requests of its
-- client in the same minute came before it than its limit allows.
pub consume_refines :
    (limit : Kind → ℕ) (rs log : List Request) (cs : List Counter)
    → Represents log cs
    → answers limit rs cs ≡ specified limit rs log
unfolding answers specified
consume_refines limit [] log cs h = refl
consume_refines limit (r ∷ rs) log cs h =
    rw
      (
        consume-admits limit r log cs h,
        consume_refines limit rs (r ∷ log) _ (consume-Represents limit r log cs h),
      )
      refl

-- No counters represent no requests.
pub nothing-Represents : Represents [] []
unfolding Represents Stands count find?
nothing-Represents kind identity k = refl
