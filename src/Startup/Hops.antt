-- ===== src/Startup/Hops.antt =====
-- The number of trusted proxies, printed and read back.
use study_room_sdk.Base.{
  ℕ, zero, suc, ◌+◌, ◌-◌, ◌*◌, ◌/◌, ◌%◌, ◌≤◌, ◌<◌, ◌≡◌, ap, refl, inl, inr, true, [], ◌∷◌, some,
  ltb, if◌then◌else◌, all, arith, Bool-cases,
}
use study_room_sdk.Domain.{Text}
use study_room_sdk.RateLimit.{max_safe_integer}
use study_room_sdk.Startup.{is_digit, number_from, trust_proxy_hops}

-- The digits of `n` before `rest`; one unit of fuel for each digit.
unfoldable pub digits_before : ℕ → ℕ → Text → Text
digits_before zero n rest = rest
digits_before (suc fuel) n rest =
    let more = digits_before fuel (n / 10) ((48 + n % 10) ∷ rest) in
    if ltb n 10 then (48 + n) ∷ rest else more

-- `String` of a whole number
unfoldable pub decimal : ℕ → Text
unfolding digits_before
decimal n = digits_before (suc n) n []

number_from-digits :
    (fuel n : ℕ) (rest : Text)
    → n < fuel
    → number_from 0 (digits_before fuel n rest) ≡ number_from n rest
unfolding digits_before number_from
number_from-digits zero n rest h = ground arith
number_from-digits (suc fuel) n rest h = elim (Bool-cases (ltb n 10)) [
  | inl e ↦ let q : 0 + (48 + n - 48) ≡ n = omega arith in rw e (ap (λ m. number_from m rest) q)
  | inr e ↦
      let big : 10 ≤ n = ground arith in
      let back : n / 10 * 10 + (48 + n % 10 - 48) ≡ n = omega arith in
      rw (e, number_from-digits fuel (n / 10) ((48 + n % 10) ∷ rest) (omega arith), back) refl
]

all-digits :
    (fuel n : ℕ) (rest : Text)
    → all is_digit rest ≡ true
    → all is_digit (digits_before fuel n rest) ≡ true
unfolding digits_before all
all-digits zero n rest h = h
all-digits (suc fuel) n rest h = elim (Bool-cases (ltb n 10)) [
  | inl e ↦ rw e (ground arith)
  | inr e ↦ rw e (
      all-digits fuel (n / 10) ((48 + n % 10) ∷ rest)
        (let k : n % 10 < 10 = omega arith in ground arith))
]

digits_not_empty :
    (fuel n : ℕ) (rest : Text)
    → n < fuel
    → (c : ℕ) × (s : Text) × (digits_before fuel n rest ≡ c ∷ s)
unfolding digits_before
digits_not_empty zero n rest h = ground arith
digits_not_empty (suc fuel) n rest h = elim (Bool-cases (ltb n 10)) [
  | inl e ↦ (48 + n, rest, rw e refl)
  | inr e ↦
      let (c, s, q) =
        digits_not_empty fuel (n / 10) ((48 + n % 10) ∷ rest)
          (let big : 10 ≤ n = ground arith in omega arith) in
      (c, s, rw (e, q) refl)
]

read_digits :
    (s : Text) (n : ℕ) {c : ℕ} {t : Text}
    → s ≡ c ∷ t
    → all is_digit s ≡ true
    → number_from 0 s ≡ n
    → n ≤ max_safe_integer
    → trust_proxy_hops (some s) ≡ some n
unfolding trust_proxy_hops number_from
read_digits [] n q digits value safe = cc
read_digits (x ∷ s) n q digits value safe = rw (digits, value) (ground arith)

-- A number of proxies that a configuration prints in decimal is read back as that number, if it is
-- a safe integer.
pub trust_proxy_hops-decimal :
    (n : ℕ) → n ≤ max_safe_integer → trust_proxy_hops (some (decimal n)) ≡ some n
unfolding decimal all number_from
trust_proxy_hops-decimal n safe =
    let (c, s, q) = digits_not_empty (suc n) n [] (omega arith) in
    read_digits (digits_before (suc n) n []) n q (all-digits (suc n) n [] refl)
      (number_from-digits (suc n) n [] (omega arith)) safe
