-- ===== src/Base/Counting.antt =====
-- How the selections, counts and searches of Base/Rows.antt change with the rows.
use Prim.Native.Nat.{ℕ, suc, ◌≤◌, ◌<◌}
use mathlib.Core.Path.{◌≡◌, refl}
use mathlib.Core.Bool.{Bool, true, false, not, ◌&&◌}
use mathlib.Core.List.{List, [], ◌∷◌, ◌++◌}
use mathlib.Core.Option.{none, some}
use native.Mathlib.Omega.{arith}
use study_room_sdk.Base.Tests.{if◌then◌else◌}
use study_room_sdk.Base.Rows.{find?, any, count, update_where, delete_where}

module _ {ℓ} {A : Type ℓ} where
  pub find?-holds : (p : A → Bool) (xs : List A) {x : A} → find? p xs ≡ some x → p x ≡ true
  unfolding find?
  find?-holds p [] {x} h = cc
  find?-holds p (y ∷ ys) {x} h = ground (arith, find?-holds p ys {x = x})

  pub find?-any : (p : A → Bool) (xs : List A) {x : A} → find? p xs ≡ some x → any p xs ≡ true
  unfolding find? any
  find?-any p [] {x} h = cc
  find?-any p (y ∷ ys) {x} h = ground (arith, find?-any p ys {x = x})

  pub find?-none : (p : A → Bool) (xs : List A) → any p xs ≡ false → find? p xs ≡ none
  unfolding find? any
  find?-none p [] h = refl
  find?-none p (y ∷ ys) h = ground (arith, find?-none p ys)

  pub find?-append :
      (p : A → Bool) (xs : List A) (x : A)
      → any p xs ≡ false
      → p x ≡ true
      → find? p (xs ++ x ∷ []) ≡ some x
  unfolding find? any
  find?-append p [] x h k = ground arith
  find?-append p (y ∷ ys) x h k = ground (arith, find?-append p ys x)

  pub any-append_one :
      (p : A → Bool) (xs : List A) (x : A) → any p (xs ++ x ∷ []) ≡ (if any p xs then true else p x)
  unfolding any
  any-append_one p [] x = ground arith
  any-append_one p (y ∷ ys) x = ground (arith, any-append_one p ys x)

  pub count-append_one :
      (p : A → Bool) (xs : List A) (x : A)
      → count p (xs ++ x ∷ []) ≡ (if p x then suc (count p xs) else count p xs)
  unfolding count
  count-append_one p [] x = ground arith
  count-append_one p (y ∷ ys) x = ground (arith, count-append_one p ys x)

  pub count-of_none : (p : A → Bool) (xs : List A) → any p xs ≡ false → count p xs ≡ 0
  unfolding any count
  count-of_none p [] h = refl
  count-of_none p (y ∷ ys) h = ground (arith, count-of_none p ys)

  pub any-of_count : (p : A → Bool) (xs : List A) → count p xs ≡ 0 → any p xs ≡ false
  unfolding any count
  any-of_count p [] h = refl
  any-of_count p (y ∷ ys) h = ground (arith, any-of_count p ys)

  -- Rows that `q` does not look at may be deleted.
  pub count-delete_where :
      (q p : A → Bool) (xs : List A)
      → ((x : A) → p x ≡ true → q x ≡ false)
      → count q (delete_where p xs) ≡ count q xs
  unfolding count delete_where
  count-delete_where q p [] h = refl
  count-delete_where q p (x ∷ xs) h = ground (arith, h x, count-delete_where q p xs h)

  pub any-delete_where : (p : A → Bool) (xs : List A) → any p (delete_where p xs) ≡ false
  unfolding any delete_where
  any-delete_where p [] = refl
  any-delete_where p (x ∷ xs) = ground (arith, any-delete_where p xs)

  pub find?-delete_where :
      (q p : A → Bool) (xs : List A)
      → ((x : A) → p x ≡ true → q x ≡ false)
      → find? q (delete_where p xs) ≡ find? q xs
  unfolding find? delete_where
  find?-delete_where q p [] h = refl
  find?-delete_where q p (x ∷ xs) h = ground (arith, h x, find?-delete_where q p xs h)

  -- A change that `q` does not see.
  pub count-update_where :
      (q p : A → Bool) (f : A → A) (xs : List A)
      → ((x : A) → p x ≡ true → q (f x) ≡ q x)
      → count q (update_where p f xs) ≡ count q xs
  unfolding count update_where
  count-update_where q p f [] h = refl
  count-update_where q p f (x ∷ xs) h = ground (arith, h x, count-update_where q p f xs h)

  pub any-update_where :
      (q p : A → Bool) (f : A → A) (xs : List A)
      → ((x : A) → p x ≡ true → q (f x) ≡ q x)
      → any q (update_where p f xs) ≡ any q xs
  unfolding any update_where
  any-update_where q p f [] h = refl
  any-update_where q p f (x ∷ xs) h = ground (arith, h x, any-update_where q p f xs h)

  pub find?-update_where_hit :
      (q p : A → Bool) (f : A → A) (xs : List A) {x : A}
      → ((y : A) → q y ≡ p y)
      → ((y : A) → p y ≡ true → q (f y) ≡ true)
      → find? p xs ≡ some x
      → find? q (update_where p f xs) ≡ some (f x)
  unfolding find? update_where
  find?-update_where_hit q p f [] {x} h k e = cc
  find?-update_where_hit q p f (y ∷ ys) {x} h k e =
      ground (arith, h y, k y, find?-update_where_hit q p f ys {x = x} h k)

  pub find?-update_where_miss :
      (q p : A → Bool) (f : A → A) (xs : List A)
      → ((y : A) → p y ≡ true → q y ≡ false)
      → ((y : A) → p y ≡ true → q (f y) ≡ false)
      → find? q (update_where p f xs) ≡ find? q xs
  unfolding find? update_where
  find?-update_where_miss q p f [] h k = refl
  find?-update_where_miss q p f (y ∷ ys) h k =
      ground (arith, h y, k y, find?-update_where_miss q p f ys h k)

  pub any-weaken :
      (p q : A → Bool) (xs : List A)
      → ((x : A) → p x ≡ true → q x ≡ true)
      → any q xs ≡ false
      → any p xs ≡ false
  unfolding any
  any-weaken p q [] h k = refl
  any-weaken p q (x ∷ xs) h k = ground (arith, h x, any-weaken p q xs h)

  pub any-of_find? : (p : A → Bool) (xs : List A) → find? p xs ≡ none → any p xs ≡ false
  unfolding find? any
  any-of_find? p [] h = refl
  any-of_find? p (x ∷ xs) h = ground (arith, any-of_find? p xs)

  -- A change after which `q` holds of no row of which it did not hold before.
  pub count-update_where_le :
      (q p : A → Bool) (f : A → A) (xs : List A)
      → ((x : A) → p x ≡ true → q (f x) ≡ true → q x ≡ true)
      → count q (update_where p f xs) ≤ count q xs
  unfolding count update_where
  count-update_where_le q p f [] h = omega arith
  count-update_where_le q p f (x ∷ xs) h = ground (arith, h x, count-update_where_le q p f xs h)

  pub find?-any_also :
      (p q : A → Bool) (xs : List A) {x : A} → find? p xs ≡ some x → q x ≡ true → any q xs ≡ true
  unfolding find? any
  find?-any_also p q [] h k = cc
  find?-any_also p q (y ∷ ys) {x} h k = ground (arith, find?-any_also p q ys {x = x})

  pub count-pos : (p : A → Bool) (xs : List A) → any p xs ≡ true → 0 < count p xs
  unfolding any count
  count-pos p [] h = cc
  count-pos p (x ∷ xs) h = ground (arith, count-pos p xs)

  pub count-weaken :
      (p q : A → Bool) (xs : List A) → ((x : A) → p x ≡ true → q x ≡ true) → count p xs ≤ count q xs
  unfolding count
  count-weaken p q [] h = omega arith
  count-weaken p q (x ∷ xs) h = ground (arith, h x, count-weaken p q xs h)

  -- The row that `q` finds is changed.
  pub find?-update_where_found :
      (q p : A → Bool) (f : A → A) (xs : List A) {x : A}
      → ((y : A) → p y ≡ true → q y ≡ true)
      → ((y : A) → p y ≡ true → q (f y) ≡ true)
      → find? q xs ≡ some x
      → p x ≡ true
      → find? q (update_where p f xs) ≡ some (f x)
  unfolding find? update_where
  find?-update_where_found q p f [] {x} h k e c = cc
  find?-update_where_found q p f (y ∷ ys) {x} h k e c =
      ground (arith, h y, k y, find?-update_where_found q p f ys {x = x} h k)

  -- A change that keeps what `q` says of the rows that it touches.
  pub find?-update_where_kept :
      (q p : A → Bool) (f : A → A) (xs : List A) {x : A}
      → ((y : A) → p y ≡ true → q (f y) ≡ q y)
      → find? q xs ≡ some x
      → p x ≡ true
      → find? q (update_where p f xs) ≡ some (f x)
  unfolding find? update_where
  find?-update_where_kept q p f [] {x} h e c = cc
  find?-update_where_kept q p f (y ∷ ys) {x} h e c =
      ground (arith, h y, find?-update_where_kept q p f ys {x = x} h)

  -- The same for rows: no row that `q` counts is deleted.
  pub count-delete_where_rows :
      (q p : A → Bool) (xs : List A)
      → any (λ x. p x && q x) xs ≡ false
      → count q (delete_where p xs) ≡ count q xs
  unfolding any count delete_where
  count-delete_where_rows q p [] h = refl
  count-delete_where_rows q p (x ∷ xs) h = ground (arith, count-delete_where_rows q p xs)

  -- If `p` counts one row, and `q` holds of one such row, no other row has `p`.
  pub any-other_of_one :
      (p q : A → Bool) (xs : List A)
      → count p xs ≡ 1
      → any (λ x. p x && q x) xs ≡ true
      → any (λ x. p x && not (q x)) xs ≡ false
  unfolding any count
  any-other_of_one p q [] h k = refl
  any-other_of_one p q (x ∷ xs) h k =
      ground (arith, any-other_of_one p q xs, none_left p (λ y. not (q y)) xs, none_left p q xs)
    where
      none_left : (p q : A → Bool) (xs : List A) → count p xs ≡ 0 → any (λ y. p y && q y) xs ≡ false
      none_left p q xs e =
          any-weaken (λ y. p y && q y) p xs (λ y h. ground arith) (any-of_count p xs e)

  -- The rows of `p` lose `q`, and no other row has it.
  pub any-update_where_none :
      (q p : A → Bool) (f : A → A) (xs : List A)
      → ((x : A) → p x ≡ true → q (f x) ≡ false)
      → any (λ x. q x && not (p x)) xs ≡ false
      → any q (update_where p f xs) ≡ false
  unfolding any update_where
  any-update_where_none q p f [] h k = refl
  any-update_where_none q p f (x ∷ xs) h k = ground (arith, h x, any-update_where_none q p f xs h)

  -- No row has `q`, and the rows of `p` get it.
  pub count-update_where_new :
      (q p : A → Bool) (f : A → A) (xs : List A)
      → ((x : A) → p x ≡ true → q (f x) ≡ true)
      → any q xs ≡ false
      → count q (update_where p f xs) ≡ count p xs
  unfolding any count update_where
  count-update_where_new q p f [] h k = refl
  count-update_where_new q p f (x ∷ xs) h k = ground (arith, h x, count-update_where_new q p f xs h)

  pub any-and_right :
      (p q : A → Bool) (xs : List A) → any (λ x. p x && q x) xs ≡ true → any q xs ≡ true
  unfolding any
  any-and_right p q [] h = h
  any-and_right p q (x ∷ xs) h = ground (arith, any-and_right p q xs)

  pub any-of_count_pos : (p : A → Bool) (xs : List A) {n : ℕ} → count p xs ≡ suc n → any p xs ≡ true
  unfolding any count
  any-of_count_pos p [] h = ground arith
  any-of_count_pos p (x ∷ xs) {n} h = ground (arith, any-of_count_pos p xs {n = n})

  pub any-update_where_all :
      (q p : A → Bool) (f : A → A) (xs : List A)
      → ((x : A) → p x ≡ true → q (f x) ≡ true)
      → any p xs ≡ true
      → any q (update_where p f xs) ≡ true
  unfolding any update_where
  any-update_where_all q p f [] h k = k
  any-update_where_all q p f (x ∷ xs) h k = ground (arith, h x, any-update_where_all q p f xs h)

  pub any-none : (p : A → Bool) (xs : List A) → ((x : A) → p x ≡ false) → any p xs ≡ false
  unfolding any
  any-none p [] h = refl
  any-none p (x ∷ xs) h = ground (arith, h x, any-none p xs h)
