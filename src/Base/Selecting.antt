-- ===== src/Base/Selecting.antt =====
-- What a change of a table leaves of the rows that a test selects.
use Prim.Native.Nat.{◌≤◌}
use mathlib.Core.Path.{◌≡◌, refl}
use mathlib.Core.Bool.{Bool, true, false, ◌&&◌}
use mathlib.Core.List.{List, [], ◌∷◌, ◌++◌}
use mathlib.Core.Option.{some}
use native.Mathlib.Omega.{arith}
use study_room_sdk.Base.Rows.{find?, any, count, select, update_where, delete_where}
use study_room_sdk.Base.Counting.{any-of_count, any-weaken, find?-any_also, count-pos}

module _ {ℓ} {A : Type ℓ} where
  pub select-append_one :
      (p : A → Bool) (xs : List A) (x : A) → p x ≡ false → select p (xs ++ x ∷ []) ≡ select p xs
  unfolding select
  select-append_one p [] x h = ground arith
  select-append_one p (y ∷ ys) x h = ground (arith, select-append_one p ys x)

  pub select-update_where :
      (p q : A → Bool) (f : A → A) (xs : List A)
      → ((x : A) → p (f x) ≡ p x)
      → any (λ x. p x && q x) xs ≡ false
      → select p (update_where q f xs) ≡ select p xs
  unfolding select update_where any
  select-update_where p q f [] same h = refl
  select-update_where p q f (x ∷ xs) same h =
      ground (arith, same x, select-update_where p q f xs same)

  pub select-delete_where :
      (p q : A → Bool) (xs : List A)
      → any (λ x. p x && q x) xs ≡ false
      → select p (delete_where q xs) ≡ select p xs
  unfolding select delete_where any
  select-delete_where p q [] h = refl
  select-delete_where p q (x ∷ xs) h = ground (arith, select-delete_where p q xs)

  pub any-select : (p q : A → Bool) (xs : List A) → any q (select p xs) ≡ any (λ x. p x && q x) xs
  unfolding select any
  any-select p q [] = refl
  any-select p q (x ∷ xs) = ground (arith, any-select p q xs)

  -- Where at most one row is `q`, and a row that `p` finds is, no row that is not it is `q`.
  pub only_one :
      (p q s : A → Bool) (xs : List A) {x : A}
      → find? p xs ≡ some x
      → count q xs ≤ 1
      → q x ≡ true
      → s x ≡ false
      → any (λ y. s y && q y) xs ≡ false
  unfolding find? count any
  only_one p q s [] found one is_q not_s = cc
  only_one p q s (y ∷ ys) {x} found one is_q not_s = ground (
    arith,
    only_one p q s ys {x = x},
    any-of_count q ys,
    any-weaken (λ z. s z && q z) q ys (λ z h. ground arith),
    find?-any_also p q ys {x = x},
    count-pos q ys,
  )
