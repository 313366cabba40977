-- ===== src/Base/Everywhere.antt =====
-- What holds of every row of a table, and keeps holding when rows are changed or deleted.
use mathlib.Core.Path.{◌≡◌}
use mathlib.Core.Bool.{Bool, false}
use mathlib.Core.List.{List, [], ◌∷◌, ◌++◌}
use mathlib.Core.Logic.{inl, inr}
use study_room_sdk.Base.Tests.{if◌then◌else◌, Bool-cases}
use study_room_sdk.Base.Rows.{update_where, delete_where}

module _ {A : Type 0} where
  abbrev pub All : (A → Type 0) → List A → Type 0
  All P [] = Unit {0}
  All P (x ∷ xs) = P x × All P xs

  module _ (P Q : A → Type 0) where
    pub All-weaken : ((x : A) → P x → Q x) → (xs : List A) → All P xs → All Q xs
    All-weaken h [] all = tt
    All-weaken h (x ∷ xs) (p, ps) = (h x p, All-weaken h xs ps)

    pub All-update_where :
        (p : A → Bool) (f : A → A)
        → ((x : A) → P x → Q (if p x then f x else x))
        → (xs : List A) → All P xs
        → All Q (update_where p f xs)
    unfolding update_where
    All-update_where p f h [] all = tt
    All-update_where p f h (x ∷ xs) (a, all) = (h x a, All-update_where p f h xs all)

    pub All-delete_where :
        (p : A → Bool)
        → ((x : A) → p x ≡ false → P x → Q x)
        → (xs : List A) → All P xs
        → All Q (delete_where p xs)
    unfolding delete_where
    All-delete_where p h [] all = tt
    All-delete_where p h (x ∷ xs) (a, all) = elim (Bool-cases (p x)) [
      | inl e ↦ rw e (All-delete_where p h xs all)
      | inr e ↦ rw e (h x e a, All-delete_where p h xs all)
    ]

  pub All-both :
      (P Q R : A → Type 0)
      → ((x : A) → P x → Q x → R x)
      → (xs : List A) → All P xs
      → All Q xs
      → All R xs
  All-both P Q R h [] ps qs = tt
  All-both P Q R h (x ∷ xs) (p, ps) (q, qs) = (h x p q, All-both P Q R h xs ps qs)

  pub All-append_one :
      (P : A → Type 0) (xs : List A) {x : A} → All P xs → P x → All P (xs ++ x ∷ [])
  All-append_one P [] all p = (p, tt)
  All-append_one P (y ∷ ys) (q, qs) p = (q, All-append_one P ys qs p)
