-- ===== src/Tests/Hashes.antt =====
-- The theorem on the hashes of requests, with names in the order of their units.
use study_room_sdk.Base.{
  ℕ, ◌≡◌, refl, inl, inr, ◌⊎◌, Bool, true, false, [], ◌∷◌, arith, ltb, ◌==◌, if◌then◌else◌,
  Bool-cases,
}
use study_room_sdk.Domain.{Text}
use study_room_sdk.Idempotency.Canonical.{
  Json, null, number, object, Fields, no_fields, field, hash,
}
use study_room_sdk.Idempotency.FieldOrder.{in_object, swapped, hash-Same}

abbrev text_le : Text → Text → Bool
text_le [] t = true
text_le (a ∷ s) [] = false
text_le (a ∷ s) (b ∷ t) =
    let rest = text_le s t in if ltb a b then true else if a == b then rest else false

text_le-total : (s t : Text) → (text_le s t ≡ true) ⊎ (text_le t s ≡ true)
text_le-total [] t = inl refl
text_le-total (a ∷ s) [] = inr refl
text_le-total (a ∷ s) (b ∷ t) = elim (text_le-total s t) [
  | inl h ↦ elim (Bool-cases (text_le (a ∷ s) (b ∷ t))) [
    | inl e ↦ inl e
    | inr e ↦ inr (ground (arith, h))
  ]
  | inr h ↦ elim (Bool-cases (text_le (a ∷ s) (b ∷ t))) [
    | inl e ↦ inl e
    | inr e ↦ inr (ground (arith, h))
  ]
]

text_le-transitive : (s t u : Text) → text_le s t ≡ true → text_le t u ≡ true → text_le s u ≡ true
text_le-transitive [] t u h k = refl
text_le-transitive (a ∷ s) [] u h k = cc
text_le-transitive (a ∷ s) (b ∷ t) [] h k = cc
text_le-transitive (a ∷ s) (b ∷ t) (c ∷ u) h k = ground (arith, text_le-transitive s t u)

abbrev x : Text
x = b'x' ∷ []

abbrev y : Text
y = b'y' ∷ []

-- Counts what it can see of the fields' order.
abbrev first_name : Fields → ℕ
first_name no_fields = 0
first_name (field [] a fs) = 1
first_name (field (c ∷ k) a fs) = c

abbrev some_hash : Json → ℕ
some_hash (object fs) = first_name fs
some_hash _ = 0

hash-Same_example :
    hash text_le some_hash (object (field x null (field y (number 4) no_fields)))
    ≡ hash text_le some_hash (object (field y (number 4) (field x null no_fields)))
hash-Same_example =
    hash-Same text_le text_le-total text_le-transitive some_hash
      (object (field x null (field y (number 4) no_fields)))
      (object (field y (number 4) (field x null no_fields))) (in_object (swapped x y refl))
