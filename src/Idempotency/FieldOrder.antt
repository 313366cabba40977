-- ===== src/Idempotency/FieldOrder.antt =====
-- Requests whose fields stand in another order have the same hash.
use study_room_sdk.Base.{
  ℕ, ◌≡◌, ◌∙◌, refl, sym, ap, inl, inr, ◌⊎◌, Bool, true, false, Bool-cases, ◌&&◌,
}
use study_room_sdk.Domain.{Text}
use study_room_sdk.Idempotency.Canonical.{
  Json, array, object, Items, no_items, item, Fields, no_fields, field, insert_field, canonicalize,
  canonicalize_items, canonicalize_fields, hash,
}

-- Two values that differ at most in the order of the fields of objects, at any depth, where fields
-- change places only if the comparison tells their names apart.
mutual
  pub data Same (before : Text → Text → Bool) : Json → Json → Type 0 where
    unchanged : {a : Json} → Same before a a
    in_array : {xs ys : Items} → SameItems before xs ys → Same before (array xs) (array ys)
    in_object : {fs gs : Fields} → SameFields before fs gs → Same before (object fs) (object gs)

  pub data SameItems (before : Text → Text → Bool) : Items → Items → Type 0 where
    both_no_items : SameItems before no_items no_items
    both_items :
        {a b : Json} {xs ys : Items}
        → Same before a b
        → SameItems before xs ys
        → SameItems before (item a xs) (item b ys)

  pub data SameFields (before : Text → Text → Bool) : Fields → Fields → Type 0 where
    both_no_fields : SameFields before no_fields no_fields
    both_fields :
        {a b : Json} {fs gs : Fields} (k : Text)
        → Same before a b
        → SameFields before fs gs
        → SameFields before (field k a fs) (field k b gs)
    swapped :
        {a b : Json} {fs : Fields} (k l : Text)
        → (before k l && before l k) ≡ false
        → SameFields before (field k a (field l b fs)) (field l b (field k a fs))
    in_turn :
        {fs gs hs : Fields}
        → SameFields before fs gs
        → SameFields before gs hs
        → SameFields before fs hs

module _ (before : Text → Text → Bool)
    (total : (k l : Text) → (before k l ≡ true) ⊎ (before l k ≡ true))
    (transitive : (k l m : Text) → before k l ≡ true → before l m ≡ true → before k m ≡ true) where
  insert_twice :
      (k l : Text) (a b : Json) (fs : Fields)
      → before k l ≡ true
      → before l k ≡ false
      → insert_field before k a (insert_field before l b fs)
        ≡ insert_field before l b (insert_field before k a fs)
  unfolding insert_field
  insert_twice k l a b no_fields h g = rw (h, g) refl
  insert_twice k l a b (field y c fs) h g = elim (Bool-cases (before l y)) [
    | inl ly ↦ let ky = transitive k l y h ly in rw (ly, ky, h, g) (rw ly refl)
    | inr ly ↦ elim (Bool-cases (before k y)) [
      | inl ky ↦ rw (ly, ky, g) (rw ly refl)
      | inr ky ↦ rw (ly, ky) (rw ly (ap (field y c) (insert_twice k l a b fs h g)))
    ]
  ]

  insert_swapped :
      (k l : Text) (a b : Json) (fs : Fields)
      → (before k l && before l k) ≡ false
      → insert_field before k a (insert_field before l b fs)
        ≡ insert_field before l b (insert_field before k a fs)
  insert_swapped k l a b fs apart = elim (Bool-cases (before k l)) [
    | inl h ↦ elim (Bool-cases (before l k)) [ inl g ↦ cc | inr g ↦ insert_twice k l a b fs h g ]
    | inr h ↦ sym (insert_twice l k b a fs (first (total k l) h) h)
  ]
    where
      first : (before k l ≡ true) ⊎ (before l k ≡ true) → before k l ≡ false → before l k ≡ true
      first (inl g) h = cc
      first (inr g) h = g

  mutual
    unfolding canonicalize canonicalize_items canonicalize_fields

    canonicalize-Same :
        {a b : Json} → Same before a b → canonicalize before a ≡ canonicalize before b
    canonicalize-Same unchanged = refl
    canonicalize-Same (in_array same) = ap array (canonicalize_items-Same same)
    canonicalize-Same (in_object same) = ap object (canonicalize_fields-Same same)

    canonicalize_items-Same :
        {xs ys : Items}
        → SameItems before xs ys
        → canonicalize_items before xs ≡ canonicalize_items before ys
    canonicalize_items-Same both_no_items = refl
    canonicalize_items-Same (both_items same rest) =
        rw (canonicalize-Same same, canonicalize_items-Same rest) refl

    canonicalize_fields-Same :
        {fs gs : Fields}
        → SameFields before fs gs
        → canonicalize_fields before fs ≡ canonicalize_fields before gs
    canonicalize_fields-Same both_no_fields = refl
    canonicalize_fields-Same (both_fields k same rest) =
        rw (canonicalize-Same same, canonicalize_fields-Same rest) refl
    canonicalize_fields-Same (swapped k l apart) = insert_swapped k l _ _ _ apart
    canonicalize_fields-Same (in_turn first second) =
        canonicalize_fields-Same first ∙ canonicalize_fields-Same second

  -- Two requests that differ at most in the order of the fields of objects, at any depth, have the
  -- same hash, if the comparison tells names of fields that change places apart, and is total and
  -- transitive.
  pub hash-Same :
      (sha256 : Json → ℕ) (a b : Json)
      → Same before a b
      → hash before sha256 a ≡ hash before sha256 b
  unfolding hash
  hash-Same sha256 a b same = ap sha256 (canonicalize-Same same)
