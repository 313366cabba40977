-- ===== src/Contracts/Checks.antt =====
-- The decorators of a type hold of a value exactly if the keywords for the type do.
use study_room_sdk.Base.{
  ◌≡◌, refl, Bool, true, false, ◌++◌, Option, none, some, arith, all, Bool-cases, inl, inr,
}
use study_room_sdk.Domain.{Text}
use study_room_sdk.Text.{text_eq}
use study_room_sdk.Contracts.Schema.{
  JsonType, string, integer, number, boolean, array, object, null, Keywords, text,
}
use study_room_sdk.Contracts.Generator.{
  Decorator, is_in, min_length, max_length, min, max, matches, pushed, conversion,
  format_decorators, type_decorators,
}
use study_room_sdk.Contracts.Validation.{
  Value, list_value, text_value, boolean_value, number_value, holds, TextTests, asked,
  format_allows, type_allows, is_checked, in_range, text_conforms, all-append,
}

module _ (t : TextTests) (v : Value) where
  all-pushed :
      {A : Type 0} (f : A → Decorator) (o : Option A)
      → all (holds t v) (pushed f o) ≡ asked (λ a. holds t v (f a)) o
  unfolding all
  all-pushed f none = refl
  all-pushed f (some a) = ground arith

  all_format :
      (s : Text) (o : Option Text)
      → v ≡ text_value s
      → all (holds t v) (format_decorators o) ≡ asked (format_allows t s) o
  unfolding all format_decorators
  all_format s none e = refl
  all_format s (some f) e = rw e (elim (Bool-cases (text_eq f (text "uuid"))) [
    | inl u ↦ rw u (ground arith)
    | inr u ↦ rw u (ground arith)
  ])

  all_text :
      (s : Text) (k : Keywords)
      → v ≡ text_value s
      → all (holds t v) (type_decorators (some string) k) ≡ text_conforms t k s
  unfolding all type_decorators
  all_text s k e =
      rw
        (
          all-append (holds t v) (format_decorators k.format) _,
          all-append (holds t v) (pushed is_in k.enum) _,
          all-append (holds t v) (pushed min_length k.min_length) _,
          all-append (holds t v) (pushed max_length k.max_length) _,
          all_format s k.format e,
          all-pushed is_in k.enum,
          all-pushed min_length k.min_length,
          all-pushed max_length k.max_length,
          all-pushed matches k.pattern,
          e,
        )
        refl

  all_range :
      (k : Keywords)
      → all (holds t v) (pushed min k.minimum ++ pushed max k.maximum) ≡ in_range t k v
  all_range k =
      rw
        (
          all-append (holds t v) (pushed min k.minimum) _,
          all-pushed min k.minimum,
          all-pushed max k.maximum,
        )
        refl

module _ (t : TextTests) where
  pub all_of_type :
      (k : Keywords) (type : JsonType) (v : Value)
      → is_checked type ≡ true
      → all (holds t v) (type_decorators (some type) k) ≡ type_allows t k type v
  unfolding all type_decorators
  all_of_type k string (text_value s) c = all_text t (text_value s) s k refl
  all_of_type k integer (number_value negative whole fraction) c =
      rw (all_range t (number_value negative whole fraction) k) (ground arith)
  all_of_type k number (number_value negative whole fraction) c =
      rw (all_range t (number_value negative whole fraction) k) (ground arith)
  all_of_type k boolean (boolean_value b) c = refl
  all_of_type k array list_value c = refl
  all_of_type k object v c = cc
  all_of_type k null v c = cc
  all_of_type k string _ c = refl
  all_of_type k integer _ c = refl
  all_of_type k number _ c = refl
  all_of_type k boolean _ c = refl
  all_of_type k array _ c = refl

  pub all-conversion :
      (convert : Bool) (type : JsonType) (v : Value)
      → all (holds t v) (conversion convert (some type)) ≡ true
  unfolding all conversion
  all-conversion true integer v = refl
  all-conversion true _ _ = refl
  all-conversion false _ _ = refl
