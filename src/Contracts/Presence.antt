-- ===== src/Contracts/Presence.antt =====
-- Of the decorators that the generator writes, only those of presence say not to look at a value, and
-- only the conversion changes it.
use study_room_sdk.Base.{
  ◌≡◌, refl, ◌∙◌, if◌then◌else◌, Bool, true, false, ◌||◌, ◌++◌, Option, none, some, arith, any,
  Bool-cases, inl, inr,
}
use study_room_sdk.Domain.{Text}
use study_room_sdk.Text.{text_eq}
use study_room_sdk.Contracts.Schema.{
  JsonType, string, integer, number, boolean, array, object, null, Keywords, nullable, primary_type,
  text,
}
use study_room_sdk.Contracts.Generator.{
  Decorator, if_not_null, is_optional, if_not_undefined, to_number, is_uuid, is_url, is_string,
  is_int, is_number, is_boolean, is_array, is_in, min_length, max_length, min, max, matches, pushed,
  presence_decorators, conversion, format_decorators, type_decorators, decorators_of,
}
use study_room_sdk.Contracts.Validation.{
  is_conversion, transformed, Value, skips, is_missing, any-append,
}

-- The decorators that check a value
abbrev is_check : Decorator → Bool
is_check if_not_null = false
is_check is_optional = false
is_check if_not_undefined = false
is_check to_number = false
is_check _ = true

-- A test of decorators that the checks do not meet
module _ (p : Decorator → Bool) (apart : (d : Decorator) → is_check d ≡ true → p d ≡ false) where
  no_format : (o : Option Text) → any p (format_decorators o) ≡ false
  unfolding any format_decorators
  no_format none = refl
  no_format (some f) = elim (Bool-cases (text_eq f (text "uuid"))) [
    | inl u ↦ rw u (ground (arith, apart is_uuid refl, apart is_url refl))
    | inr u ↦ rw u (ground (arith, apart is_uuid refl, apart is_url refl))
  ]

  no_pushed :
      {A : Type 0} (f : A → Decorator) (o : Option A)
      → ((a : A) → is_check (f a) ≡ true)
      → any p (pushed f o) ≡ false
  unfolding any
  no_pushed f none h = refl
  no_pushed f (some a) h = rw (apart (f a) (h a)) refl

  no_range : (k : Keywords) → any p (pushed min k.minimum ++ pushed max k.maximum) ≡ false
  no_range k =
      rw
        (
          any-append p (pushed min k.minimum) _,
          no_pushed min k.minimum (λ n. refl),
          no_pushed max k.maximum (λ n. refl),
        )
        refl

  no_type : (k : Keywords) (type : JsonType) → any p (type_decorators (some type) k) ≡ false
  unfolding any type_decorators
  no_type k string =
      rw
        (
          apart is_string refl,
          any-append p (format_decorators k.format) _,
          any-append p (pushed is_in k.enum) _,
          any-append p (pushed min_length k.min_length) _,
          any-append p (pushed max_length k.max_length) _,
          no_format k.format,
          no_pushed is_in k.enum (λ n. refl),
          no_pushed min_length k.min_length (λ n. refl),
          no_pushed max_length k.max_length (λ n. refl),
          no_pushed matches k.pattern (λ n. refl),
        )
        refl
  no_type k integer = rw (apart is_int refl) (no_range k)
  no_type k number = rw (apart is_number refl) (no_range k)
  no_type k boolean = rw (apart is_boolean refl) refl
  no_type k array = rw (apart is_array refl) refl
  no_type k object = refl
  no_type k null = refl

  -- Only the decorators of presence and of conversion can meet it.
  any-decorators :
      (required convert : Bool) (k : Keywords) (type : JsonType)
      → primary_type k.types ≡ some type
      → any p (decorators_of required convert k) ≡ (
          any p (presence_decorators required (nullable k.types))
          || any p (conversion convert (some type)))
  unfolding decorators_of
  any-decorators required convert k type e =
      rw
        (
          e,
          any-append p (presence_decorators required (nullable k.types)) _,
          any-append p (conversion convert (some type)) _,
          no_type k type,
        )
        (ground arith)

checks_do_not_skip : (v : Value) (d : Decorator) → is_check d ≡ true → skips v d ≡ false
checks_do_not_skip v if_not_null c = cc
checks_do_not_skip v is_optional c = cc
checks_do_not_skip v if_not_undefined c = cc
checks_do_not_skip v _ c = refl

checks_do_not_convert : (d : Decorator) → is_check d ≡ true → is_conversion d ≡ false
checks_do_not_convert to_number c = cc
checks_do_not_convert _ c = refl

skip_conversion :
    (v : Value) (convert : Bool) (type : JsonType)
    → any (skips v) (conversion convert (some type)) ≡ false
unfolding any conversion
skip_conversion v true integer = refl
skip_conversion v true _ = refl
skip_conversion v false _ = refl

-- Only the first decorators can say not to look.
pub skip_all :
    (v : Value) (required convert : Bool) (k : Keywords) (type : JsonType)
    → primary_type k.types ≡ some type
    → any (skips v) (decorators_of required convert k)
      ≡ any (skips v) (presence_decorators required (nullable k.types))
skip_all v required convert k type e =
    any-decorators (skips v) (checks_do_not_skip v) required convert k type e
    ∙ rw (skip_conversion v convert type) (ground arith)

presence_converts_nothing :
    (required takes_null : Bool)
    → any is_conversion (presence_decorators required takes_null) ≡ false
unfolding any presence_decorators
presence_converts_nothing true true = refl
presence_converts_nothing true false = refl
presence_converts_nothing false true = refl
presence_converts_nothing false false = refl

-- A value of a query, where an integer is made of what stands there, and of a body, where nothing is
-- converted.
abbrev pub converted : (Value → Value) → Bool → JsonType → Value → Value
converted number_of true integer v = if is_missing v then v else number_of v
converted number_of _ _ v = v

conversion_lem :
    (number_of : Value → Value) (convert : Bool) (type : JsonType) (v : Value)
    → (if any is_conversion (conversion convert (some type))
        then (if is_missing v then v else number_of v)
        else v)
      ≡ converted number_of convert type v
unfolding any conversion
conversion_lem number_of true integer v = refl
conversion_lem number_of true _ v = refl
conversion_lem number_of false _ v = refl

pub transformed_lem :
    (number_of : Value → Value) (k : Keywords) (type : JsonType) (required convert : Bool)
    (v : Value)
    → primary_type k.types ≡ some type
    → transformed number_of (decorators_of required convert k) v
      ≡ converted number_of convert type v
unfolding transformed
transformed_lem number_of k type required convert v e =
    rw
      (
        any-decorators is_conversion checks_do_not_convert required convert k type e,
        presence_converts_nothing required (nullable k.types),
      )
      (conversion_lem number_of convert type v)
