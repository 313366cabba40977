-- ===== src/Contracts/Conformance.antt =====
-- The decorators that the generator writes let through what the schema of the property describes.
use study_room_sdk.Base.{◌≡◌, refl, ◌∙◌, Bool, true, false, not, ◌&&◌, ◌||◌, some, arith, any, all}
use study_room_sdk.Contracts.Schema.{
  JsonType, string, integer, number, boolean, array, object, null, Keywords, Schemas, Schema,
  keywords, nullable, primary_type, resolved_request_schema,
}
use study_room_sdk.Contracts.Generator.{
  presence_decorators, conversion, decorators_of, request_decorators, decorators_from,
}
use study_room_sdk.Contracts.Validation.{
  not_finite, Value, undefined, null_value, list_value, object_value, text_value, boolean_value,
  number_value, skips, holds, is_missing, TextTests, ClassValidator, type_allows, conforms,
  is_checked, all-append,
}
use study_room_sdk.Contracts.Presence.{skip_all, converted, transformed_lem}
use study_room_sdk.Contracts.Checks.{all_of_type, all-conversion}

module _ (t : TextTests) (v : Value) where
  all-holds :
      (required convert : Bool) (k : Keywords) (type : JsonType)
      → primary_type k.types ≡ some type
      → is_checked type ≡ true
      → all (holds t v) (decorators_of required convert k) ≡ (
          all (holds t v) (presence_decorators required (nullable k.types))
          && type_allows t k type v)
  unfolding decorators_of
  all-holds required convert k type e c =
      rw
        (
          e,
          all-append (holds t v) (presence_decorators required (nullable k.types)) _,
          all-append (holds t v) (conversion convert (some type)) _,
          all-conversion t convert type v,
          all_of_type t k type v c,
        )
        refl

-- What the first decorators and the checks of the type, `b`, come to
abbrev first_then : TextTests → Bool → Bool → Bool → Value → Bool
first_then t required takes_null b v =
    any (skips v) (presence_decorators required takes_null)
    || (all (holds t v) (presence_decorators required takes_null) && b)

first_undefined :
    (t : TextTests) (required takes_null : Bool)
    → first_then t required takes_null false undefined ≡ not required
unfolding any all presence_decorators
first_undefined t true true = refl
first_undefined t true false = refl
first_undefined t false true = refl
first_undefined t false false = refl

first_null :
    (t : TextTests) (required takes_null : Bool)
    → first_then t required takes_null false null_value ≡ takes_null
unfolding any all presence_decorators
first_null t true true = refl
first_null t true false = refl
first_null t false true = refl
first_null t false false = refl

first_value :
    (t : TextTests) (required takes_null b : Bool) (v : Value)
    → is_missing v ≡ false
    → first_then t required takes_null b v ≡ b
unfolding any all presence_decorators
first_value t true true b v m = ground arith
first_value t true false b v m = ground arith
first_value t false true b v m = ground arith
first_value t false false b v m = ground arith

missing_allowed :
    (t : TextTests) (k : Keywords) (type : JsonType) (v : Value)
    → is_missing v ≡ true
    → type_allows t k type v ≡ false
missing_allowed t k string v m = ground arith
missing_allowed t k integer v m = ground arith
missing_allowed t k number v m = ground arith
missing_allowed t k boolean v m = ground arith
missing_allowed t k array v m = ground arith
missing_allowed t k object v m = refl
missing_allowed t k null v m = refl

first_conforms :
    (t : TextTests) (required : Bool) (k : Keywords) (type : JsonType) (v : Value)
    → first_then t required (nullable k.types) (type_allows t k type v) v
      ≡ conforms t required k type v
unfolding conforms
first_conforms t required k type undefined =
    rw (missing_allowed t k type undefined refl) (first_undefined t required (nullable k.types))
first_conforms t required k type null_value =
    rw (missing_allowed t k type null_value refl) (first_null t required (nullable k.types))
first_conforms t required k type not_finite = first_value t required _ _ not_finite refl
first_conforms t required k type list_value = first_value t required _ _ list_value refl
first_conforms t required k type object_value = first_value t required _ _ object_value refl
first_conforms t required k type (text_value s) = first_value t required _ _ (text_value s) refl
first_conforms t required k type (boolean_value b) =
    first_value t required _ _ (boolean_value b) refl
first_conforms t required k type (number_value n w f) =
    first_value t required _ _ (number_value n w f) refl

pub accepts_lem :
    (c : ClassValidator) (k : Keywords) (type : JsonType) (required convert : Bool) (v : Value)
    → primary_type k.types ≡ some type
    → is_checked type ≡ true
    → c.accepts (decorators_of required convert k) v
      ≡ conforms c.tests required k type (converted c.number_of convert type v)
accepts_lem c k type required convert v typed checked =
    let u = converted c.number_of convert type v in
    c.accepts_all _ v
    ∙ rw
        (
          transformed_lem c.number_of k type required convert v typed,
          skip_all u required convert k type typed,
          all-holds c.tests u required convert k type typed checked,
        )
        (first_conforms c.tests required k type u)

pub request_decorators_lem :
    (schemas : Schemas) (s : Schema) {r : Schema} (required convert : Bool)
    → resolved_request_schema schemas s ≡ some r
    → request_decorators schemas required convert s
      ≡ some (decorators_of required convert (keywords r))
unfolding request_decorators decorators_from
request_decorators_lem schemas s required convert found = rw found refl
