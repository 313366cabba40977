-- ===== src/Contracts/Described.antt =====
-- What a schema with a scalar type says of a value, after the rules of JSON Schema: every type that the
-- schema names may take it, and the list of its values is for all types.
use study_room_sdk.Base.{
  ◌≡◌, refl, Bool, true, false, not, ◌&&◌, ◌||◌, List, [], ◌∷◌, Option, none, some, arith, leb, any,
  find?,
}
use study_room_sdk.Domain.{Text}
use study_room_sdk.Text.{text_eq}
use study_room_sdk.Contracts.Schema.{
  JsonType, string, integer, number, boolean, array, object, null, TypeKeyword, untyped, one,
  several, Keywords, nullable, primary_type,
}
use study_room_sdk.Contracts.Validation.{
  Value, undefined, null_value, list_value, object_value, not_finite, text_value, boolean_value,
  number_value, on_text, is_null_value, TextTests, asked, format_allows, in_range, type_allows,
  conforms, is_checked, is_scalar,
}

abbrev types_of : TypeKeyword → List JsonType
types_of untyped = []
types_of (one type) = type ∷ []
types_of (several types) = types

abbrev in_enum : Keywords → Value → Bool
in_enum k v = asked (λ es. on_text (λ s. any (text_eq s) es) v) k.enum

module _ (t : TextTests) where
  -- Whether a type takes a value, with the keywords for values of that type
  abbrev of_type : Keywords → Value → JsonType → Bool
  of_type k null_value null = true
  of_type k (text_value s) string =
      asked (format_allows t s) k.format
      && (asked (λ n. leb n (t.length_of s)) k.min_length
          && (asked (λ n. leb (t.length_of s) n) k.max_length
              && asked (λ p. t.match_of p s) k.pattern))
  of_type k (number_value negative whole fraction) integer =
      not fraction && in_range t k (number_value negative whole fraction)
  of_type k (number_value negative whole fraction) number =
      in_range t k (number_value negative whole fraction)
  of_type k (boolean_value b) boolean = true
  of_type k _ _ = false

  -- A property may be missing unless it is required.
  unfoldable pub described : Bool → Keywords → Value → Bool
  described required k undefined = not required
  described required k v = in_enum k v && any (of_type k v) (types_of k.types)

-- One type, perhaps with null beside it
pub data OneType : TypeKeyword → JsonType → Type 0 where
  only : {type : JsonType} → OneType (one type) type
  then_null : {type : JsonType} → OneType (several (type ∷ null ∷ [])) type
  null_then : {type : JsonType} → OneType (several (null ∷ type ∷ [])) type

-- A list of strings is given for strings only.
abbrev pub enum_fits : Keywords → JsonType → Bool
enum_fits k string = elim k.enum [ none ↦ true | some es ↦ not (nullable k.types) ]
enum_fits k type = elim k.enum [ none ↦ true | some es ↦ false ]

pub scalar_checked : (type : JsonType) → is_scalar type ≡ true → is_checked type ≡ true
scalar_checked array c = cc
scalar_checked string c = refl
scalar_checked integer c = refl
scalar_checked number c = refl
scalar_checked boolean c = refl
scalar_checked object c = cc
scalar_checked null c = cc

pub primary_lem :
    (types : TypeKeyword) (type : JsonType)
    → OneType types type
    → is_scalar type ≡ true
    → primary_type types ≡ some type
unfolding primary_type find?
primary_lem _ type only c = refl
primary_lem _ string then_null c = refl
primary_lem _ integer then_null c = refl
primary_lem _ number then_null c = refl
primary_lem _ boolean then_null c = refl
primary_lem _ array then_null c = cc
primary_lem _ object then_null c = cc
primary_lem _ null then_null c = cc
primary_lem _ string null_then c = refl
primary_lem _ integer null_then c = refl
primary_lem _ number null_then c = refl
primary_lem _ boolean null_then c = refl
primary_lem _ array null_then c = cc
primary_lem _ object null_then c = cc
primary_lem _ null null_then c = cc

no_enum :
    (o : Option (List Text)) (v : Value)
    → elim o [ none ↦ true | some es ↦ false ] ≡ true
    → asked (λ es. on_text (λ s. any (text_eq s) es) v) o ≡ true
no_enum none v h = refl
no_enum (some es) v h = cc

null_in_enum :
    (o : Option (List Text)) (takes_null : Bool)
    → elim o [ none ↦ true | some es ↦ not takes_null ] ≡ true
    → (asked (λ es. on_text (λ s. any (text_eq s) es) null_value) o && takes_null) ≡ takes_null
null_in_enum none takes_null h = refl
null_in_enum (some es) true h = cc
null_in_enum (some es) false h = refl

module _ (t : TextTests) (k : Keywords) where
  of_null : (v : Value) → of_type t k v null ≡ is_null_value v
  of_null undefined = refl
  of_null null_value = refl
  of_null list_value = refl
  of_null object_value = refl
  of_null not_finite = refl
  of_null (text_value s) = refl
  of_null (boolean_value b) = refl
  of_null (number_value n w f) = refl

  of_types :
      (types : TypeKeyword) (type : JsonType) (v : Value)
      → OneType types type
      → is_scalar type ≡ true
      → any (of_type t k v) (types_of types)
        ≡ (of_type t k v type || (is_null_value v && nullable types))
  unfolding any nullable
  of_types _ type v only c = ground arith
  of_types _ type v then_null c = rw (of_null v) (ground arith)
  of_types _ string v null_then c = rw (of_null v) (ground arith)
  of_types _ integer v null_then c = rw (of_null v) (ground arith)
  of_types _ number v null_then c = rw (of_null v) (ground arith)
  of_types _ boolean v null_then c = rw (of_null v) (ground arith)
  of_types _ array v null_then c = cc
  of_types _ object v null_then c = cc
  of_types _ null v null_then c = cc

  value_lem :
      (type : JsonType) (v : Value)
      → is_scalar type ≡ true
      → enum_fits k type ≡ true
      → (in_enum k v && of_type t k v type) ≡ type_allows t k type v
  value_lem string (text_value s) c fits = ground arith
  value_lem string undefined c fits = ground arith
  value_lem string null_value c fits = ground arith
  value_lem string list_value c fits = ground arith
  value_lem string object_value c fits = ground arith
  value_lem string not_finite c fits = ground arith
  value_lem string (boolean_value b) c fits = ground arith
  value_lem string (number_value n w f) c fits = ground arith
  value_lem integer v c fits = rw (no_enum k.enum v fits) (of_integer v)
    where
      of_integer : (v : Value) → of_type t k v integer ≡ type_allows t k integer v
      of_integer (number_value n w f) = refl
      of_integer _ = refl
  value_lem number v c fits = rw (no_enum k.enum v fits) (of_number v)
    where
      of_number : (v : Value) → of_type t k v number ≡ type_allows t k number v
      of_number (number_value n w f) = refl
      of_number _ = refl
  value_lem boolean v c fits = rw (no_enum k.enum v fits) (of_boolean v)
    where
      of_boolean : (v : Value) → of_type t k v boolean ≡ type_allows t k boolean v
      of_boolean (boolean_value b) = refl
      of_boolean _ = refl
  value_lem array v c fits = cc
  value_lem object v c fits = cc
  value_lem null v c fits = cc

  null_lem :
      (type : JsonType)
      → is_scalar type ≡ true
      → enum_fits k type ≡ true
      → (in_enum k null_value && (of_type t k null_value type || nullable k.types))
        ≡ nullable k.types
  null_lem string c fits = null_in_enum k.enum (nullable k.types) fits
  null_lem integer c fits = rw (no_enum k.enum null_value fits) refl
  null_lem number c fits = rw (no_enum k.enum null_value fits) refl
  null_lem boolean c fits = rw (no_enum k.enum null_value fits) refl
  null_lem array c fits = cc
  null_lem object c fits = cc
  null_lem null c fits = cc

  pub described_lem :
      (required : Bool) (type : JsonType) (v : Value)
      → OneType k.types type
      → is_scalar type ≡ true
      → enum_fits k type ≡ true
      → described t required k v ≡ conforms t required k type v
  unfolding described conforms
  described_lem required type undefined single c fits = refl
  described_lem required type null_value single c fits =
      rw (of_types k.types type null_value single c) (null_lem type c fits)
  described_lem required type (text_value s) single c fits =
      rw (of_types k.types type (text_value s) single c)
        (ground (arith, value_lem type (text_value s) c fits))
  described_lem required type list_value single c fits =
      rw (of_types k.types type list_value single c)
        (ground (arith, value_lem type list_value c fits))
  described_lem required type object_value single c fits =
      rw (of_types k.types type object_value single c)
        (ground (arith, value_lem type object_value c fits))
  described_lem required type not_finite single c fits =
      rw (of_types k.types type not_finite single c)
        (ground (arith, value_lem type not_finite c fits))
  described_lem required type (boolean_value b) single c fits =
      rw (of_types k.types type (boolean_value b) single c)
        (ground (arith, value_lem type (boolean_value b) c fits))
  described_lem required type (number_value n w f) single c fits =
      rw (of_types k.types type (number_value n w f) single c)
        (ground (arith, value_lem type (number_value n w f) c fits))
