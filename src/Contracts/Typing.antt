-- ===== src/Contracts/Typing.antt =====
-- The type that the generator declares for a property takes what its decorators let through.
use study_room_sdk.Base.{
  ℕ, ◌≡◌, refl, ◌∙◌, sym, Bool, true, false, not, ◌&&◌, ◌||◌, List, Option, none, some, arith, suc,
  any, if◌then◌else◌,
}
use study_room_sdk.Domain.{Text}
use study_room_sdk.Text.{text_eq}
use study_room_sdk.Contracts.Schema.{
  JsonType, string, integer, number, boolean, array, object, null, Keywords, Schemas, Schema,
  keywords, items_of, nullable, primary_type, is_enum, resolved_request_schema, resolved_at,
}
use study_room_sdk.Contracts.Generator.{
  Decorator, decorators_of, request_decorators, TsType, string_type, number_type, boolean_type,
  unknown_type, literals, array_of, or_null, value_type, type_with, type_from, request_type, Marker,
  optional, marker_of, Property, request_property,
}
use study_room_sdk.Contracts.Validation.{
  Value, undefined, null_value, on_text, is_undefined, is_null_value, is_number_value,
  is_boolean_value, is_list, TextTests, ClassValidator, conforms, is_scalar, type_allows,
  transformed,
}
use study_room_sdk.Contracts.Described.{scalar_checked}
use study_room_sdk.Contracts.Presence.{converted, transformed_lem}
use study_room_sdk.Contracts.Conformance.{accepts_lem, request_decorators_lem}

-- The values of a type; of an array the elements are not looked at.
unfoldable pub inhabits : TsType → Value → Bool
inhabits string_type v = on_text (λ s. true) v
inhabits number_type v = is_number_value v
inhabits boolean_type v = is_boolean_value v
inhabits unknown_type v = true
inhabits (literals es) v = on_text (λ s. any (text_eq s) es) v
inhabits (array_of t) v = is_list v
inhabits (or_null t) v = let rest = inhabits t v in is_null_value v || rest

abbrev is_optional_marker : Marker → Bool
is_optional_marker optional = true
is_optional_marker _ = false

-- `name?: T` can be missing.
unfoldable pub takes : Property → Value → Bool
unfolding inhabits
takes p v = (is_optional_marker p.marker && is_undefined v) || inhabits p.type v

-- The type of a scalar
scalar_type : Keywords → JsonType → TsType
unfolding value_type
scalar_type k string = elim k.enum [ none ↦ string_type | some es ↦ literals es ]
scalar_type k boolean = boolean_type
scalar_type k _ = number_type

value_type_lem :
    (item : Option TsType) (k : Keywords) (type : JsonType)
    → primary_type k.types ≡ some type
    → is_scalar type ≡ true
    → value_type item k (some type) ≡ some (scalar_type k type)
unfolding value_type scalar_type is_enum
value_type_lem item k string e c = ground (arith, e)
value_type_lem item k integer e c = refl
value_type_lem item k number e c = refl
value_type_lem item k boolean e c = refl
value_type_lem item k array e c = cc
value_type_lem item k object e c = cc
value_type_lem item k null e c = cc

abbrev typed : Keywords → JsonType → TsType
typed k type = if nullable k.types then or_null (scalar_type k type) else scalar_type k type

request_type_lem :
    (fuel : ℕ) (schemas : Schemas) (r : Schema) (type : JsonType)
    → (keywords r).ref ≡ none
    → primary_type (keywords r).types ≡ some type
    → is_scalar type ≡ true
    → request_type (suc fuel) schemas r ≡ some (typed (keywords r) type)
unfolding request_type type_from resolved_request_schema resolved_at type_with
request_type_lem fuel schemas r type direct e c =
    rw (direct, e, value_type_lem (request_type fuel schemas (items_of r)) (keywords r) type e c)
      (ground arith)

allowed-inhabits :
    (t : TextTests) (k : Keywords) (type : JsonType) (v : Value)
    → is_scalar type ≡ true
    → type_allows t k type v ≡ true
    → inhabits (scalar_type k type) v ≡ true
unfolding inhabits scalar_type
allowed-inhabits t k string v c h = ground arith
allowed-inhabits t k integer v c h = ground arith
allowed-inhabits t k number v c h = ground arith
allowed-inhabits t k boolean v c h = ground arith
allowed-inhabits t k array v c h = cc
allowed-inhabits t k object v c h = cc
allowed-inhabits t k null v c h = cc

typed-inhabits :
    (k : Keywords) (type : JsonType) (v : Value)
    → inhabits (scalar_type k type) v ≡ true
    → inhabits (typed k type) v ≡ true
unfolding inhabits
typed-inhabits k type v h = ground arith

null-inhabits :
    (k : Keywords) (type : JsonType)
    → nullable k.types ≡ true
    → inhabits (typed k type) null_value ≡ true
unfolding inhabits
null-inhabits k type h = rw h refl

-- What conforms to the schema is taken by the type, or is missing and need not be there.
conforms-inhabits :
    (t : TextTests) (required : Bool) (k : Keywords) (type : JsonType) (v : Value)
    → is_scalar type ≡ true
    → conforms t required k type v ≡ true
    → ((not required && is_undefined v) || inhabits (typed k type) v) ≡ true
unfolding conforms
conforms-inhabits t required k type undefined c h = ground arith
conforms-inhabits t required k type null_value c h = ground (arith, null-inhabits k type h)
conforms-inhabits t required k type v c h =
    ground (arith, typed-inhabits k type v (allowed-inhabits t k type v c h))

marker_lem :
    (default : Option Text) (required : Bool)
    → is_optional_marker (marker_of default required) ≡ not required
unfolding marker_of
marker_lem none true = refl
marker_lem (some d) true = refl
marker_lem none false = refl
marker_lem (some d) false = refl

-- The property that the generator writes for a schema with a scalar type: it is written with any
-- fuel, its decorators are those of the schema, and the type declared for it takes every value that
-- they let through, once it is converted, where a missing value is one that an optional property
-- takes. What the schema refers to has itself no reference.
pub property_typed :
    (c : ClassValidator) (fuel : ℕ) (schemas : Schemas) (s r : Schema) (type : JsonType)
    (required convert : Bool) (name : Text) (ds : List Decorator) (v : Value)
    → resolved_request_schema schemas s ≡ some r
    → (keywords r).ref ≡ none
    → primary_type (keywords r).types ≡ some type
    → is_scalar type ≡ true
    → request_decorators schemas required convert r ≡ some ds
    → c.accepts ds v ≡ true
    → (p : Property) × (request_property (suc fuel) schemas required convert name s ≡ some p)
      × (p.decorators ≡ ds)
      × (takes p (transformed c.number_of ds v) ≡ true)
unfolding request_property takes
property_typed c fuel schemas s r type required convert name ds v found direct e scalar these
      passed =
    let self : resolved_request_schema schemas r ≡ some r =
      unfold resolved_request_schema resolved_at in rw direct refl in
    let written = request_decorators_lem schemas r required convert self in
    let same : decorators_of required convert (keywords r) ≡ ds = cc (written, these) in
    (
      record {
        decorators = decorators_of required convert (keywords r);
        name = name;
        marker = marker_of (keywords r).default_value required;
        type = typed (keywords r) type;
        default_value = (keywords r).default_value;
      },
      rw (found, request_type_lem fuel schemas r type direct e scalar, written) refl,
      same,
      rw (marker_lem (keywords r).default_value required) (
          rw (sym same, transformed_lem c.number_of (keywords r) type required convert v e)
            (conforms-inhabits c.tests required (keywords r) type
              (converted c.number_of convert type v) scalar
              (sym (
                  accepts_lem c (keywords r) type required convert v e (scalar_checked type scalar))
                ∙ rw same passed))),
    )
