-- ===== src/Contracts/Generator.antt =====
-- What server/tool/generate-contracts.mjs writes for the properties of a request. A decorator and a
-- type stand for the text that is written for them.
use study_room_sdk.Base.{
  ℕ, Bool, true, false, List, [], ◌∷◌, ◌++◌, Option, none, some, zero, suc, if◌then◌else◌,
}
use study_room_sdk.Domain.{Text}
use study_room_sdk.Text.{text_eq}
use study_room_sdk.Contracts.Schema.{
  JsonType, string, integer, number, boolean, array, Keywords, Schema, keywords, items_of, Schemas,
  nullable, primary_type, is_enum, text, resolved_request_schema,
}

-- `IsDefined`, `ValidateIf` a value is not null, `IsOptional`, `ValidateIf` a value is not undefined,
-- `Type(() => Number)` and the checks of a value
pub data Decorator : Type 0 where
  is_defined if_not_null is_optional if_not_undefined to_number : Decorator
  is_string is_uuid is_url is_int is_number is_boolean is_array : Decorator
  is_in : List Text → Decorator
  min_length max_length min max : ℕ → Decorator
  matches : Text → Decorator

-- `if (o !== undefined) decorators.push(...)`
abbrev pub pushed : {A : Type 0} → (A → Decorator) → Option A → List Decorator
pushed f none = []
pushed f (some a) = f a ∷ []

-- Whether a value must be there, may be null or may be missing
unfoldable pub presence_decorators : Bool → Bool → List Decorator
presence_decorators true true = is_defined ∷ if_not_null ∷ []
presence_decorators true false = is_defined ∷ []
presence_decorators false true = is_optional ∷ []
presence_decorators false false = if_not_undefined ∷ []

unfoldable pub conversion : Bool → Option JsonType → List Decorator
conversion true (some integer) = to_number ∷ []
conversion _ _ = []

unfoldable pub format_decorators : Option Text → List Decorator
format_decorators none = []
format_decorators (some f) =
    (if text_eq f (text "uuid") then is_uuid ∷ [] else [])
    ++ (if text_eq f (text "uri") then is_url ∷ [] else [])

-- The checks for each type; the list of an enumeration is checked for a string only, as `isEnum` says.
unfoldable pub type_decorators : Option JsonType → Keywords → List Decorator
unfolding format_decorators
type_decorators (some string) k =
    is_string
    ∷ (format_decorators k.format
        ++ (pushed is_in k.enum
            ++ (pushed min_length k.min_length
                ++ (pushed max_length k.max_length ++ pushed matches k.pattern))))
type_decorators (some integer) k = is_int ∷ (pushed min k.minimum ++ pushed max k.maximum)
type_decorators (some number) k = is_number ∷ (pushed min k.minimum ++ pushed max k.maximum)
type_decorators (some boolean) k = is_boolean ∷ []
type_decorators (some array) k = is_array ∷ []
type_decorators _ k = []

unfoldable pub decorators_of : Bool → Bool → Keywords → List Decorator
unfolding presence_decorators conversion type_decorators nullable primary_type
decorators_of required convert k =
    presence_decorators required (nullable k.types)
    ++ (conversion convert (primary_type k.types) ++ type_decorators (primary_type k.types) k)

unfoldable pub decorators_from : Bool → Bool → Option Schema → Option (List Decorator)
unfolding decorators_of
decorators_from required convert none = none
decorators_from required convert (some r) = some (decorators_of required convert (keywords r))

-- `requestDecorators`; none: a reference is unknown
unfoldable pub request_decorators : Schemas → Bool → Bool → Schema → Option (List Decorator)
unfolding resolved_request_schema decorators_from
request_decorators schemas required convert s =
    decorators_from required convert (resolved_request_schema schemas s)

-- The type that is declared for a property
pub data TsType : Type 0 where
  string_type number_type boolean_type unknown_type : TsType
  literals : List Text → TsType
  array_of or_null : TsType → TsType

abbrev nullable_type : Bool → TsType → TsType
nullable_type true t = or_null t
nullable_type false t = t

abbrev entries : Option (List Text) → List Text
entries none = []
entries (some es) = es

unfoldable pub value_type : Option TsType → Keywords → Option JsonType → Option TsType
value_type item k (some string) =
    some (if is_enum k then literals (entries k.enum) else string_type)
value_type item k (some integer) = some number_type
value_type item k (some number) = some number_type
value_type item k (some boolean) = some boolean_type
value_type none k (some array) = none
value_type (some t) k (some array) = some (array_of t)
value_type item k _ = some unknown_type

unfoldable pub type_with : Keywords → Option TsType → Option TsType
type_with k none = none
type_with k (some t) = some (nullable_type (nullable k.types) t)

-- The type of a schema whose reference has been followed, given what the types of items are
unfoldable pub type_from : (Schema → Option TsType) → Option Schema → Option TsType
unfolding value_type type_with primary_type is_enum nullable
type_from item none = none
type_from item (some r) =
    type_with (keywords r)
      (value_type (item (items_of r)) (keywords r) (primary_type (keywords r).types))

-- `requestType`, with fuel for the arrays inside arrays; none: a reference is unknown, or the fuel is
-- used up
unfoldable pub request_type : ℕ → Schemas → Schema → Option TsType
unfolding resolved_request_schema type_from
request_type zero schemas s = none
request_type (suc fuel) schemas s =
    type_from (request_type fuel schemas) (resolved_request_schema schemas s)

-- `!`, `?` or nothing behind a name
pub data Marker : Type 0 where
  definite optional unmarked : Marker

pub record Property : Type 0 where
  pub decorators : List Decorator
  pub name : Text
  pub marker : Marker
  pub type : TsType
  pub default_value : Option Text

unfoldable pub marker_of : Option Text → Bool → Marker
marker_of none true = definite
marker_of (some d) true = unmarked
marker_of _ false = optional

abbrev property_with :
    Text → Bool → Option Text → Option (List Decorator) → Option TsType → Option Property
property_with name required default (some ds) (some t) = some (record {
  decorators = ds;
  name = name;
  marker = marker_of default required;
  type = t;
  default_value = default;
})
property_with name required default _ _ = none

abbrev property_from :
    (Schema → Option (List Decorator))
    → (Schema → Option TsType)
    → Bool
    → Text
    → Option Schema
    → Option Property
property_from decorators type required name none = none
property_from decorators type required name (some r) =
    property_with name required (keywords r).default_value (decorators r) (type r)

-- `requestProperty`
unfoldable pub request_property : ℕ → Schemas → Bool → Bool → Text → Schema → Option Property
unfolding resolved_request_schema request_decorators request_type marker_of
request_property fuel schemas required convert name s =
    property_from (request_decorators schemas required convert) (request_type fuel schemas) required
      name (resolved_request_schema schemas s)
