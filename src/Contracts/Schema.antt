-- ===== src/Contracts/Schema.antt =====
-- The schemas of the contract as server/tool/generate-contracts.mjs reads them.
use Prim.Native.Char.{code}
use study_room_sdk.Base.{
  ℕ, String, Bool, true, false, ◌&&◌, List, [], ◌∷◌, Option, none, some, ◌==◌, find?, any,
  get_last?,
}
use study_room_sdk.Domain.{Text}
use study_room_sdk.Text.{text_eq}
use study_room_sdk.Text.Split.{split_where}

-- The units of an ASCII text
abbrev pub text : String → Text
text String.[] = []
text (String.◌∷◌ c s) = code c ∷ text s

pub data JsonType : Type 0 where
  string integer number boolean array object null : JsonType

-- The keyword `type`: missing, a name, or a list of names
pub data TypeKeyword : Type 0 where
  untyped : TypeKeyword
  one : JsonType → TypeKeyword
  several : List JsonType → TypeKeyword

-- The keywords that the generator reads, but for `items`. Entries of `enum` are strings, and the bounds
-- are natural numbers; a default is its JSON text.
pub record Keywords : Type 0 where
  pub ref : Option Text
  pub types : TypeKeyword
  pub enum : Option (List Text)
  pub format : Option Text
  pub min_length : Option ℕ
  pub max_length : Option ℕ
  pub pattern : Option Text
  pub minimum : Option ℕ
  pub maximum : Option ℕ
  pub default_value : Option Text
  pub has_properties : Bool

-- A schema without and with `items`
pub data Schema : Type 0 where
  plain : Keywords → Schema
  with_items : Keywords → Schema → Schema

abbrev pub keywords : Schema → Keywords
keywords (plain k) = k
keywords (with_items k s) = k

-- `{}`
abbrev pub no_keywords : Keywords
no_keywords = record {
  ref = none;
  types = untyped;
  enum = none;
  format = none;
  min_length = none;
  max_length = none;
  pattern = none;
  minimum = none;
  maximum = none;
  default_value = none;
  has_properties = false;
}

-- `schema.items ?? {}`
abbrev pub items_of : Schema → Schema
items_of (plain k) = plain no_keywords
items_of (with_items k s) = s

abbrev pub is_null : JsonType → Bool
is_null null = true
is_null _ = false

-- `nullable`
unfoldable pub nullable : TypeKeyword → Bool
nullable (several ts) = any is_null ts
nullable _ = false

abbrev is_not_null : JsonType → Bool
is_not_null null = false
is_not_null _ = true

-- `primaryType`
unfoldable pub primary_type : TypeKeyword → Option JsonType
primary_type untyped = none
primary_type (one t) = some t
primary_type (several ts) = find? is_not_null ts

abbrev pub is_given : {A : Type 0} → Option A → Bool
is_given none = false
is_given (some a) = true

abbrev pub is_string_type : Option JsonType → Bool
is_string_type (some string) = true
is_string_type _ = false

-- `isEnum`
unfoldable pub is_enum : Keywords → Bool
unfolding primary_type
is_enum k = is_string_type (primary_type k.types) && is_given k.enum

abbrev is_object_type : Option JsonType → Bool
is_object_type (some object) = true
is_object_type _ = false

-- `isObject`
unfoldable pub is_object : Keywords → Bool
unfolding primary_type
is_object k = is_object_type (primary_type k.types) && k.has_properties

-- `refName`: what follows the last slash
unfoldable pub ref_name : Text → Text
unfolding split_where
ref_name r = elim (get_last? (split_where (λ c. c == b'/') r)) [ none ↦ [] | some n ↦ n ]

-- The schemas of the contract by name
abbrev pub Schemas : Type 0
Schemas = List (Text × Schema)

unfoldable pub schema_named : Text → Schemas → Option Schema
schema_named n [] = none
schema_named n ((m, s) ∷ rest) = elim (text_eq m n) [ true ↦ some s | false ↦ schema_named n rest ]

abbrev or_else : {A : Type 0} → Option A → Option A → Option A
or_else (some a) b = some a
or_else none b = b

abbrev types_or : TypeKeyword → TypeKeyword → TypeKeyword
types_or untyped b = b
types_or a b = a

-- `{ ...resolved, ...overrides }`, without the reference of the overrides
unfoldable pub overridden : Keywords → Keywords → Keywords
overridden over k = record {
  ref = k.ref;
  types = types_or over.types k.types;
  enum = or_else over.enum k.enum;
  format = or_else over.format k.format;
  min_length = or_else over.min_length k.min_length;
  max_length = or_else over.max_length k.max_length;
  pattern = or_else over.pattern k.pattern;
  minimum = or_else over.minimum k.minimum;
  maximum = or_else over.maximum k.maximum;
  default_value = or_else over.default_value k.default_value;
  has_properties = elim over.has_properties [ true ↦ true | false ↦ k.has_properties ];
}

unfoldable pub overriding : Schema → Schema → Schema
unfolding overridden
overriding (plain over) (plain k) = plain (overridden over k)
overriding (plain over) (with_items k s) = with_items (overridden over k) s
overriding (with_items over s) base = with_items (overridden over (keywords base)) s

abbrev resolved_to : Schema → Option Schema → Option Schema
resolved_to s none = none
resolved_to s (some base) = some (overriding s base)

unfoldable pub resolved_at : Schemas → Schema → Option Text → Option Schema
unfolding schema_named ref_name overriding
resolved_at schemas s none = some s
resolved_at schemas s (some r) = resolved_to s (schema_named (ref_name r) schemas)

-- `resolvedRequestSchema`; none: the reference is unknown
unfoldable pub resolved_request_schema : Schemas → Schema → Option Schema
unfolding resolved_at
resolved_request_schema schemas s = resolved_at schemas s (keywords s).ref
