-- ===== src/Contracts/Validation.antt =====
-- What the validation library does with the decorators of a property, and what the keywords for the
-- type of a schema say of a value.
use study_room_sdk.Base.{
  ℕ, ◌≡◌, refl, Bool, true, false, not, ◌&&◌, ◌||◌, List, [], ◌∷◌, ◌++◌, Option, none, some, arith,
  leb, ltb, ◌==◌, any, all, if◌then◌else◌,
}
use study_room_sdk.Domain.{Text}
use study_room_sdk.Text.{text_eq}
use study_room_sdk.Contracts.Schema.{
  JsonType, string, integer, number, boolean, array, object, null, Keywords, nullable, text,
}
use study_room_sdk.Contracts.Generator.{
  Decorator, is_defined, if_not_null, is_optional, if_not_undefined, to_number, is_string, is_uuid,
  is_url, is_int, is_number, is_boolean, is_array, is_in, min_length, max_length, min, max, matches,
}

-- A property of a parsed body or query. A number is its sign, its whole part and whether it has a
-- fraction, or else it is `NaN` or infinite; what is in an array or an object is not looked at.
pub data Value : Type 0 where
  undefined null_value list_value object_value not_finite : Value
  text_value : Text → Value
  boolean_value : Bool → Value
  number_value : Bool → ℕ → Bool → Value

abbrev pub at_least : ℕ → Value → Bool
at_least n (number_value negative whole fraction) =
    (not negative && leb n whole) || (n == 0 && whole == 0 && not fraction)
at_least n _ = false

abbrev pub at_most : ℕ → Value → Bool
at_most n (number_value negative whole fraction) =
    negative || ltb whole n || (whole == n && not fraction)
at_most n _ = false

abbrev pub on_text : (Text → Bool) → Value → Bool
on_text p (text_value s) = p s
on_text p _ = false

abbrev pub is_undefined : Value → Bool
is_undefined undefined = true
is_undefined _ = false

abbrev pub is_null_value : Value → Bool
is_null_value null_value = true
is_null_value _ = false

abbrev pub is_missing : Value → Bool
is_missing undefined = true
is_missing null_value = true
is_missing _ = false

-- With such a value the other decorators of the property are not looked at.
abbrev pub skips : Value → Decorator → Bool
skips v if_not_null = is_null_value v
skips v is_optional = is_missing v
skips v if_not_undefined = is_undefined v
skips v _ = false

-- What the library brings along: its tests of strings, the length it counts and regular expressions.
pub record TextTests : Type 0 where
  pub uuid : Text → Bool
  pub url : Text → Bool
  pub length_of : Text → ℕ
  pub match_of : Text → Text → Bool

abbrev pub is_number_value : Value → Bool
is_number_value (number_value negative whole fraction) = true
is_number_value _ = false

abbrev pub is_whole : Value → Bool
is_whole (number_value negative whole fraction) = not fraction
is_whole _ = false

abbrev pub is_boolean_value : Value → Bool
is_boolean_value (boolean_value b) = true
is_boolean_value _ = false

abbrev pub is_list : Value → Bool
is_list list_value = true
is_list _ = false

module _ (t : TextTests) where
  abbrev pub holds : Value → Decorator → Bool
  holds v is_defined = not (is_missing v)
  holds v is_string = on_text (λ s. true) v
  holds v is_uuid = on_text t.uuid v
  holds v is_url = on_text t.url v
  holds v (is_in es) = on_text (λ s. any (text_eq s) es) v
  holds v (min_length n) = on_text (λ s. leb n (t.length_of s)) v
  holds v (max_length n) = on_text (λ s. leb (t.length_of s) n) v
  holds v (matches p) = on_text (t.match_of p) v
  holds v is_int = is_whole v
  holds v is_number = is_number_value v
  holds v is_boolean = is_boolean_value v
  holds v is_array = is_list v
  holds v (min n) = at_least n v
  holds v (max n) = at_most n v
  holds v _ = true

abbrev pub is_conversion : Decorator → Bool
is_conversion to_number = true
is_conversion _ = false

-- What `Type(() => Number)` makes of a value, given `Number`; a missing value stays missing.
unfoldable pub transformed : (Value → Value) → List Decorator → Value → Value
unfolding any
transformed number_of ds v =
    if any is_conversion ds then (if is_missing v then v else number_of v) else v

-- The validation library with what converts values before it, for which `number_of` is `Number`: a
-- value is let through if, once it is converted, a decorator says not to look at it, or if every
-- decorator holds of it.
pub record ClassValidator : Type 0 where
  pub tests : TextTests
  pub number_of : Value → Value
  pub accepts : List Decorator → Value → Bool
  pub accepts_all :
      (ds : List Decorator) (v : Value)
      → accepts ds v ≡ (
          any (skips (transformed number_of ds v)) ds
          || all (holds tests (transformed number_of ds v)) ds)

module _ {A : Type 0} (p : A → Bool) where
  pub all-append : (xs ys : List A) → all p (xs ++ ys) ≡ (all p xs && all p ys)
  unfolding all
  all-append [] ys = refl
  all-append (x ∷ xs) ys = ground (arith, all-append xs ys)

  pub any-append : (xs ys : List A) → any p (xs ++ ys) ≡ (any p xs || any p ys)
  unfolding any
  any-append [] ys = refl
  any-append (x ∷ xs) ys = ground (arith, any-append xs ys)

-- A keyword that is missing asks for nothing.
abbrev pub asked : {A : Type 0} → (A → Bool) → Option A → Bool
asked p none = true
asked p (some a) = p a

module _ (t : TextTests) where
  abbrev pub format_allows : Text → Text → Bool
  format_allows s f =
      (not (text_eq f (text "uuid")) || t.uuid s) && (not (text_eq f (text "uri")) || t.url s)

  -- What the keywords of a schema say of a string and of a number
  abbrev pub text_conforms : Keywords → Text → Bool
  text_conforms k s =
      asked (format_allows s) k.format
      && (asked (λ es. any (text_eq s) es) k.enum
          && (asked (λ n. leb n (t.length_of s)) k.min_length
              && (asked (λ n. leb (t.length_of s) n) k.max_length
                  && asked (λ p. t.match_of p s) k.pattern)))

  abbrev pub in_range : Keywords → Value → Bool
  in_range k v = asked (λ n. at_least n v) k.minimum && asked (λ n. at_most n v) k.maximum

  abbrev pub type_allows : Keywords → JsonType → Value → Bool
  type_allows k string (text_value s) = text_conforms k s
  type_allows k integer (number_value negative whole fraction) =
      not fraction && in_range k (number_value negative whole fraction)
  type_allows k number (number_value negative whole fraction) =
      in_range k (number_value negative whole fraction)
  type_allows k boolean (boolean_value b) = true
  type_allows k array list_value = true
  type_allows k _ _ = false

  -- What a property with one type may be: missing unless it is required, null if the schema says so,
  -- and otherwise a value of that type.
  unfoldable pub conforms : Bool → Keywords → JsonType → Value → Bool
  unfolding nullable
  conforms required k type undefined = not required
  conforms required k type null_value = nullable k.types
  conforms required k type v = type_allows k type v

-- The types that have checks
abbrev pub is_checked : JsonType → Bool
is_checked object = false
is_checked null = false
is_checked _ = true

-- The types whose values are checked through and through
abbrev pub is_scalar : JsonType → Bool
is_scalar array = false
is_scalar type = is_checked type
