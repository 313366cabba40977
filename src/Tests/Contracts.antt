-- ===== src/Tests/Contracts.antt =====
-- The theorems on the contract, at a schema of a name that may be null and at bodies.
use study_room_sdk.Base.{
  none, count, ◌≤◌, ◌++◌, ◌≡◌, refl, true, false, not, ◌||◌, List, [], ◌∷◌, some, any, all, find?,
  length, if◌then◌else◌,
}
use study_room_sdk.Domain.{Text}
use study_room_sdk.Domain.{SessionStatus}
use study_room_sdk.Rooms.Requests.{Decision}
use study_room_sdk.Text.{is_space, text_eq}
use study_room_sdk.Text.Split.{split_where}
use study_room_sdk.Contracts.Schema.{
  text, Schemas, Schema, plain, Keywords, no_keywords, several, string, null, schema_named,
  ref_name, overridden, overriding, primary_type, nullable, resolved_at, resolved_request_schema,
}
use study_room_sdk.Contracts.Generator.{
  is_optional, is_string, max_length, request_decorators, decorators_from, decorators_of,
  presence_decorators, conversion, type_decorators, format_decorators, request_property, Property,
}
use study_room_sdk.Contracts.Validation.{
  ClassValidator, TextTests, Value, null_value, text_value, number_value, not_finite, skips, holds,
  transformed,
}
use study_room_sdk.Contracts.Parameters.{
  Parameter, in_path, in_query, Candidate, given, reference, Components, dereferenced,
  dereference_parameter, parameter_named, merged_parameters, key_is, last_with, merged_last,
}
use study_room_sdk.Contracts.Typing.{takes, property_typed}
use study_room_sdk.Contracts.Dtos.{Fields, field_of, enough_defined, valid}
use study_room_sdk.Contracts.Bodies.{HasText, decided, spelled, bodies_served}

abbrev text_tests : TextTests
text_tests = record {
  uuid = λ s. true;
  url = λ s. true;
  length_of = length;
  match_of = λ p s. any (λ u. not (is_space u)) s;
}

-- `Number`, of the digit seven alone
abbrev number_of_text : Value → Value
number_of_text (text_value s) =
    if text_eq s (text "7") then number_value false 7 false else not_finite
number_of_text v = v

abbrev validator : ClassValidator
validator = record {
  tests = text_tests;
  number_of = number_of_text;
  accepts = λ ds v.
      any (skips (transformed number_of_text ds v)) ds
      || all (holds text_tests (transformed number_of_text ds v)) ds;
  accepts_all = λ ds v. refl;
}

-- `{ type: [string, 'null'], maxLength: 3 }`, by reference
abbrev nickname : Keywords
nickname = record no_keywords { types = several (string ∷ null ∷ []); max_length = some 3 }

abbrev schemas : Schemas
schemas = (text "Nickname", plain nickname) ∷ []

abbrev nickname_reference : Schema
nickname_reference =
    plain (record no_keywords { ref = some (text "#/components/schemas/Nickname") })

found : resolved_request_schema schemas nickname_reference ≡ some (plain nickname)
unfolding resolved_request_schema resolved_at schema_named ref_name overriding overridden
    split_where text_eq
found = refl

property_typed_example :
    (p : Property) × (request_property 1 schemas false false (text "nickname") nickname_reference
      ≡ some p)
    × (p.decorators ≡ is_optional ∷ is_string ∷ max_length 3 ∷ [])
    × (takes p (transformed number_of_text (is_optional ∷ is_string ∷ max_length 3 ∷ []) null_value)
        ≡ true)
unfolding primary_type find?
property_typed_example =
    property_typed validator 0 schemas nickname_reference (plain nickname) string false false
      (text "nickname") (is_optional ∷ is_string ∷ max_length 3 ∷ []) null_value found refl refl
      refl
      (unfold request_decorators decorators_from decorators_of resolved_request_schema resolved_at
          presence_decorators conversion type_decorators format_decorators nullable any in
        refl)
      (unfold transformed any in refl)

abbrev field : Text → Text → Fields
field name s = (name, text_value s) ∷ []

bodies_served_example :
    HasText validator 100 (text "title") (field (text "title") (text " Library"))
    × HasText validator 2000 (text "text") (field (text "text") (text "Hi"))
    × ((d : Decision) × (field_of (text "decision") (field (text "decision") (text "approved"))
          ≡ text_value (decided d)))
    × ((st : SessionStatus) × (field_of (text "status") (field (text "status") (text "paused"))
          ≡ text_value (spelled st)))
unfolding valid field_of enough_defined any all is_space text_eq transformed
bodies_served_example =
    bodies_served validator (field (text "title") (text " Library"))
      (field (text "text") (text "Hi")) (field (text "decision") (text "approved"))
      (field (text "status") (text "paused")) (λ s. refl) refl refl refl refl

-- The path has the room, by reference, and a query parameter that the operation replaces.
abbrev room_parameter : Parameter
room_parameter = record {
  location = in_path;
  name = text "roomId";
  is_required = true;
  schema = none;
}

abbrev limit_parameter : Parameter
limit_parameter = record {
  location = in_query;
  name = text "limit";
  is_required = false;
  schema = none;
}

abbrev components : Components
components = (text "RoomId", room_parameter) ∷ []

abbrev path_parameters : List Candidate
path_parameters = reference (text "#/components/parameters/RoomId") ∷ given limit_parameter ∷ []

abbrev operation_parameters : List Candidate
operation_parameters = given (record limit_parameter { is_required = true }) ∷ []

all_known :
    dereferenced components (path_parameters ++ operation_parameters)
    ≡ some (room_parameter ∷ limit_parameter ∷ record limit_parameter { is_required = true } ∷ [])
unfolding dereferenced dereference_parameter parameter_named ref_name split_where text_eq
all_known = refl

merged_last_example :
    (map : List Parameter) × (merged_parameters components path_parameters operation_parameters
      ≡ some map)
    × (count (key_is in_query (text "limit")) map ≤ 1)
    × (find? (key_is in_query (text "limit")) map
        ≡ last_with in_query
            (text "limit")
            (room_parameter ∷ limit_parameter ∷ record limit_parameter { is_required = true } ∷ []))
merged_last_example =
    merged_last components path_parameters operation_parameters
      (room_parameter ∷ limit_parameter ∷ record limit_parameter { is_required = true } ∷ [])
      in_query (text "limit") all_known
