-- ===== src/Contracts/Dtos.antt =====
-- server/src/generated/request-dtos.ts: the decorators of the properties of each class.
use study_room_sdk.Base.{
  ℕ, Bool, true, ◌&&◌, List, [], ◌∷◌, Option, none, some, leb, count, any, all, not, if◌then◌else◌,
}
use study_room_sdk.Domain.{Text}
use study_room_sdk.Text.{text_eq}
use study_room_sdk.Contracts.Schema.{text}
use study_room_sdk.Contracts.Generator.{
  Decorator, is_defined, is_optional, if_not_undefined, to_number, is_string, is_uuid, is_url,
  is_int, is_boolean, is_in, min_length, max_length, min, max, matches,
}
use study_room_sdk.Contracts.Validation.{Value, undefined, is_undefined, ClassValidator}

-- A class: its properties with their decorators, and how many of them a body must define where the
-- class has `MinimumDefinedPropertiesConstraint`
pub record Dto : Type 0 where
  pub properties : List (Text × List Decorator)
  pub least : Option ℕ

abbrev dto : List (Text × List Decorator) → Dto
dto ps = record { properties = ps; least = none }

-- The fields of a body, or the parameters of a path or a query
abbrev pub Fields : Type 0
Fields = List (Text × Value)

unfoldable pub field_of : Text → Fields → Value
field_of name [] = undefined
field_of name ((n, v) ∷ fs) = let rest = field_of name fs in if text_eq n name then v else rest

abbrev names_of : List (Text × List Decorator) → List Text
names_of [] = []
names_of ((n, ds) ∷ ps) = n ∷ names_of ps

-- The property that carries the constraint; nobody may define it.
abbrev constraint_name : Text
constraint_name = text "__minimumDefinedProperties"

-- `MinimumDefinedPropertiesConstraint`
unfoldable pub enough_defined : Option ℕ → List Text → Fields → Bool
unfolding field_of
enough_defined none names fs = true
enough_defined (some least) names fs =
    not (any (λ f. text_eq f.0 constraint_name) fs)
    && leb least (count (λ n. not (is_undefined (field_of n fs))) names)

-- Whether the fields pass the validation of a class, as server/src/main.ts configures it: fields that
-- are not properties of the class are forbidden.
unfoldable pub valid : ClassValidator → Dto → Fields → Bool
unfolding field_of enough_defined
valid c d fs =
    all (λ f. any (text_eq f.0) (names_of d.properties)) fs
    && (all (λ p. c.accepts p.1 (field_of p.0 fs)) d.properties
        && enough_defined d.least (names_of d.properties) fs)

abbrev required_uuid : Text → Text × List Decorator
required_uuid name = (name, is_defined ∷ is_string ∷ is_uuid ∷ [])

abbrev required_text : Text → ℕ → ℕ → Text × List Decorator
required_text name least most =
    (name, is_defined ∷ is_string ∷ min_length least ∷ max_length most ∷ [])

abbrev visible_text : Text → ℕ → Text × List Decorator
visible_text name most =
    (name, is_defined ∷ is_string ∷ min_length 1 ∷ max_length most ∷ matches (text "\\S") ∷ [])

abbrev app_id_property : Text × List Decorator
app_id_property =
    (text "appId", is_defined ∷ is_string ∷ matches (text "^[A-Za-z0-9._-]{1,64}$") ∷ [])

abbrev limit_property : Text × List Decorator
limit_property = (text "limit", if_not_undefined ∷ to_number ∷ is_int ∷ min 1 ∷ max 100 ∷ [])

abbrev days_property : Text → Text × List Decorator
days_property name = (name, is_optional ∷ is_int ∷ min 1 ∷ max 36500 ∷ [])

abbrev pub list_applications_query : Dto
list_applications_query = dto (
    (text "cursor", if_not_undefined ∷ is_string ∷ min_length 1 ∷ max_length 256 ∷ [])
    ∷ limit_property
    ∷ [])

abbrev pub create_application_body : Dto
create_application_body = dto (
    app_id_property
    ∷ (text "issuer", is_defined ∷ is_string ∷ min_length 1 ∷ [])
    ∷ (text "audience", is_defined ∷ is_string ∷ min_length 1 ∷ [])
    ∷ (text "jwksUri", is_defined ∷ is_string ∷ is_url ∷ matches (text "^https?://") ∷ [])
    ∷ (text "enabled", if_not_undefined ∷ is_boolean ∷ [])
    ∷ days_property (text "chatRetentionDays")
    ∷ days_property (text "sessionRetentionDays")
    ∷ [])

abbrev pub get_application_params : Dto
get_application_params = dto (app_id_property ∷ [])

abbrev pub update_application_params : Dto
update_application_params = dto (app_id_property ∷ [])

abbrev pub update_application_body : Dto
update_application_body = record {
  properties =
      (text "issuer", if_not_undefined ∷ is_string ∷ min_length 1 ∷ [])
      ∷ (text "audience", if_not_undefined ∷ is_string ∷ min_length 1 ∷ [])
      ∷ (text "jwksUri", if_not_undefined ∷ is_string ∷ is_url ∷ matches (text "^https?://") ∷ [])
      ∷ (text "enabled", if_not_undefined ∷ is_boolean ∷ [])
      ∷ days_property (text "chatRetentionDays")
      ∷ days_property (text "sessionRetentionDays")
      ∷ [];
  least = some 1;
}

abbrev list_query : Dto
list_query =
    dto ((text "cursor", if_not_undefined ∷ is_string ∷ is_uuid ∷ []) ∷ limit_property ∷ [])

abbrev pub list_rooms_query : Dto
list_rooms_query = list_query

abbrev pub list_room_join_requests_query : Dto
list_room_join_requests_query = list_query

abbrev pub list_my_join_requests_query : Dto
list_my_join_requests_query = list_query

abbrev pub list_messages_query : Dto
list_messages_query = list_query

abbrev pub list_active_sessions_query : Dto
list_active_sessions_query = list_query

abbrev pub create_room_body : Dto
create_room_body = dto (visible_text (text "title") 100 ∷ [])

abbrev room_params : Dto
room_params = dto (required_uuid (text "roomId") ∷ [])

abbrev pub get_room_params : Dto
get_room_params = room_params

abbrev pub delete_room_params : Dto
delete_room_params = room_params

abbrev pub list_room_join_requests_params : Dto
list_room_join_requests_params = room_params

abbrev pub request_room_access_params : Dto
request_room_access_params = room_params

abbrev pub cancel_room_access_request_params : Dto
cancel_room_access_request_params = room_params

abbrev pub leave_room_params : Dto
leave_room_params = room_params

abbrev pub transfer_room_ownership_params : Dto
transfer_room_ownership_params = room_params

abbrev pub list_messages_params : Dto
list_messages_params = room_params

abbrev pub send_message_params : Dto
send_message_params = room_params

abbrev pub start_session_params : Dto
start_session_params = room_params

abbrev pub list_active_sessions_params : Dto
list_active_sessions_params = room_params

abbrev pub decide_join_request_params : Dto
decide_join_request_params =
    dto (required_uuid (text "roomId") ∷ required_uuid (text "requestId") ∷ [])

abbrev pub decide_join_request_body : Dto
decide_join_request_body = dto (
    (text "decision", is_defined ∷ is_string ∷ is_in (text "approved" ∷ text "rejected" ∷ []) ∷ [])
    ∷ [])

abbrev pub remove_room_member_params : Dto
remove_room_member_params =
    dto (required_uuid (text "roomId") ∷ required_text (text "userId") 1 256 ∷ [])

abbrev pub transfer_room_ownership_body : Dto
transfer_room_ownership_body = dto (required_text (text "userId") 1 256 ∷ [])

abbrev pub send_message_body : Dto
send_message_body = dto (visible_text (text "text") 2000 ∷ [])

abbrev pub update_session_params : Dto
update_session_params = dto (required_uuid (text "sessionId") ∷ [])

abbrev pub update_session_body : Dto
update_session_body = dto (
    (
      text "status",
      is_defined ∷ is_string ∷ is_in (text "running" ∷ text "paused" ∷ text "finished" ∷ []) ∷ [],
    )
    ∷ [])
