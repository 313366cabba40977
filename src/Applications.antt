-- ===== src/Applications.antt =====
-- server/src/applications/applications.service.ts: the tenants, which each instance of the server
-- keeps in a cache for five minutes, and drops from it when an instance says that one has changed.
-- The policy for the addresses of key sets is an argument: it answers with the message of its refusal.
pub mod Cache
pub mod JwksUriPolicy
pub mod Https
use study_room_sdk.Base.{
  ℕ, String, ◌+◌, ◌*◌, Bool, true, false, not, List, [], ◌∷◌, ◌++◌, Option, none, some, ltb, leb,
  ◌==◌, if◌then◌else◌, find?, any, update_where, delete_where, sort_by,
}
use study_room_sdk.Domain.{
  Text, Application, ApplicationChange, AuditLog, AuditAction, application_created,
  application_updated, Metadata, no_metadata, application_change, Page,
}
use study_room_sdk.Service.Monad.{
  Outcome, done, thrown, Failure, bad_request, not_found, known_request, p2002, message,
}
use study_room_sdk.Page.{Seek, page}

-- An entry of the map `cache`
pub record Cached : Type 0 where
  pub value : Application
  pub expires_at : ℕ

-- The tables, the cache of this instance, and what it published, the latest first.
pub record Applications : Type 0 where
  pub rows : List Application
  pub cache : List Cached
  pub audit_logs : List AuditLog
  pub published : List (ℕ × Bool)

abbrev pub row_of : ℕ → Application → Bool
row_of app a = a.app_id == app

abbrev pub entry_of : ℕ → Cached → Bool
entry_of app c = c.value.app_id == app

abbrev pub cache_ttl_ms : ℕ
cache_ttl_ms = 5 * 60 * 1000

-- `cache.delete`
unfoldable pub forget : ℕ → Applications → Applications
forget app s = record s { cache = delete_where (entry_of app) s.cache }

-- `cache.set`
unfoldable pub remember : ℕ → Application → Applications → Applications
remember now a s = record s {
  cache =
      record { value = a; expires_at = now + cache_ttl_ms }
      ∷ delete_where (entry_of a.app_id) s.cache;
}

abbrev pub fresh : ℕ → Option Cached → Option Application
fresh now none = none
fresh now (some c) = if ltb now c.expires_at then some c.value else none

-- The lookup in the table, at the time `now`
abbrev pub looked_up : ℕ → Option Application → Applications → Option Application × Applications
looked_up now none s = (none, s)
looked_up now (some a) s = (some a, remember now a s)

abbrev pub served : ℕ → ℕ → Option Application → Applications → Option Application × Applications
served now app (some a) s = (some a, s)
served now app none s = looked_up now (find? (row_of app) s.rows) s

-- `get`; without a value it is refused with `Application not found`
unfoldable pub get : ℕ → ℕ → Applications → Option Application × Applications
get now app s = served now app (fresh now (find? (entry_of app) s.cache)) s

abbrev pub if_enabled : Option Application → Option Application
if_enabled none = none
if_enabled (some a) = if a.enabled then some a else none

-- `getEnabled`
unfoldable pub get_enabled : ℕ → ℕ → Applications → Option Application × Applications
get_enabled now app s = let (found, t) = get now app s in (if_enabled found, t)

abbrev pub by_app_id : Application → Application → Bool
by_app_id a b = leb a.app_id b.app_id

-- `list`
unfoldable pub list : Seek → Option ℕ → ℕ → Applications → Page Application
list seek cursor limit s = page seek (λ a. a.app_id) cursor limit (sort_by by_app_id s.rows)

-- `changed`
unfoldable pub changed : Application → Applications → Applications
unfolding forget
changed a s =
    let t = forget a.app_id s in record t { published = (a.app_id, a.enabled) ∷ t.published }

-- `JwksUriPolicy.assertAllowed`
abbrev pub Policy : Type 0
Policy = Text → Option String

abbrev pub bad_address : Option String → Option Failure
bad_address none = none
bad_address (some reason) = some (bad_request (message reason))

-- `validateJwksUri`, for a field that may be missing
unfoldable pub refusal_of : Policy → Option Text → Option Failure
refusal_of policy none = none
refusal_of policy (some uri) = bad_address (policy uri)

abbrev pub audit_of : ℕ → ℕ → AuditAction → Metadata → AuditLog
audit_of app actor act metadata = record {
  app_id = app;
  actor_id = actor;
  action = act;
  resource_id = app;
  metadata = metadata;
}

abbrev pub inserted : ℕ → Application → Applications → Applications
inserted actor a s = record s {
  rows = s.rows ++ a ∷ [];
  audit_logs = s.audit_logs ++ audit_of a.app_id actor application_created no_metadata ∷ [];
}

-- The transaction of `create`, and `changed`
unfoldable pub insert_application :
    ℕ → Application → Applications → Outcome Application × Applications
unfolding changed
insert_application actor a s =
    if any (row_of a.app_id) s.rows
    then (thrown (known_request p2002), s)
    else (done a, changed a (inserted actor a s))

abbrev pub unless_refused :
    Option Failure
    → Outcome Application × Applications
    → Applications
    → Outcome Application × Applications
unless_refused none result s = result
unless_refused (some e) result s = (thrown e, s)

-- `create`; the default of `enabled` is part of the application
unfoldable pub create : Policy → ℕ → Application → Applications → Outcome Application × Applications
unfolding insert_application refusal_of
create policy actor a s =
    unless_refused (refusal_of policy (some a.jwks_uri)) (insert_application actor a s) s

abbrev pub given : {A : Type 0} → Option A → A → A
given none old = old
given (some new) old = new

abbrev pub with_change : ApplicationChange → Application → Application
with_change c a = record a {
  issuer = given c.issuer a.issuer;
  audience = given c.audience a.audience;
  jwks_uri = given c.jwks_uri a.jwks_uri;
  enabled = given c.enabled a.enabled;
  chat_retention_days = given c.chat_retention_days a.chat_retention_days;
  session_retention_days = given c.session_retention_days a.session_retention_days;
}

abbrev pub updated : ℕ → ℕ → ApplicationChange → Applications → Applications
updated app actor c s = record s {
  rows = update_where (row_of app) (with_change c) s.rows;
  audit_logs = s.audit_logs ++ audit_of app actor application_updated (application_change c) ∷ [];
}

-- The transaction of `update`, its `catch`, and `changed`
unfoldable pub update_row :
    ℕ
    → ℕ
    → ApplicationChange
    → Option Application
    → Applications
    → Outcome Application × Applications
unfolding changed
update_row app actor c none s = (thrown (not_found (message "Application not found")), s)
update_row app actor c (some a) s =
    (done (with_change c a), changed (with_change c a) (updated app actor c s))

-- `update`
unfoldable pub update :
    Policy → ℕ → ℕ → ApplicationChange → Applications → Outcome Application × Applications
unfolding update_row refusal_of
update policy app actor c s =
    unless_refused (refusal_of policy c.jwks_uri)
      (update_row app actor c (find? (row_of app) s.rows) s) s

-- The handler of the subscription to `study-room:applications`
unfoldable pub on_change : ℕ → Applications → Applications
unfolding forget
on_change app s = forget app s

abbrev first_refusal : Option String → Option String → Option String
first_refusal none rest = rest
first_refusal (some reason) rest = some reason

-- The check of `onModuleInit`: the first application whose address is refused keeps the server from
-- starting.
unfoldable pub check_at_start : Policy → List Application → Option String
check_at_start policy [] = none
check_at_start policy (a ∷ rows) = first_refusal (policy a.jwks_uri) (check_at_start policy rows)
