-- ===== src/Applications/Https.antt =====
-- What the policy for key set addresses makes sure of.
use study_room_sdk.Base.{
  ℕ, ◌≡◌, refl, inl, inr, true, List, [], ◌∷◌, Option, none, some, Bool-cases, Option-cases, All,
  All-append_one, All-update_where, any, find?, arith,
}
use study_room_sdk.Domain.{Text, Application, ApplicationChange}
use study_room_sdk.Text.{text_eq}
use study_room_sdk.Applications.{
  Applications, Policy, check_at_start, create, update, insert_application, update_row, changed,
  forget, refusal_of, unless_refused, row_of, with_change, given,
}
use study_room_sdk.Service.Monad.{Outcome, Failure}
use study_room_sdk.Applications.JwksUriPolicy.{
  Url, production, Environment, Refusal, message_of, runtime_profile, https, insecure_refusal,
  url_refusal, profile_refusal, assert_allowed, policy_of,
}

-- The calls of the administrators' controller that write.
pub data Call : Type 0 where
  creates : ℕ → Application → Call
  updates : ℕ → ℕ → ApplicationChange → Call

pub handle : Policy → Call → Applications → Applications
handle policy (creates actor a) s = (create policy actor a s).1
handle policy (updates app actor c) s = (update policy app actor c s).1

pub run : Policy → List Call → Applications → Applications
unfolding handle
run policy [] s = s
run policy (c ∷ cs) s = run policy cs (handle policy c s)

module _ (policy : Policy) (Good : Text → Type 0)
    (sound : (value : Text) → policy value ≡ none → Good value) where
  abbrev Rows : Applications → Type 0
  Rows s = All (λ a. Good a.jwks_uri) s.rows

  started-Good :
      (rows : List Application)
      → check_at_start policy rows ≡ none
      → All (λ a. Good a.jwks_uri) rows
  unfolding check_at_start
  started-Good [] h = tt
  started-Good (a ∷ rows) h = elim (Option-cases (policy a.jwks_uri)) [
    | inl e ↦ let k = rw e at h in (sound a.jwks_uri e, started-Good rows k)
    | inr (reason, e) ↦ let k = rw e at h in cc
  ]

  allowed-Good : (value : Text) → refusal_of policy (some value) ≡ none → Good value
  unfolding refusal_of
  allowed-Good value e = elim (Option-cases (policy value)) [
    | inl k ↦ sound value k
    | inr (reason, k) ↦ let j = rw k at e in cc
  ]

  given-Good :
      (o : Option Text) (old : Text) → refusal_of policy o ≡ none → Good old → Good (given o old)
  given-Good none old e h = h
  given-Good (some value) old e h = allowed-Good value e

  unless_refused-Good :
      (o : Option Failure) (result : Outcome Application × Applications) (s : Applications)
      → (o ≡ none → Rows result.1)
      → Rows s
      → Rows (unless_refused o result s).1
  unless_refused-Good none result s k h = k refl
  unless_refused-Good (some e) result s k h = h

  create-Good :
      (actor : ℕ) (a : Application) (s : Applications) → Rows s → Rows (create policy actor a s).1
  unfolding create insert_application changed forget
  create-Good actor a s h =
      unless_refused-Good (refusal_of policy (some a.jwks_uri)) (insert_application actor a s) s
        (λ e. elim (Bool-cases (any (row_of a.app_id) s.rows)) [
          | inl k ↦ rw k h
          | inr k ↦ rw k (All-append_one _ s.rows h (allowed-Good a.jwks_uri e))
        ])
        h

  update_row-Good :
      (app actor : ℕ) (c : ApplicationChange) (o : Option Application) (s : Applications)
      → refusal_of policy c.jwks_uri ≡ none
      → Rows s
      → Rows (update_row app actor c o s).1
  unfolding update_row changed forget
  update_row-Good app actor c none s e h = h
  update_row-Good app actor c (some found) s e h =
      All-update_where _ _ (row_of app) (with_change c)
        (λ a g. elim (Bool-cases (row_of app a)) [
          | inl k ↦ rw k (given-Good c.jwks_uri a.jwks_uri e g)
          | inr k ↦ rw k g
        ])
        s.rows h

  update-Good :
      (app actor : ℕ) (c : ApplicationChange) (s : Applications)
      → Rows s
      → Rows (update policy app actor c s).1
  unfolding update
  update-Good app actor c s h =
      unless_refused-Good _ _ s (λ e. update_row-Good app actor c (find? (row_of app) s.rows) s e h)
        h

  run-Good : (calls : List Call) (s : Applications) → Rows s → Rows (run policy calls s)
  unfolding run handle
  run-Good [] s h = h
  run-Good (creates actor a ∷ cs) s h = run-Good cs _ (create-Good actor a s h)
  run-Good (updates app actor c ∷ cs) s h = run-Good cs _ (update-Good app actor c s h)

message_of-none : (o : Option Refusal) → message_of o ≡ none → o ≡ none
message_of-none none h = refl
message_of-none (some r) h = cc

module _ (parse_url : Text → Option Url) (number : Text → Option ℕ) where
  -- The address is a URL with encryption.
  abbrev pub IsHttps : Text → Type 0
  IsHttps value = (url : Url) × (parse_url value ≡ some url) × (text_eq url.protocol https ≡ true)

  abbrev pub https_policy : Environment → Policy
  https_policy env = policy_of parse_url number env

  production-IsHttps :
      (env : Environment) (value : Text) (o : Option Url)
      → parse_url value ≡ o
      → url_refusal parse_url number env production o ≡ none
      → IsHttps value
  unfolding url_refusal insecure_refusal
  production-IsHttps env value none e h = cc
  production-IsHttps env value (some url) e h = elim (Bool-cases (text_eq url.protocol https)) [
    | inl k ↦ (url, e, k)
    | inr k ↦ ground (arith, h, k)
  ]

  allowed-IsHttps :
      (env : Environment) (value : Text)
      → runtime_profile env.runtime_profile ≡ some production
      → https_policy env value ≡ none
      → IsHttps value
  unfolding assert_allowed profile_refusal
  allowed-IsHttps env value p h =
      let k : url_refusal parse_url number env production (parse_url value) ≡ none =
        rw p at (message_of-none (assert_allowed parse_url number env value) h) in
      production-IsHttps env value (parse_url value) refl k

  -- In production, if the server has started, every application's key set address is a URL with
  -- encryption, and stays so after any calls that create or update applications.
  pub run-IsHttps :
      (env : Environment) (calls : List Call) (s : Applications)
      → runtime_profile env.runtime_profile ≡ some production
      → check_at_start (https_policy env) s.rows ≡ none
      → All (λ a. IsHttps a.jwks_uri) (run (https_policy env) calls s).rows
  run-IsHttps env calls s in_production started =
      let sound : (value : Text) → https_policy env value ≡ none → IsHttps value =
        λ value h. allowed-IsHttps env value in_production h in
      run-Good (https_policy env) IsHttps sound calls s
        (started-Good (https_policy env) IsHttps sound s.rows started)
