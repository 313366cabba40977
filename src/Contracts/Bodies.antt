-- ===== src/Contracts/Bodies.antt =====
-- What the services can rely on when a body has passed the validation.
use study_room_sdk.Base.{
  ℕ, ◌≡◌, ◌≢◌, refl, sym, ap, ◌∙◌, ◌≤◌, inl, inr, Bool-cases, true, not, List, [], ◌∷◌, none, arith,
  any, all,
}
use study_room_sdk.Domain.{Text}
use study_room_sdk.Domain.{SessionStatus, running, paused, finished}
use study_room_sdk.Rooms.Requests.{Decision, approve, reject}
use study_room_sdk.Text.{is_space, trim, text_eq, text_eq_sound}
use study_room_sdk.Api.Bodies.{valid_text, text_not_empty}
use study_room_sdk.Contracts.Schema.{text}
use study_room_sdk.Contracts.Generator.{
  Decorator, is_defined, is_string, min_length, max_length, matches, is_in,
}
use study_room_sdk.Contracts.Validation.{
  Value, undefined, null_value, list_value, object_value, not_finite, transformed, text_value,
  boolean_value, number_value, ClassValidator,
}
use study_room_sdk.Contracts.Dtos.{
  Fields, field_of, valid, create_room_body, send_message_body, decide_join_request_body,
  update_session_body,
}

-- A regular expression `\S` matches a text in which something is not white space.
abbrev pub FindsVisible : ClassValidator → Type 0
FindsVisible c = (s : Text) → c.tests.match_of (text "\\S") s ≡ any (λ u. not (is_space u)) s

visible_text_lem :
    (c : ClassValidator) (most : ℕ) (v : Value)
    → FindsVisible c
    → c.accepts
        (is_defined ∷ is_string ∷ min_length 1 ∷ max_length most ∷ matches (text "\\S") ∷ [])
        v
      ≡ true
    → (s : Text) × (v ≡ text_value s) × (valid_text c.tests.length_of most s ≡ true)
unfolding any all transformed
visible_text_lem c most (text_value s) finds h =
    let k = sym (c.accepts_all _ (text_value s)) ∙ h in (s, refl, ground (arith, k, finds s))
visible_text_lem c most undefined finds h = let k = sym (c.accepts_all _ undefined) ∙ h in cc k
visible_text_lem c most null_value finds h = let k = sym (c.accepts_all _ null_value) ∙ h in cc k
visible_text_lem c most list_value finds h = let k = sym (c.accepts_all _ list_value) ∙ h in cc k
visible_text_lem c most object_value finds h =
    let k = sym (c.accepts_all _ object_value) ∙ h in cc k
visible_text_lem c most (boolean_value b) finds h =
    let k = sym (c.accepts_all _ (boolean_value b)) ∙ h in cc k
visible_text_lem c most (number_value n w f) finds h =
    let k = sym (c.accepts_all _ (number_value n w f)) ∙ h in cc k
visible_text_lem c most not_finite finds h = let k = sym (c.accepts_all _ not_finite) ∙ h in cc k

one_of_lem :
    (c : ClassValidator) (es : List Text) (v : Value)
    → c.accepts (is_defined ∷ is_string ∷ is_in es ∷ []) v ≡ true
    → (s : Text) × (v ≡ text_value s) × (any (text_eq s) es ≡ true)
unfolding any all transformed
one_of_lem c es (text_value s) h =
    let k = sym (c.accepts_all _ (text_value s)) ∙ h in (s, refl, ground (arith, k))
one_of_lem c es undefined h = let k = sym (c.accepts_all _ undefined) ∙ h in cc k
one_of_lem c es null_value h = let k = sym (c.accepts_all _ null_value) ∙ h in cc k
one_of_lem c es list_value h = let k = sym (c.accepts_all _ list_value) ∙ h in cc k
one_of_lem c es object_value h = let k = sym (c.accepts_all _ object_value) ∙ h in cc k
one_of_lem c es (boolean_value b) h = let k = sym (c.accepts_all _ (boolean_value b)) ∙ h in cc k
one_of_lem c es (number_value n w f) h =
    let k = sym (c.accepts_all _ (number_value n w f)) ∙ h in cc k
one_of_lem c es not_finite h = let k = sym (c.accepts_all _ not_finite) ∙ h in cc k

-- The property of a class with one property
only_property :
    (c : ClassValidator) (name : Text) (ds : List Decorator) (fs : Fields)
    → valid c (record { properties = (name, ds) ∷ []; least = none }) fs ≡ true
    → c.accepts ds (field_of name fs) ≡ true
unfolding valid all
only_property c name ds fs h = ground arith

-- How the bodies spell a status of a session, and a decision
abbrev pub spelled : SessionStatus → Text
spelled running = text "running"
spelled paused = text "paused"
spelled finished = text "finished"

abbrev pub decided : Decision → Text
decided approve = text "approved"
decided reject = text "rejected"

status_lem :
    (s : Text)
    → any (text_eq s) (text "running" ∷ text "paused" ∷ text "finished" ∷ []) ≡ true
    → (st : SessionStatus) × (s ≡ spelled st)
unfolding any
status_lem s h = elim (Bool-cases (text_eq s (text "running"))) [
  | inl e ↦ (running, text_eq_sound s _ e)
  | inr e ↦ elim (Bool-cases (text_eq s (text "paused"))) [
    | inl f ↦ (paused, text_eq_sound s _ f)
    | inr f ↦ (finished, text_eq_sound s _ (ground arith))
  ]
]

decision_lem :
    (s : Text)
    → any (text_eq s) (text "approved" ∷ text "rejected" ∷ []) ≡ true
    → (d : Decision) × (s ≡ decided d)
unfolding any
decision_lem s h = elim (Bool-cases (text_eq s (text "approved"))) [
  | inl e ↦ (approve, text_eq_sound s _ e)
  | inr e ↦ (reject, text_eq_sound s _ (ground arith))
]

-- The body has a text of that length under the name, and it is not empty after the service has trimmed
-- it.
abbrev pub HasText : ClassValidator → ℕ → Text → Fields → Type 0
HasText c most name fs =
    (s : Text) × (field_of name fs ≡ text_value s)
    × (1 ≤ c.tests.length_of s)
    × (c.tests.length_of s ≤ most)
    × (trim s ≢ [])

visible-HasText :
    (c : ClassValidator) (most : ℕ) (name : Text) (fs : Fields)
    → FindsVisible c
    → c.accepts
        (is_defined ∷ is_string ∷ min_length 1 ∷ max_length most ∷ matches (text "\\S") ∷ [])
        (field_of name fs)
      ≡ true
    → HasText c most name fs
visible-HasText c most name fs finds h =
    let (s, e, ok) = visible_text_lem c most (field_of name fs) finds h in
    (s, e, ground (arith, ok), ground (arith, ok), text_not_empty c.tests.length_of most s ok)

-- Bodies that have passed the validation can be served: the body of a new room has a title and that of
-- a message a text, of 1 to 100 and of 1 to 2000 units, which the service does not trim to nothing;
-- the body of a decision spells a decision, and that of a change of a session spells a status.
pub bodies_served :
    (c : ClassValidator) (room message decision session : Fields)
    → FindsVisible c
    → valid c create_room_body room ≡ true
    → valid c send_message_body message ≡ true
    → valid c decide_join_request_body decision ≡ true
    → valid c update_session_body session ≡ true
    → HasText c 100 (text "title") room
      × HasText c 2000 (text "text") message
      × ((d : Decision) × (field_of (text "decision") decision ≡ text_value (decided d)))
      × ((st : SessionStatus) × (field_of (text "status") session ≡ text_value (spelled st)))
bodies_served c room message decision session finds h i j k =
    let (s, e, among) = one_of_lem c _ _ (only_property c (text "decision") _ decision j) in
    let (d, f) = decision_lem s among in
    let (t, g, among2) = one_of_lem c _ _ (only_property c (text "status") _ session k) in
    let (st, l) = status_lem t among2 in
    (
      visible-HasText c 100 (text "title") room finds (only_property c (text "title") _ room h),
      visible-HasText c 2000 (text "text") message finds
          (only_property c (text "text") _ message i),
      (d, e ∙ ap text_value f),
      (st, g ∙ ap text_value l),
    )
