-- ===== src/Retention/Expiry.antt =====
-- What the clean-up of `RetentionService` deletes, over all applications.
use study_room_sdk.Base.{
  ℕ, ◌+◌, ◌*◌, ltb, ◌≡◌, ◌∙◌, refl, sym, ap, Bool, true, false, ◌&&◌, ◌||◌, List, [], ◌∷◌, Option,
  none, some, arith, ◌==◌, any, select, delete_where,
}
use study_room_sdk.Domain.{Db, Application, ChatMessage, StudySession}
use study_room_sdk.Retention.{
  Clock, drop_messages, drop_sessions, clean_application, clean_applications, is_set, clean,
}

module _ {ℓ} {A : Type ℓ} where
  delete_where-delete_where :
      (p q : A → Bool) (xs : List A)
      → delete_where p (delete_where q xs) ≡ delete_where (λ x. q x || p x) xs
  unfolding delete_where
  delete_where-delete_where p q [] = refl
  delete_where-delete_where p q (x ∷ xs) = ground (arith, delete_where-delete_where p q xs)

  delete_where_same :
      (p q : A → Bool) (xs : List A) → ((x : A) → p x ≡ q x) → delete_where p xs ≡ delete_where q xs
  unfolding delete_where
  delete_where_same p q [] h = refl
  delete_where_same p q (x ∷ xs) h = ground (arith, h x, delete_where_same p q xs h)

  delete_where_none : (xs : List A) → delete_where (λ _. false) xs ≡ xs
  unfolding delete_where
  delete_where_none [] = refl
  delete_where_none (x ∷ xs) = rw (delete_where_none xs) refl

  any-select :
      (p q : A → Bool) (xs : List A)
      → ((x : A) → p x ≡ true → q x ≡ true)
      → any p (select q xs) ≡ any p xs
  unfolding any select
  any-select p q [] h = refl
  any-select p q (x ∷ xs) h = ground (arith, h x, any-select p q xs h)

-- Whether the time plus a term of so many days, if there is one, lies before now. A session that has
-- not finished is not due.
pub message_due : ℕ → ℕ → Option ℕ → ChatMessage → Bool
message_due now app none m = false
message_due now app (some days) m = m.app_id == app && ltb (m.sent_at + days * 86400000) now

pub session_due : ℕ → ℕ → Option ℕ → StudySession → Bool
session_due now app none s = false
session_due now app (some days) s =
    s.app_id == app
    && elim s.finished_at [ none ↦ false | some at ↦ ltb (at + days * 86400000) now ]

abbrev pub due_message : Clock → List Application → ChatMessage → Bool
due_message clock apps m =
    any (λ a. message_due (clock a.app_id).0 a.app_id a.chat_retention_days m) apps

abbrev pub due_session : Clock → List Application → StudySession → Bool
due_session clock apps s =
    any (λ a. session_due (clock a.app_id).1 a.app_id a.session_retention_days s) apps

drop_messages_lem :
    (now app : ℕ) (days : Option ℕ) (d : Db)
    → (drop_messages now app days d).messages ≡ delete_where (message_due now app days) d.messages
unfolding message_due
drop_messages_lem now app none d = sym (delete_where_none d.messages)
drop_messages_lem now app (some days) d = refl

drop_sessions_lem :
    (now app : ℕ) (days : Option ℕ) (d : Db)
    → (drop_sessions now app days d).sessions ≡ delete_where (session_due now app days) d.sessions
unfolding session_due
drop_sessions_lem now app none d = sym (delete_where_none d.sessions)
drop_sessions_lem now app (some days) d = refl

-- The tables that hold neither messages nor sessions are the same.
abbrev pub SameOtherwise : Db → Db → Type 0
SameOtherwise d e =
    (d.applications ≡ e.applications)
    × (d.users ≡ e.users)
    × (d.rooms ≡ e.rooms)
    × (d.memberships ≡ e.memberships)
    × (d.join_requests ≡ e.join_requests)
    × (d.audit_logs ≡ e.audit_logs)

module _ (now app : ℕ) where
  drop_messages_rest :
      (days : Option ℕ) (d : Db)
      → ((drop_messages now app days d).sessions ≡ d.sessions)
        × ((drop_messages now app days d).idempotency_records ≡ d.idempotency_records)
        × SameOtherwise (drop_messages now app days d) d
  drop_messages_rest none d = (refl, refl, (refl, refl, refl, refl, refl, refl))
  drop_messages_rest (some days) d = (refl, refl, (refl, refl, refl, refl, refl, refl))

  drop_sessions_rest :
      (days : Option ℕ) (d : Db)
      → ((drop_sessions now app days d).messages ≡ d.messages)
        × ((drop_sessions now app days d).idempotency_records ≡ d.idempotency_records)
        × SameOtherwise (drop_sessions now app days d) d
  drop_sessions_rest none d = (refl, refl, (refl, refl, refl, refl, refl, refl))
  drop_sessions_rest (some days) d = (refl, refl, (refl, refl, refl, refl, refl, refl))

clean_applications_messages :
    (clock : Clock) (apps : List Application) (d : Db)
    → (clean_applications clock apps d).messages ≡ delete_where (due_message clock apps) d.messages
unfolding clean_applications any
clean_applications_messages clock [] d = sym (delete_where_none d.messages)
clean_applications_messages clock (a ∷ as') d =
    let e = drop_messages (clock a.app_id).0 a.app_id a.chat_retention_days d in
    clean_applications_messages clock as' (clean_application clock a d)
    ∙ ap (delete_where (due_message clock as')) (
        (drop_sessions_rest (clock a.app_id).1 a.app_id a.session_retention_days e).0
        ∙ drop_messages_lem (clock a.app_id).0 a.app_id a.chat_retention_days d)
    ∙ delete_where-delete_where (due_message clock as')
        (message_due (clock a.app_id).0 a.app_id a.chat_retention_days) d.messages
    ∙ delete_where_same _ (due_message clock (a ∷ as')) d.messages (λ m. ground arith)

clean_applications_sessions :
    (clock : Clock) (apps : List Application) (d : Db)
    → (clean_applications clock apps d).sessions ≡ delete_where (due_session clock apps) d.sessions
unfolding clean_applications any
clean_applications_sessions clock [] d = sym (delete_where_none d.sessions)
clean_applications_sessions clock (a ∷ as') d =
    let e = drop_messages (clock a.app_id).0 a.app_id a.chat_retention_days d in
    clean_applications_sessions clock as' (clean_application clock a d)
    ∙ ap (delete_where (due_session clock as')) (
        drop_sessions_lem (clock a.app_id).1 a.app_id a.session_retention_days e
        ∙ ap (delete_where (session_due (clock a.app_id).1 a.app_id a.session_retention_days))
            (drop_messages_rest (clock a.app_id).0 a.app_id a.chat_retention_days d).0)
    ∙ delete_where-delete_where (due_session clock as')
        (session_due (clock a.app_id).1 a.app_id a.session_retention_days) d.sessions
    ∙ delete_where_same _ (due_session clock (a ∷ as')) d.sessions (λ m. ground arith)

clean_applications_rest :
    (clock : Clock) (apps : List Application) (d : Db)
    → ((clean_applications clock apps d).idempotency_records ≡ d.idempotency_records)
      × SameOtherwise (clean_applications clock apps d) d
unfolding clean_applications
clean_applications_rest clock [] d = (refl, (refl, refl, refl, refl, refl, refl))
clean_applications_rest clock (a ∷ as') d =
    let e = drop_messages (clock a.app_id).0 a.app_id a.chat_retention_days d in
    let (x, xr, (xa, xu, xo, xm, xj, xl)) =
      drop_messages_rest (clock a.app_id).0 a.app_id a.chat_retention_days d in
    let (y, yr, (ya, yu, yo, ym, yj, yl)) =
      drop_sessions_rest (clock a.app_id).1 a.app_id a.session_retention_days e in
    let (r, (ra, ru, ro, rm, rj, rl)) =
      clean_applications_rest clock as' (clean_application clock a d) in
    (
      r ∙ yr ∙ xr,
      (ra ∙ ya ∙ xa, ru ∙ yu ∙ xu, ro ∙ yo ∙ xo, rm ∙ ym ∙ xm, rj ∙ yj ∙ xj, rl ∙ yl ∙ xl),
    )

message_due_set :
    (now : ℕ) (m : ChatMessage) (a : Application)
    → message_due now a.app_id a.chat_retention_days m ≡ true
    → (is_set a.chat_retention_days || is_set a.session_retention_days) ≡ true
unfolding message_due
message_due_set now m a h = go a.chat_retention_days h
  where
    go :
        (days : Option ℕ)
        → message_due now a.app_id days m ≡ true
        → (is_set days || is_set a.session_retention_days) ≡ true
    go none h = cc
    go (some days) h = refl

session_due_set :
    (now : ℕ) (s : StudySession) (a : Application)
    → session_due now a.app_id a.session_retention_days s ≡ true
    → (is_set a.chat_retention_days || is_set a.session_retention_days) ≡ true
unfolding session_due
session_due_set now s a h = go a.session_retention_days h
  where
    go :
        (days : Option ℕ)
        → session_due now a.app_id days s ≡ true
        → (is_set a.chat_retention_days || is_set days) ≡ true
    go none h = cc
    go (some days) h = ground arith

-- The instance that holds the lock deletes exactly the idempotency records that were made more than
-- 86400000 milliseconds before the time that it reads for them, the messages that were sent longer
-- before the time read for their application than it keeps messages, and the sessions that were
-- finished longer before than it keeps sessions, so none that has not finished; an application that
-- gives no number of days keeps them all. The other tables stay as they are, and an instance without
-- the lock changes nothing.
pub clean_deletes_expired :
    (now : ℕ) (clock : Clock) (d : Db)
    → ((clean now clock true d).messages
        ≡ delete_where (due_message clock d.applications) d.messages)
      × ((clean now clock true d).sessions
          ≡ delete_where (due_session clock d.applications) d.sessions)
      × ((clean now clock true d).idempotency_records
          ≡ delete_where (λ r. ltb (r.created_at + 86400000) now) d.idempotency_records)
      × SameOtherwise (clean now clock true d) d
      × (clean now clock false d ≡ d)
unfolding clean
clean_deletes_expired now clock d =
    let e : Db = record d {
      idempotency_records =
          delete_where (λ r. ltb (r.created_at + 86400000) now) d.idempotency_records;
    } in
    let apps =
      select (λ a. is_set a.chat_retention_days || is_set a.session_retention_days)
        d.applications in
    let (records, rest) = clean_applications_rest clock apps e in
    (
      clean_applications_messages clock apps e
          ∙ delete_where_same _ _ d.messages
              (λ m. any-select _ _ d.applications (λ a. message_due_set (clock a.app_id).0 m a)),
      clean_applications_sessions clock apps e
          ∙ delete_where_same _ _ d.sessions
              (λ s. any-select _ _ d.applications (λ a. session_due_set (clock a.app_id).1 s a)),
      records,
      rest,
      refl,
    )
