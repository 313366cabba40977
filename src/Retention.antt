-- ===== src/Retention.antt =====
-- server/src/operations/retention.service.ts: the daily deletion of what has outlived its term.
pub mod Expiry
use study_room_sdk.Base.{
  ℕ, ◌-◌, ◌+◌, ◌*◌, Bool, true, false, not, ◌&&◌, ◌||◌, List, [], ◌∷◌, Option, none, some, ltb,
  ◌==◌, if◌then◌else◌, select, delete_where,
}
use study_room_sdk.Domain.{Db, Application, ChatMessage, StudySession, IdempotencyRecord}

-- `new Date(Date.now() - days * 86_400_000)`: a row is older when its time plus the term lies before
-- now, since a date may lie before the epoch.
abbrev pub older_than : ℕ → ℕ → ℕ → Bool
older_than now term at = ltb (at + term) now

abbrev pub day : ℕ
day = 86400000

-- `finishedAt: { lt: before }`: a session that has not finished has no such date.
abbrev pub finished_before : ℕ → ℕ → Option ℕ → Bool
finished_before now term none = false
finished_before now term (some at) = older_than now term at

abbrev pub expired_message : ℕ → ℕ → ℕ → ChatMessage → Bool
expired_message now app days m = m.app_id == app && older_than now (days * day) m.sent_at

abbrev pub expired_session : ℕ → ℕ → ℕ → StudySession → Bool
expired_session now app days s = s.app_id == app && finished_before now (days * day) s.finished_at

abbrev pub drop_messages : ℕ → ℕ → Option ℕ → Db → Db
drop_messages now app none d = d
drop_messages now app (some days) d = record d {
  messages = delete_where (expired_message now app days) d.messages;
}

abbrev pub drop_sessions : ℕ → ℕ → Option ℕ → Db → Db
drop_sessions now app none d = d
drop_sessions now app (some days) d = record d {
  sessions = delete_where (expired_session now app days) d.sessions;
}

-- What `Date.now()` answers for the messages and for the sessions of each application
abbrev pub Clock : Type 0
Clock = ℕ → ℕ × ℕ

-- The body of the loop over the applications
abbrev pub clean_application : Clock → Application → Db → Db
clean_application clock a d =
    drop_sessions (clock a.app_id).1 a.app_id a.session_retention_days
      (drop_messages (clock a.app_id).0 a.app_id a.chat_retention_days d)

unfoldable pub clean_applications : Clock → List Application → Db → Db
clean_applications clock [] d = d
clean_applications clock (a ∷ as') d = clean_applications clock as' (clean_application clock a d)

abbrev pub is_set : Option ℕ → Bool
is_set none = false
is_set (some _) = true

-- `clean`, by the instance whose `pg_try_advisory_xact_lock` answered `locked`; `now` is what `Date.now()` answers
-- for the records of keys
unfoldable pub clean : ℕ → Clock → Bool → Db → Db
unfolding clean_applications
clean now clock false d = d
clean now clock true d =
    clean_applications clock
      (select (λ a. is_set a.chat_retention_days || is_set a.session_retention_days) d.applications)
      (record d {
        idempotency_records =
            delete_where (λ r. older_than now day r.created_at) d.idempotency_records;
      })
