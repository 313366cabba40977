-- ===== src/Database.antt =====
-- The writes of the Prisma client, each with the constraints of server/prisma/migrations that can
-- refuse it: primary keys, the partial unique indexes `room_one_owner`,
-- `join_requests_one_pending` and `sessions_one_active`, and the deferred trigger
-- `room_exactly_one_owner`.
use study_room_sdk.Base.{
  ℕ, ◌+◌, Bool, true, false, not, ◌&&◌, ◌||◌, [], ◌∷◌, ◌++◌, Option, none, some, ◌==◌,
  if◌then◌else◌, find?, any, count, update_where, delete_where,
}
use study_room_sdk.Domain.{
  Text, Db, Room, RoomMembership, RoomRole, JoinRequest, StudySession, ChatMessage, AuditLog,
  IdempotencyRecord, IdempotencyOperation, rooms_create, chat_send, sessions_start, is_owner,
  is_pending, is_active,
}
use study_room_sdk.Service.Monad.{
  Outcome, done, thrown, known_request, constraint_violation, p2002, p2025, Action, ◌>>=◌,
  transaction,
}
use study_room_sdk.Text.{text_eq}

abbrev pub room_is : ℕ → Room → Bool
room_is room r = r.id == room

abbrev pub member_is : ℕ → ℕ → RoomMembership → Bool
member_is room user m = m.room_id == room && m.user_id == user

abbrev pub owner_in : ℕ → RoomMembership → Bool
owner_in room m = m.room_id == room && is_owner m.role

abbrev pub request_is : ℕ → JoinRequest → Bool
request_is id q = q.id == id

abbrev pub pending_of : ℕ → ℕ → JoinRequest → Bool
pending_of room user q = q.room_id == room && q.user_id == user && is_pending q.status

abbrev pub session_is : ℕ → StudySession → Bool
session_is id s = s.id == id

abbrev pub active_of : ℕ → ℕ → StudySession → Bool
active_of room user s = s.room_id == room && s.user_id == user && is_active s.status

abbrev pub same_operation : IdempotencyOperation → IdempotencyOperation → Bool
same_operation rooms_create rooms_create = true
same_operation chat_send chat_send = true
same_operation sessions_start sessions_start = true
same_operation _ _ = false

abbrev pub record_is : ℕ → ℕ → IdempotencyOperation → Text → IdempotencyRecord → Bool
record_is app user operation key r =
    r.app_id == app
    && r.user_id == user
    && same_operation r.operation operation
    && text_eq r.key key

unfoldable pub insert_room : Room → Db → Outcome (Room × Db)
insert_room r d =
    if any (room_is r.id) d.rooms
    then thrown (known_request p2002)
    else done (r, record d { rooms = d.rooms ++ r ∷ [] })

unfoldable pub insert_membership : RoomMembership → Db → Outcome (RoomMembership × Db)
insert_membership m d =
    if any (member_is m.room_id m.user_id) d.memberships
      || (is_owner m.role && any (owner_in m.room_id) d.memberships)
    then thrown (known_request p2002)
    else done (m, record d { memberships = d.memberships ++ m ∷ [] })

-- `upsert` with an empty update
unfoldable pub upsert_membership : RoomMembership → Db → Outcome (Unit {0} × Db)
upsert_membership m d =
    if any (member_is m.room_id m.user_id) d.memberships
    then done (tt, d)
    else elim (insert_membership m d) [ done (_, e) ↦ done (tt, e) | thrown e ↦ thrown e ]

unfoldable pub set_role : ℕ → ℕ → RoomRole → Db → Outcome (Unit {0} × Db)
set_role room user role d =
    if not (any (member_is room user) d.memberships)
    then thrown (known_request p2025)
    else if is_owner role && any (λ m. owner_in room m && not (member_is room user m)) d.memberships
    then thrown (known_request p2002)
    else done (
      tt,
      record d {
        memberships =
            update_where (member_is room user) (λ m. record m { role = role }) d.memberships;
      },
    )

unfoldable pub delete_membership : ℕ → ℕ → Db → Outcome (Unit {0} × Db)
delete_membership room user d =
    if any (member_is room user) d.memberships
    then done (tt, record d { memberships = delete_where (member_is room user) d.memberships })
    else thrown (known_request p2025)

abbrev pub room_updated : ℕ → (Room → Room) → Db → Option Room → Outcome (Room × Db)
room_updated room f d none = thrown (known_request p2025)
room_updated room f d (some r) =
    done (f r, record d { rooms = update_where (room_is room) f d.rooms })

-- `update` of a room by its id; it answers with the row as updated.
unfoldable pub update_room : ℕ → (Room → Room) → Db → Outcome (Room × Db)
update_room room f d = room_updated room f d (find? (room_is room) d.rooms)

-- `version: { increment: 1 }`
abbrev pub next_version : Room → Room
next_version r = record r { version = r.version + 1 }

unfoldable pub insert_join_request : JoinRequest → Db → Outcome (JoinRequest × Db)
insert_join_request q d =
    if any (request_is q.id) d.join_requests
      || (is_pending q.status && any (pending_of q.room_id q.user_id) d.join_requests)
    then thrown (known_request p2002)
    else done (q, record d { join_requests = d.join_requests ++ q ∷ [] })

abbrev pub request_updated :
    ℕ → (JoinRequest → JoinRequest) → Db → Option JoinRequest → Outcome (JoinRequest × Db)
request_updated id f d none = thrown (known_request p2025)
request_updated id f d (some q) =
    done (f q, record d { join_requests = update_where (request_is id) f d.join_requests })

-- `update` of a join request by its id to a status that is not `PENDING`.
unfoldable pub update_join_request :
    ℕ → (JoinRequest → JoinRequest) → Db → Outcome (JoinRequest × Db)
update_join_request id f d = request_updated id f d (find? (request_is id) d.join_requests)

unfoldable pub insert_session : StudySession → Db → Outcome (StudySession × Db)
insert_session s d =
    if any (session_is s.id) d.sessions
      || (is_active s.status && any (active_of s.room_id s.user_id) d.sessions)
    then thrown (known_request p2002)
    else done (s, record d { sessions = d.sessions ++ s ∷ [] })

unfoldable pub insert_message : ChatMessage → Db → Outcome (ChatMessage × Db)
insert_message m d =
    if any (λ x. x.id == m.id) d.messages
    then thrown (known_request p2002)
    else done (m, record d { messages = d.messages ++ m ∷ [] })

unfoldable pub insert_audit : AuditLog → Db → Outcome (Unit {0} × Db)
insert_audit a d = done (tt, record d { audit_logs = d.audit_logs ++ a ∷ [] })

unfoldable pub insert_record : IdempotencyRecord → Db → Outcome (Unit {0} × Db)
insert_record r d =
    if any (record_is r.app_id r.user_id r.operation r.key) d.idempotency_records
    then thrown (known_request p2002)
    else done (tt, record d { idempotency_records = d.idempotency_records ++ r ∷ [] })

-- `assert_room_has_exactly_one_owner`
unfoldable pub has_exactly_one_owner : ℕ → Db → Bool
has_exactly_one_owner room d =
    if any (room_is room) d.rooms then count (owner_in room) d.memberships == 1 else true

-- What the commit does: the deferred trigger looks at the room.
unfoldable pub commit : {A : Type 0} → ℕ → A → Action A
commit room a w =
    if has_exactly_one_owner room w.db then (done a, w) else (thrown constraint_violation, w)

-- A transaction that wrote the room or its memberships.
unfoldable pub room_transaction : {A : Type 0} → ℕ → Action A → Action A
room_transaction room m = transaction (m >>= commit room)
