-- ===== src/Rooms/History.antt =====
-- Histories: calls of the rooms service in any order, by anybody, with other calls in between the
-- checks and the writes of each.
use study_room_sdk.Base.{ℕ, any, count, ◌≡◌, refl, Bool, true, false, Option, none, some, arith}
use study_room_sdk.Domain.{Db, Ambient, Identity, Text, JoinRequest, AuditLog}
use study_room_sdk.Domain.World.{World}
use study_room_sdk.Service.Monad.{Outcome, write}
use study_room_sdk.Service.Keeps.{
  Keeps, bind-Keeps, then-Keeps, or_throw-Keeps, attempt-Keeps, plain-Keeps, query-Keeps,
  return_value-Keeps, throw_if-Keeps, meanwhile-Keeps, transaction-Keeps,
}
use study_room_sdk.Database.{
  room_is, owner_in, insert_join_request, update_join_request, upsert_membership,
  has_exactly_one_owner, insert_audit,
}
use study_room_sdk.Idempotency.{Digest}
use study_room_sdk.Rooms.Keyed.{create_idempotent-OneOwner}
use study_room_sdk.Rooms.Methods.{
  create_idempotent, remove_member, leave, transfer_ownership, delete,
}
use study_room_sdk.Rooms.Requests.{
  Decision, approve, reject, request_join, join_newly, join_existing, join_result,
  join_concurrently, cancel_join_request, admit, decide_in_transaction, decision_transaction,
  decide_join_request,
}
use study_room_sdk.Rooms.OneOwner.{
  OneOwner, after, stored-db, Confined, write-Confined, room_transaction-OneOwner,
  upsert_membership-elsewhere,
}
use study_room_sdk.Rooms.Invariant.{
  remove_member-OneOwner, leave-OneOwner, transfer_ownership-OneOwner, delete-OneOwner,
  require_owner-OneOwner, version-Confined, audit-Confined,
}

-- A write that leaves the rooms and the memberships alone.
abbrev Elsewhere : {A : Type 0} → (Db → Outcome (A × Db)) → Type 0
Elsewhere f =
    (d : Db) → ((after d (f d)).rooms ≡ d.rooms) × ((after d (f d)).memberships ≡ d.memberships)

insert_join_request-Elsewhere : (q : JoinRequest) → Elsewhere (insert_join_request q)
unfolding insert_join_request
insert_join_request-Elsewhere q d = ground arith

update_join_request-Elsewhere :
    (id : ℕ) (f : JoinRequest → JoinRequest) → Elsewhere (update_join_request id f)
unfolding update_join_request
update_join_request-Elsewhere id f d = ground arith

insert_audit-Elsewhere : (a : AuditLog) → Elsewhere (insert_audit a)
unfolding insert_audit
insert_audit-Elsewhere a d = (refl, refl)

module _ {A : Type 0} (f : Db → Outcome (A × Db)) (apart : Elsewhere f) where
  apart-Confined : (room : ℕ) → Confined room (write f)
  apart-Confined room =
      write-Confined room f λ d r ne. (rw ((apart d).0) refl, rw ((apart d).1) refl)

  apart-OneOwner : Keeps OneOwner (write f)
  unfolding write
  apart-OneOwner =
      plain-Keeps λ w h r. rw (stored-db w (f w.db)) (rw ((apart w.db).0, (apart w.db).1) (h r))

join_result-OneOwner : (is_new : Bool) (q : JoinRequest) → Keeps OneOwner (join_result is_new q)
unfolding join_result
join_result-OneOwner is_new q = bind-Keeps (query-Keeps _) λ d. return_value-Keeps _

join_newly-OneOwner :
    (ambient : Ambient) (room : ℕ) (identity : Identity)
    → Keeps OneOwner (join_newly ambient room identity)
unfolding join_newly join_concurrently
join_newly-OneOwner ambient room identity =
    attempt-Keeps
      (bind-Keeps (apart-OneOwner (insert_join_request _) (insert_join_request-Elsewhere _))
        (join_result-OneOwner true))
      λ e. then-Keeps (throw_if-Keeps _ e) (
        bind-Keeps (query-Keeps _)
          λ concurrent. bind-Keeps (or_throw-Keeps concurrent e) (join_result-OneOwner false))

admit-Confined :
    (ambient : Ambient) (room user : ℕ) (identity : Identity) (decision : Decision)
    → Confined room (admit ambient room user identity decision)
unfolding admit
admit-Confined ambient room user identity reject d = return_value-Keeps none
admit-Confined ambient room user identity approve d =
    then-Keeps (write-Confined room (upsert_membership _) (upsert_membership-elsewhere _) d)
      (bind-Keeps (version-Confined room d) λ r. return_value-Keeps _)

-- `OneOwner`, of the tables
abbrev OneOwnerIn : Db → Type 0
OneOwnerIn d =
    (room : ℕ) → any (room_is room) d.rooms ≡ true → count (owner_in room) d.memberships ≡ 1

decide_in_transaction-OneOwner :
    (ambient : Ambient) (room request : ℕ) (decision : Decision) (identity : Identity)
    → Keeps OneOwner (decide_in_transaction ambient room request decision identity)
unfolding decide_in_transaction decision_transaction admit
decide_in_transaction-OneOwner ambient room request approve identity =
    room_transaction-OneOwner room _ λ d. bind-Keeps (query-Keeps _) λ found.
      bind-Keeps (or_throw-Keeps found _) λ q.
        bind-Keeps
          (apart-Confined (update_join_request q.id _) (update_join_request-Elsewhere q.id _) room
            d)
          λ updated.
            bind-Keeps (admit-Confined ambient room q.user_id identity approve d)
              λ version. then-Keeps (audit-Confined room _ d) (return_value-Keeps _)
decide_in_transaction-OneOwner ambient room request reject identity = transaction-Keeps OneOwnerIn (
    bind-Keeps (query-Keeps _) λ found. bind-Keeps (or_throw-Keeps found _) λ q.
      bind-Keeps
        (apart-OneOwner (update_join_request q.id _) (update_join_request-Elsewhere q.id _))
        λ updated. bind-Keeps (return_value-Keeps none) λ version.
          then-Keeps (apart-OneOwner (insert_audit _) (insert_audit-Elsewhere _))
            (return_value-Keeps _))

module _ (ambient : Ambient) (others : World → World)
    (kept : (w : World) → OneOwner w → OneOwner (others w)) where
  request_found-OneOwner :
      (room : ℕ) (identity : Identity) (existing : Option JoinRequest)
      → Keeps OneOwner (join_existing ambient others room identity existing)
  unfolding join_existing
  request_found-OneOwner room identity (some q) = join_result-OneOwner false q
  request_found-OneOwner room identity none =
      then-Keeps (meanwhile-Keeps others kept) (join_newly-OneOwner ambient room identity)

  request_join-OneOwner :
      (room : ℕ) (identity : Identity) → Keeps OneOwner (request_join ambient others room identity)
  unfolding request_join
  request_join-OneOwner room identity = bind-Keeps (query-Keeps _) λ found.
      then-Keeps (or_throw-Keeps found _) (
        bind-Keeps (query-Keeps _) λ already.
          then-Keeps (throw_if-Keeps already _)
            (bind-Keeps (query-Keeps _) (request_found-OneOwner room identity)))

  cancel_join_request-OneOwner :
      (room : ℕ) (identity : Identity)
      → Keeps OneOwner (cancel_join_request ambient others room identity)
  unfolding cancel_join_request
  cancel_join_request-OneOwner room identity = bind-Keeps (query-Keeps _) λ found.
      bind-Keeps (or_throw-Keeps found _) λ q. then-Keeps (meanwhile-Keeps others kept) (
        then-Keeps
          (apart-OneOwner (update_join_request q.id _) (update_join_request-Elsewhere q.id _))
          (return_value-Keeps tt))

  decide_join_request-OneOwner :
      (room request : ℕ) (decision : Decision) (identity : Identity)
      → Keeps OneOwner (decide_join_request ambient others room request decision identity)
  unfolding decide_join_request
  decide_join_request-OneOwner room request decision identity =
      then-Keeps (require_owner-OneOwner room identity) (
        then-Keeps (meanwhile-Keeps others kept) (
          bind-Keeps (decide_in_transaction-OneOwner ambient room request decision identity)
            λ r. bind-Keeps (query-Keeps _) λ d. return_value-Keeps _))

-- The calls that write rooms, memberships or join requests.
pub data RoomCall : Type 0 where
  creates : Text → Option Text → RoomCall
  removes transfers : ℕ → ℕ → RoomCall
  leaves deletes asks cancels : ℕ → RoomCall
  decides : ℕ → ℕ → Decision → RoomCall

abbrev ignored : {A : Type 0} → Outcome A × World → World
ignored r = r.1

unfoldable pub handle : Digest → Ambient → (World → World) → Identity → RoomCall → World → World
handle digest ambient others identity (creates title key) w =
    ignored (create_idempotent digest ambient others title identity key w)
handle digest ambient others identity (removes room user) w =
    ignored (remove_member ambient others room user identity w)
handle digest ambient others identity (transfers room user) w =
    ignored (transfer_ownership ambient others room user identity w)
handle digest ambient others identity (leaves room) w =
    ignored (leave ambient others room identity w)
handle digest ambient others identity (deletes room) w =
    ignored (delete ambient others room identity w)
handle digest ambient others identity (asks room) w =
    ignored (request_join ambient others room identity w)
handle digest ambient others identity (cancels room) w =
    ignored (cancel_join_request ambient others room identity w)
handle digest ambient others identity (decides room request decision) w =
    ignored (decide_join_request ambient others room request decision identity w)

handle-OneOwner :
    (digest : Digest) (ambient : Ambient) (others : World → World) (identity : Identity)
    (call : RoomCall) (w : World)
    → ((v : World) → OneOwner v → OneOwner (others v))
    → OneOwner w
    → OneOwner (handle digest ambient others identity call w)
unfolding handle
handle-OneOwner digest ambient others identity (creates title key) w kept h =
    (create_idempotent-OneOwner digest ambient others kept title identity key).keeps w h
handle-OneOwner digest ambient others identity (removes room user) w kept h =
    (remove_member-OneOwner ambient others kept room user identity).keeps w h
handle-OneOwner digest ambient others identity (transfers room user) w kept h =
    (transfer_ownership-OneOwner ambient others kept room user identity).keeps w h
handle-OneOwner digest ambient others identity (leaves room) w kept h =
    (leave-OneOwner ambient others kept room identity).keeps w h
handle-OneOwner digest ambient others identity (deletes room) w kept h =
    (delete-OneOwner ambient others kept room identity).keeps w h
handle-OneOwner digest ambient others identity (asks room) w kept h =
    (request_join-OneOwner ambient others kept room identity).keeps w h
handle-OneOwner digest ambient others identity (cancels room) w kept h =
    (cancel_join_request-OneOwner ambient others kept room identity).keeps w h
handle-OneOwner digest ambient others identity (decides room request decision) w kept h =
    (decide_join_request-OneOwner ambient others kept room request decision identity).keeps w h

-- A history: each call, the history that runs while it awaits, and the history that follows.
pub data History : Type 0 where
  nothing : History
  call : Ambient → Identity → RoomCall → History → History → History

pub run : Digest → History → World → World
run digest nothing w = w
run digest (call ambient identity c inside rest) w =
    run digest rest (handle digest ambient (run digest inside) identity c w)

pub run-OneOwner :
    (digest : Digest) (history : History) (w : World) → OneOwner w → OneOwner (run digest history w)
unfolding run
run-OneOwner digest nothing w h = h
run-OneOwner digest (call ambient identity c inside rest) w h =
    run-OneOwner digest rest _ (
      handle-OneOwner digest ambient (run digest inside) identity c w (run-OneOwner digest inside)
        h)

-- If every room has exactly one owner, every room has exactly one owner after any history of
-- creations, under a key or not, removals, transfers, departures, deletions and join requests, also where other calls
-- run between the checks and the writes of a call.
pub history_keeps_one_owner :
    (digest : Digest) (history : History) (w : World)
    → ((r : ℕ) → has_exactly_one_owner r w.db ≡ true)
    → (room : ℕ) → has_exactly_one_owner room (run digest history w).db ≡ true
unfolding has_exactly_one_owner
history_keeps_one_owner digest history w h room =
    ground (arith, run-OneOwner digest history w (λ r e. ground (arith, h r, e)) room)
