-- ===== src/Rooms/Tenants.antt =====
-- The transactions of the rooms service leave the rows of other applications alone.
use study_room_sdk.Base.{
  ℕ, ◌≡◌, ◌≢◌, refl, Bool, true, false, Option, none, some, arith, ◌==◌, find?, Bool-cases, inl,
  inr, find?-holds, only_one,
}
use study_room_sdk.Domain.{Db, Ambient, Identity, Text, JoinRequest, owner, member}
use study_room_sdk.Service.Monad.{Failure, ◌>>=◌, resume, throw, return_value, Action, or_throw}
use study_room_sdk.Service.Keeps.{
  bind-Keeps, then-Keeps, or_throw-Keeps, attempt-Keeps, plain-Keeps, query-Keeps,
  return_value-Keeps, throw_if-Keeps, query-Keeps_post, transaction-Keeps,
}
use study_room_sdk.Database.{
  request_is, commit, next_version, room_transaction, has_exactly_one_owner,
}
use study_room_sdk.Rooms.Defs.{create_room}
use study_room_sdk.Rooms.Methods.{create, removal, departure, handover, deletion, removed_at}
use study_room_sdk.Rooms.Requests.{
  Decision, approve, reject, join_newly, join_result, join_concurrently, admit,
  decide_in_transaction, decision_transaction,
}
use study_room_sdk.Rooms.Snapshot.{to_room_dto-Keeps}
use study_room_sdk.Rooms.Isolation.{
  Kept, KeepsRows, IsForeign, NoRequest, insert_room-Kept, insert_membership-Kept,
  upsert_membership-Kept, insert_join_request-Kept, insert_audit-Kept, update_room-Kept,
  set_role-Kept, delete_membership-Kept, update_join_request-Kept,
}

module _ (app : ℕ) (before : Db) (identity : Identity) (ne : identity.app_id ≢ app) where
  pub commit-Kept : {A : Type 0} (room : ℕ) (a : A) → KeepsRows app before (commit room a)
  commit-Kept room a = plain-Keeps λ w h. elim (Bool-cases (has_exactly_one_owner room w.db)) [
    | inl e ↦ unfold commit in rw e h
    | inr e ↦ unfold commit in rw e h
  ]

  transaction-Kept :
      {A : Type 0} (room : ℕ) (m : Action A)
      → KeepsRows app before m
      → KeepsRows app before (room_transaction room m)
  unfolding room_transaction
  transaction-Kept room m k =
      transaction-Keeps (Kept app before) (bind-Keeps k λ a. commit-Kept room a)

  decision-Kept :
      {A : Type 0} (decision : Decision) (room : ℕ) (m : Action A)
      → KeepsRows app before m
      → KeepsRows app before (decision_transaction decision room m)
  unfolding decision_transaction
  decision-Kept approve room m k = transaction-Kept room m k
  decision-Kept reject room m k = transaction-Keeps (Kept app before) k

  pub create-Kept :
      (ambient : Ambient) (title : Text) → KeepsRows app before (create ambient title identity)
  unfolding create create_room
  create-Kept ambient title =
      bind-Keeps
        (transaction-Kept ambient.uuid _ (
          bind-Keeps (insert_room-Kept app before _ ne) λ r. bind-Keeps (query-Keeps _) λ user.
            then-Keeps (or_throw-Keeps user _) (
              then-Keeps (insert_membership-Kept app before _ ne)
                (then-Keeps (insert_audit-Kept app before _) (return_value-Keeps r)))))
        λ r. bind-Keeps (query-Keeps _) λ d. to_room_dto-Keeps _ (λ w r h. h) ambient.now r d

  -- The writes of a room that is none of the application's
  module _ (room : ℕ) (foreign : IsForeign app before room) where
    pub removal-Kept : (user : ℕ) → KeepsRows app before (removal room user identity)
    unfolding removal
    removal-Kept user = transaction-Kept room _ (
        then-Keeps (delete_membership-Kept app before room foreign user) (
          then-Keeps (update_room-Kept app before room foreign next_version (λ x. refl))
            (insert_audit-Kept app before _)))

    pub departure-Kept : KeepsRows app before (departure room identity)
    unfolding departure
    departure-Kept = transaction-Kept room _ (
        then-Keeps (delete_membership-Kept app before room foreign identity.user_id)
          (update_room-Kept app before room foreign next_version (λ x. refl)))

    pub handover-Kept : (user : ℕ) → KeepsRows app before (handover room user identity)
    unfolding handover
    handover-Kept user = transaction-Kept room _ (
        then-Keeps (set_role-Kept app before room foreign identity.user_id member) (
          then-Keeps (set_role-Kept app before room foreign user owner) (
            then-Keeps (update_room-Kept app before room foreign next_version (λ x. refl))
              (insert_audit-Kept app before _))))

    pub deletion-Kept : (now : ℕ) → KeepsRows app before (deletion now room identity)
    unfolding deletion
    deletion-Kept now = transaction-Kept room _ (
        bind-Keeps (update_room-Kept app before room foreign (removed_at now) (λ x. refl))
          λ r. then-Keeps (insert_audit-Kept app before _) (return_value-Keeps r))

    admit-Kept :
        (ambient : Ambient) (user : ℕ) (decision : Decision)
        → KeepsRows app before (admit ambient room user identity decision)
    unfolding admit
    admit-Kept ambient user reject = return_value-Keeps none
    admit-Kept ambient user approve = then-Keeps (upsert_membership-Kept app before _ ne) (
        bind-Keeps (update_room-Kept app before room foreign next_version (λ x. refl))
          λ r. return_value-Keeps _)

  -- A request of this caller's application shares its identifier with none of the other one.
  found_request :
      (p : JoinRequest → Bool) (d : Db) {q : JoinRequest}
      → ((x : JoinRequest) → p x ≡ true → (x.app_id == identity.app_id) ≡ true)
      → Kept app before d
      → find? p d.join_requests ≡ some q
      → NoRequest app q.id d
  found_request p d {q} mine k found =
      only_one p (request_is q.id) (λ x. x.app_id == app) d.join_requests found (k.1 q.id)
        (ground arith) (ground (arith, mine q, find?-holds p d.join_requests found))

  module _ (ambient : Ambient) where
    pub join_result-Kept :
        (is_new : Bool) (q : JoinRequest) → KeepsRows app before (join_result is_new q)
    unfolding join_result
    join_result-Kept is_new q = bind-Keeps (query-Keeps _) λ d. return_value-Keeps _

    pub join_newly-Kept : (room : ℕ) → KeepsRows app before (join_newly ambient room identity)
    unfolding join_newly join_concurrently
    join_newly-Kept room =
        attempt-Keeps
          (bind-Keeps (insert_join_request-Kept app before _ ne) (join_result-Kept true))
          λ e. then-Keeps (throw_if-Keeps _ e) (
            bind-Keeps (query-Keeps _)
              λ concurrent. bind-Keeps (or_throw-Keeps concurrent e) (join_result-Kept false))

    pub found_then :
        {B : Type 0} (p : JoinRequest → Bool) (d : Db) (o : Option JoinRequest)
        (k : JoinRequest → Action B)
        → ((x : JoinRequest) → p x ≡ true → (x.app_id == identity.app_id) ≡ true)
        → Kept app before d
        → find? p d.join_requests ≡ o
        → ((q : JoinRequest) → NoRequest app q.id d → KeepsRows app before (k q))
        → (e : Failure) → KeepsRows app before (or_throw o e >>= k)
    unfolding or_throw throw return_value ◌>>=◌ resume
    found_then p d none k mine kept found next e = plain-Keeps λ w h. h
    found_then p d (some q) k mine kept found next e =
        plain-Keeps λ w h. (next q (found_request p d mine kept found)).keeps w h

    pub decide_in_transaction-Kept :
        (room request : ℕ) (decision : Decision)
        → IsForeign app before room
        → KeepsRows app before (decide_in_transaction ambient room request decision identity)
    unfolding decide_in_transaction
    decide_in_transaction-Kept room request decision foreign = decision-Kept decision room _ (
        query-Keeps_post _ _ λ w kept.
          found_then _ w.db _ _ (λ x h. ground arith) kept refl
            (λ q absent.
              bind-Keeps
                (update_join_request-Kept app before q.id _ w.db (λ x. refl) (λ x. refl) kept
                  absent)
                λ updated.
                  bind-Keeps (admit-Kept room foreign ambient q.user_id decision)
                    λ version. then-Keeps (insert_audit-Kept app before _) (return_value-Keeps _))
            _)
