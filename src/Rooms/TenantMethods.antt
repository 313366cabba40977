-- ===== src/Rooms/TenantMethods.antt =====
-- The methods of the rooms service leave the rows of other applications alone.
use study_room_sdk.Base.{
  ℕ, ◌≢◌, refl, Bool, true, false, List, [], ◌∷◌, Option, none, some, arith, ◌==◌, if◌then◌else◌,
}
use study_room_sdk.Domain.{Db, Ambient, Identity, JoinRequest}
use study_room_sdk.Domain.World.{World}
use study_room_sdk.Service.Keeps.{
  bind-Keeps, then-Keeps, or_throw-Keeps, query-Keeps, return_value-Keeps, throw_if-Keeps,
  meanwhile-Keeps, query-Keeps_post,
}
use study_room_sdk.Rooms.Defs.{get, member_room, require_member, require_owner}
use study_room_sdk.Rooms.Methods.{
  remove_member, leave, transfer_to_other, transfer_ownership, delete, remove_users,
}
use study_room_sdk.Rooms.Requests.{
  Decision, request_join, join_existing, cancel_join_request, decide_join_request, find_my_pending,
  my_pending,
}
use study_room_sdk.Rooms.Snapshot.{remove_user-Keeps, updated_room-Keeps, to_room_dto-Keeps}
use study_room_sdk.Rooms.Isolation.{Kept, KeepsRows, IsForeign, update_join_request-Kept}
use study_room_sdk.Rooms.Tenants.{
  found_then, removal-Kept, departure-Kept, handover-Kept, deletion-Kept,
  decide_in_transaction-Kept, join_newly-Kept, join_result-Kept,
}

module _ (app : ℕ) (before : Db) (identity : Identity) (ne : identity.app_id ≢ app) where
  -- The methods, among requests that leave the application's rows alone.
  module _ (ambient : Ambient) (others : World → World)
      (kept : (w : World) → Kept app before w.db → Kept app before (others w).db) where
    require_member-Kept : (room : ℕ) → KeepsRows app before (require_member room identity)
    unfolding require_member
    require_member-Kept room = bind-Keeps (query-Keeps _) λ o. or_throw-Keeps o _

    require_owner-Kept : (room : ℕ) → KeepsRows app before (require_owner room identity)
    unfolding require_owner
    require_owner-Kept room =
        bind-Keeps (require_member-Kept room)
          λ m. then-Keeps (throw_if-Keeps _ _) (return_value-Keeps m)

    remove_users-Kept :
        (now at room : ℕ) (users : List ℕ) → KeepsRows app before (remove_users now at room users)
    unfolding remove_users
    remove_users-Kept now at room [] = return_value-Keeps tt
    remove_users-Kept now at room (u ∷ us) =
        then-Keeps (remove_user-Keeps _ (λ w r h. h) now at room u)
          (remove_users-Kept now at room us)

    pub request_join-Kept :
        (room : ℕ) → KeepsRows app before (request_join ambient others room identity)
    unfolding request_join
    request_join-Kept room = bind-Keeps (query-Keeps _) λ found.
        then-Keeps (or_throw-Keeps found _) (
          bind-Keeps (query-Keeps _) λ already.
            then-Keeps (throw_if-Keeps already _) (bind-Keeps (query-Keeps _) (existing room)))
      where
        existing :
            (room : ℕ) (o : Option JoinRequest)
            → KeepsRows app before (join_existing ambient others room identity o)
        existing room (some q) =
            unfold join_existing in join_result-Kept app before identity ne ambient false q
        existing room none =
            unfold join_existing in
            then-Keeps (meanwhile-Keeps others kept)
              (join_newly-Kept app before identity ne ambient room)

    pub cancel_join_request-Kept :
        (room : ℕ) → KeepsRows app before (cancel_join_request ambient others room identity)
    unfolding cancel_join_request find_my_pending
    cancel_join_request-Kept room = query-Keeps_post _ _ λ w held.
        found_then app before identity ne ambient (my_pending room identity) w.db _ _
          (λ x h. ground arith) held refl
          (λ q absent. then-Keeps (meanwhile-Keeps others kept) (
            then-Keeps
              (update_join_request-Kept app before q.id _ w.db (λ x. refl) (λ x. refl) held absent)
              (return_value-Keeps tt)))
          _

    module _ (room : ℕ) (foreign : IsForeign app before room) where
      pub remove_member-Kept :
          (user : ℕ) → KeepsRows app before (remove_member ambient others room user identity)
      unfolding remove_member
      remove_member-Kept user = then-Keeps (require_owner-Kept room) (
          bind-Keeps (query-Keeps _) λ found. bind-Keeps (or_throw-Keeps found _) λ target.
            then-Keeps (throw_if-Keeps _ _) (
              then-Keeps (meanwhile-Keeps others kept) (
                then-Keeps (removal-Kept app before identity ne room foreign user) (
                  then-Keeps (remove_user-Keeps _ (λ w r h. h) _ _ _ _)
                    (updated_room-Keeps _ (λ w r h. h) _ _ _)))))

      pub leave-Kept : KeepsRows app before (leave ambient others room identity)
      unfolding leave
      leave-Kept = bind-Keeps (require_member-Kept room) λ membership.
          then-Keeps (throw_if-Keeps _ _) (
            then-Keeps (meanwhile-Keeps others kept) (
              then-Keeps (departure-Kept app before identity ne room foreign) (
                then-Keeps (remove_user-Keeps _ (λ w r h. h) _ _ _ _)
                  (updated_room-Keeps _ (λ w r h. h) _ _ _))))

      transfer_to_other-Kept :
          (user : ℕ) → KeepsRows app before (transfer_to_other ambient others room user identity)
      unfolding transfer_to_other
      transfer_to_other-Kept user = bind-Keeps (query-Keeps _) λ found.
          then-Keeps (or_throw-Keeps found _) (
            then-Keeps (meanwhile-Keeps others kept) (
              then-Keeps (handover-Kept app before identity ne room foreign user)
                (updated_room-Keeps _ (λ w r h. h) _ _ _)))

      get-Kept : KeepsRows app before (get ambient.now room identity)
      unfolding get member_room
      get-Kept =
          bind-Keeps (bind-Keeps (query-Keeps _) λ o. or_throw-Keeps o _)
            λ r. bind-Keeps (query-Keeps _) λ d. to_room_dto-Keeps _ (λ w r h. h) ambient.now r d

      choice-Kept :
          (b : Bool) (user : ℕ)
          → KeepsRows app before (
              if b
              then get ambient.now room identity
              else transfer_to_other ambient others room user identity)
      choice-Kept true user = get-Kept
      choice-Kept false user = transfer_to_other-Kept user

      pub transfer_ownership-Kept :
          (user : ℕ) → KeepsRows app before (transfer_ownership ambient others room user identity)
      unfolding transfer_ownership
      transfer_ownership-Kept user =
          then-Keeps (require_owner-Kept room) (choice-Kept (user == identity.user_id) user)

      pub delete-Kept : KeepsRows app before (delete ambient others room identity)
      unfolding delete
      delete-Kept = then-Keeps (require_owner-Kept room) (
          bind-Keeps (query-Keeps _) λ members. then-Keeps (meanwhile-Keeps others kept) (
            bind-Keeps (deletion-Kept app before identity ne room foreign ambient.now) λ deleted.
              then-Keeps (remove_users-Kept ambient.now identity.app_id room members)
                (return_value-Keeps _)))

      pub decide_join_request-Kept :
          (request : ℕ) (decision : Decision)
          → KeepsRows app before (decide_join_request ambient others room request decision identity)
      unfolding decide_join_request
      decide_join_request-Kept request decision = then-Keeps (require_owner-Kept room) (
          then-Keeps (meanwhile-Keeps others kept) (
            bind-Keeps
              (decide_in_transaction-Kept app before identity ne ambient room request decision
                foreign)
              λ r. bind-Keeps (query-Keeps _) λ d. return_value-Keeps _))
