-- ===== src/Rooms/Deciding.antt =====
-- What `decideJoinRequest` does.
use study_room_sdk.Base.{
  ℕ, ◌+◌, ◌≡◌, ◌∙◌, refl, Bool, true, false, not, ◌&&◌, [], ◌∷◌, ◌++◌, none, some, arith, ◌==◌,
  ==_refl, find?, any, count, update_where, find?-holds, any-append_one, count-append_one,
  find?-none, any-update_where_none, any-none, find?-update_where_found,
}
use study_room_sdk.Domain.{
  Db, Ambient, Identity, Room, RoomMembership, member, is_owner, JoinRequest, is_pending, applicant,
  join_request_approved, approved,
}
use study_room_sdk.Domain.World.{World}
use study_room_sdk.Service.Monad.{
  done, thrown, not_found, message, actions, resume, stored, rolled_back,
}
use study_room_sdk.Database.{
  room_is, member_is, owner_in, request_is, update_room, next_version, update_join_request,
  upsert_membership, insert_membership, insert_audit, commit, room_transaction,
}
use study_room_sdk.Rooms.Defs.{membership_in}
use study_room_sdk.Rooms.Methods.{audit_row}
use study_room_sdk.Rooms.Requests.{
  to_join_request_dto, Decision, approve, reject, admit, decided, decide_in_transaction,
  decision_transaction, decide_join_request,
}
use study_room_sdk.Rooms.Effects.{require_owner_lem, one_owner_holds}

-- The request that a decision names, as long as it is pending in the room.
abbrev pub decidable : ℕ → ℕ → Identity → JoinRequest → Bool
decidable room request identity q =
    q.id == request && q.room_id == room && q.app_id == identity.app_id && is_pending q.status

-- The membership of an applicant
abbrev pub new_member : Ambient → ℕ → Identity → ℕ → RoomMembership
new_member ambient room identity user = record {
  room_id = room;
  app_id = identity.app_id;
  user_id = user;
  role = member;
  joined_at = ambient.now;
}

-- A request that was approved by somebody at a time
abbrev pub approved_request : Ambient → Identity → JoinRequest → JoinRequest
approved_request ambient identity q = record q {
  status = approved;
  decided_by = some identity.user_id;
  updated_at = ambient.now;
}

-- The tables after a decision to approve
abbrev pub approve_in : Ambient → ℕ → Identity → JoinRequest → Db → Db
approve_in ambient room identity q d = record d {
  join_requests = update_where (request_is q.id) (decided ambient identity approve) d.join_requests;
  memberships = d.memberships ++ new_member ambient room identity q.user_id ∷ [];
  rooms = update_where (room_is room) next_version d.rooms;
  audit_logs =
      d.audit_logs ++ audit_row identity join_request_approved q.id (applicant room q.user_id) ∷ [];
}

still_one :
    (ambient : Ambient) (room : ℕ) (identity : Identity) (q : JoinRequest) (d : Db)
    → count (owner_in room) d.memberships ≡ 1
    → count (owner_in room) (approve_in ambient room identity q d).memberships ≡ 1
still_one ambient room identity q d owners =
    count-append_one (owner_in room) d.memberships (new_member ambient room identity q.user_id)
    ∙ ground (arith, owners)

-- No request that the decision names is pending afterwards.
none-decidable :
    (ambient : Ambient) (room request : ℕ) (identity : Identity) (q : JoinRequest) (d : Db)
    → q.id ≡ request
    → find? (decidable room request identity) (approve_in ambient room identity q d).join_requests
      ≡ none
none-decidable ambient room request identity q d e =
    find?-none (decidable room request identity)
      (approve_in ambient room identity q d).join_requests
      (any-update_where_none (decidable room request identity) (request_is q.id)
        (decided ambient identity approve) d.join_requests (λ x h. ground arith)
        (any-none (λ x. decidable room request identity x && not (request_is q.id x))
          d.join_requests (λ x. rw e (ground arith))))

module _ (ambient : Ambient) (room request : ℕ) (identity : Identity) (w : World) where
  approval_lem :
      {q : JoinRequest} {r : Room}
      → find? (decidable room request identity) w.db.join_requests ≡ some q
      → any (member_is room q.user_id) w.db.memberships ≡ false
      → count (owner_in room) w.db.memberships ≡ 1
      → find? (room_is room) w.db.rooms ≡ some r
      → find? (request_is q.id) w.db.join_requests ≡ some q
      → decide_in_transaction ambient room request approve identity w ≡ (
        done (decided ambient identity approve q, some (r.version + 1)),
        record w { db = approve_in ambient room identity q w.db },
      )
  unfolding actions resume stored rolled_back decide_in_transaction decision_transaction admit
      room_transaction commit update_join_request upsert_membership insert_membership update_room
      insert_audit
  approval_lem {q} {r} found out owners row self =
      rw
        (
          found,
          self,
          out,
          row,
          one_owner_holds room (approve_in ambient room identity q w.db)
              (still_one ambient room identity q w.db owners),
        )
        refl

  decided_lem :
      find? (decidable room request identity) w.db.join_requests ≡ none
      → (decision : Decision)
      → decide_in_transaction ambient room request decision identity w
        ≡ (thrown (not_found (message "Pending join request not found")), w)
  unfolding actions resume stored rolled_back decide_in_transaction decision_transaction
      room_transaction
  decided_lem gone approve = rw gone refl
  decided_lem gone reject = rw gone refl

-- The owner approves: if, when the transaction runs, the request is pending in the room, the
-- applicant is no member and the room has one owner, the answer shows the request with the status
-- `approved` and the room's next version; afterwards the row of the request has that status and the
-- owner as the one who decided, the applicant is a member, the room still has one owner, and any further
-- decision on the request finds nothing pending and changes nothing.
pub decide_approves :
    (ambient later : Ambient) (others : World → World) (room request : ℕ) (identity : Identity)
    (w : World) {mine : RoomMembership} {q : JoinRequest} {r : Room} (decision : Decision)
    → find? (membership_in identity.app_id room identity.user_id w.db) w.db.memberships ≡ some mine
    → is_owner mine.role ≡ true
    → find? (decidable room request identity) (others w).db.join_requests ≡ some q
    → find? (request_is q.id) (others w).db.join_requests ≡ some q
    → any (member_is room q.user_id) (others w).db.memberships ≡ false
    → count (owner_in room) (others w).db.memberships ≡ 1
    → find? (room_is room) (others w).db.rooms ≡ some r
    → let (answer, u) = decide_join_request ambient others room request approve identity w in
      (answer
        ≡ done
            (to_join_request_dto u.db (approved_request ambient identity q), some (r.version + 1)))
      × (find? (request_is q.id) u.db.join_requests ≡ some (approved_request ambient identity q))
      × (any (member_is room q.user_id) u.db.memberships ≡ true)
      × (count (owner_in room) u.db.memberships ≡ 1)
      × (decide_in_transaction later room request decision identity u
          ≡ (thrown (not_found (message "Pending join request not found")), u))
unfolding actions resume decide_join_request
decide_approves ambient later others room request identity w {q = q} decision mine owns found self
      out owners row =
    let u : World = record (others w) { db = approve_in ambient room identity q (others w).db } in
    rw
      (
        require_owner_lem room identity w mine owns,
        approval_lem ambient room request identity (others w) found out owners row self,
      )
      (
        refl,
        find?-update_where_found (request_is q.id) (request_is q.id)
            (decided ambient identity approve) (others w).db.join_requests (λ y e. e) (λ y e. e)
            self (==_refl q.id),
        any-append_one (member_is room q.user_id) (others w).db.memberships
              (new_member ambient room identity q.user_id)
            ∙ ground (arith, ==_refl room, ==_refl q.user_id),
        still_one ambient room identity q (others w).db owners,
        decided_lem later room request identity u
            (none-decidable ambient room request identity q (others w).db (
              ground (
                arith,
                find?-holds (decidable room request identity) (others w).db.join_requests found,
              )))
            decision,
      )
