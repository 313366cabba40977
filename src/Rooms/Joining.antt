-- ===== src/Rooms/Joining.antt =====
-- What `requestJoin`, `cancelJoinRequest` and `decideJoinRequest` do.
use study_room_sdk.Base.{
  ℕ, ◌≡◌, ◌∙◌, refl, Bool, true, false, [], ◌∷◌, ◌++◌, none, some, arith, ==_refl, find?, any,
  count, find?-holds, find?-any_also, find?-append, count-append_one, count-of_none, find?-none,
  find?-update_where_kept, any-weaken,
}
use study_room_sdk.Domain.{Db, Ambient, Identity, Room, JoinRequest, cancelled}
use study_room_sdk.Domain.World.{World}
use study_room_sdk.Service.Monad.{
  done, thrown, known_request, p2002, actions, resume, stored, recovered,
}
use study_room_sdk.Database.{request_is, pending_of, insert_join_request, update_join_request}
use study_room_sdk.Rooms.Defs.{live_room, is_member}
use study_room_sdk.Rooms.Requests.{
  to_join_request_dto, JoinResult, my_pending, find_my_pending, join_result, join_concurrently,
  new_request, join_newly, join_existing, request_join, cancel_join_request,
}

-- The answer that shows a request.
abbrev pub shown_request : Bool → JoinRequest → Db → JoinResult
shown_request is_new q d = record { request = to_join_request_dto d q; created = is_new }

abbrev with_request : JoinRequest → Db → Db
with_request q d = record d { join_requests = d.join_requests ++ q ∷ [] }

-- The unique index on pending requests.
second_refused :
    (ambient : Ambient) (room : ℕ) (identity : Identity) (d : Db) {q : JoinRequest}
    → find_my_pending room identity d ≡ some q
    → insert_join_request (new_request ambient room identity) d ≡ thrown (known_request p2002)
unfolding insert_join_request find_my_pending
second_refused ambient room identity d e =
    let there : any (pending_of room identity.user_id) d.join_requests ≡ true =
      find?-any_also (my_pending room identity) (pending_of room identity.user_id) d.join_requests e
        (ground (arith, find?-holds (my_pending room identity) d.join_requests e)) in
    ground (arith, there)

module _ (ambient : Ambient) (others : World → World) (room : ℕ) (identity : Identity)
    (w : World) where
  join_pending :
      {r : Room} {q : JoinRequest}
      → find? (live_room identity.app_id room) w.db.rooms ≡ some r
      → is_member room identity w.db ≡ false
      → find_my_pending room identity w.db ≡ some q
      → request_join ambient others room identity w ≡ (done (shown_request false q w.db), w)
  unfolding actions resume request_join join_existing join_result
  join_pending live out mine = rw (live, out, mine) refl

  -- A pending request that another call of the same user has made in the meantime is found after the
  -- unique index has refused a second one: the call answers with it and writes nothing.
  pub request_join_concurrently :
      {r : Room} {q : JoinRequest}
      → find? (live_room identity.app_id room) w.db.rooms ≡ some r
      → is_member room identity w.db ≡ false
      → find_my_pending room identity w.db ≡ none
      → find_my_pending room identity (others w).db ≡ some q
      → request_join ambient others room identity w
        ≡ (done (shown_request false q (others w).db), others w)
  unfolding actions resume stored recovered request_join join_existing join_newly join_concurrently
      join_result
  request_join_concurrently live out before after =
      rw (live, out, before, second_refused ambient room identity (others w).db after, after) refl

  -- The request that a call makes: `others` ran before its insertion.
  join_new :
      {r : Room}
      → find? (live_room identity.app_id room) w.db.rooms ≡ some r
      → is_member room identity w.db ≡ false
      → find_my_pending room identity w.db ≡ none
      → any (pending_of room identity.user_id) (others w).db.join_requests ≡ false
      → any (request_is ambient.uuid) (others w).db.join_requests ≡ false
      → let q = new_request ambient room identity in
        let d = with_request q (others w).db in
        request_join ambient others room identity w
        ≡ (done (shown_request true q d), record (others w) { db = d })
  unfolding actions resume stored recovered request_join join_existing join_newly join_result
      insert_join_request
  join_new live out before free fresh = rw (live, out, before, fresh, free) refl

-- Asking twice makes one request: the first call makes a pending request with its identifier, and
-- the second one answers with the same request and changes nothing.
pub request_join_twice :
    (ambient later : Ambient) (room : ℕ) (identity : Identity) (w : World) {r : Room}
    → find? (live_room identity.app_id room) w.db.rooms ≡ some r
    → is_member room identity w.db ≡ false
    → any (pending_of room identity.user_id) w.db.join_requests ≡ false
    → any (request_is ambient.uuid) w.db.join_requests ≡ false
    → let q = new_request ambient room identity in
      let (first, u) = request_join ambient (λ v. v) room identity w in
      let (second, v) = request_join later (λ v. v) room identity u in
      (first ≡ done (shown_request true q u.db))
      × (second ≡ done (shown_request false q u.db))
      × (v ≡ u)
      × (count (pending_of room identity.user_id) u.db.join_requests ≡ 1)
unfolding find_my_pending is_member
request_join_twice ambient later room identity w live out free fresh =
    let q = new_request ambient room identity in
    let u : World = record w { db = with_request q w.db } in
    let none_mine : any (my_pending room identity) w.db.join_requests ≡ false =
      any-weaken (my_pending room identity) (pending_of room identity.user_id) w.db.join_requests
        (λ x h. ground arith) free in
    let before = find?-none (my_pending room identity) w.db.join_requests none_mine in
    let mine : find? (my_pending room identity) u.db.join_requests ≡ some q =
      find?-append (my_pending room identity) w.db.join_requests q none_mine
        (ground (arith, ==_refl identity.app_id, ==_refl room, ==_refl identity.user_id)) in
    rw
      (
        join_new ambient (λ v. v) room identity w live out before free fresh,
        join_pending later (λ v. v) room identity u live out mine,
      )
      (
        refl,
        refl,
        refl,
        count-append_one (pending_of room identity.user_id) w.db.join_requests q
            ∙ ground (
              arith,
              ==_refl room,
              ==_refl identity.user_id,
              count-of_none (pending_of room identity.user_id) w.db.join_requests free,
            ),
      )

-- Cancelling sets the status of the request that was pending when the call began, whatever another
-- call made of it before the write: a request approved in the meantime ends as cancelled, while the
-- membership that the approval made stays.
pub cancel_overwrites :
    (ambient : Ambient) (others : World → World) (room : ℕ) (identity : Identity) (w : World)
    {q now_is : JoinRequest}
    → find_my_pending room identity w.db ≡ some q
    → find? (request_is q.id) (others w).db.join_requests ≡ some now_is
    → let (answer, u) = cancel_join_request ambient others room identity w in
      (answer ≡ done tt)
      × (find? (request_is q.id) u.db.join_requests
          ≡ some (record now_is { status = cancelled; updated_at = ambient.now }))
      × (u.db.memberships ≡ (others w).db.memberships)
unfolding actions resume stored cancel_join_request update_join_request
cancel_overwrites ambient others room identity w {q} {now_is} mine there =
    rw (mine, there)
      (
        refl,
        find?-update_where_kept (request_is q.id) (request_is q.id)
            (λ r. record r { status = cancelled; updated_at = ambient.now })
            (others w).db.join_requests (λ y h. refl) there
            (find?-holds (request_is q.id) (others w).db.join_requests there),
        refl,
      )
