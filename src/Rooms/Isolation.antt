-- ===== src/Rooms/Isolation.antt =====
-- The rows of one application, and what the writes that the rooms service makes for another one leave
-- of them.
use study_room_sdk.Base.{
  ℕ, ◌≡◌, ◌≢◌, ◌≤◌, refl, ◌∙◌, sym, ap, false, ◌&&◌, ◌++◌, any-weaken, List, [], ◌∷◌, arith, ◌==◌,
  any, count, select, inl, inr, count-append_one, count-of_none, count-update_where,
  select-append_one, select-update_where, select-delete_where, any-select,
}
use study_room_sdk.Domain.{Db, Room, RoomMembership, RoomRole, JoinRequest, AuditLog}
use study_room_sdk.Service.Monad.{Action, write}
use study_room_sdk.Service.Keeps.{Keeps}
use study_room_sdk.Service.Ensures.{write-Keeps}
use study_room_sdk.Database.{
  room_is, member_is, request_is, insert_room, insert_membership, upsert_membership, set_role,
  delete_membership, update_room, insert_join_request, update_join_request, insert_audit,
}
use study_room_sdk.Rooms.Writes.{
  insert_membership_done, upsert_membership_done, update_room_done, update_join_request_done,
  set_role_done, delete_membership_done, insert_join_request_done,
}

abbrev pub rooms_of : ℕ → Db → List Room
rooms_of app d = select (λ r. r.app_id == app) d.rooms

abbrev pub memberships_of : ℕ → Db → List RoomMembership
memberships_of app d = select (λ m. m.app_id == app) d.memberships

abbrev pub requests_of : ℕ → Db → List JoinRequest
requests_of app d = select (λ q. q.app_id == app) d.join_requests

-- The application's rooms, memberships and join requests are the same.
abbrev pub SameRows : ℕ → Db → Db → Type 0
SameRows app d e =
    (rooms_of app e ≡ rooms_of app d)
    × (memberships_of app e ≡ memberships_of app d)
    × (requests_of app e ≡ requests_of app d)

-- The primary key of the join requests
abbrev pub UniqueRequests : Db → Type 0
UniqueRequests d = (id : ℕ) → count (request_is id) d.join_requests ≤ 1

-- No join request of the application has this identifier.
abbrev pub NoRequest : ℕ → ℕ → Db → Type 0
NoRequest app id d = any (λ q. q.app_id == app && request_is id q) d.join_requests ≡ false

module _ (app : ℕ) (before : Db) where
  abbrev pub Kept : Db → Type 0
  Kept d = SameRows app before d × UniqueRequests d

  -- None of the application's rooms, and no membership of it, has this room's identifier.
  abbrev pub IsForeign : ℕ → Type 0
  IsForeign room =
      (any (λ r. r.app_id == app && room_is room r) before.rooms ≡ false)
      × (any (λ m. m.app_id == app && m.room_id == room) before.memberships ≡ false)

  abbrev pub KeepsRows : {A : Type 0} → Action A → Type 0
  KeepsRows m = Keeps (λ w. Kept w.db) m

  pub insert_room-Kept : (x : Room) → x.app_id ≢ app → KeepsRows (write (insert_room x))
  insert_room-Kept x ne = write-Keeps λ d e r h k.
      unfold insert_room in
      (ground (arith, select-append_one (λ (y : Room). y.app_id == app) d.rooms x))

  append_membership :
      (x : RoomMembership) (d : Db)
      → x.app_id ≢ app
      → Kept d
      → Kept (record d { memberships = d.memberships ++ x ∷ [] })
  append_membership x d ne (k, u) =
      ((k.0, select-append_one (λ y. y.app_id == app) d.memberships x (ground arith) ∙ k.1, k.2), u)

  pub insert_membership-Kept :
      (x : RoomMembership) → x.app_id ≢ app → KeepsRows (write (insert_membership x))
  insert_membership-Kept x ne =
      write-Keeps λ d e a h k. rw (insert_membership_done x a d e h) (append_membership x d ne k)

  pub upsert_membership-Kept :
      (x : RoomMembership) → x.app_id ≢ app → KeepsRows (write (upsert_membership x))
  upsert_membership-Kept x ne = write-Keeps λ d e a h k. elim (upsert_membership_done x a d e h) [
    | inl same ↦ rw same k
    | inr more ↦ rw more (append_membership x d ne k)
  ]

  pub insert_join_request-Kept :
      (q : JoinRequest) → q.app_id ≢ app → KeepsRows (write (insert_join_request q))
  insert_join_request-Kept q ne = write-Keeps λ d e a h k.
      let (done_at, new) = insert_join_request_done q a d e h in
      rw done_at (
        (
          k.0.0,
          k.0.1,
          select-append_one (λ y. y.app_id == app) d.join_requests q (ground arith) ∙ k.0.2,
        ),
        λ id. ground (
          arith,
          count-append_one (request_is id) d.join_requests q,
          count-of_none (request_is q.id) d.join_requests,
          k.1 id,
        ),
      )

  pub insert_audit-Kept : (a : AuditLog) → KeepsRows (write (insert_audit a))
  insert_audit-Kept a = write-Keeps λ d e u h k. unfold insert_audit in ground arith

  module _ (room : ℕ) (foreign : IsForeign room) where
    no_room : (d : Db) → Kept d → any (λ r. r.app_id == app && room_is room r) d.rooms ≡ false
    no_room d k =
        sym (any-select (λ r. r.app_id == app) (room_is room) d.rooms)
        ∙ ap (any (room_is room)) k.0.0
        ∙ any-select (λ r. r.app_id == app) (room_is room) before.rooms
        ∙ foreign.0

    no_member :
        (user : ℕ) (d : Db)
        → Kept d
        → any (λ m. m.app_id == app && member_is room user m) d.memberships ≡ false
    no_member user d k =
        sym (any-select (λ m. m.app_id == app) (member_is room user) d.memberships)
        ∙ ap (any (member_is room user)) k.0.1
        ∙ any-select (λ m. m.app_id == app) (member_is room user) before.memberships
        ∙ any-weaken _ _ before.memberships (λ m h. ground arith) foreign.1

    pub update_room-Kept :
        (f : Room → Room)
        → ((x : Room) → (f x).app_id ≡ x.app_id)
        → KeepsRows (write (update_room room f))
    update_room-Kept f same = write-Keeps λ d e a h k. rw (update_room_done room f a d e h) (
      (
        select-update_where (λ y. y.app_id == app) (room_is room) f d.rooms (λ x. rw (same x) refl)
              (no_room d k)
            ∙ k.0.0,
        k.0.1,
        k.0.2,
      ),
      k.1,
    )

    pub set_role-Kept : (user : ℕ) (role : RoomRole) → KeepsRows (write (set_role room user role))
    set_role-Kept user role = write-Keeps λ d e a h k. rw (set_role_done room user role a d e h) (
      (
        k.0.0,
        select-update_where (λ y. y.app_id == app) (member_is room user) _ d.memberships (λ x. refl)
              (no_member user d k)
            ∙ k.0.1,
        k.0.2,
      ),
      k.1,
    )

    pub delete_membership-Kept : (user : ℕ) → KeepsRows (write (delete_membership room user))
    delete_membership-Kept user = write-Keeps λ d e a h k.
        rw (delete_membership_done room user a d e h) (
          (
            k.0.0,
            select-delete_where (λ y. y.app_id == app) (member_is room user) d.memberships
                  (no_member user d k)
                ∙ k.0.1,
            k.0.2,
          ),
          k.1,
        )

  pub NoRequest-Kept :
      (id : ℕ) (d e : Db) → Kept d → Kept e → NoRequest app id d → NoRequest app id e
  NoRequest-Kept id d e k l h =
      sym (any-select (λ q. q.app_id == app) (request_is id) e.join_requests)
      ∙ ap (any (request_is id)) (l.0.2 ∙ sym k.0.2)
      ∙ any-select (λ q. q.app_id == app) (request_is id) d.join_requests
      ∙ h

  pub update_join_request-Kept :
      (id : ℕ) (f : JoinRequest → JoinRequest) (seen : Db)
      → ((q : JoinRequest) → (f q).app_id ≡ q.app_id)
      → ((q : JoinRequest) → (f q).id ≡ q.id)
      → Kept seen
      → NoRequest app id seen
      → KeepsRows (write (update_join_request id f))
  update_join_request-Kept id f seen same same_id kept absent = write-Keeps λ d e a h k.
      rw (update_join_request_done id f a d e h) (
        (
          k.0.0,
          k.0.1,
          select-update_where (λ y. y.app_id == app) (request_is id) f d.join_requests
                (λ q. rw (same q) refl) (NoRequest-Kept id seen d kept k absent)
              ∙ k.0.2,
        ),
        λ i.
            rw
              (count-update_where (request_is i) (request_is id) f d.join_requests
                (λ q h. rw (same_id q) refl))
              (k.1 i),
      )
