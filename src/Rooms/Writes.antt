-- ===== src/Rooms/Writes.antt =====
-- What the writes of rooms, memberships and join requests make of the tables when the constraints
-- let them through.
use study_room_sdk.Base.{
  ℕ, ◌≡◌, false, not, ◌&&◌, ◌||◌, ◌++◌, [], ◌∷◌, ◌⊎◌, inl, inr, find?, any, update_where,
  delete_where, Bool-cases, Option-cases,
}
use study_room_sdk.Domain.{Db, Room, RoomMembership, RoomRole, JoinRequest, is_owner, is_pending}
use study_room_sdk.Service.Monad.{done}
use study_room_sdk.Database.{
  room_is, member_is, request_is, insert_membership, upsert_membership, set_role, delete_membership,
  update_room, insert_join_request, update_join_request, owner_in, pending_of,
}

pub insert_membership_done :
    (x a : RoomMembership) (d e : Db)
    → insert_membership x d ≡ done (a, e)
    → e ≡ record d { memberships = d.memberships ++ x ∷ [] }
unfolding insert_membership
insert_membership_done x a d e h =
    elim (Bool-cases (
      any (member_is x.room_id x.user_id) d.memberships
      || (is_owner x.role && any (owner_in x.room_id) d.memberships))) [
        | inl c ↦ let k = rw c at h in cc k
        | inr c ↦ let k = rw c at h in cc k
      ]

pub upsert_membership_done :
    (x : RoomMembership) (u : Unit {0}) (d e : Db)
    → upsert_membership x d ≡ done (u, e)
    → (e ≡ d) ⊎ (e ≡ record d { memberships = d.memberships ++ x ∷ [] })
unfolding upsert_membership insert_membership
upsert_membership_done x u d e h =
    elim (Bool-cases (any (member_is x.room_id x.user_id) d.memberships)) [
      | inl c ↦ let k = rw c at h in inl (cc k)
      | inr c ↦ elim (Bool-cases (is_owner x.role && any (owner_in x.room_id) d.memberships)) [
        | inl o ↦ let k = rw (c, o) at h in cc k
        | inr o ↦ let k = rw (c, o) at h in inr (cc k)
      ]
    ]

pub update_room_done :
    (room : ℕ) (f : Room → Room) (a : Room) (d e : Db)
    → update_room room f d ≡ done (a, e)
    → e ≡ record d { rooms = update_where (room_is room) f d.rooms }
unfolding update_room
update_room_done room f a d e h = elim (Option-cases (find? (room_is room) d.rooms)) [
  | inl n ↦ let k = rw n at h in cc k
  | inr (r, n) ↦ let k = rw n at h in cc k
]

pub update_join_request_done :
    (id : ℕ) (f : JoinRequest → JoinRequest) (a : JoinRequest) (d e : Db)
    → update_join_request id f d ≡ done (a, e)
    → e ≡ record d { join_requests = update_where (request_is id) f d.join_requests }
unfolding update_join_request
update_join_request_done id f a d e h =
    elim (Option-cases (find? (request_is id) d.join_requests)) [
      | inl n ↦ let k = rw n at h in cc k
      | inr (r, n) ↦ let k = rw n at h in cc k
    ]

pub set_role_done :
    (room user : ℕ) (role : RoomRole) (u : Unit {0}) (d e : Db)
    → set_role room user role d ≡ done (u, e)
    → e ≡ record d {
      memberships =
          update_where (member_is room user) (λ m. record m { role = role }) d.memberships;
    }
unfolding set_role
set_role_done room user role u d e h = elim (Bool-cases (any (member_is room user) d.memberships)) [
  | inl c ↦
      elim (Bool-cases (
        is_owner role && any (λ m. owner_in room m && not (member_is room user m)) d.memberships)) [
          | inl o ↦ let k = rw (c, o) at h in cc k
          | inr o ↦ let k = rw (c, o) at h in cc k
        ]
  | inr c ↦ let k = rw c at h in cc k
]

pub delete_membership_done :
    (room user : ℕ) (u : Unit {0}) (d e : Db)
    → delete_membership room user d ≡ done (u, e)
    → e ≡ record d { memberships = delete_where (member_is room user) d.memberships }
unfolding delete_membership
delete_membership_done room user u d e h =
    elim (Bool-cases (any (member_is room user) d.memberships)) [
      | inl c ↦ let k = rw c at h in cc k
      | inr c ↦ let k = rw c at h in cc k
    ]

pub insert_join_request_done :
    (q a : JoinRequest) (d e : Db)
    → insert_join_request q d ≡ done (a, e)
    → (e ≡ record d { join_requests = d.join_requests ++ q ∷ [] })
      × (any (request_is q.id) d.join_requests ≡ false)
unfolding insert_join_request
insert_join_request_done q a d e h = elim (Bool-cases (any (request_is q.id) d.join_requests)) [
  | inl c ↦ let k = rw c at h in cc k
  | inr c ↦
      elim (Bool-cases
        (is_pending q.status && any (pending_of q.room_id q.user_id) d.join_requests)) [
          | inl o ↦ let k = rw (c, o) at h in cc k
          | inr o ↦ let k = rw (c, o) at h in (cc k, c)
        ]
]
