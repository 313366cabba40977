-- ===== src/Rooms/TenantIsolation.antt =====
-- No call of the rooms service changes what belongs to another application than the caller's.
use study_room_sdk.Base.{
  ℕ, ◌≡◌, ◌≢◌, ◌≤◌, refl, true, false, ◌&&◌, List, arith, ◌==◌, find?, any, count, Bool-cases,
  Option-cases, inl, inr, find?-holds, any-weaken, any-of_find?, only_one,
}
use study_room_sdk.Domain.{Db, Ambient, Identity, Room, RoomMembership}
use study_room_sdk.Domain.World.{World}
use study_room_sdk.Service.Monad.{Outcome, thrown, Failure, Action, ◌>>=◌, ◌>>◌, resume}
use study_room_sdk.Database.{room_is}
use study_room_sdk.Idempotency.{Digest}
use study_room_sdk.Rooms.Defs.{
  membership_in, is_member, require_member, require_owner, membership_required,
}
use study_room_sdk.Rooms.Methods.{remove_member, leave, transfer_ownership, delete}
use study_room_sdk.Rooms.Requests.{decide_join_request}
use study_room_sdk.Rooms.History.{
  RoomCall, creates, removes, transfers, leaves, deletes, asks, cancels, decides, handle,
}
use study_room_sdk.Rooms.Access.{owns, refusal, require_member-Refused, require_owner-Refused}
use study_room_sdk.Rooms.Isolation.{SameRows, UniqueRequests, Kept, KeepsRows, IsForeign}
use study_room_sdk.Rooms.Keyed.{create_idempotent-Kept}
use study_room_sdk.Rooms.TenantMethods.{
  remove_member-Kept, leave-Kept, transfer_ownership-Kept, delete-Kept, request_join-Kept,
  cancel_join_request-Kept, decide_join_request-Kept,
}

-- The constraints of the tables on tenants: the primary keys of rooms and join requests, and the
-- foreign key that takes a membership to a room of its application.
abbrev pub HasIntegrity : Db → Type 0
HasIntegrity d =
    ((id : ℕ) → count (room_is id) d.rooms ≤ 1)
    × ((id app : ℕ)
        → any (λ m. m.app_id == app && m.room_id == id) d.memberships ≡ true
        → any (λ r. r.app_id == app && room_is id r) d.rooms ≡ true)
    × UniqueRequests d

member_in_room :
    (room : ℕ) (identity : Identity) (d : Db)
    → is_member room identity d ≡ true
    → any (λ m. m.app_id == identity.app_id && m.room_id == room) d.memberships ≡ true
unfolding is_member
member_in_room room identity d there =
    elim (Bool-cases (any (λ m. m.app_id == identity.app_id && m.room_id == room) d.memberships)) [
      | inl e ↦ e
      | inr e ↦
          let k =
            any-weaken (membership_in identity.app_id room identity.user_id d) _ d.memberships
              (λ m h. ground arith) e in
          cc (k, there)
    ]

no_other_room :
    (app mine room : ℕ) (rooms : List Room)
    → mine ≢ app
    → count (room_is room) rooms ≤ 1
    → any (λ r. r.app_id == mine && room_is room r) rooms ≡ true
    → any (λ r. r.app_id == app && room_is room r) rooms ≡ false
no_other_room app mine room rooms ne one there =
    elim (Option-cases (find? (λ r. r.app_id == mine && room_is room r) rooms)) [
      | inl e ↦ let k = any-of_find? _ rooms e in cc (k, there)
      | inr (r, e) ↦
          let h = find?-holds (λ (x : Room). x.app_id == mine && room_is room x) rooms e in
          only_one _ (room_is room) (λ x. x.app_id == app) rooms e one (ground arith) (ground arith)
    ]

-- A room in which the caller is a member is none of another application.
member-IsForeign :
    (app room : ℕ) (identity : Identity) (d : Db)
    → HasIntegrity d
    → identity.app_id ≢ app
    → is_member room identity d ≡ true
    → IsForeign app d room
member-IsForeign app room identity d (rooms, memberships, _) ne there =
    let none_other =
      no_other_room app identity.app_id room d.rooms ne (rooms room)
        (memberships room identity.app_id (member_in_room room identity d there)) in
    (
      none_other,
      elim (Bool-cases (any (λ m. m.app_id == app && m.room_id == room) d.memberships)) [
        | inl e ↦ cc (memberships room app e, none_other)
        | inr e ↦ e
      ],
    )

module _ (room : ℕ) (identity : Identity) (w : World)
    (out : is_member room identity w.db ≡ false) where
  not_owner : owns room identity w.db ≡ false
  unfolding is_member
  not_owner = any-weaken _ _ w.db.memberships (λ m h. ground arith) out

  -- What starts with the owner's check is refused.
  owner_first-Refused :
      {A : Type 0} (k : Action A)
      → (require_owner room identity >> k) w ≡ (thrown (refusal room identity w.db), w)
  unfolding ◌>>◌ ◌>>=◌ resume
  owner_first-Refused k = rw (require_owner-Refused room identity w not_owner) refl

  member_first-Refused :
      {A : Type 0} (k : RoomMembership → Action A)
      → (require_member room identity >>= k) w ≡ (thrown membership_required, w)
  unfolding ◌>>=◌ resume
  member_first-Refused k = rw (require_member-Refused room identity w out) refl

-- What a refused call leaves
refused-SameRows :
    {A : Type 0} (app : ℕ) (w : World) (r : Outcome A × World) {e : Failure}
    → r ≡ (thrown e, w)
    → SameRows app w.db r.1.db
refused-SameRows app w r h = rw h (refl, refl, refl)

module _ (digest : Digest) (ambient : Ambient) (others : World → World) (identity : Identity)
    (app : ℕ) (w : World) (constraints : HasIntegrity w.db) (ne : identity.app_id ≢ app)
    (kept : (v : World) → Kept app w.db v.db → Kept app w.db (others v).db) where
  at_start : Kept app w.db w.db
  at_start = ((refl, refl, refl), constraints.2)

  -- Either the call is refused, or its room is none of the other application.
  guarded :
      {A : Type 0} (room : ℕ) (m : Action A)
      → (is_member room identity w.db ≡ false → (e : Failure) × (m w ≡ (thrown e, w)))
      → (IsForeign app w.db room → KeepsRows app w.db m)
      → SameRows app w.db (m w).1.db
  guarded room m refuse act = elim (Bool-cases (is_member room identity w.db)) [
    | inl e ↦ ((act (member-IsForeign app room identity w.db constraints ne e)).keeps w at_start).0
    | inr e ↦ refused-SameRows app w (m w) (refuse e).1
  ]

  -- A call of the rooms service, a creation under a key or not among them, on tables that meet the constraints on tenants, changes no room, no
  -- membership and no join request of an application that is not the caller's, if what other calls do
  -- while it awaits leaves these rows alone and keeps the join requests' identifiers distinct.
  pub handle_isolated :
      (call : RoomCall) → SameRows app w.db (handle digest ambient others identity call w).db
  unfolding handle
  handle_isolated (creates title key) =
      ((create_idempotent-Kept app w.db identity ne digest ambient others kept title key).keeps w
        at_start).0
  handle_isolated (removes room user) =
      guarded room (remove_member ambient others room user identity)
        (λ out. (
          refusal room identity w.db,
          unfold remove_member in owner_first-Refused room identity w out _,
        ))
        (λ f. remove_member-Kept app w.db identity ne ambient others kept room f user)
  handle_isolated (transfers room user) =
      guarded room (transfer_ownership ambient others room user identity)
        (λ out. (
          refusal room identity w.db,
          unfold transfer_ownership in owner_first-Refused room identity w out _,
        ))
        (λ f. transfer_ownership-Kept app w.db identity ne ambient others kept room f user)
  handle_isolated (leaves room) =
      guarded room (leave ambient others room identity)
        (λ out. (membership_required, unfold leave in member_first-Refused room identity w out _))
        (λ f. leave-Kept app w.db identity ne ambient others kept room f)
  handle_isolated (deletes room) =
      guarded room (delete ambient others room identity)
        (λ out.
          (refusal room identity w.db, unfold delete in owner_first-Refused room identity w out _))
        (λ f. delete-Kept app w.db identity ne ambient others kept room f)
  handle_isolated (asks room) =
      ((request_join-Kept app w.db identity ne ambient others kept room).keeps w at_start).0
  handle_isolated (cancels room) =
      ((cancel_join_request-Kept app w.db identity ne ambient others kept room).keeps w at_start).0
  handle_isolated (decides room request decision) =
      guarded room (decide_join_request ambient others room request decision identity)
        (λ out. (
          refusal room identity w.db,
          unfold decide_join_request in owner_first-Refused room identity w out _,
        ))
        (λ f.
          decide_join_request-Kept app w.db identity ne ambient others kept room f request decision)
