-- ===== src/Rooms/OneOwner.antt =====
-- Every room has exactly one owner, whatever the methods of the rooms service do and whatever
-- other requests do while they await.
use study_room_sdk.Base.{
  ℕ, ◌≡◌, ◌≢◌, refl, ◌∙◌, true, inl, inr, arith, ◌==◌, any, count, Bool-cases, any-append_one,
  count-append_one, count-delete_where, count-update_where, any-update_where,
}
use study_room_sdk.Domain.{Db, Room, RoomMembership, RoomRole}
use study_room_sdk.Domain.World.{World}
use study_room_sdk.Service.Monad.{
  Outcome, done, thrown, Action, stored, write, rolled_back, transaction, resume, ◌>>=◌,
}
use study_room_sdk.Service.Keeps.{Keeps}
use study_room_sdk.Database.{
  room_is, owner_in, member_is, insert_room, insert_membership, upsert_membership, set_role,
  delete_membership, update_room, has_exactly_one_owner, commit, room_transaction,
}

-- Each room of the table has one membership with the role of owner.
abbrev pub OneOwner : World → Type 0
OneOwner w =
    (room : ℕ) → any (room_is room) w.db.rooms ≡ true → count (owner_in room) w.db.memberships ≡ 1

-- The other rooms are there as before, with as many owners.
abbrev pub SameElsewhere : ℕ → Db → Db → Type 0
SameElsewhere room d e =
    (r : ℕ)
    → r ≢ room
    → (any (room_is r) e.rooms ≡ any (room_is r) d.rooms)
      × (count (owner_in r) e.memberships ≡ count (owner_in r) d.memberships)

abbrev pub after : {A : Type 0} → Db → Outcome (A × Db) → Db
after d (done (a, e)) = e
after d (thrown e) = d

pub stored-db : {A : Type 0} (w : World) (o : Outcome (A × Db)) → (stored w o).1.db ≡ after w.db o
unfolding stored
stored-db w (done (a, d)) = refl
stored-db w (thrown e) = refl

-- An action that touches one room.
abbrev pub Confined : {A : Type 0} → ℕ → Action A → Type 0
Confined room m = (d : Db) → Keeps (λ w. SameElsewhere room d w.db) m

pub write-Confined :
    {A : Type 0} (room : ℕ) (f : Db → Outcome (A × Db))
    → ((d : Db) → SameElsewhere room d (after d (f d)))
    → Confined room (write f)
unfolding write
write-Confined room f h d = record {
  keeps = λ w k r ne.
      rw (stored-db w (f w.db)) ((h w.db r ne).0 ∙ (k r ne).0, (h w.db r ne).1 ∙ (k r ne).1);
}

pub insert_room-elsewhere : (x : Room) (d : Db) → SameElsewhere x.id d (after d (insert_room x d))
unfolding insert_room
insert_room-elsewhere x d r ne = ground (arith, any-append_one (room_is r) d.rooms x)

pub insert_membership-elsewhere :
    (m : RoomMembership) (d : Db) → SameElsewhere m.room_id d (after d (insert_membership m d))
unfolding insert_membership
insert_membership-elsewhere m d r ne = ground (arith, count-append_one (owner_in r) d.memberships m)

pub upsert_membership-elsewhere :
    (m : RoomMembership) (d : Db) → SameElsewhere m.room_id d (after d (upsert_membership m d))
unfolding upsert_membership insert_membership
upsert_membership-elsewhere m d r ne = ground (arith, count-append_one (owner_in r) d.memberships m)

pub set_role-elsewhere :
    (room user : ℕ) (role : RoomRole) (d : Db)
    → SameElsewhere room d (after d (set_role room user role d))
unfolding set_role
set_role-elsewhere room user role d r ne = ground (
  arith,
  count-update_where (owner_in r) (member_is room user)
      (λ (m : RoomMembership). record m { role = role }) d.memberships (λ m e. ground arith),
)

pub delete_membership-elsewhere :
    (room user : ℕ) (d : Db) → SameElsewhere room d (after d (delete_membership room user d))
unfolding delete_membership
delete_membership-elsewhere room user d r ne = ground (
  arith,
  count-delete_where (owner_in r) (member_is room user) d.memberships (λ m e. ground arith),
)

pub update_room-elsewhere :
    (room : ℕ) (f : Room → Room) (d : Db)
    → ((x : Room) → (f x).id ≡ x.id)
    → SameElsewhere room d (after d (update_room room f d))
unfolding update_room
update_room-elsewhere room f d same r ne =
    ground
      (arith, any-update_where (room_is r) (room_is room) f d.rooms (λ x e. ground (arith, same x)))

-- At the end of a transaction the trigger has looked at the room, and the others are as before.
pub committed :
    (room : ℕ) (d : Db) (v : World)
    → ((r : ℕ) → any (room_is r) d.rooms ≡ true → count (owner_in r) d.memberships ≡ 1)
    → SameElsewhere room d v.db
    → has_exactly_one_owner room v.db ≡ true
    → OneOwner v
unfolding has_exactly_one_owner
committed room d v before same checked r there = elim (Bool-cases (r == room)) [
  | inl here ↦ ground arith
  | inr elsewhere ↦ ground (arith, same r (λ e. ground arith), before r)
]

rolled_back-OneOwner :
    {A : Type 0} (room : ℕ) (w : World) (r : Outcome A × World)
    → OneOwner w
    → SameElsewhere room w.db r.1.db
    → OneOwner (rolled_back w (resume (commit room) r)).1
unfolding rolled_back resume commit
rolled_back-OneOwner room w (done a, v) before same =
    elim (Bool-cases (has_exactly_one_owner room v.db)) [
      | inl kept ↦ rw (kept, rolled_back) (committed room w.db v before same kept)
      | inr broken ↦ rw (broken, rolled_back) before
    ]
rolled_back-OneOwner room w (thrown e, v) before same = before

pub room_transaction-OneOwner :
    {A : Type 0} (room : ℕ) (m : Action A)
    → Confined room m
    → Keeps OneOwner (room_transaction room m)
unfolding transaction ◌>>=◌ room_transaction
room_transaction-OneOwner room m confined = record {
  keeps = λ w before.
      rolled_back-OneOwner room w (m w) before ((confined w.db).keeps w (λ r ne. (refl, refl)));
}
