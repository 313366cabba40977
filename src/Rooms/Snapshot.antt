-- ===== src/Rooms/Snapshot.antt =====
-- Showing a room: it always succeeds, shows the room's row, and changes nothing but the index of
-- presence keys.
use study_room_sdk.Base.{ℕ, ◌≡◌, refl, List, [], ◌∷◌, map, Option, none, some, find?}
use study_room_sdk.Domain.{Db, Redis, Room, Identity}
use study_room_sdk.Domain.World.{World}
use study_room_sdk.Domain.Wire.{RoomDto}
use study_room_sdk.Service.Monad.{done, Action, actions, resume}
use study_room_sdk.Service.Keeps.{
  Keeps, bind-Keeps, or_throw-Keeps, plain-Keeps, return_value-Keeps,
}
use study_room_sdk.Presence.{statuses_for, remove_user, change_redis}
use study_room_sdk.Rooms.Defs.{
  live_room, members_of, to_member_dto, to_room_dto, snapshot, snapshot_found,
}
use study_room_sdk.Rooms.Methods.{updated_room}

-- The action returns a value and changes Redis at most.
abbrev pub OnlyRedis : {A : Type 0} → World → Action A → Type 0
OnlyRedis {A} w m = (a : A) × (r : Redis) × (m w ≡ (done a, record w { redis = r }))

statuses_for-OnlyRedis :
    (now app room : ℕ) (users : List ℕ) (w : World) → OnlyRedis w (statuses_for now app room users)
unfolding statuses_for
statuses_for-OnlyRedis now app room [] w = (_, w.redis, refl)
statuses_for-OnlyRedis now app room (u ∷ us) w = (_, _, refl)

-- The room of which a value shows the row.
abbrev pub Shows : Room → RoomDto → Type 0
Shows r dto = (dto.id ≡ r.id) × (dto.version ≡ r.version) × (dto.title ≡ r.title)

to_room_dto_lem :
    (now : ℕ) (r : Room) (d : Db) (w : World)
    → (dto : RoomDto) × (redis : Redis) × (to_room_dto now r d w
        ≡ (done dto, record w { redis = redis }))
      × Shows r dto
unfolding actions resume to_room_dto
to_room_dto_lem now r d w =
    let users : List ℕ = map (λ m. m.user_id) (members_of r.id d) in
    let (s, redis, e) = statuses_for-OnlyRedis now r.app_id r.id users w in
    (
      record {
        id = r.id;
        app_id = r.app_id;
        title = r.title;
        version = r.version;
        members = map (to_member_dto d s) (members_of r.id d);
      },
      redis,
      rw e refl,
      (refl, refl, refl),
    )

pub updated_room_lem :
    (now : ℕ) (identity : Identity) (room : ℕ) (w : World) {r : Room}
    → find? (live_room identity.app_id room) w.db.rooms ≡ some r
    → (dto : RoomDto) × (redis : Redis) × (updated_room now identity room w
        ≡ (done dto, record w { redis = redis }))
      × Shows r dto
unfolding actions resume updated_room snapshot snapshot_found
updated_room_lem now identity room w {r} e =
    let (dto, redis, k, s) = to_room_dto_lem now r w.db w in (dto, redis, rw (e, k) refl, s)

pub remove_user_lem :
    (now app room user : ℕ) (w : World)
    → (redis : Redis) × (remove_user now app room user w ≡ (done tt, record w { redis = redis }))
unfolding actions resume remove_user change_redis
remove_user_lem now app room user w = (_, refl)

-- What does not look at Redis is kept by showing a room and by forgetting a user's presence.
module _ (P : World → Type 0)
    (apart : (w : World) (r : Redis) → P w → P (record w { redis = r })) where
  statuses_for-Keeps :
      (now app room : ℕ) (users : List ℕ) → Keeps P (statuses_for now app room users)
  unfolding statuses_for
  statuses_for-Keeps now app room [] = plain-Keeps λ w h. h
  statuses_for-Keeps now app room (u ∷ us) = plain-Keeps λ w h. apart w _ h

  pub remove_user-Keeps : (now app room user : ℕ) → Keeps P (remove_user now app room user)
  remove_user-Keeps now app room user =
      plain-Keeps λ w h. let (r, e) = remove_user_lem now app room user w in rw e (apart w r h)

  pub to_room_dto-Keeps : (now : ℕ) (r : Room) (d : Db) → Keeps P (to_room_dto now r d)
  unfolding to_room_dto
  to_room_dto-Keeps now r d =
      bind-Keeps (statuses_for-Keeps now r.app_id r.id _) λ s. return_value-Keeps _

  snapshot_found-Keeps :
      (now : ℕ) (w : World) (o : Option Room) → P w → P (snapshot_found now w o).1
  unfolding snapshot_found
  snapshot_found-Keeps now w none h = h
  snapshot_found-Keeps now w (some r) h =
      (bind-Keeps (to_room_dto-Keeps now r w.db) λ dto. return_value-Keeps _).keeps w h

  pub snapshot-Keeps : (now app room : ℕ) → Keeps P (snapshot now app room)
  unfolding snapshot
  snapshot-Keeps now app room = plain-Keeps λ w h. snapshot_found-Keeps now w _ h

  pub updated_room-Keeps :
      (now : ℕ) (identity : Identity) (room : ℕ) → Keeps P (updated_room now identity room)
  unfolding updated_room
  updated_room-Keeps now identity room =
      bind-Keeps (snapshot-Keeps now identity.app_id room) λ o. or_throw-Keeps o _
