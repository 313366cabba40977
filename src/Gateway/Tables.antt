-- ===== src/Gateway/Tables.antt =====
-- What the gateway does to presence and what it publishes changes no table.
use study_room_sdk.Base.{ℕ, Bool, false, List, [], ◌∷◌, Option, none, some}
use study_room_sdk.Domain.{Db, Redis, Room, Identity, PresenceValue}
use study_room_sdk.Domain.World.{World}
use study_room_sdk.Domain.Wire.{RoomDto, MemberDto, Emission}
use study_room_sdk.Service.Keeps.{Keeps, bind-Keeps, then-Keeps, plain-Keeps, return_value-Keeps}
use study_room_sdk.Presence.{
  change_redis, write_presence, register, set_away, refresh, refresh_found, unregister,
  statuses_for,
}
use study_room_sdk.Realtime.{emit, publish_room, evict_user}
use study_room_sdk.Rooms.Defs.{to_room_dto, snapshot, snapshot_found}
use study_room_sdk.Sockets.{
  Socket, publish_member, publish_found, publish_presence, leave_rooms, refresh_rooms,
}

module _ (P : Db → Type 0) where
  abbrev Kept : World → Type 0
  Kept w = P w.db

  change_redis-Kept : (f : Redis → Redis) → Keeps Kept (change_redis f)
  unfolding change_redis
  change_redis-Kept f = plain-Keeps λ w h. h

  emit-Kept : (e : Emission) → Keeps Kept (emit e)
  unfolding emit
  emit-Kept e = plain-Keeps λ w h. h

  pub evict_user-Kept : (app room user : ℕ) → Keeps Kept (evict_user app room user)
  unfolding evict_user
  evict_user-Kept app room user = emit-Kept _

  write_presence-Kept :
      (ttl now app room user socket : ℕ) (is_away : Bool)
      → Keeps Kept (write_presence ttl now app room user socket is_away)
  unfolding write_presence
  write_presence-Kept ttl now app room user socket is_away =
      then-Keeps (change_redis-Kept _) (then-Keeps (change_redis-Kept _) (change_redis-Kept _))

  pub register-Kept :
      (ttl now app room user socket : ℕ) → Keeps Kept (register ttl now app room user socket)
  unfolding register
  register-Kept ttl now app room user socket =
      write_presence-Kept ttl now app room user socket false

  pub set_away-Kept :
      (ttl now app room user socket : ℕ) (is_away : Bool)
      → Keeps Kept (set_away ttl now app room user socket is_away)
  unfolding set_away
  set_away-Kept ttl now app room user socket is_away =
      write_presence-Kept ttl now app room user socket is_away

  pub unregister-Kept : (app room socket : ℕ) → Keeps Kept (unregister app room socket)
  unfolding unregister
  unregister-Kept app room socket = then-Keeps (change_redis-Kept _) (change_redis-Kept _)

  refresh_found-Kept :
      (ttl now app room socket : ℕ) (o : Option PresenceValue)
      → Keeps Kept (refresh_found ttl now app room socket o)
  unfolding refresh_found
  refresh_found-Kept ttl now app room socket none = change_redis-Kept _
  refresh_found-Kept ttl now app room socket (some v) =
      then-Keeps (change_redis-Kept _) (change_redis-Kept _)

  refresh-Kept : (ttl now app room socket : ℕ) → Keeps Kept (refresh ttl now app room socket)
  unfolding refresh
  refresh-Kept ttl now app room socket =
      plain-Keeps λ w h. (refresh_found-Kept ttl now app room socket _).keeps w h

  statuses_for-Kept : (now app room : ℕ) (us : List ℕ) → Keeps Kept (statuses_for now app room us)
  unfolding statuses_for
  statuses_for-Kept now app room [] = plain-Keeps λ w h. h
  statuses_for-Kept now app room (u ∷ us) = plain-Keeps λ w h. h

  to_room_dto-Kept : (now : ℕ) (r : Room) (d : Db) → Keeps Kept (to_room_dto now r d)
  unfolding to_room_dto
  to_room_dto-Kept now r d =
      bind-Keeps (statuses_for-Kept now _ _ _) λ statuses. return_value-Keeps _

  snapshot_found-Kept :
      (now : ℕ) (w : World) (o : Option Room) → P w.db → P (snapshot_found now w o).1.db
  unfolding snapshot_found
  snapshot_found-Kept now w none h = h
  snapshot_found-Kept now w (some r) h =
      (bind-Keeps (to_room_dto-Kept now r w.db) (λ dto. return_value-Keeps _)).keeps w h

  publish_member-Kept :
      (app room : ℕ) (dto : RoomDto) (o : Option MemberDto)
      → Keeps Kept (publish_member app room dto o)
  unfolding publish_member publish_room
  publish_member-Kept app room dto none = return_value-Keeps tt
  publish_member-Kept app room dto (some m) = emit-Kept _

  publish_found-Kept :
      (app room user : ℕ) (o : Option RoomDto) → Keeps Kept (publish_found app room user o)
  unfolding publish_found
  publish_found-Kept app room user none = return_value-Keeps tt
  publish_found-Kept app room user (some dto) = publish_member-Kept app room dto _

  pub publish_presence-Kept :
      (now app room user : ℕ) → Keeps Kept (publish_presence now app room user)
  unfolding publish_presence snapshot
  publish_presence-Kept now app room user =
      bind-Keeps (plain-Keeps λ w h. snapshot_found-Kept now w _ h)
        (publish_found-Kept app room user)

  pub leave_rooms-Kept :
      (now socket : ℕ) (identity : Identity) (rooms : List ℕ)
      → Keeps Kept (leave_rooms now socket identity rooms)
  unfolding leave_rooms
  leave_rooms-Kept now socket identity [] = return_value-Keeps tt
  leave_rooms-Kept now socket identity (room ∷ rooms) =
      then-Keeps (unregister-Kept _ room socket) (
        then-Keeps (publish_presence-Kept now _ room _)
          (leave_rooms-Kept now socket identity rooms))

  pub refresh_rooms-Kept :
      (ttl now : ℕ) (client : Socket) (rooms : List ℕ)
      → Keeps Kept (refresh_rooms ttl now client rooms)
  unfolding refresh_rooms
  refresh_rooms-Kept ttl now client [] = return_value-Keeps tt
  refresh_rooms-Kept ttl now client (room ∷ rooms) =
      then-Keeps (refresh-Kept ttl now _ room client.id) (refresh_rooms-Kept ttl now client rooms)
