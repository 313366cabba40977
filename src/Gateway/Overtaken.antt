-- ===== src/Gateway/Overtaken.antt =====
-- A subscription that a removal overtakes.
use study_room_sdk.Base.{ℕ, ◌≡◌, refl, true, ==_refl, arith, some}
use study_room_sdk.Domain.{Db}
use study_room_sdk.Domain.Wire.{room_topic}
use study_room_sdk.Service.Keeps.{then-Keeps}
use study_room_sdk.Rooms.Defs.{is_member}
use study_room_sdk.Gateway
use study_room_sdk.Gateway.{Instance}
use study_room_sdk.Sockets.{Socket, ok}
use study_room_sdk.Gateway.SocketIo.{Adapter}
use study_room_sdk.Gateway.Tables.{register-Kept, publish_presence-Kept}

module _ (adapter : Adapter) where
  -- A subscription whose check found the user a member ends in the room's topic, whatever happened
  -- after the check: also when by then the user is no member of the room any more and the message of
  -- the eviction has been heard.
  pub subscribe_overtaken :
      (ttl now : ℕ) (others : Instance adapter → Instance adapter) (client : Socket) (room : ℕ)
      (s : Instance adapter)
      → is_member room client.identity s.world.db ≡ true
      → let (reply, t) = Gateway.subscribe_room adapter ttl now others client (some room) s in
        (reply ≡ ok)
        × (adapter.is_in client.id (room_topic client.identity.app_id room) t.topics ≡ true)
        × (is_member room client.identity t.world.db
            ≡ is_member room client.identity (others s).world.db)
  unfolding Gateway.subscribe_room Gateway.subscribed Gateway.in_world Gateway.change_rooms
  subscribe_overtaken ttl now others client room s h =
      let app = client.identity.app_id in
      let user = client.identity.user_id in
      let u = others s in
      let Same : Db → Type 0 =
        λ d. is_member room client.identity d ≡ is_member room client.identity u.world.db in
      let told =
        then-Keeps (register-Kept Same ttl now app room user client.id)
          (publish_presence-Kept Same now app room user) in
      rw h (
        refl,
        rw adapter.is_in-join (ground (arith, ==_refl client.id, ==_refl app, ==_refl room)),
        told.keeps u.world refl,
      )
