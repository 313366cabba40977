-- ===== src/Gateway.antt =====
-- server/src/realtime/realtime.gateway.ts: the sockets of one instance of the server. `others` is
-- what happens on the instance between the check of a membership and what follows it.
pub mod SocketIo
pub mod Subscriptions
pub mod Tables
pub mod Eviction
pub mod Steps
pub mod History
pub mod Expiry
pub mod Overtaken
use study_room_sdk.Base.{
  ℕ, String, ◌+◌, ◌*◌, Bool, true, false, not, ◌&&◌, ◌||◌, List, [], ◌∷◌, ◌++◌, Option, none, some,
  ◌==◌, if◌then◌else◌, find?, any, select, update_where, delete_where,
}
use study_room_sdk.Domain.{Text, Identity}
use study_room_sdk.Domain.World.{World}
use study_room_sdk.Domain.Wire.{
  RoomDto, MemberDto, member_presence_updated, Topic, room_topic, user_topic, app_topic,
}
use study_room_sdk.Service.Monad.{Action, ◌>>=◌, ◌>>◌, return_value}
use study_room_sdk.Realtime.{publish_room, evict_user}
use study_room_sdk.Rooms.Defs.{snapshot, is_member}
use study_room_sdk.Presence.{register, set_away, refresh, unregister}
use study_room_sdk.Text.{trim}
use SocketIo.{Adapter}
use study_room_sdk.Sockets.{
  Socket, Reply, room_required, away_required, membership_required, subscription_required, has, add,
  remove, publish_member, publish_found, publish_presence, leave_rooms, refresh_rooms, is_evicted,
  verified, identity_from, ok, refused,
}

module _ (adapter : Adapter) where
  -- The sockets in the order of their connection, the topics that they have joined, and the world.
  pub record Instance : Type 0 where
    pub sockets : List Socket
    pub topics : adapter.State
    pub world : World

  unfoldable pub in_world : Action (Unit {0}) → Instance → Instance
  in_world m s = record s { world = (m s.world).1 }

  -- What a handler does to the set of rooms of a socket, if the socket is still connected.
  unfoldable pub change_rooms : ℕ → (List ℕ → List ℕ) → Instance → Instance
  change_rooms socket f s = record s {
    sockets =
        update_where (λ c. c.id == socket) (λ c. record c { joined_room_ids = f c.joined_room_ids })
          s.sockets;
  }

  unfoldable pub join_topics : ℕ → Identity → adapter.State → adapter.State
  join_topics socket identity t =
      adapter.join socket (app_topic identity.app_id)
        (adapter.join socket (user_topic identity.app_id identity.user_id) t)

  unfoldable pub let_in : ℕ → Option Identity → Instance → Option Identity × Instance
  let_in socket none s = (none, s)
  let_in socket (some identity) s =
      (some identity, record s { topics = join_topics socket identity s.topics })

  -- The middleware of `afterInit`, with `AuthService.verifyUserToken`: without an identity the
  -- connection is refused with `Unauthorized`.
  unfoldable pub authorize :
      (Text → Option Identity) → ℕ → Option Text → Instance → Option Identity × Instance
  unfolding let_in
  authorize verify socket token s = let_in socket (identity_from verify token) s

  -- `handleConnection`; the timers are in Gateway.Expiry
  unfoldable pub handle_connection : ℕ → Identity → Instance → Instance
  unfolding join_topics
  handle_connection socket identity s = record s {
    sockets = s.sockets ++ record { id = socket; identity = identity; joined_room_ids = [] } ∷ [];
    topics = join_topics socket identity s.topics;
  }

  -- A disconnection: Socket.IO forgets the socket, then `handleDisconnect`
  unfoldable pub handle_disconnect : ℕ → Socket → Instance → Instance
  unfolding in_world leave_rooms
  handle_disconnect now client s =
      in_world (leave_rooms now client.id client.identity client.joined_room_ids) (record s {
        sockets = delete_where (λ c. c.id == client.id) s.sockets;
        topics = adapter.leave_all client.id s.topics;
      })

  -- What `subscribeRoom` does for a member
  unfoldable pub subscribed : ℕ → ℕ → Socket → ℕ → Instance → Instance
  unfolding in_world change_rooms publish_presence
  subscribed ttl now client room s =
      let app = client.identity.app_id in
      let user = client.identity.user_id in
      in_world (register ttl now app room user client.id >> publish_presence now app room user) (
        change_rooms client.id (add room)
          (record s { topics = adapter.join client.id (room_topic app room) s.topics }))

  -- `subscribeRoom`, for a body that may lack the room
  unfoldable pub subscribe_room :
      ℕ → ℕ → (Instance → Instance) → Socket → Option ℕ → Instance → Reply × Instance
  unfolding subscribed
  subscribe_room ttl now others client none s = (room_required, s)
  subscribe_room ttl now others client (some room) s =
      if is_member room client.identity s.world.db
      then (ok, subscribed ttl now client room (others s))
      else (membership_required, others s)

  -- `unsubscribeRoom`
  unfoldable pub unsubscribe_room : ℕ → Socket → Option ℕ → Instance → Reply × Instance
  unfolding in_world change_rooms publish_presence
  unsubscribe_room now client none s = (room_required, s)
  unsubscribe_room now client (some room) s =
      let app = client.identity.app_id in
      let t = change_rooms client.id (remove room) s in
      (
        ok,
        in_world
            (unregister app room client.id >> publish_presence now app room client.identity.user_id)
            (record t { topics = adapter.leave client.id (room_topic app room) t.topics }),
      )

  abbrev pub is_subscribed : ℕ → ℕ → Instance → Bool
  is_subscribed socket room s = any (λ c. c.id == socket && has room c.joined_room_ids) s.sockets

  -- `RealtimePublisher.evictUser` on this instance: the sockets leave the topic at once, and the
  -- message on the control channel is among the emissions.
  unfoldable pub evict : ℕ → ℕ → ℕ → Instance → Instance
  unfolding in_world
  evict app room user s = in_world (evict_user app room user) (record s {
    topics = adapter.sockets_leave (user_topic app user) (room_topic app room) s.topics;
  })

  unfoldable pub set_away_as_member :
      ℕ → ℕ → (Instance → Instance) → Socket → ℕ → Bool → Instance → Reply × Instance
  unfolding in_world evict publish_presence
  set_away_as_member ttl now others client room is_away s =
      let app = client.identity.app_id in
      let user = client.identity.user_id in
      if is_member room client.identity s.world.db
      then (
        ok,
        in_world
            (set_away ttl now app room user client.id is_away >> publish_presence now app room user)
            (others s),
      )
      else (membership_required, evict app room user (others s))

  -- `setAway`, for a body that may lack the room or the flag
  unfoldable pub set_presence_away :
      ℕ → ℕ → (Instance → Instance) → Socket → Option ℕ → Option Bool → Instance → Reply × Instance
  unfolding set_away_as_member
  set_presence_away ttl now others client (some room) (some is_away) s =
      if is_subscribed client.id room s
      then set_away_as_member ttl now others client room is_away s
      else (subscription_required, s)
  set_presence_away ttl now others client _ _ s = (away_required, s)

  -- `refreshPresence`
  unfoldable pub refresh_presence : ℕ → ℕ → Socket → Instance → Instance
  unfolding in_world refresh_rooms
  refresh_presence ttl now client s =
      in_world (refresh_rooms ttl now client client.joined_room_ids) s

  -- What the loop of `handleRoomEviction` does to one socket
  unfoldable pub evict_socket : ℕ → ℕ → Socket → Instance → Instance
  unfolding in_world change_rooms
  evict_socket app room c s =
      let t = change_rooms c.id (remove room) s in
      in_world (unregister app room c.id)
        (record t { topics = adapter.leave c.id (room_topic app room) t.topics })

  unfoldable pub evict_if : Bool → ℕ → ℕ → Socket → Instance → Instance
  unfolding evict_socket
  evict_if false app room c s = s
  evict_if true app room c s = evict_socket app room c s

  -- The loop, with the flag `evictedConnection`
  unfoldable pub evict_sockets : ℕ → ℕ → ℕ → List Socket → Instance → Bool × Instance
  unfolding evict_if
  evict_sockets app room user [] s = (false, s)
  evict_sockets app room user (c ∷ cs) s =
      let evicted = is_evicted app room user c in
      let (rest, t) = evict_sockets app room user cs (evict_if evicted app room c s) in
      (evicted || rest, t)

  unfoldable pub published_if : ℕ → ℕ → ℕ → ℕ → Bool × Instance → Instance
  unfolding in_world publish_presence
  published_if now app room user (false, s) = s
  published_if now app room user (true, s) = in_world (publish_presence now app room user) s

  -- `handleRoomEviction`
  unfoldable pub handle_room_eviction : ℕ → ℕ → ℕ → ℕ → Instance → Instance
  unfolding evict_sockets published_if
  handle_room_eviction now app room user s =
      published_if now app room user (evict_sockets app room user s.sockets s)

  unfoldable pub disconnect_all : ℕ → List Socket → Instance → Instance
  unfolding handle_disconnect
  disconnect_all now [] s = s
  disconnect_all now (c ∷ cs) s = disconnect_all now cs (handle_disconnect now c s)

  -- `RealtimePublisher.disconnectApp`, which the message of a disabled application leads to
  unfoldable pub disconnect_app : ℕ → ℕ → Instance → Instance
  unfolding disconnect_all
  disconnect_app now app s =
      disconnect_all now (select (λ c. adapter.is_in c.id (app_topic app) s.topics) s.sockets) s

  -- The handler of `study-room:applications` in `afterInit`
  unfoldable pub on_application_change : ℕ → ℕ → Bool → Instance → Instance
  unfolding disconnect_app
  on_application_change now app true s = s
  on_application_change now app false s = disconnect_app now app s
