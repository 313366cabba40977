-- ===== src/Gateway/Steps.antt =====
-- Each operation of the gateway keeps sockets out of the topics that their users may not have.
use study_room_sdk.Base.{
  ℕ, ◌≡◌, Bool, true, false, List, [], ◌∷◌, Option, none, some, Bool-cases, inl, inr, select,
}
use study_room_sdk.Domain.{Identity, Db, Text}
use study_room_sdk.Domain.Wire.{app_topic}
use study_room_sdk.Service.Keeps.{Keeps, then-Keeps}
use study_room_sdk.Service.Monad.{Action}
use study_room_sdk.Rooms.Defs.{is_member}
use study_room_sdk.Gateway
use study_room_sdk.Gateway.{Instance}
use study_room_sdk.Sockets.{Socket}
use study_room_sdk.Gateway.SocketIo.{Adapter}
use study_room_sdk.Gateway.Subscriptions.{
  OnlyPermitted, Fresh, subscribed-OnlyPermitted, unsubscribe_room-OnlyPermitted,
  evict-OnlyPermitted, handle_disconnect-OnlyPermitted, handle_connection-OnlyPermitted,
  authorize-OnlyPermitted,
}
use study_room_sdk.Gateway.Eviction.{handle_room_eviction-OnlyPermitted}
use study_room_sdk.Gateway.Tables.{
  register-Kept, set_away-Kept, unregister-Kept, publish_presence-Kept, leave_rooms-Kept,
  refresh_rooms-Kept, evict_user-Kept,
}

-- Every member of a room by the tables is a user who may have it.
abbrev pub Permits : (Identity → ℕ → Bool) → Db → Type 0
Permits may d =
    (identity : Identity) (room : ℕ) → is_member room identity d ≡ true → may identity room ≡ true

module _ (adapter : Adapter) (who : ℕ → Identity) (may : Identity → ℕ → Bool) where
  -- Nobody is in the topic of a room that the user may not have, and the tables have no such member.
  abbrev pub Holds : Instance adapter → Type 0
  Holds s = OnlyPermitted adapter who may s × Permits may s.world.db

  in_world-Holds :
      {m : Action (Unit {0})} (s : Instance adapter)
      → Keeps (λ w. Permits may w.db) m
      → Holds s
      → Holds (Gateway.in_world adapter m s)
  unfolding Gateway.in_world
  in_world-Holds s k h = (h.0, k.keeps s.world h.1)

  subscribed-Holds :
      (ttl now : ℕ) (client : Socket) (room : ℕ) (s : Instance adapter)
      → client.identity ≡ who client.id
      → may client.identity room ≡ true
      → Holds s
      → Holds (Gateway.subscribed adapter ttl now client room s)
  unfolding Gateway.subscribed Gateway.change_rooms Gateway.in_world
  subscribed-Holds ttl now client room s w m h = (
    subscribed-OnlyPermitted adapter who may ttl now client room s w m h.0,
    (then-Keeps (register-Kept (Permits may) _ _ _ _ _ _)
          (publish_presence-Kept (Permits may) _ _ _ _)).keeps
        s.world h.1,
  )

  pub subscribe_room-Holds :
      (ttl now : ℕ) (others : Instance adapter → Instance adapter) (client : Socket)
      (body : Option ℕ) (s : Instance adapter)
      → client.identity ≡ who client.id
      → Holds s
      → Holds (others s)
      → Holds (Gateway.subscribe_room adapter ttl now others client body s).1
  unfolding Gateway.subscribe_room
  subscribe_room-Holds ttl now others client none s w h k = h
  subscribe_room-Holds ttl now others client (some room) s w h k =
      elim (Bool-cases (is_member room client.identity s.world.db)) [
        | inl e ↦ rw e (subscribed-Holds ttl now client room (others s) w (h.1 _ room e) k)
        | inr e ↦ rw e k
      ]

  pub unsubscribe_room-Holds :
      (now : ℕ) (client : Socket) (body : Option ℕ) (s : Instance adapter)
      → client.identity ≡ who client.id
      → Holds s
      → Holds (Gateway.unsubscribe_room adapter now client body s).1
  unfolding Gateway.unsubscribe_room Gateway.change_rooms Gateway.in_world
  unsubscribe_room-Holds now client none s w h = h
  unsubscribe_room-Holds now client (some room) s w h = (
    unsubscribe_room-OnlyPermitted adapter who may now client (some room) s w h.0,
    (then-Keeps (unregister-Kept (Permits may) _ _ _)
          (publish_presence-Kept (Permits may) _ _ _ _)).keeps
        s.world h.1,
  )

  pub evict-Holds :
      (app room user : ℕ) (s : Instance adapter)
      → Holds s
      → Holds (Gateway.evict adapter app room user s)
  unfolding Gateway.evict Gateway.in_world
  evict-Holds app room user s h = (
    evict-OnlyPermitted adapter who may app room user s h.0,
    (evict_user-Kept (Permits may) app room user).keeps s.world h.1,
  )

  away-Holds :
      (ttl now : ℕ) (others : Instance adapter → Instance adapter) (client : Socket) (room : ℕ)
      (is_away : Bool) (s : Instance adapter)
      → Holds (others s)
      → Holds (Gateway.set_away_as_member adapter ttl now others client room is_away s).1
  unfolding Gateway.set_away_as_member
  away-Holds ttl now others client room is_away s k =
      elim (Bool-cases (is_member room client.identity s.world.db)) [
        | inl e ↦ rw e (
            in_world-Holds (others s)
              (then-Keeps (set_away-Kept (Permits may) _ _ _ _ _ _ _)
                (publish_presence-Kept (Permits may) _ _ _ _))
              k)
        | inr e ↦ rw e (evict-Holds _ room _ (others s) k)
      ]

  pub handle_disconnect-Holds :
      (now : ℕ) (client : Socket) (s : Instance adapter)
      → Holds s
      → Holds (Gateway.handle_disconnect adapter now client s)
  unfolding Gateway.handle_disconnect Gateway.in_world
  handle_disconnect-Holds now client s h = (
    handle_disconnect-OnlyPermitted adapter who may now client s h.0,
    (leave_rooms-Kept (Permits may) now client.id client.identity client.joined_room_ids).keeps
        s.world h.1,
  )

  disconnect_all-Holds :
      (now : ℕ) (cs : List Socket) (s : Instance adapter)
      → Holds s
      → Holds (Gateway.disconnect_all adapter now cs s)
  unfolding Gateway.disconnect_all
  disconnect_all-Holds now [] s h = h
  disconnect_all-Holds now (c ∷ cs) s h =
      disconnect_all-Holds now cs _ (handle_disconnect-Holds now c s h)

  pub on_application_change-Holds :
      (now app : ℕ) (enabled : Bool) (s : Instance adapter)
      → Holds s
      → Holds (Gateway.on_application_change adapter now app enabled s)
  unfolding Gateway.on_application_change Gateway.disconnect_app
  on_application_change-Holds now app true s h = h
  on_application_change-Holds now app false s h =
      disconnect_all-Holds now (select (λ c. adapter.is_in c.id (app_topic app) s.topics) s.sockets)
        s h

  pub refresh_presence-Holds :
      (ttl now : ℕ) (client : Socket) (s : Instance adapter)
      → Holds s
      → Holds (Gateway.refresh_presence adapter ttl now client s)
  unfolding Gateway.refresh_presence
  refresh_presence-Holds ttl now client s h =
      in_world-Holds s (refresh_rooms-Kept (Permits may) ttl now client _) h

  evict_if-Permits :
      (b : Bool) (app room : ℕ) (c : Socket) (s : Instance adapter)
      → Permits may s.world.db
      → Permits may (Gateway.evict_if adapter b app room c s).world.db
  unfolding Gateway.evict_if Gateway.evict_socket Gateway.in_world Gateway.change_rooms
  evict_if-Permits false app room c s h = h
  evict_if-Permits true app room c s h =
      (unregister-Kept (Permits may) app room c.id).keeps s.world h

  evict_sockets-Permits :
      (app room user : ℕ) (cs : List Socket) (s : Instance adapter)
      → Permits may s.world.db
      → Permits may (Gateway.evict_sockets adapter app room user cs s).1.world.db
  unfolding Gateway.evict_sockets
  evict_sockets-Permits app room user [] s h = h
  evict_sockets-Permits app room user (c ∷ cs) s h =
      evict_sockets-Permits app room user cs _ (evict_if-Permits _ app room c s h)

  published_if-Permits :
      (now app room user : ℕ) (r : Bool × Instance adapter)
      → Permits may r.1.world.db
      → Permits may (Gateway.published_if adapter now app room user r).world.db
  unfolding Gateway.published_if Gateway.in_world
  published_if-Permits now app room user (false, s) h = h
  published_if-Permits now app room user (true, s) h =
      (publish_presence-Kept (Permits may) now app room user).keeps s.world h

  pub handle_room_eviction-Permits :
      (now app room user : ℕ) (s : Instance adapter)
      → Permits may s.world.db
      → Permits may (Gateway.handle_room_eviction adapter now app room user s).world.db
  unfolding Gateway.handle_room_eviction
  handle_room_eviction-Permits now app room user s h =
      published_if-Permits now app room user _ (evict_sockets-Permits app room user s.sockets s h)

  pub handle_room_eviction-Holds :
      (now app room user : ℕ) (s : Instance adapter)
      → Holds s
      → Holds (Gateway.handle_room_eviction adapter now app room user s)
  handle_room_eviction-Holds now app room user s h = (
    handle_room_eviction-OnlyPermitted adapter app room user who may now s h.0,
    handle_room_eviction-Permits now app room user s h.1,
  )

  pub set_presence_away-Holds :
      (ttl now : ℕ) (others : Instance adapter → Instance adapter) (client : Socket)
      (body : Option ℕ) (is_away : Option Bool) (s : Instance adapter)
      → Holds s
      → Holds (others s)
      → Holds (Gateway.set_presence_away adapter ttl now others client body is_away s).1
  unfolding Gateway.set_presence_away
  set_presence_away-Holds ttl now others client none is_away s h k = h
  set_presence_away-Holds ttl now others client (some room) none s h k = h
  set_presence_away-Holds ttl now others client (some room) (some is_away) s h k =
      elim (Bool-cases (Gateway.is_subscribed adapter client.id room s)) [
        | inl e ↦ rw e (away-Holds ttl now others client room is_away s k)
        | inr e ↦ rw e h
      ]

  pub handle_connection-Holds :
      (socket : ℕ) (s : Instance adapter)
      → Fresh adapter who may socket s.topics
      → Holds s
      → Holds (Gateway.handle_connection adapter socket (who socket) s)
  unfolding Gateway.handle_connection
  handle_connection-Holds socket s f h =
      (handle_connection-OnlyPermitted adapter who may socket s f h.0, h.1)

  let_in-Permits :
      (socket : ℕ) (o : Option Identity) (s : Instance adapter)
      → Permits may s.world.db
      → Permits may (Gateway.let_in adapter socket o s).1.world.db
  unfolding Gateway.let_in
  let_in-Permits socket none s h = h
  let_in-Permits socket (some identity) s h = h

  pub authorize-Holds :
      (verify : Text → Option Identity) (socket : ℕ) (token : Option Text) (s : Instance adapter)
      → Holds s
      → Holds (Gateway.authorize adapter verify socket token s).1
  unfolding Gateway.authorize
  authorize-Holds verify socket token s h = (
    authorize-OnlyPermitted adapter who may verify socket token s h.0,
    let_in-Permits socket _ s h.1,
  )
