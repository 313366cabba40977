-- ===== src/Gateway/History.antt =====
-- Histories of an instance: what its sockets ask for and what it is told, in any order, while
-- requests change the world, also between the check of a membership and what follows it.
use study_room_sdk.Base.{
  ℕ, ◌≡◌, refl, inl, inr, arith, Bool, true, false, ◌&&◌, [], Option, ◌==◌, Bool-cases, any, All,
  All-weaken,
}
use study_room_sdk.Domain.{Identity, Text, Db}
use study_room_sdk.Domain.World.{World}
use study_room_sdk.Domain.Wire.{room_topic}
use study_room_sdk.Rooms.Defs.{is_member, membership_in}
use study_room_sdk.Gateway
use study_room_sdk.Gateway.{Instance}
use study_room_sdk.Sockets.{Socket, has}
use study_room_sdk.Gateway.SocketIo.{Adapter}
use study_room_sdk.Gateway.Subscriptions.{OnlyPermitted, Fresh}
use study_room_sdk.Gateway.Eviction.{all_but, evicted-OnlyPermitted}
use study_room_sdk.Gateway.Steps.{
  Permits, Holds, authorize-Holds, handle_connection-Holds, handle_disconnect-Holds,
  subscribe_room-Holds, unsubscribe_room-Holds, set_presence_away-Holds, refresh_presence-Holds,
  evict-Holds, handle_room_eviction-Holds, handle_room_eviction-Permits,
  on_application_change-Holds,
}

module _ (adapter : Adapter) (who : ℕ → Identity) (may : Identity → ℕ → Bool) where
  -- From the first instance to the second; a socket that asks has the identity of its identifier.
  pub data History : Instance adapter → Instance adapter → Type 0 where
    start : {s : Instance adapter} → History s s
    requests :
        {s t : Instance adapter} (w : World)
        → History s t
        → Permits may w.db
        → History s (record t { world = w })
    authorizes :
        {s t : Instance adapter} (verify : Text → Option Identity) (socket : ℕ)
        (token : Option Text)
        → History s t
        → History s (Gateway.authorize adapter verify socket token t).1
    connects :
        {s t : Instance adapter} (socket : ℕ)
        → History s t
        → Fresh adapter who may socket t.topics
        → History s (Gateway.handle_connection adapter socket (who socket) t)
    disconnects :
        {s t : Instance adapter} (now : ℕ) (client : Socket)
        → History s t
        → History s (Gateway.handle_disconnect adapter now client t)
    subscribes :
        {s t : Instance adapter} (ttl now : ℕ) (others : Instance adapter → Instance adapter)
        (client : Socket) (body : Option ℕ)
        → History s t
        → client.identity ≡ who client.id
        → History t (others t)
        → History s (Gateway.subscribe_room adapter ttl now others client body t).1
    unsubscribes :
        {s t : Instance adapter} (now : ℕ) (client : Socket) (body : Option ℕ)
        → History s t
        → client.identity ≡ who client.id
        → History s (Gateway.unsubscribe_room adapter now client body t).1
    sets_away :
        {s t : Instance adapter} (ttl now : ℕ) (others : Instance adapter → Instance adapter)
        (client : Socket) (body : Option ℕ) (is_away : Option Bool)
        → History s t
        → History t (others t)
        → History s (Gateway.set_presence_away adapter ttl now others client body is_away t).1
    refreshes :
        {s t : Instance adapter} (ttl now : ℕ) (client : Socket)
        → History s t
        → History s (Gateway.refresh_presence adapter ttl now client t)
    evicts :
        {s t : Instance adapter} (app room user : ℕ)
        → History s t
        → History s (Gateway.evict adapter app room user t)
    hears_eviction :
        {s t : Instance adapter} (now app room user : ℕ)
        → History s t
        → History s (Gateway.handle_room_eviction adapter now app room user t)
    hears_application :
        {s t : Instance adapter} (now app : ℕ) (enabled : Bool)
        → History s t
        → History s (Gateway.on_application_change adapter now app enabled t)

  pub history-Holds :
      {s t : Instance adapter} → History s t → Holds adapter who may s → Holds adapter who may t
  history-Holds start h = h
  history-Holds (requests w past p) h = ((history-Holds past h).0, p)
  history-Holds (authorizes verify socket token past) h =
      authorize-Holds adapter who may verify socket token _ (history-Holds past h)
  history-Holds (connects socket past f) h =
      handle_connection-Holds adapter who may socket _ f (history-Holds past h)
  history-Holds (disconnects now client past) h =
      handle_disconnect-Holds adapter who may now client _ (history-Holds past h)
  history-Holds (subscribes ttl now others client body past w between) h =
      let k = history-Holds past h in
      subscribe_room-Holds adapter who may ttl now others client body _ w k
        (history-Holds between k)
  history-Holds (unsubscribes now client body past w) h =
      unsubscribe_room-Holds adapter who may now client body _ w (history-Holds past h)
  history-Holds (sets_away ttl now others client body is_away past between) h =
      let k = history-Holds past h in
      set_presence_away-Holds adapter who may ttl now others client body is_away _ k
        (history-Holds between k)
  history-Holds (refreshes ttl now client past) h =
      refresh_presence-Holds adapter who may ttl now client _ (history-Holds past h)
  history-Holds (evicts app room user past) h =
      evict-Holds adapter who may app room user _ (history-Holds past h)
  history-Holds (hears_eviction now app room user past) h =
      handle_room_eviction-Holds adapter who may now app room user _ (history-Holds past h)
  history-Holds (hears_application now app enabled past) h =
      on_application_change-Holds adapter who may now app enabled _ (history-Holds past h)

module _ (adapter : Adapter) where
  -- The connected sockets that get the events of a room are sockets of the application that have the
  -- room in their set and whose user may have it.
  abbrev pub OnlyTo : (Identity → ℕ → Bool) → Instance adapter → Type 0
  OnlyTo may s =
      All
        (λ c.
          (app room : ℕ)
          → adapter.is_in c.id (room_topic app room) s.topics ≡ true
          → (app ≡ c.identity.app_id)
            × (has room c.joined_room_ids ≡ true)
            × (may c.identity room ≡ true))
        s.sockets

-- Without a membership of the user in the room, every member of a room is another one.
no_membership-Permits :
    (app room user : ℕ) (d : Db)
    → any (membership_in app room user d) d.memberships ≡ false
    → Permits (all_but app room user) d
unfolding is_member
no_membership-Permits app room user d none identity r h =
    elim (Bool-cases (identity.app_id == app && identity.user_id == user && r == room)) [
      | inl e ↦
          let same_app : identity.app_id ≡ app = ground arith in
          let same_user : identity.user_id ≡ user = ground arith in
          let same_room : r ≡ room = ground arith in
          let k = rw (same_app, same_user, same_room) at h in ground (arith, k, none)
      | inr e ↦ ground (arith, e)
    ]

module _ (adapter : Adapter) (who : ℕ → Identity) where
  permitted-OnlyTo :
      (may : Identity → ℕ → Bool) (s : Instance adapter)
      → OnlyPermitted adapter who may s
      → OnlyTo adapter may s
  permitted-OnlyTo may s h =
      All-weaken _ _
        (λ c a app room k.
          let j = a.1 app room k in (ground arith, ground arith, a.2 room (ground arith)))
        s.sockets h

  -- If at every time only permitted users are members of rooms, then after any history of an
  -- instance, whatever happens between the check of a membership and what follows it, the connected
  -- sockets in the topic of a room have the room in their set, and their users are permitted. The
  -- history starts with no connected socket.
  pub history-OnlyTo :
      (may : Identity → ℕ → Bool) {s t : Instance adapter}
      → History adapter who may s t
      → s.sockets ≡ []
      → Permits may s.world.db
      → OnlyTo adapter may t
  history-OnlyTo may {s} {t} past none_connected permits =
      permitted-OnlyTo may t (history-Holds adapter who may past (rw none_connected tt, permits)).0

  -- After the message of an eviction has been heard while no subscription was under way, as long as
  -- the tables do not have the user as a member of the room, no connected socket of the user is in
  -- the room's topic, whatever else the instance does; the instance came about by any history that
  -- starts with no connected socket.
  pub evicted_stays_out :
      (now app room user : ℕ) {s t u : Instance adapter}
      → History adapter who (λ identity r. true) s t
      → s.sockets ≡ []
      → any (membership_in app room user t.world.db) t.world.db.memberships ≡ false
      → History adapter who
          (all_but app room user)
          (Gateway.handle_room_eviction adapter now app room user t)
          u
      → OnlyTo adapter (all_but app room user) u
  evicted_stays_out now app room user {s} {t} {u} before none_connected out after =
      let all : Identity → ℕ → Bool = λ identity r. true in
      let h = history-Holds adapter who all before (rw none_connected tt, λ i r k. refl) in
      permitted-OnlyTo (all_but app room user) u
        (history-Holds adapter who (all_but app room user) after (
          evicted-OnlyPermitted adapter app room user who all now t h.0,
          handle_room_eviction-Permits adapter who (all_but app room user) now app room user t
              (no_membership-Permits app room user t.world.db out),
        )).0
