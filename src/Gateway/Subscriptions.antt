-- ===== src/Gateway/Subscriptions.antt =====
-- The set of rooms that a socket carries and the topics that it has joined: every handler keeps the
-- two in step.
use study_room_sdk.Base.{
  ℕ, ◌≡◌, refl, sym, ap, ◌∙◌, inl, inr, Bool, true, false, not, ◌&&◌, ◌||◌, List, [], ◌∷◌, arith,
  Option, none, some, ◌==◌, if◌then◌else◌, Bool-cases, any, delete_where, update_where,
  any-append_one, All, All-weaken, All-update_where, All-delete_where, All-append_one,
}
use study_room_sdk.Domain.{Identity, Text}
use study_room_sdk.Domain.Wire.{room_topic}
use study_room_sdk.Gateway
use study_room_sdk.Gateway.{Instance}
use study_room_sdk.Sockets.{Socket, has, add, remove}
use study_room_sdk.Gateway.SocketIo.{Adapter}

has-same : (r room : ℕ) (rooms : List ℕ) → room ≡ r → has room rooms ≡ true → has r rooms ≡ true
has-same r room rooms e h = rw (sym e) h

pub has-add : (r room : ℕ) (rooms : List ℕ) → has r (add room rooms) ≡ (room == r || has r rooms)
unfolding add any
has-add r room rooms =
    ground (arith, any-append_one (λ x. x == r) rooms room, has-same r room rooms)

pub has-remove :
    (r room : ℕ) (rooms : List ℕ) → has r (remove room rooms) ≡ (not (room == r) && has r rooms)
unfolding remove any delete_where
has-remove r room [] = ground arith
has-remove r room (x ∷ xs) = ground (arith, has-remove r room xs)

module _ (adapter : Adapter) (who : ℕ → Identity) (may : Identity → ℕ → Bool) where
  -- The identity is that of the identifier, the topics of rooms that the socket has joined are those
  -- of rooms in its set, in the user's application, and the user may have every room of the set.
  abbrev pub Agrees : adapter.State → Socket → Type 0
  Agrees topics c =
      (c.identity ≡ who c.id)
      × ((app room : ℕ)
          → adapter.is_in c.id (room_topic app room) topics ≡ true
          → (app == c.identity.app_id && has room c.joined_room_ids) ≡ true)
      × ((room : ℕ) → has room c.joined_room_ids ≡ true → may c.identity room ≡ true)

  abbrev pub OnlyPermitted : Instance adapter → Type 0
  OnlyPermitted s = All (Agrees s.topics) s.sockets

  same_identity :
      (c client : Socket)
      → client.identity ≡ who client.id
      → c.identity ≡ who c.id
      → c.id ≡ client.id
      → c.identity ≡ client.identity
  same_identity c client w a e = a ∙ rw e (sym w)

  added-permitted :
      (client : Socket) (room : ℕ) (c : Socket)
      → may client.identity room ≡ true
      → c.identity ≡ client.identity
      → ((r : ℕ) → has r c.joined_room_ids ≡ true → may c.identity r ≡ true)
      → (r : ℕ) → (room == r || has r c.joined_room_ids) ≡ true
      → may c.identity r ≡ true
  added-permitted client room c m same before r h = elim (Bool-cases (room == r)) [
    | inl e ↦ let q : room ≡ r = ground arith in rw (same, sym q) m
    | inr e ↦ before r (ground arith)
  ]

  joined-Agrees :
      (topics : adapter.State) (client : Socket) (room : ℕ)
      → client.identity ≡ who client.id
      → may client.identity room ≡ true
      → (c : Socket) → Agrees topics c
      → Agrees (adapter.join client.id (room_topic client.identity.app_id room) topics) (
          if c.id == client.id
          then record c { joined_room_ids = add room c.joined_room_ids }
          else c)
  joined-Agrees topics client room w m c a = elim (Bool-cases (c.id == client.id)) [
    | inl e ↦
        let same = same_identity c client w a.0 (ground arith) in
        let i = ap (λ i. i.app_id) same in
        rw e (
          a.0,
          (λ app r h.
              let k = rw (adapter.is_in-join, e) at h in
              rw (has-add r room c.joined_room_ids) (ground (arith, a.1 app r, i))),
          λ r h.
              added-permitted client room c m same a.2 r
                (rw (has-add r room c.joined_room_ids) at h),
        )
    | inr e ↦ rw e (a.0, (λ app r h. let k = rw (adapter.is_in-join, e) at h in a.1 app r k), a.2)
  ]

  pub subscribed-OnlyPermitted :
      (ttl now : ℕ) (client : Socket) (room : ℕ) (s : Instance adapter)
      → client.identity ≡ who client.id
      → may client.identity room ≡ true
      → OnlyPermitted s
      → OnlyPermitted (Gateway.subscribed adapter ttl now client room s)
  unfolding Gateway.subscribed Gateway.change_rooms Gateway.in_world
  subscribed-OnlyPermitted ttl now client room s w m h =
      All-update_where _ _ (λ c. c.id == client.id)
        (λ c. record c { joined_room_ids = add room c.joined_room_ids })
        (joined-Agrees s.topics client room w m) s.sockets h

  left-Agrees :
      (topics : adapter.State) (client : Socket) (room : ℕ)
      → client.identity ≡ who client.id
      → (c : Socket) → Agrees topics c
      → Agrees (adapter.leave client.id (room_topic client.identity.app_id room) topics) (
          if c.id == client.id
          then record c { joined_room_ids = remove room c.joined_room_ids }
          else c)
  left-Agrees topics client room w c a = elim (Bool-cases (c.id == client.id)) [
    | inl e ↦
        let i = ap (λ i. i.app_id) (same_identity c client w a.0 (ground arith)) in
        rw e (
          a.0,
          (λ app r h.
              let k = rw (adapter.is_in-leave, e) at h in
              rw (has-remove r room c.joined_room_ids) (ground (arith, a.1 app r, i))),
          λ r h. let k = rw (has-remove r room c.joined_room_ids) at h in a.2 r (ground arith),
        )
    | inr e ↦ rw e (a.0, (λ app r h. let k = rw (adapter.is_in-leave, e) at h in a.1 app r k), a.2)
  ]

  pub left-OnlyPermitted :
      (client : Socket) (room : ℕ) (s : Instance adapter)
      → client.identity ≡ who client.id
      → OnlyPermitted s
      → All (Agrees (adapter.leave client.id (room_topic client.identity.app_id room) s.topics)) (
          update_where
            (λ c. c.id == client.id)
            (λ c. record c { joined_room_ids = remove room c.joined_room_ids })
            s.sockets)
  left-OnlyPermitted client room s w h =
      All-update_where _ _ (λ c. c.id == client.id)
        (λ c. record c { joined_room_ids = remove room c.joined_room_ids })
        (left-Agrees s.topics client room w) s.sockets h

  pub unsubscribe_room-OnlyPermitted :
      (now : ℕ) (client : Socket) (body : Option ℕ) (s : Instance adapter)
      → client.identity ≡ who client.id
      → OnlyPermitted s
      → OnlyPermitted (Gateway.unsubscribe_room adapter now client body s).1
  unfolding Gateway.unsubscribe_room Gateway.change_rooms Gateway.in_world
  unsubscribe_room-OnlyPermitted now client none s w h = h
  unsubscribe_room-OnlyPermitted now client (some room) s w h = left-OnlyPermitted client room s w h

  pub evict-OnlyPermitted :
      (app room user : ℕ) (s : Instance adapter)
      → OnlyPermitted s
      → OnlyPermitted (Gateway.evict adapter app room user s)
  unfolding Gateway.evict Gateway.in_world
  evict-OnlyPermitted app room user s h =
      All-weaken _ _
        (λ c a. (
          a.0,
          (λ b r k. a.1 b r (let j = rw adapter.is_in-sockets_leave at k in ground arith)),
          a.2,
        ))
        s.sockets h

  pub handle_disconnect-OnlyPermitted :
      (now : ℕ) (client : Socket) (s : Instance adapter)
      → OnlyPermitted s
      → OnlyPermitted (Gateway.handle_disconnect adapter now client s)
  unfolding Gateway.handle_disconnect Gateway.in_world
  handle_disconnect-OnlyPermitted now client s h =
      All-delete_where _ _ (λ c. c.id == client.id)
        (λ c e a.
          (a.0, (λ b r k. a.1 b r (let j = rw adapter.is_in-leave_all at k in ground arith)), a.2))
        s.sockets h

  pub disconnect_all-OnlyPermitted :
      (now : ℕ) (cs : List Socket) (s : Instance adapter)
      → OnlyPermitted s
      → OnlyPermitted (Gateway.disconnect_all adapter now cs s)
  unfolding Gateway.disconnect_all
  disconnect_all-OnlyPermitted now [] s h = h
  disconnect_all-OnlyPermitted now (c ∷ cs) s h =
      disconnect_all-OnlyPermitted now cs _ (handle_disconnect-OnlyPermitted now c s h)

  join_topics-Agrees :
      (socket : ℕ) (identity : Identity) (topics : adapter.State) (c : Socket)
      → Agrees topics c
      → Agrees (Gateway.join_topics adapter socket identity topics) c
  unfolding Gateway.join_topics
  join_topics-Agrees socket identity topics c a = (
    a.0,
    (λ b r k. a.1 b r (let j = rw (adapter.is_in-join, adapter.is_in-join) at k in ground arith)),
    a.2,
  )

  let_in-OnlyPermitted :
      (socket : ℕ) (o : Option Identity) (s : Instance adapter)
      → OnlyPermitted s
      → OnlyPermitted (Gateway.let_in adapter socket o s).1
  unfolding Gateway.let_in
  let_in-OnlyPermitted socket none s h = h
  let_in-OnlyPermitted socket (some identity) s h =
      All-weaken _ _ (join_topics-Agrees socket identity s.topics) s.sockets h

  pub authorize-OnlyPermitted :
      (verify : Text → Option Identity) (socket : ℕ) (token : Option Text) (s : Instance adapter)
      → OnlyPermitted s
      → OnlyPermitted (Gateway.authorize adapter verify socket token s).1
  unfolding Gateway.authorize
  authorize-OnlyPermitted verify socket token s h = let_in-OnlyPermitted socket _ s h

  -- Socket.IO draws a new identifier for a connection: nobody has joined a room's topic under it.
  abbrev pub Fresh : ℕ → adapter.State → Type 0
  Fresh socket topics = (app room : ℕ) → adapter.is_in socket (room_topic app room) topics ≡ false

  pub handle_connection-OnlyPermitted :
      (socket : ℕ) (s : Instance adapter)
      → Fresh socket s.topics
      → OnlyPermitted s
      → OnlyPermitted (Gateway.handle_connection adapter socket (who socket) s)
  unfolding Gateway.handle_connection any
  handle_connection-OnlyPermitted socket s f h =
      let added : Socket = record { id = socket; identity = who socket; joined_room_ids = [] } in
      All-append_one _ s.sockets
        (All-weaken _ _ (join_topics-Agrees socket (who socket) s.topics) s.sockets h)
        (join_topics-Agrees socket (who socket) s.topics added (
          refl,
          (λ app room k. let j = rw (f app room) at k in ground arith),
          λ room k. ground arith,
        ))
