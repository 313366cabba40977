-- ===== src/Presence/Connections.antt =====
-- What `register` and `removeUser` of `PresenceService` do to a user's connections.
use study_room_sdk.Base.{
  ℕ, ◌+◌, ◌*◌, ◌<◌, ◌≡◌, ◌≢◌, ◌∙◌, refl, sym, ap, inl, inr, Bool, true, false, not, ◌&&◌, List, [],
  ◌∷◌, map, arith, ◌==◌, ==_refl, if◌then◌else◌, Bool-cases, find?, any, select, delete_where,
  any-weaken, find?-delete_where,
}
use study_room_sdk.Domain.{Redis, Connection, offline, online, focusing, idle, away}
use study_room_sdk.Domain.World.{World}
use study_room_sdk.Service.Monad.{actions, resume}
use study_room_sdk.Presence.{
  parse, user_is, write_presence, register, remove_user, status_of, change_redis,
}
use study_room_sdk.Presence.Keys.{
  is_live_key, m_get, s_members, set_ex, s_add, s_rem, del, expire_index, index_live, in_index,
  one_of,
}
use study_room_sdk.Presence.Status.{connected, has_connection, described, status_described}

-- A registered connection counts until its key expires.
pub register_connects :
    (ttl now app room user socket later : ℕ) (w : World)
    → later < now + ttl * 1000
    → has_connection later app room user (register ttl now app room user socket w).1 ≡ true
unfolding actions resume register write_presence change_redis set_ex s_add expire_index m_get
    s_members find? any select
register_connects ttl now app room user socket later w h = ground arith

shown :
    (a b c : Bool)
    → (if a then focusing else if b then idle else if c then away else online) ≡ offline
    → ⊥
shown true b c h = cc
shown false true c h = cc
shown false false true h = cc
shown false false false h = cc

-- After `register` the user is not shown as offline until the connection's key expires, whatever
-- other connections and sessions there are.
pub register_shows :
    (ttl now app room user socket later : ℕ) (w : World)
    → later < now + ttl * 1000
    → status_of later app room user (register ttl now app room user socket w).1 ≢ offline
unfolding described
register_shows ttl now app room user socket later w h e =
    let v = (register ttl now app room user socket w).1 in
    let d : described later app room user v ≡ offline =
      sym (status_described later app room user v) ∙ e in
    shown _ _ _ (rw (register_connects ttl now app room user socket later w h) at d)

one_of-select : (c : ℕ → Bool) (ms : List ℕ) (s : ℕ) → one_of (select c ms) s ≡ (one_of ms s && c s)
unfolding any select
one_of-select c [] s = refl
one_of-select c (m ∷ ms) s = elim (Bool-cases (m == s)) [
  | inl e ↦ same (ground arith) e (one_of-select c ms s)
  | inr e ↦ ground (arith, one_of-select c ms s)
]
  where
    same :
        m ≡ s
        → (m == s) ≡ true
        → one_of (select c ms) s ≡ (one_of ms s && c s)
        → one_of (select c (m ∷ ms)) s ≡ (one_of (m ∷ ms) s && c s)
    same q e rest = rw q (ground (arith, rest, ==_refl s))

module _ {A : Type 0} (g : A → ℕ) (p : A → Bool) where
  covered : (es : List A) → any (λ e. p e && not (one_of (map g (select p es)) (g e))) es ≡ false
  unfolding any select
  covered [] = refl
  covered (x ∷ xs) = ground (
    arith,
    ==_refl (g x),
    covered xs,
    any-weaken (λ e. p e && not (one_of (map g (select p (x ∷ xs))) (g e)))
        (λ e. p e && not (one_of (map g (select p xs)) (g e))) xs (λ y h. ground arith),
  )

  any-map_kept :
      (f t : ℕ → Bool) (es : List A)
      → any f (map g (select p (delete_where (λ e. p e && t (g e)) es)))
        ≡ any (λ e. p e && not (t (g e)) && f (g e)) es
  unfolding any select delete_where
  any-map_kept f t [] = refl
  any-map_kept f t (x ∷ xs) = ground (arith, any-map_kept f t xs)

-- What `removeUser` deletes.
abbrev targets_of : ℕ → ℕ → ℕ → ℕ → Redis → List ℕ
targets_of now app room user redis =
    select (connected now app room user redis) (s_members now app room redis)

m_get-del :
    (now app room s : ℕ) (ts : List ℕ) (redis : Redis)
    → one_of ts s ≡ false
    → m_get now app room s (del app room ts redis) ≡ m_get now app room s redis
unfolding m_get del
m_get-del now app room s ts redis h =
    rw
      (find?-delete_where (is_live_key now app room s)
        (λ c. c.app_id == app && c.room_id == room && one_of ts c.socket_id) redis.connections
        (apart))
      refl
  where
    apart :
        (c : Connection)
        → (c.app_id == app && c.room_id == room && one_of ts c.socket_id) ≡ true
        → is_live_key now app room s c ≡ false
    apart c e = elim (Bool-cases (c.socket_id == s)) [
      | inl q ↦ absurd (clash (ground arith) (ground arith))
      | inr q ↦ ground arith
    ]
      where
        clash : c.socket_id ≡ s → one_of ts c.socket_id ≡ true → ⊥
        clash q t = cc (q, t, h)

members_live :
    (now app room : ℕ) (redis : Redis)
    → index_live now app room redis ≡ true
    → s_members now app room redis ≡ map (λ e. e.socket_id) (select (in_index app room) redis.index)
unfolding s_members
members_live now app room redis live = rw live refl

members_gone :
    (now app room : ℕ) (redis : Redis)
    → index_live now app room redis ≡ false
    → s_members now app room redis ≡ []
unfolding s_members
members_gone now app room redis gone = rw gone refl

-- The state of Redis after the user's keys have gone.
abbrev without_user : ℕ → ℕ → ℕ → ℕ → Redis → Redis
without_user now app room user redis =
    s_rem app room (targets_of now app room user redis)
      (del app room (targets_of now app room user redis) redis)

connected-without_user :
    (now app room user s : ℕ) (redis : Redis)
    → one_of (targets_of now app room user redis) s ≡ false
    → connected now app room user (without_user now app room user redis) s
      ≡ connected now app room user redis s
unfolding s_rem m_get
connected-without_user now app room user s redis h =
    ap (λ v. user_is user (parse v))
      (m_get-del now app room s (targets_of now app room user redis) redis h)

-- A key of the user that is left would be one of those that were deleted.
not_left :
    (now app room user s : ℕ) (redis : Redis)
    → one_of (targets_of now app room user redis) s ≡ false
    → connected now app room user (without_user now app room user redis) s ≡ true
    → one_of (s_members now app room redis) s ≡ false
not_left now app room user s redis h c = ground (
  arith,
  h,
  c,
  connected-without_user now app room user s redis h,
  one_of-select (connected now app room user redis) (s_members now app room redis) s,
)

none_left :
    (now app room user : ℕ) (redis : Redis)
    → index_live now app room redis ≡ true
    → any (connected now app room user (without_user now app room user redis)) (
        map
          (λ e. e.socket_id)
          (select (in_index app room) (
            delete_where
              (λ e. in_index app room e && one_of (targets_of now app room user redis) e.socket_id)
              redis.index)))
      ≡ false
none_left now app room user redis live =
    any-map_kept (λ e. e.socket_id) (in_index app room)
      (connected now app room user (without_user now app room user redis))
      (one_of (targets_of now app room user redis)) redis.index
    ∙ any-weaken _
        (λ e. in_index app room e && not (one_of (s_members now app room redis) e.socket_id))
        redis.index (λ e h. ground (arith, h, not_left now app room user e.socket_id redis))
        (all_members redis live)
  where
    all_members :
        (redis : Redis)
        → index_live now app room redis ≡ true
        → any
            (λ e. in_index app room e && not (one_of (s_members now app room redis) e.socket_id))
            redis.index
          ≡ false
    all_members redis live =
        rw (members_live now app room redis live)
          (covered (λ e. e.socket_id) (in_index app room) redis.index)

without_user_gone :
    (now app room user : ℕ) (redis : Redis)
    → any
        (connected now app room user (without_user now app room user redis))
        (s_members now app room (without_user now app room user redis))
      ≡ false
unfolding s_rem del any
without_user_gone now app room user redis =
    let after = without_user now app room user redis in
    elim (Bool-cases (index_live now app room redis)) [
      | inl live ↦
          ap (any (connected now app room user after)) (members_live now app room after live)
          ∙ none_left now app room user redis live
      | inr gone ↦
          ap (any (connected now app room user after)) (members_gone now app room after gone)
    ]

offline_without :
    (now app room user : ℕ) (w : World)
    → has_connection now app room user w ≡ false
    → described now app room user w ≡ offline
unfolding described
offline_without now app room user w h = rw h refl

-- After `removeUser` the user is shown as offline in the room.
pub remove_user_offline :
    (now app room user : ℕ) (w : World)
    → status_of now app room user (remove_user now app room user w).1 ≡ offline
unfolding actions resume remove_user change_redis
remove_user_offline now app room user w =
    status_described now app room user (remove_user now app room user w).1
    ∙ offline_without now app room user (remove_user now app room user w).1
        (without_user_gone now app room user w.redis)
