-- ===== src/Gateway/Eviction.antt =====
-- What the message of an eviction does on an instance.
use study_room_sdk.Base.{
  ℕ, ◌≡◌, refl, sym, inl, inr, Bool, true, false, not, ◌&&◌, List, [], ◌∷◌, arith, ◌==◌, ==_refl,
  if◌then◌else◌, Bool-cases, any, All, All-weaken, All-update_where, All-both,
}
use study_room_sdk.Domain.{Identity}
use study_room_sdk.Gateway
use study_room_sdk.Gateway.{Instance}
use study_room_sdk.Sockets.{Socket, has, remove, is_evicted}
use study_room_sdk.Gateway.SocketIo.{Adapter}
use study_room_sdk.Gateway.Subscriptions.{has-remove, OnlyPermitted, left-OnlyPermitted}

-- Every room but this one of this user.
abbrev pub all_but : ℕ → ℕ → ℕ → Identity → ℕ → Bool
all_but app room user identity r =
    not (identity.app_id == app && identity.user_id == user && r == room)

module _ (adapter : Adapter) (app room user : ℕ) where
  module _ (who : ℕ → Identity) (may : Identity → ℕ → Bool) where
    evict_if-OnlyPermitted :
        (b : Bool) (c : Socket) (s : Instance adapter)
        → c.identity ≡ who c.id
        → (b ≡ true → c.identity.app_id ≡ app)
        → OnlyPermitted adapter who may s
        → OnlyPermitted adapter who may (Gateway.evict_if adapter b app room c s)
    unfolding Gateway.evict_if Gateway.evict_socket Gateway.in_world Gateway.change_rooms
    evict_if-OnlyPermitted false c s w a h = h
    evict_if-OnlyPermitted true c s w a h =
        rw (sym (a refl)) (left-OnlyPermitted adapter who may c room s w h)

    evict_sockets-OnlyPermitted :
        (cs : List Socket) (s : Instance adapter)
        → All (λ c. c.identity ≡ who c.id) cs
        → OnlyPermitted adapter who may s
        → OnlyPermitted adapter who may (Gateway.evict_sockets adapter app room user cs s).1
    unfolding Gateway.evict_sockets
    evict_sockets-OnlyPermitted [] s ws h = h
    evict_sockets-OnlyPermitted (c ∷ cs) s (w, ws) h =
        evict_sockets-OnlyPermitted cs _ ws
          (evict_if-OnlyPermitted (is_evicted app room user c) c s w (λ e. ground arith) h)

    published_if-OnlyPermitted :
        (now : ℕ) (r : Bool × Instance adapter)
        → OnlyPermitted adapter who may r.1
        → OnlyPermitted adapter who may (Gateway.published_if adapter now app room user r)
    unfolding Gateway.published_if Gateway.in_world
    published_if-OnlyPermitted now (false, s) h = h
    published_if-OnlyPermitted now (true, s) h = h

    pub handle_room_eviction-OnlyPermitted :
        (now : ℕ) (s : Instance adapter)
        → OnlyPermitted adapter who may s
        → OnlyPermitted adapter who may (Gateway.handle_room_eviction adapter now app room user s)
    unfolding Gateway.handle_room_eviction
    handle_room_eviction-OnlyPermitted now s h =
        published_if-OnlyPermitted now _
          (evict_sockets-OnlyPermitted s.sockets s (All-weaken _ _ (λ c a. a.0) s.sockets h) h)

  -- A socket that is still to be evicted is among `cs`.
  abbrev Listed : List Socket → Socket → Type 0
  Listed cs d =
      is_evicted app room user d ≡ true
      → any (λ c. is_evicted app room user c && c.id == d.id) cs ≡ true

  kept-Listed :
      (c : Socket) (cs : List Socket) (d : Socket)
      → Listed (c ∷ cs) d
      → Listed cs
          (if d.id == c.id then record d { joined_room_ids = remove room d.joined_room_ids } else d)
  unfolding any
  kept-Listed c cs d l = elim (Bool-cases (d.id == c.id)) [
    | inl e ↦ rw e (λ k.
        let j = rw (has-remove room room d.joined_room_ids) at k in ground (arith, ==_refl room))
    | inr e ↦ rw e (λ k. let m = l k in ground arith)
  ]

  evict_if-Listed :
      (b : Bool) (c : Socket) (cs : List Socket) (s : Instance adapter)
      → is_evicted app room user c ≡ b
      → All (Listed (c ∷ cs)) s.sockets
      → All (Listed cs) (Gateway.evict_if adapter b app room c s).sockets
  unfolding Gateway.evict_if Gateway.evict_socket Gateway.in_world Gateway.change_rooms any
  evict_if-Listed false c cs s e all =
      All-weaken _ _ (λ d l k. let m = l k in ground arith) s.sockets all
  evict_if-Listed true c cs s e all =
      All-update_where _ _ (λ d. d.id == c.id) _ (kept-Listed c cs) s.sockets all

  evict_sockets-Listed :
      (cs : List Socket) (s : Instance adapter)
      → All (Listed cs) s.sockets
      → All
          (λ d. is_evicted app room user d ≡ false)
          (Gateway.evict_sockets adapter app room user cs s).1.sockets
  unfolding Gateway.evict_sockets any
  evict_sockets-Listed [] s all = All-weaken _ _ (λ d l. ground (arith, l)) s.sockets all
  evict_sockets-Listed (c ∷ cs) s all =
      evict_sockets-Listed cs _ (evict_if-Listed (is_evicted app room user c) c cs s refl all)

  cons-Listed : (cs ds : List Socket) → All (Listed ds) cs → (c : Socket) → All (Listed (c ∷ ds)) cs
  unfolding any
  cons-Listed cs ds all c = All-weaken _ _ (λ d l k. let m = l k in ground arith) cs all

  All-Listed : (cs : List Socket) → All (Listed cs) cs
  unfolding any
  All-Listed [] = tt
  All-Listed (c ∷ cs) = ((λ k. ground (arith, ==_refl c.id)), cons-Listed cs cs (All-Listed cs) c)

  published_if_sockets :
      (P : Socket → Type 0) (now : ℕ) (r : Bool × Instance adapter)
      → All P r.1.sockets
      → All P (Gateway.published_if adapter now app room user r).sockets
  unfolding Gateway.published_if Gateway.in_world
  published_if_sockets P now (false, s) h = h
  published_if_sockets P now (true, s) h = h

  pub none_evicted :
      (now : ℕ) (s : Instance adapter)
      → All
          (λ d. is_evicted app room user d ≡ false)
          (Gateway.handle_room_eviction adapter now app room user s).sockets
  unfolding Gateway.handle_room_eviction
  none_evicted now s =
      published_if_sockets _ now _ (evict_sockets-Listed s.sockets s (All-Listed s.sockets))

  not_evicted-permitted :
      (d : Socket)
      → is_evicted app room user d ≡ false
      → (r : ℕ) → has r d.joined_room_ids ≡ true
      → all_but app room user d.identity r ≡ true
  not_evicted-permitted d e r h = elim (Bool-cases (r == room)) [
    | inl k ↦ let q : r ≡ room = ground arith in let j = rw q at h in ground arith
    | inr k ↦ ground arith
  ]

  pub evicted-OnlyPermitted :
      (who : ℕ → Identity) (may : Identity → ℕ → Bool) (now : ℕ) (s : Instance adapter)
      → OnlyPermitted adapter who may s
      → OnlyPermitted adapter who
          (all_but app room user)
          (Gateway.handle_room_eviction adapter now app room user s)
  evicted-OnlyPermitted who may now s h =
      All-both _ _ _ (λ d a e. (a.0, a.1, not_evicted-permitted d e)) _
        (handle_room_eviction-OnlyPermitted who may now s h) (none_evicted now s)
