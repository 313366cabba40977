-- ===== src/Presence/Status.antt =====
-- The status that `statusFor` and `statusesFor` of `PresenceService` give a user.
use study_room_sdk.Base.{
  ℕ, ◌≡◌, ◌∙◌, refl, ◌⊎◌, inl, inr, Bool, true, false, not, ◌&&◌, ◌||◌, List, [], ◌∷◌, Option, none,
  some, arith, ◌==◌, if◌then◌else◌, Bool-cases, Option-cases, any, all, select,
}
use study_room_sdk.Domain.{
  Redis, PresenceStatus, offline, online, focusing, idle, away, SessionStatus, running, paused,
  finished, StudySession, is_active, same_status,
}
use study_room_sdk.Domain.World.{World}
use study_room_sdk.Presence.{
  parse, user_is, connections_of, session_of, status_from, active_in, status_of,
}
use study_room_sdk.Presence.Keys.{m_get, s_members}

-- A connection key of the room, by its socket, that belongs to the user.
abbrev pub connected : ℕ → ℕ → ℕ → ℕ → Redis → ℕ → Bool
connected now app room user redis socket = user_is user (parse (m_get now app room socket redis))

-- The flag of a connection of the user.
abbrev pub flagged : Option (ℕ × Bool) → Bool
flagged none = true
flagged (some (_, is_away)) = is_away

abbrev pub is_away_on : ℕ → ℕ → ℕ → ℕ → Redis → ℕ → Bool
is_away_on now app room user redis socket =
    not (connected now app room user redis socket)
    || flagged (parse (m_get now app room socket redis))

-- The user has a session of that status in the room.
abbrev pub has_session : ℕ → ℕ → ℕ → SessionStatus → World → Bool
has_session app room user status w =
    any
      (λ s.
        s.app_id == app && s.room_id == room && s.user_id == user && same_status s.status status)
      w.db.sessions

abbrev pub has_connection : ℕ → ℕ → ℕ → ℕ → World → Bool
has_connection now app room user w =
    any (connected now app room user w.redis) (s_members now app room w.redis)

-- What the status says: nobody without a connection is present; of those who are, the session
-- comes first, then whether every connection is away.
unfoldable pub described : ℕ → ℕ → ℕ → ℕ → World → PresenceStatus
described now app room user w =
    if not (has_connection now app room user w)
    then offline
    else if has_session app room user running w
    then focusing
    else if has_session app room user paused w
    then idle
    else if all (is_away_on now app room user w.redis) (s_members now app room w.redis)
    then away
    else online

-- Whether a list has an element.
abbrev some_of : List Bool → Bool
some_of [] = false
some_of (b ∷ bs) = true

-- `sessionsByUser` from the sessions of the room: the latest status until one is running.
abbrev latest : Option SessionStatus → List SessionStatus → Option SessionStatus
latest current [] = current
latest (some running) (s ∷ ss) = some running
latest current (s ∷ ss) = latest (some s) ss

module _ (now app room user : ℕ) (redis : Redis) where
  abbrev Agree : List ℕ → Type 0
  Agree ss =
      (some_of (connections_of now app room user redis ss)
        ≡ any (connected now app room user redis) ss)
      × (all (λ a. a) (connections_of now app room user redis ss)
          ≡ all (is_away_on now app room user redis) ss)

  unread_step :
      (s : ℕ) (ss : List ℕ) → parse (m_get now app room s redis) ≡ none → Agree ss → Agree (s ∷ ss)
  unfolding connections_of any all
  unread_step s ss e (h, k) = (ground (arith, e), ground (arith, e))

  read_step :
      (s : ℕ) (ss : List ℕ) (u : ℕ) (f : Bool)
      → parse (m_get now app room s redis) ≡ some (u, f)
      → Agree ss
      → Agree (s ∷ ss)
  unfolding connections_of any all
  read_step s ss u f e (h, k) = rw e (ground arith, ground arith)

  connections_of_lem : (ss : List ℕ) → Agree ss
  unfolding connections_of any all
  connections_of_lem [] = (refl, refl)
  connections_of_lem (s ∷ ss) = elim (Option-cases (parse (m_get now app room s redis))) [
    | inl e ↦ unread_step s ss e (connections_of_lem ss)
    | inr ((u, f), e) ↦ read_step s ss u f e (connections_of_lem ss)
  ]

-- The sessions of the user among those of the list.
abbrev of_user : ℕ → SessionStatus → StudySession → Bool
of_user user status s = s.user_id == user && same_status s.status status

module _ (user : ℕ) where
  running_stays : (ss : List StudySession) → session_of user (some running) ss ≡ some running
  unfolding session_of
  running_stays [] = refl
  running_stays (s ∷ ss) = running_stays ss

  abbrev chosen : Option SessionStatus → List StudySession → Option SessionStatus
  chosen current ss =
      if any (of_user user running) ss
      then some running
      else if any (of_user user paused) ss
      then some paused
      else current

  status-cases : (st : SessionStatus) → (st ≡ running) ⊎ ((st ≡ paused) ⊎ (st ≡ finished))
  status-cases running = inl refl
  status-cases paused = inr (inl refl)
  status-cases finished = inr (inr refl)

  session_of-paused :
      (ss : List StudySession)
      → all (λ s. is_active s.status) ss ≡ true
      → session_of user (some paused) ss
        ≡ (if any (of_user user running) ss then some running else some paused)
  unfolding session_of any all
  session_of-paused [] h = refl
  session_of-paused (s ∷ ss) h =
      let active : all (λ s. is_active s.status) ss ≡ true = ground arith in
      let rest = session_of-paused ss active in
      elim (Bool-cases (s.user_id == user)) [
        | inl mine ↦ elim (status-cases s.status) [
          | inl e ↦ rw (mine, e) (running_stays ss)
          | inr (inl e) ↦ rw (mine, e) rest
          | inr (inr e) ↦ absurd (inactive e)
        ]
        | inr other ↦ rw other rest
      ]
    where
      inactive : s.status ≡ finished → ⊥
      inactive e = cc (rw e at h)

  session_of-none :
      (ss : List StudySession)
      → all (λ s. is_active s.status) ss ≡ true
      → session_of user none ss ≡ chosen none ss
  unfolding session_of any all
  session_of-none [] h = refl
  session_of-none (s ∷ ss) h =
      let active : all (λ s. is_active s.status) ss ≡ true = ground arith in
      let rest = session_of-none ss active in
      elim (Bool-cases (s.user_id == user)) [
        | inl mine ↦ elim (status-cases s.status) [
          | inl e ↦ rw (mine, e) (running_stays ss)
          | inr (inl e) ↦ rw (mine, e) (session_of-paused ss active)
          | inr (inr e) ↦ absurd (inactive e)
        ]
        | inr other ↦ rw other rest
      ]
    where
      inactive : s.status ≡ finished → ⊥
      inactive e = cc (rw e at h)

module _ {A : Type 0} where
  any-select_and : (p q : A → Bool) (xs : List A) → any p (select q xs) ≡ any (λ x. q x && p x) xs
  unfolding any select
  any-select_and p q [] = refl
  any-select_and p q (x ∷ xs) = ground (arith, any-select_and p q xs)

  any_same : (p q : A → Bool) (xs : List A) → ((x : A) → p x ≡ q x) → any p xs ≡ any q xs
  unfolding any
  any_same p q [] h = refl
  any_same p q (x ∷ xs) h = ground (arith, h x, any_same p q xs h)

  all-select :
      (p q : A → Bool) (xs : List A)
      → ((x : A) → q x ≡ true → p x ≡ true)
      → all p (select q xs) ≡ true
  unfolding all select
  all-select p q [] h = refl
  all-select p q (x ∷ xs) h = ground (arith, h x, all-select p q xs h)

active_same :
    (st : SessionStatus) → (is_active st && same_status st running) ≡ same_status st running
active_same running = refl
active_same paused = refl
active_same finished = refl

active_paused :
    (st : SessionStatus) → (is_active st && same_status st paused) ≡ same_status st paused
active_paused running = refl
active_paused paused = refl
active_paused finished = refl

module _ (app room user : ℕ) (w : World) where
  running_sessions :
      any (of_user user running) (select (active_in app room) w.db.sessions)
      ≡ has_session app room user running w
  running_sessions =
      any-select_and (of_user user running) (active_in app room) w.db.sessions
      ∙ any_same _ _ w.db.sessions (λ s. ground (arith, active_same s.status))

  paused_sessions :
      any (of_user user paused) (select (active_in app room) w.db.sessions)
      ≡ has_session app room user paused w
  paused_sessions =
      any-select_and (of_user user paused) (active_in app room) w.db.sessions
      ∙ any_same _ _ w.db.sessions (λ s. ground (arith, active_paused s.status))

  sessions_lem : session_of user none (select (active_in app room) w.db.sessions) ≡ (
      if has_session app room user running w
      then some running
      else if has_session app room user paused w
      then some paused
      else none)
  sessions_lem =
      session_of-none user (select (active_in app room) w.db.sessions) (
        all-select (λ s. is_active s.status) (active_in app room) w.db.sessions
          (λ s h. ground arith))
      ∙ rw (running_sessions, paused_sessions) refl

-- `status_from` of the flags and of the session that counts.
status_from_lem :
    (flags : List Bool) (runs pauses : Bool)
    → status_from flags (if runs then some running else if pauses then some paused else none) ≡ (
        if not (some_of flags)
        then offline
        else if runs
        then focusing
        else if pauses
        then idle
        else if all (λ a. a) flags
        then away
        else online)
unfolding status_from
status_from_lem [] runs pauses = refl
status_from_lem (f ∷ fs) true pauses = refl
status_from_lem (f ∷ fs) false true = refl
status_from_lem (f ∷ fs) false false = refl

-- The status of a user is `offline` without a readable connection in the room; with one it is
-- `focusing` when a session of the user runs there, else `idle` when one is paused, else `away` when
-- every connection of the user is away, and `online` otherwise.
pub status_described :
    (now app room user : ℕ) (w : World)
    → status_of now app room user w ≡ described now app room user w
unfolding status_of described
status_described now app room user w =
    let (h, k) = connections_of_lem now app room user w.redis (s_members now app room w.redis) in
    rw (sessions_lem app room user w) (status_from_lem _ _ _ ∙ rw (h, k) refl)
