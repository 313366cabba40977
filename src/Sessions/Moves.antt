-- ===== src/Sessions/Moves.antt =====
-- The state machine of a session, and what `update` does with it.
use study_room_sdk.Base.{
  ℕ, ◌≡◌, ◌≢◌, refl, ◌↔◌, Bool, true, false, ◌&&◌, Option, none, some, arith, ◌==◌, any, count,
  find?, update_where, find?-holds, find?-any_also, count-pos, count-weaken, count-of_none,
  find?-update_where_found, find?-update_where_miss, if◌then◌else◌,
}
use study_room_sdk.Domain.{
  Ambient, Identity, StudySession, SessionStatus, running, paused, finished, same_status,
}
use study_room_sdk.Domain.World.{World}
use study_room_sdk.Service.Monad.{
  done, thrown, bad_request, forbidden, conflict, message, actions, resume, stored, rolled_back,
}
use study_room_sdk.Database.{session_is}
use study_room_sdk.Sessions.{
  is_allowed, moved, unmoved, move_where, move_session, movable_session, update, to_session_dto,
}

-- The moves of the machine.
pub data Move : SessionStatus → SessionStatus → Type 0 where
  pause : Move running paused
  resume_session : Move paused running
  finish_running : Move running finished
  finish_paused : Move paused finished

-- A change of status is allowed exactly if it is a move of the machine: to pause, to resume, or to
-- finish from running or paused.
pub is_allowed_iff : (from next : SessionStatus) → (is_allowed from next ≡ true) ↔ Move from next
unfolding is_allowed
is_allowed_iff running running = (λ e. cc, λ m. elim m [ ])
is_allowed_iff running paused = (λ _. pause, λ _. refl)
is_allowed_iff running finished = (λ _. finish_running, λ _. refl)
is_allowed_iff paused running = (λ _. resume_session, λ _. refl)
is_allowed_iff paused paused = (λ e. cc, λ m. elim m [ ])
is_allowed_iff paused finished = (λ _. finish_paused, λ _. refl)
is_allowed_iff finished running = (λ e. cc, λ m. elim m [ ])
is_allowed_iff finished paused = (λ e. cc, λ m. elim m [ ])
is_allowed_iff finished finished = (λ e. cc, λ m. elim m [ ])

abbrev pub found_session : ℕ → Identity → StudySession → Bool
found_session id identity s = s.id == id && s.app_id == identity.app_id

same_status_refl : (s : SessionStatus) → same_status s s ≡ true
same_status_refl running = refl
same_status_refl paused = refl
same_status_refl finished = refl

-- The finish time of a session that is moved to a status at a time
abbrev pub FinishTime : ℕ → SessionStatus → Option ℕ → Type 0
FinishTime now running o = o ≡ none
FinishTime now paused o = o ≡ none
FinishTime now finished o = o ≡ some now

-- `u` is `t` after a move to a status at a time.
abbrev pub IsMoved : ℕ → SessionStatus → StudySession → StudySession → Type 0
IsMoved now next t u =
    (u.status ≡ next)
    × FinishTime now next u.finished_at
    × (u.updated_at ≡ now)
    × (u.id ≡ t.id)
    × (u.room_id ≡ t.room_id)
    × (u.app_id ≡ t.app_id)
    × (u.user_id ≡ t.user_id)
    × (u.started_at ≡ t.started_at)

moved-IsMoved :
    (now : ℕ) (next : SessionStatus) (t : StudySession) → IsMoved now next t (moved now next t)
moved-IsMoved now running t = (refl, refl, refl, refl, refl, refl, refl, refl)
moved-IsMoved now paused t = (refl, refl, refl, refl, refl, refl, refl, refl)
moved-IsMoved now finished t = (refl, refl, refl, refl, refl, refl, refl, refl)

module _ (ambient : Ambient) (others : World → World) (id : ℕ) (next : SessionStatus)
    (identity : Identity) (w : World) where
  -- A move that the machine does not have, or another user's session: nothing is written, whatever
  -- other requests do.
  pub update_refused :
      {s : StudySession}
      → find? (found_session id identity) w.db.sessions ≡ some s
      → (s.user_id == identity.user_id && is_allowed s.status next) ≡ false
      → update ambient others id next identity w ≡ (
        thrown (
            if s.user_id == identity.user_id
            then bad_request (message "Cannot move session")
            else forbidden (message "Only the session creator can control this session")),
        w,
      )
  unfolding actions resume update movable_session
  update_refused found refused = rw found (ground arith)

  movable :
      {s : StudySession}
      → find? (found_session id identity) w.db.sessions ≡ some s
      → (s.user_id == identity.user_id) ≡ true
      → is_allowed s.status next ≡ true
      → movable_session id next identity w ≡ (done s, w)
  unfolding actions resume movable_session
  movable found own allowed = rw (found, own, allowed) refl

  -- The status was changed by somebody else after it was read, so that no row of the session has it
  -- any more: a conflict, and no table is changed.
  pub update_conflict :
      {s : StudySession}
      → find? (found_session id identity) w.db.sessions ≡ some s
      → (s.user_id == identity.user_id) ≡ true
      → is_allowed s.status next ≡ true
      → any (λ x. x.id == s.id && same_status x.status s.status) (others w).db.sessions ≡ false
      → update ambient others id next identity w
        ≡ (thrown (conflict (message "Study session changed concurrently")), others w)
  unfolding actions resume stored rolled_back update move_session move_where
  update_conflict {s} found own allowed changed =
      rw
        (
          movable found own allowed,
          count-of_none (unmoved s.id s.status) (others w).db.sessions changed,
        )
        refl

  one_changed :
      (s : StudySession) {t : StudySession}
      → count (session_is s.id) (others w).db.sessions ≡ 1
      → find? (session_is s.id) (others w).db.sessions ≡ some t
      → same_status t.status s.status ≡ true
      → count (unmoved s.id s.status) (others w).db.sessions ≡ 1
  one_changed s {t} once there same = omega (
    arith,
    count-pos _ (others w).db.sessions (
        find?-any_also (session_is s.id) (unmoved s.id s.status) (others w).db.sessions there
          (ground (arith, find?-holds (session_is s.id) (others w).db.sessions there))),
    count-weaken (unmoved s.id s.status) (session_is s.id) (others w).db.sessions
        (λ x e. ground arith),
  )

  -- A move of the machine by the session's creator, while the row `t` that the write meets has still
  -- the status that was read: the row has then the new status, the time of the call as the time of its
  -- update, and as its finish time the time of the call if it is finished now and none otherwise, and
  -- is `t` in all else; the answer shows that row, and the row of any other session `i` is as it was.
  pub update_moves :
      {s t : StudySession}
      → find? (found_session id identity) w.db.sessions ≡ some s
      → (s.user_id == identity.user_id) ≡ true
      → Move s.status next
      → count (session_is s.id) (others w).db.sessions ≡ 1
      → find? (session_is s.id) (others w).db.sessions ≡ some t
      → same_status t.status s.status ≡ true
      → (i : ℕ) → i ≢ s.id
      → let (answer, v) = update ambient others id next identity w in
        (u : StudySession) × (answer ≡ done (to_session_dto u))
        × (find? (session_is s.id) v.db.sessions ≡ some u)
        × IsMoved ambient.now next t u
        × (find? (session_is i) v.db.sessions ≡ find? (session_is i) (others w).db.sessions)
  unfolding actions resume stored rolled_back update move_session move_where
  update_moves {s} {t} found own move once there same i ne =
      rw
        (
          movable found own ((is_allowed_iff s.status next).1 move),
          one_changed s once there same,
          changed,
        )
        (
          moved ambient.now next t,
          refl,
          changed,
          moved-IsMoved ambient.now next t,
          find?-update_where_miss (session_is i) (unmoved s.id s.status) (moved ambient.now next)
              (others w).db.sessions (λ y e. ground arith) (λ y e. ground arith),
        )
    where
      changed :
          find?
            (session_is s.id)
            (update_where (unmoved s.id s.status) (moved ambient.now next) (others w).db.sessions)
          ≡ some (moved ambient.now next t)
      changed =
          find?-update_where_found (session_is s.id) (unmoved s.id s.status)
            (moved ambient.now next) (others w).db.sessions (λ y e. ground arith)
            (λ y e. ground arith) there
            (ground (arith, find?-holds (session_is s.id) (others w).db.sessions there))
