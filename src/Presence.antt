-- ===== src/Presence.antt =====
-- server/src/realtime/presence.service.ts: who is in a room, from the connection keys and the room
-- index in Redis and from the active study sessions. A key that has expired is absent.
pub mod Keys
pub mod Status
pub mod Connections
use study_room_sdk.Base.{
  ℕ, ◌+◌, ◌*◌, Bool, true, false, not, ◌&&◌, List, [], ◌∷◌, map, Option, none, some, ltb, ◌==◌,
  if◌then◌else◌, find?, any, all, select, delete_where,
}
use study_room_sdk.Domain.World.{World}
use study_room_sdk.Domain.{
  Db, Redis, Connection, IndexEntry, PresenceValue, presence, unreadable, PresenceStatus, offline,
  online, focusing, idle, away, SessionStatus, running, paused, finished, StudySession, is_active,
}
use study_room_sdk.Service.Monad.{Outcome, done, Action, return_value, ◌>>=◌, ◌>>◌}
use Keys.{m_get, s_members, set_ex, s_add, s_rem, del, expire, expire_index}

-- An action on Redis alone.
unfoldable pub change_redis : (Redis → Redis) → Action (Unit {0})
change_redis f w = (done tt, record w { redis = f w.redis })

-- `parse`
abbrev pub parse : Option PresenceValue → Option (ℕ × Bool)
parse none = none
parse (some unreadable) = none
parse (some (presence user is_away)) = some (user, is_away)

-- `write`
unfoldable pub write_presence : ℕ → ℕ → ℕ → ℕ → ℕ → ℕ → Bool → Action (Unit {0})
unfolding set_ex s_add expire_index
write_presence ttl now app room user socket is_away = do
  change_redis (set_ex now app room socket (presence user is_away) (now + ttl * 1000))
  change_redis (s_add now app room socket)
  change_redis (expire_index app room (now + ttl * 2 * 1000))

unfoldable pub register : ℕ → ℕ → ℕ → ℕ → ℕ → ℕ → Action (Unit {0})
unfolding write_presence
register ttl now app room user socket = write_presence ttl now app room user socket false

unfoldable pub set_away : ℕ → ℕ → ℕ → ℕ → ℕ → ℕ → Bool → Action (Unit {0})
unfolding write_presence
set_away ttl now app room user socket is_away = write_presence ttl now app room user socket is_away

-- `EXPIRE` of the connection key answers whether the key was there.
unfoldable pub refresh_found : ℕ → ℕ → ℕ → ℕ → ℕ → Option PresenceValue → Action (Unit {0})
unfolding expire expire_index s_rem
refresh_found ttl now app room socket none = change_redis (s_rem app room (socket ∷ []))
refresh_found ttl now app room socket (some _) = do
  change_redis (expire now app room socket (now + ttl * 1000))
  change_redis (expire_index app room (now + ttl * 2 * 1000))

unfoldable pub refresh : ℕ → ℕ → ℕ → ℕ → ℕ → Action (Unit {0})
unfolding m_get refresh_found
refresh ttl now app room socket w =
    refresh_found ttl now app room socket (m_get now app room socket w.redis) w

unfoldable pub unregister : ℕ → ℕ → ℕ → Action (Unit {0})
unfolding del s_rem
unregister app room socket = do
  change_redis (del app room (socket ∷ []))
  change_redis (s_rem app room (socket ∷ []))

-- The user that a connection key names.
abbrev pub user_is : ℕ → Option (ℕ × Bool) → Bool
user_is user none = false
user_is user (some (u, _)) = u == user

abbrev pub is_stale : Option (ℕ × Bool) → Bool
is_stale none = true
is_stale (some _) = false

-- `removeUser`
unfoldable pub remove_user : ℕ → ℕ → ℕ → ℕ → Action (Unit {0})
unfolding m_get s_members del s_rem
remove_user now app room user w =
    let targets =
      select (λ s. user_is user (parse (m_get now app room s w.redis)))
        (s_members now app room w.redis) in
    (change_redis (del app room targets) >> change_redis (s_rem app room targets)) w

-- The `away` flags of a user's connections, in the order of the room's set.
unfoldable pub connections_of : ℕ → ℕ → ℕ → ℕ → Redis → List ℕ → List Bool
connections_of now app room user redis [] = []
connections_of now app room user redis (s ∷ ss) =
    let rest = connections_of now app room user redis ss in
    elim (parse (m_get now app room s redis)) [
      | none ↦ rest
      | some (u, is_away) ↦ if u == user then is_away ∷ rest else rest
    ]

-- `sessionsByUser`: a running session is not replaced.
unfoldable pub session_of : ℕ → Option SessionStatus → List StudySession → Option SessionStatus
session_of user current [] = current
session_of user (some running) (s ∷ ss) = session_of user (some running) ss
session_of user current (s ∷ ss) =
    session_of user (if s.user_id == user then some s.status else current) ss

unfoldable pub status_from : List Bool → Option SessionStatus → PresenceStatus
status_from [] session = offline
status_from (c ∷ cs) (some running) = focusing
status_from (c ∷ cs) (some paused) = idle
status_from (c ∷ cs) session = if all (λ a. a) (c ∷ cs) then away else online

-- The sessions that count: those of the room that are running or paused.
abbrev pub active_in : ℕ → ℕ → StudySession → Bool
active_in app room s = s.app_id == app && s.room_id == room && is_active s.status

unfoldable pub status_of : ℕ → ℕ → ℕ → ℕ → World → PresenceStatus
unfolding connections_of session_of status_from
status_of now app room user w =
    status_from (connections_of now app room user w.redis (s_members now app room w.redis))
      (session_of user none (select (active_in app room) w.db.sessions))

-- `statusesFor`: the statuses of the requested users as a map. It drops from the index the keys
-- whose value has gone or cannot be read.
unfoldable pub statuses_for : ℕ → ℕ → ℕ → List ℕ → Action (ℕ → Option PresenceStatus)
unfolding status_of m_get s_members s_rem
statuses_for now app room [] w = (done (λ _. none), w)
statuses_for now app room (u ∷ us) w =
    let stale =
      select (λ s. is_stale (parse (m_get now app room s w.redis)))
        (s_members now app room w.redis) in
    (
      done (λ user.
          if any (λ v. v == user) (u ∷ us) then some (status_of now app room user w) else none),
      record w { redis = s_rem app room stale w.redis },
    )

-- `statusFor`
unfoldable pub status_for : ℕ → ℕ → ℕ → ℕ → Action PresenceStatus
unfolding statuses_for
status_for now app room user = do
  statuses ← statuses_for now app room (user ∷ [])
  return_value (elim (statuses user) [ none ↦ offline | some s ↦ s ])
