-- ===== src/Presence/Keys.antt =====
-- The Redis commands that server/src/realtime/presence.service.ts issues, on the keys that its
-- `connectionKey` and `roomIndexKey` name: a connection key is the triple of application, room and
-- socket, an index key the pair of application and room.
use study_room_sdk.Base.{
  ℕ, Bool, ◌&&◌, List, [], ◌∷◌, map, Option, none, some, ltb, ◌==◌, if◌then◌else◌, find?, any,
  select, update_where, delete_where,
}
use study_room_sdk.Domain.{Redis, Connection, IndexEntry, IndexExpiry, PresenceValue}

abbrev pub is_key : ℕ → ℕ → ℕ → Connection → Bool
is_key app room socket c = c.app_id == app && c.room_id == room && c.socket_id == socket

abbrev pub is_live_key : ℕ → ℕ → ℕ → ℕ → Connection → Bool
is_live_key now app room socket c = is_key app room socket c && ltb now c.expires_at

abbrev value_of : Option Connection → Option PresenceValue
value_of none = none
value_of (some c) = some c.value

-- `GET`, for one of the keys of `MGET`
unfoldable pub m_get : ℕ → ℕ → ℕ → ℕ → Redis → Option PresenceValue
m_get now app room socket r = value_of (find? (is_live_key now app room socket) r.connections)

-- `SET key value EX`
unfoldable pub set_ex : ℕ → ℕ → ℕ → ℕ → PresenceValue → ℕ → Redis → Redis
set_ex now app room socket value expires_at r = record r {
  connections =
      record {
        app_id = app;
        room_id = room;
        socket_id = socket;
        value = value;
        expires_at = expires_at;
      }
      ∷ delete_where (is_key app room socket) r.connections;
}

abbrev pub one_of : List ℕ → ℕ → Bool
one_of sockets s = any (λ x. x == s) sockets

-- `DEL` of several keys
unfoldable pub del : ℕ → ℕ → List ℕ → Redis → Redis
del app room sockets r = record r {
  connections =
      delete_where (λ c. c.app_id == app && c.room_id == room && one_of sockets c.socket_id)
        r.connections;
}

-- `EXPIRE` of a connection key that is there
unfoldable pub expire : ℕ → ℕ → ℕ → ℕ → ℕ → Redis → Redis
expire now app room socket at r = record r {
  connections =
      update_where (is_live_key now app room socket) (λ c. record c { expires_at = at })
        r.connections;
}

abbrev pub in_index : ℕ → ℕ → IndexEntry → Bool
in_index app room e = e.app_id == app && e.room_id == room

abbrev index_of : ℕ → ℕ → IndexExpiry → Bool
index_of app room e = e.app_id == app && e.room_id == room

-- Whether the index key of the room is there.
abbrev pub index_live : ℕ → ℕ → ℕ → Redis → Bool
index_live now app room r = any (λ e. index_of app room e && ltb now e.expires_at) r.index_expiry

-- `SMEMBERS`
unfoldable pub s_members : ℕ → ℕ → ℕ → Redis → List ℕ
s_members now app room r =
    if index_live now app room r
    then map (λ e. e.socket_id) (select (in_index app room) r.index)
    else []

-- `SADD`: an index key that has expired starts anew.
unfoldable pub s_add : ℕ → ℕ → ℕ → ℕ → Redis → Redis
s_add now app room socket r = record r {
  index =
      record { app_id = app; room_id = room; socket_id = socket }
      ∷ (if index_live now app room r
          then delete_where (λ e. in_index app room e && e.socket_id == socket) r.index
          else delete_where (in_index app room) r.index);
}

-- `SREM` of several members
unfoldable pub s_rem : ℕ → ℕ → List ℕ → Redis → Redis
s_rem app room sockets r = record r {
  index = delete_where (λ e. in_index app room e && one_of sockets e.socket_id) r.index;
}

-- `EXPIRE` of the index key
unfoldable pub expire_index : ℕ → ℕ → ℕ → Redis → Redis
expire_index app room at r = record r {
  index_expiry =
      record { app_id = app; room_id = room; expires_at = at }
      ∷ delete_where (index_of app room) r.index_expiry;
}
