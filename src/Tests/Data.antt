-- ===== src/Tests/Data.antt =====
-- A room of Ann and Bob, to which Carl asks to be let in. Bob is studying.
use study_room_sdk.Base.{ℕ, true, false, ◌+◌, ◌*◌, [], ◌∷◌, none, some, length}
use study_room_sdk.Domain.{
  Text, Db, Redis, Ambient, Identity, Application, Room, RoomMembership, owner, member, JoinRequest,
  pending, StudySession, running, presence,
}
use study_room_sdk.Domain.World.{World}
use study_room_sdk.Idempotency.{Digest, create_room, send_message, start_session}

abbrev pub identity_of : ℕ → Identity
identity_of user = record {
  user_id = user;
  app_id = 7;
  display_name = b'A' ∷ [];
  avatar_url = [];
  expires_at = 0;
}

abbrev pub ann : Identity
ann = identity_of 1

abbrev pub bob : Identity
bob = identity_of 2

abbrev pub carl : Identity
carl = identity_of 3

abbrev pub at_noon : Ambient
at_noon = record { now = 43200000; uuid = 99 }

abbrev pub at_one : Ambient
at_one = record { now = 46800000; uuid = 100 }

abbrev pub library : Room
library = record { id = 10; app_id = 7; title = b'L' ∷ []; version = 3; deleted_at = none }

abbrev pub membership : ℕ → RoomMembership
membership user = record {
  room_id = 10;
  app_id = 7;
  user_id = user;
  role = member;
  joined_at = user;
}

abbrev pub ann_owns : RoomMembership
ann_owns = record (membership 1) { role = owner }

abbrev pub carl_asks : JoinRequest
carl_asks = record {
  id = 20;
  room_id = 10;
  app_id = 7;
  user_id = 3;
  status = pending;
  decided_by = none;
  created_at = 5;
  updated_at = 5;
}

abbrev pub bob_studies : StudySession
bob_studies = record {
  id = 30;
  room_id = 10;
  app_id = 7;
  user_id = 2;
  status = running;
  started_at = 5;
  finished_at = none;
  updated_at = 5;
}

abbrev pub application : Application
application = record {
  app_id = 7;
  issuer = [];
  audience = [];
  jwks_uri = [];
  enabled = true;
  chat_retention_days = some 30;
  session_retention_days = none;
}

abbrev pub tables : Db
tables = record {
  applications = application ∷ [];
  users = [];
  rooms = library ∷ [];
  memberships = ann_owns ∷ membership 2 ∷ [];
  join_requests = carl_asks ∷ [];
  sessions = bob_studies ∷ [];
  messages = [];
  audit_logs = [];
  idempotency_records = [];
}

-- Bob is connected by the socket 50.
abbrev pub sockets : Redis
sockets = record {
  connections =
      record {
        app_id = 7;
        room_id = 10;
        socket_id = 50;
        value = presence 2 false;
        expires_at = 90000000;
      }
      ∷ [];
  index = record { app_id = 7; room_id = 10; socket_id = 50 } ∷ [];
  index_expiry = record { app_id = 7; room_id = 10; expires_at = 90000000 } ∷ [];
}

abbrev pub world : World
world = record { db = tables; redis = sockets; idempotency_requests = []; emissions = [] }

abbrev pub digest : Digest
digest (create_room title) = 3 * length title
digest (send_message room text) = 3 * (room + length text) + 1
digest (start_session room) = 3 * room + 2

-- A key of a client
abbrev pub client_key : Text
client_key = b'k' ∷ []
