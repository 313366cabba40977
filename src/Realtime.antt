-- ===== src/Realtime.antt =====
-- server/src/realtime/realtime.publisher.ts: what the server hands to the sockets. An emission to a
-- topic stands for `server.to(topic).emit`, with the room and the room's version of its envelope; an
-- eviction stands for `socketsLeave` and the message on the control channel.
pub mod Envelope
use study_room_sdk.Base.{ℕ, ◌∷◌, Option}
use study_room_sdk.Domain.Wire.{EventPayload, room_topic, user_topic, Emission, event, evict}
use study_room_sdk.Service.Monad.{done, Action}

unfoldable pub emit : Emission → Action (Unit {0})
emit e w = (done tt, record w { emissions = e ∷ w.emissions })

-- `publishRoom`
unfoldable pub publish_room : ℕ → ℕ → EventPayload → Option ℕ → Action (Unit {0})
unfolding emit
publish_room app room payload version = emit (event (room_topic app room) payload room version)

-- `publishUser`
unfoldable pub publish_user : ℕ → ℕ → EventPayload → ℕ → Option ℕ → Action (Unit {0})
unfolding emit
publish_user app user payload room version = emit (event (user_topic app user) payload room version)

-- `evictUser`
unfoldable pub evict_user : ℕ → ℕ → ℕ → Action (Unit {0})
unfolding emit
evict_user app room user = emit (evict app room user)
