-- ===== src/Tests/Sockets.antt =====
-- The theorems on the sockets of an instance, at Bob's socket 50 in the room 10.
use study_room_sdk.Base.{
  ℕ, ◌≡◌, ◌≤◌, refl, ◌+◌, true, false, not, ◌&&◌, ◌||◌, [], ◌∷◌, some, arith, ◌==◌, Bool, any, max,
}
use study_room_sdk.Domain.{Identity}
use study_room_sdk.Domain.World.{World}
use study_room_sdk.Domain.Wire.{Topic, room_topic}
use study_room_sdk.Rooms.Defs.{is_member}
use study_room_sdk.Gateway
use study_room_sdk.Gateway.{Instance}
use study_room_sdk.Sockets.{Socket, ok}
use study_room_sdk.Gateway.SocketIo.{Adapter, same_topic}
use study_room_sdk.Gateway.Eviction.{all_but}
use study_room_sdk.Gateway.Steps.{Permits}
use study_room_sdk.Gateway.History.{
  History, start, requests, connects, subscribes, evicts, OnlyTo, history-OnlyTo, evicted_stays_out,
}
use study_room_sdk.Gateway.Expiry.{schedule_expiry, schedule_expiry_disconnects}
use study_room_sdk.Gateway.Overtaken.{subscribe_overtaken}
use study_room_sdk.Tests.Data.{ann_owns, bob, world, tables}

-- The topics as a relation.
abbrev pub topics_of_sockets : Adapter
topics_of_sockets = record {
  State = ℕ → Topic → Bool;
  join = λ j u s i t. i == j && same_topic t u || s i t;
  leave = λ j u s i t. not (i == j && same_topic t u) && s i t;
  sockets_leave = λ of u s i t. not (same_topic t u && s i of) && s i t;
  leave_all = λ j s i t. not (i == j) && s i t;
  is_in = λ i t s. s i t;
  is_in-join = λ i j t u s. refl;
  is_in-leave = λ i j t u s. refl;
  is_in-sockets_leave = λ i t u of s. refl;
  is_in-leave_all = λ i j t s. refl;
}

abbrev pub nobody : Instance topics_of_sockets
nobody = record { sockets = []; topics = λ i t. false; world = world }

abbrev pub everyone_bob : ℕ → Identity
everyone_bob i = bob

abbrev pub socket_50 : Socket
socket_50 = record { id = 50; identity = bob; joined_room_ids = [] }

abbrev pub unchanged : Instance topics_of_sockets → Instance topics_of_sockets
unchanged s = s

abbrev pub connected : Instance topics_of_sockets
connected = Gateway.handle_connection topics_of_sockets 50 bob nobody

abbrev pub listening : Instance topics_of_sockets
listening =
    (Gateway.subscribe_room topics_of_sockets 60 5 unchanged socket_50 (some 10) connected).1

-- The room without Bob.
abbrev without_bob : World
without_bob = record world { db = record tables { memberships = ann_owns ∷ [] } }

abbrev in_room_10 : Identity → ℕ → Bool
in_room_10 identity room = room == 10

pub listens :
    (may : Identity → ℕ → Bool) → History topics_of_sockets everyone_bob may nobody listening
unfolding Gateway.subscribe_room Gateway.handle_connection
listens may =
    subscribes 60 5 unchanged socket_50 (some 10) (connects 50 start (λ app room. refl)) refl start

permitted_tables : Permits in_room_10 tables
unfolding is_member any
permitted_tables identity room h = ground arith

history-OnlyTo_example : OnlyTo topics_of_sockets in_room_10 listening
history-OnlyTo_example =
    history-OnlyTo topics_of_sockets everyone_bob in_room_10 (listens in_room_10) refl
      permitted_tables

abbrev removed : Instance topics_of_sockets
removed = record listening { world = without_bob }

evicted_stays_out_example : OnlyTo topics_of_sockets (all_but 7 10 2) (
    Gateway.evict topics_of_sockets 7 10 2
      (Gateway.handle_room_eviction topics_of_sockets 6 7 10 2 removed))
unfolding any
evicted_stays_out_example =
    evicted_stays_out topics_of_sockets everyone_bob 6 7 10 2
      (requests without_bob (listens (λ identity r. true)) (λ i r k. refl)) refl refl
      (evicts 7 10 2 start)

-- Between the check and the rest Bob is removed and the instance hears of it.
abbrev removing : Instance topics_of_sockets → Instance topics_of_sockets
removing s =
    Gateway.handle_room_eviction topics_of_sockets 6 7 10 2 (record s { world = without_bob })

subscribe_overtaken_example :
    let (reply, t) =
      Gateway.subscribe_room topics_of_sockets 60 7 removing socket_50 (some 10) connected in
    (reply ≡ ok) × (t.topics 50 (room_topic 7 10) ≡ true) × (is_member 10 bob t.world.db ≡ false)
unfolding Gateway.handle_connection Gateway.handle_room_eviction is_member any
subscribe_overtaken_example =
    subscribe_overtaken topics_of_sockets 60 7 removing socket_50 10 connected refl

-- Timers that are three milliseconds late, and a token for seventy days.
schedule_expiry_disconnects_example :
    (t : ℕ) × (schedule_expiry (λ now d. now + d + 3) 6048000000 3 0 ≡ some t)
    × (6048000000 ≤ t)
    × (t ≤ max 0 6048000000 + 3)
schedule_expiry_disconnects_example =
    schedule_expiry_disconnects (λ now d. now + d + 3) 3 (λ now d h. (omega arith, omega arith))
      6048000000 3 0 (omega arith)
