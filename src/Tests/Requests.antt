-- ===== src/Tests/Requests.antt =====
-- The theorems on join requests at a room of three.
use study_room_sdk.Base.{◌≡◌, refl, true, false, [], ◌∷◌, some, find?, any, count, update_where}
use study_room_sdk.Domain.{Identity, JoinRequest, cancelled}
use study_room_sdk.Domain.World.{World}
use study_room_sdk.Service.Monad.{done, thrown, not_found, message, quiet}
use study_room_sdk.Database.{member_is, owner_in, request_is, pending_of}
use study_room_sdk.Rooms.Defs.{is_member}
use study_room_sdk.Rooms.Requests.{
  to_join_request_dto, find_my_pending, new_request, request_join, cancel_join_request, approve,
  reject, decided, decide_in_transaction, decide_join_request,
}
use study_room_sdk.Rooms.Joining.{
  shown_request, request_join_concurrently, request_join_twice, cancel_overwrites,
}
use study_room_sdk.Rooms.Deciding.{approved_request, decide_approves, approve_in}
use study_room_sdk.Tests.Data.{identity_of, ann, carl, at_noon, at_one, carl_asks, world}

-- The fourth user
abbrev dora : Identity
dora = identity_of 4

request_join_twice_example :
    let q = new_request at_noon 10 dora in
    let (first, u) = request_join at_noon quiet 10 dora world in
    let (second, v) = request_join at_one quiet 10 dora u in
    (first ≡ done (shown_request true q u.db))
    × (second ≡ done (shown_request false q u.db))
    × (v ≡ u)
    × (count (pending_of 10 4) u.db.join_requests ≡ 1)
unfolding find? any is_member
request_join_twice_example = request_join_twice at_noon at_one 10 dora world refl refl refl refl

-- Dora's other device asks first.
abbrev dora_asks : JoinRequest
dora_asks = record (new_request at_one 10 dora) { id = 21 }

abbrev asked : World → World
asked w = record w { db = record w.db { join_requests = carl_asks ∷ dora_asks ∷ [] } }

request_join_concurrently_example :
    request_join at_noon asked 10 dora world
    ≡ (done (shown_request false dora_asks (asked world).db), asked world)
unfolding find? any is_member find_my_pending
request_join_concurrently_example =
    request_join_concurrently at_noon asked 10 dora world refl refl refl refl

-- Ann lets Carl in while he cancels.
abbrev let_in : World → World
let_in w = record w { db = approve_in at_noon 10 ann carl_asks w.db }

cancel_overwrites_example :
    let (answer, u) = cancel_join_request at_one let_in 10 carl world in
    (answer ≡ done tt)
    × (find? (request_is 20) u.db.join_requests
        ≡ some (record (decided at_noon ann approve carl_asks) {
          status = cancelled;
          updated_at = 46800000;
        }))
    × (u.db.memberships ≡ (let_in world).db.memberships)
unfolding find? update_where find_my_pending
cancel_overwrites_example = cancel_overwrites at_one let_in 10 carl world refl refl

decide_approves_example :
    let (answer, u) = decide_join_request at_noon quiet 10 20 approve ann world in
    (answer ≡ done (to_join_request_dto u.db (approved_request at_noon ann carl_asks), some 4))
    × (find? (request_is 20) u.db.join_requests ≡ some (approved_request at_noon ann carl_asks))
    × (any (member_is 10 3) u.db.memberships ≡ true)
    × (count (owner_in 10) u.db.memberships ≡ 1)
    × (decide_in_transaction at_one 10 20 reject ann u
        ≡ (thrown (not_found (message "Pending join request not found")), u))
unfolding find? any count
decide_approves_example =
    decide_approves at_noon at_one quiet 10 20 ann world reject refl refl refl refl refl refl refl
