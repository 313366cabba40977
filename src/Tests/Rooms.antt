-- ===== src/Tests/Rooms.antt =====
-- The theorems on rooms at a room of three.
use study_room_sdk.Base.{
  ℕ, ◌≡◌, refl, true, false, [], ◌∷◌, none, some, arith, ◌&&◌, find?, any, count,
}
use study_room_sdk.Domain.Wire.{RoomDto}
use study_room_sdk.Service.Monad.{done, quiet}
use study_room_sdk.Database.{member_is, owner_in, next_version, has_exactly_one_owner}
use study_room_sdk.Page.{Seek}
use study_room_sdk.Rooms.Defs.{is_member, membership_required}
use study_room_sdk.Rooms.Methods.{find_member, remove_member, leave, transfer_ownership, delete}
use study_room_sdk.Rooms.Requests.{approve, decide_join_request, list_room_join_requests}
use study_room_sdk.Rooms.History.{
  History, nothing, call, run, creates, removes, transfers, leaves, decides, handle,
  history_keeps_one_owner,
}
use study_room_sdk.Rooms.Access.{refusal, Refused, owner_methods_refuse, member_methods_refuse}
use study_room_sdk.Rooms.Isolation.{SameRows}
use study_room_sdk.Rooms.TenantIsolation.{HasIntegrity, handle_isolated}
use study_room_sdk.Domain.{Room, RoomMembership, owner}
use study_room_sdk.Domain.World.{World}
use study_room_sdk.Rooms.Snapshot.{Shows}
use study_room_sdk.Rooms.Effects.{remove_member_removes}
use study_room_sdk.Rooms.Transfer.{transfer_hands_over}
use study_room_sdk.Sessions.{start_idempotent, list_active}
use study_room_sdk.Chat.{send_idempotent, history}
use study_room_sdk.Tests.Data.{
  ann, bob, carl, at_noon, at_one, library, tables, world, digest, client_key,
}

-- Ann hands the room to Bob, who leaves while she does so; then she lets Carl in,
-- and he creates a room.
abbrev busy_day : History
busy_day = call at_noon ann (transfers 10 2) (call at_noon bob (leaves 10) nothing nothing) (
    call at_one ann (decides 10 20 approve) nothing
      (call at_one carl (creates (b'S' ∷ []) (some client_key)) nothing nothing))

world_has_one_owner : (r : ℕ) → has_exactly_one_owner r world.db ≡ true
unfolding has_exactly_one_owner any count
world_has_one_owner r = ground arith

history_keeps_one_owner_example : has_exactly_one_owner 10 (run digest busy_day world).db ≡ true
history_keeps_one_owner_example =
    history_keeps_one_owner digest busy_day world world_has_one_owner 10

remove_member_removes_example :
    let (answer, u) = remove_member at_noon quiet 10 2 ann world in
    ((dto : RoomDto) × (answer ≡ done dto) × Shows (next_version library) dto)
    × (any (member_is 10 2) u.db.memberships ≡ false)
    × (find? (member_is 10 1) u.db.memberships ≡ find? (member_is 10 1) world.db.memberships)
    × (count (owner_in 10) u.db.memberships ≡ 1)
unfolding find? any count find_member
remove_member_removes_example =
    remove_member_removes at_noon quiet 10 2 ann world refl refl refl refl refl refl refl refl refl
      1 (omega arith)

transfer_hands_over_example :
    let (answer, u) = transfer_ownership at_noon quiet 10 2 ann world in
    ((dto : RoomDto) × (answer ≡ done dto) × Shows (next_version library) dto)
    × (count (owner_in 10) u.db.memberships ≡ 1)
    × (any (λ m. member_is 10 2 m && owner_in 10 m) u.db.memberships ≡ true)
    × (any (λ m. member_is 10 1 m && owner_in 10 m) u.db.memberships ≡ false)
unfolding find? any count find_member
transfer_hands_over_example =
    transfer_hands_over at_noon quiet 10 2 ann world refl refl refl refl refl refl refl refl refl

-- A list is read from its start, whatever the cursor.
abbrev from_start : Seek
from_start A key cursor rows = rows

owner_methods_refuse_example :
    let e = refusal 10 bob world.db in
    Refused world e (remove_member at_noon quiet 10 1 bob)
    × Refused world e (transfer_ownership at_noon quiet 10 1 bob)
    × Refused world e (delete at_noon quiet 10 bob)
    × Refused world e (decide_join_request at_noon quiet 10 20 approve bob)
    × Refused world e (list_room_join_requests from_start 10 bob none 5)
unfolding any
owner_methods_refuse_example =
    owner_methods_refuse 10 bob world at_noon quiet from_start 1 20 5 approve none refl

member_methods_refuse_example :
    let e = membership_required in
    Refused world e (leave at_noon quiet 10 carl)
    × Refused world e (send_idempotent digest at_noon quiet 10 carl (b'h' ∷ []) (some client_key))
    × Refused world e (history from_start 10 carl none 5)
    × Refused world e (start_idempotent digest at_noon quiet 10 carl (some client_key))
    × Refused world e (list_active from_start 10 carl none 5)
unfolding any is_member
member_methods_refuse_example =
    member_methods_refuse 10 carl world digest at_noon quiet from_start (b'h' ∷ []) client_key 5
      none refl

-- A room of another application, of which Dora is the owner
abbrev studio : Room
studio = record { id = 11; app_id = 8; title = b'S' ∷ []; version = 1; deleted_at = none }

abbrev dora_owns : RoomMembership
dora_owns = record { room_id = 11; app_id = 8; user_id = 4; role = owner; joined_at = 1 }

abbrev shared : World
shared = record world {
  db = record tables {
    rooms = studio ∷ library ∷ [];
    memberships = dora_owns ∷ tables.memberships;
  };
}

shared-HasIntegrity : HasIntegrity shared.db
unfolding any count
shared-HasIntegrity = ((λ id. ground arith), (λ id app h. ground arith), λ id. ground arith)

handle_isolated_example :
    SameRows 8 shared.db (handle digest at_noon quiet ann (removes 10 2) shared).db
handle_isolated_example =
    handle_isolated digest at_noon quiet ann 8 shared shared-HasIntegrity (omega arith) (λ v k. k)
      (removes 10 2)
