-- ===== src/Tests/Departures.antt =====
-- Ann removes Bob, whose socket 50 is in the room 10.
use study_room_sdk.Base.{
  ◌≡◌, refl, true, find?, any, update_where, count, delete_where, sort_by, select,
}
use study_room_sdk.Domain.World.{World}
use study_room_sdk.Domain.Wire.{evict}
use study_room_sdk.Service.Monad.{done, actions, resume, stored, rolled_back, quiet}
use study_room_sdk.Database.{
  delete_membership, update_room, insert_audit, commit, room_transaction, has_exactly_one_owner,
}
use study_room_sdk.Presence.{remove_user, change_redis, statuses_for}
use study_room_sdk.Realtime.{publish_user, publish_room, evict_user}
use study_room_sdk.Rooms.Defs.{
  require_member, require_owner, snapshot, snapshot_found, to_room_dto, members_of,
}
use study_room_sdk.Rooms.Methods.{find_member, removal, remove_member, updated_room}
use study_room_sdk.Api.Rooms.{delete_member}
use study_room_sdk.Gateway
use study_room_sdk.Gateway.Eviction.{all_but}
use study_room_sdk.Gateway.History.{requests, evicts, start, OnlyTo}
use study_room_sdk.Departures.{removed, depart, NotIn, Sent, depart_cuts_off}
use study_room_sdk.Tests.Data.{ann, at_noon, world}
use study_room_sdk.Tests.Sockets.{topics_of_sockets, everyone_bob, listening, listens}

-- What Ann's call leaves.
abbrev ann_removes : World
ann_removes = (depart at_noon quiet 10 ann (removed 2) world).1

ann_removes_bob : depart at_noon quiet 10 ann (removed 2) world ≡ (done tt, ann_removes)
unfolding depart delete_member remove_member actions resume stored rolled_back removal
    room_transaction commit delete_membership update_room insert_audit has_exactly_one_owner
    remove_user change_redis statuses_for publish_user publish_room evict_user require_member
    require_owner snapshot snapshot_found to_room_dto find_member updated_room find? any
    update_where count delete_where members_of sort_by select
ann_removes_bob = refl

depart_cuts_off_example :
    NotIn 10 2 ann_removes.db
    × Sent (evict 7 10 2) ann_removes
    × OnlyTo topics_of_sockets (all_but 7 10 2) (
        Gateway.evict topics_of_sockets 7 10 2 (
          Gateway.handle_room_eviction topics_of_sockets 6 7 10 2
            (record listening { world = ann_removes })))
depart_cuts_off_example =
    depart_cuts_off topics_of_sockets everyone_bob at_noon quiet 10 ann (removed 2) world
      ann_removes 6 ann_removes_bob
      (requests ann_removes (listens (λ identity r. true)) (λ i r k. refl)) refl refl
      (evicts 7 10 2 start)
