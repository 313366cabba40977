-- ===== src/Rooms/Defs.antt =====
-- The private helpers and the reading methods of `RoomsService`.
use study_room_sdk.Base.{
  ℕ, Bool, true, false, not, ◌&&◌, List, [], ◌∷◌, map, Option, none, some, leb, ◌==◌, find?, any,
  select, sort_by,
}
use study_room_sdk.Domain.{
  Text, Db, Identity, TenantUser, Room, RoomMembership, owner, is_owner, room_created, no_metadata,
  PresenceStatus, offline, Page,
}
use study_room_sdk.Domain.World.{World}
use study_room_sdk.Domain.Wire.{MemberDto, RoomDto}
use study_room_sdk.Service.Monad.{
  Outcome, done, Failure, forbidden, not_found, known_request, p2025, message, Action, ◌>>=◌, ◌>>◌,
  return_value, query, write, or_throw, throw_if,
}
use study_room_sdk.Database.{member_is, owner_in, insert_room, insert_membership, insert_audit}
use study_room_sdk.Page.{Seek, page}
use study_room_sdk.Presence.{statuses_for}

abbrev pub user_is : ℕ → ℕ → TenantUser → Bool
user_is app user u = u.app_id == app && u.user_id == user

-- `include: { user: true }`: the foreign key says that the row is there.
abbrev pub display_name_of : Option TenantUser → Text
display_name_of none = []
display_name_of (some u) = u.display_name

abbrev pub avatar_of : Option TenantUser → Text
avatar_of none = []
avatar_of (some u) = u.avatar_url

abbrev pub user_of : ℕ → ℕ → Db → Option TenantUser
user_of app user d = find? (user_is app user) d.users

abbrev pub live_room : ℕ → ℕ → Room → Bool
live_room app room r =
    r.id == room && r.app_id == app && elim r.deleted_at [ none ↦ true | some _ ↦ false ]

-- `room: { deletedAt: null }` on a membership.
abbrev pub in_live_room : Db → RoomMembership → Bool
in_live_room d m =
    any (λ r. r.id == m.room_id && elim r.deleted_at [ none ↦ true | some _ ↦ false ]) d.rooms

abbrev pub membership_in : ℕ → ℕ → ℕ → Db → RoomMembership → Bool
membership_in app room user d m =
    m.room_id == room && m.app_id == app && m.user_id == user && in_live_room d m

abbrev pub joined_before : RoomMembership → RoomMembership → Bool
joined_before a b = leb a.joined_at b.joined_at

-- `roomInclude`
unfoldable pub members_of : ℕ → Db → List RoomMembership
members_of room d = sort_by joined_before (select (λ m. m.room_id == room) d.memberships)

abbrev pub status_in : (ℕ → Option PresenceStatus) → ℕ → PresenceStatus
status_in statuses user = elim (statuses user) [ none ↦ offline | some s ↦ s ]

unfoldable pub to_member_dto : Db → (ℕ → Option PresenceStatus) → RoomMembership → MemberDto
to_member_dto d statuses m = record {
  id = m.user_id;
  display_name = display_name_of (user_of m.app_id m.user_id d);
  avatar_url = avatar_of (user_of m.app_id m.user_id d);
  role = m.role;
  status = status_in statuses m.user_id;
}

-- `toRoomDto`, of a room as the database `d` has it
unfoldable pub to_room_dto : ℕ → Room → Db → Action RoomDto
to_room_dto now r d = do
  statuses ← statuses_for now r.app_id r.id (map (λ m. m.user_id) (members_of r.id d))
  return_value (record {
    id = r.id;
    app_id = r.app_id;
    title = r.title;
    version = r.version;
    members = map (to_member_dto d statuses) (members_of r.id d);
  })

unfoldable pub snapshot_found : ℕ → World → Option Room → Outcome (Option RoomDto) × World
snapshot_found now w none = (done none, w)
snapshot_found now w (some r) = (to_room_dto now r w.db >>= λ dto. return_value (some dto)) w

-- `snapshot`
unfoldable pub snapshot : ℕ → ℕ → ℕ → Action (Option RoomDto)
snapshot now app room w = snapshot_found now w (find? (live_room app room) w.db.rooms)

unfoldable pub is_member : ℕ → Identity → Db → Bool
is_member room identity d =
    any (membership_in identity.app_id room identity.user_id d) d.memberships

abbrev pub membership_required : Failure
membership_required = forbidden (message "Room membership is required")

abbrev pub owner_required : Failure
owner_required = forbidden (message "Room owner permission is required")

abbrev pub room_not_found : Failure
room_not_found = not_found (message "Room not found")

-- `requireMember`
unfoldable pub require_member : ℕ → Identity → Action RoomMembership
require_member room identity = do
  found ← query (λ d. find? (membership_in identity.app_id room identity.user_id d) d.memberships)
  or_throw found membership_required

-- `requireOwner`
unfoldable pub require_owner : ℕ → Identity → Action RoomMembership
require_owner room identity = do
  membership ← require_member room identity
  throw_if (not (is_owner membership.role)) owner_required
  return_value membership

-- `memberRoom`
unfoldable pub member_room : ℕ → Identity → Action Room
member_room room identity = do
  found ← query λ d.
      find?
        (λ r.
          live_room identity.app_id room r && any (member_is room identity.user_id) d.memberships)
        d.rooms
  or_throw found membership_required

-- `get`
unfoldable pub get : ℕ → ℕ → Identity → Action RoomDto
get now room identity = do r ← member_room room identity; d ← query (λ d. d); to_room_dto now r d

-- `ownerUserId`
unfoldable pub owner_user_id : ℕ → ℕ → Action ℕ
owner_user_id room app = do
  found ←
      query λ d. find? (λ m. owner_in room m && m.app_id == app && in_live_room d m) d.memberships
  m ← or_throw found (not_found (message "Room owner not found"))
  return_value m.user_id

abbrev pub by_id : Room → Room → Bool
by_id a b = leb a.id b.id

unfoldable pub to_room_dtos : ℕ → List Room → Action (List RoomDto)
to_room_dtos now [] = return_value []
to_room_dtos now (r ∷ rs) = do
  d ← query (λ d. d)
  dto ← to_room_dto now r d
  rest ← to_room_dtos now rs
  return_value (dto ∷ rest)

-- `list`
unfoldable pub list : Seek → ℕ → Identity → Option ℕ → ℕ → Action (Page RoomDto)
list seek now identity cursor limit = do
  found ← query λ d.
      page seek (λ r. r.id) cursor limit
        (sort_by by_id (
          select
            (λ r.
              live_room identity.app_id r.id r
              && any (member_is r.id identity.user_id) d.memberships)
            d.rooms))
  items ← to_room_dtos now found.items
  return_value (record { items = items; next_cursor = found.next_cursor })

-- `createRoom`, in a transaction. The membership's user is connected: it has to be there.
unfoldable pub create_room : ℕ → Text → Identity → ℕ → Action Room
create_room now title identity id = do
  r ← write (
      insert_room (record {
        id = id;
        app_id = identity.app_id;
        title = title;
        version = 1;
        deleted_at = none;
      }))
  user ← query (user_of identity.app_id identity.user_id)
  or_throw user (known_request p2025)
  write (
      insert_membership (record {
        room_id = id;
        app_id = identity.app_id;
        user_id = identity.user_id;
        role = owner;
        joined_at = now;
      }))
  write (
      insert_audit (record {
        app_id = identity.app_id;
        actor_id = identity.user_id;
        action = room_created;
        resource_id = r.id;
        metadata = no_metadata;
      }))
  return_value r
