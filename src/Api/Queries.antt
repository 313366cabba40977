-- ===== src/Api/Queries.antt =====
-- The handlers of the controllers that answer with what a service returns: the queries and the
-- cancellation of a join request. A query's limit that is not given is 50.
use study_room_sdk.Base.{ℕ, Option, none, some}
use study_room_sdk.Domain.{Ambient, Identity, Page}
use study_room_sdk.Domain.World.{World}
use study_room_sdk.Domain.Wire.{RoomDto, JoinRequestDto, StudySessionDto, ChatMessageDto}
use study_room_sdk.Service.Monad.{Action}
use study_room_sdk.Page.{Seek}
use study_room_sdk.Rooms.Defs.{get, list}
use study_room_sdk.Rooms.Requests.{
  list_my_join_requests, list_room_join_requests, cancel_join_request,
}
use study_room_sdk.Sessions.{list_active}
use study_room_sdk.Chat.{history}

abbrev pub limit_or_default : Option ℕ → ℕ
limit_or_default none = 50
limit_or_default (some n) = n

-- `RoomsController.list`
unfoldable pub get_rooms : Seek → ℕ → Identity → Option ℕ → Option ℕ → Action (Page RoomDto)
get_rooms seek now identity cursor limit = list seek now identity cursor (limit_or_default limit)

-- `RoomsController.get`
unfoldable pub get_room : ℕ → ℕ → Identity → Action RoomDto
get_room now room identity = get now room identity

-- `RoomsController.myRequests`
unfoldable pub get_my_requests :
    Seek → Identity → Option ℕ → Option ℕ → Action (Page JoinRequestDto)
get_my_requests seek identity cursor limit =
    list_my_join_requests seek identity cursor (limit_or_default limit)

-- `RoomsController.roomRequests`
unfoldable pub get_room_requests :
    Seek → ℕ → Identity → Option ℕ → Option ℕ → Action (Page JoinRequestDto)
get_room_requests seek room identity cursor limit =
    list_room_join_requests seek room identity cursor (limit_or_default limit)

-- `RoomsController.cancelRequest`
unfoldable pub delete_join_request : Ambient → (World → World) → ℕ → Identity → Action (Unit {0})
delete_join_request ambient others room identity = cancel_join_request ambient others room identity

-- `SessionsController.listActive`
unfoldable pub get_active_sessions :
    Seek → ℕ → Identity → Option ℕ → Option ℕ → Action (Page StudySessionDto)
get_active_sessions seek room identity cursor limit =
    list_active seek room identity cursor (limit_or_default limit)

-- `ChatController.history`
unfoldable pub get_messages :
    Seek → ℕ → Identity → Option ℕ → Option ℕ → Action (Page ChatMessageDto)
get_messages seek room identity cursor limit =
    history seek room identity cursor (limit_or_default limit)
