-- ===== src/Api/Chat.antt =====
-- server/src/chat/chat.controller.ts
use study_room_sdk.Base.{ℕ, Option, none}
use study_room_sdk.Domain.{Text, Ambient, Identity}
use study_room_sdk.Domain.World.{World}
use study_room_sdk.Domain.Wire.{ChatMessageDto, chat_message_created}
use study_room_sdk.Service.Monad.{Action, ◌>>=◌, ◌>>◌, return_value, only_if}
use study_room_sdk.Idempotency.{Digest}
use study_room_sdk.Realtime.{publish_room}
use study_room_sdk.Chat.{send_idempotent}

-- `send`
unfoldable pub post_message :
    Digest → Ambient → (World → World) → ℕ → Identity → Text → Option Text → Action ChatMessageDto
post_message digest ambient others room identity text key = do
  result ← send_idempotent digest ambient others room identity text key
  only_if result.created
      (publish_room identity.app_id room (chat_message_created result.value) none)
  return_value result.value
