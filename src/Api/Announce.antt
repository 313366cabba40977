-- ===== src/Api/Announce.antt =====
-- What the controllers publish.
use study_room_sdk.Base.{
  ℕ, ◌≡◌, ◌∙◌, refl, sym, ap, true, false, List, [], ◌∷◌, ◌++◌, none, some, find?, any, ◌==◌,
}
use study_room_sdk.Domain.{Text, Ambient, Identity, RoomMembership}
use study_room_sdk.Domain.World.{World}
use study_room_sdk.Domain.Wire.{
  room_topic, user_topic, Emission, event, evict, chat_message_created, membership_updated,
}
use study_room_sdk.Service.Monad.{done, actions, resume, quiet}
use study_room_sdk.Idempotency.{Digest, is_valid_key, finder}
use study_room_sdk.Realtime.{emit, publish_room, publish_user, evict_user}
use study_room_sdk.Rooms.Defs.{membership_in}
use study_room_sdk.Rooms.Methods.{delete}
use study_room_sdk.Chat.Retry.{options, sent, sends, resends}
use study_room_sdk.Api.Chat.{post_message}
use study_room_sdk.Api.Rooms.{dismiss, delete_room}
use mathlib.Core.List.{append_assoc}

-- A member posts a message under a new key and posts it again: both calls answer with the message,
-- and the room is told of it once.
pub post_message_told_once :
    (digest : Digest) (ambient later : Ambient) (room : ℕ) (identity : Identity) (text key : Text)
    (w : World) {m : RoomMembership}
    → find? (membership_in identity.app_id room identity.user_id w.db) w.db.memberships ≡ some m
    → is_valid_key key ≡ true
    → any (finder (options room identity text key)) w.db.idempotency_records ≡ false
    → any (λ x. x.id == ambient.uuid) w.db.messages ≡ false
    → let first = post_message digest ambient quiet room identity text (some key) w in
      let second = post_message digest later quiet room identity text (some key) first.1 in
      let dto = sent digest ambient room identity text key w in
      (first.0 ≡ done dto)
      × (second.0 ≡ done dto)
      × (second.1.emissions
          ≡ event (room_topic identity.app_id room) (chat_message_created dto) room none
            ∷ w.emissions)
unfolding actions resume post_message publish_room emit
post_message_told_once digest ambient later room identity text key w member valid free fresh =
    let dto = sent digest ambient room identity text key w in
    let told =
      event (room_topic identity.app_id room) (chat_message_created dto) room none ∷ w.emissions in
    rw (sends digest ambient room identity text key w quiet member valid free fresh) (
      rw
        (resends digest ambient room identity text key (record w { emissions = told }) later member
          valid free fresh)
        (refl, refl, refl))

-- What the members of a deleted room are sent, the latest first.
pub dismissals : ℕ → ℕ → ℕ → List ℕ → List Emission
dismissals app room version [] = []
dismissals app room version (u ∷ us) =
    dismissals app room version us
    ++ evict app room u
      ∷ event (user_topic app u) (membership_updated room false) room (some version)
      ∷ []

dismiss_lem :
    (app room version : ℕ) (us : List ℕ) (w : World)
    → dismiss app room version us w
      ≡ (done tt, record w { emissions = dismissals app room version us ++ w.emissions })
unfolding actions resume dismiss dismissals publish_user evict_user emit
dismiss_lem app room version [] w = refl
dismiss_lem app room version (u ∷ us) w =
    dismiss_lem app room version us _
    ∙ ap (λ (es : List Emission). (done tt, record w { emissions = es }))
        (sym (append_assoc (dismissals app room version us) _ w.emissions))

-- When `delete` answers with the members and the version, every one of them is told, and then made
-- to leave the room's topic, in their order; nothing else changes.
pub delete_room_tells :
    (ambient : Ambient) (others : World → World) (room : ℕ) (identity : Identity) (w v : World)
    (users : List ℕ) (version : ℕ)
    → delete ambient others room identity w ≡ (done (users, version), v)
    → delete_room ambient others room identity w ≡ (
      done tt,
      record v { emissions = dismissals identity.app_id room version users ++ v.emissions },
    )
unfolding actions resume delete_room
delete_room_tells ambient others room identity w v users version e =
    rw e (dismiss_lem identity.app_id room version users v)
