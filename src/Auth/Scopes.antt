-- ===== src/Auth/Scopes.antt =====
-- The scopes of an administrator's token.
use study_room_sdk.Base.{◌≡◌, refl, List, All}
use study_room_sdk.Domain.{Text}
use study_room_sdk.Text.{is_space}
use study_room_sdk.Text.Split.{join, IsWord, words-join}
use study_room_sdk.Claims.{text, scopes}

-- A claim that joins scopes with spaces is read as these scopes, in their order, if none of them is
-- empty or has white space in it.
pub scopes-join : (ws : List Text) → All (IsWord is_space) ws → scopes (text (join b' ' ws)) ≡ ws
unfolding scopes is_space
scopes-join ws h = words-join is_space b' ' ws refl h
