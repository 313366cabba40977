-- ===== src/Api/AdminBodies.antt =====
-- The bodies and parameters of the administrators' routes that server/src/generated/request-dtos.ts
-- lets through. Two arguments are the validation library's: the length of a string, and whether a
-- string is a URL with a protocol (`IsUrl`).
use study_room_sdk.Base.{
  ℕ, Bool, true, false, ◌&&◌, ◌||◌, [], ◌∷◌, Option, none, some, leb, ◌==◌, all, length,
}
use study_room_sdk.Domain.{Text, Application, ApplicationChange}
use study_room_sdk.Claims.{after_prefix}

-- `[A-Za-z0-9._-]`
abbrev pub is_app_id_character : ℕ → Bool
is_app_id_character c =
    (leb b'A' c && leb c b'Z')
    || (leb b'a' c && leb c b'z')
    || (leb b'0' c && leb c b'9')
    || c == b'.'
    || c == b'_'
    || c == b'-'

-- `GetApplicationParamsDto`, `UpdateApplicationParamsDto`: `^[A-Za-z0-9._-]{1,64}$`
unfoldable pub valid_app_id : Text → Bool
valid_app_id s = leb 1 (length s) && leb (length s) 64 && all is_app_id_character s

-- A term of retention: missing, null, or 1 to 36500 days
abbrev pub valid_days : Option ℕ → Bool
valid_days none = true
valid_days (some n) = leb 1 n && leb n 36500

abbrev has_prefix : Option Text → Bool
has_prefix none = false
has_prefix (some rest) = true

-- `http://` and `https://`
abbrev pub http_prefix : Text
http_prefix = b'h' ∷ b't' ∷ b't' ∷ b'p' ∷ b':' ∷ b'/' ∷ b'/' ∷ []

abbrev pub https_prefix : Text
https_prefix = b'h' ∷ b't' ∷ b't' ∷ b'p' ∷ b's' ∷ b':' ∷ b'/' ∷ b'/' ∷ []

abbrev if_given : {A : Type 0} → (A → Bool) → Option A → Bool
if_given p none = true
if_given p (some a) = p a

abbrev is_given : {A : Type 0} → Option A → Bool
is_given none = false
is_given (some a) = true

module _ (length_of : Text → ℕ) (is_url : Text → Bool) where
  abbrev pub valid_name : Text → Bool
  valid_name s = leb 1 (length_of s)

  -- `IsUrl` and `^https?://`
  unfoldable pub valid_uri : Text → Bool
  valid_uri s =
      is_url s
      && (has_prefix (after_prefix http_prefix s) || has_prefix (after_prefix https_prefix s))

  -- `CreateApplicationBodyDto`; the identifier is a text here
  unfoldable pub valid_application : Text → Application → Bool
  unfolding valid_app_id valid_uri
  valid_application app_id a =
      valid_app_id app_id
      && valid_name a.issuer
      && valid_name a.audience
      && valid_uri a.jwks_uri
      && valid_days a.chat_retention_days
      && valid_days a.session_retention_days

  -- `UpdateApplicationBodyDto`: at least one field is given.
  unfoldable pub valid_change : ApplicationChange → Bool
  unfolding valid_uri
  valid_change c =
      if_given valid_name c.issuer
      && if_given valid_name c.audience
      && if_given valid_uri c.jwks_uri
      && if_given valid_days c.chat_retention_days
      && if_given valid_days c.session_retention_days
      && (is_given c.issuer
          || is_given c.audience
          || is_given c.jwks_uri
          || is_given c.enabled
          || is_given c.chat_retention_days
          || is_given c.session_retention_days)
