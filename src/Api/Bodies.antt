-- ===== src/Api/Bodies.antt =====
-- The bodies and the limit that server/src/generated/request-dtos.ts lets through. The length of a
-- string as the validation library counts it is an argument.
use mathlib.Core.List.{reverse-cons}
use study_room_sdk.Base.{
  ℕ, ◌≡◌, ◌≢◌, ◌∙◌, refl, ap, Bool, true, not, ◌&&◌, [], ◌∷◌, reverse, Option, none, some, arith,
  leb, any, any-append_one,
}
use study_room_sdk.Domain.{Text}
use study_room_sdk.Text.{is_space, trim_start, trim}

-- `MinLength(1)`, `MaxLength`, and a match of `\S`
abbrev pub valid_text : (Text → ℕ) → ℕ → Text → Bool
valid_text length_of max s =
    leb 1 (length_of s) && leb (length_of s) max && any (λ c. not (is_space c)) s

-- `CreateRoomBodyDto`
unfoldable pub valid_title : (Text → ℕ) → Text → Bool
valid_title length_of title = valid_text length_of 100 title

-- `SendMessageBodyDto`
unfoldable pub valid_message : (Text → ℕ) → Text → Bool
valid_message length_of text = valid_text length_of 2000 text

-- `limit` of the queries: an integer from 1 to 100, or none
unfoldable pub valid_limit : Option ℕ → Bool
valid_limit none = true
valid_limit (some n) = leb 1 n && leb n 100

abbrev visible : ℕ → Bool
visible c = not (is_space c)

any-trim_start : (s : Text) → any visible (trim_start s) ≡ any visible s
unfolding trim_start any
any-trim_start [] = refl
any-trim_start (c ∷ s) = ground (arith, any-trim_start s)

any-reverse : (s : Text) → any visible (reverse s) ≡ any visible s
unfolding any
any-reverse [] = refl
any-reverse (c ∷ s) =
    ap (any visible) (reverse-cons c s)
    ∙ any-append_one visible (reverse s) c
    ∙ ground (arith, any-reverse s)

any-trim : (s : Text) → any visible (trim s) ≡ any visible s
unfolding trim
any-trim s =
    any-reverse (trim_start (reverse (trim_start s)))
    ∙ any-trim_start (reverse (trim_start s))
    ∙ any-reverse (trim_start s)
    ∙ any-trim_start s

not_empty : (s : Text) → any visible s ≡ true → s ≢ []
unfolding any
not_empty [] h e = cc
not_empty (c ∷ s) h e = cc

-- A text that the validation lets through is not empty after the service has trimmed it, however the
-- validation counts its length.
pub text_not_empty :
    (length_of : Text → ℕ) (max : ℕ) (s : Text) → valid_text length_of max s ≡ true → trim s ≢ []
text_not_empty length_of max s h = not_empty (trim s) (any-trim s ∙ ground arith)

-- A title or a message that the validation lets through is not empty after the service has trimmed
-- it, however the validation counts its length.
pub valid_not_empty :
    (length_of : Text → ℕ) (title text : Text)
    → valid_title length_of title ≡ true
    → valid_message length_of text ≡ true
    → (trim title ≢ []) × (trim text ≢ [])
unfolding valid_title valid_message
valid_not_empty length_of title text h k =
    (text_not_empty length_of 100 title h, text_not_empty length_of 2000 text k)
