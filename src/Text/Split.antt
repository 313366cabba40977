-- ===== src/Text/Split.antt =====
-- `split` and `filter(Boolean)`: the words of a text, as scopes and allowed origins are read.
use study_room_sdk.Base.{
  ℕ, ◌≡◌, refl, ◌∙◌, ap, Bool, true, false, List, [], ◌∷◌, ◌++◌, if◌then◌else◌, select, All,
}
use study_room_sdk.Domain.{Text}

abbrev put_front : ℕ → List Text → List Text
put_front c [] = (c ∷ []) ∷ []
put_front c (t ∷ ts) = (c ∷ t) ∷ ts

-- `split` at every unit that the test accepts
unfoldable pub split_where : (ℕ → Bool) → Text → List Text
split_where p [] = [] ∷ []
split_where p (c ∷ s) = let rest = split_where p s in if p c then [] ∷ rest else put_front c rest

-- `Boolean` of a string
abbrev pub is_not_empty : Text → Bool
is_not_empty [] = false
is_not_empty (c ∷ s) = true

unfoldable pub words : (ℕ → Bool) → Text → List Text
unfolding split_where
words p s = select is_not_empty (split_where p s)

abbrev pub join : ℕ → List Text → Text
join sep [] = []
join sep (w ∷ []) = w
join sep (w ∷ v ∷ ws) = w ++ sep ∷ join sep (v ∷ ws)

-- A text without separators that is not empty.
abbrev pub IsWord : (ℕ → Bool) → Text → Type 0
IsWord p w = All (λ c. p c ≡ false) w × (is_not_empty w ≡ true)

abbrev prepend : Text → List Text → List Text
prepend [] ts = ts
prepend (c ∷ w) ts = put_front c (prepend w ts)

split-append :
    (p : ℕ → Bool) (w s : Text)
    → All (λ c. p c ≡ false) w
    → split_where p (w ++ s) ≡ prepend w (split_where p s)
unfolding split_where
split-append p [] s h = refl
split-append p (c ∷ w) s (e, h) = rw (e, split-append p w s h) refl

prepend-word : (w : Text) (t : Text) (ts : List Text) → prepend w (t ∷ ts) ≡ (w ++ t) ∷ ts
prepend-word [] t ts = refl
prepend-word (c ∷ w) t ts = rw (prepend-word w t ts) refl

append-empty : (w : Text) → w ++ [] ≡ w
append-empty [] = refl
append-empty (c ∷ w) = rw (append-empty w) refl

split-separator :
    (p : ℕ → Bool) (sep : ℕ) (s : Text)
    → p sep ≡ true
    → split_where p (sep ∷ s) ≡ [] ∷ split_where p s
unfolding split_where
split-separator p sep s e = rw e refl

-- Words that are joined with one separator are read back.
pub words-join :
    (p : ℕ → Bool) (sep : ℕ) (ws : List Text)
    → p sep ≡ true
    → All (IsWord p) ws
    → words p (join sep ws) ≡ ws
unfolding words select split_where
words-join p sep [] e h = refl
words-join p sep (w ∷ []) e ((plain, kept), h) =
    let split : split_where p (w ++ []) ≡ (w ++ []) ∷ [] =
      split-append p w [] plain ∙ prepend-word w [] [] in
    let one : split_where p w ≡ w ∷ [] = rw (append-empty w) at split in rw one (rw kept refl)
words-join p sep (w ∷ v ∷ ws) e ((plain, kept), h) =
    let split : split_where p (w ++ sep ∷ join sep (v ∷ ws))
        ≡ (w ++ []) ∷ split_where p (join sep (v ∷ ws)) =
      split-append p w (sep ∷ join sep (v ∷ ws)) plain
      ∙ ap (prepend w) (split-separator p sep (join sep (v ∷ ws)) e)
      ∙ prepend-word w [] (split_where p (join sep (v ∷ ws))) in
    rw split (rw (append-empty w, kept, words-join p sep (v ∷ ws) e h) refl)
