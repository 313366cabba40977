-- ===== src/Page/Walk.antt =====
-- What a client reads that follows the cursors from page to page.
use mathlib.Core.List.{append-nil, append_assoc}
use study_room_sdk.Base.{
  ℕ, zero, suc, ◌<◌, ◌≤◌, max, ◌≡◌, ◌∙◌, refl, sym, ap, inl, inr, Bool, true, false, not, ◌&&◌,
  List, [], ◌∷◌, ◌++◌, Option, none, some, arith, ltb, ◌==◌, if◌then◌else◌, Bool-cases, any, length,
  take, drop, get_last?, take-append-drop, length-take, length-drop,
}
use study_room_sdk.Page.{Seek, pop, key_of, rows_from, page_size, page}

-- What Prisma documents of `cursor` with `skip: 1`: the rows after the first one with that key.
pub record Seeks (seek : Seek) : Type 1 where
  pub after :
      {A : Type 0} (key : A → ℕ) (xs : List A) (x : A) (ys : List A)
      → any (λ y. key y == key x) xs ≡ false
      → seek A key (key x) (xs ++ x ∷ ys) ≡ ys

-- No two rows have the same key.
unfoldable pub distinct : {A : Type 0} → (A → ℕ) → List A → Bool
distinct key [] = true
distinct key (x ∷ xs) = not (any (λ y. key y == key x) xs) && distinct key xs

-- The items of the pages from a cursor on, `n` pages at most.
pub walk : {A : Type 0} → Seek → (A → ℕ) → ℕ → List A → ℕ → Option ℕ → List A
walk seek key limit ordered zero cursor = []
walk seek key limit ordered (suc n) cursor =
    (page seek key cursor limit ordered).items
    ++ elim (page seek key cursor limit ordered).next_cursor [
      | none ↦ []
      | some c ↦ walk seek key limit ordered n (some c)
    ]

module _ {A : Type 0} where
  pop-take : (n : ℕ) (xs : List A) → n < length xs → pop (take (suc n) xs) ≡ take n xs
  unfolding pop
  pop-take n [] h = ground arith
  pop-take zero (x ∷ xs) h = refl
  pop-take (suc n) (x ∷ []) h = ground arith
  pop-take (suc n) (x ∷ y ∷ xs) h = ap (λ l. x ∷ l) (pop-take n (y ∷ xs) (omega arith))

  take_all : (n : ℕ) (xs : List A) → length xs ≤ n → take n xs ≡ xs
  take_all zero [] h = refl
  take_all (suc n) [] h = refl
  take_all zero (x ∷ xs) h = ground arith
  take_all (suc n) (x ∷ xs) h = ap (λ l. x ∷ l) (take_all n xs (omega arith))

  last_of :
      (x : A) (xs : List A)
      → (zs : List A) × (y : A) × (x ∷ xs ≡ zs ++ y ∷ []) × (get_last? (x ∷ xs) ≡ some y)
  last_of x [] = ([], x, refl, refl)
  last_of x (y ∷ ys) = let (zs, z, e, l) = last_of y ys in (x ∷ zs, z, ap (λ l. x ∷ l) e, l)

  last_nonempty :
      (xs : List A)
      → 0 < length xs
      → (zs : List A) × (y : A) × (xs ≡ zs ++ y ∷ []) × (get_last? xs ≡ some y)
  last_nonempty [] h = ground arith
  last_nonempty (x ∷ xs) h = last_of x xs

  distinct_before :
      (key : A → ℕ) (xs : List A) (x : A) (ys : List A)
      → distinct key (xs ++ x ∷ ys) ≡ true
      → any (λ y. key y == key x) xs ≡ false
  unfolding distinct any
  distinct_before key [] x ys h = refl
  distinct_before key (z ∷ zs) x ys h = ground (arith, distinct_before key zs x ys, later zs)
    where
      later :
          (zs : List A)
          → any (λ y. key y == key z) (zs ++ x ∷ ys) ≡ false
          → (key x == key z) ≡ false
      later [] e = ground arith
      later (w ∷ ws) e = later ws (ground arith)

module _ {A : Type 0} (seek : Seek) (key : A → ℕ) (limit : ℕ) where
  one_more :
      (ys : List A)
      → page_size limit < length ys
      → ltb (page_size limit) (length (take (suc (page_size limit)) ys)) ≡ true
  one_more ys h = rw (length-take (suc (page_size limit)) ys) (ground arith)

  -- The page of the rows that are left, whichever cursor leads to them.
  page_lem :
      (cursor : Option ℕ) (ordered ys : List A)
      → rows_from seek key cursor ordered ≡ ys
      → page seek key cursor limit ordered ≡ (record {
        items = take (page_size limit) ys;
        next_cursor =
            if ltb (page_size limit) (length ys)
            then key_of key (get_last? (take (page_size limit) ys))
            else none;
      })
  unfolding page
  page_lem cursor ordered ys e = elim (Bool-cases (ltb (page_size limit) (length ys))) [
    | inl more ↦
        rw (e, one_more ys (ground arith), pop-take (page_size limit) ys (ground arith), more) refl
    | inr last ↦
        rw
          (
            e,
            take_all (suc (page_size limit)) ys (ground arith),
            last,
            take_all (page_size limit) ys (ground arith),
          )
          refl
  ]

  -- A page has not more rows than were asked for, or one if none were, and not more than a hundred.
  pub page_bounded :
      (cursor : Option ℕ) (ordered : List A)
      → (length (page seek key cursor limit ordered).items ≤ max limit 1)
        × (length (page seek key cursor limit ordered).items ≤ 100)
  page_bounded cursor ordered =
      rw
        (
          page_lem cursor ordered _ refl,
          length-take (page_size limit) (rows_from seek key cursor ordered),
        )
        (omega arith, omega arith)

  module _ (law : Seeks seek) (ordered : List A) (d : distinct key ordered ≡ true) where
    -- The page ends in a row `y`, and the next one starts after it.
    next_page :
        (n : ℕ) (cursor : Option ℕ) (xs ys : List A)
        → ordered ≡ xs ++ ys
        → rows_from seek key cursor ordered ≡ ys
        → ltb (page_size limit) (length ys) ≡ true
        → ((c : Option ℕ)
            → rows_from seek key c ordered ≡ drop (page_size limit) ys
            → walk seek key limit ordered n c ≡ drop (page_size limit) ys)
        → walk seek key limit ordered (suc n) cursor ≡ ys
    unfolding walk
    next_page n cursor xs ys o e more rest =
        let (zs, y, split, last) =
          last_nonempty (take (page_size limit) ys)
            (rw (length-take (page_size limit) ys) (ground arith)) in
        let here : ordered ≡ (xs ++ zs) ++ y ∷ drop (page_size limit) ys =
          o
          ∙ ap (λ l. xs ++ l)
              (sym (take-append-drop (page_size limit) ys)
                ∙ ap (λ l. l ++ drop (page_size limit) ys) split
                ∙ append_assoc zs (y ∷ []) (drop (page_size limit) ys))
          ∙ sym (append_assoc xs zs (y ∷ drop (page_size limit) ys)) in
        let after : rows_from seek key (some (key y)) ordered ≡ drop (page_size limit) ys =
          ap (λ l. seek A key (key y) l) here
          ∙ law.after key (xs ++ zs) y (drop (page_size limit) ys) (
              distinct_before key (xs ++ zs) y (drop (page_size limit) ys)
                (sym (ap (λ l. distinct key l) here) ∙ d)) in
        rw (page_lem cursor ordered ys e, more, last, rest (some (key y)) after)
          (take-append-drop (page_size limit) ys)

    walk_from :
        (n : ℕ) (cursor : Option ℕ) (xs ys : List A)
        → ordered ≡ xs ++ ys
        → rows_from seek key cursor ordered ≡ ys
        → length ys ≤ n
        → walk seek key limit ordered n cursor ≡ ys
    unfolding walk
    walk_from zero cursor xs [] o e h = refl
    walk_from zero cursor xs (y ∷ ys) o e h = ground arith
    walk_from (suc n) cursor xs ys o e h =
        let rest = λ (c : Option ℕ) (f : rows_from seek key c ordered ≡ drop (page_size limit) ys).
          walk_from n c (xs ++ take (page_size limit) ys) (drop (page_size limit) ys)
            (o
              ∙ ap (λ l. xs ++ l) (sym (take-append-drop (page_size limit) ys))
              ∙ sym (append_assoc xs (take (page_size limit) ys) (drop (page_size limit) ys)))
            f (rw (length-drop (page_size limit) ys) (omega arith)) in
        elim (Bool-cases (ltb (page_size limit) (length ys))) [
          | inl more ↦ next_page n cursor xs ys o e more rest
          | inr last ↦
              rw (page_lem cursor ordered ys e, last, take_all (page_size limit) ys (ground arith))
                (append-nil ys)
        ]

-- A client that follows the cursors from the first page on reads every row once and in order, for
-- any page size asked for, if no two rows have the same key and the database reads on after the
-- cursor's row; as many requests as there are rows are enough.
pub pages_give_all :
    {A : Type 0} (seek : Seek) (key : A → ℕ) (limit : ℕ) (ordered : List A)
    → Seeks seek
    → distinct key ordered ≡ true
    → walk seek key limit ordered (length ordered) none ≡ ordered
pages_give_all seek key limit ordered law d =
    walk_from seek key limit law ordered d (length ordered) none [] ordered refl refl (omega arith)
