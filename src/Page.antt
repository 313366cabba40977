-- ===== src/Page.antt =====
-- Cursor pagination: the code that every list method of the services repeats around `findMany`.
pub mod Walk
use study_room_sdk.Base.{
  ℕ, suc, min, max, List, [], ◌∷◌, Option, none, some, ltb, if◌then◌else◌, length, take, get_last?,
}
use study_room_sdk.Domain.{Page}

-- How Prisma reads `cursor` and `skip: 1`: from the ordered rows, those after the cursor's row.
abbrev pub Seek : Type 1
Seek = (A : Type 0) → (A → ℕ) → ℕ → List A → List A

-- `Array.prototype.pop`, for what it leaves.
unfoldable pub pop {ℓ} : {A : Type ℓ} → List A → List A
pop [] = []
pop (x ∷ []) = []
pop (x ∷ y ∷ xs) = x ∷ pop (y ∷ xs)

abbrev pub key_of : {A : Type 0} → (A → ℕ) → Option A → Option ℕ
key_of key none = none
key_of key (some a) = some (key a)

abbrev pub rows_from : {A : Type 0} → Seek → (A → ℕ) → Option ℕ → List A → List A
rows_from seek key none rows = rows
rows_from {A} seek key (some c) rows = seek A key c rows

-- `Math.min(Math.max(limit, 1), 100)`
abbrev pub page_size : ℕ → ℕ
page_size limit = min (max limit 1) 100

-- `take: take + 1`, `hasMore`, `pop` and `nextCursor`, on the rows in their order.
unfoldable pub page : {A : Type 0} → Seek → (A → ℕ) → Option ℕ → ℕ → List A → Page A
unfolding pop
page seek key cursor limit ordered =
    let rows = take (suc (page_size limit)) (rows_from seek key cursor ordered) in
    if ltb (page_size limit) (length rows)
    then record { items = pop rows; next_cursor = key_of key (get_last? (pop rows)) }
    else record { items = rows; next_cursor = none }

abbrev pub map_page : {A B : Type 0} → (A → B) → Page A → Page B
map_page f p = record { items = mathlib.Core.List.map f p.items; next_cursor = p.next_cursor }
