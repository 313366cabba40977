-- ===== src/Contracts/Parameters.antt =====
-- The parameters of an operation, as server/tool/generate-contracts.mjs merges those of its path with
-- its own (server/tool/check-contracts.mjs merges them alike, without leaving any out).
use study_room_sdk.Base.{
  ◌≡◌, ◌≤◌, refl, sym, ◌∙◌, ◌⊎◌, Bool, true, false, ◌&&◌, List, [], ◌∷◌, ◌++◌, Option, none, some,
  arith, if◌then◌else◌, find?, count, any, select, not, suc, Bool-cases, inl, inr, count-of_none,
}
use study_room_sdk.Domain.{Text}
use study_room_sdk.Text.{text_eq, text_eq_refl, text_eq_sound}
use study_room_sdk.Contracts.Schema.{Schema, ref_name}

pub data Location : Type 0 where
  in_path in_query in_header in_cookie : Location

abbrev pub same_location : Location → Location → Bool
same_location in_path in_path = true
same_location in_query in_query = true
same_location in_header in_header = true
same_location in_cookie in_cookie = true
same_location _ _ = false

pub record Parameter : Type 0 where
  pub location : Location
  pub name : Text
  pub is_required : Bool
  pub schema : Option Schema

-- A parameter, or the reference of one
pub data Candidate : Type 0 where
  given : Parameter → Candidate
  reference : Text → Candidate

abbrev pub Components : Type 0
Components = List (Text × Parameter)

unfoldable pub parameter_named : Text → Components → Option Parameter
parameter_named n [] = none
parameter_named n ((m, p) ∷ rest) =
    let later = parameter_named n rest in if text_eq m n then some p else later

-- `dereferenceParameter`; none: the reference is unknown
unfoldable pub dereference_parameter : Components → Candidate → Option Parameter
unfolding parameter_named ref_name
dereference_parameter components (given p) = some p
dereference_parameter components (reference r) = parameter_named (ref_name r) components

abbrev consed : Option Parameter → Option (List Parameter) → Option (List Parameter)
consed (some p) (some ps) = some (p ∷ ps)
consed _ _ = none

unfoldable pub dereferenced : Components → List Candidate → Option (List Parameter)
unfolding dereference_parameter
dereferenced components [] = some []
dereferenced components (c ∷ cs) =
    consed (dereference_parameter components c) (dereferenced components cs)

-- The key `${parameter.in}:${parameter.name}`
abbrev pub key_is : Location → Text → Parameter → Bool
key_is l n p = same_location p.location l && text_eq p.name n

-- `merged.set`: a key that is there keeps its place.
unfoldable pub put : Parameter → List Parameter → List Parameter
put p [] = p ∷ []
put p (q ∷ qs) = if key_is p.location p.name q then p ∷ qs else q ∷ put p qs

unfoldable pub merged : List Parameter → List Parameter → List Parameter
unfolding put
merged map [] = map
merged map (p ∷ ps) = merged (put p map) ps

-- `['path', 'query'].includes(parameter.in)`
abbrev pub is_read : Location → Bool
is_read in_path = true
is_read in_query = true
is_read _ = false

abbrev merge_read : Option (List Parameter) → Option (List Parameter)
merge_read none = none
merge_read (some ps) = some (merged [] (select (λ p. is_read p.location) ps))

-- `mergedParameters`, of the parameters of a path and of an operation
unfoldable pub merged_parameters :
    Components → List Candidate → List Candidate → Option (List Parameter)
unfolding dereferenced merged
merged_parameters components of_path of_operation =
    merge_read (dereferenced components (of_path ++ of_operation))

location_refl : (l : Location) → same_location l l ≡ true
location_refl in_path = refl
location_refl in_query = refl
location_refl in_header = refl
location_refl in_cookie = refl

location_sound : (l m : Location) → same_location l m ≡ true → l ≡ m
location_sound l m h = ground arith

key_refl : (p : Parameter) → key_is p.location p.name p ≡ true
key_refl p = ground (arith, location_refl p.location, text_eq_refl p.name)

-- With the same key as `p` a parameter answers to the keys that `p` answers to.
key_same :
    (p q : Parameter) (l : Location) (n : Text)
    → key_is p.location p.name q ≡ true
    → key_is l n q ≡ key_is l n p
key_same p q l n h =
    let a : q.location ≡ p.location = location_sound _ _ (ground arith) in
    let b : q.name ≡ p.name = text_eq_sound _ _ (ground arith) in rw (a, b) refl

abbrev or_else : {A : Type 0} → Option A → Option A → Option A
or_else (some a) b = some a
or_else none b = b

or_else-none : {A : Type 0} (o : Option A) → or_else o none ≡ o
or_else-none none = refl
or_else-none (some a) = refl

or_else_assoc :
    {A : Type 0} (o : Option A) (b : Bool) (a : A) (rest : Option A)
    → or_else o (if b then some a else rest) ≡ or_else (or_else o (if b then some a else none)) rest
or_else_assoc none true a rest = refl
or_else_assoc none false a rest = refl
or_else_assoc (some x) b a rest = refl

key_both :
    (p q : Parameter) (l : Location) (n : Text)
    → key_is l n p ≡ true
    → key_is l n q ≡ true
    → key_is p.location p.name q ≡ true
key_both p q l n h k =
    let a : p.location ≡ l = location_sound _ _ (ground arith) in
    let b : p.name ≡ n = text_eq_sound _ _ (ground arith) in rw (a, b) k

find?-put :
    (l : Location) (n : Text) (p : Parameter) (map : List Parameter)
    → find? (key_is l n) (put p map) ≡ (if key_is l n p then some p else find? (key_is l n) map)
unfolding find? put
find?-put l n p [] = refl
find?-put l n p (q ∷ qs) = elim (Bool-cases (key_is p.location p.name q)) [
  | inl e ↦ rw (e, key_same p q l n e) (ground arith)
  | inr e ↦ rw (e, find?-put l n p qs) (ground (arith, key_both p q l n))
]

count-put :
    (l : Location) (n : Text) (p : Parameter) (map : List Parameter)
    → count (key_is l n) (put p map) ≡ (
        if key_is l n p && not (any (key_is l n) map)
        then suc (count (key_is l n) map)
        else count (key_is l n) map)
unfolding count put any
count-put l n p [] = ground arith
count-put l n p (q ∷ qs) = elim (Bool-cases (key_is p.location p.name q)) [
  | inl e ↦ rw (e, key_same p q l n e) (ground arith)
  | inr e ↦ rw (e, count-put l n p qs) (ground (arith, key_both p q l n))
]

-- The last one with the key
unfoldable pub last_with : Location → Text → List Parameter → Option Parameter
last_with l n [] = none
last_with l n (p ∷ ps) = or_else (last_with l n ps) (if key_is l n p then some p else none)

find?-merged :
    (l : Location) (n : Text) (map ps : List Parameter)
    → find? (key_is l n) (merged map ps) ≡ or_else (last_with l n ps) (find? (key_is l n) map)
unfolding merged last_with
find?-merged l n map [] = refl
find?-merged l n map (p ∷ ps) =
    find?-merged l n (put p map) ps
    ∙ rw (find?-put l n p map)
        (or_else_assoc (last_with l n ps) (key_is l n p) p (find? (key_is l n) map))

count-merged :
    (l : Location) (n : Text) (map ps : List Parameter)
    → count (key_is l n) map ≤ 1
    → count (key_is l n) (merged map ps) ≤ 1
unfolding merged
count-merged l n map [] h = h
count-merged l n map (p ∷ ps) h =
    count-merged l n (put p map) ps
      (ground (arith, count-put l n p map, count-of_none (key_is l n) map))

key_read :
    (l : Location) (n : Text) (p : Parameter)
    → (is_read l ≡ is_read p.location) ⊎ (key_is l n p ≡ false)
key_read l n p = elim (Bool-cases (key_is l n p)) [
  | inl e ↦ let a : p.location ≡ l = location_sound _ _ (ground arith) in inl (rw a refl)
  | inr e ↦ inr e
]

kept_key :
    (o : Option Parameter) (r k : Bool) (p : Parameter)
    → (r ≡ true) ⊎ (k ≡ false)
    → or_else (if r then o else none) (if k then some p else none)
      ≡ (if r then or_else o (if k then some p else none) else none)
kept_key o true k p h = refl
kept_key o false true p h = ground arith
kept_key o false false p h = refl

left_key :
    (o : Option Parameter) (r k : Bool) (p : Parameter)
    → (r ≡ false) ⊎ (k ≡ false)
    → (if r then o else none) ≡ (if r then or_else o (if k then some p else none) else none)
left_key o false k p h = refl
left_key o true true p h = ground arith
left_key o true false p h = sym (or_else-none o)

last_read :
    (l : Location) (n : Text) (ps : List Parameter)
    → last_with l n (select (λ p. is_read p.location) ps)
      ≡ (if is_read l then last_with l n ps else none)
unfolding last_with select
last_read l n [] = ground arith
last_read l n (p ∷ ps) = elim (Bool-cases (is_read p.location)) [
  | inl e ↦
      rw (e, last_with, last_read l n ps)
        (kept_key (last_with l n ps) (is_read l) (key_is l n p) p
          (ground (arith, key_read l n p, e)))
  | inr e ↦
      rw (e, last_read l n ps)
        (left_key (last_with l n ps) (is_read l) (key_is l n p) p
          (ground (arith, key_read l n p, e)))
]

-- Merging the parameters of a path with those of an operation, where every reference is known: of each
-- place in a path or a query, and each name, there is at most one parameter, namely the last one that
-- was given for it, so that the operation's replaces the path's; parameters in other places are left
-- out.
pub merged_last :
    (components : Components) (of_path of_operation : List Candidate) (ps : List Parameter)
    (l : Location) (n : Text)
    → dereferenced components (of_path ++ of_operation) ≡ some ps
    → (map : List Parameter) × (merged_parameters components of_path of_operation ≡ some map)
      × (count (key_is l n) map ≤ 1)
      × (find? (key_is l n) map ≡ (if is_read l then last_with l n ps else none))
unfolding merged_parameters
merged_last components of_path of_operation ps l n known = (
  merged [] (select (λ p. is_read p.location) ps),
  rw known refl,
  count-merged l n [] (select (λ p. is_read p.location) ps) (unfold count in omega arith),
  find?-merged l n [] (select (λ p. is_read p.location) ps)
      ∙ unfold find? in
        or_else-none (last_with l n (select (λ p. is_read p.location) ps)) ∙ last_read l n ps,
)
