-- ===== src/Auth/Users.antt =====
-- The table of users after a token was accepted.
use study_room_sdk.Base.{
  ℕ, ◌≡◌, refl, inl, inr, false, ◌&&◌, List, [], ◌∷◌, ◌++◌, Bool, some, arith, ◌==◌, ==_refl, find?,
  Option-cases, find?-append, find?-any, find?-update_where_hit, find?-update_where_miss,
  any-of_find?,
}
use study_room_sdk.Domain.{Identity, TenantUser}
use study_room_sdk.Rooms.Defs.{user_is}
use study_room_sdk.Auth.{upsert_user}

-- The user's row has the name and the picture of the identity, and any other user's row is as before.
abbrev pub IsStored : Identity → List TenantUser → List TenantUser → Type 0
IsStored i before after =
    ((u : TenantUser) × (find? (user_is i.app_id i.user_id) after ≡ some u)
      × (u.display_name ≡ i.display_name)
      × (u.avatar_url ≡ i.avatar_url))
    × ((app user : ℕ)
        → (app == i.app_id && user == i.user_id) ≡ false
        → find? (user_is app user) after ≡ find? (user_is app user) before)

find?-append_miss :
    (p : TenantUser → Bool) (xs : List TenantUser) (x : TenantUser)
    → p x ≡ false
    → find? p (xs ++ x ∷ []) ≡ find? p xs
unfolding find?
find?-append_miss p [] x h = rw h refl
find?-append_miss p (y ∷ ys) x h = ground (arith, find?-append_miss p ys x h)

pub upsert_user-IsStored :
    (i : Identity) (users : List TenantUser) → IsStored i users (upsert_user i users)
unfolding upsert_user
upsert_user-IsStored i users = elim (Option-cases (find? (user_is i.app_id i.user_id) users)) [
  | inl e ↦
      let fresh = any-of_find? (user_is i.app_id i.user_id) users e in
      rw fresh (
        (
          _,
          find?-append _ users _ fresh (ground (arith, ==_refl i.app_id, ==_refl i.user_id)),
          refl,
          refl,
        ),
        λ app user other. find?-append_miss (user_is app user) users _ (ground arith),
      )
  | inr (u, e) ↦ rw (find?-any (user_is i.app_id i.user_id) users e) (
    (
      record u { display_name = i.display_name; avatar_url = i.avatar_url },
      find?-update_where_hit _ _ _ users (λ y. refl) (λ y h. h) e,
      refl,
      refl,
    ),
    λ app user other.
        find?-update_where_miss _ _ _ users (λ y h. ground arith) (λ y h. ground arith),
  )
]
