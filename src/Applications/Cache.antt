-- ===== src/Applications/Cache.antt =====
-- How old an application that `get` serves may be.
use study_room_sdk.Base.{
  ℕ, ◌+◌, ◌<◌, ◌≡◌, refl, true, false, List, none, some, arith, ltb, ◌==◌, find?, find?-holds,
  find?-update_where_kept, find?-update_where_miss, update_where, delete_where, any-delete_where,
  find?-none,
}
use study_room_sdk.Domain.{Application, ApplicationChange}
use study_room_sdk.Service.Monad.{done}
use study_room_sdk.Applications.{
  Applications, row_of, entry_of, get, on_change, remember, forget, cache_ttl_ms, Policy,
  refusal_of, with_change, update, update_row, changed,
}

-- After the change of an application has been heard, the next call is served from the table, and
-- what it serves stays in the cache: until five minutes later the same is served, whatever
-- happens to the table without a further message.
pub get_after_change :
    (now later app : ℕ) (s : Applications) (rows : List Application) {a : Application}
    → find? (row_of app) s.rows ≡ some a
    → later < now + cache_ttl_ms
    → let (first, t) = get now app (on_change app s) in
      let (second, u) = get later app (record t { rows = rows }) in
      (first ≡ some a) × (second ≡ some a)
unfolding get on_change forget remember find?
get_after_change now later app s rows {a} found soon =
    let gone : find? (entry_of app) (delete_where (entry_of app) s.cache) ≡ none =
      find?-none (entry_of app) (delete_where (entry_of app) s.cache)
        (any-delete_where (entry_of app) s.cache) in
    let own : (a.app_id == app) ≡ true = find?-holds (row_of app) s.rows found in
    let alive : ltb later (now + cache_ttl_ms) ≡ true = ground arith in
    rw (gone, found) (refl, rw (own, alive) refl)

-- An update that the policy allows, of an application that is there, is served by the next `get` of
-- the same instance, whatever its cache held; every other application's row is as it was.
pub get_after_update :
    (policy : Policy) (now app actor i : ℕ) (c : ApplicationChange) (s : Applications)
    {a : Application}
    → refusal_of policy c.jwks_uri ≡ none
    → find? (row_of app) s.rows ≡ some a
    → (i == app) ≡ false
    → let (answer, t) = update policy app actor c s in
      (answer ≡ done (with_change c a))
      × ((get now app t).0 ≡ some (with_change c a))
      × (find? (row_of i) t.rows ≡ find? (row_of i) s.rows)
unfolding get update update_row changed forget
get_after_update policy now app actor i c s {a} allowed found ne =
    let own : a.app_id ≡ app = ground (arith, find?-holds (row_of app) s.rows found) in
    let gone : find? (entry_of app) (delete_where (entry_of a.app_id) s.cache) ≡ none = rw own (
      find?-none (entry_of app) (delete_where (entry_of app) s.cache)
        (any-delete_where (entry_of app) s.cache)) in
    let row : find? (row_of app) (update_where (row_of app) (with_change c) s.rows)
        ≡ some (with_change c a) =
      find?-update_where_kept (row_of app) (row_of app) (with_change c) s.rows (λ y h. refl) found
        (find?-holds (row_of app) s.rows found) in
    rw (allowed, found, gone, row)
      (
        refl,
        refl,
        find?-update_where_miss (row_of i) (row_of app) (with_change c) s.rows (λ y h. ground arith)
            (λ y h. ground arith),
      )
