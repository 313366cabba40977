-- ===== src/Auth/Clients.antt =====
-- The clients for key sets that server/src/auth/auth.service.ts keeps, one for each address.
use study_room_sdk.Base.{
  ℕ, ◌≡◌, ◌≤◌, refl, sym, find?-append, find?-holds, Bool, false, List, [], ◌∷◌, ◌++◌, Option, none,
  some, arith, find?, any, All-append_one, count, All, Option-cases, Bool-cases, inl, inr,
  count-append_one, any-of_find?, count-of_none,
}
use study_room_sdk.Domain.{Text}
use study_room_sdk.Text.{text_eq, text_eq_refl, text_eq_sound}
use study_room_sdk.Service.Monad.{Outcome, done, thrown}
use study_room_sdk.Applications.{Policy}
use study_room_sdk.Claims.{next, policy_allows, cache_time}

-- What a client is made with that is not the same for all: its address, and for how long it keeps keys
pub record JwksClient : Type 0 where
  pub jwks_uri : Text
  pub cache_max_age : ℕ

abbrev pub client_of : Text → JwksClient → Bool
client_of uri c = text_eq c.jwks_uri uri

-- `cacheMaxAge`
unfoldable pub cache_max_age_of : Option ℕ → Outcome ℕ
unfolding cache_time
cache_max_age_of none = next (cache_time none) (λ _. done 0)
cache_max_age_of (some ms) = next (cache_time (some ms)) (λ _. done ms)

unfoldable pub add_client :
    Text → List JwksClient → Outcome ℕ → Outcome JwksClient × List JwksClient
add_client uri clients (thrown e) = (thrown e, clients)
add_client uri clients (done age) =
    let c : JwksClient = record { jwks_uri = uri; cache_max_age = age } in
    (done c, clients ++ c ∷ [])

unfoldable pub find_or_add :
    Option ℕ → Text → List JwksClient → Option JwksClient → Outcome JwksClient × List JwksClient
unfolding add_client cache_max_age_of
find_or_add cache_ms uri clients (some c) = (done c, clients)
find_or_add cache_ms uri clients none = add_client uri clients (cache_max_age_of cache_ms)

unfoldable pub if_allowed :
    Option ℕ → Text → List JwksClient → Outcome (Unit {0}) → Outcome JwksClient × List JwksClient
unfolding find_or_add
if_allowed cache_ms uri clients (thrown e) = (thrown e, clients)
if_allowed cache_ms uri clients (done _) =
    find_or_add cache_ms uri clients (find? (client_of uri) clients)

-- `client`; `cache_ms` is the configured time for key sets, if it is a safe integer
unfoldable pub client :
    Policy → Option ℕ → Text → List JwksClient → Outcome JwksClient × List JwksClient
unfolding if_allowed
client policy cache_ms uri clients = if_allowed cache_ms uri clients (policy_allows (policy uri))

-- One client for an address at most, and each at an address that the policy allows, with a time from a
-- second to a day.
abbrev pub AreSound : Policy → List JwksClient → Type 0
AreSound policy clients =
    All (λ c. (policy c.jwks_uri ≡ none) × (1000 ≤ c.cache_max_age) × (c.cache_max_age ≤ 86400000))
      clients
    × ((uri : Text) → count (client_of uri) clients ≤ 1)

cache_max_age_bounds :
    (cache_ms : Option ℕ) (age : ℕ)
    → cache_max_age_of cache_ms ≡ done age
    → (1000 ≤ age) × (age ≤ 86400000)
unfolding cache_max_age_of cache_time next
cache_max_age_bounds none age h = ground arith
cache_max_age_bounds (some ms) age h = ground arith

new-AreSound :
    (policy : Policy) (uri : Text) (age : ℕ) (clients : List JwksClient)
    → policy uri ≡ none
    → (1000 ≤ age) × (age ≤ 86400000)
    → any (client_of uri) clients ≡ false
    → AreSound policy clients
    → AreSound policy (clients ++ record { jwks_uri = uri; cache_max_age = age } ∷ [])
new-AreSound policy uri age clients allowed bounds absent (each, one) = (
  All-append_one _ clients each (allowed, bounds.0, bounds.1),
  λ u. elim (Bool-cases (text_eq uri u)) [
    | inl e ↦
        let same : uri ≡ u = text_eq_sound uri u e in
        let c = rw same at absent in
        ground (
          arith,
          count-append_one (client_of u) clients (record { jwks_uri = uri; cache_max_age = age }),
          count-of_none (client_of u) clients c,
        )
    | inr e ↦ ground (
      arith,
      count-append_one (client_of u) clients (record { jwks_uri = uri; cache_max_age = age }),
      one u,
    )
  ],
)

-- What `client` has found or made
abbrev Served : Policy → Text → List JwksClient → JwksClient → List JwksClient → Type 0
Served policy uri clients c after =
    AreSound policy after × (c.jwks_uri ≡ uri) × (find? (client_of uri) after ≡ some c)

added-Served :
    (policy : Policy) (uri : Text) (clients : List JwksClient) (o : Outcome ℕ) (c : JwksClient)
    (after : List JwksClient)
    → policy uri ≡ none
    → ((age : ℕ) → o ≡ done age → (1000 ≤ age) × (age ≤ 86400000))
    → find? (client_of uri) clients ≡ none
    → AreSound policy clients
    → add_client uri clients o ≡ (done c, after)
    → Served policy uri clients c after
unfolding add_client
added-Served policy uri clients (thrown e) c after allowed bounds absent sound h =
    absurd (ground arith)
added-Served policy uri clients (done age) c after allowed bounds absent sound h =
    let made : JwksClient = record { jwks_uri = uri; cache_max_age = age } in
    let is_made : made ≡ c = cc h in
    let is_after : clients ++ made ∷ [] ≡ after = cc h in
    let nowhere = any-of_find? (client_of uri) clients absent in
    rw (sym is_made, sym is_after)
      (
        new-AreSound policy uri age clients allowed (bounds age refl) nowhere sound,
        refl,
        find?-append (client_of uri) clients made nowhere (text_eq_refl uri),
      )

-- A call that answers with a client: it is the client of that address, the map still has at most one
-- client for an address, each at an address that the policy allows and with a time from a second to a
-- day, and the next call for the address answers with the same client, whatever time is configured
-- then.
pub client_served :
    (policy : Policy) (cache_ms later : Option ℕ) (uri : Text) (clients : List JwksClient)
    (c : JwksClient) (after : List JwksClient)
    → AreSound policy clients
    → client policy cache_ms uri clients ≡ (done c, after)
    → AreSound policy after × (c.jwks_uri ≡ uri) × (client policy later uri after ≡ (done c, after))
unfolding client if_allowed find_or_add
client_served policy cache_ms later uri clients c after sound h = elim (Option-cases (policy uri)) [
  | inr (reason, e) ↦ let k = rw e at h in absurd (ground arith)
  | inl allowed ↦
      let k = rw allowed at h in
      let served : Served policy uri clients c after =
        elim (Option-cases (find? (client_of uri) clients)) [
          | inl absent ↦
              let made = rw absent at k in
              added-Served policy uri clients (cache_max_age_of cache_ms) c after allowed
                (cache_max_age_bounds cache_ms) absent sound made
          | inr (old, found) ↦
              let same = rw found at k in
              let is_old : old ≡ c = cc same in
              let is_same : clients ≡ after = cc same in
              rw (sym is_old, sym is_same)
                (sound, text_eq_sound _ _ (find?-holds (client_of uri) clients found), found)
        ] in
      (served.0, served.1, rw (allowed, served.2) refl)
]
