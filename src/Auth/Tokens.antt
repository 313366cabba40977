-- ===== src/Auth/Tokens.antt =====
-- What is known of a caller whose token was accepted, and of one whose token was not.
use study_room_sdk.Base.{
  ℕ, String, ◌≡◌, ◌≤◌, refl, ap, ◌∙◌, inl, inr, true, ◌&&◌, Option, none, some, leb, ◌==◌,
  Bool-cases, length, arith,
}
use study_room_sdk.Domain.{Text, Identity, Application}
use study_room_sdk.Service.Monad.{Outcome, done, thrown, Failure}
use study_room_sdk.Text.{trim}
use study_room_sdk.Text.Split.{is_not_empty}
use study_room_sdk.Applications.{Policy, get_enabled, if_enabled}
use study_room_sdk.Auth.{
  verify, identity_of, identity_in, upsert_user, user_written, upserted, identified, verify_claimed,
  verify_user_token,
}
use study_room_sdk.Auth.Users.{IsStored, upsert_user-IsStored}
use study_room_sdk.Claims.{
  Claim, text, number, missing, other, items, Payload, Decoded, claims, plain_text, Jwt, Tenants,
  next, value_or, algorithms, object_of, allowed_by, as_text, claimed_app,
}

module _ {A B : Type 0} where
  next-done :
      (m : Outcome A) (f : A → Outcome B) (b : B)
      → next m f ≡ done b
      → (a : A) × (m ≡ done a) × (f a ≡ done b)
  unfolding next
  next-done (done a) f b h = (a, refl, h)
  next-done (thrown e) f b h = cc

value_or-done :
    {A : Type 0} (o : Option A) (e : Failure) (a : A) → value_or o e ≡ done a → o ≡ some a
value_or-done none e a h = cc
value_or-done (some b) e a h = cc

object_of-done : (d : Decoded) (p : Payload) → object_of d ≡ done p → d ≡ claims p
object_of-done (claims q) p h = cc
object_of-done plain_text p h = cc

allowed_by-done : (o : Option String) → allowed_by o ≡ done tt → o ≡ none
allowed_by-done none h = refl
allowed_by-done (some reason) h = cc

as_text-some : (c : Claim) (t : Text) → as_text c ≡ some t → c ≡ text t
as_text-some (text s) t h = cc
as_text-some missing t h = cc
as_text-some other t h = cc
as_text-some (number n) t h = cc
as_text-some (items ts) t h = cc

module _ (jwt : Jwt) (policy : Policy) (id_of : Text → ℕ) where
  -- The payload is that of the token, signed by a key of the application, for its issuer and its
  -- audience, by one of the two algorithms; the policy allows the address of the application's keys.
  abbrev pub IsSigned : Text → Application → Payload → Type 0
  IsSigned token a p =
      (policy a.jwks_uri ≡ none)
      × ((kid : Text) × (key : jwt.Key) × (jwt.get_signing_key a.jwks_uri kid ≡ some key)
          × (jwt.verify token key algorithms a.issuer a.audience ≡ some (claims p)))

  -- The identity has the identifier of the trimmed subject, which is not empty and has at most 256
  -- units, and the trimmed name, which is not empty, in the application, which is the one named.
  abbrev pub IsOf : Text → Text → Text → Application → Identity → Type 0
  IsOf sub app name a i =
      (i.user_id ≡ id_of (trim sub))
      × (is_not_empty (trim sub) ≡ true)
      × (length (trim sub) ≤ 256)
      × (i.display_name ≡ trim name)
      × (is_not_empty (trim name) ≡ true)
      × (i.app_id ≡ a.app_id)
      × (id_of app ≡ a.app_id)

  -- The identity is made of the claims.
  abbrev pub IsNamed : Application → Payload → Identity → Type 0
  IsNamed a p i =
      (sub : Text) × (app : Text) × (name : Text) × (p.sub ≡ text sub)
      × (p.app_id ≡ text app)
      × (p.display_name ≡ text name)
      × IsOf sub app name a i

  verify-IsSigned :
      (token : Text) (a : Application) (p : Payload)
      → verify jwt policy id_of token a.jwks_uri a.issuer a.audience ≡ done p
      → IsSigned token a p
  unfolding verify
  verify-IsSigned token a p h =
      let (decoded, _, h1) = next-done _ _ _ h in
      let (_, _, h2) = next-done _ _ _ h1 in
      let (kid, _, h3) = next-done _ _ _ h2 in
      let (_, allowed, h4) = next-done _ _ _ h3 in
      let (key, found, h5) = next-done _ _ _ h4 in
      let (d, verified, is_object) = next-done _ _ _ h5 in
      (
        allowed_by-done _ allowed,
        (
          kid,
          key,
          value_or-done _ _ _ found,
          value_or-done _ _ _ verified ∙ ap some (object_of-done d p is_object),
        ),
      )

  identity_of-IsOf :
      (a : Application) (sub app name : Text) (exp : ℕ) (avatar : Text) (i : Identity)
      → identity_of jwt policy id_of a sub app name exp avatar ≡ done i
      → IsOf sub app name a i
  unfolding identity_of
  identity_of-IsOf a sub app name exp avatar i h =
      elim (Bool-cases (
        is_not_empty (trim sub)
        && leb (length (trim sub)) 256
        && id_of app == a.app_id
        && is_not_empty (trim name))) [
          | inl e ↦
              let k = rw e at h in
              (cc, ground arith, ground arith, cc, ground arith, cc, ground arith)
          | inr e ↦ let k = rw e at h in cc
        ]

  identity_in-IsNamed :
      (a : Application) (p : Payload) (i : Identity)
      → identity_in jwt policy id_of a p ≡ done i
      → IsNamed a p i
  unfolding identity_in
  identity_in-IsNamed a p i h =
      let (sub, is_sub, h1) = next-done _ _ i h in
      let (app, is_app, h2) = next-done _ _ i h1 in
      let (name, is_name, h3) = next-done _ _ i h2 in
      let (exp, _, h4) = next-done _ _ i h3 in
      let (avatar, _, h5) = next-done _ _ i h4 in
      (
        sub,
        app,
        name,
        as_text-some p.sub sub (value_or-done _ _ _ is_sub),
        as_text-some p.app_id app (value_or-done _ _ _ is_app),
        as_text-some p.display_name name (value_or-done _ _ _ is_name),
        identity_of-IsOf a sub app name exp avatar i h5,
      )

  if_enabled-enabled :
      (o : Option Application) (a : Application) → if_enabled o ≡ some a → a.enabled ≡ true
  if_enabled-enabled none a h = cc
  if_enabled-enabled (some b) a h = elim (Bool-cases b.enabled) [
    | inl e ↦ let k = rw e at h in cc
    | inr e ↦ let k = rw e at h in cc
  ]

  user_written-done :
      (j : Identity) (s : Tenants) (i : Identity) (o : Option Failure)
      → (user_written jwt policy id_of j s o).0 ≡ done i
      → (j ≡ i) × ((user_written jwt policy id_of j s o).1.users ≡ upsert_user i s.users)
  unfolding user_written
  user_written-done j s i none h = let same : j ≡ i = cc in (same, rw same refl)
  user_written-done j s i (some e) h = cc

  upserted-done :
      (o : Outcome Identity) (s : Tenants) (i : Identity)
      → (upserted jwt policy id_of o s).0 ≡ done i
      → (o ≡ done i) × ((upserted jwt policy id_of o s).1.users ≡ upsert_user i s.users)
  unfolding upserted
  upserted-done (thrown e) s i h = cc
  upserted-done (done j) s i h =
      let (same, kept) = user_written-done j s i (s.upsert_throws j) h in (ap done same, kept)

  identified_sound :
      (token : Text) (found : Option Application) (i : Identity)
      → identified jwt policy id_of token found ≡ done i
      → (a : Application) × (p : Payload) × (found ≡ some a) × IsSigned token a p × IsNamed a p i
  unfolding identified
  identified_sound token found i h =
      let (a, is_found, h1) = next-done _ _ i h in
      let (p, is_verified, h2) = next-done _ _ i h1 in
      (
        a,
        p,
        value_or-done found _ a is_found,
        verify-IsSigned token a p is_verified,
        identity_in-IsNamed a p i h2,
      )

  -- The claim of the token that is read before its signature is verified
  abbrev pub IsClaimed : Text → Text → Type 0
  IsClaimed token app = (q : Payload) × (jwt.decode token ≡ some (claims q)) × (q.app_id ≡ text app)

  -- What is known of an accepted token: the application is enabled and the one that the cache or the
  -- table serves for the token's claim; the payload is signed and names that application, and the
  -- identity is made of its claims.
  abbrev pub IsAccepted : ℕ → Text → Tenants → Identity → Type 0
  IsAccepted now token s i =
      (app : Text) × (a : Application) × (p : Payload) × IsClaimed token app
      × ((get_enabled now (id_of app) s.applications).0 ≡ some a)
      × (a.enabled ≡ true)
      × IsSigned token a p
      × IsNamed a p i

  claimed_app-done :
      (o : Option Decoded) (app : Text)
      → claimed_app o ≡ done app
      → (q : Payload) × (o ≡ some (claims q)) × (q.app_id ≡ text app)
  claimed_app-done none app h = cc
  claimed_app-done (some plain_text) app h = cc
  claimed_app-done (some (claims q)) app h =
      (q, refl, as_text-some q.app_id app (value_or-done _ _ _ h))

  pub identified-IsAccepted :
      (now : ℕ) (token app : Text) (s : Tenants) (i : Identity)
      → claimed_app (jwt.decode token) ≡ done app
      → identified jwt policy id_of token (get_enabled now (id_of app) s.applications).0 ≡ done i
      → IsAccepted now token s i
  unfolding get_enabled
  identified-IsAccepted now token app s i claimed h =
      let (a, p, found, signed, named) = identified_sound token _ i h in
      (
        app,
        a,
        p,
        claimed_app-done (jwt.decode token) app claimed,
        found,
        if_enabled-enabled _ a found,
        signed,
        named,
      )

  claimed_sound :
      (now : ℕ) (token : Text) (claimed : Outcome Text) (s : Tenants) (i : Identity)
      → claimed_app (jwt.decode token) ≡ claimed
      → (verify_claimed jwt policy id_of now token claimed s).0 ≡ done i
      → IsAccepted now token s i
        × ((verify_claimed jwt policy id_of now token claimed s).1.users ≡ upsert_user i s.users)
  unfolding verify_claimed
  claimed_sound now token (thrown e) s i is_claimed h = cc
  claimed_sound now token (done app) s i is_claimed h =
      let (same, kept) = upserted-done _ _ i h in
      (identified-IsAccepted now token app s i is_claimed same, kept)

  -- A token that is accepted names an application, before and after its signature is verified: for
  -- the first name the cache or the table serves an enabled application, and the second is that
  -- application's. The token is signed by one of the keys of that application, at an address that the
  -- policy allows, for its issuer and audience and by one of the two algorithms; the identity has the
  -- trimmed subject, of 1 to 256 units, and the trimmed name, which is not empty, of the signed claims,
  -- and is in the application. The user's row then has that name and the picture, and every other
  -- user's row is as it was.
  pub verify_user_token_sound :
      (now : ℕ) (token : Text) (s : Tenants) (i : Identity)
      → (verify_user_token jwt policy id_of now token s).0 ≡ done i
      → IsAccepted now token s i
        × IsStored i s.users (verify_user_token jwt policy id_of now token s).1.users
  unfolding verify_user_token
  verify_user_token_sound now token s i h =
      let (accepted, kept) = claimed_sound now token (claimed_app (jwt.decode token)) s i refl h in
      (accepted, rw kept (upsert_user-IsStored i s.users))
