-- ===== src/Service/Keeps.antt =====
-- Invariants of actions: a rule for each way to compose them.
use study_room_sdk.Base.{◌≡◌, refl, Bool, Option, none, some}
use study_room_sdk.Domain.World.{World}
use study_room_sdk.Domain.{Db}
use study_room_sdk.Service.Monad.{
  Failure, Outcome, done, thrown, Action, ◌>>=◌, or_throw, attempt, resume, recovered, query,
  return_value, throw, throw_if, meanwhile, ◌>>◌, transaction, rolled_back,
}

-- Whatever way the action ends, it leaves a world in which `P` holds if `P` held before.
pub record Keeps {A : Type 0} (P : World → Type 0) (m : Action A) : Type 0 where
  pub keeps : (w : World) → P w → P (m w).1

module _ {P : World → Type 0} {A B : Type 0} where
  resume-Keeps :
      (r : Outcome A × World) (f : A → Action B)
      → P r.1
      → ((a : A) → Keeps P (f a))
      → P (resume f r).1
  unfolding resume
  resume-Keeps (done a, v) f h k = (k a).keeps v h
  resume-Keeps (thrown e, v) f h k = h

  pub bind-Keeps :
      {m : Action A} {f : A → Action B} → Keeps P m → ((a : A) → Keeps P (f a)) → Keeps P (m >>= f)
  unfolding ◌>>=◌
  bind-Keeps {m} {f} km kf = record { keeps = λ w h. resume-Keeps (m w) f (km.keeps w h) kf }

module _ {P : World → Type 0} {A : Type 0} where
  recovered-Keeps :
      (r : Outcome A × World) (f : Failure → Action A)
      → P r.1
      → ((e : Failure) → Keeps P (f e))
      → P (recovered f r).1
  unfolding recovered
  recovered-Keeps (done a, v) f h k = h
  recovered-Keeps (thrown e, v) f h k = (k e).keeps v h

  pub attempt-Keeps :
      {m : Action A} {f : Failure → Action A}
      → Keeps P m
      → ((e : Failure) → Keeps P (f e))
      → Keeps P (attempt m f)
  unfolding attempt
  attempt-Keeps {m} {f} km kf = record { keeps = λ w h. recovered-Keeps (m w) f (km.keeps w h) kf }

  -- An action that leaves `P` alone by computation.
  pub plain-Keeps : {m : Action A} → ((w : World) → P w → P (m w).1) → Keeps P m
  plain-Keeps k = record { keeps = k }

  pub query-Keeps : (f : Db → A) → Keeps P (query f)
  unfolding query
  query-Keeps f = record { keeps = λ w h. h }

  pub return_value-Keeps : (a : A) → Keeps P (return_value a)
  unfolding return_value
  return_value-Keeps a = record { keeps = λ w h. h }

  pub throw-Keeps : (e : Failure) → Keeps P (throw {A = A} e)
  unfolding throw
  throw-Keeps e = record { keeps = λ w h. h }

  pub or_throw-Keeps : (o : Option A) (e : Failure) → Keeps P (or_throw o e)
  unfolding or_throw return_value throw
  or_throw-Keeps none e = record { keeps = λ w h. h }
  or_throw-Keeps (some a) e = record { keeps = λ w h. h }

module _ {P : World → Type 0} where
  pub throw_if-Keeps : (c : Bool) (e : Failure) → Keeps P (throw_if c e)
  unfolding throw_if
  throw_if-Keeps c e = record { keeps = λ w h. h }

  pub meanwhile-Keeps :
      (others : World → World) → ((w : World) → P w → P (others w)) → Keeps P (meanwhile others)
  unfolding meanwhile
  meanwhile-Keeps others k = record { keeps = k }

  pub then-Keeps :
      {A B : Type 0} {m : Action A} {k : Action B} → Keeps P m → Keeps P k → Keeps P (m >> k)
  unfolding ◌>>◌
  then-Keeps km kk = bind-Keeps km (λ _. kk)

module _ {P : World → Type 0} {A B : Type 0} (Q : A → Type 0) where
  resume-Keeps_post :
      (r : Outcome A × World) (f : A → Action B)
      → P r.1
      → ((a : A) (v : World) → r ≡ (done a, v) → Q a)
      → ((a : A) → Q a → Keeps P (f a))
      → P (resume f r).1
  unfolding resume
  resume-Keeps_post (done a, v) f h q k = (k a (q a v refl)).keeps v h
  resume-Keeps_post (thrown e, v) f h q k = h

  -- What follows may rely on what holds of the values that the first action returns.
  pub bind-Keeps_post :
      {m : Action A} {f : A → Action B}
      → ((w : World) (a : A) (v : World) → m w ≡ (done a, v) → Q a)
      → Keeps P m
      → ((a : A) → Q a → Keeps P (f a))
      → Keeps P (m >>= f)
  unfolding ◌>>=◌
  bind-Keeps_post {m} {f} q km kf = record {
    keeps = λ w h. resume-Keeps_post (m w) f (km.keeps w h) (q w) kf;
  }

module _ {P : World → Type 0} {A B : Type 0} where
  -- What follows a query may rely on the world that it read.
  pub query-Keeps_post :
      (f : Db → A) (k : A → Action B)
      → ((w : World) → P w → Keeps P (k (f w.db)))
      → Keeps P (query f >>= k)
  unfolding query ◌>>=◌ resume
  query-Keeps_post f k kept = record { keeps = λ w h. (kept w h).keeps w h }

rolled_back-Keeps :
    {A : Type 0} (Q : Db → Type 0) (w : World) (r : Outcome A × World)
    → Q w.db
    → Q r.1.db
    → Q (rolled_back w r).1.db
unfolding rolled_back
rolled_back-Keeps Q w (done a, v) before after = after
rolled_back-Keeps Q w (thrown e, v) before after = before

-- A transaction that is rolled back has the tables of before.
pub transaction-Keeps :
    {A : Type 0} (Q : Db → Type 0) {m : Action A}
    → Keeps (λ w. Q w.db) m
    → Keeps (λ w. Q w.db) (transaction m)
unfolding transaction
transaction-Keeps {A} Q {m} k = record {
  keeps = λ w h. rolled_back-Keeps Q w (m w) h (k.keeps w h);
}
