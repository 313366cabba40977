-- ===== src/Service/Ensures.antt =====
-- What holds after an action that has returned: a rule for each way to compose actions.
use study_room_sdk.Base.{◌≡◌, refl}
use study_room_sdk.Domain.World.{World}
use study_room_sdk.Domain.{Db}
use study_room_sdk.Service.Monad.{
  Outcome, done, thrown, Action, ◌>>=◌, ◌>>◌, resume, write, stored, transaction, rolled_back,
}
use study_room_sdk.Service.Keeps.{Keeps}

-- If the action returns, it leaves a world in which `Q` holds.
pub record Ensures {A : Type 0} (Q : World → Type 0) (m : Action A) : Type 0 where
  pub ensures : (w v : World) (a : A) → m w ≡ (done a, v) → Q v

resume-done :
    {A B : Type 0} (r : Outcome A × World) (f : A → Action B) (b : B) (v : World)
    → resume f r ≡ (done b, v)
    → (a : A) × (u : World) × (r ≡ (done a, u)) × (f a u ≡ (done b, v))
unfolding resume
resume-done (done a, u) f b v h = (a, u, refl, h)
resume-done (thrown e, u) f b v h = cc

module _ {Q : World → Type 0} {A B : Type 0} where
  -- The end decides, whatever came before.
  pub bind-Ensures :
      (m : Action A) {f : A → Action B} → ((a : A) → Ensures Q (f a)) → Ensures Q (m >>= f)
  unfolding ◌>>=◌
  bind-Ensures m {f} k = record {
    ensures = λ w v b h. let (a, u, _, e) = resume-done (m w) f b v h in (k a).ensures u v b e;
  }

  pub then-Ensures : (m : Action A) {k : Action B} → Ensures Q k → Ensures Q (m >> k)
  unfolding ◌>>◌
  then-Ensures m e = bind-Ensures m (λ _. e)

  -- What has been reached is kept by the rest.
  pub bind-Ensures_kept :
      {m : Action A} {f : A → Action B}
      → Ensures Q m
      → ((a : A) → Keeps Q (f a))
      → Ensures Q (m >>= f)
  unfolding ◌>>=◌
  bind-Ensures_kept {m} {f} e k = record {
    ensures = λ w v b h.
        let (a, u, p, q) = resume-done (m w) f b v h in
        let kept = (k a).keeps u (e.ensures w u a p) in kept_end (f a u) b v q kept;
  }
    where
      kept_end : (r : Outcome B × World) (b : B) (v : World) → r ≡ (done b, v) → Q r.1 → Q v
      kept_end r b v e h = let k = rw e at h in k

  pub then-Ensures_kept :
      {m : Action A} {k : Action B} → Ensures Q m → Keeps Q k → Ensures Q (m >> k)
  unfolding ◌>>◌
  then-Ensures_kept e k = bind-Ensures_kept e (λ _. k)

rolled_back-done :
    {A : Type 0} (w v : World) (a : A) (r : Outcome A × World)
    → rolled_back w r ≡ (done a, v)
    → r ≡ (done a, v)
unfolding rolled_back
rolled_back-done w v a (done b, u) h = h
rolled_back-done w v a (thrown e, u) h = cc

module _ {Q : World → Type 0} {A : Type 0} where
  pub transaction-Ensures : {m : Action A} → Ensures Q m → Ensures Q (transaction m)
  unfolding transaction
  transaction-Ensures {m} e = record {
    ensures = λ w v a h. e.ensures w v a (rolled_back-done w v a (m w) h);
  }

  -- An action that has its effect by computation.
  pub plain-Ensures :
      {m : Action A} → ((w v : World) (a : A) → m w ≡ (done a, v) → Q v) → Ensures Q m
  plain-Ensures k = record { ensures = k }

stored-done :
    {A : Type 0} (w v : World) (a : A) (o : Outcome (A × Db))
    → stored w o ≡ (done a, v)
    → (d : Db) × (o ≡ done (a, d)) × (v ≡ record w { db = d })
unfolding stored
stored-done w v a (done (b, d)) h = (d, cc, cc)
stored-done w v a (thrown e) h = cc

-- What a write that the constraints let through makes of the tables.
pub write-Ensures :
    {A : Type 0} {Q : Db → Type 0} {f : Db → Outcome (A × Db)}
    → ((d e : Db) (a : A) → f d ≡ done (a, e) → Q e)
    → Ensures (λ w. Q w.db) (write f)
unfolding write
write-Ensures {A} {Q} {f} k = record {
  ensures = λ w v a h. let (d, p, q) = stored-done w v a (f w.db) h in rw q (k w.db d a p);
}

-- A write that does not touch what `Q` is about.
pub write-Keeps :
    {A : Type 0} {Q : Db → Type 0} {f : Db → Outcome (A × Db)}
    → ((d e : Db) (a : A) → f d ≡ done (a, e) → Q d → Q e)
    → Keeps (λ w. Q w.db) (write f)
unfolding write
write-Keeps {A} {Q} {f} k = record { keeps = λ w h. stored_keeps w h (f w.db) (k w.db) }
  where
    stored_keeps :
        (w : World)
        → Q w.db
        → (o : Outcome (A × Db)) → ((e : Db) (a : A) → o ≡ done (a, e) → Q w.db → Q e)
        → Q (stored w o).1.db
    stored_keeps w h (done (a, e)) j = unfold stored in j e a refl h
    stored_keeps w h (thrown e) j = unfold stored in h
