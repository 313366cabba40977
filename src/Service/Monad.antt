-- ===== src/Service/Monad.antt =====
-- The exceptions of the server and the actions that can throw them. `transaction` is Prisma's
-- `$transaction`: an exception takes the database back to where it was.
use study_room_sdk.Base.{ℕ, String, Bool, true, false, Option, none, some, if◌then◌else◌}
use study_room_sdk.Domain.World.{World}
use study_room_sdk.Domain.{Db}

-- The response body of an `HttpException`: a text, or an object with `code` and `message`.
pub data ErrorBody : Type 0 where
  message : String → ErrorBody
  coded : String → String → ErrorBody

-- The codes of `PrismaClientKnownRequestError`: a unique constraint, a foreign key, a missing row.
pub data PrismaCode : Type 0 where
  p2002 p2003 p2025 : PrismaCode

pub data Failure : Type 0 where
  bad_request unauthorized forbidden not_found conflict unavailable : ErrorBody → Failure
  rate_limited : String → ℕ → Failure
  known_request : PrismaCode → Failure
  constraint_violation : Failure
  fault : String → Failure

pub data Outcome (A : Type 0) : Type 0 where
  done : A → Outcome A
  thrown : Failure → Outcome A

abbrev pub Action : Type 0 → Type 0
Action A = World → Outcome A × World

unfoldable pub return_value : {A : Type 0} → A → Action A
return_value a w = (done a, w)

unfoldable pub throw : {A : Type 0} → Failure → Action A
throw e w = (thrown e, w)

-- An exception skips what follows.
unfoldable pub resume : {A B : Type 0} → (A → Action B) → Outcome A × World → Outcome B × World
resume f (done a, v) = f a v
resume f (thrown e, v) = (thrown e, v)

infixl 5 ◌>>=◌ ◌>>◌
unfoldable pub ◌>>=◌ : {A B : Type 0} → Action A → (A → Action B) → Action B
unfolding resume
◌>>=◌ m f w = resume f (m w)

unfoldable pub ◌>>◌ : {A B : Type 0} → Action A → Action B → Action B
unfolding ◌>>=◌
m >> k = m >>= λ _. k

-- A query: it reads the database and changes nothing.
unfoldable pub query : {A : Type 0} → (Db → A) → Action A
query f w = (done (f w.db), w)

unfoldable pub stored : {A : Type 0} → World → Outcome (A × Db) → Outcome A × World
stored w (done (a, d)) = (done a, record w { db = d })
stored w (thrown e) = (thrown e, w)

-- A write of the database that the constraints may refuse.
unfoldable pub write : {A : Type 0} → (Db → Outcome (A × Db)) → Action A
unfolding stored
write f w = stored w (f w.db)

-- `if (!o) throw e`
unfoldable pub or_throw : {A : Type 0} → Option A → Failure → Action A
or_throw none e = throw e
or_throw (some a) e = return_value a

-- `if (c) throw e`
unfoldable pub throw_if : Bool → Failure → Action (Unit {0})
throw_if c e w = (if c then thrown e else done tt, w)

-- `if (c) m`
unfoldable pub only_if : Bool → Action (Unit {0}) → Action (Unit {0})
only_if true m = m
only_if false m = return_value tt

-- What other requests do to the world while this one awaits.
unfoldable pub meanwhile : (World → World) → Action (Unit {0})
meanwhile others w = (done tt, others w)

abbrev pub quiet : World → World
quiet w = w

unfoldable pub rolled_back : {A : Type 0} → World → Outcome A × World → Outcome A × World
rolled_back w (done a, v) = (done a, v)
rolled_back w (thrown e, v) = (thrown e, record v { db = w.db })

unfoldable pub transaction : {A : Type 0} → Action A → Action A
unfolding rolled_back
transaction m w = rolled_back w (m w)

unfoldable pub recovered :
    {A : Type 0} → (Failure → Action A) → Outcome A × World → Outcome A × World
recovered h (done a, v) = (done a, v)
recovered h (thrown e, v) = h e v

-- `try { m } catch (e) { h e }`
unfoldable pub attempt : {A : Type 0} → Action A → (Failure → Action A) → Action A
unfolding recovered
attempt m h w = recovered h (m w)

abbrev pub is_unique_violation : Failure → Bool
is_unique_violation (known_request p2002) = true
is_unique_violation _ = false

-- Named on an `unfolding` line, it opens every action of this file.
unfoldable pub actions : Unit {0}
unfolding return_value throw ◌>>=◌ ◌>>◌ query write or_throw throw_if only_if meanwhile transaction
    attempt
actions = tt
