-- ===== src/Session.antt =====
-- A unit of work over the database, as app/core/database.py hands it out. `working` is what the
-- session's own queries see; `committed` is what remains when the session closes. An action returns
-- its result beside the session as it leaves it, also when it raises.
pub mod Uncommitted
pub mod Untouched
use leadto_sales_re.Base.{◌≡◌, refl, Option, none, some, List, [], ◌∷◌, arith}
use leadto_sales_re.Result.{Result, Error, ok, err, multiple_results_found}
use leadto_sales_re.Database.{Database}

pub record Session : Type 0 where
  pub working : Database
  pub committed : Database

abbrev pub Action : Type 0 → Type 0
Action A = Session → Result A × Session

abbrev pub pure : {A : Type 0} → A → Action A
pure a s = (ok a, s)

abbrev pub raise : {A : Type 0} → Error → Action A
raise e s = (err e, s)

abbrev pub lift : {A : Type 0} → Result A → Action A
lift r s = (r, s)

-- A query.
abbrev pub gets : {A : Type 0} → (Database → A) → Action A
gets f s = (ok (f s.working), s)

-- Rows added or written.
abbrev pub modify : (Database → Database) → Action (Unit {0})
modify f s = (ok tt, record s { working = f s.working })

abbrev pub continue : {A B : Type 0} → Result A → (A → Action B) → Action B
continue (ok a) f s = f a s
continue (err e) f s = (err e, s)

infixl 5 ◌>>=◌ ◌>>◌
abbrev pub ◌>>=◌ : {A B : Type 0} → Action A → (A → Action B) → Action B
◌>>=◌ m f s = let (r, s') = m s in continue r f s'

abbrev pub ◌>>◌ : {B : Type 0} → Action (Unit {0}) → Action B → Action B
m >> k = m >>= λ _. k

-- `session.commit()`
unfoldable pub commit : Action (Unit {0})
commit s = (ok tt, record s { committed = s.working })

abbrev pub fresh : Database → Session
fresh db = record { working = db; committed = db }

-- `async with session_factory() as session: …`: what was not committed is gone when the block
-- ends, also when it ends by an exception.
abbrev pub in_session : {A : Type 0} → Action A → Database → Result A × Database
in_session m db = let (r, s) = m (fresh db) in (r, s.committed)

-- `result.scalar_one_or_none()`
abbrev pub scalar_one_or_none : {A : Type 0} → List A → Result (Option A)
scalar_one_or_none [] = ok none
scalar_one_or_none (r ∷ []) = ok (some r)
scalar_one_or_none (r ∷ r' ∷ t) = err multiple_results_found

-- A sequence that succeeds has passed its first step.
pub bind_ok :
    {A B : Type 0} (r : Result A) (k : A → Action B) (s : Session) (b : B)
    → (continue r k s).0 ≡ ok b
    → (a : A) × (r ≡ ok a) × ((k a s).0 ≡ ok b)
bind_ok (ok a) k s b h = (a, refl, h)
bind_ok (err e) k s b h = absurd (ground arith)
