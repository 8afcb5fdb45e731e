-- ===== src/Session/Untouched.antt =====
-- Actions that leave a part of the database alone, whatever they commit.
use leadto_sales_re.Base.{◌≡◌, refl, Bool, true, false, if◌then◌else◌}
use leadto_sales_re.Result.{Result, ok, err}
use leadto_sales_re.Database.{Database}
use leadto_sales_re.Session.{
  Action, Session, lift, continue, commit, pure, fresh, in_session, ◌>>=◌, ◌>>◌,
}

module _ {C : Type 0} (part : Database → C) where
  -- The part is the same in what the session sees and in what is committed.
  abbrev pub Holds : C → Session → Type 0
  Holds x s = (part s.working ≡ x) × (part s.committed ≡ x)

  abbrev pub Untouched : {A : Type 0} → Action A → Type 0
  Untouched m = (x : C) (s : Session) → Holds x s → Holds x (m s).1

  continue-Untouched :
      {A B : Type 0} (r : Result A) (k : A → Action B) (x : C) (s : Session)
      → ((a : A) → Untouched (k a))
      → Holds x s
      → Holds x (continue r k s).1
  continue-Untouched (ok a) k x s h p = h a x s p
  continue-Untouched (err e) k x s h p = p

  pub bind-Untouched :
      {A B : Type 0} (m : Action A) (k : A → Action B)
      → Untouched m
      → ((a : A) → Untouched (k a))
      → Untouched (m >>= k)
  bind-Untouched m k h g x s p = continue-Untouched (m s).0 k x (m s).1 g (h x s p)

  pub then-Untouched :
      {B : Type 0} (m : Action (Unit {0})) (k : Action B)
      → Untouched m
      → Untouched k
      → Untouched (m >> k)
  then-Untouched m k h g = bind-Untouched m (λ _. k) h (λ _. g)

  pub lift-Untouched : {A : Type 0} (r : Result A) → Untouched (lift r)
  lift-Untouched r x s p = p

  pub pure-Untouched : {A : Type 0} (a : A) → Untouched (pure a)
  pure-Untouched a x s p = p

  pub commit-Untouched : Untouched commit
  unfolding commit
  commit-Untouched x s p = (p.0, p.0)

  pub if-Untouched :
      {A : Type 0} (b : Bool) (m n : Action A)
      → Untouched m
      → Untouched n
      → Untouched (if b then m else n)
  if-Untouched true m n h g = h
  if-Untouched false m n h g = g

  pub in_session-Untouched :
      {A : Type 0} (m : Action A) (db : Database) → Untouched m → part (in_session m db).1 ≡ part db
  in_session-Untouched m db h = (h (part db) (fresh db) (refl, refl)).1
