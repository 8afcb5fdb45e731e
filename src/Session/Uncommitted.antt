-- ===== src/Session/Uncommitted.antt =====
-- Actions that leave the committing to their caller.
use leadto_sales_re.Base.{◌≡◌, refl, ◌∙◌, Bool, true, false, if◌then◌else◌}
use leadto_sales_re.Result.{Result, ok, err}
use leadto_sales_re.Database.{Database}
use leadto_sales_re.Session.{Action, Session, lift, modify, continue, ◌>>=◌, ◌>>◌}

-- Nothing is committed, whether the action succeeds or raises.
abbrev pub Uncommitted : {A : Type 0} → Action A → Type 0
Uncommitted m = (s : Session) → (m s).1.committed ≡ s.committed

continue-Uncommitted :
    {A B : Type 0} (r : Result A) (k : A → Action B) (s : Session)
    → ((a : A) → Uncommitted (k a))
    → (continue r k s).1.committed ≡ s.committed
continue-Uncommitted (ok a) k s h = h a s
continue-Uncommitted (err e) k s h = refl

pub bind-Uncommitted :
    {A B : Type 0} (m : Action A) (k : A → Action B)
    → Uncommitted m
    → ((a : A) → Uncommitted (k a))
    → Uncommitted (m >>= k)
bind-Uncommitted m k h g s = continue-Uncommitted (m s).0 k (m s).1 g ∙ h s

pub then-Uncommitted :
    {B : Type 0} (m : Action (Unit {0})) (k : Action B)
    → Uncommitted m
    → Uncommitted k
    → Uncommitted (m >> k)
then-Uncommitted m k h g = bind-Uncommitted m (λ _. k) h (λ _. g)

pub lift-Uncommitted : {A : Type 0} (r : Result A) → Uncommitted (lift r)
lift-Uncommitted r s = refl

pub modify-Uncommitted : (f : Database → Database) → Uncommitted (modify f)
modify-Uncommitted f s = refl

pub if_Uncommitted :
    {A : Type 0} (b : Bool) (m n : Action A)
    → Uncommitted m
    → Uncommitted n
    → Uncommitted (if b then m else n)
if_Uncommitted true m n h k = h
if_Uncommitted false m n h k = k
