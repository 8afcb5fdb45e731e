-- ===== src/Base/Table.antt =====
-- A database table as the list of its rows in the order of insertion. `key` is the primary key.
use Prim.Native.Nat.{ℕ}
use mathlib.Core.Path.{◌≡◌, refl}
use mathlib.Core.Logic.{◌≢◌}
use mathlib.Core.Option.{Option, none, some}
use mathlib.Core.List.{List, [], ◌∷◌, ◌++◌}
use native.Mathlib.Omega.{arith}
use leadto_sales_re.Base.Tests.{◌==◌, if◌then◌else◌}
use mathlib.Core.Bool.{Bool, true}
use leadto_sales_re.Base.Lists.{select, All}

module _ {A : Type 0} (key : A → ℕ) where
  -- `session.get(Row, k)`
  abbrev pub get_row : ℕ → List A → Option A
  get_row k [] = none
  get_row k (r ∷ t) = if key r == k then some r else get_row k t

  -- Attribute writes on the row that `session.get(Row, k)` returned.
  abbrev pub set_row : ℕ → (A → A) → List A → List A
  set_row k f [] = []
  set_row k f (r ∷ t) = if key r == k then f r ∷ t else r ∷ set_row k f t

  pub get_row-key : (k : ℕ) (r : A) (t : List A) → get_row k t ≡ some r → key r ≡ k
  get_row-key k r [] h = cc
  get_row-key k r (x ∷ t) h = ground (arith, get_row-key k r t)

  pub get_row-append_new :
      (k : ℕ) (t : List A) (r : A)
      → get_row k t ≡ none
      → key r ≡ k
      → get_row k (t ++ r ∷ []) ≡ some r
  get_row-append_new k [] r h e = ground arith
  get_row-append_new k (x ∷ t) r h e = ground (arith, get_row-append_new k t r)

  pub get_row-append_ne :
      (k : ℕ) (t : List A) (r : A) → key r ≢ k → get_row k (t ++ r ∷ []) ≡ get_row k t
  get_row-append_ne k [] r h = ground arith
  get_row-append_ne k (x ∷ t) r h = ground (arith, get_row-append_ne k t r h)

  pub get_row-set_row_self :
      (k : ℕ) (f : A → A) (t : List A) {r : A}
      → key (f r) ≡ key r
      → get_row k t ≡ some r
      → get_row k (set_row k f t) ≡ some (f r)
  get_row-set_row_self k f [] e h = cc
  get_row-set_row_self k f (x ∷ t) e h = ground (arith, get_row-set_row_self k f t e)

  pub get_row-set_row_ne :
      (k j : ℕ) (f : A → A) (t : List A)
      → ((r : A) → key (f r) ≡ key r)
      → j ≢ k
      → get_row j (set_row k f t) ≡ get_row j t
  get_row-set_row_ne k j f [] e h = refl
  get_row-set_row_ne k j f (x ∷ t) e h = ground (arith, e x, get_row-set_row_ne k j f t e h)

  -- The keys of a table with a primary key.
  abbrev pub UniqueKeys : List A → Type 0
  UniqueKeys [] = Unit
  UniqueKeys (r ∷ t) = All (λ s. key s ≢ key r) t × UniqueKeys t

  module _ (p : A → Bool) where
    select_other :
        (k : ℕ) (t : List A) (r : A) → All (λ s. key s ≢ k) t → select p t ≡ r ∷ [] → key r ≢ k
    select_other k [] r h e = absurd (ground arith)
    select_other k (x ∷ t) r h e = ground (arith, select_other k t r h.1)

    -- The only row that a query selects is the one with its key.
    pub get_row-select :
        (t : List A) (r : A) → UniqueKeys t → select p t ≡ r ∷ [] → get_row (key r) t ≡ some r
    get_row-select [] r u e = absurd (ground arith)
    get_row-select (x ∷ t) r u e =
        ground (arith, get_row-select t r u.1, select_other (key x) t r u.0)

    -- Writing it leaves the query with the row as written.
    pub select-set_row :
        (f : A → A) (t : List A) (r : A)
        → UniqueKeys t
        → select p t ≡ r ∷ []
        → p (f r) ≡ true
        → select p (set_row (key r) f t) ≡ f r ∷ []
    select-set_row f [] r u e h = absurd (ground arith)
    select-set_row f (x ∷ t) r u e h =
        ground (arith, select-set_row f t r u.1, select_other (key x) t r u.0)

    pub select-append_new :
        (t : List A) (r : A) → select p t ≡ [] → p r ≡ true → select p (t ++ r ∷ []) ≡ r ∷ []
    select-append_new [] r e h = ground arith
    select-append_new (x ∷ t) r e h = ground (arith, select-append_new t r)

    pub select_holds : (t : List A) (r : A) → select p t ≡ r ∷ [] → p r ≡ true
    select_holds [] r e = absurd (ground arith)
    select_holds (x ∷ t) r e = ground (arith, select_holds t r)
