-- ===== src/Base/Sort.antt =====
-- `sorted(xs, key=…)`: a stable sort by insertion, over a Boolean order.
use Prim.Native.Nat.{ℕ, zero, suc, min}
use mathlib.Core.Path.{◌≡◌, refl, sym, ap, subst}
use mathlib.Core.Logic.{inl, inr}
use mathlib.Core.Bool.{Bool, true, false}
use mathlib.Core.List.{List, [], ◌∷◌, ◌++◌, Perm}
use mathlib.Core.List.Perm
use native.Mathlib.Omega.{arith}
use leadto_sales_re.Base.Tests.{if◌then◌else◌, Bool-cases}
use leadto_sales_re.Base.Lists.{select, All, length, take}

-- `le x y`: x may stand before y.
module _ {A : Type 0} (le : A → A → Bool) where
  abbrev pub insert : A → List A → List A
  insert x [] = x ∷ []
  insert x (y ∷ ys) = let rest = insert x ys in if le x y then x ∷ y ∷ ys else y ∷ rest

  abbrev pub sort : List A → List A
  sort [] = []
  sort (x ∷ xs) = insert x (sort xs)

  -- Each element may stand before all that follow it.
  abbrev pub IsSorted : List A → Type 0
  IsSorted [] = Unit
  IsSorted (x ∷ xs) = All (λ y. le x y ≡ true) xs × IsSorted xs

  insert-Perm : (x : A) (ys : List A) → Perm (insert x ys) (x ∷ ys)
  insert-Perm x [] = Perm.refl (x ∷ [])
  insert-Perm x (y ∷ ys) = elim (Bool-cases (le x y)) [
    | inl e ↦ rw e (Perm.refl (x ∷ y ∷ ys))
    | inr e ↦ rw e (Perm.trans (Perm.cons y (insert-Perm x ys)) (Perm.swap x y ys))
  ]

  sort-Perm : (xs : List A) → Perm (sort xs) xs
  sort-Perm [] = Perm.nil
  sort-Perm (x ∷ xs) = Perm.trans (insert-Perm x (sort xs)) (Perm.cons x (sort-Perm xs))

  -- Elements that the order does not tell apart keep the order in which they came.
  module _ (p : A → Bool) (alike : (x y : A) → p x ≡ true → p y ≡ true → le x y ≡ true) where
    select-insert : (x : A) (ys : List A) → select p (insert x ys) ≡ select p (x ∷ ys)
    select-insert x [] = refl
    select-insert x (y ∷ ys) = ground (arith, select-insert x ys, alike x y)

    pub select-sort : (xs : List A) → select p (sort xs) ≡ select p xs
    select-sort [] = refl
    select-sort (x ∷ xs) = ground (arith, select-insert x (sort xs), select-sort xs)

  module _ {κ} (P : A → Type κ) where
    All-insert : (x : A) (ys : List A) → P x → All P ys → All P (insert x ys)
    All-insert x [] h hs = (h, tt)
    All-insert x (y ∷ ys) h hs = elim (Bool-cases (le x y)) [
      | inl e ↦ rw e (h, hs)
      | inr e ↦ rw e (hs.0, All-insert x ys h hs.1)
    ]

    pub All-sort : (xs : List A) → All P xs → All P (sort xs)
    All-sort [] h = tt
    All-sort (x ∷ xs) h = All-insert x (sort xs) h.0 (All-sort xs h.1)

-- The laws of an order that sorting relies on.
pub record TotalPreorder {A : Type 0} (le : A → A → Bool) : Type 0 where
  pub total : (x y : A) → le x y ≡ false → le y x ≡ true
  pub trans : (x y z : A) → le x y ≡ true → le y z ≡ true → le x z ≡ true

module _ {A : Type 0} (le : A → A → Bool) (law : TotalPreorder le) where
  All-before :
      (x y : A) (zs : List A)
      → le x y ≡ true
      → All (λ z. le y z ≡ true) zs
      → All (λ z. le x z ≡ true) zs
  All-before x y [] h hs = tt
  All-before x y (z ∷ zs) h hs = (law.trans x y z h hs.0, All-before x y zs h hs.1)

  insert-IsSorted : (x : A) (ys : List A) → IsSorted le ys → IsSorted le (insert le x ys)
  insert-IsSorted x [] h = (tt, tt)
  insert-IsSorted x (y ∷ ys) h = elim (Bool-cases (le x y)) [
    | inl e ↦ rw e ((e, All-before x y ys e h.0), h)
    | inr e ↦
        rw e
          (All-insert le (λ z. le y z ≡ true) x ys (law.total x y e) h.0, insert-IsSorted x ys h.1)
  ]

  sort-IsSorted : (xs : List A) → IsSorted le (sort le xs)
  sort-IsSorted [] = tt
  sort-IsSorted (x ∷ xs) = insert-IsSorted x (sort le xs) (sort-IsSorted xs)

-- What `take` leaves behind.
abbrev drop : {A : Type 0} → ℕ → List A → List A
drop zero xs = xs
drop (suc n) [] = []
drop (suc n) (x ∷ xs) = drop n xs

take-drop : {A : Type 0} (n : ℕ) (xs : List A) → take n xs ++ drop n xs ≡ xs
take-drop zero xs = refl
take-drop (suc n) [] = refl
take-drop (suc n) (x ∷ xs) = ap (λ ys. x ∷ ys) (take-drop n xs)

module _ {A : Type 0} (le : A → A → Bool) where
  All-drop : (P : A → Type 0) (n : ℕ) (xs : List A) → All P xs → All P (drop n xs)
  All-drop P zero xs h = h
  All-drop P (suc n) [] h = tt
  All-drop P (suc n) (x ∷ xs) h = All-drop P n xs h.1

  -- The first n of a sorted list stand before each of the others.
  take-before :
      (n : ℕ) (xs : List A)
      → IsSorted le xs
      → All (λ x. All (λ y. le x y ≡ true) (drop n xs)) (take n xs)
  take-before zero xs h = tt
  take-before (suc n) [] h = tt
  take-before (suc n) (x ∷ xs) h = (All-drop (λ y. le x y ≡ true) n xs h.0, take-before n xs h.1)

  pub All-take : (P : A → Type 0) (n : ℕ) (xs : List A) → All P xs → All P (take n xs)
  All-take P zero xs h = tt
  All-take P (suc n) [] h = tt
  All-take P (suc n) (x ∷ xs) h = (h.0, All-take P n xs h.1)

  take-IsSorted : (n : ℕ) (xs : List A) → IsSorted le xs → IsSorted le (take n xs)
  take-IsSorted zero xs h = tt
  take-IsSorted (suc n) [] h = tt
  take-IsSorted (suc n) (x ∷ xs) h =
      (All-take (λ y. le x y ≡ true) n xs h.0, take-IsSorted n xs h.1)

pub length-take : {A : Type 0} (n : ℕ) (xs : List A) → length (take n xs) ≡ min n (length xs)
length-take zero xs = ground arith
length-take (suc n) [] = ground arith
length-take (suc n) (x ∷ xs) = ground (arith, length-take n xs)

length-insert :
    {A : Type 0} (le : A → A → Bool) (x : A) (ys : List A)
    → length (insert le x ys) ≡ suc (length ys)
length-insert le x [] = refl
length-insert le x (y ∷ ys) = ground (arith, length-insert le x ys)

pub length-sort : {A : Type 0} (le : A → A → Bool) (xs : List A) → length (sort le xs) ≡ length xs
length-sort le [] = refl
length-sort le (x ∷ xs) = ground (arith, length-insert le x (sort le xs), length-sort le xs)

-- The first n of a sort: in order, and each may stand before each of the elements left out.
pub take-sort_best :
    {A : Type 0} (le : A → A → Bool)
    → TotalPreorder le
    → (n : ℕ) (xs : List A)
    → IsSorted le (take n (sort le xs))
      × ((others : List A) × Perm (take n (sort le xs) ++ others) xs
          × All (λ x. All (λ y. le x y ≡ true) others) (take n (sort le xs)))
take-sort_best le law n xs =
    let sorted = sort-IsSorted le law xs in
    (
      take-IsSorted le n (sort le xs) sorted,
      (
        drop n (sort le xs),
        subst (λ ys. Perm ys xs) (sym (take-drop n (sort le xs))) (sort-Perm le xs),
        take-before le n (sort le xs) sorted,
      ),
    )
