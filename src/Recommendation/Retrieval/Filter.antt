-- ===== src/Recommendation/Retrieval/Filter.antt =====
-- Which properties the filter lets through.
use leadto_sales_re.Base.{
  ℕ, String, ◌≡◌, refl, subst, ◌⊎◌, inl, inr, Bool, true, false, ◌&&◌, not, Option, none, some,
  List, [], ◌∷◌, arith, Bool-cases, select, All, All-Memᴰ,
}
use mathlib.Core.List.{Memᴰ}
use leadto_sales_re.Base.Amount.{ℤ, leb_ℤ}
use leadto_sales_re.Result.{Result, ok, err, All-map_results}
use leadto_sales_re.Database.{Database, PropertyRow}
use leadto_sales_re.Lead.Profile.{BuyerProfile, MoneyRange, PropertyType, is_empty_list}
use leadto_sales_re.Recommendation.{
  Property, matches_hard_filters, contains, is_property_type, budget_allows, type_allows,
}
use leadto_sales_re.Recommendation.Repository.{list_for_organization, to_domain, of_organization}
use leadto_sales_re.Recommendation.Retrieval.{qualifies, filter_candidates}

abbrev pub InBudget : Option MoneyRange → ℤ → Type 0
InBudget none price = Unit
InBudget (some b) price = (leb_ℤ b.minimum price ≡ true) × (leb_ℤ price b.maximum ≡ true)

abbrev pub IsWanted : Option PropertyType → PropertyType → Type 0
IsWanted none t = Unit
IsWanted (some wanted) t = t ≡ wanted

-- The property is what a row of the table holds that belongs to the organization.
abbrev pub IsStored : ℕ → Database → Property → Type 0
IsStored organization db c =
    (row : PropertyRow) × Memᴰ row db.properties
    × (row.organization_id ≡ organization)
    × (to_domain row ≡ ok c)

-- The hard constraints of a profile: its budget, its locations and its type, where it states them.
abbrev pub Meets : BuyerProfile → Property → Type 0
Meets p c =
    InBudget p.budget c.price
    × ((p.locations ≡ []) ⊎ (contains c.zone p.locations ≡ true))
    × IsWanted p.property_type c.property_type

-- A property that is stored for the organization and meets the hard constraints of the profile.
abbrev pub Qualifies : ℕ → BuyerProfile → Database → Property → Type 0
Qualifies organization p db c = Meets p c × IsStored organization db c

same_type : (a b : PropertyType) → is_property_type a b ≡ true → a ≡ b
same_type a b h = ground arith

located :
    (zones : List String) (zone : String)
    → (not (is_empty_list zones) && not (contains zone zones)) ≡ false
    → (zones ≡ []) ⊎ (contains zone zones ≡ true)
located [] zone h = inl refl
located (z ∷ zs) zone h = inr (ground arith)

budget_allows-InBudget :
    (o : Option MoneyRange) (price : ℤ) → budget_allows o price ≡ true → InBudget o price
budget_allows-InBudget none price h = tt
budget_allows-InBudget (some b) price h = (ground arith, ground arith)

type_allows-IsWanted :
    (o : Option PropertyType) (t : PropertyType) → type_allows o t ≡ true → IsWanted o t
type_allows-IsWanted none t h = tt
type_allows-IsWanted (some wanted) t h = same_type t wanted h

qualifies-Meets : (p : BuyerProfile) (c : Property) → qualifies p c ≡ true → Meets p c
unfolding matches_hard_filters
qualifies-Meets p c h =
    let affordable : budget_allows p.budget c.price ≡ true = ground arith in
    let near : (not (is_empty_list p.locations) && not (contains c.zone p.locations)) ≡ false =
      ground arith in
    let fitting : type_allows p.property_type c.property_type ≡ true = ground arith in
    (
      budget_allows-InBudget p.budget c.price affordable,
      located p.locations c.zone near,
      type_allows-IsWanted p.property_type c.property_type fitting,
    )

All-select_both :
    {A : Type 0} (P : A → Type 0) (p : A → Bool) (xs : List A)
    → All P xs
    → All (λ x. (p x ≡ true) × P x) (select p xs)
All-select_both P p [] h = tt
All-select_both P p (x ∷ xs) h = elim (Bool-cases (p x)) [
  | inl e ↦ rw e ((e, h.0), All-select_both P p xs h.1)
  | inr e ↦ rw e (All-select_both P p xs h.1)
]

module _ (organization : ℕ) (p : BuyerProfile) (db : Database) where
  All-Qualifies :
      (cs : List Property)
      → All (λ c. (qualifies p c ≡ true) × IsStored organization db c) cs
      → All (Qualifies organization p db) cs
  All-Qualifies [] h = tt
  All-Qualifies (c ∷ cs) h = ((qualifies-Meets p c h.0.0, h.0.1), All-Qualifies cs h.1)

  read-IsStored :
      (row : PropertyRow) (c : Property)
      → (of_organization organization row ≡ true) × Memᴰ row db.properties
      → to_domain row ≡ ok c
      → IsStored organization db c
  read-IsStored row c h e = (row, h.1, ground arith, e)

  listed-IsStored :
      (xs : List Property)
      → list_for_organization organization db ≡ ok xs
      → All (IsStored organization db) xs
  unfolding list_for_organization
  listed-IsStored xs =
      All-map_results to_domain
        (λ row. (of_organization organization row ≡ true) × Memᴰ row db.properties)
        (IsStored organization db) read-IsStored
        (select (of_organization organization) db.properties) xs
        (All-select_both (λ row. Memᴰ row db.properties) (of_organization organization)
          db.properties (All-Memᴰ db.properties))

  -- Whatever is stored, the filter lets through only properties that are stored for the organization
  -- and meet the hard constraints.
  pub filter_candidates_sound :
      (cs : List Property)
      → filter_candidates organization p db ≡ ok cs
      → All (Qualifies organization p db) cs
  unfolding filter_candidates
  filter_candidates_sound cs h = filtered (list_for_organization organization db) refl
    where
      filtered :
          (r : Result (List Property))
          → list_for_organization organization db ≡ r
          → All (Qualifies organization p db) cs
      filtered (err e) q = absurd (ground arith)
      filtered (ok xs) q =
          let same : select (qualifies p) xs ≡ cs = ground arith in
          subst (All (Qualifies organization p db)) same (
            All-Qualifies (select (qualifies p) xs)
              (All-select_both (IsStored organization db) (qualifies p) xs (listed-IsStored xs q)))
