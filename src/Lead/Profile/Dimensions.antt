-- ===== src/Lead/Profile/Dimensions.antt =====
-- Progressive profiling: how a patch changes what is captured, and what the gate makes of it.
use leadto_sales_re.Base.{
  ℕ, ◌+◌, ◌*◌, ◌≤◌, ◌<◌, ◌≡◌, ◌⊎◌, inl, inr, Bool, true, false, ◌||◌, not, none, some, List, arith,
  leb, if◌then◌else◌, Bool-cases, is_some, any,
}
use leadto_sales_re.Lead.Profile
use leadto_sales_re.Lead.Profile.{
  can_advance_to_recommendation, ProfilePatch, BuyerProfile, Dimension, patch_accepted, apply,
  captured_dimensions, missing_dimensions, completeness, is_dimension,
}

-- Whether a profile holds an answer for the dimension.
abbrev pub holds : Dimension → BuyerProfile → Bool
holds Dimension.budget p = is_some p.budget
holds Dimension.locations p = not (Profile.is_empty_list p.locations)
holds Dimension.property_type p = is_some p.property_type
holds Dimension.timeline p = is_some p.timeline
holds Dimension.must_haves p = not (Profile.is_empty_list p.must_haves)

-- Whether a patch carries the dimension.
abbrev pub carries : Dimension → ProfilePatch → Bool
carries Dimension.budget q = is_some q.budget
carries Dimension.locations q = is_some q.locations
carries Dimension.property_type q = is_some q.property_type
carries Dimension.timeline q = is_some q.timeline
carries Dimension.must_haves q = is_some q.must_haves

abbrev lists : Dimension → List Dimension → Bool
lists d = any (is_dimension d)

-- For every profile and dimension: exactly one of the two lists has the dimension, and it is the
-- captured one exactly when the profile holds an answer.
pub captured_or_missing :
    (d : Dimension) (p : BuyerProfile)
    → (lists d (captured_dimensions p) ≡ holds d p)
      × (lists d (missing_dimensions p) ≡ not (holds d p))
unfolding captured_dimensions missing_dimensions
captured_or_missing Dimension.budget p = ground arith
captured_or_missing _ p = ground arith

-- After an accepted patch a dimension is held exactly if it was held before or the patch carries it.
pub holds-apply :
    (d : Dimension) (now : ℕ) (q : ProfilePatch) (p : BuyerProfile)
    → patch_accepted q ≡ true
    → holds d (apply now q p) ≡ (holds d p || carries d q)
unfolding apply patch_accepted
holds-apply Dimension.budget now q p h = ground arith
holds-apply _ now q p h = ground arith

abbrev count_of : Bool → ℕ
count_of b = if b then 1 else 0

-- The number of the five dimensions that are held.
abbrev held : BuyerProfile → ℕ
held p =
    count_of (holds Dimension.budget p)
    + count_of (holds Dimension.locations p)
    + count_of (holds Dimension.property_type p)
    + count_of (holds Dimension.timeline p)
    + count_of (holds Dimension.must_haves p)

pub completeness-eq-held : (p : BuyerProfile) → completeness p ≡ 20 * held p
unfolding completeness
completeness-eq-held p = ground arith

count_of-or : (a b : Bool) → count_of a ≤ count_of (a || b)
count_of-or true b = omega arith
count_of-or false b = omega arith

-- An accepted patch never lowers the completeness.
pub completeness-le-apply :
    (now : ℕ) (q : ProfilePatch) (p : BuyerProfile)
    → patch_accepted q ≡ true
    → completeness p ≤ completeness (apply now q p)
completeness-le-apply now q p h =
    let grows : (d : Dimension) → count_of (holds d p) ≤ count_of (holds d (apply now q p)) =
      λ d. rw (holds-apply d now q p h) (count_of-or (holds d p) (carries d q)) in
    omega (
      arith,
      completeness-eq-held p,
      completeness-eq-held (apply now q p),
      grows Dimension.budget,
      grows Dimension.locations,
      grows Dimension.property_type,
      grows Dimension.timeline,
      grows Dimension.must_haves,
    )

-- The first of the missing dimensions is one that the profile does not hold; with less than all
-- five held there is one.
first_missing :
    (p : BuyerProfile)
    → completeness p < 100
    → (d : Dimension) × (Profile.first (missing_dimensions p) ≡ some d) × (holds d p ≡ false)
unfolding missing_dimensions completeness
first_missing p h = elim (Bool-cases (holds Dimension.budget p)) [
  | inr b ↦ (Dimension.budget, ground arith, b)
  | inl b ↦ elim (Bool-cases (holds Dimension.locations p)) [
    | inr l ↦ (Dimension.locations, ground arith, l)
    | inl l ↦ elim (Bool-cases (holds Dimension.property_type p)) [
      | inr t ↦ (Dimension.property_type, ground arith, t)
      | inl t ↦ elim (Bool-cases (holds Dimension.timeline p)) [
        | inr w ↦ (Dimension.timeline, ground arith, w)
        | inl w ↦ (Dimension.must_haves, ground arith, ground arith)
      ]
    ]
  ]
]

-- For every threshold up to 100, whatever the profile: the gate lets it pass exactly if its
-- completeness reaches the threshold, and otherwise names a dimension that it does not hold.
pub gate_directs :
    (threshold : ℕ) (p : BuyerProfile)
    → threshold ≤ 100
    → let g = can_advance_to_recommendation threshold p in
      ((g.can_advance ≡ true) × (threshold ≤ completeness p) × (g.missing_dimension ≡ none))
      ⊎ ((d : Dimension) × (g.can_advance ≡ false)
          × (completeness p < threshold)
          × (g.missing_dimension ≡ some d)
          × (holds d p ≡ false))
unfolding can_advance_to_recommendation
gate_directs threshold p h = elim (Bool-cases (leb threshold (completeness p))) [
  | inl pass ↦ inl (ground arith, ground arith, ground arith)
  | inr stop ↦
      let (d, e, n) = first_missing p (ground arith) in
      inr (d, ground arith, ground arith, ground arith, n)
]
