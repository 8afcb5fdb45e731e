-- ===== src/Lead/Profile.antt =====
-- The buyer's profile: `MoneyRange`, `ProfilePatch` and `BuyerProfile` of
-- app/modules/lead_qualification/domain/models.py.
pub mod Dimensions
use leadto_sales_re.Base.{
  ℕ, ◌*◌, ◌/◌, String, Bool, true, false, ◌&&◌, ◌||◌, not, Option, none, some, List, [], ◌∷◌, ◌++◌,
  leb, ◌==◌, if◌then◌else◌, is_some, length, select, any,
}
use leadto_sales_re.Base.Amount.{ℤ, pos, leb_ℤ}

pub data Timeline : Type 0 where
  immediate three_months six_months over_six_months exploring : Timeline

pub data PropertyType : Type 0 where
  apartment house land commercial other : PropertyType

-- The fields of `MoneyRange`; `money_range` is its constructor, with the checks.
pub record MoneyRange : Type 0 where
  pub minimum : ℤ
  pub maximum : ℤ

-- `None` is the `ProfileValidationError`.
unfoldable pub money_range : ℤ → ℤ → Option MoneyRange
money_range minimum maximum =
    if leb_ℤ minimum (pos 0) || leb_ℤ maximum (pos 0)
    then none
    else if not (leb_ℤ minimum maximum)
    then none
    else some (record { minimum = minimum; maximum = maximum })

pub record ProfilePatch : Type 0 where
  pub budget : Option MoneyRange
  pub locations : Option (List String)
  pub property_type : Option PropertyType
  pub timeline : Option Timeline
  pub must_haves : Option (List String)

-- `not xs` for a tuple
abbrev pub is_empty_list {ℓ} : {A : Type ℓ} → List A → Bool
is_empty_list [] = true
is_empty_list (x ∷ xs) = false

abbrev given_and_empty : Option (List String) → Bool
given_and_empty none = false
given_and_empty (some xs) = is_empty_list xs

-- `ProfilePatch.__post_init__`: whether it raises no `ProfileValidationError`.
unfoldable pub patch_accepted : ProfilePatch → Bool
patch_accepted p = not (given_and_empty p.locations || given_and_empty p.must_haves)

unfoldable pub patch_is_empty : ProfilePatch → Bool
patch_is_empty p =
    not (is_some p.budget)
    && not (is_some p.locations)
    && not (is_some p.property_type)
    && not (is_some p.timeline)
    && not (is_some p.must_haves)

pub record BuyerProfile : Type 0 where
  pub id : ℕ
  pub lead_id : ℕ
  pub budget : Option MoneyRange
  pub locations : List String
  pub property_type : Option PropertyType
  pub timeline : Option Timeline
  pub must_haves : List String
  pub updated_at : ℕ

-- `BuyerProfile(lead_id=lead_id)`, with the new identifier and the time.
unfoldable pub new_profile : ℕ → ℕ → ℕ → BuyerProfile
new_profile id now lead_id = record {
  id = id;
  lead_id = lead_id;
  budget = none;
  locations = [];
  property_type = none;
  timeline = none;
  must_haves = [];
  updated_at = now;
}

-- The value of a patch, or the old one where the patch has none.
abbrev pub patched {ℓ} : {A : Type ℓ} → Option A → A → A
patched none old = old
patched (some new) old = new

abbrev patched_option {ℓ} : {A : Type ℓ} → Option A → Option A → Option A
patched_option none old = old
patched_option (some new) old = some new

-- `BuyerProfile.apply`
unfoldable pub apply : ℕ → ProfilePatch → BuyerProfile → BuyerProfile
apply now patch p = record p {
  budget = patched_option patch.budget p.budget;
  locations = patched patch.locations p.locations;
  property_type = patched_option patch.property_type p.property_type;
  timeline = patched_option patch.timeline p.timeline;
  must_haves = patched patch.must_haves p.must_haves;
  updated_at = now;
}

pub data Dimension : Type 0 where
  budget locations property_type timeline must_haves : Dimension

abbrev pub profile_dimensions : List Dimension
profile_dimensions =
    Dimension.budget ∷ Dimension.locations ∷ Dimension.property_type ∷ Dimension.timeline
    ∷ Dimension.must_haves ∷ []

abbrev ordinal : Dimension → ℕ
ordinal Dimension.budget = 0
ordinal Dimension.locations = 1
ordinal Dimension.property_type = 2
ordinal Dimension.timeline = 3
ordinal Dimension.must_haves = 4

abbrev pub is_dimension : Dimension → Dimension → Bool
is_dimension a b = ordinal a == ordinal b

abbrev append_if : Bool → Dimension → List Dimension → List Dimension
append_if b d ds = if b then ds ++ d ∷ [] else ds

-- The list that the five tests of `captured_dimensions` fill, in their order.
unfoldable pub captured_dimensions : BuyerProfile → List Dimension
captured_dimensions p = append_if (not (is_empty_list p.must_haves)) Dimension.must_haves (
    append_if (is_some p.timeline) Dimension.timeline (
      append_if (is_some p.property_type) Dimension.property_type (
        append_if (not (is_empty_list p.locations)) Dimension.locations
          (append_if (is_some p.budget) Dimension.budget []))))

unfoldable pub missing_dimensions : BuyerProfile → List Dimension
unfolding captured_dimensions
missing_dimensions p =
    let captured = captured_dimensions p in
    select (λ d. not (any (is_dimension d) captured)) profile_dimensions

-- In whole percent: with five dimensions the source's quotient is one.
unfoldable pub completeness : BuyerProfile → ℕ
unfolding captured_dimensions
completeness p = 100 * length (captured_dimensions p) / 5

pub record GateResult : Type 0 where
  pub can_advance : Bool
  pub completeness : ℕ
  pub missing_dimension : Option Dimension

abbrev first {ℓ} : {A : Type ℓ} → List A → Option A
first [] = none
first (x ∷ xs) = some x

-- `CompletenessGate(threshold).can_advance_to_recommendation(profile)`
unfoldable pub can_advance_to_recommendation : ℕ → BuyerProfile → GateResult
can_advance_to_recommendation threshold p =
    if leb threshold (completeness p)
    then record { can_advance = true; completeness = completeness p; missing_dimension = none }
    else record {
      can_advance = false;
      completeness = completeness p;
      missing_dimension = first (missing_dimensions p);
    }

-- The dictionary that `BuyerProfileCaptureService._snapshot` puts into the event.
pub record ProfileSnapshot : Type 0 where
  pub budget : Option MoneyRange
  pub locations : List String
  pub property_type : Option PropertyType
  pub timeline : Option Timeline
  pub must_haves : List String

unfoldable pub snapshot : BuyerProfile → ProfileSnapshot
snapshot p = record {
  budget = p.budget;
  locations = p.locations;
  property_type = p.property_type;
  timeline = p.timeline;
  must_haves = p.must_haves;
}
