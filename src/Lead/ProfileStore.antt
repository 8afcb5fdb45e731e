-- ===== src/Lead/ProfileStore.antt =====
-- `BuyerProfileRepository` of app/modules/lead_qualification/infrastructure/repository.py.
use leadto_sales_re.Base.{
  ℕ, String, Bool, Option, none, some, List, [], ◌∷◌, ◌++◌, str_eq, ◌==◌, if◌then◌else◌, select,
}
use leadto_sales_re.Base.Table.{get_row, set_row}
use leadto_sales_re.Base.Amount.{ℤ}
use leadto_sales_re.Result.{Result, ok, err, value_error, or_raise}
use leadto_sales_re.Database.{Database, BuyerProfileRow}
use leadto_sales_re.Session.{Action, modify, scalar_one_or_none}
use leadto_sales_re.Lead.Repository.{map_ok}
use leadto_sales_re.Lead.Profile.{BuyerProfile, MoneyRange, money_range, PropertyType, Timeline}

abbrev pub property_type_value : PropertyType → String
property_type_value PropertyType.apartment = "apartment"
property_type_value PropertyType.house = "house"
property_type_value PropertyType.land = "land"
property_type_value PropertyType.commercial = "commercial"
property_type_value PropertyType.other = "other"

-- `PropertyType(value)`; `none` is its `ValueError`.
unfoldable pub property_type_of_value : String → Option PropertyType
property_type_of_value v =
    if str_eq v "apartment"
    then some PropertyType.apartment
    else if str_eq v "house"
    then some PropertyType.house
    else if str_eq v "land"
    then some PropertyType.land
    else if str_eq v "commercial"
    then some PropertyType.commercial
    else if str_eq v "other"
    then some PropertyType.other
    else none

abbrev pub timeline_value : Timeline → String
timeline_value Timeline.immediate = "immediate"
timeline_value Timeline.three_months = "3_months"
timeline_value Timeline.six_months = "6_months"
timeline_value Timeline.over_six_months = "over_6_months"
timeline_value Timeline.exploring = "exploring"

-- `Timeline(value)`; `none` is its `ValueError`.
unfoldable pub timeline_of_value : String → Option Timeline
timeline_of_value v =
    if str_eq v "immediate"
    then some Timeline.immediate
    else if str_eq v "3_months"
    then some Timeline.three_months
    else if str_eq v "6_months"
    then some Timeline.six_months
    else if str_eq v "over_6_months"
    then some Timeline.over_six_months
    else if str_eq v "exploring"
    then some Timeline.exploring
    else none

abbrev pub profile_key : BuyerProfileRow → ℕ
profile_key r = r.id

-- `MoneyRange(…)` where both bounds are stored: the checks of the constructor run again.
abbrev budget_of : Option ℤ → Option ℤ → Result (Option MoneyRange)
budget_of none upper = ok none
budget_of (some lower) none = ok none
budget_of (some lower) (some upper) =
    map_ok some (or_raise (value_error "MoneyRange") (money_range lower upper))

-- `Enum(value) if value else None`: an empty text counts as absent.
abbrev enum_of : {A : Type 0} → String → (String → Option A) → Option String → Result (Option A)
enum_of name parse none = ok none
enum_of name parse (some v) =
    if str_eq v "" then ok none else map_ok some (or_raise (value_error name) (parse v))

abbrev pub assemble :
    BuyerProfileRow
    → Result (Option MoneyRange)
    → Result (Option PropertyType)
    → Result (Option Timeline)
    → Result BuyerProfile
assemble row (err e) kind time = err e
assemble row (ok b) (err e) time = err e
assemble row (ok b) (ok k) (err e) = err e
assemble row (ok b) (ok k) (ok t) = ok (record {
  id = row.id;
  lead_id = row.lead_id;
  budget = b;
  locations = row.locations;
  property_type = k;
  timeline = t;
  must_haves = row.must_haves;
  updated_at = row.updated_at;
})

-- `_to_domain`
unfoldable pub to_domain : BuyerProfileRow → Result BuyerProfile
to_domain row =
    assemble row (budget_of row.budget_min row.budget_max)
      (enum_of "PropertyType" property_type_of_value row.property_type)
      (enum_of "Timeline" timeline_of_value row.timeline)

abbrev pub to_domain_option : Result (Option BuyerProfileRow) → Result (Option BuyerProfile)
to_domain_option (ok none) = ok none
to_domain_option (ok (some row)) = map_ok some (to_domain row)
to_domain_option (err e) = err e

abbrev has_lead : ℕ → BuyerProfileRow → Bool
has_lead lead r = r.lead_id == lead

abbrev pub profile_of : ℕ → Database → Result (Option BuyerProfile)
profile_of lead db =
    to_domain_option (scalar_one_or_none (select (has_lead lead) db.buyer_profiles))

unfoldable pub get_by_lead_id : ℕ → Action (Option BuyerProfile)
get_by_lead_id lead s = (profile_of lead s.working, s)

abbrev lower : Option MoneyRange → Option ℤ
lower none = none
lower (some b) = some b.minimum

abbrev upper : Option MoneyRange → Option ℤ
upper none = none
upper (some b) = some b.maximum

abbrev value_of : {A : Type 0} → (A → String) → Option A → Option String
value_of f none = none
value_of f (some a) = some (f a)

-- The writes of `save`: on the row that was found, or on the new one.
unfoldable pub write : BuyerProfile → BuyerProfileRow → BuyerProfileRow
write p row = record row {
  budget_min = lower p.budget;
  budget_max = upper p.budget;
  locations = p.locations;
  property_type = value_of property_type_value p.property_type;
  timeline = value_of timeline_value p.timeline;
  must_haves = p.must_haves;
  updated_at = p.updated_at;
}

abbrev new_row : ℕ → BuyerProfile → BuyerProfileRow
new_row organization p = record {
  id = p.id;
  organization_id = organization;
  lead_id = p.lead_id;
  budget_min = none;
  budget_max = none;
  locations = [];
  property_type = none;
  timeline = none;
  must_haves = [];
  updated_at = p.updated_at;
}

abbrev save_at :
    ℕ → BuyerProfile → List BuyerProfileRow → Option BuyerProfileRow → List BuyerProfileRow
save_at organization p rows none = rows ++ write p (new_row organization p) ∷ []
save_at organization p rows (some row) = set_row profile_key p.id (write p) rows

abbrev pub save_rows : ℕ → BuyerProfile → List BuyerProfileRow → List BuyerProfileRow
save_rows organization p rows = save_at organization p rows (get_row profile_key p.id rows)

unfoldable pub save : ℕ → BuyerProfile → Action (Unit {0})
unfolding write
save organization p =
    modify (λ db. record db { buyer_profiles = save_rows organization p db.buyer_profiles })
