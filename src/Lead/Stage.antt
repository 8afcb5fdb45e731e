-- ===== src/Lead/Stage.antt =====
-- `PipelineStage` of app/modules/lead_qualification/domain/models.py: the CRM's pipeline.
use leadto_sales_re.Base.{
  ℕ, String, ◌≡◌, refl, ◌↔◌, Bool, true, Option, none, some, List, [], ◌∷◌, arith, str_eq, ◌==◌,
  if◌then◌else◌,
}

pub data PipelineStage : Type 0 where
  new qualified appointment_set visited negotiation won lost : PipelineStage

abbrev pub stage_value : PipelineStage → String
stage_value new = "New"
stage_value qualified = "Qualified"
stage_value appointment_set = "AppointmentSet"
stage_value visited = "Visited"
stage_value negotiation = "Negotiation"
stage_value won = "Won"
stage_value lost = "Lost"

abbrev pub all_stages : List PipelineStage
all_stages = new ∷ qualified ∷ appointment_set ∷ visited ∷ negotiation ∷ won ∷ lost ∷ []

abbrev with_value : String → List PipelineStage → Option PipelineStage
with_value v [] = none
with_value v (s ∷ ss) = if str_eq (stage_value s) v then some s else with_value v ss

-- `PipelineStage(value)`; `none` is its `ValueError`.
unfoldable pub stage_of_value : String → Option PipelineStage
stage_of_value v = with_value v all_stages

-- A stored stage is read back as itself.
pub stage_of_value-stage_value : (s : PipelineStage) → stage_of_value (stage_value s) ≡ some s
unfolding stage_of_value
stage_of_value-stage_value new = refl
stage_of_value-stage_value _ = refl

abbrev ordinal : PipelineStage → ℕ
ordinal new = 0
ordinal qualified = 1
ordinal appointment_set = 2
ordinal visited = 3
ordinal negotiation = 4
ordinal won = 5
ordinal lost = 6

-- `a is b`
abbrev pub is_stage : PipelineStage → PipelineStage → Bool
is_stage a b = ordinal a == ordinal b

pub is_stage_iff : (a b : PipelineStage) → (is_stage a b ≡ true) ↔ (a ≡ b)
is_stage_iff a b = ground arith
