-- ===== src/Conversation/Policy.antt =====
-- app/modules/conversation_ownership/application/ownership_policy.py: who is to own a conversation.
use leadto_sales_re.Base.{
  ℕ, String, ◌≡◌, refl, ◌≢◌, ◌⊎◌, inl, inr, Bool, true, false, ◌||◌, Option, none, some, arith,
  str_eq, if◌then◌else◌, Bool-cases, str_append,
}
use leadto_sales_re.Result.{Result, ok, err, not_implemented_placeholder}
use leadto_sales_re.Database.{InputsSnapshot}
use leadto_sales_re.Conversation.State.{state_value}
use leadto_sales_re.Conversation.Model.{OwnerType, Conversation, owner_value, is_owner}

pub record OwnershipContext : Type 0 where
  pub conversation : Conversation
  pub broker_requested : Option String
  pub is_guardrail_bypass : Bool

pub record OwnershipDecision : Type 0 where
  pub scenario : String
  pub selected_owner : OwnerType
  pub owner_id : Option ℕ
  pub explanation : String
  pub inputs_snapshot : InputsSnapshot

unfoldable pub inputs_snapshot : OwnershipContext → InputsSnapshot
inputs_snapshot x = record {
  conversation_id = x.conversation.id;
  state = state_value x.conversation.state;
  current_owner = owner_value x.conversation.ownership.owner_type;
  broker_requested = x.broker_requested;
  is_guardrail_bypass = x.is_guardrail_bypass;
}

-- `context.broker_requested or "un asesor humano"`: an empty name counts as none.
abbrev requested_name : Option String → String
requested_name none = "un asesor humano"
requested_name (some name) = if str_eq name "" then "un asesor humano" else name

-- Scenario 8: the lead asked for a person.
abbrev pub broker_decision : OwnershipContext → OwnershipDecision
broker_decision x = record {
  scenario = "scenario_8_broker_requested";
  selected_owner = OwnerType.human;
  owner_id = none;
  explanation =
      str_append "El cliente solicitó explícitamente a " (requested_name x.broker_requested);
  inputs_snapshot = inputs_snapshot x;
}

-- Scenario 1: no human ever owned the conversation.
abbrev pub ai_decision : OwnershipContext → OwnershipDecision
ai_decision x = record {
  scenario = "scenario_1_never_human";
  selected_owner = OwnerType.ai;
  owner_id = none;
  explanation =
      "Conversación sin historial con broker humano: la AI toma ownership para conducir el happy path";
  inputs_snapshot = inputs_snapshot x;
}

unfoldable pub evaluate : OwnershipContext → Result OwnershipDecision
evaluate x =
    let owner = x.conversation.ownership.owner_type in
    if x.is_guardrail_bypass
    then ok (broker_decision x)
    else if is_owner owner OwnerType.unassigned || is_owner owner OwnerType.ai
    then ok (ai_decision x)
    else err (not_implemented_placeholder "reactivation_or_prior_human_scenarios_2_to_7_9_10")

never_human :
    (o : OwnerType)
    → (is_owner o OwnerType.unassigned || is_owner o OwnerType.ai ≡ true) ⊎ (o ≡ OwnerType.human)
never_human OwnerType.ai = inl refl
never_human OwnerType.human = inr refl
never_human OwnerType.unassigned = inl refl

-- For every context: a bypass selects a human owner; without one, a conversation that no human owns
-- goes to the AI, and one that a human owns gets no silent default but the placeholder. A decision
-- leaves the owner's identity open and holds the context that it was made from.
pub evaluate_outcome :
    (x : OwnershipContext)
    → ((d : OwnershipDecision) × (evaluate x ≡ ok d)
        × (d.owner_id ≡ none)
        × (d.inputs_snapshot ≡ inputs_snapshot x)
        × (((x.is_guardrail_bypass ≡ true) × (d.selected_owner ≡ OwnerType.human))
            ⊎ ((x.is_guardrail_bypass ≡ false)
                × (x.conversation.ownership.owner_type ≢ OwnerType.human)
                × (d.selected_owner ≡ OwnerType.ai))))
      ⊎ ((x.is_guardrail_bypass ≡ false)
          × (x.conversation.ownership.owner_type ≡ OwnerType.human)
          × ((e : String) × (evaluate x ≡ err (not_implemented_placeholder e))))
unfolding evaluate
evaluate_outcome x = elim (Bool-cases x.is_guardrail_bypass) [
  | inl b ↦ inl (broker_decision x, rw b, refl, refl, inl (b, refl))
  | inr b ↦ elim (never_human x.conversation.ownership.owner_type) [
    | inl n ↦ inl (ai_decision x, ground arith, refl, refl, inr (b, (λ h. ground arith), refl))
    | inr h ↦ inr (b, h, ("reactivation_or_prior_human_scenarios_2_to_7_9_10", ground arith))
  ]
]
