-- ===== src/Conversation/State.antt =====
-- The lifecycle of a conversation: `ConversationState`, `_ACTIVE_STATES` and
-- `ALLOWED_TRANSITIONS` of app/modules/conversation_ownership/domain/models.py.
pub mod Reach
use leadto_sales_re.Base.{
  ℕ, String, ◌≡◌, refl, Bool, Option, none, some, List, [], ◌∷◌, str_eq, ◌==◌, if◌then◌else◌, any,
}

pub data ConversationState : Type 0 where
  new ai_owned qualification recommendation appointment ownership_evaluation : ConversationState
  unassigned assigned_human visit negotiation dormant reactivated : ConversationState
  closed_won closed_lost : ConversationState

-- The string that the enumeration's member is.
abbrev pub state_value : ConversationState → String
state_value new = "New"
state_value ai_owned = "AIOwned"
state_value qualification = "Qualification"
state_value recommendation = "Recommendation"
state_value appointment = "Appointment"
state_value ownership_evaluation = "OwnershipEvaluation"
state_value unassigned = "Unassigned"
state_value assigned_human = "AssignedHuman"
state_value visit = "Visit"
state_value negotiation = "Negotiation"
state_value dormant = "Dormant"
state_value reactivated = "Reactivated"
state_value closed_won = "ClosedWon"
state_value closed_lost = "ClosedLost"

abbrev pub all_states : List ConversationState
all_states =
    new ∷ ai_owned ∷ qualification ∷ recommendation ∷ appointment ∷ ownership_evaluation
    ∷ unassigned ∷ assigned_human ∷ visit ∷ negotiation ∷ dormant ∷ reactivated ∷ closed_won
    ∷ closed_lost ∷ []

abbrev with_value : String → List ConversationState → Option ConversationState
with_value v [] = none
with_value v (s ∷ ss) = if str_eq (state_value s) v then some s else with_value v ss

-- `ConversationState(value)`; `none` is its `ValueError`.
unfoldable pub state_of_value : String → Option ConversationState
state_of_value v = with_value v all_states

-- A stored state is read back as itself.
pub state_of_value-state_value : (s : ConversationState) → state_of_value (state_value s) ≡ some s
unfolding state_of_value
state_of_value-state_value new = refl
state_of_value-state_value _ = refl

-- The members in the order of their declaration, to tell them apart.
abbrev pub ordinal : ConversationState → ℕ
ordinal new = 0
ordinal ai_owned = 1
ordinal qualification = 2
ordinal recommendation = 3
ordinal appointment = 4
ordinal ownership_evaluation = 5
ordinal unassigned = 6
ordinal assigned_human = 7
ordinal visit = 8
ordinal negotiation = 9
ordinal dormant = 10
ordinal reactivated = 11
ordinal closed_won = 12
ordinal closed_lost = 13

-- `a is b`
abbrev pub is_state : ConversationState → ConversationState → Bool
is_state a b = ordinal a == ordinal b

-- `s in states`
abbrev pub in_states : ConversationState → List ConversationState → Bool
in_states s = any (is_state s)

unfoldable pub active_states : List ConversationState
active_states =
    new ∷ ai_owned ∷ qualification ∷ recommendation ∷ appointment ∷ unassigned ∷ assigned_human
    ∷ visit ∷ negotiation ∷ []

unfoldable pub allowed_transitions : ConversationState → List ConversationState
allowed_transitions new = ai_owned ∷ assigned_human ∷ ownership_evaluation ∷ []
allowed_transitions ai_owned = qualification ∷ assigned_human ∷ []
allowed_transitions qualification = recommendation ∷ assigned_human ∷ []
allowed_transitions recommendation = appointment ∷ assigned_human ∷ []
allowed_transitions appointment = visit ∷ assigned_human ∷ []
allowed_transitions visit = negotiation ∷ assigned_human ∷ closed_lost ∷ []
allowed_transitions negotiation = closed_won ∷ closed_lost ∷ assigned_human ∷ []
allowed_transitions ownership_evaluation = ai_owned ∷ assigned_human ∷ unassigned ∷ []
allowed_transitions unassigned = ai_owned ∷ assigned_human ∷ []
allowed_transitions assigned_human = visit ∷ negotiation ∷ closed_won ∷ closed_lost ∷ []
allowed_transitions dormant = reactivated ∷ []
allowed_transitions reactivated = ownership_evaluation ∷ []
allowed_transitions closed_won = []
allowed_transitions closed_lost = []

unfoldable pub is_active : ConversationState → Bool
unfolding active_states
is_active s = in_states s active_states

unfoldable pub allows : ConversationState → ConversationState → Bool
unfolding allowed_transitions
allows s t = in_states t (allowed_transitions s)
