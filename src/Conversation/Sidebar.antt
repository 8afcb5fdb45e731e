-- ===== src/Conversation/Sidebar.antt =====
-- app/modules/conversation_ownership/application/sidebar.py. The Chatwoot client is a parameter.
use leadto_sales_re.Base.{String, Option, none, some, List, [], ◌∷◌, str_append}
use leadto_sales_re.Result.{Result, ok, err, chatwoot_send_error}
use leadto_sales_re.Conversation.State.{state_value}
use leadto_sales_re.Conversation.Model.{Conversation, OwnerType}
use leadto_sales_re.Conversation.Policy.{OwnershipDecision}

abbrev pub owner_label : OwnerType → String
owner_label OwnerType.ai = "🤖 AI"
owner_label OwnerType.human = "👤 Broker humano"
owner_label OwnerType.unassigned = "— Sin asignar"

-- `"\n".join(lines)`
abbrev pub join_lines : List String → String
join_lines [] = ""
join_lines (l ∷ []) = l
join_lines (l ∷ l' ∷ ls) = str_append l (str_append "\n" (join_lines (l' ∷ ls)))

abbrev decision_lines : Option OwnershipDecision → List String
decision_lines none = []
decision_lines (some d) =
    str_append "Decisión de ownership (" (str_append d.scenario (str_append "): " d.explanation))
    ∷ []

unfoldable pub build_sidebar_note : Conversation → Option OwnershipDecision → String
build_sidebar_note c decision = join_lines (
    "**AI Sidebar**"
    ∷ str_append "Estado: `" (str_append (state_value c.state) "`")
    ∷ str_append "Owner: " (owner_label c.ownership.owner_type)
    ∷ str_append "Motivo: " c.ownership.reason
    ∷ decision_lines decision)

-- `except ChatwootSendError`: logged, and nothing else.
abbrev best_effort : Result (Unit {0}) → Result (Unit {0})
best_effort (ok u) = ok u
best_effort (err chatwoot_send_error) = ok tt
best_effort (err e) = err e

-- `SidebarPublisher.publish`, over the client's `send_private_note(conversation, note)`.
unfoldable pub publish :
    (String → String → Result (Unit {0}))
    → Conversation
    → Option OwnershipDecision
    → Result (Unit {0})
unfolding build_sidebar_note
publish send_private_note c decision =
    best_effort (send_private_note c.chatwoot_conversation_id (build_sidebar_note c decision))
