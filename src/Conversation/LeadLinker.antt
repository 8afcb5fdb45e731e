-- ===== src/Conversation/LeadLinker.antt =====
-- app/modules/conversation_ownership/application/lead_linker.py
pub mod Match
use leadto_sales_re.Base.{ℕ, String, Option, none, some, str_eq, if◌then◌else◌}
use leadto_sales_re.Session.{Action, pure, ◌>>=◌}
use leadto_sales_re.Lead.Mirror.{Lead}
use leadto_sales_re.Lead.Repository.{get_by_contact_reference}
use leadto_sales_re.Conversation.Model.{Conversation, link_lead}

abbrev link_found : Conversation → Option Lead → Action (Option ℕ × Conversation)
link_found c none = pure (none, c)
link_found c (some l) = pure (some l.id, link_lead l.id c)

abbrev link_by : Conversation → Option String → Action (Option ℕ × Conversation)
link_by c none = pure (none, c)
link_by c (some contact) =
    if str_eq contact ""
    then pure (none, c)
    else get_by_contact_reference c.organization_id contact >>= link_found c

abbrev link_unless : Conversation → Option ℕ → Action (Option ℕ × Conversation)
link_unless c (some lead) = pure (some lead, c)
link_unless c none = link_by c c.contact_reference

-- `LeadLinker.link_if_possible`: what it returns, and the conversation as it leaves it.
unfoldable pub link_if_possible : Conversation → Action (Option ℕ × Conversation)
link_if_possible c = link_unless c c.lead_id
