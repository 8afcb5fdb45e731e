-- ===== src/Conversation/Coordinator/Prompt.antt =====
-- The coordinator and the prompt registry together.
use leadto_sales_re.Base.{ℕ, String, ◌≡◌, ap, true, Option}
use leadto_sales_re.Event.{Stamp}
use leadto_sales_re.Result.{ok}
use leadto_sales_re.Database.{PromptTemplateRow}
use leadto_sales_re.Session.{Session, scalar_one_or_none}
use leadto_sales_re.PromptRegistry.{templates_of, publish_version}
use leadto_sales_re.PromptRegistry.Active.{publish_version_active}
use leadto_sales_re.Conversation.Coordinator.{agent_name, active_prompt}

-- Where the organization has at most one template for the coordinator: the content of a version
-- that is published as active for it is the system prompt of its next turn.
pub publish_version-active_prompt :
    (clock : ℕ → Stamp) (organization : ℕ) (version content : String) (s : Session)
    (found : Option PromptTemplateRow)
    → scalar_one_or_none (templates_of organization agent_name s.working) ≡ ok found
    → active_prompt organization
        (publish_version clock organization agent_name version content true s).1.committed
      ≡ ok content
unfolding active_prompt
publish_version-active_prompt clock organization version content s found h =
    let (v, done, same, saved, (template, mine, only), got) =
      publish_version_active clock organization agent_name version content s found h in
    rw mine (rw only (ap ok same))
