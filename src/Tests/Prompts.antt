-- ===== src/Tests/Prompts.antt =====
-- Examples of the prompt registry's theorems, in a database without a template.
use leadto_sales_re.Base.{◌≡◌, refl, true, none}
use leadto_sales_re.Result.{ok}
use leadto_sales_re.Database.{empty}
use leadto_sales_re.Session.{fresh}
use leadto_sales_re.PromptRegistry.{publish_version}
use leadto_sales_re.Conversation.Coordinator.{active_prompt}
use leadto_sales_re.Conversation.Coordinator.Prompt.{publish_version-active_prompt}
use leadto_sales_re.Tests.{clock}

publish_version-active_prompt_example :
    active_prompt 7
      (publish_version clock 7 "coordinator" "v1" "Be brief" true (fresh empty)).1.committed
    ≡ ok "Be brief"
publish_version-active_prompt_example =
    publish_version-active_prompt clock 7 "v1" "Be brief" (fresh empty) none refl
