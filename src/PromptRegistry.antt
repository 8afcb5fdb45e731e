-- ===== src/PromptRegistry.antt =====
-- app/modules/intelligence_ai_admin: infrastructure/repository.py and
-- application/prompt_registry_service.py. A flush writes nothing that a later query would not see.
pub mod Active
use leadto_sales_re.Base.{
  ℕ, String, Bool, false, ◌&&◌, Option, none, some, List, [], ◌∷◌, ◌++◌, map, str_eq, ◌==◌,
  if◌then◌else◌, select,
}
use leadto_sales_re.Event.{Stamp}
use leadto_sales_re.Result.{Result, http_exception, or_raise}
use leadto_sales_re.Database.{Database, PromptTemplateRow, PromptVersionRow}
use leadto_sales_re.Session.{Action, pure, lift, modify, ◌>>=◌, ◌>>◌, commit, scalar_one_or_none}

abbrev pub is_template_of : ℕ → String → PromptTemplateRow → Bool
is_template_of organization agent t = t.organization_id == organization && str_eq t.agent_name agent

-- The rows of the query of `get_template`.
abbrev pub templates_of : ℕ → String → Database → List PromptTemplateRow
templates_of organization agent db = select (is_template_of organization agent) db.prompt_templates

unfoldable pub get_template : ℕ → String → Action (Option PromptTemplateRow)
get_template organization agent s =
    (scalar_one_or_none (templates_of organization agent s.working), s)

abbrev pub is_active_of : ℕ → PromptVersionRow → Bool
is_active_of template v = v.prompt_template_id == template && v.active

-- The rows of the query of `get_active_version`.
abbrev pub active_versions : ℕ → Database → List PromptVersionRow
active_versions template db = select (is_active_of template) db.prompt_versions

unfoldable pub get_active_version : ℕ → Action (Option PromptVersionRow)
get_active_version template s = (scalar_one_or_none (active_versions template s.working), s)

abbrev pub deactivated : ℕ → PromptVersionRow → PromptVersionRow
deactivated template v = if v.prompt_template_id == template then record v { active = false } else v

unfoldable pub deactivate_all_versions : ℕ → Action (Unit {0})
deactivate_all_versions template =
    modify (λ db. record db { prompt_versions = map (deactivated template) db.prompt_versions })

unfoldable pub add_template : PromptTemplateRow → Action (Unit {0})
add_template t = modify (λ db. record db { prompt_templates = db.prompt_templates ++ t ∷ [] })

unfoldable pub add_version : PromptVersionRow → Action (Unit {0})
add_version v = modify (λ db. record db { prompt_versions = db.prompt_versions ++ v ∷ [] })

abbrev pub template_or_new :
    Stamp → ℕ → String → Option PromptTemplateRow → Action PromptTemplateRow
template_or_new t organization agent (some found) = pure found
template_or_new t organization agent none =
    let new : PromptTemplateRow = record {
      id = t.new_id;
      organization_id = organization;
      agent_name = agent;
    } in
    add_template new >> pure new

abbrev pub new_version : Stamp → ℕ → String → String → Bool → PromptVersionRow
new_version t template version content activate = record {
  id = t.new_id;
  prompt_template_id = template;
  version = version;
  content = content;
  active = activate;
  created_at = t.now;
}

abbrev pub publish_for : Stamp → String → String → Bool → PromptTemplateRow → Action ℕ
publish_for t version content activate template = do
  if activate then deactivate_all_versions template.id else pure tt
  add_version (new_version t template.id version content activate)
  commit
  pure t.new_id

-- `PromptRegistryService.publish_version`
unfoldable pub publish_version : (ℕ → Stamp) → ℕ → String → String → String → Bool → Action ℕ
publish_version clock organization agent version content activate = do
  found ← get_template organization agent
  template ← template_or_new (clock 0) organization agent found
  publish_for (clock 1) version content activate template

abbrev or_404 : {A : Type 0} → String → Option A → Result A
or_404 detail found = or_raise (http_exception 404 detail) found

-- `PromptRegistryService.get_active_prompt`; the agent's name is left out of the details.
unfoldable pub get_active_prompt : ℕ → String → Action PromptVersionRow
get_active_prompt organization agent = do
  found ← get_template organization agent
  template ← lift (or_404 "No prompt template for the agent in this organization" found)
  active ← get_active_version template.id
  lift (or_404 "No active prompt version for the agent" active)
