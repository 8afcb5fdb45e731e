-- ===== src/PromptRegistry/Active.antt =====
-- A version that is published as active is the one that every agent gets.
use leadto_sales_re.Base.{
  ℕ, String, ◌≡◌, refl, sym, subst, true, Option, none, some, List, [], ◌∷◌, ◌++◌, map, arith,
  eq_refl, ==_refl, select,
}
use leadto_sales_re.Base.Table.{select-append_new}
use leadto_sales_re.Event.{Stamp}
use leadto_sales_re.Result.{Result, ok}
use leadto_sales_re.Database.{Database, PromptTemplateRow, PromptVersionRow}
use leadto_sales_re.Session.{Session, commit, scalar_one_or_none}
use leadto_sales_re.PromptRegistry.{
  templates_of, is_template_of, get_template, is_active_of, active_versions, get_active_version,
  deactivated, deactivate_all_versions, add_template, add_version, new_version, publish_for,
  publish_version, get_active_prompt,
}

none_active :
    (template : ℕ) (vs : List PromptVersionRow)
    → select (is_active_of template) (map (deactivated template) vs) ≡ []
none_active template [] = refl
none_active template (v ∷ vs) = ground (arith, none_active template vs)

version_key : PromptVersionRow → ℕ
version_key v = v.id

template_key : PromptTemplateRow → ℕ
template_key t = t.id

one_row :
    {A : Type 0} (rows : List A) (r : A) → scalar_one_or_none rows ≡ ok (some r) → rows ≡ r ∷ []
one_row [] r h = absurd (ground arith)
one_row (x ∷ []) r h = ground arith
one_row (x ∷ y ∷ t) r h = absurd (ground arith)

no_row : {A : Type 0} (rows : List A) → scalar_one_or_none rows ≡ ok none → rows ≡ []
no_row [] h = refl
no_row (x ∷ []) h = absurd (ground arith)
no_row (x ∷ y ∷ t) h = absurd (ground arith)

-- What a session shows of an agent's prompt.
abbrev pub IsPublished : ℕ → String → PromptVersionRow → Database → Type 0
IsPublished organization agent v db =
    (template : PromptTemplateRow) × (templates_of organization agent db ≡ template ∷ [])
    × (active_versions template.id db ≡ v ∷ [])

-- A call that has published a version with this content for the agent.
abbrev pub IsShown : ℕ → String → String → Result ℕ × Session → Type 0
IsShown organization agent content o =
    (v : PromptVersionRow) × (o.0 ≡ ok v.id)
    × (v.content ≡ content)
    × (o.1.committed ≡ o.1.working)
    × IsPublished organization agent v o.1.committed
    × ((get_active_prompt organization agent o.1).0 ≡ ok v)

module _ (t : Stamp) (version content : String) (template : PromptTemplateRow) (s : Session) where
  abbrev published : Result ℕ × Session
  published = publish_for t version content true template s

  abbrev row : PromptVersionRow
  row = new_version t template.id version content true

  one_active :
      (active_versions template.id published.1.working ≡ row ∷ [])
      × (published.0 ≡ ok t.new_id)
      × (published.1.committed ≡ published.1.working)
      × (published.1.working.prompt_templates ≡ s.working.prompt_templates)
  unfolding add_version deactivate_all_versions commit
  one_active = (
    select-append_new version_key (is_active_of template.id)
        (map (deactivated template.id) s.working.prompt_versions) row
        (none_active template.id s.working.prompt_versions) (ground arith),
    refl,
    refl,
    refl,
  )

  shown :
      (organization : ℕ) (agent : String)
      → templates_of organization agent s.working ≡ template ∷ []
      → IsShown organization agent content published
  unfolding get_active_prompt get_template get_active_version add_version deactivate_all_versions
      commit
  shown organization agent h =
      (row, refl, refl, refl, (template, h, one_active.0), rw h (rw one_active.0 refl))

module _ (clock : ℕ → Stamp) (organization : ℕ) (agent version content : String) (s : Session) where
  abbrev first_template : PromptTemplateRow
  first_template = record {
    id = (clock 0).new_id;
    organization_id = organization;
    agent_name = agent;
  }

  abbrev with_template : Session
  with_template = record s {
    working = record s.working {
      prompt_templates = s.working.prompt_templates ++ first_template ∷ [];
    };
  }

  publish_found :
      (template : PromptTemplateRow)
      → scalar_one_or_none (templates_of organization agent s.working) ≡ ok (some template)
      → publish_version clock organization agent version content true s
        ≡ publish_for (clock 1) version content true template s
  unfolding publish_version get_template
  publish_found template h = rw h refl

  publish_missing :
      scalar_one_or_none (templates_of organization agent s.working) ≡ ok none
      → publish_version clock organization agent version content true s
        ≡ publish_for (clock 1) version content true first_template with_template
  unfolding publish_version get_template add_template
  publish_missing h = rw h refl

  -- Where the organization has at most one template for the agent: a version that is published as
  -- active is committed, it is then the only active one of the agent's template, and it is what
  -- `get_active_prompt` returns.
  pub publish_version_active :
      (found : Option PromptTemplateRow)
      → scalar_one_or_none (templates_of organization agent s.working) ≡ ok found
      → IsShown organization agent content
          (publish_version clock organization agent version content true s)
  publish_version_active (some template) h =
      subst (IsShown organization agent content) (sym (publish_found template h)) (
        shown (clock 1) version content template s organization agent
          (one_row (templates_of organization agent s.working) template h))
  publish_version_active none h =
      subst (IsShown organization agent content) (sym (publish_missing h)) (
        shown (clock 1) version content first_template with_template organization agent (
          select-append_new template_key (is_template_of organization agent)
            s.working.prompt_templates first_template
            (no_row (templates_of organization agent s.working) h)
            (rw (==_refl organization) (eq_refl agent))))
