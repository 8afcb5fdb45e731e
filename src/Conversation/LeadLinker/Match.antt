-- ===== src/Conversation/LeadLinker/Match.antt =====
-- Which lead the linker finds for a conversation.
use leadto_sales_re.Base.{
  ℕ, ◌≤◌, String, ◌≡◌, refl, sym, ap, ◌∙◌, subst, ◌⊎◌, inl, inr, Bool, false, Option, none, some,
  List, [], ◌∷◌, arith, str_eq, if◌then◌else◌, length, select,
}
use leadto_sales_re.Result.{Result, Error, ok, err, multiple_results_found, Result-cases}
use leadto_sales_re.Database.{LeadRow}
use leadto_sales_re.Session.{Session, pure, ◌>>=◌, continue, scalar_one_or_none}
use leadto_sales_re.Lead.Mirror.{Lead}
use leadto_sales_re.Lead.Repository.{has_contact, to_domain, one_lead, get_by_contact_reference}
use leadto_sales_re.Conversation.Model.{Conversation, link_lead}
use leadto_sales_re.Conversation.LeadLinker.{link_if_possible, link_found, link_unless, link_by}

-- What the linker makes of the leads that share the contact.
abbrev pub IsMatch : Conversation → List LeadRow → Result (Option ℕ × Conversation) → Type 0
IsMatch c rows r =
    ((rows ≡ []) × (r ≡ ok (none, c)))
    ⊎ ((row : LeadRow) × (l : Lead) × (rows ≡ row ∷ [])
        × (to_domain row ≡ ok l)
        × (r ≡ ok (some l.id, link_lead l.id c)))
    ⊎ ((row : LeadRow) × (e : Error) × (rows ≡ row ∷ []) × (to_domain row ≡ err e) × (r ≡ err e))
    ⊎ ((2 ≤ length rows) × (r ≡ err multiple_results_found))

matched :
    (c : Conversation) (rows : List LeadRow) (s : Session)
    → IsMatch c rows (continue (one_lead (scalar_one_or_none rows)) (link_found c) s).0
matched c [] s = inl (refl, refl)
matched c (row ∷ []) s = elim (Result-cases (to_domain row)) [
  | inl (l, e) ↦ rw e (inr (inl (row, l, refl, e, refl)))
  | inr (x, e) ↦ rw e (inr (inr (inl (row, x, refl, e, refl))))
]
matched c (row ∷ row' ∷ rows) s = inr (inr (inr (omega arith, refl)))

-- For a conversation without a lead whose contact is known, by the mirrored leads of its
-- organization with that contact: none of them leaves the conversation as it is, exactly one is
-- linked if its row can be read, and more than one make the lookup raise.
pub link_if_possible-IsMatch :
    (c : Conversation) (contact : String) (s : Session)
    → c.lead_id ≡ none
    → c.contact_reference ≡ some contact
    → str_eq contact "" ≡ false
    → IsMatch c
        (select (has_contact c.organization_id contact) s.working.leads)
        (link_if_possible c s).0
unfolding link_if_possible get_by_contact_reference
link_if_possible-IsMatch c contact s h k n =
    let rows = select (has_contact c.organization_id contact) s.working.leads in
    let choose : Bool → Result (Option ℕ × Conversation) × Session = λ b.
      (if b
          then pure (none, c)
          else get_by_contact_reference c.organization_id contact >>= link_found c)
        s in
    let steps : link_if_possible c s ≡ choose false =
      ap (λ o. link_unless c o s) h ∙ (ap (λ o. link_by c o s) k ∙ ap choose n) in
    subst (λ (o : Result (Option ℕ × Conversation) × Session). IsMatch c rows o.0) (sym steps)
      (matched c rows s)
