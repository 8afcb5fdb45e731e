-- ===== src/Lead/WacrmClient/Pages.antt =====
-- The pagination of `_list_deals`: the whole list, or an error.
use leadto_sales_re.Base.{
  ℕ, zero, suc, ◌≤◌, ◌≡◌, refl, sym, ap, ◌∙◌, subst, ◌↔◌, inl, inr, true, false, Option, List, [],
  ◌++◌, append_assoc, arith, Bool-cases,
}
use leadto_sales_re.Json.{Json, null, truthy}
use leadto_sales_re.Result.{Result, ok, err, Result-cases}
use leadto_sales_re.Lead.Sync.{Snapshot}
use leadto_sales_re.Lead.WacrmClient.{
  Python, Response, Params, page, max_list_pages, no_end, after_page, go_on, list_from, list_deals,
}

module _ (python : Python) (get : Params python → Result Response) (organization_id : Option ℕ)
    (params : Params python) where
  abbrev pub page_at : Json → Result (List Snapshot × Json)
  page_at = page python get organization_id params

  -- From a cursor on, a list runs over so many pages, up to the first page without a cursor.
  pub data Pages : ℕ → Json → List Snapshot → Type 0 where
    last :
        {cursor next : Json} {found : List Snapshot}
        → page_at cursor ≡ ok (found, next)
        → truthy next ≡ false
        → Pages 1 cursor found
    more :
        {n : ℕ} {cursor next : Json} {found rest : List Snapshot}
        → page_at cursor ≡ ok (found, next)
        → truthy next ≡ true
        → Pages n next rest
        → Pages (suc n) cursor (found ++ rest)

  abbrev run : ℕ → Json → List Snapshot → Result (List Snapshot)
  run = list_from python get organization_id params

  pages→list :
      {n : ℕ} {cursor : Json} {all : List Snapshot}
      → Pages n cursor all
      → (left : ℕ) (before : List Snapshot) → n ≤ left
      → run left cursor before ≡ ok (before ++ all)
  unfolding list_from
  pages→list (last e t) zero before h = absurd (omega arith)
  pages→list (last e t) (suc left) before h = rw e (rw t refl)
  pages→list (more e t rest) zero before h = absurd (omega arith)
  pages→list (more {found = found} {rest = others} e t rest) (suc left) before h = rw e (
      rw t (
        pages→list rest left (before ++ found) (omega (arith, h))
        ∙ ap ok (append_assoc before found others)))

  list→pages :
      (left : ℕ) (cursor : Json) (before all : List Snapshot)
      → run left cursor before ≡ ok all
      → (n : ℕ) × (found : List Snapshot) × (n ≤ left)
        × Pages n cursor found
        × (all ≡ before ++ found)
  unfolding list_from
  list→pages zero cursor before all h = absurd (ground arith)
  list→pages (suc left) cursor before all h = elim (Result-cases (page_at cursor)) [
    | inr (e, failed) ↦
        let result = after_page python (run left) before in
        let raised : err e ≡ ok all = ap result (sym failed) ∙ h in absurd (ground arith)
    | inl ((found, next), got) ↦
        let after : go_on python (run left) next (before ++ found) (truthy next) ≡ ok all =
          ap (after_page python (run left) before) (sym got) ∙ h in
        elim (Bool-cases (truthy next)) [
          | inl t ↦
              let rest : run left next (before ++ found) ≡ ok all =
                ap (go_on python (run left) next (before ++ found)) (sym t) ∙ after in
              let (n, others, few, pages, same) = list→pages left next (before ++ found) all rest in
              (
                suc n,
                found ++ others,
                omega (arith, few),
                more got t pages,
                same ∙ append_assoc before found others,
              )
          | inr t ↦
              let done : ok (before ++ found) ≡ ok all =
                ap (go_on python (run left) next (before ++ found)) (sym t) ∙ after in
              (1, found, omega arith, last got t, cc)
        ]
  ]

  -- The call returns a list exactly when the server's pages come to an end within 200 requests, and
  -- then it is all of their snapshots, in order: a part of the list is never returned.
  pub list_deals_iff :
      (all : List Snapshot)
      → (list_deals python get organization_id params ≡ ok all)
        ↔ ((n : ℕ) × (n ≤ max_list_pages python) × Pages n null all)
  unfolding list_deals
  list_deals_iff all = (
    λ h.
        let (n, found, few, pages, same) = list→pages 200 null [] all h in
        (n, few, subst (Pages n null) (sym same) pages),
    λ (n, few, pages). pages→list pages 200 [] few,
  )

  -- So many requests in a row, each at the cursor that the one before it returned, answer with a
  -- page and a further cursor.
  pub data GoesOn : ℕ → Json → Type 0 where
    none_asked : {cursor : Json} → GoesOn zero cursor
    asked :
        {n : ℕ} {cursor next : Json} {found : List Snapshot}
        → page_at cursor ≡ ok (found, next)
        → truthy next ≡ true
        → GoesOn n next
        → GoesOn (suc n) cursor

  runs_out :
      {left : ℕ} {cursor : Json}
      → GoesOn left cursor
      → (before : List Snapshot) → run left cursor before ≡ err (no_end python)
  unfolding list_from
  runs_out none_asked before = refl
  runs_out (asked {found = found} e t rest) before = rw e (rw t (runs_out rest (before ++ found)))

  -- Where each of the first 200 requests, at the cursor that the one before it returned, answers
  -- with a page and a further cursor, the call raises the error that the pagination did not
  -- terminate, whatever the server would answer to a further request.
  pub list_deals_endless :
      GoesOn (max_list_pages python) null
      → list_deals python get organization_id params ≡ err (no_end python)
  unfolding list_deals
  list_deals_endless pages = runs_out pages []
