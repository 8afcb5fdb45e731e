-- ===== src/Lead/Sync/Cursor.antt =====
-- The organization's watermark after `advance_watermark`.
use leadto_sales_re.Base.{
  ℕ, ◌≡◌, refl, ap, ◌∙◌, inl, inr, some, List, arith, ltb, if◌then◌else◌, Option-cases,
}
use leadto_sales_re.Base.Table.{get_row, set_row, get_row-append_new, get_row-set_row_self}
use leadto_sales_re.Database.{SyncCursorRow}
use leadto_sales_re.Lead.Repository.{
  cursor_key, advance_rows, watermark_or_epoch, advance_at, forward,
}

abbrev pub watermark_in : ℕ → List SyncCursorRow → ℕ
watermark_in organization rows = watermark_or_epoch (get_row cursor_key organization rows)

advance_found :
    (now organization new : ℕ) (rows : List SyncCursorRow) (r : SyncCursorRow)
    → get_row cursor_key organization rows ≡ some r
    → watermark_in organization (set_row cursor_key organization (forward now new) rows)
      ≡ (if ltb r.watermark new then new else r.watermark)
advance_found now organization new rows r h =
    ap watermark_or_epoch
      (get_row-set_row_self cursor_key organization (forward now new) rows (ground arith) h)
    ∙ ground arith

-- After `advance_watermark` the organization's watermark is the greater of the old and the new one.
pub advance_rows_lem :
    (now organization new : ℕ) (rows : List SyncCursorRow)
    → let w = watermark_in organization rows in
      watermark_in organization (advance_rows now organization new rows)
      ≡ (if ltb w new then new else w)
advance_rows_lem now organization new rows =
    elim (Option-cases (get_row cursor_key organization rows)) [
      | inl h ↦
          let w = watermark_in organization in
          ap (λ o. w (advance_at now organization new rows o)) h
          ∙ (ap watermark_or_epoch (get_row-append_new cursor_key organization rows _ h refl)
              ∙ rw h (ground arith))
      | inr (r, h) ↦
          let w = watermark_in organization in
          ap (λ o. w (advance_at now organization new rows o)) h
          ∙ (advance_found now organization new rows r h ∙ rw h refl)
    ]
