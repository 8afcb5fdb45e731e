-- ===== src/Lead/Sync/Watermark.antt =====
-- The watermark of the polling: it never moves backwards and never passes a skipped lead.
use leadto_sales_re.Base.{ℕ, ◌<◌, String, ◌≡◌, ◌≢◌, ◌⊎◌, true, none, List, length}
use leadto_sales_re.Event.{Stamp}
use leadto_sales_re.Result.{Result}
use leadto_sales_re.Session.{Action, Session, pure, ◌>>=◌, ◌>>◌}
use leadto_sales_re.Lead.Stage.{stage_of_value}
use leadto_sales_re.Lead.Repository.{watermark_of, record_access}
use leadto_sales_re.Lead.Sync.{
  CrmClient, Snapshot, Poll, poll_loop, close_poll, bounded, poll_start,
}

module _ (now organization w : ℕ) (p : Poll) (s : Session) where
  abbrev reached : ℕ
  reached = bounded p.max_seen p.earliest_skipped

-- Where the watermark stands to a snapshot, when it was at `w`.
abbrev pub Unpassed : ℕ → ℕ → Snapshot → Type 0
Unpassed w w' n = (stage_of_value n.pipeline_stage ≢ none) ⊎ (w' ≡ w) ⊎ (w' < n.updated_at)

module _ (clock : ℕ → Stamp) (now organization w : ℕ) (ns : List Snapshot) where
  -- `poll_once` from the CRM's answer on.
  abbrev close_and_count : Poll → Action ℕ
  close_and_count p = close_poll now organization w p >> pure (length ns)

  abbrev poll_answer : Action ℕ
  poll_answer = poll_loop clock organization ns (poll_start w) >>= close_and_count

module _ (client : CrmClient) (clock : ℕ → Stamp) (organization : ℕ) (actor : String)
    (s : Session) where
  abbrev before_poll : ℕ
  before_poll = watermark_of organization s.working

  -- The session with the access recorded.
  abbrev audited : Session
  audited = (record_access (clock 0) organization actor "poll" none true s).1
