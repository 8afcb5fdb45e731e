-- ===== src/Lead/Wiring/Isolation.antt =====
-- What the pass over one organization leaves, and that a failed one leaves the database as it was.
use leadto_sales_re.Base.{
  ℕ, ◌+◌, String, ◌≡◌, refl, ◌⊎◌, inl, inr, Option, none, some, List, [], ◌∷◌, ltb, if◌then◌else◌,
  length,
}
use leadto_sales_re.Event.{Stamp}
use leadto_sales_re.Result.{Result, Error, ok, err}
use leadto_sales_re.Database.{Database}
use leadto_sales_re.Session.{Action, Session, fresh, lift, pure, ◌>>=◌, ◌>>◌}
use leadto_sales_re.Session.Uncommitted.{
  Uncommitted, bind-Uncommitted, then-Uncommitted, lift-Uncommitted, if_Uncommitted,
}
use leadto_sales_re.Organization.{CrmConfig}
use leadto_sales_re.Organization.Repository.{get_config}
use leadto_sales_re.Lead.Repository.{get_watermark, advance_watermark}
use leadto_sales_re.Lead.Sync.{
  CrmClient, Snapshot, Poll, authorize, poll_step, poll_loop, poll_start, close_poll,
  publish_events, poll_once, later, bounded,
}
use leadto_sales_re.Lead.Sync.Uncommitted.{
  authorize-Uncommitted, upsert-Uncommitted, published-Uncommitted,
}
use leadto_sales_re.Lead.WacrmClient.{Python, Http}
use leadto_sales_re.Lead.Wiring.{
  client_of, crm_of_config, build_wacrm_client, poll_organization, worker_actor, sync_each, Commits,
  add_upserted,
}

poll_loop-Uncommitted :
    (clock : ℕ → Stamp) (organization : ℕ) (ns : List Snapshot) (p : Poll)
    → Uncommitted (poll_loop clock organization ns p)
unfolding poll_loop
poll_loop-Uncommitted clock organization [] p = λ s. refl
poll_loop-Uncommitted clock organization (n ∷ ns) p =
    bind-Uncommitted (poll_step (clock 0) organization n p)
      (poll_loop (later clock) organization ns) (λ s. upsert-Uncommitted (clock 0) organization n s)
      (λ q. poll_loop-Uncommitted (later clock) organization ns q)

advanced-Uncommitted :
    (now organization seen : ℕ) → Uncommitted (advance_watermark now organization seen)
unfolding advance_watermark
advanced-Uncommitted now organization seen s = refl

close_poll-Uncommitted :
    (now organization watermark : ℕ) (p : Poll)
    → Uncommitted (close_poll now organization watermark p)
close_poll-Uncommitted now organization watermark p =
    let seen = bounded p.max_seen p.earliest_skipped in
    then-Uncommitted
      (if ltb watermark seen then advance_watermark now organization seen else pure tt)
      (publish_events p.events)
      (if_Uncommitted (ltb watermark seen) (advance_watermark now organization seen) (pure tt)
        (advanced-Uncommitted now organization seen) (λ s. refl))
      (published-Uncommitted p.events)

-- The parts of `poll_once` that follow the read of the watermark, and those of the snapshots.
module _ (client : CrmClient) (clock : ℕ → Stamp) (organization : ℕ) where
  finish : ℕ → List Snapshot → Poll → Action ℕ
  finish watermark ns p = close_poll (clock 1).now organization watermark p >> pure (length ns)

  poll_snapshots : ℕ → List Snapshot → Action ℕ
  poll_snapshots watermark ns =
      poll_loop (later (later clock)) organization ns (poll_start watermark) >>= finish watermark ns

  poll_from : ℕ → Action ℕ
  poll_from watermark =
      lift (client.list_leads_updated_since organization watermark) >>= poll_snapshots watermark

  finish-Uncommitted :
      (watermark : ℕ) (ns : List Snapshot) (p : Poll) → Uncommitted (finish watermark ns p)
  unfolding finish
  finish-Uncommitted watermark ns p =
      then-Uncommitted (close_poll (clock 1).now organization watermark p) (pure (length ns))
        (close_poll-Uncommitted (clock 1).now organization watermark p) (λ s. refl)

  snapshots-Uncommitted :
      (watermark : ℕ) (ns : List Snapshot) → Uncommitted (poll_snapshots watermark ns)
  unfolding poll_snapshots
  snapshots-Uncommitted watermark ns =
      bind-Uncommitted (poll_loop (later (later clock)) organization ns (poll_start watermark))
        (finish watermark ns)
        (poll_loop-Uncommitted (later (later clock)) organization ns (poll_start watermark))
        (finish-Uncommitted watermark ns)

  poll_from-Uncommitted : (watermark : ℕ) → Uncommitted (poll_from watermark)
  unfolding poll_from
  poll_from-Uncommitted watermark =
      bind-Uncommitted (lift (client.list_leads_updated_since organization watermark))
        (poll_snapshots watermark)
        (lift-Uncommitted (client.list_leads_updated_since organization watermark))
        (snapshots-Uncommitted watermark)

  pub poll_once-Uncommitted :
      (actor : String) → Uncommitted (poll_once client clock organization actor)
  unfolding poll_once get_watermark poll_from poll_snapshots finish
  poll_once-Uncommitted actor =
      then-Uncommitted (authorize (clock 0) organization actor "poll" none)
        (get_watermark organization >>= poll_from)
        (authorize-Uncommitted (clock 0) organization actor "poll" none)
        (bind-Uncommitted (get_watermark organization) poll_from (λ s. refl) poll_from-Uncommitted)

module _ (python : Python) (connect : Option CrmConfig → Http python) where
  build-Uncommitted : (o : ℕ) → Uncommitted (build_wacrm_client python connect o)
  unfolding build_wacrm_client get_config
  build-Uncommitted o =
      bind-Uncommitted (get_config o) _ (λ s. refl)
        (λ config. lift-Uncommitted (client_of python connect o (crm_of_config config)))

  poll_organization-Uncommitted :
      (clock : ℕ → Stamp) (o : ℕ) → Uncommitted (poll_organization python connect clock o)
  poll_organization-Uncommitted clock o =
      bind-Uncommitted (build_wacrm_client python connect o) _ (build-Uncommitted o)
        (λ client. poll_once-Uncommitted client clock o worker_actor)

  module _ (commits : Commits) (clocks : ℕ → ℕ → Stamp) (o : ℕ) (os : List ℕ) (total : ℕ)
      (db : Database) where
    -- The organizations after this one are polled from a total and a database.
    abbrev pub GoesOn : ℕ → Database → Type 0
    GoesOn total' db' =
        sync_each python connect commits clocks (o ∷ os) (total, db)
        ≡ sync_each python connect commits clocks os (total', db')

    -- What the pass of one organization leaves to the organizations after it, by what its poll
    -- returns and what its commit raises.
    abbrev pub PassOutcome : Result ℕ × Session → Type 0
    PassOutcome (r, s) =
        ((e : Error) × (r ≡ err e) × GoesOn total db)
        ⊎ (((n : ℕ) × (e : Error) × (r ≡ ok n)
              × (commits o s.working ≡ some e)
              × GoesOn (total + n) db)
            ⊎ ((n : ℕ) × (r ≡ ok n) × (commits o s.working ≡ none) × GoesOn (total + n) s.working))

    goes_on :
        (r : Result ℕ) (s : Session) (total' : ℕ) (db' : Database)
        → poll_organization python connect (clocks o) o (fresh db) ≡ (r, s)
        → add_upserted total (commits o) (r, s) ≡ (total', db')
        → GoesOn total' db'
    unfolding sync_each
    goes_on r s total' db' h k = rw h (rw k refl)

    by_commit :
        (n : ℕ) (s : Session) (c : Option Error)
        → poll_organization python connect (clocks o) o (fresh db) ≡ (ok n, s)
        → s.committed ≡ db
        → commits o s.working ≡ c
        → PassOutcome (ok n, s)
    by_commit n s none h kept e =
        inr (inr (n, refl, e, goes_on (ok n) s (total + n) s.working h (rw e refl)))
    by_commit n s (some x) h kept e =
        inr (inl (n, x, refl, e, goes_on (ok n) s (total + n) db h (rw e (rw kept refl))))

    by_result :
        (r : Result ℕ) (s : Session)
        → poll_organization python connect (clocks o) o (fresh db) ≡ (r, s)
        → s.committed ≡ db
        → PassOutcome (r, s)
    by_result (err e) s h kept = inl (e, refl, goes_on (err e) s total db h (rw kept refl))
    by_result (ok n) s h kept = by_commit n s (commits o s.working) h kept refl

    -- The pass over an organization ends in one of three ways. Where its poll raises, the total and
    -- the database stay as they are. Where the poll returns and the commit raises, the database
    -- stays as it is, and the total counts the leads of the poll all the same. Otherwise the total
    -- counts them and the database is what the poll wrote. In each case the organizations after it
    -- are polled from there.
    pub sync_each_isolated : PassOutcome (poll_organization python connect (clocks o) o (fresh db))
    sync_each_isolated =
        let (r, s) = poll_organization python connect (clocks o) o (fresh db) in
        by_result r s refl (poll_organization-Uncommitted (clocks o) o (fresh db))
