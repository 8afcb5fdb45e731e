-- ===== src/Conversation/Webhook/Outcome.antt =====
-- What one call of the webhook does to the database.
use leadto_sales_re.Base.{
  ℕ, ◌≡◌, refl, sym, ap, ◌∙◌, subst, ◌≢◌, ◌⊎◌, inl, inr, Bool, true, false, Option, none, some,
  List, [], ◌∷◌, ◌++◌, arith, Bool-cases, select,
}
use leadto_sales_re.Json.{Json, dig, is_text}
use leadto_sales_re.Event.{Stamp}
use leadto_sales_re.Result.{Result, ok, err}
use leadto_sales_re.Database.{Database, OrganizationRow, ArchivedMessageRow}
use leadto_sales_re.Session.{Action, Session, fresh, continue, commit, ◌>>=◌, ◌>>◌}
use leadto_sales_re.EventBus.{publish, outbox_row}
use leadto_sales_re.Conversation.Model.{Conversation, new_conversation, touch}
use leadto_sales_re.Conversation.Repository.{
  get_by_chatwoot_id, archive, is_archived, save, save_rows,
}
use leadto_sales_re.Conversation.Webhook.{
  Python, Status, Message, receive_chatwoot_webhook, receive_from, receive_message, link_missing,
  accept_unless, read_message, found_or_new, message_event, is_incoming, lacks_identifiers,
}
use leadto_sales_re.Conversation.Webhook.Archive.{
  archived, link_missing_reads, link_missing_id, get_by_chatwoot_id_reads, archive_outcome,
  archived_row,
}

module _ (python : Python) (clock : ℕ → Stamp) (organization : ℕ) (payload : Json) where
  -- Whether the message goes to a conversation: the one that was looked up, or a new one.
  abbrev pub IsTarget : Result (Option Conversation) → ℕ → Type 0
  IsTarget (ok none) c = c ≡ (clock 1).new_id
  IsTarget (ok (some found)) c = c ≡ found.id
  IsTarget (err e) c = ⊥

  -- What an accepted message leaves: one archived copy, where there was none, and one event.
  abbrev pub IsAccepted : Result (Option Conversation) → Message → Database → Database → Type 0
  IsAccepted found m db db' =
      (c : ℕ) × IsTarget found c
      × (select (is_archived c m.chatwoot_message_id) db.archived_messages ≡ [])
      × (db'.archived_messages
          ≡ db.archived_messages ++ archived_row (clock 2) organization c m payload (fresh db) ∷ [])
      × (db'.outbox_events
          ≡ db.outbox_events ++ outbox_row (message_event (clock 3) organization c m) ∷ [])

  abbrev Outcome :
      Result (Option Conversation) → Message → Session → Result Status × Session → Type 0
  Outcome found m s o =
      ((o.0 ≢ ok Status.accepted) × (o.1.committed ≡ s.committed))
      ⊎ ((o.0 ≡ ok Status.accepted) × IsAccepted found m s.working o.1.committed)

  -- From the saved conversation on.
  abbrev archive_and_publish : Message → Conversation → Action Status
  archive_and_publish m c s =
      let (r, s') =
        archive (clock 2) organization c.id m.chatwoot_message_id m.sender m.text payload
          m.created_at s in
      continue r (accept_unless (clock 3) organization c m) s'

  unaccepted :
      (m : Message) (c : Conversation) (r : Result Bool) (s : Session)
      → r ≢ ok true
      → (continue r (accept_unless (clock 3) organization c m) s).0 ≢ ok Status.accepted
  unaccepted m c (ok true) s h = absurd (h refl)
  unaccepted m c (ok false) s h = ground arith
  unaccepted m c (err e) s h = ground arith

  unaccepted_keeps :
      (m : Message) (c : Conversation) (r : Result Bool) (s : Session)
      → r ≢ ok true
      → (continue r (accept_unless (clock 3) organization c m) s).1.committed ≡ s.committed
  unaccepted_keeps m c (ok true) s h = absurd (h refl)
  unaccepted_keeps m c (ok false) s h = refl
  unaccepted_keeps m c (err e) s h = refl

  flushed-Outcome :
      (found : Result (Option Conversation)) (m : Message) (c : Conversation) (s : Session)
      (storable : Bool)
      → m.is_storable ≡ storable
      → IsTarget found c.id
      → select (is_archived c.id m.chatwoot_message_id) s.working.archived_messages ≡ []
      → Outcome found m s (
          accept_unless
            (clock 3)
            organization
            c
            m
            true
            (archived (clock 2) organization c.id m payload s))
  unfolding publish commit
  flushed-Outcome found m c s true e target none_yet =
      rw e (inr (refl, (c.id, target, none_yet, refl, refl)))
  flushed-Outcome found m c s false e target none_yet = rw e (inl (ground arith, refl))

  archive_and_publish-Outcome :
      (found : Result (Option Conversation)) (m : Message) (c : Conversation) (s : Session)
      → IsTarget found c.id
      → Outcome found m s (archive_and_publish m c s)
  archive_and_publish-Outcome found m c s target =
      elim (archive_outcome (clock 2) organization c.id m payload s) [
        | inl (n, e) ↦
            (inl (
              unaccepted m c _ _ n,
              unaccepted_keeps m c _ _ n ∙ ap (λ (x : Session). x.committed) e,
            ))
        | inr (none_yet, added, e) ↦
            rw added (rw e (flushed-Outcome found m c s m.is_storable refl target none_yet))
      ]

  abbrev save_and_archive : Message → Conversation → Action Status
  save_and_archive m c = save c >> archive_and_publish m c

  after_link :
      (found : Result (Option Conversation)) (m : Message) (r : Result Conversation)
      (s s' : Session)
      → s' ≡ s
      → ((c : Conversation) → r ≡ ok c → IsTarget found c.id)
      → Outcome found m s (continue r (save_and_archive m) s')
  unfolding save
  after_link found m (err e) s s' h t = rw h (inl (ground arith, refl))
  after_link found m (ok c) s s' h t = rw h (
      archive_and_publish-Outcome found m c
        (record s {
          working = record s.working { conversations = save_rows c s.working.conversations };
        })
        (t c refl))

  abbrev link_and_save : Message → Option Conversation → Action Status
  link_and_save m found =
      let c = found_or_new python (clock 1) organization payload m found in
      link_missing c c.lead_id >>= save_and_archive m

  after_lookup :
      (m : Message) (r : Result (Option Conversation)) (s s' : Session)
      → s' ≡ s
      → Outcome r m s (continue r (link_and_save m) s')
  after_lookup m (err e) s s' h = rw h (inl (ground arith, refl))
  after_lookup m (ok none) s s' h =
      let c = found_or_new python (clock 1) organization payload m none in
      rw h (
        after_link (ok none) m (link_missing c c.lead_id s).0 s _ (link_missing_reads c c.lead_id s)
          (λ c' e. link_missing_id c c.lead_id s c' e ∙ unfold new_conversation in refl))
  after_lookup m (ok (some found)) s s' h =
      let c = found_or_new python (clock 1) organization payload m (some found) in
      rw h (
        after_link (ok (some found)) m (link_missing c c.lead_id s).0 s _
          (link_missing_reads c c.lead_id s)
          (λ c' e. link_missing_id c c.lead_id s c' e ∙ unfold touch in refl))

  abbrev pub lookup : Message → Database → Result (Option Conversation)
  lookup m db = (get_by_chatwoot_id organization m.chatwoot_conversation_id (fresh db)).0

  receive_message-Outcome :
      (m : Message) (db : Database)
      → Outcome
          (lookup m db)
          m
          (fresh db)
          (receive_message python clock organization payload m (fresh db))
  receive_message-Outcome m db =
      after_lookup m (lookup m db) (fresh db) _
        (get_by_chatwoot_id_reads organization m.chatwoot_conversation_id (fresh db))

  abbrev pub message : Result Message
  message = read_message python (clock 0).now payload

  -- The message that was read, and what it leaves.
  abbrev pub Accepts : Result Message → Database → Database → Type 0
  Accepts r db db' = (m : Message) × (r ≡ ok m) × IsAccepted (lookup m db) m db db'

  abbrev Received : Result Message → Database → Result Status × Session → Type 0
  Received r db o =
      ((o.0 ≢ ok Status.accepted) × (o.1.committed ≡ db))
      ⊎ ((o.0 ≡ ok Status.accepted) × Accepts r db o.1.committed)

  received :
      (m : Message) (db : Database) (o : Result Status × Session)
      → Outcome (lookup m db) m (fresh db) o
      → Received (ok m) db o
  received m db o (inl kept) = inl kept
  received m db o (inr (taken_in, left)) = inr (taken_in, (m, refl, left))

  read-Received :
      (r : Result Message) (db : Database)
      → Received r db (continue r (receive_message python clock organization payload) (fresh db))
  read-Received (err e) db = inl (ground arith, refl)
  read-Received (ok m) db =
      received m db (receive_message python clock organization payload m (fresh db))
        (receive_message-Outcome m db)

  receive_from-Received :
      (o : Option OrganizationRow) (db : Database)
      → Received message db (receive_from python clock organization payload o (fresh db))
  receive_from-Received none db = inl (ground arith, refl)
  receive_from-Received (some org) db =
      elim (Bool-cases (is_text (dig payload "event") "message_created")) [
        | inr e ↦ rw e (inl (ground arith, refl))
        | inl e ↦ elim (Bool-cases (is_incoming payload)) [
          | inr i ↦ rw e (rw i (inl (ground arith, refl)))
          | inl i ↦ elim (Bool-cases (lacks_identifiers python payload)) [
            | inl l ↦ rw e (rw i (rw l (inl (ground arith, refl))))
            | inr l ↦ rw e (rw i (rw l (read-Received message db)))
          ]
        ]
      ]

  -- A call of the webhook that does not answer "accepted", whether it raises, ignores the payload
  -- or finds the message archived, leaves the database as it was; one that does has read a message
  -- from the payload, goes to the conversation that was looked up, or to a new one, has found no
  -- archived copy there, archives one, and publishes exactly one `MessageReceived` for it.
  pub receive_chatwoot_webhook_outcome :
      (db : Database)
      → let (r, db') = receive_chatwoot_webhook python clock organization payload db in
        ((r ≢ ok Status.accepted) × (db' ≡ db))
        ⊎ ((r ≡ ok Status.accepted) × Accepts message db db')
  unfolding receive_chatwoot_webhook
  receive_chatwoot_webhook_outcome db = receive_from-Received _ db

  -- For a message that is archived in the conversation that its identifier leads to: whatever else
  -- the payload says, the call is not accepted and leaves the database as it was.
  pub receive_chatwoot_webhook_again :
      (db : Database) (m : Message) (c : Conversation) (x : ArchivedMessageRow)
      (xs : List ArchivedMessageRow)
      → message ≡ ok m
      → lookup m db ≡ ok (some c)
      → select (is_archived c.id m.chatwoot_message_id) db.archived_messages ≡ x ∷ xs
      → let (r, db') = receive_chatwoot_webhook python clock organization payload db in
        (r ≢ ok Status.accepted) × (db' ≡ db)
  receive_chatwoot_webhook_again db m c x xs read h k = elim (receive_chatwoot_webhook_outcome db) [
    | inl kept ↦ kept
    | inr (taken_in, (n, e, (d, target, fresh_there, copied, sent))) ↦
        let one : n ≡ m = let both : ok n ≡ ok m = sym e ∙ read in ground arith in
        let same : d ≡ c.id = subst (λ r. IsTarget r d) (ap (λ y. lookup y db) one ∙ h) target in
        absurd (
          let none_there =
            subst
              (λ (y : Message).
                select (is_archived d y.chatwoot_message_id) db.archived_messages ≡ [])
              one fresh_there in
          let none_here =
            subst (λ i. select (is_archived i m.chatwoot_message_id) db.archived_messages ≡ []) same
              none_there in
          let clash : x ∷ xs ≡ [] = sym k ∙ none_here in ground arith)
  ]
