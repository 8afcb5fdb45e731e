-- ===== src/Conversation/Decay.antt =====
-- app/modules/conversation_ownership/application/decay.py
use leadto_sales_re.Base.{
  ℕ, ◌+◌, ◌-◌, ◌*◌, ◌<◌, String, ◌≡◌, refl, sym, ap, ◌∙◌, subst, inl, inr, true, some, List, [],
  ◌∷◌, ◌++◌, map, append-nil, append_assoc, arith, str_eq, eq_iff, ltb→lt, Bool-cases, length,
  select, any, All, select_passes,
}
use leadto_sales_re.Event.{DomainEvent, Stamp, event_at, conversation_went_dormant}
use leadto_sales_re.Result.{ok, Result-cases}
use leadto_sales_re.Database.{ConversationRow}
use leadto_sales_re.Session.{◌>>=◌, Action, Session, pure, ◌>>◌}
use leadto_sales_re.EventBus.{publish, outbox_row}
use leadto_sales_re.Conversation.State.{
  ConversationState, dormant, active_states, is_active, in_states, state_value, state_of_value,
  state_of_value-state_value,
}
use leadto_sales_re.Conversation.Model.{
  Conversation, record_event, decay_to_dormant, pull_domain_events,
}
use leadto_sales_re.Conversation.Repository
use leadto_sales_re.Conversation.Repository.{
  list_inactive_since, is_inactive, to_domain_list, to_domain, save_rows,
}
use leadto_sales_re.Conversation.Repository.RoundTrip.{to_domain_state}
use leadto_sales_re.Conversation.Coordinator.{on_object}

abbrev pub microseconds_of_hours : ℕ → ℕ
microseconds_of_hours hours = hours * 3600000000

-- The body of the loop.
unfoldable pub decay_one : Stamp → Conversation → Action (Unit {0})
decay_one t c = do
  decayed ← on_object (decay_to_dormant t c)
  Repository.save decayed.1
  publish (pull_domain_events decayed.1).0

unfoldable pub decay_all : (ℕ → Stamp) → List Conversation → Action (Unit {0})
decay_all clock [] = pure tt
decay_all clock (c ∷ cs) = decay_one (clock 0) c >> decay_all (λ k. clock (k + 1)) cs

-- `decay_inactive_conversations`; the time is past the threshold, so the difference is one.
unfoldable pub decay_inactive_conversations : (ℕ → Stamp) → ℕ → Action ℕ
decay_inactive_conversations clock threshold_hours = do
  stale ← list_inactive_since ((clock 0).now - microseconds_of_hours threshold_hours) active_states
  decay_all (λ k. clock (k + 1)) stale
  pure (length stale)

-- The state of a row that the scan selects is one of the states that it asks for.
selected_state :
    (v : String) (s : ConversationState) (ss : List ConversationState)
    → any (λ x. str_eq (state_value x) v) ss ≡ true
    → state_of_value v ≡ some s
    → in_states s ss ≡ true
selected_state v s [] h e = absurd (ground arith)
selected_state v s (x ∷ ss) h e = elim (Bool-cases (str_eq (state_value x) v)) [
  | inl same ↦
      let named : v ≡ state_value x = sym ((eq_iff (state_value x) v).0 same) in
      let found : state_of_value v ≡ some x =
        ap state_of_value named ∙ state_of_value-state_value x in
      let one : x ≡ s = ground arith in subst (λ y. in_states y (x ∷ ss) ≡ true) one (ground arith)
  | inr other ↦ let rest = selected_state v s ss (ground arith) e in ground arith
]

abbrev went_dormant : Stamp → Conversation → DomainEvent
went_dormant t c = event_at t c.organization_id (conversation_went_dormant c.id c.last_contact_at)

-- The events of a scan, in its order.
abbrev pub dormancy_events : (ℕ → Stamp) → List Conversation → List DomainEvent
dormancy_events clock [] = []
dormancy_events clock (c ∷ cs) =
    let rest = dormancy_events (λ k. clock (k + 1)) cs in went_dormant (clock 0) c ∷ rest

abbrev IsReady : Conversation → Type 0
IsReady c = (is_active c.state ≡ true) × (c.domain_events ≡ [])

abbrev decayed : Stamp → Conversation → Conversation
decayed t c = record c { state = dormant; domain_events = went_dormant t c ∷ [] }

decay_one_lem :
    (t : Stamp) (c : Conversation) (s : Session)
    → IsReady c
    → decay_one t c s ≡ (
      ok tt,
      record s {
        working = record s.working {
          conversations = save_rows (decayed t c) s.working.conversations;
          outbox_events = s.working.outbox_events ++ outbox_row (went_dormant t c) ∷ [];
        };
      },
    )
unfolding decay_one decay_to_dormant record_event pull_domain_events Repository.save publish
decay_one_lem t c s h = rw h.0 (rw h.1 refl)

decay_all_lem :
    (clock : ℕ → Stamp) (cs : List Conversation) (s : Session)
    → All IsReady cs
    → let (r, s') = decay_all clock cs s in
      (r ≡ ok tt)
      × (s'.working.outbox_events
          ≡ s.working.outbox_events ++ map outbox_row (dormancy_events clock cs))
unfolding decay_all
decay_all_lem clock [] s h = (refl, sym (append-nil s.working.outbox_events))
decay_all_lem clock (c ∷ cs) s h =
    let s1 = record s {
      working = record s.working {
        conversations = save_rows (decayed (clock 0) c) s.working.conversations;
        outbox_events = s.working.outbox_events ++ outbox_row (went_dormant (clock 0) c) ∷ [];
      };
    } in
    let (done, sent) = decay_all_lem (λ k. clock (k + 1)) cs s1 h.1 in
    rw (decay_one_lem (clock 0) c s h.0) (done, sent ∙ append_assoc s.working.outbox_events _ _)

-- A conversation that the scan may take: active, and silent since before the cutoff.
abbrev pub IsSilent : ℕ → Conversation → Type 0
IsSilent cutoff c = (is_active c.state ≡ true) × (c.last_contact_at < cutoff)

row-IsReady :
    (cutoff : ℕ) (r : ConversationRow) (c : Conversation)
    → is_inactive cutoff active_states r ≡ true
    → to_domain r ≡ ok c
    → IsReady c × IsSilent cutoff c
unfolding is_active
row-IsReady cutoff r c h e =
    let (state, contact, pulled) = to_domain_state r c e in
    let active = selected_state r.state c.state active_states (ground arith) state in
    let early = ltb→lt r.last_contact_at cutoff (ground arith) in
    ((active, pulled), (active, ground arith))

list-IsReady :
    (cutoff : ℕ) (rows : List ConversationRow) (cs : List Conversation)
    → All (λ r. is_inactive cutoff active_states r ≡ true) rows
    → to_domain_list rows ≡ ok cs
    → All IsReady cs × All (IsSilent cutoff) cs
list-IsReady cutoff [] [] h e = (tt, tt)
list-IsReady cutoff [] (c ∷ cs) h e = absurd (ground arith)
list-IsReady cutoff (r ∷ rs) cs h e = elim (Result-cases (to_domain r)) [
  | inr (x, f) ↦ absurd (ground arith)
  | inl (c, f) ↦ elim (Result-cases (to_domain_list rs)) [
    | inr (x, g) ↦ absurd (ground arith)
    | inl (ds, g) ↦
        let same : (c ∷ ds) ≡ cs = ground arith in
        let first = row-IsReady cutoff r c h.0 f in
        let rest = list-IsReady cutoff rs ds h.1 g in
        subst (λ xs. All IsReady xs × All (IsSilent cutoff) xs) same
          ((first.0, rest.0), (first.1, rest.1))
  ]
]

-- A scan whose selected rows can be read raises nothing: it counts them, each was active and silent
-- for longer than the threshold, and exactly one `ConversationWentDormant` is published for each,
-- in their order.
pub decay_inactive_conversations_outcome :
    (clock : ℕ → Stamp) (hours : ℕ) (s : Session) (stale : List Conversation)
    → let cutoff = (clock 0).now - microseconds_of_hours hours in
      to_domain_list (select (is_inactive cutoff active_states) s.working.conversations) ≡ ok stale
      → let cutoff = (clock 0).now - microseconds_of_hours hours in
        let (r, s') = decay_inactive_conversations clock hours s in
        (r ≡ ok (length stale))
        × All (IsSilent cutoff) stale
        × (s'.working.outbox_events
            ≡ s.working.outbox_events
              ++ map outbox_row (dormancy_events (λ k. clock (k + 1)) stale))
unfolding decay_inactive_conversations list_inactive_since
decay_inactive_conversations_outcome clock hours s stale h =
    let cutoff = (clock 0).now - microseconds_of_hours hours in
    let (ready, silent) =
      list-IsReady cutoff _ stale
        (select_passes (is_inactive cutoff active_states) s.working.conversations) h in
    let (done, sent) = decay_all_lem (λ k. clock (k + 1)) stale s ready in
    rw h (rw done (refl, silent, sent))
