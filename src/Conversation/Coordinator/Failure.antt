-- ===== src/Conversation/Coordinator/Failure.antt =====
-- A turn that raises leaves nothing behind.
use leadto_sales_re.Base.{
  ℕ, String, ◌≡◌, refl, ap, ◌∙◌, ◌≢◌, inl, inr, Option, none, some, arith, Bool-cases,
}
use leadto_sales_re.Event.{Stamp}
use leadto_sales_re.EventBus.{publish}
use leadto_sales_re.Result.{Result, Error, ok, err}
use leadto_sales_re.Database.{Database}
use leadto_sales_re.Session.{Session, continue, fresh, commit}
use leadto_sales_re.Conversation.State.{new, is_state}
use leadto_sales_re.Conversation.Model.{Conversation, transition_to, touch}
use leadto_sales_re.Conversation.Policy.{evaluate}
use leadto_sales_re.Conversation.Guardrail.{Patterns, BypassDecision, check}
use leadto_sales_re.Conversation.Repository
use leadto_sales_re.Conversation.Repository.{add_decision, save}
use leadto_sales_re.Conversation.Repository.RoundTrip.{loaded}
use leadto_sales_re.Conversation.Coordinator.{
  show, Responder, Recorder, turn, transfer_to_human, conversational_turn, reply,
  load_system_prompt, if_new, handle_found, handle_option, handle_message, handle_message_received,
  close_turn, finish_trace, add_trace, partial_record,
}
use leadto_sales_re.Conversation.Coordinator.Turn.{take_ownership-Uncommitted}

transfer-Uncommitted :
    (clock : ℕ → Stamp) (c : Conversation) (broker : Option String) (s : Session)
    → (transfer_to_human clock c broker s).1.committed ≡ s.committed
unfolding transfer_to_human evaluate add_decision transition_to
transfer-Uncommitted clock c broker s = ground arith

reply_reads :
    (respond : Responder) (clock : ℕ → Stamp) (text : String) (c : Conversation) (s : Session)
    → (reply respond clock text c s).1 ≡ s
unfolding reply load_system_prompt
reply_reads respond clock text c s = ground arith

after_owner :
    (respond : Responder) (clock : ℕ → Stamp) (text : String) (r : Result Conversation)
    (s : Session)
    → (continue r (reply respond clock text) s).1 ≡ s
after_owner respond clock text (ok c) s = reply_reads respond clock text c s
after_owner respond clock text (err e) s = refl

if_new-Uncommitted :
    (clock : ℕ → Stamp) (c : Conversation) (s : Session)
    → (if_new clock c s).1.committed ≡ s.committed
if_new-Uncommitted clock c s = elim (Bool-cases (is_state c.state new)) [
  | inl first ↦ rw first (take_ownership-Uncommitted clock c s)
  | inr later ↦ rw later refl
]

answer-Uncommitted :
    (respond : Responder) (clock : ℕ → Stamp) (c : Conversation) (text : String) (s : Session)
    → (conversational_turn respond clock c text s).1.committed ≡ s.committed
unfolding conversational_turn
answer-Uncommitted respond clock c text s =
    ap (λ (x : Session). x.committed)
      (after_owner respond clock text (if_new clock c s).0 (if_new clock c s).1)
    ∙ if_new-Uncommitted clock c s

keeps_session :
    {A B : Type 0} (r : Result A) (f : A → B) (s : Session)
    → (continue r (λ a. (λ (s' : Session). (ok (f a), s'))) s).1 ≡ s
keeps_session (ok a) f s = refl
keeps_session (err e) f s = refl

turn-Uncommitted :
    (respond : Responder) (clock : ℕ → Stamp) (c : Conversation) (text : String)
    (b : Option BypassDecision) (s : Session)
    → (turn respond clock c text b s).1.committed ≡ s.committed
turn-Uncommitted respond clock c text none s =
    ap (λ (x : Session). x.committed)
      (keeps_session (conversational_turn respond clock c text s).0 _ _)
    ∙ answer-Uncommitted respond clock c text s
turn-Uncommitted respond clock c text (some b) s =
    ap (λ (x : Session). x.committed)
      (keeps_session (transfer_to_human clock c b.broker_requested s).0 _ _)
    ∙ transfer-Uncommitted clock c b.broker_requested s

close_turn_done : (c : Conversation) (s : Session) (e : Error) → (close_turn c s).0 ≢ err e
unfolding close_turn save publish commit
close_turn_done c s e = ground arith

traced_failure :
    (t : Recorder → Database → Database) (p : Recorder) (r : Result (Recorder × Conversation))
    (s : Session) (e : Error)
    → (continue (finish_trace t p r s).0 close_turn (finish_trace t p r s).1).0 ≡ err e
    → (continue (finish_trace t p r s).0 close_turn (finish_trace t p r s).1).1.committed
      ≡ s.committed
traced_failure t p (ok (x, c)) s e h =
    absurd (close_turn_done c (record s { working = t x s.working }) e h)
traced_failure t p (err x) s e h = refl

module _ (patterns : Patterns) (respond : Responder) (clock : ℕ → Stamp) (organization : ℕ)
    (text : String) where
  found_failure :
      (found : Conversation) (s : Session) (e : Error)
      → (handle_found patterns respond clock organization text found s).0 ≡ err e
      → (handle_found patterns respond clock organization text found s).1.committed ≡ s.committed
  unfolding handle_found
  found_failure found s e h =
      let c = touch none (clock 0).now found in
      let b = check patterns text in
      let o = turn respond clock c text b s in
      traced_failure (add_trace (clock 5) organization c.id) (partial_record text b) o.0 o.1 e h
      ∙ turn-Uncommitted respond clock c text b s

  shown_failure :
      (r : Result Conversation) (s : Session) (e : Error)
      → (continue r (show none) s).0 ≡ err e
      → (r ≡ err e) × ((continue r (show none) s).1 ≡ s)
  shown_failure (ok c) s e h = absurd (ground arith)
  shown_failure (err x) s e h = (ground arith, refl)

  option_failure :
      (r : Result (Option Conversation)) (s : Session) (e : Error)
      → (continue r (handle_option patterns respond none clock organization text) s).0 ≡ err e
      → (continue r (handle_option patterns respond none clock organization text) s).1.committed
        ≡ s.committed
  option_failure (err x) s e h = refl
  option_failure (ok none) s e h = refl
  option_failure (ok (some found)) s e h =
      let o = handle_found patterns respond clock organization text found s in
      let (raised, same) = shown_failure o.0 o.1 e h in
      ap (λ (x : Session). x.committed) same ∙ found_failure found s e raised

  -- Without a sidebar: a message whose handling raises, wherever it does, leaves the database as it
  -- was, the table of the decision traces included.
  pub handle_message_received_failure :
      (conversation : ℕ) (db : Database) (e : Error)
      → (handle_message_received patterns respond none clock organization conversation text db).0
        ≡ err e
      → (handle_message_received patterns respond none clock organization conversation text db).1
        ≡ db
  unfolding handle_message_received handle_message Repository.get
  handle_message_received_failure conversation db e h =
      option_failure (loaded conversation db) (fresh db) e h
