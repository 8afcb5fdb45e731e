-- ===== src/Conversation/Ownership/Lifecycle.antt =====
-- The methods of the aggregate against the lifecycle of its states.
use leadto_sales_re.Base.{
  ℕ, String, ◌≡◌, refl, sym, ap, subst, ◌⊎◌, inl, inr, Option, List, [], ◌∷◌,
}
use leadto_sales_re.Event.{Stamp, DomainEvent}
use leadto_sales_re.Conversation.State.{ConversationState}
use leadto_sales_re.Conversation.State.Reach.{Change, decay, Run, start, then}
use leadto_sales_re.Conversation.Model.{
  Conversation, OwnerType, touch, link_lead, record_event, pull_domain_events, transition_to,
  decay_to_dormant,
}
use leadto_sales_re.Conversation.Ownership.{transition_to-Change, decay_to_dormant_outcome}

-- A call of one of the public methods of `Conversation`, with its arguments and what it reads of
-- the clock.
pub data Call : Type 0 where
  link : ℕ → Call
  transit : Stamp → ConversationState → String → Option OwnerType → Option ℕ → Call
  fall_dormant : Stamp → Call
  contact : Option ℕ → ℕ → Call
  record_one : DomainEvent → Call
  pull : Call

-- The object after the call, also where the call raises.
abbrev pub after_call : Call → Conversation → Conversation
after_call (link lead) c = link_lead lead c
after_call (transit t target reason o i) c = (transition_to t target reason o i c).1
after_call (fall_dormant t) c = (decay_to_dormant t c).1
after_call (contact at now) c = touch at now c
after_call (record_one e) c = record_event e c
after_call pull c = (pull_domain_events c).1

abbrev pub after_calls : List Call → Conversation → Conversation
after_calls [] c = c
after_calls (x ∷ xs) c = after_calls xs (after_call x c)

abbrev Step : Conversation → Conversation → Type 0
Step c c' = (c'.state ≡ c.state) ⊎ Change c.state c'.state

decay_to_dormant-Change : (t : Stamp) (c : Conversation) → Step c (decay_to_dormant t c).1
decay_to_dormant-Change t c = elim (decay_to_dormant_outcome t c) [
  | inl (active, _, fell) ↦ inr (decay active (ap (λ (x : Conversation). x.state) fell))
  | inr (_, _, same) ↦ inl (ap (λ (x : Conversation). x.state) same)
]

after_call-Step : (x : Call) (c : Conversation) → Step c (after_call x c)
unfolding touch link_lead record_event pull_domain_events
after_call-Step (link lead) c = inl refl
after_call-Step (transit t target reason o i) c = transition_to-Change t target reason o i c
after_call-Step (fall_dormant t) c = decay_to_dormant-Change t c
after_call-Step (contact at now) c = inl refl
after_call-Step (record_one e) c = inl refl
after_call-Step pull c = inl refl

continued :
    {s : ConversationState} (c c' : Conversation) → Step c c' → Run s c.state → Run s c'.state
continued {s} c c' (inl same) r = subst (Run s) (sym same) r
continued c c' (inr change) r = then r change

extended :
    {s : ConversationState} (xs : List Call) (c : Conversation)
    → Run s c.state
    → Run s (after_calls xs c).state
extended [] c r = r
extended (x ∷ xs) c r =
    extended xs (after_call x c) (continued c (after_call x c) (after_call-Step x c) r)

-- Any sequence of calls of the aggregate's methods, whether they raise or not, takes the state of a
-- conversation along a run of the lifecycle: rows of the table of transitions, and decays of an
-- active state.
pub after_calls-Run : (xs : List Call) (c : Conversation) → Run c.state (after_calls xs c).state
after_calls-Run xs c = extended xs c start
