-- ===== src/Conversation/Ownership.antt =====
-- What the aggregate's methods promise: rejected transitions, ownership history, decay.
pub mod Lifecycle
use leadto_sales_re.Base.{
  ℕ, String, ◌≡◌, ap, ◌⊎◌, inl, inr, true, false, Option, [], ◌∷◌, ◌++◌, arith, opt_eq_iff,
}
use leadto_sales_re.Event.{
  DomainEvent, Stamp, event_at, ownership_transferred, conversation_went_dormant,
}
use leadto_sales_re.Result.{ok, err, invalid_transition}
use leadto_sales_re.Conversation.State.{ConversationState, dormant, is_active, allows}
use leadto_sales_re.Conversation.State.Reach.{Change, transition}
use leadto_sales_re.Conversation.Model.{
  replace_if_given, OwnerType, Conversation, owner_value, is_owner_iff, record_event,
  replace_ownership, transition_to, decay_to_dormant,
}

module _ (t : Stamp) (target : ConversationState) (reason : String) (owner_type : Option OwnerType)
    (owner_id : Option ℕ) (c : Conversation) where
  -- A transition either raises `InvalidTransitionError` and leaves the conversation as it was, or
  -- it moves the conversation to its target along the table of the allowed transitions.
  pub transition_to_outcome :
      let (r, c') = transition_to t target reason owner_type owner_id c in
      ((allows c.state target ≡ false) × (r ≡ err (invalid_transition c.state target)) × (c' ≡ c))
      ⊎ ((allows c.state target ≡ true) × (r ≡ ok c'.ownership) × (c'.state ≡ target))
  unfolding transition_to
  transition_to_outcome = ground arith

module _ (t : Stamp) (o : OwnerType) (owner_id : Option ℕ) (reason : String)
    (c : Conversation) where
  abbrev pub transferred : DomainEvent
  transferred =
      event_at t c.organization_id
        (ownership_transferred c.id (owner_value c.ownership.owner_type) (owner_value o) reason)

  -- Replacing the owner records the transfer if the owner's kind or identity changes, and no event
  -- otherwise; either way the new ownership carries the reason and the time.
  pub replace_ownership_history :
      let c' = replace_ownership t o owner_id reason c in
      (c'.ownership
        ≡ record { owner_type = o; owner_id = owner_id; since = t.now; reason = reason })
      × (c'.state ≡ c.state)
      × (((c.ownership.owner_type ≡ o)
            × (c.ownership.owner_id ≡ owner_id)
            × (c'.domain_events ≡ c.domain_events))
          ⊎ (¬ ((c.ownership.owner_type ≡ o) × (c.ownership.owner_id ≡ owner_id))
              × (c'.domain_events ≡ c.domain_events ++ transferred ∷ [])))
  unfolding replace_ownership record_event
  replace_ownership_history =
      ground
        (arith, is_owner_iff c.ownership.owner_type o, opt_eq_iff c.ownership.owner_id owner_id)

-- An active conversation falls dormant with one event that holds its last contact; any other raises
-- and stays as it is.
pub decay_to_dormant_outcome :
    (t : Stamp) (c : Conversation)
    → let (r, c') = decay_to_dormant t c in
      ((is_active c.state ≡ true)
        × (r ≡ ok tt)
        × (c' ≡ record c {
          state = dormant;
          domain_events =
              c.domain_events
              ++ event_at t c.organization_id (conversation_went_dormant c.id c.last_contact_at)
                ∷ [];
        }))
      ⊎ ((is_active c.state ≡ false) × (r ≡ err (invalid_transition c.state dormant)) × (c' ≡ c))
unfolding decay_to_dormant record_event
decay_to_dormant_outcome t c = ground arith

-- A transition, whether it raises or not, makes a step of the lifecycle or leaves the state alone.
pub transition_to-Change :
    (t : Stamp) (target : ConversationState) (reason : String) (o : Option OwnerType) (i : Option ℕ)
    (c : Conversation)
    → let c' = (transition_to t target reason o i c).1 in
      (c'.state ≡ c.state) ⊎ Change c.state c'.state
transition_to-Change t target reason o i c = elim (transition_to_outcome t target reason o i c) [
  | inl (no_row, _, same) ↦ inl (ap (λ (x : Conversation). x.state) same)
  | inr (row, _, moved) ↦ inr (rw moved (transition row))
]

pub transition_allowed :
    (t : Stamp) (target : ConversationState) (reason : String) (o : Option OwnerType) (i : Option ℕ)
    (c : Conversation)
    → allows c.state target ≡ true
    → let c' = replace_if_given t o i reason (record c { state = target }) in
      transition_to t target reason o i c ≡ (ok c'.ownership, c')
unfolding transition_to
transition_allowed t target reason o i c h = rw h

pub transition_rejected :
    (t : Stamp) (target : ConversationState) (reason : String) (o : Option OwnerType) (i : Option ℕ)
    (c : Conversation)
    → allows c.state target ≡ false
    → transition_to t target reason o i c ≡ (err (invalid_transition c.state target), c)
unfolding transition_to
transition_rejected t target reason o i c h = rw h
