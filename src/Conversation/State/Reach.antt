-- ===== src/Conversation/State/Reach.antt =====
-- Which states a conversation can reach by the transitions of the table and by inactivity.
use leadto_sales_re.Base.{◌≡◌, refl, ◌≢◌, ◌⊎◌, inl, inr, true, arith}
use leadto_sales_re.Conversation.State.{
  ConversationState, ownership_evaluation, assigned_human, negotiation, dormant, reactivated,
  closed_won, closed_lost, is_active, allows,
}

-- One change of state: a row of the table, or the decay of an active state.
pub data Change : ConversationState → ConversationState → Type 0 where
  transition : {s t : ConversationState} → allows s t ≡ true → Change s t
  decay : {s t : ConversationState} → is_active s ≡ true → t ≡ dormant → Change s t

-- A run of changes from `s`, the latest last.
pub data Run (s : ConversationState) : ConversationState → Type 0 where
  start : Run s s
  then : {t u : ConversationState} → Run s t → Change t u → Run s u

-- The run stood in the state `g` at some point, its ends included.
abbrev pub Visits : {s t : ConversationState} → ConversationState → Run s t → Type 0
Visits {s} g start = s ≡ g
Visits {t = u} g (then r c) = (u ≡ g) ⊎ Visits g r

Change-dormant : {s t : ConversationState} → s ≡ dormant → Change s t → t ≡ reactivated
unfolding allows is_active
Change-dormant e (transition h) = ground arith
Change-dormant e (decay a d) = ground arith

Change-reactivated :
    {s t : ConversationState} → s ≡ reactivated → Change s t → t ≡ ownership_evaluation
unfolding allows is_active
Change-reactivated e (transition h) = ground arith
Change-reactivated e (decay a d) = ground arith

-- Whatever happens to a dormant conversation, it is still dormant, it is being reactivated, or its
-- ownership has been evaluated since: no other way leads back into the pipeline.
pub reentry_gateway :
    {t : ConversationState} (r : Run dormant t)
    → (t ≡ dormant) ⊎ ((t ≡ reactivated) ⊎ Visits ownership_evaluation r)
reentry_gateway start = inl refl
reentry_gateway (then r c) = elim (reentry_gateway r) [
  | inl d ↦ inr (inl (Change-dormant d c))
  | inr (inl w) ↦ inr (inr (inl (Change-reactivated w c)))
  | inr (inr v) ↦ inr (inr (inr v))
]

abbrev pub IsClosed : ConversationState → Type 0
IsClosed s = (s ≡ closed_won) ⊎ (s ≡ closed_lost)

Change-closed : {s t : ConversationState} → IsClosed s → Change s t → ⊥
unfolding allows is_active
Change-closed e (transition h) = ground arith
Change-closed e (decay a d) = ground arith

-- A closed conversation stays as it is: no run leaves a closed state.
pub closed_is_final : {s t : ConversationState} → IsClosed s → Run s t → t ≡ s
closed_is_final h start = refl
closed_is_final {s} h (then r c) = absurd (Change-closed (rw (closed_is_final h r) h) c)

Run-cons : {s t u : ConversationState} → Change s t → Run t u → Run s u
Run-cons c start = then start c
Run-cons c (then r d) = then (Run-cons c r) d

Run-negotiation : Run negotiation closed_won
unfolding allows
Run-negotiation = then start (transition refl)

Run-assigned_human : Run assigned_human closed_won
unfolding allows
Run-assigned_human = Run-cons {t = negotiation} (transition refl) Run-negotiation

Run-reactivated : Run reactivated closed_won
unfolding allows
Run-reactivated =
    Run-cons {t = ownership_evaluation} (transition refl)
      (Run-cons {t = assigned_human} (transition refl) Run-assigned_human)

-- No state but the two closed ones is a dead end: from every other state a conversation can be won.
pub can_be_won : (s : ConversationState) → s ≢ closed_lost → Run s closed_won
unfolding allows
can_be_won closed_lost h = absurd (h refl)
can_be_won closed_won h = start
can_be_won negotiation h = Run-negotiation
can_be_won assigned_human h = Run-assigned_human
can_be_won dormant h = Run-cons {t = reactivated} (transition refl) Run-reactivated
can_be_won reactivated h = Run-reactivated
can_be_won _ h = Run-cons {t = assigned_human} (transition refl) Run-assigned_human
