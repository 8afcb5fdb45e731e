-- ===== src/Conversation/Model.antt =====
-- The aggregate `Conversation` of app/modules/conversation_ownership/domain/models.py.
-- Instants are microseconds since the epoch in UTC. A method returns its result beside the object
-- as it leaves it, also when it raises.
use leadto_sales_re.Base.{
  ℕ, String, ◌≡◌, refl, ◌↔◌, Bool, true, ◌||◌, not, Option, none, some, List, [], ◌∷◌, ◌++◌, arith,
  str_eq, ◌==◌, if◌then◌else◌, opt_eq, or_else,
}
use leadto_sales_re.Event.{
  DomainEvent, Stamp, event_at, ownership_transferred, conversation_went_dormant,
}
use leadto_sales_re.Conversation.State.{ConversationState, new, dormant, is_active, allows}
use leadto_sales_re.Result.{Result, ok, err, invalid_transition}

pub data OwnerType : Type 0 where
  ai human unassigned : OwnerType

abbrev pub owner_value : OwnerType → String
owner_value ai = "ai"
owner_value human = "human"
owner_value unassigned = "unassigned"

abbrev ordinal : OwnerType → ℕ
ordinal ai = 0
ordinal human = 1
ordinal unassigned = 2

-- `a == b`
abbrev pub is_owner : OwnerType → OwnerType → Bool
is_owner a b = ordinal a == ordinal b

pub is_owner_iff : (a b : OwnerType) → (is_owner a b ≡ true) ↔ (a ≡ b)
is_owner_iff a b = ground arith

-- `OwnerType(value)`; `none` is its `ValueError`.
unfoldable pub owner_of_value : String → Option OwnerType
owner_of_value v =
    if str_eq v "ai"
    then some ai
    else if str_eq v "human"
    then some human
    else if str_eq v "unassigned"
    then some unassigned
    else none

pub owner_of_value-owner_value : (o : OwnerType) → owner_of_value (owner_value o) ≡ some o
unfolding owner_of_value
owner_of_value-owner_value ai = refl
owner_of_value-owner_value _ = refl

pub data Channel : Type 0 where
  whatsapp web other : Channel

abbrev pub channel_value : Channel → String
channel_value whatsapp = "whatsapp"
channel_value web = "web"
channel_value other = "other"

-- `Channel(value)`; `none` is its `ValueError`.
unfoldable pub channel_of_value : String → Option Channel
channel_of_value v =
    if str_eq v "whatsapp"
    then some whatsapp
    else if str_eq v "web"
    then some web
    else if str_eq v "other"
    then some other
    else none

pub channel_of_value-channel_value : (c : Channel) → channel_of_value (channel_value c) ≡ some c
unfolding channel_of_value
channel_of_value-channel_value whatsapp = refl
channel_of_value-channel_value _ = refl

pub record Ownership : Type 0 where
  pub owner_type : OwnerType
  pub owner_id : Option ℕ
  pub since : ℕ
  pub reason : String

-- `Ownership.unassigned()`
unfoldable pub not_evaluated : ℕ → Ownership
not_evaluated now = record {
  owner_type = unassigned;
  owner_id = none;
  since = now;
  reason = "not evaluated";
}

-- `domain_events` is the list that `AggregateRoot` collects.
pub record Conversation : Type 0 where
  pub id : ℕ
  pub organization_id : ℕ
  pub chatwoot_conversation_id : String
  pub channel : Channel
  pub state : ConversationState
  pub ownership : Ownership
  pub last_contact_at : ℕ
  pub contact_reference : Option String
  pub lead_id : Option ℕ
  pub created_at : ℕ
  pub domain_events : List DomainEvent

-- `Conversation(organization_id, chatwoot_conversation_id, channel, contact_reference)`
unfoldable pub new_conversation : Stamp → ℕ → String → Channel → Option String → Conversation
unfolding not_evaluated
new_conversation t organization chatwoot channel contact = record {
  id = t.new_id;
  organization_id = organization;
  chatwoot_conversation_id = chatwoot;
  channel = channel;
  state = new;
  ownership = not_evaluated t.now;
  last_contact_at = t.now;
  contact_reference = contact;
  lead_id = none;
  created_at = t.now;
  domain_events = [];
}

unfoldable pub link_lead : ℕ → Conversation → Conversation
link_lead lead c = record c { lead_id = some lead }

-- `touch(at)`, with the time that `utcnow()` would give.
unfoldable pub touch : Option ℕ → ℕ → Conversation → Conversation
touch at now c = record c { last_contact_at = or_else at now }

unfoldable pub record_event : DomainEvent → Conversation → Conversation
record_event e c = record c { domain_events = c.domain_events ++ e ∷ [] }

-- `pull_domain_events`
unfoldable pub pull_domain_events : Conversation → List DomainEvent × Conversation
pull_domain_events c = (c.domain_events, record c { domain_events = [] })

unfoldable pub replace_ownership :
    Stamp → OwnerType → Option ℕ → String → Conversation → Conversation
unfolding record_event
replace_ownership t owner_type owner_id reason c =
    let previous = c.ownership in
    let c' : Conversation = record c {
      ownership = record {
        owner_type = owner_type;
        owner_id = owner_id;
        since = t.now;
        reason = reason;
      };
    } in
    if not (is_owner previous.owner_type owner_type) || not (opt_eq previous.owner_id owner_id)
    then record_event
        (event_at t c.organization_id (
          ownership_transferred c.id (owner_value previous.owner_type) (owner_value owner_type)
            reason))
        c'
    else c'

abbrev pub replace_if_given :
    Stamp → Option OwnerType → Option ℕ → String → Conversation → Conversation
replace_if_given t none owner_id reason c = c
replace_if_given t (some o) owner_id reason c = replace_ownership t o owner_id reason c

-- `transition_to(target, reason=…, owner_type=…, owner_id=…)`
unfoldable pub transition_to :
    Stamp
    → ConversationState
    → String
    → Option OwnerType
    → Option ℕ
    → Conversation
    → Result Ownership × Conversation
unfolding replace_ownership
transition_to t target reason owner_type owner_id c =
    if not (allows c.state target)
    then (err (invalid_transition c.state target), c)
    else let c' = replace_if_given t owner_type owner_id reason (record c { state = target }) in
      (ok c'.ownership, c')

unfoldable pub decay_to_dormant : Stamp → Conversation → Result (Unit {0}) × Conversation
unfolding record_event
decay_to_dormant t c =
    if not (is_active c.state) then (err (invalid_transition c.state dormant), c) else (
      ok tt,
      record_event (event_at t c.organization_id (conversation_went_dormant c.id c.last_contact_at))
          (record c { state = dormant }),
    )
