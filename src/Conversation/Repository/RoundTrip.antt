-- ===== src/Conversation/Repository/RoundTrip.antt =====
-- What is saved is what is read back.
use leadto_sales_re.Base.{ℕ, ◌≡◌, refl, sym, ap, ◌∙◌, inl, inr, Option, none, some, List, [], arith}
use leadto_sales_re.Base.Table.{get_row, get_row-set_row_self, get_row-key, get_row-append_new}
use leadto_sales_re.Result.{Result, ok, Result-cases}
use leadto_sales_re.Database.{Database, ConversationRow}
use leadto_sales_re.Conversation.State.{
  ConversationState, state_of_value, state_of_value-state_value,
}
use leadto_sales_re.Conversation.Model.{
  Channel, OwnerType, channel_of_value, owner_of_value, Conversation,
  channel_of_value-channel_value, owner_of_value-owner_value,
}
use leadto_sales_re.Conversation.Repository.{
  save_at, hydrate, conversation_key, to_row, to_domain, to_domain_option, write, save_rows,
}

-- A conversation as it is read back: without the events that it had collected.
abbrev pub stored : Conversation → Conversation
stored c = record c { domain_events = [] }

-- Every conversation is read back from its row as it was, without its collected events.
pub to_domain-to_row : (c : Conversation) → to_domain (to_row c) ≡ ok (stored c)
unfolding to_domain to_row
to_domain-to_row c = rw (
  channel_of_value-channel_value c.channel,
  state_of_value-state_value c.state,
  owner_of_value-owner_value c.ownership.owner_type,
)

-- What `save` never writes, and what the methods of the aggregate never change.
pub record SameIdentity (c d : Conversation) : Type 0 where
  pub id : c.id ≡ d.id
  pub organization : c.organization_id ≡ d.organization_id
  pub chatwoot : c.chatwoot_conversation_id ≡ d.chatwoot_conversation_id
  pub channel : c.channel ≡ d.channel
  pub created : c.created_at ≡ d.created_at

pub record IsRowOf (c : Conversation) (r : ConversationRow) : Type 0 where
  pub id : r.id ≡ c.id
  pub organization : r.organization_id ≡ c.organization_id
  pub chatwoot : r.chatwoot_conversation_id ≡ c.chatwoot_conversation_id
  pub channel : channel_of_value r.channel ≡ some c.channel
  pub created : r.created_at ≡ c.created_at
  pub pulled : c.domain_events ≡ []

hydrate-IsRowOf :
    (r : ConversationRow) (ch : Option Channel) (st : Option ConversationState)
    (o : Option OwnerType) (c : Conversation)
    → channel_of_value r.channel ≡ ch
    → hydrate r ch st o ≡ ok c
    → IsRowOf c r
hydrate-IsRowOf r none st o c e h = cc
hydrate-IsRowOf r (some ch) none o c e h = cc
hydrate-IsRowOf r (some ch) (some st) none c e h = cc
hydrate-IsRowOf r (some ch) (some st) (some o) c e h = ground arith

to_domain-IsRowOf : (r : ConversationRow) (c : Conversation) → to_domain r ≡ ok c → IsRowOf c r
unfolding to_domain
to_domain-IsRowOf r c h =
    hydrate-IsRowOf r (channel_of_value r.channel) (state_of_value r.state)
      (owner_of_value r.owner_type) c refl h

to_domain-write :
    (c : Conversation) (r : ConversationRow)
    → IsRowOf (stored c) r
    → to_domain (write c r) ≡ ok (stored c)
unfolding to_domain write
to_domain-write c r h =
    rw
      (
        h.channel,
        state_of_value-state_value c.state,
        owner_of_value-owner_value c.ownership.owner_type,
      )
      (ground arith)

-- What the session reads of a conversation.
abbrev pub loaded : ℕ → Database → Result (Option Conversation)
loaded id db = to_domain_option (get_row conversation_key id db.conversations)

to_domain_option-some :
    (o : Option ConversationRow) (c : Conversation)
    → to_domain_option o ≡ ok (some c)
    → (r : ConversationRow) × (o ≡ some r) × (to_domain r ≡ ok c)
to_domain_option-some none c h = ground arith
to_domain_option-some (some r) c h = elim (Result-cases (to_domain r)) [
  | inl (d, e) ↦ (r, refl, ground arith)
  | inr (x, e) ↦ absurd (ground arith)
]

found_row :
    (r : ConversationRow) (c : Conversation)
    → to_domain r ≡ ok c
    → to_domain_option (some r) ≡ ok (some c)
found_row r c h = ground arith

IsRowOf-stored :
    (c d : Conversation) (r : ConversationRow)
    → IsRowOf d r
    → SameIdentity c d
    → IsRowOf (stored c) r
IsRowOf-stored c d r h same = record {
  id = h.id ∙ sym same.id;
  organization = h.organization ∙ sym same.organization;
  chatwoot = h.chatwoot ∙ sym same.chatwoot;
  channel = rw same.channel h.channel;
  created = h.created ∙ sym same.created;
  pulled = refl;
}

module _ (c d : Conversation) (rows : List ConversationRow) where
  -- A conversation that was loaded, and changed by methods of the aggregate, is read back after
  -- `save` as it was saved, without its collected events.
  pub load-save :
      to_domain_option (get_row conversation_key d.id rows) ≡ ok (some d)
      → SameIdentity c d
      → to_domain_option (get_row conversation_key c.id (save_rows c rows)) ≡ ok (some (stored c))
  load-save h same =
      let (r, found, e) = to_domain_option-some (get_row conversation_key d.id rows) d h in
      let here : get_row conversation_key c.id rows ≡ some r = rw same.id found in
      let is_row = IsRowOf-stored c d r (to_domain-IsRowOf r d e) same in
      let written : get_row conversation_key c.id (save_rows c rows) ≡ some (write c r) =
        ap (λ o. get_row conversation_key c.id (save_at c rows o)) here
        ∙ get_row-set_row_self conversation_key c.id (write c) rows (unfold write in refl) here in
      ap to_domain_option written ∙ found_row (write c r) (stored c) (to_domain-write c r is_row)

  -- A conversation whose identifier is new is read back after `save` as it was saved.
  pub load-save_new :
      get_row conversation_key c.id rows ≡ none
      → to_domain_option (get_row conversation_key c.id (save_rows c rows)) ≡ ok (some (stored c))
  load-save_new new =
      let added : get_row conversation_key c.id (save_rows c rows) ≡ some (to_row c) =
        ap (λ o. get_row conversation_key c.id (save_at c rows o)) new
        ∙ get_row-append_new conversation_key c.id rows (to_row c) new (unfold to_row in refl) in
      ap to_domain_option added ∙ found_row (to_row c) (stored c) (to_domain-to_row c)

-- What is loaded has the identifier that it was asked for by, and no collected events.
pub loaded_fresh :
    (id : ℕ) (db : Database) (c : Conversation)
    → loaded id db ≡ ok (some c)
    → (c.id ≡ id) × (c.domain_events ≡ [])
loaded_fresh id db c h =
    let (r, found, e) = to_domain_option-some (get_row conversation_key id db.conversations) c h in
    let is_row = to_domain-IsRowOf r c e in
    (sym is_row.id ∙ get_row-key conversation_key id r db.conversations found, is_row.pulled)

-- A database whose table of conversations has been saved to shows the conversation as saved.
pub loaded-saved :
    (c d : Conversation) (id : ℕ) (db db' : Database)
    → loaded id db ≡ ok (some d)
    → SameIdentity c d
    → db'.conversations ≡ save_rows c db.conversations
    → loaded id db' ≡ ok (some (stored c))
loaded-saved c d id db db' h same e =
    let own = (loaded_fresh id db d h).0 in
    let mine : c.id ≡ id = same.id ∙ own in
    let read : (k : ℕ) → List ConversationRow → Result (Option Conversation) =
      λ k rows. to_domain_option (get_row conversation_key k rows) in
    ap (read id) e
    ∙ (ap (λ k. read k (save_rows c db.conversations)) (sym mine)
        ∙ load-save c d db.conversations (ap (λ k. read k db.conversations) own ∙ h) same)

hydrate_state :
    (r : ConversationRow) (ch : Option Channel) (st : Option ConversationState)
    (o : Option OwnerType) (c : Conversation)
    → hydrate r ch st o ≡ ok c
    → (st ≡ some c.state) × (c.last_contact_at ≡ r.last_contact_at) × (c.domain_events ≡ [])
hydrate_state r none st o c h = absurd (ground arith)
hydrate_state r (some ch) none o c h = absurd (ground arith)
hydrate_state r (some ch) (some st) none c h = absurd (ground arith)
hydrate_state r (some ch) (some st) (some o) c h = ground arith

-- The state and the last contact of a conversation are those of its row.
pub to_domain_state :
    (r : ConversationRow) (c : Conversation)
    → to_domain r ≡ ok c
    → (state_of_value r.state ≡ some c.state)
      × (c.last_contact_at ≡ r.last_contact_at)
      × (c.domain_events ≡ [])
unfolding to_domain
to_domain_state r c h =
    hydrate_state r (channel_of_value r.channel) (state_of_value r.state)
      (owner_of_value r.owner_type) c h
