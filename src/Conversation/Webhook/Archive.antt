-- ===== src/Conversation/Webhook/Archive.antt =====
-- What the steps of the webhook leave alone, and what archiving does.
use leadto_sales_re.Base.{
  ℕ, String, ◌≡◌, refl, ◌≢◌, ◌⊎◌, inl, inr, Bool, true, Option, List, [], ◌∷◌, ◌++◌, arith, select,
}
use leadto_sales_re.Json.{Json}
use leadto_sales_re.Event.{Stamp}
use leadto_sales_re.Result.{Result, ok}
use leadto_sales_re.Database.{ArchivedMessageRow}
use leadto_sales_re.Session.{Session}
use leadto_sales_re.Lead.Repository.{get_by_contact_reference}
use leadto_sales_re.Conversation.Model.{Conversation, link_lead}
use leadto_sales_re.Conversation.Repository.{get_by_chatwoot_id, archive, is_archived}
use leadto_sales_re.Conversation.LeadLinker.{link_if_possible}
use leadto_sales_re.Conversation.Webhook.{Message, link_missing}

List-cases : {A : Type 0} (xs : List A) → (xs ≡ []) ⊎ ((x : A) × (t : List A) × (xs ≡ x ∷ t))
List-cases [] = inl refl
List-cases (x ∷ t) = inr (x, t, refl)

-- Linking reads the database only.
pub link_missing_reads :
    (c : Conversation) (o : Option ℕ) (s : Session) → (link_missing c o s).1 ≡ s
unfolding link_if_possible get_by_contact_reference
link_missing_reads c o s = ground arith

pub link_missing_id :
    (c : Conversation) (o : Option ℕ) (s : Session) (c' : Conversation)
    → (link_missing c o s).0 ≡ ok c'
    → c'.id ≡ c.id
unfolding link_if_possible get_by_contact_reference link_lead
link_missing_id c o s c' h = ground arith

pub get_by_chatwoot_id_reads : (o : ℕ) (k : String) (s : Session) → (get_by_chatwoot_id o k s).1 ≡ s
unfolding get_by_chatwoot_id
get_by_chatwoot_id_reads o k s = ground arith

module _ (t : Stamp) (organization conversation : ℕ) (m : Message) (payload : Json)
    (s : Session) where
  abbrev pub archived_row : ArchivedMessageRow
  archived_row = record {
    id = t.new_id;
    organization_id = organization;
    conversation_id = conversation;
    chatwoot_message_id = m.chatwoot_message_id;
    sender = m.sender;
    content = m.text;
    raw_payload = payload;
    message_timestamp = m.created_at;
    archived_at = t.now;
  }

  -- The session with the copy added.
  abbrev pub archived : Session
  archived = record s {
    working = record s.working {
      archived_messages = s.working.archived_messages ++ archived_row ∷ [];
    };
  }

  abbrev archive_of : Result Bool × Session
  archive_of =
      archive t organization conversation m.chatwoot_message_id m.sender m.text payload m.created_at
        s

  abbrev copies : List ArchivedMessageRow
  copies = select (is_archived conversation m.chatwoot_message_id) s.working.archived_messages

  pub archive_outcome :
      ((archive_of.0 ≢ ok true) × (archive_of.1 ≡ s))
      ⊎ ((copies ≡ []) × (archive_of.0 ≡ ok true) × (archive_of.1 ≡ archived))
  unfolding archive
  archive_outcome = elim (List-cases copies) [
    | inl h ↦ rw h (inr (refl, refl, refl))
    | inr (r, [], h) ↦ rw h (inl (ground arith, refl))
    | inr (r, r' ∷ rs, h) ↦ rw h (inl (ground arith, refl))
  ]
