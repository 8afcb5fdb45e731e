-- ===== src/Conversation/Webhook.antt =====
-- app/modules/conversation_ownership/api/webhook_router.py. What Python's library computes of the
-- payload's values is a parameter.
pub mod Archive
pub mod Outcome
use leadto_sales_re.Base.{
  ℕ, String, Bool, true, false, ◌&&◌, ◌||◌, not, Option, none, some, [], ◌∷◌, str_eq, if◌then◌else◌,
  or_else,
}
use leadto_sales_re.Base.Table.{get_row}
use leadto_sales_re.Json.{Json, null, bool, num, str, arr, obj, dig, truthy, is_text}
use leadto_sales_re.Event.{DomainEvent, Stamp, event_at, message_received}
use leadto_sales_re.Result.{Result, ok, http_exception, external_error}
use leadto_sales_re.Lead.Repository.{map_ok}
use leadto_sales_re.Database.{Database, OrganizationRow}
use leadto_sales_re.Session.{◌>>◌, Action, pure, raise, lift, gets, ◌>>=◌, commit, in_session}
use leadto_sales_re.EventBus.{publish}
use leadto_sales_re.Conversation.Model.{Conversation, Channel, new_conversation, touch}
use leadto_sales_re.Conversation.Repository
use leadto_sales_re.Conversation.Repository.{get_by_chatwoot_id, archive}
use leadto_sales_re.Conversation.LeadLinker.{link_if_possible}

-- `str(value)`, `str.lower`, `a in b`, `datetime.fromtimestamp` in UTC, which raises for a number out
-- of its range, and `datetime.fromisoformat` in UTC, where `none` is the `ValueError`.
pub record Python : Type 0 where
  pub to_text : Json → String
  pub lower : String → String
  pub contains : String → String → Bool
  pub from_timestamp : ℕ → Result ℕ
  pub from_iso_format : String → Option ℕ

abbrev pub organization_key : OrganizationRow → ℕ
organization_key r = r.id

-- The three answers, by their `status`.
pub data Status : Type 0 where
  ignored : String → Status
  duplicate : Status
  accepted : Status

-- `str(value or default)`
abbrev text_or : Python → Json → String → String
text_or python v default = if truthy v then python.to_text v else default

-- `_parse_timestamp`: a Boolean is an integer of Python's.
unfoldable pub parse_timestamp : Python → ℕ → Json → Result ℕ
parse_timestamp python now (num n) = python.from_timestamp n
parse_timestamp python now (bool b) = python.from_timestamp (if b then 1 else 0)
parse_timestamp python now (str s) = ok (or_else (python.from_iso_format s) now)
parse_timestamp python now null = ok now
parse_timestamp python now (arr xs) = ok now
parse_timestamp python now (obj fs) = ok now

-- `_extract_contact_reference`
unfoldable pub extract_contact_reference : Python → Json → Option String
extract_contact_reference python payload =
    let phone = dig (dig payload "sender") "phone_number" in
    let identifier = dig (dig payload "sender") "identifier" in
    if truthy phone
    then some (python.to_text phone)
    else if truthy identifier
    then some (python.to_text identifier)
    else none

-- `_channel_from_payload`
unfoldable pub channel_from_payload : Python → Json → Channel
channel_from_payload python payload =
    let raw = python.lower (text_or python (dig (dig payload "conversation") "channel") "") in
    if python.contains "whatsapp" raw
    then Channel.whatsapp
    else if python.contains "web" raw
    then Channel.web
    else Channel.other

-- The values that the handler takes from the payload. `is_storable` tells whether the column of the
-- content takes the value: the code keeps a content that is no text as it is, and the flush before
-- the commit raises.
pub record Message : Type 0 where
  pub chatwoot_conversation_id : String
  pub chatwoot_message_id : String
  pub text : String
  pub is_storable : Bool
  pub sender : String
  pub created_at : ℕ

-- `payload.get("content") or ""`
abbrev content_of : Python → Json → String
content_of python (str s) = s
content_of python v = text_or python v ""

abbrev is_storable_content : Json → Bool
is_storable_content (str s) = true
is_storable_content v = not (truthy v)

abbrev conversation_id_of : Python → Json → String
conversation_id_of python payload = text_or python (dig (dig payload "conversation") "id") ""

abbrev message_id_of : Python → Json → String
message_id_of python payload = text_or python (dig payload "id") ""

abbrev message_at : Python → Json → ℕ → Message
message_at python payload created_at = record {
  chatwoot_conversation_id = conversation_id_of python payload;
  chatwoot_message_id = message_id_of python payload;
  text = content_of python (dig payload "content");
  is_storable = is_storable_content (dig payload "content");
  sender = text_or python (dig (dig payload "sender") "name") "lead";
  created_at = created_at;
}

unfoldable pub read_message : Python → ℕ → Json → Result Message
unfolding parse_timestamp
read_message python now payload =
    map_ok (message_at python payload) (parse_timestamp python now (dig payload "created_at"))

-- The conversation that was found, touched, or a new one.
abbrev pub found_or_new : Python → Stamp → ℕ → Json → Message → Option Conversation → Conversation
found_or_new python t organization payload m none =
    new_conversation t organization m.chatwoot_conversation_id (channel_from_payload python payload)
      (extract_contact_reference python payload)
found_or_new python t organization payload m (some c) = touch (some m.created_at) t.now c

abbrev link_missing : Conversation → Option ℕ → Action Conversation
link_missing c (some lead) = pure c
link_missing c none = do linked ← link_if_possible c; pure linked.1

abbrev pub message_event : Stamp → ℕ → ℕ → Message → DomainEvent
message_event t organization conversation m =
    event_at t organization
      (message_received conversation m.chatwoot_conversation_id m.sender m.text m.created_at)

-- The flush that the commit starts with.
abbrev pub flush_content : Bool → Action (Unit {0})
flush_content true = pure tt
flush_content false = raise (external_error "StatementError")

abbrev pub accept_unless : Stamp → ℕ → Conversation → Message → Bool → Action Status
accept_unless t organization c m false = pure duplicate
accept_unless t organization c m true = do
  publish (message_event t organization c.id m ∷ [])
  flush_content m.is_storable
  commit
  pure accepted

-- From the lookup of the conversation on.
abbrev pub receive_message : Python → (ℕ → Stamp) → ℕ → Json → Message → Action Status
receive_message python clock organization payload m = do
  found ← get_by_chatwoot_id organization m.chatwoot_conversation_id
  let located = found_or_new python (clock 1) organization payload m found
  c ← link_missing located located.lead_id
  Repository.save c
  newly_archived ←
      archive (clock 2) organization c.id m.chatwoot_message_id m.sender m.text payload m.created_at
  accept_unless (clock 3) organization c m newly_archived

abbrev pub is_incoming : Json → Bool
is_incoming payload =
    is_text (dig payload "message_type") "incoming" && not (truthy (dig payload "private"))

abbrev pub lacks_identifiers : Python → Json → Bool
lacks_identifiers python payload =
    str_eq (conversation_id_of python payload) "" || str_eq (message_id_of python payload) ""

abbrev pub receive_from : Python → (ℕ → Stamp) → ℕ → Json → Option OrganizationRow → Action Status
receive_from python clock organization payload none =
    raise (http_exception 404 "Unknown organization")
receive_from python clock organization payload (some org) =
    if not (is_text (dig payload "event") "message_created")
    then pure (ignored "unsupported event")
    else if not (is_incoming payload)
    then pure (ignored "not an incoming lead message")
    else if lacks_identifiers python payload
    then raise (http_exception 422 "Payload missing conversation.id or message id")
    else lift (read_message python (clock 0).now payload)
      >>= receive_message python clock organization payload

-- `receive_chatwoot_webhook`, in the session that `get_db_session` opens and closes.
unfoldable pub receive_chatwoot_webhook :
    Python → (ℕ → Stamp) → ℕ → Json → Database → Result Status × Database
receive_chatwoot_webhook python clock organization payload = in_session (
    gets (λ db. get_row organization_key organization db.organizations)
    >>= receive_from python clock organization payload)
