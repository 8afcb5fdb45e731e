-- ===== src/Conversation/ChatwootClient.antt =====
-- app/modules/conversation_ownership/infrastructure/chatwoot_client.py, and the sending half of
-- wiring.py. An attempt's answer is what `client.post` and `raise_for_status` make of the call;
-- `rstrip` of the base address is a parameter.
pub mod Attempts
use leadto_sales_re.Base.{
  ℕ, zero, suc, ◌+◌, ◌*◌, String, Bool, true, false, Option, none, some, List, [], ◌∷◌, ltb,
  if◌then◌else◌, str_append,
}
use leadto_sales_re.Result.{Result, Error, ok, err, chatwoot_send_error}
use leadto_sales_re.Database.{Database}
use leadto_sales_re.Session.{Action, pure, in_session, ◌>>=◌}
use leadto_sales_re.Organization.{OrganizationConfig, ChatwootConfig}
use leadto_sales_re.Organization.Repository.{get_config}

-- The message is accepted, an `httpx.HTTPError` is raised, or another exception.
pub data Attempt : Type 0 where
  accepted : Attempt
  http_error : Attempt
  raised : Error → Attempt

-- The parts of the request, with its URL, that `_post_message` builds.
pub record Request : Type 0 where
  pub url : String
  pub content : String
  pub message_type : String
  pub private : Bool
  pub api_access_token : String

abbrev pub max_attempts : ℕ
max_attempts = 3

-- The pauses between the attempts, in milliseconds: `0.5 * 2 ** (attempt - 1)` seconds.
abbrev pub pause_after : ℕ → ℕ
pause_after zero = 250
pause_after (suc attempt) = 2 * pause_after attempt

abbrev pub add_pause : ℕ → Result (Unit {0}) × List ℕ → Result (Unit {0}) × List ℕ
add_pause attempt (r, pauses) =
    if ltb attempt max_attempts then (r, pause_after attempt ∷ pauses) else (r, pauses)

abbrev pub after_attempt : ℕ → Attempt → Result (Unit {0}) × List ℕ → Result (Unit {0}) × List ℕ
after_attempt attempt accepted rest = (ok tt, [])
after_attempt attempt http_error rest = add_pause attempt rest
after_attempt attempt (raised e) rest = (err e, [])

-- The turns of the loop that are left: the outcome, and the pauses that were made.
unfoldable pub post_from : (ℕ → Attempt) → ℕ → ℕ → Result (Unit {0}) × List ℕ
post_from answer attempt zero = (err chatwoot_send_error, [])
post_from answer attempt (suc left) =
    let rest = post_from answer (attempt + 1) left in after_attempt attempt (answer attempt) rest

abbrev pub request : (String → String) → ChatwootConfig → String → String → Bool → Request
request rstrip config conversation content private = record {
  url = str_append (rstrip config.base_url) (
      str_append "/api/v1/accounts/" (
        str_append config.account_id
          (str_append "/conversations/" (str_append conversation "/messages"))));
  content = content;
  message_type = "outgoing";
  private = private;
  api_access_token = config.api_access_token;
}

module _ (rstrip : String → String) (answers : Request → ℕ → Attempt) where
  unfoldable pub post_message : ChatwootConfig → String → String → Bool → Result (Unit {0}) × List ℕ
  unfolding post_from
  post_message config conversation content private =
      post_from (answers (request rstrip config conversation content private)) 1 max_attempts

  unfoldable pub send_message : ChatwootConfig → String → String → Result (Unit {0})
  unfolding post_message
  send_message config conversation content = (post_message config conversation content false).0

  -- The client that the sidebar and the coordinator call.
  unfoldable pub send_private_note : ChatwootConfig → String → String → Result (Unit {0})
  unfolding post_message
  send_private_note config conversation content = (post_message config conversation content true).0

  abbrev pub chatwoot_of : Option OrganizationConfig → Option ChatwootConfig
  chatwoot_of none = none
  chatwoot_of (some config) = config.chatwoot

  -- `_chatwoot_client_for`
  unfoldable pub chatwoot_client_for : ℕ → Action (Option ChatwootConfig)
  chatwoot_client_for organization_id = do
    config ← get_config organization_id
    pure (chatwoot_of config)

  abbrev pub send_with : String → String → Option ChatwootConfig → Result (Unit {0})
  send_with conversation response none = ok tt
  send_with conversation response (some config) = send_message config conversation response

  abbrev pub send_after :
      String → String → Result (Option ChatwootConfig) × Database → Result (Unit {0}) × Database
  send_after conversation response (err e, db) = (err e, db)
  send_after conversation response (ok client, db) = (send_with conversation response client, db)

  -- `handle_response_ready`: the session is closed before the message is sent.
  unfoldable pub handle_response_ready :
      ℕ → String → String → Database → Result (Unit {0}) × Database
  unfolding send_message chatwoot_client_for
  handle_response_ready organization_id conversation response db =
      send_after conversation response (in_session (chatwoot_client_for organization_id) db)
