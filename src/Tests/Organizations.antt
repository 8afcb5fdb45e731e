-- ===== src/Tests/Organizations.antt =====
-- Examples of the theorems on organizations, their clients and their administrators.
use leadto_sales_re.Base.{
  ℕ, zero, suc, ◌≤◌, ◌≡◌, refl, ◌↔◌, ◌⊎◌, true, false, Option, none, some, [], ◌∷◌, map, str_eq,
  eq_refl, ◌==◌, if◌then◌else◌,
}
use leadto_sales_re.Json.{
  Json, null, str, arr, obj, end, field, nil, cons, get_field, has_field, truthy, dig,
}
use leadto_sales_re.Result.{Result, Error, ok, err, chatwoot_send_error, external_error}
use leadto_sales_re.Database.{Database, OrganizationRow, empty}
use leadto_sales_re.Session.{fresh, in_session, commit}
use leadto_sales_re.Organization.{
  suspended, OrganizationConfig, ChatwootConfig, WhatsappBusinessConfig, CrmConfig, activate,
  is_complete_for_activation,
}
use leadto_sales_re.Organization.Repository.{get, get_config, upsert, save_status}
use leadto_sales_re.Organization.Repository.RoundTrip.{get_config-upsert}
use leadto_sales_re.Organization.Service.{upsert_config}
use leadto_sales_re.Organization.Service.Activation.{configured, upsert_config_outcome}
use leadto_sales_re.Auth.{
  Security, RegisterAdminRequest, register_admin, login, token_for, new_user, already_registered,
}
use leadto_sales_re.Auth.Login.{registered, credentials, register_then_login}
use leadto_sales_re.Conversation.ChatwootClient.{
  Attempt, Request, accepted, http_error, raised, request, max_attempts, send_message,
}
use leadto_sales_re.Conversation.ChatwootClient.Attempts.{AllFail, EndsWith, send_message_outcome}
use leadto_sales_re.Lead.Stage.{stage_of_value}
use leadto_sales_re.Lead.Repository.{record_access, get_watermark, get_by_crm_id}
use leadto_sales_re.Lead.Sync.{Snapshot, poll_once, poll_loop, authorize, upsert_from_snapshot}
use leadto_sales_re.Lead.WacrmClient.{
  Python, Params, Response, Http, max_list_pages, no_end, list_deals, list_leads_updated_since,
  unwrap, parse_snapshot,
}
use leadto_sales_re.Lead.WacrmClient.Pages.{
  Pages, GoesOn, none_asked, asked, list_deals_iff, list_deals_endless,
}
use leadto_sales_re.Lead.Wiring.{Commits, sync_each, build_wacrm_client, poll_organization}
use leadto_sales_re.Lead.Wiring.Isolation.{PassOutcome, sync_each_isolated}
use leadto_sales_re.Tests.{clock}

abbrev chatwoot : ChatwootConfig
chatwoot = record {
  inbox_id = "1";
  account_id = "2";
  api_access_token = "t";
  base_url = "https://c";
}

abbrev whatsapp : WhatsappBusinessConfig
whatsapp = record { phone_number_id = "1"; business_account_id = "2"; access_token = "t" }

-- The key is blank.
abbrev crm : CrmConfig
crm = record { base_url = "https://w"; api_key = ""; tenant_ref = "r" }

abbrev config : OrganizationConfig
config = record {
  organization_id = 7;
  chatwoot = some chatwoot;
  whatsapp = some whatsapp;
  crm = some crm;
  google_workspace = none;
  updated_at = 5;
}

abbrev acme : OrganizationRow
acme = record { id = 7; name = "Acme"; status = "suspended"; created_at = 1 }

abbrev acme_db : Database
acme_db = record empty { organizations = acme ∷ [] }

get_config-upsert_example :
    (get_config 7 (upsert 9 config (fresh acme_db)).1).0
    ≡ ok (some (record config { updated_at = 9 }))
get_config-upsert_example = get_config-upsert 9 config (fresh acme_db)

upsert_config_outcome_example :
    in_session (upsert_config 9 config) acme_db ≡ (ok config, configured 9 config acme_db)
upsert_config_outcome_example = upsert_config_outcome 9 config acme suspended acme_db refl refl

-- A configuration brings a suspended organization back.
reactivated :
    map
      (λ (o : OrganizationRow). o.status)
      (in_session (upsert_config 9 config) acme_db).1.organizations
    ≡ "active" ∷ []
unfolding upsert_config upsert get save_status activate is_complete_for_activation commit
reactivated = refl

abbrev security : Security
security = record {
  hash_password = λ salt p. p;
  verify_password = str_eq;
  create_access_token = λ now p. p.email;
}

abbrev admin : RegisterAdminRequest
admin = record { organization_id = 7; email = "a@x"; password = "secret"; role = "admin" }

register_then_login_example :
    let after = registered security (clock 0) 1 admin acme_db in
    (in_session (register_admin security (clock 0) 1 admin) acme_db ≡ (ok 100, after))
    × (in_session (login security 9 (credentials security admin)) after
        ≡ (ok (token_for security 9 (new_user security (clock 0) 1 admin)), after))
    × (in_session (register_admin security (clock 1) 2 admin) after
        ≡ (err already_registered, after))
register_then_login_example =
    register_then_login security (clock 0) (clock 1) 1 2 9 admin admin acme_db (λ salt p. eq_refl p)
      refl refl

-- The first attempt fails.
abbrev answers : Request → ℕ → Attempt
answers r attempt = if attempt == 1 then http_error else accepted

send_message_outcome_example :
    let answer = answers (request (λ t. t) chatwoot "c-1" "Hola" false) in
    let r = send_message (λ t. t) answers chatwoot "c-1" "Hola" in
    (EndsWith answer 1 max_attempts accepted × (r ≡ ok tt))
    ⊎ (((e : Error) × EndsWith answer 1 max_attempts (raised e) × (r ≡ err e))
        ⊎ (AllFail answer 1 max_attempts × (r ≡ err chatwoot_send_error)))
send_message_outcome_example = send_message_outcome (λ t. t) answers chatwoot "c-1" "Hola"

abbrev pub python : Python
python = record {
  to_text = λ v. "7";
  parse_uuid = λ t. some 7;
  to_float = λ v. some 60;
  parse_instant = λ t. some 50;
  iso_format = λ t. "now";
  uuid_text = λ id. "id";
}

-- One deal on each page, and always a cursor.
abbrev deal : Json
deal =
    obj (field "id" (str "d") (field "updated_at" (str "u") (field "pipeline_stage" (str "s") end)))

abbrev page_with : Json → Json
page_with cursor =
    obj
      (field "data" (arr (cons deal nil)) (field "meta" (obj (field "next_cursor" cursor end)) end))

abbrev answer_with : Json → Result Response
answer_with cursor = ok (record { status_code = 200; is_success = true; body = page_with cursor })

abbrev get_always : Params python → Result Response
get_always params = answer_with (str "next")

abbrev pub get_once : Params python → Result Response
get_once params = answer_with null

abbrev snapshot : Snapshot
snapshot = record {
  crm_lead_id = "7";
  organization_id = 7;
  pipeline_stage = "7";
  assigned_broker_id = none;
  lead_score = 0;
  updated_at = 50;
  contact_reference = none;
}

list_deals_iff_example : (list_deals python get_once (some 7) [] ≡ ok (snapshot ∷ [])) ↔ (
    (n : ℕ) × (n ≤ max_list_pages python)
    × Pages python get_once (some 7) [] n null (snapshot ∷ []))
list_deals_iff_example = list_deals_iff python get_once (some 7) [] (snapshot ∷ [])

one_page : list_deals python get_once (some 7) [] ≡ ok (snapshot ∷ [])
unfolding list_deals parse_snapshot unwrap get_field has_field truthy dig
one_page = refl

-- The server's pages have a further cursor, however many are asked for.
endless : (n : ℕ) (cursor : Json) → GoesOn python get_always (some 7) [] n cursor
unfolding parse_snapshot unwrap get_field has_field truthy dig
endless zero cursor = none_asked
endless (suc n) cursor =
    asked {next = str "next"} {found = snapshot ∷ []} refl refl (endless n (str "next"))

list_deals_endless_example : list_deals python get_always (some 7) [] ≡ err (no_end python)
list_deals_endless_example =
    list_deals_endless python get_always (some 7) [] (endless (max_list_pages python) null)

abbrev connect : Option CrmConfig → Http python
connect c = record {
  get_deals = get_once;
  get_deal = λ id. answer_with null;
  patch_deal = λ id body. answer_with null;
}

abbrev configured_db : Database
configured_db = configured 9 config acme_db

-- The commit of the first organization raises.
abbrev commits : Commits
commits o db = if o == 7 then some (external_error "disconnected") else none

sync_each_isolated_example :
    PassOutcome python connect commits
      (λ o. clock)
      7
      (8 ∷ [])
      4
      configured_db
      (poll_organization python connect clock 7 (fresh configured_db))
sync_each_isolated_example =
    sync_each_isolated python connect commits (λ o. clock) 7 (8 ∷ []) 4 configured_db

-- The lead of a poll whose commit raises is in the total; the poll's row of the audit is gone.
counts_unsaved :
    let (total, db) = sync_each python connect commits (λ o. clock) (7 ∷ []) (0, acme_db) in
    (total ≡ 1) × (db.crm_access_audit ≡ [])
unfolding sync_each build_wacrm_client get_config poll_once poll_loop list_leads_updated_since
    list_deals parse_snapshot unwrap get_field has_field truthy dig authorize record_access
    get_watermark upsert_from_snapshot get_by_crm_id stage_of_value
counts_unsaved = (refl, refl)
