-- ===== src/Lead/WacrmClient.antt =====
-- app/modules/lead_qualification/infrastructure/wacrm_client.py. The HTTP calls are parameters, and
-- so is what Python's own functions make of the fields of an answer.
pub mod Pages
use leadto_sales_re.Base.{
  ℕ, zero, suc, String, Bool, true, false, not, Option, none, some, List, [], ◌∷◌, ◌++◌, ◌==◌,
  if◌then◌else◌,
}
use leadto_sales_re.Json.{
  Json, Fields, null, str, arr, obj, end, field, get_field, has_field, truthy, dig, elements,
}
use leadto_sales_re.Result.{
  Result, Error, ok, err, value_error, runtime_error, key_error, external_error, or_raise,
  map_results,
}
use leadto_sales_re.Lead.Sync.{Snapshot, CrmClient}

-- `is_success` is what `raise_for_status` tests.
pub record Response : Type 0 where
  pub status_code : ℕ
  pub is_success : Bool
  pub body : Json

-- `str(value)`; `uuid.UUID(text)`, `float(value)` and `datetime.fromisoformat` in UTC, where none is
-- the `ValueError`; `isoformat()` and `str()` of an identifier.
pub record Python : Type 0 where
  pub to_text : Json → String
  pub parse_uuid : String → Option ℕ
  pub to_float : Json → Option ℕ
  pub parse_instant : String → Option ℕ
  pub iso_format : ℕ → String
  pub uuid_text : ℕ → String

-- `deal[key]`: of a value that is no dictionary, the exception is not a `KeyError`.
abbrev required : String → Json → Result Json
required key (obj fs) = if has_field key fs then ok (get_field key fs) else err (key_error key)
required key v = err (external_error "TypeError")

abbrev bind_result {ℓ} : {A B : Type ℓ} → Result A → (A → Result B) → Result B
bind_result (ok a) k = k a
bind_result (err e) k = err e

module _ (python : Python) where
  abbrev organization_or_embedded : Option ℕ → Json → Result ℕ
  organization_or_embedded (some id) deal = ok id
  organization_or_embedded none deal =
      bind_result (required "organization_id" deal)
        (λ v. or_raise (value_error "UUID") (python.parse_uuid (python.to_text v)))

  abbrev broker_of : Json → Option ℕ
  broker_of raw = if truthy raw then python.parse_uuid (python.to_text raw) else none

  -- `float(data.get("lead_score") or 0.0)`
  abbrev score_of : Json → Result ℕ
  score_of raw = if truthy raw then or_raise (value_error "float") (python.to_float raw) else ok 0

  -- A reference that is no text stands as its text.
  abbrev reference_of : Json → Option String
  reference_of null = none
  reference_of (str s) = some s
  reference_of v = some (python.to_text v)

  unfoldable pub parse_snapshot : Option ℕ → Json → Result Snapshot
  parse_snapshot organization_id deal =
      bind_result (organization_or_embedded organization_id deal) (λ organization.
        bind_result (required "updated_at" deal) (λ at.
          bind_result (or_raise (value_error "datetime") (python.parse_instant (python.to_text at)))
            (λ updated_at. bind_result (required "id" deal) (λ id.
              bind_result (required "pipeline_stage" deal) (λ stage.
                bind_result (score_of (dig deal "lead_score")) (λ score. ok (record {
                  crm_lead_id = python.to_text id;
                  organization_id = organization;
                  pipeline_stage = python.to_text stage;
                  assigned_broker_id = broker_of (dig deal "assigned_broker_id");
                  lead_score = score;
                  updated_at = updated_at;
                  contact_reference = reference_of (dig deal "contact_reference");
                })))))))

  unfoldable pub unwrap : Json → Json
  unwrap (obj fs) = if has_field "data" fs then get_field "data" fs else obj fs
  unwrap v = v

  abbrev pub max_list_pages : ℕ
  max_list_pages = 200

  abbrev items_of : Json → List Json
  items_of (arr xs) = elements xs
  items_of v = []

  abbrev pub Params : Type 0
  Params = List (String × Json)

  abbrev with_cursor : Params → Json → Params
  with_cursor params cursor = if truthy cursor then params ++ ("cursor", cursor) ∷ [] else params

  -- `response.raise_for_status()` and `response.json()`
  abbrev accepted : Response → Result Json
  accepted r = if r.is_success then ok r.body else err (external_error "HTTPStatusError")

  abbrev page_of : Option ℕ → Json → Result (List Snapshot × Json)
  page_of organization_id payload =
      bind_result (map_results (parse_snapshot organization_id) (items_of (unwrap payload)))
        (λ snapshots. ok (snapshots, dig (dig payload "meta") "next_cursor"))

  -- The snapshots of one request, and the cursor that it returns.
  abbrev pub page :
      (Params → Result Response) → Option ℕ → Params → Json → Result (List Snapshot × Json)
  page get organization_id params cursor =
      bind_result (bind_result (get (with_cursor params cursor)) accepted) (page_of organization_id)

  abbrev pub no_end : Error
  no_end = runtime_error "wacrm /deals pagination did not terminate"

  -- What follows a request: the loop goes on while there is a cursor.
  abbrev pub go_on :
      (Json → List Snapshot → Result (List Snapshot))
      → Json
      → List Snapshot
      → Bool
      → Result (List Snapshot)
  go_on next cursor found true = next cursor found
  go_on next cursor found false = ok found

  abbrev pub after_page :
      (Json → List Snapshot → Result (List Snapshot))
      → List Snapshot
      → Result (List Snapshot × Json)
      → Result (List Snapshot)
  after_page next found (err e) = err e
  after_page next found (ok (snapshots, cursor)) =
      go_on next cursor (found ++ snapshots) (truthy cursor)

  module _ (get : Params → Result Response) (organization_id : Option ℕ) (params : Params) where
    -- The turns of the loop that are left.
    unfoldable pub list_from : ℕ → Json → List Snapshot → Result (List Snapshot)
    unfolding unwrap parse_snapshot
    list_from zero cursor found = err no_end
    list_from (suc left) cursor found =
        after_page (list_from left) found (page get organization_id params cursor)

    unfoldable pub list_deals : Result (List Snapshot)
    unfolding list_from
    list_deals = list_from max_list_pages null []

  -- The calls of `httpx`: on `/deals`, on `/deals/{id}`, and the patch of a deal.
  pub record Http : Type 0 where
    pub get_deals : Params → Result Response
    pub get_deal : String → Result Response
    pub patch_deal : String → Fields → Result Response

  abbrev read_lead : Option ℕ → Response → Result (Option Snapshot)
  read_lead organization_id r =
      if r.status_code == 404
      then ok none
      else bind_result (accepted r)
          (λ body. bind_result (parse_snapshot organization_id (unwrap body)) (λ n. ok (some n)))

  module _ (http : Http) where
    unfoldable pub get_lead : Option ℕ → String → Result (Option Snapshot)
    unfolding parse_snapshot unwrap
    get_lead organization_id crm_lead_id =
        bind_result (http.get_deal crm_lead_id) (read_lead organization_id)

    unfoldable pub list_leads_updated_since : ℕ → ℕ → Result (List Snapshot)
    unfolding list_deals
    list_leads_updated_since organization_id since =
        list_deals http.get_deals (some organization_id)
          (("updated_since", str (python.iso_format since)) ∷ [])

    abbrev first_of : List Snapshot → Option Snapshot
    first_of [] = none
    first_of (n ∷ ns) = some n

    unfoldable pub find_by_contact_reference : ℕ → String → Result (Option Snapshot)
    unfolding list_deals
    find_by_contact_reference organization_id contact_reference =
        bind_result
          (list_deals http.get_deals (some organization_id)
            (("contact_phone", str contact_reference) ∷ []))
          (λ ns. ok (first_of ns))

    abbrev body_of : String → Option ℕ → Fields
    body_of stage none = field "stage_name" (str stage) end
    body_of stage (some broker) =
        field "stage_name" (str stage)
          (field "assigned_broker_id" (str (python.uuid_text broker)) end)

    unfoldable pub update_stage : Option ℕ → String → String → Option ℕ → Result Snapshot
    unfolding parse_snapshot unwrap
    update_stage organization_id crm_lead_id pipeline_stage assigned_broker_id =
        bind_result (http.patch_deal crm_lead_id (body_of pipeline_stage assigned_broker_id))
          (λ r. bind_result (accepted r) (λ body. parse_snapshot organization_id (unwrap body)))

    -- The client as the adapter calls it.
    abbrev pub wacrm_client : Option ℕ → CrmClient
    wacrm_client organization_id = record {
      list_leads_updated_since = list_leads_updated_since;
      get_lead = get_lead organization_id;
      update_stage = λ id stage. update_stage organization_id id stage none;
    }
