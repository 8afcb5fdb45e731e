-- ===== src/Organization/Dictionary.antt =====
-- The dictionaries of the configuration classes: `vars(config)` and `Class(**dictionary)`, as
-- app/modules/organization/infrastructure/repository.py calls them.
use leadto_sales_re.Base.{
  String, Bool, true, false, ◌&&◌, Option, none, some, List, [], ◌∷◌, str_eq, if◌then◌else◌, any,
}
use leadto_sales_re.Json.{Json, Fields, null, bool, num, str, arr, obj, end, field, get_field}
use leadto_sales_re.Result.{Result, Error, ok, external_error, or_raise}
use leadto_sales_re.Lead.Repository.{map_ok}
use leadto_sales_re.Organization.{
  ChatwootConfig, WhatsappBusinessConfig, CrmConfig, GoogleWorkspaceConfig,
}

-- `vars(…)`
abbrev pub chatwoot_fields : ChatwootConfig → Fields
chatwoot_fields c = field "inbox_id" (str c.inbox_id) (
    field "account_id" (str c.account_id)
      (field "api_access_token" (str c.api_access_token) (field "base_url" (str c.base_url) end)))

abbrev pub whatsapp_fields : WhatsappBusinessConfig → Fields
whatsapp_fields c = field "phone_number_id" (str c.phone_number_id) (
    field "business_account_id" (str c.business_account_id)
      (field "access_token" (str c.access_token) end))

abbrev pub crm_fields : CrmConfig → Fields
crm_fields c =
    field "base_url" (str c.base_url)
      (field "api_key" (str c.api_key) (field "tenant_ref" (str c.tenant_ref) end))

abbrev pub google_fields : GoogleWorkspaceConfig → Fields
google_fields c = field "service_account_json_ref" (str c.service_account_json_ref) (
    field "calendar_id" (str c.calendar_id)
      (field "transcript_source_opt_in" (bool c.transcript_source_opt_in) end))

-- The class called with a dictionary: a key that it does not know, or one that is missing, is a
-- `TypeError`. So is here a value of another type than `vars` writes, which Python would let pass.
abbrev pub type_error : Error
type_error = external_error "TypeError"

abbrev known : List String → Fields → Bool
known keys end = true
known keys (field k v fs) = any (str_eq k) keys && known keys fs

abbrev text_of : Json → Option String
text_of (str s) = some s
text_of null = none
text_of (bool b) = none
text_of (num n) = none
text_of (arr xs) = none
text_of (obj fs) = none

abbrev flag_of : Json → Option Bool
flag_of (bool b) = some b
flag_of null = some false
flag_of (str s) = none
flag_of (num n) = none
flag_of (arr xs) = none
flag_of (obj fs) = none

abbrev text_in : String → Fields → Option String
text_in key fs = text_of (get_field key fs)

abbrev bind_option : {A B : Type 0} → Option A → (A → Option B) → Option B
bind_option none k = none
bind_option (some a) k = k a

abbrev when : {A : Type 0} → Bool → Option A → Option A
when b o = if b then o else none

abbrev pub chatwoot_of : Fields → Option ChatwootConfig
chatwoot_of fs =
    when (known ("inbox_id" ∷ "account_id" ∷ "api_access_token" ∷ "base_url" ∷ []) fs) (
      bind_option (text_in "inbox_id" fs) (λ inbox.
        bind_option (text_in "account_id" fs) (λ account.
          bind_option (text_in "api_access_token" fs) (λ token.
            bind_option (text_in "base_url" fs) (λ url. some (record {
              inbox_id = inbox;
              account_id = account;
              api_access_token = token;
              base_url = url;
            }))))))

abbrev pub whatsapp_of : Fields → Option WhatsappBusinessConfig
whatsapp_of fs = when (known ("phone_number_id" ∷ "business_account_id" ∷ "access_token" ∷ []) fs) (
    bind_option (text_in "phone_number_id" fs) (λ phone.
      bind_option (text_in "business_account_id" fs) (λ account.
        bind_option (text_in "access_token" fs) (λ token. some (record {
          phone_number_id = phone;
          business_account_id = account;
          access_token = token;
        })))))

abbrev pub crm_of : Fields → Option CrmConfig
crm_of fs = when (known ("base_url" ∷ "api_key" ∷ "tenant_ref" ∷ []) fs) (
    bind_option (text_in "base_url" fs) (λ url. bind_option (text_in "api_key" fs) (λ key.
      bind_option (text_in "tenant_ref" fs)
        (λ tenant. some (record { base_url = url; api_key = key; tenant_ref = tenant })))))

-- The last field has a default.
abbrev pub google_of : Fields → Option GoogleWorkspaceConfig
google_of fs =
    when (known ("service_account_json_ref" ∷ "calendar_id" ∷ "transcript_source_opt_in" ∷ []) fs) (
      bind_option (text_in "service_account_json_ref" fs) (λ account.
        bind_option (text_in "calendar_id" fs) (λ calendar.
          bind_option (flag_of (get_field "transcript_source_opt_in" fs)) (λ opted. some (record {
            service_account_json_ref = account;
            calendar_id = calendar;
            transcript_source_opt_in = opted;
          })))))

-- `Class(**column) if column else None`: an empty dictionary counts as absent.
abbrev pub column_of : {A : Type 0} → (Fields → Option A) → Option Fields → Result (Option A)
column_of make none = ok none
column_of make (some end) = ok none
column_of make (some (field k v fs)) = map_ok some (or_raise type_error (make (field k v fs)))

abbrev pub vars_of : {A : Type 0} → (A → Fields) → Option A → Option Fields
vars_of vars none = none
vars_of vars (some a) = some (vars a)
