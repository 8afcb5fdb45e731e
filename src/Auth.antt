-- ===== src/Auth.antt =====
-- app/modules/auth: registration and login of the administrators. The password hash, its check and
-- the token are parameters: app/core/security.py takes them from bcrypt and jose.
pub mod Login
use leadto_sales_re.Base.{
  ℕ, String, Bool, true, ◌||◌, not, Option, none, some, [], ◌∷◌, ◌++◌, str_eq, if◌then◌else◌,
  select,
}
use leadto_sales_re.Event.{Stamp}
use leadto_sales_re.Result.{Error, http_exception}
use leadto_sales_re.Database.{AdminUserRow}
use leadto_sales_re.Session.{Action, pure, raise, modify, commit, scalar_one_or_none, ◌>>=◌, ◌>>◌}
use leadto_sales_re.Organization.Router.{AuthenticatedPrincipal}

-- `hash_password` with the salt that it draws, `verify_password` and `create_access_token` with the
-- time that it reads.
pub record Security : Type 0 where
  pub hash_password : ℕ → String → String
  pub verify_password : String → String → Bool
  pub create_access_token : ℕ → AuthenticatedPrincipal → String

pub record RegisterAdminRequest : Type 0 where
  pub organization_id : ℕ
  pub email : String
  pub password : String
  pub role : String

pub record LoginRequest : Type 0 where
  pub email : String
  pub password : String

pub record TokenResponse : Type 0 where
  pub access_token : String
  pub token_type : String

abbrev pub has_email : String → AdminUserRow → Bool
has_email email u = str_eq u.email email

-- `AdminUserRepository.get_by_email`
unfoldable pub get_by_email : String → Action (Option AdminUserRow)
get_by_email email s = (scalar_one_or_none (select (has_email email) s.working.admin_users), s)

unfoldable pub add : AdminUserRow → Action (Unit {0})
add u = modify (λ db. record db { admin_users = db.admin_users ++ u ∷ [] })

abbrev pub already_registered : Error
already_registered = http_exception 409 "Email already registered"

abbrev pub invalid_credentials : Error
invalid_credentials = http_exception 401 "Invalid credentials"

module _ (security : Security) where
  abbrev pub new_user : Stamp → ℕ → RegisterAdminRequest → AdminUserRow
  new_user t salt request = record {
    id = t.new_id;
    organization_id = request.organization_id;
    email = request.email;
    hashed_password = security.hash_password salt request.password;
    role = request.role;
    is_active = true;
    created_at = t.now;
  }

  abbrev pub register_unless : Stamp → ℕ → RegisterAdminRequest → Option AdminUserRow → Action ℕ
  register_unless t salt request (some existing) = raise already_registered
  register_unless t salt request none = do add (new_user t salt request); commit; pure t.new_id

  unfoldable pub register_admin : Stamp → ℕ → RegisterAdminRequest → Action ℕ
  register_admin t salt request = get_by_email request.email >>= register_unless t salt request

  abbrev pub principal_of : AdminUserRow → AuthenticatedPrincipal
  principal_of u = record {
    user_id = u.id;
    organization_id = u.organization_id;
    email = u.email;
    role = u.role;
  }

  abbrev pub token_for : ℕ → AdminUserRow → TokenResponse
  token_for now u = record {
    access_token = security.create_access_token now (principal_of u);
    token_type = "bearer";
  }

  abbrev pub login_as : ℕ → LoginRequest → Option AdminUserRow → Action TokenResponse
  login_as now request none = raise invalid_credentials
  login_as now request (some u) =
      if not u.is_active || not (security.verify_password request.password u.hashed_password)
      then raise invalid_credentials
      else pure (token_for now u)

  unfoldable pub login : ℕ → LoginRequest → Action TokenResponse
  login now request = get_by_email request.email >>= login_as now request
