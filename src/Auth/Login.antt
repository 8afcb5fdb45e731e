-- ===== src/Auth/Login.antt =====
-- Who is let in.
use leadto_sales_re.Base.{
  ℕ, String, ◌≡◌, refl, ap, inl, inr, true, Option, none, some, List, [], ◌∷◌, ◌++◌, arith, eq_refl,
  Bool-cases, select,
}
use leadto_sales_re.Base.Table.{select-append_new}
use leadto_sales_re.Event.{Stamp}
use leadto_sales_re.Result.{ok, err}
use leadto_sales_re.Database.{Database, AdminUserRow}
use leadto_sales_re.Session.{Session, in_session, scalar_one_or_none, commit, bind_ok}
use leadto_sales_re.Auth.{
  Security, RegisterAdminRequest, LoginRequest, TokenResponse, has_email, get_by_email, add,
  register_admin, new_user, login, login_as, token_for, already_registered,
}

-- The hash of a password accepts that password, whatever the salt.
abbrev pub Verifies : Security → Type 0
Verifies security =
    (salt : ℕ) (password : String)
    → security.verify_password password (security.hash_password salt password) ≡ true

only_row :
    (rows : List AdminUserRow) (u : AdminUserRow)
    → scalar_one_or_none rows ≡ ok (some u)
    → rows ≡ u ∷ []
only_row [] u h = absurd (ground arith)
only_row (x ∷ []) u h = let same : x ≡ u = ground arith in ap (λ r. r ∷ []) same
only_row (x ∷ y ∷ rest) u h = absurd (ground arith)

module _ (security : Security) where
  abbrev pub registered : Stamp → ℕ → RegisterAdminRequest → Database → Database
  registered t salt r db = record db {
    admin_users = db.admin_users ++ new_user security t salt r ∷ [];
  }

  abbrev pub credentials : RegisterAdminRequest → LoginRequest
  credentials r = record { email = r.email; password = r.password }

  -- An address that nobody has, and a check that accepts the hash of the password: the registration
  -- commits the new administrator, and a login with the address and the password then returns the
  -- token of this administrator, in the organization and with the role of the request; a second
  -- registration of the address is refused, and changes nothing.
  pub register_then_login :
      (t t' : Stamp) (salt salt' now : ℕ) (r r' : RegisterAdminRequest) (db : Database)
      → Verifies security
      → select (has_email r.email) db.admin_users ≡ []
      → r'.email ≡ r.email
      → let after = registered t salt r db in
        (in_session (register_admin security t salt r) db ≡ (ok t.new_id, after))
        × (in_session (login security now (credentials r)) after
            ≡ (ok (token_for security now (new_user security t salt r)), after))
        × (in_session (register_admin security t' salt' r') after ≡ (err already_registered, after))
  unfolding register_admin login get_by_email add commit
  register_then_login t t' salt salt' now r r' db v new same =
      let user = new_user security t salt r in
      let found =
        select-append_new (λ (u : AdminUserRow). u.id) (has_email r.email) db.admin_users user new
          (eq_refl r.email) in
      (rw new refl, rw found (rw (v salt r.password) refl), rw same (rw found refl))

  login_as_ok :
      (now : ℕ) (request : LoginRequest) (u : AdminUserRow) (s : Session) (token : TokenResponse)
      → (login_as security now request (some u) s).0 ≡ ok token
      → (u.is_active ≡ true)
        × (security.verify_password request.password u.hashed_password ≡ true)
        × (token ≡ token_for security now u)
  login_as_ok now request u s token h =
      let accepted = security.verify_password request.password u.hashed_password in
      elim (Bool-cases u.is_active) [
        | inr off ↦ absurd (ground arith)
        | inl on ↦ elim (Bool-cases accepted) [
          | inr refused ↦ absurd (ground arith)
          | inl checked ↦ (on, checked, ground arith)
        ]
      ]

  -- A login that succeeds is that of the only administrator with the address, who is active and whose
  -- stored hash accepts the password, and the token is this administrator's.
  pub login_sound :
      (now : ℕ) (request : LoginRequest) (s : Session) (token : TokenResponse)
      → (login security now request s).0 ≡ ok token
      → (u : AdminUserRow) × (select (has_email request.email) s.working.admin_users ≡ u ∷ [])
        × (u.is_active ≡ true)
        × (security.verify_password request.password u.hashed_password ≡ true)
        × (token ≡ token_for security now u)
  unfolding login get_by_email
  login_sound now request s token h =
      let rows = select (has_email request.email) s.working.admin_users in
      let (found, e, k) =
        bind_ok (scalar_one_or_none rows) (login_as security now request) s token h in
      signed_in found e k
    where
      signed_in :
          (found : Option AdminUserRow)
          → scalar_one_or_none (select (has_email request.email) s.working.admin_users) ≡ ok found
          → (login_as security now request found s).0 ≡ ok token
          → (u : AdminUserRow) × (select (has_email request.email) s.working.admin_users ≡ u ∷ [])
            × (u.is_active ≡ true)
            × (security.verify_password request.password u.hashed_password ≡ true)
            × (token ≡ token_for security now u)
      signed_in none e k = absurd (ground arith)
      signed_in (some u) e k =
          let (live, checked, same) = login_as_ok now request u s token k in
          (
            u,
            only_row (select (has_email request.email) s.working.admin_users) u e,
            live,
            checked,
            same,
          )
