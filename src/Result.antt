-- ===== src/Result.antt =====
-- Python's exceptions as values: every exception that the modelled code raises.
use leadto_sales_re.Base.{
  ℕ, String, ◌≡◌, refl, subst, ◌⊎◌, inl, inr, Option, none, some, List, [], ◌∷◌, arith, All,
}
use leadto_sales_re.Conversation.State.{ConversationState}

pub data Error : Type 0 where
  -- `InvalidTransitionError(current, target)`
  invalid_transition : ConversationState → ConversationState → Error
  -- `NotImplementedPlaceholder(scenario)`
  not_implemented_placeholder : String → Error
  -- `ValueError` of an enumeration's call, and the validation errors that derive from it
  value_error : String → Error
  -- `LeadNotFoundError(lead_id)`
  lead_not_found : ℕ → Error
  -- `CRMAccessDeniedError(actor, action)`
  crm_access_denied : String → String → Error
  -- `scalar_one_or_none()` on more than one row
  multiple_results_found : Error
  -- `HTTPException(status_code, detail)`
  http_exception : ℕ → String → Error
  -- `ChatwootSendError`
  chatwoot_send_error : Error
  -- `IncompleteProfileError`, which derives from `ValueError`
  incomplete_profile : ℕ → Error
  -- `RuntimeError`
  runtime_error : String → Error
  -- `KeyError(key)`
  key_error : String → Error
  -- whatever a third party's call raises
  external_error : String → Error

pub data Result {ℓ} (A : Type ℓ) : Type ℓ where
  ok : A → Result A
  err : Error → Result A

abbrev pub or_raise {ℓ} : {A : Type ℓ} → Error → Option A → Result A
or_raise e none = err e
or_raise e (some a) = ok a

pub Result-cases {ℓ} :
    {A : Type ℓ} (r : Result A) → ((a : A) × (r ≡ ok a)) ⊎ ((e : Error) × (r ≡ err e))
Result-cases (ok a) = inl (a, refl)
Result-cases (err e) = inr (e, refl)

abbrev cons_ok {ℓ} : {A : Type ℓ} → Result A → Result (List A) → Result (List A)
cons_ok (err e) rs = err e
cons_ok (ok x) (err e) = err e
cons_ok (ok x) (ok xs) = ok (x ∷ xs)

-- `[f(x) for x in xs]` where a call may raise: the first exception ends it.
abbrev pub map_results {ℓ} : {A B : Type ℓ} → (A → Result B) → List A → Result (List B)
map_results f [] = ok []
map_results f (x ∷ xs) = cons_ok (f x) (map_results f xs)

module _ {A B : Type 0} (f : A → Result B) (P : A → Type 0) (Q : B → Type 0)
    (step : (x : A) (y : B) → P x → f x ≡ ok y → Q y) where
  All-cons_ok :
      (x : A) (r : Result B) (rs : Result (List B)) (ys : List B)
      → ((y : B) → r ≡ ok y → Q y)
      → ((zs : List B) → rs ≡ ok zs → All Q zs)
      → cons_ok r rs ≡ ok ys
      → All Q ys
  All-cons_ok x (err e) rs ys head tail h = absurd (ground arith)
  All-cons_ok x (ok y) (err e) ys head tail h = absurd (ground arith)
  All-cons_ok x (ok y) (ok zs) ys head tail h =
      let same : y ∷ zs ≡ ys = cc in subst (All Q) same (head y refl, tail zs refl)

  -- What holds of the result of each call holds of all that the comprehension returns.
  pub All-map_results : (xs : List A) (ys : List B) → All P xs → map_results f xs ≡ ok ys → All Q ys
  All-map_results [] ys h e = let same : [] ≡ ys = cc in subst (All Q) same tt
  All-map_results (x ∷ xs) ys h e =
      All-cons_ok x (f x) (map_results f xs) ys (λ y. step x y h.0)
        (λ zs. All-map_results xs zs h.1) e
