-- ===== src/Conversation/ChatwootClient/Attempts.antt =====
-- What the attempts of a message come to.
use leadto_sales_re.Base.{
  ℕ, zero, suc, ◌+◌, ◌<◌, String, ◌≡◌, refl, ap, ◌∙◌, ◌⊎◌, inl, inr, false, List, arith,
}
use leadto_sales_re.Result.{Result, Error, ok, err, chatwoot_send_error}
use leadto_sales_re.Session.{Session}
use leadto_sales_re.Organization.{OrganizationConfig, ChatwootConfig}
use leadto_sales_re.Organization.Repository.{upsert, get_config}
use leadto_sales_re.Organization.Repository.RoundTrip.{get_config-upsert}
use leadto_sales_re.Conversation.ChatwootClient.{
  Attempt, Request, accepted, http_error, raised, request, max_attempts, add_pause, post_from,
  post_message, send_message, chatwoot_client_for, send_with, handle_response_ready,
}

-- The attempts from one on, so many of them, end in an HTTP error.
abbrev pub AllFail : (ℕ → Attempt) → ℕ → ℕ → Type 0
AllFail answer attempt zero = Unit
AllFail answer attempt (suc n) = (answer attempt ≡ http_error) × AllFail answer (attempt + 1) n

-- After some that end so, within the number allowed, an attempt has the answer.
abbrev pub EndsWith : (ℕ → Attempt) → ℕ → ℕ → Attempt → Type 0
EndsWith answer attempt allowed a =
    (failures : ℕ) × (failures < allowed)
    × AllFail answer attempt failures
    × (answer (attempt + failures) ≡ a)

abbrev Outcome : (ℕ → Attempt) → ℕ → ℕ → Result (Unit {0}) → Type 0
Outcome answer attempt allowed r =
    (EndsWith answer attempt allowed accepted × (r ≡ ok tt))
    ⊎ (((e : Error) × EndsWith answer attempt allowed (raised e) × (r ≡ err e))
        ⊎ (AllFail answer attempt allowed × (r ≡ err chatwoot_send_error)))

add_pause_keeps : (attempt : ℕ) (o : Result (Unit {0}) × List ℕ) → (add_pause attempt o).0 ≡ o.0
add_pause_keeps attempt o = ground arith

Attempt-cases : (a : Attempt) → (a ≡ accepted) ⊎ ((a ≡ http_error) ⊎ ((e : Error) × (a ≡ raised e)))
Attempt-cases accepted = inl refl
Attempt-cases http_error = inr (inl refl)
Attempt-cases (raised e) = inr (inr (e, refl))

module _ (answer : ℕ → Attempt) where
  one_more :
      (attempt left : ℕ) (a : Attempt)
      → answer attempt ≡ http_error
      → EndsWith answer (attempt + 1) left a
      → EndsWith answer attempt (suc left) a
  one_more attempt left a e (failures, few, failed, found) =
      let there : answer (attempt + suc failures) ≡ a = ap answer (omega arith) ∙ found in
      (suc failures, omega (arith, few), (e, failed), there)

  at_once :
      (attempt left : ℕ) (a : Attempt) → answer attempt ≡ a → EndsWith answer attempt (suc left) a
  at_once attempt left a e =
      let here : answer (attempt + 0) ≡ a = ap answer (omega arith) ∙ e in
      (0, omega arith, tt, here)

  post_from-Outcome :
      (attempt left : ℕ) → Outcome answer attempt left (post_from answer attempt left).0
  unfolding post_from
  post_from-Outcome attempt zero = inr (inr (tt, refl))
  post_from-Outcome attempt (suc left) = elim (Attempt-cases (answer attempt)) [
    | inl e ↦ inl (at_once attempt left accepted e, rw e refl)
    | inr (inr (x, e)) ↦ inr (inl (x, at_once attempt left (raised x) e, rw e refl))
    | inr (inl e) ↦
        let kept = add_pause_keeps attempt (post_from answer (attempt + 1) left) in
        elim (post_from-Outcome (attempt + 1) left) [
          | inl (found, same) ↦ inl (one_more attempt left accepted e found, rw e (kept ∙ same))
          | inr (inl (x, found, same)) ↦
              inr (inl (x, one_more attempt left (raised x) e found, rw e (kept ∙ same)))
          | inr (inr (failed, same)) ↦ inr (inr ((e, failed), rw e (kept ∙ same)))
        ]
  ]

module _ (rstrip : String → String) (answers : Request → ℕ → Attempt) where
  -- A message is sent again after each HTTP error, three times at most: it succeeds exactly when one
  -- of these attempts is accepted after such errors only; an attempt that raises another exception
  -- ends the call with it; and three HTTP errors raise ChatwootSendError.
  pub send_message_outcome :
      (config : ChatwootConfig) (conversation content : String)
      → let answer = answers (request rstrip config conversation content false) in
        let r = send_message rstrip answers config conversation content in
        (EndsWith answer 1 max_attempts accepted × (r ≡ ok tt))
        ⊎ (((e : Error) × EndsWith answer 1 max_attempts (raised e) × (r ≡ err e))
            ⊎ (AllFail answer 1 max_attempts × (r ≡ err chatwoot_send_error)))
  unfolding send_message post_message
  send_message_outcome config conversation content =
      post_from-Outcome (answers (request rstrip config conversation content false)) 1 3

  -- Once an organization's configuration is stored, a response goes out by the
  -- Chatwoot account of this configuration, or nowhere where it has none, and the database stays as
  -- it is.
  pub handle_response_ready_sends :
      (now : ℕ) (c : OrganizationConfig) (conversation response : String) (s : Session)
      → let db = (upsert now c s).1.working in
        handle_response_ready rstrip answers c.organization_id conversation response db
        ≡ (send_with rstrip answers conversation response c.chatwoot, db)
  unfolding handle_response_ready chatwoot_client_for upsert get_config
  handle_response_ready_sends now c conversation response s = rw (get_config-upsert now c s) refl
