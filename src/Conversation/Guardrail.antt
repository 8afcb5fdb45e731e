-- ===== src/Conversation/Guardrail.antt =====
-- app/modules/conversation_ownership/application/guardrail.py. The regular expressions run in
-- Python's `re`: each compiled pattern is a parameter, the function that its `search` is.
use mathlib.Core.List.{Memᴰ}
use leadto_sales_re.Base.{
  String, ◌≡◌, refl, ◌↔◌, ◌⊎◌, inl, inr, Bool, false, Option, none, some, List, [], ◌∷◌, arith,
  str_eq, if◌then◌else◌, Bool-cases, any, All,
}

pub record BypassDecision : Type 0 where
  pub broker_requested : Option String
  pub matched_text : String

pub record NamedMatch : Type 0 where
  -- `match.group("name")`
  pub name : String
  -- `match.group(0)`
  pub text : String

-- `pattern.search` of `_NAMED_BROKER_PATTERNS`, in order, and of `_GENERIC_HUMAN_PATTERN`, and the
-- string methods that the loop calls.
pub record Patterns : Type 0 where
  pub named : List (String → Option NamedMatch)
  pub generic : String → Option String
  pub strip : String → String
  pub lower : String → String

abbrev pub name_stopwords : List String
name_stopwords =
    "un" ∷ "una" ∷ "el" ∷ "la" ∷ "alguien" ∷ "ustedes" ∷ "usted" ∷ "disponible" ∷ "abierto" ∷ []

abbrev pub is_stopword : String → Bool
is_stopword w = any (str_eq w) name_stopwords

module _ (p : Patterns) where
  open p use {generic, strip, lower}

  -- The name that one pattern contributes: `none` where it does not match or the name is a stopword.
  abbrev pub broker_name : Option NamedMatch → Option BypassDecision
  broker_name none = none
  broker_name (some m) =
      if is_stopword (lower (strip m.name))
      then none
      else some (record { broker_requested = some (strip m.name); matched_text = m.text })

  abbrev generic_bypass : Option String → Option BypassDecision
  generic_bypass none = none
  generic_bypass (some t) = some (record { broker_requested = none; matched_text = t })

  abbrev first_some : Option BypassDecision → Option BypassDecision → Option BypassDecision
  first_some (some d) later = some d
  first_some none later = later

  unfoldable pub check_patterns : List (String → Option NamedMatch) → String → Option BypassDecision
  check_patterns [] message = generic_bypass (generic message)
  check_patterns (search_named ∷ rest) message =
      first_some (broker_name (search_named message)) (check_patterns rest message)

  check_patterns-none_iff :
      (searches : List (String → Option NamedMatch)) (message : String)
      → (check_patterns searches message ≡ none) ↔ (
          (generic message ≡ none)
          × All
              (λ (search_named : String → Option NamedMatch).
                broker_name (search_named message) ≡ none)
              searches)
  unfolding check_patterns
  check_patterns-none_iff [] message = ground arith
  check_patterns-none_iff (f ∷ fs) message = ground (arith, check_patterns-none_iff fs message)

  -- The match names the broker, whose name is no stopword.
  abbrev pub Names : NamedMatch → BypassDecision → String → Type 0
  Names m d name =
      (strip m.name ≡ name) × (d.matched_text ≡ m.text) × (is_stopword (lower name) ≡ false)

  broker_name-Names :
      (o : Option NamedMatch) (d : BypassDecision) (name : String)
      → broker_name o ≡ some d
      → d.broker_requested ≡ some name
      → (m : NamedMatch) × (o ≡ some m) × Names m d name
  broker_name-Names none d name h n = absurd (ground arith)
  broker_name-Names (some m) d name h n = elim (Bool-cases (is_stopword (lower (strip m.name)))) [
    | inl stop ↦ absurd (let h' : none ≡ some d = rw stop at h in cc)
    | inr fine ↦
        let kept : some (record { broker_requested = some (strip m.name); matched_text = m.text })
            ≡ some d =
          rw fine at h in
        let same : strip m.name ≡ name = ground (arith, kept, n) in
        let text : d.matched_text ≡ m.text = ground (arith, kept) in
        (m, refl, (same, text, rw (← same) fine))
  ]

  generic_names_none :
      (g : Option String) (d : BypassDecision) (name : String)
      → generic_bypass g ≡ some d
      → d.broker_requested ≡ some name
      → ⊥
  generic_names_none g d name h n = ground arith

  first_some_cases :
      (a b : Option BypassDecision) {d : BypassDecision}
      → first_some a b ≡ some d
      → (a ≡ some d) ⊎ (b ≡ some d)
  first_some_cases none b h = inr h
  first_some_cases (some x) b h = inl h

  -- One of the patterns matches the message and its match names the broker.
  abbrev pub IsNamed : List (String → Option NamedMatch) → String → BypassDecision → String → Type 0
  IsNamed searches message d name =
      (search_named : String → Option NamedMatch) × (m : NamedMatch) × Memᴰ search_named searches
      × (search_named message ≡ some m)
      × Names m d name

  check_patterns-IsNamed :
      (searches : List (String → Option NamedMatch)) (message : String) (d : BypassDecision)
      (name : String)
      → check_patterns searches message ≡ some d
      → d.broker_requested ≡ some name
      → IsNamed searches message d name
  unfolding check_patterns
  check_patterns-IsNamed [] message d name h n =
      absurd (generic_names_none (generic message) d name h n)
  check_patterns-IsNamed (f ∷ fs) message d name h n =
      elim (first_some_cases (broker_name (f message)) (check_patterns fs message) h) [
        | inl here ↦
            let (m, found, names) = broker_name-Names (f message) d name here n in
            (f, m, Memᴰ.head refl, found, names)
        | inr later ↦
            let (g, m, among, found, names) = check_patterns-IsNamed fs message d name later n in
            (g, m, Memᴰ.tail among, found, names)
      ]

  -- `GuardrailInterceptor.check(message)`
  unfoldable pub check : String → Option BypassDecision
  unfolding check_patterns
  check = check_patterns p.named

  -- The guardrail lets a message through exactly if the generic pattern does not match it and no
  -- named pattern contributes a name.
  pub check-none_iff :
      (message : String)
      → (check message ≡ none) ↔ (
          (generic message ≡ none)
          × All
              (λ (search_named : String → Option NamedMatch).
                broker_name (search_named message) ≡ none)
              p.named)
  unfolding check
  check-none_iff message = check_patterns-none_iff p.named message

  -- A broker whom the guardrail names was found by one of the named patterns: the name is that of
  -- its match in the message without the blanks around it, the matched text is that of the match,
  -- and the name is no stopword.
  pub check_names_no_stopword :
      (message : String) (d : BypassDecision) (name : String)
      → check message ≡ some d
      → d.broker_requested ≡ some name
      → IsNamed p.named message d name
  unfolding check
  check_names_no_stopword = check_patterns-IsNamed p.named
