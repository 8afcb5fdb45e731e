-- ===== src/Recommendation/Explanation.antt =====
-- app/modules/recommendation/application/explanation_generator.py. `replace` and `strip` of a text
-- are Python's: together they are a parameter.
use leadto_sales_re.Base.{
  String, Option, none, some, List, [], ◌∷◌, map, str_eq, if◌then◌else◌, or_else, str_append,
}
use leadto_sales_re.Recommendation.{RankingSignal}

abbrev pub signal_phrases : List (String × String)
signal_phrases =
    ("budget_fit", "ajustarse a tu presupuesto")
    ∷ ("zone_match", "estar en la zona que buscás")
    ∷ ("must_have_coverage", "cumplir con tus requisitos indispensables")
    ∷ ("semantic_similarity", "coincidir con lo que describiste")
    ∷ ("property_type_match", "ser del tipo de propiedad que buscás")
    ∷ []

abbrev pub phrase_for : String → List (String × String) → Option String
phrase_for name [] = none
phrase_for name ((key, phrase) ∷ ps) = if str_eq key name then some phrase else phrase_for name ps

-- `text or default`
abbrev nonempty_or : String → String → String
nonempty_or text default = if str_eq text "" then default else text

-- `separator.join(texts)`
abbrev pub join : String → List String → String
join separator [] = ""
join separator (t ∷ []) = t
join separator (t ∷ u ∷ ts) = str_append t (str_append separator (join separator (u ∷ ts)))

-- `fragments[:-1]` and `fragments[-1]` of a list that starts with x.
abbrev all_but_last : String → List String → List String
all_but_last x [] = []
all_but_last x (y ∷ ys) = x ∷ all_but_last y ys

abbrev last : String → List String → String
last x [] = x
last x (y ∷ ys) = last y ys

-- `words name` stands for `name.replace("_", " ").strip()`.
module _ (words : String → String) where
  unfoldable pub humanize : String → String
  humanize name =
      or_else (phrase_for name signal_phrases) (nonempty_or (words name) "un criterio relevante")

  abbrev joined : String → List String → String
  joined x [] = x
  joined x (y ∷ ys) =
      str_append (join ", " (all_but_last x (y ∷ ys))) (str_append " y " (last x (y ∷ ys)))

  abbrev sentence : List String → String
  sentence [] = "Esta propiedad forma parte de tus recomendaciones."
  sentence (x ∷ xs) = str_append "Esta propiedad destaca por " (str_append (joined x xs) ".")

  -- `TemplatePhraser.phrase`, which `ExplanationGenerator.explain` calls.
  unfoldable pub phrase : List RankingSignal → String
  unfolding humanize
  phrase signals = sentence (map (λ (s : RankingSignal). humanize s.name) signals)
