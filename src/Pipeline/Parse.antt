-- ===== src/Pipeline/Parse.antt =====
-- `parse_pipeline` and `_pointer`: shape errors from pydantic first, then the rules across the file.
--
-- The YAML data, the test `isinstance(data, dict)` and `Pipeline.model_validate` are parameters.
use rtlfarm.Prelude.{
  ℕ, String, ◌++ˢ◌, ◌≡◌, refl, sym, ap, ◌∙◌, ◌↔◌, ◌≢◌, Bool, true, List, [], ◌∷◌, map, ◌==◌,
  if◌then◌else◌, Result, ok, ◌>>=◌, string_eq, subst, Bool-cases, inl, inr,
}
use rtlfarm.Ids.Decimal.{decimal}
use rtlfarm.Models.{Pipeline}
use rtlfarm.Pipeline.Rules.{must_be_mapping, invalid, PipelineIssue, Issues, semantic_issues}
use rtlfarm.Pipeline.Sound.{IsConsistent}
use rtlfarm.Pipeline.Validity.{semantic_issues_complete}

-- A step of pydantic's location tuple.
pub data Part : Type 0 where
  key : String → Part
  index : ℕ → Part

abbrev pub str_part : Part → String
str_part (key s) = s
str_part (index i) = decimal i

-- The parts that are not the marker, each behind a slash.
unfoldable pub pointer : List Part → String
pointer [] = ""
pointer (part ∷ loc) =
    let rest = pointer loc in
    if str_part part == "[key]" then rest else "/" ++ˢ (str_part part ++ˢ rest)

-- What `Pipeline.model_validate` does: it returns the model, or raises with its errors' locations
-- and messages.
pub data Validated : Type 0 where
  model : Pipeline → Validated
  errors : List (List Part × String) → Validated

-- What `parse_pipeline` does: it returns the pipeline, or raises `PipelineError`.
pub data Parsed : Type 0 where
  parsed : Pipeline → Parsed
  pipeline_error : Issues → Parsed

abbrev pub shape_issue : List Part × String → PipelineIssue
shape_issue (loc, text) = record { pointer = pointer loc; message = invalid text }

abbrev pub not_mapping : PipelineIssue
not_mapping = record { pointer = ""; message = must_be_mapping }

abbrev pub unless_issues : Pipeline → Issues → Parsed
unless_issues p [] = parsed p
unless_issues p (issue ∷ issues) = pipeline_error (issue ∷ issues)

abbrev pub check_model : Validated → Result Parsed
check_model (errors es) = ok (pipeline_error (map shape_issue es))
check_model (model p) = semantic_issues p >>= λ issues. ok (unless_issues p issues)

module _ {Data : Type 0} (is_mapping : Data → Bool) (model_validate : Data → Validated) where
  unfoldable pub parse_pipeline : Data → Result Parsed
  parse_pipeline data' =
      if is_mapping data'
      then check_model (model_validate data')
      else ok (pipeline_error (not_mapping ∷ []))

-- What a call that ends this way says of the data.
pub record Reports (v : Validated) (r : Parsed) : Type 0 where
  pub accepted : (p : Pipeline) → (r ≡ parsed p) ↔ ((v ≡ model p) × IsConsistent p)
  pub named :
      ((es : List (List Part × String)) → v ≡ errors es → es ≢ [])
      → (issues : Issues) → r ≡ pipeline_error issues
      → issues ≢ []

cons-ne-nil : {i : PipelineIssue} {is : Issues} → i ∷ is ≡ [] → ⊥
cons-ne-nil h = cc

parsed_inj : {p q : Pipeline} → parsed p ≡ parsed q → p ≡ q
parsed_inj h = cc

model_inj : {p q : Pipeline} → model p ≡ model q → p ≡ q
model_inj h = cc

pipeline_error_inj : {a b : Issues} → pipeline_error a ≡ pipeline_error b → a ≡ b
pipeline_error_inj h = cc

parsed-ne : {p : Pipeline} {a : Issues} → parsed p ≡ pipeline_error a → ⊥
parsed-ne h = cc

unless_issues-eq-parsed :
    (p q : Pipeline) (issues : Issues)
    → (unless_issues p issues ≡ parsed q) ↔ ((p ≡ q) × (issues ≡ []))
unless_issues-eq-parsed p q [] = (λ h. (parsed_inj h, refl), λ h. ap parsed h.0)
unless_issues-eq-parsed p q (issue ∷ issues) = (λ h. absurd (parsed-ne (sym h)), λ h. absurd cc)

unless_issues-eq-error :
    (p : Pipeline) (issues found : Issues)
    → unless_issues p issues ≡ pipeline_error found
    → found ≢ []
unless_issues-eq-error p [] found h none' = absurd (parsed-ne h)
unless_issues-eq-error p (issue ∷ issues) found h none' = absurd cc

map-eq-nil : (es : List (List Part × String)) → map shape_issue es ≡ [] → es ≡ []
map-eq-nil [] h = refl
map-eq-nil (e ∷ es) h = absurd cc

check_model-Reports : (v : Validated) → (r : Parsed) × (check_model v ≡ ok r) × Reports v r
check_model-Reports (errors es) = (
  pipeline_error (map shape_issue es),
  refl,
  record {
    accepted = λ p. (λ h. absurd (parsed-ne (sym h)), λ h. absurd cc);
    named = λ some' issues h empty. some' es refl (map-eq-nil es (pipeline_error_inj h ∙ empty));
  },
)
check_model-Reports (model p) =
    let (issues, e, h) = semantic_issues_complete p in
    (
      unless_issues p issues,
      rw e refl,
      record {
        accepted = λ q. (
          λ a.
              let (same, none') = (unless_issues-eq-parsed p q issues).0 a in
              (ap model same, subst IsConsistent same (h.0 none')),
          λ (same, c).
              (unless_issues-eq-parsed p q issues).1
                (model_inj same, h.1 (subst IsConsistent (sym (model_inj same)) c)),
        );
        named = λ _. unless_issues-eq-error p issues;
      },
    )

-- `parse_pipeline` always ends, and returns a pipeline exactly when the data is a mapping that pydantic
-- accepts as that pipeline and the pipeline is consistent. If pydantic raises with at least one
-- error, `PipelineError` always names at least one issue.
pub parse_pipeline_lem :
    {Data : Type 0} (is_mapping : Data → Bool) (model_validate : Data → Validated)
    (names_errors : (d : Data) (es : List (List Part × String))
      → model_validate d ≡ errors es
      → es ≢ [])
    (d : Data)
    → (r : Parsed) × (parse_pipeline is_mapping model_validate d ≡ ok r)
      × ((p : Pipeline)
          → (r ≡ parsed p)
            ↔ ((is_mapping d ≡ true) × (model_validate d ≡ model p) × IsConsistent p))
      × ((issues : Issues) → r ≡ pipeline_error issues → issues ≢ [])
unfolding parse_pipeline
parse_pipeline_lem is_mapping model_validate names_errors d = elim (Bool-cases (is_mapping d)) [
  | inl yes' ↦
      let (r, e, h) = check_model-Reports (model_validate d) in
      (
        r,
        rw yes' e,
        (λ p. (
          λ a. let q = (h.accepted p).0 a in (yes', q.0, q.1),
          λ b. (h.accepted p).1 (b.1, b.2),
        )),
        h.named (names_errors d),
      )
  | inr no' ↦ (
    pipeline_error (not_mapping ∷ []),
    rw no' refl,
    (λ p. (λ a. absurd (parsed-ne (sym a)), λ b. absurd cc)),
    (λ issues a none'. absurd (cons-ne-nil (pipeline_error_inj a ∙ none'))),
  )
]
