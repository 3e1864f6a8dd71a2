-- ===== src/Pipeline/Samples.antt =====
-- Pipelines that the rules accept and refuse.
use rtlfarm.Prelude.{
  String, ◌≡◌, refl, ◌≢◌, ◌↔◌, Bool, true, false, List, [], ◌∷◌, none, ok, string_eq,
}
use rtlfarm.Models.{Pipeline, Stage, fake}
use rtlfarm.Ids.Decimal.{decimal}
use rtlfarm.Pipeline.{Stages, has_cycle}
use rtlfarm.Pipeline.Graph.{Cycle}
use rtlfarm.Pipeline.Cycles.{has_cycle_decides}
use rtlfarm.Pipeline.Rules.{Issues, semantic_issues}
use rtlfarm.Pipeline.Sound.{IsConsistent}
use rtlfarm.Pipeline.Validity.{semantic_issues_complete}
use rtlfarm.Pipeline.Parse.{
  Part, key, index, pointer, Validated, model, errors, Parsed, parsed, pipeline_error,
  parse_pipeline, parse_pipeline_lem,
}
use rtlfarm.Dag.Samples.{pipeline}

abbrev stage : List String → Stage
stage depends_on = record {
  tool = fake;
  consumes = [];
  consumes_artifacts = [];
  depends_on = depends_on;
  per_target = false;
  fan_out = none;
  timeout_s = 60;
}

-- Two stages that wait for each other.
abbrev loop : Stages
loop =
    ("lint", stage [])
    ∷ ("compile", stage ("simulate" ∷ []))
    ∷ ("simulate", stage ("lint" ∷ "compile" ∷ []))
    ∷ []

loop-has_cycle : has_cycle loop ≡ ok true
unfolding has_cycle
loop-has_cycle = refl

has_cycle_decides_example : (b : Bool) × (has_cycle loop ≡ ok b) × ((b ≡ true) ↔ Cycle loop)
has_cycle_decides_example = has_cycle_decides loop

semantic_issues_complete_example :
    (issues : Issues) × (semantic_issues pipeline ≡ ok issues)
    × ((issues ≡ []) ↔ IsConsistent pipeline)
semantic_issues_complete_example = semantic_issues_complete pipeline

-- pydantic's location of a bad seed, and that of a bad key.
seed_pointer :
    pointer (key "targets" ∷ index 0 ∷ key "seeds" ∷ index 12 ∷ []) ≡ "/targets/0/seeds/12"
unfolding pointer decimal
seed_pointer = refl

key_pointer : pointer (key "stages" ∷ key "lint" ∷ key "[key]" ∷ []) ≡ "/stages/lint"
unfolding pointer
key_pointer = refl

-- Data for which `model_validate` returns the sample pipeline, or one error.
is_mapping : Bool → Bool
is_mapping d = true

model_validate : Bool → Validated
model_validate true = model pipeline
model_validate false = errors ((key "design" ∷ [], "Field required") ∷ [])

errors-cons :
    {es : List (List Part × String)} {e : List Part × String}
    → errors (e ∷ []) ≡ errors es
    → es ≢ []
errors-cons h none' = cc

model-ne-errors : {es : List (List Part × String)} → model pipeline ≡ errors es → ⊥
model-ne-errors h = cc

names_errors : (d : Bool) (es : List (List Part × String)) → model_validate d ≡ errors es → es ≢ []
unfolding model_validate
names_errors true es h = absurd (model-ne-errors h)
names_errors false es h = errors-cons h

parse_pipeline_lem_example :
    (r : Parsed) × (parse_pipeline is_mapping model_validate true ≡ ok r)
    × ((p : Pipeline)
        → (r ≡ parsed p)
          ↔ ((is_mapping true ≡ true) × (model_validate true ≡ model p) × IsConsistent p))
    × ((issues : Issues) → r ≡ pipeline_error issues → issues ≢ [])
parse_pipeline_lem_example = parse_pipeline_lem is_mapping model_validate names_errors true
