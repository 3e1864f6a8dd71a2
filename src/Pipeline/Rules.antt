-- ===== src/Pipeline/Rules.antt =====
-- `_semantic_issues`: every rule that relates one part of the file to another.
--
-- A message is its template with what it names. `enumerate` with the items before each one is
-- `scan`; the set `seen` of target names is the names of the targets before.
use rtlfarm.Prelude.{
  ℕ, ◌+◌, String, ◌++ˢ◌, Bool, true, false, not, ◌&&◌, List, [], ◌∷◌, ◌++◌, map, ◌==◌, contains,
  keys, Option, none, some, if◌then◌else◌, Result, ok, ◌>>=◌, nat_eq, string_eq,
}
use rtlfarm.Ids.{stage_kinds}
use rtlfarm.Ids.Decimal.{decimal}
use rtlfarm.Models.{Role, role_eq, Tool, fake, iverilog, artifact_kinds, Target, Stage, Pipeline}
use rtlfarm.Pipeline.{Stages, has_cycle}

pub data Message : Type 0 where
  duplicate_target : String → Message
  reserved_plusarg : Message
  listed_twice : ℕ → Message
  needs_testbench : Message
  not_a_stage_kind : Message
  exclusive : Message
  fan_out_needs_targets : Message
  per_target_needs_targets : Message
  no_coverage_on_iverilog : Message
  role_declares_no_files : Role → Message
  not_an_artifact_kind : Message
  unknown_stage : String → Message
  dependency_listed_twice : String → Message
  forms_a_cycle : Message
  must_be_mapping : Message
  invalid : String → Message

pub record PipelineIssue : Type 0 where
  pub pointer : String
  pub message : Message

abbrev pub Issues : Type 0
Issues = List PipelineIssue

-- if test: yield PipelineIssue(pointer, message)
unfoldable pub report : Bool → String → Message → Issues
report test pointer message =
    if test then record { pointer = pointer; message = message } ∷ [] else []

-- for j, x in enumerate(xs): ... x, xs[:j] ...
unfoldable pub scan {ℓ} : {A : Type ℓ} → (ℕ → List A → A → Issues) → ℕ → List A → List A → Issues
scan f j before [] = []
scan f j before (x ∷ xs) = f j before x ++ scan f (j + 1) (before ++ x ∷ []) xs

abbrev pub enumerate {ℓ} : {A : Type ℓ} → (ℕ → List A → A → Issues) → List A → Issues
enumerate f xs = scan f 0 [] xs

abbrev pub is_empty {ℓ} : {A : Type ℓ} → List A → Bool
is_empty [] = true
is_empty (x ∷ xs) = false

abbrev pub is_given {ℓ} : {A : Type ℓ} → Option A → Bool
is_given none = false
is_given (some a) = true

abbrev pub needs_tb : Stages → Bool
needs_tb stages = contains (keys stages) "simulate"

-- sorted(RESERVED_PLUSARGS)
abbrev pub reserved_plusargs : List String
reserved_plusargs = "dump" ∷ "seed" ∷ []

abbrev pub under : String → ℕ → String → String
under list i field = "/" ++ˢ list ++ˢ "/" ++ˢ decimal i ++ˢ "/" ++ˢ field

unfoldable pub plusarg_issues : ℕ → Target → List String → Issues
plusarg_issues i target [] = []
plusarg_issues i target (key ∷ reserved) =
    report (contains (keys target.plusargs) key) (under "targets" i ("plusargs/" ++ˢ key))
      reserved_plusarg
    ++ plusarg_issues i target reserved

unfoldable pub seed_issue : ℕ → ℕ → List ℕ → ℕ → Issues
seed_issue i j before seed =
    report (contains before seed) (under "targets" i ("seeds/" ++ˢ decimal j)) (listed_twice seed)

unfoldable pub target_issue : Stages → ℕ → List Target → Target → Issues
target_issue stages i before target =
    report (contains (map (λ t. Target.name t) before) target.name) (under "targets" i "name")
      (duplicate_target target.name)
    ++ (plusarg_issues i target reserved_plusargs
        ++ (enumerate (seed_issue i) target.seeds
            ++ report (needs_tb stages && is_empty target.tb) (under "targets" i "tb")
                needs_testbench))

unfoldable pub role_issue : String → List Role → ℕ → List Role → Role → Issues
role_issue base declared j before role =
    report (not (contains declared role)) (base ++ˢ "/consumes/" ++ˢ decimal j)
      (role_declares_no_files role)

unfoldable pub kind_issue : String → ℕ → List String → String → Issues
kind_issue base j before kind =
    report (not (contains artifact_kinds kind)) (base ++ˢ "/consumes_artifacts/" ++ˢ decimal j)
      not_an_artifact_kind

unfoldable pub dep_issue : String → Stages → ℕ → List String → String → Issues
dep_issue base stages j before dep =
    let pointer = base ++ˢ "/depends_on/" ++ˢ decimal j in
    if not (contains (keys stages) dep)
    then report true pointer (unknown_stage dep)
    else report (contains before dep) pointer (dependency_listed_twice dep)

abbrev pub is_iverilog : Tool → Bool
is_iverilog fake = false
is_iverilog iverilog = true

unfoldable pub stage_issue : Pipeline → String × Stage → Issues
stage_issue p (name, stage) =
    let base = "/stages/" ++ˢ name in
    report (not (contains stage_kinds name)) base not_a_stage_kind
    ++ (report (stage.per_target && is_given stage.fan_out) base exclusive
        ++ (report (is_given stage.fan_out && is_empty p.targets) (base ++ˢ "/fan_out")
              fan_out_needs_targets
            ++ (report (stage.per_target && is_empty p.targets) (base ++ˢ "/per_target")
                  per_target_needs_targets
                ++ (report (name == "coverage" && is_iverilog stage.tool) (base ++ˢ "/tool")
                      no_coverage_on_iverilog
                    ++ (enumerate (role_issue base (keys p.design.files)) stage.consumes
                        ++ (enumerate (kind_issue base) stage.consumes_artifacts
                            ++ enumerate (dep_issue base p.stages) stage.depends_on))))))

unfoldable pub stage_issues : Pipeline → List (String × Stage) → Issues
stage_issues p [] = []
stage_issues p (item ∷ items) = stage_issue p item ++ stage_issues p items

unfoldable pub cache_issues : Stages → List (String × Bool) → Issues
cache_issues stages [] = []
cache_issues stages ((name, on) ∷ cache) =
    report (not (contains (keys stages) name)) ("/policies/cache/" ++ˢ name) (unknown_stage name)
    ++ cache_issues stages cache

unfoldable pub semantic_issues : Pipeline → Result Issues
semantic_issues p = has_cycle p.stages >>= λ cyclic. ok (
    enumerate (target_issue p.stages) p.targets
    ++ (stage_issues p p.stages
        ++ (report cyclic "/stages" forms_a_cycle ++ cache_issues p.stages p.policies.cache)))
