-- ===== src/Dag/Tasks.antt =====
-- The tasks of one stage: `_instances`, `_dependencies`, `_timeout`, `_inputs`, `_params`.
use rtlfarm.Prelude.{
  ℕ, String, Bool, true, false, List, [], ◌∷◌, ◌++◌, map, ◌==◌, contains, lookup, merge, Option,
  none, some, if◌then◌else◌, Result, ok, raise, key_error, ◌>>=◌, string_eq,
}
use rtlfarm.Ids.{whole_design_target}
use rtlfarm.Models.{Role, rtl, include, tb, data', Target, Stage, Pipeline}
use rtlfarm.Manifest.{Manifest, paths}
use rtlfarm.Pipeline.Rules.{is_empty, is_given}
use rtlfarm.Dag.{TaskParams, TaskSpec}

abbrev pub per_seed : Target → List ℕ → List (Option Target × ℕ)
per_seed target [] = []
per_seed target (seed ∷ seeds) = (some target, seed) ∷ per_seed target seeds

abbrev pub fanned : List Target → List (Option Target × ℕ)
fanned [] = []
fanned (target ∷ targets) = per_seed target target.seeds ++ fanned targets

unfoldable pub instances : Stage → List Target → List (Option Target × ℕ)
instances stage targets =
    if is_given stage.fan_out
    then fanned targets
    else if stage.per_target
    then map (λ t. (some t, 0)) targets
    else (none, 0) ∷ []

abbrev pub target_name : Option Target → String
target_name none = whole_design_target
target_name (some target) = target.name

-- list(dict.fromkeys(xs)), behind the keys already seen
unfoldable pub unique : List String → List String → List String
unique seen [] = []
unique seen (x ∷ xs) = elim (contains seen x) [
  | true ↦ unique seen xs
  | false ↦ x ∷ unique (x ∷ seen) xs
]

abbrev pub ids : List TaskSpec → List String
ids tasks = map (λ t. TaskSpec.task_id t) tasks

abbrev pub ids_of_target : String → List TaskSpec → List String
ids_of_target name [] = []
ids_of_target name (t ∷ ts) =
    let rest = ids_of_target name ts in
    if TaskSpec.target t == name then TaskSpec.task_id t ∷ rest else rest

-- What one upstream stage's tasks contribute.
unfoldable pub upstream_ids : Option Target → List TaskSpec → List String
upstream_ids none candidates = ids candidates
upstream_ids (some target) candidates =
    let same_target = ids_of_target target.name candidates in
    if is_empty same_target then ids candidates else same_target

abbrev pub ByStage : Type 0
ByStage = List (String × List TaskSpec)

unfoldable pub gather : Option Target → ByStage → List String → Result (List String)
gather target by_stage [] = ok []
gather target by_stage (upstream ∷ rest) = elim (lookup by_stage upstream) [
  | none ↦ raise (key_error upstream)
  | some candidates ↦
      gather target by_stage rest >>= λ more. ok (upstream_ids target candidates ++ more)
]

unfoldable pub dependencies : Stage → Option Target → ByStage → Result (List String)
dependencies stage target by_stage =
    gather target by_stage stage.depends_on >>= λ deps. ok (unique [] deps)

unfoldable pub timeout : Stage → Option Target → ℕ
timeout stage none = stage.timeout_s
timeout stage (some target) = elim target.timeout_s [ some t ↦ t | none ↦ stage.timeout_s ]

abbrev pub own_files : Target → Role → List String
own_files target tb = target.tb
own_files target role = target.data_files

-- role in TARGET_ROLES
abbrev pub is_target_role : Role → Bool
is_target_role rtl = false
is_target_role include = false
is_target_role tb = true
is_target_role data' = true

abbrev pub among : List String → List String → List String
among own [] = []
among own (p ∷ ps) = let rest = among own ps in if contains own p then p ∷ rest else rest

unfoldable pub role_inputs : Manifest → Option Target → Role → List String
role_inputs manifest none role = paths manifest role
role_inputs manifest (some target) role =
    if is_target_role role
    then among (own_files target role) (paths manifest role)
    else paths manifest role

unfoldable pub inputs : Manifest → Option Target → List Role → List String
inputs manifest target [] = []
inputs manifest target (role ∷ roles) =
    role_inputs manifest target role ++ inputs manifest target roles

unfoldable pub task_params : Manifest → Pipeline → Stage → Option Target → TaskParams
task_params manifest pipeline stage target =
    let design = pipeline.design in
    let whole : TaskParams = record {
      defines = design.defines;
      params = design.params;
      timescale = design.timescale;
      include_dirs = design.include_dirs;
      consumes = stage.consumes;
      inputs = inputs manifest target stage.consumes;
      of_target = none;
    } in
    elim target [
      | none ↦ whole
      | some t ↦ record whole {
        defines = merge design.defines t.defines;
        params = merge design.params t.params;
        of_target = some (record {
          top = t.top;
          tb = t.tb;
          data_files = t.data_files;
          plusargs = t.plusargs;
          timeout_sim = t.timeout_sim;
          allow_zero_time = t.allow_zero_time;
        });
      }
    ]
