-- ===== src/Dag/Expand.antt =====
-- `expand`.
use rtlfarm.Prelude.{
  ℕ, String, Bool, true, false, ◌&&◌, ◌||◌, List, [], ◌∷◌, ◌++◌, lookup, insert, Option, none, some,
  if◌then◌else◌, Result, ok, raise, key_error, no_targets_matched, ◌>>=◌, string_eq,
}
use rtlfarm.Ids.{task_id}
use rtlfarm.Models.{Target, Stage}
use rtlfarm.Json.{Codec}
use rtlfarm.Manifest.{Manifest}
use rtlfarm.Pipeline.{Stages}
use rtlfarm.Pipeline.Rules.{is_empty, is_given}
use rtlfarm.Dag.{Selection, TaskSpec, ExpandedJob}
use rtlfarm.Dag.Select.{select_targets, submission_hash}
use rtlfarm.Dag.StageOrder.{stage_order}
use rtlfarm.Dag.Tasks.{ByStage, instances, target_name, dependencies, timeout, task_params}

-- What the call of `expand` fixes for every task.
pub record Context : Type 0 where
  pub manifest : Manifest
  pub job_id : String
  pub priority : ℕ
  pub toolchain_digest : String
  pub no_cache : Bool

-- dict.get(name, True)
abbrev pub get_or_true : Option Bool → Bool
get_or_true none = true
get_or_true (some b) = b

module _ (c : Context) where
  -- TaskSpec(...)
  unfoldable pub spec_of : String → Stage → Option Target → ℕ → String → List String → TaskSpec
  spec_of name stage target seed id deps = record {
    task_id = id;
    stage_kind = name;
    target = target_name target;
    seed = seed;
    tool = stage.tool;
    params = task_params c.manifest c.manifest.pipeline stage target;
    timeout_s = timeout stage target;
    cacheable = get_or_true (lookup c.manifest.pipeline.policies.cache name);
    bypass_cache = c.no_cache;
    affects_verdict = true;
    toolchain_digest = c.toolchain_digest;
    priority = c.priority;
    max_infra = c.manifest.pipeline.policies.retries.infra;
    max_timeout = c.manifest.pipeline.policies.retries.timeout;
    max_tool_error = c.manifest.pipeline.policies.retries.tool_error;
    consumes_artifacts = stage.consumes_artifacts;
    depends_on = deps;
  }

  -- One round of the inner loop.
  unfoldable pub task_spec : String → Stage → ByStage → Option Target → ℕ → Result TaskSpec
  task_spec name stage by_stage target seed = dependencies stage target by_stage >>= λ deps.
      task_id c.job_id name (target_name target) seed >>= λ id.
      ok (spec_of name stage target seed id deps)

  unfoldable pub task_specs :
      String → Stage → ByStage → List (Option Target × ℕ) → Result (List TaskSpec)
  task_specs name stage by_stage [] = ok []
  task_specs name stage by_stage ((target, seed) ∷ rest) =
      task_spec name stage by_stage target seed >>= λ spec.
      task_specs name stage by_stage rest >>= λ specs. ok (spec ∷ specs)

  -- The outer loop: `by_stage` and `tasks` are its variables.
  unfoldable pub run_stages :
      List Target → ByStage → List TaskSpec → List String → Result (List TaskSpec)
  run_stages targets by_stage tasks [] = ok tasks
  run_stages targets by_stage tasks (name ∷ names) = elim (lookup c.manifest.pipeline.stages name) [
    | none ↦ raise (key_error name)
    | some stage ↦ task_specs name stage by_stage (instances stage targets) >>= λ specs.
        run_stages targets (insert by_stage name specs) (tasks ++ specs) names
  ]

-- any(s.fan_out or s.per_target for s in stages.values())
abbrev pub any_targeted : Stages → Bool
any_targeted [] = false
any_targeted ((name, s) ∷ rest) =
    is_given (Stage.fan_out s) || Stage.per_target s || any_targeted rest

unfoldable pub expand :
    Codec → Manifest → Selection → String → ℕ → String → Bool → Result ExpandedJob
expand codec manifest selection job_id priority toolchain_digest no_cache =
    let c : Context = record {
      manifest = manifest;
      job_id = job_id;
      priority = priority;
      toolchain_digest = toolchain_digest;
      no_cache = no_cache;
    } in
    select_targets manifest.pipeline selection >>= λ targets.
    if is_empty targets && any_targeted manifest.pipeline.stages
    then raise no_targets_matched
    else (stage_order manifest.pipeline.stages >>= λ names.
        run_stages c targets [] [] names >>= λ tasks. ok (record {
          job_id = job_id;
          design = manifest.design;
          submission_hash = submission_hash codec manifest selection;
          toolchain_digest = toolchain_digest;
          tasks = tasks;
        }))
