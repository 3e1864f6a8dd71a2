-- ===== src/Dag/Samples.antt =====
-- A small pipeline, and what the program does with it.
use rtlfarm.Prelude.{
  ℕ, String, ◌≡◌, refl, Bool, true, false, List, [], ◌∷◌, map, Memᴰ, Distinct, keys, Option, none,
  some, ok, raise, Result, ok_inj, sym, ◌∙◌, is_distinct-Distinct, string_eq,
}
use rtlfarm.Ids.Decimal.{decimal}
use rtlfarm.Ids.{is_ulid, task_id}
use rtlfarm.Json.{Codec, null}
use rtlfarm.Models.{
  Role, rtl, tb, role_eq, fake, FanOut, targets, Target, Stage, Pipeline, is_shaped, role_beq,
}
use rtlfarm.Manifest.{ManifestEntry, Manifest, digest, paths}
use rtlfarm.Pipeline.{has_cycle}
use rtlfarm.Pipeline.Rules.{
  report, scan, plusarg_issues, seed_issue, target_issue, role_issue, kind_issue, dep_issue,
  stage_issue, stage_issues, cache_issues, semantic_issues,
}
use rtlfarm.Pipeline.Sound.{IsConsistent}
use rtlfarm.Pipeline.Validity.{semantic_issues_complete}
use rtlfarm.Dag.{Selection, TaskSpec, ExpandedJob}
use rtlfarm.Dag.Select.{kept, keeps, chosen_seeds, select_targets, submission_hash}
use rtlfarm.Dag.StageOrder.{stage_order, order_loop, next_ready}
use rtlfarm.Dag.Tasks.{
  ids, instances, dependencies, unique, gather, upstream_ids, timeout, task_params, inputs,
  role_inputs,
}
use rtlfarm.Dag.Expand.{Context, expand, run_stages, task_specs, task_spec, spec_of}
use rtlfarm.Dag.Valid.{IsValid}
use rtlfarm.Dag.Expansion.{Expands}
use rtlfarm.Dag.Guarantees.{
  expand_total, expand-distinct, expand-IsLinked, expand-planned, expand-IsTask,
}
use rtlfarm.Dag.Wired.{IsTask}
use rtlfarm.Dag.Sorted.{IsSorting}
use rtlfarm.Dag.Plan.{key, IsLinked}
use rtlfarm.Dag.Shapes.{plan}

abbrev pub codec : Codec
codec = record { dumps = λ j. "{}"; sha256 = λ s. s; model_dump = λ p. null }

abbrev pub ulid : String
ulid = "01ARZ3NDEKTSV4RRFFQ69G5FAV"

abbrev stage : List Role → List String → Bool → Option FanOut → Stage
stage consumes depends_on per_target fan_out = record {
  tool = fake;
  consumes = consumes;
  consumes_artifacts = "compiled" ∷ [];
  depends_on = depends_on;
  per_target = per_target;
  fan_out = fan_out;
  timeout_s = 60;
}

abbrev target : String → List ℕ → Target
target name seeds = record {
  name = name;
  top = "top";
  tb = "tb.sv" ∷ [];
  data_files = [];
  seeds = seeds;
  tags = "smoke" ∷ [];
  timeout_sim = "10ms";
  timeout_s = none;
  allow_zero_time = false;
  plusargs = [];
  params = [];
  defines = [];
}

abbrev pub pipeline : Pipeline
pipeline = record {
  design = record {
    name = "counter";
    files = (rtl, "rtl/*.sv" ∷ []) ∷ (tb, "tb.sv" ∷ []) ∷ [];
    include_dirs = [];
    defines = [];
    params = [];
    timescale = none;
  };
  toolchain_digest = none;
  targets = target "a" (1 ∷ 2 ∷ []) ∷ target "b" (1 ∷ []) ∷ [];
  stages =
      ("simulate", stage [] ("compile" ∷ []) false (some targets))
      ∷ ("compile", stage (rtl ∷ tb ∷ []) ("lint" ∷ []) true none)
      ∷ ("lint", stage (rtl ∷ []) [] false none)
      ∷ [];
  policies = record {
    retries = record { infra = 3; timeout = 0; tool_error = 1 };
    cache = ("lint", false) ∷ [];
  };
}

abbrev entry : String → Role → ManifestEntry
entry path role = record { path = path; role = role; ordinal = 0; sha256 = "00"; size = 1 }

abbrev pub manifest : Manifest
manifest = record {
  design = "counter";
  files = entry "rtl/counter.sv" rtl ∷ entry "tb.sv" tb ∷ [];
  pipeline = pipeline;
  manifest_version = 1;
}

abbrev pub everything : Selection
everything = record { tags = []; targets = []; seeds = none; seed = none }

program : Unit {0}
unfolding has_cycle semantic_issues report scan plusarg_issues seed_issue target_issue role_issue
    kind_issue dep_issue stage_issue stage_issues cache_issues role_beq is_shaped select_targets
    stage_order instances dependencies unique gather upstream_ids kept keeps chosen_seeds expand
    run_stages task_specs task_spec spec_of task_id timeout order_loop next_ready task_params inputs
    role_inputs paths submission_hash digest
program = tt

pub no_issues : semantic_issues pipeline ≡ ok []
unfolding program
no_issues = refl

consistent : IsConsistent pipeline
consistent =
    let (issues, e, h) = semantic_issues_complete pipeline in h.0 (ok_inj (sym e ∙ no_issues))

pub valid : IsValid manifest
unfolding program
valid = record {
  parsed = record {
    shaped = refl;
    stage_keys = is_distinct-Distinct (keys pipeline.stages) refl;
    file_keys = is_distinct-Distinct (keys pipeline.design.files) refl;
  };
  consistent = consistent;
}

pub ulid_ok : is_ulid ulid ≡ true
unfolding is_ulid
ulid_ok = refl

abbrev context : Context
context = record {
  manifest = manifest;
  job_id = ulid;
  priority = 5;
  toolchain_digest = "00";
  no_cache = false;
}

from_ok : Result ExpandedJob → ExpandedJob
from_ok (ok job) = job
from_ok (raise e) = record {
  job_id = "";
  design = "";
  submission_hash = "";
  toolchain_digest = "";
  tasks = [];
}

unfoldable pub job : ExpandedJob
unfolding from_ok program
job = from_ok (expand codec manifest everything ulid 5 "00" false)

pub returns : expand codec manifest everything ulid 5 "00" false ≡ ok job
unfolding job
returns = refl

-- One lint task, a compile task for each target, and a simulate task for each target and seed.
six_tasks :
    map key job.tasks
    ≡ ("lint", "_", 0)
      ∷ ("compile", "a", 0)
      ∷ ("compile", "b", 0)
      ∷ ("simulate", "a", 1)
      ∷ ("simulate", "a", 2)
      ∷ ("simulate", "b", 1)
      ∷ []
unfolding job
six_tasks = refl

expand_total_example :
    Expands manifest everything ulid (expand codec manifest everything ulid 5 "00" false)
expand_total_example = expand_total codec manifest everything ulid 5 "00" false valid ulid_ok

expand-distinct_example :
    Distinct (ids job.tasks) × ((t : TaskSpec) → Memᴰ t job.tasks → Distinct t.depends_on)
expand-distinct_example =
    expand-distinct codec manifest everything ulid 5 "00" false job valid ulid_ok returns

expand-IsLinked_example : IsLinked [] job.tasks
expand-IsLinked_example =
    expand-IsLinked codec manifest everything ulid 5 "00" false job valid ulid_ok returns

expand-planned_example :
    (names : List String) × IsSorting pipeline.stages [] (keys pipeline.stages) names
    × (map key job.tasks ≡ plan pipeline.stages (kept everything pipeline.targets) names)
expand-planned_example =
    expand-planned codec manifest everything ulid 5 "00" false job valid ulid_ok returns

fourth : List TaskSpec → Option TaskSpec
fourth (a ∷ b ∷ c ∷ t ∷ ts) = some t
fourth _ = none

or_first : Option TaskSpec → TaskSpec
or_first (some t) = t
or_first none = spec_of context "" (stage [] [] false none) none 0 "" []

-- The task that simulates target a with seed 1.
simulate_task : TaskSpec
unfolding job fourth or_first
simulate_task = or_first (fourth job.tasks)

mem-simulate_task : Memᴰ simulate_task job.tasks
unfolding simulate_task
mem-simulate_task = Memᴰ.tail (Memᴰ.tail (Memᴰ.tail (Memᴰ.head refl)))

-- It waits for the compile task of its own target only.
simulate_deps : simulate_task.depends_on ≡ "01ARZ3NDEKTSV4RRFFQ69G5FAV.compile.a.s0" ∷ []
unfolding simulate_task decimal
simulate_deps = refl

expand-IsTask_example :
    IsTask ulid pipeline.stages (kept everything pipeline.targets) job.tasks simulate_task
expand-IsTask_example =
    expand-IsTask codec manifest everything ulid 5 "00" false job valid ulid_ok returns
      simulate_task mem-simulate_task
