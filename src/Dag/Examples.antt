-- ===== src/Dag/Examples.antt =====
-- The steps of `expand`, run on the sample pipeline.
use rtlfarm.Prelude.{
  String, ◌≡◌, refl, ◌↔◌, false, List, [], ◌∷◌, Memᴰ, Distinct, keys, none, some, ok, raise,
  no_such_target, string_eq,
}
use rtlfarm.Ids.Decimal.{decimal}
use rtlfarm.Models.{fake, Stage}
use rtlfarm.Dag.{Selection, TaskSpec}
use rtlfarm.Dag.Select.{select_targets}
use rtlfarm.Dag.StageOrder.{stage_order, order_loop, next_ready}
use rtlfarm.Dag.Tasks.{ByStage, ids, dependencies, gather, unique, upstream_ids}
use rtlfarm.Dag.Chosen.{Selected, select_targets_lem}
use rtlfarm.Dag.Sorted.{IsSorting, stage_order_sorts}
use rtlfarm.Dag.Wiring.{FromOne, dependencies_lem}
use rtlfarm.Dag.Valid.{upstream_known}
use rtlfarm.Dag.Samples.{pipeline, everything, valid, job, codec, manifest, ulid, ulid_ok, returns}
use rtlfarm.Dag.Rows.{Row, IsRow, job_dependencies, expand-rows}

-- One seed of each smoke target, of the two that are named.
abbrev smoke : Selection
smoke = record { tags = "smoke" ∷ []; targets = "b" ∷ "c" ∷ []; seeds = some 1; seed = none }

unknown_target : select_targets pipeline smoke ≡ raise (no_such_target ("c" ∷ []))
unfolding select_targets
unknown_target = refl

select_targets_lem_example : Selected pipeline.targets smoke (select_targets pipeline smoke)
select_targets_lem_example = select_targets_lem pipeline smoke

three_stages : stage_order pipeline.stages ≡ ok ("lint" ∷ "compile" ∷ "simulate" ∷ [])
unfolding stage_order order_loop next_ready
three_stages = refl

stage_order_sorts_example :
    (names : List String) × (stage_order pipeline.stages ≡ ok names)
    × IsSorting pipeline.stages [] (keys pipeline.stages) names
stage_order_sorts_example =
    stage_order_sorts pipeline.stages (upstream_known pipeline valid.parsed valid.consistent)
      valid.consistent.acyclic valid.parsed.stage_keys

-- The tasks of the compile stage, for targets a and b.
second_third : List TaskSpec → List TaskSpec
second_third (a ∷ b ∷ c ∷ ts) = b ∷ c ∷ []
second_third _ = []

abbrev by_stage : ByStage
by_stage = ("compile", second_third job.tasks) ∷ []

abbrev simulate : Stage
simulate = record {
  tool = fake;
  consumes = [];
  consumes_artifacts = "compiled" ∷ [];
  depends_on = "compile" ∷ [];
  per_target = false;
  fan_out = none;
  timeout_s = 60;
}

-- A whole-design task waits for both.
both :
    dependencies simulate none by_stage
    ≡ ok
        ("01ARZ3NDEKTSV4RRFFQ69G5FAV.compile.a.s0" ∷ "01ARZ3NDEKTSV4RRFFQ69G5FAV.compile.b.s0" ∷ [])
unfolding dependencies gather unique upstream_ids second_third job decimal
both = refl

dependencies_lem_example :
    (deps : List String) × (dependencies simulate none by_stage ≡ ok deps)
    × Distinct deps
    × ((id : String) → Memᴰ id deps ↔ FromOne none by_stage ("compile" ∷ []) id)
dependencies_lem_example =
    dependencies_lem simulate none by_stage ((second_third job.tasks, refl), tt)

-- Every simulation waits for one compile task, and every compile task for the lint task.
five_rows :
    job_dependencies job
    ≡ ("01ARZ3NDEKTSV4RRFFQ69G5FAV.compile.a.s0", "01ARZ3NDEKTSV4RRFFQ69G5FAV.lint._.s0", "success")
      ∷ (
        "01ARZ3NDEKTSV4RRFFQ69G5FAV.compile.b.s0", "01ARZ3NDEKTSV4RRFFQ69G5FAV.lint._.s0",
        "success",
      )
      ∷ (
        "01ARZ3NDEKTSV4RRFFQ69G5FAV.simulate.a.s1", "01ARZ3NDEKTSV4RRFFQ69G5FAV.compile.a.s0",
        "success",
      )
      ∷ (
        "01ARZ3NDEKTSV4RRFFQ69G5FAV.simulate.a.s2", "01ARZ3NDEKTSV4RRFFQ69G5FAV.compile.a.s0",
        "success",
      )
      ∷ (
        "01ARZ3NDEKTSV4RRFFQ69G5FAV.simulate.b.s1", "01ARZ3NDEKTSV4RRFFQ69G5FAV.compile.b.s0",
        "success",
      )
      ∷ []
unfolding job_dependencies job decimal
five_rows = refl

expand-rows_example :
    Distinct (job_dependencies job)
    × ((row : Row) → Memᴰ row (job_dependencies job) → IsRow (ids job.tasks) row)
expand-rows_example =
    expand-rows codec manifest everything ulid 5 "00" false job valid ulid_ok returns
