-- ===== src/Dag/Guarantees.antt =====
-- What holds of every job that `expand` returns for a validated manifest.
use rtlfarm.Prelude.{
  ℕ, String, ◌≡◌, sym, ◌∙◌, subst, Bool, true, List, [], map, Memᴰ, Distinct, keys, ok, ok_inj,
  ok-ne-raise,
}
use rtlfarm.Ids.{is_ulid}
use rtlfarm.Json.{Codec}
use rtlfarm.Manifest.{Manifest}
use rtlfarm.Dag.{Selection, TaskSpec, ExpandedJob}
use rtlfarm.Dag.Select.{kept}
use rtlfarm.Dag.Sorted.{IsSorting}
use rtlfarm.Dag.Tasks.{ids}
use rtlfarm.Dag.Expand.{expand}
use rtlfarm.Dag.Plan.{key, IsLinked}
use rtlfarm.Dag.Shapes.{plan, planned_keys-plan}
use rtlfarm.Dag.Wired.{IsTask}
use rtlfarm.Dag.Valid.{IsValid}
use rtlfarm.Dag.Expansion.{IsExpansion, Expands, unknown_names, unmatched, expanded, expand-Expands}

-- For a manifest whose pipeline is parsed and consistent and for a job id that is a ULID, `expand`
-- ends in exactly one of three ways: if some selected name is no target's, it raises exactly those
-- names; else, if no target passes the selection and some stage runs per target, it raises that the
-- selection matched no target; else it returns a job. No other exception leaves it: no missing key, no
-- exhausted iterator, no refused id.
pub expand_total :
    (codec : Codec) (m : Manifest) (selection : Selection) (job_id : String) (priority : ℕ)
    (toolchain_digest : String) (no_cache : Bool)
    → IsValid m
    → is_ulid job_id ≡ true
    → Expands m selection job_id
        (expand codec m selection job_id priority toolchain_digest no_cache)
expand_total = expand-Expands

module _ (codec : Codec) (m : Manifest) (selection : Selection) (job_id : String) (priority : ℕ)
    (toolchain_digest : String) (no_cache : Bool) (job : ExpandedJob) (valid : IsValid m)
    (ulid : is_ulid job_id ≡ true)
    (returns : expand codec m selection job_id priority toolchain_digest no_cache ≡ ok job) where
  expansion : IsExpansion m selection job_id job
  expansion =
      elim (expand-Expands codec m selection job_id priority toolchain_digest no_cache valid ulid) [
        | unknown_names names e some' who ↦ absurd (ok-ne-raise (sym returns ∙ e))
        | unmatched e known none' targeted ↦ absurd (ok-ne-raise (sym returns ∙ e))
        | expanded job' e known matched h ↦
            subst (IsExpansion m selection job_id) (ok_inj (sym e ∙ returns)) h
      ]

  -- Of a job that `expand` returns for a valid manifest and a ULID, no two tasks have the same id, and
  -- no task lists a dependency twice.
  pub expand-distinct :
      Distinct (ids job.tasks) × ((t : TaskSpec) → Memᴰ t job.tasks → Distinct t.depends_on)
  expand-distinct = (expansion.distinct, λ t m. (expansion.built t m).once)

  -- In a job that `expand` returns for a valid manifest and a ULID, every id that a task depends on is
  -- the id of a task before it in the list.
  pub expand-IsLinked : IsLinked [] job.tasks
  expand-IsLinked = expansion.linked

  -- A job that `expand` returns for a valid manifest and a ULID has, stage by stage in an order that lists every stage once behind its upstream stages,
  -- exactly one task for each target and seed of the stage, and for a whole-design stage one task with
  -- target `_` and seed 0; it has no other task.
  pub expand-planned :
      (names : List String) × IsSorting m.pipeline.stages [] (keys m.pipeline.stages) names
      × (map key job.tasks ≡ plan m.pipeline.stages (kept selection m.pipeline.targets) names)
  expand-planned = (
    expansion.names,
    expansion.sorted,
    expansion.planned ∙ planned_keys-plan m.pipeline.stages _ expansion.names,
  )

  -- Every task of a job that `expand` returns for a valid manifest and a ULID is an instance of the stage that it names, for a chosen target and one of
  -- its seeds, with the id of its parts; and it depends exactly on the tasks of the upstream
  -- stages that are for its own target, or, where an upstream stage has none for it, on all of that
  -- stage's tasks.
  pub expand-IsTask :
      (t : TaskSpec)
      → Memᴰ t job.tasks
      → IsTask job_id m.pipeline.stages (kept selection m.pipeline.targets) job.tasks t
  expand-IsTask = expansion.built
