-- ===== src/Dag/Settings.antt =====
-- What every task takes over from the call of `expand`.
use mathlib.Core.List.Memᴰ
use mathlib.Core.Logic.{⊎_elim}
use rtlfarm.Prelude.{
  ℕ, String, ◌≡◌, refl, sym, ap, subst, Bool, true, List, [], ◌∷◌, ◌++◌, Memᴰ, Memᴰ-append, Option,
  Option-cases, lookup, insert, ok, ◌>>=◌, Result-cases, ok_inj, ok-ne-raise, string_eq, Bool-cases,
  inl, inr, ◌&&◌,
}
use rtlfarm.Json.{Codec}
use rtlfarm.Models.{Target, Stage}
use rtlfarm.Manifest.{Manifest}
use rtlfarm.Pipeline.Rules.{is_empty}
use rtlfarm.Dag.{Selection, TaskSpec, ExpandedJob}
use rtlfarm.Dag.Tasks.{ByStage, instances, dependencies, target_name}
use rtlfarm.Dag.Select.{select_targets, submission_hash}
use rtlfarm.Dag.StageOrder.{stage_order}
use rtlfarm.Ids.{task_id}
use rtlfarm.Dag.Expand.{Context, spec_of, task_spec, task_specs, run_stages, any_targeted, expand}

pub record HasSettings (priority : ℕ) (digest : String) (no_cache : Bool) (t : TaskSpec)
    : Type 0 where
  pub priority_is : t.priority ≡ priority
  pub pinned : t.toolchain_digest ≡ digest
  pub bypass : t.bypass_cache ≡ no_cache
  pub verdict : t.affects_verdict ≡ true

module _ (c : Context) where
  abbrev Set : TaskSpec → Type 0
  Set = HasSettings c.priority c.toolchain_digest c.no_cache

  task_spec-settings :
      (name : String) (stage : Stage) (by_stage : ByStage) (target : Option Target) (seed : ℕ)
      (t : TaskSpec)
      → task_spec c name stage by_stage target seed ≡ ok t
      → Set t
  unfolding task_spec spec_of
  task_spec-settings name stage by_stage target seed t h =
      elim (Result-cases (dependencies stage target by_stage)) [
        | inr (x, e) ↦ absurd (ok-ne-raise (sym (rw (e, task_spec) at h)))
        | inl (deps, e) ↦ elim (Result-cases (task_id c.job_id name (target_name target) seed)) [
          | inr (x, e') ↦ absurd (ok-ne-raise (sym (rw (e, task_spec, e') at h)))
          | inl (id, e') ↦
              subst Set (ok_inj (rw (e, task_spec, e') at h))
                (record { priority_is = refl; pinned = refl; bypass = refl; verdict = refl })
        ]
      ]

  task_specs-settings :
      (name : String) (stage : Stage) (by_stage : ByStage) (is : List (Option Target × ℕ))
      (ts : List TaskSpec)
      → task_specs c name stage by_stage is ≡ ok ts
      → (t : TaskSpec) → Memᴰ t ts
      → Set t
  unfolding task_specs
  task_specs-settings name stage by_stage [] ts h t m =
      absurd (Memᴰ.not-nil (subst (Memᴰ t) (sym (ok_inj h)) m))
  task_specs-settings name stage by_stage ((target, seed) ∷ is) ts h t m =
      elim (Result-cases (task_spec c name stage by_stage target seed)) [
        | inr (x, e) ↦ absurd (ok-ne-raise (sym (rw (e, task_specs) at h)))
        | inl (u, e) ↦ elim (Result-cases (task_specs c name stage by_stage is)) [
          | inr (x, e') ↦ absurd (ok-ne-raise (sym (rw (e, task_specs, e') at h)))
          | inl (us, e') ↦
              ⊎_elim
                (λ same.
                  subst Set (sym same) (task_spec-settings name stage by_stage target seed u e))
                (task_specs-settings name stage by_stage is us e' t)
                (Memᴰ.cases_cons (subst (Memᴰ t) (sym (ok_inj (rw (e, task_specs, e') at h))) m))
        ]
      ]

  run_stages-settings :
      (targets : List Target) (by_stage : ByStage) (tasks : List TaskSpec) (names : List String)
      (ts : List TaskSpec)
      → ((t : TaskSpec) → Memᴰ t tasks → Set t)
      → run_stages c targets by_stage tasks names ≡ ok ts
      → (t : TaskSpec) → Memᴰ t ts
      → Set t
  unfolding run_stages
  run_stages-settings targets by_stage tasks [] ts old h t m =
      old t (subst (Memᴰ t) (sym (ok_inj h)) m)
  run_stages-settings targets by_stage tasks (name ∷ names) ts old h t m =
      elim (Option-cases (lookup c.manifest.pipeline.stages name)) [
        | inl missing ↦ absurd (ok-ne-raise (sym (rw (missing, run_stages) at h)))
        | inr (stage, found) ↦
            elim (Result-cases (task_specs c name stage by_stage (instances stage targets))) [
              | inr (x, e) ↦ absurd (ok-ne-raise (sym (rw (found, run_stages, e) at h)))
              | inl (specs, e) ↦
                  run_stages-settings targets (insert by_stage name specs) (tasks ++ specs) names ts
                    (λ u mu.
                      ⊎_elim (old u)
                        (task_specs-settings name stage by_stage (instances stage targets) specs e
                          u)
                        ((Memᴰ-append u tasks specs).0 mu))
                    (rw (found, run_stages, e) at h) t m
            ]
      ]

-- Every task of a job that `expand` returns has the priority, the toolchain digest and the cache bypass
-- of the call, and counts for the verdict; and the job has the job id and the digest of the call.
pub expand-HasSettings :
    (codec : Codec) (m : Manifest) (selection : Selection) (job_id : String) (priority : ℕ)
    (toolchain_digest : String) (no_cache : Bool) (job : ExpandedJob)
    → expand codec m selection job_id priority toolchain_digest no_cache ≡ ok job
    → (job.job_id ≡ job_id)
      × (job.toolchain_digest ≡ toolchain_digest)
      × ((t : TaskSpec) → Memᴰ t job.tasks → HasSettings priority toolchain_digest no_cache t)
unfolding expand
expand-HasSettings codec m selection job_id priority toolchain_digest no_cache job h =
    elim (Result-cases (select_targets m.pipeline selection)) [
      | inr (x, e) ↦ absurd (ok-ne-raise (sym (rw (e, expand) at h)))
      | inl (targets, e) ↦ elim (Bool-cases (is_empty targets && any_targeted m.pipeline.stages)) [
        | inl bare ↦ absurd (ok-ne-raise (sym (rw (e, expand, bare) at h)))
        | inr run ↦ elim (Result-cases (stage_order m.pipeline.stages)) [
          | inr (x, e') ↦ absurd (ok-ne-raise (sym (rw (e, expand, run, e') at h)))
          | inl (names, e') ↦ go targets names (rw (e, expand, run, e') at h)
        ]
      ]
    ]
  where
    c : Context
    c = record {
      manifest = m;
      job_id = job_id;
      priority = priority;
      toolchain_digest = toolchain_digest;
      no_cache = no_cache;
    }

    go :
        (targets : List Target) (names : List String)
        → (run_stages c targets [] [] names >>= λ tasks. ok (record {
          job_id = job_id;
          design = m.design;
          submission_hash = submission_hash codec m selection;
          toolchain_digest = toolchain_digest;
          tasks = tasks;
        }))
          ≡ ok job
        → (job.job_id ≡ job_id)
          × (job.toolchain_digest ≡ toolchain_digest)
          × ((t : TaskSpec) → Memᴰ t job.tasks → HasSettings priority toolchain_digest no_cache t)
    go targets names h' = elim (Result-cases (run_stages c targets [] [] names)) [
      | inr (x, e) ↦ absurd (ok-ne-raise (sym (rw e at h')))
      | inl (tasks, e) ↦
          let same = ok_inj (rw e at h') in
          (
            sym (ap (λ (j : ExpandedJob). j.job_id) same),
            sym (ap (λ (j : ExpandedJob). j.toolchain_digest) same),
            λ t mt.
                run_stages-settings c targets [] [] names tasks (λ u mu. absurd (Memᴰ.not-nil mu)) e
                  t (subst (Memᴰ t) (sym (ap (λ (j : ExpandedJob). j.tasks) same)) mt),
          )
    ]
