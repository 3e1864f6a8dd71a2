-- ===== src/Dag/Expansion.antt =====
-- What `expand` makes of a validated manifest.
use mathlib.Core.List.Memᴰ
use rtlfarm.Prelude.{
  ℕ, String, ◌≡◌, refl, sym, ap, subst, ◌∙◌, ◌≢◌, inl, inr, ◌↔◌, ◌⊎◌, Bool, true, false, ◌&&◌, ◌||◌,
  Option, none, some, List-cases, List, [], ◌∷◌, map, Memᴰ, Distinct, keys, Bool-cases, Result, ok,
  raise, no_such_target, no_targets_matched, string_eq, arith,
}
use rtlfarm.Ids.{is_ulid}
use rtlfarm.Ids.Distinct.{text_inj}
use mathlib.Core.Logic.{⊎_elim}
use rtlfarm.Models.{FanOut, Stage, Target}
use rtlfarm.Json.{Codec}
use rtlfarm.Manifest.{Manifest}
use rtlfarm.Pipeline.{Stages}
use rtlfarm.Pipeline.Rules.{is_empty, is_given}
use rtlfarm.Dag.{Selection, TaskSpec, ExpandedJob}
use rtlfarm.Dag.Wiring.{is_empty-nil}
use rtlfarm.Dag.Select.{submission_hash, chosen_seeds, kept, target_names, select_targets}
use rtlfarm.Dag.Sorted.{IsSorting, stage_order_sorts}
use rtlfarm.Dag.Tasks.{ids}
use rtlfarm.Dag.Expand.{Context, run_stages, any_targeted, expand}
use rtlfarm.Dag.Chosen.{Passes, mem-kept, keeps_iff, unknown, chosen, select_targets_lem}
use rtlfarm.Dag.Plan.{key, planned_keys, IsLinked}
use rtlfarm.Dag.Keys.{planned_keys-Distinct, instances-AreNamed}
use rtlfarm.Dag.Wired.{IsTask}
use rtlfarm.Dag.Running.{IsRun, IsRunOn, run_stages-Runs}
use rtlfarm.Dag.Valid.{IsValid, upstream_known, kind_ok, chosen-IsNamed, chosen-seeds, chosen-names}

-- The job that a manifest, a selection and a job id make.
pub record IsExpansion (m : Manifest) (selection : Selection) (job_id : String) (job : ExpandedJob)
    : Type 0 where
  pub same_id : job.job_id ≡ job_id
  pub names : List String
  pub sorted : IsSorting m.pipeline.stages [] (keys m.pipeline.stages) names
  pub planned :
      map key job.tasks ≡ planned_keys m.pipeline.stages (kept selection m.pipeline.targets) names
  pub linked : IsLinked [] job.tasks
  pub built :
      (t : TaskSpec)
      → Memᴰ t job.tasks
      → IsTask job_id m.pipeline.stages (kept selection m.pipeline.targets) job.tasks t
  pub distinct : Distinct (ids job.tasks)

-- Tasks that differ in their key differ in their id.
Distinct_ids :
    (job_id : String) (stages : Stages) (targets : List Target) (tasks ts : List TaskSpec)
    → ((t : TaskSpec) → Memᴰ t ts → IsTask job_id stages targets tasks t)
    → Distinct (map key ts)
    → Distinct (ids ts)
Distinct_ids job_id stages targets tasks [] built d = tt
Distinct_ids job_id stages targets tasks (t ∷ ts) built d = (
  λ m.
      let (u, mu, e) = Memᴰ.of_map (λ t. TaskSpec.task_id t) ts m in
      let ht = built t (Memᴰ.head refl) in
      let hu = built u (Memᴰ.tail mu) in
      let (job, kind, target, seed) =
        text_inj _ _ _ _ _ _ _ _ hu.parts ht.parts (sym hu.text ∙ e ∙ ht.text) in
      d.0 (subst (λ k. Memᴰ k (map key ts)) (λ i. (kind i, target i, seed i)) (Memᴰ.map key mu)),
  Distinct_ids job_id stages targets tasks ts (λ u m. built u (Memᴰ.tail m)) d.1,
)

-- Some stage runs once per target.
abbrev pub IsTargeted : Stages → Type 0
IsTargeted stages =
    (name : String) × (stage : Stage) × Memᴰ (name, stage) stages
    × ((stage.fan_out ≢ none) ⊎ (stage.per_target ≡ true))

-- Every selected name is a target's.
abbrev pub Known : Manifest → Selection → Type 0
Known m selection =
    (x : String) → Memᴰ x selection.targets → Memᴰ x (target_names m.pipeline.targets)

-- Some target passes the selection.
abbrev pub Matched : Manifest → Selection → Type 0
Matched m selection = (t : Target) × Memᴰ t m.pipeline.targets × Passes selection t

-- The ways in which `expand` ends.
pub data Expands (m : Manifest) (selection : Selection) (job_id : String) (r : Result ExpandedJob)
    : Type 0 where
  unknown_names :
      (names : List String)
      → r ≡ raise (no_such_target names)
      → names ≢ []
      → ((x : String)
          → Memᴰ x names
            ↔ (Memᴰ x selection.targets × (¬ Memᴰ x (target_names m.pipeline.targets))))
      → Expands m selection job_id r
  unmatched :
      r ≡ raise no_targets_matched
      → Known m selection
      → (¬ Matched m selection)
      → IsTargeted m.pipeline.stages
      → Expands m selection job_id r
  expanded :
      (job : ExpandedJob)
      → r ≡ ok job
      → Known m selection
      → Matched m selection ⊎ (¬ IsTargeted m.pipeline.stages)
      → IsExpansion m selection job_id job
      → Expands m selection job_id r

any_targeted_iff : (stages : Stages) → (any_targeted stages ≡ true) ↔ IsTargeted stages
any_targeted_iff [] = (λ h. absurd (cc h), λ (name, s, m, how). absurd (Memᴰ.not-nil m))
any_targeted_iff ((name, s) ∷ rest) = go s.fan_out s.per_target refl refl (any_targeted_iff rest)
  where
    later : IsTargeted rest → IsTargeted ((name, s) ∷ rest)
    later (n, s', m, how) = (n, s', Memᴰ.tail m, how)

    go :
        (f : Option FanOut) (p : Bool)
        → s.fan_out ≡ f
        → s.per_target ≡ p
        → (any_targeted rest ≡ true) ↔ IsTargeted rest
        → (is_given f || p || any_targeted rest ≡ true) ↔ IsTargeted ((name, s) ∷ rest)
    go (some f) p e e' ih =
        (λ _. (name, s, Memᴰ.head refl, inl (λ n. let clash = sym e ∙ n in cc clash)), λ _. refl)
    go none true e e' ih = (λ _. (name, s, Memᴰ.head refl, inr e'), λ _. refl)
    go none false e e' ih = (
      λ h. later (ih.0 h),
      λ (n, s', m, how).
          ⊎_elim
            (λ same.
              let is : s' ≡ s = ap (λ q. q.1) same in
              absurd (
                ⊎_elim (λ given. given (ap (λ t. Stage.fan_out t) is ∙ e))
                  (λ per. let clash = sym per ∙ ap (λ t. Stage.per_target t) is ∙ e' in cc clash)
                  how))
            (λ t. ih.1 (n, s', t, how)) (Memᴰ.cases_cons m),
    )

Matched-kept :
    (m : Manifest) (selection : Selection)
    → (Matched m selection → kept selection m.pipeline.targets ≢ [])
      × (kept selection m.pipeline.targets ≢ [] → Matched m selection)
Matched-kept m selection =
    let is = mem-kept selection m.pipeline.targets in
    (
      λ (t, mt, passes) none'. Memᴰ.not-nil (
          subst (Memᴰ (record t { seeds = chosen_seeds selection t.seeds })) none'
            ((is _).1 (t, mt, (keeps_iff selection t).1 passes, refl))),
      λ some'. elim (List-cases (kept selection m.pipeline.targets)) [
        | inl none' ↦ absurd (some' none')
        | inr (x, xs, e) ↦
            let (t, mt, k, same) = (is x).0 (subst (Memᴰ x) (sym e) (Memᴰ.head refl)) in
            (t, mt, (keeps_iff selection t).0 k)
      ],
    )

module _ (codec : Codec) (m : Manifest) (selection : Selection) (job_id : String) (priority : ℕ)
    (toolchain_digest : String) (no_cache : Bool) (valid : IsValid m)
    (ulid : is_ulid job_id ≡ true) where
  abbrev call : Context
  call = record {
    manifest = m;
    job_id = job_id;
    priority = priority;
    toolchain_digest = toolchain_digest;
    no_cache = no_cache;
  }

  abbrev targets : List Target
  targets = kept selection m.pipeline.targets

  empty-IsRun : IsRun call targets [] [] []
  empty-IsRun = record {
    ran = λ n m'. absurd (Memᴰ.not-nil m');
    filed = λ n candidates found. absurd (cc found);
    kinds = λ t m'. absurd (Memᴰ.not-nil m');
    built = λ t m'. absurd (Memᴰ.not-nil m');
    met = λ t stage m' found. absurd (Memᴰ.not-nil m');
  }

  tasks_run :
      (names : List String)
      → IsSorting m.pipeline.stages [] (keys m.pipeline.stages) names
      → (added : List TaskSpec) × (run_stages call targets [] [] names ≡ ok added)
        × IsRunOn call targets [] names added
  tasks_run names sorting =
      run_stages-Runs call targets ulid (kind_ok m.pipeline valid.parsed valid.consistent)
        (λ stage.
          instances-AreNamed stage targets
            (chosen-IsNamed m.pipeline valid.parsed valid.consistent selection))
        names [] [] [] sorting.order sorting.once (λ n m' s. Memᴰ.not-nil s) empty-IsRun

  abbrev result : Result ExpandedJob
  result = expand codec m selection job_id priority toolchain_digest no_cache

  -- The job of a run of the loop.
  abbrev job_of : List TaskSpec → ExpandedJob
  job_of tasks = record {
    job_id = job_id;
    design = m.design;
    submission_hash = submission_hash codec m selection;
    toolchain_digest = toolchain_digest;
    tasks = tasks;
  }

  IsExpansion-of_run :
      (names : List String) (tasks : List TaskSpec)
      → IsSorting m.pipeline.stages [] (keys m.pipeline.stages) names
      → IsRunOn call targets [] names tasks
      → IsExpansion m selection job_id (job_of tasks)
  IsExpansion-of_run names tasks sorting run = record {
    same_id = refl;
    names = names;
    sorted = sorting;
    planned = run.planned;
    linked = run.linked;
    built = run.tasks_ok;
    distinct = Distinct_ids job_id m.pipeline.stages targets tasks tasks run.tasks_ok (
        subst Distinct (sym run.planned) (
          planned_keys-Distinct m.pipeline.stages targets
            (chosen-names m.pipeline valid.parsed valid.consistent selection)
            (chosen-seeds m.pipeline valid.parsed valid.consistent selection) names sorting.once));
  }

  and_true : (a b : Bool) → a && b ≡ true → (a ≡ true) × (b ≡ true)
  and_true a b h = ground arith

  -- Where `expand` goes on, a target is left or none is asked for.
  goes_on :
      is_empty targets && any_targeted m.pipeline.stages ≡ false
      → Matched m selection ⊎ (¬ IsTargeted m.pipeline.stages)
  goes_on h = elim (List-cases targets) [
    | inr (x, xs, e) ↦
        inl ((Matched-kept m selection).1 (λ none'. let clash = sym e ∙ none' in cc clash))
    | inl none' ↦
        inr λ asked. let h' = rw (none', (any_targeted_iff m.pipeline.stages).1 asked) at h in cc
  ]

  chosen-Expands :
      select_targets m.pipeline selection ≡ ok targets
      → Known m selection
      → Expands m selection job_id result
  unfolding expand
  chosen-Expands e known =
      rw (e, expand)
        (elim (Bool-cases (is_empty targets && any_targeted m.pipeline.stages)) [
          | inl none' ↦
              let (gone, asked) = and_true _ _ none' in
              rw none' (
                unmatched refl known
                  (λ some'. (Matched-kept m selection).0 some' (is_empty-nil targets gone))
                  ((any_targeted_iff m.pipeline.stages).0 asked))
          | inr some' ↦
              let (names, order, sorting) =
                stage_order_sorts m.pipeline.stages
                  (upstream_known m.pipeline valid.parsed valid.consistent) valid.consistent.acyclic
                  valid.parsed.stage_keys in
              let (tasks, run, on) = tasks_run names sorting in
              let going = goes_on some' in
              rw some' (
                rw order (
                  rw run (
                    expanded (job_of tasks) refl known going
                      (IsExpansion-of_run names tasks sorting on))))
        ])

  pub expand-Expands : Expands m selection job_id result
  unfolding expand
  expand-Expands = elim (select_targets_lem m.pipeline selection) [
    | unknown names e some' who ↦ unknown_names names (rw e) some' who
    | chosen ts e known same is_kept ↦ chosen-Expands (e ∙ ap ok is_kept) known
  ]
