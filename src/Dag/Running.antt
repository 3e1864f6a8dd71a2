-- ===== src/Dag/Running.antt =====
-- The outer loop of `expand`: it raises nothing on an ordered list of stages, and what it builds.
use mathlib.Core.List.Memᴰ
use mathlib.Core.Logic.{⊎_elim}
use mathlib.Core.List.{append_assoc, append-nil, map-append}
use rtlfarm.Prelude.{
  ℕ, String, ◌≡◌, refl, sym, ap, ap₂, subst, ◌∙◌, ◌≢◌, ◌⊎◌, inl, inr, ◌↔◌, true, List, [], ◌∷◌,
  ◌++◌, map, Memᴰ, Memᴰ-append, Memᴰ-concat, Distinct, All, All-Memᴰ, All_of_Memᴰ, contains, keys,
  lookup, insert, Option, some, some_inj, Result, ok, string_eq, arith,
}
use rtlfarm.Ids.{is_ulid, stage_kinds}
use rtlfarm.Models.{Target, Stage}
use rtlfarm.Pipeline.{Stages}
use rtlfarm.Pipeline.Graph.{keys-lookup}
use rtlfarm.Dag.{TaskSpec}
use rtlfarm.Dag.Ready.{IsReady, IsOrdered}
use rtlfarm.Dag.Tasks.{ByStage, ids, instances}
use rtlfarm.Dag.Expand.{Context, run_stages}
use rtlfarm.Dag.Wiring.{AllRun}
use rtlfarm.Dag.Building.{IsNamed, IsBuilt, AreBuilt, task_specs-AreBuilt}
use rtlfarm.Dag.Shapes.{IsInstance, mem-instances}
use rtlfarm.Dag.Wired.{IsFiled, FromOne-IsUpstream, IsTask, IsTask-append}
use rtlfarm.Dag.Plan.{key, stage_keys, planned_keys, IsLinked, IsLinked-append, IsLinked-of_all}

lookup-insert :
    {V : Type 0} (k j : String) (v : V) (d : List (String × V))
    → ((k ≡ j) × (lookup (insert d k v) j ≡ some v))
      ⊎ ((k ≢ j) × (lookup (insert d k v) j ≡ lookup d j))
lookup-insert k j v [] = ground (arith, string_eq.beq_iff k j)
lookup-insert k j v ((i, w) ∷ d) = ground (
  arith,
  lookup-insert k j v d,
  string_eq.beq_iff i k,
  string_eq.beq_iff i j,
  string_eq.beq_iff k j,
)

module _ (c : Context) (targets : List Target) where
  abbrev pub stages : Stages
  stages = c.manifest.pipeline.stages

  -- What one stage's tasks are.
  module _ (name : String) (stage : Stage) (by_stage : ByStage) where
    key-AreBuilt :
        (is : List (Option Target × ℕ)) (ts : List TaskSpec)
        → AreBuilt c name stage by_stage is ts
        → map key ts ≡ stage_keys name is
    key-AreBuilt [] [] h = refl
    key-AreBuilt [] (t ∷ ts) h = absurd h
    key-AreBuilt (i ∷ is) [] h = absurd h
    key-AreBuilt ((source, seed) ∷ is) (t ∷ ts) (b, h) =
        ap₂ ◌∷◌ (λ k. (b.kind k, b.target k, b.seed_eq k)) (key-AreBuilt is ts h)

    mem-AreBuilt :
        (is : List (Option Target × ℕ)) (ts : List TaskSpec) (t : TaskSpec)
        → AreBuilt c name stage by_stage is ts
        → Memᴰ t ts
        → (source : Option Target) × (seed : ℕ) × Memᴰ (source, seed) is
          × IsBuilt c name stage by_stage source seed t
    mem-AreBuilt is [] t h m = absurd (Memᴰ.not-nil m)
    mem-AreBuilt [] (u ∷ ts) t h m = absurd h
    mem-AreBuilt ((source, seed) ∷ is) (u ∷ ts) t h (Memᴰ.head e) = (
      source,
      seed,
      Memᴰ.head refl,
      subst (IsBuilt c name stage by_stage source seed) (sym e) h.0,
    )
    mem-AreBuilt ((source, seed) ∷ is) (u ∷ ts) t h (Memᴰ.tail m) =
        let (s, n, mi, b) = mem-AreBuilt is ts t h.1 m in (s, n, Memᴰ.tail mi, b)

  -- The loop's variables once the stages of `seen` have run.
  pub record IsRun (seen : List String) (by_stage : ByStage) (tasks : List TaskSpec) : Type 0 where
    pub ran :
        (n : String)
        → Memᴰ n seen
        → (candidates : List TaskSpec) × (lookup by_stage n ≡ some candidates)
    pub filed : IsFiled by_stage tasks
    pub kinds : (t : TaskSpec) → Memᴰ t tasks → Memᴰ t.stage_kind seen
    pub built : (t : TaskSpec) → Memᴰ t tasks → IsTask c.job_id stages targets tasks t
    pub met :
        (t : TaskSpec) (stage : Stage)
        → Memᴰ t tasks
        → lookup stages t.stage_kind ≡ some stage
        → All (λ d. Memᴰ d seen) stage.depends_on

  AllRun-of_met :
      (seen : List String) (by_stage : ByStage) (tasks : List TaskSpec) (ups : List String)
      → IsRun seen by_stage tasks
      → All (λ d. Memᴰ d seen) ups
      → AllRun by_stage ups
  AllRun-of_met seen by_stage tasks ups run met =
      All_of_Memᴰ _ ups (λ n m. run.ran n (All-Memᴰ _ ups met m))

  module _ (seen : List String) (by_stage : ByStage) (tasks : List TaskSpec) (name : String)
      (run : IsRun seen by_stage tasks) (ready : IsReady stages seen name) (new : ¬ Memᴰ name seen)
      (specs : List TaskSpec)
      (built : AreBuilt c name ready.stage by_stage (instances ready.stage targets) specs) where
    all_run : AllRun by_stage ready.stage.depends_on
    all_run = AllRun-of_met seen by_stage tasks ready.stage.depends_on run ready.met

    spec-kind : (t : TaskSpec) → Memᴰ t specs → t.stage_kind ≡ name
    spec-kind t m =
        let (source, seed, mi, b) =
          mem-AreBuilt name ready.stage by_stage (instances ready.stage targets) specs t built m in
        b.kind

    spec-other :
        (ups : List String)
        → All (λ d. Memᴰ d seen) ups
        → (v : TaskSpec) → Memᴰ v specs
        → ¬ Memᴰ v.stage_kind ups
    spec-other ups met v m up =
        new (All-Memᴰ _ ups met (subst (λ k. Memᴰ k ups) (spec-kind v m) up))

    spec-IsTask : (t : TaskSpec) → Memᴰ t specs → IsTask c.job_id stages targets tasks t
    spec-IsTask t m =
        let (source, seed, mi, b) =
          mem-AreBuilt name ready.stage by_stage (instances ready.stage targets) specs t built m in
        record {
          stage = ready.stage;
          found = subst (λ k. lookup stages k ≡ some ready.stage) (sym b.kind) ready.found;
          source = source;
          planned =
              subst (IsInstance ready.stage targets source) (sym b.seed_eq)
                (mem-instances ready.stage targets source seed mi);
          named = b.target;
          parts = b.parts;
          text = b.text;
          once = b.once;
          wired = λ id.
              let told =
                FromOne-IsUpstream source by_stage tasks ready.stage.depends_on id run.filed
                  all_run in
              (λ d. told.0 ((b.wired id).0 d), λ u. (b.wired id).1 (told.1 u));
        }

    spec-IsLinked : IsLinked (ids tasks) specs
    spec-IsLinked = IsLinked-of_all (ids tasks) specs λ t m id d.
        let h = spec-IsTask t m in
        let (u, mu, up, e, w) = (h.wired id).0 d in
        subst (λ k. Memᴰ k (ids tasks)) e (Memᴰ.map (λ t. TaskSpec.task_id t) mu)

    IsFiled-next : IsFiled (insert by_stage name specs) (tasks ++ specs)
    IsFiled-next n candidates found t = elim (lookup-insert name n specs by_stage) [
      | inl (same, e) ↦
          let list : specs ≡ candidates = some_inj (sym e ∙ found) in
          subst (λ l. Memᴰ t l ↔ (Memᴰ t (tasks ++ specs) × (t.stage_kind ≡ n))) list
            (
              λ m. ((Memᴰ-append t tasks specs).1 (inr m), spec-kind t m ∙ same),
              λ (m, k).
                  ⊎_elim
                    (λ old.
                      absurd (new (subst (λ x. Memᴰ x seen) (k ∙ sym same) (run.kinds t old))))
                    (λ s. s) ((Memᴰ-append t tasks specs).0 m),
            )
      | inr (other, e) ↦
          let old = run.filed n candidates (sym e ∙ found) t in
          (
            λ m. ((Memᴰ-append t tasks specs).1 (inl (old.0 m).0), (old.0 m).1),
            λ (m, k).
                ⊎_elim (λ o. old.1 (o, k)) (λ s. absurd (other (sym (spec-kind t s) ∙ k)))
                  ((Memᴰ-append t tasks specs).0 m),
          )
    ]

    grown : (n : String) → Memᴰ n seen → Memᴰ n (seen ++ name ∷ [])
    grown n m = (Memᴰ-concat n name seen).1 (inl m)

    All-grown :
        (ups : List String) → All (λ d. Memᴰ d seen) ups → All (λ d. Memᴰ d (seen ++ name ∷ [])) ups
    All-grown ups h = All_of_Memᴰ _ ups (λ d m. grown d (All-Memᴰ _ ups h m))

    ran_next :
        (n : String)
        → Memᴰ n (seen ++ name ∷ [])
        → (candidates : List TaskSpec) × (lookup (insert by_stage name specs) n ≡ some candidates)
    ran_next n m = elim (lookup-insert name n specs by_stage) [
      | inl (same, e) ↦ (specs, e)
      | inr (other, e) ↦
          let (candidates, found) =
            run.ran n (
              ⊎_elim (λ o. o) (λ same. absurd (other (sym same)))
                ((Memᴰ-concat n name seen).0 m)) in
          (candidates, e ∙ found)
    ]

    met_next :
        (t : TaskSpec) (stage : Stage)
        → lookup stages t.stage_kind ≡ some stage
        → Memᴰ t tasks ⊎ Memᴰ t specs
        → All (λ d. Memᴰ d seen) stage.depends_on
    met_next t stage found (inl old) = run.met t stage old found
    met_next t stage found (inr spec) =
        let same =
          some_inj (
            sym ready.found ∙ subst (λ k. lookup stages k ≡ some stage) (spec-kind t spec) found) in
        subst (λ (s : Stage). All (λ d. Memᴰ d seen) s.depends_on) same ready.met

    built_next :
        (t : TaskSpec)
        → Memᴰ t tasks ⊎ Memᴰ t specs
        → IsTask c.job_id stages targets (tasks ++ specs) t
    built_next t (inl old) =
        let h = run.built t old in
        IsTask-append specs h (spec-other h.stage.depends_on (run.met t h.stage old h.found))
    built_next t (inr spec) =
        let h = spec-IsTask t spec in
        IsTask-append specs h
          (spec-other h.stage.depends_on (met_next t h.stage h.found (inr spec)))

    IsRun-next : IsRun (seen ++ name ∷ []) (insert by_stage name specs) (tasks ++ specs)
    IsRun-next = record {
      ran = ran_next;
      filed = IsFiled-next;
      kinds = λ t m.
          ⊎_elim (λ o. grown t.stage_kind (run.kinds t o))
            (λ s. (Memᴰ-concat t.stage_kind name seen).1 (inr (spec-kind t s)))
            ((Memᴰ-append t tasks specs).0 m);
      built = λ t m. built_next t ((Memᴰ-append t tasks specs).0 m);
      met = λ t stage m found.
          All-grown stage.depends_on (met_next t stage found ((Memᴰ-append t tasks specs).0 m));
    }

  -- What the loop adds to `tasks` on the stages `names`.
  pub record IsRunOn (tasks : List TaskSpec) (names : List String) (added : List TaskSpec)
      : Type 0 where
    pub tasks_ok :
        (t : TaskSpec) → Memᴰ t (tasks ++ added) → IsTask c.job_id stages targets (tasks ++ added) t
    pub linked : IsLinked (ids tasks) added
    pub planned : map key added ≡ planned_keys stages targets names

  IsRunOn-cons :
      (seen : List String) (by_stage : ByStage) (tasks : List TaskSpec) (name : String)
      (run : IsRun seen by_stage tasks) (ready : IsReady stages seen name) (new : ¬ Memᴰ name seen)
      (specs : List TaskSpec)
      (built : AreBuilt c name ready.stage by_stage (instances ready.stage targets) specs)
      (names : List String) (added : List TaskSpec)
      → IsRunOn (tasks ++ specs) names added
      → IsRunOn tasks (name ∷ names) (specs ++ added)
  IsRunOn-cons seen by_stage tasks name run ready new specs built names added rest = record {
    tasks_ok =
        subst (λ l. (t : TaskSpec) → Memᴰ t l → IsTask c.job_id stages targets l t)
          (append_assoc tasks specs added) rest.tasks_ok;
    linked =
        IsLinked-append (ids tasks) specs added
          (spec-IsLinked seen by_stage tasks name run ready new specs built)
          (subst (λ l. IsLinked l added) (map-append (λ t. TaskSpec.task_id t) tasks specs)
            rest.linked);
    planned =
        rw (ready.found, planned_keys)
          (map-append key specs added
            ∙ ap₂ ◌++◌
                (key-AreBuilt name ready.stage by_stage (instances ready.stage targets) specs built)
                rest.planned);
  }

  module _ (ulid : is_ulid c.job_id ≡ true)
      (kind_ok : (n : String) → Memᴰ n (keys stages) → contains stage_kinds n ≡ true)
      (named : (stage : Stage) → All (λ i. IsNamed i.0) (instances stage targets)) where
    abbrev pub Runs : List TaskSpec → List String → Result (List TaskSpec) → Type 0
    Runs tasks names r =
        (added : List TaskSpec) × (r ≡ ok (tasks ++ added)) × IsRunOn tasks names added

    pub run_stages-Runs :
        (names seen : List String) (by_stage : ByStage) (tasks : List TaskSpec)
        → IsOrdered stages seen names
        → Distinct names
        → ((n : String) → Memᴰ n names → ¬ Memᴰ n seen)
        → IsRun seen by_stage tasks
        → Runs tasks names (run_stages c targets by_stage tasks names)
    unfolding run_stages
    run_stages-Runs [] seen by_stage tasks ordered once new run = (
      [],
      ap ok (sym (append-nil tasks)),
      record {
        tasks_ok =
            subst (λ l. (t : TaskSpec) → Memᴰ t l → IsTask c.job_id stages targets l t)
              (sym (append-nil tasks)) run.built;
        linked = tt;
        planned = refl;
      },
    )
    run_stages-Runs (name ∷ names) seen by_stage tasks (ready, ordered) once new run =
        let new' = new name (Memᴰ.head refl) in
        let known = keys-lookup stages name ready.stage ready.found in
        let (specs, e, built) =
          task_specs-AreBuilt c name ready.stage by_stage ulid (kind_ok name known)
            (AllRun-of_met seen by_stage tasks ready.stage.depends_on run ready.met)
            (instances ready.stage targets) (named ready.stage) in
        let (added, e', rest) =
          run_stages-Runs names (seen ++ name ∷ []) (insert by_stage name specs) (tasks ++ specs)
            ordered once.1
            (λ n m s.
              ⊎_elim (new n (Memᴰ.tail m)) (λ same. once.0 (subst (λ k. Memᴰ k names) same m))
                ((Memᴰ-concat n name seen).0 s))
            (IsRun-next seen by_stage tasks name run ready new' specs built) in
        (
          specs ++ added,
          rw (ready.found, run_stages) (rw e (e' ∙ ap ok (append_assoc tasks specs added))),
          IsRunOn-cons seen by_stage tasks name run ready new' specs built names added rest,
        )
