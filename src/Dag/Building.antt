-- ===== src/Dag/Building.antt =====
-- The tasks of one stage are built without an exception once its upstream stages have run.
use rtlfarm.Prelude.{
  ℕ, String, ◌≡◌, refl, ◌⊎◌, inl, inr, ◌↔◌, true, List, [], ◌∷◌, Memᴰ, Distinct, All, contains,
  Option, none, some, ok, ◌==◌, string_eq,
}
use rtlfarm.Ids.{is_name, is_ulid, stage_kinds, whole_design_target, task_id_text}
use rtlfarm.Ids.Distinct.{AreParts, task_id-ok}
use rtlfarm.Models.{Target, Stage}
use rtlfarm.Dag.{TaskSpec}
use rtlfarm.Dag.Tasks.{ByStage, target_name}
use rtlfarm.Dag.Expand.{Context, spec_of, task_spec, task_specs}
use rtlfarm.Dag.Wiring.{AllRun, FromOne, dependencies_lem}

-- A target's name is a name.
abbrev pub IsNamed : Option Target → Type 0
IsNamed none = Unit
IsNamed (some target) = is_name target.name ≡ true

IsNamed-part :
    (source : Option Target)
    → IsNamed source
    → ((target_name source == whole_design_target) ≡ true) ⊎ (is_name (target_name source) ≡ true)
IsNamed-part none h = inl refl
IsNamed-part (some target) h = inr h

module _ (c : Context) (name : String) (stage : Stage) (by_stage : ByStage) where
  -- The task of one target and seed.
  pub record IsBuilt (source : Option Target) (seed : ℕ) (t : TaskSpec) : Type 0 where
    pub kind : t.stage_kind ≡ name
    pub target : t.target ≡ target_name source
    pub seed_eq : t.seed ≡ seed
    pub parts : AreParts c.job_id t.stage_kind t.target
    pub text : t.task_id ≡ task_id_text c.job_id t.stage_kind t.target t.seed
    pub once : Distinct t.depends_on
    pub wired : (id : String) → Memᴰ id t.depends_on ↔ FromOne source by_stage stage.depends_on id

  -- The tasks of a list of targets and seeds, in its order.
  abbrev pub AreBuilt : List (Option Target × ℕ) → List TaskSpec → Type 0
  AreBuilt [] [] = Unit
  AreBuilt [] (t ∷ ts) = ⊥
  AreBuilt (i ∷ is) [] = ⊥
  AreBuilt (i ∷ is) (t ∷ ts) = IsBuilt i.0 i.1 t × AreBuilt is ts

  module _ (ulid : is_ulid c.job_id ≡ true) (kind_ok : contains stage_kinds name ≡ true)
      (run : AllRun by_stage stage.depends_on) where
    task_spec-IsBuilt :
        (source : Option Target) (seed : ℕ)
        → IsNamed source
        → (t : TaskSpec) × (task_spec c name stage by_stage source seed ≡ ok t)
          × IsBuilt source seed t
    unfolding task_spec spec_of
    task_spec-IsBuilt source seed named =
        let (deps, e, once, wired) = dependencies_lem stage source by_stage run in
        let parts : AreParts c.job_id name (target_name source) = record {
          ulid = ulid;
          kind = kind_ok;
          name = IsNamed-part source named;
        } in
        let id = task_id-ok c.job_id name (target_name source) seed parts in
        (
          spec_of c name stage source seed (task_id_text c.job_id name (target_name source) seed)
              deps,
          rw e (rw id),
          record {
            kind = refl;
            target = refl;
            seed_eq = refl;
            parts = parts;
            text = refl;
            once = once;
            wired = wired;
          },
        )

    pub task_specs-AreBuilt :
        (is : List (Option Target × ℕ))
        → All (λ i. IsNamed i.0) is
        → (ts : List TaskSpec) × (task_specs c name stage by_stage is ≡ ok ts) × AreBuilt is ts
    unfolding task_specs
    task_specs-AreBuilt [] named = ([], refl, tt)
    task_specs-AreBuilt ((source, seed) ∷ is) (n, named) =
        let (t, e, built) = task_spec-IsBuilt source seed n in
        let (ts, es, rest) = task_specs-AreBuilt is named in
        (t ∷ ts, rw (e, task_specs) (rw es), (built, rest))
