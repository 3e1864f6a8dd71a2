-- ===== src/Dag/Wired.antt =====
-- A task's dependencies, told by the job's own tasks instead of the loop's `by_stage`.
use mathlib.Core.Logic.{⊎_elim}
use rtlfarm.Prelude.{
  String, ◌≡◌, refl, sym, subst, ◌≢◌, ◌⊎◌, inl, inr, ◌↔◌, List, ◌++◌, Memᴰ, Memᴰ-append, Distinct,
  All-Memᴰ, lookup, Option, none, some, string_eq,
}
use rtlfarm.Ids.{task_id_text}
use rtlfarm.Ids.Distinct.{AreParts}
use rtlfarm.Models.{Target, Stage}
use rtlfarm.Pipeline.{Stages}
use rtlfarm.Dag.{TaskSpec}
use rtlfarm.Dag.Tasks.{ByStage, target_name}
use rtlfarm.Dag.Shapes.{IsInstance}
use rtlfarm.Dag.Wiring.{Wanted, AllRun, FromOne}

-- `by_stage` files every task under its stage.
abbrev pub IsFiled : ByStage → List TaskSpec → Type 0
IsFiled by_stage tasks =
    (n : String) (candidates : List TaskSpec)
    → lookup by_stage n ≡ some candidates
    → (t : TaskSpec) → Memᴰ t candidates ↔ (Memᴰ t tasks × (t.stage_kind ≡ n))

-- An upstream task counts for a target: it is for the same target, or its stage has no task for it.
abbrev pub Counts : Option Target → List TaskSpec → TaskSpec → Type 0
Counts none tasks u = Unit
Counts (some target) tasks u =
    (u.target ≡ target.name)
    ⊎ ((v : TaskSpec) → Memᴰ v tasks → v.stage_kind ≡ u.stage_kind → v.target ≢ target.name)

-- `id` is the id of a task of an upstream stage that counts.
abbrev pub IsUpstream : Option Target → List TaskSpec → List String → String → Type 0
IsUpstream source tasks ups id =
    (u : TaskSpec) × Memᴰ u tasks × Memᴰ u.stage_kind ups × (u.task_id ≡ id) × Counts source tasks u

Wanted→Counts :
    (source : Option Target) (candidates tasks : List TaskSpec) (u : TaskSpec)
    → ((v : TaskSpec) → Memᴰ v candidates ↔ (Memᴰ v tasks × (v.stage_kind ≡ u.stage_kind)))
    → Wanted source candidates u ↔ Counts source tasks u
Wanted→Counts none candidates tasks u same = (λ w. w, λ w. w)
Wanted→Counts (some target) candidates tasks u same = (
  ⊎_elim inl (λ f. inr λ v m k. f v ((same v).1 (m, k))),
  ⊎_elim inl (λ f. inr λ v m. f v ((same v).0 m).0 ((same v).0 m).1),
)

pub FromOne-IsUpstream :
    (source : Option Target) (by_stage : ByStage) (tasks : List TaskSpec) (ups : List String)
    (id : String)
    → IsFiled by_stage tasks
    → AllRun by_stage ups
    → FromOne source by_stage ups id ↔ IsUpstream source tasks ups id
FromOne-IsUpstream source by_stage tasks ups id filed run = (
  λ (up, candidates, m, found, (u, mu, e, w)).
      let (mt, kind) = (filed up candidates found u).0 mu in
      (
        u,
        mt,
        subst (λ k. Memᴰ k ups) (sym kind) m,
        e,
        (Wanted→Counts source candidates tasks u (
              filed u.stage_kind candidates
                (subst (λ k. lookup by_stage k ≡ some candidates) (sym kind) found))).0
            w,
      ),
  λ (u, m, up, e, w).
      let (candidates, found) = All-Memᴰ _ ups run up in
      let same = filed u.stage_kind candidates found in
      (
        u.stage_kind,
        candidates,
        up,
        found,
        (u, (same u).1 (m, refl), e, (Wanted→Counts source candidates tasks u same).1 w),
      ),
)

-- Tasks of other stages change nothing.
Counts-append :
    (source : Option Target) (tasks more : List TaskSpec) (u : TaskSpec)
    → ((v : TaskSpec) → Memᴰ v more → v.stage_kind ≢ u.stage_kind)
    → Counts source tasks u ↔ Counts source (tasks ++ more) u
Counts-append none tasks more u other = (λ w. w, λ w. w)
Counts-append (some target) tasks more u other = (
  ⊎_elim inl (λ f. inr λ v m k.
      ⊎_elim (λ old. f v old k) (λ new. absurd (other v new k)) ((Memᴰ-append v tasks more).0 m)),
  ⊎_elim inl (λ f. inr λ v m k. f v ((Memᴰ-append v tasks more).1 (inl m)) k),
)

IsUpstream-append :
    (source : Option Target) (tasks more : List TaskSpec) (ups : List String) (id : String)
    → ((v : TaskSpec) → Memᴰ v more → ¬ Memᴰ v.stage_kind ups)
    → IsUpstream source tasks ups id ↔ IsUpstream source (tasks ++ more) ups id
IsUpstream-append source tasks more ups id other = (
  λ (u, m, up, e, w). (
    u,
    (Memᴰ-append u tasks more).1 (inl m),
    up,
    e,
    (Counts-append source tasks more u (apart u up)).0 w,
  ),
  λ (u, m, up, e, w). (
    u,
    ⊎_elim (λ old. old) (λ new. absurd (other u new up)) ((Memᴰ-append u tasks more).0 m),
    up,
    e,
    (Counts-append source tasks more u (apart u up)).1 w,
  ),
)
  where
    apart :
        (u : TaskSpec)
        → Memᴰ u.stage_kind ups
        → (v : TaskSpec) → Memᴰ v more
        → v.stage_kind ≢ u.stage_kind
    apart u up v m e = other v m (subst (λ k. Memᴰ k ups) (sym e) up)

-- What every task of a job is: an instance of a stage, with its id, and with its dependencies the
-- upstream tasks that count, each once.
pub record IsTask (job_id : String) (stages : Stages) (targets : List Target)
    (tasks : List TaskSpec) (t : TaskSpec) : Type 0 where
  pub stage : Stage
  pub found : lookup stages t.stage_kind ≡ some stage
  pub source : Option Target
  pub planned : IsInstance stage targets source t.seed
  pub named : t.target ≡ target_name source
  pub parts : AreParts job_id t.stage_kind t.target
  pub text : t.task_id ≡ task_id_text job_id t.stage_kind t.target t.seed
  pub once : Distinct t.depends_on
  pub wired : (id : String) → Memᴰ id t.depends_on ↔ IsUpstream source tasks stage.depends_on id

pub IsTask-append :
    {job_id : String} {stages : Stages} {targets : List Target} {tasks : List TaskSpec}
    {t : TaskSpec} (more : List TaskSpec) (h : IsTask job_id stages targets tasks t)
    → ((v : TaskSpec) → Memᴰ v more → ¬ Memᴰ v.stage_kind (IsTask.stage h).depends_on)
    → IsTask job_id stages targets (tasks ++ more) t
IsTask-append {tasks = tasks} more h other = record {
  stage = h.stage;
  found = h.found;
  source = h.source;
  planned = h.planned;
  named = h.named;
  parts = h.parts;
  text = h.text;
  once = h.once;
  wired = λ id.
      let grow = IsUpstream-append h.source tasks more h.stage.depends_on id other in
      (λ m. grow.0 ((h.wired id).0 m), λ u. (h.wired id).1 (grow.1 u));
}
