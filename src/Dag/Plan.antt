-- ===== src/Dag/Plan.antt =====
-- What a job's tasks are to be: their keys, and that each task's dependencies stand before it.
use mathlib.Core.List.Memᴰ
use mathlib.Core.List.{append_assoc, append-nil}
use rtlfarm.Prelude.{
  ℕ, String, ◌≡◌, refl, sym, subst, inl, List, [], ◌∷◌, ◌++◌, Memᴰ, Memᴰ-append, All, All_of_Memᴰ,
  lookup, Option, none, some, string_eq,
}
use rtlfarm.Models.{Target}
use rtlfarm.Pipeline.{Stages}
use rtlfarm.Dag.{TaskSpec}
use rtlfarm.Dag.Tasks.{ids, instances, target_name}

-- A task's stage, target and seed.
abbrev pub Key : Type 0
Key = String × String × ℕ

abbrev pub key : TaskSpec → Key
key t = (t.stage_kind, t.target, t.seed)

abbrev pub stage_keys : String → List (Option Target × ℕ) → List Key
stage_keys name [] = []
stage_keys name ((source, seed) ∷ is) = (name, target_name source, seed) ∷ stage_keys name is

-- The tasks that a job has: stage by stage, one for each target and seed of the stage.
abbrev pub planned_keys : Stages → List Target → List String → List Key
planned_keys stages targets [] = []
planned_keys stages targets (name ∷ names) = elim (lookup stages name) [
  | none ↦ planned_keys stages targets names
  | some stage ↦ stage_keys name (instances stage targets) ++ planned_keys stages targets names
]

-- Each task depends only on ids of `seen` and of the tasks before it.
abbrev pub IsLinked : List String → List TaskSpec → Type 0
IsLinked seen [] = Unit
IsLinked seen (t ∷ ts) =
    All (λ id. Memᴰ id seen) (TaskSpec.depends_on t) × IsLinked (seen ++ TaskSpec.task_id t ∷ []) ts

pub mem-stage_keys :
    (name : String) (is : List (Option Target × ℕ)) (k : Key)
    → Memᴰ k (stage_keys name is)
    → (source : Option Target) × (seed : ℕ) × Memᴰ (source, seed) is
      × (k ≡ (name, target_name source, seed))
mem-stage_keys name [] k m = absurd (Memᴰ.not-nil m)
mem-stage_keys name ((source, seed) ∷ is) k (Memᴰ.head e) = (source, seed, Memᴰ.head refl, e)
mem-stage_keys name ((source, seed) ∷ is) k (Memᴰ.tail m) =
    let (s, n, mi, e) = mem-stage_keys name is k m in (s, n, Memᴰ.tail mi, e)

pub IsLinked-append :
    (seen : List String) (xs ys : List TaskSpec)
    → IsLinked seen xs
    → IsLinked (seen ++ ids xs) ys
    → IsLinked seen (xs ++ ys)
IsLinked-append seen [] ys hx hy = subst (λ l. IsLinked l ys) (append-nil seen) hy
IsLinked-append seen (x ∷ xs) ys hx hy = (
  hx.0,
  IsLinked-append (seen ++ x.task_id ∷ []) xs ys hx.1
      (subst (λ l. IsLinked l ys) (sym (append_assoc seen (x.task_id ∷ []) (ids xs))) hy),
)

-- Tasks that depend only on what came before all of them.
pub IsLinked-of_all :
    (seen : List String) (ts : List TaskSpec)
    → ((t : TaskSpec) → Memᴰ t ts → (id : String) → Memᴰ id t.depends_on → Memᴰ id seen)
    → IsLinked seen ts
IsLinked-of_all seen [] h = tt
IsLinked-of_all seen (t ∷ ts) h = (
  All_of_Memᴰ _ t.depends_on (h t (Memᴰ.head refl)),
  IsLinked-of_all (seen ++ t.task_id ∷ []) ts
      (λ u m id d. (Memᴰ-append id seen (t.task_id ∷ [])).1 (inl (h u (Memᴰ.tail m) id d))),
)
