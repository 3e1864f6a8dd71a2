-- ===== src/Dag/Shapes.antt =====
-- The three shapes of a stage, told without the code: which targets and seeds a stage has a task for.
use mathlib.Core.List.Memᴰ
use mathlib.Core.Logic.{⊎_elim}
use rtlfarm.Prelude.{
  ℕ, String, ◌≡◌, refl, sym, ap, subst, ap₂, ◌∙◌, ◌≢◌, ◌⊎◌, inl, inr, Bool, true, false, ◌||◌, List,
  [], ◌∷◌, ◌++◌, map, Memᴰ, Memᴰ-append, Option, none, some, Bool-cases, Option-cases, lookup,
  string_eq,
}
use rtlfarm.Models.{FanOut, Target, Stage}
use rtlfarm.Pipeline.{Stages}
use rtlfarm.Pipeline.Rules.{is_given}
use rtlfarm.Dag.Tasks.{per_seed, fanned, instances, target_name}
use rtlfarm.Dag.Plan.{Key, stage_keys, planned_keys}

-- A whole-design stage has one task, without a target and with seed 0; a per-target stage one for each
-- target, with seed 0; a fan-out stage one for each target and seed.
abbrev pub IsInstance : Stage → List Target → Option Target → ℕ → Type 0
IsInstance stage targets none seed =
    (stage.fan_out ≡ none) × (stage.per_target ≡ false) × (seed ≡ 0)
IsInstance stage targets (some t) seed =
    Memᴰ t targets
    × (((stage.fan_out ≢ none) × Memᴰ seed t.seeds)
        ⊎ ((stage.fan_out ≡ none) × (stage.per_target ≡ true) × (seed ≡ 0)))

-- The seeds that a targeted stage runs a target with.
abbrev pub runs : Stage → Target → List ℕ
runs stage t = elim stage.fan_out [ some whole ↦ t.seeds | none ↦ 0 ∷ [] ]

abbrev pub is_targeted : Stage → Bool
is_targeted stage = is_given stage.fan_out || stage.per_target

abbrev pub target_plan : String → Stage → List Target → List Key
target_plan name stage [] = []
target_plan name stage (t ∷ ts) =
    map (λ seed. (name, t.name, seed)) (runs stage t) ++ target_plan name stage ts

abbrev pub stage_plan : String → Stage → List Target → List Key
stage_plan name stage targets = elim (is_targeted stage) [
  | true ↦ target_plan name stage targets
  | false ↦ (name, "_", 0) ∷ []
]

-- What a job is to run, stage by stage.
abbrev pub plan : Stages → List Target → List String → List Key
plan stages targets [] = []
plan stages targets (name ∷ names) = elim (lookup stages name) [
  | none ↦ plan stages targets names
  | some stage ↦ stage_plan name stage targets ++ plan stages targets names
]

-- A member of `instances` for some target.
abbrev AtTarget : (Target → ℕ → Type 0) → Option Target → ℕ → Type 0
AtTarget P o seed = (u : Target) × (o ≡ some u) × P u seed

mem-per_seed :
    (t : Target) (o : Option Target) (seed : ℕ) (seeds : List ℕ)
    → Memᴰ (o, seed) (per_seed t seeds)
    → (o ≡ some t) × Memᴰ seed seeds
mem-per_seed t o seed [] m = absurd (Memᴰ.not-nil m)
mem-per_seed t o seed (s ∷ ss) (Memᴰ.head e) =
    (ap (λ (p : Option Target × ℕ). p.0) e, Memᴰ.head (ap (λ (p : Option Target × ℕ). p.1) e))
mem-per_seed t o seed (s ∷ ss) (Memᴰ.tail m) =
    let (same, h) = mem-per_seed t o seed ss m in (same, Memᴰ.tail h)

mem-fanned :
    (ts : List Target) (o : Option Target) (seed : ℕ)
    → Memᴰ (o, seed) (fanned ts)
    → AtTarget (λ u seed. Memᴰ u ts × Memᴰ seed u.seeds) o seed
mem-fanned [] o seed m = absurd (Memᴰ.not-nil m)
mem-fanned (t ∷ ts) o seed m =
    ⊎_elim
      (λ h. let (same, ms) = mem-per_seed t o seed t.seeds h in (t, same, (Memᴰ.head refl, ms)))
      (λ h. let (u, same, (mu, ms)) = mem-fanned ts o seed h in (u, same, (Memᴰ.tail mu, ms)))
      ((Memᴰ-append (o, seed) (per_seed t t.seeds) (fanned ts)).0 m)

mem-single :
    (ts : List Target) (o : Option Target) (seed : ℕ)
    → Memᴰ {A = Option Target × ℕ} (o, seed) (map (λ t. (some t, 0)) ts)
    → AtTarget (λ u seed. Memᴰ u ts × (seed ≡ 0)) o seed
mem-single [] o seed m = absurd (Memᴰ.not-nil m)
mem-single (t ∷ ts) o seed (Memᴰ.head e) = (
  t,
  ap (λ (p : Option Target × ℕ). p.0) e,
  (Memᴰ.head refl, ap (λ (p : Option Target × ℕ). p.1) e),
)
mem-single (t ∷ ts) o seed (Memᴰ.tail m) =
    let (u, same, (mu, zero_seed)) = mem-single ts o seed m in (u, same, (Memᴰ.tail mu, zero_seed))

given-none : (o : Option FanOut) → is_given o ≡ false → o ≡ none
given-none none h = refl
given-none (some f) h = absurd cc

given-some : (o : Option FanOut) → is_given o ≡ true → o ≢ none
given-some none h e = absurd cc
given-some (some f) h e = cc

pub mem-instances :
    (stage : Stage) (ts : List Target) (o : Option Target) (seed : ℕ)
    → Memᴰ (o, seed) (instances stage ts)
    → IsInstance stage ts o seed
unfolding instances
mem-instances stage ts o seed m = elim (Bool-cases (is_given stage.fan_out)) [
  | inl f ↦
      let (u, same, (mu, ms)) = mem-fanned ts o seed (rw (f, instances) at m) in
      subst (λ o. IsInstance stage ts o seed) (sym same) (mu, inl (given-some stage.fan_out f, ms))
  | inr f ↦ elim (Bool-cases stage.per_target) [
    | inl p ↦
        let (u, same, (mu, z)) = mem-single ts o seed (rw (f, instances, p) at m) in
        subst (λ o. IsInstance stage ts o seed) (sym same)
          (mu, inr (given-none stage.fan_out f, p, z))
    | inr p ↦
        let e = Memᴰ.eq_of_singleton (rw (f, instances, p) at m) in
        subst (λ o. IsInstance stage ts o seed) (sym (ap (λ (p : Option Target × ℕ). p.0) e))
          (given-none stage.fan_out f, p, ap (λ (p : Option Target × ℕ). p.1) e)
  ]
]

stage_keys-map :
    (name : String) (t : Target) (seeds : List ℕ)
    → stage_keys name (per_seed t seeds) ≡ map (λ seed. (name, t.name, seed)) seeds
stage_keys-map name t [] = refl
stage_keys-map name t (s ∷ ss) = ap (λ l. (name, t.name, s) ∷ l) (stage_keys-map name t ss)

stage_keys-join :
    (name : String) (xs ys : List (Option Target × ℕ))
    → stage_keys name (xs ++ ys) ≡ stage_keys name xs ++ stage_keys name ys
stage_keys-join name [] ys = refl
stage_keys-join name ((o, s) ∷ xs) ys =
    ap (λ l. (name, target_name o, s) ∷ l) (stage_keys-join name xs ys)

runs-given : (stage : Stage) (t : Target) → is_given stage.fan_out ≡ true → runs stage t ≡ t.seeds
runs-given stage t f = elim (Option-cases stage.fan_out) [
  | inl none' ↦ absurd (given-some stage.fan_out f none')
  | inr (whole, given) ↦ rw (given, runs) refl
]

runs-not_given :
    (stage : Stage) (t : Target) → is_given stage.fan_out ≡ false → runs stage t ≡ 0 ∷ []
runs-not_given stage t f = rw (given-none stage.fan_out f, runs) refl

stage_keys-fanned :
    (name : String) (stage : Stage) (ts : List Target)
    → is_given stage.fan_out ≡ true
    → stage_keys name (fanned ts) ≡ target_plan name stage ts
stage_keys-fanned name stage [] f = refl
stage_keys-fanned name stage (t ∷ ts) f =
    stage_keys-join name (per_seed t t.seeds) (fanned ts)
    ∙ ap₂ (λ xs ys. xs ++ ys)
        (stage_keys-map name t t.seeds
          ∙ ap (map (λ seed. (name, t.name, seed))) (sym (runs-given stage t f)))
        (stage_keys-fanned name stage ts f)

stage_keys-single :
    (name : String) (stage : Stage) (ts : List Target)
    → is_given stage.fan_out ≡ false
    → stage_keys name (map (λ t. (some t, 0)) ts) ≡ target_plan name stage ts
stage_keys-single name stage [] f = refl
stage_keys-single name stage (t ∷ ts) f =
    ap₂ (λ xs ys. xs ++ ys)
      (ap (map (λ seed. (name, t.name, seed))) (sym (runs-not_given stage t f)))
      (stage_keys-single name stage ts f)

stage_keys-instances :
    (name : String) (stage : Stage) (ts : List Target)
    → stage_keys name (instances stage ts) ≡ stage_plan name stage ts
unfolding instances
stage_keys-instances name stage ts = elim (Bool-cases (is_given stage.fan_out)) [
  | inl f ↦ rw (f, instances, stage_plan) (stage_keys-fanned name stage ts f)
  | inr f ↦ elim (Bool-cases stage.per_target) [
    | inl p ↦ rw (f, p, instances, stage_plan) (stage_keys-single name stage ts f)
    | inr p ↦ rw (f, p, instances, stage_plan) refl
  ]
]

-- The keys that the code plans are those of the plan.
pub planned_keys-plan :
    (stages : Stages) (ts : List Target) (names : List String)
    → planned_keys stages ts names ≡ plan stages ts names
planned_keys-plan stages ts [] = refl
planned_keys-plan stages ts (name ∷ names) = elim (Option-cases (lookup stages name)) [
  | inl missing ↦ rw (missing, planned_keys, plan) (planned_keys-plan stages ts names)
  | inr (stage, found) ↦
      rw (found, planned_keys, plan)
        (ap₂ (λ xs ys. xs ++ ys) (stage_keys-instances name stage ts)
          (planned_keys-plan stages ts names))
]
