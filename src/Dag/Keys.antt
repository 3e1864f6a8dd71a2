-- ===== src/Dag/Keys.antt =====
-- No two tasks of a job are for the same stage, target and seed.
use mathlib.Core.List.Memᴰ
use mathlib.Core.Logic.{⊎_elim}
use rtlfarm.Prelude.{
  ℕ, String, ◌≡◌, refl, sym, ap, subst, inl, inr, List, [], ◌∷◌, ◌++◌, map, Memᴰ, Memᴰ-append,
  Distinct, All, lookup, Bool-cases, Option-cases, Option, some, string_eq,
}
use rtlfarm.Models.{Target, Stage}
use rtlfarm.Pipeline.{Stages}
use rtlfarm.Pipeline.Rules.{is_given}
use rtlfarm.Dag.Tasks.{per_seed, fanned, instances, target_name}
use rtlfarm.Dag.Building.{IsNamed}
use rtlfarm.Dag.Plan.{Key, stage_keys, planned_keys, mem-stage_keys}

pub Distinct-append {ℓ} :
    {A : Type ℓ} (xs ys : List A)
    → Distinct xs
    → Distinct ys
    → ((a : A) → Memᴰ a xs → ¬ Memᴰ a ys)
    → Distinct (xs ++ ys)
Distinct-append [] ys dx dy apart = dy
Distinct-append (x ∷ xs) ys dx dy apart = (
  λ m. ⊎_elim dx.0 (apart x (Memᴰ.head refl)) ((Memᴰ-append x xs ys).0 m),
  Distinct-append xs ys dx.1 dy (λ a m. apart a (Memᴰ.tail m)),
)

abbrev names_of : List Target → List String
names_of ts = map (λ t. Target.name t) ts

module _ (name : String) where
  seed-of :
      (t : Target) (seeds : List ℕ) (k : Key)
      → Memᴰ k (stage_keys name (per_seed t seeds))
      → (seed : ℕ) × Memᴰ seed seeds × (k ≡ (name, t.name, seed))
  seed-of t [] k m = absurd (Memᴰ.not-nil m)
  seed-of t (s ∷ ss) k (Memᴰ.head e) = (s, Memᴰ.head refl, e)
  seed-of t (s ∷ ss) k (Memᴰ.tail m) = let (r, mr, e) = seed-of t ss k m in (r, Memᴰ.tail mr, e)

  per_seed-Distinct :
      (t : Target) (seeds : List ℕ) → Distinct seeds → Distinct (stage_keys name (per_seed t seeds))
  per_seed-Distinct t [] d = tt
  per_seed-Distinct t (s ∷ ss) d = (
    λ m.
        let (r, mr, e) = seed-of t ss _ m in
        d.0 (subst (λ k. Memᴰ k ss) (sym (ap (λ (k : Key). k.2) e)) mr),
    per_seed-Distinct t ss d.1,
  )

  stage_keys-append :
      (xs ys : List (Option Target × ℕ))
      → stage_keys name (xs ++ ys) ≡ stage_keys name xs ++ stage_keys name ys
  stage_keys-append [] ys = refl
  stage_keys-append ((o, s) ∷ xs) ys =
      ap (λ l. (name, target_name o, s) ∷ l) (stage_keys-append xs ys)

  fanned-name :
      (ts : List Target) (k : Key) → Memᴰ k (stage_keys name (fanned ts)) → Memᴰ k.1 (names_of ts)
  fanned-name [] k m = absurd (Memᴰ.not-nil m)
  fanned-name (t ∷ ts) k m =
      ⊎_elim (λ h. let (r, mr, e) = seed-of t t.seeds k h in Memᴰ.head (ap (λ (k : Key). k.1) e))
        (λ r. Memᴰ.tail (fanned-name ts k r))
        ((Memᴰ-append k (stage_keys name (per_seed t t.seeds)) (stage_keys name (fanned ts))).0
          (subst (Memᴰ k) (stage_keys-append (per_seed t t.seeds) (fanned ts)) m))

  fanned-Distinct :
      (ts : List Target)
      → Distinct (names_of ts)
      → All (λ t. Distinct (Target.seeds t)) ts
      → Distinct (stage_keys name (fanned ts))
  fanned-Distinct [] d s = tt
  fanned-Distinct (t ∷ ts) d s =
      subst Distinct (sym (stage_keys-append (per_seed t t.seeds) (fanned ts))) (
        Distinct-append _ _ (per_seed-Distinct t t.seeds s.0) (fanned-Distinct ts d.1 s.1) (λ k m r.
          let (seed, ms, e) = seed-of t t.seeds k m in
          d.0 (subst (λ n. Memᴰ n (names_of ts)) (ap (λ (k : Key). k.1) e) (fanned-name ts k r))))

  single-name :
      (ts : List Target) (k : Key)
      → Memᴰ k (stage_keys name (map (λ t. (some t, 0)) ts))
      → Memᴰ k.1 (names_of ts)
  single-name [] k m = absurd (Memᴰ.not-nil m)
  single-name (t ∷ ts) k (Memᴰ.head e) = Memᴰ.head (ap (λ (k : Key). k.1) e)
  single-name (t ∷ ts) k (Memᴰ.tail m) = Memᴰ.tail (single-name ts k m)

  single-Distinct :
      (ts : List Target)
      → Distinct (names_of ts)
      → Distinct (stage_keys name (map (λ t. (some t, 0)) ts))
  single-Distinct [] d = tt
  single-Distinct (t ∷ ts) d = (λ m. d.0 (single-name ts _ m), single-Distinct ts d.1)

  pub instances-Distinct :
      (stage : Stage) (ts : List Target)
      → Distinct (names_of ts)
      → All (λ t. Distinct (Target.seeds t)) ts
      → Distinct (stage_keys name (instances stage ts))
  unfolding instances
  instances-Distinct stage ts d s = elim (Bool-cases (is_given stage.fan_out)) [
    | inl f ↦ rw (f, instances) (fanned-Distinct ts d s)
    | inr f ↦
        rw (f, instances)
          (elim (Bool-cases stage.per_target) [
            | inl p ↦ rw p (single-Distinct ts d)
            | inr p ↦ rw p (Memᴰ.not-nil, tt)
          ])
  ]

-- The keys of different stages differ.
module _ (stages : Stages) (ts : List Target) (d : Distinct (names_of ts))
    (s : All (λ t. Distinct (Target.seeds t)) ts) where
  planned-name :
      (names : List String) (k : Key) → Memᴰ k (planned_keys stages ts names) → Memᴰ k.0 names
  planned-name [] k m = absurd (Memᴰ.not-nil m)
  planned-name (n ∷ ns) k m = elim (Option-cases (lookup stages n)) [
    | inl missing ↦ Memᴰ.tail (planned-name ns k (rw (missing, planned_keys) at m))
    | inr (stage, found) ↦
        ⊎_elim
          (λ h.
            let (o, seed, mi, e) = mem-stage_keys n (instances stage ts) k h in
            Memᴰ.head (ap (λ (k : Key). k.0) e))
          (λ r. Memᴰ.tail (planned-name ns k r))
          ((Memᴰ-append k (stage_keys n (instances stage ts)) (planned_keys stages ts ns)).0
            (rw (found, planned_keys) at m))
  ]

  pub planned_keys-Distinct :
      (names : List String) → Distinct names → Distinct (planned_keys stages ts names)
  planned_keys-Distinct [] once = tt
  planned_keys-Distinct (n ∷ ns) once = elim (Option-cases (lookup stages n)) [
    | inl missing ↦ rw (missing, planned_keys) (planned_keys-Distinct ns once.1)
    | inr (stage, found) ↦
        rw (found, planned_keys)
          (Distinct-append _ _ (instances-Distinct n stage ts d s) (planned_keys-Distinct ns once.1)
            (λ k m r.
              let (o, seed, mi, e) = mem-stage_keys n (instances stage ts) k m in
              once.0 (subst (λ x. Memᴰ x ns) (ap (λ (k : Key). k.0) e) (planned-name ns k r))))
  ]

-- Every instance is of a target of the list, or of the whole design.
abbrev AreNamed : List (Option Target × ℕ) → Type 0
AreNamed is = All (λ i. IsNamed i.0) is

AreNamed-append :
    (xs ys : List (Option Target × ℕ)) → AreNamed xs → AreNamed ys → AreNamed (xs ++ ys)
AreNamed-append [] ys hx hy = hy
AreNamed-append (x ∷ xs) ys hx hy = (hx.0, AreNamed-append xs ys hx.1 hy)

per_seed-AreNamed : (t : Target) (seeds : List ℕ) → IsNamed (some t) → AreNamed (per_seed t seeds)
per_seed-AreNamed t [] h = tt
per_seed-AreNamed t (s ∷ ss) h = (h, per_seed-AreNamed t ss h)

fanned-AreNamed : (ts : List Target) → All (λ t. IsNamed (some t)) ts → AreNamed (fanned ts)
fanned-AreNamed [] h = tt
fanned-AreNamed (t ∷ ts) h =
    AreNamed-append _ _ (per_seed-AreNamed t t.seeds h.0) (fanned-AreNamed ts h.1)

single-AreNamed :
    (ts : List Target) → All (λ t. IsNamed (some t)) ts → AreNamed (map (λ t. (some t, 0)) ts)
single-AreNamed [] h = tt
single-AreNamed (t ∷ ts) h = (h.0, single-AreNamed ts h.1)

pub instances-AreNamed :
    (stage : Stage) (ts : List Target)
    → All (λ t. IsNamed (some t)) ts
    → All (λ i. IsNamed i.0) (instances stage ts)
unfolding instances
instances-AreNamed stage ts h = elim (Bool-cases (is_given stage.fan_out)) [
  | inl f ↦ rw (f, instances) (fanned-AreNamed ts h)
  | inr f ↦
      rw (f, instances)
        (elim (Bool-cases stage.per_target) [
          | inl p ↦ rw p (single-AreNamed ts h)
          | inr p ↦ rw p (tt, tt)
        ])
]
