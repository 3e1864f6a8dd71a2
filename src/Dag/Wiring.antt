-- ===== src/Dag/Wiring.antt =====
-- What `_dependencies` returns: a list without repetition of what the upstream stages contribute.
use mathlib.Core.List.Memᴰ
use mathlib.Core.Logic.{⊎_elim}
use rtlfarm.Prelude.{
  String, ◌≡◌, refl, sym, ap, subst, ◌∙◌, ◌≢◌, ◌⊎◌, inl, inr, ◌↔◌, true, false, List, [], ◌∷◌, ◌++◌,
  Memᴰ, Memᴰ-cons, Memᴰ-append, Distinct, All, contains, contains_iff, lookup, Option, none, some,
  ok, ◌==◌, Bool-cases, some_inj, string_eq, arith,
}
use rtlfarm.Models.{Target, Stage}
use rtlfarm.Dag.{TaskSpec}
use rtlfarm.Pipeline.Rules.{is_empty}
use rtlfarm.Dag.Tasks.{unique, ids, ids_of_target, upstream_ids, ByStage, gather, dependencies}

pub mem-unique :
    (seen xs : List String) (x : String) → Memᴰ x (unique seen xs) ↔ (Memᴰ x xs × (¬ Memᴰ x seen))
unfolding unique
mem-unique seen [] x = (λ m. absurd (Memᴰ.not-nil m), λ h. h.0)
mem-unique seen (y ∷ ys) x = elim (Bool-cases (contains seen y)) [
  | inl old ↦
      rw (old, unique)
        (let rest = mem-unique seen ys x in
          let m = (contains_iff seen y).0 old in
          (
            λ h. (Memᴰ.tail (rest.0 h).0, (rest.0 h).1),
            λ h. rest.1 (
              ⊎_elim (λ e. absurd (h.1 (subst (λ k. Memᴰ k seen) (sym e) m))) (λ t. t)
                  (Memᴰ.cases_cons h.0),
              h.1,
            ),
          ))
  | inr new ↦
      rw (new, unique)
        (ground (
          arith,
          mem-unique (y ∷ seen) ys x,
          Memᴰ-cons x y seen,
          Memᴰ-cons x y ys,
          Memᴰ-cons x y (unique (y ∷ seen) ys),
          contains_iff seen y,
          string_eq.beq_iff x y,
        ))
]

Distinct-unique : (seen xs : List String) → Distinct (unique seen xs)
unfolding unique
Distinct-unique seen [] = tt
Distinct-unique seen (y ∷ ys) = elim (Bool-cases (contains seen y)) [
  | inl old ↦ rw (old, unique) (Distinct-unique seen ys)
  | inr new ↦
      rw (new, unique)
        (λ m. ((mem-unique (y ∷ seen) ys y).0 m).1 (Memᴰ.head refl), Distinct-unique (y ∷ seen) ys)
]

mem-ids_of_target :
    (name id : String) (ts : List TaskSpec)
    → Memᴰ id (ids_of_target name ts)
    → (t : TaskSpec) × Memᴰ t ts × (t.task_id ≡ id) × (t.target ≡ name)
mem-ids_of_target name id [] m = absurd (Memᴰ.not-nil m)
mem-ids_of_target name id (t ∷ ts) m = elim (Bool-cases (t.target == name)) [
  | inl same ↦
      ⊎_elim (λ e. (t, Memᴰ.head refl, sym e, (string_eq.beq_iff t.target name).0 same))
        (λ r. let (u, mu, e, f) = mem-ids_of_target name id ts r in (u, Memᴰ.tail mu, e, f))
        (Memᴰ.cases_cons (rw same at m))
  | inr other ↦
      let (u, mu, e, f) = mem-ids_of_target name id ts (rw other at m) in (u, Memᴰ.tail mu, e, f)
]

ids_of_target-mem :
    (name : String) (t : TaskSpec) (ts : List TaskSpec)
    → Memᴰ t ts
    → t.target ≡ name
    → Memᴰ t.task_id (ids_of_target name ts)
ids_of_target-mem name t [] m e = absurd (Memᴰ.not-nil m)
ids_of_target-mem name t (u ∷ ts) (Memᴰ.head same) e =
    let named = (string_eq.beq_iff u.target name).1 (ap (λ t. TaskSpec.target t) (sym same) ∙ e) in
    rw named (Memᴰ.head (ap (λ t. TaskSpec.task_id t) same))
ids_of_target-mem name t (u ∷ ts) (Memᴰ.tail m) e =
    let rest = ids_of_target-mem name t ts m e in
    elim (Bool-cases (u.target == name)) [
      | inl same ↦ rw same (Memᴰ.tail rest)
      | inr other ↦ rw other rest
    ]

-- What the upstream stage's tasks must be to count: for the same target, or any if none of them is
-- for that target. A whole-design task takes them all.
abbrev pub Wanted : Option Target → List TaskSpec → TaskSpec → Type 0
Wanted none candidates t = Unit
Wanted (some target) candidates t =
    (t.target ≡ target.name) ⊎ ((u : TaskSpec) → Memᴰ u candidates → u.target ≢ target.name)

abbrev pub Contributed : Option Target → List TaskSpec → String → Type 0
Contributed target candidates id =
    (t : TaskSpec) × Memᴰ t candidates × (t.task_id ≡ id) × Wanted target candidates t

pub is_empty-nil {ℓ} : {A : Type ℓ} (xs : List A) → is_empty xs ≡ true → xs ≡ []
is_empty-nil [] h = refl
is_empty-nil (x ∷ xs) h = cc

is_empty-mem {ℓ} : {A : Type ℓ} (a : A) (xs : List A) → Memᴰ a xs → is_empty xs ≡ true → ⊥
is_empty-mem a [] m h = Memᴰ.not-nil m
is_empty-mem a (x ∷ xs) m h = cc

nonempty-mem {ℓ} : {A : Type ℓ} (xs : List A) → is_empty xs ≡ false → (a : A) × Memᴰ a xs
nonempty-mem [] h = absurd (cc h)
nonempty-mem (x ∷ xs) h = (x, Memᴰ.head refl)

upstream_ids_iff :
    (target : Option Target) (candidates : List TaskSpec) (id : String)
    → Memᴰ id (upstream_ids target candidates) ↔ Contributed target candidates id
unfolding upstream_ids
upstream_ids_iff none candidates id = (
  λ m. let (t, mt, e) = Memᴰ.of_map (λ t. TaskSpec.task_id t) candidates m in (t, mt, e, tt),
  λ (t, m, e, _). subst (λ k. Memᴰ k (ids candidates)) e (Memᴰ.map (λ t. TaskSpec.task_id t) m),
)
upstream_ids_iff (some target) candidates id =
    elim (Bool-cases (is_empty (ids_of_target target.name candidates))) [
      | inl empty ↦ rw empty (
        λ m.
            let (t, mt, e) = Memᴰ.of_map (λ t. TaskSpec.task_id t) candidates m in
            (
              t,
              mt,
              e,
              inr λ u mu named.
                  is_empty-mem _ _ (ids_of_target-mem target.name u candidates mu named) empty,
            ),
        λ (t, m, e, _).
            subst (λ k. Memᴰ k (ids candidates)) e (Memᴰ.map (λ t. TaskSpec.task_id t) m),
      )
      | inr some_own ↦ rw some_own (
        λ m.
            let (t, mt, e, named) = mem-ids_of_target target.name id candidates m in
            (t, mt, e, inl named),
        λ (t, m, e, w).
            subst (λ k. Memᴰ k (ids_of_target target.name candidates)) e
              (ids_of_target-mem target.name t candidates m
                (⊎_elim (λ named. named) (λ no_own. absurd (clash no_own some_own)) w)),
      )
    ]
  where
    clash :
        ((u : TaskSpec) → Memᴰ u candidates → u.target ≢ target.name)
        → is_empty (ids_of_target target.name candidates) ≡ false
        → ⊥
    clash no_own some_own =
        let (x, m) = nonempty-mem (ids_of_target target.name candidates) some_own in
        let (u, mu, e, named) = mem-ids_of_target target.name x candidates m in no_own u mu named

-- An upstream stage of the list contributes the id.
abbrev pub FromOne : Option Target → ByStage → List String → String → Type 0
FromOne target by_stage ups id =
    (up : String) × (candidates : List TaskSpec) × Memᴰ up ups
    × (lookup by_stage up ≡ some candidates)
    × Contributed target candidates id

abbrev pub AllRun : ByStage → List String → Type 0
AllRun by_stage ups =
    All (λ up. (candidates : List TaskSpec) × (lookup by_stage up ≡ some candidates)) ups

FromOne-cons :
    (target : Option Target) (by_stage : ByStage) (up : String) (ups : List String) (id : String)
    (candidates : List TaskSpec)
    → lookup by_stage up ≡ some candidates
    → FromOne target by_stage (up ∷ ups) id
      ↔ (Contributed target candidates id ⊎ FromOne target by_stage ups id)
FromOne-cons target by_stage up ups id candidates found = (
  λ (u, cs, m, f, c).
      ⊎_elim
        (λ e. inl (
          subst (λ l. Contributed target l id) (some_inj (sym f ∙ ap (lookup by_stage) e ∙ found))
            c))
        (λ t. inr (u, cs, t, f, c)) (Memᴰ.cases_cons m),
  ⊎_elim (λ c. (up, candidates, Memᴰ.head refl, found, c))
      (λ (u, cs, m, f, c). (u, cs, Memᴰ.tail m, f, c)),
)

gather_lem :
    (target : Option Target) (by_stage : ByStage) (ups : List String)
    → AllRun by_stage ups
    → (xs : List String) × (gather target by_stage ups ≡ ok xs)
      × ((id : String) → Memᴰ id xs ↔ FromOne target by_stage ups id)
unfolding gather
gather_lem target by_stage [] run =
    ([], refl, λ id. (λ m. absurd (Memᴰ.not-nil m), λ (u, cs, m, _, _). absurd (Memᴰ.not-nil m)))
gather_lem target by_stage (up ∷ ups) ((candidates, found), run) =
    let (xs, e, same) = gather_lem target by_stage ups run in
    (
      upstream_ids target candidates ++ xs,
      rw (found, gather) (rw e),
      λ id.
          let here = upstream_ids_iff target candidates id in
          let rest = same id in
          let join = FromOne-cons target by_stage up ups id candidates found in
          let both = Memᴰ-append id (upstream_ids target candidates) xs in
          (
            λ m. join.1 (⊎_elim (λ a. inl (here.0 a)) (λ b. inr (rest.0 b)) (both.0 m)),
            λ f. both.1 (⊎_elim (λ a. inl (here.1 a)) (λ b. inr (rest.1 b)) (join.0 f)),
          ),
    )

-- Where every upstream stage has run, `_dependencies` returns a list without repetition that holds
-- exactly the ids that the upstream stages contribute.
pub dependencies_lem :
    (stage : Stage) (target : Option Target) (by_stage : ByStage)
    → AllRun by_stage stage.depends_on
    → (deps : List String) × (dependencies stage target by_stage ≡ ok deps)
      × Distinct deps
      × ((id : String) → Memᴰ id deps ↔ FromOne target by_stage stage.depends_on id)
unfolding dependencies
dependencies_lem stage target by_stage run =
    let (xs, e, same) = gather_lem target by_stage stage.depends_on run in
    (
      unique [] xs,
      rw e,
      Distinct-unique [] xs,
      λ id.
          let u = mem-unique [] xs id in
          (λ m. (same id).0 (u.0 m).0, λ f. u.1 ((same id).1 f, Memᴰ.not-nil)),
    )
