-- ===== src/Dag/Valid.antt =====
-- What a valid manifest gives each step of the expansion.
use rtlfarm.Prelude.{
  String, ◌≡◌, sym, ap, subst, inl, inr, true, List, [], ◌∷◌, Memᴰ, Distinct, All, All-Memᴰ,
  All_of_Memᴰ, all_iff, keys, lookup, contains, contains_iff, Bool-cases, Option-cases, some, ◌==◌,
  some_inj, string_eq, arith,
}
use rtlfarm.Ids.{is_name, stage_kinds}
use rtlfarm.Models.{Target, Stage, Pipeline, is_target, is_shaped, IsParsed}
use rtlfarm.Manifest.{Manifest}
use rtlfarm.Pipeline.{Stages}
use rtlfarm.Pipeline.Graph.{lookup_of_key}
use rtlfarm.Pipeline.Sound.{IsConsistent}
use rtlfarm.Dag.{Selection}
use rtlfarm.Dag.Select.{kept, target_names}
use rtlfarm.Dag.Chosen.{chosen_seeds-Distinct, mem-kept, kept-Distinct}
use rtlfarm.Dag.Building.{IsNamed}

-- A manifest whose pipeline the validator accepted.
pub record IsValid (m : Manifest) : Type 0 where
  pub parsed : IsParsed m.pipeline
  pub consistent : IsConsistent m.pipeline

mem-value :
    (stages : Stages) (name : String) (stage : Stage)
    → lookup stages name ≡ some stage
    → Memᴰ (name, stage) stages
mem-value [] name stage h = cc
mem-value ((n, s) ∷ stages) name stage h = elim (Bool-cases (n == name)) [
  | inl same ↦
      Memᴰ.head (λ i. (sym ((string_eq.beq_iff n name).0 same) i, some_inj (sym (rw same at h)) i))
  | inr other ↦ Memᴰ.tail (mem-value stages name stage (rw other at h))
]

module _ (p : Pipeline) (parsed : IsParsed p) (good : IsConsistent p) where
  pub upstream_known :
      (name : String) (stage : Stage)
      → lookup p.stages name ≡ some stage
      → All (λ dep. Memᴰ dep (keys p.stages)) stage.depends_on
  upstream_known name stage e =
      (All-Memᴰ _ p.stages good.stages (mem-value p.stages name stage e)).upstream

  pub kind_ok : (n : String) → Memᴰ n (keys p.stages) → contains stage_kinds n ≡ true
  kind_ok n m = elim (Option-cases (lookup p.stages n)) [
    | inl missing ↦ absurd (lookup_of_key p.stages n m missing)
    | inr (stage, e) ↦
        (contains_iff stage_kinds n).1
          (All-Memᴰ _ p.stages good.stages (mem-value p.stages n stage e)).kind
  ]

  target_ok : (t : Target) → Memᴰ t p.targets → is_target t ≡ true
  unfolding is_shaped
  target_ok t m =
      All-Memᴰ _ p.targets ((all_iff is_target p.targets).0 (let s = parsed.shaped in ground arith))
        m

  target_named : (t : Target) → Memᴰ t p.targets → is_name t.name ≡ true
  unfolding is_target
  target_named t m = let h = target_ok t m in ground arith

  module _ (selection : Selection) where
    abbrev pub chosen_targets : List Target
    chosen_targets = kept selection p.targets

    pub chosen-IsNamed : All (λ t. IsNamed (some t)) chosen_targets
    chosen-IsNamed = All_of_Memᴰ _ chosen_targets λ x m.
        let (t, mt, k, e) = (mem-kept selection p.targets x).0 m in
        subst (λ n. is_name n ≡ true) (sym (ap (λ t. Target.name t) e)) (target_named t mt)

    pub chosen-seeds : All (λ t. Distinct (Target.seeds t)) chosen_targets
    chosen-seeds = All_of_Memᴰ _ chosen_targets λ x m.
        let (t, mt, k, e) = (mem-kept selection p.targets x).0 m in
        subst Distinct (sym (ap (λ t. Target.seeds t) e))
          (chosen_seeds-Distinct selection t.seeds (All-Memᴰ _ p.targets good.targets mt).seeds)

    pub chosen-names : Distinct (target_names chosen_targets)
    chosen-names = kept-Distinct selection p.targets good.names
