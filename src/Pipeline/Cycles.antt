-- ===== src/Pipeline/Cycles.antt =====
-- The search for a cycle is right: it ends, and it answers true exactly on a cyclic graph.
use mathlib.Core.List.Memᴰ
use rtlfarm.Prelude.{
  String, ◌≡◌, refl, sym, subst, ◌∙◌, inl, inr, ◌↔◌, Bool, true, false, List, [], ◌∷◌, Memᴰ,
  All-Memᴰ, lookup, some, ok, string_eq,
}
use rtlfarm.Models.{Stage}
use rtlfarm.Pipeline.{Stages, has_cycle}
use rtlfarm.Pipeline.Graph.{Edge, Reaches, one, more, Cycle, Covered, IsTopo, keys-lookup}
use rtlfarm.Pipeline.Visit.{Decides, has_cycle-Decides}

module _ (stages : Stages) where
  -- A name with a dependency is a stage.
  abbrev IsStage : String → Type 0
  IsStage name = (stage : Stage) × (lookup stages name ≡ some stage)

  Reaches-IsStage : {a b : String} → Reaches stages a b → IsStage a
  Reaches-IsStage (one e) = (e.stage, e.found)
  Reaches-IsStage (more r e) = Reaches-IsStage r

  Covered-mem : (done : List String) (b : String) → Covered stages done b → IsStage b → Memᴰ b done
  Covered-mem done b (inl m) s = m
  Covered-mem done b (inr e) s = absurd (let clash = sym e ∙ s.1 in cc clash)

  -- What a done stage depends on is done before it.
  edge-mem :
      (done : List String) {a b : String}
      → IsTopo stages done
      → Memᴰ a done
      → Edge stages a b
      → IsStage b
      → Memᴰ b done
  edge-mem [] topo m e s = absurd (Memᴰ.not-nil m)
  edge-mem (n ∷ done) {b = b} topo (Memᴰ.head same) e s = Memᴰ.tail (
      Covered-mem done b
        (All-Memᴰ _ _ (topo.0 e.stage (subst (λ k. lookup stages k ≡ some e.stage) same e.found))
          e.listed)
        s)
  edge-mem (n ∷ done) topo (Memᴰ.tail m) e s = Memᴰ.tail (edge-mem done topo.1 m e s)

  reach-mem :
      (n : String) (done : List String) {b : String}
      → IsTopo stages (n ∷ done)
      → Reaches stages n b
      → IsStage b
      → Memᴰ b done
  reach-mem n done {b} topo (one e) s =
      Covered-mem done b (All-Memᴰ _ _ (topo.0 e.stage e.found) e.listed) s
  reach-mem n done topo (more r e) s =
      edge-mem done topo.1 (reach-mem n done topo r (e.stage, e.found)) e s

  -- No stage of an ordered list reaches itself.
  pub IsTopo-acyclic :
      (done : List String) (a : String) → IsTopo stages done → Memᴰ a done → ¬ Reaches stages a a
  IsTopo-acyclic [] a topo m r = Memᴰ.not-nil m
  IsTopo-acyclic (n ∷ done) a topo (Memᴰ.head same) r =
      IsTopo-acyclic done a topo.1
        (reach-mem n done topo (subst (λ k. Reaches stages k a) same r) (Reaches-IsStage r)) r
  IsTopo-acyclic (n ∷ done) a topo (Memᴰ.tail m) r = IsTopo-acyclic done a topo.1 m r

-- `_has_cycle` returns a truth value for every stage map, and it is true exactly when some stage
-- depends on itself through a chain of one dependency or more.
pub has_cycle_decides :
    (stages : Stages) → (b : Bool) × (has_cycle stages ≡ ok b) × ((b ≡ true) ↔ Cycle stages)
has_cycle_decides stages = go (has_cycle-Decides stages)
  where
    go :
        (b : Bool) × (has_cycle stages ≡ ok b) × Decides stages b
        → (b : Bool) × (has_cycle stages ≡ ok b) × ((b ≡ true) ↔ Cycle stages)
    go (true, e, cycle) = (true, e, (λ _. cycle, λ _. refl))
    go (false, e, (done, topo, full)) = (
      false,
      e,
      (
        λ h. absurd (cc h),
        λ (name, r).
            let (stage, found) = Reaches-IsStage stages r in
            absurd (
              IsTopo-acyclic stages done name topo (full name (keys-lookup stages name stage found))
                r),
      ),
    )
