-- ===== src/Pipeline/Validity.antt =====
-- `_semantic_issues` reports nothing exactly on a consistent pipeline.
use rtlfarm.Prelude.{
  String, ◌≡◌, refl, ◌↔◌, Bool, true, false, List, [], ◌∷◌, ◌++◌, Memᴰ, All, keys, ok, nat_eq,
  string_eq, arith,
}
use rtlfarm.Models.{role_eq, Pipeline}
use rtlfarm.Pipeline.{Stages}
use rtlfarm.Pipeline.Graph.{Cycle}
use rtlfarm.Pipeline.Cycles.{has_cycle_decides}
use rtlfarm.Pipeline.Scan.{report-nil, append-nil, trans_iff, not-contains_iff}
use rtlfarm.Pipeline.Rules.{
  Issues, forms_a_cycle, report, enumerate, target_issue, stage_issues, cache_issues,
  semantic_issues,
}
use rtlfarm.Pipeline.Sound.{IsSoundStage, IsConsistent, targets_iff, stage_iff}

stages_iff :
    (p : Pipeline) (items : Stages)
    → (stage_issues p items ≡ []) ↔ All (λ item. IsSoundStage p item.0 item.1) items
unfolding stage_issues
stages_iff p [] = (λ _. tt, λ _. refl)
stages_iff p ((name, stage) ∷ items) = append-nil _ _ (stage_iff p name stage) (stages_iff p items)

cache_iff :
    (stages : Stages) (cache : List (String × Bool))
    → (cache_issues stages cache ≡ []) ↔ All (λ item. Memᴰ item.0 (keys stages)) cache
unfolding cache_issues
cache_iff stages [] = (λ _. tt, λ _. refl)
cache_iff stages ((name, on) ∷ cache) =
    append-nil _ _ (report-nil _ _ _ (not-contains_iff (keys stages) name)) (cache_iff stages cache)

all_issues : Pipeline → Bool → Issues
all_issues p cyclic =
    enumerate (target_issue p.stages) p.targets
    ++ (stage_issues p p.stages
        ++ (report cyclic "/stages" forms_a_cycle ++ cache_issues p.stages p.policies.cache))

all_iff' :
    (p : Pipeline) (cyclic : Bool)
    → (cyclic ≡ true) ↔ Cycle p.stages
    → (all_issues p cyclic ≡ []) ↔ IsConsistent p
unfolding all_issues
all_iff' p cyclic h =
    let acyclic : (cyclic ≡ false) ↔ (¬ Cycle p.stages) = ground arith in
    trans_iff
      (append-nil _ _ (targets_iff p.stages p.targets) (
        append-nil _ _ (stages_iff p p.stages)
          (append-nil _ _ (report-nil _ _ _ acyclic) (cache_iff p.stages p.policies.cache))))
      (
        λ (t, (s, (a, c))). record {
          names = t.0;
          targets = t.1;
          stages = s;
          acyclic = a;
          cache = c;
        },
        λ i. ((i.names, i.targets), (i.stages, (i.acyclic, i.cache))),
      )

-- For every pipeline `_semantic_issues` returns a list, and the list is empty exactly when the
-- pipeline is consistent: target names and each target's seeds are distinct, no target sets a
-- reserved plusarg, a simulate stage finds a testbench in every target, every stage is of a known
-- kind, of one shape, with targets where it needs them, with declared roles, known artifact kinds and
-- known upstream stages listed once, coverage is not on iverilog, no stage depends on itself, and
-- the cache policy names stages.
pub semantic_issues_complete :
    (p : Pipeline)
    → (issues : Issues) × (semantic_issues p ≡ ok issues) × ((issues ≡ []) ↔ IsConsistent p)
unfolding semantic_issues
semantic_issues_complete p =
    let (cyclic, e, h) = has_cycle_decides p.stages in
    (all_issues p cyclic, rw e (unfold all_issues in refl), all_iff' p cyclic h)
