-- ===== src/Pipeline/Sound.antt =====
-- What a pipeline without issues is, target by target and stage by stage.
use rtlfarm.Prelude.{
  ℕ, String, ◌≡◌, refl, ◌≢◌, ◌↔◌, true, false, not, ◌&&◌, List, [], ◌∷◌, map, Memᴰ, Distinct, All,
  contains, contains_iff, keys, none, ◌==◌, Eq, nat_eq, string_eq, arith,
}
use rtlfarm.Ids.{stage_kinds}
use rtlfarm.Models.{role_eq, iverilog, artifact_kinds, Target, Stage, Pipeline}
use rtlfarm.Pipeline.{Stages}
use rtlfarm.Pipeline.Graph.{Cycle}
use rtlfarm.Pipeline.Scan.{
  report_iff, report-nil, append-nil, trans_iff, scan_iff, AllAfter-both, AllAfter-All, IsNew,
  AllAfter-Distinct, contains-IsNew, not-contains_iff, AllAfter-map,
}
use rtlfarm.Pipeline.Rules.{
  Issues, report, enumerate, is_empty, is_given, needs_tb, reserved_plusargs, plusarg_issues,
  seed_issue, target_issue, role_issue, kind_issue, dep_issue, is_iverilog, stage_issue,
}

-- What the rules demand of one target.
pub record IsSoundTarget (stages : Stages) (t : Target) : Type 0 where
  pub free : All (λ key. ¬ Memᴰ key (keys t.plusargs)) reserved_plusargs
  pub seeds : Distinct t.seeds
  pub bench : Memᴰ "simulate" (keys stages) → t.tb ≢ []

-- What the rules demand of one stage.
pub record IsSoundStage (p : Pipeline) (name : String) (stage : Stage) : Type 0 where
  pub kind : Memᴰ name stage_kinds
  pub one_shape : stage.per_target ≡ true → stage.fan_out ≡ none
  pub fan_out_targets : stage.fan_out ≢ none → p.targets ≢ []
  pub per_target_targets : stage.per_target ≡ true → p.targets ≢ []
  pub coverage_tool : name ≡ "coverage" → stage.tool ≢ iverilog
  pub roles : All (λ role. Memᴰ role (keys p.design.files)) stage.consumes
  pub artifacts : All (λ kind. Memᴰ kind artifact_kinds) stage.consumes_artifacts
  pub upstream : All (λ dep. Memᴰ dep (keys p.stages)) stage.depends_on
  pub upstream_once : Distinct stage.depends_on

-- What the rules demand of a pipeline.
pub record IsConsistent (p : Pipeline) : Type 0 where
  pub names : Distinct (map (λ t. Target.name t) p.targets)
  pub targets : All (IsSoundTarget p.stages) p.targets
  pub stages : All (λ item. IsSoundStage p item.0 item.1) p.stages
  pub acyclic : ¬ Cycle p.stages
  pub cache : All (λ item. Memᴰ item.0 (keys p.stages)) p.policies.cache

plusarg_iff :
    (i : ℕ) (t : Target) (ks : List String)
    → (plusarg_issues i t ks ≡ []) ↔ All (λ key. ¬ Memᴰ key (keys t.plusargs)) ks
unfolding plusarg_issues
plusarg_iff i t [] = (λ _. tt, λ _. refl)
plusarg_iff i t (k ∷ ks) =
    append-nil _ _ (report-nil _ _ _ (contains-IsNew (keys t.plusargs) k)) (plusarg_iff i t ks)

bench_iff :
    (stages : Stages) (t : Target)
    → (needs_tb stages && is_empty t.tb ≡ false) ↔ (Memᴰ "simulate" (keys stages) → t.tb ≢ [])
bench_iff stages t = ground (arith, contains_iff (keys stages) "simulate")

seeds_iff : (i : ℕ) (seeds : List ℕ) → (enumerate (seed_issue i) seeds ≡ []) ↔ Distinct seeds
unfolding seed_issue
seeds_iff i seeds =
    trans_iff
      (scan_iff (seed_issue i) IsNew
        (λ j before seed. report-nil _ _ _ (contains-IsNew before seed)) 0 [] seeds)
      (AllAfter-Distinct seeds)

target_iff :
    (stages : Stages) (i : ℕ) (before : List Target) (t : Target)
    → (target_issue stages i before t ≡ [])
      ↔ (IsNew (map (λ t. Target.name t) before) t.name × IsSoundTarget stages t)
unfolding target_issue
target_iff stages i before t =
    trans_iff
      (append-nil _ _ (report-nil _ _ _ (contains-IsNew (map (λ t. Target.name t) before) t.name)) (
        append-nil _ _ (plusarg_iff i t reserved_plusargs)
          (append-nil _ _ (seeds_iff i t.seeds) (report-nil _ _ _ (bench_iff stages t)))))
      (
        λ h. (h.0, record { free = h.1.0; seeds = h.1.1.0; bench = h.1.1.1 }),
        λ h. (h.0, (h.1.free, (h.1.seeds, h.1.bench))),
      )

pub targets_iff :
    (stages : Stages) (ts : List Target)
    → (enumerate (target_issue stages) ts ≡ [])
      ↔ (Distinct (map (λ t. Target.name t) ts) × All (IsSoundTarget stages) ts)
targets_iff stages ts =
    trans_iff
      (trans_iff (scan_iff (target_issue stages) _ (target_iff stages) 0 [] ts) (
        AllAfter-both (λ b t. IsNew (map (λ t. Target.name t) b) (Target.name t))
          (IsSoundTarget stages) [] ts))
      (let names = trans_iff (AllAfter-map (λ t. Target.name t) [] ts) (AllAfter-Distinct _) in
        (λ h. (names.0 h.0, h.1), λ h. (names.1 h.0, h.1)))

dep_iff :
    (base : String) (stages : Stages) (j : ℕ) (before : List String) (dep : String)
    → (dep_issue base stages j before dep ≡ []) ↔ (IsNew before dep × Memᴰ dep (keys stages))
unfolding dep_issue report
dep_iff base stages j before dep =
    ground (arith, contains_iff before dep, contains_iff (keys stages) dep)

deps_iff :
    (base : String) (stages : Stages) (deps : List String)
    → (enumerate (dep_issue base stages) deps ≡ [])
      ↔ (Distinct deps × All (λ dep. Memᴰ dep (keys stages)) deps)
deps_iff base stages deps =
    trans_iff
      (trans_iff (scan_iff (dep_issue base stages) _ (dep_iff base stages) 0 [] deps)
        (AllAfter-both IsNew (λ dep. Memᴰ dep (keys stages)) [] deps))
      (let once = AllAfter-Distinct deps in (λ h. (once.0 h.0, h.1), λ h. (once.1 h.0, h.1)))

-- A loop that reports the items outside a list.
outside_iff {ℓ} :
    {A : Type ℓ} ⦃e : Eq A⦄ (allowed : List A) (f : ℕ → List A → A → Issues) (xs : List A)
    → ((j : ℕ) (before : List A) (x : A) → (f j before x ≡ []) ↔ (not (contains allowed x) ≡ false))
    → (enumerate f xs ≡ []) ↔ All (λ x. Memᴰ x allowed) xs
outside_iff allowed f xs h =
    trans_iff
      (scan_iff f (λ _ x. Memᴰ x allowed)
        (λ j before x. trans_iff (h j before x) (not-contains_iff allowed x)) 0 [] xs)
      (AllAfter-All (λ x. Memᴰ x allowed) [] xs)

module _ (p : Pipeline) (name : String) (stage : Stage) where
  kind_iff : (not (contains stage_kinds name) ≡ false) ↔ Memᴰ name stage_kinds
  kind_iff = not-contains_iff stage_kinds name

  shape_iff :
      (stage.per_target && is_given stage.fan_out ≡ false)
      ↔ (stage.per_target ≡ true → stage.fan_out ≡ none)
  shape_iff = ground arith

  fan_out_iff :
      (is_given stage.fan_out && is_empty p.targets ≡ false)
      ↔ (stage.fan_out ≢ none → p.targets ≢ [])
  fan_out_iff = ground arith

  per_target_iff :
      (stage.per_target && is_empty p.targets ≡ false) ↔ (stage.per_target ≡ true → p.targets ≢ [])
  per_target_iff = ground arith

  coverage_iff :
      (name == "coverage" && is_iverilog stage.tool ≡ false)
      ↔ (name ≡ "coverage" → stage.tool ≢ iverilog)
  coverage_iff = ground (arith, string_eq.beq_iff name "coverage")

  roles_iff :
      (base : String)
      → (enumerate (role_issue base (keys p.design.files)) stage.consumes ≡ [])
        ↔ All (λ role. Memᴰ role (keys p.design.files)) stage.consumes
  unfolding role_issue
  roles_iff base =
      outside_iff (keys p.design.files) _ stage.consumes (λ j before x. report_iff _ _ _)

  artifacts_iff :
      (base : String)
      → (enumerate (kind_issue base) stage.consumes_artifacts ≡ [])
        ↔ All (λ kind. Memᴰ kind artifact_kinds) stage.consumes_artifacts
  unfolding kind_issue
  artifacts_iff base =
      outside_iff artifact_kinds _ stage.consumes_artifacts (λ j before x. report_iff _ _ _)

  pub stage_iff : (stage_issue p (name, stage) ≡ []) ↔ IsSoundStage p name stage
  unfolding stage_issue
  stage_iff =
      trans_iff
        (append-nil _ _ (report-nil _ _ _ kind_iff) (
          append-nil _ _ (report-nil _ _ _ shape_iff) (
            append-nil _ _ (report-nil _ _ _ fan_out_iff) (
              append-nil _ _ (report-nil _ _ _ per_target_iff) (
                append-nil _ _ (report-nil _ _ _ coverage_iff) (
                  append-nil _ _ (roles_iff _)
                    (append-nil _ _ (artifacts_iff _) (deps_iff _ p.stages stage.depends_on))))))))
        (
          λ (k, (s, (f, (t, (c, (r, (a, (once, known)))))))). record {
            kind = k;
            one_shape = s;
            fan_out_targets = f;
            per_target_targets = t;
            coverage_tool = c;
            roles = r;
            artifacts = a;
            upstream = known;
            upstream_once = once;
          },
          λ h. (
            h.kind,
            (
              h.one_shape,
              (
                h.fan_out_targets,
                (
                  h.per_target_targets,
                  (h.coverage_tool, (h.roles, (h.artifacts, (h.upstream_once, h.upstream)))),
                ),
              ),
            ),
          ),
        )
