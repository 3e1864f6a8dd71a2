-- ===== src/Submit/Manifested.antt =====
-- What a manifest that `_manifest_from` accepts has shown.
use mathlib.Core.List.Memᴰ
use mathlib.Core.Logic.{⊎_elim}
use rtlfarm.Prelude.{
  ℕ, suc, String, ◌≡◌, refl, subst, ◌↔◌, inl, inr, Bool, true, false, List, [], ◌∷◌, ◌++◌, map,
  Memᴰ, Distinct, All-Memᴰ, lookup, insert, lookup-insert, some, some_inj, sym, ◌∙◌, ◌⊎◌, contains,
  contains_iff, Bool-cases, ◌==◌, string_eq, arith,
}
use rtlfarm.Models.{Role, tb, data', Target, stage_timeouts}
use rtlfarm.Config.Timing.{IsTimed, validate_timing-IsTimed}
use rtlfarm.Config.{Floats, TimingConfig, Rule, validate_timing}
use rtlfarm.Manifest.{ManifestEntry, Manifest}
use rtlfarm.Pipeline.Parse.{Parsed, parsed, pipeline_error}
use rtlfarm.Sorting.{sorted, mem-sorted, sorted-Distinct}
use rtlfarm.Pack.{entry_leq}
use rtlfarm.Pack.Paths.{PackIssue}
use rtlfarm.Pack.Targets.{IsPackedTarget, target_issues_iff}
use rtlfarm.Submit.Checks.{
  ManifestIssue, target_file, path_issues, roles_from, design_issue, manifest_issues, fine,
  checked_manifest, manifest_from,
}

-- The file is among those submitted, under the role.
abbrev pub IsSubmitted : List ManifestEntry → String → Role → Type 0
IsSubmitted files rel role = (e : ManifestEntry) × Memᴰ e files × (e.path ≡ rel) × (e.role ≡ role)

roles_from-IsSubmitted :
    (roles : List (String × Role)) (files : List ManifestEntry) (rel : String) (role : Role)
    → lookup (roles_from roles files) rel ≡ some role
    → (lookup roles rel ≡ some role) ⊎ IsSubmitted files rel role
roles_from-IsSubmitted roles [] rel role h = inl h
roles_from-IsSubmitted roles (e ∷ es) rel role h =
    ⊎_elim first (λ (x, m, path, is). inr (x, Memᴰ.tail m, path, is))
      (roles_from-IsSubmitted (insert roles e.path e.role) es rel role h)
  where
    first :
        lookup (insert roles e.path e.role) rel ≡ some role
        → (lookup roles rel ≡ some role) ⊎ IsSubmitted (e ∷ es) rel role
    first found = elim (Bool-cases (e.path == rel)) [
      | inl same ↦ inr (
        e,
        Memᴰ.head refl,
        (string_eq.beq_iff e.path rel).0 same,
        some_inj (sym (lookup-insert roles e.path rel e.role ∙ rw same refl) ∙ found),
      )
      | inr other ↦ inl (sym (lookup-insert roles e.path rel e.role ∙ rw other refl) ∙ found)
    ]

submitted :
    (files : List ManifestEntry) (rel : String) (role : Role)
    → lookup (roles_from [] files) rel ≡ some role
    → IsSubmitted files rel role
submitted files rel role h =
    ⊎_elim (λ none'. absurd (cc none')) (λ is. is) (roles_from-IsSubmitted [] files rel role h)

-- An accepted manifest.
pub record IsAccepted (f : Floats) (timing : TimingConfig f) (loaded : Parsed) (design : String)
    (files : List ManifestEntry) (m : Manifest) : Type 0 where
  pub source : loaded ≡ parsed m.pipeline
  pub named : (m.design ≡ design) × (m.pipeline.design.name ≡ design)
  pub same_files : (e : ManifestEntry) → Memᴰ e m.files ↔ Memᴰ e files
  pub once : Distinct (map (λ e. ManifestEntry.path e) m.files)
  pub benches :
      (t : Target)
      → Memᴰ t m.pipeline.targets
      → (rel : String) → Memᴰ rel t.tb
      → IsSubmitted files rel tb
  pub data_files :
      (t : Target)
      → Memᴰ t m.pipeline.targets
      → (rel : String) → Memᴰ rel t.data_files
      → IsSubmitted files rel data'
  pub timed : IsTimed f timing (stage_timeouts m.pipeline)

append-nil : (a b : List ManifestIssue) → a ++ b ≡ [] → (a ≡ []) × (b ≡ [])
append-nil [] b h = (refl, h)
append-nil (x ∷ a) b h = absurd cc

map-nil : (xs : List PackIssue) → map (λ i. target_file i) xs ≡ [] → xs ≡ []
map-nil [] h = refl
map-nil (x ∷ xs) h = absurd cc

issue-ne-nil : {i : ManifestIssue} {is : List ManifestIssue} → i ∷ is ≡ [] → ⊥
issue-ne-nil h = cc

path_issues-nil :
    (i : ℕ) (seen : List String) (files : List ManifestEntry)
    → path_issues i seen files ≡ []
    → Distinct (map (λ e. ManifestEntry.path e) files)
      × ((p : String) → Memᴰ p (map (λ e. ManifestEntry.path e) files) → ¬ Memᴰ p seen)
path_issues-nil i seen [] h = (tt, λ p m. absurd (Memᴰ.not-nil m))
path_issues-nil i seen (e ∷ es) h = elim (Bool-cases (contains seen e.path)) [
  | inl again ↦ absurd (issue-ne-nil (rw again at h))
  | inr new ↦
      let (d, apart) = path_issues-nil (suc i) (e.path ∷ seen) es (rw new at h) in
      (
        (λ m. apart e.path m (Memᴰ.head refl), d),
        λ p m old.
            ⊎_elim
              (λ same.
                ground (arith, (contains_iff seen e.path).1 (subst (λ x. Memᴰ x seen) same old)))
              (λ r. apart p r (Memᴰ.tail old)) (Memᴰ.cases_cons m),
      )
]

design_issue-nil : (b : Bool) → design_issue b ≡ [] → b ≡ true
design_issue-nil true h = refl
design_issue-nil false h = absurd cc

manifest_inj : {a b : Manifest} → fine a ≡ fine b → a ≡ b
manifest_inj h = cc

-- A manifest that `_manifest_from` returns holds the parsed pipeline, whose design has the submitted
-- name; it has the submitted files, each path once; every test bench file and every data file that a
-- target names is among the submitted files under that role; and the farm's timing constants are in
-- order, by the arithmetic of the floats: a lease outlives three heartbeats, and a heartbeat with the
-- kill grace; a worker is dead only after its lease; a tick is no longer than a heartbeat; the
-- backstop comes after the kill;
-- a long poll ends before the client's timeout; and the kill grace is below every timeout of the
-- pipeline's stages.
pub manifest_from_sound :
    (f : Floats) (timing : TimingConfig f) (loaded : Parsed) (design : String)
    (files : List ManifestEntry) (m : Manifest)
    → manifest_from f timing loaded design files ≡ fine m
    → IsAccepted f timing loaded design files m
unfolding manifest_from manifest_issues
manifest_from_sound f timing (pipeline_error issues) design files m h = absurd cc
manifest_from_sound f timing (parsed p) design files m h =
    go (manifest_issues design p files) (validate_timing f timing (stage_timeouts p)) refl refl h
  where
    accepted :
        manifest_issues design p files ≡ []
        → validate_timing f timing (stage_timeouts p) ≡ []
        → IsAccepted f timing (parsed p) design files (record {
          design = design;
          files = sorted entry_leq files;
          pipeline = p;
          manifest_version = 1;
        })
    accepted e t =
        let (d, rest) = append-nil (design_issue (p.design.name == design)) _ e in
        let (paths, targets) = append-nil (path_issues 0 [] files) _ rest in
        record {
          source = refl;
          named = (refl, (string_eq.beq_iff p.design.name design).0 (design_issue-nil _ d));
          same_files = λ x. mem-sorted entry_leq x files;
          once =
              sorted-Distinct entry_leq (λ x. ManifestEntry.path x) files
                (path_issues-nil 0 [] files paths).0;
          benches = λ target mt rel m. submitted files rel tb (
              All-Memᴰ _ target.tb
                (All-Memᴰ (IsPackedTarget (roles_from [] files)) p.targets
                  ((target_issues_iff (roles_from [] files) 0 p.targets).0 (map-nil _ targets))
                  mt).0
                m);
          data_files = λ target mt rel m. submitted files rel data' (
              All-Memᴰ _ target.data_files
                (All-Memᴰ (IsPackedTarget (roles_from [] files)) p.targets
                  ((target_issues_iff (roles_from [] files) 0 p.targets).0 (map-nil _ targets))
                  mt).1
                m);
          timed = validate_timing-IsTimed f timing (stage_timeouts p) t;
        }

    go :
        (issues : List ManifestIssue) (rules : List Rule)
        → manifest_issues design p files ≡ issues
        → validate_timing f timing (stage_timeouts p) ≡ rules
        → checked_manifest design p files issues rules ≡ fine m
        → IsAccepted f timing (parsed p) design files m
    go (i ∷ is) rules e t h' = absurd cc
    go [] (r ∷ rs) e t h' = absurd cc
    go [] [] e t h' =
        subst (IsAccepted f timing (parsed p) design files) (manifest_inj h') (accepted e t)
