-- ===== src/Submit/Checks.antt =====
-- `_manifest_from`, `_resolve_digest` and `_check_sizes`: what a submission is refused for.
use rtlfarm.Prelude.{
  ℕ, suc, ◌+◌, String, Bool, true, false, not, List, [], ◌∷◌, ◌++◌, map, ◌==◌, contains, lookup,
  insert, Option, none, some, if◌then◌else◌, ltb, Result, ok, raise, key_error, ◌>>=◌, Exception,
  nat_eq, string_eq,
}
use rtlfarm.Models.{Role, role_eq, Pipeline, is_sha256, stage_timeouts}
use rtlfarm.Config.{Floats, TimingConfig, Rule, validate_timing}
use rtlfarm.Manifest.{ManifestEntry, Manifest}
use rtlfarm.Pipeline.Rules.{Issues}
use rtlfarm.Pipeline.Parse.{Parsed, parsed, pipeline_error}
use rtlfarm.Sorting.{sorted}
use rtlfarm.Pack.{entry_leq, target_issues}
use rtlfarm.Pack.Paths.{PackIssue}

-- One thing wrong with the manifest, at its pointer.
pub data ManifestIssue : Type 0 where
  other_design : ManifestIssue
  duplicate_path : ℕ → ManifestIssue
  target_file : PackIssue → ManifestIssue

-- The errors of a submission: each is one `ApiError`, told by its details.
pub data ApiError : Type 0 where
  invalid_pipeline : Issues → ApiError
  invalid_manifest : List ManifestIssue → ApiError
  timing_conflict : List Rule → ApiError
  bad_digest : String → ApiError
  no_digest : ApiError
  bad_selection : Exception → ApiError
  key_conflict : (job_id : String) → ApiError
  missing_blobs : List String → ApiError
  -- the file's index and the stored size
  sizes_disagree : List (ℕ × ℕ) → ApiError
  file_too_large job_too_large : (size : ℕ) → (cap : ℕ) → ApiError

pub data Checked (A : Type 0) : Type 0 where
  fine : A → Checked A
  refused : ApiError → Checked A

abbrev pub path_issues : ℕ → List String → List ManifestEntry → List ManifestIssue
path_issues i seen [] = []
path_issues i seen (f ∷ fs) =
    let rest = path_issues (suc i) (f.path ∷ seen) fs in
    if contains seen f.path then duplicate_path i ∷ rest else rest

-- {entry.path: entry.role for entry in files}, behind the entries so far
abbrev pub roles_from : List (String × Role) → List ManifestEntry → List (String × Role)
roles_from roles [] = roles
roles_from roles (f ∷ fs) = roles_from (insert roles f.path f.role) fs

abbrev pub design_issue : Bool → List ManifestIssue
design_issue true = []
design_issue false = other_design ∷ []

unfoldable pub manifest_issues : String → Pipeline → List ManifestEntry → List ManifestIssue
manifest_issues design p files =
    design_issue (p.design.name == design)
    ++ (path_issues 0 [] files
        ++ map (λ i. target_file i) (target_issues (roles_from [] files) 0 p.targets))

abbrev pub checked_manifest :
    String → Pipeline → List ManifestEntry → List ManifestIssue → List Rule → Checked Manifest
checked_manifest design p files (issue ∷ issues) rules = refused (invalid_manifest (issue ∷ issues))
checked_manifest design p files [] (rule ∷ rules) = refused (timing_conflict (rule ∷ rules))
checked_manifest design p files [] [] =
    fine (record {
      design = design;
      files = sorted entry_leq files;
      pipeline = p;
      manifest_version = 1;
    })

-- `loaded` is what `parse_pipeline` does on the body's pipeline.
unfoldable pub manifest_from :
    (f : Floats) → TimingConfig f → Parsed → String → List ManifestEntry → Checked Manifest
unfolding manifest_issues
manifest_from f timing (pipeline_error issues) design files = refused (invalid_pipeline issues)
manifest_from f timing (parsed p) design files =
    checked_manifest design p files (manifest_issues design p files)
      (validate_timing f timing (stage_timeouts p))

-- The first candidate that is given and not empty.
unfoldable pub resolve_digest : List (Option String) → Checked String
resolve_digest [] = refused no_digest
resolve_digest (none ∷ candidates) = resolve_digest candidates
resolve_digest (some candidate ∷ candidates) =
    let rest = resolve_digest candidates in
    if candidate == ""
    then rest
    else if not (is_sha256 candidate)
    then refused (bad_digest candidate)
    else fine candidate

-- stored[entry.sha256] for each entry
unfoldable pub sizes_of : List (String × ℕ) → List ManifestEntry → Result (List ℕ)
sizes_of stored [] = ok []
sizes_of stored (f ∷ fs) = elim (lookup stored f.sha256) [
  | none ↦ raise (key_error f.sha256)
  | some size ↦ sizes_of stored fs >>= λ sizes. ok (size ∷ sizes)
]

abbrev pub mismatches : ℕ → List ManifestEntry → List ℕ → List (ℕ × ℕ)
mismatches i (f ∷ fs) (size ∷ sizes) =
    let rest = mismatches (suc i) fs sizes in if f.size == size then rest else (i, size) ∷ rest
mismatches i _ _ = []

abbrev pub largest : List ℕ → ℕ
largest [] = 0
largest (n ∷ ns) = let rest = largest ns in if ltb rest n then n else rest

abbrev pub total : List ℕ → ℕ
total [] = 0
total (n ∷ ns) = n + total ns

abbrev pub caps_error : (file_cap : ℕ) → (job_cap : ℕ) → List ℕ → List (ℕ × ℕ) → Option ApiError
caps_error file_cap job_cap sizes (m ∷ ms) = some (sizes_disagree (m ∷ ms))
caps_error file_cap job_cap sizes [] =
    if ltb file_cap (largest sizes)
    then some (file_too_large (largest sizes) file_cap)
    else if ltb job_cap (total sizes)
    then some (job_too_large (total sizes) job_cap)
    else none

unfoldable pub check_sizes :
    (file_cap : ℕ)
    → (job_cap : ℕ) → List (String × ℕ)
    → List ManifestEntry
    → Result (Option ApiError)
unfolding sizes_of
check_sizes file_cap job_cap stored files = sizes_of stored files >>= λ sizes.
    ok (caps_error file_cap job_cap sizes (mismatches 0 files sizes))
