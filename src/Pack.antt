-- ===== src/Pack.antt =====
-- src/rtlfarm/expand/pack.py: a design directory becomes a manifest.
--
-- The directory is a parameter, `Tree`: what a glob yields and what the file system answers of a
-- pack-relative path. The set `excluded` is an argument in its normal form.
pub mod Paths
pub mod Collect
pub mod Canonical
pub mod Targets
pub mod Hashed
pub mod Once
pub mod Safe
pub mod Guarantees
mod Samples
use rtlfarm.Prelude.{
  ℕ, suc, String, ◌++ˢ◌, Bool, true, false, not, ◌&&◌, ◌||◌, List, [], ◌∷◌, ◌++◌, map, ◌==◌,
  contains, lookup, keys, Option, none, some, if◌then◌else◌, ltb, leb, nat_eq, string_eq,
}
use rtlfarm.Ids.Decimal.{decimal}
use rtlfarm.Models.{Role, rtl, include, tb, data', role_eq, Target, Pipeline}
use rtlfarm.Manifest.{ManifestEntry, Manifest, role_name}
use rtlfarm.Pipeline.Rules.{Issues}
use rtlfarm.Pipeline.Parse.{Parsed, parsed, pipeline_error}
use rtlfarm.Sorting.{sorted, text_leq}
use Paths.{
  Tree, PackMessage, not_packed, no_pipeline_file, PackIssue, PackIssues, bad_pattern, bad_location,
}
use Hashed.{hash_file}
use Collect.{Place, Matching, role_index, collect}

abbrev pub is_role : Option Role → Role → Bool
is_role none role = false
is_role (some other) role = other == role

-- One path of a target against the packed roles.
unfoldable pub file_issues : List (String × Role) → ℕ → Role → ℕ → List String → PackIssues
file_issues roles i role j [] = []
file_issues roles i role j (rel ∷ rels) =
    let rest = file_issues roles i role (suc j) rels in
    if is_role (lookup roles rel) role
    then rest
    else record {
      place = "/targets/" ++ˢ (decimal i ++ˢ ("/" ++ˢ (role_name role ++ˢ ("/" ++ˢ decimal j))));
      message = not_packed rel role;
    }
      ∷ rest

unfoldable pub target_issues : List (String × Role) → ℕ → List Target → PackIssues
unfolding file_issues
target_issues roles i [] = []
target_issues roles i (target ∷ targets) =
    file_issues roles i tb 0 target.tb
    ++ (file_issues roles i data' 0 target.data_files ++ target_issues roles (suc i) targets)

unfoldable pub location_issues : Tree → List String → PackIssues
location_issues tree [] = []
location_issues tree (rel ∷ rels) = elim (bad_location tree rel) [
  | none ↦ location_issues tree rels
  | some problem ↦ record { place = rel; message = problem } ∷ location_issues tree rels
]

abbrev pub roles_of : List (String × Place) → List (String × Role)
roles_of [] = []
roles_of ((rel, p) ∷ matched) = (rel, p.role) ∷ roles_of matched

abbrev pub entry_of : Tree → String → Place → ManifestEntry
entry_of tree rel p = record {
  path = rel;
  role = p.role;
  ordinal = p.ordinal;
  sha256 = (hash_file tree rel).0;
  size = (hash_file tree rel).1;
}

abbrev pub entries_of : Tree → List (String × Place) → List ManifestEntry
entries_of tree [] = []
entries_of tree ((rel, p) ∷ matched) = entry_of tree rel p ∷ entries_of tree matched

-- The order of (ROLES.index(e.role), e.ordinal).
abbrev pub entry_leq : ManifestEntry → ManifestEntry → Bool
entry_leq a b =
    ltb (role_index a.role) (role_index b.role)
    || (role_index a.role == role_index b.role && leb a.ordinal b.ordinal)

-- What `pack` does: it returns a manifest, or raises `PackError` or, from `load_pipeline`,
-- `PipelineError`, or the ValueError or NotImplementedError of `root.glob`.
pub data Packed : Type 0 where
  packed : Manifest → Packed
  pack_error : PackIssues → Packed
  invalid_pipeline : Issues → Packed
  glob_error : Packed

abbrev pub all_issues : Tree → Pipeline → Matching → PackIssues
all_issues tree p m =
    m.issues
    ++ (location_issues tree (sorted text_leq (keys m.matched))
        ++ target_issues (roles_of m.matched) 0 p.targets)

abbrev pub manifest_of : Tree → Pipeline → Matching → Manifest
manifest_of tree p m = record {
  design = p.design.name;
  files = sorted entry_leq (entries_of tree m.matched);
  pipeline = p;
  manifest_version = 1;
}

abbrev pub finish : Tree → Pipeline → Matching → PackIssues → Packed
finish tree p m [] = packed (manifest_of tree p m)
finish tree p m (issue ∷ issues) = pack_error (issue ∷ issues)

-- A pattern that `_bad_pattern` lets through and `root.glob` refuses.
abbrev pub is_refused : (String → Bool) → String → Bool
is_refused refuses pattern = elim (bad_pattern pattern) [
  | some problem ↦ false
  | none ↦ refuses pattern
]

abbrev pub one_refused : (String → Bool) → List String → Bool
one_refused refuses [] = false
one_refused refuses (pattern ∷ globs) = is_refused refuses pattern || one_refused refuses globs

-- Whether `root.glob` raises in the loop, which comes to every pattern unless an earlier one raises.
abbrev pub any_refused : (String → Bool) → List (Role × List String) → Bool
any_refused refuses [] = false
any_refused refuses ((role, globs) ∷ rest) = one_refused refuses globs || any_refused refuses rest

abbrev pub pack_pipeline : Tree → List String → Parsed → Packed
pack_pipeline tree excluded (pipeline_error issues) = invalid_pipeline issues
pack_pipeline tree excluded (parsed p) =
    let m = collect tree excluded p.design.files in
    if any_refused tree.refuses p.design.files
    then glob_error
    else finish tree p m (all_issues tree p m)

-- `loaded` is what `load_pipeline` does on the directory.
unfoldable pub pack : Tree → List String → Parsed → Packed
unfolding target_issues location_issues
pack tree excluded loaded =
    if tree.is_file "rtlfarm.yaml"
    then pack_pipeline tree excluded loaded
    else pack_error (record { place = "rtlfarm.yaml"; message = no_pipeline_file } ∷ [])
