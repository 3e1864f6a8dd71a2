-- ===== src/Pack/Samples.antt =====
-- A directory that is packed, and one that is not.
use mathlib.Core.List.{Permᴰ}
use mathlib.Core.List.Permᴰ
use rtlfarm.Prelude.{
  ℕ, String, ◌≡◌, refl, ◌↔◌, true, false, List, [], ◌∷◌, map, All, ◌==◌, none, some, string_eq,
  if◌then◌else◌, Bool-cases, inl, inr,
}
use rtlfarm.Ids.Decimal.{decimal}
use rtlfarm.Models.{role_beq, Role, rtl, tb}
use rtlfarm.Manifest.{ManifestEntry}
use rtlfarm.Pipeline.Parse.{parsed}
use rtlfarm.Pack.{pack, Packed, packed, pack_error, target_issues, location_issues, file_issues}
use rtlfarm.Pack.Paths.{
  Tree, bad_pattern, must_be_relative, no_parent, parts, split, matched_no_files, not_packed,
  expand_glob, bad_location, bad_link,
}
use rtlfarm.Pack.Collect.{
  collect, collect_roles, collect_globs, collect_glob, collect_paths, role_index,
}
use rtlfarm.Pack.Targets.{IsPackedTarget, target_issues_iff}
use rtlfarm.Pack.Canonical.{pack_canonical}
use rtlfarm.Pack.Guarantees.{Ends, pack_sound}
use rtlfarm.Sorting.{sorted, place, precedes, text_leq}
use rtlfarm.Dag.Samples.{pipeline}

-- The sample pipeline's directory: two source files, listed in no order, and a testbench.
listing : String → List String
listing pattern =
    if pattern == "rtl/*.sv"
    then "rtl/top.sv" ∷ "rtl/counter.sv" ∷ []
    else if pattern == "tb.sv"
    then "tb.sv" ∷ []
    else []

listing' : String → List String
listing' pattern =
    if pattern == "rtl/*.sv"
    then "rtl/counter.sv" ∷ "rtl/top.sv" ∷ []
    else if pattern == "tb.sv"
    then "tb.sv" ∷ []
    else []

abbrev tree : Tree
tree = record {
  glob = listing;
  refuses = λ p. p == "";
  is_symlink = λ p. false;
  is_file = λ p. true;
  resolves_inside = λ p. true;
  bytes = λ p. 10 ∷ [];
  sha256 = λ b. "00";
}

paths_of : Packed → List (String × ℕ)
paths_of (packed m) = map (λ f. (ManifestEntry.path f, ManifestEntry.ordinal f)) m.files
paths_of _ = []

packing : Unit {0}
unfolding role_beq pack collect collect_roles collect_globs collect_glob collect_paths role_index
    bad_pattern parts split expand_glob bad_location bad_link target_issues location_issues
    file_issues sorted place precedes text_leq listing listing' paths_of
packing = tt

three_files :
    paths_of (pack tree [] (parsed pipeline))
    ≡ ("rtl/counter.sv", 0) ∷ ("rtl/top.sv", 1) ∷ ("tb.sv", 0) ∷ []
unfolding packing
three_files = refl

parent_pattern : bad_pattern "rtl/../../x" ≡ some no_parent
unfolding packing
parent_pattern = refl

absolute_pattern : bad_pattern "/etc/passwd" ≡ some must_be_relative
unfolding packing
absolute_pattern = refl

-- A name may hold two dots.
dotted_pattern : bad_pattern "rtl/a..b.sv" ≡ none
unfolding packing
dotted_pattern = refl

no_bench :
    pack tree ("tb.sv" ∷ []) (parsed pipeline)
    ≡ pack_error (
        record { place = "/design/files/tb/0"; message = matched_no_files }
        ∷ record { place = "/targets/0/tb/0"; message = not_packed "tb.sv" tb }
        ∷ record { place = "/targets/1/tb/0"; message = not_packed "tb.sv" tb }
        ∷ [])
unfolding packing decimal
no_bench = refl

relisting : (pattern : String) → Permᴰ (listing pattern) (listing' pattern)
unfolding listing listing'
relisting pattern = elim (Bool-cases (pattern == "rtl/*.sv")) [
  | inl sources ↦ rw sources (Permᴰ.swap refl refl)
  | inr other ↦ rw other (Permᴰ.refl _)
]

pack_canonical_example :
    pack tree [] (parsed pipeline) ≡ pack (record tree { glob = listing' }) [] (parsed pipeline)
pack_canonical_example = pack_canonical tree listing' [] relisting (parsed pipeline)

pack_sound_example : Ends tree (parsed pipeline) (pack tree [] (parsed pipeline))
pack_sound_example = pack_sound tree [] (parsed pipeline)

abbrev roles : List (String × Role)
roles = ("rtl/top.sv", rtl) ∷ ("tb.sv", tb) ∷ []

target_issues_iff_example :
    (target_issues roles 0 pipeline.targets ≡ []) ↔ All (IsPackedTarget roles) pipeline.targets
target_issues_iff_example = target_issues_iff roles 0 pipeline.targets
