-- ===== src/Pack/Guarantees.antt =====
-- What `pack` ends with.
use rtlfarm.Prelude.{
  String, ◌≡◌, refl, sym, subst, ◌∙◌, ◌≢◌, inl, inr, List, [], ◌∷◌, Memᴰ, Distinct, All, All-Memᴰ,
  keys, Bool-cases, Option-cases, true, lookup, none, some, string_eq,
}
use rtlfarm.Models.{Role, tb, data', Target, Pipeline}
use rtlfarm.Manifest.{ManifestEntry, Manifest}
use rtlfarm.Pipeline.Parse.{Parsed, parsed, pipeline_error}
use rtlfarm.Sorting.{sorted, text_leq, mem-sorted, sorted-Distinct}
use rtlfarm.Pack.{
  pack, pack_pipeline, finish, manifest_of, all_issues, location_issues, target_issues, entries_of,
  entry_leq, roles_of, Packed, packed, pack_error, glob_error, is_refused, one_refused, any_refused,
}
use rtlfarm.Pack.Paths.{Tree, PackIssue, PackIssues, bad_pattern, bad_location}
use rtlfarm.Pack.Collect.{Matching, collect}
use rtlfarm.Pack.Targets.{IsPackedTarget, target_issues_iff, append-eq-nil}
use rtlfarm.Pack.Once.{IsOnce, collect-IsOnce}
use rtlfarm.Pack.Safe.{
  IsSafe, HasFile, IsPacked, bad_location-IsSafe, location_issues-nil, map-entries_of,
  mem-entries_of, roles_of-HasFile,
}

All-map :
    {P Q : String → Type 0} (xs : List String) → ((x : String) → P x → Q x) → All P xs → All Q xs
All-map [] f h = tt
All-map (x ∷ xs) f h = (f x h.0, All-map xs f h.1)

All_targets-map :
    {P Q : Target → Type 0} (ts : List Target) → ((t : Target) → P t → Q t) → All P ts → All Q ts
All_targets-map [] f h = tt
All_targets-map (t ∷ ts) f h = (f t h.0, All_targets-map ts f h.1)

module _ (tree : Tree) (p : Pipeline) (m : Matching) (once : IsOnce m)
    (clean : all_issues tree p m ≡ []) where
  abbrev entries : List ManifestEntry
  entries = entries_of tree m.matched

  abbrev files : List ManifestEntry
  files = sorted entry_leq entries

  tail :
      (location_issues tree (sorted text_leq (keys m.matched)) ≡ [])
      × (target_issues (roles_of m.matched) 0 p.targets ≡ [])
  tail =
      let rest = ((append-eq-nil m.issues _).0 clean).1 in
      (append-eq-nil (location_issues tree (sorted text_leq (keys m.matched))) _).0 rest

  in_place : (f : ManifestEntry) → Memᴰ f files → Memᴰ f entries
  in_place f mf = (mem-sorted entry_leq f entries).0 mf

  safe : (f : ManifestEntry) → Memᴰ f files → IsSafe tree f.path
  safe f mf =
      let known = (mem-entries_of tree m.matched f (in_place f mf)).0 in
      bad_location-IsSafe tree f.path (
        All-Memᴰ (λ rel. bad_location tree rel ≡ none) (sorted text_leq (keys m.matched))
          (location_issues-nil tree _ tail.0)
          ((mem-sorted text_leq f.path (keys m.matched)).1 known))

  has_file :
      (role : Role) (rel : String)
      → lookup (roles_of m.matched) rel ≡ some role
      → HasFile files role rel
  has_file role rel h =
      let (f, mf, e, r) = roles_of-HasFile tree m.matched rel role h in
      (f, (mem-sorted entry_leq f entries).1 mf, e, r)

  packed_targets : All (IsPackedTarget (roles_of m.matched)) p.targets
  packed_targets = (target_issues_iff (roles_of m.matched) 0 p.targets).0 tail.1

  pub manifest_of-IsPacked : IsPacked tree (parsed p) (manifest_of tree p m)
  manifest_of-IsPacked = record {
    source = refl;
    named = refl;
    once =
        sorted-Distinct entry_leq (λ f. ManifestEntry.path f) entries
          (subst Distinct (sym (map-entries_of tree m.matched)) once);
    safe = safe;
    hashed = λ f mf. (mem-entries_of tree m.matched f (in_place f mf)).1;
    benches = All_targets-map p.targets (λ t h. All-map t.tb (has_file tb) h.0) packed_targets;
    datas =
        All_targets-map p.targets (λ t h. All-map t.data_files (has_file data') h.1) packed_targets;
  }

-- A pattern of the pipeline that `_bad_pattern` lets through and `root.glob` refuses.
abbrev pub HasRefused : Tree → List (Role × List String) → Type 0
HasRefused tree files =
    (role : Role) × (globs : List String) × (pattern : String) × Memᴰ (role, globs) files
    × Memᴰ pattern globs
    × (bad_pattern pattern ≡ none)
    × (tree.refuses pattern ≡ true)

is_refused-true :
    (tree : Tree) (pattern : String)
    → is_refused tree.refuses pattern ≡ true
    → (bad_pattern pattern ≡ none) × (tree.refuses pattern ≡ true)
is_refused-true tree pattern h = elim (Option-cases (bad_pattern pattern)) [
  | inl fine ↦ (fine, rw (fine, is_refused) at h)
  | inr (problem, bad) ↦ absurd (let h' = rw (bad, is_refused) at h in cc)
]

one_refused-true :
    (tree : Tree) (globs : List String)
    → one_refused tree.refuses globs ≡ true
    → (pattern : String) × Memᴰ pattern globs
      × (bad_pattern pattern ≡ none)
      × (tree.refuses pattern ≡ true)
one_refused-true tree [] h = absurd cc
one_refused-true tree (g ∷ gs) h = elim (Bool-cases (is_refused tree.refuses g)) [
  | inl here ↦ let (fine, raises) = is_refused-true tree g here in (g, Memᴰ.head refl, fine, raises)
  | inr there ↦
      let (p, m, fine, raises) = one_refused-true tree gs (rw there at h) in
      (p, Memᴰ.tail m, fine, raises)
]

any_refused-true :
    (tree : Tree) (files : List (Role × List String))
    → any_refused tree.refuses files ≡ true
    → HasRefused tree files
any_refused-true tree [] h = absurd cc
any_refused-true tree ((role, globs) ∷ rest) h =
    elim (Bool-cases (one_refused tree.refuses globs)) [
      | inl here ↦
          let (p, m, fine, raises) = one_refused-true tree globs here in
          (role, globs, p, Memᴰ.head refl, m, fine, raises)
      | inr there ↦
          let (r, gs, p, mf, m, fine, raises) = any_refused-true tree rest (rw there at h) in
          (r, gs, p, Memᴰ.tail mf, m, fine, raises)
    ]

-- What an end of `pack` says.
pub record Ends (tree : Tree) (loaded : Parsed) (r : Packed) : Type 0 where
  pub sound : (m : Manifest) → r ≡ packed m → IsPacked tree loaded m
  pub named : (issues : PackIssues) → r ≡ pack_error issues → issues ≢ []
  pub raised :
      r ≡ glob_error → (p : Pipeline) × (loaded ≡ parsed p) × HasRefused tree p.design.files

packed_inj : {m n : Manifest} → packed m ≡ packed n → m ≡ n
packed_inj h = cc

packed-ne-error : {m : Manifest} {issues : PackIssues} → packed m ≡ pack_error issues → ⊥
packed-ne-error h = cc

pack_error_inj : {a b : PackIssues} → pack_error a ≡ pack_error b → a ≡ b
pack_error_inj h = cc

cons-ne-nil : {i : PackIssue} {is : PackIssues} → i ∷ is ≡ [] → ⊥
cons-ne-nil h = cc

error-Ends :
    (tree : Tree) (loaded : Parsed) (i : PackIssue) (is : PackIssues)
    → Ends tree loaded (pack_error (i ∷ is))
error-Ends tree loaded i is = record {
  sound = λ m e. absurd (packed-ne-error (sym e));
  named = λ issues e none'. cons-ne-nil (pack_error_inj e ∙ none');
  raised = λ e. absurd cc;
}

finish-Ends :
    (tree : Tree) (p : Pipeline) (m : Matching) (issues : PackIssues)
    → IsOnce m
    → all_issues tree p m ≡ issues
    → Ends tree (parsed p) (finish tree p m issues)
finish-Ends tree p m [] once clean = record {
  sound = λ n e.
      subst (IsPacked tree (parsed p)) (packed_inj e) (manifest_of-IsPacked tree p m once clean);
  named = λ issues e. absurd (packed-ne-error e);
  raised = λ e. absurd cc;
}
finish-Ends tree p m (i ∷ is) once found = error-Ends tree (parsed p) i is

-- A manifest that `pack` returns holds the pipeline that was loaded and a path once; every packed
-- file is a regular file inside the pack with no symlink on its path, and stands with the
-- SHA-256 and the number of its bytes; and every `tb` and `data` file of a target is packed under that role. Where
-- `pack` raises `PackError`, it names at least one issue; where `root.glob` raises, it is for a pattern of
-- the pipeline that the pack's own tests let through.
pub pack_sound :
    (tree : Tree) (excluded : List String) (loaded : Parsed)
    → Ends tree loaded (pack tree excluded loaded)
unfolding pack
pack_sound tree excluded loaded = elim (Bool-cases (tree.is_file "rtlfarm.yaml")) [
  | inl there ↦ rw (there, pack) (go loaded)
  | inr missing ↦ rw (missing, pack) (error-Ends tree loaded _ [])
]
  where
    go : (loaded : Parsed) → Ends tree loaded (pack_pipeline tree excluded loaded)
    go (pipeline_error issues) = record {
      sound = λ m e. absurd cc;
      named = λ is e. absurd cc;
      raised = λ e. absurd cc;
    }
    go (parsed p) = elim (Bool-cases (any_refused tree.refuses p.design.files)) [
      | inl refused ↦ rw refused (record {
        sound = λ m e. absurd cc;
        named = λ is e. absurd cc;
        raised = λ e. (p, refl, any_refused-true tree p.design.files refused);
      })
      | inr passed ↦ rw passed (
          finish-Ends tree p (collect tree excluded p.design.files) _
            (collect-IsOnce tree excluded p.design.files) refl)
    ]
