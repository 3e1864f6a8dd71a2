-- ===== src/Pack/Canonical.antt =====
-- The manifest does not depend on the order in which the file system lists files.
use mathlib.Core.List.{Permᴰ}
use mathlib.Core.List.Permᴰ
use rtlfarm.Prelude.{
  ℕ, suc, String, ◌≡◌, refl, ap, ap₂, subst, not, keys, ◌++◌, Option, none, some, if◌then◌else◌,
  string_eq, ◌∙◌, inl, inr, List, [], ◌∷◌, Bool-cases, Option-cases,
}
use rtlfarm.Models.{Role, Pipeline}
use rtlfarm.Manifest.{ManifestEntry}
use rtlfarm.Pipeline.Parse.{Parsed, parsed, pipeline_error}
use rtlfarm.Sorting.{sorted, text_leq, sorted-Perm, text_leq-IsOrder}
use rtlfarm.Pack.{
  any_refused, glob_error, pack, finish, all_issues, location_issues, entries_of, entry_of,
  entry_leq, target_issues, roles_of, packed, pack_error,
}
use rtlfarm.Pack.Hashed.{hash_file}
use rtlfarm.Pack.Paths.{
  Tree, is_kept, keep, expand_glob, bad_pattern, bad_location, bad_link, parts, below, PackMessage,
  PackIssue, PackIssues, symlink_at, not_regular, resolves_outside, no_pipeline_file,
}
use rtlfarm.Pack.Collect.{
  Matching, by_role, collect, collect_roles, collect_globs, collect_glob, collect_found,
  glob_pointer, Place,
}

keep_cons :
    (tree : Tree) (excluded : List String) (a : String) (xs ys : List String)
    → Permᴰ (keep tree excluded xs) (keep tree excluded ys)
    → Permᴰ (keep tree excluded (a ∷ xs)) (keep tree excluded (a ∷ ys))
keep_cons tree excluded a xs ys d = elim (Bool-cases (is_kept tree excluded a)) [
  | inl k ↦ rw k (Permᴰ.cons refl d)
  | inr k ↦ rw k d
]

keep_swap :
    (tree : Tree) (excluded : List String) (a b : String) (l : List String)
    → Permᴰ (keep tree excluded (a ∷ b ∷ l)) (keep tree excluded (b ∷ a ∷ l))
keep_swap tree excluded a b l = elim (Bool-cases (is_kept tree excluded a)) [
  | inl ka ↦ elim (Bool-cases (is_kept tree excluded b)) [
    | inl kb ↦ rw (ka, kb) (Permᴰ.swap refl refl)
    | inr kb ↦ rw (ka, kb) (Permᴰ.refl _)
  ]
  | inr ka ↦ rw ka (Permᴰ.refl _)
]

keep-Perm :
    (tree : Tree) (excluded : List String) {xs ys : List String}
    → Permᴰ xs ys
    → Permᴰ (keep tree excluded xs) (keep tree excluded ys)
keep-Perm tree excluded Permᴰ.nil = Permᴰ.nil
keep-Perm tree excluded (Permᴰ.cons {a = a} {b = b} {l₁ = l₁} {l₂ = l₂} e d) =
    subst (λ b. Permᴰ (keep tree excluded (a ∷ l₁)) (keep tree excluded (b ∷ l₂))) e
      (keep_cons tree excluded a l₁ l₂ (keep-Perm tree excluded d))
keep-Perm tree excluded (Permᴰ.swap {a = a} {b = b} {a' = a'} {b' = b'} {l = l} e₁ e₂) =
    subst (λ x. Permᴰ (keep tree excluded (a ∷ b ∷ l)) (keep tree excluded (x ∷ b' ∷ l))) e₂
      (subst (λ x. Permᴰ (keep tree excluded (a ∷ b ∷ l)) (keep tree excluded (b ∷ x ∷ l))) e₁
        (keep_swap tree excluded a b l))
keep-Perm tree excluded (Permᴰ.trans d₁ d₂) =
    Permᴰ.trans (keep-Perm tree excluded d₁) (keep-Perm tree excluded d₂)

module _ (tree : Tree) (glob' : String → List String) (excluded : List String)
    (same : (pattern : String) → Permᴰ (tree.glob pattern) (glob' pattern)) where
  abbrev relisted : Tree
  relisted = record tree { glob = glob' }

  expand_glob-relisted :
      (pattern : String) → expand_glob tree excluded pattern ≡ expand_glob relisted excluded pattern
  unfolding expand_glob
  expand_glob-relisted pattern =
      sorted-Perm text_leq text_leq-IsOrder (keep-Perm tree excluded (same pattern))

  collect_glob-relisted :
      (role : Role) (i : ℕ) (pattern : String) (s : ℕ × Matching)
      → collect_glob tree excluded role i pattern s
        ≡ collect_glob relisted excluded role i pattern s
  unfolding collect_glob
  collect_glob-relisted role i pattern (ordinal, m) = elim (Option-cases (bad_pattern pattern)) [
    | inl fine ↦
        rw (fine, collect_glob)
          (ap (λ paths. collect_found role (glob_pointer role i) paths ordinal m)
            (expand_glob-relisted pattern))
    | inr (problem, bad) ↦ rw (bad, collect_glob) refl
  ]

  collect_globs-relisted :
      (role : Role) (i : ℕ) (globs : List String) (s : ℕ × Matching)
      → collect_globs tree excluded role i globs s ≡ collect_globs relisted excluded role i globs s
  unfolding collect_globs
  collect_globs-relisted role i [] s = refl
  collect_globs-relisted role i (g ∷ gs) s =
      ap (collect_globs tree excluded role (suc i) gs) (collect_glob-relisted role i g s)
      ∙ collect_globs-relisted role (suc i) gs _

  collect_roles-relisted :
      (files : List (Role × List String)) (m : Matching)
      → collect_roles tree excluded files m ≡ collect_roles relisted excluded files m
  unfolding collect_roles
  collect_roles-relisted [] m = refl
  collect_roles-relisted ((role, globs) ∷ rest) m =
      ap (λ (s : ℕ × Matching). collect_roles tree excluded rest s.1)
        (collect_globs-relisted role 0 globs (0, m))
      ∙ collect_roles-relisted rest _

  bad_link-relisted :
      (current : String) (ps : List String)
      → bad_link tree current ps ≡ bad_link relisted current ps
  unfolding bad_link
  bad_link-relisted current [] = refl
  bad_link-relisted current (p ∷ ps) =
      ap
        (λ later.
          if tree.is_symlink (below current p) then some (symlink_at (below current p)) else later)
        (bad_link-relisted (below current p) ps)

  bad_location-relisted : (rel : String) → bad_location tree rel ≡ bad_location relisted rel
  unfolding bad_location
  bad_location-relisted rel =
      ap
        (λ (o : Option PackMessage). elim o [
          | some problem ↦ some problem
          | none ↦
              if not (tree.is_file rel)
              then some not_regular
              else if not (tree.resolves_inside rel)
              then some resolves_outside
              else none
        ])
        (bad_link-relisted "" (parts rel))

  location_issues-relisted :
      (rels : List String) → location_issues tree rels ≡ location_issues relisted rels
  unfolding location_issues
  location_issues-relisted [] = refl
  location_issues-relisted (rel ∷ rels) =
      ap₂
        (λ (o : Option PackMessage) (l : PackIssues). elim o [
          | none ↦ l
          | some problem ↦ record { place = rel; message = problem } ∷ l
        ])
        (bad_location-relisted rel) (location_issues-relisted rels)

  entries_of-relisted :
      (matched : List (String × Place)) → entries_of tree matched ≡ entries_of relisted matched
  unfolding hash_file
  entries_of-relisted [] = refl
  entries_of-relisted ((rel, p) ∷ matched) =
      ap (λ l. entry_of tree rel p ∷ l) (entries_of-relisted matched)

  finish-relisted :
      (p : Pipeline) (m : Matching) (issues : PackIssues)
      → finish tree p m issues ≡ finish relisted p m issues
  finish-relisted p m [] =
      ap
        (λ (l : List ManifestEntry). packed (record {
          design = p.design.name;
          files = sorted entry_leq l;
          pipeline = p;
          manifest_version = 1;
        }))
        (entries_of-relisted m.matched)
  finish-relisted p m (i ∷ is) = refl

  finish_all-relisted :
      (p : Pipeline) (m : Matching)
      → finish tree p m (all_issues tree p m) ≡ finish relisted p m (all_issues relisted p m)
  finish_all-relisted p m =
      finish-relisted p m (all_issues tree p m)
      ∙ ap
          (λ l.
            finish relisted p m (m.issues ++ (l ++ target_issues (roles_of m.matched) 0 p.targets)))
          (location_issues-relisted (sorted text_leq (keys m.matched)))

  abbrev missing : PackIssue
  missing = record { place = "rtlfarm.yaml"; message = no_pipeline_file }

  -- `pack` does the same on two directories that differ only in the order
  -- in which the file system lists what a glob matches: it returns the same manifest, with
  -- the same digest, or raises the same issues, or the same exception of `root.glob`.
  pub pack_canonical : (loaded : Parsed) → pack tree excluded loaded ≡ pack relisted excluded loaded
  unfolding pack collect
  pack_canonical (pipeline_error issues) = refl
  pack_canonical (parsed p) =
      ap
        (λ r.
          if tree.is_file "rtlfarm.yaml"
          then (if any_refused tree.refuses p.design.files then glob_error else r)
          else pack_error (missing ∷ []))
        (finish_all-relisted p (collect tree excluded p.design.files)
          ∙ ap (λ m. finish relisted p m (all_issues relisted p m))
              (collect_roles-relisted (by_role p.design.files) _))
