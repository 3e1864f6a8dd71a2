-- ===== src/Pack/Safe.antt =====
-- What holds of every manifest that `pack` returns, and that it never raises an empty list of issues.
use mathlib.Core.List.Memᴰ
use rtlfarm.Pack.Hashed.{hash_file_lem}
use rtlfarm.Prelude.{
  ℕ, length, String, ◌≡◌, refl, sym, ap, subst, inl, inr, true, false, List, [], ◌∷◌, map, Memᴰ,
  Distinct, All, keys, lookup, none, some, Bool-cases, Option-cases, some_inj, ◌==◌, string_eq,
  arith,
}
use rtlfarm.Models.{Role, tb, data', role_eq, Target}
use rtlfarm.Manifest.{ManifestEntry, Manifest}
use rtlfarm.Pipeline.Parse.{Parsed, parsed}
use rtlfarm.Pack.{location_issues, entry_of, entries_of, roles_of}
use rtlfarm.Pack.Paths.{Tree, PackIssue, PackIssues, below, parts, bad_link, bad_location}
use rtlfarm.Pack.Collect.{Place}

-- The path of each component's directory, down to the file itself.
abbrev pub prefixes : String → List String → List String
prefixes current [] = []
prefixes current (part ∷ ps) = below current part ∷ prefixes (below current part) ps

-- A regular file inside the pack, with no symlink on the way to it.
pub record IsSafe (tree : Tree) (rel : String) : Type 0 where
  pub links : All (λ p. tree.is_symlink p ≡ false) (prefixes "" (parts rel))
  pub regular : tree.is_file rel ≡ true
  pub inside : tree.resolves_inside rel ≡ true

abbrev pub HasFile : List ManifestEntry → Role → String → Type 0
HasFile files role rel = (f : ManifestEntry) × Memᴰ f files × (f.path ≡ rel) × (f.role ≡ role)

-- The entry's digest and size are those of the bytes of the file.
abbrev pub IsHashed : Tree → ManifestEntry → Type 0
IsHashed tree f =
    (f.sha256 ≡ tree.sha256 (tree.bytes f.path)) × (f.size ≡ length (tree.bytes f.path))

-- A sound manifest of the directory.
pub record IsPacked (tree : Tree) (loaded : Parsed) (m : Manifest) : Type 0 where
  pub source : loaded ≡ parsed m.pipeline
  pub named : m.design ≡ m.pipeline.design.name
  pub once : Distinct (map (λ f. ManifestEntry.path f) m.files)
  pub safe : (f : ManifestEntry) → Memᴰ f m.files → IsSafe tree f.path
  pub hashed : (f : ManifestEntry) → Memᴰ f m.files → IsHashed tree f
  pub benches : All (λ t. All (HasFile m.files tb) (Target.tb t)) m.pipeline.targets
  pub datas : All (λ t. All (HasFile m.files data') (Target.data_files t)) m.pipeline.targets

bad_link-links :
    (tree : Tree) (current : String) (ps : List String)
    → bad_link tree current ps ≡ none
    → All (λ p. tree.is_symlink p ≡ false) (prefixes current ps)
unfolding bad_link
bad_link-links tree current [] h = tt
bad_link-links tree current (p ∷ ps) h = elim (Bool-cases (tree.is_symlink (below current p))) [
  | inl link ↦ absurd (ground arith)
  | inr plain ↦ (plain, bad_link-links tree (below current p) ps (rw plain at h))
]

pub bad_location-IsSafe :
    (tree : Tree) (rel : String) → bad_location tree rel ≡ none → IsSafe tree rel
unfolding bad_location
bad_location-IsSafe tree rel h = elim (Option-cases (bad_link tree "" (parts rel))) [
  | inl free ↦
      let h' = rw (free, bad_location) at h in
      record {
        links = bad_link-links tree "" (parts rel) free;
        regular = ground arith;
        inside = ground arith;
      }
  | inr (problem, bad) ↦ absurd (ground arith)
]

cons-ne-nil : {i : PackIssue} {is : PackIssues} → i ∷ is ≡ [] → ⊥
cons-ne-nil h = cc

pub location_issues-nil :
    (tree : Tree) (rels : List String)
    → location_issues tree rels ≡ []
    → All (λ rel. bad_location tree rel ≡ none) rels
unfolding location_issues
location_issues-nil tree [] h = tt
location_issues-nil tree (rel ∷ rels) h = elim (Option-cases (bad_location tree rel)) [
  | inl fine ↦ (fine, location_issues-nil tree rels (rw (fine, location_issues) at h))
  | inr (problem, bad) ↦ absurd (cons-ne-nil (rw (bad, location_issues) at h))
]

pub map-entries_of :
    (tree : Tree) (matched : List (String × Place))
    → map (λ f. ManifestEntry.path f) (entries_of tree matched) ≡ keys matched
map-entries_of tree [] = refl
map-entries_of tree ((rel, p) ∷ matched) = ap (λ l. rel ∷ l) (map-entries_of tree matched)

pub mem-entries_of :
    (tree : Tree) (matched : List (String × Place)) (f : ManifestEntry)
    → Memᴰ f (entries_of tree matched)
    → Memᴰ f.path (keys matched) × IsHashed tree f
mem-entries_of tree [] f m = absurd (Memᴰ.not-nil m)
mem-entries_of tree ((rel, p) ∷ matched) f (Memᴰ.head e) =
    subst (λ g. Memᴰ (ManifestEntry.path g) (rel ∷ keys matched) × IsHashed tree g) (sym e)
      (
        Memᴰ.head refl,
        (
          ap (λ (h : String × ℕ). h.0) (hash_file_lem tree rel),
          ap (λ (h : String × ℕ). h.1) (hash_file_lem tree rel),
        ),
      )
mem-entries_of tree ((rel, p) ∷ matched) f (Memᴰ.tail m) =
    let (mk, h) = mem-entries_of tree matched f m in (Memᴰ.tail mk, h)

pub roles_of-HasFile :
    (tree : Tree) (matched : List (String × Place)) (rel : String) (role : Role)
    → lookup (roles_of matched) rel ≡ some role
    → HasFile (entries_of tree matched) role rel
roles_of-HasFile tree [] rel role h = cc
roles_of-HasFile tree ((k, p) ∷ matched) rel role h = elim (Bool-cases (k == rel)) [
  | inl here ↦
      (entry_of tree k p, Memᴰ.head refl, (string_eq.beq_iff k rel).0 here, some_inj (rw here at h))
  | inr there ↦
      let (f, m, e, r) = roles_of-HasFile tree matched rel role (rw there at h) in
      (f, Memᴰ.tail m, e, r)
]
