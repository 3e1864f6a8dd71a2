-- ===== src/Pack/Collect.antt =====
-- The loop of `pack` over roles, globs and paths.
use rtlfarm.Prelude.{
  ℕ, suc, String, ◌++ˢ◌, Bool, true, false, List, [], ◌∷◌, ◌++◌, ◌==◌, lookup, none, some,
  if◌then◌else◌, leb, string_eq,
}
use rtlfarm.Ids.Decimal.{decimal}
use rtlfarm.Models.{Role, rtl, include, tb, data', role_eq}
use rtlfarm.Manifest.{role_name}
use rtlfarm.Sorting.{sorted}
use rtlfarm.Pack.Paths.{
  Tree, PackMessage, matched_no_files, matched_by_two, PackIssues, bad_pattern, expand_glob,
}

-- (role, ordinal, pointer)
pub record Place : Type 0 where
  pub role : Role
  pub ordinal : ℕ
  pub pointer : String

pub record Matching : Type 0 where
  pub issues : PackIssues
  pub matched : List (String × Place)

-- ROLES.index(role)
unfoldable pub role_index : Role → ℕ
role_index rtl = 0
role_index include = 1
role_index tb = 2
role_index data' = 3

abbrev pub issue : String → PackMessage → Matching → Matching
issue place message m = record m {
  issues = m.issues ++ record { place = place; message = message } ∷ [];
}

abbrev pub add : String → Place → Matching → Matching
add rel p m = record m { matched = m.matched ++ (rel, p) ∷ [] }

-- for rel in paths: ...
unfoldable pub collect_paths : Role → String → List String → ℕ → Matching → ℕ × Matching
collect_paths role pointer [] ordinal m = (ordinal, m)
collect_paths role pointer (rel ∷ rels) ordinal m = elim (lookup m.matched rel) [
  | some other ↦
      collect_paths role pointer rels ordinal (
        if Place.role other == role
        then m
        else issue rel (matched_by_two (Place.role other) role) m)
  | none ↦
      collect_paths role pointer rels (suc ordinal)
        (add rel (record { role = role; ordinal = ordinal; pointer = pointer }) m)
]

abbrev pub is_nil : List String → Bool
is_nil [] = true
is_nil (x ∷ xs) = false

abbrev pub glob_pointer : Role → ℕ → String
glob_pointer role i = "/design/files/" ++ˢ (role_name role ++ˢ ("/" ++ˢ decimal i))

abbrev pub collect_found : Role → String → List String → ℕ → Matching → ℕ × Matching
collect_found role pointer paths ordinal m =
    if is_nil paths
    then (ordinal, issue pointer matched_no_files m)
    else collect_paths role pointer paths ordinal m

-- One round of the loop over globs, at the ordinal that the round starts with.
unfoldable pub collect_glob : Tree → List String → Role → ℕ → String → ℕ × Matching → ℕ × Matching
unfolding collect_paths
collect_glob tree excluded role i pattern (ordinal, m) =
    let pointer = glob_pointer role i in
    elim (bad_pattern pattern) [
      | some problem ↦ (ordinal, issue pointer problem m)
      | none ↦ collect_found role pointer (expand_glob tree excluded pattern) ordinal m
    ]

unfoldable pub collect_globs :
    Tree → List String → Role → ℕ → List String → ℕ × Matching → ℕ × Matching
unfolding collect_glob
collect_globs tree excluded role i [] s = s
collect_globs tree excluded role i (pattern ∷ globs) s =
    collect_globs tree excluded role (suc i) globs (collect_glob tree excluded role i pattern s)

unfoldable pub collect_roles : Tree → List String → List (Role × List String) → Matching → Matching
unfolding collect_globs
collect_roles tree excluded [] m = m
collect_roles tree excluded ((role, globs) ∷ rest) m =
    collect_roles tree excluded rest (collect_globs tree excluded role 0 globs (0, m)).1

abbrev pub by_role : List (Role × List String) → List (Role × List String)
by_role files = sorted (λ a b. leb (role_index a.0) (role_index b.0)) files

unfoldable pub collect : Tree → List String → List (Role × List String) → Matching
unfolding collect_roles
collect tree excluded files =
    collect_roles tree excluded (by_role files) (record { issues = []; matched = [] })
