-- ===== src/Pack/Once.antt =====
-- The loop of `pack` matches a path once.
use mathlib.Core.List.Memᴰ
use rtlfarm.Prelude.{
  ℕ, suc, String, ◌≡◌, refl, sym, ap, subst, inl, inr, List, [], ◌∷◌, ◌++◌, Memᴰ, Distinct, keys,
  lookup, none, Bool-cases, Option-cases, ◌==◌, string_eq,
}
use rtlfarm.Models.{Role, role_eq}
use rtlfarm.Pipeline.Graph.{lookup_of_key}
use rtlfarm.Dag.Keys.{Distinct-append}
use rtlfarm.Pack.Paths.{Tree, bad_pattern, expand_glob}
use rtlfarm.Pack.Collect.{
  Place, Matching, add, collect_paths, collect_found, glob_pointer, collect_glob, collect_globs,
  collect_roles, by_role, collect,
}

abbrev pub IsOnce : Matching → Type 0
IsOnce m = Distinct (keys m.matched)

keys-append : (d e : List (String × Place)) → keys (d ++ e) ≡ keys d ++ keys e
keys-append [] e = refl
keys-append ((k, v) ∷ d) e = ap (λ l. k ∷ l) (keys-append d e)

add-IsOnce :
    (rel : String) (p : Place) (m : Matching)
    → lookup m.matched rel ≡ none
    → IsOnce m
    → IsOnce (add rel p m)
add-IsOnce rel p m new once = subst Distinct (sym (keys-append m.matched ((rel, p) ∷ []))) (
    Distinct-append (keys m.matched) (rel ∷ []) once (Memᴰ.not-nil, tt)
      (λ k mk last.
        lookup_of_key m.matched rel
          (subst (λ x. Memᴰ x (keys m.matched)) (Memᴰ.eq_of_singleton last) mk) new))

collect_paths-IsOnce :
    (role : Role) (pointer : String) (rels : List String) (ordinal : ℕ) (m : Matching)
    → IsOnce m
    → IsOnce (collect_paths role pointer rels ordinal m).1
unfolding collect_paths
collect_paths-IsOnce role pointer [] ordinal m once = once
collect_paths-IsOnce role pointer (rel ∷ rels) ordinal m once =
    elim (Option-cases (lookup m.matched rel)) [
      | inl new ↦
          rw (new, collect_paths)
            (collect_paths-IsOnce role pointer rels (suc ordinal) _ (add-IsOnce rel _ m new once))
      | inr (other, old) ↦ elim (Bool-cases (Place.role other == role)) [
        | inl same ↦
            rw (old, collect_paths, same) (collect_paths-IsOnce role pointer rels ordinal m once)
        | inr two ↦
            rw (old, collect_paths, two) (collect_paths-IsOnce role pointer rels ordinal _ once)
      ]
    ]

collect_found-IsOnce :
    (role : Role) (pointer : String) (rels : List String) (ordinal : ℕ) (m : Matching)
    → IsOnce m
    → IsOnce (collect_found role pointer rels ordinal m).1
collect_found-IsOnce role pointer [] ordinal m once = once
collect_found-IsOnce role pointer (rel ∷ rels) ordinal m once =
    collect_paths-IsOnce role pointer (rel ∷ rels) ordinal m once

module _ (tree : Tree) (excluded : List String) where
  collect_glob-IsOnce :
      (role : Role) (i : ℕ) (pattern : String) (s : ℕ × Matching)
      → IsOnce s.1
      → IsOnce (collect_glob tree excluded role i pattern s).1
  unfolding collect_glob
  collect_glob-IsOnce role i pattern (ordinal, m) once = elim (Option-cases (bad_pattern pattern)) [
    | inl fine ↦
        rw (fine, collect_glob)
          (collect_found-IsOnce role (glob_pointer role i) (expand_glob tree excluded pattern)
            ordinal m once)
    | inr (problem, bad) ↦ rw (bad, collect_glob) once
  ]

  collect_globs-IsOnce :
      (role : Role) (i : ℕ) (globs : List String) (s : ℕ × Matching)
      → IsOnce s.1
      → IsOnce (collect_globs tree excluded role i globs s).1
  unfolding collect_globs
  collect_globs-IsOnce role i [] s once = once
  collect_globs-IsOnce role i (g ∷ gs) s once =
      collect_globs-IsOnce role (suc i) gs _ (collect_glob-IsOnce role i g s once)

  collect_roles-IsOnce :
      (files : List (Role × List String)) (m : Matching)
      → IsOnce m
      → IsOnce (collect_roles tree excluded files m)
  unfolding collect_roles
  collect_roles-IsOnce [] m once = once
  collect_roles-IsOnce ((role, globs) ∷ rest) m once =
      collect_roles-IsOnce rest _ (collect_globs-IsOnce role 0 globs (0, m) once)

  pub collect-IsOnce : (files : List (Role × List String)) → IsOnce (collect tree excluded files)
  unfolding collect
  collect-IsOnce files = collect_roles-IsOnce (by_role files) _ tt
