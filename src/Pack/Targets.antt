-- ===== src/Pack/Targets.antt =====
-- `target_issues`: every file that a target names is packed under its role.
use rtlfarm.Prelude.{
  ℕ, suc, String, ◌≡◌, refl, ◌↔◌, inl, inr, true, List, [], ◌∷◌, ◌++◌, All, lookup, Option, none,
  some, Bool-cases, string_eq, arith,
}
use rtlfarm.Models.{Role, tb, data', role_eq, Target}
use rtlfarm.Pack.{is_role, file_issues, target_issues}
use rtlfarm.Pack.Paths.{PackIssues}

-- The roles hold every file of the target under its own role.
abbrev pub IsPackedTarget : List (String × Role) → Target → Type 0
IsPackedTarget roles t =
    All (λ rel. lookup roles rel ≡ some tb) t.tb
    × All (λ rel. lookup roles rel ≡ some data') t.data_files

is_role_iff : (o : Option Role) (role : Role) → (is_role o role ≡ true) ↔ (o ≡ some role)
is_role_iff none role = (λ h. absurd cc, λ h. absurd cc)
is_role_iff (some other) role = ground (arith, role_eq.beq_iff other role)

pub append-eq-nil : (a b : PackIssues) → (a ++ b ≡ []) ↔ ((a ≡ []) × (b ≡ []))
append-eq-nil [] b = (λ h. (refl, h), λ h. h.1)
append-eq-nil (x ∷ a) b = (λ h. absurd cc, λ h. absurd cc)

file_issues_iff :
    (roles : List (String × Role)) (i : ℕ) (role : Role) (j : ℕ) (rels : List String)
    → (file_issues roles i role j rels ≡ []) ↔ All (λ rel. lookup roles rel ≡ some role) rels
unfolding file_issues
file_issues_iff roles i role j [] = (λ h. tt, λ h. refl)
file_issues_iff roles i role j (rel ∷ rels) =
    let here = is_role_iff (lookup roles rel) role in
    let rest = file_issues_iff roles i role (suc j) rels in
    elim (Bool-cases (is_role (lookup roles rel) role)) [
      | inl known ↦ rw (known, file_issues) (λ h. (here.0 known, rest.0 h), λ h. rest.1 h.1)
      | inr unknown ↦ rw (unknown, file_issues) (λ h. absurd cc, λ h. absurd (ground arith))
    ]

-- `target_issues` reports nothing exactly when every `tb` and `data` file that a target names is packed
-- under that role.
pub target_issues_iff :
    (roles : List (String × Role)) (i : ℕ) (targets : List Target)
    → (target_issues roles i targets ≡ []) ↔ All (IsPackedTarget roles) targets
unfolding target_issues
target_issues_iff roles i [] = (λ h. tt, λ h. refl)
target_issues_iff roles i (t ∷ ts) =
    let tbs = file_issues_iff roles i tb 0 t.tb in
    let datas = file_issues_iff roles i data' 0 t.data_files in
    let rest = target_issues_iff roles (suc i) ts in
    let outer =
      append-eq-nil (file_issues roles i tb 0 t.tb)
        (file_issues roles i data' 0 t.data_files ++ target_issues roles (suc i) ts) in
    let inner =
      append-eq-nil (file_issues roles i data' 0 t.data_files) (target_issues roles (suc i) ts) in
    (
      λ h. let (a, bc) = outer.0 h in let (b, c) = inner.0 bc in ((tbs.0 a, datas.0 b), rest.0 c),
      λ ((a, b), c). outer.1 (tbs.1 a, inner.1 (datas.1 b, rest.1 c)),
    )
