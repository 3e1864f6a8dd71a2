-- ===== src/Invariants/Kahn/Rounds.antt =====
-- The loop of `kahn_has_cycle`: what each round keeps, and where it ends.
use mathlib.Core.List.Memᴰ
use mathlib.Core.Logic.{⊎_elim}
use rtlfarm.Prelude.{
  ℕ, zero, suc, ◌+◌, ◌≤◌, String, ◌≡◌, refl, sym, ap, subst, ◌∙◌, inl, inr, List, [], ◌∷◌, ◌++◌,
  Memᴰ, ◌==◌, contains, contains_iff, length, length-append, Bool-cases, ok, string_eq, nat_eq,
  arith,
}
use rtlfarm.Invariants.Kahn.{DepEdge, Degrees, Downstream, targets_of, relax, remove_ready}
use rtlfarm.Invariants.Kahn.Degrees.{pending, tasks_behind}
use rtlfarm.Invariants.Kahn.Removal.{length_of_Distinct, IsOrder, Inv, relax-Inv, remove-Inv}

pending_none :
    (removed : List String) (es : List DepEdge) (node : String)
    → pending removed es node ≡ 0
    → (e : DepEdge) → Memᴰ e es
    → e.1 ≡ node
    → Memᴰ e.0 removed
pending_none removed [] node none_left e m to = absurd (Memᴰ.not-nil m)
pending_none removed (f ∷ es) node none_left e (Memᴰ.tail m) to =
    pending_none removed es node (omega arith) e m to
pending_none removed ((u, t) ∷ es) node none_left e (Memᴰ.head same) to =
    let here : t ≡ node = sym (ap (λ x. x.1) same) ∙ to in
    subst (λ k. Memᴰ k removed) (sym (ap (λ x. x.0) same))
      ((contains_iff removed u).0 (elim (Bool-cases (contains removed u)) [
        | inl there ↦ there
        | inr new ↦ absurd (
            let shown : pending removed ((u, t) ∷ es) node ≡ suc (pending removed es node) =
              rw ((string_eq.beq_iff t node).1 here, new) (omega arith) in
            omega (arith, shown))
      ]))

mem-tasks_behind :
    (es : List DepEdge) (nodes : List String) (node : String)
    → ((e : DepEdge) → Memᴰ e es → Memᴰ e.1 nodes)
    → (x : String) → Memᴰ x (tasks_behind node es)
    → Memᴰ x nodes
mem-tasks_behind [] nodes node within x m = absurd (Memᴰ.not-nil m)
mem-tasks_behind (e ∷ es) nodes node within x m =
    let rest = mem-tasks_behind es nodes node (λ f mf. within f (Memᴰ.tail mf)) x in
    elim (Bool-cases (e.0 == node)) [
      | inl same ↦
          ⊎_elim (λ first. rw first (within e (Memᴰ.head refl))) rest
            (Memᴰ.cases_cons (rw same at m))
      | inr other ↦ rest (rw other at m)
    ]

-- Where the loop ends: nothing is ready, and `removed` stands behind what leads to it.
pub record Ended (es : List DepEdge) (nodes removed : List String) : Type 0 where
  pub indegree : Degrees
  pub inv : Inv es nodes removed [] indegree []
  pub order : IsOrder es removed

-- With fuel for each node that is not removed yet, the loop ends.
pub remove_ready-Ended :
    (es : List DepEdge) (nodes : List String) (downstream : Downstream)
    → ((e : DepEdge) → Memᴰ e es → Memᴰ e.1 nodes)
    → ((node : String) → targets_of downstream node ≡ tasks_behind node es)
    → (fuel : ℕ) (indegree : Degrees) (ready removed : List String)
    → Inv es nodes removed [] indegree ready
    → IsOrder es removed
    → length nodes ≤ fuel + length removed
    → (final : List String) × (remove_ready fuel downstream indegree ready (length removed)
        ≡ ok (length final))
      × Ended es nodes final
unfolding remove_ready
remove_ready-Ended es nodes downstream within linked zero indegree [] removed h order enough =
    (removed, refl, record { indegree = indegree; inv = h; order = order })
remove_ready-Ended es nodes downstream within linked (suc fuel) indegree [] removed h order enough =
    (removed, refl, record { indegree = indegree; inv = h; order = order })
remove_ready-Ended es nodes downstream within linked zero indegree (node ∷ ready) removed h order
      enough =
    absurd (
      omega (
        arith,
        length_of_Distinct (node ∷ ready ++ removed) nodes h.once h.known,
        length-append (node ∷ ready) removed,
      ))
remove_ready-Ended es nodes downstream within linked (suc fuel) indegree (node ∷ ready) removed h
      order enough =
    let tasks : List String = targets_of downstream node in
    let more =
      relax-Inv es nodes (node ∷ removed) tasks indegree ready
        (λ x m. mem-tasks_behind es nodes node within x (subst (λ l. Memᴰ x l) (linked node) m))
        (subst (λ l. Inv es nodes (node ∷ removed) l indegree ready) (sym (linked node))
          (remove-Inv es nodes removed node indegree ready h)) in
    let first : pending removed es node ≡ 0 = omega (
      arith,
      h.value node,
      (h.none_left node (h.known node (Memᴰ.head refl))).0 (Memᴰ.head refl),
    ) in
    remove_ready-Ended es nodes downstream within linked fuel (relax indegree ready tasks).0
      (relax indegree ready tasks).1 (node ∷ removed) more
      (pending_none removed es node first, order) (omega arith)
