-- ===== src/Invariants/Kahn/Decides.antt =====
-- `kahn_has_cycle` ends, and its answer is whether the edges hold a cycle.
use mathlib.Core.List.Memᴰ
use mathlib.Core.Logic.{⊎_elim}
use mathlib.Core.List.{append-nil}
use rtlfarm.Prelude.{
  suc, ◌≤◌, String, ◌≡◌, refl, sym, ap, subst, ◌∙◌, ◌⊎◌, ◌≢◌, ◌↔◌, inl, inr, Bool, true, not, ◌&&◌,
  List, [], ◌∷◌, Memᴰ, Distinct, ◌==◌, contains, contains_iff, keys, length, Bool-cases, beq-false,
  string_eq, nat_eq, ok, arith,
}
use rtlfarm.Invariants.Kahn.{
  DepEdge, Degrees, count_edges, link_edges, push_ready, remove_ready, kahn_has_cycle,
}
use rtlfarm.Invariants.Kahn.Degrees.{
  pending, degree-count_edges, ends-count_edges, count_edges-Distinct, targets-link_edges,
  mem-push_ready, push_ready-Distinct,
}
use rtlfarm.Invariants.Kahn.Removal.{Inv, length_of_Distinct}
use rtlfarm.Invariants.Kahn.Rounds.{Ended, remove_ready-Ended}
use rtlfarm.Invariants.Kahn.Walk.{
  Leads, edge, then_edge, HasCycle, not-HasCycle-of_order, HasCycle-of_left,
}

length-keys : (d : Degrees) → length (keys d) ≡ length d
length-keys [] = refl
length-keys (x ∷ d) = ap suc (length-keys d)

pending-edge :
    (removed : List String) (es : List DepEdge) (node : String)
    → pending removed es node ≢ 0
    → (u : String) × Memᴰ (u, node) es × (¬ Memᴰ u removed)
pending-edge removed [] node some_left = absurd (some_left refl)
pending-edge removed ((u, t) ∷ es) node some_left =
    elim (Bool-cases (t == node && not (contains removed u))) [
      | inl counts ↦ (
        u,
        Memᴰ.head (ap (λ k. (u, k)) (sym ((string_eq.beq_iff t node).0 (ground arith)))),
        λ k. let there = (contains_iff removed u).1 k in ground arith,
      )
      | inr skipped ↦
          let (w, m, new) =
            pending-edge removed es node (λ none. some_left (rw skipped (omega arith))) in
          (w, Memᴰ.tail m, new)
    ]

module _ (es : List DepEdge) where
  abbrev indegree : Degrees
  indegree = count_edges [] es

  abbrev nodes : List String
  nodes = keys indegree

  once : Distinct nodes
  once = count_edges-Distinct [] es tt

  start : Inv es nodes [] [] indegree (push_ready indegree [])
  start = record {
    same = refl;
    value = λ x. degree-count_edges [] es x ∙ omega arith;
    none_left = λ x m. rw (append-nil (push_ready indegree [])) (
      λ k.
          ⊎_elim (λ n. absurd (Memᴰ.not-nil n)) (λ h. h.1)
            ((mem-push_ready indegree [] x once).0 k),
      λ e. (mem-push_ready indegree [] x once).1 (inr (m, e)),
    );
    once =
        rw (append-nil (push_ready indegree []))
          (push_ready-Distinct indegree [] once tt (λ x k. absurd (Memᴰ.not-nil k)));
    known = λ x k.
        ⊎_elim (λ n. absurd (Memᴰ.not-nil n)) (λ h. h.0)
          ((mem-push_ready indegree [] x once).0
            (subst (λ l. Memᴰ x l) (append-nil (push_ready indegree [])) k));
  }

  ended :
      (final : List String) × (remove_ready
          (length indegree)
          (link_edges [] es)
          indegree
          (push_ready indegree [])
          0
        ≡ ok (length final))
      × Ended es nodes final
  ended =
      remove_ready-Ended es nodes (link_edges [] es) (λ e m. (ends-count_edges [] es e m).1)
        (λ node. targets-link_edges [] es node) (length indegree) indegree (push_ready indegree [])
        [] start tt (omega (arith, length-keys indegree))

  -- A node whose removal is not in the order has an edge from another such node.
  back :
      (final : List String)
      → Ended es nodes final
      → (x : String) → Memᴰ x nodes
      → (¬ Memᴰ x final)
      → (u : String) × Memᴰ (u, x) es × Memᴰ u nodes × (¬ Memᴰ u final)
  back final end x m left =
      let inv = Ended.inv end in
      let (u, e, new) = pending-edge final es x (λ none_left.
        left ((Inv.none_left inv x m).1 (Inv.value inv x ∙ omega (arith, none_left)))) in
      (u, e, (ends-count_edges [] es (u, x) e).0, new)

  ends-Leads : {a b : String} → Leads es a b → Memᴰ b nodes
  ends-Leads (edge m) = (ends-count_edges [] es _ m).1
  ends-Leads (then_edge l m) = (ends-count_edges [] es _ m).1

  all_removed :
      (final : List String)
      → Ended es nodes final
      → length final ≡ length nodes
      → (x : String) → Memᴰ x nodes
      → Memᴰ x final
  all_removed final end same x m = elim (Bool-cases (contains final x)) [
    | inl there ↦ (contains_iff final x).0 there
    | inr new ↦ absurd (
        let more : suc (length final) ≤ length nodes =
          length_of_Distinct (x ∷ final) nodes
            (λ k. cc (sym new ∙ (contains_iff final x).1 k), Inv.once (Ended.inv end))
            (λ a k. ⊎_elim (λ e. rw e m) (Inv.known (Ended.inv end) a) (Memᴰ.cases_cons k)) in
        omega arith)
  ]

  -- Every node was removed, or one was not.
  left_over :
      (final xs : List String)
      → ((x : String) → Memᴰ x xs → Memᴰ x final) ⊎ ((x : String) × Memᴰ x xs × (¬ Memᴰ x final))
  left_over final [] = inl (λ x m. absurd (Memᴰ.not-nil m))
  left_over final (x ∷ xs) = elim (Bool-cases (contains final x)) [
    | inl there ↦
        ⊎_elim
          (λ h.
            inl (λ y m.
              ⊎_elim (λ e. rw e ((contains_iff final x).0 there)) (h y) (Memᴰ.cases_cons m)))
          (λ (y, m, new). inr (y, Memᴰ.tail m, new)) (left_over final xs)
    | inr new ↦ inr (x, Memᴰ.head refl, λ k. cc (sym new ∙ (contains_iff final x).1 k))
  ]

  cycle_of_fewer :
      (final : List String) → Ended es nodes final → length final ≢ length nodes → HasCycle es
  cycle_of_fewer final end fewer =
      ⊎_elim
        (λ all_there. absurd (
          fewer (
            omega (
              arith,
              length_of_Distinct nodes final once all_there,
              length_of_Distinct final nodes (Inv.once (Ended.inv end)) (Inv.known (Ended.inv end)),
            ))))
        (λ (x, m, new). HasCycle-of_left es nodes final (back final end) x m new)
        (left_over final nodes)

-- `_has_cycle` returns for every list of edges, and says that there is a cycle exactly when a chain
-- of one edge or more leads from some node back to it.
pub kahn_decides :
    (es : List DepEdge)
    → (found : Bool) × (kahn_has_cycle es ≡ ok found) × ((found ≡ true) ↔ HasCycle es)
unfolding kahn_has_cycle
kahn_decides es =
    let (final, returns, end) = ended es in
    let size : length (keys (count_edges [] es)) ≡ length (count_edges [] es) =
      length-keys (count_edges [] es) in
    (
      not (length final == length (count_edges [] es)),
      rw returns refl,
      elim (Bool-cases (length final == length (count_edges [] es))) [
        | inl all_there ↦ rw all_there (
          λ no. cc,
          λ (node, l). absurd (
              not-HasCycle-of_order final (Ended.order end) (Inv.once (Ended.inv end))
                (all_removed es final end
                  ((nat_eq.beq_iff _ (length (count_edges [] es))).0 all_there ∙ sym size) node
                  (ends-Leads es l))
                l),
        )
        | inr fewer ↦ rw fewer (
          λ _.
              cycle_of_fewer es final end
                (λ same. beq-false _ (length (count_edges [] es)) fewer (same ∙ size)),
          λ _. refl,
        )
      ],
    )
