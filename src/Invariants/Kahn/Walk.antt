-- ===== src/Invariants/Kahn/Walk.antt =====
-- Cycles of edges: one is found by walking back, and an order of removal rules them out.
use mathlib.Core.List.Memᴰ
use mathlib.Core.Logic.{⊎_elim}
use rtlfarm.Prelude.{
  ℕ, zero, suc, ◌+◌, ◌≤◌, String, ◌≡◌, sym, subst, inl, inr, false, List, [], ◌∷◌, Memᴰ, Distinct,
  contains, contains_iff, length, Bool-cases, string_eq, arith,
}
use rtlfarm.Invariants.Kahn.{DepEdge}
use rtlfarm.Invariants.Kahn.Removal.{IsOrder, length_of_Distinct}

-- A chain of one edge or more.
pub data Leads (es : List DepEdge) (a : String) : String → Type 0 where
  edge : {b : String} → Memᴰ (a, b) es → Leads es a b
  then_edge : {b c : String} → Leads es a b → Memᴰ (b, c) es → Leads es a c

abbrev pub HasCycle : List DepEdge → Type 0
HasCycle es = (node : String) × Leads es node node

before_edge : {es : List DepEdge} {a b c : String} → Memᴰ (a, b) es → Leads es b c → Leads es a c
before_edge m (edge n) = then_edge (edge m) n
before_edge m (then_edge l n) = then_edge (before_edge m l) n

order-edge :
    {es : List DepEdge} {a b : String} (removed : List String)
    → IsOrder es removed
    → Memᴰ b removed
    → Memᴰ (a, b) es
    → Memᴰ a removed
order-edge [] order m n = absurd (Memᴰ.not-nil m)
order-edge (x ∷ removed) order (Memᴰ.head here) n = Memᴰ.tail (order.0 _ n here)
order-edge (x ∷ removed) order (Memᴰ.tail m) n = Memᴰ.tail (order-edge removed order.1 m n)

-- An order of removal holds whatever leads to one of its nodes.
order-Leads :
    {es : List DepEdge} {a b : String} (removed : List String)
    → IsOrder es removed
    → Memᴰ b removed
    → Leads es a b
    → Memᴰ a removed
order-Leads removed order m (edge n) = order-edge removed order m n
order-Leads removed order m (then_edge l n) =
    order-Leads removed order (order-edge removed order m n) l

pub not-HasCycle-of_order :
    {es : List DepEdge} {node : String} (removed : List String)
    → IsOrder es removed
    → Distinct removed
    → Memᴰ node removed
    → ¬ Leads es node node
not-HasCycle-of_order [] order once m l = absurd (Memᴰ.not-nil m)
not-HasCycle-of_order {es} {node} (x ∷ removed) order once m l =
    ⊎_elim (λ here. once.0 (subst (λ k. Memᴰ k removed) here (last here l)))
      (λ behind. not-HasCycle-of_order removed order.1 once.1 behind l) (Memᴰ.cases_cons m)
  where
    last : {a b : String} → b ≡ x → Leads es a b → Memᴰ a removed
    last here (edge n) = order.0 _ n here
    last here (then_edge l n) = order-Leads removed order.1 (order.0 _ n here) l

-- The nodes that are not removed, each with an edge to it from another of them.
module _ (es : List DepEdge) (nodes removed : List String)
    (back : (x : String)
      → Memᴰ x nodes
      → (¬ Memᴰ x removed)
      → (u : String) × Memᴰ (u, x) es × Memᴰ u nodes × (¬ Memᴰ u removed)) where
  -- A walk back meets a node again, since `nodes` are finitely many.
  walk :
      (fuel : ℕ) (seen : List String) (x : String)
      → Memᴰ x nodes
      → (¬ Memᴰ x removed)
      → Distinct (x ∷ seen)
      → ((y : String) → Memᴰ y seen → Leads es x y × Memᴰ y nodes)
      → length nodes ≤ fuel + length seen
      → HasCycle es
  walk zero seen x m left once chain enough = absurd (
      omega (
        arith,
        length_of_Distinct (x ∷ seen) nodes once
            (λ a k. ⊎_elim (λ e. rw e m) (λ q. (chain a q).1) (Memᴰ.cases_cons k)),
      ))
  walk (suc fuel) seen x m left once chain enough =
      let (u, e, mu, stays) = back x m left in
      elim (Bool-cases (contains (x ∷ seen) u)) [
        | inl met ↦ (
          u,
          ⊎_elim (λ same. subst (λ k. Leads es u k) (sym same) (edge e))
              (λ old. before_edge e (chain u old).0)
              (Memᴰ.cases_cons ((contains_iff (x ∷ seen) u).0 met)),
        )
        | inr new ↦
            walk fuel (x ∷ seen) u mu stays (not_mem new, once)
              (λ y k.
                ⊎_elim (λ same. rw same (edge e, m))
                  (λ old. (before_edge e (chain y old).0, (chain y old).1)) (Memᴰ.cases_cons k))
              (omega arith)
      ]
    where
      not_mem : {u : String} → contains (x ∷ seen) u ≡ false → ¬ Memᴰ u (x ∷ seen)
      not_mem {u} new k = let there = (contains_iff (x ∷ seen) u).1 k in cc

  pub HasCycle-of_left : (x : String) → Memᴰ x nodes → (¬ Memᴰ x removed) → HasCycle es
  HasCycle-of_left x m left =
      walk (length nodes) [] x m left (Memᴰ.not-nil, tt) (λ y k. absurd (Memᴰ.not-nil k))
        (omega arith)
