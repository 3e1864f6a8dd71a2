-- ===== src/Invariants/Kahn/Degrees.antt =====
-- What the dictionaries of `kahn_has_cycle` hold before the loop.
use mathlib.Core.List.Memᴰ
use mathlib.Core.Logic.{⊎_elim}
use mathlib.Core.List.{append_assoc, append-nil}
use rtlfarm.Prelude.{
  lookup-insert, mem-keys-insert, keys-insert-Distinct, keys_of_lookup, ℕ, ◌+◌, String, ◌≡◌, refl,
  sym, ap, ◌∙◌, ◌↔◌, ◌⊎◌, inl, inr, Bool, true, false, not, ◌&&◌, List, [], ◌∷◌, ◌++◌, Memᴰ,
  Memᴰ-cons, Distinct, ◌==◌, contains, lookup, insert, keys, none, if◌then◌else◌, Bool-cases,
  Option-cases, string_eq, nat_eq, arith,
}
use rtlfarm.Invariants.Kahn.{
  DepEdge, Degrees, Downstream, degree, targets_of, set_default, count_edge, count_edges,
  link_edges, push_ready,
}

-- How often a node stands in a list.
abbrev pub occurs : String → List String → ℕ
occurs node [] = 0
occurs node (x ∷ xs) = (if x == node then 1 else 0) + occurs node xs

-- How many edges lead to a node from one that is not removed.
abbrev pub pending : List String → List DepEdge → String → ℕ
pending removed [] node = 0
pending removed ((upstream, task) ∷ es) node =
    (if task == node && not (contains removed upstream) then 1 else 0) + pending removed es node

-- The tasks that edges lead to from a node.
abbrev pub tasks_behind : String → List DepEdge → List String
tasks_behind node [] = []
tasks_behind node ((upstream, task) ∷ es) =
    if upstream == node then task ∷ tasks_behind node es else tasks_behind node es

pub degree-insert :
    (d : Degrees) (k j : String) (n : ℕ)
    → degree (insert d k n) j ≡ (if k == j then n else degree d j)
degree-insert d k j n = elim (Bool-cases (k == j)) [
  | inl same ↦ rw (lookup-insert d k j n, degree, same) refl
  | inr other ↦ rw (lookup-insert d k j n, degree, other) refl
]

degree-set_default : (d : Degrees) (k j : String) → degree (set_default d k) j ≡ degree d j
unfolding set_default
degree-set_default d k j = elim (Option-cases (lookup d k)) [
  | inl new ↦ rw (new, set_default) (degree-insert d k j 0 ∙ absent (k == j) refl new)
  | inr (n, old) ↦ rw (old, set_default) refl
]
  where
    absent :
        (b : Bool) → k == j ≡ b → lookup d k ≡ none → (if b then 0 else degree d j) ≡ degree d j
    absent true e new = rw (sym (ap (lookup d) ((string_eq.beq_iff k j).0 e)) ∙ new, degree) refl
    absent false e new = refl

mem-set_default :
    (d : Degrees) (k x : String) → Memᴰ x (keys (set_default d k)) ↔ ((x ≡ k) ⊎ Memᴰ x (keys d))
unfolding set_default
mem-set_default d k x = elim (Option-cases (lookup d k)) [
  | inl new ↦ rw (new, set_default) (mem-keys-insert d k x 0)
  | inr (n, old) ↦
      rw (old, set_default) (inr, ⊎_elim (λ same. rw same (keys_of_lookup d k n old)) (λ m. m))
]

set_default-Distinct :
    (d : Degrees) (k : String) → Distinct (keys d) → Distinct (keys (set_default d k))
unfolding set_default
set_default-Distinct d k h = elim (Option-cases (lookup d k)) [
  | inl new ↦ rw (new, set_default) (keys-insert-Distinct d k 0 h)
  | inr (n, old) ↦ rw (old, set_default) h
]

degree-count_edge :
    (d : Degrees) (e : DepEdge) (node : String)
    → degree (count_edge d e) node ≡ degree d node + (if e.1 == node then 1 else 0)
unfolding count_edge
degree-count_edge d e node =
    degree-insert (set_default d e.0) e.1 node (degree (set_default d e.0) e.1 + 1)
    ∙ elim (Bool-cases (e.1 == node)) [
      | inl same ↦ rw same (
          ap (λ n. n + 1)
            (degree-set_default d e.0 e.1 ∙ ap (degree d) ((string_eq.beq_iff e.1 node).0 same)))
      | inr other ↦ rw other (degree-set_default d e.0 node ∙ omega arith)
    ]

mem-count_edge :
    (d : Degrees) (e : DepEdge) (x : String)
    → ((x ≡ e.0) ⊎ ((x ≡ e.1) ⊎ Memᴰ x (keys d)))
    → Memᴰ x (keys (count_edge d e))
unfolding count_edge
mem-count_edge d e x =
    let known : Degrees = set_default d e.0 in
    let n : ℕ = degree known e.1 + 1 in
    ⊎_elim (λ m. (mem-keys-insert known e.1 x n).1 (inr ((mem-set_default d e.0 x).1 (inl m))))
      (⊎_elim (λ m. (mem-keys-insert known e.1 x n).1 (inl m))
        (λ m. (mem-keys-insert known e.1 x n).1 (inr ((mem-set_default d e.0 x).1 (inr m)))))

count_edge-Distinct :
    (d : Degrees) (e : DepEdge) → Distinct (keys d) → Distinct (keys (count_edge d e))
unfolding count_edge
count_edge-Distinct d e h =
    keys-insert-Distinct (set_default d e.0) e.1 (degree (set_default d e.0) e.1 + 1)
      (set_default-Distinct d e.0 h)

-- After the edges are counted, a node's degree is the number of edges that lead to it.
pub degree-count_edges :
    (d : Degrees) (es : List DepEdge) (node : String)
    → degree (count_edges d es) node ≡ degree d node + pending [] es node
unfolding count_edges
degree-count_edges d [] node = omega arith
degree-count_edges d (e ∷ es) node =
    degree-count_edges (count_edge d e) es node ∙ elim (Bool-cases (e.1 == node)) [
      | inl same ↦ rw (degree-count_edge d e node, same) (omega arith)
      | inr other ↦ rw (degree-count_edge d e node, other) (omega arith)
    ]

mem-count_edges :
    (d : Degrees) (es : List DepEdge) (x : String)
    → Memᴰ x (keys d)
    → Memᴰ x (keys (count_edges d es))
unfolding count_edges
mem-count_edges d [] x m = m
mem-count_edges d (e ∷ es) x m =
    mem-count_edges (count_edge d e) es x (mem-count_edge d e x (inr (inr m)))

pub ends-count_edges :
    (d : Degrees) (es : List DepEdge) (e : DepEdge)
    → Memᴰ e es
    → Memᴰ e.0 (keys (count_edges d es)) × Memᴰ e.1 (keys (count_edges d es))
unfolding count_edges
ends-count_edges d [] e m = absurd (Memᴰ.not-nil m)
ends-count_edges d (f ∷ es) e (Memᴰ.tail m) = ends-count_edges (count_edge d f) es e m
ends-count_edges d (f ∷ es) e (Memᴰ.head same) = (
  mem-count_edges (count_edge d f) es e.0 (mem-count_edge d f e.0 (inl (ap (λ x. x.0) same))),
  mem-count_edges (count_edge d f) es e.1 (mem-count_edge d f e.1 (inr (inl (ap (λ x. x.1) same)))),
)

pub count_edges-Distinct :
    (d : Degrees) (es : List DepEdge) → Distinct (keys d) → Distinct (keys (count_edges d es))
unfolding count_edges
count_edges-Distinct d [] h = h
count_edges-Distinct d (e ∷ es) h =
    count_edges-Distinct (count_edge d e) es (count_edge-Distinct d e h)

targets-insert :
    (d : Downstream) (k j : String) (tasks : List String)
    → targets_of (insert d k tasks) j ≡ (if k == j then tasks else targets_of d j)
targets-insert d k j tasks = elim (Bool-cases (k == j)) [
  | inl same ↦ rw (lookup-insert d k j tasks, targets_of, same) refl
  | inr other ↦ rw (lookup-insert d k j tasks, targets_of, other) refl
]

pub targets-link_edges :
    (d : Downstream) (es : List DepEdge) (node : String)
    → targets_of (link_edges d es) node ≡ targets_of d node ++ tasks_behind node es
unfolding link_edges
targets-link_edges d [] node = sym (append-nil (targets_of d node))
targets-link_edges d ((upstream, task) ∷ es) node =
    targets-link_edges (insert d upstream (targets_of d upstream ++ task ∷ [])) es node
    ∙ ap (λ l. l ++ tasks_behind node es)
        (targets-insert d upstream node (targets_of d upstream ++ task ∷ []))
    ∙ elim (Bool-cases (upstream == node)) [
      | inl same ↦ rw same (
          append_assoc (targets_of d upstream) (task ∷ []) (tasks_behind node es)
          ∙ ap (λ k. targets_of d k ++ task ∷ tasks_behind node es)
              ((string_eq.beq_iff upstream node).0 same))
      | inr other ↦ rw other refl
    ]

-- The edges from a node are pending until it is removed.
pub pending-remove :
    (removed : List String) (es : List DepEdge) (upstream node : String)
    → contains removed upstream ≡ false
    → pending removed es node
      ≡ pending (upstream ∷ removed) es node + occurs node (tasks_behind upstream es)
pending-remove removed [] upstream node new = omega arith
pending-remove removed ((u, task) ∷ es) upstream node new =
    let rest = pending-remove removed es upstream node new in
    elim (Bool-cases (u == upstream)) [
      | inl same ↦
          let known : contains removed u ≡ false =
            ap (contains removed) ((string_eq.beq_iff u upstream).0 same) ∙ new in
          rw (same, known) (ground (arith, rest))
      | inr other ↦ rw other (ground (arith, rest))
    ]

-- [node for node, n in indegree.items() if n == 0]
pub mem-push_ready :
    (d : Degrees) (ready : List String) (node : String)
    → Distinct (keys d)
    → Memᴰ node (push_ready d ready)
      ↔ (Memᴰ node ready ⊎ (Memᴰ node (keys d) × (degree d node ≡ 0)))
unfolding push_ready
mem-push_ready [] ready node once = (inl, ⊎_elim (λ m. m) (λ h. absurd (Memᴰ.not-nil h.0)))
mem-push_ready ((x, n) ∷ d) ready node once = ground (
  arith,
  mem-push_ready d (x ∷ ready) node once.1,
  mem-push_ready d ready node once.1,
  Memᴰ-cons node x ready,
  Memᴰ-cons node x (keys d),
  string_eq.beq_iff x node,
  gone,
)
  where
    gone : x ≡ node → ¬ Memᴰ node (keys d)
    gone same m = once.0 (rw same m)

pub push_ready-Distinct :
    (d : Degrees) (ready : List String)
    → Distinct (keys d)
    → Distinct ready
    → ((x : String) → Memᴰ x ready → ¬ Memᴰ x (keys d))
    → Distinct (push_ready d ready)
unfolding push_ready
push_ready-Distinct [] ready once h apart = h
push_ready-Distinct ((x, n) ∷ d) ready once h apart = elim (Bool-cases (n == 0)) [
  | inl zero_degree ↦ rw zero_degree (
      push_ready-Distinct d (x ∷ ready) once.1 (λ m. apart x m (Memᴰ.head refl), h)
        (λ y m k.
          ⊎_elim (λ same. once.0 (rw same at k)) (λ old. apart y old (Memᴰ.tail k))
            (Memᴰ.cases_cons m)))
  | inr more ↦ rw more (push_ready-Distinct d ready once.1 h (λ y m k. apart y m (Memᴰ.tail k)))
]
