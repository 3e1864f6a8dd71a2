-- ===== src/Invariants/Linked.antt =====
-- The dependencies of an expanded job hold no cycle.
use mathlib.Core.List.Memᴰ
use mathlib.Core.Logic.{⊎_elim}
use rtlfarm.Prelude.{
  String, ◌≡◌, refl, sym, ap, subst, ◌∙◌, List, [], ◌∷◌, ◌++◌, map, Memᴰ, Memᴰ-append, Distinct,
  All-Memᴰ, inl, inr, ◌⊎◌, string_eq,
}
use rtlfarm.Dag.{TaskSpec}
use rtlfarm.Dag.Tasks.{ids}
use rtlfarm.Dag.Plan.{IsLinked}
use rtlfarm.Dag.Rows.{Row, rows_of, rows, mem-rows_of, mem-rows}
use rtlfarm.Submit.Stored.{map-mem, mem-map}
use rtlfarm.Invariants.Kahn.{DepEdge}
use rtlfarm.Invariants.Kahn.Removal.{IsOrder}
use rtlfarm.Invariants.Kahn.Walk.{Leads, edge, then_edge, HasCycle, not-HasCycle-of_order}

Leads-mono :
    {es fs : List DepEdge} {a b : String}
    → ((e : DepEdge) → Memᴰ e es → Memᴰ e fs)
    → Leads es a b
    → Leads fs a b
Leads-mono within (edge m) = edge (within _ m)
Leads-mono within (then_edge l m) = then_edge (Leads-mono within l) (within _ m)

-- Fewer edges hold no cycle that more do not.
pub HasCycle-mono :
    {es fs : List DepEdge} → ((e : DepEdge) → Memᴰ e es → Memᴰ e fs) → HasCycle es → HasCycle fs
HasCycle-mono within (node, l) = (node, Leads-mono within l)

-- The dependency rows of a list of tasks, as edges.
abbrev pub row_edges : List Row → List DepEdge
row_edges rows = map (λ (r : Row). (r.1, r.0)) rows

-- The ids of the list in front of `removed`, the last first.
abbrev onto : List String → List String → List String
onto removed [] = removed
onto removed (x ∷ xs) = onto (x ∷ removed) xs

onto-mem :
    (removed xs : List String) (x : String) → Memᴰ x removed ⊎ Memᴰ x xs → Memᴰ x (onto removed xs)
onto-mem removed [] x m = ⊎_elim (λ h. h) (λ n. absurd (Memᴰ.not-nil n)) m
onto-mem removed (y ∷ ys) x m = onto-mem (y ∷ removed) ys x (
    ⊎_elim (λ h. inl (Memᴰ.tail h))
      (λ n. ⊎_elim (λ e. inl (Memᴰ.head e)) (λ k. inr k) (Memᴰ.cases_cons n)) m)

onto-Distinct :
    (removed xs : List String)
    → Distinct removed
    → Distinct xs
    → ((x : String) → Memᴰ x xs → ¬ Memᴰ x removed)
    → Distinct (onto removed xs)
onto-Distinct removed [] d dx apart = d
onto-Distinct removed (y ∷ ys) d dx apart =
    onto-Distinct (y ∷ removed) ys (apart y (Memᴰ.head refl), d) dx.1
      (λ x m k.
        ⊎_elim (λ e. dx.0 (subst (λ z. Memᴰ z ys) e m)) (apart x (Memᴰ.tail m)) (Memᴰ.cases_cons k))

-- Tasks that depend only on tasks before them are removed in their order.
onto-IsOrder :
    (es : List DepEdge) (seen removed : List String) (ts : List TaskSpec)
    → ((x : String) → Memᴰ x seen → Memᴰ x removed)
    → IsOrder es removed
    → IsLinked seen ts
    → ((t : TaskSpec)
        → Memᴰ t ts
        → (e : DepEdge) → Memᴰ e es
        → e.1 ≡ t.task_id
        → Memᴰ e.0 t.depends_on)
    → IsOrder es (onto removed (ids ts))
onto-IsOrder es seen removed [] within order linked own = order
onto-IsOrder es seen removed (t ∷ ts) within order linked own =
    onto-IsOrder es (seen ++ t.task_id ∷ []) (t.task_id ∷ removed) ts
      (λ x m.
        ⊎_elim (λ old. Memᴰ.tail (within x old)) (λ last. Memᴰ.head (Memᴰ.eq_of_singleton last))
          ((Memᴰ-append x seen (t.task_id ∷ [])).0 m))
      (
        λ e m to.
            within e.0
              (All-Memᴰ (λ id. Memᴰ id seen) t.depends_on linked.0 (own t (Memᴰ.head refl) e m to)),
        order,
      )
      linked.1 (λ u m. own u (Memᴰ.tail m))

-- A row of the task with an id comes from that task.
row_of_task :
    (ts : List TaskSpec)
    → Distinct (ids ts)
    → (t : TaskSpec) → Memᴰ t ts
    → (r : Row) → Memᴰ r (rows ts)
    → r.0 ≡ t.task_id
    → Memᴰ r.1 t.depends_on
unfolding rows
row_of_task [] d t m r mr same = absurd (Memᴰ.not-nil m)
row_of_task (u ∷ us) d t m r mr same =
    ⊎_elim
      (λ first.
        let (of_u, dep, kind) = mem-rows_of u.task_id u.depends_on r first in
        ⊎_elim (λ e. subst (λ (x : TaskSpec). Memᴰ r.1 x.depends_on) (sym e) dep)
          (λ later. absurd (
            d.0 (
              subst (λ k. Memᴰ k (ids us)) (sym same ∙ of_u)
                (mem-map (λ t. TaskSpec.task_id t) t us later))))
          (Memᴰ.cases_cons m))
      (λ rest.
        ⊎_elim
          (λ e. absurd (
            d.0 (
              subst (λ k. Memᴰ k (ids us)) (same ∙ ap (λ x. TaskSpec.task_id x) e)
                (mem-rows us r rest))))
          (λ later. row_of_task us d.1 t later r rest same) (Memᴰ.cases_cons m))
      ((Memᴰ-append r (rows_of u.task_id u.depends_on) (rows us)).0 mr)

target-rows : (ts : List TaskSpec) (e : DepEdge) → Memᴰ e (row_edges (rows ts)) → Memᴰ e.1 (ids ts)
target-rows ts e m =
    let (r, mr, er) = map-mem (λ (r : Row). (r.1, r.0)) e (rows ts) m in
    subst (λ k. Memᴰ k (ids ts)) (sym (ap (λ (x : DepEdge). x.1) er)) (mem-rows ts r mr)

target-Leads :
    (ts : List TaskSpec) {a b : String} → Leads (row_edges (rows ts)) a b → Memᴰ b (ids ts)
target-Leads ts (edge m) = target-rows ts _ m
target-Leads ts (then_edge l m) = target-rows ts _ m

-- The dependencies of tasks that depend only on tasks before them hold no cycle.
pub rows-not-HasCycle :
    (ts : List TaskSpec) → Distinct (ids ts) → IsLinked [] ts → ¬ HasCycle (row_edges (rows ts))
rows-not-HasCycle ts d linked (node, l) =
    not-HasCycle-of_order (onto [] (ids ts))
      (onto-IsOrder (row_edges (rows ts)) [] [] ts (λ x m. m) tt linked
        (λ t m e me to.
          let (r, mr, er) = map-mem (λ (r : Row). (r.1, r.0)) e (rows ts) me in
          subst (λ k. Memᴰ k t.depends_on) (sym (ap (λ (x : DepEdge). x.0) er))
            (row_of_task ts d t m r mr (sym (ap (λ (x : DepEdge). x.1) er) ∙ to))))
      (onto-Distinct [] (ids ts) tt d (λ x m. Memᴰ.not-nil))
      (onto-mem [] (ids ts) node (inr (target-Leads ts l))) l
