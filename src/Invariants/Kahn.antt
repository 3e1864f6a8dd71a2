-- ===== src/Invariants/Kahn.antt =====
-- `_has_cycle` of src/rtlfarm/control/invariants.py: Kahn's search over the edges of one job.
pub mod Removal
pub mod Degrees
pub mod Rounds
pub mod Walk
pub mod Decides
use rtlfarm.Prelude.{
  ℕ, zero, suc, ◌+◌, ◌-◌, String, Bool, not, List, [], ◌∷◌, ◌++◌, ◌==◌, length, lookup, insert,
  Option, none, some, if◌then◌else◌, Result, ok, raise, out_of_fuel, ◌>>=◌, nat_eq, string_eq,
}

-- (upstream, task)
abbrev pub DepEdge : Type 0
DepEdge = String × String

abbrev pub Degrees : Type 0
Degrees = List (String × ℕ)

abbrev pub Downstream : Type 0
Downstream = List (String × List String)

-- A `defaultdict(int)` gives 0 for a key that it lacks, and a `defaultdict(list)` the empty list.
abbrev pub degree : Degrees → String → ℕ
degree indegree node = elim (lookup indegree node) [ none ↦ 0 | some n ↦ n ]

abbrev pub targets_of : Downstream → String → List String
targets_of downstream node = elim (lookup downstream node) [ none ↦ [] | some tasks ↦ tasks ]

-- indegree.setdefault(node, 0)
unfoldable pub set_default : Degrees → String → Degrees
set_default indegree node = elim (lookup indegree node) [
  | none ↦ insert indegree node 0
  | some n ↦ indegree
]

-- indegree.setdefault(upstream, 0), then indegree[task] += 1
unfoldable pub count_edge : Degrees → DepEdge → Degrees
unfolding set_default
count_edge indegree (upstream, task) =
    let known = set_default indegree upstream in insert known task (degree known task + 1)

unfoldable pub count_edges : Degrees → List DepEdge → Degrees
unfolding count_edge
count_edges indegree [] = indegree
count_edges indegree (e ∷ es) = count_edges (count_edge indegree e) es

-- downstream[upstream].append(task)
unfoldable pub link_edges : Downstream → List DepEdge → Downstream
link_edges downstream [] = downstream
link_edges downstream ((upstream, task) ∷ es) =
    link_edges (insert downstream upstream (targets_of downstream upstream ++ task ∷ [])) es

-- [node for node, n in indegree.items() if n == 0], the last first: `pop` takes the last.
unfoldable pub push_ready : Degrees → List String → List String
push_ready [] ready = ready
push_ready ((node, n) ∷ d) ready = push_ready d (if n == 0 then node ∷ ready else ready)

-- The loop over downstream[node]. The count that it takes 1 from is never 0: see `relax-Inv`.
unfoldable pub relax : Degrees → List String → List String → Degrees × List String
relax indegree ready [] = (indegree, ready)
relax indegree ready (next ∷ tasks) =
    let n : ℕ = degree indegree next - 1 in
    relax (insert indegree next n) (if n == 0 then next ∷ ready else ready) tasks

-- while ready: the fuel bounds the rounds.
unfoldable pub remove_ready : ℕ → Downstream → Degrees → List String → ℕ → Result ℕ
unfolding relax
remove_ready fuel downstream indegree [] removed = ok removed
remove_ready zero downstream indegree (node ∷ ready) removed = raise out_of_fuel
remove_ready (suc fuel) downstream indegree (node ∷ ready) removed =
    let (fewer, more) = relax indegree ready (targets_of downstream node) in
    remove_ready fuel downstream fewer more (suc removed)

unfoldable pub kahn_has_cycle : List DepEdge → Result Bool
unfolding count_edges link_edges push_ready remove_ready
kahn_has_cycle edges =
    let indegree : Degrees = count_edges [] edges in
    remove_ready (length indegree) (link_edges [] edges) indegree (push_ready indegree []) 0
    >>= λ removed. ok (not (removed == length indegree))
