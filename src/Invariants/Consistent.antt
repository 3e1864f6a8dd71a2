-- ===== src/Invariants/Consistent.antt =====
-- What the rules of the checker ask of a store, in their own terms.
use rtlfarm.Prelude.{
  count_up, ℕ, ◌≤◌, String, ◌≡◌, ◌≢◌, true, List, [], ◌∷◌, map, Memᴰ, select, length, ◌==◌, some,
  string_eq, nat_eq,
}
use rtlfarm.Sorting.{sorted}
use rtlfarm.Submit.Tables.{unleased, TaskRow, AttemptRow, EventRow, Db}
use rtlfarm.Invariants.Kahn.{DepEdge}
use rtlfarm.Invariants.Kahn.Walk.{HasCycle}
use rtlfarm.Invariants.{
  terminal_states, committed, is_leased, active_ids, event_leq, last_state, recorded_state, seqs_of,
  job_edges,
}

-- The COMMITTED attempts of a task.
abbrev pub committed_of : Db → String → List AttemptRow
committed_of db task_id = select (λ a. AttemptRow.task_id a == task_id) (committed db.attempts)

-- The events of a task, in the order of their numbers.
abbrev pub history : Db → String → List (ℕ × String)
history db task_id =
    map (λ e. (EventRow.seq e, EventRow.to_state e))
      (sorted event_leq (select (λ e. EventRow.task_id e == task_id) db.events))

-- The dependencies of a job's tasks.
abbrev pub edges_of : Db → String → List DepEdge
edges_of db job_id =
    map (λ (e : String × DepEdge). e.1)
      (select (λ (e : String × DepEdge). e.0 == job_id) (job_edges db))

-- What the rules find nothing against, in the words of the rules.
pub record PassesRules (db : Db) : Type 0 where
  pub one_committed : (task_id : String) → length (committed_of db task_id) ≤ 1
  pub leased :
      (t : TaskRow)
      → Memᴰ t db.tasks
      → is_leased t ≡ true
      → (id : String) × (active_ids db t.spec.task_id ≡ id ∷ [])
        × (t.lease.lease_attempt_id ≡ some id)
  pub active :
      (a : AttemptRow) (t : TaskRow)
      → Memᴰ a db.attempts
      → Memᴰ t db.tasks
      → t.spec.task_id ≡ a.task_id
      → a.state ≡ "ACTIVE"
      → (is_leased t ≡ true) × (t.lease.lease_attempt_id ≡ some a.attempt_id)
  pub released : (t : TaskRow) → Memᴰ t db.tasks → Memᴰ t.state terminal_states → t.lease ≡ unleased
  pub contiguous :
      (task_id : String) → seqs_of (history db task_id) ≡ count_up 1 (length (history db task_id))
  pub current :
      (task_id : String)
      → history db task_id ≢ []
      → recorded_state db task_id ≡ last_state (history db task_id)
  pub acyclic : (job_id : String) → ¬ HasCycle (edges_of db job_id)
