-- ===== src/Invariants.antt =====
-- src/rtlfarm/control/invariants.py: the checker of the recorded state.
--
-- The order of rows that a query leaves open is the order of insertion. A snapshot is a value of
-- `Db`, so `BEGIN` and `COMMIT` need no model.
pub mod Checked
pub mod Consistent
pub mod Decided
pub mod Edges
pub mod Groups
pub mod Kahn
pub mod Linked
pub mod Recorded
mod Samples
pub mod Submitted
pub mod Tests
use rtlfarm.Prelude.{
  count_up, nat_lists_equal, ℕ, zero, suc, ◌+◌, String, Bool, true, false, not, ◌&&◌, ◌||◌, List,
  [], ◌∷◌, ◌++◌, map, ◌==◌, contains, select, gather_all, length, leb, ltb, lookup, merge, Eq,
  Option, none, some, if◌then◌else◌, Result, ok, ◌>>=◌, nat_eq, string_eq, nat_beq,
}
use rtlfarm.Sorting.{sorted, text_leq}
use rtlfarm.Submit.Tables.{Lease, TaskRow, AttemptRow, EventRow, DepRow, Db}
use Groups.{group_by}
use Kahn.{DepEdge, kahn_has_cycle}

abbrev pub terminal_states : List String
terminal_states =
    "SUCCEEDED" ∷ "FAILED" ∷ "TIMED_OUT" ∷ "INFRA_FAILED" ∷ "SKIPPED" ∷ "CANCELED" ∷ []

abbrev pub leased_states : List String
leased_states = "LEASED" ∷ "RUNNING" ∷ []

-- What the message of a violation names.
pub data Violation : Type 0 where
  many_committed : (task_id : String) (n : ℕ) → Violation
  lease_mismatch :
      (task_id state : String) (lease : Option String) (active : List String) → Violation
  stray_active : (attempt_id task_id state : String) (lease : Option String) → Violation
  terminal_holds : (task_id state : String) → Violation
  seq_gap : (task_id : String) (seqs : List ℕ) → Violation
  stale_state : (task_id : String) (state last : Option String) → Violation
  dep_cycle : (job_id : String) → Violation

-- Violation.invariant
unfoldable pub invariant : Violation → ℕ
invariant (many_committed task_id n) = 1
invariant (lease_mismatch task_id state lease active) = 2
invariant (stray_active attempt_id task_id state lease) = 2
invariant (terminal_holds task_id state) = 3
invariant (seq_gap task_id seqs) = 8
invariant (stale_state task_id state last) = 8
invariant (dep_cycle job_id) = 9

-- a IS b
abbrev pub is_same : Option String → Option String → Bool
is_same none none = true
is_same none (some b) = false
is_same (some a) none = false
is_same (some a) (some b) = a == b

abbrev pub is_null {ℓ} : {A : Type ℓ} → Option A → Bool
is_null none = true
is_null (some a) = false

-- GROUP BY task_id HAVING COUNT(*) > 1
abbrev pub many : String × List AttemptRow → List Violation
many (task_id, rows) = if ltb 1 (length rows) then many_committed task_id (length rows) ∷ [] else []

abbrev pub committed : List AttemptRow → List AttemptRow
committed attempts = select (λ a. AttemptRow.state a == "COMMITTED") attempts

unfoldable pub one_committed_attempt_per_task : Db → List Violation
unfolding group_by
one_committed_attempt_per_task db =
    gather_all many (group_by (λ a. AttemptRow.task_id a) (λ a. a) [] (committed db.attempts))

abbrev pub is_leased : TaskRow → Bool
is_leased t = contains leased_states t.state

abbrev pub active_ids : Db → String → List String
active_ids db task_id =
    map (λ a. AttemptRow.attempt_id a)
      (select (λ a. AttemptRow.task_id a == task_id && AttemptRow.state a == "ACTIVE") db.attempts)

-- ids == [lease_attempt_id]
abbrev pub is_only : List String → Option String → Bool
is_only (id ∷ []) (some lease) = id == lease
is_only [] lease = false
is_only (id ∷ ids) lease = false

abbrev pub lease_issue : Db → TaskRow → List Violation
lease_issue db t =
    let ids : List String = sorted text_leq (active_ids db t.spec.task_id) in
    if is_only ids t.lease.lease_attempt_id
    then []
    else lease_mismatch t.spec.task_id t.state t.lease.lease_attempt_id ids ∷ []

abbrev pub stray_issue : AttemptRow → TaskRow → List Violation
stray_issue a t =
    if t.spec.task_id == a.task_id
      && (a.state == "ACTIVE"
          && (not (is_leased t) || not (is_same t.lease.lease_attempt_id (some a.attempt_id))))
    then stray_active a.attempt_id a.task_id t.state t.lease.lease_attempt_id ∷ []
    else []

unfoldable pub leases_and_active_attempts_match : Db → List Violation
leases_and_active_attempts_match db =
    gather_all (lease_issue db) (select is_leased db.tasks)
    ++ gather_all (λ a. gather_all (stray_issue a) db.tasks) db.attempts

-- leased_by IS NOT NULL OR lease_attempt_id IS NOT NULL OR ...
abbrev pub holds_lease : Lease → Bool
holds_lease l =
    not (is_null l.leased_by)
    || (not (is_null l.lease_attempt_id)
        || (not (is_null l.lease_expires_at_ms)
            || (not (is_null l.leased_at_ms) || not (is_null l.started_at_ms))))

abbrev pub terminal_issue : TaskRow → List Violation
terminal_issue t =
    if contains terminal_states t.state && holds_lease t.lease
    then terminal_holds t.spec.task_id t.state ∷ []
    else []

unfoldable pub terminal_tasks_hold_no_lease : Db → List Violation
terminal_tasks_hold_no_lease db = gather_all terminal_issue db.tasks

-- ORDER BY task_id, seq
unfoldable pub event_leq : EventRow → EventRow → Bool
event_leq e f =
    if EventRow.task_id e == EventRow.task_id f
    then leb e.seq f.seq
    else text_leq e.task_id f.task_id

-- events[-1][1]: a group is never empty.
abbrev pub last_state : List (ℕ × String) → Option String
last_state [] = none
last_state ((seq, state) ∷ []) = some state
last_state (e ∷ f ∷ events) = last_state (f ∷ events)

-- dict(SELECT task_id, state FROM tasks).get(task_id)
abbrev pub recorded_state : Db → String → Option String
recorded_state db task_id =
    lookup (merge [] (map (λ (t : TaskRow). (t.spec.task_id, t.state)) db.tasks)) task_id

abbrev pub seqs_of : List (ℕ × String) → List ℕ
seqs_of events = map (λ (e : ℕ × String). e.0) events

abbrev pub event_issues : Db → String × List (ℕ × String) → List Violation
event_issues db (task_id, events) =
    (if nat_lists_equal (seqs_of events) (count_up 1 (length events))
      then []
      else seq_gap task_id (seqs_of events) ∷ [])
    ++ (if is_same (recorded_state db task_id) (last_state events)
        then []
        else stale_state task_id (recorded_state db task_id) (last_state events) ∷ [])

unfoldable pub events_are_contiguous_and_current : Db → List Violation
unfolding group_by event_leq
events_are_contiguous_and_current db = gather_all (event_issues db) (
    group_by (λ e. EventRow.task_id e) (λ e. (EventRow.seq e, EventRow.to_state e)) []
      (sorted event_leq db.events))

-- FROM task_deps d JOIN tasks t ON t.task_id = d.task_id
abbrev pub job_edges : Db → List (String × DepEdge)
job_edges db =
    gather_all
      (λ (d : DepRow).
        map (λ (t : TaskRow). (t.job_id, (d.1, d.0)))
          (select (λ (t : TaskRow). t.spec.task_id == d.0) db.tasks))
      db.deps

unfoldable pub cycle_issues : List (String × List DepEdge) → Result (List Violation)
unfolding kahn_has_cycle
cycle_issues [] = ok []
cycle_issues ((job_id, edges) ∷ jobs) = kahn_has_cycle edges >>= λ found.
    cycle_issues jobs >>= λ rest. ok (if found then dep_cycle job_id ∷ rest else rest)

unfoldable pub dependencies_are_acyclic : Db → Result (List Violation)
unfolding cycle_issues group_by
dependencies_are_acyclic db =
    cycle_issues
      (group_by (λ (e : String × DepEdge). e.0) (λ (e : String × DepEdge). e.1) [] (job_edges db))

unfoldable pub check_invariants : Db → Result (List Violation)
unfolding one_committed_attempt_per_task leases_and_active_attempts_match
    terminal_tasks_hold_no_lease events_are_contiguous_and_current dependencies_are_acyclic
check_invariants db = dependencies_are_acyclic db >>= λ cyclic. ok (
    one_committed_attempt_per_task db
    ++ (leases_and_active_attempts_match db
        ++ (terminal_tasks_hold_no_lease db ++ (events_are_contiguous_and_current db ++ cyclic))))

pub data Asserted : Type 0 where
  sound : Asserted
  invariant_violation : List Violation → Asserted

-- Returns quietly, or raises InvariantViolation with every violation.
unfoldable pub assert_invariants : Db → Result Asserted
unfolding check_invariants
assert_invariants db = check_invariants db >>= λ violations.
    ok (elim violations [ [] ↦ sound | v ∷ vs ↦ invariant_violation (v ∷ vs) ])
