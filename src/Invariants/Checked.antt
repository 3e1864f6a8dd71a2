-- ===== src/Invariants/Checked.antt =====
-- The rules on events and dependencies, and all rules together.
use mathlib.Core.List.Memᴰ
use mathlib.Core.Logic.{⊎_elim}
use rtlfarm.Prelude.{
  count_up, nat_lists_equal, nat_lists_equal_iff, ℕ, String, ◌≡◌, refl, sym, ap, subst, ◌∙◌, ◌≢◌,
  ◌↔◌, inl, inr, Bool, true, false, List, [], ◌∷◌, ◌++◌, map, Memᴰ, length, ◌==◌, ok, if◌then◌else◌,
  List-cases, append-eq-nil, string_eq, nat_eq,
}
use rtlfarm.Sorting.{sorted}
use rtlfarm.Sorting.Selected.{select-sorted}
use rtlfarm.Submit.Tables.{EventRow, Db}
use rtlfarm.Invariants.Groups.{group_by, of_key, mem-group_by, group_by-mem, groups-nil}
use rtlfarm.Invariants.Kahn.{DepEdge}
use rtlfarm.Invariants.Kahn.Walk.{HasCycle, edge, then_edge}
use rtlfarm.Invariants.Kahn.Decides.{kahn_decides}
use rtlfarm.Invariants.Consistent.{history, edges_of, PassesRules}
use rtlfarm.Invariants.Decided.{if-nil, one_committed-nil, leases-nil, terminal-nil}
use rtlfarm.Invariants.Tests.{is_same_iff, event_leq_total, event_leq_trans}
use rtlfarm.Invariants.{
  dependencies_are_acyclic, cycle_issues, check_invariants, Violation, seq_gap, stale_state,
  dep_cycle, is_same, one_committed_attempt_per_task, leases_and_active_attempts_match,
  terminal_tasks_hold_no_lease, event_leq, last_state, recorded_state, seqs_of, event_issues,
  events_are_contiguous_and_current, job_edges,
}

history-of_key :
    (db : Db) (k : String)
    → of_key
        (λ e. EventRow.task_id e)
        (λ e. (EventRow.seq e, EventRow.to_state e))
        k
        (sorted event_leq db.events)
      ≡ history db k
history-of_key db k = ap (map (λ e. (EventRow.seq e, EventRow.to_state e))) (
    select-sorted event_leq event_leq_total event_leq_trans (λ e. EventRow.task_id e == k)
      db.events)

event_issues-nil :
    (db : Db) (k : String) (events : List (ℕ × String))
    → (event_issues db (k, events) ≡ [])
      ↔ ((seqs_of events ≡ count_up 1 (length events)) × (recorded_state db k ≡ last_state events))
event_issues-nil db k events =
    let seqs = nat_lists_equal_iff (seqs_of events) (count_up 1 (length events)) in
    let state = is_same_iff (recorded_state db k) (last_state events) in
    let gap =
      if-nil (nat_lists_equal (seqs_of events) (count_up 1 (length events)))
        (seq_gap k (seqs_of events)) in
    let stale =
      if-nil (is_same (recorded_state db k) (last_state events))
        (stale_state k (recorded_state db k) (last_state events)) in
    (
      λ h. let (a, b) = append-eq-nil _ _ h in (seqs.0 (gap.0 a), state.0 (stale.0 b)),
      λ (a, b). rw (gap.1 (seqs.1 a), stale.1 (state.1 b)) refl,
    )

events-nil :
    (db : Db)
    → (events_are_contiguous_and_current db ≡ []) ↔ (
        ((k : String) → seqs_of (history db k) ≡ count_up 1 (length (history db k)))
        × ((k : String) → history db k ≢ [] → recorded_state db k ≡ last_state (history db k)))
unfolding events_are_contiguous_and_current
events-nil db =
    let groups =
      groups-nil (λ e. EventRow.task_id e) (λ e. (EventRow.seq e, EventRow.to_state e))
        (event_issues db) (sorted event_leq db.events) in
    let quiet : events_are_contiguous_and_current db ≡ []
        → (k : String) → history db k ≢ []
        → (seqs_of (history db k) ≡ count_up 1 (length (history db k)))
          × (recorded_state db k ≡ last_state (history db k)) =
      λ h k filled. (event_issues-nil db k (history db k)).0 (
        ap (λ l. event_issues db (k, l)) (sym (history-of_key db k))
        ∙ groups.0 h k (λ empty. filled (sym (history-of_key db k) ∙ empty))) in
    (
      λ h. (
        λ k. elim (List-cases (history db k)) [
          | inl empty ↦ rw empty refl
          | inr (e, rest, filled) ↦ (quiet h k (λ empty. cc)).0
        ],
        λ k filled. (quiet h k filled).1,
      ),
      λ (contiguous, current). groups.1 (λ k some_row.
          ap (λ l. event_issues db (k, l)) (history-of_key db k)
          ∙ (event_issues-nil db k (history db k)).1
              (contiguous k, current k (λ empty. some_row (history-of_key db k ∙ empty)))),
    )

cycle_issues-nil :
    (jobs : List (String × List DepEdge))
    → (found : List Violation) × (cycle_issues jobs ≡ ok found)
      × ((found ≡ []) ↔ ((job : String × List DepEdge) → Memᴰ job jobs → ¬ HasCycle job.1))
unfolding cycle_issues
cycle_issues-nil [] = ([], refl, (λ _ job m. absurd (Memᴰ.not-nil m), λ _. refl))
cycle_issues-nil ((job_id, edges) ∷ jobs) =
    let (cyclic, decided, means) = kahn_decides edges in
    let (rest, more, quiet) = cycle_issues-nil jobs in
    (
      if cyclic then dep_cycle job_id ∷ rest else rest,
      rw (decided, more) refl,
      split cyclic means rest quiet,
    )
  where
    split :
        (cyclic : Bool)
        → (cyclic ≡ true) ↔ HasCycle edges
        → (rest : List Violation)
        → (rest ≡ []) ↔ ((job : String × List DepEdge) → Memᴰ job jobs → ¬ HasCycle job.1)
        → ((if cyclic then dep_cycle job_id ∷ rest else rest) ≡ [])
          ↔ ((job : String × List DepEdge) → Memᴰ job ((job_id, edges) ∷ jobs) → ¬ HasCycle job.1)
    split true means rest quiet =
        (λ h. absurd cc, λ none. absurd (none (job_id, edges) (Memᴰ.head refl) (means.0 refl)))
    split false means rest quiet = (
      λ h job m.
          ⊎_elim
            (λ same cycle. absurd (
              let found =
                means.1 (subst (λ (j : String × List DepEdge). HasCycle j.1) same cycle) in
              cc))
            (quiet.0 h job) (Memᴰ.cases_cons m),
      λ none. quiet.1 (λ job m. none job (Memᴰ.tail m)),
    )

not-HasCycle-nil : ¬ HasCycle []
not-HasCycle-nil (node, edge m) = absurd (Memᴰ.not-nil m)
not-HasCycle-nil (node, then_edge l m) = absurd (Memᴰ.not-nil m)

acyclic-nil :
    (db : Db)
    → (found : List Violation) × (dependencies_are_acyclic db ≡ ok found)
      × ((found ≡ []) ↔ ((job_id : String) → ¬ HasCycle (edges_of db job_id)))
unfolding dependencies_are_acyclic
acyclic-nil db =
    let jobs : List (String × List DepEdge) =
      group_by (λ (e : String × DepEdge). e.0) (λ (e : String × DepEdge). e.1) [] (job_edges db) in
    let (found, returns, quiet) = cycle_issues-nil jobs in
    (
      found,
      returns,
      (
        λ h k. elim (List-cases (edges_of db k)) [
          | inl empty ↦ rw empty not-HasCycle-nil
          | inr (e, rest, filled) ↦
              quiet.0 h (k, edges_of db k)
                (group_by-mem (λ (e : String × DepEdge). e.0) (λ (e : String × DepEdge). e.1)
                  (job_edges db) k (λ empty. cc))
        ],
        λ none. quiet.1 (λ (k, es) m.
            subst (λ l. ¬ HasCycle l)
              (sym
                (mem-group_by (λ (e : String × DepEdge). e.0) (λ (e : String × DepEdge). e.1)
                  (job_edges db) k es m).0)
              (none k)),
      ),
    )

-- `check_invariants` finds nothing exactly where all its rules do.
pub check_invariants-PassesRules :
    (db : Db)
    → (found : List Violation) × (check_invariants db ≡ ok found) × ((found ≡ []) ↔ PassesRules db)
unfolding check_invariants
check_invariants-PassesRules db =
    let (cyclic, returns, quiet) = acyclic-nil db in
    (
      one_committed_attempt_per_task db
          ++ (leases_and_active_attempts_match db
              ++ (terminal_tasks_hold_no_lease db
                  ++ (events_are_contiguous_and_current db ++ cyclic))),
      rw returns refl,
      (
        λ h.
            let (r1, rest1) = append-eq-nil _ _ h in
            let (r2, rest2) = append-eq-nil _ _ rest1 in
            let (r3, rest3) = append-eq-nil _ _ rest2 in
            let (r8, r9) = append-eq-nil _ _ rest3 in
            let (leased, active) = (leases-nil db).0 r2 in
            let (contiguous, current) = (events-nil db).0 r8 in
            record {
              one_committed = (one_committed-nil db).0 r1;
              leased = leased;
              active = active;
              released = (terminal-nil db).0 r3;
              contiguous = contiguous;
              current = current;
              acyclic = quiet.0 r9;
            },
        λ c.
            rw
              (
                (one_committed-nil db).1 (PassesRules.one_committed c),
                (leases-nil db).1 (PassesRules.leased c, PassesRules.active c),
                (terminal-nil db).1 (PassesRules.released c),
                (events-nil db).1 (PassesRules.contiguous c, PassesRules.current c),
              )
              (quiet.1 (PassesRules.acyclic c)),
      ),
    )
