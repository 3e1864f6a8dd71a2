-- ===== src/Invariants/Submitted.antt =====
-- A submission leaves a consistent store consistent.
use mathlib.Core.List.Memᴰ
use mathlib.Core.Logic.{⊎_elim}
use mathlib.Core.List.{append-nil, map-append}
use rtlfarm.Prelude.{
  count_up, lookup-insert, String, ◌≡◌, refl, sym, ap, ap₂, subst, ◌∙◌, ◌≢◌, List, [], ◌∷◌, ◌++◌,
  map, Memᴰ, Memᴰ-append, Distinct, inl, inr, ◌⊎◌, true, some, select, select-append, select-none,
  ◌==◌, string_eq, length, merge, insert, lookup, contains, contains_iff, contains-false,
  if◌then◌else◌, Bool-cases, beq-false, arith,
}
use rtlfarm.Manifest.{Manifest}
use rtlfarm.Sorting.{sorted}
use rtlfarm.Dag.{Selection, TaskSpec, ExpandedJob}
use rtlfarm.Dag.Tasks.{ids}
use rtlfarm.Dag.Plan.{IsLinked}
use rtlfarm.Dag.Rows.{Row, IsRow, job_dependencies}
use rtlfarm.Submit.Stored.{map-mem, mem-map, IsSound, IsJob, IsChecked}
use rtlfarm.Submit.Tables.{TaskRow, EventRow, Db, job_ids, task_ids}
use rtlfarm.Submit.Write.{Submission, Printer, task_row, event_row}
use rtlfarm.Submit.Transaction.{after, apart}
use rtlfarm.Invariants.Kahn.{DepEdge}
use rtlfarm.Invariants.Kahn.Walk.{HasCycle}
use rtlfarm.Invariants.{is_leased, event_leq, recorded_state, last_state, seqs_of}
use rtlfarm.Invariants.Consistent.{history, edges_of, PassesRules}
use rtlfarm.Invariants.Linked.{HasCycle-mono, row_edges, rows-not-HasCycle}
use rtlfarm.Invariants.Edges.{JobEdge, edges_of-JobEdge, JobEdge-edges_of}

sorted-singleton : (e : EventRow) → sorted event_leq (e ∷ []) ≡ e ∷ []
unfolding sorted
sorted-singleton e = refl

no_cycle :
    (job : ExpandedJob)
    → IsLinked [] job.tasks
    → Distinct (ids job.tasks)
    → ¬ HasCycle (row_edges (job_dependencies job))
unfolding job_dependencies
no_cycle job linked once = rows-not-HasCycle job.tasks once linked

merge-append {ℓ} :
    {V : Type ℓ} (d xs ys : List (String × V)) → merge d (xs ++ ys) ≡ merge (merge d xs) ys
merge-append d [] ys = refl
merge-append d ((k, v) ∷ xs) ys = merge-append (insert d k v) xs ys

module _ (c : Printer) (job : ExpandedJob) (manifest : Manifest) (selection : Selection)
    (s : Submission) where
  abbrev new_task : TaskSpec → TaskRow
  new_task = task_row c job manifest selection s

  abbrev new_event : TaskSpec → EventRow
  new_event = event_row c job manifest selection s

  abbrev state_item : TaskRow → String × String
  state_item t = (t.spec.task_id, t.state)

  lookup-new :
      (d : List (String × String)) (ts : List TaskSpec) (k : String)
      → lookup (merge d (map state_item (map new_task ts))) k
        ≡ (if contains (ids ts) k then some "PENDING" else lookup d k)
  lookup-new d [] k = refl
  lookup-new d (t ∷ ts) k =
      lookup-new (insert d t.task_id "PENDING") ts k
      ∙ ground (
        arith,
        lookup-insert d t.task_id k "PENDING",
        string_eq.beq_iff t.task_id k,
        string_eq.beq_iff k t.task_id,
      )

  new_events-none :
      (ts : List TaskSpec) (k : String)
      → (¬ Memᴰ k (ids ts))
      → select (λ e. EventRow.task_id e == k) (map new_event ts) ≡ []
  new_events-none ts k absent =
      select-none (λ e. EventRow.task_id e == k) (map new_event ts)
        (λ e m.
          let (t, mt, et) = map-mem new_event e ts m in
          elim (Bool-cases (e.task_id == k)) [
            | inl same ↦ absurd (
                absent (
                  subst (λ x. Memᴰ x (ids ts))
                    (sym (ap (λ (x : EventRow). x.task_id) et)
                      ∙ (string_eq.beq_iff e.task_id k).0 same)
                    (mem-map (λ t. TaskSpec.task_id t) t ts mt)))
            | inr other ↦ other
          ])

  new_events-one :
      (ts : List TaskSpec)
      → Distinct (ids ts)
      → (t : TaskSpec) → Memᴰ t ts
      → select (λ e. EventRow.task_id e == t.task_id) (map new_event ts) ≡ new_event t ∷ []
  new_events-one [] d t m = absurd (Memᴰ.not-nil m)
  new_events-one (u ∷ us) d t (Memᴰ.head e) =
      let same : (u.task_id == t.task_id) ≡ true =
        (string_eq.beq_iff u.task_id t.task_id).1 (ap (λ x. TaskSpec.task_id x) (sym e)) in
      let absent : ¬ Memᴰ t.task_id (ids us) =
        λ k. d.0 (subst (λ x. Memᴰ x (ids us)) (ap (λ x. TaskSpec.task_id x) e) k) in
      rw same (ap₂ (λ x xs. x ∷ xs) (ap new_event (sym e)) (new_events-none us t.task_id absent))
  new_events-one (u ∷ us) d t (Memᴰ.tail m) = elim (Bool-cases (u.task_id == t.task_id)) [
    | inl same ↦ absurd (
        d.0 (
          subst (λ k. Memᴰ k (ids us)) (sym ((string_eq.beq_iff u.task_id t.task_id).0 same))
            (mem-map (λ t. TaskSpec.task_id t) t us m)))
    | inr other ↦ rw other (new_events-one us d.1 t m)
  ]

  module _ (db : Db) (sound : IsSound db) (made : IsJob job) (checked : IsChecked db job manifest s)
      (linked : IsLinked [] job.tasks) (consistent : PassesRules db) where
    abbrev left : Db
    left = after c job manifest selection s db sound made checked

    -- No task of another job has the id of one of this job's.
    stranger : (k : String) → Memᴰ k (ids job.tasks) → ¬ Memᴰ k (task_ids db.tasks)
    stranger = apart c job manifest selection s db sound made checked

    recorded :
        (k : String)
        → recorded_state left k
          ≡ (if contains (ids job.tasks) k then some "PENDING" else recorded_state db k)
    recorded k =
        ap (λ l. lookup (merge [] l) k) (map-append state_item db.tasks (map new_task job.tasks))
        ∙ ap (λ d. lookup d k)
            (merge-append [] (map state_item db.tasks) (map state_item (map new_task job.tasks)))
        ∙ lookup-new (merge [] (map state_item db.tasks)) job.tasks k

    history-old : (k : String) → (¬ Memᴰ k (ids job.tasks)) → history left k ≡ history db k
    history-old k absent =
        ap (λ l. map (λ e. (EventRow.seq e, EventRow.to_state e)) (sorted event_leq l))
          (select-append (λ e. EventRow.task_id e == k) db.events (map new_event job.tasks)
            ∙ ap (λ l. select (λ e. EventRow.task_id e == k) db.events ++ l)
                (new_events-none job.tasks k absent)
            ∙ append-nil (select (λ e. EventRow.task_id e == k) db.events))

    history-new : (t : TaskSpec) → Memᴰ t job.tasks → history left t.task_id ≡ (1, "PENDING") ∷ []
    history-new t m =
        ap (λ l. map (λ e. (EventRow.seq e, EventRow.to_state e)) (sorted event_leq l))
          (select-append (λ e. EventRow.task_id e == t.task_id) db.events (map new_event job.tasks)
            ∙ ap (λ l. l ++ select (λ e. EventRow.task_id e == t.task_id) (map new_event job.tasks))
                (select-none (λ e. EventRow.task_id e == t.task_id) db.events
                  (λ e me. elim (Bool-cases (e.task_id == t.task_id)) [
                    | inl same ↦ absurd (
                        stranger t.task_id (mem-map (λ t. TaskSpec.task_id t) t job.tasks m) (
                          subst (λ k. Memᴰ k (task_ids db.tasks))
                            ((string_eq.beq_iff e.task_id t.task_id).0 same) (sound.events e me)))
                    | inr other ↦ other
                  ]))
            ∙ new_events-one job.tasks made.distinct t m)
        ∙ ap (map (λ e. (EventRow.seq e, EventRow.to_state e))) (sorted-singleton (new_event t))

    -- A task is new, or no event or state of it is.
    known : (k : String) → Memᴰ k (ids job.tasks) ⊎ (¬ Memᴰ k (ids job.tasks))
    known k = elim (Bool-cases (contains (ids job.tasks) k)) [
      | inl new ↦ inl ((contains_iff (ids job.tasks) k).0 new)
      | inr old ↦ inr (λ m. let new = (contains_iff (ids job.tasks) k).1 m in cc)
    ]

    history-contiguous :
        (k : String) → seqs_of (history left k) ≡ count_up 1 (length (history left k))
    history-contiguous k =
        ⊎_elim
          (λ new.
            let (t, mt, e) = map-mem (λ t. TaskSpec.task_id t) k job.tasks new in
            subst (λ x. seqs_of (history left x) ≡ count_up 1 (length (history left x))) (sym e)
              (rw (history-new t mt) refl))
          (λ old. rw (history-old k old) (consistent.contiguous k)) (known k)

    history-current :
        (k : String) → history left k ≢ [] → recorded_state left k ≡ last_state (history left k)
    history-current k filled =
        ⊎_elim
          (λ new.
            let (t, mt, e) = map-mem (λ t. TaskSpec.task_id t) k job.tasks new in
            recorded k
            ∙ rw ((contains_iff (ids job.tasks) k).1 new)
                (sym (ap last_state (ap (history left) e ∙ history-new t mt))))
          (λ old.
            recorded k
            ∙ rw (contains-false (ids job.tasks) k old) (
                consistent.current k (λ empty. filled (history-old k old ∙ empty))
                ∙ sym (ap last_state (history-old k old))))
          (known k)

    -- The edges of this job are its own rows, and those of another job were there.
    edges-own :
        (e : DepEdge)
        → Memᴰ e (edges_of left job.job_id)
        → Memᴰ e (row_edges (job_dependencies job))
    edges-own e m =
        let j = edges_of-JobEdge left job.job_id e m in
        ⊎_elim
          (λ old. absurd (
            checked.fresh (
              subst (λ x. Memᴰ x (job_ids db.jobs)) (JobEdge.owner j)
                (sound.owned (JobEdge.task j) old))))
          (λ new.
            let (u, mu, er) = map-mem new_task (JobEdge.task j) job.tasks new in
            ⊎_elim
              (λ old. absurd (
                stranger u.task_id (mem-map (λ t. TaskSpec.task_id t) u job.tasks mu) (
                  subst (λ x. Memᴰ x (task_ids db.tasks))
                    (sym (JobEdge.joined j) ∙ ap (λ (x : TaskRow). x.spec.task_id) er)
                    (sound.deps (JobEdge.row j) old).0)))
              (λ row.
                subst (λ x. Memᴰ x (row_edges (job_dependencies job))) (sym (JobEdge.is_edge j))
                  (mem-map (λ (r : Row). (r.1, r.0)) (JobEdge.row j) (job_dependencies job) row))
              ((Memᴰ-append (JobEdge.row j) db.deps (job_dependencies job)).0 (JobEdge.listed j)))
          ((Memᴰ-append (JobEdge.task j) db.tasks (map new_task job.tasks)).0 (JobEdge.stored j))

    edges-other :
        (k : String)
        → k ≢ job.job_id
        → (e : DepEdge) → Memᴰ e (edges_of left k)
        → Memᴰ e (edges_of db k)
    edges-other k other e m =
        let j = edges_of-JobEdge left k e m in
        ⊎_elim
          (λ old.
            ⊎_elim
              (λ listed. JobEdge-edges_of db k e (record {
                row = JobEdge.row j;
                task = JobEdge.task j;
                listed = listed;
                stored = old;
                joined = JobEdge.joined j;
                owner = JobEdge.owner j;
                is_edge = JobEdge.is_edge j;
              }))
              (λ row. absurd (
                stranger (JobEdge.row j).0 (IsRow.task (made.rows (JobEdge.row j) row)) (
                  subst (λ x. Memᴰ x (task_ids db.tasks)) (JobEdge.joined j)
                    (mem-map (λ (t : TaskRow). t.spec.task_id) (JobEdge.task j) db.tasks old))))
              ((Memᴰ-append (JobEdge.row j) db.deps (job_dependencies job)).0 (JobEdge.listed j)))
          (λ new.
            let (u, mu, er) = map-mem new_task (JobEdge.task j) job.tasks new in
            absurd (other (sym (JobEdge.owner j) ∙ ap (λ (x : TaskRow). x.job_id) er)))
          ((Memᴰ-append (JobEdge.task j) db.tasks (map new_task job.tasks)).0 (JobEdge.stored j))

    left-acyclic : (k : String) → ¬ HasCycle (edges_of left k)
    left-acyclic k cycle = elim (Bool-cases (k == job.job_id)) [
      | inl same ↦ no_cycle job linked made.distinct (
          HasCycle-mono edges-own (
            subst (λ x. HasCycle (edges_of left x)) ((string_eq.beq_iff k job.job_id).0 same)
              cycle))
      | inr other ↦
          consistent.acyclic k (HasCycle-mono (edges-other k (beq-false k job.job_id other)) cycle)
    ]

    pub left-PassesRules : PassesRules left
    left-PassesRules = record {
      one_committed = consistent.one_committed;
      leased = λ t m held.
          ⊎_elim (λ old. consistent.leased t old held)
            (λ new.
              let (u, mu, e) = map-mem new_task t job.tasks new in
              absurd (let pending = sym (ap is_leased e) ∙ held in cc))
            ((Memᴰ-append t db.tasks (map new_task job.tasks)).0 m);
      active = λ a t ma mt same state.
          ⊎_elim (λ old. consistent.active a t ma old same state)
            (λ new.
              let (u, mu, e) = map-mem new_task t job.tasks new in
              absurd (
                stranger u.task_id (mem-map (λ t. TaskSpec.task_id t) u job.tasks mu) (
                  subst (λ k. Memᴰ k (task_ids db.tasks))
                    (sym same ∙ ap (λ (x : TaskRow). x.spec.task_id) e) (sound.attempts a ma))))
            ((Memᴰ-append t db.tasks (map new_task job.tasks)).0 mt);
      released = λ t m done.
          ⊎_elim (λ old. consistent.released t old done)
            (λ new.
              let (u, mu, e) = map-mem new_task t job.tasks new in ap (λ (x : TaskRow). x.lease) e)
            ((Memᴰ-append t db.tasks (map new_task job.tasks)).0 m);
      contiguous = history-contiguous;
      current = history-current;
      acyclic = left-acyclic;
    }
