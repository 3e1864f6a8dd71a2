-- ===== src/Invariants/Decided.antt =====
-- The rules on attempts and leases report nothing exactly when their invariants hold.
use rtlfarm.Prelude.{
  ◌≤◌, String, ◌≡◌, refl, sym, ap, ◌∙◌, ◌↔◌, inl, inr, Bool, true, false, List, [], ◌∷◌, map, Memᴰ,
  contains_iff, select, mem-select, gather_all, gather_all-nil, length, ltb, some, if◌then◌else◌,
  List-cases, append-eq-nil, string_eq, nat_eq, arith,
}
use rtlfarm.Sorting.{sorted, text_leq}
use rtlfarm.Submit.Tables.{unleased, TaskRow, AttemptRow, Db}
use rtlfarm.Invariants.Groups.{groups-nil}
use rtlfarm.Invariants.Consistent.{committed_of}
use rtlfarm.Invariants.Tests.{is_same_iff, is_only-sorted, holds_lease_iff}
use rtlfarm.Invariants.{
  many_committed, lease_mismatch, terminal_states, many, committed, one_committed_attempt_per_task,
  is_leased, active_ids, is_only, lease_issue, stray_issue, leases_and_active_attempts_match,
  terminal_issue, terminal_tasks_hold_no_lease,
}

map_id {ℓ} : {A : Type ℓ} (xs : List A) → map (λ x. x) xs ≡ xs
map_id [] = refl
map_id (x ∷ xs) = ap (λ l. x ∷ l) (map_id xs)

pub if-nil {ℓ} :
    {A : Type ℓ} (test : Bool) (issue : A)
    → ((if test then [] else issue ∷ []) ≡ []) ↔ (test ≡ true)
if-nil true issue = (λ h. refl, λ h. refl)
if-nil false issue = (λ h. absurd cc, λ h. absurd cc)

if_not-nil {ℓ} :
    {A : Type ℓ} (test : Bool) (issue : A)
    → ((if test then issue ∷ [] else []) ≡ []) ↔ (test ≡ false)
if_not-nil true issue = (λ h. absurd cc, λ h. absurd cc)
if_not-nil false issue = (λ h. refl, λ h. refl)

many-nil :
    (task_id : String) (rows : List AttemptRow) → (many (task_id, rows) ≡ []) ↔ (length rows ≤ 1)
many-nil task_id rows = (
  λ h.
      let few = (if_not-nil (ltb 1 (length rows)) (many_committed task_id (length rows))).0 h in
      ground arith,
  λ h. (if_not-nil (ltb 1 (length rows)) (many_committed task_id (length rows))).1 (ground arith),
)

pub one_committed-nil :
    (db : Db)
    → (one_committed_attempt_per_task db ≡ [])
      ↔ ((task_id : String) → length (committed_of db task_id) ≤ 1)
unfolding one_committed_attempt_per_task
one_committed-nil db =
    let groups = groups-nil (λ a. AttemptRow.task_id a) (λ a. a) many (committed db.attempts) in
    (
      λ h k. elim (List-cases (committed_of db k)) [
        | inl empty ↦ rw empty (omega arith)
        | inr (a, rest, filled) ↦ (many-nil k (committed_of db k)).0 (
            ap (λ rows. many (k, rows)) (sym (map_id (committed_of db k)))
            ∙ groups.0 h k
                (λ empty. absurd (let e = sym (map_id (committed_of db k)) ∙ empty in cc)))
      ],
      λ few. groups.1 (λ k _.
          ap (λ rows. many (k, rows)) (map_id (committed_of db k))
          ∙ (many-nil k (committed_of db k)).1 (few k)),
    )

lease_issue-nil :
    (db : Db) (t : TaskRow)
    → (lease_issue db t ≡ []) ↔ (
        (id : String) × (active_ids db t.spec.task_id ≡ id ∷ [])
        × (t.lease.lease_attempt_id ≡ some id))
lease_issue-nil db t =
    let only = is_only-sorted (active_ids db t.spec.task_id) t.lease.lease_attempt_id in
    let quiet =
      if-nil (is_only (sorted text_leq (active_ids db t.spec.task_id)) t.lease.lease_attempt_id) (
        lease_mismatch t.spec.task_id t.state t.lease.lease_attempt_id
          (sorted text_leq (active_ids db t.spec.task_id))) in
    (λ h. only.0 (quiet.0 h), λ h. quiet.1 (only.1 h))

stray_issue-nil :
    (a : AttemptRow) (t : TaskRow)
    → (stray_issue a t ≡ []) ↔ (
        t.spec.task_id ≡ a.task_id
        → a.state ≡ "ACTIVE"
        → (is_leased t ≡ true) × (t.lease.lease_attempt_id ≡ some a.attempt_id))
stray_issue-nil a t = ground (
  arith,
  string_eq.beq_iff t.spec.task_id a.task_id,
  string_eq.beq_iff a.state "ACTIVE",
  is_same_iff t.lease.lease_attempt_id (some a.attempt_id),
)

pub leases-nil :
    (db : Db)
    → (leases_and_active_attempts_match db ≡ []) ↔ (
        ((t : TaskRow)
          → Memᴰ t db.tasks
          → is_leased t ≡ true
          → (id : String) × (active_ids db t.spec.task_id ≡ id ∷ [])
            × (t.lease.lease_attempt_id ≡ some id))
        × ((a : AttemptRow) (t : TaskRow)
            → Memᴰ a db.attempts
            → Memᴰ t db.tasks
            → t.spec.task_id ≡ a.task_id
            → a.state ≡ "ACTIVE"
            → (is_leased t ≡ true) × (t.lease.lease_attempt_id ≡ some a.attempt_id)))
unfolding leases_and_active_attempts_match
leases-nil db =
    let tasks = gather_all-nil (lease_issue db) (select is_leased db.tasks) in
    let attempts = gather_all-nil (λ a. gather_all (stray_issue a) db.tasks) db.attempts in
    (
      λ h.
          let (quiet, none_stray) = append-eq-nil _ _ h in
          (
            λ t m held.
                (lease_issue-nil db t).0
                  (tasks.0 quiet t ((mem-select is_leased t db.tasks).1 (m, held))),
            λ a t ma mt.
                (stray_issue-nil a t).0
                  ((gather_all-nil (stray_issue a) db.tasks).0 (attempts.0 none_stray a ma) t mt),
          ),
      λ (leased, active).
          rw
            (
              tasks.1 (λ t m.
                  let (mt, held) = (mem-select is_leased t db.tasks).0 m in
                  (lease_issue-nil db t).1 (leased t mt held)),
              attempts.1 (λ a ma.
                  (gather_all-nil (stray_issue a) db.tasks).1
                    (λ t mt. (stray_issue-nil a t).1 (active a t ma mt))),
            )
            refl,
    )

pub terminal-nil :
    (db : Db)
    → (terminal_tasks_hold_no_lease db ≡ [])
      ↔ ((t : TaskRow) → Memᴰ t db.tasks → Memᴰ t.state terminal_states → t.lease ≡ unleased)
unfolding terminal_tasks_hold_no_lease
terminal-nil db =
    let tasks = gather_all-nil terminal_issue db.tasks in
    (λ h t m. (quiet t).0 (tasks.0 h t m), λ h. tasks.1 (λ t m. (quiet t).1 (h t m)))
  where
    quiet :
        (t : TaskRow)
        → (terminal_issue t ≡ []) ↔ (Memᴰ t.state terminal_states → t.lease ≡ unleased)
    quiet t = ground (arith, contains_iff terminal_states t.state, holds_lease_iff t.lease)
