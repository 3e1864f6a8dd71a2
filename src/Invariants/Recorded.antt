-- ===== src/Invariants/Recorded.antt =====
-- What it means that the recorded state is consistent, told without the checker's own tests.
use mathlib.Core.List.Memᴰ
use mathlib.Core.Logic.{⊎_elim}
use rtlfarm.Prelude.{
  count_up, ℕ, ◌≤◌, String, ◌≡◌, ◌≢◌, refl, sym, ap, subst, ◌∙◌, ◌⊎◌, ◌↔◌, inl, inr, Bool, true,
  ◌&&◌, List, [], ◌∷◌, ◌++◌, map, Memᴰ, select, mem-select, gather_all, length, lookup, merge, leb,
  ◌==◌, Option, none, some, ok, contains, contains_iff, List-cases, string_eq, nat_eq, arith,
}
use rtlfarm.Sorting.{place, sorted, mem-sorted}
use rtlfarm.Submit.Tables.{TaskRow, AttemptRow, EventRow, DepRow, Db}
use rtlfarm.Invariants.Kahn.{DepEdge}
use rtlfarm.Invariants.Kahn.Walk.{HasCycle}
use rtlfarm.Invariants.Consistent.{history, PassesRules}
use rtlfarm.Invariants.Tests.{event_leq-same}
use rtlfarm.Invariants.Checked.{check_invariants-PassesRules}
use rtlfarm.Invariants.{
  Violation, terminal_states, leased_states, committed, event_leq, last_state, recorded_state,
  check_invariants,
}

abbrev pub IsHeld : TaskRow → Type 0
IsHeld t = (t.state ≡ "LEASED") ⊎ (t.state ≡ "RUNNING")

abbrev pub IsOver : TaskRow → Type 0
IsOver t =
    (t.state ≡ "SUCCEEDED")
    ⊎ ((t.state ≡ "FAILED")
        ⊎ ((t.state ≡ "TIMED_OUT")
            ⊎ ((t.state ≡ "INFRA_FAILED") ⊎ ((t.state ≡ "SKIPPED") ⊎ (t.state ≡ "CANCELED")))))

-- A task's events as their numbers and states, in the order of their numbers.
abbrev pub events_of : Db → String → List (ℕ × String)
events_of db task_id =
    map (λ e. (EventRow.seq e, EventRow.to_state e))
      (sorted (λ e f. leb (EventRow.seq e) (EventRow.seq f))
        (select (λ e. EventRow.task_id e == task_id) db.events))

-- The dependencies of a job's tasks, from the upstream task to the task.
abbrev pub dependencies_of : Db → String → List DepEdge
dependencies_of db job_id =
    map (λ (e : String × DepEdge). e.1)
      (select (λ (e : String × DepEdge). e.0 == job_id)
        (gather_all
          (λ (d : DepRow).
            map (λ (t : TaskRow). (t.job_id, (d.1, d.0)))
              (select (λ (t : TaskRow). t.spec.task_id == d.0) db.tasks))
          db.deps))

-- The recorded state contradicts none of the invariants 1, 2, 3, 8 and 9.
pub record IsConsistent (db : Db) : Type 0 where
  pub one_committed :
      (task_id : String)
      → length (
          select
            (λ (a : AttemptRow). (a.task_id == task_id) && (a.state == "COMMITTED"))
            db.attempts)
        ≤ 1
  pub leased :
      (t : TaskRow)
      → Memᴰ t db.tasks
      → IsHeld t
      → (id : String) × (map
            (λ (a : AttemptRow). a.attempt_id)
            (select
              (λ (a : AttemptRow). (a.task_id == t.spec.task_id) && (a.state == "ACTIVE"))
              db.attempts)
          ≡ id ∷ [])
        × (t.lease.lease_attempt_id ≡ some id)
  pub active :
      (a : AttemptRow) (t : TaskRow)
      → Memᴰ a db.attempts
      → Memᴰ t db.tasks
      → t.spec.task_id ≡ a.task_id
      → a.state ≡ "ACTIVE"
      → IsHeld t × (t.lease.lease_attempt_id ≡ some a.attempt_id)
  pub released :
      (t : TaskRow)
      → Memᴰ t db.tasks
      → IsOver t
      → t.lease ≡ record {
        leased_by = none;
        lease_attempt_id = none;
        lease_expires_at_ms = none;
        leased_at_ms = none;
        started_at_ms = none;
      }
  pub contiguous :
      (task_id : String)
      → map (λ (e : ℕ × String). e.0) (events_of db task_id)
        ≡ count_up 1 (length (events_of db task_id))
  pub current :
      (task_id : String) (earlier : List (ℕ × String)) (seq : ℕ) (state : String)
      → events_of db task_id ≡ earlier ++ (seq, state) ∷ []
      → lookup (merge [] (map (λ (t : TaskRow). (t.spec.task_id, t.state)) db.tasks)) task_id
        ≡ some state
  pub acyclic : (job_id : String) → ¬ HasCycle (dependencies_of db job_id)

only_iff : (x a : String) → Memᴰ x (a ∷ []) ↔ (x ≡ a)
only_iff x a = (Memᴰ.eq_of_singleton, Memᴰ.head)

either_iff :
    {P : Type 0} (x a : String) {xs : List String} → Memᴰ x xs ↔ P → Memᴰ x (a ∷ xs) ↔ ((x ≡ a) ⊎ P)
either_iff x a rest = (
  λ m. ⊎_elim inl (λ t. inr (rest.0 t)) (Memᴰ.cases_cons m),
  ⊎_elim Memᴰ.head (λ p. Memᴰ.tail (rest.1 p)),
)

IsHeld-iff : (t : TaskRow) → (contains leased_states t.state ≡ true) ↔ IsHeld t
IsHeld-iff t =
    let is = either_iff t.state "LEASED" (only_iff t.state "RUNNING") in
    let listed = contains_iff leased_states t.state in
    (λ h. is.0 (listed.0 h), λ h. listed.1 (is.1 h))

IsOver-iff : (t : TaskRow) → Memᴰ t.state terminal_states ↔ IsOver t
IsOver-iff t = either_iff t.state "SUCCEEDED" (
    either_iff t.state "FAILED" (
      either_iff t.state "TIMED_OUT" (
        either_iff t.state "INFRA_FAILED"
          (either_iff t.state "SKIPPED" (only_iff t.state "CANCELED")))))

select-select {ℓ} :
    {A : Type ℓ} (p q : A → Bool) (xs : List A)
    → select p (select q xs) ≡ select (λ x. p x && q x) xs
select-select p q [] = refl
select-select p q (x ∷ xs) = ground (arith, select-select p q xs)

-- Two orders that agree on a list sort it alike.
place-agrees {ℓ} :
    {A : Type ℓ} (leq leq' : A → A → Bool) (x : A) (xs : List A)
    → ((y : A) → Memᴰ y xs → leq x y ≡ leq' x y)
    → place leq x xs ≡ place leq' x xs
unfolding place
place-agrees leq leq' x [] h = refl
place-agrees leq leq' x (y ∷ ys) h =
    rw (h y (Memᴰ.head refl), place-agrees leq leq' x ys (λ z m. h z (Memᴰ.tail m)), place) refl

sorted-agrees {ℓ} :
    {A : Type ℓ} (leq leq' : A → A → Bool) (xs : List A)
    → ((x y : A) → Memᴰ x xs → Memᴰ y xs → leq x y ≡ leq' x y)
    → sorted leq xs ≡ sorted leq' xs
unfolding sorted
sorted-agrees leq leq' [] h = refl
sorted-agrees leq leq' (x ∷ xs) h =
    place-agrees leq leq' x (sorted leq xs)
      (λ y m. h x y (Memᴰ.head refl) (Memᴰ.tail ((mem-sorted leq y xs).0 m)))
    ∙ ap (place leq' x)
        (sorted-agrees leq leq' xs (λ y z my mz. h y z (Memᴰ.tail my) (Memᴰ.tail mz)))

history-events_of : (db : Db) (k : String) → history db k ≡ events_of db k
history-events_of db k = ap (map (λ e. (EventRow.seq e, EventRow.to_state e))) (
    sorted-agrees event_leq (λ e f. leb (EventRow.seq e) (EventRow.seq f))
      (select (λ e. EventRow.task_id e == k) db.events) agrees)
  where
    own : (e : EventRow) → Memᴰ e (select (λ e. EventRow.task_id e == k) db.events) → e.task_id ≡ k
    own e m =
        (string_eq.beq_iff e.task_id k).0
          ((mem-select (λ e. EventRow.task_id e == k) e db.events).0 m).1

    agrees :
        (e f : EventRow)
        → Memᴰ e (select (λ e. EventRow.task_id e == k) db.events)
        → Memᴰ f (select (λ e. EventRow.task_id e == k) db.events)
        → event_leq e f ≡ leb e.seq f.seq
    agrees e f me mf = event_leq-same e f (own e me ∙ sym (own f mf))

last_state-append :
    (earlier : List (ℕ × String)) (seq : ℕ) (state : String)
    → last_state (earlier ++ (seq, state) ∷ []) ≡ some state
last_state-append [] seq state = refl
last_state-append (e ∷ []) seq state = refl
last_state-append (e ∷ f ∷ es) seq state = last_state-append (f ∷ es) seq state

-- A list that is not empty has a last item.
split_last :
    (e : ℕ × String) (es : List (ℕ × String))
    → (earlier : List (ℕ × String)) × (last : ℕ × String) × (e ∷ es ≡ earlier ++ last ∷ [])
split_last e [] = ([], e, refl)
split_last e (f ∷ es) =
    let (earlier, last, split) = split_last f es in (e ∷ earlier, last, ap (λ l. e ∷ l) split)

current_iff :
    (events : List (ℕ × String)) (recorded : Option String)
    → (events ≢ [] → recorded ≡ last_state events) ↔ (
        (earlier : List (ℕ × String)) (seq : ℕ) (state : String)
        → events ≡ earlier ++ (seq, state) ∷ []
        → recorded ≡ some state)
current_iff events recorded = (
  λ h earlier seq state split.
      h (λ none'. not-nil _ earlier (sym split ∙ none'))
      ∙ ap last_state split
      ∙ last_state-append earlier seq state,
  λ h filled. elim (List-cases events) [
    | inl empty ↦ absurd (filled empty)
    | inr (e, es, is) ↦
        let (earlier, last, split) = split_last e es in
        h earlier last.0 last.1 (is ∙ split)
        ∙ sym (ap last_state (is ∙ split) ∙ last_state-append earlier last.0 last.1)
  ],
)
  where
    not-nil : (l : ℕ × String) (earlier : List (ℕ × String)) → earlier ++ l ∷ [] ≢ []
    not-nil l [] h = cc
    not-nil l (e ∷ es) h = cc

rules-IsConsistent : (db : Db) → PassesRules db ↔ IsConsistent db
rules-IsConsistent db = (
  λ r. record {
    one_committed = λ k. subst (λ l. length l ≤ 1) (one k) (PassesRules.one_committed r k);
    leased = λ t m held. PassesRules.leased r t m ((IsHeld-iff t).1 held);
    active = λ a t ma mt same is.
        let (held, lease) = PassesRules.active r a t ma mt same is in
        ((IsHeld-iff t).0 held, lease);
    released = λ t m is_over. PassesRules.released r t m ((IsOver-iff t).1 is_over);
    contiguous = λ k. subst Contiguous (history-events_of db k) (PassesRules.contiguous r k);
    current = λ k.
        (current_iff (events_of db k) _).0
          (subst (Current k) (history-events_of db k) (PassesRules.current r k));
    acyclic = PassesRules.acyclic r;
  },
  λ c. record {
    one_committed = λ k. subst (λ l. length l ≤ 1) (sym (one k)) (IsConsistent.one_committed c k);
    leased = λ t m held. IsConsistent.leased c t m ((IsHeld-iff t).0 held);
    active = λ a t ma mt same is.
        let (held, lease) = IsConsistent.active c a t ma mt same is in
        ((IsHeld-iff t).1 held, lease);
    released = λ t m is_over. IsConsistent.released c t m ((IsOver-iff t).0 is_over);
    contiguous = λ k. subst Contiguous (sym (history-events_of db k)) (IsConsistent.contiguous c k);
    current = λ k.
        subst (Current k) (sym (history-events_of db k))
          ((current_iff (events_of db k) _).1 (IsConsistent.current c k));
    acyclic = IsConsistent.acyclic c;
  },
)
  where
    one :
        (k : String)
        → select (λ (a : AttemptRow). a.task_id == k) (committed db.attempts)
          ≡ select (λ (a : AttemptRow). (a.task_id == k) && (a.state == "COMMITTED")) db.attempts
    one k =
        select-select (λ (a : AttemptRow). a.task_id == k) (λ a. a.state == "COMMITTED") db.attempts

    Contiguous : List (ℕ × String) → Type 0
    Contiguous events = map (λ (e : ℕ × String). e.0) events ≡ count_up 1 (length events)

    Current : String → List (ℕ × String) → Type 0
    Current k events = events ≢ [] → recorded_state db k ≡ last_state events

-- `check_invariants` returns for every store, and what it returns is empty exactly when the store
-- contradicts none of the invariants: a task has at most one COMMITTED attempt; a LEASED or
-- RUNNING task has one ACTIVE attempt, which its lease names, and an ACTIVE attempt belongs to such
-- a task; a task in a terminal state has no lease and start columns; the numbers of a task's events
-- count from 1 and the last one leads to the task's state; and no job's dependencies hold a cycle.
pub check_invariants_decides :
    (db : Db)
    → (found : List Violation) × (check_invariants db ≡ ok found) × ((found ≡ []) ↔ IsConsistent db)
check_invariants_decides db =
    let (found, returns, means) = check_invariants-PassesRules db in
    let is = rules-IsConsistent db in
    (found, returns, (λ h. is.0 (means.0 h), λ c. means.1 (is.1 c)))
