-- ===== src/Submit/Tables.antt =====
-- db/migrations/0001.sql: the tables that a submission writes, and INSERT under their constraints.
--
-- A table is its rows in insertion order. A row that breaks a primary key, a foreign key, a UNIQUE or a
-- CHECK raises, and so does one with an integer of more than 64 bits; the rows before it are inserted.
use mathlib.Core.List.Memᴰ
use mathlib.Core.Logic.{⊎_elim}
use mathlib.Core.List.{append_assoc, append-nil}
use rtlfarm.Prelude.{
  ℕ, String, ◌⊎◌, ◌≡◌, refl, sym, ap, ap₂, subst, ◌∙◌, ◌↔◌, Bool, true, not, ◌&&◌, ◌||◌, List, [],
  ◌∷◌, ◌++◌, map, Memᴰ, Distinct, Eq, contains, contains-false, Option, none, inl, inr,
  if◌then◌else◌, Result, ok, raise, integrity_error, overflow_error, ok_inj, >>=-eq-ok, leb, false,
  ◌>>=◌, nat_eq, string_eq, arith,
}
use rtlfarm.Manifest.{ManifestEntry}
use rtlfarm.Dag.{TaskSpec}

pub and_iff : (a b : Bool) → (a && b ≡ true) ↔ ((a ≡ true) × (b ≡ true))
and_iff a b = ground arith

-- A key of two columns.
instance abbrev pub pair_eq {ℓ κ} : {A : Type ℓ} {B : Type κ} ⦃e : Eq A⦄ ⦃f : Eq B⦄ → Eq (A × B)
pair_eq ⦃e⦄ ⦃f⦄ = record {
  beq = λ p q. e.beq p.0 q.0 && f.beq p.1 q.1;
  beq_iff = λ p q. (
    λ h.
        let (first, second) = (and_iff (e.beq p.0 q.0) (f.beq p.1 q.1)).0 h in
        ap₂ (λ a b. (a, b)) ((e.beq_iff p.0 q.0).0 first) ((f.beq_iff p.1 q.1).0 second),
    λ same.
        (and_iff (e.beq p.0 q.0) (f.beq p.1 q.1)).1
          ((e.beq_iff p.0 q.0).1 (ap (λ x. x.0) same), (f.beq_iff p.1 q.1).1 (ap (λ x. x.1) same)),
  );
}

pub record JobRow : Type 0 where
  pub job_id : String
  pub design_name : String
  pub submission_hash : String
  pub manifest_json : String
  pub pipeline_json : String
  pub selection_json : String
  pub toolchain_digest : String
  pub priority : ℕ
  pub no_cache : Bool
  pub idempotency_key : Option String
  pub label : Option String
  pub state : String
  pub dirty : Bool
  pub n_tasks : ℕ
  pub created_at_ms : ℕ

-- (job_id, path, role, ordinal, sha256, size)
pub record InputRow : Type 0 where
  pub job_id : String
  pub entry : ManifestEntry

-- The lease and start columns of a task, where `none` is NULL.
pub record Lease : Type 0 where
  pub leased_by : Option String
  pub lease_attempt_id : Option String
  pub lease_expires_at_ms : Option ℕ
  pub leased_at_ms : Option ℕ
  pub started_at_ms : Option ℕ

abbrev pub unleased : Lease
unleased = record {
  leased_by = none;
  lease_attempt_id = none;
  lease_expires_at_ms = none;
  leased_at_ms = none;
  started_at_ms = none;
}

-- The columns that come from the task's spec are its fields.
pub record TaskRow : Type 0 where
  pub job_id : String
  pub spec : TaskSpec
  pub params_json : String
  pub state : String
  pub lease : Lease

pub record AttemptRow : Type 0 where
  pub attempt_id : String
  pub task_id : String
  pub state : String

-- (task_id, depends_on_task_id, kind)
abbrev pub DepRow : Type 0
DepRow = String × String × String

pub record EventRow : Type 0 where
  pub task_id : String
  pub seq : ℕ
  pub at_ms : ℕ
  pub actor : String
  pub to_state : String
  pub attempt : ℕ

pub record Db : Type 0 where
  pub jobs : List JobRow
  pub inputs : List InputRow
  pub tasks : List TaskRow
  pub deps : List DepRow
  pub attempts : List AttemptRow
  pub events : List EventRow
  -- (sha256, size)
  pub blobs : List (String × ℕ)

abbrev pub job_ids : List JobRow → List String
job_ids jobs = map (λ j. JobRow.job_id j) jobs

abbrev pub task_ids : List TaskRow → List String
task_ids tasks = map (λ t. t.spec.task_id) tasks

abbrev pub input_key : InputRow → String × String
input_key r = (r.job_id, r.entry.path)

abbrev pub task_key : TaskRow → String
task_key r = r.spec.task_id

abbrev pub dep_key : DepRow → String × String
dep_key r = (r.0, r.1)

abbrev pub event_key : EventRow → String × ℕ
event_key r = (r.task_id, r.seq)

-- The greatest INTEGER of SQLite.
abbrev pub max_integer : ℕ
max_integer = 9_223_372_036_854_775_807

-- `sqlite3` binds this integer; a greater one raises OverflowError.
abbrev pub binds : ℕ → Bool
binds n = leb n max_integer

-- INSERT of rows whose primary key is `pk`, where `bound` says that the row's integers can be bound, and
-- `fits` is every other constraint of the row.
module _ {ℓ κ} {R : Type ℓ} {K : Type κ} ⦃e : Eq K⦄ (pk : R → K) (bound fits : R → Bool) where
  unfoldable pub add_row : List R → R → Result (List R)
  add_row table row =
      if not (bound row)
      then raise overflow_error
      else (if contains (map pk table) (pk row) || not (fits row)
          then raise integrity_error
          else ok (table ++ row ∷ []))

  unfoldable pub add_rows : List R → List R → Result (List R)
  unfolding add_row
  add_rows table [] = ok table
  add_rows table (row ∷ rows) = add_row table row >>= λ more. add_rows more rows

  -- The rows that are in the table when `executemany` ends, by an exception too.
  unfoldable pub rows_left : List R → List R → List R
  unfolding add_row
  rows_left table [] = table
  rows_left table (row ∷ rows) = elim (add_row table row) [
    | ok more ↦ rows_left more rows
    | raise failure ↦ table
  ]

  -- What INSERT returns is the table with the rows behind it.
  pub add_rows-is :
      (table rows added : List R) → add_rows table rows ≡ ok added → added ≡ table ++ rows
  unfolding add_rows
  add_rows-is table [] added h = sym (ok_inj h) ∙ sym (append-nil table)
  add_rows-is table (row ∷ rows) added h =
      let (more, first, rest) = >>=-eq-ok _ _ h in
      add_rows-is more rows added rest
      ∙ ap (λ t. t ++ rows) (one (bound row) (contains (map pk table) (pk row)) (fits row) first)
      ∙ append_assoc table (row ∷ []) rows
    where
      one :
          (b k f : Bool) {more : List R}
          → (if not b
              then raise overflow_error
              else (if k || not f then raise integrity_error else ok (table ++ row ∷ [])))
            ≡ ok more
          → more ≡ table ++ row ∷ []
      one true false true h = sym (ok_inj h)
      one true true f h = absurd cc
      one true false false h = absurd cc
      one false k f h = absurd cc

  mem-map-concat :
      (table : List R) (row : R) (k : K)
      → Memᴰ k (map pk (table ++ row ∷ []))
      → (k ≡ pk row) ⊎ Memᴰ k (map pk table)
  mem-map-concat [] row k (Memᴰ.head same) = inl same
  mem-map-concat [] row k (Memᴰ.tail m) = absurd (Memᴰ.not-nil m)
  mem-map-concat (r ∷ rs) row k (Memᴰ.head same) = inr (Memᴰ.head same)
  mem-map-concat (r ∷ rs) row k (Memᴰ.tail m) =
      ⊎_elim inl (λ old. inr (Memᴰ.tail old)) (mem-map-concat rs row k m)

  -- Rows with new and different keys that meet the other constraints are all inserted.
  pub add_rows-ok :
      (table rows : List R)
      → Distinct (map pk rows)
      → ((r : R) → Memᴰ r rows → ¬ Memᴰ (pk r) (map pk table))
      → ((r : R) → Memᴰ r rows → bound r ≡ true)
      → ((r : R) → Memᴰ r rows → fits r ≡ true)
      → add_rows table rows ≡ ok (table ++ rows)
  unfolding add_rows
  add_rows-ok table [] d new small fit = ap ok (sym (append-nil table))
  add_rows-ok table (row ∷ rows) d new small fit =
      let within = small row (Memᴰ.head refl) in
      let absent = contains-false (map pk table) (pk row) (new row (Memᴰ.head refl)) in
      let fine = fit row (Memᴰ.head refl) in
      rw (within, absent, add_rows, fine)
        (add_rows-ok (table ++ row ∷ []) rows d.1
            (λ r m old.
              ⊎_elim (λ same. d.0 (subst (λ k. Memᴰ k (map pk rows)) same (mem-map r rows m)))
                (new r (Memᴰ.tail m)) (mem-map-concat table row (pk r) old))
            (λ r m. small r (Memᴰ.tail m)) (λ r m. fit r (Memᴰ.tail m))
          ∙ ap ok (append_assoc table (row ∷ []) rows))
    where
      mem-map : (r : R) (rs : List R) → Memᴰ r rs → Memᴰ (pk r) (map pk rs)
      mem-map r (x ∷ xs) (Memᴰ.head same) = Memᴰ.head (ap pk same)
      mem-map r (x ∷ xs) (Memᴰ.tail m) = Memᴰ.tail (mem-map r xs m)
      mem-map r [] m = absurd (Memᴰ.not-nil m)
