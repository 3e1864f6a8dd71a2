-- ===== src/Submit/Statements.antt =====
-- The statements of `_write_job`: what each leaves where it returns, and what they come to.
use rtlfarm.Prelude.{
  ℕ, ◌≡◌, sym, ap, ◌∙◌, true, List, [], ◌∷◌, ◌++◌, ◌≤◌, ◌>>=◌, Result, raise, >>=-eq-ok, ok, ok_inj,
  string_eq, nat_eq, arith,
}
use rtlfarm.Dag.Rows.{Row}
use rtlfarm.Submit.Tables.{
  JobRow, InputRow, TaskRow, EventRow, Db, input_key, task_key, dep_key, event_key, max_integer,
  binds, add_rows-is, pair_eq,
}
use rtlfarm.Submit.Write.{
  job_fits, input_fits, task_fits, dep_fits, event_fits, job_bound, input_bound, task_bound,
  dep_bound, event_bound, Statement, Ran, finished, stopped, run, insert_jobs, insert_inputs,
  insert_tasks, insert_deps, insert_events,
}

pub binds-low : (n : ℕ) → n ≤ max_integer → binds n ≡ true
binds-low n h = ground arith

pub binds-nine : (n : ℕ) → n ≤ 9 → binds n ≡ true
binds-nine n h = binds-low n (omega arith)

pub insert_jobs-is :
    (rows : List JobRow) (db d : Db)
    → (insert_jobs rows).returns db ≡ ok d
    → d ≡ record db { jobs = db.jobs ++ rows }
insert_jobs-is rows db d h =
    let (added, e, rest) = >>=-eq-ok _ _ h in
    sym (ok_inj rest)
    ∙ ap (λ t. record db { jobs = t })
        (add_rows-is JobRow.job_id job_bound (job_fits db) db.jobs rows added e)

pub insert_inputs-is :
    (rows : List InputRow) (db d : Db)
    → (insert_inputs rows).returns db ≡ ok d
    → d ≡ record db { inputs = db.inputs ++ rows }
insert_inputs-is rows db d h =
    let (added, e, rest) = >>=-eq-ok _ _ h in
    sym (ok_inj rest)
    ∙ ap (λ t. record db { inputs = t })
        (add_rows-is input_key input_bound (input_fits db) db.inputs rows added e)

pub insert_tasks-is :
    (rows : List TaskRow) (db d : Db)
    → (insert_tasks rows).returns db ≡ ok d
    → d ≡ record db { tasks = db.tasks ++ rows }
insert_tasks-is rows db d h =
    let (added, e, rest) = >>=-eq-ok _ _ h in
    sym (ok_inj rest)
    ∙ ap (λ t. record db { tasks = t })
        (add_rows-is task_key task_bound (task_fits db) db.tasks rows added e)

pub insert_deps-is :
    (rows : List Row) (db d : Db)
    → (insert_deps rows).returns db ≡ ok d
    → d ≡ record db { deps = db.deps ++ rows }
insert_deps-is rows db d h =
    let (added, e, rest) = >>=-eq-ok _ _ h in
    sym (ok_inj rest)
    ∙ ap (λ t. record db { deps = t })
        (add_rows-is dep_key dep_bound (dep_fits db) db.deps rows added e)

pub insert_events-is :
    (rows : List EventRow) (db d : Db)
    → (insert_events rows).returns db ≡ ok d
    → d ≡ record db { events = db.events ++ rows }
insert_events-is rows db d h =
    let (added, e, rest) = >>=-eq-ok _ _ h in
    sym (ok_inj rest)
    ∙ ap (λ t. record db { events = t })
        (add_rows-is event_key event_bound (event_fits db) db.events rows added e)

-- The statements one behind another, by what they return.
abbrev chain : List Statement → Result Db → Result Db
chain [] r = r
chain (st ∷ sts) r = chain sts (r >>= Statement.returns st)

pub run-chain :
    (sts : List Statement) (db d : Db) → run sts db ≡ finished d → chain sts (ok db) ≡ ok d
unfolding run
run-chain [] db d h = ap ok (finished_inj h)
  where
    finished_inj : {a b : Db} → finished a ≡ finished b → a ≡ b
    finished_inj h = cc
run-chain (st ∷ sts) db d h = go (st.returns db) h (λ next. run-chain sts next d)
  where
    go :
        (r : Result Db)
        → (elim r [ ok next ↦ run sts next | raise x ↦ stopped x (st.leaves_db db) ]) ≡ finished d
        → ((next : Db) → run sts next ≡ finished d → chain sts (ok next) ≡ ok d)
        → chain sts r ≡ ok d
    go (ok next) h rest = rest next h
    go (raise x) h rest = absurd cc

pub finished-ok :
    (r : Ran) {d : Db}
    → (elim r [ finished stored ↦ ok stored | stopped x working ↦ raise x ]) ≡ ok d
    → r ≡ finished d
finished-ok (finished stored) h = ap finished (ok_inj h)
finished-ok (stopped x working) h = absurd cc
