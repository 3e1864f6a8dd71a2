-- ===== src/Submit/Write.antt =====
-- `_write_job`, `_insert_tasks` and `_replay`: one job's rows.
use rtlfarm.Prelude.{
  ℕ, String, Bool, true, false, not, ◌&&◌, ◌||◌, List, [], ◌∷◌, map, ◌==◌, contains, keys, length,
  leb, Option, none, some, if◌then◌else◌, Result, Exception, ok, raise, ◌>>=◌, string_eq, nat_eq,
}
use rtlfarm.Json.{Json, obj, Codec}
use rtlfarm.Manifest.{ManifestEntry, Manifest, canonical_json}
use rtlfarm.Dag.{Selection, TaskParams, TaskSpec, ExpandedJob}
use rtlfarm.Dag.Select.{selection_fields}
use rtlfarm.Dag.Rows.{job_dependencies}
use rtlfarm.Submit.Tables.{
  unleased, JobRow, InputRow, TaskRow, DepRow, EventRow, Db, job_ids, task_ids, input_key, task_key,
  dep_key, event_key, binds, add_rows, rows_left, pair_eq,
}

-- CHECK(stage_kind IN ...)
abbrev pub stage_kind_check : List String
stage_kind_check =
    "lint" ∷ "compile" ∷ "simulate" ∷ "coverage" ∷ "compile_wave" ∷ "simulate_wave" ∷ []

abbrev pub same_key : Option String → Option String → Bool
same_key none other = false
same_key (some key) none = false
same_key (some key) (some other) = key == other

-- UNIQUE: two keys that are not NULL differ.
abbrev pub has_key : List JobRow → Option String → Bool
has_key [] key = false
has_key (j ∷ js) key = same_key j.idempotency_key key || has_key js key

abbrev pub job_fits : Db → JobRow → Bool
job_fits db j = leb j.priority 9 && not (has_key db.jobs j.idempotency_key)

abbrev pub input_fits : Db → InputRow → Bool
input_fits db r = contains (job_ids db.jobs) r.job_id && contains (keys db.blobs) r.entry.sha256

-- CHECK ((state IN ('LEASED','RUNNING')) = (lease_attempt_id IS NOT NULL))
abbrev pub lease_check : TaskRow → Bool
lease_check r = elim r.lease.lease_attempt_id [
  | none ↦ not (contains ("LEASED" ∷ "RUNNING" ∷ []) r.state)
  | some attempt ↦ contains ("LEASED" ∷ "RUNNING" ∷ []) r.state
]

abbrev pub task_fits : Db → TaskRow → Bool
task_fits db r =
    contains (job_ids db.jobs) r.job_id
    && (contains stage_kind_check r.spec.stage_kind
        && (leb r.spec.priority 9 && (not (r.spec.toolchain_digest == "any") && lease_check r)))

abbrev pub dep_fits : Db → DepRow → Bool
dep_fits db r =
    contains (task_ids db.tasks) r.0
    && (contains (task_ids db.tasks) r.1 && contains ("success" ∷ "failure" ∷ []) r.2)

abbrev pub event_fits : Db → EventRow → Bool
event_fits db r = contains (task_ids db.tasks) r.task_id

abbrev pub job_bound : JobRow → Bool
job_bound j = binds j.priority && (binds j.n_tasks && binds j.created_at_ms)

abbrev pub input_bound : InputRow → Bool
input_bound r = binds r.entry.ordinal && binds r.entry.size

abbrev pub task_bound : TaskRow → Bool
task_bound r =
    binds r.spec.seed
    && (binds r.spec.timeout_s
        && (binds r.spec.priority
            && (binds r.spec.max_infra
                && (binds r.spec.max_timeout && binds r.spec.max_tool_error))))

-- A row of `task_deps` has texts only.
abbrev pub dep_bound : DepRow → Bool
dep_bound r = true

abbrev pub event_bound : EventRow → Bool
event_bound r = binds r.at_ms

-- One `execute` or `executemany`: what it returns, and the store that it leaves in the transaction.
pub record Statement : Type 0 where
  pub returns : Db → Result Db
  pub leaves_db : Db → Db

abbrev pub insert_jobs : List JobRow → Statement
insert_jobs rows = record {
  returns = λ db. add_rows JobRow.job_id job_bound (job_fits db) db.jobs rows >>= λ jobs.
      ok (record db { jobs = jobs });
  leaves_db =
      λ db. record db { jobs = rows_left JobRow.job_id job_bound (job_fits db) db.jobs rows };
}

abbrev pub insert_inputs : List InputRow → Statement
insert_inputs rows = record {
  returns = λ db. add_rows input_key input_bound (input_fits db) db.inputs rows >>= λ inputs.
      ok (record db { inputs = inputs });
  leaves_db =
      λ db. record db { inputs = rows_left input_key input_bound (input_fits db) db.inputs rows };
}

abbrev pub insert_tasks : List TaskRow → Statement
insert_tasks rows = record {
  returns = λ db. add_rows task_key task_bound (task_fits db) db.tasks rows >>= λ tasks.
      ok (record db { tasks = tasks });
  leaves_db =
      λ db. record db { tasks = rows_left task_key task_bound (task_fits db) db.tasks rows };
}

abbrev pub insert_deps : List DepRow → Statement
insert_deps rows = record {
  returns = λ db. add_rows dep_key dep_bound (dep_fits db) db.deps rows >>= λ deps.
      ok (record db { deps = deps });
  leaves_db = λ db. record db { deps = rows_left dep_key dep_bound (dep_fits db) db.deps rows };
}

abbrev pub insert_events : List EventRow → Statement
insert_events rows = record {
  returns = λ db. add_rows event_key event_bound (event_fits db) db.events rows >>= λ events.
      ok (record db { events = events });
  leaves_db =
      λ db. record db { events = rows_left event_key event_bound (event_fits db) db.events rows };
}

-- What statements come to: the store that they made, or the exception of one of them and the store
-- as it left it.
pub data Ran : Type 0 where
  finished : Db → Ran
  stopped : Exception → Db → Ran

unfoldable pub run : List Statement → Db → Ran
run [] db = finished db
run (statement ∷ rest) db = elim (statement.returns db) [
  | ok next ↦ run rest next
  | raise failure ↦ stopped failure (statement.leaves_db db)
]

-- What the request and the clock give besides the manifest and the selection.
pub record Submission : Type 0 where
  pub priority : ℕ
  pub no_cache : Bool
  pub label : Option String
  pub idempotency_key : Option String
  pub now : ℕ

-- `json.dumps` with sorted keys and the default separators, and with it `params_json` of a task: the
-- JSON of its parameters and artifact kinds.
pub record Printer : Type 0 where
  pub codec : Codec
  pub dumps_spaced : Json → String
  pub params_json : TaskParams → List String → String

module _ (c : Printer) (job : ExpandedJob) (manifest : Manifest) (selection : Selection)
    (s : Submission) where
  abbrev pub job_row : JobRow
  job_row = record {
    job_id = job.job_id;
    design_name = manifest.design;
    submission_hash = job.submission_hash;
    manifest_json = canonical_json c.codec manifest;
    pipeline_json = c.dumps_spaced (c.codec.model_dump manifest.pipeline);
    selection_json = c.dumps_spaced (obj (selection_fields selection));
    toolchain_digest = job.toolchain_digest;
    priority = s.priority;
    no_cache = s.no_cache;
    idempotency_key = s.idempotency_key;
    label = s.label;
    state = "SUBMITTED";
    dirty = true;
    n_tasks = length job.tasks;
    created_at_ms = s.now;
  }

  abbrev pub input_rows : List ManifestEntry → List InputRow
  input_rows files = map (λ f. record { job_id = job.job_id; entry = f }) files

  abbrev pub task_row : TaskSpec → TaskRow
  task_row t = record {
    job_id = job.job_id;
    spec = t;
    params_json = c.params_json t.params t.consumes_artifacts;
    state = "PENDING";
    lease = unleased;
  }

  abbrev pub event_row : TaskSpec → EventRow
  event_row t = record {
    task_id = t.task_id;
    seq = 1;
    at_ms = s.now;
    actor = "api";
    to_state = "PENDING";
    attempt = 0;
  }

  abbrev pub statements : List Statement
  statements =
      insert_jobs (job_row ∷ [])
      ∷ insert_inputs (input_rows manifest.files)
      ∷ insert_tasks (map task_row job.tasks)
      ∷ insert_deps (job_dependencies job)
      ∷ insert_events (map event_row job.tasks)
      ∷ []

  -- The call, with the store of the transaction when it ends.
  unfoldable pub run_write_job : Db → Ran
  unfolding run add_rows rows_left
  run_write_job db = run statements db

  -- The call as its caller sees it.
  unfoldable pub write_job : Db → Result Db
  unfolding run_write_job
  write_job db = elim (run_write_job db) [
    | finished stored ↦ ok stored
    | stopped failure working ↦ raise failure
  ]

-- SELECT ... FROM jobs WHERE idempotency_key = ?
unfoldable pub find_key : List JobRow → String → Option JobRow
find_key [] key = none
find_key (j ∷ js) key = if same_key j.idempotency_key (some key) then some j else find_key js key

pub data Replayed : Type 0 where
  new : Replayed
  original : (job_id : String) → (n_tasks : ℕ) → Replayed
  conflict : (job_id : String) → Replayed

unfoldable pub replay : Db → String → String → Replayed
unfolding find_key
replay db key submission_hash = elim (find_key db.jobs key) [
  | none ↦ new
  | some j ↦
      if JobRow.submission_hash j == submission_hash
      then original (JobRow.job_id j) (JobRow.n_tasks j)
      else conflict (JobRow.job_id j)
]
