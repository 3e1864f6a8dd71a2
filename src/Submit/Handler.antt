-- ===== src/Submit/Handler.antt =====
-- `submit`: the steps of a submission, composed.
--
-- A call ends with its reply and the store that it leaves.
use rtlfarm.Prelude.{
  ℕ, String, Bool, List, [], ◌∷◌, length, ◌==◌, Option, none, some, if◌then◌else◌, Result, ok,
  raise, Exception, no_such_target, no_targets_matched, string_eq,
}
use rtlfarm.Ids.Ulid.{new_ulid}
use rtlfarm.Config.{Floats, TimingConfig}
use rtlfarm.Manifest.{ManifestEntry, Manifest}
use rtlfarm.Pipeline.Parse.{Parsed}
use rtlfarm.Dag.{Selection, ExpandedJob}
use rtlfarm.Dag.Expand.{expand}
use rtlfarm.Submit.Checks.{
  ApiError, bad_selection, key_conflict, missing_blobs, Checked, fine, refused as refuse,
  manifest_from, resolve_digest, check_sizes,
}
use rtlfarm.Submit.Sizes.{missing, stored_sizes, digests_of}
use rtlfarm.Submit.Tables.{Db}
use rtlfarm.Submit.Write.{
  Submission, Printer, Ran, finished, stopped, Replayed, new, original, conflict, replay,
  run_write_job,
}

pub record Services : Type 1 where
  pub floats : Floats
  pub timing : TimingConfig floats
  pub toolchain_digest : Option String
  pub input_file_bytes : ℕ
  pub input_job_bytes : ℕ
  pub printer : Printer

pub record SubmitRequest : Type 0 where
  pub design : String
  pub files : List ManifestEntry
  pub selection : Selection
  pub priority : ℕ
  pub no_cache : Bool
  pub toolchain_digest : Option String
  pub label : Option String

-- 201, 200, an `ApiError`, or an exception that nothing catches: 500.
pub data Reply : Type 0 where
  created replayed : (job_id : String) → (n_tasks : ℕ) → Reply
  refused : ApiError → Reply
  failed : Exception → Reply

-- if not idempotency_key: idempotency_key = None
abbrev pub given : Option String → Option String
given none = none
given (some key) = if key == "" then none else some key

-- `SelectionError` is caught.
abbrev pub selection_reply : Exception → Reply
selection_reply (no_such_target names) = refused (bad_selection (no_such_target names))
selection_reply no_targets_matched = refused (bad_selection no_targets_matched)
selection_reply e = failed e

-- How the body of `async with svc.db.write()` ends, with the store of the open transaction: it leaves the
-- block, or an exception leaves it, and what the client then gets.
pub data Block : Type 0 where
  leaves throws : Reply → Db → Block

-- BEGIN IMMEDIATE, the body, then COMMIT or, on an exception, ROLLBACK. That SQLite refuses the BEGIN or
-- the COMMIT is not modelled.
unfoldable pub database_write : (Db → Block) → Db → Reply × Db
database_write body db = elim (body db) [
  | leaves reply working ↦ (reply, working)
  | throws reply working ↦ (reply, db)
]

module _ (svc : Services) (body : SubmitRequest) (key : Option String) (random now : ℕ) where
  abbrev pub submission : Submission
  submission = record {
    priority = body.priority;
    no_cache = body.no_cache;
    label = body.label;
    idempotency_key = given key;
    now = now;
  }

  abbrev pub after_write : ExpandedJob → Ran → Block
  after_write job (stopped e working) = throws (failed e) working
  after_write job (finished stored) = leaves (created job.job_id (length job.tasks)) stored

  abbrev pub after_sizes : Manifest → ExpandedJob → Db → Result (Option ApiError) → Block
  after_sizes manifest job db (raise e) = throws (failed e) db
  after_sizes manifest job db (ok (some e)) = throws (refused e) db
  after_sizes manifest job db (ok none) =
      after_write job (run_write_job svc.printer job manifest body.selection submission db)

  abbrev pub after_missing : Manifest → ExpandedJob → Db → List String → Block
  after_missing manifest job db (m ∷ ms) = throws (refused (missing_blobs (m ∷ ms))) db
  after_missing manifest job db [] = after_sizes manifest job db (
      check_sizes svc.input_file_bytes svc.input_job_bytes
        (stored_sizes db.blobs (digests_of manifest.files)) body.files)

  unfoldable pub store : Manifest → ExpandedJob → Db → Block
  store manifest job db = after_missing manifest job db (missing db.blobs manifest.files)

  abbrev pub after_replay : Manifest → ExpandedJob → Db → Replayed → Block
  after_replay manifest job db new = store manifest job db
  after_replay manifest job db (original id n) = leaves (replayed id n) db
  after_replay manifest job db (conflict id) = throws (refused (key_conflict id)) db

  abbrev pub transaction : Manifest → Option String → ExpandedJob → Db → Block
  transaction manifest none job db = store manifest job db
  transaction manifest (some k) job db =
      after_replay manifest job db (replay db k job.submission_hash)

  abbrev pub after_expand : Manifest → Db → Result ExpandedJob → Reply × Db
  after_expand manifest db (raise e) = (selection_reply e, db)
  after_expand manifest db (ok job) = database_write (transaction manifest (given key) job) db

  abbrev pub after_id : Manifest → String → Db → Result String → Reply × Db
  after_id manifest digest db (raise e) = (failed e, db)
  after_id manifest digest db (ok id) =
      after_expand manifest db
        (expand svc.printer.codec manifest body.selection id body.priority digest body.no_cache)

  abbrev pub after_digest : Manifest → Db → Checked String → Reply × Db
  after_digest manifest db (refuse e) = (refused e, db)
  after_digest manifest db (fine digest) = after_id manifest digest db (new_ulid random now)

  abbrev pub after_manifest : Db → Checked Manifest → Reply × Db
  after_manifest db (refuse e) = (refused e, db)
  after_manifest db (fine manifest) = after_digest manifest db (
      resolve_digest
        (body.toolchain_digest ∷ manifest.pipeline.toolchain_digest ∷ svc.toolchain_digest ∷ []))

  -- `loaded` is what `parse_pipeline` does on the body's pipeline.
  unfoldable pub submit : Parsed → Db → Reply × Db
  unfolding store database_write
  submit loaded db =
      after_manifest db (manifest_from svc.floats svc.timing loaded body.design body.files)
