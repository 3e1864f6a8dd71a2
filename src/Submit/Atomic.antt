-- ===== src/Submit/Atomic.antt =====
-- A submission is written as a whole or leaves no trace.
use rtlfarm.Prelude.{
  ℕ, String, ◌≡◌, refl, sym, ap, subst, ◌∙◌, some_inj, List, [], ◌∷◌, length, Option, none, some,
  Result, ok, raise, Exception, no_such_target, no_targets_matched,
}
use rtlfarm.Manifest.{Manifest}
use rtlfarm.Pipeline.Parse.{Parsed}
use rtlfarm.Dag.{Selection, ExpandedJob}
use rtlfarm.Dag.Expand.{expand}
use rtlfarm.Ids.Ulid.{new_ulid}
use rtlfarm.Submit.Checks.{
  ApiError, Checked, fine, refused as refuse, manifest_from, resolve_digest, check_sizes,
}
use rtlfarm.Submit.Sizes.{missing, stored_sizes, digests_of}
use rtlfarm.Submit.Tables.{Db}
use rtlfarm.Submit.Write.{
  Replayed, new, original, conflict, replay, write_job, Ran, finished, stopped, run_write_job,
  Submission, Printer,
}
use rtlfarm.Submit.Statements.{finished-ok}
use rtlfarm.Submit.Handler.{
  Services, SubmitRequest, Reply, created, replayed, refused, failed, given, selection_reply, Block,
  database_write, submission, leaves, after_write, after_sizes, after_missing, store, after_replay,
  transaction, after_expand, after_id, after_digest, after_manifest, submit,
}

-- What finishes is what `_write_job` returns.
finished-write_job :
    (c : Printer) (job : ExpandedJob) (manifest : Manifest) (selection : Selection) (s : Submission)
    (db stored : Db)
    → run_write_job c job manifest selection s db ≡ finished stored
    → write_job c job manifest selection s db ≡ ok stored
unfolding write_job
finished-write_job c job manifest selection s db stored h = rw (h, write_job) refl

module _ (svc : Services) (body : SubmitRequest) (key : Option String) (random now : ℕ)
    (loaded : Parsed) (db : Db) where
  -- The manifest is made of the request's pipeline and files, and the job is expanded from it, the
  -- request's selection and settings, the digest that was resolved and the new id.
  pub record IsOrdered (manifest : Manifest) (job : ExpandedJob) : Type 0 where
    pub from_request :
        manifest_from svc.floats svc.timing loaded body.design body.files ≡ fine manifest
    pub digest : String
    pub resolved :
        resolve_digest
          (body.toolchain_digest ∷ manifest.pipeline.toolchain_digest ∷ svc.toolchain_digest ∷ [])
        ≡ fine digest
    pub id : String
    pub new_id : new_ulid random now ≡ ok id
    pub expands :
        expand svc.printer.codec manifest body.selection id body.priority digest body.no_cache
        ≡ ok job

  -- Every step of the submission goes well: the manifest and the job are those of the request, the key,
  -- if one is given, is new, no blob of the manifest is missing, the sizes are accepted, and `_write_job`
  -- writes the job.
  pub record GoesWell : Type 0 where
    pub manifest : Manifest
    pub job : ExpandedJob
    pub stored : Db
    pub ordered : IsOrdered manifest job
    pub fresh : (k : String) → given key ≡ some k → replay db k job.submission_hash ≡ new
    pub present : missing db.blobs manifest.files ≡ []
    pub sizes :
        check_sizes svc.input_file_bytes svc.input_job_bytes
          (stored_sizes db.blobs (digests_of manifest.files))
          body.files
        ≡ ok none
    pub writes :
        write_job svc.printer job manifest body.selection (submission svc body key random now) db
        ≡ ok stored

  -- The ends of a submission: 201 with the job and the store in which it is written, where every step
  -- goes well, and otherwise another reply with the store as it was.
  pub data Ends : Reply × Db → Type 0 where
    untouched :
        (reply : Reply)
        → ((id : String) (n : ℕ) → reply ≡ created id n → ⊥)
        → (¬ GoesWell)
        → Ends (reply, db)
    written : (w : GoesWell) → Ends (created w.job.job_id (length w.job.tasks), w.stored)

  -- The same, step by step.
  data Steps : Reply × Db → Type 0 where
    left : (reply : Reply) → ((id : String) (n : ℕ) → reply ≡ created id n → ⊥) → Steps (reply, db)
    wrote :
        (manifest : Manifest) (job : ExpandedJob) (stored : Db)
        → IsOrdered manifest job
        → ((k : String) → given key ≡ some k → replay db k job.submission_hash ≡ new)
        → missing db.blobs manifest.files ≡ []
        → check_sizes svc.input_file_bytes svc.input_job_bytes
            (stored_sizes db.blobs (digests_of manifest.files))
            body.files
          ≡ ok none
        → write_job svc.printer job manifest body.selection (submission svc body key random now) db
          ≡ ok stored
        → Steps (created job.job_id (length job.tasks), stored)

  -- The reply and the store of a call, once its transaction is over.
  abbrev over : Block → Reply × Db
  over block = database_write (λ _. block) db

  refused-Steps : (e : ApiError) → Steps (refused e, db)
  refused-Steps e = left (refused e) (λ id n h. absurd cc)

  failed-Steps : (e : Exception) → Steps (failed e, db)
  failed-Steps e = left (failed e) (λ id n h. absurd cc)

  selection_reply-Steps : (e : Exception) → Steps (selection_reply e, db)
  selection_reply-Steps (no_such_target names) = refused-Steps _
  selection_reply-Steps no_targets_matched = refused-Steps _
  selection_reply-Steps e = failed-Steps _

  module _ (manifest : Manifest) (job : ExpandedJob) (ordered : IsOrdered manifest job) where
    abbrev IsNew : Type 0
    IsNew = (k : String) → given key ≡ some k → replay db k job.submission_hash ≡ new

    after_sizes-Steps :
        (r : Result (Option ApiError))
        → IsNew
        → missing db.blobs manifest.files ≡ []
        → check_sizes svc.input_file_bytes svc.input_job_bytes
            (stored_sizes db.blobs (digests_of manifest.files))
            body.files
          ≡ r
        → Steps (over (after_sizes svc body key random now manifest job db r))
    unfolding database_write
    after_sizes-Steps (raise e) fresh present sizes = failed-Steps e
    after_sizes-Steps (ok (some e)) fresh present sizes = refused-Steps e
    after_sizes-Steps (ok none) fresh present sizes =
        go
          (run_write_job svc.printer job manifest body.selection
            (submission svc body key random now) db)
          refl
      where
        go :
            (r : Ran)
            → run_write_job svc.printer job manifest body.selection
                (submission svc body key random now)
                db
              ≡ r
            → Steps (over (after_write svc body key random now job r))
        go (finished stored) e = wrote manifest job stored ordered fresh present sizes (
            finished-write_job svc.printer job manifest body.selection
              (submission svc body key random now) db stored e)
        go (stopped x working) e = failed-Steps x

    after_missing-Steps :
        (gone : List String)
        → IsNew
        → missing db.blobs manifest.files ≡ gone
        → Steps (over (after_missing svc body key random now manifest job db gone))
    unfolding database_write
    after_missing-Steps [] fresh present = after_sizes-Steps _ fresh present refl
    after_missing-Steps (g ∷ gs) fresh some_gone = refused-Steps _

    store-Steps : IsNew → Steps (over (store svc body key random now manifest job db))
    unfolding store
    store-Steps fresh = after_missing-Steps _ fresh refl

    after_replay-Steps :
        (k : String) (r : Replayed)
        → given key ≡ some k
        → replay db k job.submission_hash ≡ r
        → Steps (over (after_replay svc body key random now manifest job db r))
    unfolding database_write
    after_replay-Steps k new is found =
        store-Steps λ k' is'.
          subst (λ x. replay db x job.submission_hash ≡ new) (some_inj (sym is ∙ is')) found
    after_replay-Steps k (original id n) is found = left (replayed id n) (λ i l h. absurd cc)
    after_replay-Steps k (conflict id) is found = refused-Steps _

    transaction-Steps :
        (k : Option String)
        → given key ≡ k
        → Steps (database_write (transaction svc body key random now manifest k job) db)
    unfolding database_write
    transaction-Steps none is = store-Steps λ k' is'. absurd (let clash = sym is ∙ is' in cc clash)
    transaction-Steps (some k) is = after_replay-Steps k (replay db k job.submission_hash) is refl

  module _ (manifest : Manifest)
      (made : manifest_from svc.floats svc.timing loaded body.design body.files
        ≡ fine manifest) where
    after_id-Steps :
        (digest : String) (r : Result String)
        → resolve_digest
            (body.toolchain_digest ∷ manifest.pipeline.toolchain_digest ∷ svc.toolchain_digest ∷ [])
          ≡ fine digest
        → new_ulid random now ≡ r
        → Steps (after_id svc body key random now manifest digest db r)
    after_id-Steps digest (raise e) resolved named = failed-Steps e
    after_id-Steps digest (ok id) resolved named = go _ refl
      where
        go :
            (r : Result ExpandedJob)
            → expand svc.printer.codec manifest body.selection id body.priority digest body.no_cache
              ≡ r
            → Steps (after_expand svc body key random now manifest db r)
        go (raise e) h = selection_reply-Steps e
        go (ok job) h =
            transaction-Steps manifest job
              (record {
                from_request = made;
                digest = digest;
                resolved = resolved;
                id = id;
                new_id = named;
                expands = h;
              })
              (given key) refl

    after_digest-Steps :
        (r : Checked String)
        → resolve_digest
            (body.toolchain_digest ∷ manifest.pipeline.toolchain_digest ∷ svc.toolchain_digest ∷ [])
          ≡ r
        → Steps (after_digest svc body key random now manifest db r)
    after_digest-Steps (refuse e) h = refused-Steps e
    after_digest-Steps (fine digest) h = after_id-Steps digest _ h refl

  after_manifest-Steps :
      (r : Checked Manifest)
      → manifest_from svc.floats svc.timing loaded body.design body.files ≡ r
      → Steps (after_manifest svc body key random now db r)
  after_manifest-Steps (refuse e) h = refused-Steps e
  after_manifest-Steps (fine manifest) h = after_digest-Steps manifest h _ refl

-- A submission of which every step goes well is written.
module _ (svc : Services) (body : SubmitRequest) (key : Option String) (random now : ℕ)
    (loaded : Parsed) (db : Db) (manifest : Manifest) (job : ExpandedJob) (stored : Db)
    (ordered : IsOrdered svc body key random now loaded db manifest job)
    (fresh : (k : String) → given key ≡ some k → replay db k job.submission_hash ≡ new)
    (present : missing db.blobs manifest.files ≡ [])
    (sizes : check_sizes svc.input_file_bytes svc.input_job_bytes
        (stored_sizes db.blobs (digests_of manifest.files))
        body.files
      ≡ ok none)
    (writes : write_job svc.printer job manifest body.selection
        (submission svc body key random now)
        db
      ≡ ok stored) where
  store-leaves :
      store svc body key random now manifest job db
      ≡ leaves (created job.job_id (length job.tasks)) stored
  unfolding store write_job
  store-leaves =
      ap (after_missing svc body key random now manifest job db) present
      ∙ ap (after_sizes svc body key random now manifest job db) sizes
      ∙ ap (after_write svc body key random now job) (finished-ok _ writes)

  transaction-leaves :
      (k : Option String)
      → given key ≡ k
      → transaction svc body key random now manifest k job db
        ≡ leaves (created job.job_id (length job.tasks)) stored
  transaction-leaves none is = store-leaves
  transaction-leaves (some k) is =
      ap (after_replay svc body key random now manifest job db) (fresh k is) ∙ store-leaves

  submit-created :
      submit svc body key random now loaded db ≡ (created job.job_id (length job.tasks), stored)
  unfolding submit database_write
  submit-created =
      ap (after_manifest svc body key random now db) (IsOrdered.from_request ordered)
      ∙ ap (after_digest svc body key random now manifest db) (IsOrdered.resolved ordered)
      ∙ ap (after_id svc body key random now manifest (IsOrdered.digest ordered) db)
          (IsOrdered.new_id ordered)
      ∙ ap (after_expand svc body key random now manifest db) (IsOrdered.expands ordered)
      ∙ ap (λ block. database_write (λ _. block) db) (transaction-leaves (given key) refl)

-- Every submission ends in one of two ways. Where every step goes well, it ends with 201, the id of a job
-- and its number of tasks, and the store in which `_write_job` wrote the job. There the job is what `expand`
-- returns for the manifest that is made of the request, the request's selection, priority and
-- `no_cache`, the digest that is resolved and a new ULID; its key, if one is given, was new, no blob of its
-- manifest was missing, and its sizes were accepted. Where some step does not go well, it ends with a
-- reply other than 201, and the store is as it was, whatever rows were inserted before an exception.
pub submit_atomic :
    (svc : Services) (body : SubmitRequest) (key : Option String) (random now : ℕ) (loaded : Parsed)
    (db : Db)
    → Ends svc body key random now loaded db (submit svc body key random now loaded db)
unfolding submit
submit_atomic svc body key random now loaded db =
    go (submit svc body key random now loaded db) refl (
      after_manifest-Steps svc body key random now loaded db
        (manifest_from svc.floats svc.timing loaded body.design body.files) refl)
  where
    go :
        (r : Reply × Db)
        → submit svc body key random now loaded db ≡ r
        → Steps svc body key random now loaded db r
        → Ends svc body key random now loaded db r
    go r e (left reply other) = untouched reply other λ w. other w.job.job_id (length w.job.tasks) (
        ap (λ (x : Reply × Db). x.0)
          (sym e
            ∙ submit-created svc body key random now loaded db w.manifest w.job w.stored w.ordered
                w.fresh w.present w.sizes w.writes))
    go r e (wrote manifest job stored ordered fresh present sizes writes) = written (record {
      manifest = manifest;
      job = job;
      stored = stored;
      ordered = ordered;
      fresh = fresh;
      present = present;
      sizes = sizes;
      writes = writes;
    })
