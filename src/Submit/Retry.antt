-- ===== src/Submit/Retry.antt =====
-- A retried submission, with the Idempotency-Key of one that was written.
use rtlfarm.Prelude.{
  String, ◌≡◌, refl, sym, ap, ◌∙◌, ok, Bool, true, false, ◌||◌, List, [], ◌∷◌, ◌++◌, length, ◌==◌,
  none, some, Bool-cases, inl, inr, string_eq, arith,
}
use rtlfarm.Manifest.{Manifest}
use rtlfarm.Dag.{Selection, ExpandedJob}
use rtlfarm.Submit.Tables.{JobRow, Db}
use rtlfarm.Submit.Write.{
  same_key, has_key, Submission, Printer, job_row, find_key, new, original, conflict, replay,
  write_job,
}
use rtlfarm.Submit.Stored.{IsSound, IsJob, IsChecked}
use rtlfarm.Submit.Transaction.{write_job-is}

or_false : (a b : Bool) → a || b ≡ false → (a ≡ false) × (b ≡ false)
or_false a b h = ground arith

find_key-new :
    (jobs : List JobRow) (key : String) → has_key jobs (some key) ≡ false → find_key jobs key ≡ none
unfolding find_key
find_key-new [] key h = refl
find_key-new (j ∷ js) key h =
    let (here, rest) = or_false (same_key j.idempotency_key (some key)) (has_key js (some key)) h in
    rw (here, find_key) (find_key-new js key rest)

find_key-append :
    (jobs : List JobRow) (j : JobRow) (key : String)
    → has_key jobs (some key) ≡ false
    → j.idempotency_key ≡ some key
    → find_key (jobs ++ j ∷ []) key ≡ some j
unfolding find_key
find_key-append [] j key h own =
    let same : same_key j.idempotency_key (some key) ≡ true =
      ap (λ o. same_key o (some key)) own ∙ (string_eq.beq_iff key key).1 refl in
    rw (same, find_key) refl
find_key-append (i ∷ is) j key h own =
    let (here, rest) = or_false (same_key i.idempotency_key (some key)) (has_key is (some key)) h in
    rw (here, find_key) (find_key-append is j key rest own)

-- Before a checked submission with a key is written, `_replay` finds no job for the key; after it, a
-- retry with the key and the same submission hash is answered with that job's id and number of
-- tasks, and one with any other hash is a conflict that names the job.
pub retry :
    (c : Printer) (job : ExpandedJob) (manifest : Manifest) (selection : Selection) (s : Submission)
    (db : Db) (sound : IsSound db) (made : IsJob job) (checked : IsChecked db job manifest s)
    (key hash : String)
    → s.idempotency_key ≡ some key
    → (replay db key hash ≡ new)
      × ((stored : Db)
          → write_job c job manifest selection s db ≡ ok stored
          → (hash ≡ job.submission_hash
              → replay stored key hash ≡ original job.job_id (length job.tasks))
            × ((hash ≡ job.submission_hash → ⊥) → replay stored key hash ≡ conflict job.job_id))
unfolding replay
retry c job manifest selection s db sound made checked key hash given = (
  rw (find_key-new db.jobs key unused, replay) refl,
  λ stored e.
      let found : find_key stored.jobs key ≡ some (job_row c job manifest selection s) =
        ap (λ (d : Db). find_key d.jobs key)
          (write_job-is c job manifest selection s db sound made checked stored e)
        ∙ find_key-append db.jobs (job_row c job manifest selection s) key unused given in
      (
        λ same.
            let eq : (job.submission_hash == hash) ≡ true =
              (string_eq.beq_iff job.submission_hash hash).1 (sym same) in
            rw (found, replay, eq) refl,
        λ other.
            let ne : (job.submission_hash == hash) ≡ false =
              elim (Bool-cases (job.submission_hash == hash)) [
                | inl eq ↦ absurd (other (sym ((string_eq.beq_iff job.submission_hash hash).0 eq)))
                | inr ne ↦ ne
              ] in
            rw (found, replay, ne) refl,
      ),
)
  where
    unused : has_key db.jobs (some key) ≡ false
    unused = ap (has_key db.jobs) (sym given) ∙ checked.unused
