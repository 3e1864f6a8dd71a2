-- ===== src/Submit/Transaction.antt =====
-- `_write_job` on a checked submission.
use mathlib.Core.List.Memᴰ
use mathlib.Core.Logic.{⊎_elim}
use rtlfarm.Prelude.{
  String, ◌≡◌, refl, sym, ap, subst, ◌∙◌, List, [], ◌∷◌, ◌++◌, map, Memᴰ, Memᴰ-append, Distinct,
  >>=-eq-ok, ok, nat_eq,
}
use rtlfarm.Ids.{task_id_text}
use rtlfarm.Ids.Distinct.{AreParts, text_inj}
use rtlfarm.Manifest.{Manifest}
use rtlfarm.Dag.{Selection, TaskSpec, ExpandedJob}
use rtlfarm.Dag.Tasks.{ids}
use rtlfarm.Dag.Rows.{IsRow, job_dependencies}
use rtlfarm.Submit.Tables.{JobRow, InputRow, TaskRow, EventRow, Db, job_ids, task_ids, pair_eq}
use rtlfarm.Submit.Write.{
  run_write_job, statements, Submission, Printer, job_row, input_rows, task_row, event_row,
  write_job,
}
use rtlfarm.Submit.Statements.{
  insert_jobs-is, insert_inputs-is, insert_tasks-is, insert_deps-is, insert_events-is, run-chain,
  finished-ok,
}
use rtlfarm.Submit.Stored.{IsSound, IsJob, IsChecked, IsStorable, mem-map, map-mem}

module _ (c : Printer) (job : ExpandedJob) (manifest : Manifest) (selection : Selection)
    (s : Submission) (db : Db) (sound : IsSound db) (made : IsJob job)
    (checked : IsChecked db job manifest s) where
  -- The store with the job's rows behind those that were there.
  abbrev pub after : Db
  after = record {
    jobs = db.jobs ++ job_row c job manifest selection s ∷ [];
    inputs = db.inputs ++ input_rows c job manifest selection s manifest.files;
    tasks = db.tasks ++ map (task_row c job manifest selection s) job.tasks;
    deps = db.deps ++ job_dependencies job;
    attempts = db.attempts;
    events = db.events ++ map (event_row c job manifest selection s) job.tasks;
    blobs = db.blobs;
  }

  pub mem-job_ids : Memᴰ job.job_id (job_ids after.jobs)
  mem-job_ids =
      mem-map (λ j. JobRow.job_id j) (job_row c job manifest selection s) after.jobs
        (Memᴰ.append_right db.jobs (Memᴰ.head refl))

  old-job_ids : (k : String) → Memᴰ k (job_ids db.jobs) → Memᴰ k (job_ids after.jobs)
  old-job_ids k m =
      let (j, mj, e) = map-mem (λ j. JobRow.job_id j) k db.jobs m in
      subst (λ x. Memᴰ x (job_ids after.jobs)) (sym e)
        (mem-map (λ j. JobRow.job_id j) j after.jobs (Memᴰ.append_left _ mj))

  pub new-task_ids : (id : String) → Memᴰ id (ids job.tasks) → Memᴰ id (task_ids after.tasks)
  new-task_ids id m =
      let (t, mt, e) = map-mem (λ t. TaskSpec.task_id t) id job.tasks m in
      subst (λ x. Memᴰ x (task_ids after.tasks)) (sym e)
        (mem-map (λ (r : TaskRow). r.spec.task_id) (task_row c job manifest selection s t)
          after.tasks
          (Memᴰ.append_right db.tasks
            (mem-map (task_row c job manifest selection s) t job.tasks mt)))

  pub old-task_ids : (id : String) → Memᴰ id (task_ids db.tasks) → Memᴰ id (task_ids after.tasks)
  old-task_ids id m =
      let (r, mr, e) = map-mem (λ (r : TaskRow). r.spec.task_id) id db.tasks m in
      subst (λ x. Memᴰ x (task_ids after.tasks)) (sym e)
        (mem-map (λ (r : TaskRow). r.spec.task_id) r after.tasks (Memᴰ.append_left _ mr))

  -- No task of another job has the id of one of this job's.
  pub apart : (id : String) → Memᴰ id (ids job.tasks) → ¬ Memᴰ id (task_ids db.tasks)
  apart id m old =
      let (t, mt, e) = map-mem (λ t. TaskSpec.task_id t) id job.tasks m in
      let (r, mr, er) = map-mem (λ (r : TaskRow). r.spec.task_id) id db.tasks old in
      let same =
        text_inj _ _ _ _ _ _ _ _ (made.parts t mt) (sound.parts r mr)
          (sym (made.text t mt) ∙ sym e ∙ er ∙ sound.text r mr) in
      checked.fresh (subst (λ k. Memᴰ k (job_ids db.jobs)) (sym same.0) (sound.owned r mr))

  module _ (storable : IsStorable job manifest s) where
    abbrev db₁ : Db
    db₁ = record db { jobs = after.jobs }

    abbrev db₂ : Db
    db₂ = record db₁ { inputs = after.inputs }

    abbrev db₃ : Db
    db₃ = record db₂ { tasks = after.tasks }

    abbrev db₄ : Db
    db₄ = record db₃ { deps = after.deps }

  -- What `_write_job` returns, if it returns, is that store.
  pub write_job-is :
      (stored : Db) → write_job c job manifest selection s db ≡ ok stored → stored ≡ after
  unfolding write_job run_write_job
  write_job-is stored h =
      let ran = run-chain (statements c job manifest selection s) db stored (finished-ok _ h) in
      let (db₄', e₄, e₅) = >>=-eq-ok _ _ ran in
      let (db₃', e₃, e₄') = >>=-eq-ok _ _ e₄ in
      let (db₂', e₂, e₃') = >>=-eq-ok _ _ e₃ in
      let (db₁', e₁, e₂') = >>=-eq-ok _ _ e₂ in
      let is₁ = insert_jobs-is _ db db₁' e₁ in
      let is₂ = insert_inputs-is _ db₁' db₂' e₂' in
      let is₃ = insert_tasks-is _ db₂' db₃' e₃' in
      let is₄ = insert_deps-is _ db₃' db₄' e₄' in
      let is₅ = insert_events-is _ db₄' stored e₅ in
      is₅
      ∙ ap
          (λ (d : Db). record d {
            events = d.events ++ map (event_row c job manifest selection s) job.tasks;
          })
          (is₄
            ∙ ap (λ (d : Db). record d { deps = d.deps ++ job_dependencies job })
                (is₃
                  ∙ ap
                      (λ (d : Db). record d {
                        tasks = d.tasks ++ map (task_row c job manifest selection s) job.tasks;
                      })
                      (is₂
                        ∙ ap
                            (λ (d : Db). record d {
                              inputs =
                                  d.inputs ++ input_rows c job manifest selection s manifest.files;
                            })
                            is₁)))

  pub after-IsSound : IsSound after
  after-IsSound = record {
    inputs = λ r m.
        ⊎_elim (λ old. old-job_ids r.job_id (sound.inputs r old))
          (λ new.
            let (f, mf, e) =
              map-mem (λ f. record { job_id = job.job_id; entry = f }) r manifest.files new in
            subst (λ (x : InputRow). Memᴰ x.job_id (job_ids after.jobs)) (sym e) mem-job_ids)
          ((Memᴰ-append r db.inputs _).0 m);
    owned = λ r m.
        ⊎_elim (λ old. old-job_ids r.job_id (sound.owned r old))
          (λ new.
            let (t, mt, e) = map-mem (task_row c job manifest selection s) r job.tasks new in
            subst (λ (x : TaskRow). Memᴰ x.job_id (job_ids after.jobs)) (sym e) mem-job_ids)
          ((Memᴰ-append r db.tasks _).0 m);
    parts = λ r m.
        ⊎_elim (sound.parts r)
          (λ new.
            let (t, mt, e) = map-mem (task_row c job manifest selection s) r job.tasks new in
            subst (λ (x : TaskRow). AreParts x.job_id x.spec.stage_kind x.spec.target) (sym e)
              (made.parts t mt))
          ((Memᴰ-append r db.tasks _).0 m);
    text = λ r m.
        ⊎_elim (sound.text r)
          (λ new.
            let (t, mt, e) = map-mem (task_row c job manifest selection s) r job.tasks new in
            subst
              (λ (x : TaskRow).
                x.spec.task_id ≡ task_id_text x.job_id x.spec.stage_kind x.spec.target x.spec.seed)
              (sym e) (made.text t mt))
          ((Memᴰ-append r db.tasks _).0 m);
    deps = λ r m.
        ⊎_elim
          (λ old. (old-task_ids r.0 (sound.deps r old).0, old-task_ids r.1 (sound.deps r old).1))
          (λ new. (
            new-task_ids r.0 (IsRow.task (made.rows r new)),
            new-task_ids r.1 (IsRow.upstream (made.rows r new)),
          ))
          ((Memᴰ-append r db.deps _).0 m);
    attempts = λ a m. old-task_ids a.task_id (sound.attempts a m);
    events = λ r m.
        ⊎_elim (λ old. old-task_ids r.task_id (sound.events r old))
          (λ new.
            let (t, mt, e) = map-mem (event_row c job manifest selection s) r job.tasks new in
            subst (λ (x : EventRow). Memᴰ x.task_id (task_ids after.tasks)) (sym e)
              (new-task_ids t.task_id (mem-map (λ t. TaskSpec.task_id t) t job.tasks mt)))
          ((Memᴰ-append r db.events _).0 m);
  }
