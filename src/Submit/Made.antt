-- ===== src/Submit/Made.antt =====
-- A job that `expand` returns meets what the transaction needs of it.
use rtlfarm.Prelude.{ℕ, ◌≤◌, String, ◌≡◌, sym, ap, subst, ◌∙◌, ◌≢◌, Bool, true, ok, string_eq}
use rtlfarm.Ids.{is_ulid, task_id_text}
use rtlfarm.Ids.Distinct.{AreParts}
use rtlfarm.Json.{Codec}
use rtlfarm.Manifest.{Manifest}
use rtlfarm.Dag.{Selection, ExpandedJob}
use rtlfarm.Dag.Expand.{expand}
use rtlfarm.Dag.Valid.{IsValid}
use rtlfarm.Dag.Guarantees.{expand-distinct, expand-IsTask}
use rtlfarm.Dag.Wired.{IsTask}
use rtlfarm.Dag.Rows.{expand-rows}
use rtlfarm.Dag.Settings.{HasSettings, expand-HasSettings}
use rtlfarm.Submit.Stored.{IsJob}

-- With a priority of at most 9 and a toolchain digest other than `any`, a job that `expand` returns for
-- a valid manifest and a ULID has different ids, rows that differ, and the rest that `IsJob` lists.
pub expand-IsJob :
    (codec : Codec) (m : Manifest) (selection : Selection) (job_id : String) (priority : ℕ)
    (toolchain_digest : String) (no_cache : Bool) (job : ExpandedJob)
    → IsValid m
    → is_ulid job_id ≡ true
    → priority ≤ 9
    → toolchain_digest ≢ "any"
    → expand codec m selection job_id priority toolchain_digest no_cache ≡ ok job
    → IsJob job
expand-IsJob codec m selection job_id priority toolchain_digest no_cache job valid ulid low pinned
      returns =
    let (same, _, set) =
      expand-HasSettings codec m selection job_id priority toolchain_digest no_cache job returns in
    let task =
      expand-IsTask codec m selection job_id priority toolchain_digest no_cache job valid ulid
        returns in
    let (once, rows) =
      expand-rows codec m selection job_id priority toolchain_digest no_cache job valid ulid
        returns in
    record {
      distinct =
          (expand-distinct codec m selection job_id priority toolchain_digest no_cache job valid
            ulid returns).0;
      parts = λ t mt.
          subst (λ k. AreParts k t.stage_kind t.target) (sym same) (IsTask.parts (task t mt));
      text = λ t mt.
          IsTask.text (task t mt)
          ∙ ap (λ k. task_id_text k t.stage_kind t.target t.seed) (sym same);
      priority = λ t mt. subst (λ n. n ≤ 9) (sym (HasSettings.priority_is (set t mt))) low;
      pinned = λ t mt any. pinned (sym (HasSettings.pinned (set t mt)) ∙ any);
      rows_once = once;
      rows = rows;
    }
