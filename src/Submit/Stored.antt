-- ===== src/Submit/Stored.antt =====
-- The transaction of a submission never breaks a constraint of the schema.
use mathlib.Core.List.Memᴰ
use rtlfarm.Submit.Tables.{max_integer}
use rtlfarm.Prelude.{
  length, ◌≤◌, String, ◌≡◌, refl, sym, ap, subst, ◌∙◌, ◌≢◌, false, List, [], ◌∷◌, map, Memᴰ,
  Distinct, keys, string_eq, nat_eq,
}
use rtlfarm.Ids.{task_id_text, stage_kinds}
use rtlfarm.Ids.Distinct.{AreParts}
use rtlfarm.Manifest.{ManifestEntry, Manifest}
use rtlfarm.Dag.{TaskSpec, ExpandedJob}
use rtlfarm.Dag.Tasks.{ids}
use rtlfarm.Dag.Rows.{Row, IsRow, job_dependencies}
use rtlfarm.Submit.Tables.{
  AttemptRow, InputRow, TaskRow, DepRow, EventRow, Db, job_ids, task_ids, input_key, dep_key,
  pair_eq,
}
use rtlfarm.Submit.Write.{stage_kind_check, has_key, Submission}

-- A stored task's id is composed of its job's id and its parts, and every row's owner is stored.
pub record IsSound (db : Db) : Type 0 where
  pub inputs : (r : InputRow) → Memᴰ r db.inputs → Memᴰ r.job_id (job_ids db.jobs)
  pub owned : (r : TaskRow) → Memᴰ r db.tasks → Memᴰ r.job_id (job_ids db.jobs)
  pub parts : (r : TaskRow) → Memᴰ r db.tasks → AreParts r.job_id r.spec.stage_kind r.spec.target
  pub text :
      (r : TaskRow)
      → Memᴰ r db.tasks
      → r.spec.task_id ≡ task_id_text r.job_id r.spec.stage_kind r.spec.target r.spec.seed
  pub deps :
      (r : DepRow) → Memᴰ r db.deps → Memᴰ r.0 (task_ids db.tasks) × Memᴰ r.1 (task_ids db.tasks)
  pub attempts : (a : AttemptRow) → Memᴰ a db.attempts → Memᴰ a.task_id (task_ids db.tasks)
  pub events : (r : EventRow) → Memᴰ r db.events → Memᴰ r.task_id (task_ids db.tasks)

-- What `expand` makes: tasks with ids of their own parts, and rows between them.
pub record IsJob (job : ExpandedJob) : Type 0 where
  pub distinct : Distinct (ids job.tasks)
  pub parts : (t : TaskSpec) → Memᴰ t job.tasks → AreParts job.job_id t.stage_kind t.target
  pub text :
      (t : TaskSpec)
      → Memᴰ t job.tasks
      → t.task_id ≡ task_id_text job.job_id t.stage_kind t.target t.seed
  pub priority : (t : TaskSpec) → Memᴰ t job.tasks → t.priority ≤ 9
  pub pinned : (t : TaskSpec) → Memᴰ t job.tasks → t.toolchain_digest ≢ "any"
  pub rows_once : Distinct (job_dependencies job)
  pub rows : (r : Row) → Memᴰ r (job_dependencies job) → IsRow (ids job.tasks) r

-- What the checks before the transaction, and the first reads in it, have found.
pub record IsChecked (db : Db) (job : ExpandedJob) (manifest : Manifest) (s : Submission)
    : Type 0 where
  pub fresh : ¬ Memᴰ job.job_id (job_ids db.jobs)
  pub unused : has_key db.jobs s.idempotency_key ≡ false
  pub priority : s.priority ≤ 9
  pub stored : (f : ManifestEntry) → Memᴰ f manifest.files → Memᴰ f.sha256 (keys db.blobs)
  pub paths : Distinct (map (λ f. ManifestEntry.path f) manifest.files)

-- The integers that the job's rows hold are no greater than SQLite's greatest.
pub record IsStorable (job : ExpandedJob) (manifest : Manifest) (s : Submission) : Type 0 where
  pub now : s.now ≤ max_integer
  pub count : length job.tasks ≤ max_integer
  pub files :
      (f : ManifestEntry)
      → Memᴰ f manifest.files
      → (f.ordinal ≤ max_integer) × (f.size ≤ max_integer)
  pub seeds : (t : TaskSpec) → Memᴰ t job.tasks → t.seed ≤ max_integer
  pub timeouts : (t : TaskSpec) → Memᴰ t job.tasks → t.timeout_s ≤ max_integer
  pub retries :
      (t : TaskSpec)
      → Memᴰ t job.tasks
      → (t.max_infra ≤ max_integer)
        × ((t.max_timeout ≤ max_integer) × (t.max_tool_error ≤ max_integer))

pub mem-map {ℓ κ} :
    {A : Type ℓ} {B : Type κ} (f : A → B) (a : A) (xs : List A) → Memᴰ a xs → Memᴰ (f a) (map f xs)
mem-map f a [] m = absurd (Memᴰ.not-nil m)
mem-map f a (x ∷ xs) (Memᴰ.head e) = Memᴰ.head (ap f e)
mem-map f a (x ∷ xs) (Memᴰ.tail m) = Memᴰ.tail (mem-map f a xs m)

pub map-mem {ℓ κ} :
    {A : Type ℓ} {B : Type κ} (f : A → B) (b : B) (xs : List A)
    → Memᴰ b (map f xs)
    → (a : A) × Memᴰ a xs × (b ≡ f a)
map-mem f b [] m = absurd (Memᴰ.not-nil m)
map-mem f b (x ∷ xs) (Memᴰ.head e) = (x, Memᴰ.head refl, e)
map-mem f b (x ∷ xs) (Memᴰ.tail m) = let (a, ma, e) = map-mem f b xs m in (a, Memᴰ.tail ma, e)

pub stage_kinds-check : (k : String) → Memᴰ k stage_kinds → Memᴰ k stage_kind_check
stage_kinds-check k m = Memᴰ.append_left ("compile_wave" ∷ "simulate_wave" ∷ []) m

-- Rows that differ, all of one kind, differ in their key.
pub dep_key-Distinct :
    (rows : List Row)
    → ((r : Row) → Memᴰ r rows → r.2 ≡ "success")
    → Distinct rows
    → Distinct (map dep_key rows)
dep_key-Distinct [] kinds d = tt
dep_key-Distinct (r ∷ rs) kinds d = (
  λ m.
      let (q, mq, e) = map-mem dep_key (dep_key r) rs m in
      let same : r ≡ q =
        λ i. ((e i).0, (e i).1, (kinds r (Memᴰ.head refl) ∙ sym (kinds q (Memᴰ.tail mq))) i) in
      d.0 (subst (λ x. Memᴰ x rs) (sym same) mq),
  dep_key-Distinct rs (λ q m. kinds q (Memᴰ.tail m)) d.1,
)

pub input_key-Distinct :
    (job_id : String) (files : List ManifestEntry)
    → Distinct (map (λ f. ManifestEntry.path f) files)
    → Distinct (map input_key (map (λ f. record { job_id = job_id; entry = f }) files))
input_key-Distinct job_id [] d = tt
input_key-Distinct job_id (f ∷ fs) d = (
  λ m.
      let (r, mr, e) = map-mem input_key (job_id, f.path) _ m in
      let (g, mg, er) = map-mem (λ f. record { job_id = job_id; entry = f }) r fs mr in
      d.0 (
        subst (λ p. Memᴰ p (map (λ f. ManifestEntry.path f) fs))
          (sym (ap (λ (k : String × String). k.1) e ∙ ap (λ (x : InputRow). x.entry.path) er))
          (mem-map (λ f. ManifestEntry.path f) g fs mg)),
  input_key-Distinct job_id fs d.1,
)
