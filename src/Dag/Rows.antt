-- ===== src/Dag/Rows.antt =====
-- `ExpandedJob.dependencies`: the rows that the submission writes to the dependency table.
use mathlib.Core.List.Memᴰ
use mathlib.Core.Logic.{⊎_elim}
use mathlib.Core.List.{append_assoc}
use rtlfarm.Prelude.{
  ℕ, String, ◌≡◌, refl, sym, ap, subst, ◌∙◌, ◌≢◌, Bool, true, List, [], ◌∷◌, ◌++◌, Memᴰ,
  Memᴰ-append, Distinct, All-Memᴰ, ok,
}
use rtlfarm.Ids.{is_ulid}
use rtlfarm.Json.{Codec}
use rtlfarm.Manifest.{Manifest}
use rtlfarm.Dag.{Selection, TaskSpec, ExpandedJob}
use rtlfarm.Dag.Tasks.{ids}
use rtlfarm.Dag.Expand.{expand}
use rtlfarm.Dag.Plan.{IsLinked}
use rtlfarm.Dag.Keys.{Distinct-append}
use rtlfarm.Dag.Valid.{IsValid}
use rtlfarm.Dag.Guarantees.{expand-distinct, expand-IsLinked}

abbrev pub Row : Type 0
Row = String × String × String

abbrev pub rows_of : String → List String → List Row
rows_of id [] = []
rows_of id (dep ∷ deps) = (id, dep, "success") ∷ rows_of id deps

unfoldable pub rows : List TaskSpec → List Row
rows [] = []
rows (t ∷ ts) = rows_of t.task_id t.depends_on ++ rows ts

-- (task_id, depends_on_task_id, kind) rows, in task order
unfoldable pub job_dependencies : ExpandedJob → List Row
unfolding rows
job_dependencies job = rows job.tasks

-- A row that the dependency table takes: both its ids are tasks of the job, and they differ.
pub record IsRow (known : List String) (row : Row) : Type 0 where
  pub task : Memᴰ row.0 known
  pub upstream : Memᴰ row.1 known
  pub other : row.0 ≢ row.1
  pub kind : row.2 ≡ "success"

pub mem-rows_of :
    (id : String) (deps : List String) (row : Row)
    → Memᴰ row (rows_of id deps)
    → (row.0 ≡ id) × Memᴰ row.1 deps × (row.2 ≡ "success")
mem-rows_of id [] row m = absurd (Memᴰ.not-nil m)
mem-rows_of id (d ∷ ds) row (Memᴰ.head e) =
    (ap (λ (r : Row). r.0) e, Memᴰ.head (ap (λ (r : Row). r.1) e), ap (λ (r : Row). r.2) e)
mem-rows_of id (d ∷ ds) row (Memᴰ.tail m) =
    let (same, md, k) = mem-rows_of id ds row m in (same, Memᴰ.tail md, k)

rows_of-Distinct : (id : String) (deps : List String) → Distinct deps → Distinct (rows_of id deps)
rows_of-Distinct id [] d = tt
rows_of-Distinct id (x ∷ xs) d =
    (λ m. d.0 (mem-rows_of id xs (id, x, "success") m).1, rows_of-Distinct id xs d.1)

pub mem-rows : (ts : List TaskSpec) (row : Row) → Memᴰ row (rows ts) → Memᴰ row.0 (ids ts)
unfolding rows
mem-rows [] row m = absurd (Memᴰ.not-nil m)
mem-rows (t ∷ ts) row m =
    ⊎_elim (λ h. Memᴰ.head (mem-rows_of t.task_id t.depends_on row h).0)
      (λ h. Memᴰ.tail (mem-rows ts row h))
      ((Memᴰ-append row (rows_of t.task_id t.depends_on) (rows ts)).0 m)

rows-Distinct :
    (ts : List TaskSpec)
    → Distinct (ids ts)
    → ((t : TaskSpec) → Memᴰ t ts → Distinct t.depends_on)
    → Distinct (rows ts)
unfolding rows
rows-Distinct [] d once = tt
rows-Distinct (t ∷ ts) d once =
    Distinct-append (rows_of t.task_id t.depends_on) (rows ts)
      (rows_of-Distinct t.task_id t.depends_on (once t (Memᴰ.head refl)))
      (rows-Distinct ts d.1 (λ u m. once u (Memᴰ.tail m)))
      (λ row m r. d.0 (
        subst (λ k. Memᴰ k (ids ts)) (mem-rows_of t.task_id t.depends_on row m).0
          (mem-rows ts row r)))

-- With the ids in `seen` before those of the list.
rows-AreRows :
    (seen : List String) (ts : List TaskSpec) (row : Row)
    → ((id : String) → Memᴰ id (ids ts) → ¬ Memᴰ id seen)
    → Distinct (ids ts)
    → IsLinked seen ts
    → Memᴰ row (rows ts)
    → IsRow (seen ++ ids ts) row
unfolding rows
rows-AreRows seen [] row apart d linked m = absurd (Memᴰ.not-nil m)
rows-AreRows seen (t ∷ ts) row apart d linked m =
    ⊎_elim
      (λ h.
        let (same, md, k) = mem-rows_of t.task_id t.depends_on row h in
        let up = All-Memᴰ (λ id. Memᴰ id seen) t.depends_on linked.0 md in
        record {
          task = Memᴰ.append_right seen (Memᴰ.head same);
          upstream = Memᴰ.append_left _ up;
          other =
              λ e. apart t.task_id (Memᴰ.head refl) (subst (λ x. Memᴰ x seen) (sym e ∙ same) up);
          kind = k;
        })
      (λ h.
        subst (λ known. IsRow known row) (append_assoc seen (t.task_id ∷ []) (ids ts))
          (rows-AreRows (seen ++ t.task_id ∷ []) ts row
            (λ id mi ms.
              ⊎_elim (apart id (Memᴰ.tail mi))
                (λ last. d.0 (subst (λ x. Memᴰ x (ids ts)) (Memᴰ.eq_of_singleton last) mi))
                ((Memᴰ-append id seen (t.task_id ∷ [])).0 ms))
            d.1 linked.1 h))
      ((Memᴰ-append row (rows_of t.task_id t.depends_on) (rows ts)).0 m)

-- For a job that `expand` returns for a valid manifest and a ULID, the dependency rows are all
-- different, and each has kind `success` and relates two different tasks of the job.
pub expand-rows :
    (codec : Codec) (m : Manifest) (selection : Selection) (job_id : String) (priority : ℕ)
    (toolchain_digest : String) (no_cache : Bool) (job : ExpandedJob)
    → IsValid m
    → is_ulid job_id ≡ true
    → expand codec m selection job_id priority toolchain_digest no_cache ≡ ok job
    → Distinct (job_dependencies job)
      × ((row : Row) → Memᴰ row (job_dependencies job) → IsRow (ids job.tasks) row)
unfolding job_dependencies
expand-rows codec m selection job_id priority toolchain_digest no_cache job valid ulid returns =
    let (d, once) =
      expand-distinct codec m selection job_id priority toolchain_digest no_cache job valid ulid
        returns in
    let linked =
      expand-IsLinked codec m selection job_id priority toolchain_digest no_cache job valid ulid
        returns in
    (
      rows-Distinct job.tasks d once,
      λ row mr. rows-AreRows [] job.tasks row (λ id mi none'. Memᴰ.not-nil none') d linked mr,
    )
