-- ===== src/Invariants/Edges.antt =====
-- The edges of a job, by the rows that they come from.
use mathlib.Core.List.Memᴰ
use mathlib.Core.Logic.{⊎_elim}
use rtlfarm.Prelude.{
  String, ◌≡◌, refl, sym, ap, subst, ◌∙◌, List, [], ◌∷◌, Memᴰ, Memᴰ-append, gather_all, mem-select,
  ◌==◌, string_eq,
}
use rtlfarm.Submit.Stored.{map-mem, mem-map}
use rtlfarm.Submit.Tables.{TaskRow, DepRow, Db}
use rtlfarm.Invariants.Kahn.{DepEdge}
use rtlfarm.Invariants.{job_edges}
use rtlfarm.Invariants.Consistent.{edges_of}

mem-gather_all {ℓ κ} :
    {A : Type ℓ} {B : Type κ} (f : A → List B) (b : B) (xs : List A)
    → Memᴰ b (gather_all f xs)
    → (a : A) × Memᴰ a xs × Memᴰ b (f a)
mem-gather_all f b [] m = absurd (Memᴰ.not-nil m)
mem-gather_all f b (x ∷ xs) m =
    ⊎_elim (λ h. (x, Memᴰ.head refl, h))
      (λ h. let (a, ma, mb) = mem-gather_all f b xs h in (a, Memᴰ.tail ma, mb))
      ((Memᴰ-append b (f x) (gather_all f xs)).0 m)

gather_all-mem {ℓ κ} :
    {A : Type ℓ} {B : Type κ} (f : A → List B) (b : B) (xs : List A) (a : A)
    → Memᴰ a xs
    → Memᴰ b (f a)
    → Memᴰ b (gather_all f xs)
gather_all-mem f b [] a m mb = absurd (Memᴰ.not-nil m)
gather_all-mem f b (x ∷ xs) a (Memᴰ.head e) mb =
    Memᴰ.append_left (gather_all f xs) (subst (λ y. Memᴰ b (f y)) e mb)
gather_all-mem f b (x ∷ xs) a (Memᴰ.tail m) mb =
    Memᴰ.append_right (f x) (gather_all-mem f b xs a m mb)

-- An edge of a job is a row of the dependency table whose task is a task of the job.
pub record JobEdge (db : Db) (job_id : String) (e : DepEdge) : Type 0 where
  pub row : DepRow
  pub task : TaskRow
  pub listed : Memᴰ row db.deps
  pub stored : Memᴰ task db.tasks
  pub joined : task.spec.task_id ≡ row.0
  pub owner : task.job_id ≡ job_id
  pub is_edge : e ≡ (row.1, row.0)

pub edges_of-JobEdge :
    (db : Db) (job_id : String) (e : DepEdge) → Memᴰ e (edges_of db job_id) → JobEdge db job_id e
edges_of-JobEdge db job_id e m =
    let (p, mp, ep) = map-mem (λ (e : String × DepEdge). e.1) e _ m in
    let (mj, same) = (mem-select (λ (e : String × DepEdge). e.0 == job_id) p (job_edges db)).0 mp in
    let (d, md, mt) = mem-gather_all _ p db.deps mj in
    let (t, mt', et) = map-mem (λ (t : TaskRow). (t.job_id, (d.1, d.0))) p _ mt in
    let (stored, joined) = (mem-select (λ (t : TaskRow). t.spec.task_id == d.0) t db.tasks).0 mt' in
    record {
      row = d;
      task = t;
      listed = md;
      stored = stored;
      joined = (string_eq.beq_iff t.spec.task_id d.0).0 joined;
      owner = sym (ap (λ (x : String × DepEdge). x.0) et) ∙ (string_eq.beq_iff p.0 job_id).0 same;
      is_edge = ep ∙ ap (λ (x : String × DepEdge). x.1) et;
    }

pub JobEdge-edges_of :
    (db : Db) (job_id : String) (e : DepEdge) → JobEdge db job_id e → Memᴰ e (edges_of db job_id)
JobEdge-edges_of db job_id e j =
    let d : DepRow = j.row in
    let t : TaskRow = j.task in
    let p : String × DepEdge = (t.job_id, (d.1, d.0)) in
    subst (λ x. Memᴰ x (edges_of db job_id)) (sym j.is_edge)
      (mem-map (λ (e : String × DepEdge). e.1) p _
        ((mem-select (λ (e : String × DepEdge). e.0 == job_id) p (job_edges db)).1 (
          gather_all-mem _ p db.deps d j.listed (
              mem-map (λ (t : TaskRow). (t.job_id, (d.1, d.0))) t _
                ((mem-select (λ (t : TaskRow). t.spec.task_id == d.0) t db.tasks).1
                  (j.stored, (string_eq.beq_iff t.spec.task_id d.0).1 j.joined))),
          (string_eq.beq_iff t.job_id job_id).1 j.owner,
        )))
