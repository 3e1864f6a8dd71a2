-- ===== src/Dag/Sorted.antt =====
-- On a consistent pipeline `_stage_order` returns every stage once, each behind its dependencies.
use mathlib.Core.List.{append_assoc, append-nil}
use rtlfarm.Prelude.{
  ℕ, zero, suc, ◌≤◌, String, ◌≡◌, refl, sym, ap, ◌∙◌, ◌⊎◌, inl, inr, ◌↔◌, List, [], ◌∷◌, ◌++◌, Memᴰ,
  Bool, true, false, Memᴰ-cons, Memᴰ-concat, Distinct, All, All-Memᴰ, All_of_Memᴰ, keys, lookup,
  length, some, Result, ok, raise, ◌>>=◌, string_eq, arith,
}
use rtlfarm.Models.{Stage}
use rtlfarm.Pipeline.{Stages, discard, has_cycle}
use rtlfarm.Pipeline.Graph.{IsTopo, Cycle}
use rtlfarm.Dag.StageOrder.{next_ready, order_loop, stage_order}
use rtlfarm.Dag.Discard.{mem-discard, Distinct-discard, length-discard}
use rtlfarm.Dag.Ready.{IsReady, IsOrdered, Found, next_ready-Found, some-IsReady}
use rtlfarm.Pipeline.Visit.{length-keys, Decides, has_cycle-Decides}

-- The stages as the validator leaves them: every upstream name is a stage, and `done` lists all
-- stages, each before those that depend on it.
record IsLayered (stages : Stages) : Type 0 where
  pub known :
      (name : String) (stage : Stage)
      → lookup stages name ≡ some stage
      → All (λ dep. Memᴰ dep (keys stages)) stage.depends_on
  pub done : List String
  pub topo : IsTopo stages done
  pub full : (k : String) → Memᴰ k (keys stages) → Memᴰ k done

-- The names that a loop adds to `ordered` out of `remaining`.
pub record IsSorting (stages : Stages) (ordered remaining added : List String) : Type 0 where
  pub order : IsOrdered stages ordered added
  pub once : Distinct added
  pub same : (k : String) → Memᴰ k added ↔ Memᴰ k remaining

module _ (stages : Stages) (layers : IsLayered stages) where
  open layers use {known, done, topo, full}

  abbrev Split : List String → List String → Type 0
  Split ordered remaining = (k : String) → Memᴰ k (keys stages) → Memᴰ k ordered ⊎ Memᴰ k remaining

  abbrev Kept : List String → Type 0
  Kept remaining = All (λ k. Memᴰ k (keys stages)) remaining

  ready-Found :
      (ordered : List String) (r : String) (rs : List String)
      → Split ordered (r ∷ rs)
      → Kept (r ∷ rs)
      → Found stages ordered (r ∷ rs) (next_ready stages ordered (r ∷ rs))
  ready-Found ordered r rs split kept =
      elim (some-IsReady stages ordered (r ∷ rs) done split known kept topo) [
        | inl (n, m, ready) ↦ next_ready-Found stages ordered (r ∷ rs) n kept m ready
        | inr gone ↦ absurd (gone r (full r kept.0) (Memᴰ.head refl))
      ]

  Split-round :
      (ordered remaining : List String) (n : String)
      → Distinct remaining
      → Split ordered remaining
      → Split (ordered ++ n ∷ []) (discard n remaining)
  Split-round ordered remaining n d split k m = ground (
    arith,
    split k m,
    mem-discard n k remaining d,
    Memᴰ-concat k n ordered,
    string_eq.beq_iff k n,
  )

  Kept-round :
      (remaining : List String) (n : String)
      → Distinct remaining
      → Kept remaining
      → Kept (discard n remaining)
  Kept-round remaining n d kept =
      All_of_Memᴰ _ (discard n remaining)
        λ k m. All-Memᴰ _ remaining kept ((mem-discard n k remaining d).0 m).0

  IsSorting-cons :
      (ordered remaining added : List String) (n : String)
      → Distinct remaining
      → Memᴰ n remaining
      → IsReady stages ordered n
      → IsSorting stages (ordered ++ n ∷ []) (discard n remaining) added
      → IsSorting stages ordered remaining (n ∷ added)
  IsSorting-cons ordered remaining added n d m ready h = record {
    order = (ready, h.order);
    once = (λ again. ((mem-discard n n remaining d).0 ((h.same n).0 again)).1 refl, h.once);
    same = λ k.
        ground (
          arith,
          h.same k,
          mem-discard n k remaining d,
          Memᴰ-cons k n added,
          string_eq.beq_iff k n,
        );
  }

  abbrev Sorts : List String → List String → Result (List String) → Type 0
  Sorts ordered remaining r =
      (added : List String) × (r ≡ ok (ordered ++ added)) × IsSorting stages ordered remaining added

  order_loop-Sorts :
      (fuel : ℕ) (ordered remaining : List String)
      → length remaining ≤ fuel
      → Distinct remaining
      → Split ordered remaining
      → Kept remaining
      → Sorts ordered remaining (order_loop stages fuel ordered remaining)
  unfolding order_loop
  order_loop-Sorts fuel ordered [] h d split kept = (
    [],
    ap ok (sym (append-nil ordered)),
    record { order = tt; once = tt; same = λ k. (λ m. m, λ m. m) },
  )
  order_loop-Sorts zero ordered (r ∷ rs) h d split kept = absurd (omega arith)
  order_loop-Sorts (suc fuel) ordered (r ∷ rs) h d split kept =
      go (next_ready stages ordered (r ∷ rs)) (ready-Found ordered r rs split kept) λ n m.
        order_loop-Sorts fuel (ordered ++ n ∷ []) (discard n (r ∷ rs))
          (omega (arith, length-discard n (r ∷ rs) m)) (Distinct-discard n (r ∷ rs) d)
          (Split-round ordered (r ∷ rs) n d split) (Kept-round (r ∷ rs) n d kept)
    where
      go :
          (next : Result String)
          → Found stages ordered (r ∷ rs) next
          → ((n : String)
              → Memᴰ n (r ∷ rs)
              → Sorts
                  (ordered ++ n ∷ [])
                  (discard n (r ∷ rs))
                  (order_loop stages fuel (ordered ++ n ∷ []) (discard n (r ∷ rs))))
          → Sorts ordered
              (r ∷ rs)
              (next >>= λ n. order_loop stages fuel (ordered ++ n ∷ []) (discard n (r ∷ rs)))
      go (ok n) (m, ready) rest =
          let (added, e, sorting) = rest n m in
          (
            n ∷ added,
            e ∙ ap ok (append_assoc ordered (n ∷ []) added),
            IsSorting-cons ordered (r ∷ rs) added n d m ready sorting,
          )
      go (raise x) h' rest = absurd h'

-- Without a cycle the search for one lists the stages in layers.
acyclic-IsLayered :
    (stages : Stages)
    → ((name : String) (stage : Stage)
        → lookup stages name ≡ some stage
        → All (λ dep. Memᴰ dep (keys stages)) stage.depends_on)
    → ¬ Cycle stages
    → IsLayered stages
acyclic-IsLayered stages known acyclic = go (has_cycle-Decides stages)
  where
    go : (b : Bool) × (has_cycle stages ≡ ok b) × Decides stages b → IsLayered stages
    go (true, e, cycle) = absurd (acyclic cycle)
    go (false, e, (done, topo, full)) = record {
      known = known;
      done = done;
      topo = topo;
      full = full;
    }

-- With every upstream name a stage, no cycle, and a `dict`'s keys distinct, `_stage_order` returns a
-- list that holds every stage exactly once and nothing else, each stage behind all that it depends on.
pub stage_order_sorts :
    (stages : Stages)
    → ((name : String) (stage : Stage)
        → lookup stages name ≡ some stage
        → All (λ dep. Memᴰ dep (keys stages)) stage.depends_on)
    → ¬ Cycle stages
    → Distinct (keys stages)
    → (names : List String) × (stage_order stages ≡ ok names)
      × IsSorting stages [] (keys stages) names
unfolding stage_order
stage_order_sorts stages known acyclic d =
    order_loop-Sorts stages (acyclic-IsLayered stages known acyclic) (length stages) []
      (keys stages) (omega (arith, length-keys stages)) d (λ k m. inr m)
      (All_of_Memᴰ _ (keys stages) (λ k m. m))
