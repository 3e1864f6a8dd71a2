-- ===== src/Dag/Ready.antt =====
-- While stages remain on a consistent pipeline, one of them is ready, and `next` finds a ready one.
use mathlib.Core.List.Memᴰ
use mathlib.Core.Logic.{⊎_elim}
use rtlfarm.Prelude.{
  String, ◌≡◌, refl, sym, subst, ◌∙◌, ◌⊎◌, inl, inr, ◌↔◌, true, false, List, [], ◌∷◌, ◌++◌, Memᴰ,
  All, All-Memᴰ, All_of_Memᴰ, all, contains, contains_iff, keys, lookup, none, some, Result, ok,
  raise, Bool-cases, Option-cases, some_inj, string_eq, arith,
}
use rtlfarm.Models.{Stage}
use rtlfarm.Pipeline.{Stages}
use rtlfarm.Pipeline.Graph.{IsTopo, lookup_of_key}
use rtlfarm.Dag.StageOrder.{next_ready}

module _ (stages : Stages) where
  -- `name` is a stage, and all that it depends on is in `ordered`.
  pub record IsReady (ordered : List String) (name : String) : Type 0 where
    pub stage : Stage
    pub found : lookup stages name ≡ some stage
    pub met : All (λ dep. Memᴰ dep ordered) stage.depends_on

  -- Each name stands behind what it depends on.
  abbrev pub IsOrdered : List String → List String → Type 0
  IsOrdered seen [] = Unit
  IsOrdered seen (n ∷ ns) = IsReady seen n × IsOrdered (seen ++ n ∷ []) ns

  met_iff :
      (ordered deps : List String)
      → (all (contains ordered) deps ≡ true) ↔ All (λ dep. Memᴰ dep ordered) deps
  met_iff ordered [] = (λ _. tt, λ _. refl)
  met_iff ordered (d ∷ ds) = ground (arith, met_iff ordered ds, contains_iff ordered d)

  abbrev pub Found : List String → List String → Result String → Type 0
  Found ordered remaining (raise e) = ⊥
  Found ordered remaining (ok m) = Memᴰ m remaining × IsReady ordered m

  Found-tail :
      (ordered remaining : List String) (n : String) (r : Result String)
      → Found ordered remaining r
      → Found ordered (n ∷ remaining) r
  Found-tail ordered remaining n (ok m) h = (Memᴰ.tail h.0, h.1)
  Found-tail ordered remaining n (raise e) h = h

  -- Where one of the stages that remain is ready, `next` finds one.
  pub next_ready-Found :
      (ordered remaining : List String) (n : String)
      → All (λ k. Memᴰ k (keys stages)) remaining
      → Memᴰ n remaining
      → IsReady ordered n
      → Found ordered remaining (next_ready stages ordered remaining)
  unfolding next_ready
  next_ready-Found ordered [] n known m ready = absurd (Memᴰ.not-nil m)
  next_ready-Found ordered (r ∷ rs) n known m ready = elim (Option-cases (lookup stages r)) [
    | inl missing ↦ absurd (lookup_of_key stages r known.0 missing)
    | inr (stage, e) ↦
        rw (e, next_ready)
          (elim (Bool-cases (all (contains ordered) stage.depends_on)) [
            | inl met ↦
                rw (met, next_ready)
                  (
                    Memᴰ.head refl,
                    record {
                      stage = stage;
                      found = e;
                      met = (met_iff ordered stage.depends_on).0 met;
                    },
                  )
            | inr unmet ↦
                rw (unmet, next_ready)
                  (Found-tail ordered rs r _ (
                    next_ready-Found ordered rs n known.1
                      (⊎_elim (λ nr. absurd (unready stage e unmet nr)) (λ t. t)
                        (Memᴰ.cases_cons m))
                      ready))
          ])
  ]
    where
      unready :
          (stage : Stage)
          → lookup stages r ≡ some stage
          → all (contains ordered) stage.depends_on ≡ false
          → n ≡ r
          → ⊥
      unready stage e unmet nr =
          let ready' = subst (IsReady ordered) nr ready in
          let same = some_inj (sym ready'.found ∙ e) in
          let met =
            (met_iff ordered stage.depends_on).1
              (subst (λ (t : Stage). All (λ dep. Memᴰ dep ordered) t.depends_on) same ready'.met) in
          let clash = sym met ∙ unmet in cc clash

  -- Either a stage that remains is ready, or none of the ordered list remains.
  pub some-IsReady :
      (ordered remaining done : List String)
      → ((k : String) → Memᴰ k (keys stages) → Memᴰ k ordered ⊎ Memᴰ k remaining)
      → ((name : String) (stage : Stage)
          → lookup stages name ≡ some stage
          → All (λ dep. Memᴰ dep (keys stages)) stage.depends_on)
      → All (λ k. Memᴰ k (keys stages)) remaining
      → IsTopo stages done
      → ((n : String) × Memᴰ n remaining × IsReady ordered n)
        ⊎ ((k : String) → Memᴰ k done → ¬ Memᴰ k remaining)
  some-IsReady ordered remaining [] split known kept topo = inr (λ k m _. Memᴰ.not-nil m)
  some-IsReady ordered remaining (n ∷ done) split known kept topo =
      go (some-IsReady ordered remaining done split known kept topo.1)
        (Bool-cases (contains remaining n))
    where
      here :
          ((k : String) → Memᴰ k done → ¬ Memᴰ k remaining) → Memᴰ n remaining → IsReady ordered n
      here gone m = go' (Option-cases (lookup stages n))
        where
          go' :
              (lookup stages n ≡ none) ⊎ ((stage : Stage) × (lookup stages n ≡ some stage))
              → IsReady ordered n
          go' (inl missing) = absurd (lookup_of_key stages n (All-Memᴰ _ remaining kept m) missing)
          go' (inr (stage, e)) = record {
            stage = stage;
            found = e;
            met = All_of_Memᴰ _ stage.depends_on λ dep listed.
                let key = All-Memᴰ _ stage.depends_on (known n stage e) listed in
                let before : Memᴰ dep done =
                  ⊎_elim (λ d. d) (λ missing. absurd (lookup_of_key stages dep key missing))
                    (All-Memᴰ _ stage.depends_on (topo.0 stage e) listed) in
                ⊎_elim (λ o. o) (λ r. absurd (gone dep before r)) (split dep key);
          }

      go :
          ((n : String) × Memᴰ n remaining × IsReady ordered n)
            ⊎ ((k : String) → Memᴰ k done → ¬ Memᴰ k remaining)
          → (contains remaining n ≡ true) ⊎ (contains remaining n ≡ false)
          → ((n : String) × Memᴰ n remaining × IsReady ordered n)
            ⊎ ((k : String) → Memᴰ k (n ∷ done) → ¬ Memᴰ k remaining)
      go (inl found) b = inl found
      go (inr gone) (inl b) = let m = (contains_iff remaining n).0 b in inl (n, m, here gone m)
      go (inr gone) (inr b) = inr λ k m r.
          ⊎_elim
            (λ e.
              let clash =
                sym ((contains_iff remaining n).1 (subst (λ x. Memᴰ x remaining) e r)) ∙ b in
              cc clash)
            (λ d. gone k d r) (Memᴰ.cases_cons m)
