-- ===== src/Pipeline/Visit.antt =====
-- What the search for a cycle keeps, and that its fuel is enough.
use mathlib.Core.List.Memᴰ
use mathlib.Core.Logic.{⊎_elim}
use rtlfarm.Prelude.{
  ℕ, zero, suc, ◌+◌, ◌≤◌, ◌<◌, String, ◌≡◌, refl, sym, ap, subst, ◌∙◌, inl, inr, Bool, true, false,
  List, [], ◌∷◌, Memᴰ, All, All-Memᴰ, All_of_Memᴰ, contains, contains_iff, lookup, keys, length,
  some, if◌then◌else◌, Bool-cases, Option-cases, Result, ok, raise, ◌>>=◌, string_eq, some_inj,
  arith,
}
use rtlfarm.Models.{Stage}
use rtlfarm.Pipeline.{Stages, Search, discard, enter, leave, any_visit, visit, fresh, has_cycle}
use rtlfarm.Pipeline.Graph.{
  Edge, Reaches, one, more, Cycle, Covered, IsTopo, keys-lookup, lookup_of_key,
}

-- The stages that the path does not hold.
abbrev pub left : List String → List String → ℕ
left path [] = 0
left path (k ∷ ks) = (if contains path k then 0 else 1) + left path ks

left-le_cons : (n : String) (path ks : List String) → left (n ∷ path) ks ≤ left path ks
left-le_cons n path [] = omega arith
left-le_cons n path (k ∷ ks) = ground (arith, left-le_cons n path ks)

left-lt_cons :
    (n : String) (path ks : List String)
    → contains path n ≡ false
    → Memᴰ n ks
    → left (n ∷ path) ks < left path ks
left-lt_cons n path [] h m = absurd (Memᴰ.not-nil m)
left-lt_cons n path (k ∷ ks) h (Memᴰ.head e) =
    ground (arith, left-le_cons n path ks, string_eq.beq_iff k n)
left-lt_cons n path (k ∷ ks) h (Memᴰ.tail m) =
    ground (arith, left-lt_cons n path ks h m, string_eq.beq_iff k n)

left_nil : (ks : List String) → left [] ks ≡ length ks
left_nil [] = refl
left_nil (k ∷ ks) = omega (arith, left_nil ks)

pub length-keys : {V : Type 0} (d : List (String × V)) → length (keys d) ≡ length d
length-keys [] = refl
length-keys ((k, v) ∷ d) = omega (arith, length-keys d)

discard-head : (n : String) (path : List String) → discard n (n ∷ path) ≡ path
discard-head n path = ground (arith, string_eq.beq_iff n n)

module _ (stages : Stages) where
  Covered-grows :
      (done done' deps : List String)
      → ((d : String) → Memᴰ d done → Memᴰ d done')
      → All (Covered stages done) deps
      → All (Covered stages done') deps
  Covered-grows done done' [] grows h = tt
  Covered-grows done done' (d ∷ ds) grows (inl m, hs) =
      (inl (grows d m), Covered-grows done done' ds grows hs)
  Covered-grows done done' (d ∷ ds) grows (inr e, hs) =
      (inr e, Covered-grows done done' ds grows hs)

  -- What a search that found no cycle leaves.
  pub record Clean (s s' : Search) (names : List String) : Type 0 where
    pub same_path : s'.path ≡ s.path
    pub topo : IsTopo stages s'.done
    pub grows : (d : String) → Memᴰ d s.done → Memᴰ d s'.done
    pub covers : All (Covered stages s'.done) names

  -- The outcome of a search: a cycle, or a clean state.
  abbrev pub Outcome : Search → List String → Bool × Search → Type 0
  Outcome s names (true, s') = Cycle stages
  Outcome s names (false, s') = Clean s s' names

  abbrev pub Ends : Search → List String → Result (Bool × Search) → Type 0
  Ends s names (raise e) = ⊥
  Ends s names (ok r) = Outcome s names r

  -- The names on the path depend on `name`.
  abbrev Leads : List String → String → Type 0
  Leads path name = All (λ p. Reaches stages p name) path

  abbrev VisitEnds : (Search → String → Result (Bool × Search)) → List String → Type 0
  VisitEnds v path =
      (s : Search) (name : String)
      → s.path ≡ path
      → IsTopo stages s.done
      → Leads path name
      → Ends s (name ∷ []) (v s name)

  Ends-cons :
      (s s' : Search) (dep : String) (deps : List String) (r : Result (Bool × Search))
      → Clean s s' (dep ∷ [])
      → Ends s' deps r
      → Ends s (dep ∷ deps) r
  Ends-cons s s' dep deps (ok (true, s'')) c cycle = cycle
  Ends-cons s s' dep deps (ok (false, s'')) c h = record {
    same_path = h.same_path ∙ c.same_path;
    topo = h.topo;
    grows = λ d m. h.grows d (c.grows d m);
    covers = ((Covered-grows s'.done s''.done (dep ∷ []) h.grows c.covers).0, h.covers);
  }
  Ends-cons s s' dep deps (raise e) c h = h

  any_visit-Ends :
      (v : Search → String → Result (Bool × Search)) (deps : List String) (s : Search)
      → VisitEnds v s.path
      → IsTopo stages s.done
      → All (Leads s.path) deps
      → Ends s deps (any_visit v deps s)
  unfolding any_visit
  any_visit-Ends v [] s hv topo leads = record {
    same_path = refl;
    topo = topo;
    grows = λ d m. m;
    covers = tt;
  }
  any_visit-Ends v (dep ∷ deps) s hv topo leads = go (v s dep) (hv s dep refl topo leads.0) λ s' c.
      any_visit-Ends v deps s' (subst (VisitEnds v) (sym c.same_path) hv) c.topo
        (subst (λ path. All (Leads path) deps) (sym c.same_path) leads.1)
    where
      go :
          (r : Result (Bool × Search))
          → Ends s (dep ∷ []) r
          → ((s' : Search) → Clean s s' (dep ∷ []) → Ends s' deps (any_visit v deps s'))
          → Ends s (dep ∷ deps) (
              r >>= λ (found, s'). elim found [
                | true ↦ ok (true, s')
                | false ↦ any_visit v deps s'
              ])
      go (ok (true, s')) cycle rest = cycle
      go (ok (false, s')) c rest = Ends-cons s s' dep deps (any_visit v deps s') c (rest s' c)
      go (raise e) h rest = h

  -- The search of a stage's dependencies, then the step back.
  abbrev step_back : String → Result (Bool × Search) → Result (Bool × Search)
  step_back name r = r >>= λ (found, s'). ok (found, leave name s')

  step_back-Ends :
      (name : String) (stage : Stage) (s : Search) (r : Result (Bool × Search))
      → lookup stages name ≡ some stage
      → Ends (enter name s) stage.depends_on r
      → Ends s (name ∷ []) (step_back name r)
  step_back-Ends name stage s (ok (true, s')) e cycle = cycle
  step_back-Ends name stage s (ok (false, s')) e c = record {
    same_path = ap (discard name) c.same_path ∙ discard-head name s.path;
    topo = (
      λ other found.
          subst (λ (t : Stage). All (Covered stages s'.done) t.depends_on)
            (some_inj (sym e ∙ found)) c.covers,
      c.topo,
    );
    grows = λ d m. Memᴰ.tail (c.grows d m);
    covers = (inl (Memᴰ.head refl), tt);
  }
  step_back-Ends name stage s (raise x) e h = h

  Leads-dep :
      (name dep : String) (path : List String)
      → Edge stages name dep
      → Leads path name
      → Leads (name ∷ path) dep
  Leads-dep name dep path edge h = (one edge, extend path h)
    where
      extend : (ps : List String) → Leads ps name → Leads ps dep
      extend [] h = tt
      extend (p ∷ ps) h = (more h.0 edge, extend ps h.1)

  Leads-deps :
      (name : String) (stage : Stage) (path : List String)
      → lookup stages name ≡ some stage
      → Leads path name
      → All (Leads (name ∷ path)) stage.depends_on
  Leads-deps name stage path e h =
      All_of_Memᴰ _ stage.depends_on
        λ dep m. Leads-dep name dep path (record { stage = stage; found = e; listed = m }) h

  visit-Ends :
      (fuel : ℕ) (path : List String)
      → left path (keys stages) < fuel
      → VisitEnds (visit stages fuel) path
  unfolding visit
  visit-Ends zero path h s name same topo leads = elim h [ ]
  visit-Ends (suc fuel) path h s name same topo leads = elim (Bool-cases (contains s.path name)) [
    | inl again ↦
        rw again (name, All-Memᴰ _ path leads ((contains_iff path name).0 (rw same at again)))
    | inr new ↦ rw new (elim (Bool-cases (contains s.done name)) [
      | inl seen ↦ rw seen (record {
        same_path = refl;
        topo = topo;
        grows = λ d m. m;
        covers = (inl ((contains_iff s.done name).0 seen), tt);
      })
      | inr unseen ↦ rw unseen (elim (Option-cases (lookup stages name)) [
        | inl missing ↦
            rw missing (record {
              same_path = refl;
              topo = topo;
              grows = λ d m. m;
              covers = (inr missing, tt);
            })
        | inr (stage, e) ↦ rw e (
            step_back-Ends name stage s _ e (
              any_visit-Ends (visit stages fuel) stage.depends_on (enter name s)
                (visit-Ends fuel (name ∷ s.path) (
                  omega (
                    arith,
                    left-lt_cons name s.path (keys stages) new (keys-lookup stages name stage e),
                    ap (λ p. left p (keys stages)) same,
                  )))
                topo (Leads-deps name stage s.path e (subst (λ p. Leads p name) (sym same) leads))))
      ])
    ])
  ]

  Leads-nil : (names : List String) → All (Leads []) names
  Leads-nil [] = tt
  Leads-nil (n ∷ ns) = (tt, Leads-nil ns)

  search-Ends :
      Ends fresh (keys stages) (any_visit (visit stages (suc (length stages))) (keys stages) fresh)
  search-Ends =
      any_visit-Ends (visit stages (suc (length stages))) (keys stages) fresh
        (visit-Ends (suc (length stages)) []
          (omega (arith, left_nil (keys stages), length-keys stages)))
        tt (Leads-nil (keys stages))

  abbrev pub Decides : Bool → Type 0
  Decides true = Cycle stages
  Decides false =
      (done : List String) × IsTopo stages done
      × ((k : String) → Memᴰ k (keys stages) → Memᴰ k done)

  pub has_cycle-Decides : (b : Bool) × (has_cycle stages ≡ ok b) × Decides b
  unfolding has_cycle
  has_cycle-Decides =
      go (any_visit (visit stages (suc (length stages))) (keys stages) fresh) search-Ends
    where
      dealt :
          (s : Search)
          → Clean fresh s (keys stages)
          → (k : String) → Memᴰ k (keys stages)
          → Memᴰ k s.done
      dealt s c k m =
          ⊎_elim (λ d. d) (λ none'. absurd (lookup_of_key stages k m none'))
            (All-Memᴰ (Covered stages s.done) (keys stages) c.covers m)

      go :
          (r : Result (Bool × Search))
          → Ends fresh (keys stages) r
          → (b : Bool) × ((r >>= λ (found, s). ok found) ≡ ok b) × Decides b
      go (ok (true, s)) cycle = (true, refl, cycle)
      go (ok (false, s)) c = (false, refl, (s.done, c.topo, dealt s c))
      go (raise e) h = absurd h
