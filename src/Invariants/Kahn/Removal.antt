-- ===== src/Invariants/Kahn/Removal.antt =====
-- What holds after each node is removed.
use mathlib.Core.List.Memᴰ
use mathlib.Core.Logic.{⊎_elim}
use rtlfarm.Prelude.{
  keys-insert_old, suc, ◌+◌, ◌-◌, ◌<◌, ◌≤◌, String, ◌≡◌, refl, sym, ap, subst, ◌∙◌, ◌↔◌, ◌≢◌, inl,
  inr, false, List, [], ◌∷◌, ◌++◌, Memᴰ, Memᴰ-cons, Memᴰ-append, Distinct, ◌==◌, contains,
  contains-false, length, insert, keys, if◌then◌else◌, Bool-cases, beq-false, string_eq, nat_eq,
  arith,
}
use rtlfarm.Invariants.Kahn.{DepEdge, Degrees, degree, relax}
use rtlfarm.Invariants.Kahn.Degrees.{occurs, pending, tasks_behind, degree-insert, pending-remove}

-- Different values of `ys` are at most as many as the values of `ys`.
pub erase : String → List String → List String
erase x [] = []
erase x (y ∷ ys) = if x == y then ys else y ∷ erase x ys

mem-erase : (x a : String) (ys : List String) → a ≢ x → Memᴰ a ys → Memᴰ a (erase x ys)
unfolding erase
mem-erase x a [] other m = absurd (Memᴰ.not-nil m)
mem-erase x a (y ∷ ys) other m = ground (
  arith,
  mem-erase x a ys other,
  Memᴰ-cons a y ys,
  Memᴰ-cons a y (erase x ys),
  string_eq.beq_iff x y,
)

length-erase : (x : String) (ys : List String) → Memᴰ x ys → suc (length (erase x ys)) ≡ length ys
unfolding erase
length-erase x [] m = absurd (Memᴰ.not-nil m)
length-erase x (y ∷ ys) m =
    ground (arith, length-erase x ys, Memᴰ-cons x y ys, string_eq.beq_iff x y)

pub length_of_Distinct :
    (xs ys : List String)
    → Distinct xs
    → ((a : String) → Memᴰ a xs → Memᴰ a ys)
    → length xs ≤ length ys
length_of_Distinct [] ys once within = omega arith
length_of_Distinct (x ∷ xs) ys once within =
    let rest : length xs ≤ length (erase x ys) = length_of_Distinct xs (erase x ys) once.1 (λ a m.
      mem-erase x a ys (λ same. once.0 (subst (λ k. Memᴰ k xs) same m)) (within a (Memᴰ.tail m))) in
    omega (arith, length-erase x ys (within x (Memᴰ.head refl)))

-- Every node that an edge to a removed one starts from was removed before it.
abbrev pub IsOrder : List DepEdge → List String → Type 0
IsOrder es [] = Unit
IsOrder es (x ∷ removed) =
    ((e : DepEdge) → Memᴰ e es → e.1 ≡ x → Memᴰ e.0 removed) × IsOrder es removed

-- In the loop over the tasks behind the last removed node, `todo` of which are left.
pub record Inv (es : List DepEdge) (nodes removed todo : List String) (indegree : Degrees)
    (ready : List String) : Type 0 where
  pub same : keys indegree ≡ nodes
  pub value : (x : String) → degree indegree x ≡ pending removed es x + occurs x todo
  pub none_left : (x : String) → Memᴰ x nodes → Memᴰ x (ready ++ removed) ↔ (degree indegree x ≡ 0)
  pub once : Distinct (ready ++ removed)
  pub known : (x : String) → Memᴰ x (ready ++ removed) → Memᴰ x nodes

module _ (es : List DepEdge) (nodes removed : List String) (next : String) (todo : List String)
    (indegree : Degrees) (ready : List String) (there : Memᴰ next nodes)
    (h : Inv es nodes removed (next ∷ todo) indegree ready) where
  occurs_first : occurs next (next ∷ todo) ≡ suc (occurs next todo)
  occurs_first = rw ((string_eq.beq_iff next next).1 refl) (omega arith)

  -- The count that 1 is taken from is not 0.
  pub counted : 0 < degree indegree next
  counted = rw (h.value next) (omega (arith, occurs_first))

  pub fresh : ¬ Memᴰ next (ready ++ removed)
  fresh m = let none_left = (h.none_left next there).0 m in absurd (omega (arith, counted))

  abbrev pub fewer : Degrees
  fewer = insert indegree next (degree indegree next - 1)

  fewer-next : degree fewer next ≡ degree indegree next - 1
  fewer-next =
      degree-insert indegree next next (degree indegree next - 1)
      ∙ rw ((string_eq.beq_iff next next).1 refl) refl

  fewer-other : (x : String) → next == x ≡ false → degree fewer x ≡ degree indegree x
  fewer-other x other = degree-insert indegree next x (degree indegree next - 1) ∙ rw other refl

  fewer-value : (x : String) → degree fewer x ≡ pending removed es x + occurs x todo
  fewer-value x = elim (Bool-cases (next == x)) [
    | inl same ↦
        subst (λ k. degree fewer k ≡ pending removed es k + occurs k todo)
          ((string_eq.beq_iff next x).0 same)
          (omega (arith, fewer-next, counted, h.value next, occurs_first))
    | inr other ↦ fewer-other x other ∙ h.value x ∙ rw other (omega arith)
  ]

  pub fewer-keys : keys fewer ≡ nodes
  fewer-keys =
      keys-insert_old indegree next (degree indegree next - 1)
        (subst (λ l. Memᴰ next l) (sym h.same) there)
      ∙ h.same

  step_pushed : degree indegree next - 1 ≡ 0 → Inv es nodes removed todo fewer (next ∷ ready)
  step_pushed gone = record {
    same = fewer-keys;
    value = fewer-value;
    none_left = λ x m. elim (Bool-cases (next == x)) [
      | inl same ↦ (
        λ _.
            subst (λ k. degree fewer k ≡ 0) ((string_eq.beq_iff next x).0 same) (fewer-next ∙ gone),
        λ _. Memᴰ.head (sym ((string_eq.beq_iff next x).0 same)),
      )
      | inr other ↦ rw (fewer-other x other) (
        λ k. (h.none_left x m).0 (
            ⊎_elim (λ e. cc (sym ((string_eq.beq_iff next x).1 (sym e)) ∙ other)) (λ q. q)
              (Memᴰ.cases_cons k)),
        λ e. Memᴰ.tail ((h.none_left x m).1 e),
      )
    ];
    once = (fresh, h.once);
    known = λ x m. ⊎_elim (λ e. rw e there) (h.known x) (Memᴰ.cases_cons m);
  }

  step_kept : degree indegree next - 1 ≢ 0 → Inv es nodes removed todo fewer ready
  step_kept left = record {
    same = fewer-keys;
    value = fewer-value;
    none_left = λ x m. elim (Bool-cases (next == x)) [
      | inl same ↦ (
        λ k. absurd (fresh (rw ((string_eq.beq_iff next x).0 same) k)),
        λ e.
            absurd
              (left (sym fewer-next ∙ ap (degree fewer) ((string_eq.beq_iff next x).0 same) ∙ e)),
      )
      | inr other ↦ rw (fewer-other x other) (h.none_left x m)
    ];
    once = h.once;
    known = h.known;
  }

module _ (es : List DepEdge) (nodes removed : List String) where
  pub relax-Inv :
      (todo : List String) (indegree : Degrees) (ready : List String)
      → ((x : String) → Memᴰ x todo → Memᴰ x nodes)
      → Inv es nodes removed todo indegree ready
      → Inv es nodes removed [] (relax indegree ready todo).0 (relax indegree ready todo).1
  unfolding relax
  relax-Inv [] indegree ready within h = h
  relax-Inv (next ∷ todo) indegree ready within h =
      elim (Bool-cases (degree indegree next - 1 == 0)) [
        | inl gone ↦
            rw (gone, relax)
              (relax-Inv todo (insert indegree next (degree indegree next - 1)) (next ∷ ready)
                (λ x m. within x (Memᴰ.tail m))
                (step_pushed es nodes removed next todo indegree ready
                  (within next (Memᴰ.head refl)) h ((nat_eq.beq_iff _ 0).0 gone)))
        | inr left ↦
            rw (left, relax)
              (relax-Inv todo (insert indegree next (degree indegree next - 1)) ready
                (λ x m. within x (Memᴰ.tail m))
                (step_kept es nodes removed next todo indegree ready (within next (Memᴰ.head refl))
                  h (beq-false _ 0 left)))
      ]

-- A node that is taken from `ready` is removed, and the tasks behind it are left to be counted down.
pub remove-Inv :
    (es : List DepEdge) (nodes removed : List String) (node : String) (indegree : Degrees)
    (ready : List String)
    → Inv es nodes removed [] indegree (node ∷ ready)
    → Inv es nodes (node ∷ removed) (tasks_behind node es) indegree ready
remove-Inv es nodes removed node indegree ready h = record {
  same = h.same;
  value = λ x. h.value x ∙ rm x;
  none_left =
      λ x m. let (there, back) = h.none_left x m in (λ k. there (swap x k), λ e. unswap x (back e));
  once = move ready h.once;
  known = λ x m. h.known x (swap x m);
}
  where
    move : (xs : List String) → Distinct (node ∷ xs ++ removed) → Distinct (xs ++ node ∷ removed)
    move [] d = d
    move (x ∷ xs) d = (
      λ m.
          ⊎_elim (λ front. d.1.0 ((Memᴰ-append x xs removed).1 (inl front)))
            (λ back.
              ⊎_elim (λ same. d.0 (Memᴰ.head (sym same)))
                (λ behind. d.1.0 ((Memᴰ-append x xs removed).1 (inr behind)))
                (Memᴰ.cases_cons back))
            ((Memᴰ-append x xs (node ∷ removed)).0 m),
      move xs (λ m. d.0 (Memᴰ.tail m), d.1.1),
    )

    swap : (x : String) → Memᴰ x (ready ++ node ∷ removed) → Memᴰ x (node ∷ ready ++ removed)
    swap x m = ground (
      arith,
      Memᴰ-append x ready (node ∷ removed),
      Memᴰ-append x ready removed,
      Memᴰ-cons x node removed,
      Memᴰ-cons x node (ready ++ removed),
    )

    unswap : (x : String) → Memᴰ x (node ∷ ready ++ removed) → Memᴰ x (ready ++ node ∷ removed)
    unswap x m = ground (
      arith,
      Memᴰ-append x ready (node ∷ removed),
      Memᴰ-append x ready removed,
      Memᴰ-cons x node removed,
      Memᴰ-cons x node (ready ++ removed),
    )

    new : contains removed node ≡ false
    new = contains-false removed node (λ m. h.once.0 ((Memᴰ-append node ready removed).1 (inr m)))

    rm :
        (x : String)
        → pending removed es x + 0 ≡ pending (node ∷ removed) es x + occurs x (tasks_behind node es)
    rm x = omega (arith, pending-remove removed es node x new)
