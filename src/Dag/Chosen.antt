-- ===== src/Dag/Chosen.antt =====
-- What a selection keeps.
use mathlib.Core.List.Memᴰ
use mathlib.Core.Logic.{⊎_elim}
use mathlib.Core.List.{append-nil}
use rtlfarm.Prelude.{
  ◌≤◌, length, drop, take-drop, Option-cases, ℕ, zero, suc, String, ◌≡◌, refl, sym, ap, subst, ◌∙◌,
  ◌≢◌, inl, inr, ◌↔◌, Bool, true, false, not, ◌⊎◌, ◌++◌, ◌&&◌, List, [], ◌∷◌, Memᴰ, Memᴰ-cons,
  Distinct, List-cases, no_such_target, contains, contains_iff, take, Option, none, some, Result,
  ok, raise, Bool-cases, string_eq, arith,
}
use rtlfarm.Models.{Target, Pipeline}
use rtlfarm.Dag.{Selection}
use rtlfarm.Pipeline.Rules.{is_empty}
use rtlfarm.Dag.Select.{absent, intersects, keeps, chosen_seeds, kept, target_names, select_targets}

mem-take : (x n : ℕ) (xs : List ℕ) → Memᴰ x (take n xs) → Memᴰ x xs
mem-take x zero xs m = absurd (Memᴰ.not-nil m)
mem-take x (suc n) [] m = m
mem-take x (suc n) (y ∷ ys) (Memᴰ.head e) = Memᴰ.head e
mem-take x (suc n) (y ∷ ys) (Memᴰ.tail m) = Memᴰ.tail (mem-take x n ys m)

Distinct-take : (n : ℕ) (xs : List ℕ) → Distinct xs → Distinct (take n xs)
Distinct-take zero xs d = tt
Distinct-take (suc n) [] d = tt
Distinct-take (suc n) (y ∷ ys) d = (λ m. d.0 (mem-take y n ys m), Distinct-take n ys d.1)

pub chosen_seeds-Distinct :
    (selection : Selection) (seeds : List ℕ)
    → Distinct seeds
    → Distinct (chosen_seeds selection seeds)
unfolding chosen_seeds
chosen_seeds-Distinct selection seeds d = go selection.seed selection.seeds
  where
    go :
        (seed cap : Option ℕ)
        → Distinct (elim seed [
          | some seed ↦ seed ∷ []
          | none ↦ elim cap [ some n ↦ take n seeds | none ↦ seeds ]
        ])
    go (some seed) cap = (Memᴰ.not-nil, tt)
    go none (some n) = Distinct-take n seeds d
    go none none = d

-- The target with the seeds that the selection leaves it.
abbrev pub narrowed : Selection → Target → Target
narrowed selection t = record t { seeds = chosen_seeds selection t.seeds }

pub mem-kept :
    (selection : Selection) (ts : List Target) (x : Target)
    → Memᴰ x (kept selection ts)
      ↔ ((t : Target) × Memᴰ t ts × (keeps selection t ≡ true) × (x ≡ narrowed selection t))
unfolding kept
mem-kept selection [] x = (λ m. absurd (Memᴰ.not-nil m), λ (t, m, k, e). absurd (Memᴰ.not-nil m))
mem-kept selection (t ∷ ts) x =
    let rest = mem-kept selection ts x in
    elim (Bool-cases (keeps selection t)) [
      | inl k ↦
          rw (k, kept)
            (
              λ m.
                  ⊎_elim (λ e. (t, Memᴰ.head refl, k, e))
                    (λ r. let (u, mu, ku, e) = rest.0 r in (u, Memᴰ.tail mu, ku, e))
                    (Memᴰ.cases_cons m),
              λ (u, mu, ku, e).
                  ⊎_elim (λ same. Memᴰ.head (e ∙ ap (narrowed selection) same))
                    (λ r. Memᴰ.tail (rest.1 (u, r, ku, e))) (Memᴰ.cases_cons mu),
            )
      | inr k ↦
          rw (k, kept)
            (
              λ m. let (u, mu, ku, e) = rest.0 m in (u, Memᴰ.tail mu, ku, e),
              λ (u, mu, ku, e).
                  ⊎_elim
                    (λ same.
                      let clash = sym ku ∙ ap (keeps selection) same ∙ k in absurd (cc clash))
                    (λ r. rest.1 (u, r, ku, e)) (Memᴰ.cases_cons mu),
            )
    ]

kept-names :
    (selection : Selection) (ts : List Target) (n : String)
    → Memᴰ n (target_names (kept selection ts))
    → Memᴰ n (target_names ts)
kept-names selection ts n m =
    let (x, mx, e) = Memᴰ.of_map (λ t. Target.name t) (kept selection ts) m in
    let (t, mt, k, same) = (mem-kept selection ts x).0 mx in
    subst (λ y. Memᴰ y (target_names ts)) (sym (ap (λ t. Target.name t) same) ∙ e)
      (Memᴰ.map (λ t. Target.name t) mt)

pub kept-Distinct :
    (selection : Selection) (ts : List Target)
    → Distinct (target_names ts)
    → Distinct (target_names (kept selection ts))
unfolding kept
kept-Distinct selection [] d = tt
kept-Distinct selection (t ∷ ts) d = elim (Bool-cases (keeps selection t)) [
  | inl k ↦
      rw (k, kept) (λ m. d.0 (kept-names selection ts t.name m), kept-Distinct selection ts d.1)
  | inr k ↦ rw (k, kept) (kept-Distinct selection ts d.1)
]

mem-absent :
    (known xs : List String) (x : String)
    → Memᴰ x (absent known xs) ↔ (Memᴰ x xs × (¬ Memᴰ x known))
mem-absent known [] x = (λ m. absurd (Memᴰ.not-nil m), λ h. h.0)
mem-absent known (y ∷ ys) x = ground (
  arith,
  mem-absent known ys x,
  Memᴰ-cons x y ys,
  Memᴰ-cons x y (absent known ys),
  contains_iff known y,
  contains_iff known x,
  string_eq.beq_iff x y,
)

-- Two lists of names share one.
abbrev pub Shares : List String → List String → Type 0
Shares xs ys = (x : String) × Memᴰ x xs × Memᴰ x ys

intersects_iff : (xs ys : List String) → (intersects xs ys ≡ true) ↔ Shares xs ys
intersects_iff [] ys = (λ h. absurd (cc h), λ (x, m, k). absurd (Memᴰ.not-nil m))
intersects_iff (x ∷ xs) ys = elim (Bool-cases (contains ys x)) [
  | inl here ↦ rw here (λ _. (x, Memᴰ.head refl, (contains_iff ys x).0 here), λ _. refl)
  | inr other ↦ rw other (
    λ h. let (y, m, k) = (intersects_iff xs ys).0 h in (y, Memᴰ.tail m, k),
    λ (y, m, k).
        ⊎_elim
          (λ same.
            let clash = sym ((contains_iff ys x).1 (subst (λ z. Memᴰ z ys) same k)) ∙ other in
            cc clash)
          (λ t. (intersects_iff xs ys).1 (y, t, k)) (Memᴰ.cases_cons m),
  )
]

-- A target passes the selection: it is named where names are given, and tagged where tags are.
pub record Passes (selection : Selection) (t : Target) : Type 0 where
  pub named : selection.targets ≢ [] → Memᴰ t.name selection.targets
  pub tagged : selection.tags ≢ [] → Shares selection.tags t.tags

gate_iff :
    (xs : List String) (b : Bool) → (not (not (is_empty xs) && not b) ≡ true) ↔ (xs ≢ [] → b ≡ true)
gate_iff xs b = ground arith

and_iff : (a b : Bool) → (a && b ≡ true) ↔ ((a ≡ true) × (b ≡ true))
and_iff a b = ground arith

pub keeps_iff :
    (selection : Selection) (t : Target) → (keeps selection t ≡ true) ↔ Passes selection t
unfolding keeps
keeps_iff selection t =
    let both = and_iff _ _ in
    let by_name = gate_iff selection.targets (contains selection.targets t.name) in
    let by_tag = gate_iff selection.tags (intersects selection.tags t.tags) in
    let names = contains_iff selection.targets t.name in
    let tags = intersects_iff selection.tags t.tags in
    (
      λ h. record {
        named = λ given. names.0 (by_name.0 (both.0 h).0 given);
        tagged = λ given. tags.0 (by_tag.0 (both.0 h).1 given);
      },
      λ p. both.1 (
        by_name.1 (λ given. names.1 (p.named given)),
        by_tag.1 (λ given. tags.1 (p.tagged given)),
      ),
    )

-- The seeds that a selection leaves of a target's: the pinned seed alone; or the first ones up to the
-- cap; or all of them.
pub data IsLeft (selection : Selection) (seeds left : List ℕ) : Type 0 where
  pinned : (seed : ℕ) → selection.seed ≡ some seed → left ≡ seed ∷ [] → IsLeft selection seeds left
  capped :
      (cap : ℕ) (rest : List ℕ)
      → selection.seed ≡ none
      → selection.seeds ≡ some cap
      → seeds ≡ left ++ rest
      → length left ≤ cap
      → (length left ≡ cap) ⊎ (rest ≡ [])
      → IsLeft selection seeds left
  uncapped :
      selection.seed ≡ none → selection.seeds ≡ none → left ≡ seeds → IsLeft selection seeds left

-- The targets that a selection is to keep, each with the seeds it is left.
abbrev pub IsChosen : Selection → List Target → Target → Type 0
IsChosen selection targets x =
    (t : Target) × Memᴰ t targets
    × Passes selection t
    × (left : List ℕ) × (x ≡ record t { seeds = left })
    × IsLeft selection t.seeds left

take-length :
    (n : ℕ) (xs : List ℕ) → (length (take n xs) ≤ n) × ((length (take n xs) ≡ n) ⊎ (drop n xs ≡ []))
take-length zero xs = (omega arith, inl refl)
take-length (suc n) [] = (omega arith, inr refl)
take-length (suc n) (x ∷ xs) =
    let (low, how) = take-length n xs in (omega arith, ⊎_elim (λ full. inl (omega arith)) inr how)

take-append : (left rest : List ℕ) → take (length left) (left ++ rest) ≡ left
take-append [] rest = refl
take-append (x ∷ left) rest = ap (λ l. x ∷ l) (take-append left rest)

take-all : (n : ℕ) (xs : List ℕ) → length xs ≤ n → take n xs ≡ xs
take-all zero [] h = refl
take-all zero (x ∷ xs) h = absurd (omega arith)
take-all (suc n) [] h = refl
take-all (suc n) (x ∷ xs) h = ap (λ l. x ∷ l) (take-all n xs (omega arith))

take_left :
    (n : ℕ) (left rest : List ℕ)
    → length left ≤ n
    → (length left ≡ n) ⊎ (rest ≡ [])
    → take n (left ++ rest) ≡ left
take_left n left rest low how =
    ⊎_elim (λ full. subst (λ k. take k (left ++ rest) ≡ left) full (take-append left rest))
      (λ none'.
        ap (λ r. take n (left ++ r)) none' ∙ ap (take n) (append-nil left) ∙ take-all n left low)
      how

chosen_seeds-IsLeft :
    (selection : Selection) (seeds : List ℕ) → IsLeft selection seeds (chosen_seeds selection seeds)
unfolding chosen_seeds
chosen_seeds-IsLeft selection seeds = elim (Option-cases selection.seed) [
  | inr (seed, given) ↦ pinned seed given (rw (given, chosen_seeds) refl)
  | inl free ↦ elim (Option-cases selection.seeds) [
    | inl unbounded ↦ uncapped free unbounded (rw (free, unbounded, chosen_seeds) refl)
    | inr (cap, bounded) ↦
        let (low, how) = take-length cap seeds in
        let kept' : chosen_seeds selection seeds ≡ take cap seeds =
          rw (free, bounded, chosen_seeds) refl in
        subst (IsLeft selection seeds) (sym kept')
          (capped cap (drop cap seeds) free bounded (sym (take-drop cap seeds)) low how)
  ]
]

IsLeft-chosen_seeds :
    (selection : Selection) (seeds left : List ℕ)
    → IsLeft selection seeds left
    → left ≡ chosen_seeds selection seeds
unfolding chosen_seeds
IsLeft-chosen_seeds selection seeds left (pinned seed given is) = rw (given, chosen_seeds) is
IsLeft-chosen_seeds selection seeds left (uncapped free unbounded is) =
    rw (free, unbounded, chosen_seeds) is
IsLeft-chosen_seeds selection seeds left (capped cap rest free bounded split low how) =
    rw (free, bounded, chosen_seeds) (sym (ap (take cap) split ∙ take_left cap left rest low how))

kept_iff :
    (selection : Selection) (targets : List Target) (x : Target)
    → Memᴰ x (kept selection targets) ↔ IsChosen selection targets x
kept_iff selection targets x =
    let m = mem-kept selection targets x in
    (
      λ h.
          let (t, mt, k, e) = m.0 h in
          (
            t,
            mt,
            (keeps_iff selection t).0 k,
            chosen_seeds selection t.seeds,
            e,
            chosen_seeds-IsLeft selection t.seeds,
          ),
      λ (t, mt, k, left, e, is). m.1 (
        t,
        mt,
        (keeps_iff selection t).1 k,
        e ∙ ap (λ l. record t { seeds = l }) (IsLeft-chosen_seeds selection t.seeds left is),
      ),
    )

-- What `select_targets` does: it raises the selected names that are no target's, in their order, if
-- there are any, and else returns the chosen targets.
pub data Selected (targets : List Target) (selection : Selection) (r : Result (List Target))
    : Type 0 where
  unknown :
      (names : List String)
      → r ≡ raise (no_such_target names)
      → names ≢ []
      → ((x : String)
          → Memᴰ x names ↔ (Memᴰ x selection.targets × (¬ Memᴰ x (target_names targets))))
      → Selected targets selection r
  chosen :
      (ts : List Target)
      → r ≡ ok ts
      → ((x : String) → Memᴰ x selection.targets → Memᴰ x (target_names targets))
      → ((x : Target) → Memᴰ x ts ↔ IsChosen selection targets x)
      → ts ≡ kept selection targets
      → Selected targets selection r

-- On every pipeline and selection `select_targets` either raises `no_such_target` with a list that is
-- not empty and holds exactly the selected names that no target has, or, if there is no such name,
-- returns a list that holds exactly the targets that pass the selection by name and by tag, each with
-- the seeds that the selection leaves it: the pinned seed, or else the first ones up to the cap, or else
-- all.
pub select_targets_lem :
    (p : Pipeline) (selection : Selection)
    → Selected p.targets selection (select_targets p selection)
unfolding select_targets
select_targets_lem p selection =
    let names = absent (target_names p.targets) selection.targets in
    let who = mem-absent (target_names p.targets) selection.targets in
    elim (List-cases names) [
      | inl none' ↦
          rw (none', select_targets)
            (chosen (kept selection p.targets) refl
              (λ x m.
                ⊎_elim (λ k. (contains_iff (target_names p.targets) x).0 k)
                  (λ k. absurd (
                    Memᴰ.not-nil (
                      subst (Memᴰ x) none' (
                        (who x).1 (
                          m,
                          λ known.
                              let clash =
                                sym ((contains_iff (target_names p.targets) x).1 known) ∙ k in
                              cc clash,
                        )))))
                  (Bool-cases (contains (target_names p.targets) x)))
              (kept_iff selection p.targets) refl)
      | inr (n, ns, e) ↦
          unknown names
            (let some' : is_empty names ≡ false = ap is_empty e in rw (some', select_targets))
            (λ none'. let clash = sym e ∙ none' in cc clash) who
    ]
