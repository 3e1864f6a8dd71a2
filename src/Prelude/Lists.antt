-- ===== src/Prelude/Lists.antt =====
-- Lists under native numbers, membership as a test, and association lists for Python's `dict`.
use Prim.Native.Nat.{ℕ, zero, suc, ◌+◌, ◌≤◌}
use mathlib.Core.Path.{◌≡◌, refl, ap, ◌∙◌}
use mathlib.Core.Logic.{◌⊎◌, inl, inr, ◌↔◌, ⊎_elim}
use mathlib.Core.Bool.{Bool, true, false, not, ◌&&◌, ◌||◌}
use mathlib.Core.Option.{Option, none, some}
use mathlib.Core.List.{List, [], ◌∷◌, ◌++◌, Memᴰ}
use mathlib.Core.List.Memᴰ
use native.Mathlib.Omega.{arith}
use rtlfarm.Prelude.Tests.{nat_beq, Eq, ◌==◌, if◌then◌else◌, Bool-cases}

module _ {ℓ} {A : Type ℓ} where
  abbrev pub length : List A → ℕ
  length [] = 0
  length (x ∷ xs) = suc (length xs)

  abbrev pub all : (A → Bool) → List A → Bool
  all p [] = true
  all p (x ∷ xs) = p x && all p xs

  -- [x for x in xs if p(x)]
  abbrev pub select : (A → Bool) → List A → List A
  select p [] = []
  select p (x ∷ xs) = if p x then x ∷ select p xs else select p xs

  -- [y for x in xs for y in f(x)]
  abbrev pub gather_all {κ} : {B : Type κ} → (A → List B) → List A → List B
  gather_all f [] = []
  gather_all f (x ∷ xs) = f x ++ gather_all f xs

  abbrev pub take : ℕ → List A → List A
  take zero xs = []
  take (suc n) [] = []
  take (suc n) (x ∷ xs) = x ∷ take n xs

  abbrev pub drop : ℕ → List A → List A
  drop zero xs = xs
  drop (suc n) [] = []
  drop (suc n) (x ∷ xs) = drop n xs

  pub take-drop : (n : ℕ) (xs : List A) → take n xs ++ drop n xs ≡ xs
  take-drop zero xs = refl
  take-drop (suc n) [] = refl
  take-drop (suc n) (x ∷ xs) = ap (λ l. x ∷ l) (take-drop n xs)

  pub length-drop : (n : ℕ) (xs : List A) → length (drop n xs) ≤ length xs
  length-drop zero xs = omega arith
  length-drop (suc n) [] = omega arith
  length-drop (suc n) (x ∷ xs) = omega (arith, length-drop n xs)

  pub Memᴰ-cons : (a x : A) (xs : List A) → Memᴰ a (x ∷ xs) ↔ ((a ≡ x) ⊎ Memᴰ a xs)
  Memᴰ-cons a x xs = (Memᴰ.cases_cons, ⊎_elim Memᴰ.head Memᴰ.tail)

  pub Memᴰ-append : (a : A) (xs ys : List A) → Memᴰ a (xs ++ ys) ↔ (Memᴰ a xs ⊎ Memᴰ a ys)
  Memᴰ-append a xs ys = (Memᴰ.append_cases xs, ⊎_elim (Memᴰ.append_left ys) (Memᴰ.append_right xs))

  pub Memᴰ-concat : (a x : A) (xs : List A) → Memᴰ a (xs ++ x ∷ []) ↔ (Memᴰ a xs ⊎ (a ≡ x))
  Memᴰ-concat a x xs = (
    λ m. ⊎_elim inl (λ last. inr (Memᴰ.eq_of_singleton last)) (Memᴰ.append_cases xs m),
    ⊎_elim (Memᴰ.append_left _) (λ e. Memᴰ.append_right xs (Memᴰ.head e)),
  )

  pub mem-select :
      (p : A → Bool) (a : A) (xs : List A) → Memᴰ a (select p xs) ↔ (Memᴰ a xs × (p a ≡ true))
  mem-select p a [] = (λ m. absurd (Memᴰ.not-nil m), λ h. h.0)
  mem-select p a (x ∷ xs) = elim (Bool-cases (p x)) [
    | inl fits ↦ rw fits (
      λ m.
          ⊎_elim (λ e. (Memᴰ.head e, ap p e ∙ fits))
            (λ r. let (k, f) = (mem-select p a xs).0 r in (Memᴰ.tail k, f)) (Memᴰ.cases_cons m),
      λ (m, f).
          ⊎_elim Memᴰ.head (λ k. Memᴰ.tail ((mem-select p a xs).1 (k, f))) (Memᴰ.cases_cons m),
    )
    | inr skipped ↦ rw skipped (
      λ m. let (k, f) = (mem-select p a xs).0 m in (Memᴰ.tail k, f),
      λ (m, f).
          ⊎_elim (λ e. absurd (let e' = ap p e in cc)) (λ k. (mem-select p a xs).1 (k, f))
            (Memᴰ.cases_cons m),
    )
  ]

  pub select-append :
      (p : A → Bool) (xs ys : List A) → select p (xs ++ ys) ≡ select p xs ++ select p ys
  select-append p [] ys = refl
  select-append p (x ∷ xs) ys = ground (arith, select-append p xs ys)

  -- Where nothing fits, nothing is selected.
  pub select-none :
      (p : A → Bool) (xs : List A) → ((a : A) → Memᴰ a xs → p a ≡ false) → select p xs ≡ []
  select-none p [] h = refl
  select-none p (x ∷ xs) h = rw (h x (Memᴰ.head refl)) (select-none p xs (λ a m. h a (Memᴰ.tail m)))

  pub append-eq-nil : (xs ys : List A) → xs ++ ys ≡ [] → (xs ≡ []) × (ys ≡ [])
  append-eq-nil [] ys h = (refl, h)
  append-eq-nil (x ∷ xs) ys h = absurd cc

  pub List-cases : (xs : List A) → (xs ≡ []) ⊎ ((x : A) × (rest : List A) × (xs ≡ x ∷ rest))
  List-cases [] = inl refl
  List-cases (x ∷ xs) = inr (x, xs, refl)

  pub length-append : (xs ys : List A) → length (xs ++ ys) ≡ length xs + length ys
  length-append [] ys = omega arith
  length-append (x ∷ xs) ys = omega (arith, length-append xs ys)

  -- No value stands twice.
  abbrev pub Distinct : List A → Type ℓ
  Distinct [] = Unit
  Distinct (x ∷ xs) = (¬ Memᴰ x xs) × Distinct xs

  abbrev pub All {κ} : (A → Type κ) → List A → Type κ
  All P [] = Unit
  All P (x ∷ xs) = P x × All P xs

pub gather_all-nil {ℓ κ} :
    {A : Type ℓ} {B : Type κ} (f : A → List B) (xs : List A)
    → (gather_all f xs ≡ []) ↔ ((a : A) → Memᴰ a xs → f a ≡ [])
gather_all-nil f [] = (λ _ a m. absurd (Memᴰ.not-nil m), λ _. refl)
gather_all-nil f (x ∷ xs) = (
  λ h a m.
      ⊎_elim (λ e. ap f e ∙ (append-eq-nil (f x) (gather_all f xs) h).0)
        ((gather_all-nil f xs).0 (append-eq-nil (f x) (gather_all f xs) h).1 a) (Memᴰ.cases_cons m),
  λ h. rw (h x (Memᴰ.head refl)) ((gather_all-nil f xs).1 (λ a m. h a (Memᴰ.tail m))),
)

module _ {ℓ κ} {A : Type ℓ} (P : A → Type κ) where
  pub All-Memᴰ : {a : A} (xs : List A) → All P xs → Memᴰ a xs → P a
  All-Memᴰ [] h m = absurd (Memᴰ.not-nil m)
  All-Memᴰ (x ∷ xs) h (Memᴰ.head e) = rw e h.0
  All-Memᴰ (x ∷ xs) h (Memᴰ.tail m) = All-Memᴰ xs h.1 m

  pub All_of_Memᴰ : (xs : List A) → ((a : A) → Memᴰ a xs → P a) → All P xs
  All_of_Memᴰ [] h = tt
  All_of_Memᴰ (x ∷ xs) h = (h x (Memᴰ.head refl), All_of_Memᴰ xs (λ a m. h a (Memᴰ.tail m)))

module _ {ℓ} {A : Type ℓ} where
  pub all_iff : (p : A → Bool) (xs : List A) → (all p xs ≡ true) ↔ All (λ x. p x ≡ true) xs
  all_iff p [] = (λ _. tt, λ _. refl)
  all_iff p (x ∷ xs) = ground (arith, all_iff p xs)

-- `x in xs`
module _ {ℓ} {A : Type ℓ} ⦃e : Eq A⦄ where
  abbrev pub contains : List A → A → Bool
  contains [] a = false
  contains (x ∷ xs) a = a == x || contains xs a

  pub contains_iff : (xs : List A) (a : A) → (contains xs a ≡ true) ↔ Memᴰ a xs
  contains_iff [] a = (λ h. absurd (ground arith), λ m. absurd (Memᴰ.not-nil m))
  contains_iff (x ∷ xs) a = ground (arith, contains_iff xs a, Memᴰ-cons a x xs, e.beq_iff a x)

  pub contains-false : (xs : List A) (a : A) → (¬ Memᴰ a xs) → contains xs a ≡ false
  contains-false xs a new = elim (Bool-cases (contains xs a)) [
    | inl there ↦ absurd (new ((contains_iff xs a).0 there))
    | inr absent ↦ absent
  ]

  abbrev pub is_distinct : List A → Bool
  is_distinct [] = true
  is_distinct (x ∷ xs) = not (contains xs x) && is_distinct xs

  pub is_distinct-Distinct : (xs : List A) → is_distinct xs ≡ true → Distinct xs
  is_distinct-Distinct [] h = tt
  is_distinct-Distinct (x ∷ xs) h = ground (arith, contains_iff xs x, is_distinct-Distinct xs)

-- A Python `dict` is its items in insertion order.
module _ {ℓ κ} {K : Type ℓ} {V : Type κ} ⦃e : Eq K⦄ where
  -- d.get(k)
  abbrev pub lookup : List (K × V) → K → Option V
  lookup [] k = none
  lookup ((j, v) ∷ d) k = if j == k then some v else lookup d k

  -- d[k] = v: an old key keeps its place.
  abbrev pub insert : List (K × V) → K → V → List (K × V)
  insert [] k v = (k, v) ∷ []
  insert ((j, w) ∷ d) k v = if j == k then (j, v) ∷ d else (j, w) ∷ insert d k v

  -- {**d, **more}
  abbrev pub merge : List (K × V) → List (K × V) → List (K × V)
  merge d [] = d
  merge d ((k, v) ∷ more) = merge (insert d k v) more

module _ {ℓ κ} {K : Type ℓ} {V : Type κ} where
  abbrev pub keys : List (K × V) → List K
  keys [] = []
  keys ((k, v) ∷ d) = k ∷ keys d

-- list(range(first, first + n))
abbrev pub count_up : ℕ → ℕ → List ℕ
count_up first zero = []
count_up first (suc n) = first ∷ count_up (suc first) n

abbrev pub nat_lists_equal : List ℕ → List ℕ → Bool
nat_lists_equal [] [] = true
nat_lists_equal [] (y ∷ ys) = false
nat_lists_equal (x ∷ xs) [] = false
nat_lists_equal (x ∷ xs) (y ∷ ys) = nat_beq x y && nat_lists_equal xs ys

pub nat_lists_equal_iff : (xs ys : List ℕ) → (nat_lists_equal xs ys ≡ true) ↔ (xs ≡ ys)
nat_lists_equal_iff [] [] = (λ h. refl, λ h. refl)
nat_lists_equal_iff [] (y ∷ ys) = (λ h. absurd cc, λ h. absurd cc)
nat_lists_equal_iff (x ∷ xs) [] = (λ h. absurd cc, λ h. absurd cc)
nat_lists_equal_iff (x ∷ xs) (y ∷ ys) = ground (arith, nat_lists_equal_iff xs ys)
