-- ===== src/Sorting.antt =====
-- Python's `sorted`, as an insertion sort, and the order that it uses on texts.
--
-- A sort by a key is stable: an item goes behind the items that its key does not precede.
pub mod Selected
use mathlib.Core.List.Memᴰ
use mathlib.Core.Logic.{⊎_elim}
use mathlib.Core.List.{Permᴰ}
use Prim.Native.Char.{Char, code}
use Prim.Native.Nat.{compare}
use text.Mathlib.TextEquality.{codes_equal}
use text.Mathlib.TextPositions.{compare_self}
use rtlfarm.Prelude.{
  ℕ, String, ◌≡◌, refl, sym, ap, ap₂, ◌∙◌, ◌↔◌, ◌⊎◌, inl, inr, Bool, true, false, not, ◌&&◌, ◌||◌,
  List, [], ◌∷◌, map, Memᴰ, Distinct, ltb, ◌==◌, nat_eq, if◌then◌else◌, Bool-cases, Memᴰ-cons,
  arith,
}
use rtlfarm.Ids.{codes}

-- The order of texts that `sorted` and `ORDER BY` use: by code point, from the left.
unfoldable pub precedes : List ℕ → List ℕ → Bool
precedes [] [] = false
precedes [] (d ∷ ds) = true
precedes (c ∷ cs) [] = false
precedes (c ∷ cs) (d ∷ ds) = ltb c d || (c == d && precedes cs ds)

unfoldable pub text_leq : String → String → Bool
unfolding precedes
text_leq s t = not (precedes (codes t) (codes s))

module _ {ℓ} {A : Type ℓ} (leq : A → A → Bool) where
  unfoldable pub place : A → List A → List A
  place a [] = a ∷ []
  place a (x ∷ xs) = let rest = place a xs in if leq a x then a ∷ x ∷ xs else x ∷ rest

  unfoldable pub sorted : List A → List A
  unfolding place
  sorted [] = []
  sorted (x ∷ xs) = place x (sorted xs)

  pub mem-place : (a x : A) (xs : List A) → Memᴰ a (place x xs) ↔ ((a ≡ x) ⊎ Memᴰ a xs)
  unfolding place
  mem-place a x [] = Memᴰ-cons a x []
  mem-place a x (y ∷ ys) = elim (Bool-cases (leq x y)) [
    | inl le ↦ rw (le, place) (Memᴰ-cons a x (y ∷ ys))
    | inr gt ↦
        rw (gt, place)
          (ground (arith, Memᴰ-cons a y (place x ys), Memᴰ-cons a y ys, mem-place a x ys))
  ]

  pub mem-sorted : (a : A) (xs : List A) → Memᴰ a (sorted xs) ↔ Memᴰ a xs
  unfolding sorted
  mem-sorted a [] = (λ m. m, λ m. m)
  mem-sorted a (x ∷ xs) =
      ground (arith, mem-place a x (sorted xs), mem-sorted a xs, Memᴰ-cons a x xs)

-- A sort keeps what a key tells apart.
module _ {ℓ κ} {A : Type ℓ} {K : Type κ} (leq : A → A → Bool) (key : A → K) where
  mem-map-place :
      (k : K) (x : A) (xs : List A)
      → Memᴰ k (map key (place leq x xs)) ↔ ((k ≡ key x) ⊎ Memᴰ k (map key xs))
  unfolding place
  mem-map-place k x [] = Memᴰ-cons k (key x) []
  mem-map-place k x (y ∷ ys) = elim (Bool-cases (leq x y)) [
    | inl le ↦ rw (le, place) (Memᴰ-cons k (key x) (map key (y ∷ ys)))
    | inr gt ↦
        rw (gt, place)
          (ground (
            arith,
            Memᴰ-cons k (key y) (map key (place leq x ys)),
            Memᴰ-cons k (key y) (map key ys),
            mem-map-place k x ys,
          ))
  ]

  place-Distinct :
      (x : A) (xs : List A)
      → (¬ Memᴰ (key x) (map key xs))
      → Distinct (map key xs)
      → Distinct (map key (place leq x xs))
  unfolding place
  place-Distinct x [] new d = (Memᴰ.not-nil, tt)
  place-Distinct x (y ∷ ys) new d = elim (Bool-cases (leq x y)) [
    | inl le ↦ rw (le, place) (new, d)
    | inr gt ↦
        rw (gt, place)
          (
            λ m. ⊎_elim (λ same. new (Memᴰ.head (sym same))) d.0 ((mem-map-place (key y) x ys).0 m),
            place-Distinct x ys (λ m. new (Memᴰ.tail m)) d.1,
          )
  ]

  mem-map-sorted : (k : K) (xs : List A) → Memᴰ k (map key (sorted leq xs)) ↔ Memᴰ k (map key xs)
  unfolding sorted
  mem-map-sorted k [] = (λ m. m, λ m. m)
  mem-map-sorted k (x ∷ xs) = ground (
    arith,
    mem-map-place k x (sorted leq xs),
    mem-map-sorted k xs,
    Memᴰ-cons k (key x) (map key xs),
  )

  pub sorted-Distinct : (xs : List A) → Distinct (map key xs) → Distinct (map key (sorted leq xs))
  unfolding sorted
  sorted-Distinct [] d = tt
  sorted-Distinct (x ∷ xs) d =
      place-Distinct x (sorted leq xs) (λ m. d.0 ((mem-map-sorted (key x) xs).0 m))
        (sorted-Distinct xs d.1)

-- A total order that tells its values apart.
pub record IsOrder {ℓ} {A : Type ℓ} (leq : A → A → Bool) : Type ℓ where
  pub total : (a b : A) → leq a b ≡ false → leq b a ≡ true
  pub trans : (a b c : A) → leq a b ≡ true → leq b c ≡ true → leq a c ≡ true
  pub antisym : (a b : A) → leq a b ≡ true → leq b a ≡ true → a ≡ b

module _ {ℓ} {A : Type ℓ} (leq : A → A → Bool) (order : IsOrder leq) where
  place_lower :
      (a b : A) (xs : List A)
      → leq a b ≡ true
      → leq b a ≡ false
      → place leq a (place leq b xs) ≡ place leq b (place leq a xs)
  unfolding place
  place_lower a b [] le gt = rw (le, gt) refl
  place_lower a b (x ∷ xs) le gt = elim (Bool-cases (leq b x)) [
    | inl bx ↦ let ax = order.trans a b x le bx in rw (bx, ax, le, gt, bx) refl
    | inr bx ↦ elim (Bool-cases (leq a x)) [
      | inl ax ↦ rw (bx, ax, gt, bx) refl
      | inr ax ↦ rw (bx, ax, bx) (ap (λ l. x ∷ l) (place_lower a b xs le gt))
    ]
  ]

  -- Two values can be put in place in either order.
  place_comm : (a b : A) (xs : List A) → place leq a (place leq b xs) ≡ place leq b (place leq a xs)
  place_comm a b xs = elim (Bool-cases (leq a b)) [
    | inl ab ↦ elim (Bool-cases (leq b a)) [
      | inl ba ↦
          let same = order.antisym a b ab ba in
          ap₂ (λ x y. place leq x (place leq y xs)) same (sym same)
      | inr ba ↦ place_lower a b xs ab ba
    ]
    | inr ab ↦ sym (place_lower b a xs (order.total a b ab) ab)
  ]

  pub sorted-Perm : {xs ys : List A} → Permᴰ xs ys → sorted leq xs ≡ sorted leq ys
  unfolding sorted
  sorted-Perm Permᴰ.nil = refl
  sorted-Perm (Permᴰ.cons e d) = ap₂ (place leq) e (sorted-Perm d)
  sorted-Perm (Permᴰ.swap {l = l} e₁ e₂) =
      place_comm _ _ (sorted leq l) ∙ ap₂ (λ x y. place leq x (place leq y (sorted leq l))) e₂ e₁
  sorted-Perm (Permᴰ.trans d₁ d₂) = sorted-Perm d₁ ∙ sorted-Perm d₂

precedes_asym : (s t : List ℕ) → precedes s t ≡ true → precedes t s ≡ false
unfolding precedes
precedes_asym [] [] h = refl
precedes_asym [] (d ∷ ds) h = refl
precedes_asym (c ∷ cs) [] h = absurd cc
precedes_asym (c ∷ cs) (d ∷ ds) h = ground (arith, precedes_asym cs ds)

precedes_total : (s t : List ℕ) → precedes s t ≡ false → precedes t s ≡ false → s ≡ t
unfolding precedes
precedes_total [] [] h h' = refl
precedes_total [] (d ∷ ds) h h' = absurd cc
precedes_total (c ∷ cs) [] h h' = absurd cc
precedes_total (c ∷ cs) (d ∷ ds) h h' =
    ap₂ (λ x xs. x ∷ xs) (ground arith) (precedes_total cs ds (ground arith) (ground arith))

precedes-nil : (s : List ℕ) → precedes s [] ≡ false
unfolding precedes
precedes-nil [] = refl
precedes-nil (c ∷ cs) = refl

not_precedes_trans :
    (s t u : List ℕ) → precedes t s ≡ false → precedes u t ≡ false → precedes u s ≡ false
unfolding precedes
not_precedes_trans [] t u h h' = precedes-nil u
not_precedes_trans (c ∷ cs) [] u h h' = absurd cc
not_precedes_trans (c ∷ cs) (d ∷ ds) [] h h' = absurd cc
not_precedes_trans (c ∷ cs) (d ∷ ds) (e ∷ es) h h' = ground (arith, not_precedes_trans cs ds es)

code_inj : (c d : Char) → code c ≡ code d → c ≡ d
code_inj c d h = codes_equal c d (ap (compare (code c)) (sym h) ∙ compare_self (code c))

head-eq : {x y : ℕ} {xs ys : List ℕ} → x ∷ xs ≡ y ∷ ys → x ≡ y
head-eq h = cc

tail-eq : {x y : ℕ} {xs ys : List ℕ} → x ∷ xs ≡ y ∷ ys → xs ≡ ys
tail-eq h = cc

codes_inj : (s t : String) → codes s ≡ codes t → s ≡ t
codes_inj String.[] String.[] h = refl
codes_inj String.[] (String.◌∷◌ d t) h = absurd cc
codes_inj (String.◌∷◌ c s) String.[] h = absurd cc
codes_inj (String.◌∷◌ c s) (String.◌∷◌ d t) h =
    ap₂ String.◌∷◌ (code_inj c d (head-eq h)) (codes_inj s t (tail-eq h))

pub text_leq-IsOrder : IsOrder text_leq
unfolding text_leq
text_leq-IsOrder = record {
  total = λ a b h. ground (arith, precedes_asym (codes b) (codes a));
  trans = λ a b c h h'. ground (arith, not_precedes_trans (codes a) (codes b) (codes c));
  antisym =
      λ a b h h'. codes_inj a b (precedes_total (codes a) (codes b) (ground arith) (ground arith));
}
