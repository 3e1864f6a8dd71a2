-- ===== src/Sorting/Selected.antt =====
-- A selection of a sorted list is the selection, sorted.
use mathlib.Core.List.Memᴰ
use mathlib.Core.Logic.{⊎_elim}
use rtlfarm.Prelude.{
  ◌≡◌, refl, sym, ap, ◌∙◌, inl, inr, Bool, true, false, List, [], ◌∷◌, Memᴰ, select, mem-select,
  Bool-cases, length, suc, arith,
}
use rtlfarm.Sorting.{place, sorted, mem-place}

module _ {ℓ} {A : Type ℓ} (leq : A → A → Bool) where
  length-place : (x : A) (xs : List A) → length (place leq x xs) ≡ length (x ∷ xs)
  unfolding place
  length-place x [] = refl
  length-place x (y ∷ ys) = ground (arith, length-place x ys)

  pub length-sorted : (xs : List A) → length (sorted leq xs) ≡ length xs
  unfolding sorted
  length-sorted [] = refl
  length-sorted (x ∷ xs) = length-place x (sorted leq xs) ∙ ap suc (length-sorted xs)

-- A total preorder.
module _ {ℓ} {A : Type ℓ} (leq : A → A → Bool)
    (total : (a b : A) → leq a b ≡ false → leq b a ≡ true)
    (trans : (a b c : A) → leq a b ≡ true → leq b c ≡ true → leq a c ≡ true) where
  -- Each value is at most those behind it.
  abbrev IsAscending : List A → Type ℓ
  IsAscending [] = Unit
  IsAscending (x ∷ xs) = ((y : A) → Memᴰ y xs → leq x y ≡ true) × IsAscending xs

  place-IsAscending : (x : A) (xs : List A) → IsAscending xs → IsAscending (place leq x xs)
  unfolding place
  place-IsAscending x [] h = (λ y m. absurd (Memᴰ.not-nil m), tt)
  place-IsAscending x (y ∷ ys) h = elim (Bool-cases (leq x y)) [
    | inl le ↦
        rw (le, place)
          (
            λ z m.
                ⊎_elim (λ e. ap (leq x) e ∙ le) (λ k. trans x y z le (h.0 z k)) (Memᴰ.cases_cons m),
            h,
          )
    | inr gt ↦
        rw (gt, place)
          (
            λ z m. ⊎_elim (λ e. ap (leq y) e ∙ total x y gt) (h.0 z) ((mem-place leq z x ys).0 m),
            place-IsAscending x ys h.1,
          )
  ]

  sorted-IsAscending : (xs : List A) → IsAscending (sorted leq xs)
  unfolding sorted
  sorted-IsAscending [] = tt
  sorted-IsAscending (x ∷ xs) = place-IsAscending x (sorted leq xs) (sorted-IsAscending xs)

  place_first :
      (x : A) (xs : List A) → ((y : A) → Memᴰ y xs → leq x y ≡ true) → place leq x xs ≡ x ∷ xs
  unfolding place
  place_first x [] h = refl
  place_first x (y ∷ ys) h = rw (h y (Memᴰ.head refl), place) refl

  module _ (p : A → Bool) where
    select-place :
        (x : A) (xs : List A)
        → IsAscending xs
        → p x ≡ true
        → select p (place leq x xs) ≡ place leq x (select p xs)
    unfolding place
    select-place x [] h fits = rw fits refl
    select-place x (y ∷ ys) h fits = elim (Bool-cases (leq x y)) [
      | inl le ↦
          rw (le, place, fits)
            (sym (
              place_first x (select p (y ∷ ys)) (λ z m.
                ⊎_elim (λ e. ap (leq x) e ∙ le) (λ k. trans x y z le (h.0 z k))
                  (Memᴰ.cases_cons ((mem-select p z (y ∷ ys)).0 m).0))))
      | inr gt ↦ elim (Bool-cases (p y)) [
        | inl in_it ↦ rw (gt, place, in_it, gt) (ap (λ l. y ∷ l) (select-place x ys h.1 fits))
        | inr out ↦ rw (gt, place, out) (select-place x ys h.1 fits)
      ]
    ]

    select-place_skipped :
        (x : A) (xs : List A) → p x ≡ false → select p (place leq x xs) ≡ select p xs
    unfolding place
    select-place_skipped x [] skipped = rw skipped refl
    select-place_skipped x (y ∷ ys) skipped = ground (arith, select-place_skipped x ys skipped)

    pub select-sorted : (xs : List A) → select p (sorted leq xs) ≡ sorted leq (select p xs)
    unfolding sorted
    select-sorted [] = refl
    select-sorted (x ∷ xs) = elim (Bool-cases (p x)) [
      | inl fits ↦
          select-place x (sorted leq xs) (sorted-IsAscending xs) fits
          ∙ ap (place leq x) (select-sorted xs)
          ∙ rw fits refl
      | inr skipped ↦
          select-place_skipped x (sorted leq xs) skipped ∙ select-sorted xs ∙ rw skipped refl
    ]
