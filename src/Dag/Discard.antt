-- ===== src/Dag/Discard.antt =====
-- `remaining.remove(ready)` on a list of distinct names.
use mathlib.Core.List.Memᴰ
use mathlib.Core.Logic.{⊎_elim}
use rtlfarm.Prelude.{
  suc, String, ◌≡◌, sym, subst, ◌∙◌, ◌≢◌, inl, inr, ◌↔◌, List, [], ◌∷◌, Memᴰ, Memᴰ-cons, Distinct,
  length, ◌==◌, Bool-cases, string_eq, arith,
}
use rtlfarm.Pipeline.{discard}

pub mem-discard :
    (n x : String) (xs : List String) → Distinct xs → Memᴰ x (discard n xs) ↔ (Memᴰ x xs × (x ≢ n))
mem-discard n x [] d = (λ m. absurd (Memᴰ.not-nil m), λ h. h.0)
mem-discard n x (y ∷ ys) d = elim (Bool-cases (y == n)) [
  | inl same ↦
      let e = (string_eq.beq_iff y n).0 same in
      rw same (
        λ m. (Memᴰ.tail m, λ xn. d.0 (subst (λ k. Memᴰ k ys) (xn ∙ sym e) m)),
        λ h. ⊎_elim (λ xy. absurd (h.1 (xy ∙ e))) (λ m. m) (Memᴰ.cases_cons h.0),
      )
  | inr other ↦ rw other (
      ground (
        arith,
        mem-discard n x ys d.1,
        Memᴰ-cons x y ys,
        Memᴰ-cons x y (discard n ys),
        string_eq.beq_iff y n,
      ))
]

pub Distinct-discard : (n : String) (xs : List String) → Distinct xs → Distinct (discard n xs)
Distinct-discard n [] d = tt
Distinct-discard n (y ∷ ys) d = elim (Bool-cases (y == n)) [
  | inl same ↦ rw same d.1
  | inr other ↦ rw other (λ m. d.0 ((mem-discard n y ys d.1).0 m).0, Distinct-discard n ys d.1)
]

pub length-discard :
    (n : String) (xs : List String) → Memᴰ n xs → length xs ≡ suc (length (discard n xs))
length-discard n [] m = absurd (Memᴰ.not-nil m)
length-discard n (y ∷ ys) m =
    ground (arith, Memᴰ-cons n y ys, string_eq.beq_iff y n, length-discard n ys)
