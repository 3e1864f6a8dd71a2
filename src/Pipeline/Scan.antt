-- ===== src/Pipeline/Scan.antt =====
-- When a numbered loop over a list reports nothing.
use mathlib.Core.List.{map-append}
use mathlib.Core.Logic.{⊎_elim}
use mathlib.Core.List.Memᴰ
use rtlfarm.Prelude.{
  ℕ, ◌+◌, String, ◌≡◌, refl, sym, subst, inl, inr, ◌↔◌, Bool, false, List, [], ◌∷◌, ◌++◌, map, Memᴰ,
  Memᴰ-concat, Distinct, All, contains, contains_iff, Eq, not, arith,
}
use rtlfarm.Pipeline.Rules.{Message, Issues, report, scan}

pub report_iff :
    (b : Bool) (pointer : String) (m : Message) → (report b pointer m ≡ []) ↔ (b ≡ false)
unfolding report
report_iff b pointer m = ground arith

pub append-nil_iff {ℓ} : {A : Type ℓ} (xs ys : List A) → (xs ++ ys ≡ []) ↔ ((xs ≡ []) × (ys ≡ []))
append-nil_iff [] ys = (λ e. (refl, e), λ e. e.1)
append-nil_iff (x ∷ xs) ys = (λ e. absurd (cc e), λ e. absurd (cc (e.0)))

pub report-nil {κ} :
    {P : Type κ} (b : Bool) (pointer : String) (m : Message)
    → (b ≡ false) ↔ P
    → (report b pointer m ≡ []) ↔ P
report-nil b pointer m h = let r = report_iff b pointer m in (λ e. h.0 (r.0 e), λ q. r.1 (h.1 q))

pub append-nil {κ μ} :
    {P : Type κ} {Q : Type μ} (xs ys : Issues)
    → (xs ≡ []) ↔ P
    → (ys ≡ []) ↔ Q
    → (xs ++ ys ≡ []) ↔ (P × Q)
append-nil xs ys hx hy =
    let split = append-nil_iff xs ys in
    (λ e. (hx.0 (split.0 e).0, hy.0 (split.0 e).1), λ h. split.1 (hx.1 h.0, hy.1 h.1))

pub trans_iff {κ μ ν} : {P : Type κ} {Q : Type μ} {R : Type ν} → P ↔ Q → Q ↔ R → P ↔ R
trans_iff f g = (λ p. g.0 (f.0 p), λ r. f.1 (g.1 r))

module _ {ℓ} {A : Type ℓ} where
  -- Each item with the items before it.
  abbrev pub AllAfter {κ} : (List A → A → Type κ) → List A → List A → Type κ
  AllAfter P before [] = Unit
  AllAfter P before (x ∷ xs) = P before x × AllAfter P (before ++ x ∷ []) xs

  pub scan_iff {κ} :
      (f : ℕ → List A → A → Issues) (P : List A → A → Type κ)
      → ((j : ℕ) (before : List A) (x : A) → (f j before x ≡ []) ↔ P before x)
      → (j : ℕ) (before xs : List A) → (scan f j before xs ≡ []) ↔ AllAfter P before xs
  unfolding scan
  scan_iff f P h j before [] = (λ _. tt, λ _. refl)
  scan_iff f P h j before (x ∷ xs) =
      let split = append-nil_iff (f j before x) (scan f (j + 1) (before ++ x ∷ []) xs) in
      let rest = scan_iff f P h (j + 1) (before ++ x ∷ []) xs in
      let here = h j before x in
      (λ e. (here.0 (split.0 e).0, rest.0 (split.0 e).1), λ a. split.1 (here.1 a.0, rest.1 a.1))

  pub AllAfter-both {κ μ} :
      (P : List A → A → Type κ) (Q : A → Type μ) (before xs : List A)
      → AllAfter (λ b x. P b x × Q x) before xs ↔ (AllAfter P before xs × All Q xs)
  AllAfter-both P Q before [] = (λ _. (tt, tt), λ _. tt)
  AllAfter-both P Q before (x ∷ xs) =
      let rest = AllAfter-both P Q (before ++ x ∷ []) xs in
      (
        λ a. let r = rest.0 a.1 in ((a.0.0, r.0), (a.0.1, r.1)),
        λ (a, q). ((a.0, q.0), rest.1 (a.1, q.1)),
      )

  pub AllAfter-All {κ} :
      (Q : A → Type κ) (before xs : List A) → AllAfter (λ _ x. Q x) before xs ↔ All Q xs
  AllAfter-All Q before [] = (λ _. tt, λ _. tt)
  AllAfter-All Q before (x ∷ xs) =
      let rest = AllAfter-All Q (before ++ x ∷ []) xs in
      (λ a. (a.0, rest.0 a.1), λ a. (a.0, rest.1 a.1))

  abbrev pub IsNew : List A → A → Type ℓ
  IsNew before x = ¬ Memᴰ x before

  All-IsNew_concat :
      (before xs : List A) (x : A)
      → All (IsNew (before ++ x ∷ [])) xs ↔ (All (IsNew before) xs × (¬ Memᴰ x xs))
  All-IsNew_concat before [] x = (λ _. (tt, Memᴰ.not-nil), λ _. tt)
  All-IsNew_concat before (y ∷ ys) x =
      let rest = All-IsNew_concat before ys x in
      let one = Memᴰ-concat y x before in
      (
        λ (a, later). (
          (λ m. a (one.1 (inl m)), (rest.0 later).0),
          λ m. ⊎_elim (λ e. a (one.1 (inr (sym e)))) (rest.0 later).1 (Memᴰ.cases_cons m),
        ),
        λ ((a, later), n). (
          λ m. ⊎_elim a (λ e. n (Memᴰ.head (sym e))) (one.0 m),
          rest.1 (later, λ m. n (Memᴰ.tail m)),
        ),
      )

  AllAfter-IsNew :
      (before xs : List A) → AllAfter IsNew before xs ↔ (All (IsNew before) xs × Distinct xs)
  AllAfter-IsNew before [] = (λ _. (tt, tt), λ _. tt)
  AllAfter-IsNew before (x ∷ xs) =
      let rest = AllAfter-IsNew (before ++ x ∷ []) xs in
      let one = All-IsNew_concat before xs x in
      (
        λ (n, a).
            let (later, distinct) = rest.0 a in
            let (new, absent) = one.0 later in ((n, new), (absent, distinct)),
        λ ((n, new), (absent, distinct)). (n, rest.1 (one.1 (new, absent), distinct)),
      )

  All-IsNew_nil : (xs : List A) → All (IsNew []) xs
  All-IsNew_nil [] = tt
  All-IsNew_nil (x ∷ xs) = (Memᴰ.not-nil, All-IsNew_nil xs)

  pub AllAfter-Distinct : (xs : List A) → AllAfter IsNew [] xs ↔ Distinct xs
  AllAfter-Distinct xs =
      let both = AllAfter-IsNew [] xs in (λ a. (both.0 a).1, λ d. both.1 (All-IsNew_nil xs, d))

  -- A test that fails exactly on new items.
  pub contains-IsNew :
      ⦃e : Eq A⦄ (before : List A) (x : A) → (contains before x ≡ false) ↔ IsNew before x
  contains-IsNew before x = ground (arith, contains_iff before x)

  pub not-contains_iff :
      ⦃e : Eq A⦄ (xs : List A) (x : A) → (not (contains xs x) ≡ false) ↔ Memᴰ x xs
  not-contains_iff xs x = ground (arith, contains_iff xs x)

module _ {ℓ κ} {A : Type ℓ} {B : Type κ} (g : A → B) where
  pub AllAfter-map :
      (before xs : List A)
      → AllAfter (λ b x. IsNew (map g b) (g x)) before xs ↔ AllAfter IsNew (map g before) (map g xs)
  AllAfter-map before [] = (λ _. tt, λ _. tt)
  AllAfter-map before (x ∷ xs) =
      let shape = λ (l : List B).
        AllAfter (λ b y. IsNew (map g b) (g y)) (before ++ x ∷ []) xs
        ↔ AllAfter IsNew l (map g xs) in
      let rest = subst shape (map-append g before (x ∷ [])) (AllAfter-map (before ++ x ∷ []) xs) in
      (λ a. (a.0, rest.0 a.1), λ a. (a.0, rest.1 a.1))
