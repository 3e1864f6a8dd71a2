-- ===== src/Models/Seeds/Ranges.antt =====
-- What `_expand_seed_range` makes of a range.
use mathlib.Core.List.Memᴰ
use rtlfarm.Prelude.{
  String, ◌⊎◌, inl, inr, subst, ◌==◌, Bool-cases, string_eq, ℕ, zero, suc, ◌+◌, ◌^◌, ◌≤◌, ◌<◌, ◌≡◌,
  refl, sym, ap, ◌∙◌, ◌↔◌, Bool, true, false, Option, none, some, List, Memᴰ, Memᴰ-cons, Distinct,
  leb, ltb, length, arith,
}
use rtlfarm.Models.{are_seeds, max_seeds_per_target}
use rtlfarm.Models.Seeds.{
  Value, int, mapping, Entries, empty, entry, get, seeds, range, positive, only_n_base, from_base,
  from_n, from_entries, expand_seed_range,
}

length-range : (base n : ℕ) → length (range base n) ≡ n
unfolding range
length-range base zero = refl
length-range base (suc n) = ap suc (length-range (suc base) n)

Memᴰ-range : (x base n : ℕ) → Memᴰ x (range base n) ↔ ((base ≤ x) × (x < base + n))
unfolding range
Memᴰ-range x base zero = (λ m. absurd (Memᴰ.not-nil m), λ (l, h). absurd (omega arith))
Memᴰ-range x base (suc n) =
    ground (arith, Memᴰ-range x (suc base) n, Memᴰ-cons x base (range (suc base) n))

range-Distinct : (base n : ℕ) → Distinct (range base n)
unfolding range
range-Distinct base zero = tt
range-Distinct base (suc n) = (
  λ m. let h = ((Memᴰ-range base (suc base) n).0 m).0 in omega arith,
  range-Distinct (suc base) n,
)

range-are_seeds :
    (base n : ℕ) → 1 ≤ n → 1 ≤ base → (are_seeds (range base n) ≡ true) ↔ (base + n ≤ 2 ^ 31)
unfolding range
range-are_seeds base zero h h' = absurd (omega arith)
range-are_seeds base (suc zero) h h' = ground arith
range-are_seeds base (suc (suc n)) h h' = ground (arith, range-are_seeds (suc base) (suc n))

-- The test on the keys says that every key that has a value is n or base.
only_n_base_iff :
    (d : Entries)
    → (only_n_base d ≡ true)
      ↔ ((k : String) (v : Value) → get d k ≡ some v → (k ≡ "n") ⊎ (k ≡ "base"))
unfolding only_n_base get
only_n_base_iff empty = (λ h k v found. absurd cc, λ h. refl)
only_n_base_iff (entry j w rest) =
    let n = string_eq.beq_iff j "n" in
    let base = string_eq.beq_iff j "base" in
    (
      λ h k v found. elim (Bool-cases (j == k)) [
        | inl same ↦ ground (arith, n, base, string_eq.beq_iff j k)
        | inr other ↦ (only_n_base_iff rest).0 (ground arith) k v (rw (other, get) at found)
      ],
      λ h.
          let here : (j ≡ "n") ⊎ (j ≡ "base") =
            h j w (rw ((string_eq.beq_iff j j).1 refl, get) refl) in
          let others : only_n_base rest ≡ true = (only_n_base_iff rest).1 (λ k v found.
            elim (Bool-cases (j == k)) [
              | inl same ↦
                  subst (λ x. (x ≡ "n") ⊎ (x ≡ "base")) ((string_eq.beq_iff j k).0 same) here
              | inr other ↦ h k v (rw (other, get) found)
            ]) in
          ground (arith, n, base),
    )

-- A range that the validator accepts: the keys are n and base and no other, and both are in bounds.
pub record IsRange (d : Entries) (n base : ℕ) : Type 0 where
  pub keys : (k : String) (v : Value) → get d k ≡ some v → (k ≡ "n") ⊎ (k ≡ "base")
  pub n_is : get d "n" ≡ some (int n)
  pub base_is : get d "base" ≡ some (int base)
  pub n_bounds : (1 ≤ n) × (n ≤ max_seeds_per_target)
  pub base_bound : 1 ≤ base

positive-eq-some : (v : Value) (n : ℕ) → positive v ≡ some n → (v ≡ int n) × (1 ≤ n)
unfolding positive
positive-eq-some (int m) n h = ground arith
positive-eq-some (Value.negative m) n h = ground arith
positive-eq-some (Value.boolean b) n h = ground arith
positive-eq-some (Value.other s) n h = ground arith
positive-eq-some (mapping d) n h = ground arith

seeds_inj : {a b : List ℕ} → seeds a ≡ seeds b → a ≡ b
seeds_inj h = cc

from_base-eq-seeds :
    (n : ℕ) (o : Option ℕ) (s : List ℕ)
    → from_base n o ≡ seeds s
    → (base : ℕ) × (o ≡ some base) × (s ≡ range base n)
unfolding from_base
from_base-eq-seeds n none s h = absurd cc
from_base-eq-seeds n (some base) s h = (base, refl, sym (seeds_inj h))

from_n-eq-seeds :
    (o : Option ℕ) (v : Value) (s : List ℕ)
    → from_n o v ≡ seeds s
    → (n : ℕ) × (base : ℕ) × (o ≡ some n)
      × (positive v ≡ some base)
      × (n ≤ max_seeds_per_target)
      × (s ≡ range base n)
unfolding from_n
from_n-eq-seeds none v s h = absurd cc
from_n-eq-seeds (some n) v s h =
    let small : ltb max_seeds_per_target n ≡ false = ground arith in
    let h' : from_base n (positive v) ≡ seeds s = ground arith in
    let (base, e, s_is) = from_base-eq-seeds n (positive v) s h' in
    (n, base, refl, e, (ground arith), s_is)

from_entries-eq-seeds :
    (exact : Bool) (n base : Option Value) (s : List ℕ)
    → from_entries exact n base ≡ seeds s
    → (v : Value) × (w : Value) × (exact ≡ true)
      × (n ≡ some v)
      × (base ≡ some w)
      × (from_n (positive v) w ≡ seeds s)
unfolding from_entries
from_entries-eq-seeds true (some v) (some w) s h = (v, w, refl, refl, refl, h)
from_entries-eq-seeds true (some v) none s h = absurd cc
from_entries-eq-seeds true none base s h = absurd cc
from_entries-eq-seeds false n base s h = absurd cc

expanded-IsRange :
    (d : Entries) (s : List ℕ)
    → expand_seed_range (mapping d) ≡ seeds s
    → (n : ℕ) × (base : ℕ) × IsRange d n base × (s ≡ range base n)
unfolding expand_seed_range
expanded-IsRange d s h =
    let (v, w, exact, get_n, get_base, h₁) = from_entries-eq-seeds (only_n_base d) _ _ s h in
    let (n, base, pos_n, pos_base, small, s_is) = from_n-eq-seeds (positive v) w s h₁ in
    let (v_is, n_low) = positive-eq-some v n pos_n in
    let (w_is, base_low) = positive-eq-some w base pos_base in
    (
      n,
      base,
      record {
        keys = (only_n_base_iff d).0 exact;
        n_is = get_n ∙ ap some v_is;
        base_is = get_base ∙ ap some w_is;
        n_bounds = (n_low, small);
        base_bound = base_low;
      },
      s_is,
    )

IsRange-expanded :
    (d : Entries) (n base : ℕ)
    → IsRange d n base
    → expand_seed_range (mapping d) ≡ seeds (range base n)
unfolding expand_seed_range from_entries from_n positive from_base
IsRange-expanded d n base h =
    let low : leb 1 n ≡ true = ground (arith, h.n_bounds.0) in
    let high : ltb max_seeds_per_target n ≡ false = ground (arith, h.n_bounds.1) in
    let low' : leb 1 base ≡ true = ground (arith, h.base_bound) in
    rw ((only_n_base_iff d).1 h.keys, h.n_is, h.base_is, low, high, low') refl

-- `_expand_seed_range` turns a mapping into seeds exactly when its keys are n and base and no other,
-- n is an integer from 1 to 10,000 and base an integer of at least 1. The seeds are then n
-- different ones, those from base to base + n - 1, and they pass the bound that each seed has when
-- they are parsed exactly when base + n is at most 2 ^ 31.
pub expand_seed_range_lem :
    (d : Entries)
    → ((n base : ℕ) → IsRange d n base → expand_seed_range (mapping d) ≡ seeds (range base n))
      × ((s : List ℕ)
          → expand_seed_range (mapping d) ≡ seeds s
          → (n : ℕ) × (base : ℕ) × IsRange d n base
            × (length s ≡ n)
            × Distinct s
            × ((x : ℕ) → Memᴰ x s ↔ ((base ≤ x) × (x < base + n)))
            × ((are_seeds s ≡ true) ↔ (base + n ≤ 2 ^ 31)))
expand_seed_range_lem d = (
  IsRange-expanded d,
  λ s h.
      let (n, base, r, s_is) = expanded-IsRange d s h in
      rw s_is (
        n,
        base,
        r,
        length-range base n,
        range-Distinct base n,
        (λ x. Memᴰ-range x base n),
        range-are_seeds base n r.n_bounds.0 r.base_bound,
      ),
)
