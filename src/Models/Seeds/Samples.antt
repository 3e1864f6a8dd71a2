-- ===== src/Models/Seeds/Samples.antt =====
-- Runs of `_expand_seed_range`.
use rtlfarm.Prelude.{sym, inl, inr, Bool-cases, ◌==◌, string_eq, ◌≡◌, refl, true, arith, string_eq}
use rtlfarm.Models.Seeds.{
  Value, int, boolean, mapping, Entries, empty, entry, get, seeds, unchanged, wrong_keys, bad_n,
  bad_base, range, only_n_base, expand_seed_range,
}
use rtlfarm.Models.Seeds.Ranges.{IsRange, expand_seed_range_lem}

abbrev three : Entries
three = entry "base" (int 40) (entry "n" (int 3) empty)

three-IsRange : IsRange three 3 40
unfolding get only_n_base
three-IsRange = record {
  keys = λ k v found. elim (Bool-cases ("base" == k)) [
    | inl base ↦ inr (sym ((string_eq.beq_iff "base" k).0 base))
    | inr other ↦ elim (Bool-cases ("n" == k)) [
      | inl n ↦ inl (sym ((string_eq.beq_iff "n" k).0 n))
      | inr neither ↦ absurd (let h = rw (other, neither) at found in cc)
    ]
  ];
  n_is = refl;
  base_is = refl;
  n_bounds = (omega arith, omega arith);
  base_bound = omega arith;
}

-- A `bool` is no count, seed 0 is reserved, and a list is left to the parser.
true_seeds :
    expand_seed_range (mapping (entry "n" (boolean true) (entry "base" (int 1) empty))) ≡ bad_n
unfolding expand_seed_range
true_seeds = refl

zero_base : expand_seed_range (mapping (entry "n" (int 1) (entry "base" (int 0) empty))) ≡ bad_base
unfolding expand_seed_range
zero_base = refl

one_key : expand_seed_range (mapping (entry "n" (int 1) empty)) ≡ wrong_keys
unfolding expand_seed_range
one_key = refl

listed : expand_seed_range (Value.other "[1, 2]") ≡ unchanged (Value.other "[1, 2]")
unfolding expand_seed_range
listed = refl

expand_seed_range_lem_example : expand_seed_range (mapping three) ≡ seeds (range 40 3)
expand_seed_range_lem_example = (expand_seed_range_lem three).0 3 40 three-IsRange
