-- ===== src/Wire.antt =====
-- src/rtlfarm/control/wire.py: the path of a submitted file.
mod Samples
use rtlfarm.Prelude.{
  ℕ, String, ◌≡◌, refl, sym, ap, ◌∙◌, inl, inr, Bool, true, false, not, ◌&&◌, ◌||◌, List, [], ◌∷◌,
  contains, Option, none, some, some_inj, beq-false, if◌then◌else◌, ◌==◌, Bool-cases, nat_eq,
  string_eq, arith,
}
use Prim.Native.Char.{code}
use rtlfarm.Ids.{codes}
use rtlfarm.Pack.Paths.{split, proper, parts, is_absolute, bad_pattern}

-- segment in ("", ".", "..")
abbrev pub is_dots : String → Bool
is_dots segment = segment == "" || (segment == "." || segment == "..")

abbrev pub any_dots : List String → Bool
any_dots [] = false
any_dots (w ∷ ws) = is_dots w || any_dots ws

-- `none` is the ValueError of either test.
unfoldable pub pack_relative : String → Option String
unfolding split
pack_relative value =
    if contains (codes value) b'\\' || contains (codes value) 0
    then none
    else if any_dots (split value)
    then none
    else some value

or_false : (a b : Bool) → a || b ≡ false → (a ≡ false) × (b ≡ false)
or_false a b h = ground arith

proper-any_dots :
    (ws : List String) → any_dots ws ≡ false → (proper ws ≡ ws) × (contains ws ".." ≡ false)
proper-any_dots [] h = (refl, refl)
proper-any_dots (w ∷ ws) h =
    let (here, rest) = or_false (is_dots w) (any_dots ws) h in
    let (empty, dots) = or_false (w == "") (w == "." || w == "..") here in
    let (one, two) = or_false (w == ".") (w == "..") dots in
    let (same, none') = proper-any_dots ws rest in
    (
      rw (empty, one) (ap (λ l. w ∷ l) same),
      elim (Bool-cases (".." == w)) [
        | inl dots' ↦ absurd (beq-false w ".." two (sym ((string_eq.beq_iff ".." w).0 dots')))
        | inr other ↦ rw other none'
      ],
    )

true-ne-false : true ≡ false → ⊥
true-ne-false h = cc

none-ne-some : {w : String} → none ≡ some w → ⊥
none-ne-some h = cc

not_absolute : (value : String) → any_dots (split value) ≡ false → is_absolute value ≡ false
unfolding split
not_absolute String.[] h = refl
not_absolute (String.◌∷◌ c s) h = elim (Bool-cases (code c == b'/')) [
  | inl slash ↦ absurd (true-ne-false (rw (slash, split) at h))
  | inr other ↦ other
]

-- A path that the request accepts is kept as it is; its segments are all the parts that a path object has
-- of it, so none is dropped or normalised behind the test; and it is one that `_bad_pattern` has
-- nothing against.
pub pack_relative_lem :
    (value path : String)
    → pack_relative value ≡ some path
    → (path ≡ value) × (parts value ≡ split value) × (bad_pattern value ≡ none)
unfolding pack_relative parts bad_pattern
pack_relative_lem value path h =
    elim (Bool-cases (contains (codes value) b'\\' || contains (codes value) 0)) [
      | inl bad ↦ absurd (none-ne-some (rw (bad, pack_relative) at h))
      | inr clean ↦ elim (Bool-cases (any_dots (split value))) [
        | inl bad ↦ absurd (none-ne-some (rw (clean, pack_relative, bad) at h))
        | inr raw ↦
            let (slashes, _) =
              or_false (contains (codes value) b'\\') (contains (codes value) 0) clean in
            let (same, up) = proper-any_dots (split value) raw in
            let relative = not_absolute value raw in
            let no_parent : contains (parts value) ".." ≡ false =
              ap (λ l. contains l "..") same ∙ up in
            (
              sym (some_inj (rw (clean, pack_relative, raw) at h)),
              same,
              rw (slashes, bad_pattern, relative, no_parent) refl,
            )
      ]
    ]
