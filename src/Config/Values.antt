-- ===== src/Config/Values.antt =====
-- What a value of each kind is, and that a value that is accepted is one.
use rtlfarm.Prelude.{
  String, ◌≡◌, sym, ap, ◌∙◌, ◌⊎◌, inl, inr, Bool, true, all, All, map, List, [], ◌∷◌, some,
  Option-cases, ok, ◌>>=◌, >>=-eq-ok, ok_inj, string_eq, arith,
}
use rtlfarm.Config.Fields.{
  Kind, bool_kind, int_kind, float_kind, str_kind, optional_str_kind, float_tuple_kind,
}
use rtlfarm.Config.Layers.{
  Numbers, Scalar, absent, boolean, integer, floating, text, other, Value, one, many, is_number,
  fits, to_float, to_floats, convert,
}

module _ (n : Numbers)
    (finite_ints : (i : n.Int) (x : n.Float) → n.float_of_int i ≡ some x → n.finite x ≡ true) where
  -- The values of a kind, as the object holds them.
  abbrev pub IsOf : Kind → Value n → Type 0
  IsOf bool_kind v = (b : Bool) × (v ≡ one (boolean b))
  IsOf int_kind v = (i : n.Int) × (v ≡ one (integer i))
  IsOf float_kind v = (x : n.Float) × (v ≡ one (floating x)) × (n.finite x ≡ true)
  IsOf str_kind v = (s : String) × (v ≡ one (text s))
  IsOf optional_str_kind v = (v ≡ one absent) ⊎ ((s : String) × (v ≡ one (text s)))
  IsOf float_tuple_kind v =
      (xs : List n.Float) × (v ≡ many (map floating xs)) × All (λ x. n.finite x ≡ true) xs

  to_float_lem :
      (s r : Scalar n)
      → is_number n s ≡ true
      → to_float n s ≡ ok r
      → (x : n.Float) × (r ≡ floating x) × (n.finite x ≡ true)
  unfolding to_float
  to_float_lem absent r number h = absurd cc
  to_float_lem (boolean b) r number h = absurd cc
  to_float_lem (text s) r number h = absurd cc
  to_float_lem other r number h = absurd cc
  to_float_lem (floating x) r number h = (x, sym (ok_inj h), number)
  to_float_lem (integer i) r number h = elim (Option-cases (n.float_of_int i)) [
    | inl large ↦ absurd (let h' = rw (large, to_float) at h in cc)
    | inr (x, found) ↦ (x, sym (ok_inj (rw (found, to_float) at h)), finite_ints i x found)
  ]

  to_floats_lem :
      (ss rs : List (Scalar n))
      → all (is_number n) ss ≡ true
      → to_floats n ss ≡ ok rs
      → (xs : List n.Float) × (rs ≡ map floating xs) × All (λ x. n.finite x ≡ true) xs
  unfolding to_floats
  to_floats_lem [] rs numbers h = ([], sym (ok_inj h), tt)
  to_floats_lem (s ∷ ss) rs numbers h =
      let (y, first, h₁) = >>=-eq-ok (to_float n s) (λ y. to_floats n ss >>= λ ys. ok (y ∷ ys)) h in
      let (ys, rest, h₂) = >>=-eq-ok (to_floats n ss) (λ ys. ok (y ∷ ys)) h₁ in
      let (x, is, fine) = to_float_lem s y (ground arith) first in
      let (xs, are, all_fine) = to_floats_lem ss ys (ground arith) rest in
      (x ∷ xs, sym (ok_inj h₂) ∙ (λ i. is i ∷ are i), (fine, all_fine))

  pub convert_lem :
      (kind : Kind) (v w : Value n) → fits n kind v ≡ true → convert n kind v ≡ ok w → IsOf kind w
  unfolding fits convert
  convert_lem bool_kind (one (boolean b)) w fit h = (b, sym (ok_inj h))
  convert_lem bool_kind v w fit h = absurd cc
  convert_lem int_kind (one (integer i)) w fit h = (i, sym (ok_inj h))
  convert_lem int_kind v w fit h = absurd cc
  convert_lem str_kind (one (text s)) w fit h = (s, sym (ok_inj h))
  convert_lem str_kind v w fit h = absurd cc
  convert_lem optional_str_kind (one absent) w fit h = inl (sym (ok_inj h))
  convert_lem optional_str_kind (one (text s)) w fit h = inr (s, sym (ok_inj h))
  convert_lem optional_str_kind v w fit h = absurd cc
  convert_lem float_kind (many xs) w fit h = absurd cc
  convert_lem float_kind (one s) w fit h =
      let (r, done, same) = >>=-eq-ok (to_float n s) (λ x. ok (one x)) h in
      let (x, is, fine) = to_float_lem s r fit done in (x, sym (ok_inj same) ∙ ap one is, fine)
  convert_lem float_tuple_kind (one s) w fit h = absurd cc
  convert_lem float_tuple_kind (many ss) w fit h =
      let (rs, done, same) = >>=-eq-ok (to_floats n ss) (λ ys. ok (many ys)) h in
      let (xs, are, fine) = to_floats_lem ss rs fit done in
      (xs, sym (ok_inj same) ∙ ap many are, fine)
