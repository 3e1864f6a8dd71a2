-- ===== src/Invariants/Groups.antt =====
-- A `defaultdict(list)` that is filled from a list of rows.
use mathlib.Core.List.Memᴰ
use mathlib.Core.Logic.{⊎_elim}
use mathlib.Core.List.{append_assoc, append-nil}
use rtlfarm.Prelude.{
  lookup-insert, keys-insert-Distinct, mem-keys-insert, keys_of_lookup, String, ◌≡◌, refl, sym, ap,
  subst, ◌∙◌, ◌≢◌, ◌↔◌, inl, inr, List, [], ◌∷◌, ◌++◌, map, Memᴰ, Distinct, select, gather_all,
  gather_all-nil, lookup, insert, keys, Option, none, some, if◌then◌else◌, ◌==◌, Bool-cases,
  some_inj, string_eq,
}

module _ {ℓ κ} {A : Type ℓ} {V : Type κ} (key : A → String) (value : A → V) where
  abbrev pub bucket : List (String × List V) → String → List V
  bucket d k = elim (lookup d k) [ none ↦ [] | some vs ↦ vs ]

  -- d[key(x)].append(value(x)), for each row
  unfoldable pub group_by : List (String × List V) → List A → List (String × List V)
  group_by d [] = d
  group_by d (x ∷ xs) = group_by (insert d (key x) (bucket d (key x) ++ value x ∷ [])) xs

  -- The values of the rows of one key, in order.
  abbrev pub of_key : String → List A → List V
  of_key k xs = map value (select (λ x. key x == k) xs)

  bucket-insert :
      (d : List (String × List V)) (j k : String) (vs : List V)
      → bucket (insert d j vs) k ≡ (if j == k then vs else bucket d k)
  bucket-insert d j k vs = elim (Bool-cases (j == k)) [
    | inl same ↦ rw (lookup-insert d j k vs, bucket, same) refl
    | inr other ↦ rw (lookup-insert d j k vs, bucket, other) refl
  ]

  bucket-group_by :
      (d : List (String × List V)) (xs : List A) (k : String)
      → bucket (group_by d xs) k ≡ bucket d k ++ of_key k xs
  unfolding group_by
  bucket-group_by d [] k = sym (append-nil (bucket d k))
  bucket-group_by d (x ∷ xs) k =
      bucket-group_by (insert d (key x) (bucket d (key x) ++ value x ∷ [])) xs k
      ∙ ap (λ l. l ++ of_key k xs) (bucket-insert d (key x) k (bucket d (key x) ++ value x ∷ []))
      ∙ elim (Bool-cases (key x == k)) [
        | inl same ↦ rw same (
            append_assoc (bucket d (key x)) (value x ∷ []) (of_key k xs)
            ∙ ap (λ j. bucket d j ++ value x ∷ of_key k xs) ((string_eq.beq_iff (key x) k).0 same))
        | inr other ↦ rw other refl
      ]

  group_by-Distinct :
      (d : List (String × List V)) (xs : List A)
      → Distinct (keys d)
      → Distinct (keys (group_by d xs))
  unfolding group_by
  group_by-Distinct d [] h = h
  group_by-Distinct d (x ∷ xs) h =
      group_by-Distinct (insert d (key x) (bucket d (key x) ++ value x ∷ [])) xs
        (keys-insert-Distinct d (key x) (bucket d (key x) ++ value x ∷ []) h)

  -- Every group has a row.
  group_by-filled :
      (d : List (String × List V)) (xs : List A)
      → ((k : String) → Memᴰ k (keys d) → bucket d k ≢ [])
      → (k : String) → Memᴰ k (keys (group_by d xs))
      → bucket (group_by d xs) k ≢ []
  unfolding group_by
  group_by-filled d [] h = h
  group_by-filled d (x ∷ xs) h =
      group_by-filled (insert d (key x) (bucket d (key x) ++ value x ∷ [])) xs (λ k m empty.
        let shown = sym (bucket-insert d (key x) k (bucket d (key x) ++ value x ∷ [])) ∙ empty in
        elim (Bool-cases (key x == k)) [
          | inl same ↦ more (bucket d (key x)) (rw same at shown)
          | inr other ↦
              ⊎_elim (λ e. absurd (let e' = (string_eq.beq_iff (key x) k).1 (sym e) in cc))
                (λ old. h k old (rw other at shown))
                ((mem-keys-insert d (key x) k (bucket d (key x) ++ value x ∷ [])).0 m)
        ])
    where
      more : (vs : List V) → vs ++ value x ∷ [] ≢ []
      more [] e = cc
      more (v ∷ vs) e = cc

  lookup_of_mem :
      (d : List (String × List V)) (k : String) (vs : List V)
      → Distinct (keys d)
      → Memᴰ (k, vs) d
      → lookup d k ≡ some vs
  lookup_of_mem [] k vs once m = absurd (Memᴰ.not-nil m)
  lookup_of_mem ((j, ws) ∷ d) k vs once (Memᴰ.head e) =
      rw ((string_eq.beq_iff j k).1 (sym (ap (λ x. x.0) e))) (ap some (sym (ap (λ x. x.1) e)))
  lookup_of_mem ((j, ws) ∷ d) k vs once (Memᴰ.tail m) = elim (Bool-cases (j == k)) [
    | inl same ↦ absurd (once.0 (rw ((string_eq.beq_iff j k).0 same) (key_of_mem d m)))
    | inr other ↦ rw other (lookup_of_mem d k vs once.1 m)
  ]
    where
      key_of_mem : (d : List (String × List V)) → Memᴰ (k, vs) d → Memᴰ k (keys d)
      key_of_mem [] m = absurd (Memᴰ.not-nil m)
      key_of_mem (p ∷ d) (Memᴰ.head e) = Memᴰ.head (ap (λ x. x.0) e)
      key_of_mem (p ∷ d) (Memᴰ.tail m) = Memᴰ.tail (key_of_mem d m)

  mem_of_lookup :
      (d : List (String × List V)) (k : String) (vs : List V)
      → lookup d k ≡ some vs
      → Memᴰ (k, vs) d
  mem_of_lookup [] k vs h = absurd cc
  mem_of_lookup ((j, ws) ∷ d) k vs h = elim (Bool-cases (j == k)) [
    | inl same ↦
        Memᴰ.head
          (λ i. ((sym ((string_eq.beq_iff j k).0 same)) i, (sym (some_inj (rw same at h))) i))
    | inr other ↦ Memᴰ.tail (mem_of_lookup d k vs (rw other at h))
  ]

  -- A group holds the values of its key's rows, and there is one for each key that a row has.
  pub mem-group_by :
      (xs : List A) (k : String) (vs : List V)
      → Memᴰ (k, vs) (group_by [] xs)
      → (vs ≡ of_key k xs) × (of_key k xs ≢ [])
  mem-group_by xs k vs m =
      let found = lookup_of_mem (group_by [] xs) k vs (group_by-Distinct [] xs tt) m in
      let whole : vs ≡ of_key k xs =
        ap (λ o. elim o [ none ↦ [] | some ws ↦ ws ]) (sym found) ∙ bucket-group_by [] xs k in
      (
        whole,
        λ empty.
            group_by-filled [] xs (λ j n. absurd (Memᴰ.not-nil n)) k
              (keys_of_lookup (group_by [] xs) k vs found) (bucket-group_by [] xs k ∙ empty),
      )

  pub group_by-mem :
      (xs : List A) (k : String) → of_key k xs ≢ [] → Memᴰ (k, of_key k xs) (group_by [] xs)
  group_by-mem xs k some_row = go (lookup (group_by [] xs) k) refl
    where
      go :
          (o : Option (List V))
          → lookup (group_by [] xs) k ≡ o
          → Memᴰ (k, of_key k xs) (group_by [] xs)
      go none e = absurd (some_row (sym (bucket-group_by [] xs k) ∙ rw (e, bucket) refl))
      go (some vs) e =
          subst (λ ws. Memᴰ (k, ws) (group_by [] xs))
            (sym (rw (e, bucket) refl) ∙ bucket-group_by [] xs k)
            (mem_of_lookup (group_by [] xs) k vs e)

  -- Nothing is found in the groups exactly when nothing is found in the group of any key.
  pub groups-nil {ι} :
      {B : Type ι} (f : String × List V → List B) (xs : List A)
      → (gather_all f (group_by [] xs) ≡ [])
        ↔ ((k : String) → of_key k xs ≢ [] → f (k, of_key k xs) ≡ [])
  groups-nil f xs = (
    λ h k some_row.
        (gather_all-nil f (group_by [] xs)).0 h (k, of_key k xs) (group_by-mem xs k some_row),
    λ h. (gather_all-nil f (group_by [] xs)).1 (λ (k, vs) m.
        let (whole, some_row) = mem-group_by xs k vs m in
        ap (λ ws. f (k, ws)) whole ∙ h k some_row),
  )
