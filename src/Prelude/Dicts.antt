-- ===== src/Prelude/Dicts.antt =====
-- The laws of a `dict` with texts for keys.
use mathlib.Core.List.Memᴰ
use mathlib.Core.Path.{◌≡◌, refl, ap}
use mathlib.Core.Logic.{◌↔◌, ◌⊎◌, inl, inr}
use mathlib.Core.Option.{none, some}
use mathlib.Core.List.{List, [], ◌∷◌, Memᴰ}
use native.Mathlib.Omega.{arith}
use Prim.Native.String.{String}
use rtlfarm.Prelude.Tests.{◌==◌, if◌then◌else◌, string_eq, Bool-cases}
use rtlfarm.Prelude.Lists.{lookup, insert, keys, Distinct, Memᴰ-cons}

module _ {ℓ} {V : Type ℓ} where
  pub lookup-insert :
      (d : List (String × V)) (k j : String) (v : V)
      → lookup (insert d k v) j ≡ (if k == j then some v else lookup d j)
  lookup-insert [] k j v = refl
  lookup-insert ((i, w) ∷ d) k j v = ground (
    arith,
    lookup-insert d k j v,
    string_eq.beq_iff i k,
    string_eq.beq_iff k j,
    string_eq.beq_iff i j,
  )

  pub mem-keys-insert :
      (d : List (String × V)) (k x : String) (v : V)
      → Memᴰ x (keys (insert d k v)) ↔ ((x ≡ k) ⊎ Memᴰ x (keys d))
  mem-keys-insert [] k x v = Memᴰ-cons x k []
  mem-keys-insert ((i, w) ∷ d) k x v = elim (Bool-cases (i == k)) [
    | inl same ↦ rw same (ground (arith, Memᴰ-cons x i (keys d), string_eq.beq_iff i k))
    | inr other ↦ rw other (
        ground (
          arith,
          Memᴰ-cons x i (keys (insert d k v)),
          Memᴰ-cons x i (keys d),
          mem-keys-insert d k x v,
        ))
  ]

  pub keys-insert_old :
      (d : List (String × V)) (k : String) (v : V) → Memᴰ k (keys d) → keys (insert d k v) ≡ keys d
  keys-insert_old [] k v m = absurd (Memᴰ.not-nil m)
  keys-insert_old ((i, w) ∷ d) k v m =
      ground (arith, Memᴰ-cons k i (keys d), string_eq.beq_iff i k, keys-insert_old d k v)

  pub keys-insert-Distinct :
      (d : List (String × V)) (k : String) (v : V)
      → Distinct (keys d)
      → Distinct (keys (insert d k v))
  keys-insert-Distinct [] k v h = (Memᴰ.not-nil, tt)
  keys-insert-Distinct ((i, w) ∷ d) k v h = elim (Bool-cases (i == k)) [
    | inl same ↦ rw same h
    | inr other ↦ rw other (
      λ m. ground (arith, mem-keys-insert d k i v, string_eq.beq_iff i k, h.0),
      keys-insert-Distinct d k v h.1,
    )
  ]

  pub keys_of_lookup :
      (d : List (String × V)) (k : String) (v : V) → lookup d k ≡ some v → Memᴰ k (keys d)
  keys_of_lookup [] k v h = cc
  keys_of_lookup ((j, w) ∷ d) k v h =
      ground (arith, string_eq.beq_iff j k, Memᴰ-cons k j (keys d), keys_of_lookup d k v)

  -- d.pop(k, None)
  abbrev pub erase : List (String × V) → String → List (String × V)
  erase [] k = []
  erase ((j, w) ∷ d) k = if j == k then erase d k else (j, w) ∷ erase d k

  pub lookup-erase :
      (d : List (String × V)) (k j : String)
      → lookup (erase d k) j ≡ (if k == j then none else lookup d j)
  lookup-erase [] k j = ground arith
  lookup-erase ((i, w) ∷ d) k j = ground (
    arith,
    lookup-erase d k j,
    string_eq.beq_iff i k,
    string_eq.beq_iff k j,
    string_eq.beq_iff i j,
  )

  pub insert_twice :
      (d : List (String × V)) (k : String) (v w : V) → insert (insert d k v) k w ≡ insert d k w
  insert_twice [] k v w = rw ((string_eq.beq_iff k k).1 refl) refl
  insert_twice ((j, u) ∷ d) k v w = elim (Bool-cases (j == k)) [
    | inl same ↦ rw (same, same) refl
    | inr other ↦ rw (other, other) (ap (λ l. (j, u) ∷ l) (insert_twice d k v w))
  ]

  pub erase-insert_new :
      (d : List (String × V)) (k : String) (v : V) → lookup d k ≡ none → erase (insert d k v) k ≡ d
  erase-insert_new [] k v new = rw ((string_eq.beq_iff k k).1 refl) refl
  erase-insert_new ((j, u) ∷ d) k v new = elim (Bool-cases (j == k)) [
    | inl same ↦ absurd (let old = rw same at new in cc)
    | inr other ↦
        rw (other, other) (ap (λ l. (j, u) ∷ l) (erase-insert_new d k v (rw other at new)))
  ]
