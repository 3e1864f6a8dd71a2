-- ===== src/Pipeline/Graph.antt =====
-- The graph that `depends_on` spans.
use mathlib.Core.List.Memᴰ
use rtlfarm.Prelude.{
  String, ◌≡◌, sym, ◌≢◌, ◌⊎◌, inl, inr, List, [], ◌∷◌, Memᴰ, Memᴰ-cons, All, ◌==◌, lookup, keys,
  none, some, Bool-cases, string_eq, arith,
}
use rtlfarm.Models.{Stage}
use rtlfarm.Pipeline.{Stages}

-- `name` is a stage, and it lists `dep`.
pub record Edge (stages : Stages) (name dep : String) : Type 0 where
  pub stage : Stage
  pub found : lookup stages name ≡ some stage
  pub listed : Memᴰ dep stage.depends_on

-- A chain of one dependency or more.
pub data Reaches (stages : Stages) (a : String) : String → Type 0 where
  one : {b : String} → Edge stages a b → Reaches stages a b
  more : {b c : String} → Reaches stages a b → Edge stages b c → Reaches stages a c

abbrev pub Cycle : Stages → Type 0
Cycle stages = (name : String) × Reaches stages name name

-- `dep` is dealt with: it is done, or no stage.
abbrev pub Covered : Stages → List String → String → Type 0
Covered stages done dep = Memᴰ dep done ⊎ (lookup stages dep ≡ none)

-- Each name of the list depends only on names behind it.
abbrev pub IsTopo : Stages → List String → Type 0
IsTopo stages [] = Unit
IsTopo stages (name ∷ done) =
    ((stage : Stage) → lookup stages name ≡ some stage → All (Covered stages done) stage.depends_on)
    × IsTopo stages done

pub keys-lookup :
    {V : Type 0} (d : List (String × V)) (k : String) (v : V)
    → lookup d k ≡ some v
    → Memᴰ k (keys d)
keys-lookup [] k v h = cc
keys-lookup ((j, w) ∷ d) k v h = elim (Bool-cases (j == k)) [
  | inl same ↦ Memᴰ.head (sym ((string_eq.beq_iff j k).0 same))
  | inr other ↦ Memᴰ.tail (keys-lookup d k v (rw other at h))
]

pub lookup_of_key :
    {V : Type 0} (d : List (String × V)) (k : String) → Memᴰ k (keys d) → lookup d k ≢ none
lookup_of_key [] k m = absurd (Memᴰ.not-nil m)
lookup_of_key ((j, w) ∷ d) k m =
    ground (arith, string_eq.beq_iff j k, Memᴰ-cons k j (keys d), lookup_of_key d k)
