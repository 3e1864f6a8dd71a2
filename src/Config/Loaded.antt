-- ===== src/Config/Loaded.antt =====
-- What `load_config` puts in each field.
use mathlib.Core.List.Memᴰ
use mathlib.Core.Logic.{⊎_elim}
use rtlfarm.Config.Keys.{IsFileKey, IsEnvKey, from_toml-keys, from_env-keys, from_overrides-keys}
use rtlfarm.Prelude.{
  String, ◌++ˢ◌, ◌≡◌, refl, sym, ap, ap₂, subst, ◌∙◌, inl, inr, Bool, true, false, ◌||◌, List, [],
  ◌∷◌, ◌++◌, ◌==◌, Memᴰ, contains, contains_iff, lookup, insert, merge, keys, keys_of_lookup,
  Distinct, lookup-insert, Option, none, some, if◌then◌else◌, Bool-cases, Option-cases, ok, ◌>>=◌,
  >>=-eq-ok, ok_inj, string_eq, arith,
}
use rtlfarm.Config.Fields.{Kind, Schema, end, leaf, section, config_schema, walk, field_kinds}
use rtlfarm.Config.Layers.{
  Numbers, Value, Flat, from_overrides, Toml, from_toml, Texts, from_env, Built, done, passed,
  default, nested, build, load_config,
}
use rtlfarm.Config.Typed.{IsLayer, from_toml-IsLayer, from_env-IsLayer, from_overrides-IsLayer}

abbrev pub or_else {ℓ} : {A : Type ℓ} → Option A → Option A → Option A
or_else none b = b
or_else (some a) b = some a

-- A key that is not found is none of the keys.
absent-not_key {ℓ} :
    {V : Type ℓ} (d : List (String × V)) (k : String) → lookup d k ≡ none → ¬ Memᴰ k (keys d)
absent-not_key [] k h m = Memᴰ.not-nil m
absent-not_key ((j, v) ∷ d) k h m = elim (Bool-cases (j == k)) [
  | inl same ↦ let found = rw same at h in absurd cc
  | inr other ↦
      ⊎_elim (λ is. let clash = sym ((string_eq.beq_iff j k).1 (sym is)) ∙ other in absurd cc)
        (absent-not_key d k (rw other at h)) (Memᴰ.cases_cons m)
]

not_there {ℓ} :
    {V : Type ℓ} (j k : String) (d : List (String × V))
    → j == k ≡ true
    → (¬ Memᴰ j (keys d))
    → lookup d k ≡ none
not_there j k d same new = elim (Option-cases (lookup d k)) [
  | inl absent ↦ absent
  | inr (w, there) ↦ absurd (
      new (
        subst (λ x. Memᴰ x (keys d)) (sym ((string_eq.beq_iff j k).0 same))
          (keys_of_lookup d k w there)))
]

lookup-merge {ℓ} :
    {V : Type ℓ} (d more : List (String × V)) (k : String)
    → Distinct (keys more)
    → lookup (merge d more) k ≡ or_else (lookup more k) (lookup d k)
lookup-merge d [] k once = refl
lookup-merge d ((j, v) ∷ more) k once = elim (Bool-cases (j == k)) [
  | inl same ↦
      lookup-merge (insert d j v) more k once.1
      ∙ rw (same, not_there j k more same once.0) (lookup-insert d j k v ∙ rw same refl)
  | inr other ↦
      lookup-merge (insert d j v) more k once.1
      ∙ rw other (ap (or_else (lookup more k)) (lookup-insert d j k v ∙ rw other refl))
]

module _ (n : Numbers) where
  -- The value that the object has at a key, where one was passed.
  abbrev pub read : String → Built n → String → Option (Value n)
  read prefix done key = none
  read prefix (passed name value rest) key =
      if key == prefix ++ˢ name then some value else read prefix rest key
  read prefix (default name rest) key = read prefix rest key
  read prefix (nested name fields rest) key =
      or_else (read ((prefix ++ˢ name) ++ˢ ".") fields key) (read prefix rest key)

  keys-append :
      (xs ys : List (String × Kind)) (k : String)
      → contains (keys (xs ++ ys)) k ≡ (contains (keys xs) k || contains (keys ys) k)
  keys-append [] ys k = refl
  keys-append ((j, v) ∷ xs) ys k = ground (arith, keys-append xs ys k)

  if_none : (b : Bool) (o : Option (Value n)) → o ≡ none → (if b then o else none) ≡ none
  if_none true o absent = absent
  if_none false o absent = refl

  or_else-if :
      (a b : Bool) (o : Option (Value n))
      → or_else (if a then o else none) (if b then o else none) ≡ (if a || b then o else none)
  or_else-if false b o = refl
  or_else-if true b (some v) = refl
  or_else-if true b none = if_none b none refl

  build_default :
      (flat : Flat n) (prefix name : String) (kind : Kind) (rest : Schema)
      → lookup flat (prefix ++ˢ name) ≡ none
      → build n flat prefix (leaf name kind rest) ≡ default name (build n flat prefix rest)
  unfolding build
  build_default flat prefix name kind rest absent = rw (absent, build) refl

  build_passed :
      (flat : Flat n) (prefix name : String) (kind : Kind) (rest : Schema) (v : Value n)
      → lookup flat (prefix ++ˢ name) ≡ some v
      → build n flat prefix (leaf name kind rest) ≡ passed name v (build n flat prefix rest)
  unfolding build
  build_passed flat prefix name kind rest v there = rw (there, build) refl

  read-build :
      (flat : Flat n) (prefix : String) (schema : Schema) (key : String)
      → read prefix (build n flat prefix schema) key
        ≡ (if contains (keys (walk prefix schema)) key then lookup flat key else none)
  unfolding build walk
  read-build flat prefix end key = refl
  read-build flat prefix (leaf name kind rest) key =
      let ih = read-build flat prefix rest key in
      let same_key = string_eq.beq_iff key (prefix ++ˢ name) in
      elim (Option-cases (lookup flat (prefix ++ˢ name))) [
        | inl absent ↦
            ap (λ b. read prefix b key) (build_default flat prefix name kind rest absent)
            ∙ elim (Bool-cases (key == prefix ++ˢ name)) [
              | inl same ↦
                  let gone = ap (lookup flat) (same_key.0 same) ∙ absent in
                  rw same (
                    ih
                    ∙ if_none (contains (keys (walk prefix rest)) key) (lookup flat key) gone
                    ∙ sym gone)
              | inr other ↦ rw other ih
            ]
        | inr (v, there) ↦
            ap (λ b. read prefix b key) (build_passed flat prefix name kind rest v there)
            ∙ elim (Bool-cases (key == prefix ++ˢ name)) [
              | inl same ↦ rw same (sym (ap (lookup flat) (same_key.0 same) ∙ there))
              | inr other ↦ rw other ih
            ]
      ]
  read-build flat prefix (section name fields rest) key =
      let inner = walk ((prefix ++ˢ name) ++ˢ ".") fields in
      let outer = walk prefix rest in
      ap₂ or_else (read-build flat ((prefix ++ˢ name) ++ˢ ".") fields key)
        (read-build flat prefix rest key)
      ∙ or_else-if (contains (keys inner) key) (contains (keys outer) key) (lookup flat key)
      ∙ ap (λ b. if b then lookup flat key else none) (sym (keys-append inner outer key))

  -- Over the names of a program's fields, a layer over another.
  layered :
      (file variables flags : Flat n) (key : String)
      → Distinct (keys variables)
      → Distinct (keys flags)
      → lookup (merge (merge file variables) flags) key
        ≡ or_else (lookup flags key) (or_else (lookup variables key) (lookup file key))
  layered file variables flags key once again =
      lookup-merge (merge file variables) flags key again
      ∙ ap (or_else (lookup flags key)) (lookup-merge file variables key once)

  -- A key that names a field.
  abbrev pub IsField : String → Type 0
  IsField key = (kind : Kind) × (lookup field_kinds key ≡ some kind)

  mem-IsField :
      (finite_ints : (i : n.Int) (x : n.Float) → n.float_of_int i ≡ some x → n.finite x ≡ true)
      (flat : Flat n) (key : String)
      → IsLayer n finite_ints flat
      → Memᴰ key (keys flat)
      → Memᴰ key (keys flat) × IsField key
  mem-IsField finite_ints flat key layer m = elim (Option-cases (lookup flat key)) [
    | inl absent ↦ absurd (absent-not_key flat key absent m)
    | inr (v, there) ↦
        let (kind, known, is_kind) = IsLayer.typed layer key v there in (m, (kind, known))
  ]

  -- Where the configuration loads, the file, the environment and the overrides are each accepted: every
  -- key of the overrides, every plain or dotted key of the file's tables, and the dotted key of every
  -- variable that has the prefix and is not reserved, is in its layer and names a field, and each value of
  -- a layer is of its field's kind, its floats finite. Each field is then passed the value of the highest
  -- layer that names it, and none where no layer does, so that its default stays. `float` of an integer is
  -- finite where it does not raise.
  pub load_config_lem :
      (t : Texts n) (toml : Option (Option (List (String × Toml n)))) (env : List (String × String))
      (overrides : List (String × Value n)) (built : Built n) (key : String) (kind : Kind)
      → (finite_ints : (i : n.Int) (x : n.Float) → n.float_of_int i ≡ some x → n.finite x ≡ true)
      → load_config n t toml env overrides ≡ ok built
      → lookup field_kinds key ≡ some kind
      → (file : Flat n) × (variables : Flat n) × (flags : Flat n) × (from_toml n toml ≡ ok file)
        × (from_env n t env ≡ ok variables)
        × (from_overrides n overrides ≡ ok flags)
        × IsLayer n finite_ints file
        × IsLayer n finite_ints variables
        × IsLayer n finite_ints flags
        × ((k : String) → IsFileKey n toml k → Memᴰ k (keys file) × IsField k)
        × ((k : String) → IsEnvKey n t env k → Memᴰ k (keys variables) × IsField k)
        × ((k : String) → Memᴰ k (keys overrides) → Memᴰ k (keys flags) × IsField k)
        × (read "" built key
            ≡ or_else (lookup flags key) (or_else (lookup variables key) (lookup file key)))
  unfolding load_config field_kinds
  load_config_lem t toml env overrides built key kind finite_ints loads known =
      let (file, h₁, rest₁) =
        >>=-eq-ok (from_toml n toml)
          (λ file. from_env n t env >>= λ variables. from_overrides n overrides >>= λ flags.
            ok (build n (merge (merge file variables) flags) "" config_schema))
          loads in
      let (variables, h₂, rest₂) =
        >>=-eq-ok (from_env n t env)
          (λ variables. from_overrides n overrides >>= λ flags.
            ok (build n (merge (merge file variables) flags) "" config_schema))
          rest₁ in
      let (flags, h₃, rest₃) =
        >>=-eq-ok (from_overrides n overrides)
          (λ flags. ok (build n (merge (merge file variables) flags) "" config_schema)) rest₂ in
      let first = from_toml-IsLayer n finite_ints toml file h₁ in
      let second = from_env-IsLayer n finite_ints t env variables h₂ in
      let third = from_overrides-IsLayer n finite_ints overrides flags h₃ in
      let is_field =
        (contains_iff (keys (walk "" config_schema)) key).1
          (keys_of_lookup (walk "" config_schema) key kind known) in
      (
        file,
        variables,
        flags,
        h₁,
        h₂,
        h₃,
        first,
        second,
        third,
        λ k is. mem-IsField finite_ints file k first (from_toml-keys n toml file h₁ k is),
        λ k is.
            mem-IsField finite_ints variables k second (from_env-keys n t env variables h₂ k is),
        λ k m. mem-IsField finite_ints flags k third (from_overrides-keys n overrides flags h₃ k m),
        ap (λ b. read "" b key) (sym (ok_inj rest₃))
            ∙ read-build (merge (merge file variables) flags) "" config_schema key
            ∙ ap (λ b. if b then lookup (merge (merge file variables) flags) key else none) is_field
            ∙ layered file variables flags key second.once third.once,
      )
