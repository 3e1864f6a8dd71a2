-- ===== src/Config/Keys.antt =====
-- Every key of a source is in the layer that is read of it.
use text.Mathlib.TextLemmas.{nil-append}
use mathlib.Core.List.Memᴰ
use mathlib.Core.Logic.{⊎_elim}
use rtlfarm.Prelude.{
  String, ◌++ˢ◌, ◌≡◌, refl, sym, ap, subst, ◌∙◌, ◌⊎◌, inl, inr, List, [], ◌∷◌, Memᴰ, contains-false,
  insert, keys, mem-keys-insert, Option, none, some, Option-cases, some_inj, ok, >>=-eq-ok, ok_inj,
  string_eq,
}
use rtlfarm.Config.Fields.{env_prefix, non_config_env, after_prefix, dotted}
use rtlfarm.Config.Layers.{
  Numbers, Value, Flat, coerce, coerce_under, from_overrides, Toml, plain, table, flatten,
  from_toml, Texts, parse_text, env_key, parse_env, from_env,
}

module _ (n : Numbers) where
  old-insert :
      (flat : Flat n) (key k : String) (v : Value n)
      → Memᴰ k (keys flat)
      → Memᴰ k (keys (insert flat key v))
  old-insert flat key k v m = (mem-keys-insert flat key k v).1 (inr m)

  new-insert : (flat : Flat n) (key : String) (v : Value n) → Memᴰ key (keys (insert flat key v))
  new-insert flat key v = (mem-keys-insert flat key key v).1 (inl refl)

  coerce_under-keys :
      (prefix : String) (values : List (String × Value n)) (flat result : Flat n)
      → coerce_under n prefix values flat ≡ ok result
      → ((k : String) → Memᴰ k (keys flat) → Memᴰ k (keys result))
        × ((k : String) → Memᴰ k (keys values) → Memᴰ (prefix ++ˢ k) (keys result))
  unfolding coerce_under
  coerce_under-keys prefix [] flat result h =
      (λ k m. subst (λ r. Memᴰ k (keys r)) (ok_inj h) m, λ k m. absurd (Memᴰ.not-nil m))
  coerce_under-keys prefix ((key, value) ∷ more) flat result h =
      let (v, first, rest) =
        >>=-eq-ok (coerce n (prefix ++ˢ key) value)
          (λ v. coerce_under n prefix more (insert flat (prefix ++ˢ key) v)) h in
      let (old, new) = coerce_under-keys prefix more (insert flat (prefix ++ˢ key) v) result rest in
      (
        λ k m. old k (old-insert flat (prefix ++ˢ key) k v m),
        λ k m.
            ⊎_elim
              (λ same.
                subst (λ x. Memᴰ (prefix ++ˢ x) (keys result)) (sym same)
                  (old (prefix ++ˢ key) (new-insert flat (prefix ++ˢ key) v)))
              (new k) (Memᴰ.cases_cons m),
      )

  -- The dotted key of a value in a TOML file: one outside the tables, or one of a table.
  abbrev pub IsTomlKey : List (String × Toml n) → String → Type 0
  IsTomlKey raw k =
      ((value : Value n) × Memᴰ (k, plain value) raw)
      ⊎ ((name : String) × (entries : List (String × Value n)) × Memᴰ (name, table entries) raw
          × (key : String) × Memᴰ key (keys entries)
          × (k ≡ (name ++ˢ ".") ++ˢ key))

  -- A file's keys, where there is a file that can be read.
  abbrev pub IsFileKey : Option (Option (List (String × Toml n))) → String → Type 0
  IsFileKey toml k = (raw : List (String × Toml n)) × (toml ≡ some (some raw)) × IsTomlKey raw k

  flatten-keys :
      (raw : List (String × Toml n)) (flat result : Flat n)
      → flatten n raw flat ≡ ok result
      → ((k : String) → Memᴰ k (keys flat) → Memᴰ k (keys result))
        × ((k : String) → IsTomlKey raw k → Memᴰ k (keys result))
  unfolding flatten
  flatten-keys [] flat result h = (
    λ k m. subst (λ r. Memᴰ k (keys r)) (ok_inj h) m,
    λ k.
        ⊎_elim (λ (v, m). absurd (Memᴰ.not-nil m))
          (λ (t, es, m, key, there, is). absurd (Memᴰ.not-nil m)),
  )
  flatten-keys ((key, plain value) ∷ more) flat result h =
      let (v, first, rest) =
        >>=-eq-ok (coerce n key value) (λ v. flatten n more (insert flat key v)) h in
      let (old, new) = flatten-keys more (insert flat key v) result rest in
      (
        λ k m. old k (old-insert flat key k v m),
        λ k.
            ⊎_elim
              (λ (w, m).
                ⊎_elim
                  (λ same.
                    subst (λ x. Memᴰ x (keys result)) (sym (ap (λ p. p.0) same))
                      (old key (new-insert flat key v)))
                  (λ t. new k (inl (w, t))) (Memᴰ.cases_cons m))
              (λ (name, es, m, sub, there, is).
                ⊎_elim (λ same. absurd (let kind = ap (λ p. p.1) same in cc))
                  (λ t. new k (inr (name, es, t, sub, there, is))) (Memᴰ.cases_cons m)),
      )
  flatten-keys ((key, table entries) ∷ more) flat result h =
      let (flat', first, rest) =
        >>=-eq-ok (coerce_under n (key ++ˢ ".") entries flat) (λ flat'. flatten n more flat') h in
      let (old, new) = flatten-keys more flat' result rest in
      let (kept, added) = coerce_under-keys (key ++ˢ ".") entries flat flat' first in
      (
        λ k m. old k (kept k m),
        λ k.
            ⊎_elim
              (λ (w, m).
                ⊎_elim (λ same. absurd (let kind = ap (λ p. p.1) same in cc))
                  (λ t. new k (inl (w, t))) (Memᴰ.cases_cons m))
              (λ (name, es, m, sub, there, is).
                ⊎_elim
                  (λ same.
                    let same_name : name ≡ key = ap (λ p. p.0) same in
                    let same_entries : es ≡ entries = table_inj (ap (λ p. p.1) same) in
                    subst (λ x. Memᴰ x (keys result))
                      (sym (is ∙ ap (λ y. (y ++ˢ ".") ++ˢ sub) same_name))
                      (old ((key ++ˢ ".") ++ˢ sub)
                        (added sub (subst (λ l. Memᴰ sub (keys l)) same_entries there))))
                  (λ t. new k (inr (name, es, t, sub, there, is))) (Memᴰ.cases_cons m)),
      )
    where
      table_inj : {a b : List (String × Value n)} → ◌≡◌ {A = Toml n} (table a) (table b) → a ≡ b
      table_inj same = cc

  pub from_toml-keys :
      (toml : Option (Option (List (String × Toml n)))) (file : Flat n)
      → from_toml n toml ≡ ok file
      → (k : String) → IsFileKey toml k
      → Memᴰ k (keys file)
  unfolding from_toml
  from_toml-keys none file h k (raw, is, key) = absurd cc
  from_toml-keys (some none) file h k (raw, is, key) = absurd cc
  from_toml-keys (some (some given)) file h k (raw, is, key) =
      (flatten-keys given [] file h).1 k (subst (λ r. IsTomlKey r k) (sym (given_inj is)) key)
    where
      given_inj : {a b : List (String × Toml n)} → some (some a) ≡ some (some b) → a ≡ b
      given_inj same = cc

  pub from_overrides-keys :
      (overrides : List (String × Value n)) (flags : Flat n)
      → from_overrides n overrides ≡ ok flags
      → (k : String) → Memᴰ k (keys overrides)
      → Memᴰ k (keys flags)
  unfolding from_overrides
  from_overrides-keys overrides flags h k m =
      subst (λ x. Memᴰ x (keys flags)) (nil-append k)
        ((coerce_under-keys "" overrides [] flags h).1 k m)

  module _ (t : Texts n) where
    -- The key of a variable that has the prefix and is none of those that are not configuration.
    abbrev pub IsEnvKey : List (String × String) → String → Type 0
    IsEnvKey env k =
        (name : String) × Memᴰ name (keys env)
        × (rest : String) × (after_prefix env_prefix name ≡ some rest)
        × (¬ Memᴰ name non_config_env)
        × (k ≡ dotted (t.lower rest))

    env_key-some :
        (name rest : String)
        → after_prefix env_prefix name ≡ some rest
        → ¬ Memᴰ name non_config_env
        → env_key n t name ≡ some (dotted (t.lower rest))
    unfolding env_key
    env_key-some name rest is other =
        let out = contains-false non_config_env name other in rw (is, out, env_key) refl

    parse_env-keys :
        (env : List (String × String)) (flat result : Flat n)
        → parse_env n t env flat ≡ ok result
        → ((k : String) → Memᴰ k (keys flat) → Memᴰ k (keys result))
          × ((k : String) → IsEnvKey env k → Memᴰ k (keys result))
    unfolding parse_env
    parse_env-keys [] flat result h = (
      λ k m. subst (λ r. Memᴰ k (keys r)) (ok_inj h) m,
      λ k (name, m, rest, is, out, key). absurd (Memᴰ.not-nil m),
    )
    parse_env-keys ((name, raw) ∷ more) flat result h = elim (Option-cases (env_key n t name)) [
      | inl skipped ↦
          let (old, new) = parse_env-keys more flat result (rw (skipped, parse_env) at h) in
          (
            old,
            λ k (x, m, rest, is, out, key).
                ⊎_elim
                  (λ same. absurd (
                    let found =
                      sym skipped ∙ ap (env_key n t) (sym same) ∙ env_key-some x rest is out in
                    cc))
                  (λ tl. new k (x, tl, rest, is, out, key)) (Memᴰ.cases_cons m),
          )
      | inr (found, is_key) ↦
          let (v, first, after) =
            >>=-eq-ok (parse_text n t name found raw)
              (λ v. parse_env n t more (insert flat found v)) (rw (is_key, parse_env) at h) in
          let (old, new) = parse_env-keys more (insert flat found v) result after in
          (
            λ k m. old k (old-insert flat found k v m),
            λ k (x, m, rest, is, out, key).
                ⊎_elim
                  (λ same.
                    let agree =
                      sym is_key ∙ ap (env_key n t) (sym same) ∙ env_key-some x rest is out in
                    subst (λ y. Memᴰ y (keys result)) (some_inj agree ∙ sym key)
                      (old found (new-insert flat found v)))
                  (λ tl. new k (x, tl, rest, is, out, key)) (Memᴰ.cases_cons m),
          )
    ]

    pub from_env-keys :
        (env : List (String × String)) (variables : Flat n)
        → from_env n t env ≡ ok variables
        → (k : String) → IsEnvKey env k
        → Memᴰ k (keys variables)
    unfolding from_env
    from_env-keys env variables h = (parse_env-keys env [] variables h).1
