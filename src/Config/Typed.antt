-- ===== src/Config/Typed.antt =====
-- Every value of a layer is of the kind of a field that its key names.
use rtlfarm.Prelude.{
  String, ◌++ˢ◌, ◌≡◌, refl, sym, subst, ◌∙◌, inl, inr, Bool, true, false, List, [], ◌∷◌, ◌==◌,
  contains, lookup, insert, keys, Distinct, keys-insert-Distinct, lookup-insert, Option, none, some,
  some_inj, if◌then◌else◌, Bool-cases, Option-cases, Result, ok, raise, config_error, >>=-eq-ok,
  ok_inj, string_eq,
}
use rtlfarm.Config.Fields.{
  Kind, bool_kind, int_kind, float_kind, str_kind, optional_str_kind, float_tuple_kind, field_kinds,
}
use rtlfarm.Config.Layers.{
  Numbers, boolean, floating, Value, one, Flat, fits, coerce, coerce_under, from_overrides, Toml,
  plain, table, flatten, from_toml, Texts, true_texts, false_texts, named, parse_as, parse_text,
  env_key, parse_env, from_env,
}
use rtlfarm.Config.Values.{IsOf, convert_lem}

module _ (n : Numbers)
    (finite_ints : (i : n.Int) (x : n.Float) → n.float_of_int i ≡ some x → n.finite x ≡ true) where
  -- The key names a field, and the value is of its kind.
  abbrev pub IsTyped : String → Value n → Type 0
  IsTyped key v = (kind : Kind) × (lookup field_kinds key ≡ some kind) × IsOf n finite_ints kind v

  coerce_lem : (key : String) (v w : Value n) → coerce n key v ≡ ok w → IsTyped key w
  unfolding coerce
  coerce_lem key v w h = elim (Option-cases (lookup field_kinds key)) [
    | inl unknown ↦ absurd (let h' = rw (unknown, coerce) at h in cc)
    | inr (kind, known) ↦ elim (Bool-cases (fits n kind v)) [
      | inl fit ↦
          (kind, known, convert_lem n finite_ints kind v w fit (rw (known, fit, coerce) at h))
      | inr wrong ↦ absurd (let h' = rw (known, wrong, coerce) at h in cc)
    ]
  ]

  -- A layer holds a key once, and its values are typed.
  pub record IsLayer (flat : Flat n) : Type 0 where
    pub typed : (key : String) (v : Value n) → lookup flat key ≡ some v → IsTyped key v
    pub once : Distinct (keys flat)

  empty-IsLayer : IsLayer []
  empty-IsLayer = record { typed = λ key v h. absurd cc; once = tt }

  insert-IsLayer :
      (flat : Flat n) (key : String) (v : Value n)
      → IsLayer flat
      → IsTyped key v
      → IsLayer (insert flat key v)
  insert-IsLayer flat key v layer is = record {
    typed = λ j w h. elim (Bool-cases (key == j)) [
      | inl same ↦
          let is_v : v ≡ w = some_inj (sym (lookup-insert flat key j v ∙ rw same refl) ∙ h) in
          subst (λ w. IsTyped j w) is_v
            (subst (λ k. IsTyped k v) ((string_eq.beq_iff key j).0 same) is)
      | inr apart ↦ layer.typed j w (sym (lookup-insert flat key j v ∙ rw apart refl) ∙ h)
    ];
    once = keys-insert-Distinct flat key v layer.once;
  }

  coerce_under-IsLayer :
      (prefix : String) (values : List (String × Value n)) (flat result : Flat n)
      → IsLayer flat
      → coerce_under n prefix values flat ≡ ok result
      → IsLayer result
  unfolding coerce_under
  coerce_under-IsLayer prefix [] flat result layer h = subst IsLayer (ok_inj h) layer
  coerce_under-IsLayer prefix ((key, value) ∷ more) flat result layer h =
      let (v, first, rest) =
        >>=-eq-ok (coerce n (prefix ++ˢ key) value)
          (λ v. coerce_under n prefix more (insert flat (prefix ++ˢ key) v)) h in
      coerce_under-IsLayer prefix more (insert flat (prefix ++ˢ key) v) result
        (insert-IsLayer flat (prefix ++ˢ key) v layer (coerce_lem (prefix ++ˢ key) value v first))
        rest

  pub from_overrides-IsLayer :
      (overrides : List (String × Value n)) (flat : Flat n)
      → from_overrides n overrides ≡ ok flat
      → IsLayer flat
  unfolding from_overrides
  from_overrides-IsLayer overrides flat h =
      coerce_under-IsLayer "" overrides [] flat empty-IsLayer h

  flatten-IsLayer :
      (raw : List (String × Toml n)) (flat result : Flat n)
      → IsLayer flat
      → flatten n raw flat ≡ ok result
      → IsLayer result
  unfolding flatten
  flatten-IsLayer [] flat result layer h = subst IsLayer (ok_inj h) layer
  flatten-IsLayer ((key, plain value) ∷ more) flat result layer h =
      let (v, first, rest) =
        >>=-eq-ok (coerce n key value) (λ v. flatten n more (insert flat key v)) h in
      flatten-IsLayer more (insert flat key v) result
        (insert-IsLayer flat key v layer (coerce_lem key value v first)) rest
  flatten-IsLayer ((key, table entries) ∷ more) flat result layer h =
      let (flat', first, rest) =
        >>=-eq-ok (coerce_under n (key ++ˢ ".") entries flat) (λ flat'. flatten n more flat') h in
      flatten-IsLayer more flat' result
        (coerce_under-IsLayer (key ++ˢ ".") entries flat flat' layer first) rest

  pub from_toml-IsLayer :
      (toml : Option (Option (List (String × Toml n)))) (flat : Flat n)
      → from_toml n toml ≡ ok flat
      → IsLayer flat
  unfolding from_toml
  from_toml-IsLayer none flat h = subst IsLayer (ok_inj h) empty-IsLayer
  from_toml-IsLayer (some none) flat h = absurd cc
  from_toml-IsLayer (some (some raw)) flat h = flatten-IsLayer raw [] flat empty-IsLayer h

  module _ (t : Texts n) where
    named-eq-ok :
        (source : String) (result : Result (Value n)) (v : Value n)
        → named n t source result ≡ ok v
        → result ≡ ok v
    unfolding named
    named-eq-ok source (ok w) v h = h
    named-eq-ok source (raise (config_error k)) v h = absurd cc
    named-eq-ok source (raise e) v h = h

    boolean-IsOf :
        (key : String) (v : Value n) (yes off : Bool)
        → ◌≡◌ {A = Result (Value n)}
            (if yes
              then ok (one (boolean true))
              else if off
              then ok (one (boolean false))
              else raise (config_error key))
            (ok v)
        → IsOf n finite_ints bool_kind v
    boolean-IsOf key v true off h = (true, sym (ok_inj h))
    boolean-IsOf key v false true h = (false, sym (ok_inj h))
    boolean-IsOf key v false false h = absurd cc

    parse_as_lem :
        (kind : Kind) (key raw : String) (v : Value n)
        → lookup field_kinds key ≡ some kind
        → parse_as n t kind key raw ≡ ok v
        → IsTyped key v
    unfolding parse_as
    parse_as_lem bool_kind key raw v known h = (
      bool_kind,
      known,
      boolean-IsOf key v (contains (true_texts n t) (t.lower (t.strip raw)))
          (contains (false_texts n t) (t.lower (t.strip raw))) h,
    )
    parse_as_lem int_kind key raw v known h = elim (Option-cases (t.int_of raw)) [
      | inl bad ↦ absurd (let h' = rw (bad, parse_as) at h in cc)
      | inr (i, good) ↦ (int_kind, known, (i, sym (ok_inj (rw (good, parse_as) at h))))
    ]
    parse_as_lem float_kind key raw v known h = elim (Option-cases (t.float_of raw)) [
      | inl bad ↦ absurd (let h' = rw (bad, parse_as) at h in cc)
      | inr (x, good) ↦ coerce_lem key (one (floating x)) v (rw (good, parse_as) at h)
    ]
    parse_as_lem float_tuple_kind key raw v known h = elim (Option-cases (t.json_loads raw)) [
      | inl bad ↦ absurd (let h' = rw (bad, parse_as) at h in cc)
      | inr (value, good) ↦ coerce_lem key value v (rw (good, parse_as) at h)
    ]
    parse_as_lem str_kind key raw v known h = (str_kind, known, (raw, sym (ok_inj h)))
    parse_as_lem optional_str_kind key raw v known h = elim (Bool-cases (raw == "")) [
      | inl blank ↦ (optional_str_kind, known, inl (sym (ok_inj (rw (blank, parse_as) at h))))
      | inr given ↦ (optional_str_kind, known, inr (raw, sym (ok_inj (rw (given, parse_as) at h))))
    ]

    parse_text_lem :
        (source key raw : String) (v : Value n)
        → parse_text n t source key raw ≡ ok v
        → IsTyped key v
    unfolding parse_text
    parse_text_lem source key raw v h = elim (Option-cases (lookup field_kinds key)) [
      | inl unknown ↦ absurd (let h' = rw (unknown, parse_text) at h in cc)
      | inr (kind, known) ↦
          parse_as_lem kind key raw v known
            (named-eq-ok source (parse_as n t kind key raw) v (rw (known, parse_text) at h))
    ]

    parse_env-IsLayer :
        (env : List (String × String)) (flat result : Flat n)
        → IsLayer flat
        → parse_env n t env flat ≡ ok result
        → IsLayer result
    unfolding parse_env
    parse_env-IsLayer [] flat result layer h = subst IsLayer (ok_inj h) layer
    parse_env-IsLayer ((name, raw) ∷ more) flat result layer h =
        elim (Option-cases (env_key n t name)) [
          | inl skipped ↦ parse_env-IsLayer more flat result layer (rw (skipped, parse_env) at h)
          | inr (key, is) ↦
              let (v, first, rest) =
                >>=-eq-ok (parse_text n t name key raw)
                  (λ v. parse_env n t more (insert flat key v)) (rw (is, parse_env) at h) in
              parse_env-IsLayer more (insert flat key v) result
                (insert-IsLayer flat key v layer (parse_text_lem name key raw v first)) rest
        ]

    pub from_env-IsLayer :
        (env : List (String × String)) (flat : Flat n) → from_env n t env ≡ ok flat → IsLayer flat
    unfolding from_env
    from_env-IsLayer env flat h = parse_env-IsLayer env [] flat empty-IsLayer h
