-- ===== src/Config/Layers.antt =====
-- `load_config`: three layers of flat keys, each checked against the fields' kinds, and the object.
--
-- Python's numbers, and its parsers of texts, are arguments: `int`, `float`, `json.loads`, `str.lower`
-- and `strip`. The TOML file is what `tomllib` makes of it, or `none` where the file cannot be read or
-- parsed. A default is not kept: a field that no layer names is one that is not passed.
use rtlfarm.Prelude.{
  String, ◌++ˢ◌, Bool, true, false, all, List, [], ◌∷◌, ◌==◌, contains, lookup, insert, merge,
  Option, none, some, if◌then◌else◌, Result, ok, raise, config_error, overflow_error, ◌>>=◌, nat_eq,
  string_eq,
}
use rtlfarm.Config.Fields.{
  bool_kind, int_kind, float_kind, str_kind, optional_str_kind, float_tuple_kind, Kind, Schema, end,
  leaf, section, config_schema, field_kinds, env_prefix, non_config_env, after_prefix, dotted,
}

-- `float_of_int` is `none` where `float` raises OverflowError.
pub record Numbers : Type 1 where
  pub Int : Type 0
  pub Float : Type 0
  pub finite : Float → Bool
  pub float_of_int : Int → Option Float

module _ (n : Numbers) where
  -- A value of a layer: what the kinds tell apart. `other` is of any other type.
  pub data Scalar : Type 0 where
    absent : Scalar
    boolean : Bool → Scalar
    integer : n.Int → Scalar
    floating : n.Float → Scalar
    text : String → Scalar
    other : Scalar

  -- One scalar, or a list or tuple of them.
  pub data Value : Type 0 where
    one : Scalar → Value
    many : List Scalar → Value

  abbrev pub Flat : Type 0
  Flat = List (String × Value)

  abbrev pub is_number : Scalar → Bool
  is_number absent = false
  is_number (boolean b) = false
  is_number (integer i) = true
  is_number (floating x) = n.finite x
  is_number (text s) = false
  is_number other = false

  -- The flag `ok` of `_coerce`.
  unfoldable pub fits : Kind → Value → Bool
  fits bool_kind value = elim value [ one (boolean b) ↦ true | _ ↦ false ]
  fits int_kind value = elim value [ one (integer i) ↦ true | _ ↦ false ]
  fits float_kind value = elim value [ one s ↦ is_number s | many xs ↦ false ]
  fits str_kind value = elim value [ one (text s) ↦ true | _ ↦ false ]
  fits optional_str_kind value = elim value [ one absent ↦ true | one (text s) ↦ true | _ ↦ false ]
  fits float_tuple_kind value = elim value [ one s ↦ false | many xs ↦ all is_number xs ]

  -- float(x), of a number
  unfoldable pub to_float : Scalar → Result Scalar
  to_float s = elim s [
    | integer i ↦ elim (n.float_of_int i) [ none ↦ raise overflow_error | some x ↦ ok (floating x) ]
    | x ↦ ok x
  ]

  unfoldable pub to_floats : List Scalar → Result (List Scalar)
  unfolding to_float
  to_floats [] = ok []
  to_floats (x ∷ xs) = to_float x >>= λ y. to_floats xs >>= λ ys. ok (y ∷ ys)

  unfoldable pub convert : Kind → Value → Result Value
  unfolding to_floats
  convert float_kind (one s) = to_float s >>= λ x. ok (one x)
  convert float_kind (many xs) = ok (many xs)
  convert float_tuple_kind (one s) = ok (one s)
  convert float_tuple_kind (many xs) = to_floats xs >>= λ ys. ok (many ys)
  convert bool_kind value = ok value
  convert int_kind value = ok value
  convert str_kind value = ok value
  convert optional_str_kind value = ok value

  unfoldable pub coerce : String → Value → Result Value
  unfolding fits convert
  coerce key value = elim (lookup field_kinds key) [
    | none ↦ raise (config_error key)
    | some kind ↦ if fits kind value then convert kind value else raise (config_error key)
  ]

  -- {key: _coerce(key, value)}, each key under a prefix, onto what is there.
  unfoldable pub coerce_under : String → List (String × Value) → Flat → Result Flat
  unfolding coerce
  coerce_under prefix [] flat = ok flat
  coerce_under prefix ((key, value) ∷ more) flat = coerce (prefix ++ˢ key) value >>= λ v.
      coerce_under prefix more (insert flat (prefix ++ˢ key) v)

  unfoldable pub from_overrides : List (String × Value) → Result Flat
  unfolding coerce_under
  from_overrides overrides = coerce_under "" overrides []

  pub data Toml : Type 0 where
    plain : Value → Toml
    table : List (String × Value) → Toml

  unfoldable pub flatten : List (String × Toml) → Flat → Result Flat
  unfolding coerce_under
  flatten [] flat = ok flat
  flatten ((key, plain value) ∷ more) flat =
      coerce key value >>= λ v. flatten more (insert flat key v)
  flatten ((key, table entries) ∷ more) flat =
      coerce_under (key ++ˢ ".") entries flat >>= λ flat'. flatten more flat'

  -- No file, a file that is refused, or its tables.
  unfoldable pub from_toml : Option (Option (List (String × Toml))) → Result Flat
  unfolding flatten
  from_toml none = ok []
  from_toml (some none) = raise (config_error "toml")
  from_toml (some (some raw)) = flatten raw []

  pub record Texts : Type 0 where
    pub lower : String → String
    pub strip : String → String
    pub int_of : String → Option n.Int
    pub float_of : String → Option n.Float
    pub json_loads : String → Option Value

  module _ (t : Texts) where
    abbrev pub true_texts : List String
    true_texts = "1" ∷ "true" ∷ "yes" ∷ "on" ∷ []

    abbrev pub false_texts : List String
    false_texts = "0" ∷ "false" ∷ "no" ∷ "off" ∷ "" ∷ []

    -- The `except` of `_parse_text`: its ConfigError names the variable.
    unfoldable pub named : String → Result Value → Result Value
    named source result = elim result [
      | raise (config_error key) ↦ raise (config_error source)
      | outcome ↦ outcome
    ]

    unfoldable pub parse_as : Kind → String → String → Result Value
    parse_as bool_kind key raw =
        let lowered : String = t.lower (t.strip raw) in
        if contains true_texts lowered
        then ok (one (boolean true))
        else if contains false_texts lowered
        then ok (one (boolean false))
        else raise (config_error key)
    parse_as int_kind key raw = elim (t.int_of raw) [
      | none ↦ raise (config_error key)
      | some i ↦ ok (one (integer i))
    ]
    parse_as float_kind key raw = elim (t.float_of raw) [
      | none ↦ raise (config_error key)
      | some x ↦ coerce key (one (floating x))
    ]
    parse_as float_tuple_kind key raw = elim (t.json_loads raw) [
      | none ↦ raise (config_error key)
      | some value ↦ coerce key value
    ]
    parse_as optional_str_kind key raw = ok (one (if raw == "" then absent else text raw))
    parse_as str_kind key raw = ok (one (text raw))

    unfoldable pub parse_text : String → String → String → Result Value
    unfolding named parse_as
    parse_text source key raw = elim (lookup field_kinds key) [
      | none ↦ raise (config_error source)
      | some kind ↦ named source (parse_as kind key raw)
    ]

    -- The key of a variable, where it is one of the configuration.
    unfoldable pub env_key : String → Option String
    unfolding after_prefix dotted
    env_key name = elim (after_prefix env_prefix name) [
      | none ↦ none
      | some rest ↦ if contains non_config_env name then none else some (dotted (t.lower rest))
    ]

    unfoldable pub parse_env : List (String × String) → Flat → Result Flat
    unfolding parse_text env_key
    parse_env [] flat = ok flat
    parse_env ((name, raw) ∷ more) flat = elim (env_key name) [
      | none ↦ parse_env more flat
      | some key ↦ parse_text name key raw >>= λ v. parse_env more (insert flat key v)
    ]

    unfoldable pub from_env : List (String × String) → Result Flat
    unfolding parse_env
    from_env env = parse_env env []

  -- The object that `_build` makes: of each field, the value that is passed or none.
  pub data Built : Type 0 where
    done : Built
    passed : (name : String) (value : Value) (rest : Built) → Built
    default : (name : String) (rest : Built) → Built
    nested : (name : String) (fields rest : Built) → Built

  unfoldable pub build : Flat → String → Schema → Built
  build flat prefix end = done
  build flat prefix (section name fields rest) =
      nested name (build flat ((prefix ++ˢ name) ++ˢ ".") fields) (build flat prefix rest)
  build flat prefix (leaf name kind rest) = elim (lookup flat (prefix ++ˢ name)) [
    | some value ↦ passed name value (build flat prefix rest)
    | none ↦ default name (build flat prefix rest)
  ]

  unfoldable pub load_config :
      Texts
      → Option (Option (List (String × Toml)))
      → List (String × String)
      → List (String × Value)
      → Result Built
  unfolding from_toml from_env from_overrides build
  load_config t toml env overrides = from_toml toml >>= λ file. from_env t env >>= λ variables.
      from_overrides overrides >>= λ flags.
      ok (build (merge (merge file variables) flags) "" config_schema)
