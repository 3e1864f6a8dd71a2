-- ===== src/Config/Examples.antt =====
-- A small file, environment and command line, with numbers that are natural, the large ones no floats.
use rtlfarm.Prelude.{
  Memᴰ, keys, ℕ, String, ◌≡◌, refl, true, List, [], ◌∷◌, ◌==◌, ltb, lookup, none, some,
  if◌then◌else◌, ok, raise, config_error, overflow_error, string_eq,
}
use rtlfarm.Config.Fields.{float_kind, field_kinds, config_schema}
use rtlfarm.Config.Layers.{
  Numbers, integer, boolean, floating, text, Value, one, Flat, from_overrides, Toml, plain, table,
  from_toml, Texts, env_key, from_env, build, coerce, load_config,
}
use rtlfarm.Config.Typed.{IsLayer}
use rtlfarm.Config.Keys.{IsFileKey, IsEnvKey}
use rtlfarm.Config.Loaded.{IsField, or_else, read, load_config_lem}

abbrev small : Numbers
small = record {
  Int = ℕ;
  Float = ℕ;
  finite = λ x. true;
  float_of_int = λ i. if ltb i 1000 then some i else none;
}

abbrev texts : Texts small
texts = record {
  lower = λ s. if s == "TIMING__TICK_S" then "timing__tick_s" else s;
  strip = λ s. s;
  int_of = λ s. none;
  float_of = λ s. if s == "2.0" then some 2 else none;
  json_loads = λ s. none;
}

abbrev toml_file : List (String × Toml small)
toml_file =
    ("timing", table (("tick_s", one (integer 1)) ∷ ("heartbeat_s", one (integer 6)) ∷ []))
    ∷ ("insecure_bind", plain (one (boolean true)))
    ∷ []

abbrev environment : List (String × String)
environment =
    ("PATH", "/bin") ∷ ("RTLFARM_TEST_HOOKS", "1") ∷ ("RTLFARM_TIMING__TICK_S", "2.0") ∷ []

abbrev command_line : List (String × Value small)
command_line = ("timing.heartbeat_s", one (integer 7)) ∷ []

abbrev loaded : Flat small
loaded =
    ("timing.tick_s", one (floating 2))
    ∷ ("timing.heartbeat_s", one (floating 7))
    ∷ ("insecure_bind", one (boolean true))
    ∷ []

loads :
    load_config small texts (some (some toml_file)) environment command_line
    ≡ ok (build small loaded "" config_schema)
unfolding load_config env_key coerce field_kinds build
loads = refl

unknown_key :
    from_overrides small (("timing.tick", one (integer 1)) ∷ [])
    ≡ raise (config_error "timing.tick")
unfolding from_overrides field_kinds
unknown_key = refl

wrong_type :
    from_overrides small (("timing.tick_s", one (text "1")) ∷ [])
    ≡ raise (config_error "timing.tick_s")
unfolding from_overrides field_kinds
wrong_type = refl

-- An integer that is no float is not refused with a ConfigError.
too_large : from_overrides small (("timing.tick_s", one (integer 1000)) ∷ []) ≡ raise overflow_error
unfolding from_overrides field_kinds
too_large = refl

is_float : lookup field_kinds "timing.tick_s" ≡ some float_kind
unfolding field_kinds
is_float = refl

load_config_lem_example :
    (file : Flat small) × (variables : Flat small) × (flags : Flat small) × (from_toml small
        (some (some toml_file))
      ≡ ok file)
    × (from_env small texts environment ≡ ok variables)
    × (from_overrides small command_line ≡ ok flags)
    × IsLayer small (λ i x h. refl) file
    × IsLayer small (λ i x h. refl) variables
    × IsLayer small (λ i x h. refl) flags
    × ((k : String)
        → IsFileKey small (some (some toml_file)) k
        → Memᴰ k (keys file) × IsField small k)
    × ((k : String)
        → IsEnvKey small texts environment k
        → Memᴰ k (keys variables) × IsField small k)
    × ((k : String) → Memᴰ k (keys command_line) → Memᴰ k (keys flags) × IsField small k)
    × (read small "" (build small loaded "" config_schema) "timing.tick_s"
        ≡ or_else
            (lookup flags "timing.tick_s")
            (or_else (lookup variables "timing.tick_s") (lookup file "timing.tick_s")))
load_config_lem_example =
    load_config_lem small texts (some (some toml_file)) environment command_line
      (build small loaded "" config_schema) "timing.tick_s" float_kind (λ i x h. refl) loads
      is_float
