-- ===== src/Config/Fields.antt =====
-- The fields of the configuration with their kinds, and the texts of their keys.
use Prim.Native.Char.{code}
use rtlfarm.Prelude.{
  String, ◌++ˢ◌, true, false, ◌&&◌, List, [], ◌∷◌, ◌++◌, ◌==◌, Option, none, some, nat_eq,
  string_eq,
}

-- `_kind_of` of a field's type.
pub data Kind : Type 0 where
  bool_kind int_kind float_kind str_kind optional_str_kind float_tuple_kind : Kind

-- The fields of a dataclass in order; a section is a field whose type is a dataclass.
pub data Schema : Type 0 where
  end : Schema
  leaf : (name : String) (kind : Kind) (rest : Schema) → Schema
  section : (name : String) (fields rest : Schema) → Schema

abbrev pub timing_fields : Schema
timing_fields = leaf "tick_s" float_kind (
    leaf "heartbeat_s" float_kind (
      leaf "lease_ttl_s" float_kind (
        leaf "backstop_grace_s" float_kind (
          leaf "worker_dead_after_s" float_kind (
            leaf "kill_grace_s" float_kind (
              leaf "claim_wait_s" float_kind (
                leaf "client_read_timeout_s" float_kind (
                  leaf "requeue_backoff_s" float_tuple_kind (
                    leaf "full_sweep_every" int_kind (
                      leaf "readyz_tick_factor" int_kind
                        (leaf "upload_timeout_s" float_kind end)))))))))))

abbrev pub blobs_fields : Schema
blobs_fields = leaf "log_bytes" int_kind (
    leaf "input_file_bytes" int_kind (
      leaf "input_job_bytes" int_kind (
        leaf "diagnostics_bytes" int_kind (
          leaf "deps_bytes" int_kind (
            leaf "compiled_bytes" int_kind (
              leaf "result_bytes" int_kind
                (leaf "waveform_bytes" int_kind (leaf "coverage_bytes" int_kind end))))))))

abbrev pub config_schema : Schema
config_schema = section "timing" timing_fields (
    section "toolchain" (leaf "digest" optional_str_kind end) (
      section "blobs" blobs_fields (
        leaf "client_token" optional_str_kind (
          leaf "worker_token" optional_str_kind (
            leaf "insecure_bind" bool_kind
              (leaf "control_url" str_kind (leaf "data_dir" str_kind end)))))))

unfoldable pub walk : String → Schema → List (String × Kind)
walk prefix end = []
walk prefix (leaf name kind rest) = (prefix ++ˢ name, kind) ∷ walk prefix rest
walk prefix (section name fields rest) = walk ((prefix ++ˢ name) ++ˢ ".") fields ++ walk prefix rest

-- _KINDS
unfoldable pub field_kinds : List (String × Kind)
unfolding walk
field_kinds = walk "" config_schema

abbrev pub env_prefix : String
env_prefix = "RTLFARM_"

abbrev pub non_config_env : List String
non_config_env = "RTLFARM_TEST_HOOKS" ∷ "RTLFARM_UPDATE_SNAPSHOTS" ∷ []

-- What follows the prefix in a text that starts with it.
unfoldable pub after_prefix : String → String → Option String
after_prefix String.[] s = some s
after_prefix (String.◌∷◌ c p) String.[] = none
after_prefix (String.◌∷◌ c p) (String.◌∷◌ d s) = elim (code c == code d) [
  | true ↦ after_prefix p s
  | false ↦ none
]

-- s.replace("__", ".")
unfoldable pub dotted : String → String
dotted String.[] = String.[]
dotted (String.◌∷◌ c String.[]) = String.◌∷◌ c String.[]
dotted (String.◌∷◌ c (String.◌∷◌ d s)) = elim (code c == b'_' && code d == b'_') [
  | true ↦ "." ++ˢ dotted s
  | false ↦ String.◌∷◌ c (dotted (String.◌∷◌ d s))
]
