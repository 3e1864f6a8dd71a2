-- ===== src/Blobs.antt =====
-- src/rtlfarm/control/blobstore.py: the content-addressed store, and one upload into it.
--
-- The names under `sha256/` are digests, and those under `tmp/` are the ids that `uuid4` gives, an
-- argument. A request's body is its chunks in the order in which they come; it may break off. Nothing
-- passes `fsync`, so the branches under it have no model. SHA-256 in hex is an argument.
pub mod Ingest
pub mod Checks
pub mod Steps
pub mod Held
pub mod Safe
pub mod Sequential
pub mod Routes
pub mod Served
mod Samples
use rtlfarm.Prelude.{
  ℕ, suc, ◌+◌, ◌*◌, ◌^◌, String, Bool, true, false, map, List, [], ◌∷◌, ◌++◌, ◌==◌, length, ltb,
  lookup, insert, erase, Option, none, some, if◌then◌else◌, select, keys, not, string_eq, nat_eq,
}
use rtlfarm.Sorting.{sorted, text_leq}

abbrev pub Bytes : Type 0
Bytes = List ℕ

-- BlobsConfig: the cap of each kind, in bytes.
pub record BlobsConfig : Type 0 where
  pub log_bytes : ℕ
  pub input_file_bytes : ℕ
  pub input_job_bytes : ℕ
  pub diagnostics_bytes : ℕ
  pub deps_bytes : ℕ
  pub compiled_bytes : ℕ
  pub result_bytes : ℕ
  pub waveform_bytes : ℕ
  pub coverage_bytes : ℕ

abbrev pub mib : ℕ
mib = 1024 * 1024

abbrev pub default_caps : BlobsConfig
default_caps = record {
  log_bytes = 16 * mib;
  input_file_bytes = 64 * mib;
  input_job_bytes = 512 * mib;
  diagnostics_bytes = 4 * mib;
  deps_bytes = 4 * mib;
  compiled_bytes = 256 * mib;
  result_bytes = 1 * mib;
  waveform_bytes = 512 * mib;
  coverage_bytes = 64 * mib;
}

-- KIND_CAPS, each field as the function that reads it.
abbrev pub kind_caps : List (String × (BlobsConfig → ℕ))
kind_caps =
    ("log.stdout", λ c. c.log_bytes)
    ∷ ("log.stderr", λ c. c.log_bytes)
    ∷ ("input", λ c. c.input_file_bytes)
    ∷ ("diagnostics.json", λ c. c.diagnostics_bytes)
    ∷ ("deps.txt", λ c. c.deps_bytes)
    ∷ ("compiled", λ c. c.compiled_bytes)
    ∷ ("result.json", λ c. c.result_bytes)
    ∷ ("waveform.fst", λ c. c.waveform_bytes)
    ∷ ("coverage.dat", λ c. c.coverage_bytes)
    ∷ ("coverage.info", λ c. c.coverage_bytes)
    ∷ []

pub data BlobError : Type 0 where
  unknown_blob_kind : (kind : String) → BlobError
  invalid_digest : (digest : String) → BlobError
  blob_too_large : (kind : String) (cap : ℕ) → BlobError
  digest_mismatch : (expected actual : String) → BlobError

-- `none` is UnknownBlobKind.
unfoldable pub cap_for : String → BlobsConfig → Option ℕ
cap_for kind caps = elim (lookup kind_caps kind) [ none ↦ none | some field ↦ some (field caps) ]

-- The files under sha256/, and those under tmp/.
pub record Store : Type 0 where
  pub files : List (String × Bytes)
  pub tmp : List (String × Bytes)

-- path_for(sha256).is_file()
unfoldable pub has : Store → String → Bool
has store sha256 = elim (lookup store.files sha256) [ none ↦ false | some content ↦ true ]

-- The stored size, or `none` when the file is absent.
unfoldable pub size : Store → String → Option ℕ
size store sha256 = elim (lookup store.files sha256) [
  | none ↦ none
  | some content ↦ some (length content)
]

-- What stands in `tmp/`, by name: a file with its time of last modification, or something else.
abbrev pub TmpDir : Type 0 → Type 0
TmpDir Time = List (String × Option Time)

-- Time, with the arithmetic of floats that the sweep uses.
module _ {Time : Type 0} (minus : Time → Time → Time) (less : Time → Time → Bool) where
  abbrev pub is_stale : Time → Time → Option Time → Bool
  is_stale older_than_s now_s none = false
  is_stale older_than_s now_s (some mtime) = less older_than_s (minus now_s mtime)

  -- for path in sorted(tmp.iterdir()): the names that are deleted, and what is left.
  unfoldable pub sweep_tmp : Time → Time → TmpDir Time → List String × TmpDir Time
  sweep_tmp older_than_s now_s dir = (
    map (λ p. p.0)
        (select (λ p. is_stale older_than_s now_s p.1) (sorted (λ p q. text_leq p.0 q.0) dir)),
    select (λ p. not (is_stale older_than_s now_s p.1)) dir,
  )
