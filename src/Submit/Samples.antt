-- ===== src/Submit/Samples.antt =====
-- The sample job, submitted to an empty farm that has its blobs.
use rtlfarm.Prelude.{
  String, ◌≡◌, refl, ◌↔◌, ◌≢◌, false, List, [], ◌∷◌, map, Memᴰ, All, All-Memᴰ, ◌≤◌, Option, true, ℕ,
  keys, length, none, some, ok, string_eq, arith,
}
use rtlfarm.Models.{Role}
use rtlfarm.Sorting.{sorted, place, text_leq, precedes}
use rtlfarm.Dag.Tasks.{unique}
use rtlfarm.Manifest.{ManifestEntry, Manifest}
use rtlfarm.Dag.{TaskSpec}
use rtlfarm.Dag.Settings.{HasSettings, expand-HasSettings}
use rtlfarm.Dag.Samples.{codec, manifest, everything, ulid, job, valid, ulid_ok, returns}
use rtlfarm.Submit.Tables.{Db}
use rtlfarm.Submit.Write.{new, original, conflict, replay, write_job}
use rtlfarm.Submit.Stored.{IsJob}
use rtlfarm.Submit.Transaction.{after}
use rtlfarm.Submit.Farm.{printer, submission, empty, empty-IsSound, not_any, checked}
use rtlfarm.Submit.Retry.{retry}
use rtlfarm.Submit.Made.{expand-IsJob}
use rtlfarm.Models.{is_sha256}
use rtlfarm.Submit.Checks.{
  ApiError, bad_digest, job_too_large, fine, refused, resolve_digest, check_sizes, manifest_issues,
  manifest_from,
}
use rtlfarm.Submit.Accepted.{AreStored, sum, resolve_digest_sound, check_sizes_lem}
use rtlfarm.Config.{validate_timing, failures}
use rtlfarm.Config.Timing.{exact}
use rtlfarm.Config.Samples.{defaults}
use rtlfarm.Models.{role_beq}
use rtlfarm.Pipeline.Parse.{parsed}
use rtlfarm.Pack.{entry_leq, target_issues, file_issues}
use rtlfarm.Pack.Collect.{role_index}
use rtlfarm.Submit.Manifested.{IsAccepted, manifest_from_sound}
use rtlfarm.Submit.Handler.{Services, SubmitRequest, submit}
use rtlfarm.Submit.Atomic.{Ends, submit_atomic}
use rtlfarm.Submit.Sizes.{missing, missing_lem}

made : IsJob job
made =
    expand-IsJob codec manifest everything ulid 5 "00" false job valid ulid_ok (omega arith) not_any
      returns

expand-HasSettings_example :
    (job.job_id ≡ ulid)
    × (job.toolchain_digest ≡ "00")
    × ((t : TaskSpec) → Memᴰ t job.tasks → HasSettings 5 "00" false t)
expand-HasSettings_example =
    expand-HasSettings codec manifest everything ulid 5 "00" false job returns

stored : Db
stored = after printer job manifest everything submission empty empty-IsSound made checked

retry_example :
    (replay empty "k1" "other" ≡ new)
    × ((stored : Db)
        → write_job printer job manifest everything submission empty ≡ ok stored
        → ("other" ≡ job.submission_hash
            → replay stored "k1" "other" ≡ original job.job_id (length job.tasks))
          × (("other" ≡ job.submission_hash → ⊥)
              → replay stored "k1" "other" ≡ conflict job.job_id))
retry_example =
    retry printer job manifest everything submission empty empty-IsSound made checked "k1" "other"
      refl

-- Three files, two of them alike, one of them not stored.
abbrev file : String → String → ManifestEntry
file path digest = record { path = path; role = Role.rtl; ordinal = 0; sha256 = digest; size = 1 }

abbrev three : List ManifestEntry
three = file "a" "02" ∷ file "b" "00" ∷ file "c" "02" ∷ []

one_missing : missing empty.blobs three ≡ "02" ∷ []
unfolding missing unique sorted place text_leq precedes
one_missing = refl

missing_lem_example :
    Memᴰ "02" (missing empty.blobs three)
    ↔ (Memᴰ "02" (map (λ f. ManifestEntry.sha256 f) three) × (¬ Memᴰ "02" (keys empty.blobs)))
missing_lem_example = missing_lem empty.blobs three "02"

-- The pipeline has no pin, and the farm's own pin is empty.
abbrev digest : String
digest = "e3b0c44298fc1c149afbf4c8996fb92427ae41e4649b934ca495991b7852b855"

candidates : List (Option String)
candidates = some "" ∷ none ∷ some digest ∷ []

is_resolved : resolve_digest candidates ≡ fine digest
unfolding resolve_digest candidates is_sha256
is_resolved = refl

short_digest : resolve_digest (none ∷ some "any" ∷ []) ≡ refused (bad_digest "any")
unfolding resolve_digest is_sha256
short_digest = refl

resolve_digest_sound_example :
    Memᴰ (some digest) candidates × (is_sha256 digest ≡ true) × (digest ≢ "any")
resolve_digest_sound_example = resolve_digest_sound candidates digest is_resolved

stored_files : (f : ManifestEntry) → Memᴰ f manifest.files → Memᴰ f.sha256 (keys empty.blobs)
stored_files f m =
    All-Memᴰ (λ f. Memᴰ (ManifestEntry.sha256 f) (keys empty.blobs)) manifest.files
      (Memᴰ.head refl, (Memᴰ.head refl, tt)) m

over_cap : check_sizes 1 1 empty.blobs manifest.files ≡ ok (some (job_too_large 2 1))
unfolding check_sizes
over_cap = refl

check_sizes_lem_example :
    (sizes : List ℕ) × AreStored empty.blobs manifest.files sizes
    × (verdict : Option ApiError) × (check_sizes 64 512 empty.blobs manifest.files ≡ ok verdict)
    × ((verdict ≡ none) ↔ (
        (map (λ f. ManifestEntry.size f) manifest.files ≡ sizes)
        × All (λ n. n ≤ 64) sizes
        × (sum sizes ≤ 512)))
check_sizes_lem_example = check_sizes_lem 64 512 empty.blobs manifest.files stored_files

abbrev accepted : Manifest
accepted = record manifest { files = sorted entry_leq manifest.files }

is_accepted :
    manifest_from (exact 1) defaults (parsed manifest.pipeline) "counter" manifest.files
    ≡ fine accepted
unfolding manifest_from manifest_issues target_issues file_issues validate_timing failures sorted
    place role_index role_beq
is_accepted = refl

manifest_from_sound_example :
    IsAccepted (exact 1) defaults (parsed manifest.pipeline) "counter" manifest.files accepted
manifest_from_sound_example =
    manifest_from_sound (exact 1) defaults (parsed manifest.pipeline) "counter" manifest.files
      accepted is_accepted

abbrev farm : Services
farm = record {
  floats = exact 1;
  timing = defaults;
  toolchain_digest = some digest;
  input_file_bytes = 64;
  input_job_bytes = 512;
  printer = printer;
}

abbrev request : SubmitRequest
request = record {
  design = "counter";
  files = manifest.files;
  selection = everything;
  priority = 5;
  no_cache = false;
  toolchain_digest = none;
  label = none;
}

submit_atomic_example :
    Ends farm request
      (some "k1")
      7
      1_469_918_176_385
      (parsed manifest.pipeline)
      empty
      (submit farm request (some "k1") 7 1_469_918_176_385 (parsed manifest.pipeline) empty)
submit_atomic_example =
    submit_atomic farm request (some "k1") 7 1_469_918_176_385 (parsed manifest.pipeline) empty
