-- ===== src/Submit/Farm.antt =====
-- An empty farm with the blobs of the sample job, and a submission of that job.
use mathlib.Core.List.Memᴰ
use rtlfarm.Prelude.{
  ◌≤◌, ◌≡◌, ℕ, true, all, all_iff, leb, String, refl, ◌≢◌, false, [], ◌∷◌, map, Memᴰ, All-Memᴰ,
  keys, none, some, is_distinct-Distinct, beq-false, string_eq, arith,
}
use rtlfarm.Dag.{TaskSpec}
use rtlfarm.Manifest.{ManifestEntry}
use rtlfarm.Dag.Samples.{codec, manifest, job}
use rtlfarm.Submit.Tables.{Db, max_integer}
use rtlfarm.Submit.Write.{Submission, Printer}
use rtlfarm.Submit.Stored.{IsSound, IsChecked, IsStorable}

abbrev pub printer : Printer
printer = record { codec = codec; dumps_spaced = λ j. "{}"; params_json = λ p a. "{}" }

abbrev pub submission : Submission
submission = record {
  priority = 5;
  no_cache = false;
  label = none;
  idempotency_key = some "k1";
  now = 1_469_918_176_385;
}

abbrev pub empty : Db
empty = record {
  jobs = [];
  inputs = [];
  tasks = [];
  deps = [];
  attempts = [];
  events = [];
  blobs = ("00", 1) ∷ ("01", 9) ∷ [];
}

pub empty-IsSound : IsSound empty
empty-IsSound = record {
  inputs = λ r m. absurd (Memᴰ.not-nil m);
  owned = λ r m. absurd (Memᴰ.not-nil m);
  parts = λ r m. absurd (Memᴰ.not-nil m);
  text = λ r m. absurd (Memᴰ.not-nil m);
  deps = λ r m. absurd (Memᴰ.not-nil m);
  attempts = λ a m. absurd (Memᴰ.not-nil m);
  events = λ r m. absurd (Memᴰ.not-nil m);
}

abbrev pub pinned_to : String
pinned_to = "00"

pub not_any : pinned_to ≢ "any"
not_any = beq-false pinned_to "any" refl

pub checked : IsChecked empty job manifest submission
checked = record {
  fresh = Memᴰ.not-nil;
  unused = refl;
  priority = omega arith;
  stored = λ f m.
      All-Memᴰ (λ f. Memᴰ (ManifestEntry.sha256 f) (keys empty.blobs)) manifest.files
        (Memᴰ.head refl, (Memᴰ.head refl, tt)) m;
  paths = is_distinct-Distinct (map (λ f. ManifestEntry.path f) manifest.files) refl;
}

low-max_integer : (n : ℕ) → leb n max_integer ≡ true → n ≤ max_integer
low-max_integer n h = ground arith

pub storable : IsStorable job manifest submission
unfolding job
storable = record {
  now = omega arith;
  count = omega arith;
  files = λ f m.
      All-Memᴰ (λ (f : ManifestEntry). (f.ordinal ≤ max_integer) × (f.size ≤ max_integer))
        manifest.files ((omega arith, omega arith), ((omega arith, omega arith), tt)) m;
  seeds = λ t m. low_all (λ t. TaskSpec.seed t) refl t m;
  timeouts = λ t m. low_all (λ t. TaskSpec.timeout_s t) refl t m;
  retries = λ t m. (
    low_all (λ t. TaskSpec.max_infra t) refl t m,
    (
      low_all (λ t. TaskSpec.max_timeout t) refl t m,
      low_all (λ t. TaskSpec.max_tool_error t) refl t m,
    ),
  );
}
  where
    low_all :
        (f : TaskSpec → ℕ)
        → all (λ t. leb (f t) max_integer) job.tasks ≡ true
        → (t : TaskSpec) → Memᴰ t job.tasks
        → f t ≤ max_integer
    low_all f h t m = low-max_integer (f t) (
        All-Memᴰ (λ t. leb (f t) max_integer ≡ true) job.tasks
          ((all_iff (λ t. leb (f t) max_integer) job.tasks).0 h) m)
