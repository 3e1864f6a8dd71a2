-- ===== src/Blobs/Samples.antt =====
-- Uploads of a few bytes, with a digest that tells contents apart by their length.
use rtlfarm.Prelude.{
  ℕ, ◌-◌, ltb, String, ◌≡◌, refl, true, List, [], ◌∷◌, ◌==◌, if◌then◌else◌, length, lookup,
  gather_all, none, some, contains, keys, string_eq, nat_eq, arith,
}
use rtlfarm.Models.{is_sha256}
use rtlfarm.Sorting.{sorted, place, text_leq}
use rtlfarm.Blobs.{Bytes, BlobsConfig, Store, default_caps, cap_for, has, blob_too_large, sweep_tmp}
use rtlfarm.Blobs.Ingest.{Upload, failed, admit, receive, finish, run, ingest}
use rtlfarm.Blobs.Sequential.{body_of, ingest_whole, ingest_lem}
use rtlfarm.Blobs.Steps.{System, opens, takes, ends, Reach, here, next, IsSafe}
use rtlfarm.Blobs.Safe.{Reach-IsSafe}
use rtlfarm.Blobs.Routes.{BlobRows, UploadReply, created, existing, upload, sent, download}
use rtlfarm.Blobs.Served.{upload-download}

abbrev digest_of_four : String
digest_of_four = "4444444444444444444444444444444444444444444444444444444444444444"

abbrev digest_of_others : String
digest_of_others = "0000000000000000000000000000000000000000000000000000000000000000"

abbrev toy_hash : Bytes → String
toy_hash content = if length content == 4 then digest_of_four else digest_of_others

abbrev no_files : Store
no_files = record { files = []; tmp = [] }

abbrev chunks : List Bytes
chunks = (104 ∷ 101 ∷ []) ∷ (121 ∷ 10 ∷ []) ∷ []

ingest_lem_example :
    ingest toy_hash default_caps "u1" "input" digest_of_four (body_of chunks) no_files
    ≡ ingest_whole toy_hash default_caps "input" digest_of_four
        (gather_all (λ c. c) chunks)
        no_files
ingest_lem_example =
    ingest_lem toy_hash default_caps "u1" "input" digest_of_four chunks no_files refl

-- A cap of three bytes.
abbrev tight : BlobsConfig
tight = record default_caps { input_file_bytes = 3 }

too_large :
    ingest toy_hash tight "u1" "input" digest_of_four (body_of chunks) no_files
    ≡ (failed (blob_too_large "input" 3), no_files)
unfolding ingest admit receive cap_for is_sha256 run
too_large = refl

abbrev idle : System
idle = record { store = no_files; running = [] }

idle-IsSafe : IsSafe toy_hash default_caps idle
idle-IsSafe = record {
  addressed = λ name content h. absurd cc;
  held = λ id u h. absurd cc;
  owned = λ id content h. absurd cc;
}

abbrev upload_of : Bytes → ℕ → Upload
upload_of content size = record {
  id = "u1";
  kind = "input";
  cap = 67108864;
  expected = digest_of_four;
  size = size;
  content = content;
}

abbrev content : Bytes
content = 104 ∷ 101 ∷ 121 ∷ 10 ∷ []

abbrev one_file : System
one_file = record {
  store = record { files = (digest_of_four, content) ∷ []; tmp = [] };
  running = [];
}

reached : Reach toy_hash default_caps idle one_file
unfolding admit receive finish cap_for is_sha256 has
reached =
    next
      (next (next here (opens "u1" "input" digest_of_four (upload_of [] 0) refl refl)) (
        takes "u1" content (upload_of [] 0) (upload_of content 4)
          (record { files = []; tmp = ("u1", content) ∷ [] }) refl refl))
      (ends "u1" (upload_of content 4) refl)

Reach-IsSafe_example :
    IsSafe toy_hash default_caps one_file
    × ((name : String) (c : Bytes)
        → lookup no_files.files name ≡ some c
        → lookup one_file.store.files name ≡ some c)
Reach-IsSafe_example = Reach-IsSafe toy_hash default_caps idle-IsSafe reached

cap_of_input : cap_for "input" default_caps ≡ some 67108864
unfolding cap_for
cap_of_input = refl

is_digest : is_sha256 digest_of_four ≡ true
unfolding is_sha256
is_digest = refl

abbrev no_rows : BlobRows
no_rows = []

-- Of a file of each age, something else, and a file as old as the limit, the first is deleted.
swept :
    sweep_tmp ◌-◌ ltb 10 100 (("b", some 50) ∷ ("c", none) ∷ ("a", some 95) ∷ ("d", some 90) ∷ [])
    ≡ ("b" ∷ [], ("c", none) ∷ ("a", some 95) ∷ ("d", some 90) ∷ [])
unfolding sweep_tmp sorted place text_leq
swept = refl

upload-download_example :
    let out : UploadReply × BlobRows × Store =
      upload toy_hash default_caps "u1" "input" digest_of_four (body_of chunks) no_rows no_files in
    (out.0 ≡ (
      if contains (keys no_rows) digest_of_four
      then existing digest_of_four 4
      else created digest_of_four 4))
    × (parts : List Bytes) × (download digest_of_four out.1 out.2 ≡ sent digest_of_four 4 parts)
    × (gather_all (λ c. c) parts ≡ content)
upload-download_example =
    upload-download toy_hash default_caps "u1" "input" digest_of_four 67108864 chunks no_rows
      no_files refl cap_of_input (omega arith) is_digest refl (λ old h. absurd cc)
      (λ n h. absurd cc)
