-- ===== src/Blobs/Routes.antt =====
-- src/rtlfarm/control/routes/blobs.py: upload and download.
--
-- The rows of the table `blobs` are `(sha256, size)`, as in the tables of a submission.
use rtlfarm.Prelude.{
  ℕ, zero, suc, String, Bool, true, false, List, [], ◌∷◌, ◌++◌, length, lookup, contains, keys,
  take, drop, Option, none, some, if◌then◌else◌, string_eq,
}
use rtlfarm.Models.{is_sha256}
use rtlfarm.Blobs.{
  Bytes, BlobsConfig, BlobError, unknown_blob_kind, invalid_digest, blob_too_large, digest_mismatch,
  Store,
}
use rtlfarm.Blobs.Ingest.{Outcome, stored, failed, broken_off, file_not_found, Body, ingest}

abbrev pub BlobRows : Type 0
BlobRows = List (String × ℕ)

-- INSERT ... ON CONFLICT (sha256) DO NOTHING, and whether a row was written.
unfoldable pub insert_blob : BlobRows → String → ℕ → Bool × BlobRows
insert_blob rows sha256 size =
    if contains (keys rows) sha256 then (false, rows) else (true, rows ++ (sha256, size) ∷ [])

-- The status of an error, its code, and the header that it points to.
pub record Refusal : Type 0 where
  pub status : ℕ
  pub code : String
  pub pointer : Option String

abbrev pub refusal : BlobError → Refusal
refusal (unknown_blob_kind kind) = record {
  status = 422;
  code = "VALIDATION";
  pointer = some "/header/x-blob-kind";
}
refusal (invalid_digest digest) = record {
  status = 422;
  code = "VALIDATION";
  pointer = some "/header/x-content-sha256";
}
refusal (blob_too_large kind cap) = record {
  status = 413;
  code = "PAYLOAD_TOO_LARGE";
  pointer = none;
}
refusal (digest_mismatch expected actual) = record {
  status = 400;
  code = "DIGEST_MISMATCH";
  pointer = none;
}

-- 201, 200, an ApiError, or an exception that nothing catches.
pub data UploadReply : Type 0 where
  created existing : (sha256 : String) → (size : ℕ) → UploadReply
  refused_with : Refusal → UploadReply
  unhandled : Outcome → UploadReply

unfoldable pub after_ingest : BlobRows → Outcome × Store → UploadReply × BlobRows × Store
unfolding insert_blob
after_ingest rows (stored sha256 size new_file, store) =
    let (inserted, rows') = insert_blob rows sha256 size in
    (if inserted then created sha256 size else existing sha256 size, rows', store)
after_ingest rows (failed e, store) = (refused_with (refusal e), rows, store)
after_ingest rows (broken_off, store) = (unhandled broken_off, rows, store)
after_ingest rows (file_not_found, store) = (unhandled file_not_found, rows, store)

unfoldable pub upload :
    (Bytes → String)
    → BlobsConfig
    → String
    → String
    → String
    → Body
    → BlobRows
    → Store
    → UploadReply × BlobRows × Store
unfolding after_ingest
upload sha256 caps id kind expected body rows store =
    after_ingest rows (ingest sha256 caps id kind expected body store)

-- `await f.read(_CHUNK)` until it returns nothing: each round reads at least a byte.
unfoldable pub pieces : ℕ → ℕ → Bytes → List Bytes
pieces n zero content = []
pieces n (suc fuel) [] = []
pieces n (suc fuel) (b ∷ bs) = take n (b ∷ bs) ∷ pieces n fuel (drop n (b ∷ bs))

abbrev pub chunk_size : ℕ
chunk_size = 65536

unfoldable pub file_chunks : Bytes → List Bytes
unfolding pieces
file_chunks content = pieces chunk_size (length content) content

pub data DownloadReply : Type 0 where
  -- 422: the path does not match; 404; 410
  not_a_digest not_found blob_missing : DownloadReply
  -- ETag, Content-Length and the body
  sent : (etag : String) → (content_length : ℕ) → (body : List Bytes) → DownloadReply

unfoldable pub download : String → BlobRows → Store → DownloadReply
unfolding file_chunks
download sha256 rows store =
    if is_sha256 sha256
    then elim (lookup rows sha256) [
      | none ↦ not_found
      | some size ↦ elim (lookup store.files sha256) [
        | none ↦ blob_missing
        | some content ↦ sent sha256 size (file_chunks content)
      ]
    ]
    else not_a_digest
