-- ===== src/Blobs/Ingest.antt =====
-- `BlobStore.ingest`, cut where it awaits: opening, one chunk, and the end.
use rtlfarm.Prelude.{
  ℕ, ◌+◌, String, Bool, true, false, not, [], ◌++◌, ◌==◌, length, ltb, lookup, insert, erase, none,
  some, ◌⊎◌, inl, inr, if◌then◌else◌, string_eq,
}
use rtlfarm.Models.{is_sha256}
use rtlfarm.Blobs.{
  Bytes, BlobsConfig, BlobError, unknown_blob_kind, invalid_digest, blob_too_large, digest_mismatch,
  cap_for, Store, has,
}

-- The local variables of an upload in progress; the hasher has taken in `content`.
pub record Upload : Type 0 where
  pub id : String
  pub kind : String
  pub cap : ℕ
  pub expected : String
  pub size : ℕ
  pub content : Bytes

-- IngestResult, one of the errors, or an exception that no one of these is: the body broke off, or the
-- temporary file was gone when it was to be renamed.
pub data Outcome : Type 0 where
  stored : (sha256 : String) → (size : ℕ) → (created : Bool) → Outcome
  failed : BlobError → Outcome
  broken_off : Outcome
  file_not_found : Outcome

pub data Body : Type 0 where
  end : Body
  chunk : Bytes → Body → Body
  breaks : Body

-- The checks before a byte is read.
unfoldable pub admit : BlobsConfig → String → String → String → BlobError ⊎ Upload
admit caps id kind expected = elim (cap_for kind caps) [
  | none ↦ inl (unknown_blob_kind kind)
  | some cap ↦
      if is_sha256 expected
      then inr
          (record { id = id; kind = kind; cap = cap; expected = expected; size = 0; content = [] })
      else inl (invalid_digest expected)
]

-- tmp.open("wb")
abbrev pub open_tmp : Store → String → Store
open_tmp store id = record store { tmp = insert store.tmp id [] }

-- tmp.unlink(missing_ok=True)
abbrev pub drop_tmp : Store → String → Store
drop_tmp store id = record store { tmp = erase store.tmp id }

pub data Received : Type 0 where
  refused : BlobError → Store → Received
  taken : Upload → Store → Received

-- One chunk: its size against the cap, then `_absorb`.
unfoldable pub receive : Upload → Bytes → Store → Received
receive u bytes store =
    let size : ℕ = u.size + length bytes in
    if ltb u.cap size
    then refused (blob_too_large u.kind u.cap) (drop_tmp store u.id)
    else taken (record u { size = size; content = u.content ++ bytes })
        (record store { tmp = insert store.tmp u.id (u.content ++ bytes) })

-- os.replace(tmp, final)
abbrev pub replace : Store → String → String → Outcome → Outcome × Store
replace store id final result = elim (lookup store.tmp id) [
  | none ↦ (file_not_found, store)
  | some content ↦
      (result, record store { files = insert store.files final content; tmp = erase store.tmp id })
]

-- tmp.unlink(), where the file is expected
abbrev pub unlink : Store → String → Outcome → Outcome × Store
unlink store id result = elim (lookup store.tmp id) [
  | none ↦ (file_not_found, store)
  | some content ↦ (result, drop_tmp store id)
]

module _ (sha256 : Bytes → String) where
  -- After the last chunk.
  unfoldable pub finish : Upload → Store → Outcome × Store
  finish u store =
      let actual : String = sha256 u.content in
      if not (actual == u.expected)
      then (failed (digest_mismatch u.expected actual), drop_tmp store u.id)
      else if has store u.expected
      then unlink store u.id (stored u.expected u.size false)
      else replace store u.id u.expected (stored u.expected u.size true)

  unfoldable pub run : Body → Upload → Store → Outcome × Store
  run end u store = finish u store
  run breaks u store = (broken_off, drop_tmp store u.id)
  run (chunk bytes body) u store = elim (receive u bytes store) [
    | refused e store' ↦ (failed e, store')
    | taken u' store' ↦ run body u' store'
  ]

  unfoldable pub ingest : BlobsConfig → String → String → String → Body → Store → Outcome × Store
  ingest caps id kind expected body store = elim (admit caps id kind expected) [
    | inl e ↦ (failed e, store)
    | inr u ↦ run body u (open_tmp store id)
  ]
