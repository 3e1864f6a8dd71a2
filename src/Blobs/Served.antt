-- ===== src/Blobs/Served.antt =====
-- What is uploaded can be downloaded.
use rtlfarm.Prelude.{
  ℕ, zero, suc, ◌≤◌, String, ◌≡◌, refl, sym, ap, subst, ◌∙◌, inl, inr, Bool, true, false, List, [],
  ◌∷◌, ◌++◌, ◌==◌, length, ltb, lookup, insert, contains, keys, take, drop, take-drop, length-drop,
  gather_all, none, some, if◌then◌else◌, Bool-cases, Option-cases, string_eq, arith,
}
use rtlfarm.Models.{is_sha256}
use rtlfarm.Blobs.{Bytes, BlobsConfig, cap_for, Store}
use rtlfarm.Blobs.Ingest.{stored, ingest}
use rtlfarm.Blobs.Checks.{has_absent, has_present}
use rtlfarm.Blobs.Sequential.{body_of, ingest_whole, ingest_lem}
use rtlfarm.Blobs.Held.{insert_same}
use rtlfarm.Blobs.Routes.{
  BlobRows, insert_blob, UploadReply, created, existing, after_ingest, upload, pieces, file_chunks,
  sent, download,
}

pieces-content :
    (n fuel : ℕ) (content : Bytes)
    → length content ≤ fuel
    → gather_all (λ c. c) (pieces (suc n) fuel content) ≡ content
unfolding pieces
pieces-content n zero [] enough = refl
pieces-content n zero (b ∷ bs) enough = absurd (omega arith)
pieces-content n (suc fuel) [] enough = refl
pieces-content n (suc fuel) (b ∷ bs) enough =
    ap (λ l. b ∷ take n bs ++ l)
      (pieces-content n fuel (drop n bs) (omega (arith, length-drop n bs)))
    ∙ ap (λ l. b ∷ l) (take-drop n bs)

file_chunks-content : (content : Bytes) → gather_all (λ c. c) (file_chunks content) ≡ content
unfolding file_chunks
file_chunks-content content = pieces-content 65535 (length content) content (omega arith)

-- What the row of a digest says after the insertion.
lookup-append :
    (rows : BlobRows) (k : String) (n : ℕ)
    → contains (keys rows) k ≡ false
    → lookup (rows ++ (k, n) ∷ []) k ≡ some n
lookup-append [] k n new = rw ((string_eq.beq_iff k k).1 refl) refl
lookup-append ((j, m) ∷ rows) k n new =
    ground (arith, lookup-append rows k n, string_eq.beq_iff k j, string_eq.beq_iff j k)

lookup_of_keys :
    (rows : BlobRows) (k : String)
    → contains (keys rows) k ≡ true
    → (n : ℕ) × (lookup rows k ≡ some n)
lookup_of_keys [] k there = absurd cc
lookup_of_keys ((j, m) ∷ rows) k there = elim (Bool-cases (j == k)) [
  | inl same ↦ (m, rw same refl)
  | inr other ↦
      let (n, found) =
        lookup_of_keys rows k (ground (arith, string_eq.beq_iff k j, string_eq.beq_iff j k)) in
      (n, rw other found)
]

insert_blob-row :
    (rows : BlobRows) (k : String) (n : ℕ)
    → ((m : ℕ) → lookup rows k ≡ some m → m ≡ n)
    → lookup (insert_blob rows k n).1 k ≡ some n
unfolding insert_blob
insert_blob-row rows k n agree = elim (Bool-cases (contains (keys rows) k)) [
  | inl there ↦
      let (m, found) = lookup_of_keys rows k there in rw there (found ∙ ap some (agree m found))
  | inr new ↦ rw new (lookup-append rows k n new)
]

module _ (sha256 : Bytes → String) (caps : BlobsConfig) (id kind expected : String) (cap : ℕ)
    (chunks : List Bytes) (store : Store) where
  abbrev whole : Bytes
  whole = gather_all (λ c. c) chunks

  ingest_fine :
      lookup store.tmp id ≡ none
      → cap_for kind caps ≡ some cap
      → length whole ≤ cap
      → is_sha256 expected ≡ true
      → sha256 whole ≡ expected
      → ((old : Bytes) → lookup store.files expected ≡ some old → old ≡ whole)
      → (new_file : Bool) × (after : Store) × (ingest sha256 caps id kind expected
            (body_of chunks)
            store
          ≡ (stored expected (length whole) new_file, after))
        × (lookup after.files expected ≡ some whole)
  ingest_fine new known fits digest hashes genuine =
      let small : ltb cap (length whole) ≡ false = ground arith in
      let same : sha256 whole == expected ≡ true =
        (string_eq.beq_iff (sha256 whole) expected).1 hashes in
      let done = ingest_lem sha256 caps id kind expected chunks store new in
      elim (Option-cases (lookup store.files expected)) [
        | inl absent ↦ (
          true,
          record store { files = insert store.files expected whole },
          done
              ∙ rw (known, ingest_whole, digest, small, same, has_absent store expected absent)
                  refl,
          insert_same store.files expected expected whole
              ((string_eq.beq_iff expected expected).1 refl),
        )
        | inr (old, present) ↦ (
          false,
          store,
          done
              ∙ rw
                  (known, ingest_whole, digest, small, same, has_present store expected old present)
                  refl,
          present ∙ ap some (genuine old present),
        )
      ]

after_ingest_stored :
    (rows : BlobRows) (store : Store) (k : String) (n : ℕ) (new_file : Bool)
    → after_ingest rows (stored k n new_file, store) ≡ (
      if contains (keys rows) k then existing k n else created k n,
      (insert_blob rows k n).1,
      store,
    )
unfolding after_ingest insert_blob
after_ingest_stored rows store k n new_file = elim (Bool-cases (contains (keys rows) k)) [
  | inl there ↦ rw there refl
  | inr new ↦ rw new refl
]

download_present :
    (k : String) (rows : BlobRows) (store : Store) (n : ℕ) (content : Bytes)
    → is_sha256 k ≡ true
    → lookup rows k ≡ some n
    → lookup store.files k ≡ some content
    → download k rows store ≡ sent k n (file_chunks content)
unfolding download
download_present k rows store n content digest row file = rw (digest, row, file) refl

-- An upload of a known kind whose whole content is within the cap and has the digest that it claims is
-- answered 201, or 200 where the digest has a row; a download of the digest from the rows and the store
-- that it leaves then sends exactly the content, with its length. A file and a row of the digest that
-- were there are of this content, and the id of the upload is new.
pub upload-download :
    (sha256 : Bytes → String) (caps : BlobsConfig) (id kind expected : String) (cap : ℕ)
    (chunks : List Bytes) (rows : BlobRows) (store : Store)
    → lookup store.tmp id ≡ none
    → cap_for kind caps ≡ some cap
    → length (gather_all (λ c. c) chunks) ≤ cap
    → is_sha256 expected ≡ true
    → sha256 (gather_all (λ c. c) chunks) ≡ expected
    → ((old : Bytes) → lookup store.files expected ≡ some old → old ≡ gather_all (λ c. c) chunks)
    → ((n : ℕ) → lookup rows expected ≡ some n → n ≡ length (gather_all (λ c. c) chunks))
    → let content : Bytes = gather_all (λ c. c) chunks in
      let out : UploadReply × BlobRows × Store =
        upload sha256 caps id kind expected (body_of chunks) rows store in
      (out.0 ≡ (
        if contains (keys rows) expected
        then existing expected (length content)
        else created expected (length content)))
      × (parts : List Bytes) × (download expected out.1 out.2
          ≡ sent expected (length content) parts)
      × (gather_all (λ c. c) parts ≡ content)
unfolding upload
upload-download sha256 caps id kind expected cap chunks rows store new known fits digest hashes
      genuine sized =
    let content : Bytes = gather_all (λ c. c) chunks in
    let (new_file, after, done, there) =
      ingest_fine sha256 caps id kind expected cap chunks store new known fits digest hashes
        genuine in
    subst
      (λ (out : UploadReply × BlobRows × Store).
        (out.0 ≡ (
          if contains (keys rows) expected
          then existing expected (length content)
          else created expected (length content)))
        × (parts : List Bytes) × (download expected out.1 out.2
            ≡ sent expected (length content) parts)
        × (gather_all (λ c. c) parts ≡ content))
      (sym (
        ap (after_ingest rows) done
        ∙ after_ingest_stored rows after expected (length content) new_file))
      (
        refl,
        file_chunks content,
        download_present expected (insert_blob rows expected (length content)).1 after
            (length content) content digest (insert_blob-row rows expected (length content) sized)
            there,
        file_chunks-content content,
      )
