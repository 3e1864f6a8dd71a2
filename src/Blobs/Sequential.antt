-- ===== src/Blobs/Sequential.antt =====
-- An upload that nothing interrupts, described by its whole content.
use mathlib.Core.List.{append_assoc, append-nil}
use rtlfarm.Prelude.{
  ℕ, ◌+◌, ◌≤◌, String, ◌≡◌, refl, sym, ap, ◌∙◌, true, false, not, List, [], ◌∷◌, ◌++◌, ◌==◌, length,
  length-append, ltb, lookup, insert, gather_all, none, some, inl, inr, if◌then◌else◌, Bool-cases,
  Option-cases, lookup-insert, insert_twice, erase-insert_new, string_eq, arith,
}
use rtlfarm.Models.{is_sha256}
use rtlfarm.Blobs.{
  Bytes, BlobsConfig, unknown_blob_kind, invalid_digest, blob_too_large, digest_mismatch, cap_for,
  Store, has,
}
use rtlfarm.Blobs.Ingest.{
  Upload, Outcome, stored, failed, replace, unlink, Body, end, chunk, drop_tmp, finish, run, ingest,
}
use rtlfarm.Blobs.Checks.{
  has_absent, has_present, admit_unknown, admit_other, admit_fine, receive_over, receive_within,
}

abbrev pub body_of : List Bytes → Body
body_of [] = end
body_of (bytes ∷ more) = chunk bytes (body_of more)

module _ (sha256 : Bytes → String) where
  -- What becomes of a whole content: the checks in order, then a new file unless there is one.
  abbrev pub place_content : String → ℕ → String → Bytes → Store → Outcome × Store
  place_content kind cap expected content store =
      if ltb cap (length content)
      then (failed (blob_too_large kind cap), store)
      else if not (sha256 content == expected)
      then (failed (digest_mismatch expected (sha256 content)), store)
      else if has store expected
      then (stored expected (length content) false, store)
      else (
        stored expected (length content) true,
        record store { files = insert store.files expected content },
      )

  abbrev pub ingest_whole : BlobsConfig → String → String → Bytes → Store → Outcome × Store
  ingest_whole caps kind expected content store = elim (cap_for kind caps) [
    | none ↦ (failed (unknown_blob_kind kind), store)
    | some cap ↦
        if is_sha256 expected
        then place_content kind cap expected content store
        else (failed (invalid_digest expected), store)
  ]

module _ (sha256 : Bytes → String) (store : Store) (id : String)
    (new : lookup store.tmp id ≡ none) where
  -- The store while the upload has taken in `content`.
  abbrev during : Bytes → Store
  during content = record store { tmp = insert store.tmp id content }

  dropped : (content : Bytes) → drop_tmp (during content) id ≡ store
  dropped content i = record {
    files = store.files;
    tmp = erase-insert_new store.tmp id content new i;
  }

  there : (content : Bytes) → lookup (insert store.tmp id content) id ≡ some content
  there content = lookup-insert store.tmp id id content ∙ rw ((string_eq.beq_iff id id).1 refl) refl

  module _ (kind : String) (cap : ℕ) (expected : String) where
    -- The upload when it has taken in `content`.
    abbrev taking : ℕ → Bytes → Upload
    taking size content = record {
      id = id;
      kind = kind;
      cap = cap;
      expected = expected;
      size = size;
      content = content;
    }

    finish_lem :
        (size : ℕ) (content : Bytes)
        → size ≡ length content
        → size ≤ cap
        → finish sha256 (taking size content) (during content)
          ≡ place_content sha256 kind cap expected content store
    unfolding finish
    finish_lem size content sized fits =
        let small : ltb cap (length content) ≡ false = ground arith in
        elim (Bool-cases (sha256 content == expected)) [
          | inr other ↦
              rw (small, other)
                (λ i. (failed (digest_mismatch expected (sha256 content)), dropped content i))
          | inl same ↦ elim (Option-cases (lookup store.files expected)) [
            | inl absent ↦
                rw
                  (
                    small,
                    same,
                    has_absent (during content) expected absent,
                    has_absent store expected absent,
                    there content,
                    replace,
                  )
                  (λ i. (
                    stored expected (sized i) true,
                    record {
                      files = insert store.files expected content;
                      tmp = erase-insert_new store.tmp id content new i;
                    },
                  ))
            | inr (old, present) ↦
                rw
                  (
                    small,
                    same,
                    has_present (during content) expected old present,
                    has_present store expected old present,
                    there content,
                    unlink,
                  )
                  (λ i. (stored expected (sized i) false, dropped content i))
          ]
        ]

    run_lem :
        (chunks : List Bytes) (size : ℕ) (content : Bytes)
        → size ≡ length content
        → size ≤ cap
        → run sha256 (body_of chunks) (taking size content) (during content)
          ≡ place_content sha256 kind cap expected (content ++ gather_all (λ c. c) chunks) store
    unfolding run
    run_lem [] size content sized fits =
        finish_lem size content sized fits
        ∙ ap (λ l. place_content sha256 kind cap expected l store) (sym (append-nil content))
    run_lem (bytes ∷ more) size content sized fits =
        let whole : Bytes = gather_all (λ c. c) more in
        elim (Bool-cases (ltb cap (size + length bytes))) [
          | inl over ↦
              let large : ltb cap (length (content ++ (bytes ++ whole))) ≡ true =
                ground (arith, length-append content (bytes ++ whole), length-append bytes whole) in
              rw (receive_over (taking size content) bytes (during content) over, run, large)
                (λ i. (failed (blob_too_large kind cap), dropped content i))
          | inr within ↦
              rw
                (
                  receive_within (taking size content) bytes (during content) within,
                  run,
                  insert_twice store.tmp id content (content ++ bytes),
                )
                (run_lem more (size + length bytes) (content ++ bytes)
                    (ap (λ n. n + length bytes) sized ∙ sym (length-append content bytes))
                    (ground arith)
                  ∙ ap (λ l. place_content sha256 kind cap expected l store)
                      (append_assoc content bytes whole))
        ]

-- An upload whose body arrives whole ends the way that its content decides, however it is cut into
-- chunks: it is refused for its kind, its digest, its size or the digest that it does not have, in this
-- order, and the store is then as it was; else the file of its digest is written unless there is one.
-- Nothing of it is left in `tmp/`. The id of the upload is new.
pub ingest_lem :
    (sha256 : Bytes → String) (caps : BlobsConfig) (id kind expected : String) (chunks : List Bytes)
    (store : Store)
    → lookup store.tmp id ≡ none
    → ingest sha256 caps id kind expected (body_of chunks) store
      ≡ ingest_whole sha256 caps kind expected (gather_all (λ c. c) chunks) store
unfolding ingest
ingest_lem sha256 caps id kind expected chunks store new = elim (Option-cases (cap_for kind caps)) [
  | inl unknown ↦
      rw (admit_unknown caps id kind expected unknown, ingest)
        (sym (rw (unknown, ingest_whole) refl))
  | inr (cap, known) ↦ elim (Bool-cases (is_sha256 expected)) [
    | inl digest ↦
        rw (admit_fine caps id kind expected cap known digest, ingest)
          (run_lem sha256 store id new kind cap expected chunks 0 [] refl (omega arith)
            ∙ sym (rw (known, ingest_whole, digest) refl))
    | inr other ↦
        rw (admit_other caps id kind expected cap known other, ingest)
          (sym (rw (known, ingest_whole, other) refl))
  ]
]
