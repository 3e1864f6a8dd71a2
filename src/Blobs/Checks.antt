-- ===== src/Blobs/Checks.antt =====
-- What each check of an upload lets happen, test by test.
use rtlfarm.Prelude.{
  Bool-cases, ap, ℕ, ◌+◌, String, ◌≡◌, refl, true, false, [], ◌++◌, length, ltb, lookup, insert,
  none, some, inl, inr, string_eq,
}
use rtlfarm.Models.{is_sha256}
use rtlfarm.Blobs.{
  Bytes, BlobsConfig, unknown_blob_kind, invalid_digest, blob_too_large, cap_for, Store, has,
}
use rtlfarm.Blobs.Ingest.{Received, Upload, refused, taken, admit, drop_tmp, receive}

pub has_absent : (store : Store) (k : String) → lookup store.files k ≡ none → has store k ≡ false
unfolding has
has_absent store k e = rw (e, has) refl

pub has_present :
    (store : Store) (k : String) (content : Bytes)
    → lookup store.files k ≡ some content
    → has store k ≡ true
unfolding has
has_present store k content e = rw (e, has) refl

module _ (caps : BlobsConfig) (id kind expected : String) where
  pub admit_unknown :
      cap_for kind caps ≡ none → admit caps id kind expected ≡ inl (unknown_blob_kind kind)
  unfolding admit
  admit_unknown unknown = rw (unknown, admit) refl

  pub admit_other :
      (cap : ℕ)
      → cap_for kind caps ≡ some cap
      → is_sha256 expected ≡ false
      → admit caps id kind expected ≡ inl (invalid_digest expected)
  unfolding admit
  admit_other cap known other = rw (known, admit, other) refl

  pub admit_fine :
      (cap : ℕ)
      → cap_for kind caps ≡ some cap
      → is_sha256 expected ≡ true
      → admit caps id kind expected
        ≡ inr (record {
          id = id;
          kind = kind;
          cap = cap;
          expected = expected;
          size = 0;
          content = [];
        })
  unfolding admit
  admit_fine cap known digest = rw (known, admit, digest) refl

pub receive_over :
    (u : Upload) (bytes : Bytes) (store : Store)
    → ltb u.cap (u.size + length bytes) ≡ true
    → receive u bytes store ≡ refused (blob_too_large u.kind u.cap) (drop_tmp store u.id)
unfolding receive
receive_over u bytes store over = rw over refl

pub receive_within :
    (u : Upload) (bytes : Bytes) (store : Store)
    → ltb u.cap (u.size + length bytes) ≡ false
    → receive u bytes store
      ≡ taken
          (record u { size = u.size + length bytes; content = u.content ++ bytes })
          (record store { tmp = insert store.tmp u.id (u.content ++ bytes) })
unfolding receive
receive_within u bytes store within = rw within refl

abbrev pub store_of : Received → Store
store_of (refused e store) = store
store_of (taken u store) = store

-- A chunk changes no file under its digest.
pub receive-files :
    (u : Upload) (bytes : Bytes) (store : Store)
    → Store.files (store_of (receive u bytes store)) ≡ store.files
receive-files u bytes store = elim (Bool-cases (ltb u.cap (u.size + length bytes))) [
  | inl over ↦ ap (λ r. Store.files (store_of r)) (receive_over u bytes store over)
  | inr within ↦ ap (λ r. Store.files (store_of r)) (receive_within u bytes store within)
]
