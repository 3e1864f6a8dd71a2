-- ===== src/Blobs/Held.antt =====
-- What the invariant of the store says after an upload wrote or left.
use rtlfarm.Prelude.{
  ◌≤◌, String, ◌≡◌, refl, sym, subst, ◌∙◌, inl, inr, ◌⊎◌, true, false, List, [], length, lookup,
  insert, erase, none, some, some_inj, ◌==◌, Bool-cases, Option-cases, lookup-insert, lookup-erase,
  string_eq,
}
use rtlfarm.Models.{is_sha256}
use rtlfarm.Blobs.{Bytes, BlobsConfig, BlobError, cap_for, Store}
use rtlfarm.Blobs.Ingest.{Upload, admit, drop_tmp, finish, replace, unlink}
use rtlfarm.Blobs.Checks.{admit_unknown, admit_other, admit_fine, has_absent, has_present}
use rtlfarm.Blobs.Steps.{System, IsHeld, IsSafe}

module _ {ℓ} {V : Type ℓ} (d : List (String × V)) (k j : String) (v : V) where
  pub insert_same : k == j ≡ true → lookup (insert d k v) j ≡ some v
  insert_same same = lookup-insert d k j v ∙ rw same refl

  pub insert_other : k == j ≡ false → lookup (insert d k v) j ≡ lookup d j
  insert_other other = lookup-insert d k j v ∙ rw other refl

module _ {ℓ} {V : Type ℓ} (d : List (String × V)) (k j : String) where
  erase_same : k == j ≡ true → lookup (erase d k) j ≡ none
  erase_same same = lookup-erase d k j ∙ rw same refl

  erase_other : k == j ≡ false → lookup (erase d k) j ≡ lookup d j
  erase_other other = lookup-erase d k j ∙ rw other refl

module _ (sha256 : Bytes → String) (caps : BlobsConfig) where
  pub reheld :
      (store other : Store) (id : String) (u : Upload)
      → lookup other.tmp id ≡ lookup store.tmp id
      → IsHeld sha256 caps store id u
      → IsHeld sha256 caps other id u
  reheld store other id u same h = record {
    own = h.own;
    written = same ∙ h.written;
    sized = h.sized;
    fits = h.fits;
    capped = h.capped;
  }

  -- An upload that is over leaves with its file in `tmp/`.
  pub drop-IsSafe :
      (s : System) (id : String)
      → IsSafe sha256 caps s
      → IsSafe sha256 caps (record { store = drop_tmp s.store id; running = erase s.running id })
  drop-IsSafe s id safe = record {
    addressed = safe.addressed;
    held = λ j u found. elim (Bool-cases (id == j)) [
      | inl same ↦ absurd (let gone = sym (erase_same s.running id j same) ∙ found in cc)
      | inr other ↦
          reheld s.store (drop_tmp s.store id) j u (erase_other s.store.tmp id j other)
            (safe.held j u (sym (erase_other s.running id j other) ∙ found))
    ];
    owned = λ j content found. elim (Bool-cases (id == j)) [
      | inl same ↦ absurd (let gone = sym (erase_same s.store.tmp id j same) ∙ found in cc)
      | inr other ↦
          let (u, there) =
            safe.owned j content (sym (erase_other s.store.tmp id j other) ∙ found) in
          (u, erase_other s.running id j other ∙ there)
    ];
  }

  -- An upload that goes on is held with what it has taken in.
  pub write-IsSafe :
      (s : System) (id : String) (u : Upload)
      → IsSafe sha256 caps s
      → u.id ≡ id
      → u.size ≡ length u.content
      → u.size ≤ u.cap
      → cap_for u.kind caps ≡ some u.cap
      → IsSafe sha256 caps (record {
        store = record { files = s.store.files; tmp = insert s.store.tmp id u.content };
        running = insert s.running id u;
      })
  write-IsSafe s id u safe own sized fits capped = record {
    addressed = safe.addressed;
    held = λ j w found. elim (Bool-cases (id == j)) [
      | inl same ↦
          let is_u : u ≡ w = some_inj (sym (insert_same s.running id j u same) ∙ found) in
          let is_id : id ≡ j = (string_eq.beq_iff id j).0 same in
          subst (λ w. IsHeld sha256 caps left j w) is_u
            (record {
              own = own ∙ is_id;
              written = insert_same s.store.tmp id j u.content same;
              sized = sized;
              fits = fits;
              capped = capped;
            })
      | inr other ↦
          reheld s.store left j w (insert_other s.store.tmp id j u.content other)
            (safe.held j w (sym (insert_other s.running id j u other) ∙ found))
    ];
    owned = λ j content found. elim (Bool-cases (id == j)) [
      | inl same ↦ (u, insert_same s.running id j u same)
      | inr other ↦
          let (w, there) =
            safe.owned j content (sym (insert_other s.store.tmp id j u.content other) ∙ found) in
          (w, insert_other s.running id j u other ∙ there)
    ];
  }
    where
      left : Store
      left = record { files = s.store.files; tmp = insert s.store.tmp id u.content }

  pub admitted :
      (id kind expected : String) (u : Upload)
      → admit caps id kind expected ≡ inr u
      → (u.id ≡ id) × (u.size ≡ 0) × (u.content ≡ []) × (cap_for u.kind caps ≡ some u.cap)
  unfolding admit
  admitted id kind expected u h = elim (Option-cases (cap_for kind caps)) [
    | inl unknown ↦
        absurd (let no_upload = sym (admit_unknown caps id kind expected unknown) ∙ h in cc)
    | inr (cap, known) ↦ elim (Bool-cases (is_sha256 expected)) [
      | inl digest ↦
          let same = inr_inj (sym (admit_fine caps id kind expected cap known digest) ∙ h) in
          subst
            (λ (w : Upload).
              (w.id ≡ id) × (w.size ≡ 0) × (w.content ≡ []) × (cap_for w.kind caps ≡ some w.cap))
            same (refl, refl, refl, known)
      | inr other ↦
          absurd (let no_upload = sym (admit_other caps id kind expected cap known other) ∙ h in cc)
    ]
  ]
    where
      inr_inj : {v w : Upload} → ◌≡◌ {A = BlobError ⊎ Upload} (inr v) (inr w) → v ≡ w
      inr_inj e = cc

  -- How an upload that is held ends: its file is dropped, or it becomes a new file of its digest.
  pub finish_cases :
      (u : Upload) (store : Store)
      → lookup store.tmp u.id ≡ some u.content
      → ((finish sha256 u store).1 ≡ drop_tmp store u.id)
        ⊎ (((finish sha256 u store).1 ≡ record {
          files = insert store.files u.expected u.content;
          tmp = erase store.tmp u.id;
        })
            × (sha256 u.content ≡ u.expected)
            × (lookup store.files u.expected ≡ none))
  unfolding finish
  finish_cases u store written = elim (Bool-cases (sha256 u.content == u.expected)) [
    | inr other ↦ inl (rw other refl)
    | inl same ↦ elim (Option-cases (lookup store.files u.expected)) [
      | inl absent ↦ inr (
        rw (same, has_absent store u.expected absent, written, replace) refl,
        (string_eq.beq_iff (sha256 u.content) u.expected).0 same,
        absent,
      )
      | inr (old, present) ↦
          inl (rw (same, has_present store u.expected old present, written, unlink) refl)
    ]
  ]
