-- ===== src/Blobs/Safe.antt =====
-- Every order of steps keeps the store sound, and no step changes a file that is there.
use mathlib.Core.Logic.{⊎_elim}
use rtlfarm.Prelude.{
  ◌+◌, ◌≤◌, String, ◌≡◌, refl, sym, ap, subst, ◌∙◌, inl, inr, ◌++◌, length, length-append, lookup,
  insert, erase, some, some_inj, ltb, ◌==◌, Bool-cases, string_eq, arith,
}
use rtlfarm.Blobs.{Bytes, BlobsConfig, BlobError, Store}
use rtlfarm.Blobs.Ingest.{Upload, refused, taken, drop_tmp, receive, finish}
use rtlfarm.Blobs.Checks.{store_of, receive-files, receive_over, receive_within}
use rtlfarm.Blobs.Steps.{
  System, Step, opens, takes, refuses, breaks_off, ends, Reach, here, next, IsBlob, IsHeld, IsSafe,
}
use rtlfarm.Blobs.Held.{
  insert_same, insert_other, reheld, drop-IsSafe, write-IsSafe, admitted, finish_cases,
}

module _ (sha256 : Bytes → String) (caps : BlobsConfig) where
  taken_inj :
      {u w : Upload} {store other : Store}
      → taken u store ≡ taken w other
      → ◌≡◌ {A = Upload × Store} (u, store) (w, other)
  taken_inj h = ground arith

  refused_inj :
      {e f : BlobError} {store other : Store} → refused e store ≡ refused f other → store ≡ other
  refused_inj h = cc

  take-IsSafe :
      (s : System) (id : String) (bytes : Bytes) (u more : Upload) (store : Store)
      → lookup s.running id ≡ some u
      → receive u bytes s.store ≡ taken more store
      → IsSafe sha256 caps s
      → IsSafe sha256 caps (record { store = store; running = insert s.running id more })
  take-IsSafe s id bytes u more store found took safe =
      elim (Bool-cases (ltb u.cap (u.size + length bytes))) [
        | inl over ↦ absurd (let no_more = sym (receive_over u bytes s.store over) ∙ took in cc)
        | inr within ↦
            let same = taken_inj (sym (receive_within u bytes s.store within) ∙ took) in
            subst
              (λ (p : Upload × Store).
                IsSafe sha256 caps (record { store = p.1; running = insert s.running id p.0 }))
              same
              (subst
                (λ k. IsSafe sha256 caps (record {
                  store = record {
                    files = s.store.files;
                    tmp = insert s.store.tmp k (u.content ++ bytes);
                  };
                  running = insert s.running id now;
                }))
                (sym (IsHeld.own h))
                (write-IsSafe sha256 caps s id now safe (IsHeld.own h)
                  (ap (λ n. n + length bytes) (IsHeld.sized h)
                    ∙ sym (length-append u.content bytes))
                  (ground arith) (IsHeld.capped h)))
      ]
    where
      h : IsHeld sha256 caps s.store id u
      h = safe.held id u found

      now : Upload
      now = record u { size = u.size + length bytes; content = u.content ++ bytes }

  -- The files and `tmp/` when the upload is over.
  over-IsSafe :
      (s : System) (id : String) (u : Upload) (store : Store)
      → lookup s.running id ≡ some u
      → IsSafe sha256 caps s
      → store ≡ drop_tmp s.store u.id
      → IsSafe sha256 caps (record { store = store; running = erase s.running id })
  over-IsSafe s id u store found safe same =
      subst (λ st. IsSafe sha256 caps (record { store = st; running = erase s.running id }))
        (sym (same ∙ ap (drop_tmp s.store) (IsHeld.own (safe.held id u found))))
        (drop-IsSafe sha256 caps s id safe)

  end-IsSafe :
      (s : System) (id : String) (u : Upload)
      → lookup s.running id ≡ some u
      → IsSafe sha256 caps s
      → IsSafe sha256 caps
          (record { store = (finish sha256 u s.store).1; running = erase s.running id })
  end-IsSafe s id u found safe =
      ⊎_elim (λ dropped. over-IsSafe s id u (finish sha256 u s.store).1 found safe dropped)
        (λ (new_file, digest, absent).
          let dropped = over-IsSafe s id u (drop_tmp s.store u.id) found safe refl in
          subst (λ st. IsSafe sha256 caps (record { store = st; running = erase s.running id }))
            (sym new_file)
            (record {
              addressed = λ name content there. elim (Bool-cases (u.expected == name)) [
                | inl same ↦
                    let is_content : u.content ≡ content =
                      some_inj
                        (sym (insert_same s.store.files u.expected name u.content same) ∙ there) in
                    subst (λ c. IsBlob sha256 caps name c) is_content
                      (
                        digest ∙ (string_eq.beq_iff u.expected name).0 same,
                        u.kind,
                        u.cap,
                        IsHeld.capped h,
                        subst (λ n. n ≤ u.cap) (IsHeld.sized h) (IsHeld.fits h),
                      )
                | inr other ↦
                    safe.addressed name content
                      (sym (insert_other s.store.files u.expected name u.content other) ∙ there)
              ];
              held = λ j w here.
                  reheld sha256 caps (drop_tmp s.store u.id) _ j w refl
                    (IsSafe.held dropped j w here);
              owned = IsSafe.owned dropped;
            }))
        (finish_cases sha256 caps u s.store (
          subst (λ k. lookup s.store.tmp k ≡ some u.content) (sym (IsHeld.own h))
            (IsHeld.written h)))
    where
      h : IsHeld sha256 caps s.store id u
      h = safe.held id u found

  refuse-IsSafe :
      (s : System) (id : String) (bytes : Bytes) (u : Upload) (e : BlobError) (store : Store)
      → lookup s.running id ≡ some u
      → receive u bytes s.store ≡ refused e store
      → IsSafe sha256 caps s
      → IsSafe sha256 caps (record { store = store; running = erase s.running id })
  refuse-IsSafe s id bytes u e store found no_more safe =
      elim (Bool-cases (ltb u.cap (u.size + length bytes))) [
        | inl over ↦
            over-IsSafe s id u store found safe
              (sym (refused_inj (sym (receive_over u bytes s.store over) ∙ no_more)))
        | inr within ↦
            absurd (let more = sym (receive_within u bytes s.store within) ∙ no_more in cc)
      ]

  Step-IsSafe : {s t : System} → Step sha256 caps s t → IsSafe sha256 caps s → IsSafe sha256 caps t
  Step-IsSafe {s} (opens id kind expected u new fine) safe =
      let (own, zero_size, empty, capped) = admitted sha256 caps id kind expected u fine in
      subst
        (λ c. IsSafe sha256 caps (record {
          store = record { files = s.store.files; tmp = insert s.store.tmp id c };
          running = insert s.running id u;
        }))
        empty
        (write-IsSafe sha256 caps s id u safe own (zero_size ∙ sym (ap length empty))
          (omega (arith, zero_size)) capped)
  Step-IsSafe {s} (takes id bytes u more store found took) safe =
      take-IsSafe s id bytes u more store found took safe
  Step-IsSafe {s} (refuses id bytes u e store found no_more) safe =
      refuse-IsSafe s id bytes u e store found no_more safe
  Step-IsSafe {s} (breaks_off id u found) safe =
      over-IsSafe s id u (drop_tmp s.store u.id) found safe refl
  Step-IsSafe {s} (ends id u found) safe = end-IsSafe s id u found safe

  -- A file that is there stays as it is.
  Step-files :
      {s t : System}
      → Step sha256 caps s t
      → IsSafe sha256 caps s
      → (name : String) (content : Bytes) → lookup s.store.files name ≡ some content
      → lookup t.store.files name ≡ some content
  Step-files (opens id kind expected u new fine) safe name content there = there
  Step-files {s} (takes id bytes u more store found took) safe name content there =
      ap (λ r. lookup (Store.files (store_of r)) name) (sym took)
      ∙ ap (λ d. lookup d name) (receive-files u bytes s.store)
      ∙ there
  Step-files {s} (refuses id bytes u e store found no_more) safe name content there =
      ap (λ r. lookup (Store.files (store_of r)) name) (sym no_more)
      ∙ ap (λ d. lookup d name) (receive-files u bytes s.store)
      ∙ there
  Step-files (breaks_off id u found) safe name content there = there
  Step-files {s} (ends id u found) safe name content there =
      let h = safe.held id u found in
      ⊎_elim (λ dropped. ap (λ (st : Store). lookup st.files name) dropped ∙ there)
        (λ (new_file, digest, absent).
          ap (λ (st : Store). lookup st.files name) new_file
          ∙ elim (Bool-cases (u.expected == name)) [
            | inl same ↦ absurd (
                let gone =
                  sym absent
                  ∙ ap (lookup s.store.files) ((string_eq.beq_iff u.expected name).0 same)
                  ∙ there in
                cc)
            | inr other ↦ insert_other s.store.files u.expected name u.content other ∙ there
          ])
        (finish_cases sha256 caps u s.store (
          subst (λ k. lookup s.store.tmp k ≡ some u.content) (sym (IsHeld.own h))
            (IsHeld.written h)))

  -- From a store where every file is named by the digest of its content, is within the cap of a kind, and
  -- where `tmp/` holds what the uploads in progress have taken in and nothing else, any uploads in any
  -- order of their awaits lead to such a store, and every file that was there is there unchanged.
  pub Reach-IsSafe :
      {s t : System}
      → IsSafe sha256 caps s
      → Reach sha256 caps s t
      → IsSafe sha256 caps t
        × ((name : String) (content : Bytes)
            → lookup s.store.files name ≡ some content
            → lookup t.store.files name ≡ some content)
  Reach-IsSafe safe here = (safe, λ name content there. there)
  Reach-IsSafe safe (next path step) =
      let (so_far, kept) = Reach-IsSafe safe path in
      (
        Step-IsSafe step so_far,
        λ name content there. Step-files step so_far name content (kept name content there),
      )
