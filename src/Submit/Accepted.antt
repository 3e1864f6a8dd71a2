-- ===== src/Submit/Accepted.antt =====
-- What a submission that passes the checks has shown.
use rtlfarm.Prelude.{
  ℕ, suc, ◌+◌, ◌≤◌, subst, String, ◌≡◌, refl, sym, ap, ap₂, ◌∙◌, ◌≢◌, ◌↔◌, inl, inr, true, false,
  List, [], ◌∷◌, map, Memᴰ, All, keys, lookup, Option, none, some, Bool-cases, Option-cases,
  beq-false, ◌==◌, ltb, ok, nat_eq, string_eq, arith,
}
use rtlfarm.Models.{is_sha256}
use rtlfarm.Manifest.{ManifestEntry}
use rtlfarm.Pipeline.Graph.{lookup_of_key}
use rtlfarm.Submit.Checks.{
  ApiError, fine, refused, resolve_digest, sizes_of, mismatches, largest, total, caps_error,
  check_sizes,
}

fine-ne-refused : {a : String} {e : ApiError} → refused e ≡ fine a → ⊥
fine-ne-refused e = cc

any-not-sha256 : is_sha256 "any" ≡ true → ⊥
unfolding is_sha256
any-not-sha256 e = cc

fine_inj : {a b : String} → fine a ≡ fine b → a ≡ b
fine_inj h = cc

-- The digest that `_resolve_digest` returns is one of the candidates and a hex SHA-256, so it is not
-- the reserved `any`.
pub resolve_digest_sound :
    (candidates : List (Option String)) (digest : String)
    → resolve_digest candidates ≡ fine digest
    → Memᴰ (some digest) candidates × (is_sha256 digest ≡ true) × (digest ≢ "any")
unfolding resolve_digest
resolve_digest_sound [] digest h = absurd cc
resolve_digest_sound (none ∷ cs) digest h =
    let (m, sha, pinned) = resolve_digest_sound cs digest h in (Memᴰ.tail m, sha, pinned)
resolve_digest_sound (some c ∷ cs) digest h = elim (Bool-cases (c == "")) [
  | inl empty ↦
      let (m, sha, pinned) = resolve_digest_sound cs digest (rw (empty, resolve_digest) at h) in
      (Memᴰ.tail m, sha, pinned)
  | inr given ↦ elim (Bool-cases (is_sha256 c)) [
    | inr other ↦ absurd (fine-ne-refused (rw (given, resolve_digest, other) at h))
    | inl sha ↦
        let same = fine_inj (rw (given, resolve_digest, sha) at h) in
        (
          Memᴰ.head (ap some (sym same)),
          ap is_sha256 (sym same) ∙ sha,
          λ any. any-not-sha256 (ap is_sha256 (sym (same ∙ any)) ∙ sha),
        )
  ]
]

nat_head : {x y : ℕ} {xs ys : List ℕ} → x ∷ xs ≡ y ∷ ys → x ≡ y
nat_head h = cc

nat_tail : {x y : ℕ} {xs ys : List ℕ} → x ∷ xs ≡ y ∷ ys → xs ≡ ys
nat_tail h = cc

pair-ne-nil : {p : ℕ × ℕ} {ps : List (ℕ × ℕ)} → p ∷ ps ≡ [] → ⊥
pair-ne-nil h = cc

-- The size that the table has for each file's digest.
abbrev pub AreStored : List (String × ℕ) → List ManifestEntry → List ℕ → Type 0
AreStored stored files sizes =
    map (λ f. lookup stored (ManifestEntry.sha256 f)) files ≡ map some sizes

-- The sum of a list.
abbrev pub sum : List ℕ → ℕ
sum [] = 0
sum (n ∷ ns) = n + sum ns

total_lem : (ns : List ℕ) → total ns ≡ sum ns
total_lem [] = refl
total_lem (n ∷ ns) = omega (arith, total_lem ns)

sizes_of-total :
    (stored : List (String × ℕ)) (files : List ManifestEntry)
    → ((f : ManifestEntry) → Memᴰ f files → Memᴰ f.sha256 (keys stored))
    → (sizes : List ℕ) × (sizes_of stored files ≡ ok sizes)
      × AreStored stored files sizes
      × ((i : ℕ)
          → (mismatches i files sizes ≡ []) ↔ (map (λ f. ManifestEntry.size f) files ≡ sizes))
unfolding sizes_of
sizes_of-total stored [] known = ([], refl, refl, λ i. (λ h. refl, λ h. refl))
sizes_of-total stored (f ∷ fs) known = elim (Option-cases (lookup stored f.sha256)) [
  | inl gone ↦ absurd (lookup_of_key stored f.sha256 (known f (Memᴰ.head refl)) gone)
  | inr (size, found) ↦
      let (sizes, e, are, iff) = sizes_of-total stored fs (λ g m. known g (Memᴰ.tail m)) in
      (
        size ∷ sizes,
        rw (found, sizes_of) (rw e refl),
        ap₂ (λ o os. o ∷ os) found are,
        λ i. elim (Bool-cases (f.size == size)) [
          | inl same ↦ rw same (
            λ h. ap₂ (λ x xs. x ∷ xs) ((nat_eq.beq_iff f.size size).0 same) ((iff (suc i)).0 h),
            λ h. (iff (suc i)).1 (nat_tail h),
          )
          | inr other ↦
              rw other (
                λ h. absurd (pair-ne-nil h),
                λ h. absurd (beq-false f.size size other (nat_head h)),
              )
        ],
      )
]

largest-bound :
    (cap : ℕ) (sizes : List ℕ) → (ltb cap (largest sizes) ≡ false) ↔ All (λ n. n ≤ cap) sizes
largest-bound cap [] = (λ h. tt, λ h. ground arith)
largest-bound cap (n ∷ ns) = ground (arith, largest-bound cap ns)

caps_iff :
    (file_cap job_cap : ℕ) (sizes : List ℕ) (ms : List (ℕ × ℕ)) (P : Type 0)
    → (ms ≡ []) ↔ P
    → (caps_error file_cap job_cap sizes ms ≡ none)
      ↔ (P × All (λ n. n ≤ file_cap) sizes × (total sizes ≤ job_cap))
caps_iff file_cap job_cap sizes (m ∷ ms) P iff =
    (λ h. absurd cc, λ (p, _, _). absurd (pair-ne-nil (iff.1 p)))
caps_iff file_cap job_cap sizes [] P iff =
    let big = largest-bound file_cap sizes in
    elim (Bool-cases (ltb file_cap (largest sizes))) [
      | inl over ↦ rw over (λ h. absurd cc, λ (_, within, _). absurd (ground (arith, big.1 within)))
      | inr within ↦ elim (Bool-cases (ltb job_cap (total sizes))) [
        | inl over ↦ rw (within, over) (λ h. absurd cc, λ (_, _, low). absurd (ground arith))
        | inr low ↦ rw (within, low) (λ h. (iff.0 refl, big.0 within, ground arith), λ h. refl)
      ]
    ]

-- With every blob of the manifest stored, `_check_sizes` misses no key, and it accepts exactly when
-- each declared size is the stored one, each stored size is within the cap on a file, and their sum is
-- within the cap on a job.
pub check_sizes_lem :
    (file_cap job_cap : ℕ) (stored : List (String × ℕ)) (files : List ManifestEntry)
    → ((f : ManifestEntry) → Memᴰ f files → Memᴰ f.sha256 (keys stored))
    → (sizes : List ℕ) × AreStored stored files sizes
      × (verdict : Option ApiError) × (check_sizes file_cap job_cap stored files ≡ ok verdict)
      × ((verdict ≡ none) ↔ (
          (map (λ f. ManifestEntry.size f) files ≡ sizes)
          × All (λ n. n ≤ file_cap) sizes
          × (sum sizes ≤ job_cap)))
unfolding check_sizes
check_sizes_lem file_cap job_cap stored files known =
    let (sizes, e, are, iff) = sizes_of-total stored files known in
    (
      sizes,
      are,
      caps_error file_cap job_cap sizes (mismatches 0 files sizes),
      rw e refl,
      subst
          (λ n. (caps_error file_cap job_cap sizes (mismatches 0 files sizes) ≡ none) ↔ (
            (map (λ f. ManifestEntry.size f) files ≡ sizes)
            × All (λ n. n ≤ file_cap) sizes
            × (n ≤ job_cap)))
          (total_lem sizes) (caps_iff file_cap job_cap sizes (mismatches 0 files sizes) _ (iff 0)),
    )
