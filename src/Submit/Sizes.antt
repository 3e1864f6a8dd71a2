-- ===== src/Submit/Sizes.antt =====
-- `_stored_sizes` and the search for missing blobs.
use mathlib.Core.List.Memᴰ
use mathlib.Core.Logic.{⊎_elim}
use rtlfarm.Prelude.{
  ℕ, zero, suc, ◌≤◌, String, ◌≡◌, sym, subst, ◌↔◌, ◌⊎◌, inl, inr, List, [], ◌∷◌, map, Memᴰ,
  Memᴰ-cons, length, take, drop, length-drop, contains, contains_iff, keys, insert, merge,
  Bool-cases, ◌==◌, string_eq, if◌then◌else◌, arith,
}
use rtlfarm.Manifest.{ManifestEntry}
use rtlfarm.Dag.Tasks.{unique}
use rtlfarm.Dag.Wiring.{mem-unique}
use rtlfarm.Sorting.{sorted, text_leq, mem-sorted}

abbrev pub in_chunk : ℕ
in_chunk = 500

-- SELECT sha256, size FROM blobs WHERE sha256 IN (...)
unfoldable pub select_in : List (String × ℕ) → List String → List (String × ℕ)
select_in [] chunk = []
select_in ((sha256, size) ∷ blobs) chunk =
    let rest = select_in blobs chunk in
    if contains chunk sha256 then (sha256, size) ∷ rest else rest

-- The loop over batches of `size`; each takes at least one digest away, so a round for each is enough.
unfoldable pub batches :
    (size : ℕ) → List (String × ℕ) → ℕ → List String → List (String × ℕ) → List (String × ℕ)
batches size blobs fuel [] found = found
batches size blobs zero (p ∷ pending) found = found
batches size blobs (suc fuel) (p ∷ pending) found =
    batches size blobs fuel (drop size (p ∷ pending))
      (merge found (select_in blobs (take size (p ∷ pending))))

unfoldable pub stored_sizes : List (String × ℕ) → List String → List (String × ℕ)
unfolding batches select_in
stored_sizes blobs digests =
    let pending = sorted text_leq digests in batches in_chunk blobs (length pending) pending []

-- {f.sha256 for f in files}
abbrev pub digests_of : List ManifestEntry → List String
digests_of files = unique [] (map (λ f. ManifestEntry.sha256 f) files)

abbrev pub without : List String → List String → List String
without known [] = []
without known (x ∷ xs) = let rest = without known xs in if contains known x then rest else x ∷ rest

-- sorted({...} - stored.keys())
unfoldable pub missing : List (String × ℕ) → List ManifestEntry → List String
unfolding stored_sizes
missing blobs files =
    sorted text_leq (without (keys (stored_sizes blobs (digests_of files))) (digests_of files))

mem-insert :
    (d : List (String × ℕ)) (j : String) (v : ℕ) (k : String)
    → Memᴰ k (keys (insert d j v)) ↔ ((k ≡ j) ⊎ Memᴰ k (keys d))
mem-insert [] j v k = Memᴰ-cons k j []
mem-insert ((i, w) ∷ d) j v k = elim (Bool-cases (i == j)) [
  | inl same ↦
      let e = (string_eq.beq_iff i j).0 same in rw same (ground (arith, Memᴰ-cons k i (keys d), e))
  | inr other ↦ rw other (
      ground
        (arith, Memᴰ-cons k i (keys (insert d j v)), Memᴰ-cons k i (keys d), mem-insert d j v k))
]

mem-merge :
    (d more : List (String × ℕ)) (k : String)
    → Memᴰ k (keys (merge d more)) ↔ (Memᴰ k (keys d) ⊎ Memᴰ k (keys more))
mem-merge d [] k = (inl, ⊎_elim (λ m. m) (λ m. absurd (Memᴰ.not-nil m)))
mem-merge d ((j, v) ∷ more) k =
    ground (arith, mem-merge (insert d j v) more k, mem-insert d j v k, Memᴰ-cons k j (keys more))

mem-select_in :
    (blobs : List (String × ℕ)) (chunk : List String) (k : String)
    → Memᴰ k (keys (select_in blobs chunk)) ↔ (Memᴰ k (keys blobs) × Memᴰ k chunk)
unfolding select_in
mem-select_in [] chunk k = (λ m. absurd (Memᴰ.not-nil m), λ m. m.0)
mem-select_in ((j, v) ∷ blobs) chunk k = elim (Bool-cases (contains chunk j)) [
  | inl chosen ↦
      let mj = (contains_iff chunk j).0 chosen in
      rw (chosen, select_in)
        (
          λ m.
              ⊎_elim (λ e. (Memᴰ.head e, subst (λ x. Memᴰ x chunk) (sym e) mj))
                (λ r. let h = (mem-select_in blobs chunk k).0 r in (Memᴰ.tail h.0, h.1))
                (Memᴰ.cases_cons m),
          λ (mk, mc).
              ⊎_elim (λ e. Memᴰ.head e) (λ r. Memᴰ.tail ((mem-select_in blobs chunk k).1 (r, mc)))
                (Memᴰ.cases_cons mk),
        )
  | inr left ↦
      rw (left, select_in)
        (
          λ m. let h = (mem-select_in blobs chunk k).0 m in (Memᴰ.tail h.0, h.1),
          λ (mk, mc).
              ⊎_elim
                (λ e.
                  absurd
                    (ground (arith, (contains_iff chunk j).1 (subst (λ x. Memᴰ x chunk) e mc))))
                (λ r. (mem-select_in blobs chunk k).1 (r, mc)) (Memᴰ.cases_cons mk),
        )
]

mem-take-drop :
    (n : ℕ) (xs : List String) (k : String) → Memᴰ k xs ↔ (Memᴰ k (take n xs) ⊎ Memᴰ k (drop n xs))
mem-take-drop zero xs k = (inr, ⊎_elim (λ m. absurd (Memᴰ.not-nil m)) (λ m. m))
mem-take-drop (suc n) [] k = (inl, ⊎_elim (λ m. m) (λ m. m))
mem-take-drop (suc n) (x ∷ xs) k =
    ground (arith, mem-take-drop n xs k, Memᴰ-cons k x xs, Memᴰ-cons k x (take n xs))

mem-batches :
    (size : ℕ) (blobs : List (String × ℕ)) (fuel : ℕ) (pending : List String)
    (found : List (String × ℕ)) (k : String)
    → length pending ≤ fuel
    → Memᴰ k (keys (batches (suc size) blobs fuel pending found))
      ↔ (Memᴰ k (keys found) ⊎ (Memᴰ k (keys blobs) × Memᴰ k pending))
unfolding batches
mem-batches size blobs fuel [] found k enough =
    (inl, ⊎_elim (λ m. m) (λ m. absurd (Memᴰ.not-nil m.1)))
mem-batches size blobs zero (p ∷ ps) found k enough = absurd (omega arith)
mem-batches size blobs (suc fuel) (p ∷ ps) found k enough =
    let chunk = take (suc size) (p ∷ ps) in
    let ih =
      mem-batches size blobs fuel (drop size ps) (merge found (select_in blobs chunk)) k
        (let h = length-drop size ps in omega arith) in
    let split = mem-take-drop (suc size) (p ∷ ps) k in
    let merged = mem-merge found (select_in blobs chunk) k in
    let chosen = mem-select_in blobs chunk k in ground (arith, ih, split, merged, chosen)

mem-stored_sizes :
    (blobs : List (String × ℕ)) (digests : List String) (k : String)
    → Memᴰ k (keys (stored_sizes blobs digests)) ↔ (Memᴰ k (keys blobs) × Memᴰ k digests)
unfolding stored_sizes
mem-stored_sizes blobs digests k =
    let pending = sorted text_leq digests in
    let b = mem-batches 499 blobs (length pending) pending [] k (omega arith) in
    let s = mem-sorted text_leq k digests in
    (
      λ m. ⊎_elim (λ none'. absurd (Memᴰ.not-nil none')) (λ (mk, mp). (mk, s.0 mp)) (b.0 m),
      λ (mk, md). b.1 (inr (mk, s.1 md)),
    )

mem-without :
    (known xs : List String) (k : String)
    → Memᴰ k (without known xs) ↔ (Memᴰ k xs × (¬ Memᴰ k known))
mem-without known [] k = (λ m. absurd (Memᴰ.not-nil m), λ m. m.0)
mem-without known (x ∷ xs) k = elim (Bool-cases (contains known x)) [
  | inl there ↦
      let mx = (contains_iff known x).0 there in
      rw there (
        λ m. let h = (mem-without known xs k).0 m in (Memᴰ.tail h.0, h.1),
        λ (mk, new).
            ⊎_elim (λ e. absurd (new (subst (λ y. Memᴰ y known) (sym e) mx)))
              (λ r. (mem-without known xs k).1 (r, new)) (Memᴰ.cases_cons mk),
      )
  | inr absent ↦ rw absent (
    λ m.
        ⊎_elim
          (λ e. (
            Memᴰ.head e,
            λ old. ground (arith, (contains_iff known x).1 (subst (λ y. Memᴰ y known) e old)),
          ))
          (λ r. let h = (mem-without known xs k).0 r in (Memᴰ.tail h.0, h.1)) (Memᴰ.cases_cons m),
    λ (mk, new).
        ⊎_elim (λ e. Memᴰ.head e) (λ r. Memᴰ.tail ((mem-without known xs k).1 (r, new)))
          (Memᴰ.cases_cons mk),
  )
]

-- The digests that a submission is told are missing are exactly those of the manifest's files that are
-- not in the blob table, whatever the number of batches that the table is asked in.
pub missing_lem :
    (blobs : List (String × ℕ)) (files : List ManifestEntry) (digest : String)
    → Memᴰ digest (missing blobs files)
      ↔ (Memᴰ digest (map (λ f. ManifestEntry.sha256 f) files) × (¬ Memᴰ digest (keys blobs)))
unfolding missing
missing_lem blobs files digest =
    let wanted = map (λ f. ManifestEntry.sha256 f) files in
    let u = mem-unique [] wanted digest in
    let known = mem-stored_sizes blobs (digests_of files) digest in
    let w = mem-without (keys (stored_sizes blobs (digests_of files))) (digests_of files) digest in
    let s =
      mem-sorted text_leq digest
        (without (keys (stored_sizes blobs (digests_of files))) (digests_of files)) in
    (
      λ m. let (md, new) = w.0 (s.0 m) in ((u.0 md).0, λ stored. new (known.1 (stored, md))),
      λ (mf, absent).
          let md = u.1 (mf, Memᴰ.not-nil) in s.1 (w.1 (md, λ old. absent (known.0 old).0)),
    )
