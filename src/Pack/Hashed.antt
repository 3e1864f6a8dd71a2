-- ===== src/Pack/Hashed.antt =====
-- `hash_file`: the digest and the size of a file, read in chunks.
use mathlib.Core.List.{append_assoc, append-nil}
use rtlfarm.Prelude.{
  ℕ, zero, suc, ◌+◌, ◌≤◌, String, ◌≡◌, refl, sym, ap, ap₂, ◌∙◌, List, [], ◌∷◌, ◌++◌, length, take,
  drop, length-drop, take-drop, arith,
}
use rtlfarm.Pack.Paths.{Tree}

-- The loop: what the digest was updated with, and `size`. `f.read` at the end of the file is empty.
unfoldable pub read_chunks : (chunk : ℕ) → ℕ → List ℕ → List ℕ → ℕ → List ℕ × ℕ
read_chunks chunk zero rest fed size = (fed, size)
read_chunks chunk (suc fuel) rest fed size =
    let more =
      read_chunks chunk fuel (drop chunk rest) (fed ++ take chunk rest)
        (size + length (take chunk rest)) in
    elim (take chunk rest) [ [] ↦ (fed, size) | b ∷ bs ↦ more ]

-- _CHUNK
abbrev pub chunk_size : ℕ
chunk_size = 1_048_576

-- A pass takes one byte at least: the file's length is fuel enough.
unfoldable pub hash_file : Tree → String → String × ℕ
unfolding read_chunks
hash_file tree rel =
    let (fed, size) = read_chunks chunk_size (length (tree.bytes rel)) (tree.bytes rel) [] 0 in
    (tree.sha256 fed, size)

length-take-drop : (n : ℕ) (xs : List ℕ) → length (take n xs) + length (drop n xs) ≡ length xs
length-take-drop zero xs = omega arith
length-take-drop (suc n) [] = refl
length-take-drop (suc n) (x ∷ xs) = omega (arith, length-take-drop n xs)

-- The chunks are the file, cut.
read_chunks_lem :
    (k fuel : ℕ) (rest fed : List ℕ) (size : ℕ)
    → length rest ≤ fuel
    → read_chunks (suc k) fuel rest fed size ≡ (fed ++ rest, size + length rest)
unfolding read_chunks
read_chunks_lem k zero [] fed size h = ap₂ (λ a b. (a, b)) (sym (append-nil fed)) (omega arith)
read_chunks_lem k zero (x ∷ xs) fed size h = absurd (omega arith)
read_chunks_lem k (suc fuel) [] fed size h =
    ap₂ (λ a b. (a, b)) (sym (append-nil fed)) (omega arith)
read_chunks_lem k (suc fuel) (x ∷ xs) fed size h =
    read_chunks_lem k fuel (drop k xs) (fed ++ x ∷ take k xs) (size + suc (length (take k xs)))
      (omega (arith, length-drop k xs))
    ∙ ap₂ (λ a b. (a, b))
        (append_assoc fed (x ∷ take k xs) (drop k xs) ∙ ap (λ l. fed ++ x ∷ l) (take-drop k xs))
        (omega (arith, length-take-drop k xs))

-- `hash_file` returns the SHA-256 of the file's bytes, and their number.
pub hash_file_lem :
    (tree : Tree) (rel : String)
    → hash_file tree rel ≡ (tree.sha256 (tree.bytes rel), length (tree.bytes rel))
unfolding hash_file
hash_file_lem tree rel =
    ap (λ (r : List ℕ × ℕ). (tree.sha256 r.0, r.1))
      (read_chunks_lem 1_048_575 (length (tree.bytes rel)) (tree.bytes rel) [] 0 (omega arith))
    ∙ ap (λ n. (tree.sha256 (tree.bytes rel), n)) (zero_add (length (tree.bytes rel)))
  where
    zero_add : (n : ℕ) → 0 + n ≡ n
    zero_add n = omega arith
