-- ===== src/Migrate/Applied.antt =====
-- Which migrations a run applies, and what it leaves.
use mathlib.Core.Logic.{⊎_elim}
use rtlfarm.Prelude.{
  ℕ, zero, suc, ◌+◌, ◌≤◌, String, ◌≡◌, refl, ap, subst, ◌∙◌, ◌⊎◌, inl, inr, Bool, false, map, List,
  [], Memᴰ, length, count_up, nat_lists_equal, nat_lists_equal_iff, Option, none, some,
  if◌then◌else◌, Bool-cases, arith,
}
use rtlfarm.Migrate.{
  Migration, Failure, find_files, ordered, load_migrations, Db, Conn, versions_of, attempt, analyse,
  conclude, apply_migrations,
}
use rtlfarm.Migrate.Rows.{idle, begun, latest_lem}
use rtlfarm.Migrate.Transaction.{Runs}
use rtlfarm.Migrate.Rounds.{Ends, looped, loop_lem}

sum-cases {ℓ κ} :
    {A : Type ℓ} {B : Type κ} (s : A ⊎ B) → ((a : A) × (s ≡ inl a)) ⊎ ((b : B) × (s ≡ inr b))
sum-cases (inl a) = inl (a, refl)
sum-cases (inr b) = inr (b, refl)

load_migrations_lem :
    (digit : ℕ → Option ℕ) (directory : List (String × String)) (ms : List Migration)
    → load_migrations digit directory ≡ inr ms
    → map (λ m. m.version) ms ≡ count_up 1 (length ms)
unfolding load_migrations
load_migrations_lem digit directory ms loaded = elim (sum-cases (find_files digit directory [])) [
  | inl (failure, refused) ↦ absurd (let h = rw (refused, load_migrations) at loaded in cc)
  | inr (found, fine) ↦ contiguous (ordered digit found) ms _ (rw (fine, load_migrations) at loaded)
]
  where
    contiguous :
        (files ms : List Migration) (failure : Failure)
        → ◌≡◌ {A = Failure ⊎ List Migration}
            (if nat_lists_equal (map (λ m. m.version) files) (count_up 1 (length files))
              then inr files
              else inl failure)
            (inr ms)
        → map (λ m. m.version) ms ≡ count_up 1 (length ms)
    contiguous files ms failure h =
        elim (Bool-cases
          (nat_lists_equal (map (λ m. m.version) files) (count_up 1 (length files)))) [
            | inl equal ↦
                let same : files ≡ ms = let e = rw equal at h in cc in
                subst (λ l. map (λ m. m.version) l ≡ count_up 1 (length l)) same
                  ((nat_lists_equal_iff (map (λ m. m.version) files) (count_up 1 (length files))).0
                    equal)
            | inr other ↦ absurd (let e = rw other at h in cc)
          ]

first_place : (k : ℕ) → ((1 ≤ k) × (k ≡ k)) ⊎ ((1 ≡ suc k) × (k ≤ k))
first_place zero = inr (refl, omega arith)
first_place (suc k) = inl (omega arith, refl)

module _ {S : Type 0} (executescript : String → Conn S → Bool × Conn S) (can_commit : Db S → Bool)
    (now_ms : ℕ → ℕ) (analyze : S → S) (digit : ℕ → Option ℕ) (directory : List (String × String))
    (db : Db S) where
  apply_refused :
      (e : Failure)
      → load_migrations digit directory ≡ inl e
      → apply_migrations executescript can_commit now_ms analyze digit directory (idle db)
        ≡ (some e, [], idle db)
  unfolding apply_migrations
  apply_refused e refused = rw (refused, apply_migrations) refl

  apply_loaded :
      (k : ℕ) (ms : List Migration)
      → load_migrations digit directory ≡ inr ms
      → versions_of db ≡ count_up 1 k
      → apply_migrations executescript can_commit now_ms analyze digit directory (idle db)
        ≡ conclude analyze (looped executescript can_commit now_ms ms k [] db)
  unfolding apply_migrations
  apply_loaded k ms loaded at = rw (loaded, apply_migrations, latest_lem db k at) refl

-- A run of the migrations of a directory, on a database that holds the rows of the first `k` versions.
-- Either the directory is refused and nothing happens; or its files are versions 1 to n, and `c` of
-- them, those after `k` in order, are each run in a transaction of its own, script and row, which
-- commits. Then nothing is left to run, and ANALYZE has run unless `c` is 0; or the migration after them
-- failed, what it did is undone, no transaction is open, and it would fail so again. A script commits
-- nothing itself, and when it ends inside its transaction it leaves the rows of `schema_migrations` as
-- they are.
pub apply_migrations_lem :
    {S : Type 0} (executescript : String → Conn S → Bool × Conn S) (can_commit : Db S → Bool)
    (now_ms : ℕ → ℕ) (analyze : S → S) (digit : ℕ → Option ℕ) (directory : List (String × String))
    (db : Db S) (k : ℕ)
    → ((sql : String) (db : Db S) → Conn.committed (executescript sql (begun db)).1 ≡ db)
    → ((sql : String) (db : Db S) (left : Conn S) (script : Db S)
        → executescript sql (begun db) ≡ (false, left)
        → left.working ≡ some script
        → versions_of script ≡ versions_of db)
    → versions_of db ≡ count_up 1 k
    → let out : Option Failure × List ℕ × Conn S =
        apply_migrations executescript can_commit now_ms analyze digit directory (idle db) in
      ((e : Failure) × (load_migrations digit directory ≡ inl e) × (out ≡ (some e, [], idle db)))
      ⊎ ((ms : List Migration) × (c : ℕ) × (after : Db S) × (load_migrations digit directory
            ≡ inr ms)
          × (map (λ m. m.version) ms ≡ count_up 1 (length ms))
          × Runs executescript can_commit now_ms ms c k db after
          × (versions_of after ≡ count_up 1 (k + c))
          × (((length ms ≤ k + c)
                × (out ≡ (
                  none,
                  count_up (suc k) c,
                  analyse analyze (count_up (suc k) c) (idle after),
                )))
              ⊎ ((m : Migration) × (e : Failure) × Memᴰ m ms
                  × (m.version ≡ suc (k + c))
                  × (attempt executescript can_commit now_ms m (idle after) ≡ (some e, idle after))
                  × (out ≡ (some e, count_up (suc k) c, idle after)))))
apply_migrations_lem executescript can_commit now_ms analyze digit directory db k keeps grows at =
    elim (sum-cases (load_migrations digit directory)) [
      | inl (e, refused) ↦ inl (
        e,
        refused,
        apply_refused executescript can_commit now_ms analyze digit directory db e refused,
      )
      | inr (ms, loaded) ↦
          let versions = load_migrations_lem digit directory ms loaded in
          let run : Ends executescript can_commit now_ms keeps grows ms k (length ms) [] db
              (looped executescript can_commit now_ms ms k [] db) =
            loop_lem executescript can_commit now_ms keeps grows ms ms k 1 k (length ms) [] db
              (λ m there. there) versions (omega arith) at (first_place k) in
          let done =
            apply_loaded executescript can_commit now_ms analyze digit directory db k ms loaded
              at in
          inr (
            ms,
            run.c,
            run.after,
            loaded,
            versions,
            run.runs,
            run.holds,
            ⊎_elim (λ (all, same). inl (all, done ∙ ap (conclude analyze) same))
                (λ (m, e, there, next, failed, same).
                  inr (m, e, there, next, failed, done ∙ ap (conclude analyze) same))
                run.ends,
          )
    ]
