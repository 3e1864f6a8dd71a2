-- ===== src/Migrate/Rows.antt =====
-- The versions that a database holds, and the row of one more.
use rtlfarm.Prelude.{
  ℕ, zero, suc, ◌+◌, ◌≡◌, refl, sym, ap, subst, ◌∙◌, inl, inr, true, List, [], ◌∷◌, ◌++◌, leb,
  contains, keys, count_up, none, some, if◌then◌else◌, nat_eq, Bool-cases, Option-cases, some_inj,
  arith,
}
use rtlfarm.Sorting.{sorted, place}
use rtlfarm.Migrate.{Db, Conn, versions_of, applied_versions, last_version, insert_version}

pub count_up-concat : (v n : ℕ) → count_up v n ++ (v + n) ∷ [] ≡ count_up v (suc n)
count_up-concat v zero = ap (λ k. k ∷ []) (omega arith)
count_up-concat v (suc n) =
    ap (λ l. v ∷ l)
      (ap (λ k. count_up (suc v) n ++ k ∷ []) (omega arith) ∙ count_up-concat (suc v) n)

sorted-count_up : (v n : ℕ) → sorted leb (count_up v n) ≡ count_up v n
unfolding sorted place
sorted-count_up v zero = refl
sorted-count_up v (suc zero) = refl
sorted-count_up v (suc (suc n)) =
    ap (place leb v) (sorted-count_up (suc v) (suc n))
    ∙ (let small : leb v (suc v) ≡ true = ground arith in rw small refl)

last_version-count_up : (v n : ℕ) → last_version (count_up v (suc n)) ≡ v + n
last_version-count_up v zero = omega arith
last_version-count_up v (suc n) = last_version-count_up (suc v) n ∙ omega arith

pub keys-append {ℓ κ} :
    {K : Type ℓ} {V : Type κ} (xs ys : List (K × V)) → keys (xs ++ ys) ≡ keys xs ++ keys ys
keys-append [] ys = refl
keys-append ((k, v) ∷ xs) ys = ap (λ l. k ∷ l) (keys-append xs ys)

module _ {S : Type 0} where
  abbrev pub idle : Db S → Conn S
  idle db = record { committed = db; working = none }

  abbrev pub begun : Db S → Conn S
  begun db = record { committed = db; working = some db }

  pub latest_lem :
      (db : Db S) (k : ℕ)
      → versions_of db ≡ count_up 1 k
      → last_version (applied_versions (idle db)) ≡ k
  unfolding applied_versions sorted
  latest_lem db zero at = rw at refl
  latest_lem db (suc k) at =
      rw (at, sorted-count_up 1 (suc k)) (last_version-count_up 1 k ∙ omega arith)

  insert_version-none :
      (db : Db S) (version at_ms : ℕ) → db.recorded ≡ none → insert_version db version at_ms ≡ none
  unfolding insert_version
  insert_version-none db version at_ms absent = rw (absent, insert_version) refl

  insert_version-some :
      (db : Db S) (version at_ms : ℕ) (rows : List (ℕ × ℕ))
      → db.recorded ≡ some rows
      → insert_version db version at_ms ≡ (
          if contains (keys rows) version
          then none
          else some (record db { recorded = some (rows ++ (version, at_ms) ∷ []) }))
  unfolding insert_version
  insert_version-some db version at_ms rows there = rw (there, insert_version) refl

  pub insert_version_lem :
      (db after : Db S) (version at_ms : ℕ)
      → insert_version db version at_ms ≡ some after
      → versions_of after ≡ versions_of db ++ version ∷ []
  insert_version_lem db after version at_ms done = elim (Option-cases db.recorded) [
    | inl absent ↦ absurd (let h = sym (insert_version-none db version at_ms absent) ∙ done in cc)
    | inr (rows, there) ↦
        let now = sym (insert_version-some db version at_ms rows there) ∙ done in
        elim (Bool-cases (contains (keys rows) version)) [
          | inl old ↦ absurd (let h = rw old at now in cc)
          | inr new ↦
              let is_after = some_inj (rw new at now) in
              subst (λ (d : Db S). versions_of d ≡ versions_of db ++ version ∷ []) is_after
                (rw (there, versions_of) (keys-append rows ((version, at_ms) ∷ [])))
        ]
  ]
