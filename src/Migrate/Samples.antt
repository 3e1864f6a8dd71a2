-- ===== src/Migrate/Samples.antt =====
-- Three migrations over a list of table names.
use rtlfarm.Prelude.{
  ℕ, suc, ◌+◌, ◌-◌, ◌≤◌, String, ◌≡◌, refl, sym, ap, ◌∙◌, ◌⊎◌, inl, inr, Bool, true, false, map,
  List, [], ◌∷◌, ◌++◌, Memᴰ, length, leb, count_up, Option, none, some, if◌then◌else◌, Option-cases,
  ◌==◌, string_eq, nat_eq,
}
use rtlfarm.Sorting.{sorted, place}
use rtlfarm.Migrate.{
  Migration, Failure, duplicate_version, not_contiguous, failed_to_apply, version_of,
  load_migrations, Db, Conn, versions_of, attempt, analyse, apply_migrations,
}
use rtlfarm.Migrate.Rows.{idle, begun}
use rtlfarm.Migrate.Transaction.{Runs}
use rtlfarm.Migrate.Applied.{apply_migrations_lem}

-- 0 to 9
abbrev ascii_digit : ℕ → Option ℕ
ascii_digit c = if leb b'0' c then (if leb c b'9' then some (c - b'0') else none) else none

-- A script names the table that it creates; the first one creates `schema_migrations` as well, and one
-- text is no SQL.
abbrev create : String → Db (List String) → Db (List String)
create sql db = record {
  tables = db.tables ++ sql ∷ [];
  recorded = elim db.recorded [ none ↦ some [] | some rows ↦ some rows ];
}

abbrev run_script : String → Conn (List String) → Bool × Conn (List String)
run_script sql conn = (
  sql == "oops",
  record {
    committed = conn.committed;
    working = elim conn.working [ none ↦ none | some db ↦ some (create sql db) ];
  },
)

abbrev fresh : Db (List String)
fresh = record { tables = []; recorded = none }

abbrev files : List (String × String)
files =
    ("0002_leases.sql", "leases")
    ∷ ("README.md", "not a migration")
    ∷ ("0001.sql", "jobs")
    ∷ ("0003_bad.sql", "oops")
    ∷ []

named : version_of ascii_digit "0012_by_name.sql" ≡ some 12
unfolding version_of
named = refl

unnamed : version_of ascii_digit "0012_.sql" ≡ none
unfolding version_of
unnamed = refl

twice :
    load_migrations ascii_digit (("0001.sql", "a") ∷ ("0001_b.sql", "b") ∷ [])
    ≡ inl (duplicate_version 1 "0001.sql" "0001_b.sql")
unfolding load_migrations
twice = refl

gap :
    load_migrations ascii_digit (("0001.sql", "a") ∷ ("0003.sql", "b") ∷ [])
    ≡ inl (not_contiguous (1 ∷ 3 ∷ []))
unfolding load_migrations sorted place
gap = refl

-- The first two are applied, and what the third did is undone.
third_fails :
    apply_migrations run_script (λ db. true) (λ v. 1000 + v) (λ t. t) ascii_digit files (idle fresh)
    ≡ (
      some (failed_to_apply "0003_bad.sql"),
      1 ∷ 2 ∷ [],
      idle (record {
        tables = "jobs" ∷ "leases" ∷ [];
        recorded = some ((1, 1001) ∷ (2, 1002) ∷ []);
      }),
    )
unfolding apply_migrations load_migrations sorted place
third_fails = refl

create_keeps :
    (sql : String) (db : Db (List String)) → Conn.committed (run_script sql (begun db)).1 ≡ db
create_keeps sql db = refl

create-versions :
    (sql : String) (db : Db (List String)) → versions_of (create sql db) ≡ versions_of db
create-versions sql db = elim (Option-cases db.recorded) [
  | inl absent ↦ rw absent refl
  | inr (rows, there) ↦ rw there refl
]

create_grows :
    (sql : String) (db : Db (List String)) (left : Conn (List String)) (script : Db (List String))
    → run_script sql (begun db) ≡ (false, left)
    → left.working ≡ some script
    → versions_of script ≡ versions_of db
create_grows sql db left script ran inside =
    let made : some (create sql db) ≡ some script = ap (λ p. Conn.working p.1) ran ∙ inside in
    ap versions_of (sym (let same : create sql db ≡ script = cc in same)) ∙ create-versions sql db

apply_migrations_lem_example :
    let out : Option Failure × List ℕ × Conn (List String) =
      apply_migrations run_script
        (λ db. true)
        (λ v. 1000 + v)
        (λ t. t)
        ascii_digit
        files
        (idle fresh) in
    ((e : Failure) × (load_migrations ascii_digit files ≡ inl e) × (out ≡ (some e, [], idle fresh)))
    ⊎ ((ms : List Migration) × (c : ℕ) × (after : Db (List String)) × (load_migrations ascii_digit
            files
          ≡ inr ms)
        × (map (λ m. m.version) ms ≡ count_up 1 (length ms))
        × Runs run_script (λ db. true) (λ v. 1000 + v) ms c 0 fresh after
        × (versions_of after ≡ count_up 1 (0 + c))
        × (((length ms ≤ 0 + c)
              × (out ≡ (none, count_up 1 c, analyse (λ t. t) (count_up 1 c) (idle after))))
            ⊎ ((m : Migration) × (e : Failure) × Memᴰ m ms
                × (m.version ≡ suc (0 + c))
                × (attempt run_script (λ db. true) (λ v. 1000 + v) m (idle after)
                    ≡ (some e, idle after))
                × (out ≡ (some e, count_up 1 c, idle after)))))
apply_migrations_lem_example =
    apply_migrations_lem run_script (λ db. true) (λ v. 1000 + v) (λ t. t) ascii_digit files fresh 0
      create_keeps create_grows refl
