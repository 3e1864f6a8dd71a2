-- ===== src/Migrate.antt =====
-- src/rtlfarm/db/migrate.py: the migration files, and the runner that applies them.
--
-- A connection in autocommit mode is what is committed and, inside a transaction, what it sees. SQLite
-- is an argument: what a script does to a connection, whether COMMIT may succeed, and ANALYZE. So are
-- the clock and the value of a Unicode decimal digit. BEGIN IMMEDIATE waits for no other process.
pub mod Rounds
pub mod Rows
pub mod Transaction
pub mod Applied
mod Samples
use rtlfarm.Prelude.{
  ℕ, zero, suc, ◌+◌, ◌*◌, String, Bool, true, false, not, ◌&&◌, ◌||◌, map, List, [], ◌∷◌, ◌++◌,
  ◌==◌, length, leb, lookup, insert, contains, keys, gather_all, count_up, nat_lists_equal, Option,
  none, some, ◌⊎◌, inl, inr, if◌then◌else◌, nat_eq,
}
use rtlfarm.Ids.{codes}
use rtlfarm.Sorting.{sorted}

pub record Migration : Type 0 where
  pub version : ℕ
  pub name : String
  pub sql : String

-- MigrationError, and an error of SQLite that passes through.
pub data Failure : Type 0 where
  duplicate_version : ℕ → String → String → Failure
  not_contiguous : List ℕ → Failure
  ended_transaction : String → Failure
  failed_to_apply : String → Failure
  operational_error : Failure

-- [a-z0-9_]
abbrev pub is_slug_char : ℕ → Bool
is_slug_char c = leb b'a' c && leb c b'z' || leb b'0' c && leb c b'9' || c == b'_'

-- [a-z0-9_]*\.sql, or [a-z0-9_]+\.sql until a character is `seen`.
unfoldable pub is_slug : Bool → List ℕ → Bool
is_slug seen [] = false
is_slug seen (c ∷ cs) =
    let rest = is_slug true cs in
    seen && nat_lists_equal (c ∷ cs) (codes ".sql") || is_slug_char c && rest

-- (?:_[a-z0-9_]+)?\.sql
unfoldable pub is_tail : List ℕ → Bool
unfolding is_slug
is_tail [] = false
is_tail (c ∷ cs) = nat_lists_equal (c ∷ cs) (codes ".sql") || c == b'_' && is_slug false cs

module _ (digit : ℕ → Option ℕ) where
  -- \d{n}, as the number that `int` makes of it, and the rest.
  unfoldable pub digits : ℕ → ℕ → List ℕ → Option (ℕ × List ℕ)
  digits zero value cs = some (value, cs)
  digits (suc n) value [] = none
  digits (suc n) value (c ∷ cs) = elim (digit c) [
    | none ↦ none
    | some d ↦ digits n (10 * value + d) cs
  ]

  -- _FILENAME_RE.fullmatch, then int(match.group(1))
  unfoldable pub version_of : String → Option ℕ
  unfolding digits is_tail
  version_of name = elim (digits 4 0 (codes name)) [
    | none ↦ none
    | some p ↦ if is_tail p.1 then some p.0 else none
  ]

  -- The loop over `directory.iterdir()`: the entries with their texts.
  unfoldable pub find_files :
      List (String × String) → List (ℕ × Migration) → Failure ⊎ List (ℕ × Migration)
  unfolding version_of
  find_files [] found = inr found
  find_files ((name, text) ∷ entries) found = elim (version_of name) [
    | none ↦ find_files entries found
    | some version ↦ elim (lookup found version) [
      | some earlier ↦ inl (duplicate_version version earlier.name name)
      | none ↦
          find_files entries
            (insert found version (record { version = version; name = name; sql = text }))
    ]
  ]

  -- [found[v] for v in sorted(found)]
  unfoldable pub ordered : List (ℕ × Migration) → List Migration
  ordered found =
      gather_all (λ v. elim (lookup found v) [ none ↦ [] | some m ↦ m ∷ [] ])
        (sorted leb (keys found))

  unfoldable pub load_migrations : List (String × String) → Failure ⊎ List Migration
  unfolding find_files ordered
  load_migrations directory = elim (find_files directory []) [
    | inl failure ↦ inl failure
    | inr found ↦
        let ms : List Migration = ordered found in
        if nat_lists_equal (map (λ m. m.version) ms) (count_up 1 (length ms))
        then inr ms
        else inl (not_contiguous (sorted leb (keys found)))
  ]

-- The tables, with `schema_migrations` apart: its rows `(version, applied_at_ms)`, or `none` before it
-- is created.
pub record Db (S : Type 0) : Type 0 where
  pub tables : S
  pub recorded : Option (List (ℕ × ℕ))

pub record Conn (S : Type 0) : Type 0 where
  pub committed : Db S
  -- What the open transaction sees; `none` outside one.
  pub working : Option (Db S)

-- done[-1] if done else 0
abbrev pub last_version : List ℕ → ℕ
last_version [] = 0
last_version (v ∷ []) = v
last_version (v ∷ w ∷ vs) = last_version (w ∷ vs)

module _ {S : Type 0} where
  abbrev pub versions_of : Db S → List ℕ
  versions_of db = elim db.recorded [ none ↦ [] | some rows ↦ keys rows ]

  -- What a statement outside the transaction sees.
  abbrev pub seen : Conn S → Db S
  seen conn = elim conn.working [ none ↦ conn.committed | some db ↦ db ]

  unfoldable pub applied_versions : Conn S → List ℕ
  applied_versions conn = sorted leb (versions_of (seen conn))

  -- The INSERT: there must be a table, and the version is its key.
  unfoldable pub insert_version : Db S → ℕ → ℕ → Option (Db S)
  insert_version db version at_ms = elim db.recorded [
    | none ↦ none
    | some rows ↦
        if contains (keys rows) version
        then none
        else some (record db { recorded = some (rows ++ (version, at_ms) ∷ []) })
  ]

  -- ROLLBACK, in a transaction or not.
  abbrev pub rollback : Conn S → Conn S
  rollback conn = record { committed = conn.committed; working = none }

  -- The handler: what was open is rolled back.
  abbrev pub handle : Option Failure × Conn S → Option Failure × Conn S
  handle (none, conn) = (none, conn)
  handle (some failure, conn) = (some failure, rollback conn)

  module _ (analyze : S → S) where
    -- ANALYZE, outside a transaction
    abbrev pub analysed : Db S → Db S
    analysed db = record { tables = analyze db.tables; recorded = db.recorded }

    -- if applied: conn.execute("ANALYZE")
    abbrev pub analyse : List ℕ → Conn S → Conn S
    analyse [] conn = conn
    analyse (v ∷ applied) conn = record {
      committed = analysed conn.committed;
      working = conn.working;
    }

    -- After the loop, unless it raised.
    abbrev pub conclude : Option Failure × List ℕ × Conn S → Option Failure × List ℕ × Conn S
    conclude (some failure, applied, conn) = (some failure, applied, conn)
    conclude (none, applied, conn) = (none, applied, analyse applied conn)

  module _ (executescript : String → Conn S → Bool × Conn S) (can_commit : Db S → Bool)
      (now_ms : ℕ → ℕ) where
    -- The body of the `try`: what it raises, and the connection after it.
    unfoldable pub transact : Migration → Conn S → Option Failure × Conn S
    unfolding insert_version
    transact m conn =
        let ran : Bool × Conn S = executescript m.sql conn in
        if ran.0 then (some (failed_to_apply m.name), ran.1) else elim ran.1.working [
          | none ↦ (some (ended_transaction m.name), ran.1)
          | some db ↦ elim (insert_version db m.version (now_ms m.version)) [
            | none ↦ (some (failed_to_apply m.name), ran.1)
            | some db' ↦
                if can_commit db' then (none, record { committed = db'; working = none }) else (
                  some (failed_to_apply m.name),
                  record { committed = ran.1.committed; working = some db' },
                )
          ]
        ]

    -- One round of the loop: BEGIN IMMEDIATE, the `try`, and its handler.
    unfoldable pub attempt : Migration → Conn S → Option Failure × Conn S
    unfolding transact
    attempt m conn = elim conn.working [
      | some db ↦ (some operational_error, conn)
      | none ↦
          handle (transact m (record { committed = conn.committed; working = some conn.committed }))
    ]

    -- The loop: what it raises, the versions it has applied, and the connection.
    unfoldable pub run_pending :
        List Migration → ℕ → List ℕ → Conn S → Option Failure × List ℕ × Conn S
    unfolding attempt
    run_pending [] latest applied conn = (none, applied, conn)
    run_pending (m ∷ ms) latest applied conn = elim (leb m.version latest) [
      | true ↦ run_pending ms latest applied conn
      | false ↦
          let tried : Option Failure × Conn S = attempt m conn in
          elim tried.0 [
            | some failure ↦ (some failure, applied, tried.1)
            | none ↦ run_pending ms latest (applied ++ m.version ∷ []) tried.1
          ]
    ]

    -- With the migrations given.
    unfoldable pub apply_given :
        (S → S) → List Migration → Conn S → Option Failure × List ℕ × Conn S
    unfolding run_pending applied_versions
    apply_given analyze pending conn =
        conclude analyze (run_pending pending (last_version (applied_versions conn)) [] conn)

    -- With those of the directory.
    unfoldable pub apply_migrations :
        (S → S)
        → (ℕ → Option ℕ)
        → List (String × String)
        → Conn S
        → Option Failure × List ℕ × Conn S
    unfolding apply_given
    apply_migrations analyze digit directory conn = elim (load_migrations digit directory) [
      | inl failure ↦ (some failure, [], conn)
      | inr ms ↦ apply_given analyze ms conn
    ]
