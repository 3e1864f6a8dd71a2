-- ===== src/Migrate/Transaction.antt =====
-- One migration: it is applied whole, or what is committed stays.
use mathlib.Core.Logic.{⊎_elim}
use rtlfarm.Prelude.{
  ℕ, zero, suc, String, ◌≡◌, refl, ap, ap₂, ◌∙◌, ◌⊎◌, inl, inr, Bool, true, false, List, [], ◌∷◌,
  ◌++◌, Memᴰ, count_up, none, some, if◌then◌else◌, nat_eq, Bool-cases, Option-cases, arith,
}
use rtlfarm.Migrate.{
  Migration, Failure, failed_to_apply, ended_transaction, Db, Conn, versions_of, insert_version,
  transact, rollback, handle, attempt,
}
use rtlfarm.Migrate.Rows.{count_up-concat, idle, begun, insert_version_lem}

module _ {S : Type 0} where
  module _ (executescript : String → Conn S → Bool × Conn S) (can_commit : Db S → Bool)
      (now_ms : ℕ → ℕ) where
    -- The whole of a migration: its script in a transaction on `db`, then its row.
    pub record IsRun (m : Migration) (db after : Db S) : Type 0 where
      pub left : Conn S
      pub script : Db S
      pub ran : executescript m.sql (begun db) ≡ (false, left)
      pub inside : left.working ≡ some script
      pub recorded : insert_version script m.version (now_ms m.version) ≡ some after

    -- `c` migrations of the list, one after the other, the first of them that after `j`.
    abbrev pub Runs : List Migration → ℕ → ℕ → Db S → Db S → Type 0
    Runs ms zero j db after = db ≡ after
    Runs ms (suc c) j db after =
        (m : Migration) × (mid : Db S) × Memᴰ m ms
        × (m.version ≡ suc j)
        × IsRun m db mid
        × Runs ms c (suc j) mid after

    transact_raised :
        (m : Migration) (conn : Conn S)
        → (executescript m.sql conn).0 ≡ true
        → transact executescript can_commit now_ms m conn
          ≡ (some (failed_to_apply m.name), (executescript m.sql conn).1)
    unfolding transact
    transact_raised m conn raised = rw raised refl

    transact_ended :
        (m : Migration) (conn : Conn S)
        → (executescript m.sql conn).0 ≡ false
        → (executescript m.sql conn).1.working ≡ none
        → transact executescript can_commit now_ms m conn ≡ (
          some (ended_transaction m.name),
          record { committed = (executescript m.sql conn).1.committed; working = none },
        )
    unfolding transact
    transact_ended m conn fine ended =
        rw (fine, ended)
          (λ i. (
            some (ended_transaction m.name),
            record { committed = (executescript m.sql conn).1.committed; working = ended i },
          ))

    transact_unrecorded :
        (m : Migration) (conn : Conn S) (db : Db S)
        → (executescript m.sql conn).0 ≡ false
        → (executescript m.sql conn).1.working ≡ some db
        → insert_version db m.version (now_ms m.version) ≡ none
        → transact executescript can_commit now_ms m conn ≡ (
          some (failed_to_apply m.name),
          record { committed = (executescript m.sql conn).1.committed; working = some db },
        )
    unfolding transact
    transact_unrecorded m conn db fine inside refused =
        rw (fine, inside, refused)
          (λ i. (
            some (failed_to_apply m.name),
            record { committed = (executescript m.sql conn).1.committed; working = inside i },
          ))

    transact_recorded :
        (m : Migration) (conn : Conn S) (db after : Db S)
        → (executescript m.sql conn).0 ≡ false
        → (executescript m.sql conn).1.working ≡ some db
        → insert_version db m.version (now_ms m.version) ≡ some after
        → transact executescript can_commit now_ms m conn ≡ (
            if can_commit after then (none, idle after) else (
              some (failed_to_apply m.name),
              record { committed = (executescript m.sql conn).1.committed; working = some after },
            ))
    unfolding transact
    transact_recorded m conn db after fine inside done = rw (fine, inside, done) refl

    attempt_of_failure :
        (m : Migration) (db : Db S) (e : Failure) (left : Conn S)
        → transact executescript can_commit now_ms m (begun db) ≡ (some e, left)
        → attempt executescript can_commit now_ms m (idle db) ≡ (some e, rollback left)
    unfolding attempt
    attempt_of_failure m db e left h = ap handle h

    attempt_of_success :
        (m : Migration) (db : Db S) (left : Conn S)
        → transact executescript can_commit now_ms m (begun db) ≡ (none, left)
        → attempt executescript can_commit now_ms m (idle db) ≡ (none, left)
    unfolding attempt
    attempt_of_success m db left h = ap handle h

    module _
        (keeps : (sql : String) (db : Db S)
          → Conn.committed (executescript sql (begun db)).1 ≡ db) where
      transact_cases :
          (m : Migration) (db : Db S)
          → ((after : Db S) × (transact executescript can_commit now_ms m (begun db)
                ≡ (none, idle after))
              × IsRun m db after)
            ⊎ ((e : Failure) × (left : Conn S) × (transact executescript can_commit now_ms m
                    (begun db)
                  ≡ (some e, left))
                × (left.committed ≡ db))
      transact_cases m db = elim (Bool-cases (executescript m.sql (begun db)).0) [
        | inl raised ↦ inr (
          failed_to_apply m.name,
          (executescript m.sql (begun db)).1,
          transact_raised m (begun db) raised,
          keeps m.sql db,
        )
        | inr fine ↦ elim (Option-cases (executescript m.sql (begun db)).1.working) [
          | inl ended ↦
              inr (
                ended_transaction m.name,
                _,
                transact_ended m (begun db) fine ended,
                keeps m.sql db,
              )
          | inr (script, inside) ↦
              elim (Option-cases (insert_version script m.version (now_ms m.version))) [
                | inl refused ↦ inr (
                  failed_to_apply m.name,
                  _,
                  transact_unrecorded m (begun db) script fine inside refused,
                  keeps m.sql db,
                )
                | inr (after, recorded) ↦
                    let done = transact_recorded m (begun db) script after fine inside recorded in
                    elim (Bool-cases (can_commit after)) [
                      | inl commits ↦ inl (
                        after,
                        done ∙ rw commits refl,
                        record {
                          left = (executescript m.sql (begun db)).1;
                          script = script;
                          ran = λ i. (fine i, (executescript m.sql (begun db)).1);
                          inside = inside;
                          recorded = recorded;
                        },
                      )
                      | inr refused ↦ inr (
                        failed_to_apply m.name,
                        record {
                          committed = (executescript m.sql (begun db)).1.committed;
                          working = some after;
                        },
                        done ∙ rw refused refl,
                        keeps m.sql db,
                      )
                    ]
              ]
        ]
      ]

      -- A migration is applied whole, or what is committed stays.
      pub attempt_cases :
          (m : Migration) (db : Db S)
          → ((after : Db S) × (attempt executescript can_commit now_ms m (idle db)
                ≡ (none, idle after))
              × IsRun m db after)
            ⊎ ((e : Failure) × (attempt executescript can_commit now_ms m (idle db)
                  ≡ (some e, idle db)))
      attempt_cases m db =
          ⊎_elim (λ (after, done, run). inl (after, attempt_of_success m db (idle after) done, run))
            (λ (e, left, failed, same).
              inr (e, attempt_of_failure m db e left failed ∙ (λ i. (some e, idle (same i)))))
            (transact_cases m db)

      module _
          (grows : (sql : String) (db : Db S) (left : Conn S) (script : Db S)
            → executescript sql (begun db) ≡ (false, left)
            → left.working ≡ some script
            → versions_of script ≡ versions_of db) where
        pub IsRun-versions :
            (m : Migration) (db after : Db S) (j : ℕ)
            → IsRun m db after
            → m.version ≡ suc j
            → versions_of db ≡ count_up 1 j
            → versions_of after ≡ count_up 1 (suc j)
        IsRun-versions m db after j run next at =
            insert_version_lem run.script after m.version (now_ms m.version) run.recorded
            ∙ ap₂ (λ l v. l ++ v ∷ []) (grows m.sql db run.left run.script run.ran run.inside ∙ at)
                (next ∙ omega arith)
            ∙ count_up-concat 1 j
