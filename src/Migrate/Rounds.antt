-- ===== src/Migrate/Rounds.antt =====
-- The loop of `apply_migrations`: which migrations it runs, and how it ends.
use mathlib.Core.Logic.{⊎_elim}
use mathlib.Core.List.{append_assoc, append-nil}
use rtlfarm.Prelude.{
  ℕ, suc, ◌+◌, ◌≤◌, ◌<◌, String, ◌≡◌, refl, sym, ap, subst, ◌∙◌, ◌⊎◌, inl, inr, Bool, true, false,
  map, List, [], ◌∷◌, ◌++◌, Memᴰ, length, leb, count_up, Option, none, some, Bool-cases, arith,
}
use rtlfarm.Migrate.{Migration, Failure, Db, Conn, versions_of, attempt, run_pending}
use rtlfarm.Migrate.Rows.{idle, begun}
use rtlfarm.Migrate.Transaction.{IsRun, Runs, attempt_cases, IsRun-versions}

module _ {S : Type 0} (executescript : String → Conn S → Bool × Conn S) (can_commit : Db S → Bool)
    (now_ms : ℕ → ℕ) where
  abbrev pub once : Migration → Db S → Option Failure × Conn S
  once m db = attempt executescript can_commit now_ms m (idle db)

  abbrev pub looped : List Migration → ℕ → List ℕ → Db S → Option Failure × List ℕ × Conn S
  looped ms latest applied db =
      run_pending executescript can_commit now_ms ms latest applied (idle db)

  looped_old :
      (m : Migration) (ms : List Migration) (latest : ℕ) (applied : List ℕ) (db : Db S)
      → m.version ≤ latest
      → looped (m ∷ ms) latest applied db ≡ looped ms latest applied db
  unfolding run_pending
  looped_old m ms latest applied db old =
      let small : leb m.version latest ≡ true = ground arith in rw (small, run_pending) refl

  looped_new :
      (m : Migration) (ms : List Migration) (latest : ℕ) (applied : List ℕ) (db after : Db S)
      → latest < m.version
      → once m db ≡ (none, idle after)
      → looped (m ∷ ms) latest applied db ≡ looped ms latest (applied ++ m.version ∷ []) after
  unfolding run_pending
  looped_new m ms latest applied db after new done =
      let large : leb m.version latest ≡ false = ground arith in
      rw (large, run_pending, done)
        (λ i.
          run_pending executescript can_commit now_ms ms latest (applied ++ m.version ∷ [])
            (done i).1)

  looped_failed :
      (m : Migration) (ms : List Migration) (latest : ℕ) (applied : List ℕ) (db : Db S)
      (e : Failure)
      → latest < m.version
      → once m db ≡ (some e, idle db)
      → looped (m ∷ ms) latest applied db ≡ (some e, applied, idle db)
  unfolding run_pending
  looped_failed m ms latest applied db e new failed =
      let large : leb m.version latest ≡ false = ground arith in
      rw (large, run_pending, failed) (λ i. (some e, applied, (failed i).1))

  module _
      (keeps : (sql : String) (db : Db S) → Conn.committed (executescript sql (begun db)).1 ≡ db)
      (grows : (sql : String) (db : Db S) (left : Conn S) (script : Db S)
        → executescript sql (begun db) ≡ (false, left)
        → left.working ≡ some script
        → versions_of script ≡ versions_of db) where
    -- How the loop over `ms` ends on `db`, which holds the versions up to `j`: `c` migrations of `whole`
    -- are run, and nothing is left, or the next one fails.
    pub record Ends (whole : List Migration) (j n : ℕ) (applied : List ℕ) (db : Db S)
        (result : Option Failure × List ℕ × Conn S) : Type 0 where
      pub c : ℕ
      pub after : Db S
      pub runs : Runs executescript can_commit now_ms whole c j db after
      pub holds : versions_of after ≡ count_up 1 (j + c)
      pub ends :
          ((n ≤ j + c) × (result ≡ (none, applied ++ count_up (suc j) c, idle after)))
          ⊎ ((m : Migration) × (e : Failure) × Memᴰ m whole
              × (m.version ≡ suc (j + c))
              × (once m after ≡ (some e, idle after))
              × (result ≡ (some e, applied ++ count_up (suc j) c, idle after)))

    nothing_run :
        (whole : List Migration) (j n : ℕ) (applied : List ℕ) (db : Db S)
        (result : Option Failure × List ℕ × Conn S)
        → versions_of db ≡ count_up 1 j
        → ((n ≤ j) × (result ≡ (none, applied, idle db)))
          ⊎ ((m : Migration) × (e : Failure) × Memᴰ m whole
              × (m.version ≡ suc j)
              × (once m db ≡ (some e, idle db))
              × (result ≡ (some e, applied, idle db)))
        → Ends whole j n applied db result
    nothing_run whole j n applied db result at how = record {
      c = 0;
      after = db;
      runs = refl;
      holds = at ∙ ap (count_up 1) (omega arith);
      ends =
          ⊎_elim
            (λ (all, same).
              inl (omega arith, same ∙ ap (λ l. (none, l, idle db)) (sym (append-nil applied))))
            (λ (m, e, there, next, failed, same). inr (
              m,
              e,
              there,
              next ∙ omega arith,
              failed,
              same ∙ ap (λ l. (some e, l, idle db)) (sym (append-nil applied)),
            ))
            how;
    }

    one_more :
        (whole : List Migration) (j n : ℕ) (applied : List ℕ) (db mid : Db S)
        (result : Option Failure × List ℕ × Conn S) (m : Migration)
        → Memᴰ m whole
        → m.version ≡ suc j
        → IsRun executescript can_commit now_ms m db mid
        → Ends whole (suc j) n (applied ++ m.version ∷ []) mid result
        → Ends whole j n applied db result
    one_more whole j n applied db mid result m there next run rest = record {
      c = suc rest.c;
      after = rest.after;
      runs = (m, mid, there, next, run, rest.runs);
      holds = rest.holds ∙ ap (count_up 1) (omega arith);
      ends =
          ⊎_elim
            (λ (all, same). inl (omega arith, same ∙ ap (λ l. (none, l, idle rest.after)) longer))
            (λ (m', e, there', next', failed, same). inr (
              m',
              e,
              there',
              next' ∙ omega arith,
              failed,
              same ∙ ap (λ l. (some e, l, idle rest.after)) longer,
            ))
            rest.ends;
    }
      where
        longer :
            (applied ++ m.version ∷ []) ++ count_up (suc (suc j)) rest.c
            ≡ applied ++ count_up (suc j) (suc rest.c)
        longer =
            append_assoc applied (m.version ∷ []) (count_up (suc (suc j)) rest.c)
            ∙ ap (λ v. applied ++ v ∷ count_up (suc (suc j)) rest.c) next

    pub loop_lem :
        (whole ms : List Migration) (latest v j n : ℕ) (applied : List ℕ) (db : Db S)
        → ((m : Migration) → Memᴰ m ms → Memᴰ m whole)
        → map (λ m. m.version) ms ≡ count_up v (length ms)
        → suc n ≡ v + length ms
        → versions_of db ≡ count_up 1 j
        → ((v ≤ latest) × (j ≡ latest)) ⊎ ((v ≡ suc j) × (latest ≤ j))
        → Ends whole j n applied db (looped ms latest applied db)
    unfolding run_pending
    loop_lem whole [] latest v j n applied db part versions size at place =
        nothing_run whole j n applied db _ at
          (inl (⊎_elim (λ (old, same). omega arith) (λ (next, past). omega arith) place, refl))
    loop_lem whole (m ∷ ms) latest v j n applied db part versions size at place =
        let first : m.version ≡ v = ground arith in
        let others : map (λ m. m.version) ms ≡ count_up (suc v) (length ms) = ground arith in
        let part' : (x : Migration) → Memᴰ x ms → Memᴰ x whole =
          λ x there. part x (Memᴰ.tail there) in
        ⊎_elim
          (λ (old, same).
            subst (Ends whole j n applied db)
              (sym (looped_old m ms latest applied db (omega arith)))
              (loop_lem whole ms latest (suc v) j n applied db part' others (omega arith) at
                (elim (Bool-cases (leb (suc v) latest)) [
                  | inl more ↦ inl (ground arith, same)
                  | inr last ↦ inr (ground arith, omega arith)
                ])))
          (λ (next, past).
            ⊎_elim
              (λ (mid, done, run).
                subst (Ends whole j n applied db)
                  (sym (looped_new m ms latest applied db mid (omega arith) done))
                  (one_more whole j n applied db mid _ m (part m (Memᴰ.head refl)) (first ∙ next)
                    run
                    (loop_lem whole ms latest (suc v) (suc j) n (applied ++ m.version ∷ []) mid
                      part' others (omega arith)
                      (IsRun-versions executescript can_commit now_ms keeps grows m db mid j run
                        (first ∙ next) at)
                      (inr (omega arith, omega arith)))))
              (λ (e, failed). nothing_run whole j n applied db _ at (
                inr (
                  m,
                  e,
                  part m (Memᴰ.head refl),
                  first ∙ next,
                  failed,
                  looped_failed m ms latest applied db e (omega arith) failed,
                )))
              (attempt_cases executescript can_commit now_ms keeps m db))
          place
