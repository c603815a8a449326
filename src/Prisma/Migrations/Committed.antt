-- ===== src/Prisma/Migrations/Committed.antt =====
-- packages/core/src/adapters/prisma/migrate.ts: which files a run commits.
use mafuta.Base.{
  String, Option, none, some, List, [], ◌∷◌, ◌++◌, ◌≡◌, refl, ap, ◌∙◌, Bool-cases, Option-cases,
  inl, inr, sym, subst,
}
use mathlib.Core.List.{append-nil, append_assoc}
use mafuta.Prisma.Migrations.{
  MigrationFile, Database, MigrationDriver, MigrationError, PendingMigration, PendingPlan,
  RunResult, returned, raised, read_applied_migrations, insert_row, names_of, migration_error,
}
use mafuta.Prisma.Migrations.Run.{
  read_pending, start_migration, record_failure, finish_migration, apply_one, apply_all, run_plan,
  run_sorted, run_migrations, sorted_files,
}

-- The names that a run plans, in the order of the files.
abbrev pub planned : MigrationDriver → List MigrationFile → Database → List String
planned driver files db =
    names_of
      (read_pending driver (sorted_files driver files) (read_applied_migrations db.rows)).migrations

-- What an attempt at these commits: all of them, or those before the one that fails.
abbrev Commits : List String → Option MigrationError → List String → List String → Type 0
Commits names none before after = after ≡ before ++ names
Commits names (some error) before after =
    (done : List String) × (rest : List String) × (names ≡ done ++ error.migration ∷ rest)
    × (after ≡ before ++ done)

-- A run that returns commits what it planned, and one that raises what stands before its file.
abbrev pub HasCommitted : List String → List String → RunResult → List String → Type 0
HasCommitted names before (returned summary) after =
    (summary.applied ≡ names) × (after ≡ before ++ names)
HasCommitted names before (raised error) after =
    (done : List String) × (rest : List String) × (names ≡ done ++ error.migration ∷ rest)
    × (after ≡ before ++ done)

module _ (driver : MigrationDriver) where
  start_migration-committed :
      (file : MigrationFile) (retry_of : Option String) (db : Database)
      → (start_migration driver (record { file = file; retry_of = retry_of }) db).1.committed
        ≡ db.committed
  unfolding start_migration insert_row
  start_migration-committed file none db = refl
  start_migration-committed file (some id) db = refl

  apply_one-Commits :
      (pending : PendingMigration) (db : Database)
      → Commits
          (pending.file.name ∷ [])
          (apply_one driver pending db).0
          db.committed
          (apply_one driver pending db).1.committed
  unfolding apply_one record_failure finish_migration migration_error
  apply_one-Commits pending db =
      let (id, started) = start_migration driver pending db in
      let kept = start_migration-committed pending.file pending.retry_of db in
      elim (Option-cases (driver.exec pending.file started.committed)) [
        | inl fine ↦ rw (fine, apply_one) (ap (λ c. c ++ pending.file.name ∷ []) kept)
        | inr (error, failing) ↦ elim (Bool-cases (driver.records pending.file started.committed)) [
          | inl told ↦
              rw (failing, told, apply_one, record_failure)
                ([], [], refl, kept ∙ sym (append-nil db.committed))
          | inr silent ↦
              rw (failing, silent, apply_one, record_failure)
                ([], [], refl, kept ∙ sym (append-nil db.committed))
        ]
      ]

  Commits-cons :
      (name : String) (names : List String) (error : Option MigrationError)
      (before middle after : List String)
      → middle ≡ before ++ name ∷ []
      → Commits names error middle after
      → Commits (name ∷ names) error before after
  Commits-cons name names none before middle after first rest =
      rest ∙ ap (λ c. c ++ names) first ∙ append_assoc before (name ∷ []) names
  Commits-cons name names (some error) before middle after first (done, left, split, end) = (
    name ∷ done,
    left,
    ap (λ c. name ∷ c) split,
    end ∙ ap (λ c. c ++ done) first ∙ append_assoc before (name ∷ []) done,
  )

  Commits-more :
      (name : String) (names : List String) (error : MigrationError) (before after : List String)
      → Commits (name ∷ []) (some error) before after
      → Commits (name ∷ names) (some error) before after
  Commits-more name names error before after (done, left, split, end) = (
    done,
    left ++ names,
    ap (λ c. c ++ names) split ∙ append_assoc done (error.migration ∷ left) names,
    end,
  )

  apply_all-Commits :
      (pending : List PendingMigration) (db : Database)
      → Commits
          (names_of pending)
          (apply_all driver pending db).0
          db.committed
          (apply_all driver pending db).1.committed
  unfolding apply_all
  apply_all-Commits [] db = sym (append-nil db.committed)
  apply_all-Commits (p ∷ pending) db =
      let mid = (apply_one driver p db).1 in
      let first = apply_one-Commits p db in
      let later = apply_all-Commits pending mid in
      elim (Option-cases (apply_one driver p db).0) [
        | inl fine ↦
            let one : apply_one driver p db ≡ (none, mid) = ap (λ o. (o, mid)) fine in
            let here : mid.committed ≡ db.committed ++ p.file.name ∷ [] =
              subst (λ o. Commits (p.file.name ∷ []) o db.committed mid.committed) fine first in
            rw (one, apply_all)
              (Commits-cons p.file.name (names_of pending) (apply_all driver pending mid).0
                db.committed mid.committed (apply_all driver pending mid).1.committed here later)
        | inr (error, failing) ↦
            let one : apply_one driver p db ≡ (some error, mid) = ap (λ o. (o, mid)) failing in
            let here =
              subst (λ o. Commits (p.file.name ∷ []) o db.committed mid.committed) failing first in
            rw (one, apply_all)
              (Commits-more p.file.name (names_of pending) error db.committed mid.committed here)
      ]

  run_plan-Commits :
      (files : List MigrationFile) (plan : PendingPlan) (pending : List PendingMigration)
      (db : Database)
      → plan.migrations ≡ pending
      → HasCommitted
          (names_of pending)
          db.committed
          (run_plan driver files plan pending db).0
          (run_plan driver files plan pending db).1.committed
  run_plan-Commits files plan [] db e = (refl, sym (append-nil db.committed))
  run_plan-Commits files plan (p ∷ pending) db e =
      let after = (apply_all driver (p ∷ pending) db).1 in
      let all = apply_all-Commits (p ∷ pending) db in
      elim (Option-cases (apply_all driver (p ∷ pending) db).0) [
        | inl fine ↦ rw fine (
          ap names_of e,
          subst (λ o. Commits (names_of (p ∷ pending)) o db.committed after.committed) fine all,
        )
        | inr (error, failing) ↦ rw failing (
            subst (λ o. Commits (names_of (p ∷ pending)) o db.committed after.committed) failing
              all)
      ]

  -- A run of the migrations that returns has committed the files it planned in their order and
  -- names them, and one that raises the error of a file has committed those that the plan has
  -- before that file and no other.
  pub run_migrations-HasCommitted :
      (files : List MigrationFile) (db : Database)
      → HasCommitted
          (planned driver files db)
          db.committed
          (run_migrations driver files db).0
          (run_migrations driver files db).1.committed
  unfolding run_migrations run_sorted
  run_migrations-HasCommitted files db =
      let plan =
        read_pending driver (sorted_files driver files) (read_applied_migrations db.rows) in
      run_plan-Commits (sorted_files driver files) plan plan.migrations db refl
