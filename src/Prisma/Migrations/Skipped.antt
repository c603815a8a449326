-- ===== src/Prisma/Migrations/Skipped.antt =====
-- packages/core/src/adapters/prisma/migrate.ts: a failure that is not recorded.
use mafuta.Base.{
  String, Option, none, some, true, false, List, [], ◌∷◌, ◌==◌, ◌≡◌, refl, ◌∙◌, Bool-cases,
  Option-cases, inl, inr, arith, eq_iff, All,
}
use mafuta.Base.Dict.{Dict, get}
use mafuta.Prisma.Migrations.{
  MigrationFile, AppliedMigration, Database, MigrationDriver, ExecError, PendingMigration,
  is_applied_entry, is_applied_state, read_applied_migrations, insert_row,
}
use mafuta.Prisma.Migrations.Run.{
  plan_files, read_pending, last_applied_name, start_migration, record_failure, apply_one,
}
use mafuta.Prisma.Migrations.Rows.{is_applied, read_applied_migrations-applied}
use mafuta.Prisma.Migrations.Grows.{IsReady, start_migration-applied}

-- A file that the bookkeeping takes for applied is not planned.
plan_files-free :
    (driver : MigrationDriver) (recorded : Dict AppliedMigration) (last : Option String)
    (name : String) (files : List MigrationFile)
    → is_applied_entry (get name recorded) ≡ true
    → All (λ p. (p.file.name == name) ≡ false) (plan_files driver recorded last files).migrations
unfolding plan_files
plan_files-free driver recorded last name [] old = tt
plan_files-free driver recorded last name (file ∷ files) old =
    let rest = plan_files-free driver recorded last name files old in
    elim (Option-cases (get file.name recorded)) [
      | inl missing ↦
          rw (missing, plan_files) (ground (arith, old, missing, eq_iff file.name name), rest)
      | inr (entry, found) ↦ elim (Bool-cases (is_applied_state entry.state)) [
        | inl applied ↦ rw (found, applied, plan_files) rest
        | inr failed ↦
            rw (found, failed, plan_files)
              (ground (arith, old, found, failed, eq_iff file.name name), rest)
      ]
    ]

module _ (driver : MigrationDriver) where
  unrecorded-applied :
      (pending : PendingMigration) (db : Database) (error : ExecError)
      → IsReady db.rows pending
      → driver.exec pending.file (start_migration driver pending db).1.committed ≡ some error
      → driver.records pending.file (start_migration driver pending db).1.committed ≡ false
      → is_applied pending.file.name (apply_one driver pending db).1.rows ≡ true
  unfolding apply_one record_failure
  unrecorded-applied pending db error ready failing silent =
      let (holds, grown) = start_migration-applied driver pending.file pending.retry_of db ready in
      rw (failing, silent, apply_one, record_failure) holds

  -- When the first attempt at a file fails and that cannot be recorded, nothing of the file is
  -- committed, and no run that reads the bookkeeping afterwards plans it.
  pub unrecorded_is_skipped :
      (later : MigrationDriver) (file : MigrationFile) (db : Database) (error : ExecError)
      (files : List MigrationFile)
      → driver.exec file db.committed ≡ some error
      → driver.records file db.committed ≡ false
      → let after = (apply_one driver (record { file = file; retry_of = none }) db).1 in
        (after.committed ≡ db.committed)
        × All
            (λ p. (p.file.name == file.name) ≡ false)
            (read_pending later files (read_applied_migrations after.rows)).migrations
  unfolding apply_one record_failure start_migration insert_row read_pending
  unrecorded_is_skipped later file db error files failing silent =
      let pending : PendingMigration = record { file = file; retry_of = none } in
      let after = (apply_one driver pending db).1 in
      let holds = unrecorded-applied pending db error tt failing silent in
      let recorded = read_applied_migrations after.rows in
      (
        rw (failing, silent, apply_one, record_failure) refl,
        plan_files-free later recorded (last_applied_name later recorded) file.name files
            (read_applied_migrations-applied file.name after.rows ∙ holds),
      )
