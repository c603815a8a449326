-- ===== src/Prisma/Migrations/Run.antt =====
-- packages/core/src/adapters/prisma/migrate.ts: the plan of a run, and the run.
use mafuta.Base.{
  suc, String, Option, none, some, List, [], ◌∷◌, ◌++◌, if◌then◌else◌, get_last?, length,
}
use mafuta.Base.Text.{text_take}
use mafuta.Base.Dict.{Dict, get}
use mafuta.Base.Sort.{sort}
use mafuta.Prisma.Migrations.{
  update_rows, MigrationFile, AppliedMigration, Database, ExecError, MigrationError,
  MigrationDriver, RunResult, is_applied_state, read_applied_migrations, PendingMigration,
  PendingPlan, dict_keys, drifted, is_out_of_order, retry_of_entry, insert_row, reset_row,
  finish_row, fail_row, migration_error, names_of, applied, returned, raised, up_to_date,
}

module _ (driver : MigrationDriver) where
  -- The last of the recorded names in the order of `compareMigrationNames`.
  unfoldable pub last_applied_name : Dict AppliedMigration → Option String
  unfolding sort
  last_applied_name recorded =
      get_last? (sort (λ left right. driver.before right left) (dict_keys recorded))

  abbrev pub with_pending :
      Option String → Option AppliedMigration → MigrationFile → PendingPlan → PendingPlan
  with_pending last_name entry file plan = record {
    migrations = record { file = file; retry_of = retry_of_entry entry } ∷ plan.migrations;
    drift = plan.drift;
    out_of_order =
        if is_out_of_order driver.before last_name file.name
        then file.name ∷ plan.out_of_order
        else plan.out_of_order;
  }

  abbrev pub with_drift : AppliedMigration → MigrationFile → PendingPlan → PendingPlan
  with_drift entry file plan = record plan {
    drift = if drifted entry file then file.name ∷ plan.drift else plan.drift;
  }

  abbrev pub plan_file :
      Option String → Option AppliedMigration → MigrationFile → PendingPlan → PendingPlan
  plan_file last_name none file plan = with_pending last_name none file plan
  plan_file last_name (some entry) file plan =
      if is_applied_state entry.state
      then with_drift entry file plan
      else with_pending last_name (some entry) file plan

  -- The loop of `readPending`; the three lists of the plan keep the order of the files.
  unfoldable pub plan_files :
      Dict AppliedMigration → Option String → List MigrationFile → PendingPlan
  plan_files recorded last_name [] = record { migrations = []; drift = []; out_of_order = [] }
  plan_files recorded last_name (file ∷ files) =
      plan_file last_name (get file.name recorded) file (plan_files recorded last_name files)

  unfoldable pub read_pending : List MigrationFile → Dict AppliedMigration → PendingPlan
  unfolding plan_files last_applied_name
  read_pending migrations recorded = plan_files recorded (last_applied_name recorded) migrations

  -- The id of the attempt, and the bookkeeping before the SQL runs.
  unfoldable pub start_migration : PendingMigration → Database → String × Database
  unfolding insert_row update_rows
  start_migration pending db = elim pending.retry_of [
    | none ↦
        let id = driver.new_id db.draws in
        (
          id,
          insert_row id pending.file (driver.now db.ticks)
              (record db { draws = suc db.draws; ticks = suc db.ticks }),
        )
    | some id ↦ (
      id,
      record db {
        rows = update_rows id (reset_row pending.file (driver.now db.ticks)) db.rows;
        ticks = suc db.ticks;
      },
    )
  ]

  unfoldable pub record_failure : String → MigrationFile → ExecError → Database → Database
  unfolding update_rows text_take
  record_failure id file error db =
      if driver.records file db.committed
      then record db {
        rows =
            update_rows id (fail_row (driver.now db.ticks) (text_take 2000 error.message)) db.rows;
        ticks = suc db.ticks;
      }
      else record db { ticks = suc db.ticks }

  unfoldable pub finish_migration : String → MigrationFile → Database → Database
  unfolding update_rows
  finish_migration id file db = record db {
    rows = update_rows id (finish_row (driver.now db.ticks)) db.rows;
    committed = db.committed ++ file.name ∷ [];
    ticks = suc db.ticks;
  }

  -- `applyOne`, with the error that it throws.
  unfoldable pub apply_one : PendingMigration → Database → Option MigrationError × Database
  unfolding start_migration record_failure finish_migration migration_error
  apply_one pending db =
      let (id, started) = start_migration pending db in
      elim (driver.exec pending.file started.committed) [
        | none ↦ (none, finish_migration id pending.file started)
        | some error ↦ (
          some (migration_error pending.file error),
          record_failure id pending.file error started,
        )
      ]

  abbrev pub next_result :
      (Database → Option MigrationError × Database)
      → Option MigrationError × Database
      → Option MigrationError × Database
  next_result rest (none, db) = rest db
  next_result rest (some error, db) = (some error, db)

  unfoldable pub apply_all : List PendingMigration → Database → Option MigrationError × Database
  unfolding apply_one
  apply_all [] db = (none, db)
  apply_all (pending ∷ later) db = next_result (apply_all later) (apply_one pending db)

  abbrev pub run_result : List MigrationFile → PendingPlan → Option MigrationError → RunResult
  run_result migrations plan (some error) = raised error
  run_result migrations plan none = returned (record {
    status = applied;
    available = length migrations;
    applied = names_of plan.migrations;
    drift = plan.drift;
    out_of_order = plan.out_of_order;
  })

  abbrev pub run_plan :
      List MigrationFile → PendingPlan → List PendingMigration → Database → RunResult × Database
  run_plan migrations plan [] db = (
    returned (record {
      status = up_to_date;
      available = length migrations;
      applied = [];
      drift = plan.drift;
      out_of_order = plan.out_of_order;
    }),
    db,
  )
  run_plan migrations plan (pending ∷ later) db =
      let (error, db') = apply_all (pending ∷ later) db in (run_result migrations plan error, db')

  abbrev pub sorted_files : List MigrationFile → List MigrationFile
  sorted_files files = sort (λ left right. driver.before right.name left.name) files

  unfoldable pub run_sorted : List MigrationFile → Database → RunResult × Database
  unfolding read_pending read_applied_migrations apply_all
  run_sorted migrations db =
      let plan = read_pending migrations (read_applied_migrations db.rows) in
      run_plan migrations plan plan.migrations db

  unfoldable pub run_migrations : List MigrationFile → Database → RunResult × Database
  unfolding run_sorted sort
  run_migrations migrations db = run_sorted (sorted_files migrations) db
