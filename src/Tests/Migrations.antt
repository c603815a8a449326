-- ===== src/Tests/Migrations.antt =====
-- Runs of the migrations.
use mafuta.Base.{
  zero, suc, some, none, Bool, true, false, List, [], ◌∷◌, ◌≡◌, ◌==◌, refl, All, if◌then◌else◌,
}
use mafuta.Base.Dict.{get}
use mafuta.Prisma.Migrations.{
  MigrationFile, Database, MigrationDriver, ExecError, MigrationRunSummary, RunStatus, returned,
  up_to_date, read_applied_migrations,
}
use mafuta.Prisma.Migrations.Run.{run_migrations, apply_one, read_pending, start_migration}
use mafuta.Prisma.Migrations.Again.{run_migrations-again}
use mafuta.Prisma.Migrations.Committed.{HasCommitted, run_migrations-HasCommitted}
use mafuta.Prisma.Migrations.Skipped.{unrecorded_is_skipped}

abbrev first_file : MigrationFile
first_file = record { name = "001_tables"; sql = "CREATE"; checksum = "a" }

abbrev second_file : MigrationFile
second_file = record { name = "002_columns"; sql = "ALTER"; checksum = "b" }

abbrev both_files : List MigrationFile
both_files = second_file ∷ first_file ∷ []

abbrev no_database : Database
no_database = record { rows = []; committed = []; ticks = 0; draws = 0 }

abbrev broken : ExecError
broken = record { error_name = "error"; message = "no such column"; code = some "42703" }

-- The SQL of the second file fails; `told` is whether that can be recorded.
abbrev failing_driver : Bool → MigrationDriver
failing_driver told = record {
  exec = λ file committed. if file.name == "002_columns" then some broken else none;
  records = λ file committed. told;
  now = λ tick. "2023-11-14T22:13:20.000Z";
  new_id = λ draw. elim draw [ zero ↦ "row-1" | suc n ↦ "row-2" ];
  before = λ left right. left == "001_tables";
}

abbrev working_driver : MigrationDriver
working_driver = record (failing_driver true) { exec = λ file committed. none }

abbrev migrated : Database
unfolding run_migrations
migrated = (run_migrations working_driver both_files no_database).1

abbrev nothing_to_do : MigrationRunSummary
nothing_to_do = record {
  status = up_to_date;
  available = 2;
  applied = [];
  drift = [];
  out_of_order = [];
}

run_migrations-again_example :
    (again : MigrationRunSummary) × (run_migrations working_driver both_files migrated
      ≡ (returned again, migrated))
    × (again.status ≡ up_to_date)
    × (again.applied ≡ [])
unfolding run_migrations get
run_migrations-again_example =
    run_migrations-again working_driver both_files no_database migrated
      (record {
        status = RunStatus.applied;
        available = 2;
        applied = "001_tables" ∷ "002_columns" ∷ [];
        drift = [];
        out_of_order = [];
      })
      refl

run_migrations-HasCommitted_example :
    HasCommitted
      ("001_tables" ∷ "002_columns" ∷ [])
      []
      (run_migrations (failing_driver true) both_files no_database).0
      ("001_tables" ∷ [])
unfolding run_migrations get
run_migrations-HasCommitted_example =
    run_migrations-HasCommitted (failing_driver true) both_files no_database

abbrev broken_off : Database
unfolding apply_one
broken_off =
    (apply_one (failing_driver false) (record { file = second_file; retry_of = none })
      no_database).1

unrecorded_is_skipped_example :
    (broken_off.committed ≡ [])
    × All
        (λ p. (p.file.name == "002_columns") ≡ false)
        (read_pending
          (failing_driver true)
          both_files
          (read_applied_migrations broken_off.rows)).migrations
unfolding apply_one start_migration read_pending
unrecorded_is_skipped_example =
    unrecorded_is_skipped (failing_driver false) (failing_driver true) second_file no_database
      broken both_files refl refl
