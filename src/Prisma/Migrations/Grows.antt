-- ===== src/Prisma/Migrations/Grows.antt =====
-- packages/core/src/adapters/prisma/migrate.ts: how the bookkeeping grows.
use mafuta.Base.{
  String, Option, none, some, true, List, [], ◌∷◌, ◌++◌, ◌&&◌, ◌==◌, ◌≡◌, refl, ◌∙◌, arith, eq_refl,
  All,
}
use mafuta.Prisma.Migrations.{
  MigrationFile, MigrationRow, Database, MigrationDriver, PendingMigration, insert_row, update_rows,
  reset_row,
}
use mafuta.Prisma.Migrations.Run.{start_migration}
use mafuta.Prisma.Migrations.Rows.{
  is_none, is_applied, has_attempt, has_attempt-update_rows, is_applied-update_rows,
  is_applied-reset_rows, any-append,
}

-- A retry is of an attempt at its own file.
abbrev pub IsRetryOf : Option String → String → List MigrationRow → Type 0
IsRetryOf none name rows = Unit
IsRetryOf (some id) name rows = has_attempt id name rows ≡ true

abbrev pub IsReady : List MigrationRow → PendingMigration → Type 0
IsReady rows pending = IsRetryOf pending.retry_of pending.file.name rows

-- What a step does to the bookkeeping: attempts stay, and what is applied stays applied.
pub record Grows (before after : List MigrationRow) : Type 0 where
  pub attempts_stay :
      (id name : String) → has_attempt id name before ≡ true → has_attempt id name after ≡ true
  pub applied_stay : (name : String) → is_applied name before ≡ true → is_applied name after ≡ true

pub Grows-trans : {a b c : List MigrationRow} → Grows a b → Grows b c → Grows a c
Grows-trans g h = record {
  attempts_stay = λ id name k. h.attempts_stay id name (g.attempts_stay id name k);
  applied_stay = λ name k. h.applied_stay name (g.applied_stay name k);
}

Grows-append : (rows : List MigrationRow) (row : MigrationRow) → Grows rows (rows ++ row ∷ [])
Grows-append rows row = record {
  attempts_stay = λ id name k.
      ground (arith, k, any-append (λ r. r.id == id && r.migration_name == name) rows (row ∷ []));
  applied_stay = λ name k. ground (
    arith,
    k,
    any-append (λ r. r.migration_name == name && is_none r.rolled_back_at) rows (row ∷ []),
  );
}

pub Grows-update :
    (id : String) (change : MigrationRow → MigrationRow) (rows : List MigrationRow)
    → ((row : MigrationRow) → (change row).id ≡ row.id)
    → ((row : MigrationRow) → (change row).migration_name ≡ row.migration_name)
    → ((row : MigrationRow) → row.rolled_back_at ≡ none → (change row).rolled_back_at ≡ none)
    → Grows rows (update_rows id change rows)
Grows-update id change rows same_id same_name kept = record {
  attempts_stay =
      λ id' name k. has_attempt-update_rows id change id' name rows same_id same_name ∙ k;
  applied_stay = λ name k. is_applied-update_rows id change name rows same_name kept k;
}

IsRetryOf-Grows :
    {a b : List MigrationRow} (id : Option String) (name : String)
    → Grows a b
    → IsRetryOf id name a
    → IsRetryOf id name b
IsRetryOf-Grows none name g r = tt
IsRetryOf-Grows (some id) name g r = g.attempts_stay id name r

pub All-IsReady-Grows :
    {a b : List MigrationRow} (pending : List PendingMigration)
    → Grows a b
    → All (IsReady a) pending
    → All (IsReady b) pending
All-IsReady-Grows [] g ready = tt
All-IsReady-Grows (p ∷ pending) g ready =
    (IsRetryOf-Grows p.retry_of p.file.name g ready.0, All-IsReady-Grows pending g ready.1)

module _ (driver : MigrationDriver) where
  -- The start of an attempt makes the bookkeeping say that its file is applied.
  pub start_migration-applied :
      (file : MigrationFile) (retry_of : Option String) (db : Database)
      → IsRetryOf retry_of file.name db.rows
      → (is_applied file.name
            (start_migration driver (record { file = file; retry_of = retry_of }) db).1.rows
          ≡ true)
        × Grows db.rows
            (start_migration driver (record { file = file; retry_of = retry_of }) db).1.rows
  unfolding start_migration insert_row
  start_migration-applied file none db ready =
      let row : MigrationRow = record {
        id = driver.new_id db.draws;
        checksum = file.checksum;
        finished_at = none;
        migration_name = file.name;
        logs = none;
        rolled_back_at = none;
        started_at = driver.now db.ticks;
        applied_steps_count = 0;
      } in
      (
        ground (
          arith,
          eq_refl file.name,
          any-append (λ r. r.migration_name == file.name && is_none r.rolled_back_at) db.rows
              (row ∷ []),
        ),
        Grows-append db.rows row,
      )
  start_migration-applied file (some id) db ready = (
    is_applied-reset_rows id (reset_row file (driver.now db.ticks)) file.name db.rows (λ row. refl)
        (λ row. refl) ready,
    Grows-update id (reset_row file (driver.now db.ticks)) db.rows (λ row. refl) (λ row. refl)
        (λ row h. refl),
  )
