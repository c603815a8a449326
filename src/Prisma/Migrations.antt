-- ===== src/Prisma/Migrations.antt =====
-- packages/core/src/adapters/prisma/migrate.ts: the runner of the committed SQL files. The table of
-- the bookkeeping is a list of rows, and each statement on it is a function on the list. A run holds
-- the advisory lock, so its steps stand alone. The queries on the bookkeeping succeed, but for the
-- record of a failure; what the SQL of a file does is up to the driver.
pub mod Run
pub mod Rows
pub mod Grows
pub mod Again
pub mod Skipped
pub mod Committed
use mafuta.Base.{
  ℕ, suc, String, Option, none, some, Bool, true, false, not, List, [], ◌∷◌, ◌++◌, map, ◌==◌, ◌&&◌,
  if◌then◌else◌, get_or, get_last?, length, template,
}
use mafuta.Base.Text.{text_take}
use mafuta.Base.Dict.{Dict, get, set}
use mafuta.Base.Sort.{sort}

pub record MigrationFile : Type 0 where
  pub name : String
  pub sql : String
  pub checksum : String

pub data AppliedMigrationState : Type 0 where
  applied failed : AppliedMigrationState

pub record AppliedMigration : Type 0 where
  pub id : String
  pub name : String
  pub state : AppliedMigrationState
  pub checksum : String
  pub logs : Option String

-- A row of `_prisma_migrations`.
pub record MigrationRow : Type 0 where
  pub id : String
  pub checksum : String
  pub finished_at : Option String
  pub migration_name : String
  pub logs : Option String
  pub rolled_back_at : Option String
  pub started_at : String
  pub applied_steps_count : ℕ

-- `committed` are the files whose transaction is committed, the first one first; `ticks` and `draws`
-- count the readings of the clock and the new identifiers.
pub record Database : Type 0 where
  pub rows : List MigrationRow
  pub committed : List String
  pub ticks : ℕ
  pub draws : ℕ

pub record ExecError : Type 0 where
  pub error_name : String
  pub message : String
  pub code : Option String

pub record MigrationError : Type 0 where
  pub message : String
  pub migration : String
  pub reason : String
  pub code : Option String

pub record MigrationDriver : Type 0 where
  -- Why the SQL of a file fails, after the committed files; its transaction is rolled back then.
  pub exec : MigrationFile → List String → Option ExecError
  -- Whether the query that records a failure succeeds.
  pub records : MigrationFile → List String → Bool
  pub now : ℕ → String
  pub new_id : ℕ → String
  -- `left < right` on strings
  pub before : String → String → Bool

pub data RunStatus : Type 0 where
  applied up_to_date : RunStatus

pub record MigrationRunSummary : Type 0 where
  pub status : RunStatus
  pub available : ℕ
  pub applied : List String
  pub drift : List String
  pub out_of_order : List String

pub data RunResult : Type 0 where
  returned : MigrationRunSummary → RunResult
  raised : MigrationError → RunResult

-- The row of `readAppliedMigrations` as an entry of its map.
abbrev state_of : Option String → AppliedMigrationState
state_of none = applied
state_of (some _) = failed

abbrev applied_of : MigrationRow → AppliedMigration
applied_of row = record {
  id = row.id;
  name = row.migration_name;
  state = state_of row.rolled_back_at;
  checksum = row.checksum;
  logs = row.logs;
}

abbrev pub is_applied_state : AppliedMigrationState → Bool
is_applied_state applied = true
is_applied_state failed = false

abbrev pub is_applied_entry : Option AppliedMigration → Bool
is_applied_entry none = false
is_applied_entry (some entry) = is_applied_state entry.state

unfoldable pub read_from : Dict AppliedMigration → List MigrationRow → Dict AppliedMigration
read_from found [] = found
read_from found (row ∷ rows) =
    read_from
      (if is_applied_entry (get row.migration_name found)
        then found
        else set row.migration_name (applied_of row) found)
      rows

unfoldable pub read_applied_migrations : List MigrationRow → Dict AppliedMigration
unfolding read_from
read_applied_migrations rows = read_from [] rows

pub record PendingMigration : Type 0 where
  pub file : MigrationFile
  pub retry_of : Option String

pub record PendingPlan : Type 0 where
  pub migrations : List PendingMigration
  pub drift : List String
  pub out_of_order : List String

abbrev pub dict_keys : {V : Type 0} → Dict V → List String
dict_keys m = map (λ entry. entry.0) m

abbrev pub drifted : AppliedMigration → MigrationFile → Bool
drifted entry file = not (entry.checksum == file.checksum)

abbrev pub is_out_of_order : (String → String → Bool) → Option String → String → Bool
is_out_of_order before none name = false
is_out_of_order before (some last) name = before name last

abbrev pub retry_of_entry : Option AppliedMigration → Option String
retry_of_entry none = none
retry_of_entry (some entry) = some entry.id

-- `INSERT INTO "_prisma_migrations"`
unfoldable pub insert_row : String → MigrationFile → String → Database → Database
insert_row id file started db = record db {
  rows =
      db.rows
      ++ record {
        id = id;
        checksum = file.checksum;
        finished_at = none;
        migration_name = file.name;
        logs = none;
        rolled_back_at = none;
        started_at = started;
        applied_steps_count = 0;
      }
        ∷ [];
}

-- `UPDATE "_prisma_migrations" SET … WHERE id = $1`
unfoldable pub update_rows :
    String → (MigrationRow → MigrationRow) → List MigrationRow → List MigrationRow
update_rows id change [] = []
update_rows id change (row ∷ rows) =
    let rest = update_rows id change rows in if row.id == id then change row ∷ rest else row ∷ rest

abbrev pub reset_row : MigrationFile → String → MigrationRow → MigrationRow
reset_row file started row = record row {
  checksum = file.checksum;
  started_at = started;
  finished_at = none;
  rolled_back_at = none;
  logs = none;
  applied_steps_count = 0;
}

abbrev pub finish_row : String → MigrationRow → MigrationRow
finish_row at row = record row { finished_at = some at; applied_steps_count = 1; logs = none }

abbrev pub fail_row : String → String → MigrationRow → MigrationRow
fail_row at logs row = record row {
  rolled_back_at = some at;
  finished_at = some at;
  logs = some logs;
}

unfoldable pub migration_error : MigrationFile → ExecError → MigrationError
unfolding template
migration_error file error = record {
  message = template ("migration \"" ∷ file.name ∷ "\" failed: " ∷ error.message ∷ []);
  migration = file.name;
  reason = error.error_name;
  code = error.code;
}

abbrev pub names_of : List PendingMigration → List String
names_of pending = map (λ p. p.file.name) pending
