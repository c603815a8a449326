-- ===== src/Prisma/Migrations/Rows.antt =====
-- packages/core/src/adapters/prisma/migrate.ts: what the bookkeeping says of a migration, and what
-- the statements do to it.
use mafuta.Base.{
  String, Option, none, some, Bool, true, false, List, [], ◌∷◌, ◌++◌, any, ◌&&◌, ◌||◌, ◌==◌, ◌≡◌,
  refl, Bool-cases, inl, inr, arith, eq_iff, eq_refl, All, All-map,
}
use mafuta.Base.Dict.{Dict, get, set, get-set, Entries, set-Entries}
use mafuta.Prisma.Migrations.{
  MigrationRow, AppliedMigration, applied_of, is_applied_entry, read_from, read_applied_migrations,
  update_rows,
}

abbrev pub is_none : Option String → Bool
is_none none = true
is_none (some _) = false

-- A row of the migration that is not rolled back.
abbrev pub is_applied : String → List MigrationRow → Bool
is_applied name rows = any (λ row. row.migration_name == name && is_none row.rolled_back_at) rows

-- An attempt at the migration has this id.
abbrev pub has_attempt : String → String → List MigrationRow → Bool
has_attempt id name rows = any (λ row. row.id == id && row.migration_name == name) rows

read_from-applied :
    (name : String) (found : Dict AppliedMigration) (rows : List MigrationRow)
    → is_applied_entry (get name (read_from found rows))
      ≡ (is_applied_entry (get name found) || is_applied name rows)
unfolding read_from
read_from-applied name found [] = ground arith
read_from-applied name found (row ∷ rows) =
    elim (Bool-cases (is_applied_entry (get row.migration_name found))) [
      | inl old ↦
          rw old
            (ground (arith, old, eq_iff row.migration_name name, read_from-applied name found rows))
      | inr new ↦ rw new (
          ground (
            arith,
            new,
            eq_iff row.migration_name name,
            get-set row.migration_name name (applied_of row) found,
            read_from-applied name (set row.migration_name (applied_of row) found) rows,
          ))
    ]

pub read_applied_migrations-applied :
    (name : String) (rows : List MigrationRow)
    → is_applied_entry (get name (read_applied_migrations rows)) ≡ is_applied name rows
unfolding read_applied_migrations get
read_applied_migrations-applied name rows = read_from-applied name [] rows

module _ (P : String → AppliedMigration → Type 0) where
  read_from-Entries :
      (found : Dict AppliedMigration) (rows : List MigrationRow)
      → All (λ row. P row.migration_name (applied_of row)) rows
      → Entries P found
      → Entries P (read_from found rows)
  unfolding read_from
  read_from-Entries found [] all kept = kept
  read_from-Entries found (row ∷ rows) all kept =
      elim (Bool-cases (is_applied_entry (get row.migration_name found))) [
        | inl old ↦ rw old (read_from-Entries found rows all.1 kept)
        | inr new ↦ rw new (
            read_from-Entries (set row.migration_name (applied_of row) found) rows all.1
              (set-Entries P row.migration_name (applied_of row) found all.0 kept))
      ]

attempts :
    (rows : List MigrationRow) → All (λ row. has_attempt row.id row.migration_name rows ≡ true) rows
attempts [] = tt
attempts (row ∷ rows) = (
  ground (arith, eq_refl row.id, eq_refl row.migration_name),
  All-map (λ r. has_attempt r.id r.migration_name rows ≡ true)
      (λ r. has_attempt r.id r.migration_name (row ∷ rows) ≡ true) rows (λ r h. ground (arith, h))
      (attempts rows),
)

-- Every entry that is read is that of an attempt.
pub read_applied_migrations-Entries :
    (rows : List MigrationRow)
    → Entries (λ name entry. has_attempt entry.id name rows ≡ true) (read_applied_migrations rows)
unfolding read_applied_migrations
read_applied_migrations-Entries rows =
    read_from-Entries (λ name entry. has_attempt entry.id name rows ≡ true) [] rows (attempts rows)
      tt

module _ (id : String) (change : MigrationRow → MigrationRow) where
  pub has_attempt-update_rows :
      (id' name : String) (rows : List MigrationRow)
      → ((row : MigrationRow) → (change row).id ≡ row.id)
      → ((row : MigrationRow) → (change row).migration_name ≡ row.migration_name)
      → has_attempt id' name (update_rows id change rows) ≡ has_attempt id' name rows
  unfolding update_rows
  has_attempt-update_rows id' name [] same_id same_name = refl
  has_attempt-update_rows id' name (row ∷ rows) same_id same_name =
      ground
        (arith, same_id row, same_name row, has_attempt-update_rows id' name rows same_id same_name)

  pub is_applied-update_rows :
      (name : String) (rows : List MigrationRow)
      → ((row : MigrationRow) → (change row).migration_name ≡ row.migration_name)
      → ((row : MigrationRow) → row.rolled_back_at ≡ none → (change row).rolled_back_at ≡ none)
      → is_applied name rows ≡ true
      → is_applied name (update_rows id change rows) ≡ true
  unfolding update_rows
  is_applied-update_rows name [] same_name kept holds = holds
  is_applied-update_rows name (row ∷ rows) same_name kept holds =
      ground
        (arith, same_name row, kept row, holds, is_applied-update_rows name rows same_name kept)

  -- A change that takes the rollback back makes the attempt applied.
  pub is_applied-reset_rows :
      (name : String) (rows : List MigrationRow)
      → ((row : MigrationRow) → (change row).migration_name ≡ row.migration_name)
      → ((row : MigrationRow) → (change row).rolled_back_at ≡ none)
      → has_attempt id name rows ≡ true
      → is_applied name (update_rows id change rows) ≡ true
  unfolding update_rows
  is_applied-reset_rows name [] same_name reset has = cc
  is_applied-reset_rows name (row ∷ rows) same_name reset has =
      ground (arith, same_name row, reset row, has, is_applied-reset_rows name rows same_name reset)

pub any-append :
    {A : Type 0} (p : A → Bool) (xs ys : List A) → any p (xs ++ ys) ≡ (any p xs || any p ys)
any-append p [] ys = refl
any-append p (x ∷ xs) ys = ground (arith, any-append p xs ys)
