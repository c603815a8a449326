-- ===== src/Prisma/Migrations/Again.antt =====
-- packages/core/src/adapters/prisma/migrate.ts: a run after a run.
use mafuta.Base.{
  String, Option, none, some, true, List, [], ◌∷◌, ◌≡◌, refl, ap, ◌∙◌, Bool-cases, Option-cases,
  inl, inr, All, sym, subst,
}
use mafuta.Base.Dict.{Dict, get, Entries, get-Entries}
use mafuta.Prisma.Migrations.{
  MigrationFile, MigrationRow, AppliedMigration, Database, MigrationDriver, PendingMigration,
  PendingPlan, MigrationRunSummary, returned, up_to_date, is_applied_entry, is_applied_state,
  read_applied_migrations, finish_row,
}
use mafuta.Prisma.Migrations.Run.{
  plan_files, read_pending, last_applied_name, start_migration, finish_migration, apply_one,
  apply_all, run_plan, run_sorted, run_migrations, sorted_files,
}
use mafuta.Prisma.Migrations.Rows.{
  is_applied, has_attempt, read_applied_migrations-applied, read_applied_migrations-Entries,
}
use mafuta.Prisma.Migrations.Grows.{
  IsReady, Grows, Grows-trans, Grows-update, All-IsReady-Grows, start_migration-applied,
}

Grows-same : (rows : List MigrationRow) → Grows rows rows
Grows-same rows = record { attempts_stay = λ id name k. k; applied_stay = λ name k. k }

module _ (driver : MigrationDriver) where
  -- What is known once these are applied.
  abbrev Done : List PendingMigration → List MigrationRow → List MigrationRow → Type 0
  Done pending before after =
      All (λ p. is_applied p.file.name after ≡ true) pending × Grows before after

  finish_migration-Grows :
      (id : String) (file : MigrationFile) (db : Database)
      → Grows db.rows (finish_migration driver id file db).rows
  unfolding finish_migration
  finish_migration-Grows id file db =
      Grows-update id (finish_row (driver.now db.ticks)) db.rows (λ row. refl) (λ row. refl)
        (λ row h. h)

  apply_one-Done :
      (pending : PendingMigration) (db db' : Database)
      → IsReady db.rows pending
      → apply_one driver pending db ≡ (none, db')
      → (is_applied pending.file.name db'.rows ≡ true) × Grows db.rows db'.rows
  unfolding apply_one
  apply_one-Done pending db db' ready e =
      let (id, started) = start_migration driver pending db in
      let (holds, grown) = start_migration-applied driver pending.file pending.retry_of db ready in
      elim (Option-cases (driver.exec pending.file started.committed)) [
        | inl fine ↦
            let finished = finish_migration-Grows id pending.file started in
            let same : finish_migration driver id pending.file started ≡ db' =
              ap (λ r. r.1) (rw (fine, apply_one) at e) in
            subst (λ d. (is_applied pending.file.name d.rows ≡ true) × Grows db.rows d.rows) same
              (finished.applied_stay pending.file.name holds, Grows-trans grown finished)
        | inr (error, failing) ↦ cc (rw (failing, apply_one) at e)
      ]

  apply_all-Done :
      (pending : List PendingMigration) (db db' : Database)
      → All (IsReady db.rows) pending
      → apply_all driver pending db ≡ (none, db')
      → Done pending db.rows db'.rows
  unfolding apply_all
  apply_all-Done [] db db' ready e =
      subst (λ d. Done [] db.rows d.rows) (ap (λ r. r.1) e) (tt, Grows-same db.rows)
  apply_all-Done (p ∷ pending) db db' ready e =
      let mid = (apply_one driver p db).1 in
      elim (Option-cases (apply_one driver p db).0) [
        | inl fine ↦
            let one : apply_one driver p db ≡ (none, mid) = ap (λ o. (o, mid)) fine in
            let (holds, grown) = apply_one-Done p db mid ready.0 one in
            let (rest, grown') =
              apply_all-Done pending mid db' (All-IsReady-Grows pending grown ready.1)
                (rw (one, apply_all) at e) in
            ((grown'.applied_stay p.file.name holds, rest), Grows-trans grown grown')
        | inr (error, failing) ↦
            let one : apply_one driver p db ≡ (some error, mid) = ap (λ o. (o, mid)) failing in
            cc (rw (one, apply_all) at e)
      ]

  module _ (recorded : Dict AppliedMigration) (last : Option String) where
    plan_files-IsReady :
        (rows : List MigrationRow) (files : List MigrationFile)
        → Entries (λ name entry. has_attempt entry.id name rows ≡ true) recorded
        → All (IsReady rows) (plan_files driver recorded last files).migrations
    unfolding plan_files
    plan_files-IsReady rows [] entries = tt
    plan_files-IsReady rows (file ∷ files) entries =
        let rest = plan_files-IsReady rows files entries in
        elim (Option-cases (get file.name recorded)) [
          | inl missing ↦ rw (missing, plan_files) (tt, rest)
          | inr (entry, found) ↦ elim (Bool-cases (is_applied_state entry.state)) [
            | inl applied ↦ rw (found, applied, plan_files) rest
            | inr failed ↦
                rw (found, failed, plan_files)
                  (
                    get-Entries (λ name e. has_attempt e.id name rows ≡ true) file.name entry
                        recorded entries found,
                    rest,
                  )
          ]
        ]

    -- A file is planned or applied.
    plan_files-covers :
        (Q : String → Type 0) (files : List MigrationFile)
        → ((name : String) → is_applied_entry (get name recorded) ≡ true → Q name)
        → All (λ p. Q p.file.name) (plan_files driver recorded last files).migrations
        → All (λ f. Q f.name) files
    unfolding plan_files
    plan_files-covers Q [] old new = tt
    plan_files-covers Q (file ∷ files) old new = elim (Option-cases (get file.name recorded)) [
      | inl missing ↦
          let here = rw (missing, plan_files) at new in
          (here.0, plan_files-covers Q files old here.1)
      | inr (entry, found) ↦ elim (Bool-cases (is_applied_state entry.state)) [
        | inl applied ↦ (
          old file.name (rw found applied),
          plan_files-covers Q files old (rw (found, applied, plan_files) at new),
        )
        | inr failed ↦
            let here = rw (found, failed, plan_files) at new in
            (here.0, plan_files-covers Q files old here.1)
      ]
    ]

    plan_files-nil :
        (files : List MigrationFile)
        → All (λ f. is_applied_entry (get f.name recorded) ≡ true) files
        → (plan_files driver recorded last files).migrations ≡ []
    unfolding plan_files
    plan_files-nil [] all = refl
    plan_files-nil (file ∷ files) all = elim (Option-cases (get file.name recorded)) [
      | inl missing ↦ cc (rw missing at all.0)
      | inr (entry, found) ↦
          let applied : is_applied_state entry.state ≡ true = rw found at all.0 in
          rw (found, applied, plan_files) (plan_files-nil files all.1)
    ]

  run_plan-Done :
      (files : List MigrationFile) (plan : PendingPlan) (pending : List PendingMigration)
      (db db' : Database) (summary : MigrationRunSummary)
      → All (IsReady db.rows) pending
      → run_plan driver files plan pending db ≡ (returned summary, db')
      → Done pending db.rows db'.rows
  run_plan-Done files plan [] db db' summary ready e =
      subst (λ d. Done [] db.rows d.rows) (ap (λ r. r.1) e) (tt, Grows-same db.rows)
  run_plan-Done files plan (p ∷ pending) db db' summary ready e =
      let after = (apply_all driver (p ∷ pending) db).1 in
      elim (Option-cases (apply_all driver (p ∷ pending) db).0) [
        | inl fine ↦
            let all : apply_all driver (p ∷ pending) db ≡ (none, after) =
              ap (λ o. (o, after)) fine in
            subst (λ d. Done (p ∷ pending) db.rows d.rows) (ap (λ r. r.1) e)
              (apply_all-Done (p ∷ pending) db after ready all)
        | inr (error, failing) ↦
            let all : apply_all driver (p ∷ pending) db ≡ (some error, after) =
              ap (λ o. (o, after)) failing in
            cc (rw (all, run_plan) at e)
      ]

  run_plan-nil :
      (files : List MigrationFile) (plan : PendingPlan) (pending : List PendingMigration)
      (db : Database)
      → pending ≡ []
      → (summary : MigrationRunSummary) × (run_plan driver files plan pending db
          ≡ (returned summary, db))
        × (summary.status ≡ up_to_date)
        × (summary.applied ≡ [])
  run_plan-nil files plan [] db e = (_, refl, refl, refl)
  run_plan-nil files plan (p ∷ pending) db e = cc

  run_sorted-applied :
      (files : List MigrationFile) (db db' : Database) (summary : MigrationRunSummary)
      → run_sorted driver files db ≡ (returned summary, db')
      → All (λ f. is_applied f.name db'.rows ≡ true) files
  unfolding run_sorted read_pending
  run_sorted-applied files db db' summary e =
      let recorded = read_applied_migrations db.rows in
      let last = last_applied_name driver recorded in
      let plan = plan_files driver recorded last files in
      let ready =
        plan_files-IsReady recorded last db.rows files (read_applied_migrations-Entries db.rows) in
      let (new, grown) = run_plan-Done files plan plan.migrations db db' summary ready e in
      plan_files-covers recorded last (λ name. is_applied name db'.rows ≡ true) files
        (λ name old.
          grown.applied_stay name (sym (read_applied_migrations-applied name db.rows) ∙ old))
        new

  applied_entries :
      (files : List MigrationFile) (rows : List MigrationRow)
      → All (λ f. is_applied f.name rows ≡ true) files
      → All (λ f. is_applied_entry (get f.name (read_applied_migrations rows)) ≡ true) files
  applied_entries [] rows all = tt
  applied_entries (file ∷ files) rows all =
      (read_applied_migrations-applied file.name rows ∙ all.0, applied_entries files rows all.1)

  run_sorted-again :
      (files : List MigrationFile) (db : Database)
      → All (λ f. is_applied f.name db.rows ≡ true) files
      → (summary : MigrationRunSummary) × (run_sorted driver files db ≡ (returned summary, db))
        × (summary.status ≡ up_to_date)
        × (summary.applied ≡ [])
  unfolding run_sorted read_pending
  run_sorted-again files db all =
      let recorded = read_applied_migrations db.rows in
      let last = last_applied_name driver recorded in
      let plan = plan_files driver recorded last files in
      run_plan-nil files plan plan.migrations db
        (plan_files-nil recorded last files (applied_entries files db.rows all))

  -- After a run of the migrations that returned, a run of the same files has nothing to do: it
  -- returns as up to date, applies nothing and leaves the database as it is.
  pub run_migrations-again :
      (files : List MigrationFile) (db db' : Database) (summary : MigrationRunSummary)
      → run_migrations driver files db ≡ (returned summary, db')
      → (again : MigrationRunSummary) × (run_migrations driver files db' ≡ (returned again, db'))
        × (again.status ≡ up_to_date)
        × (again.applied ≡ [])
  unfolding run_migrations
  run_migrations-again files db db' summary e =
      let sorted = sorted_files driver files in
      run_sorted-again sorted db' (run_sorted-applied sorted db db' summary e)
