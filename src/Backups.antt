-- ===== src/Backups.antt =====
-- apps/backend/src/services/backup-status.ts: what the worker's report on the backups is alerted of,
-- and the migration of the former rsync plans. Of the report stands what these read.
pub mod Migration
mod Tests
use Prim.Native.String.{String}
use text.Mathlib.Text.{find?}
use home_server_interface.Base.{
  ℕ, zero, suc, ◌+◌, ltb, Bool, true, false, not, ◌&&◌, ◌||◌, List, [], ◌∷◌, ◌++◌, map, any, length,
  get_elem?, get_or, Option, none, some, is_some, str_eq, starts_with, if◌then◌else◌, concat,
  Result, ok, err,
}

pub data RunStatus : Type 0 where
  running success failed : RunStatus

pub record RunRecord : Type 0 where
  pub status : RunStatus
  pub error : Option String

pub data PlanType : Type 0 where
  sync versions : PlanType

pub record BackupPlanStatus : Type 0 where
  pub id : String
  pub name : String
  pub kind : PlanType
  pub last : Option RunRecord

pub record BackupRepositoryStatus : Type 0 where
  pub id : String
  pub name : String
  pub last_check : Option RunRecord

pub record SkippedPlan : Type 0 where
  pub name : String
  pub error : String

pub record BackupStatus : Type 0 where
  pub config_exists : Bool
  pub engine_installed : Bool
  pub plans : List BackupPlanStatus
  pub repositories : List BackupRepositoryStatus
  pub migration_skipped : List SkippedPlan

pub data Severity : Type 0 where
  warning critical : Severity

pub record BackupFinding : Type 0 where
  pub target : String
  pub severity : Severity
  pub message : String

abbrev pub has_part : String → String → Bool
has_part text part = is_some (find? text part)

unfoldable pub is_interrupted : String → Bool
is_interrupted error = str_eq error "interrupted" || starts_with error "interrupted;"

-- The record of a run, if it says that the run failed.
abbrev pub failed_run : Option RunRecord → Option RunRecord
failed_run none = none
failed_run (some run) = elim run.status [ running ↦ none | success ↦ none | failed ↦ some run ]

abbrev pub plan_target : BackupPlanStatus → String
plan_target p = concat "plan:" p.id

abbrev pub repository_target : BackupRepositoryStatus → String
repository_target r = concat "repository:" r.id

abbrev pub plan_message : String → String → String
plan_message name error =
    if is_interrupted error
    then concat "Backup \"" (concat name (concat "\" was interrupted: " error))
    else concat "Backup \"" (concat name (concat "\" failed: " error))

unfoldable pub plan_finding : BackupPlanStatus → RunRecord → BackupFinding
plan_finding p run =
    let error = get_or run.error "unknown error" in
    record {
      target = plan_target p;
      severity = if has_part error "did not start again" then critical else warning;
      message = plan_message p.name error;
    }

unfoldable pub plan_findings : List BackupPlanStatus → List BackupFinding
plan_findings [] = []
plan_findings (p ∷ plans) = elim (failed_run p.last) [
  | none ↦ plan_findings plans
  | some run ↦ plan_finding p run ∷ plan_findings plans
]

unfoldable pub repository_finding : BackupRepositoryStatus → RunRecord → BackupFinding
repository_finding r run = record {
  target = repository_target r;
  severity = critical;
  message =
      concat "Integrity check of \""
        (concat r.name (concat "\" failed: " (get_or run.error "unknown error")));
}

unfoldable pub repository_findings : List BackupRepositoryStatus → List BackupFinding
repository_findings [] = []
repository_findings (r ∷ repositories) = elim (failed_run r.last_check) [
  | none ↦ repository_findings repositories
  | some run ↦
      let rest = repository_findings repositories in
      if is_interrupted (get_or run.error "") then rest else repository_finding r run ∷ rest
]

abbrev pub is_versions : BackupPlanStatus → Bool
is_versions p = elim p.kind [ sync ↦ false | versions ↦ true ]

unfoldable pub engine_findings : BackupStatus → List BackupFinding
engine_findings s =
    if not s.engine_installed && any is_versions s.plans
    then record {
      target = "engine";
      severity = warning;
      message = "The backup engine (restic) is not installed: run the installer again";
    }
      ∷ []
    else []

abbrev pub skipped_text : SkippedPlan → String
skipped_text p =
    concat (if str_eq p.name "" then "unnamed" else p.name) (concat " (" (concat p.error ")"))

abbrev pub skipped_list : List SkippedPlan → String
skipped_list [] = ""
skipped_list (p ∷ []) = skipped_text p
skipped_list (p ∷ q ∷ skipped) = concat (skipped_text p) (concat ", " (skipped_list (q ∷ skipped)))

unfoldable pub migration_findings : List SkippedPlan → List BackupFinding
migration_findings skipped =
    if ltb 0 (length skipped)
    then record {
      target = "migration";
      severity = warning;
      message =
          concat "Former backup plans were not migrated, create them again on the Backups page: "
            (skipped_list skipped);
    }
      ∷ []
    else []

unfoldable pub backup_findings : BackupStatus → List BackupFinding
backup_findings s =
    plan_findings s.plans
    ++ (repository_findings s.repositories
        ++ (engine_findings s ++ migration_findings s.migration_skipped))

unfoldable pub backup_targets : BackupStatus → List String
backup_targets s =
    "engine" ∷ "migration" ∷ map plan_target s.plans ++ map repository_target s.repositories

abbrev pub migration_delays_ms : List ℕ
migration_delays_ms = 1000 ∷ 2000 ∷ 4000 ∷ 8000 ∷ 16000 ∷ []

abbrev pub migration_retry_ms : ℕ
migration_retry_ms = 30000

abbrev pub migration_give_up_ms : ℕ
migration_give_up_ms = 600000

abbrev pub delay_at : ℕ → ℕ
delay_at attempt = get_or (get_elem? migration_delays_ms attempt) migration_retry_ms

pub record Migrated : Type 0 where
  pub migrated : ℕ
  pub skipped : List SkippedPlan

-- What a migration does, with rows of the former table and errors of any type.
pub data Event (Row E : Type 0) : Type 0 where
  asked_status read_rows : Event Row E
  asked_migration : List Row → Event Row E
  logged_migrated : ℕ → Event Row E
  warned : SkippedPlan → Event Row E
  gave_up : E → Event Row E
  slept : ℕ → Event Row E

-- The answers of the worker and the database, each after the events so far, the last one first.
pub record MigrationDeps (Row E : Type 0) : Type 0 where
  pub status : List (Event Row E) → Result E BackupStatus
  pub rows : List (Event Row E) → Result E (List Row)
  pub migrate : List (Event Row E) → List Row → Result E Migrated

module _ {Row E : Type 0} where
  abbrev pub warn_skipped : List SkippedPlan → List (Event Row E) → List (Event Row E)
  warn_skipped [] h = h
  warn_skipped (p ∷ skipped) h = warn_skipped skipped (warned p ∷ h)

  -- What follows the answer to the request for a migration.
  abbrev pub log_migrated :
      Result E Migrated → List (Event Row E) → Result E (Unit {0}) × List (Event Row E)
  log_migrated (err e) h = (err e, h)
  log_migrated (ok res) h = (ok tt, warn_skipped res.skipped (logged_migrated res.migrated ∷ h))

  module _ (deps : MigrationDeps Row E) where
    abbrev pub migrate_rows :
        Result E (List Row) → List (Event Row E) → Result E (Unit {0}) × List (Event Row E)
    migrate_rows (err e) h = (err e, h)
    migrate_rows (ok []) h = (ok tt, h)
    migrate_rows (ok (row ∷ rows)) h =
        log_migrated (deps.migrate h (row ∷ rows)) (asked_migration (row ∷ rows) ∷ h)

    abbrev pub after_status :
        Result E BackupStatus → List (Event Row E) → Result E (Unit {0}) × List (Event Row E)
    after_status (err e) h = (err e, h)
    after_status (ok status) h =
        if status.config_exists then (ok tt, h) else migrate_rows (deps.rows h) (read_rows ∷ h)

    -- The body of the loop's `try`.
    unfoldable pub try_migration : List (Event Row E) → Result E (Unit {0}) × List (Event Row E)
    try_migration h = after_status (deps.status h) (asked_status ∷ h)

    -- The loop, with none if the fuel runs out.
    unfoldable pub migrate_rsync_plans :
        ℕ → ℕ → ℕ → List (Event Row E) → Option (List (Event Row E))
    migrate_rsync_plans zero attempt waited h = none
    migrate_rsync_plans (suc fuel) attempt waited h =
        let delay = delay_at attempt in
        let h1 = (try_migration h).1 in
        let again = migrate_rsync_plans fuel (attempt + 1) (waited + delay) (slept delay ∷ h1) in
        elim (try_migration h).0 [
          | ok u ↦ some h1
          | err e ↦
              if ltb migration_give_up_ms (waited + delay) then some (gave_up e ∷ h1) else again
        ]
