-- ===== src/Backups/Tests.antt =====
-- A worker that never answers.
use Prim.Native.String.{String}
use home_server_interface.Base.{ℕ, [], err}
use home_server_interface.Backups.{MigrationDeps, migrate_rsync_plans}
use home_server_interface.Backups.Migration.{Ends, migrate_rsync_plans-Ends}

abbrev silent : MigrationDeps ℕ String
silent = record {
  status = λ h. err "timeout";
  rows = λ h. err "timeout";
  migrate = λ h rows. err "timeout";
}

migrate_rsync_plans-Ends_example : Ends silent (migrate_rsync_plans silent 24 0 0 [])
migrate_rsync_plans-Ends_example = migrate_rsync_plans-Ends silent
