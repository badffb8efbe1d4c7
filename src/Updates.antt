-- ===== src/Updates.antt =====
-- apps/backend/src/services/update-watch.ts and maintenance.ts: whether an update of HSI landed,
-- and the maintenance during which mutations are refused. A time that cannot be parsed is `none`;
-- the worker's last result is an argument, and a check or a question is one step.
pub mod Attempts
pub mod Expiry
mod Tests
use Prim.Native.String.{String}
use home_server_interface.Base.{
  ℕ, ◌+◌, ◌*◌, Bool, true, false, ◌&&◌, ◌||◌, not, List, [], ◌∷◌, Option, none, some, str_eq,
  if◌then◌else◌, ltb, leb,
}

abbrev pub failure_after_ms : ℕ
failure_after_ms = 15 * 60000

abbrev pub restart_grace_ms : ℕ
restart_grace_ms = 5 * 60000

abbrev pub no_restart_failure_after_ms : ℕ
no_restart_failure_after_ms = 60 * 60000

pub record UpdateAttempt : Type 0 where
  pub target : String
  pub requested_at : Option ℕ

pub data Verdict : Type 0 where
  wait succeeded failed : Verdict

-- The part that reads the time of the request: whether the verdict has to wait.
abbrev pub too_early : Option ℕ → ℕ → ℕ → Bool
too_early none now started_at = false
too_early (some requested) now started_at =
    ltb now (requested + failure_after_ms)
    || (ltb requested started_at && ltb now (started_at + restart_grace_ms))
    || (not (ltb requested started_at) && ltb now (requested + no_restart_failure_after_ms))

unfoldable pub evaluate_update_attempt : UpdateAttempt → String → Bool → ℕ → ℕ → Verdict
evaluate_update_attempt attempt current pending_exists now started_at =
    if str_eq current attempt.target
    then succeeded
    else if pending_exists
    then wait
    else if too_early attempt.requested_at now started_at
    then wait
    else failed

-- The attempt file: absent, unreadable, or the record of an attempt.
pub data AttemptFile : Type 0 where
  absent unreadable : AttemptFile
  recorded : UpdateAttempt → AttemptFile

-- The file after a check, and the target of the update whose failure it announced.
unfoldable pub check_update_attempt :
    String → Bool → ℕ → ℕ → AttemptFile → AttemptFile × Option String
check_update_attempt current pending_exists now started_at absent = (absent, none)
check_update_attempt current pending_exists now started_at unreadable = (absent, none)
check_update_attempt current pending_exists now started_at (recorded attempt) =
    elim (evaluate_update_attempt attempt current pending_exists now started_at) [
      | wait ↦ (recorded attempt, none)
      | succeeded ↦ (absent, none)
      | failed ↦ (absent, some attempt.target)
    ]

pub record UpdateResult : Type 0 where
  pub to : String
  pub at : Option ℕ

pub data MaintenanceKind : Type 0 where
  update restart reboot : MaintenanceKind

pub record Maintenance : Type 0 where
  pub kind : MaintenanceKind
  pub target : Option String
  pub since : ℕ

abbrev pub expires_after_ms : MaintenanceKind → ℕ
expires_after_ms update = no_restart_failure_after_ms
expires_after_ms restart = 5 * 60000
expires_after_ms reboot = 15 * 60000

abbrev pub cache_ms : ℕ
cache_ms = 2000

-- The module's variables `current` and `cached`, the answer with the time it was given at.
pub record MaintenanceState : Type 0 where
  pub current : Option Maintenance
  pub cached : Option (ℕ × Option Maintenance)

unfoldable pub begin_maintenance : MaintenanceKind → Option String → ℕ → MaintenanceState
begin_maintenance kind target now = record {
  current = some (record { kind = kind; target = target; since = now });
  cached = none;
}

abbrev pub is_update : MaintenanceKind → Bool
is_update update = true
is_update restart = false
is_update reboot = false

abbrev pub is_target : Option String → String → Bool
is_target none to = false
is_target (some target) to = str_eq to target

abbrev pub not_before : ℕ → Option ℕ → Bool
not_before since none = false
not_before since (some at) = leb since at

-- The worker's last result is that of this update, and not an older one.
abbrev pub has_ended : Maintenance → Option UpdateResult → Bool
has_ended m none = false
has_ended m (some last) = is_target m.target last.to && not_before m.since last.at

unfoldable pub maintenance_holds : Maintenance → ℕ → Option UpdateResult → Bool
maintenance_holds m now last =
    if leb (m.since + expires_after_ms m.kind) now
    then false
    else not (is_update m.kind && has_ended m last)

abbrev pub fresh_answer : ℕ → Option (ℕ × Option Maintenance) → Option (Option Maintenance)
fresh_answer now none = none
fresh_answer now (some (at, value)) = if ltb now (at + cache_ms) then some value else none

abbrev pub still_holds : ℕ → Option UpdateResult → Option Maintenance → Option Maintenance
still_holds now last none = none
still_holds now last (some m) = if maintenance_holds m now last then some m else none

-- The answer from the two variables, and their values after it.
unfoldable pub answer :
    ℕ
    → Option UpdateResult
    → Option Maintenance
    → Option (ℕ × Option Maintenance)
    → Option Maintenance × MaintenanceState
answer now last none cached = (none, record { current = none; cached = cached })
answer now last (some m) cached = elim (fresh_answer now cached) [
  | some value ↦ (value, record { current = some m; cached = cached })
  | none ↦
      let value = still_holds now last (some m) in
      (value, record { current = value; cached = some (now, value) })
]

unfoldable pub current_maintenance :
    ℕ → Option UpdateResult → MaintenanceState → Option Maintenance × MaintenanceState
current_maintenance now last s = answer now last s.current s.cached
