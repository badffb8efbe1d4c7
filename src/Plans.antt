-- ===== src/Plans.antt =====
-- apps/backend/src/services/storage-plan.ts and what the plans of shares, users and volumes have
-- in common: their steps and results, the host that they call, and the calls as a history. The
-- answer of each call is any function of the calls before it; a call that throws is an error.
pub mod Shares
pub mod Users
pub mod RemoveVolume
pub mod CreateVolume
pub mod Reads
pub mod Samba
pub mod Commits
pub mod Order
mod Tests
use Prim.Native.String.{String}
use home_server_interface.Base.{
  ℕ, zero, suc, Bool, true, false, ◌&&◌, ◌||◌, not, List, [], ◌∷◌, ◌++◌, Option, none, some, str_eq,
  if◌then◌else◌, Result, ok, err,
}

pub record PlanStep : Type 0 where
  pub kind : String
  pub target : String
  pub summary : String
  pub destructive : Bool

pub record StepResult : Type 0 where
  pub status : String
  pub error : Option String

pub record PlanApplyResult : Type 0 where
  pub ok : Bool
  pub error : Option String
  pub steps : List PlanStep
  pub results : List StepResult
  pub warnings : List String
  pub reply : List (String × String)

pub record Preview : Type 0 where
  pub steps : List PlanStep
  pub fingerprint : String

-- An error as JavaScript throws it: some carry a code.
pub record Thrown : Type 0 where
  pub code : Option String
  pub message : String

-- The input of a worker's operation.
pub data Input : Type 0 where
  shares : List String → Input
  new_volume : String → Input
  old_volume : String → List String → Input
  new_user : String → String → Bool → Input
  username : String → Input

pub data Call : Type 0 where
  preview_call : String → Input → Call
  apply_call : String → Input → String → Call
  smbd_call share_defs_call current_defs_call commit_call create_place_call : Call
  create_share_call delete_place_call release_hold_call : String → Call
  resync_call sync_access_call lock_call unlock_call : Call

-- What the plans are given as `deps`, with the calls made so far, the last one first.
pub record Host : Type 0 where
  pub is_admin : Bool
  pub preview : List Call → String → Input → Result Thrown Preview
  pub apply : List Call → String → Input → String → Result Thrown PlanApplyResult
  pub smbd_installed : List Call → Result Thrown Bool
  pub share_defs : List Call → Result Thrown (List String)
  pub current_share_defs : List Call → Result Thrown (List String)
  pub commit : List Call → Result Thrown (Unit {0})
  pub create_place : List Call → Result Thrown String
  pub create_share : List Call → String → Result Thrown (Unit {0})
  pub delete_place : List Call → String → Result Thrown (Unit {0})
  -- the SHA-256 of the JSON of some texts, each of them there or null
  pub digest : List (Option String) → String

-- A computation that calls the host: it returns or throws, and leaves the calls made.
abbrev pub Effect : Type 0 → Type 0
Effect A = List Call → Result Thrown A × List Call

abbrev pub return : {A : Type 0} → A → Effect A
return a h = (ok a, h)

abbrev pub throw : {A : Type 0} → Thrown → Effect A
throw e h = (err e, h)

abbrev pub bind_answer :
    {A B : Type 0} → Result Thrown A → (A → Effect B) → List Call → Result Thrown B × List Call
bind_answer (ok a) f h = f a h
bind_answer (err e) f h = (err e, h)

infixl 5 ◌>>=◌ ◌>>◌
abbrev pub ◌>>=◌ : {A B : Type 0} → Effect A → (A → Effect B) → Effect B
◌>>=◌ m f h = bind_answer (m h).0 f (m h).1

abbrev pub ◌>>◌ : {B : Type 0} → Effect (Unit {0}) → Effect B → Effect B
m >> k = m >>= λ _. k

-- A call, with the host's answer after the calls before it.
abbrev pub ask : {A : Type 0} → Call → (List Call → Result Thrown A) → Effect A
ask c answer h = (answer h, c ∷ h)

-- A call whose errors are dropped: `.catch(() => {})`.
abbrev pub tell : Call → Effect (Unit {0})
tell c h = (ok tt, c ∷ h)

-- `try { … } catch`, with the error as a value.
abbrev pub attempt : {A : Type 0} → Effect A → Effect (Result Thrown A)
attempt m h = (ok (m h).0, (m h).1)

-- The value or error of an attempt, passed on.
abbrev pub settle : {A : Type 0} → Result Thrown A → Effect A
settle r h = (r, h)

-- `serialize`: the computation under the lock of the shares.
abbrev pub serialize : {A : Type 0} → Effect A → Effect A
serialize m h = ((m (lock_call ∷ h)).0, unlock_call ∷ (m (lock_call ∷ h)).1)

-- `if (flag) await call`
abbrev pub when : Bool → Call → Effect (Unit {0})
when true c = tell c
when false c = return tt

abbrev pub fail {ℓ} : {A : Type ℓ} → String → String → Result Thrown A
fail code message = err (record { code = some code; message = message })

abbrev pub stale : String
stale = "The server changed since this preview; review the plan again"

abbrev pub samba_missing : String
samba_missing = "Samba is not installed on the host. Run: apt install samba"

abbrev has_code : Option String → String → Bool
has_code none code = false
has_code (some c) code = str_eq c code

unfoldable pub no_answer : Thrown → Bool
no_answer e = elim e.code [ none ↦ true | some code ↦ false ]

unfoldable pub worker_error : Thrown → Thrown
worker_error e =
    if has_code e.code "SMBD_MISSING"
    then record { code = some "PRECONDITION_FAILED"; message = samba_missing }
    else if has_code e.code "ESTALE"
    then record { code = some "CONFLICT"; message = e.message }
    else if has_code e.code "ERR"
    then record { code = some "BAD_REQUEST"; message = e.message }
    else record { code = some "INTERNAL_SERVER_ERROR"; message = e.message }

-- An answer of the worker, whose errors the plans translate.
abbrev pub from_worker {ℓ} : {A : Type ℓ} → Result Thrown A → Result Thrown A
from_worker (ok a) = ok a
from_worker (err e) = err (worker_error e)

abbrev pub not_run : ℕ → List StepResult
not_run zero = []
not_run (suc n) = record { status = "not-run"; error = none } ∷ not_run n

abbrev pub done_step : StepResult
done_step = record { status = "done"; error = none }

abbrev pub failed_step : String → StepResult
failed_step error = record { status = "failed"; error = some error }

abbrev pub with_default : Option String → String → String
with_default none d = d
with_default (some s) d = s
