-- ===== src/Apps.antt =====
-- apps/backend/src/services/app-plan.ts: the plans of container apps, as steps that run on the
-- host, and the steps that change an app's compose file. The host is a state of any type; the
-- answers of its effects, and what they leave of it, are parameters.
pub mod Files
pub mod Execution
pub mod Diff
mod Tests
use Prim.Native.String.{String}
use home_server_interface.Base.{
  ℕ, Bool, true, false, not, ◌&&◌, List, [], ◌∷◌, ◌++◌, map, Option, none, some, str_eq,
  if◌then◌else◌, concat, Result, ok, err,
}

pub record Thrown : Type 0 where
  pub message : String

-- A computation on the host.
abbrev pub Act : Type 0 → Type 0 → Type 0
Act W A = W → Result Thrown A × W

abbrev pub return : {W A : Type 0} → A → Act W A
return a w = (ok a, w)

abbrev pub throw : {W A : Type 0} → Thrown → Act W A
throw e w = (err e, w)

abbrev pub bind_answer :
    {W A B : Type 0} → Result Thrown A → (A → Act W B) → W → Result Thrown B × W
bind_answer (ok a) f w = f a w
bind_answer (err e) f w = (err e, w)

infixl 5 ◌>>=◌ ◌>>◌
abbrev pub ◌>>=◌ : {W A B : Type 0} → Act W A → (A → Act W B) → Act W B
◌>>=◌ m f w = bind_answer (m w).0 f (m w).1

abbrev pub ◌>>◌ : {W B : Type 0} → Act W (Unit {0}) → Act W B → Act W B
m >> k = m >>= λ _. k

abbrev pub handled : {W A : Type 0} → Result Thrown A → (Thrown → Act W A) → W → Result Thrown A × W
handled (ok a) handler w = (ok a, w)
handled (err e) handler w = handler e w

-- `try { … } catch (e) { … }`
abbrev pub catch : {W A : Type 0} → Act W A → (Thrown → Act W A) → Act W A
catch m handler w = handled (m w).0 handler (m w).1

-- `.catch(() => {})`
abbrev pub quietly : {W : Type 0} → Act W (Unit {0}) → Act W (Unit {0})
quietly m w = (ok tt, (m w).1)

pub record Ran : Type 0 where
  pub detail : Option String
  pub job_id : Option String

pub record AppStep (W : Type 0) : Type 0 where
  pub kind : String
  pub target : String
  pub summary : String
  pub command : List String
  pub diff : Option String
  pub destructive : Bool
  pub on_failure : Option String
  pub background : Bool
  pub run : Option (Act W Ran)

pub record AppStepResult : Type 0 where
  pub status : String
  pub error : Option String
  pub detail : Option String
  pub job_id : Option String

pub record Outcome : Type 0 where
  pub ok : Bool
  pub error : Option String
  pub results : List AppStepResult

abbrev pub nothing : Ran
nothing = record { detail = none; job_id = none }

abbrev pub with_status : String → Option String → AppStepResult
with_status status error = record { status = status; error = error; detail = none; job_id = none }

abbrev pub not_run : AppStepResult
not_run = with_status "not-run" none

abbrev pub is_warn : Option String → Bool
is_warn none = false
is_warn (some s) = str_eq s "warn"

abbrev pub result_of : {W : Type 0} → AppStep W → Ran → AppStepResult
result_of s r = record {
  status = if s.background then "started" else "done";
  error = none;
  detail = r.detail;
  job_id = r.job_id;
}

abbrev pub run_of : {W : Type 0} → Option (Act W Ran) → Act W Ran
run_of none = return nothing
run_of (some run) = run

abbrev pub one_more : AppStepResult → Outcome → Outcome
one_more result out = record out { results = result ∷ out.results }

-- A step and those after it; a failed step ends the plan, unless it only warns.
unfoldable pub execute_app_plan : {W : Type 0} → List (AppStep W) → W → Outcome × W
execute_app_plan [] w = (record { ok = true; error = none; results = [] }, w)
execute_app_plan (s ∷ steps) w =
    let ran = run_of s.run w in
    let rest = execute_app_plan steps ran.1 in
    elim ran.0 [
      | ok r ↦ (one_more (result_of s r) rest.0, rest.1)
      | err e ↦
          if is_warn s.on_failure
          then (one_more (with_status "warning" (some e.message)) rest.0, rest.1)
          else (
            record {
              ok = false;
              error = some e.message;
              results = with_status "failed" (some e.message) ∷ map (λ later. not_run) steps;
            },
            ran.1,
          )
    ]

-- `deps.effects`, as far as the changes of a compose file and the starts use them.
pub record Effects (W : Type 0) : Type 0 where
  pub write_stack : String → String → Act W (Unit {0})
  pub remove_stack_dir : String → Act W (Unit {0})
  pub validate : String → Act W (Unit {0})
  pub publish_job : String → String → Act W String
  pub write_previous : String → String → Act W (Unit {0})
  pub remove_previous : String → Act W (Unit {0})

module _ {W : Type 0} (effects : Effects W) (name : String) where
  -- The earlier rollback point, put back.
  abbrev pub restore_previous : Option String → Act W (Unit {0})
  restore_previous none = effects.remove_previous name
  restore_previous (some previous) = effects.write_previous name previous

  abbrev pub undo_update : String → Option String → Thrown → Act W (Unit {0})
  undo_update content previous e = do
    quietly (effects.write_stack name content)
    quietly (restore_previous previous)
    throw e

  -- The step of an update: the file is replaced, and kept as the rollback point.
  unfoldable pub update_run : String → Option String → String → Act W Ran
  update_run content previous yaml = do
    effects.write_previous name content
    catch (effects.write_stack name yaml >> effects.validate name) (undo_update content previous)
    return nothing

  -- The step of a rollback: the earlier image, and the rollback point is gone.
  unfoldable pub rollback_run : String → String → Act W Ran
  rollback_run content yaml = do
    effects.write_stack name yaml
    catch (effects.validate name) (λ e. quietly (effects.write_stack name content) >> throw e)
    effects.remove_previous name
    return nothing

  -- The step of an installation: an invalid file is removed again.
  unfoldable pub install_run : String → Act W Ran
  install_run yaml = do
    effects.write_stack name yaml
    catch (effects.validate name) (λ e. quietly (effects.remove_stack_dir name) >> throw e)
    return nothing

  unfoldable pub up_run : Bool → Act W Ran
  up_run validate = do
    if validate then effects.validate name else return tt
    job ← effects.publish_job "container.composeUp" name
    return (record { detail = none; job_id = some job })
