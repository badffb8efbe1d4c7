-- ===== src/Plans/Users.antt =====
-- apps/backend/src/services/user-plan.ts: creating and deleting a user. A worker's reply with no
-- list of steps or results reads as an empty one, which is how the host's answers hold them.
use Prim.Native.String.{String}
use home_server_interface.Base.{
  Bool, true, false, ◌&&◌, ◌||◌, not, List, [], ◌∷◌, ◌++◌, Option, none, some, str_eq,
  if◌then◌else◌, Result, ok, err, concat,
}
use home_server_interface.Plans.{
  PlanStep, StepResult, PlanApplyResult, Preview, Thrown, Input, Host, Effect, return, ◌>>=◌, ◌>>◌,
  ask, attempt, settle, serialize, when, fail, stale, from_worker, done_step, failed_step, shares,
  new_user, username, smbd_call, share_defs_call, current_defs_call, preview_call, apply_call,
  commit_call, resync_call,
}

unfoldable pub create_step : String → PlanStep
create_step name = record {
  kind = "create";
  target = name;
  summary = concat "Create the HSI user " name;
  destructive = false;
}

unfoldable pub delete_step : String → PlanStep
delete_step name = record {
  kind = "delete";
  target = name;
  summary = concat "Delete the HSI user " (
      concat name
        "; the Linux account and its Samba account stay on the server (see https://kittyruntime.github.io/home-server-interface/guide/manage-without-hsi/)");
  destructive = true;
}

-- A part of a delete plan: the operation, its input and the fingerprint of its preview.
abbrev pub Part : Type 0
Part = String × Input × String

pub record DeletePreviews : Type 0 where
  pub smb : Option (Preview × Input)
  pub group : Preview
  pub fingerprint : String

abbrev pub same_texts : List String → List String → Bool
same_texts [] [] = true
same_texts [] (y ∷ ys) = false
same_texts (x ∷ xs) [] = false
same_texts (x ∷ xs) (y ∷ ys) = str_eq x y && same_texts xs ys

abbrev pub smb_steps : Option (Preview × Input) → List PlanStep
smb_steps none = []
smb_steps (some (p, input)) = p.steps

abbrev pub smb_fingerprint : Option (Preview × Input) → Option String
smb_fingerprint none = none
smb_fingerprint (some (p, input)) = some p.fingerprint

-- What the parts have run so far.
pub record Ran : Type 0 where
  pub steps : List PlanStep
  pub results : List StepResult
  pub warnings : List String

abbrev pub nothing_ran : Ran
nothing_ran = record { steps = []; results = []; warnings = [] }

unfoldable pub ran_also : Ran → PlanApplyResult → Ran
ran_also ran res = record {
  steps = ran.steps ++ res.steps;
  results = ran.results ++ res.results;
  warnings = ran.warnings ++ res.warnings;
}

-- The answer of a plan that deletes the user, after its last step ended in `last`.
unfoldable pub deletion : String → Ran → Bool → Option String → StepResult → PlanApplyResult
deletion name ran succeeded error last = record {
  ok = succeeded;
  error = error;
  steps = ran.steps ++ delete_step name ∷ [];
  results = ran.results ++ last ∷ [];
  warnings = ran.warnings;
  reply = [];
}

abbrev pub not_run_step : StepResult
not_run_step = record { status = "not-run"; error = none }

unfoldable pub creation :
    String → PlanApplyResult → Bool → Option String → StepResult → PlanApplyResult
creation name res succeeded error last = record res {
  ok = succeeded;
  error = error;
  steps = res.steps ++ create_step name ∷ [];
  results = res.results ++ last ∷ [];
}

module _ (host : Host) where
  unfoldable pub user_preview : String → Input → Effect Preview
  user_preview op input = do
    answer ← attempt (ask (preview_call op input) (λ h. host.preview h op input))
    settle (from_worker answer)

  unfoldable pub user_apply : String → Input → String → Effect PlanApplyResult
  user_apply op input fingerprint = do
    answer ←
        attempt (ask (apply_call op input fingerprint) (λ h. host.apply h op input fingerprint))
    settle (from_worker answer)

  unfoldable pub preview_user_create : String → String → Bool → Effect Preview
  preview_user_create name password samba = do
    p ← user_preview "user.create" (new_user name password samba)
    return (record { steps = p.steps ++ create_step name ∷ []; fingerprint = p.fingerprint })

  unfoldable pub apply_user_create : String → String → Bool → String → Effect PlanApplyResult
  apply_user_create name password samba fingerprint = do
    res ← user_apply "user.create" (new_user name password samba) fingerprint
    if not res.ok
        then return (creation name res res.ok res.error not_run_step)
        else attempt (ask commit_call host.commit) >>= λ committed. elim committed [
          | err e ↦ return (creation name res false (some e.message) (failed_step e.message))
          | ok _ ↦ return (creation name res res.ok res.error done_step)
        ]

  -- The `smb.sync` preview, if a share names the user and Samba is there.
  unfoldable pub smb_preview : List String → Bool → Effect (Option (Preview × Input))
  smb_preview defs named =
      if not named
      then return none
      else ask smbd_call host.smbd_installed >>= λ installed.
          if not installed
          then return none
          else user_preview "smb.sync" (shares defs) >>= λ p. return (some (p, shares defs))

  unfoldable pub delete_previews : String → Effect DeletePreviews
  delete_previews name = do
    defs ← ask share_defs_call host.share_defs
    current ← ask current_defs_call host.current_share_defs
    smb ← smb_preview defs (not (same_texts defs current))
    group ← user_preview "group.leave" (username name)
    return (record {
      smb = smb;
      group = group;
      fingerprint = host.digest (smb_fingerprint smb ∷ some group.fingerprint ∷ some name ∷ []);
    })

  unfoldable pub preview_user_delete : String → Effect Preview
  preview_user_delete name = do
    p ← delete_previews name
    return (record {
      steps = smb_steps p.smb ++ (p.group.steps ++ delete_step name ∷ []);
      fingerprint = p.fingerprint;
    })

  unfoldable pub commit_delete : String → Bool → Ran → Effect (Bool × Result Thrown PlanApplyResult)
  commit_delete name resync ran = do
    committed ← attempt (ask commit_call host.commit)
    elim committed [
      | err e ↦
          return (resync, ok (deletion name ran false (some e.message) (failed_step e.message)))
      | ok _ ↦ return (false, ok (deletion name ran true none done_step))
    ]

  -- The loop over the parts: whether Samba has to be brought back, and the outcome.
  unfoldable pub delete_parts :
      String → List Part → Bool → Ran → Effect (Bool × Result Thrown PlanApplyResult)
  delete_parts name [] resync ran = commit_delete name resync ran
  delete_parts name ((op, input, fingerprint) ∷ parts) resync ran =
      attempt (user_apply op input fingerprint) >>= λ answer. elim answer [
        | err e ↦ return (resync, err e)
        | ok res ↦
            if not res.ok
            then return (
              resync || str_eq op "smb.sync",
              ok (deletion name (ran_also ran res) false res.error not_run_step),
            )
            else delete_parts name parts (resync || str_eq op "smb.sync") (ran_also ran res)
      ]

  abbrev pub parts_of : String → DeletePreviews → List Part
  parts_of name p = elim p.smb [
    | none ↦ ("group.leave", username name, p.group.fingerprint) ∷ []
    | some (s, input) ↦
        ("smb.sync", input, s.fingerprint)
        ∷ ("group.leave", username name, p.group.fingerprint)
        ∷ []
  ]

  unfoldable pub delete_body : String → String → Effect (Bool × Result Thrown PlanApplyResult)
  delete_body name fingerprint = do
    previews ← attempt (delete_previews name)
    elim previews [
      | err e ↦ return (false, err e)
      | ok p ↦
          if not (str_eq p.fingerprint fingerprint)
          then return (false, fail "CONFLICT" stale)
          else delete_parts name (parts_of name p) false nothing_ran
    ]

  unfoldable pub apply_user_delete : String → String → Effect PlanApplyResult
  apply_user_delete name fingerprint = do
    out ← serialize (delete_body name fingerprint)
    when out.0 resync_call
    settle out.1
