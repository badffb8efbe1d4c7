-- ===== src/Plans/CreateVolume.antt =====
-- apps/backend/src/services/volume-plan.ts: a new volume, with a Place on it and a share of that.
use Prim.Native.String.{String}
use home_server_interface.Base.{
  ℕ, Bool, true, false, not, ◌&&◌, ◌||◌, ◌-◌, List, [], ◌∷◌, ◌++◌, length, take, Option, none, some,
  is_some, str_eq, if◌then◌else◌, Result, ok, err, concat, zero, suc,
}
use home_server_interface.Plans.{
  PlanStep, StepResult, PlanApplyResult, Preview, Thrown, Input, Host, Effect, return, ◌>>=◌, ◌>>◌,
  ask, attempt, settle, serialize, when, fail, stale, samba_missing, no_answer, worker_error,
  from_worker, done_step, failed_step, not_run, with_default, shares, new_volume, smbd_call,
  share_defs_call, preview_call, apply_call, create_place_call, create_share_call, resync_call,
}

-- What a new volume is made from: the worker's part of it stands as a text.
pub record VolumeInput : Type 0 where
  pub volume : String
  pub mountpoint : String
  pub place : Option String
  pub share : Option (Option String)

abbrev pub place_steps : VolumeInput → List PlanStep
place_steps input = elim input.place [
  | none ↦ []
  | some name ↦
      record {
        kind = "create";
        target = name;
        summary = concat "Create the Place \"" (concat name (concat "\" on " input.mountpoint));
        destructive = false;
      }
      ∷ []
]

abbrev pub smb_steps : Option (Preview × Input) → List PlanStep
smb_steps none = []
smb_steps (some (p, input)) = p.steps

abbrev pub smb_fingerprint : Option (Preview × Input) → Option String
smb_fingerprint none = none
smb_fingerprint (some (p, input)) = some p.fingerprint

pub record Parts : Type 0 where
  pub volume : Preview
  pub smb : Option (Preview × Input)
  pub fingerprint : String

abbrev share_or_null : Option (Option String) → List (Option String)
share_or_null none = none ∷ []
share_or_null (some name) = some "share" ∷ name ∷ []

unfoldable pub no_answer_yet : Thrown → Thrown
no_answer_yet e = record {
  code = some "INTERNAL_SERVER_ERROR";
  message = concat "No answer from the host (" (
      concat e.message
        "). The volume creation may still be running: check the Storage page before trying again.");
}

abbrev no_place : Thrown → String
no_place e = concat "The volume is ready, but the Place could not be created: " e.message

-- The steps of the whole plan with what has run of them.
pub record Progress : Type 0 where
  pub steps : List PlanStep
  pub results : List StepResult
  pub warnings : List String
  pub reply : List (String × String)

abbrev pub all_done : Progress → PlanApplyResult
all_done run = record {
  ok = true;
  error = none;
  steps = run.steps;
  results = run.results;
  warnings = run.warnings;
  reply = run.reply;
}

-- The first of the steps that are missing failed, the others did not run.
abbrev failed_tail : ℕ → String → List StepResult
failed_tail zero error = []
failed_tail (suc missing) error = failed_step error ∷ not_run missing

abbrev no_sharing : String → String
no_sharing why = concat "The volume and its Place are ready, but sharing failed: " why

unfoldable pub sharing_failed : Progress → String → PlanApplyResult
sharing_failed run why = record {
  ok = false;
  error = some (no_sharing why);
  steps = run.steps;
  results =
      let done = take (length run.steps) run.results in
      done ++ failed_tail (length run.steps - length done) (no_sharing why);
  warnings = run.warnings;
  reply = run.reply;
}

module _ (host : Host) where
  unfoldable pub check : VolumeInput → Effect (Unit {0})
  check input =
      if (is_some input.place || is_some input.share) && not host.is_admin
      then settle (fail "FORBIDDEN" "Only an admin can create a Place or a share")
      else if is_some input.share && not (is_some input.place)
      then settle (fail "BAD_REQUEST" "A share needs a Place: create the Place too")
      else return tt

  unfoldable pub preview : String → Input → Effect Preview
  preview op input = do
    answer ← attempt (ask (preview_call op input) (λ h. host.preview h op input))
    settle (from_worker answer)

  unfoldable pub smb_part : VolumeInput → Effect (Option (Preview × Input))
  smb_part input =
      if not (is_some input.share)
      then return none
      else ask smbd_call host.smbd_installed >>= λ installed.
          if not installed
          then settle (fail "PRECONDITION_FAILED" samba_missing)
          else ask share_defs_call host.share_defs >>= λ defs.
              preview "smb.sync" (shares defs) >>= λ p. return (some (p, shares defs))

  unfoldable pub parts : VolumeInput → Effect Parts
  parts input = do
    volume ← preview "volume.create" (new_volume input.volume)
    smb ← smb_part input
    return (record {
      volume = volume;
      smb = smb;
      fingerprint =
          host.digest (
            some volume.fingerprint
            ∷ smb_fingerprint smb
            ∷ input.place
            ∷ share_or_null input.share);
    })

  unfoldable pub preview_volume : VolumeInput → Effect Preview
  preview_volume input = do
    check input
    p ← parts input
    return (record {
      steps = p.volume.steps ++ (place_steps input ++ smb_steps p.smb);
      fingerprint = p.fingerprint;
    })

  -- The share under the lock: its sync, then its row; with whether Samba has to be brought back.
  unfoldable pub share_body :
      String → Preview → Input → Progress → Effect (Bool × Result Thrown PlanApplyResult)
  share_body place_id s input run = do
    answer ← attempt (
        ask (apply_call "smb.sync" input s.fingerprint)
          (λ h. host.apply h "smb.sync" input s.fingerprint))
    elim answer [
      | err e ↦ return (false, ok (sharing_failed run e.message))
      | ok res ↦
          let synced = record run {
            results = run.results ++ res.results;
            warnings = run.warnings ++ res.warnings;
          } in
          if not res.ok
          then return (true, ok (sharing_failed synced (with_default res.error "a step failed")))
          else do
            created ← attempt (ask (create_share_call place_id) (λ h. host.create_share h place_id))
            elim created [
              | err e ↦ return (true, ok (sharing_failed synced e.message))
              | ok _ ↦ return (false, ok (all_done synced))
            ]
    ]

  unfoldable pub share_part : String → Option (Preview × Input) → Progress → Effect PlanApplyResult
  share_part place_id none run = return (all_done run)
  share_part place_id (some (s, input)) run = do
    out ← serialize (share_body place_id s input run)
    when out.0 resync_call
    settle out.1

  -- The Place on the new folder, and what follows it.
  unfoldable pub place_part :
      Option String → Option (Preview × Input) → Progress → Effect PlanApplyResult
  place_part none smb run = return (all_done run)
  place_part (some name) smb run = do
    created ← attempt (ask create_place_call host.create_place)
    elim created [
      | err e ↦ return (record {
        ok = false;
        error = some (no_place e);
        steps = run.steps;
        results = run.results ++ failed_step (no_place e) ∷ not_run (length (smb_steps smb));
        warnings = run.warnings;
        reply = run.reply;
      })
      | ok place_id ↦ share_part place_id smb (record run {
        results = run.results ++ done_step ∷ [];
        reply = run.reply ++ ("placeId", place_id) ∷ [];
      })
    ]

  -- What runs once the previews are as they were reviewed.
  unfoldable pub apply_parts : VolumeInput → Parts → Effect PlanApplyResult
  apply_parts input p = do
    answer ← attempt (
        ask (apply_call "volume.create" (new_volume input.volume) p.volume.fingerprint)
          (λ h. host.apply h "volume.create" (new_volume input.volume) p.volume.fingerprint))
    let later = place_steps input ++ smb_steps p.smb
    elim answer [
      | err e ↦ settle (err (if not (no_answer e) then worker_error e else no_answer_yet e))
      | ok vol ↦
          if not vol.ok
          then return (record vol {
            steps = vol.steps ++ later;
            results = vol.results ++ not_run (length later);
          })
          else place_part input.place p.smb (record {
            steps = vol.steps ++ later;
            results = vol.results;
            warnings = vol.warnings;
            reply = vol.reply;
          })
    ]

  unfoldable pub apply_volume : VolumeInput → String → Effect PlanApplyResult
  apply_volume input fingerprint = do
    check input
    p ← parts input
    if not (str_eq p.fingerprint fingerprint)
        then settle (fail "CONFLICT" stale)
        else apply_parts input p
