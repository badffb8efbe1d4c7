-- ===== src/Plans/RemoveVolume.antt =====
-- apps/backend/src/services/volume-remove-plan.ts: taking a volume away with its shares and Places.
use Prim.Native.String.{String}
use home_server_interface.Base.{
  Bool, true, false, not, ◌-◌, ltb, List, [], ◌∷◌, ◌++◌, map, length, Option, none, some, str_eq,
  starts_with, if◌then◌else◌, Result, ok, err, concat,
}
use home_server_interface.Plans.{
  PlanStep, StepResult, PlanApplyResult, Preview, Thrown, Input, Host, Effect, return, ◌>>=◌, ◌>>◌,
  ask, tell, attempt, settle, serialize, when, fail, stale, no_answer, worker_error, from_worker,
  done_step, failed_step, not_run, with_default, shares, old_volume, smbd_call, share_defs_call,
  preview_call, apply_call, delete_place_call, release_hold_call, resync_call, sync_access_call,
}

pub record PlaceRef : Type 0 where
  pub id : String
  pub name : String

pub record RemoveTarget : Type 0 where
  pub uuid : String
  pub mount_point : String
  pub name : String
  pub places : List PlaceRef
  pub apps : List String
  pub shared : Bool
  pub share_names : List String

-- A volume of the Volumes page, with what uses it.
pub record VolumeView : Type 0 where
  pub id : String
  pub name : String
  pub state : String
  pub mount_point : Option String
  pub expected_mount_point : Option String
  pub places : List PlaceRef
  pub shares : List String
  pub apps : List String

abbrev pub mounted_at : VolumeView → String
mounted_at v = with_default v.mount_point (with_default v.expected_mount_point "")

unfoldable pub remove_target_of : VolumeView → Result Thrown RemoveTarget
remove_target_of v =
    if str_eq v.state "missing"
    then fail "PRECONDITION_FAILED" "This volume is missing: its disks are not connected"
    else if starts_with v.id "dev:"
    then fail "PRECONDITION_FAILED"
        "This volume has no filesystem UUID; remove it from Disks instead"
    else ok (record {
      uuid = v.id;
      mount_point = mounted_at v;
      name = v.name;
      places = v.places;
      apps = v.apps;
      shared = ltb 0 (length v.shares);
      share_names = v.shares;
    })

abbrev pub comma_joined : List String → String
comma_joined [] = ""
comma_joined (app ∷ []) = app
comma_joined (app ∷ more ∷ apps) = concat app (concat ", " (comma_joined (more ∷ apps)))

abbrev stores_data : List String → String
stores_data [] = ""
stores_data (app ∷ []) = concat app " stores data on this volume: remove it or move the data first"
stores_data (app ∷ more ∷ apps) =
    concat (comma_joined (app ∷ more ∷ apps))
      " store data on this volume: remove them or move the data first"

-- `closeShares` is there only if the shares are dropped and have names; here no name stands for its absence.
abbrev pub volume_input : RemoveTarget → Bool → Input
volume_input t shares_dropped = old_volume t.uuid (if shares_dropped then t.share_names else [])

abbrev pub place_step : PlaceRef → PlanStep
place_step p = record {
  kind = "remove";
  target = p.name;
  summary = concat "Delete the Place \"" (concat p.name "\"");
  destructive = false;
}

abbrev pub place_id : PlaceRef → Option String
place_id p = some p.id

-- The previews that a removal is made of, with the input of the sync.
pub record Parts : Type 0 where
  pub smb : Option (Preview × Input)
  pub volume : Preview
  pub fingerprint : String

abbrev pub smb_steps : Option (Preview × Input) → List PlanStep
smb_steps none = []
smb_steps (some (p, input)) = p.steps

abbrev pub smb_fingerprint : Option (Preview × Input) → Option String
smb_fingerprint none = none
smb_fingerprint (some (p, input)) = some p.fingerprint

abbrev pub is_there : Option (Preview × Input) → Bool
is_there none = false
is_there (some p) = true

abbrev pub all_steps : RemoveTarget → Parts → List PlanStep
all_steps t p = smb_steps p.smb ++ (p.volume.steps ++ map place_step t.places)

-- What has run, and the flags of `applyVolumeRemove`.
pub record Progress : Type 0 where
  pub results : List StepResult
  pub warnings : List String
  pub resync : Bool
  pub places_gone : Bool

abbrev pub not_begun : Progress
not_begun = record { results = []; warnings = []; resync = false; places_gone = false }

-- What a run leaves: the flags, and what it returned or threw.
abbrev pub Outcome : Type 0
Outcome = (Bool × Bool) × Result Thrown PlanApplyResult

abbrev pub flags : Progress → Bool × Bool
flags run = (run.resync, run.places_gone)

unfoldable pub stop : List PlanStep → Progress → String → PlanApplyResult
stop steps run error = record {
  ok = false;
  error = some error;
  steps = steps;
  results = run.results ++ not_run (length steps - length run.results);
  warnings = run.warnings;
  reply = [];
}

unfoldable pub no_answer_yet : Thrown → Thrown
no_answer_yet e = record {
  code = some "INTERNAL_SERVER_ERROR";
  message = concat "No answer from the host (" (
      concat e.message
        "). The removal may still be running: check the Storage page before trying again.");
}

abbrev pub not_deleted : PlaceRef → Thrown → String
not_deleted p e =
    concat "The disks are free, but the Place \""
      (concat p.name (concat "\" could not be deleted: " e.message))

abbrev pub add_results : PlanApplyResult → Bool → Progress → Progress
add_results res resync run = record run {
  results = run.results ++ res.results;
  warnings = run.warnings ++ res.warnings;
  resync = resync;
}

module _ (host : Host) where
  unfoldable pub check : RemoveTarget → Effect (Unit {0})
  check t =
      if not host.is_admin
      then settle (fail "FORBIDDEN" "Only an admin can remove a volume")
      else if ltb 0 (length t.apps)
      then settle (fail "PRECONDITION_FAILED" (stores_data t.apps))
      else return tt

  unfoldable pub preview : String → Input → Effect Preview
  preview op input = do
    answer ← attempt (ask (preview_call op input) (λ h. host.preview h op input))
    settle (from_worker answer)

  unfoldable pub smb_part : RemoveTarget → Effect (Option (Preview × Input))
  smb_part t =
      if not t.shared
      then return none
      else ask smbd_call host.smbd_installed >>= λ installed.
          if not installed
          then return none
          else ask share_defs_call host.share_defs >>= λ defs.
              preview "smb.sync" (shares defs) >>= λ p. return (some (p, shares defs))

  unfoldable pub parts : RemoveTarget → Effect Parts
  parts t = do
    smb ← smb_part t
    volume ← preview "volume.remove" (volume_input t (is_there smb))
    return (record {
      smb = smb;
      volume = volume;
      fingerprint =
          host.digest (smb_fingerprint smb ∷ some volume.fingerprint ∷ map place_id t.places);
    })

  unfoldable pub preview_volume_remove : RemoveTarget → Effect Preview
  preview_volume_remove t = do
    check t
    p ← parts t
    return (record { steps = all_steps t p; fingerprint = p.fingerprint })

  -- 3. The Places, now that their folder is gone.
  unfoldable pub delete_places :
      RemoveTarget
      → List PlanStep
      → List (String × String)
      → List PlaceRef
      → Progress
      → Effect Outcome
  delete_places t steps reply [] run = tell (release_hold_call t.mount_point) >>= λ _. return (
    flags run,
    ok (record {
      ok = true;
      error = none;
      steps = steps;
      results = run.results;
      warnings = run.warnings;
      reply = reply;
    }),
  )
  delete_places t steps reply (p ∷ places) run =
      attempt (ask (delete_place_call p.id) (λ h. host.delete_place h p.id)) >>= λ deleted.
      elim deleted [
        | err e ↦ return (
          flags run,
          ok (
              stop steps
                (record run { results = run.results ++ failed_step (not_deleted p e) ∷ [] })
                (not_deleted p e)),
        )
        | ok _ ↦
            delete_places t steps reply places
              (record run { results = run.results ++ done_step ∷ []; places_gone = true })
      ]

  -- 2. The worker's chain; until it succeeds the Places stay.
  unfoldable pub remove_chain : RemoveTarget → Parts → Progress → Effect Outcome
  remove_chain t p run = do
    answer ← attempt (
        ask (apply_call "volume.remove" (volume_input t (is_there p.smb)) p.volume.fingerprint)
          (λ h.
            host.apply h "volume.remove" (volume_input t (is_there p.smb)) p.volume.fingerprint))
    elim answer [
      | err e ↦
          return (flags run, err (if not (no_answer e) then worker_error e else no_answer_yet e))
      | ok vol ↦
          if not vol.ok
          then return (
            flags run,
            ok (
                stop (all_steps t p) (add_results vol run.resync run)
                  (with_default vol.error "A step failed; what ran is shown above")),
          )
          else delete_places t (all_steps t p) vol.reply t.places (add_results vol false run)
    ]

  -- 1. Samba lets go of the folder.
  unfoldable pub stop_sharing : RemoveTarget → Parts → Effect Outcome
  stop_sharing t p = elim p.smb [
    | none ↦ remove_chain t p not_begun
    | some (s, input) ↦
        attempt (
          ask (apply_call "smb.sync" input s.fingerprint)
            (λ h. host.apply h "smb.sync" input s.fingerprint))
        >>= λ answer. elim answer [
          | err e ↦ return (flags not_begun, err (worker_error e))
          | ok res ↦
              if not res.ok
              then return (
                flags (add_results res true not_begun),
                ok (
                    stop (all_steps t p) (add_results res true not_begun) (
                      concat "Sharing could not be stopped: "
                        (with_default res.error "a step failed"))),
              )
              else remove_chain t p (add_results res true not_begun)
        ]
  ]

  unfoldable pub run : RemoveTarget → String → Effect Outcome
  run t fingerprint = do
    current ← attempt (parts t)
    elim current [
      | err e ↦ return (flags not_begun, err e)
      | ok p ↦
          if not (str_eq p.fingerprint fingerprint)
          then return (flags not_begun, fail "CONFLICT" stale)
          else stop_sharing t p
    ]

  -- The resync runs after the lock is released: it takes the lock itself.
  unfoldable pub apply_volume_remove : RemoveTarget → String → Effect PlanApplyResult
  apply_volume_remove t fingerprint = do
    check t
    out ← serialize (run t fingerprint)
    when out.0.0 resync_call
    when out.0.1 sync_access_call
    settle out.1
