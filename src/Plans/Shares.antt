-- ===== src/Plans/Shares.antt =====
-- apps/backend/src/services/sharing-plan.ts: a change of a share, previewed and applied.
use Prim.Native.String.{String}
use home_server_interface.Base.{
  Bool, true, false, not, List, [], ◌∷◌, ◌++◌, Option, none, some, str_eq, if◌then◌else◌, Result,
  ok, err, concat, filter, map,
}
use home_server_interface.Plans.{
  PlanStep, PlanApplyResult, Preview, Thrown, Host, Effect, return, ◌>>=◌, ◌>>◌, ask, attempt,
  settle, serialize, when, fail, stale, samba_missing, worker_error, from_worker, done_step, shares,
  smbd_call, share_defs_call, preview_call, apply_call, commit_call, resync_call,
}

pub data ShareOp : Type 0 where
  create update remove : ShareOp

pub record ShareRow : Type 0 where
  pub id : String
  pub place_id : String
  pub place_name : String
  pub place_path : String
  pub smb_name : Option String
  pub read_only : Bool
  pub guest_ok : Bool
  pub enabled : Bool

-- The fields that an update sets.
pub record SharePatch : Type 0 where
  pub enabled : Option Bool
  pub read_only : Option Bool
  pub guest_ok : Option Bool
  pub smb_name : Option (Option String)

pub data ShareChange : Type 0 where
  create_row : ShareRow → ShareChange
  update_row : String → SharePatch → ShareChange
  remove_row : String → ShareChange

abbrev pub patched {ℓ} : {A : Type ℓ} → Option A → A → A
patched none old = old
patched (some new) old = new

abbrev pub patch_row : SharePatch → ShareRow → ShareRow
patch_row p row = record row {
  enabled = patched p.enabled row.enabled;
  read_only = patched p.read_only row.read_only;
  guest_ok = patched p.guest_ok row.guest_ok;
  smb_name = patched p.smb_name row.smb_name;
}

unfoldable pub overlay_shares : List ShareRow → Option ShareChange → List ShareRow
overlay_shares rows none = rows
overlay_shares rows (some (create_row row)) = rows ++ row ∷ []
overlay_shares rows (some (update_row id patch)) =
    map (λ row. if str_eq row.id id then patch_row patch row else row) rows
overlay_shares rows (some (remove_row id)) = filter (λ row. not (str_eq row.id id)) rows

abbrev pub no_samba_fingerprint : String
no_samba_fingerprint = "no-samba"

abbrev pub is_remove : ShareOp → Bool
is_remove remove = true
is_remove create = false
is_remove update = false

unfoldable pub no_samba_removal : String → PlanStep
no_samba_removal name = record {
  kind = "delete";
  target = name;
  summary =
      concat "Samba is not installed; only HSI's record of the share " (concat name " is removed");
  destructive = false;
}

abbrev removed_record : String → PlanApplyResult
removed_record name = record {
  ok = true;
  error = none;
  steps = no_samba_removal name ∷ [];
  results = done_step ∷ [];
  warnings = [];
  reply = [];
}

module _ (host : Host) where
  -- The body of the `try`: its errors are the worker's.
  abbrev pub sync_preview : Effect Preview
  sync_preview = do
    defs ← ask share_defs_call host.share_defs
    ask (preview_call "smb.sync" (shares defs)) (λ h. host.preview h "smb.sync" (shares defs))

  abbrev pub sync_apply : String → Effect PlanApplyResult
  sync_apply fingerprint = do
    defs ← ask share_defs_call host.share_defs
    ask (apply_call "smb.sync" (shares defs) fingerprint)
        (λ h. host.apply h "smb.sync" (shares defs) fingerprint)

  unfoldable pub preview_share_change : ShareOp → String → Effect Preview
  preview_share_change op name = do
    installed ← ask smbd_call host.smbd_installed
    if installed
        then (attempt sync_preview >>= λ answer. settle (from_worker answer))
        else if not (is_remove op)
        then settle (fail "PRECONDITION_FAILED" samba_missing)
        else return
            (record { steps = no_samba_removal name ∷ []; fingerprint = no_samba_fingerprint })

  -- With Samba gone only the row is removed.
  unfoldable pub apply_without_samba : ShareOp → String → Effect PlanApplyResult
  apply_without_samba op name = if not (is_remove op) then settle (fail "CONFLICT" stale) else do
    installed ← ask smbd_call host.smbd_installed
    if installed
        then settle (fail "CONFLICT" stale)
        else ask commit_call host.commit >> return (removed_record name)

  -- What runs under the lock: whether it failed after the worker answered, and its outcome.
  unfoldable pub share_body : String → Effect (Bool × Result Thrown PlanApplyResult)
  share_body fingerprint = do
    answer ← attempt (sync_apply fingerprint)
    elim answer [
      | err e ↦ return (false, err (worker_error e))
      | ok res ↦ if not res.ok then return (true, ok res) else do
        committed ← attempt (ask commit_call host.commit)
        elim committed [ err e ↦ return (true, err e) | ok _ ↦ return (false, ok res) ]
    ]

  unfoldable pub apply_share_change : ShareOp → String → String → Effect PlanApplyResult
  apply_share_change op name fingerprint =
      if str_eq fingerprint no_samba_fingerprint
      then apply_without_samba op name
      else do out ← serialize (share_body fingerprint); when out.0 resync_call; settle out.1
