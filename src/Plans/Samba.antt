-- ===== src/Plans/Samba.antt =====
-- What the calls of the plans do to Samba's shares: the history read as a state machine, and
-- what each plan leaves of it.
pub mod Bodies
pub mod Deletion
pub mod Removal
pub mod Settled
pub mod Sequence
use home_server_interface.Base.{
  Bool, true, false, ◌||◌, ◌&&◌, not, List, [], ◌∷◌, str_eq, if◌then◌else◌, Result, ok, err, ◌≡◌,
  refl, sym, ap, ◌∙◌, Result-cases, Bool-cases, inl, inr, String, arith,
}
use home_server_interface.Plans.{
  ask, preview_call, apply_call, smbd_call, share_defs_call, current_defs_call, commit_call,
  create_place_call, create_share_call, delete_place_call, release_hold_call, resync_call,
  sync_access_call, lock_call, unlock_call, shares, Input, Call, Host, PlanApplyResult, Thrown,
  Effect, ◌>>=◌, serialize, settle, when, preview_call, apply_call, create_share_call,
  delete_place_call, share_defs_call,
}
use home_server_interface.Plans.Reads.{is_read}
use home_server_interface.Plans.Shares.{ShareOp, apply_share_change, share_body, sync_apply}

-- Samba and the database agree, or a plan has the lock, or it has changed Samba under the lock,
-- or has let go of the lock since; any other order of the calls is wrong.
pub data Samba : Type 0 where
  settled held changed left_changed wrong : Samba

abbrev pub on_lock : Samba → Samba
on_lock settled = held
on_lock held = wrong
on_lock changed = wrong
on_lock left_changed = wrong
on_lock wrong = wrong

abbrev pub on_unlock : Samba → Samba
on_unlock settled = wrong
on_unlock held = settled
on_unlock changed = left_changed
on_unlock left_changed = wrong
on_unlock wrong = wrong

-- The roster of shares is brought back from the database, which needs the lock to be free.
abbrev pub on_resync : Samba → Samba
on_resync settled = settled
on_resync held = wrong
on_resync changed = wrong
on_resync left_changed = settled
on_resync wrong = wrong

abbrev pub on_sync_access : Samba → Samba
on_sync_access settled = settled
on_sync_access held = wrong
on_sync_access changed = wrong
on_sync_access left_changed = wrong
on_sync_access wrong = wrong

-- A sync that the worker answered; it is applied under the lock only.
abbrev pub on_sync : {A : Type 0} → Result Thrown A → Samba → Samba
on_sync answer settled = wrong
on_sync (ok a) held = changed
on_sync (err e) held = held
on_sync answer changed = changed
on_sync answer left_changed = wrong
on_sync answer wrong = wrong

-- The database, or the host, now stands where Samba was brought.
abbrev pub on_recorded : Bool → Samba → Samba
on_recorded true changed = held
on_recorded false changed = changed
on_recorded done settled = settled
on_recorded done held = held
on_recorded done left_changed = left_changed
on_recorded done wrong = wrong

abbrev pub is_ok : {A : Type 0} → Result Thrown A → Bool
is_ok (ok a) = true
is_ok (err e) = false

abbrev pub has_worked : Result Thrown PlanApplyResult → Bool
has_worked (ok res) = res.ok
has_worked (err e) = false

pub or_false : (b : Bool) → (b || false) ≡ b
or_false true = refl
or_false false = refl

-- Whether the flag of a body tells that Samba has to be brought back.
abbrev pub fits : Bool → Samba → Bool
fits true changed = true
fits false changed = false
fits flag held = true
fits flag settled = false
fits flag left_changed = false
fits flag wrong = false

pub fits-on_sync :
    {A : Type 0} (flag : Bool) (s : Samba) (r : Result Thrown A)
    → fits flag s ≡ true
    → fits (flag || is_ok r) (on_sync r s) ≡ true
fits-on_sync flag settled r fit = cc
fits-on_sync flag held (err e) fit = refl
fits-on_sync true held (ok a) fit = refl
fits-on_sync false held (ok a) fit = refl
fits-on_sync true changed r fit = refl
fits-on_sync false changed r fit = cc
fits-on_sync flag left_changed r fit = cc
fits-on_sync flag wrong r fit = cc

pub fits-on_recorded :
    (flag done : Bool) (s : Samba) → fits flag s ≡ true → fits flag (on_recorded done s) ≡ true
fits-on_recorded true true changed fit = refl
fits-on_recorded false true changed fit = refl
fits-on_recorded flag false changed fit = fit
fits-on_recorded flag done held fit = refl
fits-on_recorded flag done settled fit = fit
fits-on_recorded flag done left_changed fit = fit
fits-on_recorded flag done wrong fit = fit

-- What is recorded needs no resync.
pub fits-recorded :
    (flag : Bool) (s : Samba) → fits flag s ≡ true → fits false (on_recorded true s) ≡ true
fits-recorded flag changed fit = refl
fits-recorded flag held fit = refl
fits-recorded flag settled fit = fit
fits-recorded flag left_changed fit = fit
fits-recorded flag wrong fit = fit

-- The lock let go of, then the resync that the flag asks for: Samba and the database agree.
abbrev resynced : Bool → Samba → Samba
resynced true s = on_resync s
resynced false s = s

pub fits-settles :
    (flag : Bool) (s : Samba) → fits flag s ≡ true → resynced flag (on_unlock s) ≡ settled
fits-settles true held fit = refl
fits-settles false held fit = refl
fits-settles true changed fit = refl
fits-settles false changed fit = cc
fits-settles flag settled fit = cc
fits-settles flag left_changed fit = cc
fits-settles flag wrong fit = cc

module _ (host : Host) where
  abbrev pub after_call : Call → List Call → Samba → Samba
  after_call (preview_call op input) h s = s
  after_call (apply_call op input fp) h s =
      if str_eq op "smb.sync"
      then on_sync (host.apply h op input fp) s
      else if str_eq op "volume.remove"
      then on_recorded (has_worked (host.apply h op input fp)) s
      else s
  after_call smbd_call h s = s
  after_call share_defs_call h s = s
  after_call current_defs_call h s = s
  after_call commit_call h s = on_recorded (is_ok (host.commit h)) s
  after_call create_place_call h s = s
  after_call (create_share_call id) h s = on_recorded (is_ok (host.create_share h id)) s
  after_call (delete_place_call id) h s = s
  after_call (release_hold_call at) h s = s
  after_call resync_call h s = on_resync s
  after_call sync_access_call h s = on_sync_access s
  after_call lock_call h s = on_lock s
  after_call unlock_call h s = on_unlock s

  abbrev pub track : List Call → Samba
  track [] = settled
  track (c ∷ h) = after_call c h (track h)

  abbrev pub Fits : {A : Type 0} → Result Thrown (Bool × A) × List Call → Type 0
  Fits (ok (flag, out), h) = fits flag (track h) ≡ true
  Fits (err e, h) = false ≡ true

  pub track-read : (c : Call) (h : List Call) → is_read c ≡ true → track (c ∷ h) ≡ track h
  track-read (preview_call op input) h read = refl
  track-read smbd_call h read = refl
  track-read share_defs_call h read = refl
  track-read current_defs_call h read = refl
  track-read (apply_call op input fp) h read = cc
  track-read commit_call h read = cc
  track-read create_place_call h read = cc
  track-read (create_share_call id) h read = cc
  track-read (delete_place_call id) h read = cc
  track-read (release_hold_call at) h read = cc
  track-read resync_call h read = cc
  track-read sync_access_call h read = cc
  track-read lock_call h read = cc
  track-read unlock_call h read = cc

  -- An operation of the worker under the lock.
  pub fits-apply_call :
      (op : String) (input : Input) (fp : String) (flag : Bool) (h : List Call)
      → fits flag (track h) ≡ true
      → fits
          (flag || (str_eq op "smb.sync" && is_ok (host.apply h op input fp)))
          (track (apply_call op input fp ∷ h))
        ≡ true
  fits-apply_call op input fp flag h fit = elim (Bool-cases (str_eq op "smb.sync")) [
    | inl sync ↦ rw (sync) (fits-on_sync flag (track h) (host.apply h op input fp) fit)
    | inr other ↦ elim (Bool-cases (str_eq op "volume.remove")) [
      | inl removal ↦
          rw (other, removal, or_false)
            (fits-on_recorded flag (has_worked (host.apply h op input fp)) (track h) fit)
      | inr neither ↦ rw (other, neither, or_false) fit
    ]
  ]

  pub fits-thrown :
      (op : String) (input : Input) (fp : String) (flag : Bool) (h : List Call) {e : Thrown}
      → host.apply h op input fp ≡ err e
      → fits flag (track h) ≡ true
      → fits flag (track (apply_call op input fp ∷ h)) ≡ true
  fits-thrown op input fp flag h thrown fit = elim (Bool-cases (str_eq op "smb.sync")) [
    | inl sync ↦ ground (arith, fits-apply_call op input fp flag h fit, or_false flag, thrown, sync)
    | inr other ↦
        ground (arith, fits-apply_call op input fp flag h fit, or_false flag, thrown, other)
  ]

  pub fits-answered :
      (op : String) (input : Input) (fp : String) (flag : Bool) (h : List Call)
      {res : PlanApplyResult}
      → host.apply h op input fp ≡ ok res
      → fits flag (track h) ≡ true
      → fits (flag || str_eq op "smb.sync") (track (apply_call op input fp ∷ h)) ≡ true
  fits-answered op input fp flag h answered fit = elim (Bool-cases (str_eq op "smb.sync")) [
    | inl sync ↦ ground (arith, fits-apply_call op input fp flag h fit, answered, sync)
    | inr other ↦ ground (arith, fits-apply_call op input fp flag h fit, answered, other)
  ]
