-- ===== src/Plans/Commits.antt =====
-- What the plans that write a row of the database report of it.
use home_server_interface.Base.{
  arith, Bool, true, false, ◌||◌, List, [], ◌∷◌, str_eq, Result, ok, err, ◌≡◌, refl, Result-cases,
  Bool-cases, String, inl, inr,
}
use home_server_interface.Plans.{
  preview_call, apply_call, smbd_call, share_defs_call, current_defs_call, commit_call,
  create_place_call, create_share_call, delete_place_call, release_hold_call, resync_call,
  sync_access_call, lock_call, unlock_call, shares, Call, Host, PlanApplyResult, Thrown, Effect,
  ◌>>=◌, ◌>>◌, serialize, settle, when, new_user,
}
use home_server_interface.Plans.Samba.{or_false}
use home_server_interface.Plans.Reads.{is_read, delete_previews-Keeps}
use home_server_interface.Plans.Shares.{
  ShareOp, is_remove, no_samba_fingerprint, share_body, apply_without_samba, apply_share_change,
}
use home_server_interface.Plans.Users.{
  Part, Ran, deletion, creation, user_apply, commit_delete, delete_parts, delete_body,
  delete_previews, apply_user_delete, apply_user_create, ran_also, parts_of, nothing_ran,
}

-- Whether the answer of a plan says that all of it was done.
abbrev pub succeeded : Result Thrown PlanApplyResult → Bool
succeeded (ok res) = res.ok
succeeded (err e) = false

abbrev is_done : {A : Type 0} → Result Thrown A → Bool
is_done (ok a) = true
is_done (err e) = false

module _ (host : Host) where
  -- Whether a commit of the calls so far succeeded.
  abbrev pub committed : List Call → Bool
  committed [] = false
  committed (commit_call ∷ h) = is_done (host.commit h) || committed h
  committed (preview_call op input ∷ h) = committed h
  committed (smbd_call ∷ h) = committed h
  committed (share_defs_call ∷ h) = committed h
  committed (current_defs_call ∷ h) = committed h
  committed (apply_call op input fp ∷ h) = committed h
  committed (create_place_call ∷ h) = committed h
  committed (create_share_call id ∷ h) = committed h
  committed (delete_place_call id ∷ h) = committed h
  committed (release_hold_call at ∷ h) = committed h
  committed (resync_call ∷ h) = committed h
  committed (sync_access_call ∷ h) = committed h
  committed (lock_call ∷ h) = committed h
  committed (unlock_call ∷ h) = committed h

  committed-read : (c : Call) (h : List Call) → is_read c ≡ true → committed (c ∷ h) ≡ committed h
  committed-read commit_call h read = cc
  committed-read (preview_call op input) h read = refl
  committed-read smbd_call h read = refl
  committed-read share_defs_call h read = refl
  committed-read current_defs_call h read = refl
  committed-read (apply_call op input fp) h read = refl
  committed-read create_place_call h read = refl
  committed-read (create_share_call id) h read = refl
  committed-read (delete_place_call id) h read = refl
  committed-read (release_hold_call at) h read = refl
  committed-read resync_call h read = refl
  committed-read sync_access_call h read = refl
  committed-read lock_call h read = refl
  committed-read unlock_call h read = refl

  abbrev Reports : Effect PlanApplyResult → Type 0
  Reports m = (h : List Call) → committed (m h).1 ≡ (succeeded (m h).0 || committed h)

  abbrev outcome : {X : Type 0} → Result Thrown (X × Result Thrown PlanApplyResult) → Bool
  outcome (ok (x, out)) = succeeded out
  outcome (err e) = false

  abbrev BodyReports : {X : Type 0} → Effect (X × Result Thrown PlanApplyResult) → Type 0
  BodyReports m = (h : List Call) → committed (m h).1 ≡ (outcome (m h).0 || committed h)

  commit_delete-BodyReports :
      (name : String) (flag : Bool) (ran : Ran) → BodyReports (commit_delete host name flag ran)
  unfolding commit_delete deletion
  commit_delete-BodyReports name flag ran h = elim (Result-cases (host.commit h)) [
    | inl (e, thrown) ↦ ground (arith, thrown)
    | inr (u, done) ↦ ground (arith, done)
  ]

  delete_parts-BodyReports :
      (name : String) (parts : List Part) (flag : Bool) (ran : Ran)
      → BodyReports (delete_parts host name parts flag ran)
  unfolding delete_parts user_apply ran_also deletion
  delete_parts-BodyReports name [] flag ran h = commit_delete-BodyReports name flag ran h
  delete_parts-BodyReports name ((op, input, fp) ∷ parts) flag ran h =
      elim (Result-cases (host.apply h op input fp)) [
        | inl (e, thrown) ↦ rw (thrown) refl
        | inr (res, answered) ↦ elim (Bool-cases res.ok) [
          | inl worked ↦
              rw (answered, worked)
                (delete_parts-BodyReports name parts (flag || str_eq op "smb.sync")
                  (ran_also ran res) (apply_call op input fp ∷ h))
          | inr failed ↦ rw (answered, failed) refl
        ]
      ]

  delete_body-BodyReports : (name fp : String) → BodyReports (delete_body host name fp)
  unfolding delete_body
  delete_body-BodyReports name fp h =
      let kept = delete_previews-Keeps host committed committed-read name h in
      elim (Result-cases (delete_previews host name h).0) [
        | inl (e, thrown) ↦ ground (arith, thrown, kept)
        | inr (p, got) ↦ elim (Bool-cases (str_eq p.fingerprint fp)) [
          | inl same ↦ ground (
            arith,
            got,
            same,
            kept,
            delete_parts-BodyReports name (parts_of host name p) false nothing_ran
                (delete_previews host name h).1,
          )
          | inr other ↦ ground (arith, got, other, kept)
        ]
      ]

  share_body-BodyReports : (fp : String) → BodyReports (share_body host fp)
  unfolding share_body
  share_body-BodyReports fp h = elim (Result-cases (host.share_defs h)) [
    | inl (e, thrown) ↦ rw (thrown) refl
    | inr (defs, got) ↦
        elim (Result-cases (host.apply (share_defs_call ∷ h) "smb.sync" (shares defs) fp)) [
          | inl (e, thrown) ↦ ground (arith, got, thrown)
          | inr (res, answered) ↦ elim (Bool-cases res.ok) [
            | inl worked ↦
                elim (Result-cases
                  (host.commit (apply_call "smb.sync" (shares defs) fp ∷ share_defs_call ∷ h))) [
                    | inl (e, thrown) ↦ ground (arith, got, answered, worked, thrown)
                    | inr (u, done) ↦ ground (arith, got, answered, worked, done)
                  ]
            | inr failed ↦ ground (arith, got, answered, failed)
          ]
        ]
  ]

  locked-Reports :
      (body : Effect (Bool × Result Thrown PlanApplyResult))
      → BodyReports body
      → Reports (serialize body >>= λ out. when out.0 resync_call >> settle out.1)
  locked-Reports body reports h =
      let told = reports (lock_call ∷ h) in
      elim (Result-cases (body (lock_call ∷ h)).0) [
        | inl (e, thrown) ↦ ground (arith, thrown, told)
        | inr ((flag, out), got) ↦ elim (Bool-cases flag) [
          | inl asked ↦ ground (arith, got, asked, told)
          | inr unasked ↦ ground (arith, got, unasked, told)
        ]
      ]

  share-Reports : (op : ShareOp) (name fp : String) → Reports (apply_share_change host op name fp)
  unfolding apply_share_change apply_without_samba
  share-Reports op name fp h = elim (Bool-cases (str_eq fp no_samba_fingerprint)) [
    | inl without ↦ elim (Bool-cases (is_remove op)) [
      | inl removal ↦ elim (Result-cases (host.smbd_installed h)) [
        | inl (e, thrown) ↦ ground (arith, without, removal, thrown)
        | inr (installed, got) ↦ elim (Bool-cases installed) [
          | inl there ↦ ground (arith, without, removal, got, there)
          | inr missing ↦ elim (Result-cases (host.commit (smbd_call ∷ h))) [
            | inl (e, thrown) ↦ ground (arith, without, removal, got, missing, thrown)
            | inr (u, done) ↦ ground (arith, without, removal, got, missing, done)
          ]
        ]
      ]
      | inr other ↦ rw (without, other) refl
    ]
    | inr with_samba ↦
        rw (with_samba) (locked-Reports (share_body host fp) (share_body-BodyReports fp) h)
  ]

  deletion-Reports : (name fp : String) → Reports (apply_user_delete host name fp)
  unfolding apply_user_delete
  deletion-Reports name fp =
      locked-Reports (delete_body host name fp) (delete_body-BodyReports name fp)

  creation-Reports :
      (name password : String) (samba : Bool) (fp : String)
      → Reports (apply_user_create host name password samba fp)
  unfolding apply_user_create user_apply creation
  creation-Reports name password samba fp h =
      elim (Result-cases (host.apply h "user.create" (new_user name password samba) fp)) [
        | inl (e, thrown) ↦ rw (thrown) refl
        | inr (res, answered) ↦ elim (Bool-cases res.ok) [
          | inl worked ↦
              elim (Result-cases
                (host.commit (apply_call "user.create" (new_user name password samba) fp ∷ h))) [
                  | inl (e, thrown) ↦ ground (arith, answered, worked, thrown)
                  | inr (u, done) ↦ ground (arith, answered, worked, done)
                ]
          | inr failed ↦ rw (answered, failed) refl
        ]
      ]

-- A plan whose last part writes a row of the database.
pub data RowPlan : Type 0 where
  change_share : ShareOp → String → RowPlan
  create_user : String → String → Bool → RowPlan
  delete_user : String → RowPlan

abbrev pub apply_row_plan : Host → RowPlan → String → Effect PlanApplyResult
apply_row_plan host (change_share op name) fp = apply_share_change host op name fp
apply_row_plan host (create_user name password samba) fp =
    apply_user_create host name password samba fp
apply_row_plan host (delete_user name) fp = apply_user_delete host name fp

-- Whatever the host answers or throws, a change of a share and the creation or deletion of a user return an answer
-- whose `ok` is true if and only if their commit to the database was called and succeeded: an answer with `ok` false and a thrown error
-- both mean that no row was written, and no row is written without the answer saying so.
pub apply_row_plan-committed :
    (host : Host) (plan : RowPlan) (fp : String)
    → succeeded (apply_row_plan host plan fp []).0
      ≡ committed host (apply_row_plan host plan fp []).1
apply_row_plan-committed host (change_share op name) fp = ground (
  arith,
  share-Reports host op name fp [],
  or_false (succeeded (apply_share_change host op name fp []).0),
)
apply_row_plan-committed host (create_user name password samba) fp = ground (
  arith,
  creation-Reports host name password samba fp [],
  or_false (succeeded (apply_user_create host name password samba fp []).0),
)
apply_row_plan-committed host (delete_user name) fp = ground (
  arith,
  deletion-Reports host name fp [],
  or_false (succeeded (apply_user_delete host name fp []).0),
)
