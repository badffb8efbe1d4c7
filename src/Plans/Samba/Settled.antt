-- ===== src/Plans/Samba/Settled.antt =====
-- Every plan leaves Samba as the database records it.
use home_server_interface.Base.{
  arith, Bool, true, false, ◌||◌, ◌&&◌, not, List, ◌∷◌, str_eq, if◌then◌else◌, Result, ◌≡◌, refl,
  ◌∙◌, Result-cases, is_some, length, ltb, Bool-cases, Option, none, some, String, inl, inr,
}
use home_server_interface.Plans.{
  ask, smbd_call, commit_call, create_place_call, resync_call, sync_access_call, lock_call,
  new_volume, Input, Call, Host, PlanApplyResult, Preview, Thrown, Effect, ◌>>=◌, serialize, settle,
  when, ◌>>◌,
}
use home_server_interface.Plans.Samba.{settled, held, track, Fits, track-read, fits-settles}
use home_server_interface.Plans.Shares.{
  ShareOp, share_body, apply_share_change, no_samba_fingerprint, apply_without_samba, is_remove,
}
use home_server_interface.Plans.Users.{
  delete_body, apply_user_delete, user_apply, apply_user_create,
}
use home_server_interface.Plans.Reads.{new_parts-Keeps}
use home_server_interface.Plans.RemoveVolume
use home_server_interface.Plans.CreateVolume
use home_server_interface.Plans.RemoveVolume.{run, RemoveTarget, apply_volume_remove}
use home_server_interface.Plans.CreateVolume.{
  VolumeInput, share_part, place_part, apply_parts, Progress, apply_volume, Parts,
}
use home_server_interface.Plans.Samba.Bodies.{share_body-Fits, share_new-Fits}
use home_server_interface.Plans.Samba.Deletion.{delete_body-Fits}
use home_server_interface.Plans.Samba.Removal.{run-Fits}

module _ (host : Host) where
  -- A computation that, from a settled state, ends in one.
  abbrev Settles : {A : Type 0} → Effect A → Type 0
  Settles m = (h : List Call) → track host h ≡ settled → track host (m h).1 ≡ settled

  bind-Settles :
      {A B : Type 0} (m : Effect A) (f : A → Effect B)
      → Settles m
      → ((a : A) → Settles (f a))
      → Settles (m >>= f)
  bind-Settles m f m_settles f_settles h start = elim (Result-cases (m h).0) [
    | inl (e, thrown) ↦ rw (thrown) (m_settles h start)
    | inr (a, got) ↦ rw (got) (f_settles a (m h).1 (m_settles h start))
  ]

  if-Settles :
      {A : Type 0} (b : Bool) (m n : Effect A)
      → Settles m
      → Settles n
      → Settles (if b then m else n)
  if-Settles true m n m_settles n_settles = m_settles
  if-Settles false m n m_settles n_settles = n_settles

  -- A body under the lock, then the resync that it asks for.
  locked-Settles :
      {A : Type 0} (body : Effect (Bool × Result Thrown A))
      → ((h : List Call) → track host h ≡ held → Fits host (body h))
      → Settles (serialize body >>= λ out. when out.0 resync_call >> settle out.1)
  locked-Settles body body_fits h start =
      let fit = body_fits (lock_call ∷ h) (rw start refl) in
      elim (Result-cases (body (lock_call ∷ h)).0) [
        | inl (e, thrown) ↦ ground (arith, thrown, fit)
        | inr ((flag, out), got) ↦ elim (Bool-cases flag) [
          | inl asked ↦
              rw (got, asked)
                (fits-settles true (track host (body (lock_call ∷ h)).1) (rw (got, asked) at fit))
          | inr unasked ↦
              rw (got, unasked)
                (fits-settles false (track host (body (lock_call ∷ h)).1)
                  (rw (got, unasked) at fit))
        ]
      ]

  when-Settles :
      (flag : Bool) (c : Call)
      → ((h : List Call) → track host h ≡ settled → track host (c ∷ h) ≡ settled)
      → Settles (when flag c)
  when-Settles true c kept = kept
  when-Settles false c kept = λ h start. start

  pub share-Settles :
      (op : ShareOp) (name fp : String) → Settles (apply_share_change host op name fp)
  unfolding apply_share_change apply_without_samba
  share-Settles op name fp =
      if-Settles (str_eq fp no_samba_fingerprint) _ _
        (if-Settles (not (is_remove op)) _ _ (λ h start. start)
          (bind-Settles (ask smbd_call host.smbd_installed) _ (λ h start. start)
            (λ installed.
              if-Settles installed _ _ (λ h start. start)
                (bind-Settles (ask commit_call host.commit) _ (λ h start. rw (start) refl)
                  (λ u. λ h start. start)))))
        (locked-Settles (share_body host fp) (share_body-Fits host fp))

  pub deletion-Settles : (name fp : String) → Settles (apply_user_delete host name fp)
  unfolding apply_user_delete
  deletion-Settles name fp =
      locked-Settles (delete_body host name fp) (delete_body-Fits host name fp)

  pub user-Settles :
      (name password : String) (samba : Bool) (fp : String)
      → Settles (apply_user_create host name password samba fp)
  unfolding apply_user_create user_apply
  user-Settles name password samba fp =
      bind-Settles (user_apply host "user.create" _ fp) _ (λ h start. start)
        (λ res.
          if-Settles (not res.ok) _ _ (λ h start. start)
            (λ h start. elim (Result-cases (host.commit h)) [
              | inl (e, thrown) ↦ ground (arith, thrown, start)
              | inr (u, done) ↦ ground (arith, done, start)
            ]))

  resynced-Settles :
      (t : RemoveTarget) (fp : String)
      → Settles (serialize (run host t fp) >>= λ out. when out.0.0 resync_call)
  resynced-Settles t fp h start =
      let fit = run-Fits host t fp (lock_call ∷ h) (rw start refl) in
      elim (Result-cases (run host t fp (lock_call ∷ h)).0) [
        | inl (e, thrown) ↦ ground (arith, thrown, fit)
        | inr (((flag, gone), out), got) ↦ elim (Bool-cases flag) [
          | inl asked ↦
              rw (got, asked)
                (fits-settles true (track host (run host t fp (lock_call ∷ h)).1)
                  (rw (got, asked) at fit))
          | inr unasked ↦
              rw (got, unasked)
                (fits-settles false (track host (run host t fp (lock_call ∷ h)).1)
                  (rw (got, unasked) at fit))
        ]
      ]

  roster-Settles :
      (flag gone : Bool) (out : Result Thrown PlanApplyResult) (h : List Call)
      → track host (when flag resync_call h).1 ≡ settled
      → track host ((when flag resync_call >> (when gone sync_access_call >> settle out)) h).1
        ≡ settled
  roster-Settles true true out h back = rw (back) refl
  roster-Settles true false out h back = back
  roster-Settles false true out h back = rw (back) refl
  roster-Settles false false out h back = back

  removal_check-Settles : (t : RemoveTarget) → Settles (RemoveVolume.check host t)
  unfolding RemoveVolume.check
  removal_check-Settles t =
      if-Settles (not host.is_admin) _ _ (λ h start. start)
        (if-Settles (ltb 0 (length t.apps)) _ _ (λ h start. start) (λ h start. start))

  pub removal-Settles : (t : RemoveTarget) (fp : String) → Settles (apply_volume_remove host t fp)
  unfolding apply_volume_remove
  removal-Settles t fp =
      bind-Settles (RemoveVolume.check host t) _ (removal_check-Settles t) (λ u h start.
        elim (Result-cases (serialize (run host t fp) h).0) [
          | inl (e, thrown) ↦ rw (thrown) (rw (thrown) at (resynced-Settles t fp h start))
          | inr (((flag, gone), out), got) ↦
              rw (got)
                (roster-Settles flag gone out _ (rw (got) at (resynced-Settles t fp h start)))
        ])

  creation_check-Settles : (input : VolumeInput) → Settles (CreateVolume.check host input)
  unfolding CreateVolume.check
  creation_check-Settles input =
      if-Settles ((is_some input.place || is_some input.share) && not host.is_admin) _ _
        (λ h start. start)
        (if-Settles (is_some input.share && not (is_some input.place)) _ _ (λ h start. start)
          (λ h start. start))

  parts-Settles : (input : VolumeInput) → Settles (CreateVolume.parts host input)
  parts-Settles input h start = new_parts-Keeps host (track host) (track-read host) input h ∙ start

  share_part-Settles :
      (id : String) (smb : Option (Preview × Input)) (now : Progress)
      → Settles (share_part host id smb now)
  unfolding share_part
  share_part-Settles id none now = λ h start. start
  share_part-Settles id (some (s, input)) now =
      locked-Settles (CreateVolume.share_body host id s input now)
        (share_new-Fits host id s input now)

  place_part-Settles :
      (place : Option String) (smb : Option (Preview × Input)) (now : Progress)
      → Settles (place_part host place smb now)
  unfolding place_part
  place_part-Settles none smb now h start = start
  place_part-Settles (some name) smb now h start = elim (Result-cases (host.create_place h)) [
    | inl (e, thrown) ↦ rw (thrown) start
    | inr (id, made) ↦ rw (made) (share_part-Settles id smb _ (create_place_call ∷ h) start)
  ]

  apply_parts-Settles : (input : VolumeInput) (p : Parts) → Settles (apply_parts host input p)
  unfolding apply_parts
  apply_parts-Settles input p h start =
      elim (Result-cases
        (host.apply h "volume.create" (new_volume input.volume) p.volume.fingerprint)) [
          | inl (e, thrown) ↦ rw (thrown) start
          | inr (vol, answered) ↦ rw (answered) (
              if-Settles (not vol.ok) _ _ (λ h start. start)
                (place_part-Settles input.place p.smb _) _ start)
        ]

  pub creation-Settles : (input : VolumeInput) (fp : String) → Settles (apply_volume host input fp)
  unfolding apply_volume
  creation-Settles input fp =
      bind-Settles (CreateVolume.check host input) _ (creation_check-Settles input) (λ u.
        bind-Settles (CreateVolume.parts host input) _ (parts-Settles input) (λ p.
          if-Settles (not (str_eq p.fingerprint fp)) _ _ (λ h start. start)
            (apply_parts-Settles input p)))
