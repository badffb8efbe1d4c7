-- ===== src/Plans/Reads.antt =====
-- The calls of the plans that only read, and the previews, which make no other call.
use home_server_interface.Base.{
  Bool, true, false, not, List, ◌∷◌, if◌then◌else◌, ◌≡◌, refl, ◌∙◌, Result-cases, Bool-cases,
  String, inl, inr, is_some,
}
use home_server_interface.Plans.{
  ask, preview_call, apply_call, smbd_call, share_defs_call, current_defs_call, commit_call,
  create_place_call, create_share_call, delete_place_call, release_hold_call, resync_call,
  sync_access_call, lock_call, unlock_call, shares, Input, Call, Host, Effect, ◌>>=◌, username,
}
use home_server_interface.Plans.Users.{user_preview, smb_preview, delete_previews, same_texts}
use home_server_interface.Plans.RemoveVolume.{RemoveTarget, preview, smb_part, parts}
use home_server_interface.Plans.CreateVolume
use home_server_interface.Plans.CreateVolume.{VolumeInput}

abbrev pub is_read : Call → Bool
is_read (preview_call op input) = true
is_read smbd_call = true
is_read share_defs_call = true
is_read current_defs_call = true
is_read (apply_call op input fp) = false
is_read commit_call = false
is_read create_place_call = false
is_read (create_share_call id) = false
is_read (delete_place_call id) = false
is_read (release_hold_call at) = false
is_read resync_call = false
is_read sync_access_call = false
is_read lock_call = false
is_read unlock_call = false

-- A view of the history that the reads leave as it is.
module _ (host : Host) {W : Type 0} (view : List Call → W)
    (same : (c : Call) (h : List Call) → is_read c ≡ true → view (c ∷ h) ≡ view h) where
  -- A computation that leaves the state as it is, whether it throws or not.
  abbrev pub Keeps : {A : Type 0} → Effect A → Type 0
  Keeps m = (h : List Call) → view (m h).1 ≡ view h

  pub bind-Keeps :
      {A B : Type 0} (m : Effect A) (f : A → Effect B)
      → Keeps m
      → ((a : A) → Keeps (f a))
      → Keeps (m >>= f)
  bind-Keeps m f m_keeps f_keeps h = elim (Result-cases (m h).0) [
    | inl (e, thrown) ↦ rw (thrown) (m_keeps h)
    | inr (a, got) ↦ rw (got) (f_keeps a (m h).1 ∙ m_keeps h)
  ]

  if-Keeps :
      {A : Type 0} (b : Bool) (m n : Effect A) → Keeps m → Keeps n → Keeps (if b then m else n)
  if-Keeps true m n m_keeps n_keeps = m_keeps
  if-Keeps false m n m_keeps n_keeps = n_keeps

  abbrev user_preview-Keeps : (op : String) (input : Input) → Keeps (user_preview host op input)
  unfolding user_preview
  user_preview-Keeps op input h = same (preview_call op input) h refl

  smb_preview-Keeps : (defs : List String) (named : Bool) → Keeps (smb_preview host defs named)
  unfolding smb_preview
  smb_preview-Keeps defs false = λ h. refl
  smb_preview-Keeps defs true =
      bind-Keeps (ask smbd_call host.smbd_installed) _ (λ h. same smbd_call h refl)
        (λ installed. elim (Bool-cases installed) [
          | inl there ↦ rw (there) (
              bind-Keeps (user_preview host "smb.sync" (shares defs)) _ (user_preview-Keeps _ _)
                (λ p. λ h. refl))
          | inr missing ↦ rw (missing) (λ h. refl)
        ])

  pub delete_previews-Keeps : (name : String) → Keeps (delete_previews host name)
  unfolding delete_previews
  delete_previews-Keeps name =
      bind-Keeps (ask share_defs_call host.share_defs) _ (λ h. same share_defs_call h refl)
        (λ defs.
          bind-Keeps (ask current_defs_call host.current_share_defs) _
            (λ h. same current_defs_call h refl)
            (λ current.
              bind-Keeps (smb_preview host defs (not (same_texts defs current))) _
                (smb_preview-Keeps _ _)
                (λ smb.
                  bind-Keeps (user_preview host "group.leave" (username name)) _
                    (user_preview-Keeps _ _) (λ group. λ h. refl))))

  abbrev preview-Keeps : (op : String) (input : Input) → Keeps (preview host op input)
  unfolding preview
  preview-Keeps op input h = same (preview_call op input) h refl

  smb_part-Keeps : (t : RemoveTarget) → Keeps (smb_part host t)
  unfolding smb_part
  smb_part-Keeps t = elim (Bool-cases t.shared) [
    | inl shared ↦ rw (shared) (
        bind-Keeps (ask smbd_call host.smbd_installed) _ (λ h. same smbd_call h refl)
          (λ installed. elim (Bool-cases installed) [
            | inl there ↦ rw (there) (
                bind-Keeps (ask share_defs_call host.share_defs) _
                  (λ h. same share_defs_call h refl)
                  (λ defs.
                    bind-Keeps (preview host "smb.sync" (shares defs)) _ (preview-Keeps _ _)
                      (λ p. λ h. refl)))
            | inr missing ↦ rw (missing) (λ h. refl)
          ]))
    | inr alone ↦ rw (alone) (λ h. refl)
  ]

  pub parts-Keeps : (t : RemoveTarget) → Keeps (parts host t)
  unfolding parts
  parts-Keeps t =
      bind-Keeps (smb_part host t) _ (smb_part-Keeps t)
        (λ smb. bind-Keeps (preview host "volume.remove" _) _ (preview-Keeps _ _) (λ p. λ h. refl))

  abbrev new_part-Keeps : (op : String) (input : Input) → Keeps (CreateVolume.preview host op input)
  unfolding CreateVolume.preview
  new_part-Keeps op input h = same (preview_call op input) h refl

  pub new_parts-Keeps : (input : VolumeInput) → Keeps (CreateVolume.parts host input)
  unfolding CreateVolume.parts CreateVolume.smb_part
  new_parts-Keeps input =
      bind-Keeps (CreateVolume.preview host "volume.create" _) _ (new_part-Keeps _ _) (λ volume.
        bind-Keeps (CreateVolume.smb_part host input) _
          (if-Keeps (not (is_some input.share)) _ _ (λ h. refl)
            (bind-Keeps (ask smbd_call host.smbd_installed) _ (λ h. same smbd_call h refl)
              (λ installed.
                if-Keeps (not installed) _ _ (λ h. refl)
                  (bind-Keeps (ask share_defs_call host.share_defs) _
                    (λ h. same share_defs_call h refl)
                    (λ defs.
                      bind-Keeps (CreateVolume.preview host "smb.sync" (shares defs)) _
                        (new_part-Keeps _ _) (λ p. λ h. refl))))))
          (λ smb. λ h. refl))
