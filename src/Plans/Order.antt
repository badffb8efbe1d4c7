-- ===== src/Plans/Order.antt =====
-- The order of the calls of a volume's removal.
use home_server_interface.Base.{
  arith, Bool, true, false, ◌||◌, ◌&&◌, List, [], ◌∷◌, str_eq, ◌≡◌, refl, ◌∙◌, Result-cases, ltb,
  length, eq_refl, Bool-cases, Option, none, some, String, inl, inr,
}
use home_server_interface.Plans.{
  preview_call, apply_call, smbd_call, share_defs_call, current_defs_call, commit_call,
  create_place_call, create_share_call, delete_place_call, release_hold_call, resync_call,
  sync_access_call, lock_call, unlock_call, shares, old_volume, new_volume, new_user, username,
  Input, Call, Host, Preview, settle, when, username, PlanStep, ◌>>◌,
}
use home_server_interface.Plans.Reads.{is_read, parts-Keeps}
use home_server_interface.Plans.Samba.{has_worked}
use home_server_interface.Plans.RemoveVolume.{
  RemoveTarget, PlaceRef, Parts, Progress, check, parts, delete_places, remove_chain, stop_sharing,
  run, Outcome, volume_input, is_there, not_begun, apply_volume_remove,
}

abbrev pub has_uuid : String → Input → Bool
has_uuid uuid (old_volume other names) = str_eq other uuid
has_uuid uuid (shares defs) = false
has_uuid uuid (new_volume text) = false
has_uuid uuid (new_user name password samba) = false
has_uuid uuid (username name) = false

module _ (host : Host) (uuid : String) where
  -- Whether a call is the removal of the volume, answered with success.
  abbrev pub is_removal : Call → List Call → Bool
  is_removal (apply_call op input fp) h =
      str_eq op "volume.remove" && (has_uuid uuid input && has_worked (host.apply h op input fp))
  is_removal c h = false

  abbrev pub removed : List Call → Bool
  removed [] = false
  removed (c ∷ h) = is_removal c h || removed h

  abbrev pub allowed : Call → List Call → Bool
  allowed (delete_place_call id) h = removed h
  allowed (release_hold_call at) h = removed h
  allowed c h = true

  -- Every call that deletes a Place or lets a hold go comes after the volume's removal.
  abbrev pub in_order : List Call → Bool
  in_order [] = true
  in_order (c ∷ h) = allowed c h && in_order h

  in_order-read : (c : Call) (h : List Call) → is_read c ≡ true → in_order (c ∷ h) ≡ in_order h
  in_order-read (preview_call op input) h read = refl
  in_order-read smbd_call h read = refl
  in_order-read share_defs_call h read = refl
  in_order-read current_defs_call h read = refl
  in_order-read (apply_call op input fp) h read = refl
  in_order-read commit_call h read = refl
  in_order-read create_place_call h read = refl
  in_order-read (create_share_call id) h read = refl
  in_order-read (delete_place_call id) h read = cc
  in_order-read (release_hold_call at) h read = cc
  in_order-read resync_call h read = refl
  in_order-read sync_access_call h read = refl
  in_order-read lock_call h read = refl
  in_order-read unlock_call h read = refl

  delete_places-in_order :
      (t : RemoveTarget) (steps : List PlanStep) (reply : List (String × String))
      (places : List PlaceRef) (now : Progress) (h : List Call)
      → removed h ≡ true
      → in_order h ≡ true
      → in_order (delete_places host t steps reply places now h).1 ≡ true
  unfolding delete_places
  delete_places-in_order t steps reply [] now h gone ordered = ground (arith, gone, ordered)
  delete_places-in_order t steps reply (p ∷ places) now h gone ordered =
      elim (Result-cases (host.delete_place h p.id)) [
        | inl (e, thrown) ↦ ground (arith, thrown, gone, ordered)
        | inr (u, done) ↦ rw (done) (
            delete_places-in_order t steps reply places _ (delete_place_call p.id ∷ h) gone
              (ground (arith, gone, ordered)))
      ]

module _ (host : Host) (t : RemoveTarget) where
  abbrev Ordered : List Call → Type 0
  Ordered h = in_order host t.uuid h ≡ true

  remove_chain-in_order :
      (p : Parts) (now : Progress) (h : List Call)
      → Ordered h
      → Ordered (remove_chain host t p now h).1
  unfolding remove_chain
  remove_chain-in_order p now h ordered =
      elim (Result-cases
        (host.apply h "volume.remove" (volume_input t (is_there p.smb)) p.volume.fingerprint)) [
          | inl (e, thrown) ↦ rw (thrown) ordered
          | inr (vol, answered) ↦ elim (Bool-cases vol.ok) [
            | inl worked ↦
                rw (answered, worked)
                  (delete_places-in_order host t.uuid t _ _ _ _ _
                    (ground (arith, answered, worked, eq_refl t.uuid)) ordered)
            | inr failed ↦ rw (answered, failed) ordered
          ]
        ]

  stop_sharing-in_order :
      (smb : Option (Preview × Input)) (volume : Preview) (fp : String) (h : List Call)
      → Ordered h
      → Ordered (stop_sharing host t (record { smb = smb; volume = volume; fingerprint = fp }) h).1
  unfolding stop_sharing
  stop_sharing-in_order none volume fp h ordered = remove_chain-in_order _ not_begun h ordered
  stop_sharing-in_order (some (s, input)) volume fp h ordered =
      elim (Result-cases (host.apply h "smb.sync" input s.fingerprint)) [
        | inl (e, thrown) ↦ rw (thrown) ordered
        | inr (res, answered) ↦ elim (Bool-cases res.ok) [
          | inl worked ↦
              rw (answered, worked)
                (remove_chain-in_order _ _ (apply_call "smb.sync" input s.fingerprint ∷ h) ordered)
          | inr failed ↦ rw (answered, failed) ordered
        ]
      ]

  run-in_order : (fp : String) (h : List Call) → Ordered h → Ordered (run host t fp h).1
  unfolding run
  run-in_order fp h ordered =
      let kept =
        parts-Keeps host (in_order host t.uuid) (in_order-read host t.uuid) t h ∙ ordered in
      elim (Result-cases (parts host t h).0) [
        | inl (e, thrown) ↦ rw (thrown) kept
        | inr (p, got) ↦ elim (Bool-cases (str_eq p.fingerprint fp)) [
          | inl same ↦
              rw (got, same)
                (stop_sharing-in_order p.smb p.volume p.fingerprint (parts host t h).1 kept)
          | inr other ↦ rw (got, other) kept
        ]
      ]

  -- What follows the lock makes no call that has to wait.
  finish-in_order :
      (out : Outcome) (h : List Call)
      → Ordered h
      → Ordered ((when out.0.0 resync_call >> (when out.0.1 sync_access_call >> settle out.1)) h).1
  finish-in_order ((true, true), out) h ordered = ordered
  finish-in_order ((true, false), out) h ordered = ordered
  finish-in_order ((false, true), out) h ordered = ordered
  finish-in_order ((false, false), out) h ordered = ordered

-- In every application of a volume's removal, whatever the host answers or throws and whatever
-- fingerprint it is given, each call that deletes a Place of the volume or lets its hold go comes after a
-- removal of that very volume (by its uuid) which the worker answered with success.
pub apply_volume_remove-in_order :
    (host : Host) (t : RemoveTarget) (fp : String)
    → in_order host t.uuid (apply_volume_remove host t fp []).1 ≡ true
unfolding apply_volume_remove check
apply_volume_remove-in_order host t fp = elim (Bool-cases host.is_admin) [
  | inl admin ↦ elim (Bool-cases (ltb 0 (length t.apps))) [
    | inl used ↦ ground (arith, admin, used)
    | inr free ↦ elim (Result-cases (run host t fp (lock_call ∷ [])).0) [
      | inl (e, thrown) ↦
          ground (arith, admin, free, thrown, run-in_order host t fp (lock_call ∷ []) refl)
      | inr (out, got) ↦ ground (
        arith,
        admin,
        free,
        got,
        finish-in_order host t out (unlock_call ∷ (run host t fp (lock_call ∷ [])).1)
            (run-in_order host t fp (lock_call ∷ []) refl),
      )
    ]
  ]
  | inr other ↦ ground (arith, other)
]
