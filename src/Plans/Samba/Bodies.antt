-- ===== src/Plans/Samba/Bodies.antt =====
-- What runs under the lock when a share changes or a new volume is shared: what it leaves of
-- Samba fits the flag that it returns.
use home_server_interface.Base.{arith, List, ◌∷◌, ◌≡◌, Result-cases, Bool-cases, String, inl, inr}
use home_server_interface.Plans.{apply_call, share_defs_call, shares, Input, Call, Host, Preview}
use home_server_interface.Plans.Samba.{held, track, Fits}
use home_server_interface.Plans.Shares.{share_body}
use home_server_interface.Plans.CreateVolume
use home_server_interface.Plans.CreateVolume.{Progress}

module _ (host : Host) where
  pub share_body-Fits :
      (fp : String) (h : List Call) → track host h ≡ held → Fits host (share_body host fp h)
  unfolding share_body
  share_body-Fits fp h start = elim (Result-cases (host.share_defs h)) [
    | inl (e, thrown) ↦ ground (arith, thrown, start)
    | inr (defs, got) ↦
        elim (Result-cases (host.apply (share_defs_call ∷ h) "smb.sync" (shares defs) fp)) [
          | inl (e, thrown) ↦ ground (arith, got, thrown, start)
          | inr (res, answered) ↦ elim (Bool-cases res.ok) [
            | inl worked ↦
                elim (Result-cases
                  (host.commit (apply_call "smb.sync" (shares defs) fp ∷ share_defs_call ∷ h))) [
                    | inl (e, thrown) ↦ ground (arith, got, answered, worked, thrown, start)
                    | inr (u, done) ↦ ground (arith, got, answered, worked, done, start)
                  ]
            | inr failed ↦ ground (arith, got, answered, failed, start)
          ]
        ]
  ]

  pub share_new-Fits :
      (id : String) (s : Preview) (input : Input) (run : Progress) (h : List Call)
      → track host h ≡ held
      → Fits host (CreateVolume.share_body host id s input run h)
  unfolding CreateVolume.share_body
  share_new-Fits id s input run h start =
      elim (Result-cases (host.apply h "smb.sync" input s.fingerprint)) [
        | inl (e, thrown) ↦ ground (arith, thrown, start)
        | inr (res, answered) ↦ elim (Bool-cases res.ok) [
          | inl worked ↦
              elim (Result-cases
                (host.create_share (apply_call "smb.sync" input s.fingerprint ∷ h) id)) [
                  | inl (e, thrown) ↦ ground (arith, answered, worked, thrown, start)
                  | inr (u, done) ↦ ground (arith, answered, worked, done, start)
                ]
          | inr failed ↦ ground (arith, answered, failed, start)
        ]
      ]
