-- ===== src/Plans/Samba/Deletion.antt =====
-- The parts of a user's deletion: what they leave of Samba fits the flag that they return.
use home_server_interface.Base.{
  arith, Bool, true, false, ◌||◌, List, [], ◌∷◌, str_eq, ◌≡◌, refl, ◌∙◌, Result-cases, Bool-cases,
  String, inl, inr,
}
use home_server_interface.Plans.{apply_call, Call, Host}
use home_server_interface.Plans.Samba.{
  held, track, fits, Fits, track-read, fits-recorded, fits-on_recorded, fits-thrown, fits-answered,
  track-read,
}
use home_server_interface.Plans.Reads.{delete_previews-Keeps}
use home_server_interface.Plans.Users.{
  Part, Ran, delete_previews, commit_delete, delete_parts, delete_body, user_apply, ran_also,
  parts_of, nothing_ran,
}

module _ (host : Host) where
  commit_delete-Fits :
      (name : String) (flag : Bool) (ran : Ran) (h : List Call)
      → fits flag (track host h) ≡ true
      → Fits host (commit_delete host name flag ran h)
  unfolding commit_delete
  commit_delete-Fits name flag ran h fit = elim (Result-cases (host.commit h)) [
    | inl (e, thrown) ↦ ground (arith, thrown, fits-on_recorded flag false (track host h) fit)
    | inr (u, done) ↦ ground (arith, done, fits-recorded flag (track host h) fit)
  ]

  delete_parts-Fits :
      (name : String) (parts : List Part) (flag : Bool) (ran : Ran) (h : List Call)
      → fits flag (track host h) ≡ true
      → Fits host (delete_parts host name parts flag ran h)
  unfolding delete_parts user_apply
  delete_parts-Fits name [] flag ran h fit = commit_delete-Fits name flag ran h fit
  delete_parts-Fits name ((op, input, fp) ∷ parts) flag ran h fit =
      elim (Result-cases (host.apply h op input fp)) [
        | inl (e, thrown) ↦ ground (arith, thrown, fits-thrown host op input fp flag h thrown fit)
        | inr (res, answered) ↦
            let next = fits-answered host op input fp flag h answered fit in
            elim (Bool-cases res.ok) [
              | inl worked ↦ ground (
                arith,
                answered,
                worked,
                delete_parts-Fits name parts (flag || str_eq op "smb.sync") (ran_also ran res)
                    (apply_call op input fp ∷ h) next,
              )
              | inr failed ↦ ground (arith, answered, failed, next)
            ]
      ]

  pub delete_body-Fits :
      (name fp : String) (h : List Call)
      → track host h ≡ held
      → Fits host (delete_body host name fp h)
  unfolding delete_body
  delete_body-Fits name fp h start =
      let kept = delete_previews-Keeps host (track host) (track-read host) name h ∙ start in
      elim (Result-cases (delete_previews host name h).0) [
        | inl (e, thrown) ↦ ground (arith, thrown, kept)
        | inr (p, got) ↦ elim (Bool-cases (str_eq p.fingerprint fp)) [
          | inl same ↦ ground (
            arith,
            got,
            same,
            delete_parts-Fits name (parts_of host name p) false nothing_ran
                (delete_previews host name h).1 (rw kept refl),
          )
          | inr other ↦ ground (arith, got, other, kept)
        ]
      ]
