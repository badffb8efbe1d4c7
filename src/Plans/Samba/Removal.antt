-- ===== src/Plans/Samba/Removal.antt =====
-- The parts of a volume's removal: what they leave of Samba fits the flag that they return.
use home_server_interface.Base.{
  arith, true, false, List, [], ◌∷◌, str_eq, Result, ok, err, ◌≡◌, refl, ◌∙◌, Result-cases,
  Bool-cases, Option, none, some, String, inl, inr,
}
use home_server_interface.Plans.{delete_place_call, Input, Call, Host, Preview, Thrown, PlanStep}
use home_server_interface.Plans.Samba.{
  held, track, fits, track-read, fits-recorded, fits-on_recorded, fits-answered, track-read,
}
use home_server_interface.Plans.Reads.{parts-Keeps}
use home_server_interface.Plans.RemoveVolume.{
  RemoveTarget, PlaceRef, Parts, Progress, parts, delete_places, remove_chain, stop_sharing, run,
  Outcome, volume_input, is_there, not_begun,
}

module _ (host : Host) where
  -- The flag of an outcome is the first of its two.
  abbrev pub FitsRun : Result Thrown Outcome × List Call → Type 0
  FitsRun (ok ((resync, places_gone), out), h) = fits resync (track host h) ≡ true
  FitsRun (err e, h) = false ≡ true

  delete_places-Fits :
      (t : RemoveTarget) (steps : List PlanStep) (reply : List (String × String))
      (places : List PlaceRef) (now : Progress) (h : List Call)
      → fits now.resync (track host h) ≡ true
      → FitsRun (delete_places host t steps reply places now h)
  unfolding delete_places
  delete_places-Fits t steps reply [] now h fit = fit
  delete_places-Fits t steps reply (p ∷ places) now h fit =
      elim (Result-cases (host.delete_place h p.id)) [
        | inl (e, thrown) ↦ ground (arith, thrown, fit)
        | inr (u, done) ↦
            rw (done) (delete_places-Fits t steps reply places _ (delete_place_call p.id ∷ h) fit)
      ]

  remove_chain-Fits :
      (t : RemoveTarget) (p : Parts) (now : Progress) (h : List Call)
      → fits now.resync (track host h) ≡ true
      → FitsRun (remove_chain host t p now h)
  unfolding remove_chain
  remove_chain-Fits t p now h fit =
      elim (Result-cases
        (host.apply h "volume.remove" (volume_input t (is_there p.smb)) p.volume.fingerprint)) [
          | inl (e, thrown) ↦ rw (thrown) (fits-on_recorded _ _ _ fit)
          | inr (vol, answered) ↦ elim (Bool-cases vol.ok) [
            | inl worked ↦
                rw (answered, worked)
                  (delete_places-Fits t _ _ _ _ _
                    (ground (arith, answered, worked, fits-recorded now.resync (track host h) fit)))
            | inr failed ↦ rw (answered, failed) (fits-on_recorded _ _ _ fit)
          ]
        ]

  stop_sharing-Fits :
      (t : RemoveTarget) (smb : Option (Preview × Input)) (volume : Preview) (fp : String)
      (h : List Call)
      → track host h ≡ held
      → FitsRun (stop_sharing host t (record { smb = smb; volume = volume; fingerprint = fp }) h)
  unfolding stop_sharing
  stop_sharing-Fits t none volume fp h start = remove_chain-Fits t _ not_begun h (rw start refl)
  stop_sharing-Fits t (some (s, input)) volume fp h start =
      elim (Result-cases (host.apply h "smb.sync" input s.fingerprint)) [
        | inl (e, thrown) ↦ ground (arith, thrown, start)
        | inr (res, answered) ↦
            let next =
              fits-answered host "smb.sync" input s.fingerprint false h answered (rw start refl) in
            elim (Bool-cases res.ok) [
              | inl worked ↦ rw (answered, worked) (remove_chain-Fits t _ _ _ next)
              | inr failed ↦ ground (arith, answered, failed, next)
            ]
      ]

  pub run-Fits :
      (t : RemoveTarget) (fp : String) (h : List Call)
      → track host h ≡ held
      → FitsRun (run host t fp h)
  unfolding run
  run-Fits t fp h start =
      let kept = parts-Keeps host (track host) (track-read host) t h ∙ start in
      elim (Result-cases (parts host t h).0) [
        | inl (e, thrown) ↦ ground (arith, thrown, kept)
        | inr (p, got) ↦ elim (Bool-cases (str_eq p.fingerprint fp)) [
          | inl same ↦
              rw (got, same)
                (stop_sharing-Fits t p.smb p.volume p.fingerprint (parts host t h).1 kept)
          | inr other ↦ ground (arith, got, other, kept)
        ]
      ]
