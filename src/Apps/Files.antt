-- ===== src/Apps/Files.antt =====
-- What the steps of an update and a rollback leave of an app's two files.
use Prim.Native.String.{String}
use home_server_interface.Base.{
  Option, none, some, Result, ok, err, Result-cases, ◌≡◌, refl, ap, ◌∙◌, ◌⊎◌, inl, inr,
}
use home_server_interface.Apps.{
  Thrown, Effects, Ran, update_run, restore_previous, catch, ◌>>◌, return, nothing, undo_update,
}

-- The compose file and the rollback point of the app, as they are on the host.
pub record Files : Type 0 where
  pub stack : Option String
  pub previous : Option String

-- What the effects promise: one that returns has changed its file and no other; validating
-- changes none, and a write of the rollback point that throws leaves the compose file alone.
pub record Laws {W : Type 0} (effects : Effects W) (name : String) (files : W → Files)
    : Type 0 where
  pub stack_written :
      (text : String) (w : W) {u : Unit {0}}
      → (effects.write_stack name text w).0 ≡ ok u
      → files (effects.write_stack name text w).1 ≡ record (files w) { stack = some text }
  pub previous_written :
      (text : String) (w : W) {u : Unit {0}}
      → (effects.write_previous name text w).0 ≡ ok u
      → files (effects.write_previous name text w).1 ≡ record (files w) { previous = some text }
  pub previous_failed :
      (text : String) (w : W) {e : Thrown}
      → (effects.write_previous name text w).0 ≡ err e
      → (files (effects.write_previous name text w).1).stack ≡ (files w).stack
  pub previous_removed :
      (w : W) {u : Unit {0}}
      → (effects.remove_previous name w).0 ≡ ok u
      → files (effects.remove_previous name w).1 ≡ record (files w) { previous = none }
  pub validated : (w : W) → files (effects.validate name w).1 ≡ files w

module _ {W : Type 0} (effects : Effects W) (name : String) (files : W → Files)
    (laws : Laws effects name files) where
  -- The writes that put the files back do not fail.
  abbrev pub Restores : String → Option String → Type 0
  Restores content previous =
      (w : W)
      → ((effects.write_stack name content w).0 ≡ ok tt)
        × ((restore_previous effects name previous w).0 ≡ ok tt)

  restored :
      (previous : Option String) (w : W)
      → (restore_previous effects name previous w).0 ≡ ok tt
      → files (restore_previous effects name previous w).1
        ≡ record (files w) { previous = previous }
  restored none w back = laws.previous_removed w back
  restored (some text) w back = laws.previous_written text w back

  undone :
      (content : String) (previous : Option String) (e : Thrown) (w : W)
      → Restores content previous
      → files (undo_update effects name content previous e w).1
        ≡ record { stack = some content; previous = previous }
  undone content previous e w restores =
      let w1 = (effects.write_stack name content w).1 in
      restored previous w1 (restores w1).1
      ∙ ap (λ (f : Files). record f { previous = previous })
          (laws.stack_written content w (restores w).0)

  -- How an update that kept the file ends.
  abbrev pub Updated : String → Option String → String → Result Thrown Ran × W → Type 0
  Updated content previous yaml (ok r, w) =
      files w ≡ record { stack = some yaml; previous = some content }
  Updated content previous yaml (err e, w) =
      files w ≡ record { stack = some content; previous = previous }

  kept-Updated :
      (content : String) (previous : Option String) (yaml : String) (w : W)
      → files w ≡ record { stack = some content; previous = some content }
      → Restores content previous
      → Updated content previous yaml (
          (catch
                (effects.write_stack name yaml >> effects.validate name)
                (undo_update effects name content previous)
              >> return nothing)
            w)
  kept-Updated content previous yaml w start restores =
      elim (Result-cases (effects.write_stack name yaml w).0) [
        | inl (e, thrown) ↦
            rw (thrown) (undone content previous e (effects.write_stack name yaml w).1 restores)
        | inr (u, written) ↦
            let w1 = (effects.write_stack name yaml w).1 in
            elim (Result-cases (effects.validate name w1).0) [
              | inl (e, invalid) ↦
                  rw (written, invalid)
                    (undone content previous e (effects.validate name w1).1 restores)
              | inr (v, valid) ↦
                  rw (written, valid)
                    (laws.validated w1
                      ∙ laws.stack_written yaml w written
                      ∙ ap (λ (f : Files). record f { stack = some yaml }) start)
            ]
      ]

  -- How an update ends: as above, or the file could not be kept and the app's is untouched.
  abbrev pub UpdateEnds : String → Option String → String → W → Result Thrown Ran × W → Type 0
  UpdateEnds content previous yaml w out =
      Updated content previous yaml out
      ⊎ ((thrown : Thrown) × ((effects.write_previous name content w).0 ≡ err thrown)
          × (out.0 ≡ err thrown)
          × ((files out.1).stack ≡ some content))

  -- The step of an update, from an app with some compose file and maybe a rollback point: if it
  -- returns, the compose file is the new one and the rollback point the old one; if it throws,
  -- both are as they were before it, or, if keeping the old file was what threw, the compose file
  -- is. The effects keep their promises (an effect that returns has changed its own file only,
  -- validating changes none, and a write of the rollback point that throws leaves the compose
  -- file alone), and the writes that put the files back do not throw.
  pub update_run-Ends :
      (content : String) (previous : Option String) (yaml : String) (w : W)
      → files w ≡ record { stack = some content; previous = previous }
      → Restores content previous
      → UpdateEnds content previous yaml w (update_run effects name content previous yaml w)
  unfolding update_run
  update_run-Ends content previous yaml w start restores =
      let w1 = (effects.write_previous name content w).1 in
      elim (Result-cases (effects.write_previous name content w).0) [
        | inl (e, thrown) ↦ inr (
          e,
          thrown,
          rw (thrown) refl,
          rw (thrown) (laws.previous_failed content w thrown ∙ ap (λ (f : Files). f.stack) start),
        )
        | inr (u, kept) ↦ inl (
            rw (kept) (
              kept-Updated content previous yaml w1
                (laws.previous_written content w kept
                  ∙ ap (λ (f : Files). record f { previous = some content }) start)
                restores))
      ]
