-- ===== src/Transfers/Hydration/Rows.antt =====
-- apps/dashboard/src/lib/upload-runner.ts: the rows that the hydration adds to the page.
use home_server_interface.Base.{
  Bool, true, false, List, [], ◌∷◌, ◌++◌, any, Option, none, some, str_eq, String, Option-cases,
  Bool-cases, ◌≡◌, ◌⊎◌, inl, inr, refl, ap, ◌∙◌, arith, eq_refl, eq_iff,
}
use home_server_interface.Transfers.{
  Transfer, Page, has_id, verifying, error, persist_upload, clear_persisted, register,
  PersistedUpload,
}
use home_server_interface.Transfers.Runner.{World, Net, is_checksum}
use home_server_interface.Transfers.Runner.{
  UploadStatus, UploadPhase, phase_uploading, phase_staged, phase_finalizing, phase_completed,
  phase_failed, phase_cancelled,
}
use home_server_interface.Transfers.Hydration.{
  Watch, Hydrated, row, show_interrupted, show_verifying, show_failed, show_phase, show_answer,
  hydrate_one, hydrate_all, hydrate_interrupted_uploads, bookmark_id, phase_of, nonempty,
  save_new_id,
}

-- A row that waits for the user, or one that is watched.
abbrev pub IsHydrated : List Watch → Transfer → Type 0
IsHydrated watches t =
    (t.interrupted ≡ true) × (t.status ≡ error)
    ⊎ (t.status ≡ verifying) × (any (λ watch. str_eq watch.id t.id) watches ≡ true)

abbrev pub AreHydrated : List Watch → List Transfer → Type 0
AreHydrated watches [] = Unit
AreHydrated watches (t ∷ tasks) = IsHydrated watches t × AreHydrated watches tasks

-- No two transfers have one id.
abbrev pub AreDistinct : List Transfer → Type 0
AreDistinct [] = Unit
AreDistinct (t ∷ tasks) = (any (has_id t.id) tasks ≡ false) × AreDistinct tasks

-- The page shows the transfers that it showed before, unchanged, and rows that were hydrated.
abbrev pub Extends : List Transfer → Hydrated → Type 0
Extends old all =
    (rows : List Transfer) × (all.world.page.tasks ≡ old ++ rows)
    × AreHydrated all.watches rows
    × AreDistinct all.world.page.tasks

++_assoc : (xs ys : List Transfer) (t : Transfer) → (xs ++ ys) ++ t ∷ [] ≡ xs ++ (ys ++ t ∷ [])
++_assoc [] ys t = refl
++_assoc (x ∷ xs) ys t = ap (λ rest. x ∷ rest) (++_assoc xs ys t)

++_nil : (tasks : List Transfer) → tasks ≡ tasks ++ []
++_nil [] = refl
++_nil (t ∷ tasks) = ap (λ rest. t ∷ rest) (++_nil tasks)

any-append :
    (test : Transfer → Bool) (tasks : List Transfer) (t : Transfer)
    → any test tasks ≡ false
    → test t ≡ false
    → any test (tasks ++ t ∷ []) ≡ false
any-append test [] t none_of not_t = ground (arith, not_t)
any-append test (u ∷ tasks) t none_of not_t = elim (Bool-cases (test u)) [
  | inl e1 ↦ ground (arith, e1, none_of)
  | inr e1 ↦ ground (arith, e1, none_of, any-append test tasks t)
]

append-AreDistinct :
    (tasks : List Transfer) (t : Transfer)
    → AreDistinct tasks
    → any (has_id t.id) tasks ≡ false
    → AreDistinct (tasks ++ t ∷ [])
append-AreDistinct [] t distinct fresh = (refl, tt)
append-AreDistinct (u ∷ tasks) t (fresh_u, distinct) fresh = elim (Bool-cases (str_eq u.id t.id)) [
  | inl e1 ↦ absurd (ground (arith, e1, fresh))
  | inr e1 ↦ (
    any-append (has_id u.id) tasks t fresh_u
        (ground (arith, e1, eq_iff t.id u.id, eq_iff u.id t.id)),
    append-AreDistinct tasks t distinct (ground (arith, e1, fresh)),
  )
]

append-AreHydrated :
    (watches : List Watch) (rows : List Transfer) (t : Transfer)
    → AreHydrated watches rows
    → IsHydrated watches t
    → AreHydrated watches (rows ++ t ∷ [])
append-AreHydrated watches [] t all this = (this, tt)
append-AreHydrated watches (u ∷ rows) t (first, all) this =
    (first, append-AreHydrated watches rows t all this)

watch-IsHydrated :
    (watch : Watch) (watches : List Watch) (t : Transfer)
    → IsHydrated watches t
    → IsHydrated (watch ∷ watches) t
watch-IsHydrated watch watches t (inl waits) = inl waits
watch-IsHydrated watch watches t (inr (shown, watched)) =
    inr (shown, ground (arith, watched, Bool-cases (str_eq watch.id t.id)))

watch-AreHydrated :
    (watch : Watch) (watches : List Watch) (rows : List Transfer)
    → AreHydrated watches rows
    → AreHydrated (watch ∷ watches) rows
watch-AreHydrated watch watches [] all = tt
watch-AreHydrated watch watches (t ∷ rows) (first, all) =
    (watch-IsHydrated watch watches t first, watch-AreHydrated watch watches rows all)

-- A row for an id that the page does not show.
add-Extends :
    (old tasks rows : List Transfer) (watches : List Watch) (t : Transfer)
    → tasks ≡ old ++ rows
    → AreHydrated watches rows
    → AreDistinct tasks
    → any (has_id t.id) tasks ≡ false
    → IsHydrated watches t
    → (rows : List Transfer) × (tasks ++ t ∷ [] ≡ old ++ rows)
      × AreHydrated watches rows
      × AreDistinct (tasks ++ t ∷ [])
add-Extends old tasks rows watches t e all distinct fresh this = (
  rows ++ t ∷ [],
  ap (λ ts. ts ++ t ∷ []) e ∙ ++_assoc old rows t,
  append-AreHydrated watches rows t all this,
  append-AreDistinct tasks t distinct fresh,
)

module _ (net : Net) (old : List Transfer) where
  tasks-save_new_id :
      (task : Option Transfer) (fresh : Bool) (page : Page)
      → (save_new_id net task fresh page).tasks ≡ page.tasks
  unfolding persist_upload
  tasks-save_new_id none fresh page = refl
  tasks-save_new_id (some task) true page = refl
  tasks-save_new_id (some task) false page = refl

  show_interrupted-Extends :
      (p : PersistedUpload) (status : UploadStatus) (phase : UploadPhase) (upload_id : String)
      (all : Hydrated)
      → any (has_id p.id) all.world.page.tasks ≡ false
      → Extends old all
      → Extends old (show_interrupted net p status phase upload_id all)
  unfolding show_interrupted row register
  show_interrupted-Extends p status phase upload_id all fresh (rows, e, hydrated, distinct) =
      rw (tasks-save_new_id _ _ _) (
        add-Extends old all.world.page.tasks rows all.watches _ e hydrated distinct fresh
          (inl (refl, refl)))

  show_verifying-Extends :
      (p : PersistedUpload) (status : UploadStatus) (job_id : String) (all : Hydrated)
      → any (has_id p.id) all.world.page.tasks ≡ false
      → Extends old all
      → Extends old (show_verifying net p status job_id all)
  unfolding show_verifying row register
  show_verifying-Extends p status job_id all fresh (rows, e, hydrated, distinct) =
      let watch : Watch = record { id = p.id; job_id = job_id; total_bytes = p.total_bytes } in
      add-Extends old all.world.page.tasks rows (watch ∷ all.watches) _ e
        (watch-AreHydrated watch all.watches rows hydrated) distinct fresh
        (inr (refl, ground (arith, eq_refl p.id)))

  show_phase-Extends :
      (p : PersistedUpload) (status : UploadStatus) (phase : UploadPhase) (all : Hydrated)
      → any (has_id p.id) all.world.page.tasks ≡ false
      → Extends old all
      → Extends old (show_phase net p status phase all)
  unfolding clear_persisted show_failed
  show_phase-Extends p status phase_completed all fresh extends = extends
  show_phase-Extends p status phase_cancelled all fresh extends = extends
  show_phase-Extends p status phase_finalizing all fresh extends =
      elim (Option-cases (nonempty status.job_id)) [
        | inl e1 ↦
            rw e1
              (show_interrupted-Extends p status phase_finalizing (bookmark_id p) all fresh extends)
        | inr (job_id, e1) ↦ rw e1 (show_verifying-Extends p status job_id all fresh extends)
      ]
  show_phase-Extends p status phase_failed all fresh extends =
      elim (Bool-cases (is_checksum net status.job_error)) [
        | inl e1 ↦ rw e1 (show_interrupted-Extends p status phase_failed _ _ fresh extends)
        | inr e1 ↦
            rw e1 (show_interrupted-Extends p status phase_failed (bookmark_id p) all fresh extends)
      ]
  show_phase-Extends p status phase_staged all fresh extends =
      show_interrupted-Extends p status phase_staged (bookmark_id p) all fresh extends
  show_phase-Extends p status phase_uploading all fresh extends =
      show_interrupted-Extends p status phase_uploading (bookmark_id p) all fresh extends

  show_answer-Extends :
      (p : PersistedUpload) (answer : Option UploadStatus) (all : Hydrated)
      → Extends old all
      → Extends old (show_answer net p answer all)
  unfolding clear_persisted
  show_answer-Extends p none all extends = extends
  show_answer-Extends p (some status) all extends = elim (Bool-cases status.known) [
    | inr e1 ↦ rw e1 extends
    | inl e1 ↦ elim (Bool-cases (any (has_id p.id) all.world.page.tasks)) [
      | inl e2 ↦ rw (e1, e2) extends
      | inr e2 ↦ simp (e1, e2) (show_phase-Extends p status (phase_of p status) all e2 extends)
    ]
  ]

  hydrate_all-Extends :
      (ps : List PersistedUpload) (all : Hydrated)
      → Extends old all
      → Extends old (hydrate_all net ps all)
  unfolding hydrate_all hydrate_one
  hydrate_all-Extends [] all extends = extends
  hydrate_all-Extends (p ∷ ps) all extends =
      hydrate_all-Extends ps (hydrate_one net p all) (show_answer-Extends p _ _ extends)

-- On a page whose transfers have different ids, the hydration leaves the transfers that are shown as they
-- are and only adds rows: each of them is interrupted and failed, so that the user can select the file
-- again, or is verifying and watched; and no two transfers have one id afterwards.
pub hydrate_interrupted_uploads-Extends :
    (net : Net) (w : World)
    → AreDistinct w.page.tasks
    → Extends w.page.tasks (hydrate_interrupted_uploads net w)
unfolding hydrate_interrupted_uploads
hydrate_interrupted_uploads-Extends net w distinct =
    hydrate_all-Extends net w.page.tasks w.page.persisted _ ([], ++_nil w.page.tasks, tt, distinct)
