-- ===== src/Transfers/Runner/Ends.antt =====
-- apps/dashboard/src/lib/upload-runner.ts: how a run ends for the transfer and for its bookmark.
use home_server_interface.Base.{
  ℕ, ltb, Bool, true, false, List, [], ◌∷◌, any, mem, Option, none, some, String, Result, ok, err,
  Bool-cases, ◌≡◌, ◌⊎◌, inl, inr, refl,
}
use home_server_interface.Transfers.{
  Transfer, File, Page, TransferStatus, set_abort_controller, find_task, verifying, done, error,
  cancelled, persist_upload, clear_persisted, set_status, update_progress, reset_progress, cleanup,
  is_entry, Message,
}
use home_server_interface.Transfers.Runner.{
  verify, complete, send_file, with_id, Act, World, Failure, abort, failed, Net, asked_status,
  asked_completion, JobStatus, job_completed, job_failed, job_timeout, CompletionAnswer, job,
  not_accepted, broken, completion_stopped, bind_answer, ◌>>=◌, send_chunks, is_checksum, finish,
  finalizing_job, complete_upload, upload_body, run_upload, settle, upload_id_of, total_chunks_of,
  count_staged, fetch_staged_chunks, staged_chunks, release, renew,
}
use home_server_interface.Transfers.Pages.{find-change_first, any-put_entry, any-clear, mem-without}
use home_server_interface.Transfers.Runner.Keeps.{Keeps, send_chunks-Keeps}

-- The page shows a transfer with the id, and keeps a bookmark of it.
abbrev pub IsLive : String → Page → Type 0
IsLive id page =
    ((task : Transfer) × (find_task id page ≡ some task))
    × (any (is_entry id) page.persisted ≡ true)

-- The page shows the transfer with a status, and bookmarks it or not.
abbrev pub Shows : String → TransferStatus → Bool → Page → Type 0
Shows id status bookmarked page =
    ((task : Transfer) × (find_task id page ≡ some task) × (task.status ≡ status))
    × (any (is_entry id) page.persisted ≡ bookmarked)

-- The transfer can be neither aborted nor paused any more, and it is done or cancelled and has no
-- bookmark, or it has failed and has one.
abbrev pub IsSettled : String → Page → Type 0
IsSettled id page =
    (mem id page.controllers ≡ false)
    × (mem id page.paused_ids ≡ false)
    × (Shows id done false page ⊎ Shows id cancelled false page ⊎ Shows id error true page)

Shows-set_status :
    (id : String) (status : TransferStatus) (message : Option Message) (page : Page)
    → IsLive id page
    → Shows id status true (set_status id status message page)
unfolding set_status
Shows-set_status id status message page ((task, found), bookmarked) =
    ((_, find-change_first id _ page.tasks (λ t. refl) found, refl), bookmarked)

set_status-IsLive :
    (id : String) (status : TransferStatus) (message : Option Message) (page : Page)
    → IsLive id page
    → IsLive id (set_status id status message page)
set_status-IsLive id status message page live =
    let shown = Shows-set_status id status message page live in ((shown.0.0, shown.0.1), shown.1)

update_progress-IsLive :
    (id : String) (sent bytes : ℕ) (page : Page)
    → IsLive id page
    → IsLive id (update_progress id sent bytes page)
unfolding update_progress
update_progress-IsLive id sent bytes page ((task, found), bookmarked) =
    ((_, find-change_first id _ page.tasks (λ t. refl) found), bookmarked)

reset_progress-IsLive :
    (id : String) (page : Page) → IsLive id page → IsLive id (reset_progress id page)
unfolding reset_progress
reset_progress-IsLive id page ((task, found), bookmarked) =
    ((_, find-change_first id _ page.tasks (λ t. refl) found), bookmarked)

renew-IsLive :
    (net : Net) (t : Transfer) (fresh : String) (page : Page)
    → IsLive t.id page
    → IsLive t.id (renew net t fresh page)
unfolding renew persist_upload
renew-IsLive net t fresh page ((task, found), bookmarked) = elim (Bool-cases net.assigns) [
  | inl e1 ↦ rw e1 (
    (_, find-change_first t.id (with_id fresh) page.tasks (λ u. refl) found),
    any-put_entry t.id _ page.persisted bookmarked,
  )
  | inr e1 ↦ rw e1 ((task, found), any-put_entry t.id _ page.persisted bookmarked)
]

Shows-clear :
    (id : String) (status : TransferStatus) (page : Page)
    → Shows id status true page
    → Shows id status false (clear_persisted id page)
unfolding clear_persisted
Shows-clear id status page (shown, bookmarked) = (shown, any-clear id page.persisted)

module _ (net : Net) (t : Transfer) (file : File) where
  -- What a part of the run leaves: nothing more to do, or a live transfer.
  abbrev Leaves : {A : Type 0} → (World → Type 0) → Result Failure A → World → Type 0
  Leaves Q (ok a) w = Q w
  Leaves Q (err e) w = IsLive t.id w.page

  abbrev Live : World → Type 0
  Live w = IsLive t.id w.page

  abbrev Finished : World → Type 0
  Finished w = Shows t.id done false w.page

  bind_answer-Leaves :
      {A B : Type 0} (Q : World → Type 0) (r : Result Failure A) (f : A → Act B) (w : World)
      → Live w
      → ((a : A) → Leaves Q (f a w).0 (f a w).1)
      → Leaves Q (bind_answer r f w).0 (bind_answer r f w).1
  bind_answer-Leaves Q (ok a) f w live next = next a
  bind_answer-Leaves Q (err e) f w live next = live

  finish-Leaves :
      (status : JobStatus) (e : Option String) (w : World)
      → Live w
      → Leaves Finished
          (finish net t (upload_id_of t) status e w).0
          (finish net t (upload_id_of t) status e w).1
  unfolding finish
  finish-Leaves job_completed e w live =
      Shows-clear t.id done (set_status t.id done none w.page)
        (Shows-set_status t.id done none w.page live)
  finish-Leaves job_failed e w live = elim (Bool-cases (is_checksum net e)) [
    | inl e1 ↦ rw e1 (renew-IsLive net t _ w.page live)
    | inr e1 ↦ rw e1 live
  ]
  finish-Leaves job_timeout e w live = elim (Bool-cases (is_checksum net e)) [
    | inl e1 ↦ rw e1 (renew-IsLive net t _ w.page live)
    | inr e1 ↦ rw e1 live
  ]

  verify-Leaves :
      (finalizing : String) (w : World)
      → Live w
      → Leaves Finished (verify net t file finalizing w).0 (verify net t file finalizing w).1
  verify-Leaves finalizing w live =
      finish-Leaves _ _ _ (set_status-IsLive t.id verifying none w.page live)

  finalizing_job-Live : (answer : CompletionAnswer) → Keeps Live (finalizing_job net answer)
  finalizing_job-Live (job id) w live = live
  finalizing_job-Live (not_accepted status body) w live = live
  finalizing_job-Live (broken e) w live = live
  finalizing_job-Live completion_stopped w live = live

  complete-Leaves :
      (hashed : List ℕ) (w : World)
      → Live w
      → Leaves Finished (complete net t file hashed w).0 (complete net t file hashed w).1
  unfolding complete_upload
  complete-Leaves hashed w live =
      let sha = net.sha256 hashed in
      let answer = net.complete w.events (upload_id_of t) sha in
      let asked : World = record w { events = asked_completion (upload_id_of t) sha ∷ w.events } in
      let answered = finalizing_job net answer asked in
      bind_answer-Leaves Finished answered.0 (verify net t file) answered.1
        (finalizing_job-Live answer asked live)
        (λ finalizing. verify-Leaves finalizing answered.1 (finalizing_job-Live answer asked live))

  sent-Leaves :
      (staged : List ℕ) (counted : ℕ) (w : World)
      → Live w
      → (let all =
            send_chunks net t.id (upload_id_of t) file staged (total_chunks_of t file) 0 counted []
            >>= complete net t file in
          Leaves Finished (all w).0 (all w).1)
  sent-Leaves staged counted w live =
      let ran =
        send_chunks net t.id (upload_id_of t) file staged (total_chunks_of t file) 0 counted [] w in
      let kept =
        send_chunks-Keeps Live (λ e v quiet p. p) net t.id (upload_id_of t) file staged
          (total_chunks_of t file) 0 counted []
          (λ sent bytes v p. update_progress-IsLive t.id sent bytes v.page p) w live in
      bind_answer-Leaves Finished ran.0 (complete net t file) ran.1 kept
        (λ hashed. complete-Leaves hashed ran.1 kept)

  send_file-Leaves :
      (staged : List ℕ) (w : World)
      → Live w
      → Leaves Finished (send_file net t file staged w).0 (send_file net t file staged w).1
  send_file-Leaves staged w live =
      let counted = count_staged file (total_chunks_of t file) staged in
      elim (Bool-cases (ltb 0 counted.0)) [
        | inl e1 ↦ rw e1 (
            sent-Leaves staged counted.0
              (record w { page = update_progress t.id counted.0 counted.1 w.page })
              (update_progress-IsLive t.id counted.0 counted.1 w.page live))
        | inr e1 ↦ rw e1 (sent-Leaves staged counted.0 w live)
      ]

  settle-IsSettled :
      (r : Result Failure (Unit {0})) (w : World)
      → Leaves Finished r w
      → IsSettled t.id (release net t.id (settle net t r w)).page
  unfolding cleanup
  settle-IsSettled (ok u) w shown =
      (mem-without t.id w.page.controllers, mem-without t.id w.page.paused_ids, inl shown)
  settle-IsSettled (err abort) w live =
      let page = set_status t.id cancelled none w.page in
      (
        mem-without t.id (clear_persisted t.id page).controllers,
        mem-without t.id (clear_persisted t.id page).paused_ids,
        inr (
            inl
              (Shows-clear t.id cancelled page (Shows-set_status t.id cancelled none w.page live))),
      )
  settle-IsSettled (err (failed message)) w live =
      let page = set_status t.id error (some message) w.page in
      (
        mem-without t.id page.controllers,
        mem-without t.id page.paused_ids,
        inr (inr (Shows-set_status t.id error (some message) w.page live)),
      )

-- A run on a transfer that the page shows and bookmarks leaves it done or cancelled and without a bookmark,
-- or failed and with a bookmark, and with no abort controller and not paused, whatever the network
-- answers and wherever the user aborts.
pub run_upload-IsSettled :
    (net : Net) (t : Transfer) (file : File) (w : World)
    → IsLive t.id w.page
    → IsSettled t.id (run_upload net t file w).page
unfolding run_upload upload_body fetch_staged_chunks set_abort_controller
run_upload-IsSettled net t file w live =
    let page = set_abort_controller t.id w.page in
    let staged = staged_chunks (net.status w.events (upload_id_of t)) in
    let start : World = record {
      page = reset_progress t.id page;
      events = asked_status (upload_id_of t) staged ∷ w.events;
    } in
    let ran = send_file net t file staged start in
    settle-IsSettled net t file ran.0 ran.1
      (send_file-Leaves net t file staged start (reset_progress-IsLive t.id page live))
