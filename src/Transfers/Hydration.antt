-- ===== src/Transfers/Hydration.antt =====
-- apps/dashboard/src/lib/upload-runner.ts: the uploads that a reload of the page interrupted. The bookmarks
-- are read once, and asked about one after the other; a verification that is still going on is
-- watched by a job of its own.
pub mod Rows
use Prim.Native.String.{String}
use home_server_interface.Base.{
  ℕ, ◌+◌, ◌*◌, min, ltb, leb, Bool, true, false, not, ◌&&◌, ◌||◌, List, [], ◌∷◌, any, length,
  Option, none, some, get_or, str_eq, if◌then◌else◌,
}
use home_server_interface.Transfers.{
  Transfer, PersistedUpload, Page, Message, TransferStatus, text, reselect_to_retry, upload,
  verifying, error, done, has_id, find_task, change_task, persist_upload, clear_persisted, register,
  set_status,
}
use home_server_interface.Transfers.Runner.{
  Net, World, UploadStatus, UploadPhase, phase_uploading, phase_staged, phase_finalizing,
  phase_completed, phase_failed, phase_cancelled, JobResult, JobStatus, job_completed, job_failed,
  job_timeout, asked_status, cancelled_on_server, polled, removal_in, chunk_size, staged_chunks,
  upload_id_of, finalize_deadline, finalize_error_message, is_checksum, renew,
}

-- A verification to watch: the transfer, the job, and the bytes to verify.
pub record Watch : Type 0 where
  pub id : String
  pub job_id : String
  pub total_bytes : Option ℕ

pub record Hydrated : Type 0 where
  pub world : World
  pub watches : List Watch

abbrev pub either : Option ℕ → Option ℕ → Option ℕ
either none o = o
either (some n) o = some n

abbrev pub bookmark_id : PersistedUpload → String
bookmark_id p = get_or p.upload_id p.id

unfoldable pub total_of : PersistedUpload → UploadStatus → ℕ
total_of p status = get_or (either status.total_chunks p.total_chunks) 0

unfoldable pub fully_staged : PersistedUpload → UploadStatus → Bool
fully_staged p status = ltb 0 (total_of p status) && leb (total_of p status) (length status.staged)

unfoldable pub phase_of : PersistedUpload → UploadStatus → UploadPhase
phase_of p status =
    get_or status.phase (if fully_staged p status then phase_staged else phase_uploading)

-- The staged bytes, as far as they can be told without the file.
abbrev pub approximate : Option ℕ → ℕ → Option ℕ
approximate none n = none
approximate (some total) n = some (min total (n * chunk_size))

abbrev pub nonempty : Option String → Option String
nonempty none = none
nonempty (some s) = if str_eq s "" then none else some s

abbrev pub total_chunks_shown : PersistedUpload → UploadStatus → Option ℕ
total_chunks_shown p status =
    if ltb 0 (total_of p status) then some (total_of p status) else p.total_chunks

-- The row of a bookmark, with what the server has of its file.
unfoldable pub row :
    PersistedUpload → UploadStatus → String → TransferStatus → Option Message → Bool → Transfer
row p status upload_id shown message interrupted = record {
  id = p.id;
  kind = upload;
  name = p.name;
  dest_dir = p.dest_dir;
  status = shown;
  error = message;
  total_bytes = p.total_bytes;
  sent_bytes =
      if fully_staged p status
      then p.total_bytes
      else approximate p.total_bytes (length status.staged);
  total_chunks = total_chunks_shown p status;
  sent_chunks = some (length status.staged);
  file = none;
  upload_id = some upload_id;
  interrupted = interrupted;
}

abbrev pub keep : Page → List Watch → Hydrated → Hydrated
keep page watches all = record {
  world = record { page = page; events = all.world.events };
  watches = watches;
}

module _ (net : Net) where
  abbrev pub interrupted_message : UploadPhase → Option String → Message
  interrupted_message phase_staged e = text "Upload staged: re-select the file to verify and finish"
  interrupted_message phase_finalizing e =
      text "Upload staged: re-select the file to verify and finish"
  interrupted_message phase_failed e = reselect_to_retry (finalize_error_message net e)
  interrupted_message phase_uploading e = text "Interrupted: re-select the file to resume"
  interrupted_message phase_completed e = text "Interrupted: re-select the file to resume"
  interrupted_message phase_cancelled e = text "Interrupted: re-select the file to resume"

  abbrev pub save_new_id : Option Transfer → Bool → Page → Page
  save_new_id none fresh page = page
  save_new_id (some task) fresh page = if fresh then persist_upload task page else page

  unfoldable pub show_interrupted :
      PersistedUpload → UploadStatus → UploadPhase → String → Hydrated → Hydrated
  show_interrupted p status phase upload_id all =
      let t =
        row p status upload_id error (some (interrupted_message phase status.job_error)) true in
      let page = register t all.world.page in
      keep (save_new_id (find_task p.id page) (not (str_eq upload_id (bookmark_id p))) page)
        all.watches all

  unfoldable pub show_verifying : PersistedUpload → UploadStatus → String → Hydrated → Hydrated
  show_verifying p status job_id all =
      keep (register (row p status (bookmark_id p) verifying none false) all.world.page)
        (record { id = p.id; job_id = job_id; total_bytes = p.total_bytes } ∷ all.watches) all

  -- After a mismatch of the digests the id on the server is not used again.
  unfoldable pub show_failed : PersistedUpload → UploadStatus → Hydrated → Hydrated
  show_failed p status all =
      if is_checksum net status.job_error
      then (let told = cancelled_on_server (bookmark_id p) ∷ all.world.events in
          show_interrupted p status phase_failed (net.random_id told)
            (record all { world = record { page = all.world.page; events = told } }))
      else show_interrupted p status phase_failed (bookmark_id p) all

  abbrev pub show_finalizing : PersistedUpload → UploadStatus → Option String → Hydrated → Hydrated
  show_finalizing p status none all = show_interrupted p status phase_finalizing (bookmark_id p) all
  show_finalizing p status (some job_id) all = show_verifying p status job_id all

  abbrev pub drop_bookmark : PersistedUpload → Hydrated → Hydrated
  drop_bookmark p all = keep (clear_persisted p.id all.world.page) all.watches all

  abbrev pub show_phase : PersistedUpload → UploadStatus → UploadPhase → Hydrated → Hydrated
  show_phase p status phase_completed all = drop_bookmark p all
  show_phase p status phase_cancelled all = drop_bookmark p all
  show_phase p status phase_finalizing all = show_finalizing p status (nonempty status.job_id) all
  show_phase p status phase_failed all = show_failed p status all
  show_phase p status phase_staged all = show_interrupted p status phase_staged (bookmark_id p) all
  show_phase p status phase_uploading all =
      show_interrupted p status phase_uploading (bookmark_id p) all

  abbrev pub show_answer : PersistedUpload → Option UploadStatus → Hydrated → Hydrated
  show_answer p none all = all
  show_answer p (some status) all =
      if not status.known
      then drop_bookmark p all
      else if any (has_id p.id) all.world.page.tasks
      then all
      else show_phase p status (phase_of p status) all

  -- The body of the loop.
  unfoldable pub hydrate_one : PersistedUpload → Hydrated → Hydrated
  hydrate_one p all =
      let answer = net.status all.world.events (bookmark_id p) in
      let asked = asked_status (bookmark_id p) (staged_chunks answer) ∷ all.world.events in
      show_answer p answer (record all { world = record { page = all.world.page; events = asked } })

  unfoldable pub hydrate_all : List PersistedUpload → Hydrated → Hydrated
  hydrate_all [] all = all
  hydrate_all (p ∷ ps) all = hydrate_all ps (hydrate_one p all)

  unfoldable pub hydrate_interrupted_uploads : World → Hydrated
  hydrate_interrupted_uploads w = hydrate_all w.page.persisted (record { world = w; watches = [] })

  abbrev pub unverified_message : JobStatus → Option String → Message
  unverified_message job_timeout e =
      text "Verification is still in progress: re-select the file to continue"
  unverified_message job_completed e = reselect_to_retry (finalize_error_message net e)
  unverified_message job_failed e = reselect_to_retry (finalize_error_message net e)

  -- `task.interrupted = true`, through the handle that Vue gives out.
  abbrev pub interrupt : String → Page → Page
  interrupt id page =
      if net.assigns then change_task id (λ t. record t { interrupted = true }) page else page

  unfoldable pub not_verified : Transfer → JobStatus → Option String → World → World
  not_verified task status e w =
      let told = cancelled_on_server (upload_id_of task) ∷ w.events in
      let dropped =
        if is_checksum net e
        then record { page = renew net task (net.random_id told) w.page; events = told }
        else w in
      record dropped {
        page =
            set_status task.id error (some (unverified_message status e))
              (interrupt task.id dropped.page);
      }

  abbrev pub watched : String → Option Transfer → JobStatus → Option String → World → World
  watched id none status e w = w
  watched id (some task) job_completed e w = record {
    page = clear_persisted id (set_status id done none w.page);
    events = removal_in 3000 ∷ w.events;
  }
  watched id (some task) job_failed e w = not_verified task job_failed e w
  watched id (some task) job_timeout e w = not_verified task job_timeout e w

  -- The page may have changed before the job's answer: it is that of the world given.
  unfoldable pub monitor_hydrated_finalization : Watch → World → World
  monitor_hydrated_finalization watch w =
      let deadline = finalize_deadline (get_or watch.total_bytes 0) in
      let res = net.poll w.events watch.job_id deadline in
      watched watch.id (find_task watch.id w.page) res.status res.error
        (record w { events = polled watch.job_id deadline ∷ w.events })
