-- ===== src/Transfers/Tests.antt =====
-- apps/dashboard/src/lib/uploads.ts and upload-runner.ts: runs on small inputs.
use home_server_interface.Base.{
  Bool, true, false, List, [], ◌∷◌, Option, none, some, String, ◌≡◌, refl, ◌≤◌, str_eq,
  if◌then◌else◌, ltb, not, ◌&&◌,
}
use home_server_interface.Transfers.{File, Transfer, Page, entry_of, copy, find_task}
use home_server_interface.Transfers.Runner.{
  Net, Event, World, accepted, network_error, job, job_completed, new_transfer, run_upload,
  total_chunks_of, chunks_of, staged_chunks, mem_ℕ, slept,
}
use home_server_interface.Transfers.Runner.Completion.{IsSafe}
use home_server_interface.Transfers.Runner.Completion.Requests.{run_upload-IsSafe}
use home_server_interface.Transfers.Runner.Attempts.{posts, posts-run_upload}
use home_server_interface.Transfers.Runner.Ends.{IsSettled, run_upload-IsSettled}
use home_server_interface.Transfers.Runner.Progress.{EndsWithin, run_upload-EndsWithin}
use home_server_interface.Transfers.Hydration.{hydrate_interrupted_uploads}
use home_server_interface.Transfers.Hydration.Rows.{Extends, hydrate_interrupted_uploads-Extends}
use home_server_interface.Transfers.Batches.{Tray, track_transfer, run_transfer}
use home_server_interface.Transfers.Batches.Runs.{
  Shows, count_failing, first_message, run_transfer-track_transfer,
}

abbrev photo : File
photo = record { name = "photo.jpg"; bytes = 255 ∷ 216 ∷ [] }

abbrev has_slept : List Event → Bool
has_slept [] = false
has_slept (slept ms ∷ h) = true
has_slept (e ∷ h) = has_slept h

-- A network that breaks once and then takes every chunk.
abbrev unsteady : Net
unsteady = record {
  aborted = λ h. false;
  status = λ h id. none;
  post = λ h id i body. if has_slept h then accepted else network_error "offline";
  complete = λ h id sha. job "finalize";
  poll = λ h id deadline. record { status = job_completed; error = none };
  random_id = λ h. "fresh";
  sha256 = λ bytes. "digest";
  says_checksum = λ e. false;
  assigns = false;
}

abbrev photo_transfer : Transfer
photo_transfer = new_transfer unsteady photo "/pictures" "u1"

abbrev tray_page : Page
tray_page = record {
  tasks = photo_transfer ∷ [];
  paused_ids = [];
  controllers = [];
  persisted = entry_of photo_transfer ∷ [];
}

abbrev here : World
here = record { page = tray_page; events = [] }

photo_chunks : total_chunks_of photo_transfer photo ≡ chunks_of photo
unfolding total_chunks_of
photo_chunks = refl

run_upload-IsSafe_example :
    IsSafe unsteady photo_transfer photo (run_upload unsteady photo_transfer photo here).events
run_upload-IsSafe_example = run_upload-IsSafe unsteady photo_transfer photo tray_page photo_chunks

posts-run_upload_example : posts 0 (run_upload unsteady photo_transfer photo here).events ≤ (
    if ltb 0 (total_chunks_of photo_transfer photo)
      && not (mem_ℕ 0 (staged_chunks (unsteady.status [] "u1")))
    then 5
    else 0)
posts-run_upload_example = posts-run_upload unsteady photo_transfer photo tray_page 0

run_upload-IsSettled_example : IsSettled "u1" (run_upload unsteady photo_transfer photo here).page
run_upload-IsSettled_example =
    run_upload-IsSettled unsteady photo_transfer photo here ((photo_transfer, refl), refl)

run_upload-EndsWithin_example :
    EndsWithin unsteady photo_transfer photo (run_upload unsteady photo_transfer photo here).page
run_upload-EndsWithin_example =
    run_upload-EndsWithin unsteady photo_transfer photo_transfer photo here photo_chunks refl

hydrate_interrupted_uploads-Extends_example :
    Extends (photo_transfer ∷ []) (hydrate_interrupted_uploads unsteady here)
hydrate_interrupted_uploads-Extends_example =
    hydrate_interrupted_uploads-Extends unsteady here (refl, tt)

-- Operations named by their item, of which the one on the locked item fails at first.
abbrev locked : String → Option String
locked item = if str_eq item "locked" then some "EACCES" else none

abbrev unlocked : String → Option String
unlocked item = none

abbrev items : List String
items = "notes" ∷ "locked" ∷ []

abbrev empty_tray : Tray String
empty_tray = record {
  page = record { tasks = []; paused_ids = []; controllers = []; persisted = [] };
  specs = [];
}

run_transfer-track_transfer_example :
    (let tracked = track_transfer String "b1" copy "2 items" "/backup" items locked empty_tray in
      ((task : Transfer) × (find_task "b1" tracked.page ≡ some task)
        × Shows String copy "2 items" "/backup" items
            (count_failing String locked items)
            (first_message String locked items)
            task)
      × ((task : Transfer) × (find_task "b1" (run_transfer String "b1" unlocked tracked).page
            ≡ some task)
          × Shows String copy "2 items" "/backup" items
              (count_failing String unlocked items)
              (first_message String unlocked items)
              task))
run_transfer-track_transfer_example =
    run_transfer-track_transfer String "b1" copy "2 items" "/backup" items locked unlocked
      empty_tray refl
