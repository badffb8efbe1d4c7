-- ===== src/Transfers/Runner.antt =====
-- apps/dashboard/src/lib/upload-runner.ts: an upload in chunks, with retries, from the first chunk
-- to the verified file. What the network answers, and whether the user has aborted, is any function of
-- what happened before; nothing else acts on the upload's transfer in between.
mod Network
pub mod Bytes
pub mod Keeps
pub mod Completion
pub mod Attempts
pub mod Progress
pub mod Ends
use Prim.Native.String.{String}
use Prim.Native.Nat.{◌^◌}
pub use Network.*
use home_server_interface.Base.{
  ℕ, zero, suc, ◌+◌, ◌-◌, ◌*◌, ◌/◌, ◌==◌, ltb, leb, min, max, Bool, true, false, not, ◌&&◌, List,
  [], ◌∷◌, ◌++◌, take, drop, any, length, Option, none, some, get_or, str_eq, if◌then◌else◌, Result,
  ok, err, ◌||◌,
}
use home_server_interface.Transfers.{
  Transfer, File, size, Page, Message, TransferStatus, text, upload_http, not_finalized_http,
  upload, uploading, verifying, error, done, cancelled, find_task, change_task, persist_upload,
  clear_persisted, register, set_status, attach_file, update_progress, reset_progress,
  set_abort_controller, cleanup,
}

unfoldable pub chunk_size : ℕ
chunk_size = 2 * 1024 * 1024

abbrev pub max_attempts : ℕ
max_attempts = 5

abbrev pub ceil_div : ℕ → ℕ → ℕ
ceil_div a b = (a + (b - 1)) / b

abbrev pub part : File → ℕ → List ℕ
part file i = take chunk_size (drop (i * chunk_size) file.bytes)

-- For a chunk of the file; beyond its end the code would count less than nothing.
unfoldable pub chunk_byte_length : File → ℕ → ℕ
chunk_byte_length file index = min chunk_size (size file - index * chunk_size)

abbrev pub mem_ℕ : ℕ → List ℕ → Bool
mem_ℕ i is = any (λ j. j == i) is

-- `new Set(…)` of numbers, as a list without repetition.
unfoldable pub as_set : List ℕ → List ℕ
as_set [] = []
as_set (i ∷ is) = let rest = as_set is in if mem_ℕ i rest then rest else i ∷ rest

abbrev pub is_accepted : ChunkAnswer → Bool
is_accepted accepted = true
is_accepted (network_error e) = false
is_accepted (refused status body) = false
is_accepted (unreadable e) = false
is_accepted stopped = false

abbrev pub body_or : String → Message → Message
body_or body message = if str_eq body "" then message else text body

abbrev pub staged_chunks : Option UploadStatus → List ℕ
staged_chunks none = []
staged_chunks (some status) = if status.known then as_set status.staged else []

-- How many of the staged chunks count, and their bytes.
unfoldable pub count_staged : File → ℕ → List ℕ → ℕ × ℕ
count_staged file total [] = (0, 0)
count_staged file total (i ∷ is) =
    let rest = count_staged file total is in
    if leb total i then rest else (rest.0 + 1, rest.1 + chunk_byte_length file i)

abbrev pub upload_id_of : Transfer → String
upload_id_of t = get_or t.upload_id t.id

abbrev pub chunks_of : File → ℕ
chunks_of file = max 1 (ceil_div (size file) chunk_size)

unfoldable pub total_chunks_of : Transfer → File → ℕ
total_chunks_of t file = get_or t.total_chunks (chunks_of file)

-- The deadline of the verification, at 10 MB in a second.
unfoldable pub finalize_deadline : ℕ → ℕ
finalize_deadline bytes = 60000 + ceil_div bytes (10 * 1024 * 1024) * 1000

abbrev pub with_id : String → Transfer → Transfer
with_id fresh t = record t { upload_id = some fresh }

module _ (net : Net) where
  -- `t.uploadId = …` and `persistUpload(t)`, where t is a handle of the first transfer with its id.
  unfoldable pub renew : Transfer → String → Page → Page
  renew t fresh page =
      if net.assigns
      then (let renamed = change_task t.id (with_id fresh) page in
          persist_upload (get_or (find_task t.id renamed) (with_id fresh t)) renamed)
      else persist_upload (get_or (find_task t.id page) t) page

  abbrev pub check_abort : Act (Unit {0})
  check_abort w = (if net.aborted w.events then err abort else ok tt, w)

  -- The user may pause for any time, and abort meanwhile.
  unfoldable pub wait_while_paused_or_aborted : Act (Unit {0})
  wait_while_paused_or_aborted = note waited >> check_abort

  unfoldable pub backoff : ℕ → Act (Unit {0})
  backoff attempt = note (slept (min 16000 (1000 * 2 ^ (attempt - 1)))) >> check_abort

  unfoldable pub fetch_staged_chunks : String → Act (List ℕ)
  fetch_staged_chunks upload_id = do
    status ← ask (λ h. net.status h upload_id) (λ s. asked_status upload_id (staged_chunks s))
    return (staged_chunks status)

  abbrev pub post_chunk : String → ℕ → List ℕ → Act ChunkAnswer
  post_chunk upload_id index body =
      ask (λ h. net.post h upload_id index body)
        (λ answer. posted upload_id index body (is_accepted answer))

  -- What an attempt makes of the answer to it, with what is left to do to try again.
  abbrev pub after_post : ChunkAnswer → ℕ → Act (Unit {0}) → Act (Unit {0})
  after_post accepted attempt again = return tt
  after_post (network_error e) attempt again =
      check_abort >> (if attempt == max_attempts then throw (failed (text e)) else again)
  after_post (refused status reply) attempt again =
      if ltb status 500 || attempt == max_attempts
      then throw (failed (body_or reply (upload_http status)))
      else again
  after_post (unreadable e) attempt again = throw (failed (text e))
  after_post stopped attempt again = throw abort

  -- The attempts that are left, the next of them with its number.
  unfoldable pub send_chunk : ℕ → ℕ → String → ℕ → List ℕ → Act (Unit {0})
  send_chunk zero attempt upload_id index body =
      throw (failed (text "Upload failed: exhausted retries"))
  send_chunk (suc left) attempt upload_id index body = do
    wait_while_paused_or_aborted
    answer ← post_chunk upload_id index body
    after_post answer attempt
        (backoff attempt >> send_chunk left (attempt + 1) upload_id index body)

  unfoldable pub send_chunk_with_retry : String → ℕ → List ℕ → Act (Unit {0})
  send_chunk_with_retry upload_id index body = send_chunk max_attempts 1 upload_id index body

  -- The loop over the chunks that are left, from number i; it returns the bytes hashed.
  unfoldable pub send_chunks : String → String → File → List ℕ → ℕ → ℕ → ℕ → List ℕ → Act (List ℕ)
  send_chunks id upload_id file staged zero i sent hashed = return hashed
  send_chunks id upload_id file staged (suc left) i sent hashed = do
    wait_while_paused_or_aborted
    let now = hashed ++ part file i
    if mem_ℕ i staged then send_chunks id upload_id file staged left (i + 1) sent now else (do
      send_chunk_with_retry upload_id i (part file i)
      on_page (update_progress id (sent + 1) (chunk_byte_length file i))
      send_chunks id upload_id file staged left (i + 1) (sent + 1) now)

  abbrev pub finalizing_job : CompletionAnswer → Act String
  finalizing_job (job id) = return id
  finalizing_job (not_accepted status body) =
      throw (failed (body_or body (not_finalized_http status)))
  finalizing_job (broken e) = throw (failed (text e))
  finalizing_job completion_stopped = throw abort

  unfoldable pub complete_upload : String → String → Act String
  complete_upload upload_id sha =
      ask (λ h. net.complete h upload_id sha) (λ answer. asked_completion upload_id sha)
      >>= finalizing_job

  abbrev pub is_checksum : Option String → Bool
  is_checksum none = false
  is_checksum (some e) = not (str_eq e "") && net.says_checksum e

  unfoldable pub finalize_error_message : Option String → Message
  finalize_error_message none = text "Failed to finalize the file on the server"
  finalize_error_message (some e) =
      if is_checksum (some e)
      then text "File corrupted during transfer, please retry"
      else body_or e (text "Failed to finalize the file on the server")

  -- After a mismatch of the digests, the server's state is dropped and its id is not used again.
  abbrev pub start_over : Transfer → String → Option String → Act (Unit {0})
  start_over t upload_id e =
      if is_checksum e
      then note (cancelled_on_server upload_id)
        >> (λ w. on_page (renew t (net.random_id w.events)) w)
      else return tt

  unfoldable pub finish : Transfer → String → JobStatus → Option String → Act (Unit {0})
  finish t upload_id job_completed e =
      on_page (set_status t.id done none)
      >> on_page (clear_persisted t.id)
      >> (note told_done >> note (removal_in 3000))
  finish t upload_id job_failed e =
      start_over t upload_id e >> throw (failed (finalize_error_message e))
  finish t upload_id job_timeout e =
      start_over t upload_id e >> throw (failed (finalize_error_message e))

  abbrev pub show_staged : String → ℕ × ℕ → Act (Unit {0})
  show_staged id counted =
      if ltb 0 counted.0 then on_page (update_progress id counted.0 counted.1) else return tt

  -- The server checks the file, and the code waits for its answer.
  abbrev pub verify : Transfer → File → String → Act (Unit {0})
  verify t file finalizing = do
    on_page (set_status t.id verifying none)
    res ←
        ask (λ h. net.poll h finalizing (finalize_deadline (size file)))
          (λ r. polled finalizing (finalize_deadline (size file)))
    finish t (upload_id_of t) res.status res.error

  abbrev pub complete : Transfer → File → List ℕ → Act (Unit {0})
  complete t file hashed = complete_upload (upload_id_of t) (net.sha256 hashed) >>= verify t file

  abbrev pub send_file : Transfer → File → List ℕ → Act (Unit {0})
  send_file t file staged = do
    show_staged t.id (count_staged file (total_chunks_of t file) staged)
    hashed ←
        send_chunks t.id (upload_id_of t) file staged (total_chunks_of t file) 0
          (count_staged file (total_chunks_of t file) staged).0 []
    complete t file hashed

  -- The body of the `try`.
  unfoldable pub upload_body : Transfer → File → Act (Unit {0})
  upload_body t file = do
    on_page (reset_progress t.id)
    staged ← fetch_staged_chunks (upload_id_of t)
    send_file t file staged

  -- The `catch`.
  abbrev pub settle : Transfer → Result Failure (Unit {0}) → World → World
  settle t (ok u) w = w
  settle t (err abort) w = record {
    page = clear_persisted t.id (set_status t.id cancelled none w.page);
    events = removal_in 2500 ∷ cancelled_on_server (upload_id_of t) ∷ w.events;
  }
  settle t (err (failed message)) w = record w {
    page = set_status t.id error (some message) w.page;
  }

  abbrev pub release : String → World → World
  release id w = record w { page = cleanup id w.page }

  unfoldable pub run_upload : Transfer → File → World → World
  run_upload t file w =
      let ran = upload_body t file (record w { page = set_abort_controller t.id w.page }) in
      release t.id (settle t ran.0 ran.1)

  abbrev pub new_transfer : File → String → String → Transfer
  new_transfer file dest_dir id = record {
    id = id;
    kind = upload;
    name = file.name;
    dest_dir = dest_dir;
    status = uploading;
    error = none;
    total_bytes = some (size file);
    sent_bytes = some 0;
    total_chunks = some (chunks_of file);
    sent_chunks = some 0;
    file = some file;
    upload_id = some id;
    interrupted = false;
  }

  abbrev pub run_found : Option Transfer → (Transfer → World → World) → World → World
  run_found none run w = w
  run_found (some t) run w = run t w

  unfoldable pub start_upload : File → String → World → World
  start_upload file dest_dir w =
      let id = net.random_id w.events in
      let there = record w { page = register (new_transfer file dest_dir id) w.page } in
      run_found (find_task id there.page)
        (λ t v. run_upload t file (record v { page = persist_upload t v.page })) there

  unfoldable pub resume_upload : String → File → World → World
  resume_upload id file w =
      run_found (find_task id w.page)
        (λ t v.
          run_upload (record t { status = uploading }) file
            (record v { page = set_status id uploading none v.page }))
        w

  abbrev pub same_size : Option ℕ → ℕ → Bool
  same_size none n = false
  same_size (some m) n = m == n

  unfoldable pub resume_by_reselect : String → File → World → World
  resume_by_reselect id file w =
      run_found (find_task id w.page)
        (λ t v.
          if not (str_eq file.name t.name) || not (same_size t.total_bytes (size file))
          then record {
            page =
                set_status id error (some (text "Different file, please select the same file"))
                  v.page;
            events = told_different ∷ v.events;
          }
          else resume_upload id file (record v { page = attach_file id file v.page }))
        w

  abbrev pub resume_with : String → Option File → World → World
  resume_with id none w = w
  resume_with id (some file) w = resume_upload id file w

  -- The retry handler of uploads: a transfer without its file waits for the user to select it again.
  unfoldable pub retry_upload : String → World → World
  retry_upload id w = run_found (find_task id w.page) (λ t v. resume_with id t.file v) w
