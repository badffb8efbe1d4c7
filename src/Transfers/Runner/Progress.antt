-- ===== src/Transfers/Runner/Progress.antt =====
-- apps/dashboard/src/lib/upload-runner.ts: the progress that the page shows during a run.
mod Sums
mod Shown
mod Finish
use home_server_interface.Base.{
  ℕ, zero, suc, ◌+◌, ◌*◌, ◌-◌, ◌/◌, ◌≤◌, ◌<◌, min, max, ◌==◌, ltb, leb, Bool, true, false, not,
  ◌&&◌, ◌||◌, List, [], ◌∷◌, ◌++◌, map, any, find, filter, mem, take, drop, length, Option, none,
  some, get_or, str_eq, String, if◌then◌else◌, Result, ok, err, Result-cases, Option-cases,
  Bool-cases, ◌≡◌, ◌⊎◌, inl, inr, refl, sym, ap, ◌∙◌, arith, eq_refl, eq_iff, subst,
}
use home_server_interface.Transfers.{
  Transfer, File, size, Page, TransferStatus, set_abort_controller, find_task, has_id, change_first,
  change_task, uploading, verifying, done, error, cancelled, persist_upload, clear_persisted,
  register, set_status, update_progress, reset_progress, cleanup, PersistedUpload, entry_of,
  put_entry, is_entry, new_error, Message, without,
}
use home_server_interface.Transfers.Runner.{
  throw, on_page, note, ask, verify, complete, send_file, start_over, with_id, Act, World, Event,
  Failure, abort, failed, Net, asked_status, cancelled_on_server, waited, posted, slept,
  asked_completion, polled, told_done, removal_in, told_different, ChunkAnswer, accepted, refused,
  unreadable, network_error, stopped, JobStatus, job_completed, job_failed, job_timeout,
  CompletionAnswer, job, not_accepted, broken, completion_stopped, bind_answer, ◌>>=◌, ◌>>◌, return,
  wait_while_paused_or_aborted, backoff, after_post, post_chunk, check_abort, max_attempts,
  send_chunk, send_chunk_with_retry, send_chunks, part, mem_ℕ, start_over, is_checksum, finish,
  finalizing_job, complete_upload, upload_body, run_upload, settle, upload_id_of, total_chunks_of,
  chunk_byte_length, count_staged, chunks_of, ceil_div, fetch_staged_chunks, staged_chunks,
  show_staged, as_set, chunk_size, release, renew, finalize_deadline, is_accepted,
  finalize_error_message, UploadStatus,
}
use home_server_interface.Transfers.Pages.{find-change_first}
use home_server_interface.Transfers.Runner.Keeps.{
  Keeps, bind_answer-Keeps, send_chunk-Keeps, wait-Keeps,
}
use Shown.{
  Reads, ReadsAs, update_progress-Reads, reset_progress-Reads, set_status-ReadsAs, set_status-Reads,
  renew-Reads,
}
use Finish.{
  Within, All, Full, Outcome, bind_answer-Outcome, Outcome_of, Full-Within, complete-Outcome,
}
use Sums.{
  sum_to, sum_to-one, sum_to-size, counted_at, counted_at-le, counted_at-end, counted_at-skip,
  counted_at-send, IsDistinct, as_set-IsDistinct, count_staged-counted_at, count_staged-none,
}

staged_chunks-IsDistinct : (status : Option UploadStatus) → IsDistinct (staged_chunks status)
staged_chunks-IsDistinct none = tt
staged_chunks-IsDistinct (some status) = elim (Bool-cases status.known) [
  | inl e1 ↦ rw e1 (as_set-IsDistinct status.staged)
  | inr e1 ↦ rw e1 tt
]

module _ (net : Net) (t : Transfer) (file : File) where
  module _ (staged : List ℕ) (same : total_chunks_of t file ≡ chunks_of file) where
    abbrev chunks_at : ℕ → ℕ
    chunks_at i = counted_at (λ j. 1) staged i (total_chunks_of t file)

    abbrev bytes_at : ℕ → ℕ
    bytes_at i = counted_at (chunk_byte_length file) staged i (total_chunks_of t file)

    -- The progress when the loop has come to chunk i.
    abbrev At : ℕ → World → Type 0
    At i w = Reads t.id (chunks_at i) (bytes_at i) w.page

    size_in_chunks : sum_to (total_chunks_of t file) (chunk_byte_length file) ≡ size file
    size_in_chunks = ap (λ n. sum_to n (chunk_byte_length file)) same ∙ sum_to-size file

    At-Within : (i : ℕ) (w : World) → At i w → (Within net t file) w.page
    At-Within i w at = (
      chunks_at i,
      bytes_at i,
      omega (
        arith,
        counted_at-le (λ j. 1) staged i (total_chunks_of t file),
        sum_to-one (total_chunks_of t file),
      ),
      omega (
        arith,
        counted_at-le (chunk_byte_length file) staged i (total_chunks_of t file),
        size_in_chunks,
      ),
      at,
    )

    reading :
        (chunks chunks' bytes bytes' : ℕ) (page : Page)
        → chunks ≡ chunks'
        → bytes ≡ bytes'
        → Reads t.id chunks bytes page
        → Reads t.id chunks' bytes' page
    reading chunks chunks' bytes bytes' page e e' (task, found, c, b) =
        (task, found, c ∙ ap some e, b ∙ ap some e')

    At-Full : (w : World) → At (total_chunks_of t file) w → (Full net t file) w
    At-Full w at =
        reading _ _ _ _ w.page
          (counted_at-end (λ j. 1) staged (total_chunks_of t file) _ (omega arith)
            ∙ sum_to-one (total_chunks_of t file))
          (counted_at-end (chunk_byte_length file) staged (total_chunks_of t file) _ (omega arith)
            ∙ size_in_chunks)
          at

    sent-Outcome :
        (i : ℕ) (w : World)
        → At i w
        → (let ran = send_chunk_with_retry net (upload_id_of t) i (part file i) w in
            (Outcome net t file) (At i) ran.0 ran.1)
    unfolding send_chunk_with_retry
    sent-Outcome i w at =
        let ran = send_chunk net max_attempts 1 (upload_id_of t) i (part file i) w in
        Outcome_of net t file (At i) ran.0 ran.1
          (send_chunk-Keeps (At i) (λ e v quiet p. p) net max_attempts 1 (upload_id_of t) i
            (part file i) w at)
          (At-Within i ran.1)

    sent-At :
        (i : ℕ) (w : World)
        → i < total_chunks_of t file
        → mem_ℕ i staged ≡ false
        → At i w
        → At (i + 1) (record w {
          page = update_progress t.id (chunks_at i + 1) (chunk_byte_length file i) w.page;
        })
    sent-At i w inside fresh at =
        reading (chunks_at i + 1) (chunks_at (i + 1)) (bytes_at i + chunk_byte_length file i)
          (bytes_at (i + 1))
          (update_progress t.id (chunks_at i + 1) (chunk_byte_length file i) w.page)
          (sym (counted_at-send (λ j. 1) staged i (total_chunks_of t file) inside fresh))
          (sym (
            counted_at-send (chunk_byte_length file) staged i (total_chunks_of t file) inside
              fresh))
          (update_progress-Reads t.id (chunks_at i + 1) (chunk_byte_length file i) (chunks_at i)
            (bytes_at i) w.page at)

    skipped-At :
        (i : ℕ) (w : World)
        → i < total_chunks_of t file
        → mem_ℕ i staged ≡ true
        → At i w
        → At (i + 1) w
    skipped-At i w inside known at =
        reading (chunks_at i) (chunks_at (i + 1)) (bytes_at i) (bytes_at (i + 1)) w.page
          (sym (counted_at-skip (λ j. 1) staged i (total_chunks_of t file) inside known))
          (sym (
            counted_at-skip (chunk_byte_length file) staged i (total_chunks_of t file) inside
              known))
          at

    send_chunks-Outcome :
        (left i sent : ℕ) (hashed : List ℕ) (w : World)
        → i + left ≡ total_chunks_of t file
        → sent ≡ chunks_at i
        → At i w
        → (let ran = send_chunks net t.id (upload_id_of t) file staged left i sent hashed w in
            (Outcome net t file) (Full net t file) ran.0 ran.1)
    unfolding send_chunks
    send_chunks-Outcome zero i sent hashed w rest e at =
        At-Full w (subst (λ n. At n w) {x = i} {y = total_chunks_of t file} (omega arith) at)
    send_chunks-Outcome (suc left) i sent hashed w rest e at =
        let now = hashed ++ part file i in
        let skipped = send_chunks net t.id (upload_id_of t) file staged left (i + 1) sent now in
        let sent_on =
          on_page (update_progress t.id (sent + 1) (chunk_byte_length file i))
          >> send_chunks net t.id (upload_id_of t) file staged left (i + 1) (sent + 1) now in
        let waited_for = wait_while_paused_or_aborted net w in
        let kept = wait-Keeps (At i) (λ e v quiet p. p) net w at in
        bind_answer-Outcome net t file (Full net t file) (At i) waited_for.0
          (λ u.
            if mem_ℕ i staged
            then skipped
            else send_chunk_with_retry net (upload_id_of t) i (part file i) >> sent_on)
          waited_for.1
          (Outcome_of net t file (At i) waited_for.0 waited_for.1 kept (At-Within i waited_for.1))
          (λ u at. elim (Bool-cases (mem_ℕ i staged)) [
            | inl e1 ↦ rw e1 (
                send_chunks-Outcome left (i + 1) sent now waited_for.1 (omega arith)
                  (e
                    ∙ sym (
                        counted_at-skip (λ j. 1) staged i (total_chunks_of t file) (omega arith)
                          e1))
                  (skipped-At i waited_for.1 (omega arith) e1 at))
            | inr e1 ↦ rw e1 (
                let ran = send_chunk_with_retry net (upload_id_of t) i (part file i) waited_for.1 in
                bind_answer-Outcome net t file (Full net t file) (At i) ran.0 (λ u. sent_on) ran.1
                  (sent-Outcome i waited_for.1 at)
                  (λ u at.
                    send_chunks-Outcome left (i + 1) (sent + 1) now _ (omega arith)
                      (omega (
                        arith,
                        e,
                        counted_at-send (λ j. 1) staged i (total_chunks_of t file) (omega arith) e1,
                      ))
                      (subst
                        (λ n. At (i + 1) (record ran.1 {
                          page = update_progress t.id (n + 1) (chunk_byte_length file i) ran.1.page;
                        }))
                        (sym e) (sent-At i ran.1 (omega arith) e1 at))))
          ])

    sent_file-Outcome :
        (counted : ℕ) (w : World)
        → counted ≡ chunks_at 0
        → At 0 w
        → (let all =
              send_chunks net t.id
                (upload_id_of t)
                file
                staged
                (total_chunks_of t file)
                0
                counted
                []
              >>= complete net t file in
            (Outcome net t file) (All net t file) (all w).0 (all w).1)
    sent_file-Outcome counted w e at =
        let ran =
          send_chunks net t.id (upload_id_of t) file staged (total_chunks_of t file) 0 counted []
            w in
        bind_answer-Outcome net t file (All net t file) (Full net t file) ran.0
          (complete net t file) ran.1
          (send_chunks-Outcome (total_chunks_of t file) 0 counted [] w (omega arith) e at)
          (λ hashed full. complete-Outcome net t file hashed ran.1 full)

    send_file-Outcome :
        (w : World)
        → IsDistinct staged
        → Reads t.id 0 0 w.page
        → (Outcome net t file)
            (All net t file)
            (send_file net t file staged w).0
            (send_file net t file staged w).1
    send_file-Outcome w distinct start =
        let total = total_chunks_of t file in
        let counted = count_staged file total staged in
        let exact = count_staged-counted_at file total staged distinct in
        elim (Bool-cases (ltb 0 counted.0)) [
          | inl e1 ↦ rw e1 (
              sent_file-Outcome counted.0
                (record w { page = update_progress t.id counted.0 counted.1 w.page }) exact.0
                (reading counted.0 (chunks_at 0) (0 + counted.1) (bytes_at 0)
                  (update_progress t.id counted.0 counted.1 w.page) exact.0 (omega (arith, exact.1))
                  (update_progress-Reads t.id counted.0 counted.1 0 0 w.page start)))
          | inr e1 ↦ rw e1 (
              sent_file-Outcome counted.0 w exact.0 (
                reading 0 (chunks_at 0) 0 (bytes_at 0) w.page (ground (arith, e1, exact.0))
                  (omega (arith, exact.1, count_staged-none file total staged (ground (arith, e1))))
                  start))
        ]

  -- A finished run shows all of the file, and no other end of it more than all.
  abbrev pub EndsWithin : Page → Type 0
  EndsWithin page =
      ReadsAs t.id done (total_chunks_of t file) (size file) page
      ⊎ ((status : TransferStatus) × (chunks : ℕ) × (bytes : ℕ) × ((status ≡ cancelled)
            ⊎ (status ≡ error))
          × (chunks ≤ total_chunks_of t file)
          × (bytes ≤ size file)
          × ReadsAs t.id status chunks bytes page)

  settle-EndsWithin :
      (r : Result Failure (Unit {0})) (w : World)
      → (Outcome net t file) (All net t file) r w
      → EndsWithin (release net t.id (settle net t r w)).page
  unfolding cleanup clear_persisted
  settle-EndsWithin (ok u) w all = inl all
  settle-EndsWithin (err abort) w (chunks, bytes, c, b, reads) = inr (
    cancelled,
    chunks,
    bytes,
    inl refl,
    c,
    b,
    set_status-ReadsAs t.id cancelled none chunks bytes w.page reads,
  )
  settle-EndsWithin (err (failed message)) w (chunks, bytes, c, b, reads) = inr (
    error,
    chunks,
    bytes,
    inr refl,
    c,
    b,
    set_status-ReadsAs t.id error (some message) chunks bytes w.page reads,
  )

-- A run on a transfer that the page shows, with the file's number of chunks, ends done with all chunks and
-- all bytes of the file shown as sent, or cancelled or failed with no more than all of them, whatever
-- chunks the server reports as staged.
pub run_upload-EndsWithin :
    (net : Net) (t task : Transfer) (file : File) (w : World)
    → total_chunks_of t file ≡ chunks_of file
    → find_task t.id w.page ≡ some task
    → EndsWithin net t file (run_upload net t file w).page
unfolding run_upload upload_body fetch_staged_chunks set_abort_controller
run_upload-EndsWithin net t task file w same found =
    let page = set_abort_controller t.id w.page in
    let status = net.status w.events (upload_id_of t) in
    let staged = staged_chunks status in
    let start : World = record {
      page = reset_progress t.id page;
      events = asked_status (upload_id_of t) staged ∷ w.events;
    } in
    let ran = send_file net t file staged start in
    settle-EndsWithin net t file ran.0 ran.1 (
      send_file-Outcome net t file staged same start (staged_chunks-IsDistinct status)
        (reset_progress-Reads t.id page task found))
