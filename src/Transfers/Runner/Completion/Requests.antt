-- ===== src/Transfers/Runner/Completion/Requests.antt =====
-- apps/dashboard/src/lib/upload-runner.ts: a whole run asks for completion when the file is there.
use home_server_interface.Base.{
  ℕ, zero, suc, ◌+◌, ltb, List, [], ◌∷◌, ◌++◌, String, if◌then◌else◌, Result, ok, err, Bool-cases,
  ◌≡◌, inl, inr, refl, ap, ◌∙◌, arith, subst,
}
use home_server_interface.Transfers.{
  Transfer, File, Page, set_abort_controller, update_progress, reset_progress,
}
use home_server_interface.Transfers.Runner.{
  Act, World, Event, Failure, abort, failed, Net, asked_status, asked_completion, CompletionAnswer,
  job, not_accepted, broken, completion_stopped, bind_answer, ◌>>=◌, ◌>>◌,
  wait_while_paused_or_aborted, max_attempts, send_chunk, send_chunk_with_retry, send_chunks, part,
  mem_ℕ, finalizing_job, complete_upload, upload_body, run_upload, settle, upload_id_of,
  total_chunks_of, chunk_byte_length, count_staged, chunks_of, fetch_staged_chunks, staged_chunks,
  complete,
}
use home_server_interface.Transfers.Runner.Keeps.{
  Keeps, InHistory, >>=-Keeps, send_chunk-Keeps, finish-Keeps, wait-Keeps,
}
use home_server_interface.Transfers.Runner.Bytes.{parts, parts-eq-bytes}
use home_server_interface.Transfers.Runner.Completion.{
  Outcome, Outcome_of, bind_answer-Outcome, Outcome_both, SoFar, SoFar-Grows, IsSafe, IsSafe-Grows,
  next-SoFar, send_chunk-Arrived, Arrived, was_staged,
}
use home_server_interface.Transfers.Runner.{on_page, verify, send_file, World}

module _ (net : Net) (t : Transfer) (file : File) where
  abbrev Safe : List Event → Type 0
  Safe = IsSafe net t file

  -- What the loop returns up to chunk i: the bytes hashed are the file's.
  abbrev Hashed : List ℕ → ℕ → List ℕ → List Event → Type 0
  Hashed staged i hashed h = (hashed ≡ parts file i) × SoFar net t file staged i h

  sent-Outcome :
      (staged : List ℕ) (i : ℕ) (w : World)
      → SoFar net t file staged i w.events
      → Outcome
          (λ u h. SoFar net t file staged (i + 1) h)
          Safe
          (send_chunk_with_retry net (upload_id_of t) i (part file i) w).0
          (send_chunk_with_retry net (upload_id_of t) i (part file i) w).1.events
  unfolding send_chunk_with_retry
  sent-Outcome staged i w so_far =
      let P = SoFar net t file staged i in
      let ran = send_chunk net max_attempts 1 (upload_id_of t) i (part file i) w in
      advance ran.0 ran.1.events (
        Outcome_both (λ u h. Arrived file (upload_id_of t) i h) P Safe ran.0 ran.1.events
          (send_chunk-Arrived net file (upload_id_of t) max_attempts 1 i w)
          (send_chunk-Keeps (InHistory P) (SoFar-Grows net t file staged i) net max_attempts 1
            (upload_id_of t) i (part file i) w so_far)
          (λ k. k.2))
    where
      advance :
          (r : Result Failure (Unit {0})) (h : List Event)
          → Outcome
              (λ u h. Arrived file (upload_id_of t) i h × SoFar net t file staged i h)
              Safe
              r
              h
          → Outcome (λ u h. SoFar net t file staged (i + 1) h) Safe r h
      advance (ok u) h (arrived, known) = next-SoFar net t file staged i h known arrived
      advance (err e) h safe = safe

  chunk-Outcome :
      (staged : List ℕ) (i : ℕ) (Q : List ℕ → List Event → Type 0) (skipped sent_on : Act (List ℕ))
      (w : World)
      → SoFar net t file staged i w.events
      → ((v : World)
          → SoFar net t file staged (i + 1) v.events
          → Outcome Q Safe (skipped v).0 (skipped v).1.events)
      → ((v : World)
          → SoFar net t file staged (i + 1) v.events
          → Outcome Q Safe (sent_on v).0 (sent_on v).1.events)
      → (let next =
            if mem_ℕ i staged
            then skipped
            else send_chunk_with_retry net (upload_id_of t) i (part file i) >> sent_on in
          Outcome Q Safe (next w).0 (next w).1.events)
  chunk-Outcome staged i Q skipped sent_on w so_far k l = elim (Bool-cases (mem_ℕ i staged)) [
    | inl e1 ↦ rw e1 (k w (next-SoFar net t file staged i w.events so_far (so_far.0 i e1)))
    | inr e1 ↦ rw e1 (
        let ran = send_chunk_with_retry net (upload_id_of t) i (part file i) w in
        bind_answer-Outcome Q (λ u h. SoFar net t file staged (i + 1) h) Safe ran.0 (λ u. sent_on)
          ran.1 (sent-Outcome staged i w so_far) (λ u. l ran.1))
  ]

  send_chunks-Outcome :
      (id : String) (staged : List ℕ) (left i sent : ℕ) (hashed : List ℕ) (w : World)
      → hashed ≡ parts file i
      → SoFar net t file staged i w.events
      → Outcome
          (Hashed staged (i + left))
          Safe
          (send_chunks net id (upload_id_of t) file staged left i sent hashed w).0
          (send_chunks net id (upload_id_of t) file staged left i sent hashed w).1.events
  unfolding send_chunks
  send_chunks-Outcome id staged zero i sent hashed w e so_far =
      subst (λ n. Hashed staged n hashed w.events) {x = i} {y = i + 0} (omega arith) (e, so_far)
  send_chunks-Outcome id staged (suc left) i sent hashed w e so_far =
      let now = hashed ++ part file i in
      let skipped = send_chunks net id (upload_id_of t) file staged left (i + 1) sent now in
      let sent_on =
        on_page (update_progress id (sent + 1) (chunk_byte_length file i))
        >> send_chunks net id (upload_id_of t) file staged left (i + 1) (sent + 1) now in
      let waited_for = wait_while_paused_or_aborted net w in
      let Q = Hashed staged (i + suc left) in
      let same : now ≡ parts file (i + 1) =
        ap (λ bytes. bytes ++ part file i) e
        ∙ ap (parts file) {x = suc i} {y = i + 1} (omega arith) in
      bind_answer-Outcome Q (λ u h. SoFar net t file staged i h) Safe waited_for.0
        (λ u.
          if mem_ℕ i staged
          then skipped
          else send_chunk_with_retry net (upload_id_of t) i (part file i) >> sent_on)
        waited_for.1
        (Outcome_of (SoFar net t file staged i) Safe waited_for.0 waited_for.1.events
          (wait-Keeps (InHistory (SoFar net t file staged i)) (SoFar-Grows net t file staged i) net
            w so_far)
          (λ k. k.2))
        (λ u k.
          chunk-Outcome staged i Q skipped sent_on waited_for.1 k
            (λ v known.
              subst (λ n. Outcome (Hashed staged n) Safe (skipped v).0 (skipped v).1.events)
                {x = i + 1 + left} {y = i + suc left} (omega arith)
                (send_chunks-Outcome id staged left (i + 1) sent now v same known))
            (λ v known.
              subst (λ n. Outcome (Hashed staged n) Safe (sent_on v).0 (sent_on v).1.events)
                {x = i + 1 + left} {y = i + suc left} (omega arith)
                (send_chunks-Outcome id staged left (i + 1) (sent + 1) now _ same known)))

  verify-Safe : (finalizing : String) → Keeps (InHistory Safe) (verify net t file finalizing)
  verify-Safe finalizing w safe =
      finish-Keeps Safe (IsSafe-Grows net t file []) net t (upload_id_of t) _ _ _ (tt, safe)

  finalizing_job-Safe :
      (answer : CompletionAnswer) → Keeps (InHistory Safe) (finalizing_job net answer)
  finalizing_job-Safe (job id) w safe = safe
  finalizing_job-Safe (not_accepted status body) w safe = safe
  finalizing_job-Safe (broken e) w safe = safe
  finalizing_job-Safe completion_stopped w safe = safe

  complete-Safe :
      (hashed : List ℕ) (staged : List ℕ) (w : World)
      → hashed ≡ file.bytes
      → SoFar net t file staged (chunks_of file) w.events
      → Safe (complete net t file hashed w).1.events
  unfolding complete_upload
  complete-Safe hashed staged w e so_far =
      let answer = net.complete w.events (upload_id_of t) (net.sha256 hashed) in
      let asked = asked_completion (upload_id_of t) (net.sha256 hashed) ∷ w.events in
      let v = record w { events = asked } in
      let safe : Safe asked = ((refl, ap (λ bytes. net.sha256 bytes) e, so_far.1), so_far.2) in
      >>=-Keeps (InHistory Safe) (finalizing_job net answer) (verify net t file)
        (finalizing_job-Safe answer) verify-Safe v safe

  Outcome-Safe :
      {A : Type 0} (Q : A → List Event → Type 0) (r : Result Failure A) (f : A → Act (Unit {0}))
      (w : World)
      → Outcome Q Safe r w.events
      → ((a : A) → Q a w.events → Safe (f a w).1.events)
      → Safe (bind_answer r f w).1.events
  Outcome-Safe Q (ok a) f w before next = next a before
  Outcome-Safe Q (err e) f w before next = before

  send_file-Safe :
      (staged : List ℕ) (w : World)
      → total_chunks_of t file ≡ chunks_of file
      → SoFar net t file staged 0 w.events
      → Safe (send_file net t file staged w).1.events
  send_file-Safe staged w total so_far =
      let counted = count_staged file (total_chunks_of t file) staged in
      elim (Bool-cases (ltb 0 counted.0)) [
        | inl e1 ↦ rw e1 (sent-Safe counted.0 _ so_far)
        | inr e1 ↦ rw e1 (sent-Safe counted.0 _ so_far)
      ]
    where
      sent-Safe :
          (counted : ℕ) (v : World)
          → SoFar net t file staged 0 v.events
          → Safe
              ((send_chunks net t.id
                    (upload_id_of t)
                    file
                    staged
                    (total_chunks_of t file)
                    0
                    counted
                    []
                  >>= complete net t file)
                v).1.events
      sent-Safe counted v known =
          let ran =
            send_chunks net t.id (upload_id_of t) file staged (total_chunks_of t file) 0 counted []
              v in
          Outcome-Safe (Hashed staged (0 + total_chunks_of t file)) ran.0 (complete net t file)
            ran.1
            (send_chunks-Outcome t.id staged (total_chunks_of t file) 0 counted [] v refl known)
            (λ hashed (e, so_far).
              complete-Safe hashed staged ran.1
                (e
                  ∙ ap (parts file) {x = 0 + total_chunks_of t file} {y = chunks_of file}
                      (omega arith)
                  ∙ parts-eq-bytes file)
                (subst (λ n. SoFar net t file staged n ran.1.events)
                  {x = 0 + total_chunks_of t file} {y = chunks_of file} (omega arith) so_far))

  upload_body-Safe :
      (page : Page)
      → total_chunks_of t file ≡ chunks_of file
      → Safe (upload_body net t file (record { page = page; events = [] })).1.events
  unfolding upload_body fetch_staged_chunks
  upload_body-Safe page total =
      let staged = staged_chunks (net.status [] (upload_id_of t)) in
      let w : World = record {
        page = reset_progress t.id page;
        events = asked_status (upload_id_of t) staged ∷ [];
      } in
      send_file-Safe staged w total
        (λ j k. was_staged staged [] k, λ j k. absurd (omega arith), (tt, tt))

  settle-Safe :
      (r : Result Failure (Unit {0})) (w : World) → Safe w.events → Safe (settle net t r w).events
  settle-Safe (ok u) w safe = safe
  settle-Safe (err abort) w safe = (tt, (tt, safe))
  settle-Safe (err (failed message)) w safe = safe

-- In a run that starts with no history, on a transfer whose number of chunks is that of the file, every
-- request for completion names the transfer's upload and the digest of all the bytes of the file, and
-- when it is sent the server has reported or taken each chunk of the file in this run, whatever the
-- network answers and wherever the user aborts.
pub run_upload-IsSafe :
    (net : Net) (t : Transfer) (file : File) (page : Page)
    → total_chunks_of t file ≡ chunks_of file
    → IsSafe net t file (run_upload net t file (record { page = page; events = [] })).events
unfolding run_upload
run_upload-IsSafe net t file page total =
    let ran =
      upload_body net t file (record { page = set_abort_controller t.id page; events = [] }) in
    settle-Safe net t file ran.0 ran.1
      (upload_body-Safe net t file (set_abort_controller t.id page) total)
