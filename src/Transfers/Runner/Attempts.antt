-- ===== src/Transfers/Runner/Attempts.antt =====
-- apps/dashboard/src/lib/upload-runner.ts: how often a chunk is sent in a run.
use home_server_interface.Base.{
  ℕ, zero, suc, ◌+◌, ◌≤◌, ◌==◌, ltb, Bool, false, not, ◌&&◌, ◌||◌, List, [], ◌∷◌, ◌++◌, Option,
  none, String, if◌then◌else◌, Result, ok, err, Bool-cases, ◌≡◌, inl, inr, refl, ap, arith,
}
use home_server_interface.Transfers.{
  Transfer, File, size, Page, set_abort_controller, verifying, set_status, update_progress,
  reset_progress, text,
}
use home_server_interface.Transfers.Runner.{
  throw, on_page, verify, complete, send_file, start_over, Act, World, Event, Failure, abort,
  failed, Net, asked_status, cancelled_on_server, waited, posted, slept, asked_completion, polled,
  told_done, removal_in, told_different, ChunkAnswer, accepted, refused, unreadable, network_error,
  stopped, JobStatus, job_completed, job_failed, job_timeout, CompletionAnswer, job, not_accepted,
  broken, completion_stopped, bind_answer, ◌>>=◌, ◌>>◌, wait_while_paused_or_aborted, backoff,
  after_post, post_chunk, check_abort, max_attempts, send_chunk, send_chunk_with_retry, send_chunks,
  part, mem_ℕ, start_over, is_checksum, finish, finalizing_job, complete_upload, upload_body,
  run_upload, settle, upload_id_of, total_chunks_of, chunk_byte_length, count_staged,
  fetch_staged_chunks, staged_chunks, finalize_deadline, finalize_error_message,
}

abbrev is_post : ℕ → Event → Bool
is_post i (posted upload_id index body taken) = index == i
is_post i (asked_completion upload_id sha) = false
is_post i (asked_status upload_id staged) = false
is_post i (cancelled_on_server upload_id) = false
is_post i waited = false
is_post i (slept ms) = false
is_post i (polled id deadline) = false
is_post i told_done = false
is_post i (removal_in ms) = false
is_post i told_different = false

-- How often chunk i was posted.
abbrev pub posts : ℕ → List Event → ℕ
posts i [] = 0
posts i (e ∷ h) = (if is_post i e then 1 else 0) + posts i h

-- The action posts chunk i at most n times.
abbrev Adds : {A : Type 0} → ℕ → ℕ → Act A → Type 0
Adds i n m = (w : World) → posts i (m w).1.events ≤ posts i w.events + n

bind_answer-Adds :
    (i n : ℕ) {A B : Type 0} (r : Result Failure A) (f : A → Act B) (w : World)
    → ((a : A) → Adds i n (f a))
    → posts i (bind_answer r f w).1.events ≤ posts i w.events + n
bind_answer-Adds i n (ok a) f w next = next a w
bind_answer-Adds i n (err e) f w next = omega arith

>>=-Adds :
    (i n k total : ℕ) {A B : Type 0} (m : Act A) (f : A → Act B)
    → n + k ≤ total
    → Adds i n m
    → ((a : A) → Adds i k (f a))
    → Adds i total (m >>= f)
>>=-Adds i n k total m f within first next w =
    omega (arith, first w, bind_answer-Adds i k (m w).0 f (m w).1 next)

after_post-Adds :
    (net : Net) (i n : ℕ) (answer : ChunkAnswer) (attempt : ℕ) (again : Act (Unit {0}))
    → Adds i n again
    → Adds i n (after_post net answer attempt again)
after_post-Adds net i n accepted attempt again k w = omega arith
after_post-Adds net i n (network_error e) attempt again k w =
    bind_answer-Adds i n (check_abort net w).0
      (λ u. if attempt == max_attempts then throw (failed (text e)) else again) w
      (λ u. elim (Bool-cases (attempt == max_attempts)) [
        | inl e1 ↦ rw e1 (λ w. omega arith)
        | inr e1 ↦ rw e1 k
      ])
after_post-Adds net i n (refused status reply) attempt again k w =
    elim (Bool-cases (ltb status 500 || attempt == max_attempts)) [
      | inl e1 ↦ rw e1 (omega arith)
      | inr e1 ↦ rw e1 (k w)
    ]
after_post-Adds net i n (unreadable e) attempt again k w = omega arith
after_post-Adds net i n stopped attempt again k w = omega arith

-- What the attempts on a chunk may add to the posts of chunk i.
abbrev share : ℕ → ℕ → ℕ → ℕ
share i index left = if index == i then left else 0

send_chunk-Adds :
    (net : Net) (i left attempt : ℕ) (upload_id : String) (index : ℕ) (body : List ℕ)
    → Adds i (share i index left) (send_chunk net left attempt upload_id index body)
unfolding send_chunk wait_while_paused_or_aborted backoff
send_chunk-Adds net i zero attempt upload_id index body w = ground arith
send_chunk-Adds net i (suc left) attempt upload_id index body w =
    let again = backoff net attempt >> send_chunk net left (attempt + 1) upload_id index body in
    let added =
      >>=-Adds i 0 (share i index 1 + share i index left) (share i index 1 + share i index left)
        (wait_while_paused_or_aborted net)
        (λ u. post_chunk net upload_id index body >>= λ answer. after_post net answer attempt again)
        (omega arith) (λ w. omega arith)
        (λ u.
          >>=-Adds i (share i index 1) (share i index left) (share i index 1 + share i index left)
            (post_chunk net upload_id index body) (λ answer. after_post net answer attempt again)
            (omega arith) (λ w. omega arith)
            (λ answer. after_post-Adds net i (share i index left) answer attempt again (
              >>=-Adds i 0 (share i index left) (share i index left) (backoff net attempt)
                (λ u. send_chunk net left (attempt + 1) upload_id index body) (omega arith)
                (λ w. omega arith)
                (λ u. send_chunk-Adds net i left (attempt + 1) upload_id index body))))
        w in
    elim (Bool-cases (index == i)) [
      | inl e1 ↦ ground (arith, e1, added)
      | inr e1 ↦ ground (arith, e1, added)
    ]

-- What a run from chunk `from` on, with `left` chunks left, may add to the posts of chunk i.
abbrev allowance : ℕ → List ℕ → ℕ → ℕ → ℕ
allowance i staged from left =
    if not (ltb i from) && ltb i (from + left) && not (mem_ℕ i staged) then max_attempts else 0

later-allowance :
    (i : ℕ) (staged : List ℕ) (from left : ℕ)
    → allowance i staged (from + 1) left ≤ allowance i staged from (suc left)
later-allowance i staged from left = ground arith

next-allowance :
    (i : ℕ) (staged : List ℕ) (from left : ℕ)
    → mem_ℕ from staged ≡ false
    → share i from max_attempts + allowance i staged (from + 1) left
      ≤ allowance i staged from (suc left)
next-allowance i staged from left fresh = elim (Bool-cases (from == i)) [
  | inl e1 ↦
      ground (arith, e1, fresh, ap (λ n. mem_ℕ n staged) {x = from} {y = i} (ground (arith, e1)))
  | inr e1 ↦ ground (arith, e1, later-allowance i staged from left)
]

send_chunks-Adds :
    (net : Net) (i : ℕ) (id upload_id : String) (file : File) (staged : List ℕ) (left from sent : ℕ)
    (hashed : List ℕ)
    → Adds i
        (allowance i staged from left)
        (send_chunks net id upload_id file staged left from sent hashed)
unfolding send_chunks wait_while_paused_or_aborted send_chunk_with_retry
send_chunks-Adds net i id upload_id file staged zero from sent hashed = λ w. omega arith
send_chunks-Adds net i id upload_id file staged (suc left) from sent hashed =
    let now = hashed ++ part file from in
    let sent_on =
      on_page (update_progress id (sent + 1) (chunk_byte_length file from))
      >> send_chunks net id upload_id file staged left (from + 1) (sent + 1) now in
    let skipped = send_chunks net id upload_id file staged left (from + 1) sent now in
    let N = allowance i staged from (suc left) in
    >>=-Adds i 0 N N (wait_while_paused_or_aborted net)
      (λ u.
        if mem_ℕ from staged
        then skipped
        else send_chunk_with_retry net upload_id from (part file from) >> sent_on)
      (omega arith) (λ w. omega arith)
      (λ u. elim (Bool-cases (mem_ℕ from staged)) [
        | inl e1 ↦ rw e1 (λ w. omega (
          arith,
          later-allowance i staged from left,
          send_chunks-Adds net i id upload_id file staged left (from + 1) sent now w,
        ))
        | inr e1 ↦ rw e1 (
            >>=-Adds i (share i from max_attempts) (allowance i staged (from + 1) left) N
              (send_chunk net max_attempts 1 upload_id from (part file from)) (λ u. sent_on)
              (next-allowance i staged from left e1)
              (send_chunk-Adds net i max_attempts 1 upload_id from (part file from))
              (λ u w.
                send_chunks-Adds net i id upload_id file staged left (from + 1) (sent + 1) now
                  (record w {
                    page = update_progress id (sent + 1) (chunk_byte_length file from) w.page;
                  })))
      ])

start_over-Adds :
    (net : Net) (i : ℕ) (t : Transfer) (upload_id : String) (e : Option String)
    → Adds i 0 (start_over net t upload_id e)
start_over-Adds net i t upload_id e w = elim (Bool-cases (is_checksum net e)) [
  | inl e1 ↦ rw e1 (omega arith)
  | inr e1 ↦ rw e1 (omega arith)
]

finish-Adds :
    (net : Net) (i : ℕ) (t : Transfer) (upload_id : String) (status : JobStatus) (e : Option String)
    → Adds i 0 (finish net t upload_id status e)
unfolding finish
finish-Adds net i t upload_id job_completed e = λ w. omega arith
finish-Adds net i t upload_id job_failed e =
    >>=-Adds i 0 0 0 (start_over net t upload_id e)
      (λ u. throw (failed (finalize_error_message net e))) (omega arith)
      (start_over-Adds net i t upload_id e) (λ u w. omega arith)
finish-Adds net i t upload_id job_timeout e =
    >>=-Adds i 0 0 0 (start_over net t upload_id e)
      (λ u. throw (failed (finalize_error_message net e))) (omega arith)
      (start_over-Adds net i t upload_id e) (λ u w. omega arith)

finalizing_job-Adds :
    (net : Net) (i : ℕ) (answer : CompletionAnswer) → Adds i 0 (finalizing_job net answer)
finalizing_job-Adds net i (job id) w = omega arith
finalizing_job-Adds net i (not_accepted status body) w = omega arith
finalizing_job-Adds net i (broken e) w = omega arith
finalizing_job-Adds net i completion_stopped w = omega arith

verify-Adds :
    (net : Net) (i : ℕ) (t : Transfer) (file : File) (finalizing : String)
    → Adds i 0 (verify net t file finalizing)
verify-Adds net i t file finalizing w =
    let answer = net.poll w.events finalizing (finalize_deadline (size file)) in
    omega (
      arith,
      finish-Adds net i t (upload_id_of t) answer.status answer.error (record {
        page = set_status t.id verifying none w.page;
        events = polled finalizing (finalize_deadline (size file)) ∷ w.events;
      }),
    )

complete-Adds :
    (net : Net) (i : ℕ) (t : Transfer) (file : File) (hashed : List ℕ)
    → Adds i 0 (complete net t file hashed)
unfolding complete_upload
complete-Adds net i t file hashed w =
    let sha = net.sha256 hashed in
    let answer = net.complete w.events (upload_id_of t) sha in
    omega (
      arith,
      >>=-Adds i 0 0 0 (finalizing_job net answer) (verify net t file) (omega arith)
          (finalizing_job-Adds net i answer) (verify-Adds net i t file)
          (record w { events = asked_completion (upload_id_of t) sha ∷ w.events }),
    )

sent-Adds :
    (net : Net) (i : ℕ) (t : Transfer) (file : File) (staged : List ℕ) (counted : ℕ)
    → Adds i (allowance i staged 0 (total_chunks_of t file)) (
        send_chunks net t.id (upload_id_of t) file staged (total_chunks_of t file) 0 counted []
        >>= complete net t file)
sent-Adds net i t file staged counted =
    let total = total_chunks_of t file in
    >>=-Adds i (allowance i staged 0 total) 0 (allowance i staged 0 total)
      (send_chunks net t.id (upload_id_of t) file staged total 0 counted []) (complete net t file)
      (omega arith) (send_chunks-Adds net i t.id (upload_id_of t) file staged total 0 counted [])
      (complete-Adds net i t file)

send_file-Adds :
    (net : Net) (i : ℕ) (t : Transfer) (file : File) (staged : List ℕ)
    → Adds i (allowance i staged 0 (total_chunks_of t file)) (send_file net t file staged)
send_file-Adds net i t file staged w =
    let counted = (count_staged file (total_chunks_of t file) staged).0 in
    elim (Bool-cases (ltb 0 counted)) [
      | inl e1 ↦ rw e1 (sent-Adds net i t file staged counted _)
      | inr e1 ↦ rw e1 (sent-Adds net i t file staged counted w)
    ]

settle-posts :
    (net : Net) (i : ℕ) (t : Transfer) (r : Result Failure (Unit {0})) (w : World)
    → posts i (settle net t r w).events ≡ posts i w.events
settle-posts net i t (ok u) w = refl
settle-posts net i t (err abort) w = omega arith
settle-posts net i t (err (failed message)) w = refl

-- A run that starts with no history posts a chunk at most five times, and never a chunk that the server
-- reported as staged when the run began, nor one beyond the transfer's number of chunks.
pub posts-run_upload :
    (net : Net) (t : Transfer) (file : File) (page : Page) (i : ℕ)
    → posts i (run_upload net t file (record { page = page; events = [] })).events ≤ (
        if ltb i (total_chunks_of t file)
          && not (mem_ℕ i (staged_chunks (net.status [] (upload_id_of t))))
        then 5
        else 0)
unfolding run_upload upload_body fetch_staged_chunks
posts-run_upload net t file page i =
    let staged = staged_chunks (net.status [] (upload_id_of t)) in
    let start : World = record {
      page = reset_progress t.id (set_abort_controller t.id page);
      events = asked_status (upload_id_of t) staged ∷ [];
    } in
    let ran = send_file net t file staged start in
    ground (arith, settle-posts net i t ran.0 ran.1, send_file-Adds net i t file staged start)
