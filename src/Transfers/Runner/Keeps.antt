-- ===== src/Transfers/Runner/Keeps.antt =====
-- apps/dashboard/src/lib/upload-runner.ts: what every step of an upload keeps of its history, when
-- no event but a request for completion can break it.
use home_server_interface.Base.{
  ℕ, zero, suc, ◌+◌, ◌==◌, ltb, Bool, true, false, ◌||◌, List, ◌∷◌, ◌++◌, Option, String,
  if◌then◌else◌, Result, ok, err, Bool-cases, ◌≡◌, inl, inr, refl,
}
use home_server_interface.Transfers.{Transfer, File, update_progress}
use home_server_interface.Transfers.Runner.{
  Act, World, Event, Failure, Net, asked_status, cancelled_on_server, waited, posted, slept,
  asked_completion, polled, told_done, removal_in, told_different, ChunkAnswer, accepted, refused,
  unreadable, network_error, stopped, JobStatus, job_completed, job_failed, job_timeout,
  bind_answer, on_page, ◌>>=◌, ◌>>◌, wait_while_paused_or_aborted, backoff, after_post, post_chunk,
  check_abort, max_attempts, send_chunk, send_chunk_with_retry, send_chunks, part, mem_ℕ,
  start_over, is_checksum, finish, chunk_byte_length,
}

abbrev pub is_completion : Event → Bool
is_completion (asked_completion upload_id sha) = true
is_completion (asked_status upload_id staged) = false
is_completion (cancelled_on_server upload_id) = false
is_completion waited = false
is_completion (posted upload_id index body taken) = false
is_completion (slept ms) = false
is_completion (polled id deadline) = false
is_completion told_done = false
is_completion (removal_in ms) = false
is_completion told_different = false

abbrev pub Keeps : (World → Type 0) → {A : Type 0} → Act A → Type 0
Keeps P m = (w : World) → P w → P (m w).1

-- A fact that no event breaks but a request for completion.
abbrev pub Grows : (World → Type 0) → Type 0
Grows P =
    (e : Event) (w : World) → is_completion e ≡ false → P w → P (record w { events = e ∷ w.events })

-- A fact that no report of progress on a transfer breaks.
abbrev pub Moves : String → (World → Type 0) → Type 0
Moves id P =
    (sent_chunks bytes : ℕ) (w : World)
    → P w
    → P (record w { page = update_progress id sent_chunks bytes w.page })

-- A fact about the history.
abbrev pub InHistory : (List Event → Type 0) → World → Type 0
InHistory P w = P w.events

pub bind_answer-Keeps :
    (P : World → Type 0) {A B : Type 0} (r : Result Failure A) (f : A → Act B) (w : World)
    → ((a : A) → r ≡ ok a → P (f a w).1)
    → P w
    → P (bind_answer r f w).1
bind_answer-Keeps P (ok a) f w k p = k a refl
bind_answer-Keeps P (err e) f w k p = p

pub >>=-Keeps :
    (P : World → Type 0) {A B : Type 0} (m : Act A) (f : A → Act B)
    → Keeps P m
    → ((a : A) → Keeps P (f a))
    → Keeps P (m >>= f)
>>=-Keeps P m f k l w p = bind_answer-Keeps P (m w).0 f (m w).1 (λ a e. l a (m w).1 (k w p)) (k w p)

module _ (P : World → Type 0) (grows : Grows P) (net : Net) where
  pub wait-Keeps : Keeps P (wait_while_paused_or_aborted net)
  unfolding wait_while_paused_or_aborted
  wait-Keeps w p = grows waited w refl p

  backoff-Keeps : (attempt : ℕ) → Keeps P (backoff net attempt)
  unfolding backoff
  backoff-Keeps attempt w p = grows _ w refl p

  after_post-Keeps :
      (answer : ChunkAnswer) (attempt : ℕ) (again : Act (Unit {0}))
      → Keeps P again
      → Keeps P (after_post net answer attempt again)
  after_post-Keeps accepted attempt again k = λ w p. p
  after_post-Keeps (network_error e) attempt again k =
      >>=-Keeps P (check_abort net) _ (λ w p. p)
        (λ u. elim (Bool-cases (attempt == max_attempts)) [
          | inl e1 ↦ rw e1 (λ w p. p)
          | inr e1 ↦ rw e1 k
        ])
  after_post-Keeps (refused status reply) attempt again k =
      elim (Bool-cases (ltb status 500 || attempt == max_attempts)) [
        | inl e1 ↦ rw e1 (λ w p. p)
        | inr e1 ↦ rw e1 k
      ]
  after_post-Keeps (unreadable e) attempt again k = λ w p. p
  after_post-Keeps stopped attempt again k = λ w p. p

  pub send_chunk-Keeps :
      (left attempt : ℕ) (upload_id : String) (index : ℕ) (body : List ℕ)
      → Keeps P (send_chunk net left attempt upload_id index body)
  unfolding send_chunk
  send_chunk-Keeps zero attempt upload_id index body = λ w p. p
  send_chunk-Keeps (suc left) attempt upload_id index body =
      let again = backoff net attempt >> send_chunk net left (attempt + 1) upload_id index body in
      >>=-Keeps P (wait_while_paused_or_aborted net)
        (λ u. post_chunk net upload_id index body >>= λ answer. after_post net answer attempt again)
        wait-Keeps
        (λ u.
          >>=-Keeps P (post_chunk net upload_id index body)
            (λ answer. after_post net answer attempt again) (λ w p. grows _ w refl p)
            (λ answer. after_post-Keeps answer attempt again (
              >>=-Keeps P (backoff net attempt)
                (λ u. send_chunk net left (attempt + 1) upload_id index body)
                (backoff-Keeps attempt)
                (λ u. send_chunk-Keeps left (attempt + 1) upload_id index body))))

  chunk-Keeps :
      (upload_id : String) (file : File) (staged : List ℕ) (i : ℕ) (skipped sent_on : Act (List ℕ))
      → Keeps P skipped
      → Keeps P sent_on
      → Keeps P (
          if mem_ℕ i staged
          then skipped
          else send_chunk_with_retry net upload_id i (part file i) >> sent_on)
  unfolding send_chunk_with_retry
  chunk-Keeps upload_id file staged i skipped sent_on k l = elim (Bool-cases (mem_ℕ i staged)) [
    | inl e1 ↦ rw e1 k
    | inr e1 ↦ rw e1 (
        >>=-Keeps P (send_chunk net max_attempts 1 upload_id i (part file i)) (λ u. sent_on)
          (send_chunk-Keeps max_attempts 1 upload_id i (part file i)) (λ u. l))
  ]

  pub send_chunks-Keeps :
      (id upload_id : String) (file : File) (staged : List ℕ) (left i sent : ℕ) (hashed : List ℕ)
      → Moves id P
      → Keeps P (send_chunks net id upload_id file staged left i sent hashed)
  unfolding send_chunks
  send_chunks-Keeps id upload_id file staged zero i sent hashed moves = λ w p. p
  send_chunks-Keeps id upload_id file staged (suc left) i sent hashed moves =
      let skipped =
        send_chunks net id upload_id file staged left (i + 1) sent (hashed ++ part file i) in
      let sent_on =
        on_page (update_progress id (sent + 1) (chunk_byte_length file i))
        >> send_chunks net id upload_id file staged left (i + 1) (sent + 1)
            (hashed ++ part file i) in
      >>=-Keeps P (wait_while_paused_or_aborted net)
        (λ u.
          if mem_ℕ i staged
          then skipped
          else send_chunk_with_retry net upload_id i (part file i) >> sent_on)
        wait-Keeps
        (λ u.
          chunk-Keeps upload_id file staged i skipped sent_on
            (send_chunks-Keeps id upload_id file staged left (i + 1) sent (hashed ++ part file i)
              moves)
            (λ w p.
              send_chunks-Keeps id upload_id file staged left (i + 1) (sent + 1)
                (hashed ++ part file i) moves _ (moves (sent + 1) (chunk_byte_length file i) w p)))

module _ (P : List Event → Type 0) (grows : Grows (InHistory P)) (net : Net) where
  start_over-Keeps :
      (t : Transfer) (upload_id : String) (e : Option String)
      → Keeps (InHistory P) (start_over net t upload_id e)
  start_over-Keeps t upload_id e = elim (Bool-cases (is_checksum net e)) [
    | inl e1 ↦ rw e1 (λ w p. grows (cancelled_on_server upload_id) w refl p)
    | inr e1 ↦ rw e1 (λ w p. p)
  ]

  pub finish-Keeps :
      (t : Transfer) (upload_id : String) (status : JobStatus) (e : Option String)
      → Keeps (InHistory P) (finish net t upload_id status e)
  unfolding finish
  finish-Keeps t upload_id job_completed e = λ w p.
      grows (removal_in 3000) (record w { events = told_done ∷ w.events }) refl
        (grows told_done w refl p)
  finish-Keeps t upload_id job_failed e =
      >>=-Keeps (InHistory P) (start_over net t upload_id e) _ (start_over-Keeps t upload_id e)
        (λ u w p. p)
  finish-Keeps t upload_id job_timeout e =
      >>=-Keeps (InHistory P) (start_over net t upload_id e) _ (start_over-Keeps t upload_id e)
        (λ u w p. p)
