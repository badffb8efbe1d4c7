-- ===== src/Transfers/Runner/Completion.antt =====
-- apps/dashboard/src/lib/upload-runner.ts: what has happened when the server is asked to complete an
-- upload.
pub mod Requests
use home_server_interface.Base.{
  ℕ, zero, suc, ◌+◌, ◌*◌, ◌-◌, ◌/◌, ◌≤◌, ◌<◌, min, max, ◌==◌, ltb, leb, Bool, true, false, not,
  ◌&&◌, ◌||◌, List, [], ◌∷◌, ◌++◌, map, any, find, filter, mem, take, drop, length, Option, none,
  some, get_or, str_eq, String, if◌then◌else◌, Result, ok, err, Result-cases, Option-cases,
  Bool-cases, ◌≡◌, ◌⊎◌, inl, inr, refl, sym, ap, ◌∙◌, arith, eq_refl, eq_iff, subst,
}
use home_server_interface.Transfers.{
  Transfer, File, size, Page, TransferStatus, set_abort_controller, find_task, has_id, change_first,
  change_task, uploading, verifying, done, error, cancelled, persist_upload, clear_persisted,
  register, set_status, update_progress, reset_progress, cleanup, PersistedUpload, entry_of,
  put_entry, is_entry, new_error, Message, without, text,
}
use home_server_interface.Transfers.Runner.{
  Act, World, Event, Failure, abort, failed, Net, asked_status, cancelled_on_server, waited, posted,
  slept, asked_completion, polled, told_done, removal_in, told_different, ChunkAnswer, accepted,
  refused, unreadable, network_error, stopped, JobStatus, job_completed, job_failed, job_timeout,
  CompletionAnswer, job, not_accepted, broken, completion_stopped, bind_answer, ◌>>=◌, ◌>>◌, return,
  wait_while_paused_or_aborted, backoff, after_post, post_chunk, check_abort, max_attempts,
  send_chunk, send_chunk_with_retry, send_chunks, part, mem_ℕ, start_over, is_checksum, finish,
  finalizing_job, complete_upload, upload_body, run_upload, settle, upload_id_of, total_chunks_of,
  chunk_byte_length, count_staged, chunks_of, ceil_div, fetch_staged_chunks, staged_chunks,
  show_staged, as_set, chunk_size, release, renew, finalize_deadline, is_accepted,
  finalize_error_message, throw,
}
use home_server_interface.Transfers.Runner.Keeps.{
  Grows, InHistory, Keeps, is_completion, send_chunk-Keeps, finish-Keeps,
}
use home_server_interface.Transfers.Runner.Bytes.{parts, parts-eq-bytes}

-- The server has a chunk of the file: it said so, or it took it.
pub data Arrived (file : File) (upload_id : String) (i : ℕ) : List Event → Type 0 where
  was_staged :
      (staged : List ℕ) (h : List Event)
      → mem_ℕ i staged ≡ true
      → Arrived file upload_id i (asked_status upload_id staged ∷ h)
  was_taken :
      (h : List Event) → Arrived file upload_id i (posted upload_id i (part file i) true ∷ h)
  earlier :
      (e : Event) (h : List Event) → Arrived file upload_id i h → Arrived file upload_id i (e ∷ h)

-- Only a request for completion has to be justified: it names the upload and the digest of all the
-- bytes of the file, and every chunk has arrived.
abbrev pub IsJustified : Net → Transfer → File → Event → List Event → Type 0
IsJustified net t file (asked_completion upload_id sha) h =
    (upload_id ≡ upload_id_of t)
    × (sha ≡ net.sha256 file.bytes)
    × ((i : ℕ) → i < chunks_of file → Arrived file (upload_id_of t) i h)
IsJustified net t file (asked_status upload_id staged) h = Unit
IsJustified net t file (cancelled_on_server upload_id) h = Unit
IsJustified net t file waited h = Unit
IsJustified net t file (posted upload_id index body taken) h = Unit
IsJustified net t file (slept ms) h = Unit
IsJustified net t file (polled id deadline) h = Unit
IsJustified net t file told_done h = Unit
IsJustified net t file (removal_in ms) h = Unit
IsJustified net t file told_different h = Unit

abbrev pub IsSafe : Net → Transfer → File → List Event → Type 0
IsSafe net t file [] = Unit
IsSafe net t file (e ∷ h) = IsJustified net t file e h × IsSafe net t file h

-- What holds after an action: one fact when it returns, another when it fails.
abbrev Outcome :
    {A : Type 0}
    → (A → List Event → Type 0)
    → (List Event → Type 0)
    → Result Failure A
    → List Event
    → Type 0
Outcome Q E (ok a) h = Q a h
Outcome Q E (err e) h = E h

bind_answer-Outcome :
    {A B : Type 0} (Q : B → List Event → Type 0) (R : A → List Event → Type 0)
    (E : List Event → Type 0) (r : Result Failure A) (f : A → Act B) (w : World)
    → Outcome R E r w.events
    → ((a : A) → R a w.events → Outcome Q E (f a w).0 (f a w).1.events)
    → Outcome Q E (bind_answer r f w).0 (bind_answer r f w).1.events
bind_answer-Outcome Q R E (ok a) f w before next = next a before
bind_answer-Outcome Q R E (err e) f w before next = before

Outcome_both :
    {A : Type 0} (Q : A → List Event → Type 0) (P E : List Event → Type 0) (r : Result Failure A)
    (h : List Event)
    → Outcome Q (λ h. Unit) r h
    → P h
    → (P h → E h)
    → Outcome (λ a h. Q a h × P h) E r h
Outcome_both Q P E (ok a) h q p weaken = (q, p)
Outcome_both Q P E (err e) h q p weaken = weaken p

Outcome_of :
    {A : Type 0} (P E : List Event → Type 0) (r : Result Failure A) (h : List Event)
    → P h
    → (P h → E h)
    → Outcome (λ a h. P h) E r h
Outcome_of P E (ok a) h p weaken = p
Outcome_of P E (err e) h p weaken = weaken p

-- Nothing is said of any outcome.
any-Outcome :
    {A : Type 0} (r : Result Failure A) (h : List Event) → Outcome (λ a h. Unit) (λ h. Unit) r h
any-Outcome (ok a) h = tt
any-Outcome (err e) h = tt

module _ (net : Net) (file : File) (upload_id : String) where
  after_post-Arrived :
      (i attempt : ℕ) (answer : ChunkAnswer) (again : Act (Unit {0})) (w : World)
      → (is_accepted answer ≡ true → Arrived file upload_id i w.events)
      → ((v : World)
          → Outcome (λ u h. Arrived file upload_id i h) (λ h. Unit) (again v).0 (again v).1.events)
      → Outcome
          (λ u h. Arrived file upload_id i h)
          (λ h. Unit)
          (after_post net answer attempt again w).0
          (after_post net answer attempt again w).1.events
  after_post-Arrived i attempt accepted again w taken next = taken refl
  after_post-Arrived i attempt (network_error e) again w taken next =
      bind_answer-Outcome (λ u h. Arrived file upload_id i h) (λ u h. Unit) (λ h. Unit)
        (check_abort net w).0
        (λ u. if attempt == max_attempts then throw (failed (text e)) else again) w
        (elim (Bool-cases (net.aborted w.events)) [ inl e1 ↦ rw e1 tt | inr e1 ↦ rw e1 tt ])
        (λ u k. elim (Bool-cases (attempt == max_attempts)) [
          | inl e1 ↦ rw e1 tt
          | inr e1 ↦ rw e1 (next w)
        ])
  after_post-Arrived i attempt (refused status reply) again w taken next =
      elim (Bool-cases (ltb status 500 || attempt == max_attempts)) [
        | inl e1 ↦ rw e1 tt
        | inr e1 ↦ rw e1 (next w)
      ]
  after_post-Arrived i attempt (unreadable e) again w taken next = tt
  after_post-Arrived i attempt stopped again w taken next = tt

  posted-Arrived :
      (i : ℕ) (taken : Bool) (h : List Event)
      → taken ≡ true
      → Arrived file upload_id i (posted upload_id i (part file i) taken ∷ h)
  posted-Arrived i true h e = was_taken h
  posted-Arrived i false h e = absurd (cc)

  send_chunk-Arrived :
      (left attempt i : ℕ) (w : World)
      → Outcome
          (λ u h. Arrived file upload_id i h)
          (λ h. Unit)
          (send_chunk net left attempt upload_id i (part file i) w).0
          (send_chunk net left attempt upload_id i (part file i) w).1.events
  unfolding send_chunk
  send_chunk-Arrived zero attempt i w = tt
  send_chunk-Arrived (suc left) attempt i w =
      let again =
        backoff net attempt >> send_chunk net left (attempt + 1) upload_id i (part file i) in
      let ready = (wait_while_paused_or_aborted net w).1 in
      let answer = net.post ready.events upload_id i (part file i) in
      bind_answer-Outcome (λ u h. Arrived file upload_id i h) (λ u h. Unit) (λ h. Unit)
        (wait_while_paused_or_aborted net w).0
        (λ u. post_chunk net upload_id i (part file i) >>= λ answer.
          after_post net answer attempt again)
        ready (any-Outcome (wait_while_paused_or_aborted net w).0 ready.events)
        (λ u k.
          after_post-Arrived i attempt answer again
            (post_chunk net upload_id i (part file i) ready).1
            (posted-Arrived i (is_accepted answer) ready.events)
            (λ v.
              bind_answer-Outcome (λ u h. Arrived file upload_id i h) (λ u h. Unit) (λ h. Unit)
                (backoff net attempt v).0
                (λ u. send_chunk net left (attempt + 1) upload_id i (part file i))
                (backoff net attempt v).1
                (any-Outcome (backoff net attempt v).0 (backoff net attempt v).1.events)
                (λ u k. send_chunk-Arrived left (attempt + 1) i (backoff net attempt v).1)))

module _ (net : Net) (t : Transfer) (file : File) (staged : List ℕ) where
  -- The staged chunks have arrived and the first ones too, and every request so far was justified.
  abbrev SoFar : ℕ → List Event → Type 0
  SoFar i h =
      ((j : ℕ) → mem_ℕ j staged ≡ true → Arrived file (upload_id_of t) j h)
      × ((j : ℕ) → j < i → Arrived file (upload_id_of t) j h)
      × IsSafe net t file h

  quiet-IsJustified :
      (e : Event) (h : List Event) → is_completion e ≡ false → IsJustified net t file e h
  quiet-IsJustified (asked_completion upload_id sha) h quiet = absurd cc
  quiet-IsJustified (asked_status upload_id chunks) h quiet = tt
  quiet-IsJustified (cancelled_on_server upload_id) h quiet = tt
  quiet-IsJustified waited h quiet = tt
  quiet-IsJustified (posted upload_id index body taken) h quiet = tt
  quiet-IsJustified (slept ms) h quiet = tt
  quiet-IsJustified (polled id deadline) h quiet = tt
  quiet-IsJustified told_done h quiet = tt
  quiet-IsJustified (removal_in ms) h quiet = tt
  quiet-IsJustified told_different h quiet = tt

  IsSafe-Grows : Grows (InHistory (IsSafe net t file))
  IsSafe-Grows e w quiet safe = (quiet-IsJustified e w.events quiet, safe)

  SoFar-Grows : (i : ℕ) → Grows (InHistory (SoFar i))
  SoFar-Grows i e w quiet (known, ready, safe) = (
    λ j k. earlier e w.events (known j k),
    λ j k. earlier e w.events (ready j k),
    IsSafe-Grows e w quiet safe,
  )

  next-SoFar :
      (i : ℕ) (h : List Event) → SoFar i h → Arrived file (upload_id_of t) i h → SoFar (i + 1) h
  next-SoFar i h (known, ready, safe) arrived = (
    known,
    λ j k. elim (Bool-cases (ltb j i)) [
      | inl e1 ↦ ready j (ground (arith, e1))
      | inr e1 ↦
          subst (λ n. Arrived file (upload_id_of t) n h) {x = i} {y = j} (ground (arith, e1))
            arrived
    ],
    safe,
  )
