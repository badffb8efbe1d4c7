-- ===== src/Transfers/Runner/Progress/Finish.antt =====
-- apps/dashboard/src/lib/upload-runner.ts: the progress shown from the request for completion on.
use home_server_interface.Base.{
  ℕ, ◌≤◌, List, ◌∷◌, Option, none, String, Result, ok, err, Bool-cases, inl, inr, arith,
}
use home_server_interface.Transfers.{Transfer, File, size, Page, verifying, done, clear_persisted}
use home_server_interface.Transfers.Runner.{
  verify, complete, Act, World, Failure, Net, cancelled_on_server, asked_completion, JobStatus,
  job_completed, job_failed, job_timeout, CompletionAnswer, job, not_accepted, broken,
  completion_stopped, bind_answer, is_checksum, finish, finalizing_job, complete_upload,
  upload_id_of, total_chunks_of, renew,
}
use home_server_interface.Transfers.Runner.Keeps.{Keeps}
use home_server_interface.Transfers.Runner.Progress.Shown.{
  Reads, ReadsAs, set_status-ReadsAs, set_status-Reads, renew-Reads,
}

module _ (net : Net) (t : Transfer) (file : File) where
  -- No more than all of the file.
  abbrev pub Within : Page → Type 0
  Within page =
      (chunks : ℕ) × (bytes : ℕ) × (chunks ≤ total_chunks_of t file)
      × (bytes ≤ size file)
      × Reads t.id chunks bytes page

  abbrev pub All : World → Type 0
  All w = ReadsAs t.id done (total_chunks_of t file) (size file) w.page

  abbrev pub Full : World → Type 0
  Full w = Reads t.id (total_chunks_of t file) (size file) w.page

  abbrev pub Outcome : {A : Type 0} → (World → Type 0) → Result Failure A → World → Type 0
  Outcome Q (ok a) w = Q w
  Outcome Q (err e) w = Within w.page

  pub bind_answer-Outcome :
      {A B : Type 0} (Q R : World → Type 0) (r : Result Failure A) (f : A → Act B) (w : World)
      → Outcome R r w
      → ((a : A) → R w → Outcome Q (f a w).0 (f a w).1)
      → Outcome Q (bind_answer r f w).0 (bind_answer r f w).1
  bind_answer-Outcome Q R (ok a) f w before next = next a before
  bind_answer-Outcome Q R (err e) f w before next = before

  pub Outcome_of :
      {A : Type 0} (P : World → Type 0) (r : Result Failure A) (w : World)
      → P w
      → (P w → Within w.page)
      → Outcome P r w
  Outcome_of P (ok a) w p weaken = p
  Outcome_of P (err e) w p weaken = weaken p

  pub Full-Within :
      (page : Page) → Reads t.id (total_chunks_of t file) (size file) page → Within page
  Full-Within page full = (total_chunks_of t file, size file, omega arith, omega arith, full)

  renewed-Within :
      (w : World)
      → Full w
      → Within
          (renew net t (net.random_id (cancelled_on_server (upload_id_of t) ∷ w.events)) w.page)
  renewed-Within w full =
      let fresh = net.random_id (cancelled_on_server (upload_id_of t) ∷ w.events) in
      Full-Within (renew net t fresh w.page)
        (renew-Reads net t fresh (total_chunks_of t file) (size file) w.page full)

  finish-Outcome :
      (status : JobStatus) (e : Option String) (w : World)
      → Full w
      → Outcome All
          (finish net t (upload_id_of t) status e w).0
          (finish net t (upload_id_of t) status e w).1
  unfolding finish clear_persisted
  finish-Outcome job_completed e w full = set_status-ReadsAs t.id done none _ _ w.page full
  finish-Outcome job_failed e w full = elim (Bool-cases (is_checksum net e)) [
    | inl e1 ↦ rw e1 (renewed-Within w full)
    | inr e1 ↦ rw e1 (Full-Within w.page full)
  ]
  finish-Outcome job_timeout e w full = elim (Bool-cases (is_checksum net e)) [
    | inl e1 ↦ rw e1 (renewed-Within w full)
    | inr e1 ↦ rw e1 (Full-Within w.page full)
  ]

  finalizing_job-Full : (answer : CompletionAnswer) → Keeps Full (finalizing_job net answer)
  finalizing_job-Full (job id) w full = full
  finalizing_job-Full (not_accepted status body) w full = full
  finalizing_job-Full (broken e) w full = full
  finalizing_job-Full completion_stopped w full = full

  pub complete-Outcome :
      (hashed : List ℕ) (w : World)
      → Full w
      → Outcome All (complete net t file hashed w).0 (complete net t file hashed w).1
  unfolding complete_upload
  complete-Outcome hashed w full =
      let sha = net.sha256 hashed in
      let answer = net.complete w.events (upload_id_of t) sha in
      let asked : World = record w { events = asked_completion (upload_id_of t) sha ∷ w.events } in
      let answered = finalizing_job net answer asked in
      bind_answer-Outcome All Full answered.0 (verify net t file) answered.1
        (Outcome_of Full answered.0 answered.1 (finalizing_job-Full answer asked full)
          (Full-Within answered.1.page))
        (λ finalizing full.
          finish-Outcome _ _ _ (set_status-Reads t.id verifying none _ _ answered.1.page full))
