-- ===== src/Transfers/Runner/Network.antt =====
-- apps/dashboard/src/lib/upload-runner.ts: what an upload asks of the network, and what is answered.
-- Every answer is any function of what happened before it, also that of pollJobResult (lib/jobs.ts) and the
-- id of randomId (lib/uuid.ts).
use Prim.Native.String.{String}
use home_server_interface.Base.{ℕ, Bool, List, ◌∷◌, Option, Result, ok, err}
use home_server_interface.Transfers.{Page, Message}

-- What happens on the network and the clock, the last of it first.
pub data Event : Type 0 where
  -- the upload's id, and the chunks that are staged as far as the code can tell
  asked_status : String → List ℕ → Event
  cancelled_on_server : String → Event
  waited : Event
  -- the upload's id, the chunk's number and content, and whether the server took it
  posted : String → ℕ → List ℕ → Bool → Event
  slept : ℕ → Event
  asked_completion : String → String → Event
  polled : String → ℕ → Event
  told_done : Event
  removal_in : ℕ → Event
  told_different : Event

pub data UploadPhase : Type 0 where
  phase_uploading phase_staged phase_finalizing phase_completed phase_failed phase_cancelled :
      UploadPhase

pub record UploadStatus : Type 0 where
  pub known : Bool
  pub staged : List ℕ
  pub total_chunks : Option ℕ
  pub phase : Option UploadPhase
  pub job_id : Option String
  pub job_error : Option String

-- The answer to a chunk: the connection broke, the server took it, it refused it with a status and
-- a text, its answer cannot be read, or the reading of it was aborted.
pub data ChunkAnswer : Type 0 where
  network_error : String → ChunkAnswer
  accepted : ChunkAnswer
  refused : ℕ → String → ChunkAnswer
  unreadable : String → ChunkAnswer
  stopped : ChunkAnswer

pub data CompletionAnswer : Type 0 where
  job : String → CompletionAnswer
  not_accepted : ℕ → String → CompletionAnswer
  broken : String → CompletionAnswer
  completion_stopped : CompletionAnswer

pub data JobStatus : Type 0 where
  job_completed job_failed job_timeout : JobStatus

pub record JobResult : Type 0 where
  pub status : JobStatus
  pub error : Option String

-- The network, the user's abort, and what the code takes from libraries: a random id, the SHA-256
-- of some bytes, the test for the word `checksum` in any case, and whether Vue lets an assignment
-- through the handle that `readonly(tasks)` gives out reach the transfer (its documentation says no).
pub record Net : Type 0 where
  pub aborted : List Event → Bool
  pub status : List Event → String → Option UploadStatus
  pub post : List Event → String → ℕ → List ℕ → ChunkAnswer
  pub complete : List Event → String → String → CompletionAnswer
  pub poll : List Event → String → ℕ → JobResult
  pub random_id : List Event → String
  pub sha256 : List ℕ → String
  pub says_checksum : String → Bool
  pub assigns : Bool

pub record World : Type 0 where
  pub page : Page
  pub events : List Event

pub data Failure : Type 0 where
  abort : Failure
  failed : Message → Failure

abbrev pub Act : Type 0 → Type 0
Act A = World → Result Failure A × World

abbrev pub return : {A : Type 0} → A → Act A
return a w = (ok a, w)

abbrev pub throw : {A : Type 0} → Failure → Act A
throw e w = (err e, w)

abbrev pub bind_answer :
    {A B : Type 0} → Result Failure A → (A → Act B) → World → Result Failure B × World
bind_answer (ok a) f w = f a w
bind_answer (err e) f w = (err e, w)

infixl 5 ◌>>=◌ ◌>>◌
abbrev pub ◌>>=◌ : {A B : Type 0} → Act A → (A → Act B) → Act B
◌>>=◌ m f w = bind_answer (m w).0 f (m w).1

abbrev pub ◌>>◌ : {B : Type 0} → Act (Unit {0}) → Act B → Act B
m >> k = m >>= λ _. k

abbrev pub note : Event → Act (Unit {0})
note event w = (ok tt, record w { events = event ∷ w.events })

abbrev pub on_page : (Page → Page) → Act (Unit {0})
on_page change w = (ok tt, record w { page = change w.page })

-- An answer after what happened so far, and what happened then.
abbrev pub ask : {A : Type 0} → (List Event → A) → (A → Event) → Act A
ask answer event w =
    (ok (answer w.events), record w { events = event (answer w.events) ∷ w.events })
