-- ===== src/Transfers.antt =====
-- apps/dashboard/src/lib/uploads.ts: the transfers of a page and the bookmarks of its uploads.
-- `localStorage` is taken to hold what was written last. The throughput of a transfer, a display
-- of the clock, is left out, and so is the choice of the handler of a retry by the kind of a transfer.
pub mod Pages
pub mod Batches
pub mod Runner
pub mod Hydration
mod Tests
use Prim.Native.String.{String}
use home_server_interface.Base.{
  ℕ, ◌+◌, ◌-◌, min, Bool, true, false, not, List, [], ◌∷◌, ◌++◌, any, filter, find, mem, length,
  Option, none, some, get_or, str_eq, if◌then◌else◌,
}

pub data TransferKind : Type 0 where
  upload copy move : TransferKind

pub data TransferStatus : Type 0 where
  queued uploading verifying paused error done cancelled running : TransferStatus

-- A text shown to the user, or one with a number in it.
pub data Message : Type 0 where
  text : String → Message
  upload_http not_finalized_http : ℕ → Message
  some_failed : ℕ → String → Message
  reselect_to_retry : Message → Message

-- A file that the user selected.
pub record File : Type 0 where
  pub name : String
  pub bytes : List ℕ

abbrev pub size : File → ℕ
size file = length file.bytes

pub record Transfer : Type 0 where
  pub id : String
  pub kind : TransferKind
  pub name : String
  pub dest_dir : String
  pub status : TransferStatus
  pub error : Option Message
  pub total_bytes : Option ℕ
  pub sent_bytes : Option ℕ
  pub total_chunks : Option ℕ
  pub sent_chunks : Option ℕ
  pub file : Option File
  pub upload_id : Option String
  pub interrupted : Bool

pub record PersistedUpload : Type 0 where
  pub id : String
  pub upload_id : Option String
  pub name : String
  pub dest_dir : String
  pub total_bytes : Option ℕ
  pub total_chunks : Option ℕ

pub record Page : Type 0 where
  pub tasks : List Transfer
  pub paused_ids : List String
  -- the ids of the uploads that can be aborted
  pub controllers : List String
  pub persisted : List PersistedUpload

abbrev pub has_id : String → Transfer → Bool
has_id id t = str_eq t.id id

abbrev pub find_task : String → Page → Option Transfer
find_task id page = find (has_id id) page.tasks

-- The change of the first transfer with an id, if there is one.
abbrev pub change_first : String → (Transfer → Transfer) → List Transfer → List Transfer
change_first id change [] = []
change_first id change (t ∷ tasks) =
    if str_eq t.id id then change t ∷ tasks else t ∷ change_first id change tasks

abbrev pub change_task : String → (Transfer → Transfer) → Page → Page
change_task id change page = record page { tasks = change_first id change page.tasks }

abbrev pub entry_of : Transfer → PersistedUpload
entry_of t = record {
  id = t.id;
  upload_id = t.upload_id;
  name = t.name;
  dest_dir = t.dest_dir;
  total_bytes = t.total_bytes;
  total_chunks = t.total_chunks;
}

-- The entry takes the place of the first one with its id, or comes last.
abbrev pub put_entry : PersistedUpload → List PersistedUpload → List PersistedUpload
put_entry entry [] = entry ∷ []
put_entry entry (p ∷ list) = if str_eq p.id entry.id then entry ∷ list else p ∷ put_entry entry list

unfoldable pub persist_upload : Transfer → Page → Page
persist_upload t page = record page { persisted = put_entry (entry_of t) page.persisted }

abbrev pub is_entry : String → PersistedUpload → Bool
is_entry id p = str_eq p.id id

unfoldable pub clear_persisted : String → Page → Page
clear_persisted id page = record page {
  persisted = filter (λ p. not (is_entry id p)) page.persisted;
}

unfoldable pub register : Transfer → Page → Page
register t page = record page { tasks = page.tasks ++ t ∷ [] }

abbrev pub new_error : Option Message → Option Message → Option Message
new_error none old = old
new_error (some message) old = some message

unfoldable pub set_status : String → TransferStatus → Option Message → Page → Page
set_status id status message page =
    change_task id (λ t. record t { status = status; error = new_error message t.error }) page

unfoldable pub attach_file : String → File → Page → Page
attach_file id file page =
    change_task id (λ t. record t { file = some file; interrupted = false }) page

unfoldable pub update_progress : String → ℕ → ℕ → Page → Page
update_progress id sent_chunks chunk_bytes page =
    change_task id
      (λ t. record t {
        sent_chunks = some sent_chunks;
        sent_bytes = some (get_or t.sent_bytes 0 + chunk_bytes);
      })
      page

unfoldable pub reset_progress : String → Page → Page
reset_progress id page =
    change_task id (λ t. record t { sent_chunks = some 0; sent_bytes = some 0 }) page

abbrev pub without_first : String → List Transfer → List Transfer
without_first id [] = []
without_first id (t ∷ tasks) = if str_eq t.id id then tasks else t ∷ without_first id tasks

abbrev pub without : String → List String → List String
without id ids = filter (λ other. not (str_eq other id)) ids

unfoldable pub remove : String → Page → Page
remove id page = record page {
  tasks = without_first id page.tasks;
  paused_ids = without id page.paused_ids;
  controllers = without id page.controllers;
}

unfoldable pub pause : String → Page → Page
pause id page =
    set_status id paused none (record page { paused_ids = id ∷ without id page.paused_ids })

unfoldable pub resume : String → Page → Page
resume id page =
    set_status id uploading none (record page { paused_ids = without id page.paused_ids })

-- Whether the upload's controller is told to abort.
unfoldable pub cancel : String → Page → Bool × Page
cancel id page = (mem id page.controllers, record page { paused_ids = without id page.paused_ids })

abbrev pub is_paused : String → Page → Bool
is_paused id page = mem id page.paused_ids

unfoldable pub set_abort_controller : String → Page → Page
set_abort_controller id page = record page { controllers = id ∷ without id page.controllers }

unfoldable pub cleanup : String → Page → Page
cleanup id page = record page {
  paused_ids = without id page.paused_ids;
  controllers = without id page.controllers;
}
