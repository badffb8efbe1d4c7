-- ===== src/Transfers/Runner/Progress/Shown.antt =====
-- apps/dashboard/src/lib/uploads.ts: the numbers that the page shows of a transfer.
use home_server_interface.Base.{
  ℕ, ◌+◌, Option, some, get_or, String, Bool-cases, ◌≡◌, inl, inr, refl, ap,
}
use home_server_interface.Transfers.{
  Transfer, Page, TransferStatus, find_task, persist_upload, set_status, update_progress,
  reset_progress, Message,
}
use home_server_interface.Transfers.Runner.{with_id, Net, renew}
use home_server_interface.Transfers.Pages.{find-change_first}

-- The page shows a transfer with so many chunks and bytes sent.
abbrev pub Reads : String → ℕ → ℕ → Page → Type 0
Reads id chunks bytes page =
    (task : Transfer) × (find_task id page ≡ some task)
    × (task.sent_chunks ≡ some chunks)
    × (task.sent_bytes ≡ some bytes)

pub update_progress-Reads :
    (id : String) (sent bytes chunks before : ℕ) (page : Page)
    → Reads id chunks before page
    → Reads id sent (before + bytes) (update_progress id sent bytes page)
unfolding update_progress
update_progress-Reads id sent bytes chunks before page (task, found, c, b) = (
  _,
  find-change_first id _ page.tasks (λ t. refl) found,
  refl,
  ap (λ o. some (get_or o 0 + bytes)) b,
)

pub reset_progress-Reads :
    (id : String) (page : Page) (task : Transfer)
    → find_task id page ≡ some task
    → Reads id 0 0 (reset_progress id page)
unfolding reset_progress
reset_progress-Reads id page task found =
    (_, find-change_first id _ page.tasks (λ t. refl) found, refl, refl)

-- The same, and the status that the page shows.
abbrev pub ReadsAs : String → TransferStatus → ℕ → ℕ → Page → Type 0
ReadsAs id status chunks bytes page =
    (task : Transfer) × (find_task id page ≡ some task)
    × (task.status ≡ status)
    × (task.sent_chunks ≡ some chunks)
    × (task.sent_bytes ≡ some bytes)

pub set_status-ReadsAs :
    (id : String) (status : TransferStatus) (message : Option Message) (chunks bytes : ℕ)
    (page : Page)
    → Reads id chunks bytes page
    → ReadsAs id status chunks bytes (set_status id status message page)
unfolding set_status
set_status-ReadsAs id status message chunks bytes page (task, found, c, b) =
    (_, find-change_first id _ page.tasks (λ t. refl) found, refl, c, b)

pub set_status-Reads :
    (id : String) (status : TransferStatus) (message : Option Message) (chunks bytes : ℕ)
    (page : Page)
    → Reads id chunks bytes page
    → Reads id chunks bytes (set_status id status message page)
unfolding set_status
set_status-Reads id status message chunks bytes page (task, found, c, b) =
    (_, find-change_first id _ page.tasks (λ t. refl) found, c, b)

pub renew-Reads :
    (net : Net) (t : Transfer) (fresh : String) (chunks bytes : ℕ) (page : Page)
    → Reads t.id chunks bytes page
    → Reads t.id chunks bytes (renew net t fresh page)
unfolding renew persist_upload
renew-Reads net t fresh chunks bytes page (task, found, c, b) = elim (Bool-cases net.assigns) [
  | inl e1 ↦ rw e1 (_, find-change_first t.id (with_id fresh) page.tasks (λ u. refl) found, c, b)
  | inr e1 ↦ rw e1 (task, found, c, b)
]
