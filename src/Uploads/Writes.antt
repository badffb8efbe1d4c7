-- ===== src/Uploads/Writes.antt =====
-- The count of chunk writes of an upload (upload.service.ts): how it drains once the upload is
-- cancelled or being finalized, and that no one who waits for it is forgotten.
use home_server_interface.Base.{
  sym, ◌⊎◌, ℕ, suc, ◌≤◌, ◌≡◌, true, false, List, [], ◌∷◌, ◌++◌, some, String, str_eq, sym,
}
use home_server_interface.Uploads.{
  UploadState, begin_upload_write, end_upload_write, wait_for_upload_writes, cancel_upload,
  has_upload_finalization_started,
}

-- What the request handlers do to one upload; `finalizing` is the route that records the
-- checksum of the finished upload.
pub data Event : Type 0 where
  begins : ℕ → Event
  ends : Event
  waits : ℕ → Event
  cancels : ℕ → Event
  finalizing : String → Event

-- The state after an event, and the waiters that it resolves.
pub step : Event → UploadState → UploadState × List ℕ
unfolding begin_upload_write end_upload_write wait_for_upload_writes cancel_upload
step (begins now) s = ((begin_upload_write now s).1, [])
step ends s = end_upload_write s
step (waits waiter) s = wait_for_upload_writes waiter s
step (cancels now) s = (cancel_upload now s, [])
step (finalizing sha) s = (record s { finalize_sha = some sha }, [])

pub run : List Event → UploadState → UploadState × List ℕ
run [] s = (s, [])
run (e ∷ es) s =
    let (s', resolved) = step e s in let (s'', later) = run es s' in (s'', resolved ++ later)

abbrev pub registered : List Event → List ℕ
registered [] = []
registered (waits w ∷ es) = w ∷ registered es
registered (begins n ∷ es) = registered es
registered (ends ∷ es) = registered es
registered (cancels n ∷ es) = registered es
registered (finalizing sha ∷ es) = registered es

-- Nobody waits when no write is under way.
abbrev pub IsIdle : UploadState → Type 0
IsIdle s = (1 ≤ s.active_writes) ⊎ (s.write_idle_waiters ≡ [])

-- An upload that takes no further write: cancelled, or being finalized.
abbrev pub IsClosed : UploadState → Type 0
IsClosed s = (s.cancelled ≡ true) ⊎ (has_upload_finalization_started s ≡ true)

abbrev pub count_ends : List Event → ℕ
count_ends [] = 0
count_ends (ends ∷ es) = suc (count_ends es)
count_ends (e ∷ es) = count_ends es

-- The checksum that finalizes an upload is not empty.
abbrev pub IsNamed : Event → Type 0
IsNamed (finalizing sha) = str_eq sha "" ≡ false
IsNamed e = Unit
