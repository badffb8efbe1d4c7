-- ===== src/Uploads.antt =====
-- apps/backend/src/services/upload.service.ts: the backend's table of chunked uploads, the
-- tombstones of cancelled ones, the count of writes under way and the periodic eviction. An upload
-- is a shared object: `ident` stands for its identity, and a function that changes the object
-- returns it changed. Promises are flags; a waiter is the number of the promise it resolves.
pub mod Writes
pub mod Tombstones
pub mod Eviction
mod Tests
use Prim.Native.Char.{code}
use Prim.Native.String.{String}
use Prim.Native.String
use home_server_interface.Base.{
  ℕ, zero, suc, ◌+◌, ◌-◌, ◌*◌, Bool, true, false, ◌&&◌, ◌||◌, not, List, [], ◌∷◌, ◌++◌, Option,
  none, some, get_or, is_some, truthy, concat, str_eq, ltb, leb, ◌==◌, if◌then◌else◌, lookup,
  insert, erase, retain, length, max,
}

abbrev pub upload_ttl_ms : ℕ
upload_ttl_ms = 24 * 60 * 60 * 1000

abbrev pub cancel_tombstone_ttl_ms : ℕ
cancel_tombstone_ttl_ms = 5 * 60 * 1000

pub record UploadState : Type 0 where
  pub ident : ℕ
  pub owner_user_id : String
  pub received : List ℕ
  pub total_chunks : ℕ
  pub file_name : String
  pub dest_dir : String
  pub temp_path : String
  pub linux_user : String
  pub allowed_root : String
  pub created_at : ℕ
  pub last_activity_at : ℕ
  pub total_bytes : ℕ
  pub finalize_sha : Option String
  pub finalize_job_id : Option String
  pub finalize_promise : Bool
  pub cleanup_promise : Bool
  pub active_writes : ℕ
  pub cancelled : Bool
  pub write_idle_waiters : List ℕ

pub record Uploads : Type 0 where
  pub upload_state : List (String × UploadState)
  -- from a cancellation key to the time at which it expires
  pub tombstones : List (String × ℕ)

abbrev pub nul : String
nul = "\0"

unfoldable pub cancellation_key : String → String → String
cancellation_key id owner_user_id = concat owner_user_id (concat nul id)

unfoldable pub prune_cancellation_tombstones : ℕ → Uploads → Uploads
prune_cancellation_tombstones now u = record u {
  tombstones = retain (λ expires_at. not (leb expires_at now)) u.tombstones;
}

unfoldable pub get_upload : String → Uploads → Option UploadState
get_upload id u = lookup id u.upload_state

owned : String → Option UploadState → Option UploadState
owned owner_user_id none = none
owned owner_user_id (some s) = if str_eq s.owner_user_id owner_user_id then some s else none

unfoldable pub get_upload_for_owner : String → String → Uploads → Option UploadState
unfolding owned get_upload
get_upload_for_owner id owner_user_id u = owned owner_user_id (get_upload id u)

unfoldable pub set_upload : String → UploadState → Uploads → Uploads
set_upload id s u = record u { upload_state = insert id s u.upload_state }

unfoldable pub is_upload_cancellation_pending : String → String → ℕ → Uploads → Bool × Uploads
unfolding cancellation_key
is_upload_cancellation_pending id owner_user_id now u =
    elim (lookup (cancellation_key id owner_user_id) u.tombstones) [
      | none ↦ (false, u)
      | some expires_at ↦
          if leb expires_at now
          then (
            false,
            record u { tombstones = erase (cancellation_key id owner_user_id) u.tombstones },
          )
          else (true, u)
    ]

pub data Claim : Type 0 where
  refused : Claim
  claimed : UploadState → Bool → Claim

-- The claim of an id: refused, or the state that holds it and whether the candidate was created.
unfoldable pub claim_upload : String → UploadState → ℕ → Uploads → Claim × Uploads
claim_upload id candidate now u =
    let pending = is_upload_cancellation_pending id candidate.owner_user_id now u in
    if pending.0 then (refused, pending.1) else elim (lookup id pending.1.upload_state) [
      | some existing ↦ (claimed existing false, pending.1)
      | none ↦ (
        claimed candidate true,
        record pending.1 { upload_state = insert id candidate pending.1.upload_state },
      )
    ]

unfoldable pub delete_upload : String → Uploads → Uploads
delete_upload id u = record u { upload_state = erase id u.upload_state }

unfoldable pub mark_upload_active : ℕ → UploadState → UploadState
mark_upload_active now s = record s { last_activity_at = now }

unfoldable pub has_upload_finalization_started : UploadState → Bool
has_upload_finalization_started s =
    truthy s.finalize_sha || s.finalize_promise || truthy s.finalize_job_id

unfoldable pub begin_upload_write : ℕ → UploadState → Bool × UploadState
unfolding has_upload_finalization_started mark_upload_active
begin_upload_write now s =
    if s.cancelled || has_upload_finalization_started s
    then (false, s)
    else (true, mark_upload_active now (record s { active_writes = s.active_writes + 1 }))

-- The second part is the waiters that are resolved: all, once no write is left.
unfoldable pub end_upload_write : UploadState → UploadState × List ℕ
end_upload_write s =
    let left = max 0 (s.active_writes - 1) in
    if left == 0
    then (record s { active_writes = left; write_idle_waiters = [] }, s.write_idle_waiters)
    else (record s { active_writes = left }, [])

-- The second part is the waiters that are resolved at once.
unfoldable pub wait_for_upload_writes : ℕ → UploadState → UploadState × List ℕ
wait_for_upload_writes waiter s =
    if s.active_writes == 0
    then (s, waiter ∷ [])
    else (record s { write_idle_waiters = s.write_idle_waiters ++ waiter ∷ [] }, [])

unfoldable pub cancel_upload : ℕ → UploadState → UploadState
unfolding mark_upload_active
cancel_upload now s = mark_upload_active now (record s { cancelled = true })

same_object : UploadState → Option UploadState → Bool
same_object s none = false
same_object s (some t) = t.ident == s.ident

unfoldable pub delete_upload_if_same : String → UploadState → Uploads → Uploads
unfolding same_object
delete_upload_if_same id s u =
    if same_object s (lookup id u.upload_state)
    then record u { upload_state = erase id u.upload_state }
    else u

unfoldable pub mark_upload_cancellation_pending : String → String → ℕ → Uploads → Uploads
unfolding cancellation_key
mark_upload_cancellation_pending id owner_user_id now u = record u {
  tombstones =
      insert (cancellation_key id owner_user_id) (now + cancel_tombstone_ttl_ms) u.tombstones;
}

unfoldable pub clear_upload_cancellation : String → String → Uploads → Uploads
unfolding cancellation_key
clear_upload_cancellation id owner_user_id u = record u {
  tombstones = erase (cancellation_key id owner_user_id) u.tombstones;
}

abbrev pub max_safe_integer : ℕ
max_safe_integer = 9007199254740991

-- `Number(header)` of the digits, or nothing at another character.
read_digits : ℕ → String → Option ℕ
read_digits acc String.[] = some acc
read_digits acc (String.◌∷◌ c s) =
    let rest = read_digits (acc * 10 + (code c - b'0')) s in
    if leb b'0' (code c) && leb (code c) b'9' then rest else none

abbrev if_safe : Option ℕ → Option ℕ
if_safe none = none
if_safe (some n) = if leb n max_safe_integer then some n else none

unfoldable pub resolve_upload_total_bytes : Option String → Option UploadState → Option ℕ
unfolding read_digits
resolve_upload_total_bytes none none = none
resolve_upload_total_bytes none (some s) = some s.total_bytes
resolve_upload_total_bytes (some header) state =
    if str_eq header "" then none else if_safe (read_digits 0 header)

pub data UploadPhase : Type 0 where
  uploading staged finalizing completed failed cancelled_phase : UploadPhase

abbrev status_is : String → Option String → Bool
status_is t none = false
status_is t (some s) = str_eq s t

unfoldable pub get_upload_phase : UploadState → Option String → UploadPhase
get_upload_phase s job =
    if s.cancelled
    then cancelled_phase
    else if status_is "completed" job
    then completed
    else if status_is "failed" job
    then failed
    else if s.finalize_promise
        || truthy s.finalize_sha
        || truthy s.finalize_job_id
        || status_is "pending" job
        || status_is "running" job
    then finalizing
    else if length s.received == s.total_chunks
    then staged
    else uploading

-- An upload that the collector drops: silent for the whole lifetime, with no write under way and
-- no finalization promised.
unfoldable pub is_stale : ℕ → UploadState → Bool
is_stale now s =
    ltb (s.last_activity_at + upload_ttl_ms) now && (s.active_writes == 0) && not s.finalize_promise

-- One round of the collector: the table after it, and the uploads handed to `onStale`.
unfoldable pub collect : ℕ → Uploads → Uploads × List (String × UploadState)
unfolding prune_cancellation_tombstones
collect now u =
    let pruned = prune_cancellation_tombstones now u in
    (
      record pruned { upload_state = retain (λ s. not (is_stale now s)) pruned.upload_state },
      retain (is_stale now) pruned.upload_state,
    )
