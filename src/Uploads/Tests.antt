-- ===== src/Uploads/Tests.antt =====
-- Uploads on concrete inputs.
use home_server_interface.Base.{
  ◌+◌, ◌<◌, ◌≡◌, ◌↔◌, refl, true, false, [], ◌∷◌, none, some, arith, List,
}
use home_server_interface.Uploads.{
  cancellation_key, UploadState, Uploads, refused, claim_upload, mark_upload_cancellation_pending,
  resolve_upload_total_bytes, get_upload_phase, staged,
}
use home_server_interface.Uploads.Writes.{Event, begins, ends, waits}
use home_server_interface.Uploads.Tombstones.{Change, claims, collects, marks, change_all}
use home_server_interface.Uploads.Eviction.{claim_upload-mark_upload_cancellation_pending}

abbrev film : UploadState
film = record {
  ident = 1;
  owner_user_id = "ana";
  received = 0 ∷ 1 ∷ [];
  total_chunks = 2;
  file_name = "film.mkv";
  dest_dir = "/data";
  temp_path = "/data/.film";
  linux_user = "ana";
  allowed_root = "/data";
  created_at = 1000;
  last_activity_at = 2000;
  total_bytes = 4000000;
  finalize_sha = none;
  finalize_job_id = none;
  finalize_promise = false;
  cleanup_promise = false;
  active_writes = 2;
  cancelled = true;
  write_idle_waiters = [];
}

abbrev table : Uploads
table = record { upload_state = ("u1", film) ∷ []; tombstones = [] }

sizes :
    (resolve_upload_total_bytes (some "4096") none ≡ some 4096)
    × (resolve_upload_total_bytes (some "40x") none ≡ none)
    × (resolve_upload_total_bytes (some "9007199254740992") none ≡ none)
    × (get_upload_phase (record film { cancelled = false }) none ≡ staged)
unfolding resolve_upload_total_bytes get_upload_phase
sizes = (refl, refl, refl, refl)

abbrev two_waits : List Event
two_waits = waits 7 ∷ ends ∷ waits 8 ∷ []

-- The film of which two chunks are being written, cancelled: a third one is not taken.
abbrev cancelled_film : UploadState
cancelled_film = record film { cancelled = true }

abbrev drained : List Event
drained = waits 7 ∷ begins 2600 ∷ ends ∷ waits 8 ∷ ends ∷ []

-- A late chunk of the same upload, a round of the collector, and another upload's cancellation.
abbrev meanwhile : List Change
meanwhile = claims "u2" film 2600 ∷ collects 2700 ∷ marks "u3" "ana" 2800 ∷ []

claim_upload-mark_upload_cancellation_pending_example :
    ((claim_upload "u2" film 3000
        (change_all meanwhile (mark_upload_cancellation_pending "u2" "ana" 2500 table))).0
      ≡ refused)
    ↔ (3000 < 2500 + 300000)
unfolding cancellation_key
claim_upload-mark_upload_cancellation_pending_example =
    claim_upload-mark_upload_cancellation_pending "u2" film 2500 3000 meanwhile table tt
      (omega arith, (omega arith, (refl, tt)))
