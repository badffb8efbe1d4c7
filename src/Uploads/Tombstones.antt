-- ===== src/Uploads/Tombstones.antt =====
-- The tombstone of a cancelled upload (upload.service.ts) while the table changes.
use home_server_interface.Base.{
  [], ◌∷◌, List, subst, insert-Unique, erase-Unique, retain-Unique, lookup-erase, eq_iff, All, ℕ,
  ◌+◌, ◌<◌, ◌≡◌, inl, inr, refl, ◌∙◌, sym, false, not, some, String, str_eq, arith, Bool-cases,
  Option-cases, lookup, Unique, lookup-insert, lookup-retain, ltb, leb,
}
use home_server_interface.Uploads.{
  UploadState, Uploads, cancellation_key, cancel_tombstone_ttl_ms, claim_upload,
  mark_upload_cancellation_pending, is_upload_cancellation_pending, collect, set_upload,
  delete_upload, clear_upload_cancellation, prune_cancellation_tombstones,
}

-- What the routes and the collector do to the table, each at its time.
pub data Change : Type 0 where
  claims : String → UploadState → ℕ → Change
  asks : String → String → ℕ → Change
  sets : String → UploadState → Change
  deletes : String → Change
  marks : String → String → ℕ → Change
  clears : String → String → Change
  collects : ℕ → Change

pub change : Change → Uploads → Uploads
change (claims id candidate now) u = (claim_upload id candidate now u).1
change (asks id owner now) u = (is_upload_cancellation_pending id owner now u).1
change (sets id s) u = set_upload id s u
change (deletes id) u = delete_upload id u
change (marks id owner now) u = mark_upload_cancellation_pending id owner now u
change (clears id owner) u = clear_upload_cancellation id owner u
change (collects now) u = (collect now u).0

abbrev pub change_all : List Change → Uploads → Uploads
change_all [] u = u
change_all (c ∷ cs) u = change_all cs (change c u)

-- A change before a time that neither renews nor lifts the cancellation with a key.
abbrev pub IsMeanwhile : String → ℕ → Change → Type 0
IsMeanwhile key until (claims id candidate now) = now < until
IsMeanwhile key until (asks id owner now) = now < until
IsMeanwhile key until (sets id s) = Unit
IsMeanwhile key until (deletes id) = Unit
IsMeanwhile key until (marks id owner now) = str_eq (cancellation_key id owner) key ≡ false
IsMeanwhile key until (clears id owner) = str_eq (cancellation_key id owner) key ≡ false
IsMeanwhile key until (collects now) = now < until

abbrev pub Lasts : String → ℕ → Uploads → Type 0
Lasts key until u = Unique u.tombstones × (lookup key u.tombstones ≡ some until)

-- Asking drops a tombstone that is over, and no other.
Lasts-pending :
    (key : String) (until : ℕ) (id owner : String) (now : ℕ) (u : Uploads)
    → now < until
    → Lasts key until u
    → Lasts key until (is_upload_cancellation_pending id owner now u).1
unfolding is_upload_cancellation_pending
Lasts-pending key until id owner now u lt (unique, there) =
    let other : String = cancellation_key id owner in
    elim (Option-cases (lookup other u.tombstones)) [
      | inl e ↦ rw (e, is_upload_cancellation_pending) (unique, there)
      | inr (expires_at, e) ↦ elim (Bool-cases (leb expires_at now)) [
        | inr lasts ↦ rw (e, lasts, is_upload_cancellation_pending) (unique, there)
        | inl over ↦
            rw (e, over, is_upload_cancellation_pending)
              (
                erase-Unique other u.tombstones unique,
                ground (arith, lookup-erase other key u.tombstones, eq_iff other key, e, there),
              )
      ]
    ]

claim_upload-tombstones :
    (id : String) (candidate : UploadState) (now : ℕ) (u : Uploads)
    → (claim_upload id candidate now u).1.tombstones
      ≡ (is_upload_cancellation_pending id candidate.owner_user_id now u).1.tombstones
unfolding claim_upload
claim_upload-tombstones id candidate now u =
    let pending = is_upload_cancellation_pending id candidate.owner_user_id now u in
    elim (Bool-cases pending.0) [
      | inl p ↦ rw (p, claim_upload) refl
      | inr p ↦ elim (Option-cases (lookup id pending.1.upload_state)) [
        | inl e ↦ rw (p, e, claim_upload) refl
        | inr (s, e) ↦ rw (p, e, claim_upload) refl
      ]
    ]

Lasts-change :
    (key : String) (until : ℕ) (c : Change) (u : Uploads)
    → IsMeanwhile key until c
    → Lasts key until u
    → Lasts key until (change c u)
unfolding change set_upload delete_upload mark_upload_cancellation_pending clear_upload_cancellation
    collect prune_cancellation_tombstones
Lasts-change key until (claims id candidate now) u lt lasts =
    subst (λ (t : List (String × ℕ)). Unique t × (lookup key t ≡ some until))
      (sym (claim_upload-tombstones id candidate now u))
      (Lasts-pending key until id candidate.owner_user_id now u lt lasts)
Lasts-change key until (asks id owner now) u lt lasts =
    Lasts-pending key until id owner now u lt lasts
Lasts-change key until (sets id s) u m lasts = lasts
Lasts-change key until (deletes id) u m lasts = lasts
Lasts-change key until (marks id owner now) u apart (unique, there) = (
  insert-Unique (cancellation_key id owner) (now + cancel_tombstone_ttl_ms) u.tombstones unique,
  lookup-insert (cancellation_key id owner) key (now + cancel_tombstone_ttl_ms) u.tombstones
      ∙ rw apart there,
)
Lasts-change key until (clears id owner) u apart (unique, there) = (
  erase-Unique (cancellation_key id owner) u.tombstones unique,
  lookup-erase (cancellation_key id owner) key u.tombstones ∙ rw apart there,
)
Lasts-change key until (collects now) u lt (unique, there) = (
  retain-Unique (λ expires_at. not (leb expires_at now)) u.tombstones unique,
  lookup-retain (λ expires_at. not (leb expires_at now)) key u.tombstones unique
      ∙ rw there (ground (arith, lt)),
)

pub Lasts-change_all :
    (key : String) (until : ℕ) (cs : List Change) (u : Uploads)
    → All (IsMeanwhile key until) cs
    → Lasts key until u
    → Lasts key until (change_all cs u)
Lasts-change_all key until [] u all lasts = lasts
Lasts-change_all key until (c ∷ cs) u all lasts =
    Lasts-change_all key until cs (change c u) all.1 (Lasts-change key until c u all.0 lasts)

pub pending-Lasts :
    (id owner : String) (until now : ℕ) (u : Uploads)
    → Lasts (cancellation_key id owner) until u
    → (is_upload_cancellation_pending id owner now u).0 ≡ ltb now until
unfolding is_upload_cancellation_pending
pending-Lasts id owner until now u (unique, there) = ground (arith, there)
