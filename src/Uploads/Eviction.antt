-- ===== src/Uploads/Eviction.antt =====
-- Claiming an upload id against the tombstone of a cancellation, and what the collector of
-- upload.service.ts may drop.
use home_server_interface.Uploads.Tombstones.{
  Change, change_all, IsMeanwhile, Lasts, Lasts-change_all, pending-Lasts,
}
use home_server_interface.Base.{
  List, insert-Unique, All, ℕ, ◌+◌, ◌≤◌, ◌<◌, ◌≡◌, ◌↔◌, inl, inr, refl, ap, ◌∙◌, sym, Bool, true,
  false, not, Option, none, some, String, str_eq, eq_refl, arith, Bool-cases, Option-cases,
  if◌then◌else◌, lookup, Unique, lookup-insert, lookup-retain, leb, ltb→lt, lt→ltb,
}
use home_server_interface.Uploads.{
  UploadState, Uploads, Claim, refused, claimed, cancellation_key, cancel_tombstone_ttl_ms,
  upload_ttl_ms, claim_upload, get_upload, mark_upload_cancellation_pending,
  is_upload_cancellation_pending, is_stale, collect,
}

pending-upload_state :
    (id owner : String) (now : ℕ) (u : Uploads)
    → (is_upload_cancellation_pending id owner now u).1.upload_state ≡ u.upload_state
unfolding is_upload_cancellation_pending
pending-upload_state id owner now u =
    elim (Option-cases (lookup (cancellation_key id owner) u.tombstones)) [
      | inl e ↦ rw (e, is_upload_cancellation_pending)
      | inr (expires_at, e) ↦ elim (Bool-cases (leb expires_at now)) [
        | inl over ↦ rw (e, over, is_upload_cancellation_pending)
        | inr lasts ↦ rw (e, lasts, is_upload_cancellation_pending)
      ]
    ]

-- The answer to a claim, from whether a cancellation is pending and what the table holds.
abbrev pub answer : Bool → Option UploadState → UploadState → Claim
answer true held candidate = refused
answer false none candidate = claimed candidate true
answer false (some s) candidate = claimed s false

-- What the table holds for an id after a claim.
abbrev pub held_after : Bool → Option UploadState → UploadState → Option UploadState
held_after true held candidate = held
held_after false none candidate = some candidate
held_after false (some s) candidate = some s

answer-refused_iff :
    (b : Bool) (held : Option UploadState) (candidate : UploadState)
    → (answer b held candidate ≡ refused) ↔ (b ≡ true)
answer-refused_iff true held candidate = (λ h. refl, λ h. refl)
answer-refused_iff false none candidate = (λ h. absurd (ground arith), λ h. absurd (ground arith))
answer-refused_iff false (some s) candidate =
    (λ h. absurd (ground arith), λ h. absurd (ground arith))

module _ (id : String) (candidate : UploadState) (now : ℕ) (u : Uploads) where
  pending : Bool × Uploads
  pending = is_upload_cancellation_pending id candidate.owner_user_id now u

  -- While a cancellation of the id by its owner is pending a claim is refused; else a state that
  -- is there is returned with nothing created; else the candidate is stored. No other id changes.
  claim_upload_lem :
      ((claim_upload id candidate now u).0
        ≡ answer
            (is_upload_cancellation_pending id candidate.owner_user_id now u).0
            (get_upload id u)
            candidate)
      × (get_upload id (claim_upload id candidate now u).1
          ≡ held_after
              (is_upload_cancellation_pending id candidate.owner_user_id now u).0
              (get_upload id u)
              candidate)
      × ((other : String)
          → str_eq id other ≡ false
          → get_upload other (claim_upload id candidate now u).1 ≡ get_upload other u)
  unfolding claim_upload get_upload pending
  claim_upload_lem =
      let same = pending-upload_state id candidate.owner_user_id now u in
      elim (Bool-cases pending.0) [
        | inl p ↦ (
          rw (p, claim_upload),
          rw (p, claim_upload, same),
          λ other d. rw (p, claim_upload, same),
        )
        | inr p ↦ elim (Option-cases (lookup id u.upload_state)) [
          | inl e ↦ (
            rw (p, claim_upload, same, e),
            rw (p, claim_upload, same, e)
                (lookup-insert id id candidate pending.1.upload_state ∙ rw (eq_refl id)),
            λ other d.
                rw (p, claim_upload, same, e)
                  (lookup-insert id other candidate pending.1.upload_state
                    ∙ rw d (ap (lookup other) same)),
          )
          | inr (s, e) ↦ (
            rw (p, claim_upload, same, e),
            rw (p, claim_upload, same, e) (ap (lookup id) same ∙ e),
            λ other d. rw (p, claim_upload, same, e) (ap (lookup other) same),
          )
        ]
      ]

-- In a table with one tombstone for each key: after a cancellation at `cancelled_at` the owner's
-- claim of the id is refused for five minutes and for no longer. Until then any claims, of this id
-- too, questions, uploads set and deleted, rounds of the collector, and marks and clearings of other
-- cancellations may have happened; only the cancellation itself has not been renewed or lifted.
pub claim_upload-mark_upload_cancellation_pending :
    (id : String) (candidate : UploadState) (cancelled_at now : ℕ) (cs : List Change) (u : Uploads)
    → Unique u.tombstones
    → All
        (IsMeanwhile
          (cancellation_key id candidate.owner_user_id)
          (cancelled_at + cancel_tombstone_ttl_ms))
        cs
    → ((claim_upload id candidate now (
          change_all cs
            (mark_upload_cancellation_pending id candidate.owner_user_id cancelled_at u))).0
        ≡ refused)
      ↔ (now < cancelled_at + 300000)
unfolding mark_upload_cancellation_pending
claim_upload-mark_upload_cancellation_pending id candidate cancelled_at now cs u unique meanwhile =
    let owner : String = candidate.owner_user_id in
    let key : String = cancellation_key id owner in
    let until : ℕ = cancelled_at + cancel_tombstone_ttl_ms in
    let marked : Uploads =
      change_all cs (mark_upload_cancellation_pending id owner cancelled_at u) in
    let lasts : Lasts key until marked =
      Lasts-change_all key until cs (mark_upload_cancellation_pending id owner cancelled_at u)
        meanwhile
        (
          insert-Unique key until u.tombstones unique,
          lookup-insert key key until u.tombstones ∙ rw (eq_refl key) refl,
        ) in
    let same = pending-Lasts id owner until now marked lasts in
    let (to, from) =
      answer-refused_iff (is_upload_cancellation_pending id owner now marked).0
        (get_upload id marked) candidate in
    let now_is = (claim_upload_lem id candidate now marked).0 in
    (λ h. ltb→lt _ _ (sym same ∙ to (sym now_is ∙ h)), λ lt. now_is ∙ from (same ∙ lt→ltb _ _ lt))

abbrev Stale : ℕ → UploadState → Type 0
Stale now s =
    (s.last_activity_at + upload_ttl_ms < now)
    × (s.active_writes ≡ 0)
    × (s.finalize_promise ≡ false)

is_stale_iff : (now : ℕ) (s : UploadState) → (is_stale now s ≡ true) ↔ Stale now s
unfolding is_stale
is_stale_iff now s = (λ h. ground arith, λ h. ground arith)

-- The collector keeps an upload exactly when it was active within the last day, has a write under
-- way or is being finalized; what it drops is handed to `onStale`, and nothing else is.
collect_lem :
    (now : ℕ) (u : Uploads) (id : String) (s : UploadState)
    → Unique u.upload_state
    → get_upload id u ≡ some s
    → (get_upload id (collect now u).0 ≡ (if is_stale now s then none else some s))
      × (lookup id (collect now u).1 ≡ (if is_stale now s then some s else none))
      × ((is_stale now s ≡ true) ↔ (
          (s.last_activity_at + upload_ttl_ms < now)
          × (s.active_writes ≡ 0)
          × (s.finalize_promise ≡ false)))
unfolding collect get_upload
collect_lem now u id s unique found = (
  lookup-retain (λ s. not (is_stale now s)) id u.upload_state unique ∙ rw found (ground arith),
  lookup-retain (is_stale now) id u.upload_state unique ∙ rw found (ground arith),
  is_stale_iff now s,
)

-- The collector forgets a tombstone only once it has expired, so it changes no claim's answer.
pending-collect :
    (now later : ℕ) (u : Uploads) (id owner : String)
    → Unique u.tombstones
    → now ≤ later
    → (is_upload_cancellation_pending id owner later (collect now u).0).0
      ≡ (is_upload_cancellation_pending id owner later u).0
unfolding collect is_upload_cancellation_pending
pending-collect now later u id owner unique le =
    let key : String = cancellation_key id owner in
    ground (arith, lookup-retain (λ expires_at. not (leb expires_at now)) key u.tombstones unique)
