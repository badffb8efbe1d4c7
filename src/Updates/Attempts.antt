-- ===== src/Updates/Attempts.antt =====
-- The verdict of update-watch.ts on an update, and how often a failure is announced.
use Prim.Native.String.{String}
use home_server_interface.Base.{
  ℕ, ◌+◌, ◌≤◌, ◌<◌, Bool, false, List, [], ◌∷◌, Option, none, some, str_eq, ltb, arith, ◌≡◌, refl,
  inl, inr, ◌⊎◌, ◌↔◌, Bool-cases, length,
}
use home_server_interface.Updates.{
  UpdateAttempt, Verdict, wait, succeeded, failed, too_early, evaluate_update_attempt, AttemptFile,
  absent, unreadable, recorded, check_update_attempt, failure_after_ms, restart_grace_ms,
  no_restart_failure_after_ms,
}

-- When the time for an update to land is over.
abbrev pub IsOverdue : Option ℕ → ℕ → ℕ → Type 0
IsOverdue none now started_at = Unit
IsOverdue (some requested) now started_at =
    (requested + failure_after_ms ≤ now)
    × (((requested < started_at) × (started_at + restart_grace_ms ≤ now))
        ⊎ ((started_at ≤ requested) × (requested + no_restart_failure_after_ms ≤ now)))

too_early_iff :
    (requested : Option ℕ) (now started_at : ℕ)
    → (too_early requested now started_at ≡ false) ↔ IsOverdue requested now started_at
too_early_iff none now started_at = (λ e. tt, λ o. refl)
too_early_iff (some requested) now started_at = (
  λ e. elim (Bool-cases (ltb requested started_at)) [
    | inl restarted ↦ (
      ground (arith, e, restarted),
      inl (ground (arith, e, restarted), ground (arith, e, restarted)),
    )
    | inr running ↦
        (ground (arith, e, running), inr (ground (arith, e, running), ground (arith, e, running)))
  ],
  λ o. ground (arith, o),
)

-- An update is given up exactly when another version runs, nothing is pending any more and the
-- time to land is over: a quarter of an hour after the request, and then five minutes after a
-- restart that followed it, or an hour after the request without one.
evaluate_update_attempt-failed_iff :
    (attempt : UpdateAttempt) (current : String) (pending_exists : Bool) (now started_at : ℕ)
    → (evaluate_update_attempt attempt current pending_exists now started_at ≡ failed) ↔ (
        (str_eq current attempt.target ≡ false)
        × (pending_exists ≡ false)
        × IsOverdue attempt.requested_at now started_at)
unfolding evaluate_update_attempt
evaluate_update_attempt-failed_iff attempt current pending_exists now started_at =
    elim (Bool-cases (str_eq current attempt.target)) [
      | inl landed ↦ rw landed (λ e. absurd (ground (arith, e)), λ p. absurd (ground (arith, p.0)))
      | inr other ↦ rw other (elim (Bool-cases pending_exists) [
        | inl waits ↦ rw waits (λ e. absurd (ground (arith, e)), λ p. absurd (ground (arith, p.1)))
        | inr free ↦ rw free (elim (Bool-cases (too_early attempt.requested_at now started_at)) [
          | inl early ↦ rw early (
            λ e. absurd (ground (arith, e)),
            λ p.
                absurd (
                  ground (arith, early, (too_early_iff attempt.requested_at now started_at).1 p.2)),
          )
          | inr late ↦ rw late (
            λ e. (refl, refl, (too_early_iff attempt.requested_at now started_at).0 late),
            λ p. refl,
          )
        ])
      ])
    ]

-- A check sees the running version, whether the update is pending, the time, and the start of HSI.
pub record Check : Type 0 where
  pub current : String
  pub pending_exists : Bool
  pub now : ℕ
  pub started_at : ℕ

abbrev cons_some : Option String → List String → List String
cons_some none xs = xs
cons_some (some x) xs = x ∷ xs

-- The failures that some checks announce, one after the other.
unfoldable pub announced : List Check → AttemptFile → List String
announced [] file = []
announced (c ∷ checks) file =
    let step = check_update_attempt c.current c.pending_exists c.now c.started_at file in
    cons_some step.1 (announced checks step.0)

verdict_cases : (v : Verdict) → (v ≡ wait) ⊎ ((v ≡ succeeded) ⊎ (v ≡ failed))
verdict_cases wait = inl refl
verdict_cases succeeded = inr (inl refl)
verdict_cases failed = inr (inr refl)

announced-absent : (checks : List Check) → announced checks absent ≡ []
unfolding announced check_update_attempt
announced-absent [] = refl
announced-absent (c ∷ checks) = announced-absent checks

length-announced-recorded :
    (checks : List Check) (attempt : UpdateAttempt)
    → length (announced checks (recorded attempt)) ≤ 1
unfolding announced check_update_attempt
length-announced-recorded [] attempt = omega arith
length-announced-recorded (c ∷ checks) attempt =
    elim (verdict_cases
      (evaluate_update_attempt attempt c.current c.pending_exists c.now c.started_at)) [
        | inl e ↦ rw (check_update_attempt, e) (length-announced-recorded checks attempt)
        | inr (inl e) ↦ rw (check_update_attempt, e, announced-absent checks) (omega arith)
        | inr (inr e) ↦ rw (check_update_attempt, e, announced-absent checks) (omega arith)
      ]

-- Whatever the checks of the file of one update attempt see, they announce the failure of that
-- attempt at most once between them. Announcements made outside these checks are not counted.
pub length-announced :
    (checks : List Check) (file : AttemptFile) → length (announced checks file) ≤ 1
unfolding announced check_update_attempt
length-announced [] file = omega arith
length-announced (c ∷ checks) absent = rw (announced-absent checks) (omega arith)
length-announced (c ∷ checks) unreadable = rw (announced-absent checks) (omega arith)
length-announced (c ∷ checks) (recorded attempt) = length-announced-recorded (c ∷ checks) attempt
