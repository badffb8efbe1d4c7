-- ===== src/Deliveries/Retries.antt =====
-- The retries of notification-queue.ts: how many attempts a delivery gets, and how it ends.
use home_server_interface.Base.{
  ℕ, zero, suc, ◌+◌, ◌≤◌, Bool, true, false, List, [], ◌∷◌, if◌then◌else◌, take, any, arith, ◌≡◌,
  refl, inl, inr, Bool-cases, leb,
}
use home_server_interface.Deliveries.{
  Delivery, DeliveryResult, plan_after_attempt, is_pending, is_sent, max_attempts, failed, pending,
  sent,
}

-- The attempts at a row with the outcomes that they have, as long as the row is pending; the
-- second part counts them.
abbrev pub run_attempts : List (ℕ × DeliveryResult) → Delivery → Delivery × ℕ
run_attempts [] row = (row, 0)
run_attempts ((now, result) ∷ results) row =
    let rest = run_attempts results (plan_after_attempt row.attempts result now row) in
    if is_pending row.status then (rest.0, suc rest.1) else (row, 0)

abbrev pub succeeds : ℕ × DeliveryResult → Bool
succeeds r = r.1.ok

elim_pending : (row : Delivery) → is_pending row.status ≡ true → is_sent row.status ≡ false
elim_pending row e = ground (arith, e)

settled :
    (results : List (ℕ × DeliveryResult)) (row : Delivery)
    → is_pending row.status ≡ false
    → run_attempts results row ≡ (row, 0)
settled [] row e = refl
settled ((now, result) ∷ results) row e = rw e refl

module _ (now : ℕ) (result : DeliveryResult) (row : Delivery) where
  after : Delivery
  after = plan_after_attempt row.attempts result now row

  after_success : result.ok ≡ true → after.status ≡ sent
  unfolding after plan_after_attempt
  after_success ok = rw ok refl

  after_last : result.ok ≡ false → row.attempts + 1 ≡ max_attempts → after.status ≡ failed
  unfolding after plan_after_attempt
  after_last failing last = rw (failing, last) refl

  after_failure :
      (k : ℕ)
      → result.ok ≡ false
      → row.attempts + suc (suc k) ≡ max_attempts
      → (after.status ≡ pending) × (after.attempts + suc k ≡ max_attempts)
  unfolding after plan_after_attempt
  after_failure k failing left = elim (Bool-cases (leb max_attempts (row.attempts + 1))) [
    | inl over ↦ absurd (ground (arith, over, left))
    | inr under ↦ rw (failing, under) (refl, omega (arith, left))
  ]

run_attempts-cons :
    (now : ℕ) (result : DeliveryResult) (row : Delivery) (results : List (ℕ × DeliveryResult))
    → is_pending row.status ≡ true
    → run_attempts ((now, result) ∷ results) row ≡ (
      (run_attempts results (after now result row)).0,
      suc (run_attempts results (after now result row)).1,
    )
unfolding after
run_attempts-cons now result row results e = rw e refl

-- A row that is settled by its attempt has had one attempt and keeps its status.
run_attempts-settled :
    (now : ℕ) (result : DeliveryResult) (row : Delivery) (results : List (ℕ × DeliveryResult))
    → is_pending row.status ≡ true
    → is_pending (after now result row).status ≡ false
    → ((run_attempts ((now, result) ∷ results) row).1 ≡ 1)
      × ((run_attempts ((now, result) ∷ results) row).0 ≡ after now result row)
run_attempts-settled now result row results e done =
    let last = settled results (after now result row) done in
    (
      ground (arith, run_attempts-cons now result row results e, last),
      ground (arith, run_attempts-cons now result row results e, last),
    )

attempts_left :
    (k : ℕ) (results : List (ℕ × DeliveryResult)) (row : Delivery)
    → is_pending row.status ≡ true
    → row.attempts + suc k ≡ max_attempts
    → ((run_attempts results row).1 ≤ suc k)
      × (is_sent (run_attempts results row).0.status ≡ any succeeds (take (suc k) results))
attempts_left k [] row e left = (omega arith, elim_pending row e)
attempts_left zero ((now, result) ∷ results) row e left = elim (Bool-cases result.ok) [
  | inl ok ↦
      let once =
        run_attempts-settled now result row results e (rw (after_success now result row ok) refl) in
      (omega (arith, once.0), rw (once.1, after_success now result row ok) (rw ok refl))
  | inr failing ↦
      let once =
        run_attempts-settled now result row results e
          (rw (after_last now result row failing left) refl) in
      (omega (arith, once.0), rw (once.1, after_last now result row failing left) (rw failing refl))
]
attempts_left (suc k) ((now, result) ∷ results) row e left = elim (Bool-cases result.ok) [
  | inl ok ↦
      let once =
        run_attempts-settled now result row results e (rw (after_success now result row ok) refl) in
      (omega (arith, once.0), rw (once.1, after_success now result row ok) (rw ok refl))
  | inr failing ↦
      let (again, left') = after_failure now result row k failing left in
      let ih = attempts_left k results (after now result row) (rw again refl) left' in
      ground (arith, run_attempts-cons now result row results e, ih.0, ih.1, failing)
]

-- A delivery is attempted at most three times, and it is sent in the end exactly when one of the
-- first three attempts succeeds.
run_attempts_lem :
    (results : List (ℕ × DeliveryResult)) (row : Delivery)
    → row.status ≡ pending
    → row.attempts ≡ 0
    → ((run_attempts results row).1 ≤ max_attempts)
      × (is_sent (run_attempts results row).0.status ≡ any succeeds (take max_attempts results))
run_attempts_lem results row waiting fresh =
    attempts_left 2 results row (rw waiting refl) (rw fresh refl)
