-- ===== src/Backups/Migration.antt =====
-- The migration of the former plans ends: after at most 24 attempts and ten minutes of waiting.
use home_server_interface.Base.{
  arith, ℕ, zero, suc, ◌+◌, ◌*◌, ◌≤◌, ltb, Bool, true, false, List, [], ◌∷◌, Option, some, Result,
  ok, err, Result-cases, Bool-cases, ◌⊎◌, inl, inr, ◌≡◌, refl, ap,
}
use home_server_interface.Backups.{
  BackupStatus, SkippedPlan, Migrated, Event, asked_status, read_rows, asked_migration,
  logged_migrated, warned, gave_up, slept, MigrationDeps, delay_at, migration_give_up_ms,
  warn_skipped, log_migrated, migrate_rows, after_status, try_migration, migrate_rsync_plans,
}

module _ {Row E : Type 0} where
  -- The sum of the pauses, the number of attempts, and whether the migration was given up.
  abbrev pub slept_ms : List (Event Row E) → ℕ
  slept_ms [] = 0
  slept_ms (slept ms ∷ h) = ms + slept_ms h
  slept_ms (asked_status ∷ h) = slept_ms h
  slept_ms (read_rows ∷ h) = slept_ms h
  slept_ms (asked_migration rows ∷ h) = slept_ms h
  slept_ms (logged_migrated n ∷ h) = slept_ms h
  slept_ms (warned p ∷ h) = slept_ms h
  slept_ms (gave_up e ∷ h) = slept_ms h

  abbrev pub attempts : List (Event Row E) → ℕ
  attempts [] = 0
  attempts (asked_status ∷ h) = 1 + attempts h
  attempts (slept ms ∷ h) = attempts h
  attempts (read_rows ∷ h) = attempts h
  attempts (asked_migration rows ∷ h) = attempts h
  attempts (logged_migrated n ∷ h) = attempts h
  attempts (warned p ∷ h) = attempts h
  attempts (gave_up e ∷ h) = attempts h

  abbrev pub given_up : List (Event Row E) → Bool
  given_up [] = false
  given_up (gave_up e ∷ h) = true
  given_up (asked_status ∷ h) = given_up h
  given_up (slept ms ∷ h) = given_up h
  given_up (read_rows ∷ h) = given_up h
  given_up (asked_migration rows ∷ h) = given_up h
  given_up (logged_migrated n ∷ h) = given_up h
  given_up (warned p ∷ h) = given_up h

  -- The three at once.
  abbrev Counts : ℕ → ℕ → List (Event Row E) → Type 0
  Counts tries waited h = (attempts h ≡ tries) × (slept_ms h ≡ waited) × (given_up h ≡ false)

  warn_skipped-Counts :
      (skipped : List SkippedPlan) (tries waited : ℕ) (h : List (Event Row E))
      → Counts tries waited h
      → Counts tries waited (warn_skipped skipped h)
  warn_skipped-Counts [] tries waited h counts = counts
  warn_skipped-Counts (p ∷ skipped) tries waited h counts =
      warn_skipped-Counts skipped tries waited (warned p ∷ h) counts

  module _ (deps : MigrationDeps Row E) where
    log_migrated-Counts :
        (answer : Result E Migrated) (tries waited : ℕ) (h : List (Event Row E))
        → Counts tries waited h
        → Counts tries waited (log_migrated answer h).1
    log_migrated-Counts (err e) tries waited h counts = counts
    log_migrated-Counts (ok res) tries waited h counts =
        warn_skipped-Counts res.skipped tries waited (logged_migrated res.migrated ∷ h) counts

    migrate_rows-Counts :
        (answer : Result E (List Row)) (tries waited : ℕ) (h : List (Event Row E))
        → Counts tries waited h
        → Counts tries waited (migrate_rows deps answer h).1
    migrate_rows-Counts (err e) tries waited h counts = counts
    migrate_rows-Counts (ok []) tries waited h counts = counts
    migrate_rows-Counts (ok (row ∷ rows)) tries waited h counts =
        log_migrated-Counts (deps.migrate h (row ∷ rows)) tries waited
          (asked_migration (row ∷ rows) ∷ h) counts

    after_status-Counts :
        (answer : Result E BackupStatus) (tries waited : ℕ) (h : List (Event Row E))
        → Counts tries waited h
        → Counts tries waited (after_status deps answer h).1
    after_status-Counts (err e) tries waited h counts = counts
    after_status-Counts (ok status) tries waited h counts = elim (Bool-cases status.config_exists) [
      | inl there ↦ rw (there) counts
      | inr missing ↦
          rw (missing) (migrate_rows-Counts (deps.rows h) tries waited (read_rows ∷ h) counts)
    ]

    try_migration-Counts :
        (tries waited : ℕ) (h : List (Event Row E))
        → Counts tries waited h
        → Counts (1 + tries) waited (try_migration deps h).1
    unfolding try_migration
    try_migration-Counts tries waited h counts =
        after_status-Counts (deps.status h) (1 + tries) waited (asked_status ∷ h)
          (ap (λ n. 1 + n) counts.0, counts.1, counts.2)

    -- How a migration ends: not given up, or given up after 24 attempts and 571 seconds of pauses.
    abbrev pub Ends : Option (List (Event Row E)) → Type 0
    Ends out =
        (h : List (Event Row E)) × (out ≡ some h)
        × (attempts h ≤ 24)
        × (slept_ms h ≤ migration_give_up_ms)
        × ((given_up h ≡ false) ⊎ ((attempts h ≡ 24) × (slept_ms h ≡ 571000)))

    abbrev EndsFrom : ℕ → ℕ → ℕ → Type 0
    EndsFrom fuel attempt waited =
        (h : List (Event Row E))
        → Counts attempt waited h
        → Ends (migrate_rsync_plans deps fuel attempt waited h)

    delay_at-late : (attempt : ℕ) → 5 ≤ attempt → delay_at attempt ≡ 30000
    delay_at-late zero late = omega arith
    delay_at-late (suc zero) late = omega arith
    delay_at-late (suc (suc zero)) late = omega arith
    delay_at-late (suc (suc (suc zero))) late = omega arith
    delay_at-late (suc (suc (suc (suc zero)))) late = omega arith
    delay_at-late (suc (suc (suc (suc (suc n))))) late = refl

    worked-EndsFrom :
        (fuel attempt waited : ℕ) (h : List (Event Row E)) (u : Unit {0})
        → attempt ≤ 23
        → waited ≤ migration_give_up_ms
        → Counts attempt waited h
        → (try_migration deps h).0 ≡ ok u
        → Ends (migrate_rsync_plans deps (suc fuel) attempt waited h)
    unfolding migrate_rsync_plans
    worked-EndsFrom fuel attempt waited h u early in_time counts worked =
        let after = try_migration-Counts attempt waited h counts in
        rw (migrate_rsync_plans, worked)
          (
            (try_migration deps h).1,
            refl,
            omega (arith, after.0, early),
            omega (arith, after.1, in_time),
            inl after.2,
          )

    -- One more attempt before the time is over.
    again-EndsFrom :
        (fuel attempt waited : ℕ)
        → attempt ≤ 23
        → waited + delay_at attempt ≤ migration_give_up_ms
        → EndsFrom fuel (attempt + 1) (waited + delay_at attempt)
        → EndsFrom (suc fuel) attempt waited
    unfolding migrate_rsync_plans
    again-EndsFrom fuel attempt waited early in_time next h counts =
        let after = try_migration-Counts attempt waited h counts in
        elim (Result-cases (try_migration deps h).0) [
          | inl (e, failed) ↦
              rw (migrate_rsync_plans, failed, not_over in_time)
                (next (slept (delay_at attempt) ∷ (try_migration deps h).1)
                  (omega (arith, after.0), omega (arith, after.1), after.2))
          | inr (u, worked) ↦
              worked-EndsFrom fuel attempt waited h u early (omega (arith, in_time)) counts worked
        ]
      where
        not_over :
            waited + delay_at attempt ≤ migration_give_up_ms
            → ltb migration_give_up_ms (waited + delay_at attempt) ≡ false
        not_over le = ground (arith, le)

    -- The 24th attempt is the last.
    last-EndsFrom : (fuel : ℕ) → EndsFrom (suc fuel) 23 571000
    unfolding migrate_rsync_plans
    last-EndsFrom fuel h counts =
        let after = try_migration-Counts 23 571000 h counts in
        elim (Result-cases (try_migration deps h).0) [
          | inl (e, failed) ↦
              rw (migrate_rsync_plans, failed)
                (
                  gave_up e ∷ (try_migration deps h).1,
                  refl,
                  omega (arith, after.0),
                  omega (arith, after.1),
                  inr (after.0, after.1),
                )
          | inr (u, worked) ↦
              worked-EndsFrom fuel 23 571000 h u (omega arith) (omega arith) counts worked
        ]

    -- The attempts with the last of the delays between them.
    late-EndsFrom :
        (k attempt waited : ℕ)
        → 5 ≤ attempt
        → attempt + k ≡ 23
        → waited + 30000 * k ≡ 571000
        → EndsFrom (suc k) attempt waited
    late-EndsFrom zero attempt waited late count time =
        rw (at_last attempt count, over waited time) (last-EndsFrom zero)
      where
        at_last : (n : ℕ) → n + 0 ≡ 23 → n ≡ 23
        at_last n e = omega (arith, e)

        over : (n : ℕ) → n + 30000 * 0 ≡ 571000 → n ≡ 571000
        over n e = omega (arith, e)
    late-EndsFrom (suc k) attempt waited late count time =
        again-EndsFrom (suc k) attempt waited (omega (arith, count))
          (omega (arith, time, delay_at-late attempt late))
          (rw (delay_at-late attempt late) (
            late-EndsFrom k (attempt + 1) (waited + 30000) (omega (arith, late))
              (omega (arith, count)) (omega (arith, time))))

-- However the worker and the database answer, the migration of the former plans ends: it asks for the status
-- at most 24 times and waits ten minutes at most in all; and it is given up only after the 24th attempt, with 571 seconds of waiting.
pub migrate_rsync_plans-Ends :
    {Row E : Type 0} (deps : MigrationDeps Row E) → Ends deps (migrate_rsync_plans deps 24 0 0 [])
migrate_rsync_plans-Ends deps =
    again-EndsFrom deps 23 0 0 (omega arith) (omega arith)
      (again-EndsFrom deps 22 1 1000 (omega arith) (omega arith) (
        again-EndsFrom deps 21 2 3000 (omega arith) (omega arith) (
          again-EndsFrom deps 20 3 7000 (omega arith) (omega arith) (
            again-EndsFrom deps 19 4 15000 (omega arith) (omega arith)
              (late-EndsFrom deps 18 5 31000 (omega arith) refl refl)))))
      [] (refl, refl, refl)
