-- ===== src/Auth/Counts.antt =====
-- What the throttle of services/login-throttle.ts keeps of one key, over the calls of the login
-- handler.
use home_server_interface.Base.{
  ℕ, ◌+◌, ◌≤◌, ◌<◌, ◌≡◌, Bool, false, List, [], ◌∷◌, none, some, String, arith, any, eq_refl,
  eq_iff, lookup, insert, lookup-insert, lookup-erase,
}
use home_server_interface.LoginThrottle.{
  Entry, Attempts, window_ms, live_entry, fail_once, assert_not_throttled, record_login_failure,
}
use home_server_interface.LoginThrottle.Laws.{occurrences}

module _ (key : String) (e : Entry) (now : ℕ) (live : now < e.window_start + window_ms) where
  pub live_entry-keeps :
      (k : String) (n : ℕ) (attempts : Attempts)
      → lookup key attempts ≡ some (record e { failures = n })
      → lookup key (live_entry attempts k now).1 ≡ some (record e { failures = n })
  unfolding live_entry
  live_entry-keeps k n attempts h = ground (arith, lookup-erase k key attempts, eq_iff k key)

  record_once :
      (k : String) (n : ℕ) (attempts : Attempts)
      → lookup key attempts ≡ some (record e { failures = n })
      → lookup key
          (insert k (fail_once (live_entry attempts k now).0 now) (live_entry attempts k now).1)
        ≡ some (record e { failures = n + occurrences key (k ∷ []) })
  unfolding live_entry
  record_once k n attempts h = ground (
    arith,
    live_entry-keeps k n attempts h,
    lookup-insert k key (fail_once (live_entry attempts k now).0 now) (live_entry attempts k now).1,
    eq_iff k key,
  )

  pub record_login_failure-lookup :
      (keys : List String) (n : ℕ) (attempts : Attempts)
      → lookup key attempts ≡ some (record e { failures = n })
      → lookup key (record_login_failure keys now attempts)
        ≡ some (record e { failures = n + occurrences key keys })
  unfolding record_login_failure
  record_login_failure-lookup [] n attempts h = ground arith
  record_login_failure-lookup (k ∷ keys) n attempts h = ground (
    arith,
    record_login_failure-lookup keys (n + occurrences key (k ∷ []))
        (insert k (fail_once (live_entry attempts k now).0 now) (live_entry attempts k now).1)
        (record_once k n attempts h),
  )

  pub assert_not_throttled-lookup :
      (keys : List String) (attempts : Attempts)
      → lookup key attempts ≡ some e
      → lookup key (assert_not_throttled keys now attempts).1 ≡ some e
  unfolding assert_not_throttled
  assert_not_throttled-lookup [] attempts h = h
  assert_not_throttled-lookup (k ∷ keys) attempts h =
      let kept = live_entry-keeps k e.failures attempts h in
      ground (arith, assert_not_throttled-lookup keys (live_entry attempts k now).1 kept)

-- A key whose failures do not count: no entry, or one whose window is over.
abbrev pub IsFresh : String → ℕ → Attempts → Type 0
IsFresh key now attempts = (live_entry attempts key now).0 ≡ none

module _ (key : String) (start now : ℕ) where
  live_entry-IsFresh :
      (k : String) (attempts : Attempts)
      → IsFresh key start attempts
      → IsFresh key start (live_entry attempts k now).1
  unfolding live_entry
  live_entry-IsFresh k attempts h = ground (arith, lookup-erase k key attempts, eq_iff k key)

  pub assert_not_throttled-IsFresh :
      (keys : List String) (attempts : Attempts)
      → IsFresh key start attempts
      → IsFresh key start (assert_not_throttled keys now attempts).1
  unfolding assert_not_throttled
  assert_not_throttled-IsFresh [] attempts h = h
  assert_not_throttled-IsFresh (k ∷ keys) attempts h =
      let kept = live_entry-IsFresh k attempts h in
      ground (arith, assert_not_throttled-IsFresh keys (live_entry attempts k now).1 kept)

  pub IsFresh-later :
      (attempts : Attempts) → start ≤ now → IsFresh key start attempts → IsFresh key now attempts
  unfolding live_entry
  IsFresh-later attempts le h = ground arith

  pub record_fresh :
      (attempts : Attempts)
      → IsFresh key now attempts
      → lookup key (
          insert key
            (fail_once (live_entry attempts key now).0 now)
            (live_entry attempts key now).1)
        ≡ some (record { failures = 1; window_start = now })
  record_fresh attempts h = ground (
    arith,
    eq_refl key,
    lookup-insert key key (fail_once (live_entry attempts key now).0 now)
        (live_entry attempts key now).1,
  )

pub any-false_of_occurrences :
    (p : String → Bool) (k : String) (keys : List String)
    → 1 ≤ occurrences k keys
    → any p keys ≡ false
    → p k ≡ false
any-false_of_occurrences p k [] h e = absurd (omega arith)
any-false_of_occurrences p k (key ∷ keys) h e =
    ground (arith, eq_iff key k, any-false_of_occurrences p k keys)
