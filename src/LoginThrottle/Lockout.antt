-- ===== src/LoginThrottle/Lockout.antt =====
-- The lockout of login-throttle.ts over time: when it starts and ends, how long it says to wait,
-- and that the sweep and a successful login do what they are for.
use home_server_interface.Base.{
  ℕ, ◌+◌, ◌*◌, ◌≤◌, ◌<◌, ◌≡◌, refl, ap, fun_ext, ◌∙◌, sym, true, ◌&&◌, List, [], ◌∷◌, none, some,
  String, eq_refl, eq_iff, lookup, Unique, lookup-insert, mem, lookup-erase, lookup-retain, ltb,
  leb, if◌then◌else◌, All, is_some, length, arith, any, Option-cases, erase, inl, inr,
}
use home_server_interface.LoginThrottle.{
  Entry, Attempts, Wait, minutes, seconds, window_ms, max_failures, in_window, live_entry,
  retry_after, exhausted, assert_not_throttled, fail_once, record_login_failure,
  clear_login_failures, sweep,
}
use home_server_interface.LoginThrottle.Laws.{failures_at, assert_not_throttled_iff}

-- Failed logins of one key at the given times.
abbrev pub fail_all : String → List ℕ → Attempts → Attempts
fail_all key [] attempts = attempts
fail_all key (t ∷ ts) attempts = fail_all key ts (record_login_failure (key ∷ []) t attempts)

record_fresh :
    (key : String) (t : ℕ) (attempts : Attempts)
    → (live_entry attempts key t).0 ≡ none
    → lookup key (record_login_failure (key ∷ []) t attempts)
      ≡ some (record { failures = 1; window_start = t })
unfolding record_login_failure
record_fresh key t attempts h = ground (
  arith,
  eq_refl key,
  lookup-insert key key (fail_once (live_entry attempts key t).0 t) (live_entry attempts key t).1,
)

record_live :
    (key : String) (t : ℕ) (e : Entry) (attempts : Attempts)
    → lookup key attempts ≡ some e
    → t < e.window_start + window_ms
    → lookup key (record_login_failure (key ∷ []) t attempts)
      ≡ some (record { failures = e.failures + 1; window_start = e.window_start })
unfolding record_login_failure live_entry
record_live key t e attempts h lt =
    ground (arith, eq_refl key, lookup-insert key key (fail_once (some e) t) attempts)

lookup-fail_all :
    (key : String) (ts : List ℕ) (e : Entry) (attempts : Attempts)
    → lookup key attempts ≡ some e
    → All (λ t. t < e.window_start + window_ms) ts
    → lookup key (fail_all key ts attempts)
      ≡ some (record { failures = e.failures + length ts; window_start = e.window_start })
lookup-fail_all key [] e attempts h k = ground arith
lookup-fail_all key (t ∷ ts) e attempts h k = ground (
  arith,
  lookup-fail_all key ts (record { failures = e.failures + 1; window_start = e.window_start })
      (record_login_failure (key ∷ []) t attempts) (record_live key t e attempts h k.0) k.1,
)

-- A key with no failures that count fails at `start` and then at the times `ts` of the window
-- that this opens. A login with it is refused at `now` exactly when at least five failures were
-- recorded and the window of the first one still lasts.
assert_not_throttled-fail_all :
    (key : String) (start : ℕ) (ts : List ℕ) (attempts : Attempts) (now : ℕ)
    → (live_entry attempts key start).0 ≡ none
    → All (λ t. t < start + window_ms) ts
    → is_some (assert_not_throttled (key ∷ []) now (fail_all key (start ∷ ts) attempts)).0
      ≡ (ltb now (start + window_ms) && leb max_failures (1 + length ts))
assert_not_throttled-fail_all key start ts attempts now fresh h =
    assert_not_throttled_iff (key ∷ []) now (fail_all key (start ∷ ts) attempts)
    ∙ ground (
      arith,
      lookup-fail_all key ts (record { failures = 1; window_start = start })
          (record_login_failure (key ∷ []) start attempts) (record_fresh key start attempts fresh)
          h,
    )

-- A wait is named in seconds below two minutes and in minutes above, never more than fifteen.
abbrev pub IsShort : Wait → Type 0
IsShort (seconds s) = (1 ≤ s) × (s < 120)
IsShort (minutes m) = (2 ≤ m) × (m ≤ 15)

abbrev pub wait_ms : Wait → ℕ
wait_ms (seconds s) = s * 1000
wait_ms (minutes m) = m * 60000

retry_after-covers :
    (e : Entry) (now : ℕ) → e.window_start + window_ms ≤ now + wait_ms (retry_after e now)
unfolding retry_after
retry_after-covers e now = ground arith

retry_after-IsShort :
    (e : Entry) (now : ℕ)
    → e.window_start ≤ now
    → now < e.window_start + window_ms
    → IsShort (retry_after e now)
unfolding retry_after
retry_after-IsShort e now h k = ground arith

live_entry-lookup :
    (attempts : Attempts) (key k : String) (now : ℕ) {e : Entry}
    → lookup k (live_entry attempts key now).1 ≡ some e
    → lookup k attempts ≡ some e
unfolding live_entry
live_entry-lookup attempts key k now h = ground (arith, lookup-erase key k attempts, eq_iff key k)

exhausted_lem :
    (attempts : Attempts) (key : String) (now : ℕ) (w : Wait)
    → exhausted (live_entry attempts key now).0 now ≡ some w
    → (e : Entry) × (lookup key attempts ≡ some e)
      × (max_failures ≤ e.failures)
      × (now < e.window_start + window_ms)
      × (w ≡ retry_after e now)
unfolding exhausted live_entry
exhausted_lem attempts key now w h = elim (Option-cases (lookup key attempts)) [
  | inl e ↦ absurd (ground arith)
  | inr (v, e) ↦ (v, e, ground arith, ground arith, ground arith)
]

-- Why a login is refused with a wait: one of the keys has five failures in a window that still
-- lasts, and the wait is the one that this entry gives.
abbrev pub Refusal : List String → ℕ → Attempts → Wait → Type 0
Refusal keys now attempts w =
    (e : Entry) × (k : String) × (lookup k attempts ≡ some e)
    × (mem k keys ≡ true)
    × (max_failures ≤ e.failures)
    × (now < e.window_start + window_ms)
    × (w ≡ retry_after e now)

assert_not_throttled-Refusal :
    (keys : List String) (now : ℕ) (attempts : Attempts) (w : Wait)
    → (assert_not_throttled keys now attempts).0 ≡ some w
    → Refusal keys now attempts w
unfolding assert_not_throttled
assert_not_throttled-Refusal [] now attempts w h = absurd (ground arith)
assert_not_throttled-Refusal (key ∷ keys) now attempts w h =
    elim (Option-cases (exhausted (live_entry attempts key now).0 now)) [
      | inl more ↦
          let (e, k, found, listed, used, lasts, same) =
            assert_not_throttled-Refusal keys now (live_entry attempts key now).1 w
              (ground arith) in
          (e, k, live_entry-lookup attempts key k now found, ground arith, used, lasts, same)
      | inr (v, stop) ↦
          let (e, found, used, lasts, same) = exhausted_lem attempts key now v stop in
          (e, key, found, ground (arith, eq_refl key), used, lasts, ground arith)
    ]

-- A refused login is told a wait of at most fifteen minutes, in seconds below two minutes, and
-- one of its keys with five failures is free again once that wait is over.
assert_not_throttled-wait :
    (keys : List String) (now : ℕ) (attempts : Attempts) (w : Wait)
    → ((k : String) (e : Entry) → lookup k attempts ≡ some e → e.window_start ≤ now)
    → (assert_not_throttled keys now attempts).0 ≡ some w
    → IsShort w
      × ((k : String) × (mem k keys ≡ true)
          × (max_failures ≤ failures_at attempts k now)
          × ((t : ℕ) → now + wait_ms w ≤ t → failures_at attempts k t ≡ 0))
assert_not_throttled-wait keys now attempts w started h =
    let (e, k, found, listed, used, lasts, same) =
      assert_not_throttled-Refusal keys now attempts w h in
    let short : IsShort (retry_after e now) = retry_after-IsShort e now (started k e found) lasts in
    let covers : e.window_start + window_ms ≤ now + wait_ms (retry_after e now) =
      retry_after-covers e now in
    (rw same short, (k, listed, ground arith, λ t past. ground arith))

lookup-clear :
    (keys : List String) (key : String) (attempts : Attempts)
    → lookup key (clear_login_failures keys attempts)
      ≡ (if mem key keys then none else lookup key attempts)
unfolding clear_login_failures
lookup-clear [] key attempts = refl
lookup-clear (k ∷ keys) key attempts =
    ground (arith, lookup-clear keys key (erase k attempts), lookup-erase k key attempts)

-- A successful login forgets the failures of its keys and of no others.
failures_at-clear_login_failures :
    (keys : List String) (key : String) (attempts : Attempts) (now : ℕ)
    → failures_at (clear_login_failures keys attempts) key now
      ≡ (if mem key keys then 0 else failures_at attempts key now)
failures_at-clear_login_failures keys key attempts now =
    ground (arith, lookup-clear keys key attempts)

failures_at-sweep :
    (key : String) (swept now : ℕ) (attempts : Attempts)
    → Unique attempts
    → swept ≤ now
    → failures_at (sweep swept attempts) key now ≡ failures_at attempts key now
unfolding sweep
failures_at-sweep key swept now attempts u le =
    ground (arith, lookup-retain (in_window swept) key attempts u)

-- The sweep at `swept` changes no count at that time or later, so no later refusal depends on
-- whether and when it ran.
assert_not_throttled-sweep :
    (keys : List String) (swept now : ℕ) (attempts : Attempts)
    → Unique attempts
    → swept ≤ now
    → is_some (assert_not_throttled keys now (sweep swept attempts)).0
      ≡ is_some (assert_not_throttled keys now attempts).0
assert_not_throttled-sweep keys swept now attempts u le =
    assert_not_throttled_iff keys now (sweep swept attempts)
    ∙ ap (λ (f : String → ℕ). any (λ k. leb max_failures (f k)) keys)
        (fun_ext (λ k. failures_at-sweep k swept now attempts u le))
    ∙ sym (assert_not_throttled_iff keys now attempts)
