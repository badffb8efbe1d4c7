-- ===== src/LoginThrottle/Laws.antt =====
-- What the throttle of login-throttle.ts promises, against the number of failures that count.
use home_server_interface.Base.{
  ℕ, ◌+◌, ◌-◌, ◌≡◌, refl, ap, fun_ext, ◌∙◌, suc, inl, inr, true, List, [], ◌∷◌, Option, none, some,
  String, str_eq, eq_iff, lookup, insert, lookup-insert, lookup-erase, leb, if◌then◌else◌, any,
  is_some, arith, Bool-cases, Option-cases,
}
use home_server_interface.LoginThrottle.{
  Entry, Attempts, window_ms, max_failures, in_window, live_entry, exhausted, assert_not_throttled,
  fail_once, record_login_failure,
}

abbrev pub failures_of : ℕ → Option Entry → ℕ
failures_of now none = 0
failures_of now (some e) = if in_window now e then e.failures else 0

-- The failures of a key that count at a time: those of its window, while that lasts.
abbrev pub failures_at : Attempts → String → ℕ → ℕ
failures_at attempts key now = failures_of now (lookup key attempts)

live_entry-failures_of :
    (attempts : Attempts) (key : String) (now : ℕ)
    → failures_of now (live_entry attempts key now).0 ≡ failures_at attempts key now
unfolding live_entry
live_entry-failures_of attempts key now = ground arith

live_entry-failures_at :
    (attempts : Attempts) (key k : String) (now : ℕ)
    → failures_at (live_entry attempts key now).1 k now ≡ failures_at attempts k now
unfolding live_entry
live_entry-failures_at attempts key k now =
    ground (arith, lookup-erase key k attempts, eq_iff key k)

abbrev InWindow : ℕ → Option Entry → Type 0
InWindow now none = Unit
InWindow now (some e) = in_window now e ≡ true

live_entry-InWindow :
    (attempts : Attempts) (key : String) (now : ℕ) → InWindow now (live_entry attempts key now).0
unfolding live_entry
live_entry-InWindow attempts key now = elim (Option-cases (lookup key attempts)) [
  | inl e ↦ rw (e, InWindow) tt
  | inr (v, e) ↦ elim (Bool-cases (leb window_ms (now - v.window_start))) [
    | inl old ↦ rw (e, old, InWindow) tt
    | inr new ↦ rw (e, new, InWindow) (ground arith)
  ]
]

exhausted_iff :
    (o : Option Entry) (now : ℕ)
    → InWindow now o
    → is_some (exhausted o now) ≡ leb max_failures (failures_of now o)
unfolding exhausted
exhausted_iff none now h = refl
exhausted_iff (some e) now h = ground arith

-- A login is refused exactly when one of its keys has used up its failures.
pub assert_not_throttled_iff :
    (keys : List String) (now : ℕ) (attempts : Attempts)
    → is_some (assert_not_throttled keys now attempts).0
      ≡ any (λ k. leb max_failures (failures_at attempts k now)) keys
unfolding assert_not_throttled
assert_not_throttled_iff [] now attempts = refl
assert_not_throttled_iff (key ∷ keys) now attempts =
    let entry : Option Entry = (live_entry attempts key now).0 in
    let attempts' : Attempts = (live_entry attempts key now).1 in
    let rest : is_some (assert_not_throttled keys now attempts').0
        ≡ any (λ k. leb max_failures (failures_at attempts k now)) keys =
      assert_not_throttled_iff keys now attempts'
      ∙ ap (λ (f : String → ℕ). any (λ k. leb max_failures (f k)) keys)
          (fun_ext (λ k. live_entry-failures_at attempts key k now)) in
    ground (
      arith,
      rest,
      exhausted_iff entry now (live_entry-InWindow attempts key now),
      live_entry-failures_of attempts key now,
    )

-- How often a key is given in one call.
abbrev pub occurrences : String → List String → ℕ
occurrences k [] = 0
occurrences k (key ∷ keys) = if str_eq key k then suc (occurrences k keys) else occurrences k keys

record_once :
    (attempts : Attempts) (key k : String) (now : ℕ)
    → failures_at
        (insert key (fail_once (live_entry attempts key now).0 now) (live_entry attempts key now).1)
        k
        now
      ≡ failures_at attempts k now + occurrences k (key ∷ [])
record_once attempts key k now =
    let entry : Option Entry = (live_entry attempts key now).0 in
    let attempts' : Attempts = (live_entry attempts key now).1 in
    ground (
      arith,
      lookup-insert key k (fail_once entry now) attempts',
      live_entry-InWindow attempts key now,
      live_entry-failures_of attempts key now,
      live_entry-failures_at attempts key k now,
      eq_iff key k,
    )

-- A recorded failure adds one for each of its keys, and leaves the others' counts alone.
failures_at-record_login_failure :
    (keys : List String) (now : ℕ) (attempts : Attempts) (k : String)
    → failures_at (record_login_failure keys now attempts) k now
      ≡ failures_at attempts k now + occurrences k keys
unfolding record_login_failure
failures_at-record_login_failure [] now attempts k = omega arith
failures_at-record_login_failure (key ∷ keys) now attempts k = ground (
  arith,
  record_once attempts key k now,
  failures_at-record_login_failure keys now
      (insert key (fail_once (live_entry attempts key now).0 now) (live_entry attempts key now).1)
      k,
)
