-- ===== src/LoginThrottle.antt =====
-- apps/backend/src/services/login-throttle.ts: the fixed-window throttle of failed logins.
-- `attempts` is the module's Map, passed in and returned; times are milliseconds since the epoch,
-- the value of the one `Date.now()` that each call makes.
pub mod Laws
pub mod Lockout
mod Tests
use home_server_interface.Base.{
  ℕ, ◌+◌, ◌-◌, ◌*◌, ◌/◌, Bool, List, [], ◌∷◌, Option, none, some, String, lookup, insert, erase,
  retain, ltb, leb, if◌then◌else◌,
}

abbrev pub window_ms : ℕ
window_ms = 15 * 60 * 1000

abbrev pub max_failures : ℕ
max_failures = 5

pub record Entry : Type 0 where
  pub failures : ℕ
  pub window_start : ℕ

abbrev pub Attempts : Type 0
Attempts = List (String × Entry)

-- `now - entry.windowStart < WINDOW_MS`
abbrev pub in_window : ℕ → Entry → Bool
in_window now e = ltb (now - e.window_start) window_ms

-- An expired entry is deleted on the way.
unfoldable pub live_entry : Attempts → String → ℕ → Option Entry × Attempts
live_entry attempts key now = elim (lookup key attempts) [
  | none ↦ (none, attempts)
  | some e ↦
      if leb window_ms (now - e.window_start)
      then (none, erase key attempts)
      else (some e, attempts)
]

-- The `${wait}` of the message: "n minutes" or "n seconds".
pub data Wait : Type 0 where
  minutes seconds : ℕ → Wait

abbrev pub ceil_div : ℕ → ℕ → ℕ
ceil_div a b = (a + (b - 1)) / b

unfoldable pub retry_after : Entry → ℕ → Wait
retry_after e now =
    let sec = ceil_div (e.window_start + window_ms - now) 1000 in
    if leb 120 sec then minutes (ceil_div sec 60) else seconds sec

unfoldable pub exhausted : Option Entry → ℕ → Option Wait
unfolding retry_after
exhausted none now = none
exhausted (some e) now = if leb max_failures e.failures then some (retry_after e now) else none

-- `some w` is the TOO_MANY_REQUESTS error that names the wait `w`.
unfoldable pub assert_not_throttled : List String → ℕ → Attempts → Option Wait × Attempts
unfolding live_entry exhausted
assert_not_throttled [] now attempts = (none, attempts)
assert_not_throttled (key ∷ keys) now attempts =
    let (entry, attempts') = live_entry attempts key now in
    let rest = assert_not_throttled keys now attempts' in
    elim (exhausted entry now) [ some w ↦ (some w, attempts') | none ↦ rest ]

abbrev pub fail_once : Option Entry → ℕ → Entry
fail_once none now = record { failures = 1; window_start = now }
fail_once (some e) now = record e { failures = e.failures + 1 }

unfoldable pub record_login_failure : List String → ℕ → Attempts → Attempts
unfolding live_entry
record_login_failure [] now attempts = attempts
record_login_failure (key ∷ keys) now attempts =
    let (entry, attempts') = live_entry attempts key now in
    record_login_failure keys now (insert key (fail_once entry now) attempts')

unfoldable pub clear_login_failures : List String → Attempts → Attempts
clear_login_failures [] attempts = attempts
clear_login_failures (key ∷ keys) attempts = clear_login_failures keys (erase key attempts)

-- The interval's sweep of expired windows.
unfoldable pub sweep : ℕ → Attempts → Attempts
sweep now attempts = retain (in_window now) attempts
