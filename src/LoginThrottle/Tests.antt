-- ===== src/LoginThrottle/Tests.antt =====
-- The throttle of login-throttle.ts on concrete inputs.
use home_server_interface.Base.{
  ◌≤◌, ◌≡◌, refl, List, [], ◌∷◌, none, some, String, leb, any, is_some, arith, lookup,
}
use home_server_interface.LoginThrottle.{
  Entry, Attempts, minutes, seconds, max_failures, assert_not_throttled,
}
use home_server_interface.LoginThrottle.Laws.{failures_at, assert_not_throttled_iff}

abbrev five : Attempts
five =
    ("user:ana", record { failures = 5; window_start = 1000 })
    ∷ ("ip:10.0.0.7", record { failures = 2; window_start = 4000 })
    ∷ []

abbrev keys : List String
keys = "ip:10.0.0.7" ∷ "user:ana" ∷ []

refused : (assert_not_throttled keys 5000 five).0 ≡ some (minutes 15)
unfolding assert_not_throttled
refused = refl

refused_late : (assert_not_throttled keys 900000 five).0 ≡ some (seconds 1)
unfolding assert_not_throttled
refused_late = refl

free_again :
    assert_not_throttled keys 901000 five
    ≡ (none, ("ip:10.0.0.7", record { failures = 2; window_start = 4000 }) ∷ [])
unfolding assert_not_throttled
free_again = refl

assert_not_throttled_iff_example :
    is_some (assert_not_throttled keys 5000 five).0
    ≡ any (λ k. leb max_failures (failures_at five k 5000)) keys
assert_not_throttled_iff_example = assert_not_throttled_iff keys 5000 five

started : (k : String) (e : Entry) → lookup k five ≡ some e → e.window_start ≤ 5000
started k e h = ground arith
