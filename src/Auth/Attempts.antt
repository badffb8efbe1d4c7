-- ===== src/Auth/Attempts.antt =====
-- How many passwords can be tried for one username: the login handler of routers/auth.ts with the
-- throttle of services/login-throttle.ts, one login at a time and several at once.
use home_server_interface.Auth.Counts.{
  record_login_failure-lookup, assert_not_throttled-lookup, IsFresh, assert_not_throttled-IsFresh,
  IsFresh-later, record_fresh, any-false_of_occurrences,
}
use home_server_interface.Base.{
  ℕ, ◌+◌, ◌≤◌, ◌<◌, ◌≡◌, refl, inl, inr, Bool, false, List, [], ◌∷◌, Option, none, some, true, zero,
  suc, get_elem?, length, max, get_or, subst, if◌then◌else◌, ◌⊎◌, String, Result, err, arith, All,
  eq_refl, lookup, insert, leb, Option-cases, is_some, concat, sym, ◌∙◌, ap, str_eq,
}
use home_server_interface.LoginThrottle.{
  Entry, Attempts, Wait, window_ms, max_failures, live_entry, fail_once, assert_not_throttled,
  record_login_failure,
}
use home_server_interface.LoginThrottle.Laws.{failures_at, occurrences, assert_not_throttled_iff}
use home_server_interface.Auth.Tokens.{Jwt}
use home_server_interface.Auth.Login.{
  Accounts, LoginError, Request, Server, Step, begins, finishes, unauthorized, throttle_keys,
  login_user, begin_login, finish_login, login, remove_at, too_many_requests,
}

-- Whether a step lets a login through to the check of its password.
abbrev pub is_let_through : Step → Option (Result LoginError String) → Bool
is_let_through (begins r now) none = true
is_let_through (begins r now) (some answer) = false
is_let_through (finishes k now) answer = false

abbrev pub step_time : Step → ℕ
step_time (begins r now) = now
step_time (finishes k now) = now

All-remove_at :
    (P : Request → Type 0) (k : ℕ) (r : Request) (rs : List Request)
    → get_elem? rs k ≡ some r
    → All P rs
    → P r × All P (remove_at k rs) × (length rs ≡ suc (length (remove_at k rs)))
All-remove_at P k r [] there all = absurd cc
All-remove_at P zero r (q ∷ rs) there all =
    (subst P (ap (λ o. get_or o q) there) all.0, all.1, refl)
All-remove_at P (suc k) r (q ∷ rs) there all =
    let (this, others, count) = All-remove_at P k r rs there all.1 in
    (this, (all.0, others), ap suc count)

module _ (jwt : Jwt) (secret : String) (accounts : Accounts) where
  -- The passwords that are looked at in a series of steps.
  unfoldable pub checks : List Step → Server → ℕ
  checks [] s = 0
  checks (e ∷ es) s =
      let (s', answer, rows) = login jwt secret accounts e s in
      let rest = checks es s' in if is_let_through e answer then suc rest else rest

  -- The most logins that are under way when another one is let through.
  unfoldable pub peak : List Step → Server → ℕ
  peak [] s = 0
  peak (e ∷ es) s =
      let (s', answer, rows) = login jwt secret accounts e s in
      let rest = peak es s' in
      if is_let_through e answer then max (length s.under_way) rest else rest

  login-refused :
      (r : Request) (now : ℕ) (s : Server) (w : Wait)
      → (assert_not_throttled (throttle_keys accounts r.username r.ip) now s.attempts).0 ≡ some w
      → login jwt secret accounts (begins r now) s ≡ (
        record s {
          attempts =
              (assert_not_throttled (throttle_keys accounts r.username r.ip) now s.attempts).1;
        },
        some (err (too_many_requests w)),
        [],
      )
  unfolding login begin_login
  login-refused r now s w h = rw (h, login, begin_login) refl

  login-let_through :
      (r : Request) (now : ℕ) (s : Server)
      → (assert_not_throttled (throttle_keys accounts r.username r.ip) now s.attempts).0 ≡ none
      → login jwt secret accounts (begins r now) s ≡ (
        record {
          attempts =
              (assert_not_throttled (throttle_keys accounts r.username r.ip) now s.attempts).1;
          under_way = r ∷ s.under_way;
        },
        none,
        [],
      )
  unfolding login begin_login
  login-let_through r now s h = rw (h, login, begin_login) refl

  login-finished :
      (k now : ℕ) (r : Request) (s : Server)
      → get_elem? s.under_way k ≡ some r
      → login_user jwt secret accounts r.username r.password r.jti now ≡ err unauthorized
      → (login jwt secret accounts (finishes k now) s).0 ≡ record {
        attempts = record_login_failure (throttle_keys accounts r.username r.ip) now s.attempts;
        under_way = remove_at k s.under_way;
      }
  unfolding login finish_login
  login-finished k now r s there wrong = rw (there, login, finish_login, wrong) refl

  login-unknown :
      (k now : ℕ) (s : Server)
      → get_elem? s.under_way k ≡ none
      → login jwt secret accounts (finishes k now) s ≡ (s, none, [])
  unfolding login
  login-unknown k now s there = rw (there, login) refl

module _ (jwt : Jwt) (secret : String) (accounts : Accounts) (name : String) where
  unfoldable pub user_key : String
  user_key = concat "user:" name

  -- A wrong password for the username, in whatever letters.
  abbrev pub IsWrong : Request → Type 0
  IsWrong r =
      (accounts.lower r.username ≡ name)
      × ((now : ℕ)
          → login_user jwt secret accounts r.username r.password r.jti now ≡ err unauthorized)

  abbrev pub IsGuess : Step → Type 0
  IsGuess (begins r now) = IsWrong r
  IsGuess (finishes k now) = Unit

  keys_of : Request → List String
  keys_of r = throttle_keys accounts r.username r.ip

  throttle_keys-cons :
      (username : String) (ip : Option String)
      → accounts.lower username ≡ name
      → (rest : List String) × (throttle_keys accounts username ip ≡ user_key ∷ rest)
  unfolding throttle_keys user_key
  throttle_keys-cons username none e = ([], ap (λ n. concat "user:" n ∷ []) e)
  throttle_keys-cons username (some ip) e = (
    if str_eq ip "" then [] else concat "ip:" ip ∷ [],
    ap (λ n. concat "user:" n ∷ (if str_eq ip "" then [] else concat "ip:" ip ∷ [])) e,
  )

  keys-cons : (r : Request) → IsWrong r → (rest : List String) × (keys_of r ≡ user_key ∷ rest)
  unfolding keys_of
  keys-cons r wrong = throttle_keys-cons r.username r.ip wrong.0

  occurrences-user_key : (r : Request) → IsWrong r → 1 ≤ occurrences user_key (keys_of r)
  occurrences-user_key r wrong =
      let (rest, split) = keys-cons r wrong in rw split (ground (arith, eq_refl user_key))

  -- The key of the username has failures left where the throttle lets the login through.
  unused :
      (r : Request) (now : ℕ) (e : Entry) (attempts : Attempts)
      → IsWrong r
      → lookup user_key attempts ≡ some e
      → now < e.window_start + window_ms
      → (assert_not_throttled (keys_of r) now attempts).0 ≡ none
      → e.failures < max_failures
  unused r now e attempts wrong h live passed =
      let p : String → Bool = λ k. leb max_failures (failures_at attempts k now) in
      let spare : p user_key ≡ false =
        any-false_of_occurrences p user_key (keys_of r) (occurrences-user_key r wrong)
          (sym (assert_not_throttled_iff (keys_of r) now attempts) ∙ ap is_some passed) in
      ground arith

  -- The state after the first failure that counts.
  record_first :
      (r : Request) (now : ℕ) (attempts : Attempts)
      → IsWrong r
      → IsFresh user_key now attempts
      → (n : ℕ) × (1 ≤ n)
        × (lookup user_key (record_login_failure (keys_of r) now attempts)
            ≡ some (record { failures = n; window_start = now }))
  unfolding record_login_failure
  record_first r now attempts wrong h =
      let (rest, split) = keys-cons r wrong in
      let first = record_fresh user_key 0 now attempts h in
      (
        1 + occurrences user_key rest,
        omega arith,
        rw split (
            record_login_failure-lookup user_key (record { failures = 1; window_start = now }) now
              (omega arith) rest 1
              (insert user_key (fail_once (live_entry attempts user_key now).0 now)
                (live_entry attempts user_key now).1)
              first),
      )

  -- The throttle has counted the logins that finished since the start.
  Counted : ℕ → ℕ → Attempts → Type 0
  Counted start finished attempts =
      ((finished ≡ 0) × IsFresh user_key start attempts)
      ⊎ ((e : Entry) × (lookup user_key attempts ≡ some e)
          × (start ≤ e.window_start)
          × (finished ≤ e.failures))

  Counted-begin :
      (start finished now : ℕ) (keys : List String) (attempts : Attempts)
      → now < start + window_ms
      → Counted start finished attempts
      → Counted start finished (assert_not_throttled keys now attempts).1
  unfolding Counted
  Counted-begin start finished now keys attempts lt (inl (none_yet, fresh)) =
      inl (none_yet, assert_not_throttled-IsFresh user_key start now keys attempts fresh)
  Counted-begin start finished now keys attempts lt (inr (e, there, from, counted)) = inr (
    e,
    assert_not_throttled-lookup user_key e now (omega (arith, lt, from)) keys attempts there,
    from,
    counted,
  )

  Counted-finish :
      (start finished now : ℕ) (r : Request) (attempts : Attempts)
      → start ≤ now
      → now < start + window_ms
      → IsWrong r
      → Counted start finished attempts
      → Counted start (suc finished) (record_login_failure (keys_of r) now attempts)
  unfolding Counted
  Counted-finish start finished now r attempts le lt wrong (inl (none_yet, fresh)) =
      let later = IsFresh-later user_key start now attempts le fresh in
      let (n, one, after) = record_first r now attempts wrong later in
      inr (record { failures = n; window_start = now }, after, le, omega (arith, none_yet, one))
  Counted-finish start finished now r attempts le lt wrong (inr (e, there, from, counted)) = inr (
    record e { failures = e.failures + occurrences user_key (keys_of r) },
    record_login_failure-lookup user_key e now (omega (arith, lt, from)) (keys_of r) e.failures
        attempts there,
    from,
    omega (arith, counted, occurrences-user_key r wrong),
  )

  Counted-spare :
      (start finished now : ℕ) (r : Request) (attempts : Attempts)
      → now < start + window_ms
      → IsWrong r
      → Counted start finished attempts
      → (assert_not_throttled (keys_of r) now attempts).0 ≡ none
      → finished < max_failures
  unfolding Counted
  Counted-spare start finished now r attempts lt wrong (inl (none_yet, fresh)) passed =
      omega (arith, none_yet)
  Counted-spare start finished now r attempts lt wrong (inr (e, there, from, counted)) passed =
      omega (arith, counted, unused r now e attempts wrong there (omega (arith, lt, from)) passed)

  InTime : ℕ → Step → Type 0
  InTime start e = (start ≤ step_time e) × (step_time e < start + window_ms) × IsGuess e

  -- What is looked at from here on, with what has finished and what is under way.
  IsBounded : ℕ → List Step → Server → Type 0
  IsBounded finished es s =
      (checks jwt secret accounts es s ≡ 0)
      ⊎ (finished + length s.under_way + checks jwt secret accounts es s
          ≤ max_failures + peak jwt secret accounts es s)

  checks-IsBounded :
      (start finished : ℕ) (es : List Step) (s : Server)
      → Counted start finished s.attempts
      → All IsWrong s.under_way
      → All (InTime start) es
      → IsBounded finished es s
  unfolding checks peak IsBounded InTime keys_of
  checks-IsBounded start finished [] s counted wrong times = inl refl
  checks-IsBounded start finished (begins r now ∷ es) s counted wrong (time, times) =
      let keys = keys_of r in
      let after : Attempts = (assert_not_throttled keys now s.attempts).1 in
      let counted' = Counted-begin start finished now keys s.attempts time.1 counted in
      elim (Option-cases (assert_not_throttled keys now s.attempts).0) [
        | inr (w, stop) ↦ rw (login-refused jwt secret accounts r now s w stop) (
            checks-IsBounded start finished es (record s { attempts = after }) counted' wrong times)
        | inl pass ↦
            let s' : Server = record { attempts = after; under_way = r ∷ s.under_way } in
            let spare = Counted-spare start finished now r s.attempts time.1 time.2 counted pass in
            let ih = checks-IsBounded start finished es s' counted' (time.2, wrong) times in
            rw (login-let_through jwt secret accounts r now s pass)
              (inr (elim ih [ inl e ↦ omega (arith, e, spare) | inr e ↦ omega (arith, e, spare) ]))
      ]
  checks-IsBounded start finished (finishes k now ∷ es) s counted wrong (time, times) =
      elim (Option-cases (get_elem? s.under_way k)) [
        | inl e ↦
            rw (login-unknown jwt secret accounts k now s e)
              (checks-IsBounded start finished es s counted wrong times)
        | inr (r, e) ↦
            let (this, others, count) = All-remove_at IsWrong k r s.under_way e wrong in
            let s' : Server = record {
              attempts = record_login_failure (keys_of r) now s.attempts;
              under_way = remove_at k s.under_way;
            } in
            let ih =
              checks-IsBounded start (suc finished) es s'
                (Counted-finish start finished now r s.attempts time.0 time.1 this counted) others
                times in
            rw (login-finished jwt secret accounts k now r s e (this.1 now))
              (elim ih [ inl z ↦ inl z | inr z ↦ inr (omega (arith, z, count)) ])
      ]

  -- However many wrong passwords are sent for a username, in whatever letters and from whatever
  -- addresses, and however their checks interleave: in fifteen minutes from a time at which no
  -- failure of the username counts and none of its logins is under way, at most five of them are
  -- looked at, and as many more as logins were under way at once when another one was let through.
  pub checks-le-max_failures :
      (start : ℕ) (es : List Step) (attempts : Attempts)
      → (live_entry attempts user_key start).0 ≡ none
      → All (λ e. (start ≤ step_time e) × (step_time e < start + window_ms) × IsGuess e) es
      → (let s : Server = record { attempts = attempts; under_way = [] } in
          checks jwt secret accounts es s ≤ 5 + peak jwt secret accounts es s)
  unfolding IsBounded Counted InTime
  checks-le-max_failures start es attempts fresh times =
      let s : Server = record { attempts = attempts; under_way = [] } in
      elim (checks-IsBounded start 0 es s (inl (refl, fresh)) tt times) [
        | inl e ↦ omega (arith, e)
        | inr e ↦ omega (arith, e)
      ]
