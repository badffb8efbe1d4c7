-- ===== src/Auth/Login.antt =====
-- apps/backend/src/trpc/routers/auth.ts and services/auth.service.ts: the login handler with its
-- throttle, and the password check behind it. Between the throttle's check and the record of the
-- outcome the handler waits for the database and bcrypt, so other logins run in between: `login` is
-- one of its two parts, from one wait to the next. The user table, bcrypt and the folding of the
-- username to lower case are arguments; the password push to the Linux account, the token's
-- randomness and the audit row's address are left out.
use home_server_interface.Base.{
  ℕ, zero, suc, get_elem?, Bool, true, false, ◌||◌, List, [], ◌∷◌, Option, none, some, String,
  concat, if◌then◌else◌, Result, ok, err, str_eq,
}
use home_server_interface.LoginThrottle.{
  Attempts, Wait, assert_not_throttled, record_login_failure, clear_login_failures,
}
use home_server_interface.Auth.Tokens.{Jwt, sign_token}

pub record UserRow : Type 0 where
  pub id : String
  pub password : String
  pub is_admin : Bool
  pub is_user_manager : Bool
  pub must_change_password : Bool
  pub capabilities : List String

pub data LoginError : Type 0 where
  too_many_requests : Wait → LoginError
  unauthorized : LoginError
  -- any other error, such as one of the database
  internal : String → LoginError

-- An `auth.login` row of the audit log.
pub record LoginEntry : Type 0 where
  pub user_id : Option String
  pub target : String
  pub success : Bool

-- What the handler uses of its surroundings: `prisma.user.findUnique`, `bcrypt.compare`,
-- `toLowerCase`.
pub record Accounts : Type 0 where
  pub find_user : String → Result String (Option UserRow)
  pub compare : String → String → Bool
  pub lower : String → String

pub record Request : Type 0 where
  pub username : String
  pub password : String
  pub ip : Option String
  -- the random id of the token, should there be one
  pub jti : String

-- The throttle's map, and the logins that wait for the database or bcrypt.
pub record Server : Type 0 where
  pub attempts : Attempts
  pub under_way : List Request

pub data Step : Type 0 where
  begins : Request → ℕ → Step
  finishes : ℕ → ℕ → Step

abbrev pub remove_at : ℕ → List Request → List Request
remove_at k [] = []
remove_at zero (r ∷ rs) = rs
remove_at (suc k) (r ∷ rs) = r ∷ remove_at k rs

unfoldable pub throttle_keys : Accounts → String → Option String → List String
throttle_keys accounts username none = concat "user:" (accounts.lower username) ∷ []
throttle_keys accounts username (some ip) =
    concat "user:" (accounts.lower username) ∷ (if str_eq ip "" then [] else concat "ip:" ip ∷ [])

module _ (jwt : Jwt) (secret : String) (accounts : Accounts) where
  token_for : String → ℕ → UserRow → String
  token_for jti now u =
      sign_token jwt secret u.id u.is_admin (u.is_admin || u.is_user_manager) u.capabilities
        u.must_change_password jti now

  unfoldable pub login_user : String → String → String → ℕ → Result LoginError String
  unfolding token_for
  login_user username password jti now = elim (accounts.find_user username) [
    | err e ↦ err (internal e)
    | ok none ↦ err unauthorized
    | ok (some u) ↦
        if accounts.compare password u.password then ok (token_for jti now u) else err unauthorized
  ]

  -- `userId` as the handler knows it when it writes the audit row.
  found_id : Result String (Option UserRow) → Option String
  found_id (ok (some u)) = some u.id
  found_id (ok none) = none
  found_id (err e) = none

  record_outcome : List String → ℕ → Result LoginError String → Attempts → Attempts
  record_outcome keys now (ok token) attempts = clear_login_failures keys attempts
  record_outcome keys now (err unauthorized) attempts = record_login_failure keys now attempts
  record_outcome keys now (err e) attempts = attempts

  is_ok : Result LoginError String → Bool
  is_ok (ok token) = true
  is_ok (err e) = false

  -- What the handler does before its first wait: the refusal of the throttle, if there is one.
  unfoldable pub begin_login : Request → ℕ → Attempts → Option Wait × Attempts
  begin_login r now attempts =
      assert_not_throttled (throttle_keys accounts r.username r.ip) now attempts

  -- What it does once the password has been checked: the failures recorded or cleared, the answer
  -- and the audit row.
  unfoldable pub finish_login :
      Request → ℕ → Attempts → Attempts × Result LoginError String × List LoginEntry
  unfolding found_id record_outcome is_ok
  finish_login r now attempts =
      let result = login_user r.username r.password r.jti now in
      (
        record_outcome (throttle_keys accounts r.username r.ip) now result attempts,
        result,
        record {
          user_id = found_id (accounts.find_user r.username);
          target = r.username;
          success = is_ok result;
        }
            ∷ [],
      )

  -- A step of the handlers: a request comes, or the k-th login under way goes on. The state after
  -- it, the answer if the step gives one, and the audit rows.
  unfoldable pub login :
      Step → Server → Server × Option (Result LoginError String) × List LoginEntry
  unfolding begin_login finish_login
  login (begins r now) s =
      let checked = begin_login r now s.attempts in
      elim checked.0 [
        | some w ↦ (record s { attempts = checked.1 }, some (err (too_many_requests w)), [])
        | none ↦ (record { attempts = checked.1; under_way = r ∷ s.under_way }, none, [])
      ]
  login (finishes k now) s = elim (get_elem? s.under_way k) [
    | none ↦ (s, none, [])
    | some r ↦
        let (attempts, result, rows) = finish_login r now s.attempts in
        (record { attempts = attempts; under_way = remove_at k s.under_way }, some result, rows)
  ]
