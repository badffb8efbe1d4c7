-- ===== src/Auth/Tests.antt =====
-- Tokens, sessions, guards and logins on concrete inputs.
use home_server_interface.Base.{
  zero, ℕ, ◌+◌, ◌/◌, ◌≤◌, ◌≡◌, ◌↔◌, refl, true, false, [], ◌∷◌, Option, none, some, String, Result,
  ok, err, concat, if◌then◌else◌, str_eq, ltb, arith, get_or, ◌&&◌, List, suc,
}
use home_server_interface.LoginThrottle.{live_entry, assert_not_throttled, record_login_failure}
use home_server_interface.Auth.Tokens.{
  Claims, Jwt, file_claims, session_claims, session_seconds, sign_token, jwt_secret, insecure_key,
}
use home_server_interface.Auth.Blacklist.{blacklist_token, blacklist_all}
use home_server_interface.Auth.Session.{CurrentUser, TokenPayload, authenticate_session}
use home_server_interface.Auth.Purposes.{
  file, for_file, claims_of, purpose_of, mint, accepts, accepts-mint,
}
use home_server_interface.Auth.Logout.{
  Grants, authenticate_session_iff, authenticate_session-blacklist_token,
}
use home_server_interface.Auth.Procedures.{Context, admin, mcp, mutation, Code, Audit, guards}
use home_server_interface.Auth.Guards.{IsAllowed, guards_iff}
use home_server_interface.Auth.Login.{
  Accounts, Request, Server, Step, begins, finishes, login_user, begin_login, finish_login, login,
  throttle_keys,
}
use home_server_interface.Auth.Attempts.{checks, peak, checks-le-max_failures}

short_key :
    (jwt_secret true (some "hunter2") ≡ err insecure_key)
    × (jwt_secret true none ≡ err insecure_key)
unfolding jwt_secret
short_key = (refl, refl)

-- A signer of two tokens: a session of Ana that was signed at time 0, and a link to a file.
abbrev ana : Claims
ana = session_claims "ana" false false [] false "j1"

abbrev link : Claims
link = file_claims "ana" "/data/a.txt"

abbrev two_tokens : Jwt
two_tokens = record {
  sign = λ c secret ttl now. if str_eq (get_or c.scope "") "file-read" then "file" else "session";
  verify = λ token secret now.
      if str_eq token "file"
      then some link
      else if str_eq token "session" && ltb (now / 1000) session_seconds
      then some ana
      else none;
}

abbrev users : String → Result String (Option CurrentUser)
users id =
    if str_eq id "ana"
    then ok (
        some (record {
          is_admin = true;
          is_user_manager = false;
          must_change_password = false;
          capabilities = "storage" ∷ [];
        }))
    else ok none

verified :
    (c : Claims)
    → two_tokens.verify (mint two_tokens "k" (file "ana" "/data/a.txt") 5) "k" 9 ≡ some c
    → c ≡ claims_of (file "ana" "/data/a.txt")
unfolding mint
verified c h = cc

accepts-mint_example : for_file ≡ purpose_of (file "ana" "/data/a.txt")
unfolding accepts mint
accepts-mint_example =
    accepts-mint two_tokens "k" users [] (file "ana" "/data/a.txt") 5 9 verified for_file refl

abbrev payload : TokenPayload
payload = record {
  user_id = "ana";
  jti = "j1";
  is_admin = true;
  is_user_manager = true;
  must_change_password = false;
  capabilities = "storage" ∷ [];
}

granted :
    authenticate_session two_tokens "k" users [] 9 (some (concat "Bearer " "session"))
    ≡ ok (some payload)
unfolding authenticate_session
granted = refl

authenticate_session_iff_example :
    (authenticate_session two_tokens "k" users [] 9 (some (concat "Bearer " "session"))
      ≡ ok (some payload))
    ↔ Grants two_tokens "k" users [] 9 "session" payload
authenticate_session_iff_example =
    authenticate_session_iff two_tokens "k" users [] 9 "session" payload

abbrev week : ℕ
week = 604800000

signed : (c : Claims) → two_tokens.verify "session" "k" (week + 5000) ≡ some c → c.jti ≡ some "j1"
signed c h = absurd (ground arith)

authenticate_session-blacklist_token_example :
    authenticate_session two_tokens "k" users
      (blacklist_all (("j2", week + 4000) ∷ []) (blacklist_token "j1" 2000 []))
      (week + 5000)
      (some (concat "Bearer " "session"))
    ≡ ok none
unfolding sign_token
authenticate_session-blacklist_token_example =
    authenticate_session-blacklist_token two_tokens "k" users "ana" "j1" false false [] false 0 2000
      (week + 5000) (("j2", week + 4000) ∷ []) [] "session" refl signed (λ late. refl) tt
      (omega arith) (omega arith)

abbrev by_token : Context
by_token = record { user = some payload; via = mcp; api_token = some "t1" }

guards_iff_example :
    (guards admin false by_token "storage.execute" mutation ≡ ok tt)
    ↔ IsAllowed admin false by_token "storage.execute" mutation payload
guards_iff_example = guards_iff admin false by_token "storage.execute" mutation payload refl

abbrev body : TokenPayload → Result Code ℕ × Audit
body u = (ok 7, record { success = none; target = some "md0" })

abbrev accounts : Accounts
accounts = record {
  find_user = λ name. ok (
      some (record {
        id = "ana";
        password = "h";
        is_admin = false;
        is_user_manager = false;
        must_change_password = false;
        capabilities = [];
      }));
  compare = λ given hash. false;
  lower = λ s. s;
}

abbrev guess : Request
guess = record { username = "ana"; password = "p"; ip = some "10.0.0.7"; jti = "j" }

abbrev quiet : Server
quiet = record { attempts = []; under_way = [] }

-- One login after the other: of six wrong passwords five are looked at.
abbrev in_turn : ℕ → List Step
in_turn zero = []
in_turn (suc n) = begins guess 1 ∷ finishes 0 2 ∷ in_turn n

six_tries :
    (checks two_tokens "k" accounts (in_turn 6) quiet ≡ 5)
    × (peak two_tokens "k" accounts (in_turn 6) quiet ≡ 0)
unfolding checks peak login assert_not_throttled record_login_failure throttle_keys login_user
    begin_login finish_login
six_tries = (refl, refl)

-- Seven at once are all looked at.
abbrev at_once : ℕ → List Step
at_once zero = []
at_once (suc n) = begins guess 1 ∷ at_once n

seven_at_once : checks two_tokens "k" accounts (at_once 7) quiet ≡ 7
unfolding checks login assert_not_throttled throttle_keys begin_login
seven_at_once = refl

checks-le-max_failures_example :
    checks two_tokens "k" accounts (in_turn 2) quiet
    ≤ 5 + peak two_tokens "k" accounts (in_turn 2) quiet
unfolding login_user live_entry
checks-le-max_failures_example =
    checks-le-max_failures two_tokens "k" accounts "ana" 1 (in_turn 2) [] refl (
      (omega arith, omega arith, (refl, λ now. refl)),
      (
        (omega arith, omega arith, tt),
        ((omega arith, omega arith, (refl, λ now. refl)), ((omega arith, omega arith, tt), tt)),
      ),
    )
