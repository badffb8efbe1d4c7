-- ===== src/Auth/Tokens.antt =====
-- apps/backend/src/trpc/auth.ts: the signing key and the five kinds of signed tokens. The package
-- jsonwebtoken is a parameter; a call of `jwt.verify` that throws is `none`.
use Prim.Native.String.{String}
use home_server_interface.Base.{
  ℕ, ◌*◌, Bool, false, ◌&&◌, ◌||◌, not, List, Option, none, some, get_or, ltb, truthy, utf16_length,
  str_eq, if◌then◌else◌, Result, ok, err,
}

-- The payloads, with every claim that some token carries.
pub record Claims : Type 0 where
  pub user_id : Option String
  pub is_admin : Option Bool
  pub is_user_manager : Option Bool
  pub capabilities : Option (List String)
  pub must_change_password : Option Bool
  pub jti : Option String
  pub purpose : Option String
  pub scope : Option String
  pub path : Option String
  pub share_link_id : Option String

abbrev pub no_claims : Claims
no_claims = record {
  user_id = none;
  is_admin = none;
  is_user_manager = none;
  capabilities = none;
  must_change_password = none;
  jti = none;
  purpose = none;
  scope = none;
  path = none;
  share_link_id = none;
}

-- `jwt.sign(claims, secret, { expiresIn })` at a time, with the lifetime in seconds, and
-- `jwt.verify(token, secret)` at a time, in milliseconds.
pub record Jwt : Type 0 where
  pub sign : Claims → String → ℕ → ℕ → String
  pub verify : String → String → ℕ → Option Claims

pub data AuthError : Type 0 where
  insecure_key not_a_session_token not_a_setup_session invalid_token_scope jwt_error : AuthError

abbrev pub dev_secret : String
dev_secret = "dev-secret"

-- The module's start: in production a missing or short JWT_SECRET throws.
unfoldable pub jwt_secret : Bool → Option String → Result AuthError String
jwt_secret is_prod env =
    if is_prod && (not (truthy env) || ltb (utf16_length (get_or env "")) 32)
    then err insecure_key
    else ok (get_or env dev_secret)

abbrev pub session_seconds : ℕ
session_seconds = 7 * 24 * 60 * 60

abbrev pub session_claims : String → Bool → Bool → List String → Bool → String → Claims
session_claims user_id is_admin is_user_manager capabilities must_change_password jti =
    record no_claims {
      user_id = some user_id;
      is_admin = some is_admin;
      is_user_manager = some is_user_manager;
      capabilities = some capabilities;
      must_change_password = some must_change_password;
      jti = some jti;
    }

abbrev pub setup_claims : String → Claims
setup_claims jti = record no_claims { purpose = some "setup"; jti = some jti }

abbrev pub file_claims : String → String → Claims
file_claims user_id path = record no_claims {
  user_id = some user_id;
  path = some path;
  scope = some "file-read";
}

abbrev pub wallpaper_claims : String → Claims
wallpaper_claims user_id = record no_claims {
  user_id = some user_id;
  scope = some "wallpaper-read";
}

abbrev pub share_claims : String → Claims
share_claims link = record no_claims { share_link_id = some link; scope = some "share" }

abbrev has_scope : Option String → String → Bool
has_scope none s = false
has_scope (some t) s = str_eq t s

abbrev scoped : Option Claims → String → Result AuthError Claims
scoped none s = err jwt_error
scoped (some c) s = if has_scope c.scope s then ok c else err invalid_token_scope

abbrev session_only : Option Claims → Result AuthError Claims
session_only none = err jwt_error
session_only (some c) = if truthy c.purpose then err not_a_session_token else ok c

abbrev setup_only : Option Claims → Result AuthError Claims
setup_only none = err jwt_error
setup_only (some c) = if has_scope c.purpose "setup" then ok c else err not_a_setup_session

-- `jti` is the `crypto.randomUUID()` of the call, `now` its time.
module _ (jwt : Jwt) (secret : String) where
  unfoldable pub sign_token : String → Bool → Bool → List String → Bool → String → ℕ → String
  sign_token user_id is_admin is_user_manager capabilities must_change_password jti now =
      jwt.sign
        (session_claims user_id is_admin is_user_manager capabilities must_change_password jti)
        secret session_seconds now

  unfoldable pub verify_token : String → ℕ → Result AuthError Claims
  verify_token token now = session_only (jwt.verify token secret now)

  unfoldable pub sign_setup_session : String → ℕ → String
  sign_setup_session jti now = jwt.sign (setup_claims jti) secret (30 * 60) now

  unfoldable pub verify_setup_session : String → ℕ → Result AuthError Claims
  verify_setup_session token now = setup_only (jwt.verify token secret now)

  unfoldable pub sign_file_token : String → String → ℕ → String
  sign_file_token user_id path now = jwt.sign (file_claims user_id path) secret (15 * 60) now

  unfoldable pub verify_file_token : String → ℕ → Result AuthError Claims
  verify_file_token token now = scoped (jwt.verify token secret now) "file-read"

  unfoldable pub sign_wallpaper_token : String → ℕ → String
  sign_wallpaper_token user_id now = jwt.sign (wallpaper_claims user_id) secret (15 * 60) now

  unfoldable pub verify_wallpaper_token : String → ℕ → Result AuthError Claims
  verify_wallpaper_token token now = scoped (jwt.verify token secret now) "wallpaper-read"

  unfoldable pub sign_share_token : String → ℕ → String
  sign_share_token link now = jwt.sign (share_claims link) secret (30 * 60) now

  unfoldable pub verify_share_token : String → ℕ → Result AuthError Claims
  verify_share_token token now = scoped (jwt.verify token secret now) "share"
