-- ===== src/Auth/Session.antt =====
-- apps/backend/src/trpc/session.ts: from a bearer header to the user's current rights. The user
-- table is the argument `load_current_user`, whose errors are passed on.
use Prim.Native.String.{String}
use home_server_interface.Base.{
  ℕ, Bool, ◌||◌, not, List, Option, none, some, get_or, truthy, slice_from, starts_with,
  if◌then◌else◌, Result, ok, err, ◌>>=◌,
}
use home_server_interface.Auth.Tokens.{Claims, Jwt, AuthError, verify_token}
use home_server_interface.Auth.Blacklist.{Blacklist, is_token_blacklisted}

pub record CurrentUser : Type 0 where
  pub is_admin : Bool
  pub is_user_manager : Bool
  pub must_change_password : Bool
  pub capabilities : List String

pub record TokenPayload : Type 0 where
  pub user_id : String
  pub jti : String
  pub is_admin : Bool
  pub is_user_manager : Bool
  pub must_change_password : Bool
  pub capabilities : List String

-- The claims that a session token needs: `!payload.userId || !payload.jti || blacklisted`.
unfoldable pub session_ids : Blacklist → Claims → Option (String × String)
unfolding is_token_blacklisted
session_ids blacklist c =
    if not (truthy c.user_id)
      || not (truthy c.jti)
      || is_token_blacklisted (get_or c.jti "") blacklist
    then none
    else some (get_or c.user_id "", get_or c.jti "")

-- The `try` block: any token error counts as no session.
unfoldable pub checked_ids : Blacklist → Result AuthError Claims → Option (String × String)
unfolding session_ids
checked_ids blacklist (ok c) = session_ids blacklist c
checked_ids blacklist (err e) = none

unfoldable pub current_payload : String → String → Option CurrentUser → Option TokenPayload
current_payload user_id jti none = none
current_payload user_id jti (some u) = some (record {
  user_id = user_id;
  jti = jti;
  is_admin = u.is_admin;
  is_user_manager = u.is_admin || u.is_user_manager;
  must_change_password = u.must_change_password;
  capabilities = u.capabilities;
})

module _ (jwt : Jwt) (secret : String) {E : Type 0}
    (load_current_user : String → Result E (Option CurrentUser)) where
  load_payload : Option (String × String) → Result E (Option TokenPayload)
  unfolding current_payload
  load_payload none = ok none
  load_payload (some (user_id, jti)) =
      load_current_user user_id >>= λ user. ok (current_payload user_id jti user)

  bearer : Blacklist → ℕ → String → Result E (Option TokenPayload)
  unfolding load_payload checked_ids verify_token
  bearer blacklist now header =
      if starts_with header "Bearer "
      then load_payload (checked_ids blacklist (verify_token jwt secret (slice_from header 7) now))
      else ok none

  unfoldable pub authenticate_session :
      Blacklist → ℕ → Option String → Result E (Option TokenPayload)
  unfolding bearer
  authenticate_session blacklist now none = ok none
  authenticate_session blacklist now (some header) = bearer blacklist now header
