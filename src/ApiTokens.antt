-- ===== src/ApiTokens.antt =====
-- apps/backend/src/services/api-tokens.ts: the personal access tokens of AI assistants. The hash,
-- the table of tokens, the user table and the reading of JSON are arguments; a scope list that
-- is no JSON array is `none`, and its elements that are no texts are left out by the argument.
pub mod Rights
mod Tests
use Prim.Native.String.{String, slice, len}
use home_server_interface.Base.{
  ℕ, ◌+◌, Bool, true, false, ◌&&◌, ◌||◌, not, List, [], ◌∷◌, Option, none, some, is_some,
  if◌then◌else◌, concat, slice_from, starts_with, ltb, filter, mem, Result, ok, err, ◌>>=◌,
}
use home_server_interface.Auth.Session.{CurrentUser, TokenPayload, current_payload}

abbrev pub token_prefix : String
token_prefix = "hsi_pat_"

abbrev pub api_scopes : List String
api_scopes =
    "files:read" ∷ "files:write" ∷ "apps:read" ∷ "apps:write" ∷ "storage:read" ∷ "storage:write"
    ∷ "users:read" ∷ "users:write" ∷ "system:read" ∷ "system:write" ∷ []

pub record ApiToken : Type 0 where
  pub id : String
  pub user_id : String
  pub scopes : String
  pub revoked_at : Option ℕ
  pub expires_at : Option ℕ
  pub last_used_at : Option ℕ

pub record TokenUser : Type 0 where
  pub payload : TokenPayload
  pub token_id : String
  pub scopes : List String

abbrev pub known_scopes : Option (List String) → List String
known_scopes none = []
known_scopes (some v) = filter (λ s. mem s api_scopes) v

unfoldable pub parse_scopes : (String → Option (List String)) → String → List String
parse_scopes parse raw = known_scopes (parse raw)

abbrev pub not_over : Option ℕ → ℕ → Bool
not_over none now = true
not_over (some expires_at) now = ltb now expires_at

unfoldable pub token_usable : ApiToken → ℕ → Bool
token_usable t now = not (is_some t.revoked_at) && not_over t.expires_at now

abbrev pub last_used_every_ms : ℕ
last_used_every_ms = 60000

abbrev pub last_use_is_old : Option ℕ → ℕ → Bool
last_use_is_old none now = true
last_use_is_old (some last) now = ltb (last + last_used_every_ms) now

module _ {E : Type 0} (hash_token : String → String)
    (find_token : String → Result E (Option ApiToken))
    (load_current_user : String → Result E (Option CurrentUser))
    (parse : String → Option (List String)) where
  -- The user, with whether the last use is written.
  unfoldable pub token_user : ApiToken → ℕ → Option TokenPayload → Option (TokenUser × Bool)
  token_user t now none = none
  token_user t now (some payload) = some (
    record { payload = payload; token_id = t.id; scopes = parse_scopes parse t.scopes },
    last_use_is_old t.last_used_at now,
  )

  unfoldable pub usable_user : ℕ → Option ApiToken → Result E (Option (TokenUser × Bool))
  usable_user now none = ok none
  usable_user now (some t) =
      if not (token_usable t now)
      then ok none
      else load_current_user t.user_id >>= λ user.
          ok (token_user t now (current_payload t.user_id (concat "pat:" t.id) user))

  unfoldable pub authenticate_api_token : Option String → ℕ → Result E (Option (TokenUser × Bool))
  authenticate_api_token none now = ok none
  authenticate_api_token (some authorization) now =
      if not (starts_with authorization (concat "Bearer " token_prefix))
      then ok none
      else find_token (hash_token (slice_from authorization 7)) >>= λ token. usable_user now token
