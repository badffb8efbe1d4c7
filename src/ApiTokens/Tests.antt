-- ===== src/ApiTokens/Tests.antt =====
-- A token of an administrator that may read files, for the theorem about tokens.
use Prim.Native.String.{String}
use home_server_interface.Base.{true, false, List, [], ◌∷◌, Option, none, some, refl, Result, ok}
use home_server_interface.Auth.Session.{CurrentUser, current_payload}
use home_server_interface.ApiTokens.{
  ApiToken, TokenUser, authenticate_api_token, token_user, usable_user, token_usable, parse_scopes,
}
use home_server_interface.ApiTokens.Rights.{IsBehind, authenticate_api_token_lem}

abbrev laptop : ApiToken
laptop = record {
  id = "t1";
  user_id = "u1";
  scopes = "files:read";
  revoked_at = none;
  expires_at = some 5000;
  last_used_at = none;
}

abbrev ada : CurrentUser
ada = record {
  is_admin = true;
  is_user_manager = false;
  must_change_password = false;
  capabilities = [];
}

abbrev read_files : TokenUser
read_files = record {
  payload = record {
    user_id = "u1";
    jti = "pat:t1";
    is_admin = true;
    is_user_manager = true;
    must_change_password = false;
    capabilities = [];
  };
  token_id = "t1";
  scopes = "files:read" ∷ [];
}

abbrev hash : String → String
hash s = s

abbrev tokens : String → Result String (Option ApiToken)
tokens s = ok (some laptop)

abbrev users : String → Result String (Option CurrentUser)
users s = ok (some ada)

abbrev read_json : String → Option (List String)
read_json s = some (s ∷ "root" ∷ [])

authenticate_api_token_lem_example :
    (t : ApiToken) × (user : CurrentUser) × IsBehind hash tokens users read_json "Bearer hsi_pat_x"
      4000 read_files t user
unfolding authenticate_api_token usable_user token_usable token_user current_payload parse_scopes
authenticate_api_token_lem_example =
    authenticate_api_token_lem hash tokens users read_json "Bearer hsi_pat_x" 4000 read_files true
      refl
