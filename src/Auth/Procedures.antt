-- ===== src/Auth/Procedures.antt =====
-- apps/backend/src/trpc/index.ts: the guards in front of every tRPC procedure, in the order in
-- which the four procedure builders chain them, and the audit entry of a mutation.
use home_server_interface.Base.{
  Bool, true, false, ◌&&◌, ◌||◌, not, List, [], ◌∷◌, Option, none, some, String, starts_with,
  str_eq, mem, is_some, if◌then◌else◌, Result, ok, err, ◌>>=◌,
}
use home_server_interface.Auth.Session.{TokenPayload}

pub data ProcedureType : Type 0 where
  query mutation subscription : ProcedureType

pub data Via : Type 0 where
  dashboard mcp assistant : Via

-- `audit.success`, which a procedure may set, and the entry's target, the `auditTarget` of the
-- input. The entry's `meta` and `ip` are left out.
pub record Audit : Type 0 where
  pub success : Option Bool
  pub target : Option String

pub record Context : Type 0 where
  pub user : Option TokenPayload
  pub via : Via
  -- the id of the access token of the call
  pub api_token : Option String

pub data Code : Type 0 where
  unauthorized forbidden service_unavailable : Code
  -- the error of a procedure's own body
  thrown : String → Code

abbrev pub is_mutation : ProcedureType → Bool
is_mutation mutation = true
is_mutation _ = false

abbrev pub is_assistant : Via → Bool
is_assistant assistant = true
is_assistant _ = false

unfoldable pub closed_to_api_tokens : String → Bool
closed_to_api_tokens path =
    starts_with path "apiToken."
    || starts_with path "agentAction."
    || starts_with path "assistant."
    || starts_with path "auth."
    || starts_with path "setup."
    || str_eq path "user.changePassword"

abbrev pub Guard : Type 0
Guard = Result Code (Unit {0})

unfoldable pub is_authed : Context → String → Guard
unfolding closed_to_api_tokens
is_authed ctx path =
    if not (is_some ctx.user)
    then err unauthorized
    else if (is_some ctx.api_token || is_assistant ctx.via) && closed_to_api_tokens path
    then err forbidden
    else ok tt

abbrev pub must_change : Option TokenPayload → Bool
must_change none = false
must_change (some u) = u.must_change_password

abbrev pub exempt_while_must_change_password : List String
exempt_while_must_change_password = "user.changePassword" ∷ "auth.logout" ∷ []

unfoldable pub block_if_must_change_password : Context → String → ProcedureType → Guard
block_if_must_change_password ctx path type =
    if is_mutation type && must_change ctx.user && not (mem path exempt_while_must_change_password)
    then err forbidden
    else ok tt

-- `maintenance` is whether `currentMaintenance()` returns one.
unfoldable pub block_during_maintenance : Bool → String → ProcedureType → Guard
block_during_maintenance maintenance path type =
    if is_mutation type && not (starts_with path "auth.") && maintenance
    then err service_unavailable
    else ok tt

abbrev pub admin_of : Option TokenPayload → Bool
admin_of none = false
admin_of (some u) = u.is_admin

abbrev pub manager_of : Option TokenPayload → Bool
manager_of none = false
manager_of (some u) = u.is_user_manager

abbrev pub capability_of : String → Option TokenPayload → Bool
capability_of c none = false
capability_of c (some u) = mem c u.capabilities

unfoldable pub is_admin : Context → Guard
is_admin ctx = if admin_of ctx.user then ok tt else err forbidden

unfoldable pub is_user_manager : Context → Guard
is_user_manager ctx = if admin_of ctx.user || manager_of ctx.user then ok tt else err forbidden

unfoldable pub has_capability : String → Context → Guard
has_capability c ctx =
    if admin_of ctx.user || capability_of c ctx.user then ok tt else err forbidden

-- The four builders: protectedProcedure, adminProcedure, userManagerProcedure, storageProcedure.
pub data Procedure : Type 0 where
  protected admin user_manager storage : Procedure

unfoldable pub role_guard : Procedure → Context → Guard
unfolding is_admin is_user_manager has_capability
role_guard protected ctx = ok tt
role_guard admin ctx = is_admin ctx
role_guard user_manager ctx = is_user_manager ctx
role_guard storage ctx = has_capability "storage" ctx

unfoldable pub guards : Procedure → Bool → Context → String → ProcedureType → Guard
guards p maintenance ctx path type = is_authed ctx path >>= λ _.
    block_if_must_change_password ctx path type >>= λ _.
    block_during_maintenance maintenance path type >>= λ _. role_guard p ctx

pub record AuditEntry : Type 0 where
  pub user_id : String
  pub action : String
  pub target : Option String
  pub success : Bool
  pub via : Via
  pub token_id : Option String

abbrev pub succeeded {ℓ} : {A : Type ℓ} → Result Code A → Option Bool → Bool
succeeded (err e) s = false
succeeded (ok a) (some false) = false
succeeded (ok a) s = true

-- The entry that `auditLog` writes behind the procedure's body, whose outcome is `result`.
unfoldable pub audit_log {ℓ} :
    {A : Type ℓ} → Context → String → ProcedureType → Audit → Result Code A → List AuditEntry
audit_log ctx path type audit result = elim ctx.user [
  | none ↦ []
  | some u ↦
      if is_mutation type
      then record {
        user_id = u.user_id;
        action = path;
        target = audit.target;
        success = succeeded result audit.success;
        via = ctx.via;
        token_id = ctx.api_token;
      }
        ∷ []
      else []
]

-- One call: what the procedure answers and the audit entries that it leaves. The innermost
-- middleware is `auditLog`, so a call that a guard refuses leaves none.
unfoldable pub call {ℓ} :
    {A : Type ℓ}
    → Procedure
    → Bool
    → Context
    → String
    → ProcedureType
    → (TokenPayload → Result Code A × Audit)
    → Result Code A × List AuditEntry
call p maintenance ctx path type body = elim (guards p maintenance ctx path type) [
  | err e ↦ (err e, [])
  | ok _ ↦ elim ctx.user [
    | none ↦ (err unauthorized, [])
    | some u ↦ ((body u).0, audit_log ctx path type (body u).1 (body u).0)
  ]
]
