-- ===== src/AgentActions/Types.antt =====
-- apps/backend/src/services/agent-actions.ts and trpc/routers/agentAction.ts: the actions, the approvals
-- under way, and what happens to them.
use Prim.Native.String.{String}
use home_server_interface.Base.{
  ℕ, ◌*◌, ltb, Bool, true, false, ◌&&◌, List, [], ◌∷◌, mem, Option, none, some, get_or,
}
use home_server_interface.ApiTokens.{ApiToken}

abbrev pub action_ttl_ms : ℕ
action_ttl_ms = 24 * 60 * 60 * 1000

pub data ActionStatus : Type 0 where
  pending approved done failed rejected expired : ActionStatus

pub record Action : Type 0 where
  pub id : String
  pub user_id : String
  pub token_id : Option String
  pub conversation_id : Option String
  pub procedure : String
  pub input : String
  pub title : String
  pub status : ActionStatus
  pub result : Option String
  pub error : Option String
  pub expires_at : ℕ
  pub decided_at : Option ℕ

abbrev pub is_pending : ActionStatus → Bool
is_pending pending = true
is_pending approved = false
is_pending done = false
is_pending failed = false
is_pending rejected = false
is_pending expired = false

-- The names of `APPROVAL_PROCEDURES`.
abbrev pub approval_procedures : List String
approval_procedures =
    "fs.delete" ∷ "fs.writeText" ∷ "storage.execute" ∷ "apps.execute" ∷ "user.execute"
    ∷ "sharing.execute" ∷ "place.create" ∷ "place.rename" ∷ "place.delete" ∷ "permission.upsert"
    ∷ "permission.remove" ∷ "update.execute" ∷ []

unfoldable pub is_queueable : String → Bool
is_queueable procedure = mem procedure approval_procedures

unfoldable pub decidable : Action → ℕ → Bool
decidable a now = is_pending a.status && ltb now a.expires_at

-- What a run answers: a value, with the error of a plan whose `ok` is false, and its JSON cut to
-- 64,000 characters; or it throws.
pub data Reply : Type 0 where
  returned : Option (Option String) → String → Reply
  threw : String → Reply

unfoldable pub outcome : Option (Option String) → Bool × Option String
outcome none = (true, none)
outcome (some e) = (false, some (get_or e "A step of the plan failed"))

-- What the handlers read besides the actions, at the time of the access.
pub record Env : Type 0 where
  pub now : ℕ
  pub tokens : List ApiToken
  -- `assistantAllowed` of the settings and the user
  pub assistant_allowed : Bool
  -- JSON.parse of the scopes of a token
  pub parse : String → Option (List String)
  pub reply : Reply

-- A stored call, as the account and with the token it runs.
pub record Call : Type 0 where
  pub id : String
  pub user_id : String
  pub procedure : String
  pub input : String

abbrev pub call_of : Action → Call
call_of a = record { id = a.id; user_id = a.user_id; procedure = a.procedure; input = a.input }

abbrev pub Token : Type 0
Token = Option (String × List String)

-- How far an approval is: what it found out, and what the run of the call left.
pub data Stage : Type 0 where
  found : Stage
  checked claimed : Token → Stage
  finished : Bool → Option String → Option String → Stage

-- An approval under way, with the action as it was read.
pub record Approval : Type 0 where
  pub action : Action
  pub stage : Stage

pub data Event : Type 0 where
  -- the new id, the account, the token or the conversation, the call, its title, and the time
  queue : String → String → Option String → Option String → String → String → String → ℕ → Event
  list : String → ℕ → Event
  approve reject : String → String → ℕ → Event
  -- the number of an approval under way
  go_on : ℕ → Env → Event

pub record World : Type 0 where
  pub actions : List Action
  pub approvals : List Approval
  pub runs : List (Token × Call)
  pub trace : List Event
