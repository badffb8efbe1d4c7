-- ===== src/AgentActions.antt =====
-- apps/backend/src/services/agent-actions.ts, trpc/routers/agentAction.ts and mcp/context.ts: the changes
-- that an AI assistant asks for and that wait for the decision of its user. A handler runs from one
-- access of the database to the next; handlers that run at once interleave in any order.
pub mod Deletions
pub mod Tickets
pub mod Once
pub mod Origins
mod Tests
mod Types
unfoldable pub use Types.*
use Prim.Native.String.{String}
use home_server_interface.Base.{
  ℕ, zero, suc, ◌+◌, ◌*◌, ◌==◌, ltb, Bool, true, false, not, ◌&&◌, List, [], ◌∷◌, map, any, find,
  filter, mem, length, Option, none, some, get_or, is_some, str_eq, if◌then◌else◌, Result, ok, err,
}
use home_server_interface.ApiTokens.{ApiToken, token_usable, parse_scopes}

abbrev pub has_id : String → Action → Bool
has_id id a = str_eq a.id id

abbrev pub waits : String → Action → Bool
waits id a = has_id id a && is_pending a.status

abbrev pub change_where : (Action → Bool) → (Action → Action) → List Action → List Action
change_where test change [] = []
change_where test change (a ∷ actions) =
    (if test a then change a else a) ∷ change_where test change actions

abbrev pub count_where : (Action → Bool) → List Action → ℕ
count_where test [] = 0
count_where test (a ∷ actions) = (if test a then 1 else 0) + count_where test actions

abbrev pub new_action :
    String → String → Option String → Option String → String → String → String → ℕ → Action
new_action id user_id token_id conversation_id procedure input title now = record {
  id = id;
  user_id = user_id;
  token_id = token_id;
  conversation_id = conversation_id;
  procedure = procedure;
  input = input;
  title = title;
  status = pending;
  result = none;
  error = none;
  expires_at = now + action_ttl_ms;
  decided_at = none;
}

-- The table takes no second row with an id.
unfoldable pub queue_action : Action → List Action → List Action
queue_action a actions =
    if not (is_queueable a.procedure)
    then actions
    else if any (has_id a.id) actions
    then actions
    else a ∷ actions

abbrev pub is_overdue : String → ℕ → Action → Bool
is_overdue user_id now a =
    str_eq a.user_id user_id && is_pending a.status && not (ltb now a.expires_at)

abbrev pub expire_action : Action → Action
expire_action a = record a { status = expired; input = "{}" }

unfoldable pub list_actions : String → ℕ → List Action → List Action
list_actions user_id now actions = change_where (is_overdue user_id now) expire_action actions

abbrev pub refuse : ℕ → Option String → Action → Action
refuse now message a = record a {
  status = rejected;
  decided_at = some now;
  error = message;
  input = "{}";
}

abbrev pub turn_down : ℕ → Action → Action
turn_down now a = record a { status = rejected; decided_at = some now; input = "{}" }

-- The action with an id, if it is the user's own.
unfoldable pub own_action : String → String → List Action → Option Action
own_action user_id id actions = find (λ a. has_id id a && str_eq a.user_id user_id) actions

unfoldable pub reject_action : String → String → ℕ → List Action → List Action
reject_action user_id id now actions =
    if is_some (own_action user_id id actions)
    then change_where (waits id) (turn_down now) actions
    else actions

abbrev pub start_found : Option Action → ℕ → List Approval → List Approval
start_found none now approvals = approvals
start_found (some a) now approvals =
    if decidable a now then record { action = a; stage = found } ∷ approvals else approvals

-- The beginning of an approval: the action is read and looked at.
unfoldable pub start_approval : String → String → ℕ → World → World
start_approval user_id id now w = record w {
  approvals = start_found (own_action user_id id w.actions) now w.approvals;
}

abbrev pub token_of : Option ApiToken → Env → Option Token
token_of none env = none
token_of (some t) env =
    if token_usable t env.now then some (some (t.id, parse_scopes env.parse t.scopes)) else none

-- Whether the assistant that asked may still act, and with which token.
unfoldable pub origin : Option String → Env → Option Token
origin none env = if env.assistant_allowed then some none else none
origin (some token_id) env = token_of (find (λ t. str_eq t.id token_id) env.tokens) env

abbrev pub drop_message : Option String → String
drop_message none = "The built-in assistant was turned off"
drop_message (some token_id) = "The access token was revoked or expired"

abbrev pub with_actions : List Action → World → World
with_actions actions w = record w { actions = actions }

abbrev pub check_origin : Approval → Option Token → ℕ → World → Option Approval × World
check_origin p none now w = (
  none,
  with_actions
      (change_where (has_id p.action.id) (refuse now (some (drop_message p.action.token_id)))
        w.actions)
      w,
)
check_origin p (some token) now w = (some (record p { stage = checked token }), w)

abbrev pub claim : ℕ → Action → Action
claim now a = record a { status = approved; decided_at = some now }

-- The action is claimed by whoever finds it pending.
unfoldable pub claim_action : Approval → Token → ℕ → World → Option Approval × World
claim_action p token now w = if not (is_queueable p.action.procedure) then (none, w) else (
  (if count_where (waits p.action.id) w.actions == 1
      then some (record p { stage = claimed token })
      else none),
  with_actions (change_where (waits p.action.id) (claim now) w.actions) w,
)

abbrev pub result_of : Reply → Stage
result_of (returned e json) = finished (outcome e).0 (some json) (outcome e).1
result_of (threw message) = finished false none (some message)

abbrev pub store : Bool → Option String → Option String → Action → Action
store worked result error a = record a {
  status = if worked then done else failed;
  result = result;
  error = error;
  input = "{}";
}

-- What an approval does up to its next access of the database, and whether it goes on.
unfoldable pub advance : Approval → Stage → Env → World → Option Approval × World
advance p found env w = check_origin p (origin p.action.token_id env) env.now w
advance p (checked token) env w = claim_action p token env.now w
advance p (claimed token) env w = (
  some (record p { stage = result_of env.reply }),
  record w { runs = (token, call_of p.action) ∷ w.runs },
)
advance p (finished worked result error) env w =
    (none, with_actions (change_where (has_id p.action.id) (store worked result error) w.actions) w)

abbrev pub approval_at : ℕ → List Approval → Option Approval
approval_at k [] = none
approval_at zero (p ∷ ps) = some p
approval_at (suc k) (p ∷ ps) = approval_at k ps

abbrev pub put_back : Option Approval → List Approval → List Approval
put_back none ps = ps
put_back (some p) ps = p ∷ ps

abbrev pub replace_at : ℕ → Option Approval → List Approval → List Approval
replace_at k o [] = []
replace_at zero o (p ∷ ps) = put_back o ps
replace_at (suc k) o (p ∷ ps) = p ∷ replace_at k o ps

abbrev pub go_on_with : ℕ → Option Approval → Env → World → World
go_on_with k none env w = w
go_on_with k (some p) env w =
    let gone = advance p p.stage env w in
    record gone.1 { approvals = replace_at k gone.0 w.approvals }

abbrev pub handle : Event → World → World
handle (queue id user_id token_id conversation_id procedure input title now) w =
    with_actions
      (queue_action (new_action id user_id token_id conversation_id procedure input title now)
        w.actions)
      w
handle (list user_id now) w = with_actions (list_actions user_id now w.actions) w
handle (approve user_id id now) w = start_approval user_id id now w
handle (reject user_id id now) w = with_actions (reject_action user_id id now w.actions) w
handle (go_on k env) w = go_on_with k (approval_at k w.approvals) env w

unfoldable pub act : Event → World → World
act e w = record (handle e w) { trace = e ∷ w.trace }

unfoldable pub act_all : List Event → World → World
act_all [] w = w
act_all (e ∷ events) w = act_all events (act e w)

abbrev pub at_rest : List Action → World
at_rest actions = record { actions = actions; approvals = []; runs = []; trace = [] }
