-- ===== src/AgentActions/Origins.antt =====
-- apps/backend/src/trpc/routers/agentAction.ts: where the calls that are run come from.
pub mod Runs
use home_server_interface.Base.{
  ℕ, zero, suc, ◌==◌, Bool, true, false, ◌&&◌, List, [], ◌∷◌, any, find, Option, none, some, get_or,
  is_some, str_eq, if◌then◌else◌, ◌≡◌, inl, inr, refl, sym, ap, ◌∙◌, arith, eq_iff, Bool-cases,
  Option-cases, subst, String,
}
use home_server_interface.ApiTokens.{ApiToken, api_scopes, token_usable, parse_scopes}
use home_server_interface.ApiTokens.Rights.{IsAhead, is_listed, usable_parts, mem-parse_scopes}
use home_server_interface.AgentActions.Tickets.{stored}
use home_server_interface.AgentActions.{
  token_of, Action, is_pending, World, Approval, Stage, found, checked, claimed, finished, Event,
  queue, list, approve, reject, go_on, Env, Reply, returned, threw, Call, call_of, Token, has_id,
  waits, change_where, count_where, new_action, queue_action, is_overdue, expire_action,
  list_actions, refuse, turn_down, own_action, reject_action, start_found, start_approval, origin,
  claim, claim_action, result_of, store, advance, approval_at, put_back, replace_at, go_on_with,
  handle, act, act_all, at_rest, decidable, is_queueable, drop_message, mem,
}

-- An assistant has asked for the call, with a token or in a chat.
pub data Asked (c : Call) (token_id : Option String) : List Event → Type 0 where
  asked_now :
      (conversation_id : Option String) (title : String) (now : ℕ) (h : List Event)
      → Asked c token_id
          (queue c.id c.user_id token_id conversation_id c.procedure c.input title now ∷ h)
  asked_before : (e : Event) (h : List Event) → Asked c token_id h → Asked c token_id (e ∷ h)

-- The user has approved the action.
pub data HasApproved (user_id id : String) : List Event → Type 0 where
  approved_now : (now : ℕ) (h : List Event) → HasApproved user_id id (approve user_id id now ∷ h)
  approved_before :
      (e : Event) (h : List Event) → HasApproved user_id id h → HasApproved user_id id (e ∷ h)

-- What an approval finds of an assistant's rights: of a token, that it is there, neither revoked nor
-- expired, and its known scopes; of a chat, that it is allowed.
abbrev pub IsGrantedBy : Env → Option String → Token → Type 0
IsGrantedBy env none token = (env.assistant_allowed ≡ true) × (token ≡ none)
IsGrantedBy env (some token_id) token =
    (t : ApiToken) × (find (λ t. str_eq t.id token_id) env.tokens ≡ some t)
    × (t.revoked_at ≡ none)
    × IsAhead env.now t.expires_at
    × ((scopes : List String) × (token ≡ some (token_id, scopes))
        × ((s : String) → mem s scopes ≡ (mem s api_scopes && is_listed s (env.parse t.scopes))))

-- The rights to act with were found when an approval went on.
pub data IsOf (token_id : Option String) (token : Token) : List Event → Type 0 where
  granted_now :
      (k : ℕ) (env : Env) (h : List Event)
      → IsGrantedBy env token_id token
      → IsOf token_id token (go_on k env ∷ h)
  granted_before :
      (e : Event) (h : List Event) → IsOf token_id token h → IsOf token_id token (e ∷ h)

abbrev pub IsAsked : List Event → Action → Type 0
IsAsked h a = is_pending a.status ≡ true → Asked (call_of a) a.token_id h

abbrev pub IsDue : List Event → Approval → Stage → Type 0
IsDue h p found = Unit
IsDue h p (checked token) = IsOf p.action.token_id token h
IsDue h p (claimed token) =
    IsOf p.action.token_id token h × (is_queueable p.action.procedure ≡ true)
IsDue h p (finished worked result error) = Unit

later-IsDue :
    (e : Event) (h : List Event) (p : Approval) (stage : Stage)
    → IsDue h p stage
    → IsDue (e ∷ h) p stage
later-IsDue e h p found due = tt
later-IsDue e h p (checked token) due = granted_before e h due
later-IsDue e h p (claimed token) due = (granted_before e h due.0, due.1)
later-IsDue e h p (finished worked result error) due = tt

abbrev pub IsUnderWay : List Event → Approval → Type 0
IsUnderWay h p =
    Asked (call_of p.action) p.action.token_id h
    × HasApproved p.action.user_id p.action.id h
    × IsDue h p p.stage

-- The call was asked for as it was run, its user approved it, it acts with the rights found for the
-- assistant that asked, and it may be queued.
abbrev pub IsLegitimate : List Event → Token × Call → Type 0
IsLegitimate h r =
    (token_id : Option String) × Asked r.1 token_id h
    × HasApproved r.1.user_id r.1.id h
    × IsOf token_id r.0 h
    × (is_queueable r.1.procedure ≡ true)

abbrev pub All : {A : Type 0} → (A → Type 0) → List A → Type 0
All P [] = Unit
All P (x ∷ xs) = P x × All P xs

map-All :
    {A : Type 0} (P Q : A → Type 0) (xs : List A) → ((x : A) → P x → Q x) → All P xs → All Q xs
map-All P Q [] weaken all = tt
map-All P Q (x ∷ xs) weaken (p, all) = (weaken x p, map-All P Q xs weaken all)

pub find-All :
    {A : Type 0} (P : A → Type 0) (test : A → Bool) (xs : List A) (x : A)
    → find test xs ≡ some x
    → All P xs
    → P x × (test x ≡ true)
find-All P test [] x there all = absurd cc
find-All P test (y ∷ xs) x there (p, all) = elim (Bool-cases (test y)) [
  | inl e1 ↦
      let e : y ≡ x = ap (λ o. get_or o y) (simp e1 at there) in
      (subst P e p, subst (λ z. test z ≡ true) e e1)
  | inr e1 ↦ find-All P test xs x (simp e1 at there) all
]

abbrev pub IsGenuine : List Event → World → Type 0
IsGenuine h w =
    All (IsAsked h) w.actions × All (IsUnderWay h) w.approvals × All (IsLegitimate h) w.runs

-- Nothing is taken back when more happens.
pub later-IsGenuine : (e : Event) (h : List Event) (w : World) → IsGenuine h w → IsGenuine (e ∷ h) w
later-IsGenuine e h w (rows, ways, runs) = (
  map-All (IsAsked h) (IsAsked (e ∷ h)) w.actions (λ a k waiting. asked_before e h (k waiting))
      rows,
  map-All (IsUnderWay h) (IsUnderWay (e ∷ h)) w.approvals
      (λ p (asked, agreed, due).
        (asked_before e h asked, approved_before e h agreed, later-IsDue e h p p.stage due))
      ways,
  map-All (IsLegitimate h) (IsLegitimate (e ∷ h)) w.runs
      (λ r (token_id, asked, agreed, of, queueable). (
        token_id,
        asked_before e h asked,
        approved_before e h agreed,
        granted_before e h of,
        queueable,
      ))
      runs,
)

pub change_where-All :
    (h : List Event) (test : Action → Bool) (change : Action → Action) (actions : List Action)
    → ((a : Action) → is_pending (change a).status ≡ false)
    → All (IsAsked h) actions
    → All (IsAsked h) (change_where test change actions)
change_where-All h test change [] decided all = tt
change_where-All h test change (a ∷ actions) decided (asked, all) = elim (Bool-cases (test a)) [
  | inl e1 ↦ simp e1 (
    λ waiting. absurd (ground (arith, waiting, decided a)),
    change_where-All h test change actions decided all,
  )
  | inr e1 ↦ simp e1 (asked, change_where-All h test change actions decided all)
]

allowed : {A : Type 0} (b : Bool) (x y : A) → (if b then some x else none) ≡ some y → x ≡ y
allowed true x y e = ap (λ o. get_or o x) e
allowed false x y e = absurd cc

token_of-IsGrantedBy :
    (token_id : String) (t : ApiToken) (env : Env) (token : Token)
    → find (λ t. str_eq t.id token_id) env.tokens ≡ some t
    → t.id ≡ token_id
    → token_of (some t) env ≡ some token
    → IsGrantedBy env (some token_id) token
token_of-IsGrantedBy token_id t env token there named e =
    elim (Bool-cases (token_usable t env.now)) [
      | inr e1 ↦ absurd (ground (arith, rw e1 at e))
      | inl e1 ↦
          let parts = usable_parts t env.now e1 in
          (
            t,
            there,
            parts.0,
            parts.1,
            (
              parse_scopes env.parse t.scopes,
              sym (
                    allowed (token_usable t env.now) (some (t.id, parse_scopes env.parse t.scopes))
                      token e)
                  ∙ ap (λ id. some (id, parse_scopes env.parse t.scopes)) named,
              mem-parse_scopes env.parse t.scopes,
            ),
          )
    ]

found_token :
    (token_id : String) (tokens : List ApiToken) (t : ApiToken)
    → find (λ t. str_eq t.id token_id) tokens ≡ some t
    → t.id ≡ token_id
found_token token_id tokens t there =
    (eq_iff t.id token_id).0
      (find-All (λ t. Unit) (λ t. str_eq t.id token_id) tokens t there (all_tt tokens)).1
  where
    all_tt : (tokens : List ApiToken) → All (λ t. Unit {0}) tokens
    all_tt [] = tt
    all_tt (t ∷ tokens) = (tt, all_tt tokens)

allowed-true : {A : Type 0} (b : Bool) (x y : A) → (if b then some x else none) ≡ some y → b ≡ true
allowed-true true x y e = refl
allowed-true false x y e = absurd cc

origin-IsGrantedBy :
    (token_id : Option String) (env : Env) (token : Token)
    → origin token_id env ≡ some token
    → IsGrantedBy env token_id token
unfolding origin
origin-IsGrantedBy none env token e = (
  allowed-true env.assistant_allowed none token e,
  sym (allowed env.assistant_allowed none token e),
)
origin-IsGrantedBy (some token_id) env token e =
    elim (Option-cases (find (λ t. str_eq t.id token_id) env.tokens)) [
      | inl e1 ↦ absurd (ground (arith, rw e1 at e))
      | inr (t, e1) ↦
          token_of-IsGrantedBy token_id t env token e1 (found_token token_id env.tokens t e1)
            (rw e1 at e)
    ]

pub replace_at-All :
    (P : Approval → Type 0) (k : ℕ) (o : Option Approval) (ps : List Approval)
    → All P ps
    → All P (put_back o [])
    → All P (replace_at k o ps)
replace_at-All P k o [] all this = tt
replace_at-All P zero none (p ∷ ps) (first, all) this = all
replace_at-All P zero (some q) (p ∷ ps) (first, all) this = (this.0, all)
replace_at-All P (suc k) o (p ∷ ps) (first, all) this = (first, replace_at-All P k o ps all this)

pub approval_at-All :
    (P : Approval → Type 0) (k : ℕ) (ps : List Approval) (p : Approval)
    → approval_at k ps ≡ some p
    → All P ps
    → P p
approval_at-All P k [] p there all = absurd cc
approval_at-All P zero (q ∷ ps) p there (first, all) = subst P (ap (λ o. get_or o q) there) first
approval_at-All P (suc k) (q ∷ ps) p there (first, all) = approval_at-All P k ps p there all

-- What an approval leaves when it goes on.
pub advance-IsGenuine :
    (h : List Event) (p : Approval) (stage : Stage) (env : Env) (w : World)
    → IsGenuine h w
    → Asked (call_of p.action) p.action.token_id h
    → HasApproved p.action.user_id p.action.id h
    → IsDue h p stage
    → ((token : Token) → IsGrantedBy env p.action.token_id token → IsOf p.action.token_id token h)
    → (let gone = advance p stage env w in
        All (IsAsked h) gone.1.actions
        × All (IsUnderWay h) (put_back gone.0 [])
        × All (IsLegitimate h) gone.1.runs)
unfolding advance claim_action
advance-IsGenuine h p found env w (rows, ways, runs) asked agreed due here =
    elim (Option-cases (origin p.action.token_id env)) [
      | inl e1 ↦ rw e1 (
        change_where-All h (has_id p.action.id)
            (refuse env.now (some (drop_message p.action.token_id))) w.actions (λ a. refl) rows,
        tt,
        runs,
      )
      | inr (token, e1) ↦ rw e1 (
        rows,
        ((asked, agreed, here token (origin-IsGrantedBy p.action.token_id env token e1)), tt),
        runs,
      )
    ]
advance-IsGenuine h p (checked token) env w (rows, ways, runs) asked agreed due here =
    elim (Bool-cases (is_queueable p.action.procedure)) [
      | inr e1 ↦ simp e1 (rows, tt, runs)
      | inl e1 ↦ elim (Bool-cases (count_where (waits p.action.id) w.actions == 1)) [
        | inl e2 ↦
            simp (e1, e2)
              (
                change_where-All h (waits p.action.id) (claim env.now) w.actions (λ a. refl) rows,
                ((asked, agreed, (due, refl)), tt),
                runs,
              )
        | inr e2 ↦
            simp (e1, e2)
              (
                change_where-All h (waits p.action.id) (claim env.now) w.actions (λ a. refl) rows,
                tt,
                runs,
              )
      ]
    ]
advance-IsGenuine h p (claimed token) env w (rows, ways, runs) asked agreed (of, queueable) here = (
  rows,
  ((asked, agreed, result_of-IsDue env.reply), tt),
  ((p.action.token_id, asked, agreed, of, queueable), runs),
)
  where
    result_of-IsDue : (reply : Reply) → IsDue h p (result_of reply)
    result_of-IsDue (returned e json) = tt
    result_of-IsDue (threw message) = tt
advance-IsGenuine h p (finished worked result error) env w (rows, ways, runs) asked agreed due
      here =
    (
      change_where-All h (has_id p.action.id) (store worked result error) w.actions
          (λ a. stored worked) rows,
      tt,
      runs,
    )
