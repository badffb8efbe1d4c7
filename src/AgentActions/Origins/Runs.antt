-- ===== src/AgentActions/Origins/Runs.antt =====
-- apps/backend/src/trpc/routers/agentAction.ts: every handler keeps the origins of the calls.
use home_server_interface.Base.{
  ℕ, Bool, true, ◌&&◌, List, [], ◌∷◌, any, find, Option, none, some, is_some, str_eq, ◌≡◌, inl, inr,
  refl, sym, arith, eq_iff, Bool-cases, Option-cases, subst, String,
}
use home_server_interface.AgentActions.{
  Token, Action, is_pending, World, Approval, Event, queue, list, approve, reject, go_on, Env,
  call_of, has_id, waits, new_action, queue_action, is_overdue, expire_action, list_actions,
  turn_down, own_action, reject_action, start_found, start_approval, advance, approval_at,
  go_on_with, handle, act, act_all, at_rest, decidable, is_queueable,
}
use home_server_interface.AgentActions.Origins.{
  IsGrantedBy, IsOf, granted_now, Asked, asked_now, HasApproved, approved_now, All, IsLegitimate,
  IsAsked, IsUnderWay, IsGenuine, later-IsGenuine, find-All, change_where-All, replace_at-All,
  approval_at-All, advance-IsGenuine,
}

go_on_with-IsGenuine :
    (h : List Event) (k : ℕ) (env : Env) (w : World)
    → IsGenuine h w
    → ((id : Option String) (token : Token) → IsGrantedBy env id token → IsOf id token h)
    → IsGenuine h (go_on_with k (approval_at k w.approvals) env w)
go_on_with-IsGenuine h k env w genuine here = elim (Option-cases (approval_at k w.approvals)) [
  | inl e1 ↦ rw e1 genuine
  | inr (p, e1) ↦
      let way = approval_at-All (IsUnderWay h) k w.approvals p e1 genuine.1 in
      let gone = advance p p.stage env w in
      let all =
        advance-IsGenuine h p p.stage env w genuine way.0 way.1 way.2 (here p.action.token_id) in
      simp e1 (all.0, replace_at-All (IsUnderWay h) k gone.0 w.approvals genuine.1 all.1, all.2)
]

decidable-is_pending : (a : Action) (now : ℕ) → decidable a now ≡ true → is_pending a.status ≡ true
unfolding decidable
decidable-is_pending a now e = ground (arith, e)

start_found-IsGenuine :
    (h : List Event) (user_id id : String) (o : Option Action) (now : ℕ) (ps : List Approval)
    → HasApproved user_id id h
    → All (IsUnderWay h) ps
    → ((a : Action) → o ≡ some a → IsAsked h a × (a.user_id ≡ user_id) × (a.id ≡ id))
    → All (IsUnderWay h) (start_found o now ps)
start_found-IsGenuine h user_id id none now ps agreed all own = all
start_found-IsGenuine h user_id id (some a) now ps agreed all own =
    elim (Bool-cases (decidable a now)) [
      | inr e1 ↦ simp e1 all
      | inl e1 ↦ simp e1 (
        (
          (own a refl).0 (decidable-is_pending a now e1),
          subst (λ u. HasApproved u a.id h) (sym (own a refl).1)
              (subst (λ i. HasApproved user_id i h) (sym (own a refl).2) agreed),
          tt,
        ),
        all,
      )
    ]

queue_action-IsGenuine :
    (h : List Event) (a : Action) (actions : List Action)
    → Asked (call_of a) a.token_id h
    → All (IsAsked h) actions
    → All (IsAsked h) (queue_action a actions)
unfolding queue_action
queue_action-IsGenuine h a actions asked all = elim (Bool-cases (is_queueable a.procedure)) [
  | inr e1 ↦ simp e1 all
  | inl e1 ↦ elim (Bool-cases (any (has_id a.id) actions)) [
    | inl e2 ↦ simp (e1, e2) all
    | inr e2 ↦ simp (e1, e2) ((λ waiting. asked), all)
  ]
]

handle-IsGenuine :
    (e : Event) (h : List Event) (w : World) → IsGenuine h w → IsGenuine (e ∷ h) (handle e w)
unfolding list_actions reject_action start_approval own_action
handle-IsGenuine (queue new user_id token_id conversation_id procedure input title now) h w
      genuine =
    let e = queue new user_id token_id conversation_id procedure input title now in
    let later = later-IsGenuine e h w genuine in
    (
      queue_action-IsGenuine (e ∷ h)
          (new_action new user_id token_id conversation_id procedure input title now) w.actions
          (asked_now conversation_id title now h) later.0,
      later.1,
      later.2,
    )
handle-IsGenuine (list user_id now) h w genuine =
    let later = later-IsGenuine (list user_id now) h w genuine in
    (
      change_where-All (list user_id now ∷ h) (is_overdue user_id now) expire_action w.actions
          (λ a. refl) later.0,
      later.1,
      later.2,
    )
handle-IsGenuine (approve user_id id now) h w genuine =
    let e = approve user_id id now in
    let later = later-IsGenuine e h w genuine in
    let test : Action → Bool = λ a. has_id id a && str_eq a.user_id user_id in
    (
      later.0,
      start_found-IsGenuine (e ∷ h) user_id id (find test w.actions) now w.approvals
          (approved_now now h) later.1
          (λ a there.
            let found_one = find-All (IsAsked (e ∷ h)) test w.actions a there later.0 in
            (
              found_one.0,
              (eq_iff a.user_id user_id).0 (ground (arith, found_one.1)),
              (eq_iff a.id id).0 (ground (arith, found_one.1)),
            )),
      later.2,
    )
handle-IsGenuine (reject user_id id now) h w genuine =
    let e = reject user_id id now in
    let later = later-IsGenuine e h w genuine in
    elim (Bool-cases (is_some (own_action user_id id w.actions))) [
      | inl e1 ↦ simp e1 (
        change_where-All (e ∷ h) (waits id) (turn_down now) w.actions (λ a. refl) later.0,
        later.1,
        later.2,
      )
      | inr e1 ↦ simp e1 later
    ]
handle-IsGenuine (go_on k env) h w genuine =
    go_on_with-IsGenuine (go_on k env ∷ h) k env w (later-IsGenuine (go_on k env) h w genuine)
      (λ id token granted. granted_now k env h granted)

act_all-IsGenuine :
    (events : List Event) (w : World)
    → IsGenuine w.trace w
    → IsGenuine (act_all events w).trace (act_all events w)
unfolding act_all act
act_all-IsGenuine [] w genuine = genuine
act_all-IsGenuine (e ∷ events) w genuine =
    act_all-IsGenuine events (act e w) (handle-IsGenuine e w.trace w genuine)

-- Whatever requests, listings, approvals and rejections come, and however the approvals interleave,
-- every call that is run was asked for with this procedure and input for this account, was approved
-- by its user before, is of a procedure that may be queued, and acts with the rights of who asked:
-- with the token that asked, which was stored, not revoked and not expired at a step of an approval
-- before, and with exactly its known scopes of that time; or, when a chat asked, with no token, the
-- assistant being allowed at such a step.
pub runs-IsLegitimate :
    (events : List Event)
    → (let w = act_all events (at_rest []) in All (IsLegitimate w.trace) w.runs)
runs-IsLegitimate events = (act_all-IsGenuine events (at_rest []) (tt, tt, tt)).2
