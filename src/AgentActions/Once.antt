-- ===== src/AgentActions/Once.antt =====
-- apps/backend/src/trpc/routers/agentAction.ts: how often the call of a request is run.
use home_server_interface.Base.{
  ℕ, ◌+◌, ◌==◌, ◌≤◌, Bool, true, false, List, [], ◌∷◌, any, Option, none, some, is_some, str_eq,
  if◌then◌else◌, ◌≡◌, inl, inr, refl, sym, ap, ◌∙◌, arith, eq_iff, Bool-cases, Option-cases, subst,
  String,
}
use home_server_interface.AgentActions.{
  Action, is_pending, World, Approval, Stage, found, checked, claimed, finished, Event, queue, list,
  approve, reject, go_on, Env, Reply, returned, threw, Token, has_id, waits, change_where,
  count_where, new_action, queue_action, is_overdue, expire_action, list_actions, refuse, turn_down,
  own_action, reject_action, start_found, start_approval, origin, with_actions, claim, claim_action,
  result_of, store, advance, approval_at, put_back, replace_at, go_on_with, handle, act, act_all,
  at_rest, decidable, is_queueable, drop_message,
}
use home_server_interface.AgentActions.Tickets.{
  is_claim, claims, tickets, IsSound, runs_of, stored, any-change_where, count-change_where,
  count-claimed, claims-replace_at,
}

module _ (id : String) where
  -- The tickets that an approval and the tables hold.
  abbrev held : Option Approval × World → ℕ
  held gone =
      count_where (waits id) gone.1.actions
      + claims id (put_back gone.0 [])
      + runs_of id gone.1.runs

  claim_action-held :
      (p : Approval) (token : Token) (now : ℕ) (w : World)
      → held (claim_action p token now w) ≤ count_where (waits id) w.actions + runs_of id w.runs
  unfolding claim_action
  claim_action-held p token now w = elim (Bool-cases (is_queueable p.action.procedure)) [
    | inr e1 ↦ simp e1 (omega arith)
    | inl e1 ↦ simp e1 claimed_now
  ]
    where
      claimed_now :
          count_where (waits id) (change_where (waits p.action.id) (claim now) w.actions)
            + claims id (
                put_back
                  (if count_where (waits p.action.id) w.actions == 1
                    then some (record p { stage = claimed token })
                    else none)
                  [])
            + runs_of id w.runs
          ≤ count_where (waits id) w.actions + runs_of id w.runs
      claimed_now = elim (Bool-cases (str_eq p.action.id id)) [
        | inl e2 ↦
            let e : p.action.id ≡ id = (eq_iff p.action.id id).0 e2 in
            let none_left =
              subst (λ x. count_where (waits id) (change_where (waits x) (claim now) w.actions) ≡ 0)
                (sym e) (count-claimed id now w.actions) in
            let same = ap (λ x. count_where (waits x) w.actions) e in
            elim (Bool-cases (count_where (waits p.action.id) w.actions == 1)) [
              | inl e3 ↦ ground (arith, e2, e3, none_left, same)
              | inr e3 ↦ ground (arith, e2, e3, none_left, same)
            ]
        | inr e2 ↦ elim (Bool-cases (count_where (waits p.action.id) w.actions == 1)) [
          | inl e3 ↦ ground (
            arith,
            e2,
            e3,
            count-change_where id (waits p.action.id) (claim now) w.actions (λ a. refl),
          )
          | inr e3 ↦ ground (
            arith,
            e2,
            e3,
            count-change_where id (waits p.action.id) (claim now) w.actions (λ a. refl),
          )
        ]
      ]

  is_claim-result_of :
      (p : Approval) (reply : Reply) → is_claim id (record p { stage = result_of reply }) ≡ 0
  is_claim-result_of p (returned e json) = refl
  is_claim-result_of p (threw message) = refl

  advance-held :
      (p : Approval) (stage : Stage) (env : Env) (w : World)
      → held (advance p stage env w)
        ≤ count_where (waits id) w.actions
          + is_claim id (record p { stage = stage })
          + runs_of id w.runs
  unfolding advance
  advance-held p found env w = elim (Option-cases (origin p.action.token_id env)) [
    | inl e1 ↦ rw e1 (
        omega (
          arith,
          count-change_where id (has_id p.action.id)
              (refuse env.now (some (drop_message p.action.token_id))) w.actions (λ a. refl),
        ))
    | inr (token, e1) ↦ rw e1 (omega arith)
  ]
  advance-held p (checked token) env w = omega (arith, claim_action-held p token env.now w)
  advance-held p (claimed token) env w = omega (arith, is_claim-result_of p env.reply)
  advance-held p (finished worked result error) env w = omega (
    arith,
    count-change_where id (has_id p.action.id) (store worked result error) w.actions
        (λ a. stored worked),
  )

  advance-any :
      (p : Approval) (stage : Stage) (env : Env) (w : World)
      → any (has_id id) (advance p stage env w).1.actions ≡ any (has_id id) w.actions
  unfolding advance claim_action
  advance-any p found env w = elim (Option-cases (origin p.action.token_id env)) [
    | inl e1 ↦ rw e1 (
        any-change_where id (has_id p.action.id)
          (refuse env.now (some (drop_message p.action.token_id))) w.actions (λ a. refl))
    | inr (token, e1) ↦ rw e1 refl
  ]
  advance-any p (checked token) env w = elim (Bool-cases (is_queueable p.action.procedure)) [
    | inr e1 ↦ simp e1 refl
    | inl e1 ↦
        simp e1 (any-change_where id (waits p.action.id) (claim env.now) w.actions (λ a. refl))
  ]
  advance-any p (claimed token) env w = refl
  advance-any p (finished worked result error) env w =
      any-change_where id (has_id p.action.id) (store worked result error) w.actions (λ a. refl)

  -- Fewer tickets for the same actions.
  less-IsSound :
      (before after : World)
      → tickets id after ≤ tickets id before
      → any (has_id id) after.actions ≡ any (has_id id) before.actions
      → IsSound id before
      → IsSound id after
  less-IsSound before after less same (one, absent) =
      (omega (arith, less, one), λ gone. omega (arith, less, absent (sym same ∙ gone)))

  go_on_with-IsSound :
      (k : ℕ) (env : Env) (w : World)
      → IsSound id w
      → IsSound id (go_on_with k (approval_at k w.approvals) env w)
  go_on_with-IsSound k env w sound = elim (Option-cases (approval_at k w.approvals)) [
    | inl e1 ↦ rw e1 sound
    | inr (p, e1) ↦
        let gone = advance p p.stage env w in
        simp e1 (
          less-IsSound w (record gone.1 { approvals = replace_at k gone.0 w.approvals })
            (omega
              (arith, advance-held p p.stage env w, claims-replace_at id k gone.0 w.approvals p e1))
            (advance-any p p.stage env w) sound)
  ]

  queue_action-IsSound :
      (a : Action) (w : World)
      → is_pending a.status ≡ true
      → IsSound id w
      → IsSound id (with_actions (queue_action a w.actions) w)
  unfolding queue_action
  queue_action-IsSound a w waiting sound = elim (Bool-cases (is_queueable a.procedure)) [
    | inr e1 ↦ simp e1 sound
    | inl e1 ↦ elim (Bool-cases (any (has_id a.id) w.actions)) [
      | inl e2 ↦ simp (e1, e2) sound
      | inr e2 ↦ simp (e1, e2) (added e2)
    ]
  ]
    where
      added : any (has_id a.id) w.actions ≡ false → IsSound id (with_actions (a ∷ w.actions) w)
      added absent = elim (Bool-cases (str_eq a.id id)) [
        | inl e3 ↦
            let none_yet =
              sound.1
                (subst (λ x. any (has_id x) w.actions ≡ false) ((eq_iff a.id id).0 e3) absent) in
            (ground (arith, e3, waiting, none_yet), λ gone. absurd (ground (arith, e3, gone)))
        | inr e3 ↦ (
          ground (arith, e3, sound.0),
          λ gone. ground (arith, e3, sound.1 (ground (arith, e3, gone))),
        )
      ]

  changed-IsSound :
      (test : Action → Bool) (change : Action → Action) (w : World)
      → ((a : Action) → (change a).id ≡ a.id)
      → ((a : Action) → is_pending (change a).status ≡ false)
      → IsSound id w
      → IsSound id (with_actions (change_where test change w.actions) w)
  changed-IsSound test change w same decided sound =
      less-IsSound w (with_actions (change_where test change w.actions) w)
        (omega (arith, count-change_where id test change w.actions decided))
        (any-change_where id test change w.actions same) sound

  claims-start_found :
      (o : Option Action) (now : ℕ) (approvals : List Approval)
      → claims id (start_found o now approvals) ≡ claims id approvals
  claims-start_found none now approvals = refl
  claims-start_found (some a) now approvals = elim (Bool-cases (decidable a now)) [
    | inl e1 ↦ simp e1 (omega arith)
    | inr e1 ↦ simp e1 refl
  ]

  handle-IsSound : (e : Event) (w : World) → IsSound id w → IsSound id (handle e w)
  unfolding list_actions reject_action start_approval
  handle-IsSound (queue new user_id token_id conversation_id procedure input title now) w sound =
      queue_action-IsSound
        (new_action new user_id token_id conversation_id procedure input title now) w refl sound
  handle-IsSound (list user_id now) w sound =
      changed-IsSound (is_overdue user_id now) expire_action w (λ a. refl) (λ a. refl) sound
  handle-IsSound (approve user_id other now) w sound =
      let started = start_found (own_action user_id other w.actions) now w.approvals in
      less-IsSound w (record w { approvals = started })
        (omega (arith, claims-start_found (own_action user_id other w.actions) now w.approvals))
        refl sound
  handle-IsSound (reject user_id other now) w sound =
      elim (Bool-cases (is_some (own_action user_id other w.actions))) [
        | inl e1 ↦
            simp e1 (changed-IsSound (waits other) (turn_down now) w (λ a. refl) (λ a. refl) sound)
        | inr e1 ↦ simp e1 sound
      ]
  handle-IsSound (go_on k env) w sound = go_on_with-IsSound k env w sound

  act_all-IsSound : (events : List Event) (w : World) → IsSound id w → IsSound id (act_all events w)
  unfolding act_all act
  act_all-IsSound [] w sound = sound
  act_all-IsSound (e ∷ events) w sound = act_all-IsSound events (act e w) (handle-IsSound e w sound)

-- Whatever requests, listings, approvals and rejections come, and however the approvals under way
-- interleave, the stored call of an action is run at most once.
pub runs_of-act_all :
    (events : List Event) (id : String) → runs_of id (act_all events (at_rest [])).runs ≤ 1
runs_of-act_all events id =
    let sound = act_all-IsSound id events (at_rest []) (omega arith, λ gone. refl) in
    omega (arith, sound.0)
