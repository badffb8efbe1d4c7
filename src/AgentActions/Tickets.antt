-- ===== src/AgentActions/Tickets.antt =====
-- apps/backend/src/trpc/routers/agentAction.ts: the runs of an action that were and that can still be.
use home_server_interface.Base.{
  ℕ, zero, suc, ◌+◌, ◌≤◌, Bool, true, false, List, [], ◌∷◌, any, Option, none, some, get_or, str_eq,
  if◌then◌else◌, ◌≡◌, inl, inr, refl, ap, arith, Bool-cases, String, ◌||◌,
}
use home_server_interface.AgentActions.{
  Action, done, failed, is_pending, World, Approval, Stage, found, checked, claimed, finished, Call,
  Token, has_id, waits, change_where, count_where, claim, approval_at, put_back, replace_at,
}

-- An approval that has claimed an action and has not run its call yet.
abbrev pub is_claim : String → Approval → ℕ
is_claim id p = claim_of p.stage
  where
    claim_of : Stage → ℕ
    claim_of found = 0
    claim_of (checked token) = 0
    claim_of (claimed token) = if str_eq p.action.id id then 1 else 0
    claim_of (finished worked result error) = 0

abbrev pub claims : String → List Approval → ℕ
claims id [] = 0
claims id (p ∷ ps) = is_claim id p + claims id ps

-- How often the call of the action with an id was run.
abbrev pub runs_of : String → List (Token × Call) → ℕ
runs_of id [] = 0
runs_of id (r ∷ rs) = (if str_eq r.1.id id then 1 else 0) + runs_of id rs

-- The runs of an action so far and those that can still come.
abbrev pub tickets : String → World → ℕ
tickets id w = count_where (waits id) w.actions + claims id w.approvals + runs_of id w.runs

-- One run at most, and none of an action that is not there.
abbrev pub IsSound : String → World → Type 0
IsSound id w = (tickets id w ≤ 1) × (any (has_id id) w.actions ≡ false → tickets id w ≡ 0)

pub any-change_where :
    (id : String) (test : Action → Bool) (change : Action → Action) (actions : List Action)
    → ((a : Action) → (change a).id ≡ a.id)
    → any (has_id id) (change_where test change actions) ≡ any (has_id id) actions
any-change_where id test change [] same = refl
any-change_where id test change (a ∷ actions) same = elim (Bool-cases (test a)) [
  | inl e1 ↦
      rw (e1, same a) (ap (λ b. str_eq a.id id || b) (any-change_where id test change actions same))
  | inr e1 ↦ rw e1 (ap (λ b. str_eq a.id id || b) (any-change_where id test change actions same))
]

-- A change that leaves no action pending.
pub count-change_where :
    (id : String) (test : Action → Bool) (change : Action → Action) (actions : List Action)
    → ((a : Action) → is_pending (change a).status ≡ false)
    → count_where (waits id) (change_where test change actions) ≤ count_where (waits id) actions
count-change_where id test change [] decided = omega arith
count-change_where id test change (a ∷ actions) decided = elim (Bool-cases (test a)) [
  | inl e1 ↦ ground (arith, e1, decided a, count-change_where id test change actions decided)
  | inr e1 ↦ ground (arith, e1, count-change_where id test change actions decided)
]

pub count-claimed :
    (id : String) (now : ℕ) (actions : List Action)
    → count_where (waits id) (change_where (waits id) (claim now) actions) ≡ 0
count-claimed id now [] = refl
count-claimed id now (a ∷ actions) = elim (Bool-cases (waits id a)) [
  | inl e1 ↦ ground (arith, e1, count-claimed id now actions)
  | inr e1 ↦ ground (arith, e1, count-claimed id now actions)
]

-- The approvals after one of them went on.
pub claims-replace_at :
    (id : String) (k : ℕ) (o : Option Approval) (ps : List Approval) (p : Approval)
    → approval_at k ps ≡ some p
    → claims id (replace_at k o ps) + is_claim id p ≡ claims id ps + claims id (put_back o [])
claims-replace_at id k o [] p there = absurd cc
claims-replace_at id zero none (q ∷ ps) p there =
    omega (arith, ap (λ o. is_claim id (get_or o q)) there)
claims-replace_at id zero (some r) (q ∷ ps) p there =
    omega (arith, ap (λ o. is_claim id (get_or o q)) there)
claims-replace_at id (suc k) o (q ∷ ps) p there = omega (arith, claims-replace_at id k o ps p there)

-- A finished action is not pending.
pub stored : (worked : Bool) → is_pending (if worked then done else failed) ≡ false
stored true = refl
stored false = refl
