-- ===== src/AgentActions/Tests.antt =====
-- apps/backend/src/services/agent-actions.ts and trpc/routers/agentAction.ts: runs on small inputs.
use home_server_interface.Base.{
  ◌≤◌, true, false, List, [], ◌∷◌, map, mem, length, none, some, str_eq, if◌then◌else◌, ◌≡◌, refl,
  String, take,
}
use home_server_interface.AgentActions.{
  rejected, Event, queue, approve, go_on, Env, returned, queue_action, own_action, start_approval,
  origin, claim_action, advance, act, act_all, at_rest, decidable, is_queueable,
}
use home_server_interface.AgentActions.Tickets.{runs_of}
use home_server_interface.AgentActions.Once.{runs_of-act_all}
use home_server_interface.AgentActions.Origins.{All, IsLegitimate}
use home_server_interface.AgentActions.Origins.Runs.{runs-IsLegitimate}
use home_server_interface.AgentActions.Deletions.{
  Expectation, Files, assert_unchanged, delete_each, run_delete, run_delete-Unchanged, IsUnchanged,
}

abbrev chat : Env
chat = record {
  now = 2000;
  tokens = [];
  assistant_allowed = true;
  parse = λ raw. none;
  reply = returned none "{}";
}

-- Two tabs approve one request, and the second goes on before the first has run it.
abbrev two_tabs : List Event
two_tabs =
    queue "a1" "ann" none (some "c1") "place.delete" "{}" "Delete photos" 1000
    ∷ approve "ann" "a1" 2000
    ∷ approve "ann" "a1" 2000
    ∷ go_on 0 chat
    ∷ go_on 1 chat
    ∷ go_on 1 chat
    ∷ go_on 0 chat
    ∷ go_on 0 chat
    ∷ go_on 0 chat
    ∷ []

runs_of-act_all_example : runs_of "a1" (act_all two_tabs (at_rest [])).runs ≤ 1
runs_of-act_all_example = runs_of-act_all two_tabs "a1"

runs-two_tabs : length (act_all two_tabs (at_rest [])).runs ≡ 1
unfolding act_all act queue_action start_approval own_action advance claim_action is_queueable
    decidable origin
runs-two_tabs = refl

abbrev turned_off : Env
turned_off = record chat { assistant_allowed = false }

-- A second approval that began before the first one ran marks the action rejected afterwards, when the
-- assistant was turned off in between.
abbrev late_check : List Event
late_check =
    queue "a1" "ann" none (some "c1") "place.delete" "{}" "Delete photos" 1000
    ∷ approve "ann" "a1" 2000
    ∷ approve "ann" "a1" 2000
    ∷ go_on 0 chat
    ∷ go_on 0 chat
    ∷ go_on 0 chat
    ∷ go_on 0 chat
    ∷ go_on 0 turned_off
    ∷ []

late_check-shows :
    (length (act_all late_check (at_rest [])).runs ≡ 1)
    × (map (λ a. a.status) (act_all late_check (at_rest [])).actions ≡ rejected ∷ [])
unfolding act_all act queue_action start_approval own_action advance claim_action is_queueable
    decidable origin
late_check-shows = (refl, refl)

runs-IsLegitimate_example :
    (let w = act_all two_tabs (at_rest []) in All (IsLegitimate w.trace) w.runs)
runs-IsLegitimate_example = runs-IsLegitimate two_tabs

abbrev disk : Files
disk = record {
  signature = λ path. if str_eq path "/old" then some "file|3" else none;
  delete = λ path. none;
}

abbrev old_paths : List String
old_paths = "/old" ∷ []

abbrev old_file : Expectation
old_file = record { path = "/old"; sig = "file|3" }

run_delete-Unchanged_example :
    (mem "/old" (take 20 old_paths) ≡ true)
    × IsUnchanged disk (old_file ∷ []) "/old"
    × (length (run_delete disk old_paths (old_file ∷ [])).0 ≤ 20)
unfolding run_delete assert_unchanged delete_each
run_delete-Unchanged_example = run_delete-Unchanged disk old_paths (old_file ∷ []) refl "/old" refl
