-- ===== src/VolumeGuard.antt =====
-- apps/backend/src/services/volume-guard.ts: the holds on volumes that are not usable, the plan of
-- a round of the guard, what the round does to the table of holds, and the resumption of a volume.
-- The table is a map from its unique key, the mount point, to the row; a report of the worker
-- pairs each mount point with its volume. A round that cannot read the volumes changes nothing.
pub mod Paths
pub mod Rounds
pub mod Resume
mod Tests
use Prim.Native.String.{String}
use home_server_interface.Base.{
  ℕ, Bool, true, false, ◌&&◌, ◌||◌, not, List, [], ◌∷◌, ◌++◌, Option, none, some, get_or, is_some,
  str_eq, if◌then◌else◌, lookup, insert, erase, modify, keys, filter, any, has, concat, map,
  write_all,
}
use Paths.{Hold, HoldStatus, blocked, back, path_under, hold_for}

pub record Volume : Type 0 where
  pub state : String
  pub stray_files : Bool

pub record HoldPlan : Type 0 where
  pub create : List (String × String)
  pub back_again : List String
  pub reblock : List (String × String)
  pub release : List String

unfoldable pub is_ok : Volume → Bool
is_ok v = str_eq v.state "ok"

abbrev pub is_blocked : Option Hold → Bool
is_blocked none = false
is_blocked (some h) = elim h.status [ blocked ↦ true | back ↦ false ]

abbrev pub is_back : Option Hold → Bool
is_back none = false
is_back (some h) = elim h.status [ blocked ↦ false | back ↦ true ]

-- The step of the loop of `planHolds` for one volume with its hold.
abbrev pub plan_volume : String → Volume → Option Hold → HoldPlan → HoldPlan
plan_volume mp v h plan =
    if not (is_ok v) && not (is_some h)
    then record plan { create = (mp, v.state) ∷ plan.create }
    else if is_ok v && is_blocked h
    then record plan { back_again = mp ∷ plan.back_again }
    else if not (is_ok v) && is_back h
    then record plan { reblock = (mp, v.state) ∷ plan.reblock }
    else plan

unfoldable pub plan_volumes : List (String × Volume) → List (String × Hold) → List String → HoldPlan
plan_volumes [] holds release = record {
  create = [];
  back_again = [];
  reblock = [];
  release = release;
}
plan_volumes ((mp, v) ∷ volumes) holds release =
    plan_volume mp v (lookup mp holds) (plan_volumes volumes holds release)

unfoldable pub plan_holds : List (String × Volume) → List (String × Hold) → HoldPlan
plan_holds volumes holds =
    plan_volumes volumes holds (filter (λ mp. not (has mp volumes)) (keys holds))

pub record App : Type 0 where
  pub name : String
  pub sources : List String
  pub running : Bool

unfoldable pub apps_under : List App → String → List String
apps_under apps mount_point =
    map (λ a. a.name)
      (filter (λ a. a.running && any (λ s. path_under s mount_point) a.sources) apps)

abbrev pub stray_files_of : Option Volume → Bool
stray_files_of none = false
stray_files_of (some v) = v.stray_files

unfoldable pub new_hold : List (String × Volume) → List App → String → String → Hold
new_hold volumes apps mp reason = record {
  mount_point = mp;
  status = blocked;
  reason = reason;
  stopped_apps = apps_under apps mp;
  stray_files = stray_files_of (lookup mp volumes);
}

-- The loops of `runVolumeGuard`, each a row at a time.
abbrev pub release_all : List String → List (String × Hold) → List (String × Hold)
release_all [] holds = holds
release_all (mp ∷ mps) holds = release_all mps (erase mp holds)

abbrev pub create_hold :
    List (String × Volume)
    → List App
    → String
    → String
    → List (String × Hold)
    → List (String × Hold)
create_hold volumes apps mp reason holds = insert mp (new_hold volumes apps mp reason) holds

abbrev pub set_back : Hold → Hold
set_back h = record h { status = back }

abbrev pub back_all : List String → List (String × Hold) → List (String × Hold)
back_all [] holds = holds
back_all (mp ∷ mps) holds = back_all mps (modify mp set_back holds)

abbrev pub reblock_hold : String → String → List (String × Hold) → List (String × Hold)
reblock_hold mp reason holds = modify mp (λ h. record h { status = blocked; reason = reason }) holds

-- The table after a round. The apps are those listed when a hold is created, none when that fails.
unfoldable pub run_volume_guard :
    Option (List (String × Volume))
    → Option (List App)
    → List (String × Hold)
    → List (String × Hold)
run_volume_guard none apps holds = holds
run_volume_guard (some volumes) apps holds =
    let plan = plan_holds volumes holds in
    write_all reblock_hold plan.reblock (
      back_all plan.back_again (
        write_all (create_hold volumes (get_or apps [])) plan.create
          (release_all plan.release holds)))

abbrev pub stop_all : List App → List (String × String) → List String
stop_all apps [] = []
stop_all apps ((mp, reason) ∷ create) = apps_under apps mp ++ stop_all apps create

-- The apps that a round stops, in order.
unfoldable pub stopped_in :
    Option (List (String × Volume)) → Option (List App) → List (String × Hold) → List String
stopped_in none apps holds = []
stopped_in (some volumes) apps holds = stop_all (get_or apps []) (plan_holds volumes holds).create

unfoldable pub hold_message : Hold → String
hold_message h = concat "Volume " (
    concat h.mount_point (
      concat " is " (
        concat (elim h.status [ blocked ↦ h.reason | back ↦ "waiting for confirmation" ])
          "; resume it in Storage first")))

pub data Refusal : Type 0 where
  not_found precondition_failed : String → Refusal

abbrev rows : List (String × Hold) → List Hold
rows [] = []
rows ((mp, h) ∷ holds) = h ∷ rows holds

abbrev pub refusal_of : Option Hold → Option Refusal
refusal_of none = none
refusal_of (some h) = some (precondition_failed (hold_message h))

-- The first refused path refuses all; nothing is returned when every path is available.
unfoldable pub assert_volume_available : List String → List Hold → Option Refusal
assert_volume_available [] holds = none
assert_volume_available (p ∷ paths) holds =
    let rest = assert_volume_available paths holds in
    elim (hold_for holds p) [ none ↦ rest | some h ↦ some (precondition_failed (hold_message h)) ]

-- A resumption is refused, or names the apps it starts again; with the table after it.
pub data Resumed : Type 0 where
  refused : Refusal → Resumed
  restarted : List String → Resumed

unfoldable pub resume_volume : String → List (String × Hold) → Resumed × List (String × Hold)
resume_volume mp holds = elim (lookup mp holds) [
  | none ↦ (refused (not_found "No hold for this volume"), holds)
  | some h ↦ elim h.status [
    | blocked ↦ (refused (precondition_failed (hold_message h)), holds)
    | back ↦ (restarted h.stopped_apps, erase mp holds)
  ]
]
