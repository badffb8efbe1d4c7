-- ===== src/VolumeGuard/Resume.antt =====
-- From the round that blocks a volume to its resumption, and the paths that holds refuse.
use Prim.Native.String.{String}
use home_server_interface.Base.{
  true, false, List, [], ◌∷◌, Option, none, some, get_or, if◌then◌else◌, lookup, has, arith, Unique,
  ◌≡◌, refl, Option-cases, Bool-cases, inl, inr, is_some, ◌∙◌, All, ◌↔◌, subst, sym,
}
use home_server_interface.VolumeGuard.{
  Volume, App, Resumed, refused, restarted, is_ok, run_volume_guard, resume_volume, apps_under,
  assert_volume_available, is_back, path_under,
}
use home_server_interface.VolumeGuard.Paths.{Hold, hold_for, MemHold, hold_for_lem, hold_for-none}
use home_server_interface.VolumeGuard.Rounds.{lookup-run_volume_guard, next_hold, status_cases}

-- A round is the worker's report and the list of apps, each missing when it could not be read.
abbrev pub Round : Type 0
Round = Option (List (String × Volume)) × Option (List App)

abbrev pub run_rounds : List Round → List (String × Hold) → List (String × Hold)
run_rounds [] holds = holds
run_rounds (r ∷ rounds) holds = run_rounds rounds (run_volume_guard r.0 r.1 holds)

-- The reports name each mount point once, this one among them.
abbrev pub Reports : String → List Round → Type 0
Reports mp [] = Unit
Reports mp ((none, apps) ∷ rounds) = Reports mp rounds
Reports mp ((some volumes, apps) ∷ rounds) =
    Unique volumes × (has mp volumes ≡ true) × Reports mp rounds

abbrev stopped_of : Option Hold → Option (List String)
stopped_of none = none
stopped_of (some h) = some h.stopped_apps

abbrev pub restarted_apps : Resumed → Option (List String)
restarted_apps (refused e) = none
restarted_apps (restarted names) = some names

stopped_of-next_hold :
    (mp : String) (volumes : List (String × Volume)) (apps : List App) (names : List String)
    (v : Option Volume) (h : Option Hold)
    → is_some v ≡ true
    → stopped_of h ≡ some names
    → stopped_of (next_hold apps mp v h) ≡ some names
stopped_of-next_hold mp volumes apps names none h reported e = ground (arith, reported)
stopped_of-next_hold mp volumes apps names (some v) none reported e = ground (arith, e)
stopped_of-next_hold mp volumes apps names (some v) (some h) reported e = ground (arith, e)

stopped_of-run_volume_guard :
    (mp : String) (volumes : List (String × Volume)) (apps : Option (List App))
    (names : List String) (holds : List (String × Hold))
    → Unique volumes
    → has mp volumes ≡ true
    → stopped_of (lookup mp holds) ≡ some names
    → stopped_of (lookup mp (run_volume_guard (some volumes) apps holds)) ≡ some names
stopped_of-run_volume_guard mp volumes apps names holds u reported e =
    rw (lookup-run_volume_guard volumes apps holds mp u) (
      stopped_of-next_hold mp volumes (get_or apps []) names (lookup mp volumes) (lookup mp holds)
        reported e)

run_volume_guard-none :
    (apps : Option (List App)) (holds : List (String × Hold))
    → run_volume_guard none apps holds ≡ holds
unfolding run_volume_guard
run_volume_guard-none apps holds = refl

stopped_of-run_rounds :
    (mp : String) (names : List String) (rounds : List Round) (holds : List (String × Hold))
    → Reports mp rounds
    → stopped_of (lookup mp holds) ≡ some names
    → stopped_of (lookup mp (run_rounds rounds holds)) ≡ some names
stopped_of-run_rounds mp names [] holds r e = e
stopped_of-run_rounds mp names ((none, apps) ∷ rounds) holds r e =
    rw (run_volume_guard-none apps holds) (stopped_of-run_rounds mp names rounds holds r e)
stopped_of-run_rounds mp names ((some volumes, apps) ∷ rounds) holds (u, reported, r) e =
    stopped_of-run_rounds mp names rounds (run_volume_guard (some volumes) apps holds) r
      (stopped_of-run_volume_guard mp volumes apps names holds u reported e)

restarted_apps-resume_volume :
    (mp : String) (holds : List (String × Hold)) (next : Option Hold)
    → lookup mp holds ≡ next
    → restarted_apps (resume_volume mp holds).0 ≡ (if is_back next then stopped_of next else none)
unfolding resume_volume
restarted_apps-resume_volume mp holds none found = rw (restarted_apps, found) refl
restarted_apps-resume_volume mp holds (some h) found = elim (status_cases h) [
  | inl e ↦ rw (restarted_apps, found, e) refl
  | inr e ↦ rw (restarted_apps, found, e) refl
]

restarted_apps-next_hold :
    (mp : String) (volumes : List (String × Volume)) (apps : List App) (names : List String)
    (v : Volume) (h : Option Hold)
    → stopped_of h ≡ some names
    → (if is_back (next_hold apps mp (some v) h)
        then stopped_of (next_hold apps mp (some v) h)
        else none)
      ≡ (if is_ok v then some names else none)
unfolding is_ok
restarted_apps-next_hold mp volumes apps names v none e = ground (arith, e)
restarted_apps-next_hold mp volumes apps names v (some h) e = elim (Bool-cases (is_ok v)) [
  | inl ok ↦ rw ok e
  | inr unusable ↦ elim (status_cases h) [
    | inl blocked_still ↦ rw (unusable, blocked_still) refl
    | inr was_back ↦ rw (unusable, was_back) refl
  ]
]

-- A volume without a hold turns unusable. Whatever the rounds until a last one report, as long as
-- the volume is in each report, it can be resumed after the last round exactly when that reported
-- it usable, and this starts the apps that ran on it when it was blocked: no others, and all.
pub resume_volume-run_rounds :
    (mp : String) (volumes last : List (String × Volume)) (apps apps_at_last : Option (List App))
    (rounds : List Round) (holds : List (String × Hold)) (v w : Volume)
    → Unique volumes
    → lookup mp volumes ≡ some v
    → is_ok v ≡ false
    → lookup mp holds ≡ none
    → Reports mp rounds
    → Unique last
    → lookup mp last ≡ some w
    → restarted_apps
        (resume_volume mp (
          run_volume_guard
            (some last)
            apps_at_last
            (run_rounds rounds (run_volume_guard (some volumes) apps holds)))).0
      ≡ (if is_ok w then some (apps_under (get_or apps []) mp) else none)
unfolding apps_under is_ok
resume_volume-run_rounds mp volumes last apps apps_at_last rounds holds v w u there unusable fresh r
      u_last reported =
    let blocked_holds = run_volume_guard (some volumes) apps holds in
    let before = run_rounds rounds blocked_holds in
    restarted_apps-resume_volume mp (run_volume_guard (some last) apps_at_last before)
      (next_hold (get_or apps_at_last []) mp (some w) (lookup mp before))
      (rw (lookup-run_volume_guard last apps_at_last before mp u_last, reported) refl)
    ∙ restarted_apps-next_hold mp last (get_or apps_at_last []) (apps_under (get_or apps []) mp) w
        (lookup mp before)
        (stopped_of-run_rounds mp _ rounds blocked_holds r
          (rw (lookup-run_volume_guard volumes apps holds mp u, there, fresh, unusable) (refl)))

all_at : (P : Hold → Type 0) (h : Hold) (holds : List Hold) → All P holds → MemHold h holds → P h
all_at P h [] a none_there = absurd none_there
all_at P h (k ∷ holds) a (inl same) = subst P (sym same) a.0
all_at P h (k ∷ holds) a (inr there) = all_at P h holds a.1 there

-- None of the mount points holds the path.
abbrev pub Free : List Hold → String → Type 0
Free holds p = All (λ h. path_under p h.mount_point ≡ false) holds

hold_for-none_iff : (holds : List Hold) (p : String) → (hold_for holds p ≡ none) ↔ Free holds p
hold_for-none_iff holds p = (
  hold_for-none holds p,
  λ free. elim (Option-cases (hold_for holds p)) [
    | inl nothing ↦ nothing
    | inr (h, e) ↦
        let found = hold_for_lem holds p h e in
        absurd (
          ground
            (arith, found.1, all_at (λ k. path_under p k.mount_point ≡ false) h holds free found.0))
  ],
)

-- A list of paths is let through exactly when no hold's mount point holds one of them.
pub assert_volume_available_iff :
    (paths : List String) (holds : List Hold)
    → (assert_volume_available paths holds ≡ none) ↔ All (Free holds) paths
unfolding assert_volume_available
assert_volume_available_iff [] holds = (λ e. tt, λ a. refl)
assert_volume_available_iff (p ∷ paths) holds = elim (Option-cases (hold_for holds p)) [
  | inl nothing ↦
      rw (assert_volume_available, nothing)
        (
          λ e. (
            (hold_for-none_iff holds p).0 nothing,
            (assert_volume_available_iff paths holds).0 e,
          ),
          λ a. (assert_volume_available_iff paths holds).1 a.1,
        )
  | inr (h, e) ↦
      rw (assert_volume_available, e)
        (
          λ refused. absurd (ground (arith, refused)),
          λ a. absurd (ground (arith, e, (hold_for-none_iff holds p).1 a.0)),
        )
]
