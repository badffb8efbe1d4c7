-- ===== src/VolumeGuard/Rounds.antt =====
-- What a round of the guard does to the hold of each mount point.
use Prim.Native.String.{String}
use home_server_interface.Base.{
  Bool, true, false, ◌&&◌, not, List, [], ◌∷◌, Option, none, some, get_or, is_some, str_eq,
  if◌then◌else◌, lookup, erase, modify, keys, filter, has, write_all, arith, Unique, mem, ◌≡◌, refl,
  eq_iff, map_some, lookup-erase, lookup-modify, lookup-insert, lookup-write_all, Bool-cases, inl,
  inr, written, ◌∙◌, mem-filter_of_mem, ◌⊎◌, Option-cases, map, any, ap,
}
use home_server_interface.VolumeGuard.{
  Volume, HoldPlan, App, is_ok, is_blocked, is_back, plan_volume, plan_volumes, plan_holds,
  new_hold, release_all, create_hold, set_back, back_all, reblock_hold, run_volume_guard,
  HoldStatus, apps_under, path_under, stray_files_of,
}
use home_server_interface.VolumeGuard.Paths.{Hold, blocked, back}

mem-keys : {V : Type 0} (j : String) (m : List (String × V)) → mem j (keys m) ≡ is_some (lookup j m)
mem-keys j [] = refl
mem-keys j ((i, v) ∷ m) = ground (arith, mem-keys j m, eq_iff i j, eq_iff j i)

lookup-release_all :
    (j : String) (mps : List String) (holds : List (String × Hold))
    → lookup j (release_all mps holds) ≡ (if mem j mps then none else lookup j holds)
lookup-release_all j [] holds = refl
lookup-release_all j (mp ∷ mps) holds = ground (
  arith,
  lookup-release_all j mps (erase mp holds),
  lookup-erase mp j holds,
  eq_iff mp j,
  eq_iff j mp,
)

back_twice : (h : Option Hold) → map_some set_back (map_some set_back h) ≡ map_some set_back h
back_twice none = refl
back_twice (some h) = refl

lookup-back_all :
    (j : String) (mps : List String) (holds : List (String × Hold))
    → lookup j (back_all mps holds)
      ≡ (if mem j mps then map_some set_back (lookup j holds) else lookup j holds)
lookup-back_all j [] holds = refl
lookup-back_all j (mp ∷ mps) holds = ground (
  arith,
  lookup-back_all j mps (modify mp set_back holds),
  lookup-modify mp j set_back holds,
  eq_iff mp j,
  back_twice (lookup j holds),
)

abbrev created : Option Volume → Option Hold → Option String
created none h = none
created (some v) h = if not (is_ok v) && not (is_some h) then some v.state else none

abbrev returns : Option Volume → Option Hold → Bool
returns none h = false
returns (some v) h = is_ok v && is_blocked h

abbrev reblocked : Option Volume → Option Hold → Option String
reblocked none h = none
reblocked (some v) h = if not (is_ok v) && is_back h then some v.state else none

cons_if-Unique :
    (mp : String) (x : String) (b : Bool) (l : List (String × String))
    → lookup mp l ≡ none
    → Unique l
    → Unique (if b then (mp, x) ∷ l else l)
cons_if-Unique mp x true l fresh u = (fresh, u)
cons_if-Unique mp x false l fresh u = u

create-plan_volume :
    (mp : String) (v : Volume) (h : Option Hold) (plan : HoldPlan)
    → (plan_volume mp v h plan).create
      ≡ (if not (is_ok v) && not (is_some h) then (mp, v.state) ∷ plan.create else plan.create)
create-plan_volume mp v h plan = ground arith

back_again-plan_volume :
    (mp : String) (v : Volume) (h : Option Hold) (plan : HoldPlan)
    → (plan_volume mp v h plan).back_again
      ≡ (if is_ok v && is_blocked h then mp ∷ plan.back_again else plan.back_again)
back_again-plan_volume mp v h plan = ground arith

reblock-plan_volume :
    (mp : String) (v : Volume) (h : Option Hold) (plan : HoldPlan)
    → (plan_volume mp v h plan).reblock
      ≡ (if not (is_ok v) && is_back h then (mp, v.state) ∷ plan.reblock else plan.reblock)
reblock-plan_volume mp v h plan = ground arith

release-plan_volume :
    (mp : String) (v : Volume) (h : Option Hold) (plan : HoldPlan)
    → (plan_volume mp v h plan).release ≡ plan.release
release-plan_volume mp v h plan = ground arith

module _ (holds : List (String × Hold)) (release : List String) where
  abbrev planned : List (String × Volume) → HoldPlan
  planned volumes = plan_volumes volumes holds release

  lookup-create :
      (j : String) (volumes : List (String × Volume))
      → Unique volumes
      → lookup j (planned volumes).create ≡ created (lookup j volumes) (lookup j holds)
  unfolding plan_volumes
  lookup-create j [] u = refl
  lookup-create j ((mp, v) ∷ volumes) u = ground (
    arith,
    create-plan_volume mp v (lookup mp holds) (planned volumes),
    lookup-create j volumes u.1,
    u.0,
    eq_iff mp j,
  )

  mem-back_again :
      (j : String) (volumes : List (String × Volume))
      → Unique volumes
      → mem j (planned volumes).back_again ≡ returns (lookup j volumes) (lookup j holds)
  unfolding plan_volumes
  mem-back_again j [] u = refl
  mem-back_again j ((mp, v) ∷ volumes) u = ground (
    arith,
    back_again-plan_volume mp v (lookup mp holds) (planned volumes),
    mem-back_again j volumes u.1,
    u.0,
    eq_iff mp j,
  )

  lookup-reblock :
      (j : String) (volumes : List (String × Volume))
      → Unique volumes
      → lookup j (planned volumes).reblock ≡ reblocked (lookup j volumes) (lookup j holds)
  unfolding plan_volumes
  lookup-reblock j [] u = refl
  lookup-reblock j ((mp, v) ∷ volumes) u = ground (
    arith,
    reblock-plan_volume mp v (lookup mp holds) (planned volumes),
    lookup-reblock j volumes u.1,
    u.0,
    eq_iff mp j,
  )

  release-planned : (volumes : List (String × Volume)) → (planned volumes).release ≡ release
  unfolding plan_volumes
  release-planned [] = refl
  release-planned ((mp, v) ∷ volumes) =
      release-plan_volume mp v (lookup mp holds) (planned volumes) ∙ release-planned volumes

  create-Unique :
      (volumes : List (String × Volume)) → Unique volumes → Unique (planned volumes).create
  unfolding plan_volumes
  create-Unique [] u = tt
  create-Unique ((mp, v) ∷ volumes) u =
      rw (create-plan_volume mp v (lookup mp holds) (planned volumes)) (
        cons_if-Unique mp v.state (not (is_ok v) && not (is_some (lookup mp holds))) _
          (ground (arith, lookup-create mp volumes u.1, u.0)) (create-Unique volumes u.1))

  reblock-Unique :
      (volumes : List (String × Volume)) → Unique volumes → Unique (planned volumes).reblock
  unfolding plan_volumes
  reblock-Unique [] u = tt
  reblock-Unique ((mp, v) ∷ volumes) u =
      rw (reblock-plan_volume mp v (lookup mp holds) (planned volumes)) (
        cons_if-Unique mp v.state (not (is_ok v) && is_back (lookup mp holds)) _
          (ground (arith, lookup-reblock mp volumes u.1, u.0)) (reblock-Unique volumes u.1))

-- The hold of a mount point after a round: of a volume that is gone there is none, an unusable
-- volume without a hold gets one, and a hold follows its volume between the two states.
abbrev pub next_hold : List App → String → Option Volume → Option Hold → Option Hold
next_hold apps mp none h = none
next_hold apps mp (some v) none =
    if str_eq v.state "ok"
    then none
    else some (record {
      mount_point = mp;
      status = blocked;
      reason = v.state;
      stopped_apps =
          map (λ a. a.name) (filter (λ a. a.running && any (λ s. path_under s mp) a.sources) apps);
      stray_files = v.stray_files;
    })
next_hold apps mp (some v) (some h) =
    if str_eq v.state "ok"
    then some (record h { status = back })
    else if is_back (some h)
    then some (record h { status = blocked; reason = v.state })
    else some h

-- The same, with the new hold as the loop makes it from the whole report.
abbrev round_hold :
    List (String × Volume) → List App → String → Option Volume → Option Hold → Option Hold
round_hold volumes apps mp none h = none
round_hold volumes apps mp (some v) none =
    if is_ok v then none else some (new_hold volumes apps mp v.state)
round_hold volumes apps mp (some v) (some h) = next_hold apps mp (some v) (some h)

round_hold-next_hold :
    (volumes : List (String × Volume)) (apps : List App) (mp : String) (h : Option Hold)
    → round_hold volumes apps mp (lookup mp volumes) h ≡ next_hold apps mp (lookup mp volumes) h
unfolding new_hold apps_under is_ok
round_hold-next_hold volumes apps mp (some h) = elim (Option-cases (lookup mp volumes)) [
  | inl e ↦ rw e refl
  | inr (v, e) ↦ rw e refl
]
round_hold-next_hold volumes apps mp none = elim (Option-cases (lookup mp volumes)) [
  | inl e ↦ rw e refl
  | inr (v, e) ↦ elim (Bool-cases (is_ok v)) [
    | inl healthy ↦ rw (e, healthy) refl
    | inr unusable ↦
        rw (e, unusable)
          (ap
            (λ (o : Option Volume). some (record {
              mount_point = mp;
              status = blocked;
              reason = v.state;
              stopped_apps = apps_under apps mp;
              stray_files = stray_files_of o;
            }))
            e)
  ]
]

abbrev reblocked_with : String → Option Hold → Option Hold
reblocked_with reason h = map_some (λ k. record k { status = blocked; reason = reason }) h

abbrev unmanaged : List (String × Volume) → List (String × Hold) → List String
unmanaged volumes holds = filter (λ mp. not (has mp volumes)) (keys holds)

lookup-create_hold :
    (volumes : List (String × Volume)) (apps : List App) (j k : String) (reason : String)
    (m : List (String × Hold))
    → lookup j (create_hold volumes apps k reason m)
      ≡ (if str_eq k j then some (new_hold volumes apps j reason) else lookup j m)
lookup-create_hold volumes apps j k reason m =
    ground (arith, lookup-insert k j (new_hold volumes apps k reason) m, eq_iff k j)

either_status : (s : HoldStatus) → (s ≡ blocked) ⊎ (s ≡ back)
either_status blocked = inl refl
either_status back = inr refl

pub status_cases : (h : Hold) → (h.status ≡ blocked) ⊎ (h.status ≡ back)
status_cases h = either_status h.status

-- The four loops one after the other, for one mount point.
round_cases :
    (volumes : List (String × Volume)) (apps : List App) (mp : String) (v : Option Volume)
    (h : Option Hold)
    → written (reblock_hold) reblocked_with (reblocked v h) (
        let found =
          written
            (create_hold volumes apps)
            (λ reason k. some (new_hold volumes apps mp reason))
            (created v h)
            (if is_some h && not (is_some v) then none else h) in
        if returns v h then map_some set_back found else found)
      ≡ round_hold volumes apps mp v h
unfolding is_ok
round_cases volumes apps mp none none = refl
round_cases volumes apps mp none (some h) = refl
round_cases volumes apps mp (some v) none = ground arith
round_cases volumes apps mp (some v) (some h) = elim (Bool-cases (is_ok v)) [
  | inl ok ↦ elim (status_cases h) [ inl e ↦ rw (ok, e) refl | inr e ↦ rw (ok, e) refl ]
  | inr unusable ↦ elim (status_cases h) [
    | inl e ↦ rw (unusable, e) refl
    | inr e ↦ rw (unusable, e) refl
  ]
]

-- A round with a report that names each mount point once leaves each mount point with the hold
-- that its own volume and its own earlier hold call for.
pub lookup-run_volume_guard :
    (volumes : List (String × Volume)) (apps : Option (List App)) (holds : List (String × Hold))
    (mp : String)
    → Unique volumes
    → lookup mp (run_volume_guard (some volumes) apps holds)
      ≡ next_hold (get_or apps []) mp (lookup mp volumes) (lookup mp holds)
unfolding run_volume_guard plan_holds
lookup-run_volume_guard volumes apps holds mp u =
    rw
      (
        lookup-write_all reblock_hold reblocked_with mp
            (λ k reason m.
              lookup-modify k mp (λ h. record h { status = blocked; reason = reason }) m)
            (plan_holds volumes holds).reblock
            (back_all (plan_holds volumes holds).back_again (
              write_all (create_hold volumes (get_or apps [])) (plan_holds volumes holds).create
                (release_all (plan_holds volumes holds).release holds)))
            (reblock-Unique holds (unmanaged volumes holds) volumes u),
        lookup-back_all mp (plan_holds volumes holds).back_again (
            write_all (create_hold volumes (get_or apps [])) (plan_holds volumes holds).create
              (release_all (plan_holds volumes holds).release holds)),
        lookup-write_all (create_hold volumes (get_or apps []))
            (λ reason h. some (new_hold volumes (get_or apps []) mp reason)) mp
            (lookup-create_hold volumes (get_or apps []) mp) (plan_holds volumes holds).create
            (release_all (plan_holds volumes holds).release holds)
            (create-Unique holds (unmanaged volumes holds) volumes u),
        lookup-release_all mp (plan_holds volumes holds).release holds,
      )
      (rw
        (
          lookup-reblock holds (unmanaged volumes holds) mp volumes u,
          mem-back_again holds (unmanaged volumes holds) mp volumes u,
          lookup-create holds (unmanaged volumes holds) mp volumes u,
          release-planned holds (unmanaged volumes holds) volumes,
          mem-filter_of_mem mp (λ k. not (has k volumes)) (keys holds),
          mem-keys mp holds,
        )
        (round_cases volumes (get_or apps []) mp (lookup mp volumes) (lookup mp holds)))
    ∙ round_hold-next_hold volumes (get_or apps []) mp (lookup mp holds)
