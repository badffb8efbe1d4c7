-- ===== src/VolumeGuard/Tests.antt =====
-- A disk with its backup disk inside, for the theorems about the guard.
use Prim.Native.String.{String}
use home_server_interface.Base.{true, false, List, [], ◌∷◌, none, some, refl, ◌≡◌, lookup, All, ◌↔◌}
use home_server_interface.VolumeGuard.{
  Volume, App, is_ok, run_volume_guard, resume_volume, assert_volume_available, apps_under,
}
use home_server_interface.VolumeGuard.Paths.{Hold, blocked, path_under}
use home_server_interface.VolumeGuard.Rounds.{lookup-run_volume_guard}
use home_server_interface.VolumeGuard.Resume.{
  run_rounds, restarted_apps, resume_volume-run_rounds, assert_volume_available_iff, Free,
}

abbrev healthy : Volume
healthy = record { state = "ok"; stray_files = false }

abbrev gone : Volume
gone = record { state = "missing"; stray_files = true }

abbrev report : Volume → List (String × Volume)
report data_disk = ("/data", data_disk) ∷ ("/data/backup", healthy) ∷ []

abbrev photos : App
photos = record { name = "photos"; sources = "/data/photos" ∷ []; running = true }

abbrev media : App
media = record { name = "media"; sources = "/srv" ∷ []; running = true }

abbrev held : String → Hold
held mp = record {
  mount_point = mp;
  status = blocked;
  reason = "missing";
  stopped_apps = [];
  stray_files = false;
}

abbrev two_holds : List Hold
two_holds = held "/data" ∷ held "/data/backup" ∷ []

lookup-run_volume_guard_example :
    lookup "/data" (run_volume_guard (some (report gone)) (some (photos ∷ media ∷ [])) [])
    ≡ some (record {
      mount_point = "/data";
      status = blocked;
      reason = "missing";
      stopped_apps = "photos" ∷ [];
      stray_files = true;
    })
unfolding is_ok path_under
lookup-run_volume_guard_example =
    lookup-run_volume_guard (report gone) (some (photos ∷ media ∷ [])) [] "/data" (refl, (refl, tt))

resume_volume-run_rounds_example :
    restarted_apps
      (resume_volume "/data" (
        run_volume_guard (some (report healthy)) none (
          run_rounds
            ((some (report gone), none) ∷ [])
            (run_volume_guard (some (report gone)) (some (photos ∷ media ∷ [])) [])))).0
    ≡ some ("photos" ∷ [])
unfolding is_ok apps_under path_under
resume_volume-run_rounds_example =
    resume_volume-run_rounds "/data" (report gone) (report healthy) (some (photos ∷ media ∷ []))
      none ((some (report gone), none) ∷ []) [] gone healthy (refl, (refl, tt)) refl refl refl
      ((refl, (refl, tt)), refl, tt) (refl, (refl, tt)) refl

assert_volume_available_iff_example :
    (assert_volume_available ("/srv/x" ∷ []) two_holds ≡ none)
    ↔ All (Free two_holds) ("/srv/x" ∷ [])
assert_volume_available_iff_example = assert_volume_available_iff ("/srv/x" ∷ []) two_holds
