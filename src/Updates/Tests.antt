-- ===== src/Updates/Tests.antt =====
-- An update to a newer version, for the theorems about updates.
use home_server_interface.Base.{
  ◌+◌, ◌≤◌, ◌<◌, false, List, [], ◌∷◌, none, some, refl, ◌≡◌, length, All,
}
use home_server_interface.Updates.{
  UpdateAttempt, recorded, reboot, Maintenance, begin_maintenance, current_maintenance,
  expires_after_ms, cache_ms, answer, maintenance_holds,
}
use home_server_interface.Updates.Attempts.{Check, announced, length-announced}
use home_server_interface.Updates.Expiry.{
  begins, asks, current_maintenance-run, answers, answers-begin_maintenance,
}

abbrev to_newer : UpdateAttempt
to_newer = record { target = "1.4.0"; requested_at = some 1000000 }

abbrev hourly : List Check
hourly =
    record { current = "1.3.0"; pending_exists = false; now = 1000000; started_at = 0 }
    ∷ record { current = "1.3.0"; pending_exists = false; now = 5000000; started_at = 0 }
    ∷ []

length-announced_example : length (announced hourly (recorded to_newer)) ≤ 1
length-announced_example = length-announced hourly (recorded to_newer)

abbrev rebooting : Maintenance
rebooting = record { kind = reboot; target = none; since = 1000 }

current_maintenance-run_example : 5000 < 1000 + expires_after_ms reboot + cache_ms
unfolding current_maintenance begin_maintenance answer maintenance_holds
current_maintenance-run_example =
    current_maintenance-run (begins reboot none 1000 ∷ asks 4000 none ∷ []) 5000 none rebooting refl

answers-begin_maintenance_example :
    All
      (λ a. a ≡ some rebooting)
      (answers ((1500, none) ∷ (2500, none) ∷ []) (begin_maintenance reboot none 1000))
unfolding maintenance_holds
answers-begin_maintenance_example =
    answers-begin_maintenance reboot none 1000 ((1500, none) ∷ (2500, none) ∷ []) (refl, (refl, tt))
