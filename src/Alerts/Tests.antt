-- ===== src/Alerts/Tests.antt =====
-- A check of two filesystems with an open alert on a third, for the theorems about alerts.
use Prim.Native.String.{String}
use home_server_interface.Base.{true, not, List, [], ◌∷◌, none, some, refl, ◌≡◌, lookup, any, has}
use home_server_interface.Alerts.{Alert, CheckOutcome, warning, critical, reconcile_source}
use home_server_interface.Alerts.Reconcile.{
  lookup-reconcile_source, any-reconcile_source, is_raised, is_cleared, appeared,
}

abbrev full : Alert
full = record { severity = critical; message = "full" }

abbrev filling : Alert
filling = record { severity = warning; message = "filling" }

abbrev outcome : CheckOutcome
outcome = record {
  found = ("/data", full) ∷ [];
  checked = "/data" ∷ "/home" ∷ [];
  authoritative = true;
}

abbrev open_alerts : List (String × Alert)
open_alerts = ("/data", filling) ∷ ("/old", filling) ∷ []

lookup-reconcile_source_example :
    lookup "/old" (reconcile_source "storage.disk-usage" outcome open_alerts).0 ≡ none
lookup-reconcile_source_example =
    lookup-reconcile_source "storage.disk-usage" outcome open_alerts "/old" (refl, tt)

any-reconcile_source_example :
    (any (is_raised "/data") (reconcile_source "storage.disk-usage" outcome open_alerts).1
      ≡ appeared
          (some filling)
          (lookup "/data" (reconcile_source "storage.disk-usage" outcome open_alerts).0))
    × (any (is_cleared "/data") (reconcile_source "storage.disk-usage" outcome open_alerts).1
        ≡ not (has "/data" (reconcile_source "storage.disk-usage" outcome open_alerts).0))
any-reconcile_source_example =
    any-reconcile_source "storage.disk-usage" outcome open_alerts "/data" (refl, tt)
