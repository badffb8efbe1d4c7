-- ===== src/Alerts.antt =====
-- apps/backend/src/services/alert-sampler.ts: the alerts of one source, brought in line with what
-- a check found, and the events about them. The table of a source's alerts is a map from the
-- target, its unique key; what a check found is a list by target. Times of events are left out.
pub mod Reconcile
mod Tests
use Prim.Native.String.{String}
use home_server_interface.Base.{
  Bool, true, false, ◌&&◌, ◌||◌, not, List, [], ◌∷◌, ◌++◌, Option, none, some, is_some, str_eq,
  if◌then◌else◌, lookup, insert, erase, keys, has, mem, dedup_from,
}

pub data Severity : Type 0 where
  info warning critical : Severity

pub record Alert : Type 0 where
  pub severity : Severity
  pub message : String

pub record CheckOutcome : Type 0 where
  pub found : List (String × Alert)
  pub checked : List String
  pub authoritative : Bool

unfoldable pub checked_targets : CheckOutcome → List (String × Alert) → List String
checked_targets outcome prev =
    if not outcome.authoritative
    then outcome.checked
    else dedup_from [] (outcome.checked ++ keys prev)

pub data EventType : Type 0 where
  alert_raised alert_cleared : EventType

pub record Event : Type 0 where
  pub type : EventType
  pub source : String
  pub target : String
  pub alert : Alert

unfoldable pub same_severity : Severity → Severity → Bool
same_severity info info = true
same_severity warning warning = true
same_severity critical critical = true
same_severity s t = false

-- `!was || was.severity !== f.severity`
abbrev pub is_new : Option Alert → Alert → Bool
is_new none f = true
is_new (some was) f = not (same_severity was.severity f.severity)

unfoldable pub raised : String → List (String × Alert) → List (String × Alert) → List Event
raised source prev [] = []
raised source prev ((target, f) ∷ found) =
    let rest = raised source prev found in
    if is_new (lookup target prev) f
    then record { type = alert_raised; source = source; target = target; alert = f } ∷ rest
    else rest

unfoldable pub cleared :
    String → List String → List (String × Alert) → List (String × Alert) → List Event
cleared source checked found [] = []
cleared source checked found ((target, p) ∷ prev) =
    let rest = cleared source checked found prev in
    if not (mem target checked) || has target found
    then rest
    else record { type = alert_cleared; source = source; target = target; alert = p } ∷ rest

unfoldable pub diff_alerts :
    String → List (String × Alert) → List String → List (String × Alert) → List Event × List Event
diff_alerts source prev checked found =
    (raised source prev found, cleared source checked found prev)

abbrev pub delete_all : List Event → List (String × Alert) → List (String × Alert)
delete_all [] alerts = alerts
delete_all (e ∷ events) alerts = delete_all events (erase e.target alerts)

abbrev pub upsert_all : List (String × Alert) → List (String × Alert) → List (String × Alert)
upsert_all [] alerts = alerts
upsert_all ((target, f) ∷ found) alerts = upsert_all found (insert target f alerts)

-- The source's alerts after a check, and the events that are dispatched, in order.
unfoldable pub reconcile_source :
    String → CheckOutcome → List (String × Alert) → List (String × Alert) × List Event
reconcile_source source outcome prev =
    let diff = diff_alerts source prev (checked_targets outcome prev) outcome.found in
    (upsert_all outcome.found (delete_all diff.1 prev), diff.0 ++ diff.1)
