-- ===== src/Alerts/Reconcile.antt =====
-- What reconciling does to each target's alert, and what the events say of it.
use Prim.Native.String.{String}
use home_server_interface.Base.{
  Bool, true, false, ◌&&◌, ◌||◌, not, List, [], ◌∷◌, ◌++◌, Option, none, some, str_eq,
  if◌then◌else◌, lookup, insert, erase, keys, has, mem, dedup_from, arith, ◌≡◌, refl, inl, inr,
  Bool-cases, Option-cases, Unique, eq_iff, lookup-insert, lookup-erase, any, mem-append,
  any-append, sym,
}
use home_server_interface.Alerts.{
  info, warning, critical, Alert, CheckOutcome, Event, alert_raised, alert_cleared, checked_targets,
  is_new, raised, cleared, diff_alerts, delete_all, upsert_all, reconcile_source, same_severity,
  Severity,
}

mem-keys : (t : String) (m : List (String × Alert)) → mem t (keys m) ≡ has t m
mem-keys t [] = refl
mem-keys t ((i, v) ∷ m) = ground (arith, mem-keys t m, eq_iff i t, eq_iff t i)

mem-dedup_from :
    (t : String) (seen xs : List String)
    → (mem t seen || mem t (dedup_from seen xs)) ≡ (mem t seen || mem t xs)
mem-dedup_from t seen [] = refl
mem-dedup_from t seen (x ∷ xs) =
    ground (arith, mem-dedup_from t seen xs, mem-dedup_from t (x ∷ seen) xs, eq_iff x t)

-- Whether a check covers a target: it says so, or it covers all and there was an alert.
abbrev pub covers : CheckOutcome → List (String × Alert) → String → Bool
covers outcome prev t = mem t outcome.checked || (outcome.authoritative && has t prev)

mem-checked_targets :
    (t : String) (outcome : CheckOutcome) (prev : List (String × Alert))
    → mem t (checked_targets outcome prev) ≡ covers outcome prev t
unfolding checked_targets
mem-checked_targets t outcome prev = ground (
  arith,
  mem-dedup_from t [] (outcome.checked ++ keys prev),
  mem-append t outcome.checked (keys prev),
  mem-keys t prev,
)

targets : List Event → List String
targets [] = []
targets (e ∷ events) = e.target ∷ targets events

lookup-delete_all :
    (t : String) (events : List Event) (alerts : List (String × Alert))
    → lookup t (delete_all events alerts)
      ≡ (if mem t (targets events) then none else lookup t alerts)
unfolding targets
lookup-delete_all t [] alerts = refl
lookup-delete_all t (e ∷ events) alerts =
    ground
      (arith, lookup-delete_all t events (erase e.target alerts), lookup-erase e.target t alerts)

lookup-upsert_all :
    (t : String) (found alerts : List (String × Alert))
    → Unique found
    → lookup t (upsert_all found alerts) ≡ (if has t found then lookup t found else lookup t alerts)
lookup-upsert_all t [] alerts u = refl
lookup-upsert_all t ((i, f) ∷ found) alerts u = ground (
  arith,
  lookup-upsert_all t found (insert i f alerts) u.1,
  lookup-insert i t f alerts,
  u.0,
  eq_iff i t,
)

targets-cleared :
    (t source : String) (checked : List String) (found prev : List (String × Alert))
    → mem t (targets (cleared source checked found prev))
      ≡ (has t prev && mem t checked && not (has t found))
unfolding targets cleared
targets-cleared t source checked found [] = refl
targets-cleared t source checked found ((i, p) ∷ prev) =
    ground (arith, targets-cleared t source checked found prev, eq_iff i t)

-- After a check that names each target once, a target has the alert that the check found, none if
-- the check covers it and found nothing, and else the alert that it had.
pub lookup-reconcile_source :
    (source : String) (outcome : CheckOutcome) (prev : List (String × Alert)) (t : String)
    → Unique outcome.found
    → lookup t (reconcile_source source outcome prev).0 ≡ (
        if has t outcome.found
        then lookup t outcome.found
        else if covers outcome prev t
        then none
        else lookup t prev)
unfolding reconcile_source diff_alerts
lookup-reconcile_source source outcome prev t u = ground (
  arith,
  lookup-upsert_all t outcome.found
      (delete_all (cleared source (checked_targets outcome prev) outcome.found prev) prev) u,
  lookup-delete_all t (cleared source (checked_targets outcome prev) outcome.found prev) prev,
  targets-cleared t source (checked_targets outcome prev) outcome.found prev,
  mem-checked_targets t outcome prev,
  Option-cases (lookup t prev),
)

abbrev pub is_raised : String → Event → Bool
is_raised t e = elim e.type [ alert_raised ↦ str_eq e.target t | alert_cleared ↦ false ]

abbrev pub is_cleared : String → Event → Bool
is_cleared t e = elim e.type [ alert_raised ↦ false | alert_cleared ↦ str_eq e.target t ]

-- A target's alert is there after and was not there before, or not at that severity.
abbrev pub appeared : Option Alert → Option Alert → Bool
appeared before none = false
appeared before (some after) = is_new before after

any-raised :
    (t source : String) (prev found : List (String × Alert))
    → Unique found
    → any (is_raised t) (raised source prev found)
      ≡ (has t found && appeared (lookup t prev) (lookup t found))
unfolding raised
any-raised t source prev [] u = refl
any-raised t source prev ((i, f) ∷ found) u = ground (
  arith,
  any-raised t source prev found u.1,
  u.0,
  eq_iff i t,
  Bool-cases (is_new (lookup i prev) f),
)

any-cleared-raised :
    (t source : String) (prev found : List (String × Alert))
    → any (is_cleared t) (raised source prev found) ≡ false
unfolding raised
any-cleared-raised t source prev [] = refl
any-cleared-raised t source prev ((i, f) ∷ found) =
    ground (arith, any-cleared-raised t source prev found, Bool-cases (is_new (lookup i prev) f))

any-raised-cleared :
    (t source : String) (checked : List String) (found prev : List (String × Alert))
    → any (is_raised t) (cleared source checked found prev) ≡ false
unfolding cleared
any-raised-cleared t source checked found [] = refl
any-raised-cleared t source checked found ((i, p) ∷ prev) =
    ground (arith, any-raised-cleared t source checked found prev)

any-cleared :
    (t source : String) (checked : List String) (found prev : List (String × Alert))
    → any (is_cleared t) (cleared source checked found prev)
      ≡ (has t prev && mem t checked && not (has t found))
unfolding cleared
any-cleared t source checked found [] = refl
any-cleared t source checked found ((i, p) ∷ prev) =
    ground (arith, any-cleared t source checked found prev, eq_iff i t)

same_severity_refl : (s : Severity) → same_severity s s ≡ true
unfolding same_severity
same_severity_refl info = refl
same_severity_refl warning = refl
same_severity_refl critical = refl

appeared_same : (a : Option Alert) → appeared a a ≡ false
appeared_same none = refl
appeared_same (some a) = ground (arith, same_severity_refl a.severity)

module _ (source : String) (outcome : CheckOutcome) (prev : List (String × Alert))
    (t : String) where
  events_raised :
      Unique outcome.found
      → any (is_raised t) (reconcile_source source outcome prev).1
        ≡ (has t outcome.found && appeared (lookup t prev) (lookup t outcome.found))
  unfolding reconcile_source diff_alerts
  events_raised u = ground (
    arith,
    any-append (is_raised t) (raised source prev outcome.found)
        (cleared source (checked_targets outcome prev) outcome.found prev),
    any-raised t source prev outcome.found u,
    any-raised-cleared t source (checked_targets outcome prev) outcome.found prev,
  )

  events_cleared :
      any (is_cleared t) (reconcile_source source outcome prev).1
      ≡ (has t prev && covers outcome prev t && not (has t outcome.found))
  unfolding reconcile_source diff_alerts
  events_cleared = ground (
    arith,
    any-append (is_cleared t) (raised source prev outcome.found)
        (cleared source (checked_targets outcome prev) outcome.found prev),
    any-cleared-raised t source prev outcome.found,
    any-cleared t source (checked_targets outcome prev) outcome.found prev,
    mem-checked_targets t outcome prev,
  )

-- The events of a check tell exactly what it changed: a target is raised when it has an alert that
-- it did not have at that severity, and cleared when it had one and has none.
pub any-reconcile_source :
    (source : String) (outcome : CheckOutcome) (prev : List (String × Alert)) (t : String)
    → Unique outcome.found
    → (any (is_raised t) (reconcile_source source outcome prev).1
        ≡ appeared (lookup t prev) (lookup t (reconcile_source source outcome prev).0))
      × (any (is_cleared t) (reconcile_source source outcome prev).1
          ≡ (has t prev && not (has t (reconcile_source source outcome prev).0)))
any-reconcile_source source outcome prev t u =
    rw
      (
        lookup-reconcile_source source outcome prev t u,
        events_raised source outcome prev t u,
        events_cleared source outcome prev t,
      )
      (elim (Option-cases (lookup t outcome.found)) [
        | inl nothing ↦ rw nothing (elim (Bool-cases (covers outcome prev t)) [
          | inl covered ↦ rw covered (refl, ground arith)
          | inr left_out ↦ rw left_out (sym (appeared_same (lookup t prev)), ground arith)
        ])
        | inr (f, e) ↦ rw e (refl, ground arith)
      ])
