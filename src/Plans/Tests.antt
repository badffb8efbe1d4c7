-- ===== src/Plans/Tests.antt =====
-- Plans on a host whose database refuses to commit after Samba was changed.
use Prim.Native.String.{String}
use home_server_interface.Base.{
  true, false, List, [], ◌∷◌, none, ok, err, ◌≡◌, refl, str_eq, if◌then◌else◌,
}
use home_server_interface.Plans.{Host, Preview, PlanApplyResult, Thrown}
use home_server_interface.Plans.Shares.{update}
use home_server_interface.Plans.RemoveVolume.{RemoveTarget, apply_volume_remove}
use home_server_interface.Plans.Samba.{settled, track}
use home_server_interface.Plans.Samba.Sequence.{
  Plan, change_share, delete_user, remove_volume, apply_plans, apply_plans-settled,
}
use home_server_interface.Plans.Commits
use home_server_interface.Plans.Commits.{
  RowPlan, succeeded, committed, apply_row_plan, apply_row_plan-committed,
}
use home_server_interface.Plans.Order.{in_order, apply_volume_remove-in_order}

abbrev one_step : Preview
one_step = record {
  steps =
      record { kind = "change"; target = "host"; summary = "Change it"; destructive = false } ∷ [];
  fingerprint = "print";
}

abbrev done : PlanApplyResult
done = record {
  ok = true;
  error = none;
  steps = one_step.steps;
  results = record { status = "done"; error = none } ∷ [];
  warnings = [];
  reply = [];
}

abbrev disk_full : Thrown
disk_full = record { code = none; message = "disk full" }

abbrev failing_host : Host
failing_host = record {
  is_admin = true;
  preview = λ h op input. ok one_step;
  apply = λ h op input fp. ok done;
  smbd_installed = λ h. ok true;
  share_defs = λ h. ok ("media" ∷ []);
  current_share_defs = λ h. ok ("media" ∷ "photos" ∷ []);
  commit = λ h. err disk_full;
  create_place = λ h. ok "place";
  create_share = λ h id. err disk_full;
  delete_place = λ h id. if str_eq id "p1" then ok tt else err disk_full;
  digest = λ texts. "digest";
}

abbrev disk : RemoveTarget
disk = record {
  uuid = "1234";
  mount_point = "/srv/media";
  name = "media";
  places = record { id = "p1"; name = "Films" } ∷ record { id = "p2"; name = "Music" } ∷ [];
  apps = [];
  shared = true;
  share_names = "films" ∷ [];
}

abbrev three_plans : List (Plan × String)
three_plans =
    (change_share update "media", "print")
    ∷ (delete_user "ada", "digest")
    ∷ (remove_volume disk, "digest")
    ∷ []

apply_plans-settled_example : track failing_host (apply_plans failing_host three_plans []) ≡ settled
apply_plans-settled_example = apply_plans-settled failing_host three_plans [] refl

apply_row_plan-committed_example :
    succeeded (apply_row_plan failing_host (Commits.delete_user "ada") "digest" []).0
    ≡ committed failing_host (apply_row_plan failing_host (Commits.delete_user "ada") "digest" []).1
apply_row_plan-committed_example =
    apply_row_plan-committed failing_host (Commits.delete_user "ada") "digest"

apply_volume_remove-in_order_example :
    in_order failing_host "1234" (apply_volume_remove failing_host disk "digest" []).1 ≡ true
apply_volume_remove-in_order_example = apply_volume_remove-in_order failing_host disk "digest"
