-- ===== src/Plans/Samba/Sequence.antt =====
-- Plans one after another, and what they leave of Samba.
use Prim.Native.String.{String}
use home_server_interface.Base.{Bool, List, [], ◌∷◌, ◌≡◌}
use home_server_interface.Plans.{Call, Host, PlanApplyResult, Effect}
use home_server_interface.Plans.Shares.{ShareOp, apply_share_change}
use home_server_interface.Plans.Users.{apply_user_create, apply_user_delete}
use home_server_interface.Plans.RemoveVolume.{RemoveTarget, apply_volume_remove}
use home_server_interface.Plans.CreateVolume.{VolumeInput, apply_volume}
use home_server_interface.Plans.Samba.{settled, track}
use home_server_interface.Plans.Samba.Settled.{
  share-Settles, deletion-Settles, user-Settles, removal-Settles, creation-Settles,
}

-- The plans, and what applies each of them.
pub data Plan : Type 0 where
  change_share : ShareOp → String → Plan
  create_user : String → String → Bool → Plan
  delete_user : String → Plan
  remove_volume : RemoveTarget → Plan
  create_volume : VolumeInput → Plan

abbrev pub apply_plan : Host → Plan → String → Effect PlanApplyResult
apply_plan host (change_share op name) fp = apply_share_change host op name fp
apply_plan host (create_user name password samba) fp = apply_user_create host name password samba fp
apply_plan host (delete_user name) fp = apply_user_delete host name fp
apply_plan host (remove_volume t) fp = apply_volume_remove host t fp
apply_plan host (create_volume input) fp = apply_volume host input fp

-- Plans applied one after another, each with the fingerprint it is given, whatever the last returned or threw.
abbrev pub apply_plans : Host → List (Plan × String) → List Call → List Call
apply_plans host [] h = h
apply_plans host ((plan, fp) ∷ plans) h = apply_plans host plans (apply_plan host plan fp h).1

-- From a history whose calls left Samba settled, any sequence of changes of shares, creations and deletions of users, and
-- creations and removals of volumes, applied one after another with any fingerprints to a host that answers or throws in any way,
-- leaves it settled: Samba is changed under the lock of the shares only, the lock is let go of, and each change of Samba that
-- the worker answered has been followed by a successful write of the database, by a successful removal of the volume or by a resync
-- outside the lock.
pub apply_plans-settled :
    (host : Host) (plans : List (Plan × String)) (h : List Call)
    → track host h ≡ settled
    → track host (apply_plans host plans h) ≡ settled
apply_plans-settled host [] h start = start
apply_plans-settled host ((plan, fp) ∷ plans) h start =
    apply_plans-settled host plans (apply_plan host plan fp h).1 (one plan)
  where
    one : (plan : Plan) → track host (apply_plan host plan fp h).1 ≡ settled
    one (change_share op name) = share-Settles host op name fp h start
    one (create_user name password samba) = user-Settles host name password samba fp h start
    one (delete_user name) = deletion-Settles host name fp h start
    one (remove_volume t) = removal-Settles host t fp h start
    one (create_volume input) = creation-Settles host input fp h start
