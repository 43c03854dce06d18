-- ===== src/Kernel/Commands/Consent.antt =====
-- vsm/kernel/service.py: the approvals that a RouteSnapshot has. The commands copy a snapshot
-- with `model_copy`, which does not run the validators of the model again.
use nanihold_os.Prelude.{ℕ, String, ◌≡◌, refl, true, false, not, Option, some, arith}
use nanihold_os.Result.{Ensures, Ensures-ok, Ensures-raise_if, Ensures-require, Ensures-bind}
use nanihold_os.Dict.{Dict, get, put, Every, Every-put}
use nanihold_os.Models.Route.{
  RouteSnapshot, RouteSnapshotState, RouteSnapshotRetirementReason, is_owner_approved, is_published,
  candidates_and_approvals_are_consistent,
}
use nanihold_os.Activation.{Caller}
use nanihold_os.Kernel.{Kernel, Plan}
use nanihold_os.Kernel.Routes.{
  register_route_snapshot, approve_route_snapshot, publish_route_snapshot, retire_route_snapshot,
  approved_by,
}
use nanihold_os.Ids.{Platform}
use nanihold_os.Models.Event.{EventEnvelope}
use nanihold_os.Models.Payload.{Payload}
use nanihold_os.Kernel.Commands.{Command, plan_of, execute}
use nanihold_os.Kernel.Commands.Running.{execute-keeps}
use nanihold_os.Kernel.Commands.Frames.{route_snapshots_frame}

abbrev IsConsistent : RouteSnapshot → Type 0
IsConsistent s = candidates_and_approvals_are_consistent s ≡ true

abbrev pub SnapshotsAreConsistent : Dict RouteSnapshot → Type 0
SnapshotsAreConsistent = Every (λ id s. candidates_and_approvals_are_consistent s ≡ true)

approved-IsConsistent :
    (approval event_id : String) (s : RouteSnapshot)
    (a : RouteSnapshotState × (String → RouteSnapshot))
    → IsConsistent s
    → approved_by approval s ≡ some a
    → IsConsistent (a.1 event_id)
unfolding candidates_and_approvals_are_consistent
approved-IsConsistent approval event_id s a h p = ground arith

published-IsConsistent :
    (s : RouteSnapshot)
    → IsConsistent s
    → not (is_owner_approved s.state) ≡ false
    → IsConsistent (record s { state = RouteSnapshotState.published })
unfolding candidates_and_approvals_are_consistent
published-IsConsistent s h q = ground arith

retired-IsConsistent :
    (s : RouteSnapshot)
    → IsConsistent s
    → not (is_published s.state) ≡ false
    → IsConsistent (record s { state = RouteSnapshotState.retired })
unfolding candidates_and_approvals_are_consistent
retired-IsConsistent s h q = ground arith

ruleset steps = (Ensures-ok, Ensures-raise_if, Ensures-require, Ensures-bind)

abbrev Keeps : Plan → Type 0
Keeps p = (id : String) → SnapshotsAreConsistent (p.next id).route_snapshots

module _ (k : Kernel) (h : SnapshotsAreConsistent k.registry.route_snapshots) (c : Caller) where
  register-Keeps :
      (s : RouteSnapshot) → IsConsistent s → Ensures Keeps (register_route_snapshot k s c)
  unfolding register_route_snapshot
  register-Keeps s valid = search (steps, Every-put, h, valid) depth 24

  approve-Keeps : (x approval : String) → Ensures Keeps (approve_route_snapshot k x approval c)
  unfolding approve_route_snapshot
  approve-Keeps x approval =
      let leaf : (s : RouteSnapshot) (a : RouteSnapshotState × (String → RouteSnapshot))
            (id : String)
          → get k.registry.route_snapshots x ≡ some s
          → approved_by approval s ≡ some a
          → SnapshotsAreConsistent (put k.registry.route_snapshots x (a.1 id)) =
        λ s a id found p.
          Every-put _ x (a.1 id) h (approved-IsConsistent approval id s a (h.at x s found) p) in
      search (steps, leaf) depth 24

  publish-Keeps : (x : String) → Ensures Keeps (publish_route_snapshot k x c)
  unfolding publish_route_snapshot
  publish-Keeps x =
      let leaf : (s : RouteSnapshot)
          → get k.registry.route_snapshots x ≡ some s
          → not (is_owner_approved s.state) ≡ false
          → SnapshotsAreConsistent (
              put k.registry.route_snapshots x
                (record s { state = RouteSnapshotState.published })) =
        λ s found q. Every-put _ x _ h (published-IsConsistent s (h.at x s found) q) in
      search (steps, leaf) depth 24

  retire-Keeps :
      (x : String) (r : RouteSnapshotRetirementReason) (o : Option String)
      → Ensures Keeps (retire_route_snapshot k x r o c)
  unfolding retire_route_snapshot
  retire-Keeps x r o =
      let leaf : (s : RouteSnapshot)
          → get k.registry.route_snapshots x ≡ some s
          → not (is_published s.state) ≡ false
          → SnapshotsAreConsistent
              (put k.registry.route_snapshots x (record s { state = RouteSnapshotState.retired })) =
        λ s found q. Every-put _ x _ h (retired-IsConsistent s (h.at x s found) q) in
      search (steps, leaf) depth 24

  snapshots_stay_valid_plan :
      (command : Command)
      → ((s : RouteSnapshot)
          → command ≡ Command.register_route_snapshot s
          → candidates_and_approvals_are_consistent s ≡ true)
      → Ensures Keeps (plan_of k command c)
  unfolding plan_of
  snapshots_stay_valid_plan (Command.register_route_snapshot s) valid =
      register-Keeps s (valid s refl)
  snapshots_stay_valid_plan (Command.approve_route_snapshot x approval) valid =
      approve-Keeps x approval
  snapshots_stay_valid_plan (Command.publish_route_snapshot x) valid = publish-Keeps x
  snapshots_stay_valid_plan (Command.retire_route_snapshot x r o) valid = retire-Keeps x r o
  snapshots_stay_valid_plan command valid =
      route_snapshots_frame SnapshotsAreConsistent k command c refl h

-- If the RouteSnapshots pass the validator of their model, so they do after every command, also one
-- that raises, when a snapshot that the command registers passes it.
pub snapshots_stay_valid :
    (dump : EventEnvelope Payload → String) (platform : Platform) (now : ℕ) (command : Command)
    (c : Caller) (k : Kernel)
    → SnapshotsAreConsistent k.registry.route_snapshots
    → ((s : RouteSnapshot)
        → command ≡ Command.register_route_snapshot s
        → candidates_and_approvals_are_consistent s ≡ true)
    → SnapshotsAreConsistent (execute dump platform now command c k).1.registry.route_snapshots
snapshots_stay_valid dump platform now command c k h valid =
    execute-keeps dump platform (λ r. SnapshotsAreConsistent r.route_snapshots) now command c k h
      (snapshots_stay_valid_plan k h c command valid)
