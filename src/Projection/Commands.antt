-- ===== src/Projection/Commands.antt =====
-- vsm/projection.py: the events of the Kernel's commands, replayed.
use nanihold_os.Prelude.{ℕ, String, ◌≡◌, refl, true, false, not, Option, some, arith, ◌==◌, eq_iff}
use nanihold_os.Result.{ok, Ensures}
use nanihold_os.Dict.{Dict, get, put, any_value-and}
use nanihold_os.Models.Work.{WorkItem, CompletionEvidence, S3StarFinding}
use nanihold_os.Models.Execution.{Execution, ExecutionState}
use nanihold_os.Models.Effect.{EffectLease, EffectLeaseState}
use nanihold_os.Models.Route.{RouteSnapshot, RouteSnapshotState, RouteSnapshotRetirementReason}
use nanihold_os.Models.Naming.{AgentNameAssignment, AgentIdentityRegistration, AgentNotification}
use nanihold_os.Models.Event.{ActorType}
use nanihold_os.Activation.{Caller}
use nanihold_os.Kernel.{Kernel, Plan, envelope}
use nanihold_os.Kernel.Grants.{
  register_node, grant_capability, register_reference_grant, reserve_budget,
}
use nanihold_os.Kernel.Executions.{create_execution, set_execution_state, pilot_host_disconnected}
use nanihold_os.Kernel.Effects.{
  plan_effect, approve_effect, activate_effect, mark_effect_unknown, reconcile_effect,
}
use nanihold_os.Kernel.Findings.{record_s3_star_finding}
use nanihold_os.Kernel.Routes.{
  register_route_snapshot, approve_route_snapshot, publish_route_snapshot, retire_route_snapshot,
  approved_by,
}
use nanihold_os.Kernel.Names.{
  record_agent_name_assignment, register_agent_identity, agent_name_is_registered,
}
use nanihold_os.Kernel.Notifications.{record_agent_notification}
use nanihold_os.Models.Node.{UvsmNode}
use nanihold_os.Models.Effect.{BudgetReservation}
use nanihold_os.Models.Grant.{CapabilityGrant, ReferenceGrant}
use nanihold_os.Kernel.Work.{
  create_work_item, add_dependency, delegate_work_item, complete_work_item, intervene,
  prepare_owner_confirmed_resume, validate_owner_confirmed_resume,
}
use nanihold_os.Projection.{on_record}
use nanihold_os.Projection.Records.{change, on_route_snapshot_changed, on_route_snapshot_approved}
use nanihold_os.Kernel.Commands.Frames.{guards}

-- The handler of the event makes of the registry what the command does.
abbrev pub Replays : Kernel → Plan → Type 0
Replays k p =
    (now : ℕ) (id : String)
    → on_record (envelope k p.draft now id) p.draft.payload k.registry ≡ ok (p.next id)

pub delegate-Replays :
    (k : Kernel) (w node : String) (c : Caller) (p : Plan)
    → delegate_work_item k w node c ≡ ok p
    → Replays k p
unfolding on_record delegate_work_item
delegate-Replays k w node c p h now id = ground arith

pub register_node-Replays :
    (k : Kernel) (node : UvsmNode) (c : Caller) (p : Plan)
    → register_node k node c ≡ ok p
    → Replays k p
unfolding on_record register_node
register_node-Replays k node c p h now id = ground arith

pub grant_capability-Replays :
    (k : Kernel) (g : CapabilityGrant) (t : ℕ) (c : Caller) (p : Plan)
    → grant_capability k g t c ≡ ok p
    → Replays k p
unfolding on_record grant_capability
grant_capability-Replays k g t c p h now id = ground arith

pub register_reference_grant-Replays :
    (k : Kernel) (g : ReferenceGrant) (t : ℕ) (c : Caller) (p : Plan)
    → register_reference_grant k g t c ≡ ok p
    → Replays k p
unfolding on_record register_reference_grant
register_reference_grant-Replays k g t c p h now id = ground arith

pub reserve_budget-Replays :
    (k : Kernel) (b : BudgetReservation) (c : Caller) (p : Plan)
    → reserve_budget k b c ≡ ok p
    → Replays k p
unfolding on_record reserve_budget
reserve_budget-Replays k b c p h now id = ground arith

pub create_work_item-Replays :
    (k : Kernel) (w : WorkItem) (c : Caller) (p : Plan)
    → create_work_item k w c ≡ ok p
    → Replays k p
unfolding on_record create_work_item
create_work_item-Replays k w c p h now id = ground arith

pub add_dependency-Replays :
    (k : Kernel) (w on : String) (c : Caller) (p : Plan)
    → add_dependency k w on c ≡ ok p
    → Replays k p
unfolding on_record add_dependency
add_dependency-Replays k w on c p h now id = ground arith

pub prepare_owner_confirmed_resume-Replays :
    (k : Kernel) (w : String) (c : Caller) (p : Plan)
    → prepare_owner_confirmed_resume k w c ≡ ok p
    → Replays k p
unfolding on_record prepare_owner_confirmed_resume validate_owner_confirmed_resume
prepare_owner_confirmed_resume-Replays k w c p h now id = ground arith

pub complete_work_item-Replays :
    (k : Kernel) (w : String) (e : CompletionEvidence) (c : Caller) (p : Plan)
    → complete_work_item k w e c ≡ ok p
    → Replays k p
unfolding on_record complete_work_item
complete_work_item-Replays k w e c p h now id = ground arith

pub intervene-Replays :
    (k : Kernel) (w reason : String) (c : Caller) (p : Plan)
    → intervene k w reason c ≡ ok p
    → Replays k p
unfolding on_record intervene
intervene-Replays k w reason c p h now id = ground arith

pub create_execution-Replays :
    (k : Kernel) (e : Execution) (c : Caller) (p : Plan)
    → create_execution k e c ≡ ok p
    → Replays k p
unfolding on_record create_execution
create_execution-Replays k e c p h now id = ground arith

pub set_execution_state-Replays :
    (k : Kernel) (x : String) (s : ExecutionState) (a : ActorType) (o : Option String) (c : Caller)
    (p : Plan)
    → set_execution_state k x s a o c ≡ ok p
    → Replays k p
unfolding on_record set_execution_state
set_execution_state-Replays k x s a o c p h now id = ground arith

pub plan_effect-Replays :
    (k : Kernel) (l : EffectLease) (t : ℕ) (c : Caller) (p : Plan)
    → plan_effect k l t c ≡ ok p
    → Replays k p
unfolding on_record plan_effect
plan_effect-Replays k l t c p h now id = ground arith

pub approve_effect-Replays :
    (k : Kernel) (l : String) (t : ℕ) (c : Caller) (p : Plan)
    → approve_effect k l t c ≡ ok p
    → Replays k p
unfolding on_record approve_effect
approve_effect-Replays k l t c p h now id = ground arith

pub activate_effect-Replays :
    (k : Kernel) (l : String) (t : ℕ) (c : Caller) (p : Plan)
    → activate_effect k l t c ≡ ok p
    → Replays k p
unfolding on_record activate_effect
activate_effect-Replays k l t c p h now id = ground arith

pub mark_effect_unknown-Replays :
    (k : Kernel) (l : String) (c : Caller) (p : Plan)
    → mark_effect_unknown k l c ≡ ok p
    → Replays k p
unfolding on_record mark_effect_unknown
mark_effect_unknown-Replays k l c p h now id = ground arith

pub reconcile_effect-Replays :
    (k : Kernel) (l : String) (s : EffectLeaseState) (c : Caller) (p : Plan)
    → reconcile_effect k l s c ≡ ok p
    → Replays k p
unfolding on_record reconcile_effect
reconcile_effect-Replays k l s c p h now id = ground arith

pub register_route_snapshot-Replays :
    (k : Kernel) (s : RouteSnapshot) (c : Caller) (p : Plan)
    → register_route_snapshot k s c ≡ ok p
    → Replays k p
unfolding on_record register_route_snapshot
register_route_snapshot-Replays k s c p h now id = ground arith

owner_only : (approval : String) → (approval == "owner") ≡ true → (approval == "s3_star") ≡ false
owner_only approval h = rw ((eq_iff approval "owner").0 h) refl

approved_as :
    (approval id : String) (s : RouteSnapshot) (a : RouteSnapshotState × (String → RouteSnapshot))
    → approved_by approval s ≡ some a
    → on_route_snapshot_approved approval id a.0 s ≡ a.1 id
approved_as approval id s a h = ground (arith, owner_only approval)

change-found :
    {V : Type 0} (d : Dict V) (key : String) (v : V) (f : V → V)
    → get d key ≡ some v
    → change d key f ≡ ok (put d key (f v))
change-found d key v f h = rw h refl

pub approve_route_snapshot-Replays :
    (k : Kernel) (s approval : String) (c : Caller) (p : Plan)
    → approve_route_snapshot k s approval c ≡ ok p
    → Replays k p
unfolding on_record approve_route_snapshot
approve_route_snapshot-Replays k s approval c p h =
    let leaf : (v : RouteSnapshot) (a : RouteSnapshotState × (String → RouteSnapshot))
        → get k.registry.route_snapshots s ≡ some v
        → approved_by approval v ≡ some a
        → (now : ℕ) (id : String)
        → on_route_snapshot_changed s (on_route_snapshot_approved approval id a.0) k.registry
          ≡ ok (record (k.registry) {
            route_snapshots = put k.registry.route_snapshots s (a.1 id);
          }) =
      λ v a found q now id.
        rw
          (
            change-found k.registry.route_snapshots s v (on_route_snapshot_approved approval id a.0)
                found,
            approved_as approval id v a q,
          )
          refl in
    let all : Ensures (Replays k) (approve_route_snapshot k s approval c) =
      search (guards, leaf) depth 24 in
    all.at p h

pub publish_route_snapshot-Replays :
    (k : Kernel) (s : String) (c : Caller) (p : Plan)
    → publish_route_snapshot k s c ≡ ok p
    → Replays k p
unfolding on_record publish_route_snapshot
publish_route_snapshot-Replays k s c p h now id = ground arith

pub retire_route_snapshot-Replays :
    (k : Kernel) (s : String) (r : RouteSnapshotRetirementReason) (o : Option String) (c : Caller)
    (p : Plan)
    → retire_route_snapshot k s r o c ≡ ok p
    → Replays k p
unfolding on_record retire_route_snapshot
retire_route_snapshot-Replays k s r o c p h now id = ground arith

pub notification-Replays :
    (k : Kernel) (n : AgentNotification) (c : Caller) (p : Plan)
    → record_agent_notification k n c ≡ ok p
    → Replays k p
unfolding on_record record_agent_notification
notification-Replays k n c p h now id = ground arith

pub record_finding-Replays :
    (k : Kernel) (f : S3StarFinding) (c : Caller) (p : Plan)
    → record_s3_star_finding k f c ≡ ok p
    → Replays k p
unfolding on_record record_s3_star_finding
record_finding-Replays k f c p h now id = ground arith

pub host-Replays :
    (k : Kernel) (host key : String) (p : Plan)
    → pilot_host_disconnected k host key ≡ ok p
    → Replays k p
unfolding on_record pilot_host_disconnected
host-Replays k host key p h now id = ground arith

pub name-Replays :
    (k : Kernel) (a : AgentNameAssignment) (f : String → Option AgentNameAssignment) (c : Caller)
    (p : Plan)
    → record_agent_name_assignment k a f c ≡ ok p
    → Replays k p
unfolding on_record record_agent_name_assignment
name-Replays k a f c p h now id = ground (
  arith,
  any_value-and (λ (b : AgentNameAssignment). b.agent_name == a.agent_name)
      (λ b. not (b.assignment_id == a.assignment_id)) k.registry.agent_name_assignments,
)

pub identity-Replays :
    (k : Kernel) (i : AgentIdentityRegistration) (f : String → Option AgentIdentityRegistration)
    (c : Caller) (p : Plan)
    → register_agent_identity k i f c ≡ ok p
    → Replays k p
unfolding on_record register_agent_identity agent_name_is_registered
identity-Replays k i f c p h now id = ground (
  arith,
  any_value-and (λ (b : AgentIdentityRegistration). b.agent_name == i.agent_name)
      (λ b. not (b.registration_id == i.registration_id)) k.registry.agent_name_registrations,
)
