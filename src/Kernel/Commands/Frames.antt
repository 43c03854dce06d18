-- ===== src/Kernel/Commands/Frames.antt =====
-- vsm/kernel/service.py: which commands write which part of the registry. For each part a test tells
-- the commands that write it, and a rule keeps any property of the part over the others.
use nanihold_os.Prelude.{String, ◌≡◌, Bool, true, false, Option, some, List}
use nanihold_os.Result.{
  Result, Ensures, Ensures-ok, Ensures-err, Ensures-raise_if, Ensures-require, Ensures-bind,
  Ensures-if,
}
use nanihold_os.Dict.{Dict, get}
use nanihold_os.Models.Work.{WorkItem, WorkEdge}
use nanihold_os.Models.Execution.{Execution}
use nanihold_os.Models.Effect.{EffectLease, EffectApproval}
use nanihold_os.Models.Route.{RouteSnapshot}
use nanihold_os.Models.Naming.{AgentNameAssignment}
use nanihold_os.Activation.{Caller}
use nanihold_os.Kernel.{Kernel, Plan}
use nanihold_os.Kernel.Grants.{
  register_node, grant_capability, register_reference_grant, reserve_budget,
}
use nanihold_os.Kernel.Work.{
  create_work_item, add_dependency, delegate_work_item, prepare_owner_confirmed_resume,
  complete_work_item, intervene,
}
use nanihold_os.Kernel.Executions.{
  create_execution, set_execution_state, record_pilot_execution_receipt, pilot_host_disconnected,
}
use nanihold_os.Kernel.Effects.{
  plan_effect, approve_effect, activate_effect, mark_effect_unknown, reconcile_effect,
}
use nanihold_os.Kernel.Findings.{record_s3_star_finding, accept_s3_star_risk}
use nanihold_os.Kernel.Routes.{
  register_route_snapshot, approve_route_snapshot, publish_route_snapshot, retire_route_snapshot,
}
use nanihold_os.Kernel.Names.{
  record_agent_name_assignment, assignment_plan, register_agent_identity,
}
use nanihold_os.Kernel.Notifications.{record_agent_notification}
use nanihold_os.Kernel.Commands.{Command, plan_of}

pub ruleset guards =
    (Ensures-ok, Ensures-err, Ensures-raise_if, Ensures-require, Ensures-bind, Ensures-if)

-- The plan of a name assignment, once its tests have passed.
pub record_agent_name_assignment-Ensures :
    (Q : Plan → Type 0) (k : Kernel) (a : AgentNameAssignment)
    (f : String → Option AgentNameAssignment) (c : Caller)
    → ((e : Execution)
        → get k.registry.executions a.execution_id ≡ some e
        → Q (assignment_plan k a c e))
    → Ensures Q (record_agent_name_assignment k a f c)
unfolding record_agent_name_assignment
record_agent_name_assignment-Ensures Q k a f c leaf =
    search (Ensures-ok, Ensures-raise_if, Ensures-require, leaf) depth 24

-- Opening this opens every command.
unfoldable pub opened : Kernel → Command → Caller → Result Plan
unfolding plan_of register_node grant_capability register_reference_grant reserve_budget
    create_work_item add_dependency delegate_work_item prepare_owner_confirmed_resume
    complete_work_item intervene create_execution set_execution_state record_pilot_execution_receipt
    pilot_host_disconnected plan_effect approve_effect activate_effect mark_effect_unknown
    reconcile_effect record_s3_star_finding accept_s3_star_risk register_route_snapshot
    approve_route_snapshot publish_route_snapshot retire_route_snapshot register_agent_identity
    record_agent_notification
opened = plan_of

-- The commands that write the Executions.
abbrev pub writes_executions : Command → Bool
writes_executions (Command.create_execution _) = true
writes_executions (Command.set_execution_state _ _ _ _) = true
writes_executions (Command.record_pilot_execution_receipt _ _) = true
writes_executions (Command.pilot_host_disconnected _) = true
writes_executions (Command.intervene _ _) = true
writes_executions (Command.record_agent_name_assignment _ _) = true
writes_executions _ = false

pub executions_frame :
    (P : Dict Execution → Type 0) (k : Kernel) (command : Command) (c : Caller)
    → writes_executions command ≡ false
    → P k.registry.executions
    → Ensures (λ (p : Plan). (id : String) → P (p.next id).executions) (plan_of k command c)
unfolding opened
executions_frame P k (Command.create_execution _) c q h = absurd (cc)
executions_frame P k (Command.set_execution_state _ _ _ _) c q h = absurd (cc)
executions_frame P k (Command.record_pilot_execution_receipt _ _) c q h = absurd (cc)
executions_frame P k (Command.pilot_host_disconnected _) c q h = absurd (cc)
executions_frame P k (Command.intervene _ _) c q h = absurd (cc)
executions_frame P k (Command.record_agent_name_assignment _ _) c q h = absurd (cc)
executions_frame P k _ c q h = search (guards, record_agent_name_assignment-Ensures) depth 24

-- The commands that write the WorkItems.
abbrev pub writes_work_items : Command → Bool
writes_work_items (Command.create_work_item _) = true
writes_work_items (Command.delegate_work_item _ _) = true
writes_work_items (Command.prepare_owner_confirmed_resume _) = true
writes_work_items (Command.complete_work_item _ _) = true
writes_work_items (Command.intervene _ _) = true
writes_work_items (Command.record_s3_star_finding _) = true
writes_work_items (Command.accept_s3_star_risk _ _ _) = true
writes_work_items _ = false

pub work_items_frame :
    (P : Dict WorkItem → Type 0) (k : Kernel) (command : Command) (c : Caller)
    → writes_work_items command ≡ false
    → P k.registry.work_items
    → Ensures (λ (p : Plan). (id : String) → P (p.next id).work_items) (plan_of k command c)
unfolding opened
work_items_frame P k (Command.create_work_item _) c q h = absurd (cc)
work_items_frame P k (Command.delegate_work_item _ _) c q h = absurd (cc)
work_items_frame P k (Command.prepare_owner_confirmed_resume _) c q h = absurd (cc)
work_items_frame P k (Command.complete_work_item _ _) c q h = absurd (cc)
work_items_frame P k (Command.intervene _ _) c q h = absurd (cc)
work_items_frame P k (Command.record_s3_star_finding _) c q h = absurd (cc)
work_items_frame P k (Command.accept_s3_star_risk _ _ _) c q h = absurd (cc)
work_items_frame P k _ c q h = search (guards, record_agent_name_assignment-Ensures) depth 24

-- The commands that write the edges of the Work Graph.
abbrev pub writes_work_edges : Command → Bool
writes_work_edges (Command.create_work_item _) = true
writes_work_edges (Command.add_dependency _ _) = true
writes_work_edges _ = false

pub work_edges_frame :
    (P : List WorkEdge → Type 0) (k : Kernel) (command : Command) (c : Caller)
    → writes_work_edges command ≡ false
    → P k.registry.work_edges
    → Ensures (λ (p : Plan). (id : String) → P (p.next id).work_edges) (plan_of k command c)
unfolding opened
work_edges_frame P k (Command.create_work_item _) c q h = absurd (cc)
work_edges_frame P k (Command.add_dependency _ _) c q h = absurd (cc)
work_edges_frame P k _ c q h = search (guards, record_agent_name_assignment-Ensures) depth 24

-- The commands that write the RouteSnapshots.
abbrev pub writes_route_snapshots : Command → Bool
writes_route_snapshots (Command.register_route_snapshot _) = true
writes_route_snapshots (Command.approve_route_snapshot _ _) = true
writes_route_snapshots (Command.publish_route_snapshot _) = true
writes_route_snapshots (Command.retire_route_snapshot _ _ _) = true
writes_route_snapshots _ = false

pub route_snapshots_frame :
    (P : Dict RouteSnapshot → Type 0) (k : Kernel) (command : Command) (c : Caller)
    → writes_route_snapshots command ≡ false
    → P k.registry.route_snapshots
    → Ensures (λ (p : Plan). (id : String) → P (p.next id).route_snapshots) (plan_of k command c)
unfolding opened
route_snapshots_frame P k (Command.register_route_snapshot _) c q h = absurd (cc)
route_snapshots_frame P k (Command.approve_route_snapshot _ _) c q h = absurd (cc)
route_snapshots_frame P k (Command.publish_route_snapshot _) c q h = absurd (cc)
route_snapshots_frame P k (Command.retire_route_snapshot _ _ _) c q h = absurd (cc)
route_snapshots_frame P k _ c q h = search (guards, record_agent_name_assignment-Ensures) depth 24

-- The commands that write the Effect Leases or their approvals.
abbrev pub writes_effects : Command → Bool
writes_effects (Command.plan_effect _ _) = true
writes_effects (Command.approve_effect _ _) = true
writes_effects (Command.activate_effect _ _) = true
writes_effects (Command.mark_effect_unknown _) = true
writes_effects (Command.reconcile_effect _ _) = true
writes_effects (Command.intervene _ _) = true
writes_effects _ = false

pub effects_frame :
    (P : Dict EffectApproval → Dict EffectLease → Type 0) (k : Kernel) (command : Command)
    (c : Caller)
    → writes_effects command ≡ false
    → P k.registry.effect_approvals k.registry.effect_leases
    → Ensures
        (λ (p : Plan). (id : String) → P (p.next id).effect_approvals (p.next id).effect_leases)
        (plan_of k command c)
unfolding opened
effects_frame P k (Command.plan_effect _ _) c q h = absurd (cc)
effects_frame P k (Command.approve_effect _ _) c q h = absurd (cc)
effects_frame P k (Command.activate_effect _ _) c q h = absurd (cc)
effects_frame P k (Command.mark_effect_unknown _) c q h = absurd (cc)
effects_frame P k (Command.reconcile_effect _ _) c q h = absurd (cc)
effects_frame P k (Command.intervene _ _) c q h = absurd (cc)
effects_frame P k _ c q h = search (guards, record_agent_name_assignment-Ensures) depth 24
