-- ===== src/Kernel/Commands.antt =====
-- vsm/kernel/service.py: the commands of `Kernel` whose effect is one event and the writes after
-- it, as a data type, and their execution. `promote_agent_notification` (two events) and
-- `import_current_work_graph` (which also writes the activation) stand in modules of their own.
pub mod Frames
pub mod Running
pub mod Lifecycle
pub mod Pauses
pub mod Acyclic
pub mod Completion
pub mod Approvals
pub mod Publication
pub mod Consent
pub mod Intervention
pub mod Replanning
use nanihold_os.Prelude.{ℕ, String, Option}
use nanihold_os.Result.{Result}
use nanihold_os.Ids.{Platform}
use nanihold_os.Models.Node.{UvsmNode}
use nanihold_os.Models.Work.{WorkItem, CompletionEvidence, S3StarFinding}
use nanihold_os.Models.Execution.{Execution, ExecutionState}
use nanihold_os.Models.Effect.{EffectLease, EffectLeaseState, BudgetReservation}
use nanihold_os.Models.Grant.{CapabilityGrant, ReferenceGrant}
use nanihold_os.Models.Route.{RouteSnapshot, RouteSnapshotRetirementReason}
use nanihold_os.Models.Naming.{AgentNameAssignment, AgentIdentityRegistration, AgentNotification}
use nanihold_os.Models.Event.{EventEnvelope, ActorType}
use nanihold_os.Models.Payload.{Payload, PilotReceipt}
use nanihold_os.Activation.{Caller}
use nanihold_os.Kernel.{Kernel, Plan, run}
use nanihold_os.Kernel.Grants
use nanihold_os.Kernel.Work
use nanihold_os.Kernel.Executions
use nanihold_os.Kernel.Effects
use nanihold_os.Kernel.Findings
use nanihold_os.Kernel.Routes
use nanihold_os.Kernel.Names
use nanihold_os.Kernel.Notifications

-- A number among the arguments is what the clock reads for a test of the command.
pub data Command : Type 0 where
  register_node : UvsmNode → Command
  grant_capability : CapabilityGrant → ℕ → Command
  register_reference_grant : ReferenceGrant → ℕ → Command
  reserve_budget : BudgetReservation → Command
  create_work_item : WorkItem → Command
  add_dependency : String → String → Command
  delegate_work_item : String → String → Command
  prepare_owner_confirmed_resume : String → Command
  complete_work_item : String → CompletionEvidence → Command
  intervene : String → String → Command
  create_execution : Execution → Command
  set_execution_state : String → ExecutionState → ActorType → Option String → Command
  record_pilot_execution_receipt : String → PilotReceipt → Command
  pilot_host_disconnected : String → Command
  plan_effect : EffectLease → ℕ → Command
  approve_effect : String → ℕ → Command
  activate_effect : String → ℕ → Command
  mark_effect_unknown : String → Command
  reconcile_effect : String → EffectLeaseState → Command
  record_s3_star_finding : S3StarFinding → Command
  accept_s3_star_risk : String → String → String → Command
  register_route_snapshot : RouteSnapshot → Command
  approve_route_snapshot : String → String → Command
  publish_route_snapshot : String → Command
  retire_route_snapshot : String → RouteSnapshotRetirementReason → Option String → Command
  record_agent_name_assignment :
      AgentNameAssignment → (String → Option AgentNameAssignment) → Command
  register_agent_identity :
      AgentIdentityRegistration → (String → Option AgentIdentityRegistration) → Command
  record_agent_notification : AgentNotification → Command

unfoldable pub plan_of : Kernel → Command → Caller → Result Plan
plan_of k (register_node node) c = Grants.register_node k node c
plan_of k (grant_capability grant now) c = Grants.grant_capability k grant now c
plan_of k (register_reference_grant grant now) c = Grants.register_reference_grant k grant now c
plan_of k (reserve_budget reservation) c = Grants.reserve_budget k reservation c
plan_of k (create_work_item work) c = Work.create_work_item k work c
plan_of k (add_dependency work on) c = Work.add_dependency k work on c
plan_of k (delegate_work_item work node) c = Work.delegate_work_item k work node c
plan_of k (prepare_owner_confirmed_resume work) c = Work.prepare_owner_confirmed_resume k work c
plan_of k (complete_work_item work evidence) c = Work.complete_work_item k work evidence c
plan_of k (intervene work reason) c = Work.intervene k work reason c
plan_of k (create_execution execution) c = Executions.create_execution k execution c
plan_of k (set_execution_state id state actor reason) c =
    Executions.set_execution_state k id state actor reason c
plan_of k (record_pilot_execution_receipt id receipt) c =
    Executions.record_pilot_execution_receipt k id receipt c
plan_of k (pilot_host_disconnected host) c =
    Executions.pilot_host_disconnected k host c.idempotency_key
plan_of k (plan_effect lease now) c = Effects.plan_effect k lease now c
plan_of k (approve_effect lease now) c = Effects.approve_effect k lease now c
plan_of k (activate_effect lease now) c = Effects.activate_effect k lease now c
plan_of k (mark_effect_unknown lease) c = Effects.mark_effect_unknown k lease c
plan_of k (reconcile_effect lease result) c = Effects.reconcile_effect k lease result c
plan_of k (record_s3_star_finding finding) c = Findings.record_s3_star_finding k finding c
plan_of k (accept_s3_star_risk finding node rationale) c =
    Findings.accept_s3_star_risk k finding node rationale c
plan_of k (register_route_snapshot snapshot) c = Routes.register_route_snapshot k snapshot c
plan_of k (approve_route_snapshot id approval) c = Routes.approve_route_snapshot k id approval c
plan_of k (publish_route_snapshot id) c = Routes.publish_route_snapshot k id c
plan_of k (retire_route_snapshot id reason replacement) c =
    Routes.retire_route_snapshot k id reason replacement c
plan_of k (record_agent_name_assignment a lookup) c =
    Names.record_agent_name_assignment k a lookup c
plan_of k (register_agent_identity r lookup) c = Names.register_agent_identity k r lookup c
plan_of k (record_agent_notification n) c = Notifications.record_agent_notification k n c

-- A command from its call to its return; the clock reads `now` for the event.
unfoldable pub execute :
    (EventEnvelope Payload → String)
    → Platform
    → ℕ
    → Command
    → Caller
    → Kernel
    → Result (EventEnvelope Payload) × Kernel
unfolding plan_of
execute dump platform now command caller k = run dump platform now (plan_of k command caller) k
