-- ===== src/Models/Payload.antt =====
-- The payloads of the events that vsm/kernel/service.py, vsm/activation/service.py and vsm/auth.py
-- record: one constructor for each event type, over the values that the source puts into the payload.
use nanihold_os.Prelude.{ℕ, String, Option}
use nanihold_os.Models.Node.{UvsmNode}
use nanihold_os.Models.Work.{WorkItem, WorkEdge, WorkState, CompletionEvidence, S3StarFinding}
use nanihold_os.Models.Execution.{Execution, ExecutionState}
use nanihold_os.Models.Effect.{EffectLease, EffectApproval, EffectLeaseState, BudgetReservation}
use nanihold_os.Models.Grant.{CapabilityGrant, ReferenceGrant}
use nanihold_os.Models.Route.{RouteSnapshot, RouteSnapshotState, RouteSnapshotRetirementReason}
use nanihold_os.Models.Naming.{AgentNameAssignment, AgentIdentityRegistration, AgentNotification}
use nanihold_os.Models.Auth.{BootstrapCodeRecord, BrowserSessionRecord}
use nanihold_os.Models.Activation.{
  ActivationState, HistoryImportReceipt, CurrentWorkGraphSnapshot, ReorientationAssessment,
  ReorientationRevisionReason,
}

-- What a PilotHost reports of an Execution. `usage`, `result` and `error` are JSON texts.
pub record PilotReceipt : Type 0 where
  pub receipt_id : String
  pub receipt_status : String
  pub requested_model : String
  pub actual_model : Option String
  pub provider_session_id : Option String
  pub usage : Option String
  pub result : Option String
  pub error : Option String

pub data Payload : Type 0 where
  node_registered : UvsmNode → Payload
  capability_granted : CapabilityGrant → Payload
  work_item_created : WorkItem → Payload
  work_dependency_added : WorkEdge → Payload
  current_work_graph_imported : CurrentWorkGraphSnapshot → Payload
  work_item_delegated : String → Payload
  work_item_resume_prepared : WorkState → Payload
  execution_created : Execution → Payload
  agent_notification_delivered : AgentNotification → Payload
  agent_notification_promoted : String → String → Payload
  agent_name_assigned : AgentNameAssignment → Payload
  agent_identity_registered : AgentIdentityRegistration → Payload
  execution_state_changed : ExecutionState → Option String → Payload
  pilot_execution_receipt_recorded :
      PilotReceipt
      → String
      → String
      → Option String
      → ExecutionState
      → Option String
      → Option String
      → Payload
  budget_reserved : BudgetReservation → Payload
  effect_planned : EffectLease → Payload
  effect_approved : EffectApproval → Payload
  effect_activated : EffectLeaseState → Payload
  effect_result_unknown : EffectLeaseState → String → Payload
  effect_reconciled : EffectLeaseState → String → Payload
  human_intervention : String → Payload
  s3_star_finding_recorded : S3StarFinding → Payload
  s3_star_risk_accepted : String → String → String → Payload
  work_item_completed : CompletionEvidence → Payload
  pilot_host_disconnected : String → Payload
  reference_granted : ReferenceGrant → Payload
  route_snapshot_registered : RouteSnapshot → Payload
  route_snapshot_approved : String → RouteSnapshotState → Payload
  route_snapshot_published : RouteSnapshotState → Payload
  route_snapshot_retired :
      RouteSnapshotRetirementReason → Option String → RouteSnapshotState → Payload
  history_import_verified : HistoryImportReceipt → String → ActivationState → Payload
  reorientation_started : ActivationState → Payload
  reorientation_retry_started : ActivationState → String → Payload
  reorientation_revision_retry_started : ActivationState → ReorientationRevisionReason → Payload
  reorientation_failed : String → Payload
  reorientation_attempt_interrupted : String → Payload
  reorientation_session_checkpointed : String → Payload
  reorientation_assessment_accepted : ReorientationAssessment → ActivationState → Payload
  reorientation_assessment_revision_requested :
      String → ReorientationRevisionReason → ActivationState → Payload
  activation_approved : String → ℕ → ActivationState → Payload
  reorientation_pilot_usage_recorded : ℕ → ℕ → Payload
  history_query_resolved :
      String
      → String
      → Option String
      → Option String
      → Option String
      → String
      → String
      → String
      → Payload
  owner_bootstrap_issued : BootstrapCodeRecord → Payload
  owner_bootstrap_exchanged : String → ℕ → BrowserSessionRecord → Payload
