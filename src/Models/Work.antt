-- ===== src/Models/Work.antt =====
-- vsm/kernel/models.py: WorkItems, the edges of the Work Graph, the evidence of completion and the
-- S3* findings.
use nanihold_os.Prelude.{String, Bool, true, false, Option, List, String-discrete}

pub data WorkState : Type 0 where
  proposed ready active paused blocked completed cancelled : WorkState

abbrev pub is_proposed_or_ready : WorkState → Bool
is_proposed_or_ready WorkState.proposed = true
is_proposed_or_ready WorkState.ready = true
is_proposed_or_ready _ = false

abbrev pub is_completed : WorkState → Bool
is_completed WorkState.completed = true
is_completed _ = false

-- `work.state in (PROPOSED, READY, PAUSED)`
abbrev pub is_resumable : WorkState → Bool
is_resumable WorkState.paused = true
is_resumable s = is_proposed_or_ready s

pub data WorkEdgeKind : Type 0 where
  delegated_to depends_on integrated_by : WorkEdgeKind

abbrev pub is_depends_on : WorkEdgeKind → Bool
is_depends_on WorkEdgeKind.depends_on = true
is_depends_on _ = false

pub record WorkEdge : Type 0 where
  pub source_work_item_id : String
  pub target_work_item_id : String
  pub kind : WorkEdgeKind

pub WorkEdge-discrete : Discrete WorkEdge
WorkEdge-discrete = hlevel String-discrete

pub record CompletionEvidence : Type 0 where
  pub acceptance_satisfied : Bool
  pub required_tests_passed : Bool
  pub blocking_deviations : List String
  pub independent_s3_star_gate : Bool
  pub integration_branch_merged : Bool
  pub remote_push_succeeded : Bool

pub record WorkItem : Type 0 where
  pub work_item_id : String
  pub data_space_id : String
  pub title : String
  pub description : String
  pub owner_node_id : String
  pub delegated_to_node_id : String
  pub integration_owner_node_id : String
  pub parent_work_item_id : Option String
  pub acceptance_criteria : List String
  pub route_key : String
  pub state : WorkState
  pub blocking_s3_star_finding_ids : List String
  pub completion_evidence : Option CompletionEvidence

pub WorkItem-discrete : Discrete WorkItem
WorkItem-discrete = hlevel String-discrete

pub data S3StarSeverity : Type 0 where
  advisory severe : S3StarSeverity

abbrev pub is_severe : S3StarSeverity → Bool
is_severe S3StarSeverity.severe = true
is_severe S3StarSeverity.advisory = false

pub record S3StarFinding : Type 0 where
  pub finding_id : String
  pub data_space_id : String
  pub work_item_id : String
  pub node_id : String
  pub severity : S3StarSeverity
  pub statement : String
  pub evidence_refs : List String
  pub accepted_by_s5 : Bool
