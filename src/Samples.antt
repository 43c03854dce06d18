-- ===== src/Samples.antt =====
-- Small values on which the children try the theorems: a Kernel with two WorkItems and a dependency,
-- Executions, an Effect Lease and a RouteSnapshot, and functions for what Python's library gives.
pub mod Ledgers
pub mod Kernels
pub mod Runs
pub mod Starting
pub mod Restarts
pub mod Activations
pub mod Projections
pub mod Names
pub mod Owners
use nanihold_os.Prelude.{
  ℕ, zero, suc, String, ◌≡◌, Bool, true, false, Option, none, some, List, [], ◌∷◌,
}
use nanihold_os.Result.{Result, ok, err}
use nanihold_os.Dict.{Dict, empty, put}
use nanihold_os.Ids.{Platform}
use nanihold_os.Models.Node.{DataSpace, DataSpaceKind}
use nanihold_os.Models.Work.{WorkItem, WorkState, WorkEdge, WorkEdgeKind, CompletionEvidence}
use nanihold_os.Models.Execution.{Execution, ExecutionState}
use nanihold_os.Models.Effect.{EffectLease, EffectLeaseState, EffectApproval}
use nanihold_os.Models.Route.{RouteSnapshot, RouteSnapshotState, ProductionObjective}
use nanihold_os.Models.Event.{EventEnvelope, StoredEvent, human}
use nanihold_os.Models.Payload
use nanihold_os.Models.Payload.{Payload}
use nanihold_os.Models.Activation.{ActivationState}
use nanihold_os.Ledger.{Ledger, new_ledger}
use nanihold_os.Activation.{Activation, Caller, new_activation}
use nanihold_os.Kernel.{Kernel, Registry, empty_registry}

-- A text that tells the version and the stream of an event: as many bars as the version, a colon,
-- and the stream.
abbrev pub bars : ℕ → String → String
bars zero s = String.◌∷◌ ":" s
bars (suc n) s = String.◌∷◌ "|" (bars n s)

abbrev pub sample_dump : EventEnvelope Payload → String
sample_dump e = bars e.stream_version e.stream_id

abbrev key_of : List (String × String) → String
key_of (_ ∷ (_, key) ∷ _) = key
key_of _ = ""

-- The digest of an event's place is its idempotency key.
abbrev pub sample_platform : Platform
sample_platform = record { json_dumps = key_of; sha256 = λ s. s }

abbrev pub sample_decimal : ℕ → String
sample_decimal n = bars n ""

abbrev pub sample_caller : Caller
sample_caller = record { actor_id = "owner:ada"; idempotency_key = "key-1" }

abbrev pub sample_space : DataSpace
sample_space = record {
  data_space_id = "space:home";
  owner_id = "owner:ada";
  kind = DataSpaceKind.personal;
  lethe_location = "local";
}

abbrev pub work_named : String → WorkState → WorkItem
work_named id state = record {
  work_item_id = id;
  data_space_id = "space:home";
  title = "title";
  description = "description";
  owner_node_id = "node:a";
  delegated_to_node_id = "node:a";
  integration_owner_node_id = "node:a";
  parent_work_item_id = none;
  acceptance_criteria = "it works" ∷ [];
  route_key = "route";
  state = state;
  blocking_s3_star_finding_ids = [];
  completion_evidence = none;
}

abbrev pub sample_evidence : CompletionEvidence
sample_evidence = record {
  acceptance_satisfied = true;
  required_tests_passed = true;
  blocking_deviations = [];
  independent_s3_star_gate = true;
  integration_branch_merged = true;
  remote_push_succeeded = true;
}

abbrev pub execution_in : ExecutionState → Execution
execution_in state = record {
  execution_id = "execution:1";
  data_space_id = "space:home";
  node_id = "node:a";
  work_item_id = "work:1";
  pilot_id = "pilot:1";
  model_candidate_key = "model";
  state = state;
  provider_session_id = none;
  pilot_host_id = "host:1";
  pause_reason = none;
  agent_name = none;
}

abbrev pub lease_in_state : EffectLeaseState → EffectLease
lease_in_state state = record {
  lease_id = "lease:1";
  data_space_id = "space:home";
  work_item_id = "work:1";
  execution_id = "execution:1";
  effect_kind = "push";
  target = "origin";
  idempotency_key = "effect-1";
  plan_sha256 = "digest";
  state = state;
  expires_at = 100;
}

abbrev pub sample_approval : EffectApproval
sample_approval = record { lease_id = "lease:1"; approved_by = "owner:ada"; approved_at = 1 }

abbrev pub snapshot_in : RouteSnapshotState → Option String → Option String → RouteSnapshot
snapshot_in state s3_star owner = record {
  snapshot_id = "snapshot:1";
  data_space_id = "space:home";
  route_key = "route";
  evidence_cursor = 0;
  candidate_keys = "model" ∷ [];
  production_objective = ProductionObjective.quality_max;
  state = state;
  s3_star_approval_event_id = s3_star;
  owner_approval_event_id = owner;
}

abbrev pub sample_activation : Activation
sample_activation = record (new_activation (λ s. "home") "space:home") {
  state = ActivationState.active;
}

-- Work 1 depends on work 2, which is completed; an Execution of work 1 is active; its Effect Lease is
-- approved; a RouteSnapshot awaits publication.
abbrev pub sample_registry : Registry
sample_registry = record (empty_registry) {
  work_items =
      put (put empty "work:1" (work_named "work:1" WorkState.ready)) "work:2"
        (record (work_named "work:2" WorkState.completed) {
          completion_evidence = some sample_evidence;
        });
  work_edges =
      record {
        source_work_item_id = "work:1";
        target_work_item_id = "work:2";
        kind = WorkEdgeKind.depends_on;
      }
      ∷ [];
  executions = put empty "execution:1" (execution_in ExecutionState.active);
  effect_leases = put empty "lease:1" (lease_in_state EffectLeaseState.planned);
  effect_approvals = put empty "lease:1" sample_approval;
  route_snapshots =
      put empty "snapshot:1"
        (snapshot_in RouteSnapshotState.owner_approved (some "event:1") (some "event:2"));
}

abbrev pub sample_kernel : Kernel
sample_kernel = record {
  data_space = sample_space;
  ledger = new_ledger "space:home";
  activation = sample_activation;
  registry = sample_registry;
  versions = empty;
}

abbrev pub sample_event : EventEnvelope Payload
sample_event = record {
  event_id = "event:key-1";
  data_space_id = "space:home";
  stream_id = "work:1";
  stream_version = 1;
  event_type = "human_intervention";
  occurred_at = 7;
  actor_type = human;
  actor_id = some "owner:ada";
  correlation_id = some "work:1";
  causation_id = none;
  idempotency_key = "key-1";
  payload = Payload.human_intervention "stop";
}
