-- ===== src/Kernel.antt =====
-- vsm/kernel/service.py: the state of `Kernel` and how a command records its event. A command
-- tests its arguments against the state, which gives a `Plan`: the arguments of its `_record` call,
-- the registry after the writes that follow it, and what these raise. `commit` records and writes.
pub mod Grants
pub mod Graph
pub mod Work
pub mod Executions
pub mod Effects
pub mod Findings
pub mod Routes
pub mod Names
pub mod Notifications
pub mod Import
pub mod Commands
pub mod Filing
pub mod Late
pub mod Recording
pub mod Atomic
pub mod Reachable
use nanihold_os.Prelude.{ℕ, ◌+◌, String, Option, none, some, List, [], not, ◌==◌}
use nanihold_os.Result.{Error, Result, ok, err, ◌>>=◌, ◌>>◌, raise_if}
use nanihold_os.Dict.{Dict, empty, get, put}
use nanihold_os.Ids.{Platform, deterministic_event_id}
use nanihold_os.Models.Node.{DataSpace, UvsmNode}
use nanihold_os.Models.Work.{WorkItem, WorkEdge, S3StarFinding}
use nanihold_os.Models.Execution.{Execution}
use nanihold_os.Models.Effect.{EffectLease, EffectApproval, BudgetReservation}
use nanihold_os.Models.Grant.{CapabilityGrant, ReferenceGrant}
use nanihold_os.Models.Route.{RouteSnapshot}
use nanihold_os.Models.Naming.{AgentNameAssignment, AgentIdentityRegistration, AgentNotification}
use nanihold_os.Models.Event.{EventEnvelope, AppendResult, ActorType, id_of_valid}
use nanihold_os.Models.Payload.{Payload}
use nanihold_os.Ledger.{Ledger, append, new_ledger}
use nanihold_os.Activation.{Activation, Caller, new_activation}

-- What the commands other than `import_current_work_graph` write.
pub record Registry : Type 0 where
  pub nodes : Dict UvsmNode
  pub work_items : Dict WorkItem
  pub work_edges : List WorkEdge
  pub executions : Dict Execution
  pub agent_name_assignments : Dict AgentNameAssignment
  pub agent_name_registrations : Dict AgentIdentityRegistration
  pub agent_notifications : Dict AgentNotification
  pub capability_grants : Dict CapabilityGrant
  pub effect_leases : Dict EffectLease
  pub effect_approvals : Dict EffectApproval
  pub reference_grants : Dict ReferenceGrant
  pub budget_reservations : Dict BudgetReservation
  pub findings : Dict S3StarFinding
  pub route_snapshots : Dict RouteSnapshot

abbrev pub empty_registry : Registry
empty_registry = record {
  nodes = empty;
  work_items = empty;
  work_edges = [];
  executions = empty;
  agent_name_assignments = empty;
  agent_name_registrations = empty;
  agent_notifications = empty;
  capability_grants = empty;
  effect_leases = empty;
  effect_approvals = empty;
  reference_grants = empty;
  budget_reservations = empty;
  findings = empty;
  route_snapshots = empty;
}

pub record Kernel : Type 0 where
  pub data_space : DataSpace
  pub ledger : Ledger Payload
  pub activation : Activation
  pub registry : Registry
  pub versions : Dict ℕ

-- The policies of `Kernel.__init__` are only compared by their DataSpace, and kept.
abbrev pub new_kernel : (String → String) → DataSpace → String → String → Result Kernel
new_kernel after_colon space audit_policy_space control_policy_space = do
  raise_if (not (audit_policy_space == space.data_space_id)) "AuditPolicy DataSpace mismatch"
  raise_if (not (control_policy_space == space.data_space_id)) "ControlPolicy DataSpace mismatch"
  ok (record {
    data_space = space;
    ledger = new_ledger space.data_space_id;
    activation = new_activation after_colon space.data_space_id;
    registry = empty_registry;
    versions = empty;
  })

-- The arguments of `Kernel._record`.
pub record Draft : Type 0 where
  pub stream_id : String
  pub event_type : String
  pub payload : Payload
  pub actor_type : ActorType
  pub actor_id : Option String
  pub idempotency_key : String
  pub correlation_id : Option String
  pub causation_id : Option String

-- A `_record` call, and the registry that the command leaves after it, which may hold the id of the
-- event; and what the writes raise, if one fails.
pub record Plan : Type 0 where
  pub draft : Draft
  pub next : String → Registry
  pub raises : Option Error

-- The draft of a command with no causation.
abbrev pub draft_of : ActorType → String → String → Payload → Caller → String → Draft
draft_of actor stream_id event_type payload caller correlation_id = record {
  stream_id = stream_id;
  event_type = event_type;
  payload = payload;
  actor_type = actor;
  actor_id = some caller.actor_id;
  idempotency_key = caller.idempotency_key;
  correlation_id = some correlation_id;
  causation_id = none;
}

abbrev pub or_zero : Option ℕ → ℕ
or_zero none = 0
or_zero (some n) = n

-- `self._versions.get(stream_id, 0)`
abbrev pub expected_version : Kernel → String → ℕ
expected_version k stream_id = or_zero (get k.versions stream_id)

abbrev pub envelope : Kernel → Draft → ℕ → String → EventEnvelope Payload
envelope k d now event_id = record {
  event_id = event_id;
  data_space_id = k.data_space.data_space_id;
  stream_id = d.stream_id;
  stream_version = expected_version k d.stream_id + 1;
  event_type = d.event_type;
  occurred_at = now;
  actor_type = d.actor_type;
  actor_id = d.actor_id;
  correlation_id = d.correlation_id;
  causation_id = d.causation_id;
  idempotency_key = d.idempotency_key;
  payload = d.payload;
}

module _ (dump : EventEnvelope Payload → String) (platform : Platform) where
  abbrev pub after_append :
      EventEnvelope Payload
      → Kernel
      → Result AppendResult × Ledger Payload
      → Result (EventEnvelope Payload) × Kernel
  after_append event k (err e, ledger) = (err e, record k { ledger = ledger })
  after_append event k (ok answer, ledger) = (
    ok event,
    record k { ledger = ledger; versions = put k.versions event.stream_id answer.stream_version },
  )

  abbrev pub with_event_id :
      Draft → ℕ → Kernel → Result String → Result (EventEnvelope Payload) × Kernel
  with_event_id d now k (err e) = (err e, k)
  with_event_id d now k (ok event_id) =
      let event = envelope k d now event_id in
      after_append event k (append dump event (expected_version k d.stream_id) k.ledger)

  -- The id of the event, which its key determines, if `EventEnvelope(...)` accepts the fields.
  abbrev pub new_event_id : Draft → ℕ → Kernel → Result String
  new_event_id d now k = do
    event_id ←
        deterministic_event_id platform k.data_space.data_space_id d.stream_id d.idempotency_key
    id_of_valid (envelope k d now event_id)

  -- `Kernel._record`; the clock reads `now`.
  unfoldable pub record_event : Draft → ℕ → Kernel → Result (EventEnvelope Payload) × Kernel
  record_event d now k = with_event_id d now k (new_event_id d now k)

  -- What a command answers, once its event is recorded.
  abbrev pub answer : Option Error → EventEnvelope Payload → Result (EventEnvelope Payload)
  answer none event = ok event
  answer (some e) event = err e

  abbrev pub write_next :
      Plan → Result (EventEnvelope Payload) × Kernel → Result (EventEnvelope Payload) × Kernel
  write_next p (err e, k) = (err e, k)
  write_next p (ok event, k) =
      (answer p.raises event, record k { registry = p.next event.event_id })

  -- `event = self._record(...)`, the writes after it, and `return event` or what they raise.
  unfoldable pub commit : ℕ → Plan → Kernel → Result (EventEnvelope Payload) × Kernel
  commit now p k = write_next p (record_event p.draft now k)

  -- A command: what its tests refuse is raised and changes nothing.
  unfoldable pub run : ℕ → Result Plan → Kernel → Result (EventEnvelope Payload) × Kernel
  run now (err e) k = (err e, k)
  run now (ok p) k = commit now p k
