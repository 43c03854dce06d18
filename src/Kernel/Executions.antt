-- ===== src/Kernel/Executions.antt =====
-- vsm/kernel/service.py: the commands on Executions.
use nanihold_os.Prelude.{
  String, Bool, true, false, not, ◌&&◌, ◌||◌, Option, none, some, ◌==◌, is_none, is_some,
  if◌then◌else◌,
}
use nanihold_os.Result.{Result, ok, err, invariant_violation, ◌>>=◌, ◌>>◌, raise_if, require_some}
use nanihold_os.Dict.{get, put, member, map_values, first_value}
use nanihold_os.Models.Execution.{
  Execution, ExecutionState, is_requested, is_active, is_paused, is_fresh,
}
use nanihold_os.Models.Naming.{AgentNameAssignment}
use nanihold_os.Models.Event.{ActorType, human, pilot, system}
use nanihold_os.Models.Payload
use nanihold_os.Models.Payload.{PilotReceipt}
use nanihold_os.Activation.{Caller, require_active}
use nanihold_os.Kernel.{Kernel, Plan, Registry, draft_of}
use nanihold_os.Kernel.Work.{pause_for}

abbrev set_execution : Registry → String → Execution → Registry
set_execution r execution_id e = record r { executions = put r.executions execution_id e }

unfoldable pub create_execution : Kernel → Execution → Caller → Result Plan
create_execution k execution caller = do
  require_active k.activation "Execution creation"
  raise_if (not (execution.data_space_id == k.data_space.data_space_id))
      "Execution DataSpace mismatch"
  raise_if (not (is_fresh execution.state)) "new Execution must start requested or active"
  raise_if (not (member k.registry.nodes execution.node_id)) "Execution Node not found"
  work ←
      require_some (get k.registry.work_items execution.work_item_id) "Execution WorkItem not found"
  raise_if (not (execution.node_id == work.delegated_to_node_id))
      "Execution must stay with the delegated Node"
  raise_if (member k.registry.executions execution.execution_id) "Execution already exists"
  ok (record {
    draft =
        draft_of human execution.execution_id "execution_created"
          (Payload.execution_created execution) caller execution.work_item_id;
    next = λ _. set_execution k.registry execution.execution_id execution;
    raises = none;
  })

-- The table `allowed` of `set_execution_state`.
abbrev pub is_allowed : ExecutionState → ExecutionState → Bool
is_allowed ExecutionState.requested ExecutionState.active = true
is_allowed ExecutionState.requested ExecutionState.paused = true
is_allowed ExecutionState.requested ExecutionState.failed = true
is_allowed ExecutionState.requested ExecutionState.cancelled = true
is_allowed ExecutionState.active ExecutionState.paused = true
is_allowed ExecutionState.active ExecutionState.succeeded = true
is_allowed ExecutionState.active ExecutionState.failed = true
is_allowed ExecutionState.active ExecutionState.cancelled = true
is_allowed ExecutionState.paused ExecutionState.active = true
is_allowed ExecutionState.paused ExecutionState.failed = true
is_allowed ExecutionState.paused ExecutionState.cancelled = true
is_allowed _ _ = false

-- `bool(pause_reason)`
abbrev pub has_text : Option String → Bool
has_text none = false
has_text (some reason) = not (reason == "")

unfoldable pub set_execution_state :
    Kernel → String → ExecutionState → ActorType → Option String → Caller → Result Plan
set_execution_state k execution_id state actor_type pause_reason caller = do
  execution ← require_some (get k.registry.executions execution_id) "Execution not found"
  raise_if (not (is_allowed execution.state state)) "invalid Execution transition"
  raise_if (is_paused state && not (has_text pause_reason)) "paused Execution requires a reason"
  ok (record {
    draft =
        draft_of actor_type execution_id "execution_state_changed"
          (Payload.execution_state_changed state pause_reason) caller execution.work_item_id;
    next = λ _.
        set_execution k.registry execution_id
          (record execution { state = state; pause_reason = pause_reason });
    raises = none;
  })

-- What a receipt of a given status leads to: the next state and the reason of a pause.
abbrev pub judge_receipt : PilotReceipt → Result (ExecutionState × Option String)
judge_receipt r =
    if r.receipt_status == "succeeded"
    then (do
      raise_if
          (is_none r.actual_model
            || is_none r.provider_session_id
            || is_none r.usage
            || is_none r.result
            || is_some r.error)
          "succeeded PilotHost receipt is incomplete"
      ok (ExecutionState.succeeded, none))
    else if r.receipt_status == "failed"
    then (do
      raise_if (is_some r.result || is_none r.error) "failed PilotHost receipt is inconsistent"
      ok (ExecutionState.failed, none))
    else if r.receipt_status == "transport_unknown"
    then (do
      raise_if (is_some r.result || is_none r.error)
          "transport_unknown PilotHost receipt is inconsistent"
      ok (ExecutionState.paused, some "pilot_receipt_reconciliation_required"))
    else err (invariant_violation "PilotHost receipt must be terminal")

abbrev pub assignment_id_of : Option AgentNameAssignment → Option String
assignment_id_of none = none
assignment_id_of (some a) = some a.assignment_id

unfoldable pub record_pilot_execution_receipt :
    Kernel → String → PilotReceipt → Caller → Result Plan
record_pilot_execution_receipt k execution_id receipt caller = do
  execution ←
      require_some (get k.registry.executions execution_id)
        "PilotHost receipt requires a requested Execution"
  raise_if (not (is_requested execution.state)) "PilotHost receipt requires a requested Execution"
  next ← judge_receipt receipt
  ok (record {
    draft =
        draft_of pilot execution_id "pilot_execution_receipt_recorded"
          (Payload.pilot_execution_receipt_recorded receipt execution_id execution.work_item_id
            (assignment_id_of (
              first_value (λ (a : AgentNameAssignment). a.execution_id == execution_id)
                k.registry.agent_name_assignments))
            next.0 next.1 execution.agent_name)
          caller execution.work_item_id;
    next = λ _. set_execution k.registry execution_id (record execution {
      state = next.0;
      provider_session_id = receipt.provider_session_id;
      pause_reason = next.1;
    });
    raises = none;
  })

abbrev pub pause_of_host : String → Execution → Execution
pause_of_host pilot_host_id e =
    if e.pilot_host_id == pilot_host_id && is_active e.state
    then pause_for "pilot_host_disconnected" e
    else e

-- The only command without a test; its event has no actor.
unfoldable pub pilot_host_disconnected : Kernel → String → String → Result Plan
pilot_host_disconnected k pilot_host_id idempotency_key = ok (record {
  draft = record {
    stream_id = pilot_host_id;
    event_type = "pilot_host_disconnected";
    payload = Payload.pilot_host_disconnected pilot_host_id;
    actor_type = system;
    actor_id = none;
    idempotency_key = idempotency_key;
    correlation_id = some pilot_host_id;
    causation_id = none;
  };
  next = λ _. record (k.registry) {
    executions = map_values (pause_of_host pilot_host_id) k.registry.executions;
  };
  raises = none;
})
