-- ===== src/Kernel/Names.antt =====
-- vsm/kernel/service.py: agent names. `assignment_for_id` and `registration_for_id` are the lookups
-- of the agent-name registry (vsm/agent_naming.py) that the caller passes in.
use nanihold_os.Prelude.{
  String, Bool, false, not, ◌||◌, Option, none, some, ◌==◌, is_some, decides, concat,
}
use nanihold_os.Result.{Result, ok, ◌>>=◌, ◌>>◌, raise_if, require_some}
use nanihold_os.Dict.{get, put, member, any_value}
use nanihold_os.Models.Execution.{Execution}
use nanihold_os.Models.Naming.{
  AgentNameAssignment, AgentNameAssignment-discrete, AgentIdentityRegistration,
  AgentIdentityRegistration-discrete,
}
use nanihold_os.Models.Event.{system}
use nanihold_os.Models.Payload
use nanihold_os.Activation.{Caller}
use nanihold_os.Kernel.{Kernel, Plan, Registry, draft_of}

abbrev pub reserved_agent_name : String
reserved_agent_name = "Nagi"

unfoldable pub agent_name_is_registered : Registry → String → Bool
agent_name_is_registered r agent_name =
    agent_name == reserved_agent_name
    || any_value (λ (a : AgentNameAssignment). a.agent_name == agent_name) r.agent_name_assignments
    || any_value (λ (s : AgentIdentityRegistration). s.agent_name == agent_name)
        r.agent_name_registrations

abbrev pub is_assignment : Option AgentNameAssignment → AgentNameAssignment → Bool
is_assignment none a = false
is_assignment (some b) a = decides (AgentNameAssignment-discrete b a)

abbrev pub is_registration : Option AgentIdentityRegistration → AgentIdentityRegistration → Bool
is_registration none r = false
is_registration (some s) r = decides (AgentIdentityRegistration-discrete s r)

-- The event of an assignment, and the writes to the assignments and to the Execution.
abbrev pub assignment_plan : Kernel → AgentNameAssignment → Caller → Execution → Plan
assignment_plan k a caller execution = record {
  draft =
      record (draft_of system a.assignment_id "agent_name_assigned" (Payload.agent_name_assigned a)
        caller a.work_item_id) { causation_id = some a.execution_id };
  next = λ _. record (k.registry) {
    agent_name_assignments = put k.registry.agent_name_assignments a.assignment_id a;
    executions =
        put k.registry.executions a.execution_id
          (record execution { agent_name = some a.agent_name });
  };
  raises = none;
}

unfoldable pub record_agent_name_assignment :
    Kernel → AgentNameAssignment → (String → Option AgentNameAssignment) → Caller → Result Plan
record_agent_name_assignment k a assignment_for_id caller = do
  raise_if (not (is_assignment (assignment_for_id a.assignment_id) a))
      "AgentNameAssignment was not issued by the configured name registry"
  raise_if (not (a.data_space_id == k.data_space.data_space_id))
      "AgentNameAssignment DataSpace mismatch"
  raise_if (member k.registry.agent_name_assignments a.assignment_id)
      (concat "AgentNameAssignment already exists: " a.assignment_id)
  raise_if
      (any_value (λ (b : AgentNameAssignment). b.agent_name == a.agent_name)
        k.registry.agent_name_assignments)
      (concat "AgentNameAssignment name is already assigned: " a.agent_name)
  execution ←
      require_some (get k.registry.executions a.execution_id)
        "AgentNameAssignment Execution not found"
  raise_if (not (execution.work_item_id == a.work_item_id))
      "AgentNameAssignment WorkItem does not match Execution"
  raise_if (not (execution.node_id == a.node_id))
      "AgentNameAssignment Node does not match Execution"
  raise_if (not (execution.pilot_id == a.pilot_id))
      "AgentNameAssignment Pilot does not match Execution"
  raise_if (is_some execution.agent_name) "Execution already has an agent name"
  ok (assignment_plan k a caller execution)

unfoldable pub register_agent_identity :
    Kernel
    → AgentIdentityRegistration
    → (String → Option AgentIdentityRegistration)
    → Caller
    → Result Plan
unfolding agent_name_is_registered
register_agent_identity k r registration_for_id caller = do
  raise_if (not (is_registration (registration_for_id r.registration_id) r))
      "AgentIdentityRegistration was not issued by the configured name registry"
  raise_if (not (r.data_space_id == k.data_space.data_space_id))
      "AgentIdentityRegistration DataSpace mismatch"
  raise_if (member k.registry.agent_name_registrations r.registration_id)
      (concat "AgentIdentityRegistration already exists: " r.registration_id)
  raise_if (agent_name_is_registered k.registry r.agent_name)
      (concat "AgentIdentityRegistration name is already assigned: " r.agent_name)
  raise_if (not (member k.registry.nodes r.node_id)) "AgentIdentityRegistration Node does not exist"
  ok (record {
    draft =
        draft_of system r.registration_id "agent_identity_registered"
          (Payload.agent_identity_registered r) caller r.node_id;
    next = λ _. record (k.registry) {
      agent_name_registrations = put k.registry.agent_name_registrations r.registration_id r;
    };
    raises = none;
  })
