-- ===== src/Models/Execution.antt =====
-- vsm/kernel/models.py: Executions and their states.
use nanihold_os.Prelude.{String, Bool, true, false, Option}

pub data ExecutionState : Type 0 where
  requested active paused succeeded failed cancelled : ExecutionState

abbrev pub is_requested : ExecutionState → Bool
is_requested ExecutionState.requested = true
is_requested _ = false

abbrev pub is_active : ExecutionState → Bool
is_active ExecutionState.active = true
is_active _ = false

abbrev pub is_paused : ExecutionState → Bool
is_paused ExecutionState.paused = true
is_paused _ = false

-- `execution.state in (REQUESTED, ACTIVE)`
abbrev pub is_fresh : ExecutionState → Bool
is_fresh ExecutionState.requested = true
is_fresh ExecutionState.active = true
is_fresh _ = false

pub record Execution : Type 0 where
  pub execution_id : String
  pub data_space_id : String
  pub node_id : String
  pub work_item_id : String
  pub pilot_id : String
  pub model_candidate_key : String
  pub state : ExecutionState
  pub provider_session_id : Option String
  pub pilot_host_id : String
  pub pause_reason : Option String
  pub agent_name : Option String
