-- ===== src/Activation.antt =====
-- vsm/activation/service.py: the state of `ActivationService`, and how each of its methods records
-- its event. A method tests its arguments against the state first (`Activation.Commands`), which
-- gives a `Move`: the event to record and the writes that follow. `commit` records and writes.
pub mod Commands
pub mod Assessment
pub mod Methods
pub mod Queries
pub mod Progress
pub mod Steps
pub mod Evidence
pub mod Import
pub mod Recording
use nanihold_os.Prelude.{
  ℕ, ◌+◌, String, Bool, true, false, not, Option, none, some, List, [], ◌∷◌, concat,
}
use nanihold_os.Result.{Result, ok, err, ◌>>=◌, ◌>>◌, raise_if}
use nanihold_os.Dict.{Dict, empty}
use nanihold_os.Ids.{Platform, deterministic_event_id}
use nanihold_os.Models.Event.{EventEnvelope, AppendResult, ActorType, id_of_valid}
use nanihold_os.Models.Payload.{Payload}
use nanihold_os.Models.Activation.{
  ActivationState, ReorientationRevisionReason, HistorySession, HistoryImportReceipt,
  ReorientationAssessment, is_active,
}
use nanihold_os.Ledger.{Ledger, append}

pub record Activation : Type 0 where
  pub data_space_id : String
  pub state : ActivationState
  pub import_receipt : Option HistoryImportReceipt
  pub sessions : Dict HistorySession
  pub assessment : Option ReorientationAssessment
  pub approved_at : Option ℕ
  pub stream_id : String
  pub version : ℕ
  pub import_event_cursor : ℕ
  pub history_query_operations : List String
  pub history_query_event_ids : List String
  pub reorientation_pilot_calls : ℕ
  pub reorientation_input_tokens : ℕ
  pub reorientation_output_tokens : ℕ
  pub reorientation_error : Option String
  pub reorientation_attempt_in_progress : Bool
  pub reorientation_attempt_started_stream_version : Option ℕ
  pub pending_reorientation_revision_reason : Option ReorientationRevisionReason
  pub work_graph_snapshot_id : Option String
  pub reorientation_conversation_id : Option String
  pub reorientation_provider_session_id : Option String

-- `ActivationService.__init__`. `after_colon` is `s.split(':', 1)[-1]`.
abbrev pub new_activation : (String → String) → String → Activation
new_activation after_colon data_space_id = record {
  data_space_id = data_space_id;
  state = ActivationState.uncommissioned;
  import_receipt = none;
  sessions = empty;
  assessment = none;
  approved_at = none;
  stream_id = concat "activation:" (after_colon data_space_id);
  version = 0;
  import_event_cursor = 0;
  history_query_operations = [];
  history_query_event_ids = [];
  reorientation_pilot_calls = 0;
  reorientation_input_tokens = 0;
  reorientation_output_tokens = 0;
  reorientation_error = none;
  reorientation_attempt_in_progress = false;
  reorientation_attempt_started_stream_version = none;
  pending_reorientation_revision_reason = none;
  work_graph_snapshot_id = none;
  reorientation_conversation_id = none;
  reorientation_provider_session_id = none;
}

-- The keyword arguments that every command takes.
pub record Caller : Type 0 where
  pub actor_id : String
  pub idempotency_key : String

-- The arguments of one `_record` call, and the writes after it. They start from the state that
-- `_record` leaves, and may read the event and its cursor.
pub record Move : Type 0 where
  pub event_type : String
  pub payload : Payload
  pub actor_type : ActorType
  pub caller : Caller
  pub write : EventEnvelope Payload → ℕ → Activation → Activation

-- `require_active`
abbrev pub require_active : Activation → String → Result (Unit {0})
require_active a operation =
    raise_if (not (is_active a.state))
      (concat operation " is forbidden before owner-confirmed activation")

abbrev pub envelope : Activation → Move → ℕ → String → EventEnvelope Payload
envelope a m now event_id = record {
  event_id = event_id;
  data_space_id = a.data_space_id;
  stream_id = a.stream_id;
  stream_version = a.version + 1;
  event_type = m.event_type;
  occurred_at = now;
  actor_type = m.actor_type;
  actor_id = some m.caller.actor_id;
  correlation_id = some a.stream_id;
  causation_id = none;
  idempotency_key = m.caller.idempotency_key;
  payload = m.payload;
}

-- The service and the ledger that it shares with the Kernel.
pub record Service : Type 0 where
  pub activation : Activation
  pub ledger : Ledger Payload

module _ (dump : EventEnvelope Payload → String) (platform : Platform) where
  abbrev after_append :
      Move
      → EventEnvelope Payload
      → Activation
      → Result AppendResult × Ledger Payload
      → Result (Unit {0}) × Service
  after_append m event a (err e, ledger) = (err e, record { activation = a; ledger = ledger })
  after_append m event a (ok answer, ledger) = (
    ok tt,
    record {
      activation = m.write event answer.cursor (record a { version = answer.stream_version });
      ledger = ledger;
    },
  )

  abbrev pub with_event_id : Move → ℕ → Service → Result String → Result (Unit {0}) × Service
  with_event_id m now s (err e) = (err e, s)
  with_event_id m now s (ok event_id) =
      let event = envelope s.activation m now event_id in
      after_append m event s.activation (append dump event s.activation.version s.ledger)

  -- The id of the event, which its key determines, if `EventEnvelope(...)` accepts the fields.
  abbrev pub new_event_id : Move → ℕ → Service → Result String
  new_event_id m now s = do
    event_id ←
        deterministic_event_id platform s.activation.data_space_id s.activation.stream_id
          m.caller.idempotency_key
    id_of_valid (envelope s.activation m now event_id)

  -- `_record` and the writes after it; the clock reads `now`.
  unfoldable pub commit : ℕ → Move → Service → Result (Unit {0}) × Service
  commit now m s = with_event_id m now s (new_event_id m now s)
