-- ===== src/Activation/Commands.antt =====
-- vsm/activation/service.py: the methods of `ActivationService` that change its state, as the tests
-- that each makes and the event and writes that follow.
use nanihold_os.Prelude.{
  ℕ, ◌+◌, String, Bool, true, false, not, ◌||◌, Option, none, some, List, [], ◌∷◌, ◌==◌, length,
  nat_eq, is_none, if◌then◌else◌, decides,
}
use nanihold_os.Result.{Result, ok, err, invariant_violation, ◌>>=◌, ◌>>◌, raise_if, require_some}
use nanihold_os.Dict.{Dict, empty, put}
use nanihold_os.Models.Event.{ActorType, human, pilot, system}
use nanihold_os.Models.Payload.{Payload}
use nanihold_os.Models.Activation.{
  ActivationState, ReorientationRevisionReason, HistorySession, HistoryImportReceipt,
  HistoryImportReceipt-discrete, ReorientationAssessment, is_uncommissioned, is_reorientation_only,
  is_awaiting, totals_and_coverage_are_consistent, covers_required_kinds,
}
use nanihold_os.Activation.{Activation, Caller, Move}

-- `{session.session_ref: session for session in sessions}`
abbrev pub by_ref : List HistorySession → Dict HistorySession → Dict HistorySession
by_ref [] d = d
by_ref (s ∷ rest) d = by_ref rest (put d s.session_ref s)

abbrev pub equals_receipt : HistoryImportReceipt → Option HistoryImportReceipt → Bool
equals_receipt r none = false
equals_receipt r (some r') = decides (HistoryImportReceipt-discrete r r')

-- The outcome of `register_history_import`: nothing to do, or an event to record.
pub data Registration : Type 0 where
  already_imported : Registration
  to_record : Move → Registration

abbrev pub repeated : Bool → Result Registration
repeated same =
    if same
    then ok already_imported
    else err (invariant_violation "history import is accepted only while uncommissioned")

unfoldable pub register_history_import :
    Activation → HistoryImportReceipt → String → Caller → Result Registration
unfolding totals_and_coverage_are_consistent covers_required_kinds
register_history_import a receipt reorientation_conversation_id caller = do
  raise_if (not (totals_and_coverage_are_consistent receipt))
      "HistoryImportReceipt violates the LETHE handoff contract"
  if not (is_uncommissioned a.state) then repeated (equals_receipt receipt a.import_receipt) else do
    raise_if (is_none a.work_graph_snapshot_id) "current Work Graph must be imported before history"
    raise_if (reorientation_conversation_id == "") "reorientation requires a canonical Conversation"
    raise_if (not (receipt.data_space_id == a.data_space_id)) "history import DataSpace mismatch"
    raise_if (not (covers_required_kinds receipt.sources)) "history source coverage mismatch"
    let sessions = by_ref receipt.sessions empty
    raise_if (not (nat_eq (length sessions.entries) receipt.session_count))
        "history session identities must be globally unique"
    ok (
        to_record (record {
          event_type = "history_import_verified";
          payload =
              Payload.history_import_verified receipt reorientation_conversation_id
                ActivationState.history_imported;
          actor_type = human;
          caller = caller;
          write = λ event cursor s. record s {
            import_receipt = some receipt;
            reorientation_conversation_id = some reorientation_conversation_id;
            sessions = sessions;
            state = ActivationState.history_imported;
            import_event_cursor = cursor;
          };
        }))

-- The event type and the payload of `start_reorientation`, by the state that it starts from.
abbrev pub start_event :
    ActivationState → Option String → Option ReorientationRevisionReason → Option (String × Payload)
start_event ActivationState.history_imported failure revision =
    some ("reorientation_started", Payload.reorientation_started ActivationState.reorientation_only)
start_event ActivationState.reorientation_only (some error) revision = some (
  "reorientation_retry_started",
  Payload.reorientation_retry_started ActivationState.reorientation_only error,
)
start_event ActivationState.reorientation_only none (some reason) = some (
  "reorientation_revision_retry_started",
  Payload.reorientation_revision_retry_started ActivationState.reorientation_only reason,
)
start_event _ _ _ = none

unfoldable pub start_reorientation : Activation → Caller → Result Move
start_reorientation a caller = do
  raise_if a.reorientation_attempt_in_progress "a reorientation attempt is already in progress"
  started ←
      require_some
        (start_event a.state a.reorientation_error a.pending_reorientation_revision_reason)
        "reorientation requires a verified history import"
  ok (record {
    event_type = started.0;
    payload = started.1;
    actor_type = pilot;
    caller = caller;
    write = λ event cursor s. record s {
      state = ActivationState.reorientation_only;
      reorientation_error = none;
      pending_reorientation_revision_reason = none;
      reorientation_attempt_in_progress = true;
      reorientation_attempt_started_stream_version = some event.stream_version;
    };
  })

-- The two tests with which the methods of a running attempt begin.
abbrev pub in_attempt : Activation → String → String → Result (Unit {0})
in_attempt a wrong_state no_attempt = do
  raise_if (not (is_reorientation_only a.state)) wrong_state
  raise_if (not a.reorientation_attempt_in_progress) no_attempt

-- The writes with which an attempt that did not succeed ends.
abbrev pub end_attempt : String → Activation → Activation
end_attempt error s = record s {
  reorientation_error = some error;
  pending_reorientation_revision_reason = none;
  reorientation_attempt_in_progress = false;
  reorientation_attempt_started_stream_version = none;
}

unfoldable pub record_reorientation_failure : Activation → String → Caller → Result Move
record_reorientation_failure a error_code caller = do
  in_attempt a "reorientation failure requires reorientation-only state"
      "reorientation failure requires an attempt in progress"
  ok (record {
    event_type = "reorientation_failed";
    payload = Payload.reorientation_failed error_code;
    actor_type = system;
    caller = caller;
    write = λ event cursor s. end_attempt error_code s;
  })

-- `ReorientationInterruptionReason` has this one member.
abbrev pub process_restart_interrupted_attempt : String
process_restart_interrupted_attempt = "process_restart_interrupted_attempt"

unfoldable pub interrupt_reorientation_attempt : Activation → String → Caller → Result Move
interrupt_reorientation_attempt a reason_code caller = do
  in_attempt a "reorientation interruption requires reorientation-only state"
      "reorientation interruption requires an attempt in progress"
  raise_if (not (reason_code == process_restart_interrupted_attempt))
      "reorientation interruption reason code is not allowed"
  ok (record {
    event_type = "reorientation_attempt_interrupted";
    payload = Payload.reorientation_attempt_interrupted reason_code;
    actor_type = system;
    caller = caller;
    write = λ event cursor s. end_attempt reason_code s;
  })

unfoldable pub record_reorientation_session_checkpoint : Activation → String → Caller → Result Move
record_reorientation_session_checkpoint a provider_session_id caller = do
  in_attempt a "reorientation session checkpoint requires reorientation-only state"
      "reorientation session checkpoint requires an attempt in progress"
  raise_if (provider_session_id == "")
      "reorientation session checkpoint requires a provider session"
  ok (record {
    event_type = "reorientation_session_checkpointed";
    payload = Payload.reorientation_session_checkpointed provider_session_id;
    actor_type = pilot;
    caller = caller;
    write =
        λ event cursor s. record s { reorientation_provider_session_id = some provider_session_id };
  })

unfoldable pub record_reorientation_usage : Activation → ℕ → ℕ → Caller → Result Move
record_reorientation_usage a input_tokens output_tokens caller = do
  raise_if (not (is_reorientation_only a.state) || not a.reorientation_attempt_in_progress)
      "reorientation usage requires an attempt in progress"
  ok (record {
    event_type = "reorientation_pilot_usage_recorded";
    payload = Payload.reorientation_pilot_usage_recorded input_tokens output_tokens;
    actor_type = pilot;
    caller = caller;
    write = λ event cursor s. record s {
      reorientation_pilot_calls = s.reorientation_pilot_calls + 1;
      reorientation_input_tokens = s.reorientation_input_tokens + input_tokens;
      reorientation_output_tokens = s.reorientation_output_tokens + output_tokens;
    };
  })

-- `requested_by`: the owner or the system.
pub data Requester : Type 0 where
  owner the_system : Requester

abbrev actor_of : Requester → ActorType
actor_of owner = human
actor_of the_system = system

unfoldable pub request_assessment_revision :
    Activation → ReorientationRevisionReason → Requester → Caller → Result Move
request_assessment_revision a reason_code requested_by caller = do
  raise_if (not (is_awaiting a.state))
      "assessment revision requires awaiting-owner-confirmation state"
  prior ← require_some a.assessment "assessment revision requires an accepted assessment"
  ok (record {
    event_type = "reorientation_assessment_revision_requested";
    payload =
        Payload.reorientation_assessment_revision_requested prior.assessment_id reason_code
          ActivationState.reorientation_only;
    actor_type = actor_of requested_by;
    caller = caller;
    write = λ event cursor s. record s {
      assessment = none;
      reorientation_error = none;
      pending_reorientation_revision_reason = some reason_code;
      reorientation_attempt_in_progress = false;
      reorientation_attempt_started_stream_version = none;
      state = ActivationState.reorientation_only;
    };
  })

abbrev pub is_assessment : String → Option ReorientationAssessment → Bool
is_assessment assessment_id none = false
is_assessment assessment_id (some a) = a.assessment_id == assessment_id

-- The clock is read once for `approved_at`, and again for the event.
unfoldable pub approve : Activation → String → ℕ → Caller → Result Move
approve a assessment_id approved_at caller = do
  raise_if (not (is_awaiting a.state)) "activation requires owner confirmation"
  raise_if (not (is_assessment assessment_id a.assessment))
      "owner confirmation references unknown assessment"
  ok (record {
    event_type = "activation_approved";
    payload = Payload.activation_approved assessment_id approved_at ActivationState.active;
    actor_type = human;
    caller = caller;
    write = λ event cursor s. record s {
      approved_at = some approved_at;
      state = ActivationState.active;
    };
  })
