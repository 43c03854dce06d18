-- ===== src/Projection/Milestones.antt =====
-- vsm/projection.py: the handlers of the events that the activation records, over its state. Each
-- sets the version of the activation at its end; `cursor` is that of the event.
use nanihold_os.Prelude.{ℕ, ◌+◌, String, true, false, not, none, some, ◌==◌, concat}
use nanihold_os.Result.{Result, ok, err, invariant_violation, ◌>>◌, raise_if}
use nanihold_os.Dict.{empty}
use nanihold_os.Models.Activation.{
  ActivationState, ReorientationRevisionReason, HistoryImportReceipt, ReorientationAssessment,
  is_reorientation_only,
}
use nanihold_os.Models.Event.{EventEnvelope}
use nanihold_os.Models.Payload.{Payload}
use nanihold_os.Activation.{Activation}
use nanihold_os.Activation.Queries.{add}
use nanihold_os.Activation.Commands.{
  by_ref, is_assessment, process_restart_interrupted_attempt, end_attempt,
}

abbrev pub on_history_import_verified :
    HistoryImportReceipt → String → ℕ → Activation → Result Activation
on_history_import_verified receipt conversation_id cursor a = do
  raise_if (conversation_id == "") "history import event is missing its canonical Conversation"
  ok (record a {
    import_receipt = some receipt;
    reorientation_conversation_id = some conversation_id;
    sessions = by_ref receipt.sessions empty;
    state = ActivationState.history_imported;
    reorientation_attempt_in_progress = false;
    reorientation_attempt_started_stream_version = none;
    pending_reorientation_revision_reason = none;
    import_event_cursor = cursor;
  })

-- The handler of the three event types that start an attempt.
abbrev pub on_reorientation_started : ℕ → Activation → Activation
on_reorientation_started stream_version a = record a {
  state = ActivationState.reorientation_only;
  reorientation_error = none;
  pending_reorientation_revision_reason = none;
  reorientation_attempt_in_progress = true;
  reorientation_attempt_started_stream_version = some stream_version;
}

-- `ReorientationInterruptionReason(...)` accepts its one member only.
abbrev pub on_reorientation_attempt_interrupted : String → Activation → Result Activation
on_reorientation_attempt_interrupted reason_code a = do
  raise_if (not (reason_code == process_restart_interrupted_attempt))
      "reorientation interruption event has an invalid reason code"
  ok (end_attempt reason_code a)

abbrev pub on_reorientation_session_checkpointed : String → Activation → Result Activation
on_reorientation_session_checkpointed session a = do
  raise_if (session == "") "reorientation checkpoint is missing its provider session"
  ok (record a { reorientation_provider_session_id = some session })

abbrev pub on_history_query_resolved : String → String → Activation → Activation
on_history_query_resolved operation event_id a = record a {
  history_query_operations = add operation a.history_query_operations;
  history_query_event_ids = add event_id a.history_query_event_ids;
}

abbrev pub on_reorientation_pilot_usage_recorded : ℕ → ℕ → Activation → Activation
on_reorientation_pilot_usage_recorded input output a = record a {
  reorientation_pilot_calls = a.reorientation_pilot_calls + 1;
  reorientation_input_tokens = a.reorientation_input_tokens + input;
  reorientation_output_tokens = a.reorientation_output_tokens + output;
}

abbrev pub on_reorientation_assessment_accepted : ReorientationAssessment → Activation → Activation
on_reorientation_assessment_accepted assessment a = record a {
  assessment = some assessment;
  state = ActivationState.awaiting_owner_confirmation;
  pending_reorientation_revision_reason = none;
  reorientation_attempt_in_progress = false;
  reorientation_attempt_started_stream_version = none;
}

abbrev pub on_reorientation_assessment_revision_requested :
    String → ReorientationRevisionReason → ActivationState → Activation → Result Activation
on_reorientation_assessment_revision_requested prior reason state a = do
  raise_if (not (is_assessment prior a.assessment))
      "assessment revision does not reference the projected assessment"
  raise_if (not (is_reorientation_only state))
      "assessment revision event has an invalid activation state"
  ok (record a {
    assessment = none;
    reorientation_error = none;
    pending_reorientation_revision_reason = some reason;
    reorientation_attempt_in_progress = false;
    reorientation_attempt_started_stream_version = none;
    state = ActivationState.reorientation_only;
  })

abbrev pub on_activation_approved : ℕ → Activation → Activation
on_activation_approved approved_at a = record a {
  state = ActivationState.active;
  approved_at = some approved_at;
}

-- What the handler of an event writes before the version; an event of the Kernel has none here.
unfoldable pub on_milestone : ℕ → EventEnvelope Payload → Payload → Activation → Result Activation
on_milestone cursor e (Payload.history_import_verified receipt conversation _) a =
    on_history_import_verified receipt conversation cursor a
on_milestone cursor e (Payload.reorientation_started _) a =
    ok (on_reorientation_started e.stream_version a)
on_milestone cursor e (Payload.reorientation_retry_started _ _) a =
    ok (on_reorientation_started e.stream_version a)
on_milestone cursor e (Payload.reorientation_revision_retry_started _ _) a =
    ok (on_reorientation_started e.stream_version a)
on_milestone cursor e (Payload.reorientation_failed code) a = ok (end_attempt code a)
on_milestone cursor e (Payload.reorientation_attempt_interrupted code) a =
    on_reorientation_attempt_interrupted code a
on_milestone cursor e (Payload.reorientation_session_checkpointed session) a =
    on_reorientation_session_checkpointed session a
on_milestone cursor e (Payload.reorientation_pilot_usage_recorded input output) a =
    ok (on_reorientation_pilot_usage_recorded input output a)
on_milestone cursor e (Payload.reorientation_assessment_accepted assessment _) a =
    ok (on_reorientation_assessment_accepted assessment a)
on_milestone cursor e (Payload.reorientation_assessment_revision_requested prior reason state) a =
    on_reorientation_assessment_revision_requested prior reason state a
on_milestone cursor e (Payload.activation_approved _ approved_at _) a =
    ok (on_activation_approved approved_at a)
on_milestone cursor e (Payload.history_query_resolved _ operation _ _ _ _ _ _) a =
    ok (on_history_query_resolved operation e.event_id a)
on_milestone cursor e _ a =
    err (invariant_violation (concat "projection has no handler for event type: " e.event_type))
