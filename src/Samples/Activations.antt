-- ===== src/Samples/Activations.antt =====
-- The theorems on the activation, tried on a running attempt of reorientation.
use nanihold_os.Prelude.{String, ◌≡◌, refl, true, false, ◌⊎◌, none, some, [], ◌∷◌}
use nanihold_os.Result.{Result, ok, err, invariant_violation}
use nanihold_os.Models.Activation.{
  ActivationState, HistorySourceKind, HistorySourceManifest, HistoryImportReceipt,
  ReorientationAssessment, totals_and_coverage_are_consistent, covers_required_kinds,
}
use nanihold_os.Ledger.{new_ledger}
use nanihold_os.Activation.{Activation, Move, Service, new_activation}
use nanihold_os.Activation.Commands.{
  Registration, already_imported, to_record, register_history_import, start_reorientation,
}
use nanihold_os.Activation.Assessment.{submit_assessment}
use nanihold_os.Activation.Methods.{Method, perform}
use nanihold_os.Activation.Progress.{is_sound, is_step}
use nanihold_os.Activation.Steps.{
  activation_stays_sound, activation_steps, active_is_final, reorientation_can_start, is_accepted,
}
use nanihold_os.Activation.Evidence.{Evidenced, submit_assessment-Evidenced}
use nanihold_os.Activation.Import.{import_again}
use nanihold_os.Samples.{sample_dump, sample_platform, sample_decimal, sample_caller, sample_event}

abbrev source_of : String → HistorySourceKind → HistorySourceManifest
source_of id kind = record {
  source_id = id;
  source_kind = kind;
  owner_id = "owner:ada";
  record_count = 1;
  raw_bytes = 10;
  digest_sha256 = "digest";
  cutover_cursor = "end";
}

abbrev pub sample_receipt : HistoryImportReceipt
sample_receipt = record {
  inventory_id = "inventory:1";
  data_space_id = "space:home";
  manifest_digest = "digest";
  record_count = 7;
  raw_bytes = 70;
  cross_source_overlap_identities = 0;
  sources =
      source_of "a" HistorySourceKind.claude_code
      ∷ source_of "b" HistorySourceKind.claude_ai
      ∷ source_of "c" HistorySourceKind.codex
      ∷ source_of "d" HistorySourceKind.intercom
      ∷ source_of "e" HistorySourceKind.lethe
      ∷ source_of "f" HistorySourceKind.nanihold_legacy
      ∷ source_of "g" HistorySourceKind.system_snapshot
      ∷ [];
  session_count = 0;
  sessions = [];
  session_index_ref = "index";
  open_commitments_ref = "commitments";
  current_state_ref = "state";
}

abbrev pub before_import : Activation
before_import = record (new_activation (λ s. "home") "space:home") {
  work_graph_snapshot_id = some "snapshot:1";
}

abbrev pub running : Activation
running = record before_import {
  state = ActivationState.reorientation_only;
  import_receipt = some sample_receipt;
  reorientation_conversation_id = some "conversation:1";
  import_event_cursor = 1;
  history_query_operations = "get_current_state" ∷ [];
  history_query_event_ids = "query:1" ∷ [];
  reorientation_attempt_in_progress = true;
  reorientation_attempt_started_stream_version = some 2;
}

abbrev pub sample_assessment : ReorientationAssessment
sample_assessment = record {
  assessment_id = "assessment:1";
  import_id = "inventory:1";
  conversation_id = "conversation:1";
  generated_at = 5;
  understanding = "understood";
  active_missions = [];
  decisions_and_constraints = [];
  open_commitment_ids = "c1" ∷ [];
  unknowns = [];
  resume_work_item_ids = [];
  covered_session_index_ref = "index";
  covered_session_count = 0;
  history_cursor = 2;
  current_state_cursor = 3;
  citations = record { claim_ref = "understanding"; evidence_ref = "query:1" } ∷ [];
}

abbrev service : Activation → Service
service a = record { activation = a; ledger = new_ledger "space:home" }

abbrev failure : Method
failure = Method.record_reorientation_failure "timeout"

abbrev after_failure : Activation
after_failure =
    (perform sample_dump sample_platform sample_decimal 7 failure sample_caller
      (service running)).1.activation

activation_stays_sound_example : is_sound after_failure ≡ true
activation_stays_sound_example =
    activation_stays_sound sample_dump sample_platform sample_decimal 7 failure sample_caller
      (service running) refl

activation_steps_example :
    (after_failure.state ≡ ActivationState.reorientation_only)
    ⊎ (is_step ActivationState.reorientation_only after_failure.state ≡ true)
activation_steps_example =
    activation_steps sample_dump sample_platform sample_decimal 7 failure sample_caller
      (service running)

abbrev confirmed : Activation
confirmed = record running {
  state = ActivationState.active;
  assessment = some sample_assessment;
  approved_at = some 6;
  reorientation_attempt_in_progress = false;
}

active_is_final_example :
    (perform sample_dump sample_platform sample_decimal 7 failure sample_caller
      (service confirmed)).1.activation.state
    ≡ ActivationState.active
active_is_final_example =
    active_is_final sample_dump sample_platform sample_decimal 7 failure sample_caller
      (service confirmed) refl

abbrev failed : Activation
failed = record running {
  reorientation_attempt_in_progress = false;
  reorientation_attempt_started_stream_version = none;
  reorientation_error = some "timeout";
}

reorientation_can_start_example : is_accepted (start_reorientation failed sample_caller) ≡ true
reorientation_can_start_example = reorientation_can_start failed sample_caller refl refl refl

abbrev move_of_ok : Result Move → Move
move_of_ok (ok m) = m
move_of_ok (err e) = record {
  event_type = "";
  payload = sample_event.payload;
  actor_type = sample_event.actor_type;
  caller = sample_caller;
  write = λ _ _ a. a;
}

submission_accepted :
    submit_assessment sample_decimal running sample_assessment ("c1" ∷ []) [] true sample_caller
    ≡ ok (
        move_of_ok (
          submit_assessment sample_decimal running sample_assessment
            ("c1" ∷ [])
            []
            true
            sample_caller))
unfolding submit_assessment
submission_accepted = refl

submit_assessment-Evidenced_example :
    Evidenced sample_decimal running sample_assessment ("c1" ∷ []) []
submit_assessment-Evidenced_example =
    submit_assessment-Evidenced sample_decimal running sample_assessment ("c1" ∷ []) [] true
      sample_caller
      (move_of_ok (
        submit_assessment sample_decimal running sample_assessment ("c1" ∷ []) [] true
          sample_caller))
      submission_accepted

abbrev import_of : Result Registration → Move
import_of (ok (to_record m)) = m
import_of (ok already_imported) = move_of_ok (err (invariant_violation ""))
import_of (err e) = move_of_ok (err e)

import_accepted :
    register_history_import before_import sample_receipt "conversation:1" sample_caller
    ≡ ok (
        to_record (
          import_of
            (register_history_import before_import sample_receipt "conversation:1" sample_caller)))
unfolding register_history_import totals_and_coverage_are_consistent covers_required_kinds
import_accepted = refl

import_again_example :
    register_history_import
      ((import_of (
          register_history_import before_import sample_receipt "conversation:1"
            sample_caller)).write
        sample_event 1
        (record before_import { version = 1 }))
      sample_receipt
      "conversation:2"
      sample_caller
    ≡ ok already_imported
import_again_example =
    import_again before_import sample_receipt "conversation:1" "conversation:2" sample_caller
      sample_caller
      (import_of
        (register_history_import before_import sample_receipt "conversation:1" sample_caller))
      sample_event 1 1 import_accepted
