-- ===== src/Activation/Progress.antt =====
-- vsm/activation/service.py: sound activations, and how one advances to another.
use nanihold_os.Prelude.{
  ℕ, String, ◌≡◌, refl, Bool, true, false, not, ◌&&◌, ◌||◌, Option, none, some, ◌⊎◌, inl, inr,
  arith, is_some,
}
use nanihold_os.Result.{
  Result, ok, err, Ensures, Ensures-ok, Ensures-err, Ensures-raise_if, Ensures-require,
  Ensures-bind, Ensures-if, ◌>>=◌,
}
use nanihold_os.Models.Event.{EventEnvelope}
use nanihold_os.Models.Payload.{Payload}
use nanihold_os.Models.Activation.{
  ActivationState, ReorientationRevisionReason, ReorientationAssessment, is_uncommissioned,
  is_reorientation_only, is_awaiting, is_active,
}
use nanihold_os.Activation.{Activation, Move}
use nanihold_os.Activation.Commands.{
  Registration, already_imported, to_record, start_event, in_attempt, end_attempt,
}

abbrev pub implies : Bool → Bool → Bool
implies a b = not a || b

-- Past the first state the import is verified; an attempt runs only in reorientation, and has the
-- version that it started at; without one, reorientation has a failure or a revision to start from;
-- awaiting and active have an assessment; active has the time of its approval.
abbrev pub is_sound : Activation → Bool
is_sound a =
    implies (not (is_uncommissioned a.state)) (is_some a.import_receipt)
    && implies a.reorientation_attempt_in_progress
        (is_reorientation_only a.state && is_some a.reorientation_attempt_started_stream_version)
    && implies (is_reorientation_only a.state && not a.reorientation_attempt_in_progress)
        (is_some a.reorientation_error || is_some a.pending_reorientation_revision_reason)
    && implies (is_awaiting a.state || is_active a.state) (is_some a.assessment)
    && implies (is_active a.state) (is_some a.approved_at)

-- The steps between different states.
abbrev pub is_step : ActivationState → ActivationState → Bool
is_step ActivationState.uncommissioned ActivationState.history_imported = true
is_step ActivationState.history_imported ActivationState.reorientation_only = true
is_step ActivationState.reorientation_only ActivationState.awaiting_owner_confirmation = true
is_step ActivationState.awaiting_owner_confirmation ActivationState.reorientation_only = true
is_step ActivationState.awaiting_owner_confirmation ActivationState.active = true
is_step _ _ = false

pub record Advance (a b : Activation) : Type 0 where
  pub sound : is_sound a ≡ true → is_sound b ≡ true
  pub step : (b.state ≡ a.state) ⊎ (is_step a.state b.state ≡ true)

abbrev pub Writes : Activation → Move → Type 0
Writes a m =
    (e : EventEnvelope Payload) (cursor version : ℕ)
    → Advance a (m.write e cursor (record a { version = version }))

abbrev pub RegistrationWrites : Activation → Registration → Type 0
RegistrationWrites a already_imported = Unit
RegistrationWrites a (to_record m) = Writes a m

pub ruleset steps =
    (Ensures-ok, Ensures-err, Ensures-raise_if, Ensures-require, Ensures-bind, Ensures-if)

pub in_attempt-facts :
    (a : Activation) (m n : String) (u : Unit {0})
    → in_attempt a m n ≡ ok u
    → (is_reorientation_only a.state ≡ true) × (a.reorientation_attempt_in_progress ≡ true)
in_attempt-facts a m n u h = (ground arith, ground arith)

pub end_attempt-Advance :
    (a : Activation) (code : String) (version : ℕ)
    → is_reorientation_only a.state ≡ true
    → Advance a (end_attempt code (record a { version = version }))
end_attempt-Advance a code version h = record { sound = λ s. ground arith; step = inl refl }

pub same-Advance :
    (a : Activation) (session : Option String) (version calls input output : ℕ)
    → Advance a (record a {
      version = version;
      reorientation_provider_session_id = session;
      reorientation_pilot_calls = calls;
      reorientation_input_tokens = input;
      reorientation_output_tokens = output;
    })
same-Advance a session version calls input output = record { sound = λ s. s; step = inl refl }

pub import-Advance :
    (a b : Activation)
    → not (is_uncommissioned a.state) ≡ false
    → is_some b.import_receipt ≡ true
    → b.state ≡ ActivationState.history_imported
    → b.reorientation_attempt_in_progress ≡ a.reorientation_attempt_in_progress
    → Advance a b
import-Advance a b h r q p = record { sound = λ s. ground arith; step = inr (ground arith) }

pub start-Advance :
    (a : Activation) (version n : ℕ) (v : String × Payload)
    → start_event a.state a.reorientation_error a.pending_reorientation_revision_reason ≡ some v
    → Advance a (record a {
      version = version;
      state = ActivationState.reorientation_only;
      reorientation_error = none;
      pending_reorientation_revision_reason = none;
      reorientation_attempt_in_progress = true;
      reorientation_attempt_started_stream_version = some n;
    })
start-Advance a version n v h = record { sound = λ s. ground arith; step = ground arith }

pub submit-Advance :
    (a : Activation) (version : ℕ) (v : ReorientationAssessment)
    → not (is_reorientation_only a.state) ≡ false
    → Advance a (record a {
      version = version;
      assessment = some v;
      state = ActivationState.awaiting_owner_confirmation;
      pending_reorientation_revision_reason = none;
      reorientation_attempt_in_progress = false;
      reorientation_attempt_started_stream_version = none;
    })
submit-Advance a version v h = record { sound = λ s. ground arith; step = inr (ground arith) }

pub revision-Advance :
    (a : Activation) (version : ℕ) (v : ReorientationRevisionReason)
    → not (is_awaiting a.state) ≡ false
    → Advance a (record a {
      version = version;
      assessment = none;
      reorientation_error = none;
      pending_reorientation_revision_reason = some v;
      reorientation_attempt_in_progress = false;
      reorientation_attempt_started_stream_version = none;
      state = ActivationState.reorientation_only;
    })
revision-Advance a version v h = record { sound = λ s. ground arith; step = inr (ground arith) }

pub approve-Advance :
    (a : Activation) (version at : ℕ)
    → not (is_awaiting a.state) ≡ false
    → Advance a
        (record a { version = version; approved_at = some at; state = ActivationState.active })
approve-Advance a version at h = record { sound = λ s. ground arith; step = inr (ground arith) }
