-- ===== src/Activation/Methods.antt =====
-- vsm/activation/service.py: the methods of `ActivationService` that change its state, as a data
-- type, and their execution.
use nanihold_os.Prelude.{ℕ, String, ◌≡◌, refl, Bool, Option, none, some, List}
use nanihold_os.Result.{Result, ok, err, ◌>>=◌}
use nanihold_os.Ids.{Platform}
use nanihold_os.Models.Event.{EventEnvelope, StoredEvent}
use nanihold_os.Models.Payload.{Payload}
use nanihold_os.Models.Activation.{
  ReorientationRevisionReason, HistoryImportReceipt, ReorientationAssessment,
}
use nanihold_os.Ledger.{append, finish, Ledger}
use nanihold_os.Activation.{
  Activation, Caller, Move, Service, commit, envelope, after_append, with_event_id,
}
use nanihold_os.Activation.Commands
use nanihold_os.Activation.Commands.{Registration, already_imported, to_record, Requester}
use nanihold_os.Activation.Assessment

pub data Method : Type 0 where
  register_history_import : HistoryImportReceipt → String → Method
  start_reorientation : Method
  record_reorientation_failure : String → Method
  interrupt_reorientation_attempt : String → Method
  record_reorientation_session_checkpoint : String → Method
  submit_assessment : ReorientationAssessment → List String → List String → Bool → Method
  request_assessment_revision : ReorientationRevisionReason → Requester → Method
  approve : String → ℕ → Method
  record_reorientation_usage : ℕ → ℕ → Method

-- A method either has nothing to record, or makes a move.
abbrev pub recorded : Registration → Option Move
recorded already_imported = none
recorded (to_record m) = some m

abbrev pub moving : Result Move → Result (Option Move)
moving (err e) = err e
moving (ok m) = ok (some m)

-- `decimal` writes a number as an f-string does.
unfoldable pub move_of : (ℕ → String) → Activation → Method → Caller → Result (Option Move)
move_of decimal a (register_history_import receipt conversation) c = do
  registration ← Commands.register_history_import a receipt conversation c
  ok (recorded registration)
move_of decimal a start_reorientation c = moving (Commands.start_reorientation a c)
move_of decimal a (record_reorientation_failure code) c =
    moving (Commands.record_reorientation_failure a code c)
move_of decimal a (interrupt_reorientation_attempt code) c =
    moving (Commands.interrupt_reorientation_attempt a code c)
move_of decimal a (record_reorientation_session_checkpoint session) c =
    moving (Commands.record_reorientation_session_checkpoint a session c)
move_of decimal a (submit_assessment s open_ids work_ids listed) c =
    moving (Assessment.submit_assessment decimal a s open_ids work_ids listed c)
move_of decimal a (request_assessment_revision reason requester) c =
    moving (Commands.request_assessment_revision a reason requester c)
move_of decimal a (approve assessment_id at) c = moving (Commands.approve a assessment_id at c)
move_of decimal a (record_reorientation_usage input output) c =
    moving (Commands.record_reorientation_usage a input output c)

module _ (dump : EventEnvelope Payload → String) (platform : Platform) where
  abbrev pub make : ℕ → Result (Option Move) → Service → Result (Unit {0}) × Service
  make now (err e) s = (err e, s)
  make now (ok none) s = (ok tt, s)
  make now (ok (some m)) s = commit dump platform now m s

  -- A method from its call to its return; the clock reads `now` for the event.
  unfoldable pub perform :
      (ℕ → String) → ℕ → Method → Caller → Service → Result (Unit {0}) × Service
  unfolding move_of
  perform decimal now method c s = make now (move_of decimal s.activation method c) s

  after_append-keeps :
      (P : Activation → Type 0) (m : Move) (event : EventEnvelope Payload) (a : Activation)
      (l : Ledger Payload) (r : Result (Option (StoredEvent Payload)))
      → P a
      → ((e : EventEnvelope Payload) (cursor version : ℕ)
          → P (m.write e cursor (record a { version = version })))
      → P (after_append dump platform m event a (finish dump r event l)).1.activation
  after_append-keeps P m event a l (err _) h q = h
  after_append-keeps P m event a l (ok (some _)) h q = q event _ _
  after_append-keeps P m event a l (ok none) h q = q event _ _

  with_id-keeps :
      (P : Activation → Type 0) (m : Move) (now : ℕ) (s : Service) (r : Result String)
      → P s.activation
      → ((e : EventEnvelope Payload) (cursor version : ℕ)
          → P (m.write e cursor (record (s.activation) { version = version })))
      → P (with_event_id dump platform m now s r).1.activation
  unfolding append
  with_id-keeps P m now s (err _) h q = h
  with_id-keeps P m now s (ok id) h q =
      after_append-keeps P m (envelope s.activation m now id) s.activation s.ledger _ h q

  make-keeps :
      (P : Activation → Type 0) (now : ℕ) (s : Service) (r : Result (Option Move))
      → P s.activation
      → ((m : Move)
          → r ≡ ok (some m)
          → (e : EventEnvelope Payload) (cursor version : ℕ)
          → P (m.write e cursor (record (s.activation) { version = version })))
      → P (make now r s).1.activation
  unfolding commit
  make-keeps P now s (err _) h q = h
  make-keeps P now s (ok none) h q = h
  make-keeps P now s (ok (some m)) h q = with_id-keeps P m now s _ h (q m refl)

  -- What holds of the activation before a method and after the writes of its move, holds after the
  -- method, also when it raises.
  pub perform-keeps :
      (P : Activation → Type 0) (decimal : ℕ → String) (now : ℕ) (method : Method) (c : Caller)
      (s : Service)
      → P s.activation
      → ((m : Move)
          → move_of decimal s.activation method c ≡ ok (some m)
          → (e : EventEnvelope Payload) (cursor version : ℕ)
          → P (m.write e cursor (record (s.activation) { version = version })))
      → P (perform decimal now method c s).1.activation
  unfolding perform
  perform-keeps P decimal now method c s h q = make-keeps P now s _ h q
