-- ===== src/Activation/Steps.antt =====
-- vsm/activation/service.py: what the methods do to the state of the activation.
use nanihold_os.Prelude.{ℕ, String, ◌≡◌, refl, Bool, true, false, ◌||◌, some, List, ◌⊎◌, inl, arith}
use nanihold_os.Result.{
  Result, ok, err, Ensures, Ensures-ok, Ensures-raise_if, Ensures-require, Ensures-bind, ◌>>=◌,
}
use nanihold_os.Ids.{Platform}
use nanihold_os.Models.Event.{EventEnvelope}
use nanihold_os.Models.Payload.{Payload}
use nanihold_os.Models.Activation.{
  ActivationState, ReorientationRevisionReason, HistoryImportReceipt, ReorientationAssessment,
  is_reorientation_only, is_active,
}
use nanihold_os.Activation.{Activation, Caller, Move, Service, new_activation}
use nanihold_os.Activation.Commands.{
  Registration, already_imported, to_record, register_history_import, start_reorientation,
  in_attempt, record_reorientation_failure, interrupt_reorientation_attempt,
  record_reorientation_session_checkpoint, request_assessment_revision, approve,
  record_reorientation_usage, Requester,
}
use nanihold_os.Activation.Assessment.{submit_assessment}
use nanihold_os.Activation.Methods.{Method, move_of, moving, recorded, perform, perform-keeps}
use nanihold_os.Activation.Progress.{
  is_sound, is_step, Advance, Writes, RegistrationWrites, in_attempt-facts, end_attempt-Advance,
  same-Advance, import-Advance, start-Advance, submit-Advance, revision-Advance, approve-Advance,
  steps,
}

abbrev pub is_accepted {ℓ} : {A : Type ℓ} → Result A → Bool
is_accepted (err _) = false
is_accepted (ok _) = true

abbrev pub is_history_imported : ActivationState → Bool
is_history_imported ActivationState.history_imported = true
is_history_imported _ = false

module _ (a : Activation) (c : Caller) where
  Ensures-in_attempt :
      (P : Move → Type 0) (m n : String) (f : Unit {0} → Result Move)
      → (is_reorientation_only a.state ≡ true → Ensures P (f tt))
      → Ensures P (in_attempt a m n >>= f)
  Ensures-in_attempt P m n f k =
      Ensures-bind (in_attempt a m n) f (λ u h. k (in_attempt-facts a m n u h).0)

  failure-Writes : (code : String) → Ensures (Writes a) (record_reorientation_failure a code c)
  unfolding record_reorientation_failure
  failure-Writes code = search (Ensures-ok, Ensures-in_attempt, end_attempt-Advance) depth 12

  interrupt-Writes : (code : String) → Ensures (Writes a) (interrupt_reorientation_attempt a code c)
  unfolding interrupt_reorientation_attempt
  interrupt-Writes code =
      search (Ensures-ok, Ensures-raise_if, Ensures-in_attempt, end_attempt-Advance) depth 12

  checkpoint-Writes :
      (session : String) → Ensures (Writes a) (record_reorientation_session_checkpoint a session c)
  unfolding record_reorientation_session_checkpoint
  checkpoint-Writes session = search (steps, same-Advance) depth 12

  usage-Writes :
      (input output : ℕ) → Ensures (Writes a) (record_reorientation_usage a input output c)
  unfolding record_reorientation_usage
  usage-Writes input output = search (steps, same-Advance) depth 12

  start-Writes : Ensures (Writes a) (start_reorientation a c)
  unfolding start_reorientation
  start-Writes = search (steps, start-Advance) depth 12

  submit-Writes :
      (decimal : ℕ → String) (s : ReorientationAssessment) (open_ids work_ids : List String)
      (listed : Bool)
      → Ensures (Writes a) (submit_assessment decimal a s open_ids work_ids listed c)
  unfolding submit_assessment
  submit-Writes decimal s open_ids work_ids listed = Ensures-raise_if _ _ _ (λ h.
      let leaf : (version : ℕ) → Advance a _ = λ version. submit-Advance a version s h in
      search (Ensures-ok, Ensures-raise_if, Ensures-require, Ensures-bind, leaf) depth 24)

  revision-Writes :
      (reason : ReorientationRevisionReason) (r : Requester)
      → Ensures (Writes a) (request_assessment_revision a reason r c)
  unfolding request_assessment_revision
  revision-Writes reason r = search (steps, revision-Advance) depth 12

  approve-Writes : (id : String) (at : ℕ) → Ensures (Writes a) (approve a id at c)
  unfolding approve
  approve-Writes id at = search (steps, approve-Advance) depth 12

  register-Writes :
      (receipt : HistoryImportReceipt) (conversation : String)
      → Ensures (RegistrationWrites a) (register_history_import a receipt conversation c)
  unfolding register_history_import
  register-Writes receipt conversation = search (steps, import-Advance, refl) depth 24

  moving-Writes :
      (r : Result Move) (m : Move) → Ensures (Writes a) r → moving r ≡ ok (some m) → Writes a m
  moving-Writes (err e) m h p = absurd (cc)
  moving-Writes (ok n) m h p = h.at m (cc)

  recorded-Writes :
      (r : Result Registration) (m : Move)
      → Ensures (RegistrationWrites a) r
      → (r >>= λ registration. ok (recorded registration)) ≡ ok (some m)
      → Writes a m
  recorded-Writes (err e) m h p = absurd (cc)
  recorded-Writes (ok already_imported) m h p = absurd (cc)
  recorded-Writes (ok (to_record n)) m h p = h.at (to_record m) (cc)

  move_of-Writes :
      (decimal : ℕ → String) (method : Method) (m : Move)
      → move_of decimal a method c ≡ ok (some m)
      → Writes a m
  unfolding move_of
  move_of-Writes decimal (Method.register_history_import r s) m p =
      recorded-Writes _ m (register-Writes r s) p
  move_of-Writes decimal Method.start_reorientation m p = moving-Writes _ m start-Writes p
  move_of-Writes decimal (Method.record_reorientation_failure code) m p =
      moving-Writes _ m (failure-Writes code) p
  move_of-Writes decimal (Method.interrupt_reorientation_attempt code) m p =
      moving-Writes _ m (interrupt-Writes code) p
  move_of-Writes decimal (Method.record_reorientation_session_checkpoint s) m p =
      moving-Writes _ m (checkpoint-Writes s) p
  move_of-Writes decimal (Method.submit_assessment s xs ys b) m p =
      moving-Writes _ m (submit-Writes decimal s xs ys b) p
  move_of-Writes decimal (Method.request_assessment_revision reason r) m p =
      moving-Writes _ m (revision-Writes reason r) p
  move_of-Writes decimal (Method.approve id at) m p = moving-Writes _ m (approve-Writes id at) p
  move_of-Writes decimal (Method.record_reorientation_usage i o) m p =
      moving-Writes _ m (usage-Writes i o) p

module _ (dump : EventEnvelope Payload → String) (platform : Platform) (decimal : ℕ → String)
    (now : ℕ) (method : Method) (c : Caller) (s : Service) where
  abbrev next : Activation
  next = (perform dump platform decimal now method c s).1.activation

  advances : Advance s.activation next
  advances =
      perform-keeps dump platform (Advance s.activation) decimal now method c s
        (record { sound = λ h. h; step = inl refl }) (move_of-Writes s.activation c decimal method)

  -- A sound activation is sound after every method, also one that raises.
  pub activation_stays_sound : is_sound s.activation ≡ true → is_sound next ≡ true
  activation_stays_sound = advances.sound

  -- Every method leaves the state of the activation, or makes a step of the table.
  pub activation_steps :
      (next.state ≡ s.activation.state) ⊎ (is_step s.activation.state next.state ≡ true)
  activation_steps = advances.step

  -- An active activation stays active, whatever is called.
  pub active_is_final : is_active s.activation.state ≡ true → next.state ≡ s.activation.state
  active_is_final h = settled s.activation.state next.state h activation_steps
    where
      settled :
          (t u : ActivationState) → is_active t ≡ true → (u ≡ t) ⊎ (is_step t u ≡ true) → u ≡ t
      settled t u h p = ground arith

-- A new activation is sound.
new_activation_sound :
    (after_colon : String → String) (space : String)
    → is_sound (new_activation after_colon space) ≡ true
new_activation_sound after_colon space = refl

-- When no attempt is running, a sound activation that has its history can start reorientation: after
-- a failure, an interruption or a request for a revision there is something to start from.
pub reorientation_can_start :
    (a : Activation) (c : Caller)
    → is_sound a ≡ true
    → (is_reorientation_only a.state || is_history_imported a.state) ≡ true
    → a.reorientation_attempt_in_progress ≡ false
    → is_accepted (start_reorientation a c) ≡ true
unfolding start_reorientation
reorientation_can_start a c h state idle = ground arith
