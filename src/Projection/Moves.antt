-- ===== src/Projection/Moves.antt =====
-- vsm/projection.py: the replay of the events that the activation records.
use nanihold_os.Prelude.{
  ℕ, String, ◌≡◌, refl, Bool, true, false, not, ◌||◌, Option, none, some, List, arith, ◌==◌, eq_iff,
}
use nanihold_os.Result.{
  Result, ok, err, Ensures, Ensures-ok, Ensures-err, Ensures-raise_if, Ensures-require,
  Ensures-bind, Ensures-if, ◌>>=◌,
}
use nanihold_os.Dict.{empty}
use nanihold_os.Models.Event.{EventEnvelope, pilot}
use nanihold_os.Models.Payload.{Payload}
use nanihold_os.Models.Activation.{
  ActivationState, ReorientationRevisionReason, HistoryImportReceipt, ReorientationAssessment,
  is_uncommissioned, is_reorientation_only,
}
use nanihold_os.Activation.{Activation, Caller, Move}
use nanihold_os.Activation.Commands.{
  Registration, already_imported, to_record, register_history_import, start_reorientation,
  start_event, in_attempt, record_reorientation_failure, interrupt_reorientation_attempt,
  end_attempt, by_ref, process_restart_interrupted_attempt, record_reorientation_session_checkpoint,
  request_assessment_revision, approve, record_reorientation_usage, Requester,
}
use nanihold_os.Activation.Assessment.{submit_assessment}
use nanihold_os.Activation.Methods.{Method, move_of, moving, recorded}
use nanihold_os.Activation.Progress.{in_attempt-facts}
use nanihold_os.Projection.{external_stream_prefix, is_milestone}
use nanihold_os.Projection.Milestones.{
  on_milestone, on_reorientation_started, on_reorientation_session_checkpointed,
  on_reorientation_attempt_interrupted, on_reorientation_assessment_revision_requested,
  on_history_import_verified,
}

-- Before the import of the history no attempt has been made.
pub record IsIdle (a : Activation) : Type 0 where
  pub attempt : a.reorientation_attempt_in_progress ≡ false
  pub started : a.reorientation_attempt_started_stream_version ≡ none
  pub pending : a.pending_reorientation_revision_reason ≡ none

-- The handler of the move's event, with the version that it sets, writes what the move writes.
pub record IsReplayed (a : Activation) (m : Move) : Type 0 where
  pub internal : external_stream_prefix m.event_type ≡ none
  pub milestone : is_milestone m.payload ≡ true
  pub commissioned :
      (e : EventEnvelope Payload) (cursor version : ℕ)
      → is_uncommissioned (m.write e cursor (record a { version = version })).state ≡ false
  pub space :
      (e : EventEnvelope Payload) (cursor version : ℕ)
      → (m.write e cursor (record a { version = version })).data_space_id ≡ a.data_space_id
  pub stream :
      (e : EventEnvelope Payload) (cursor version : ℕ)
      → (m.write e cursor (record a { version = version })).stream_id ≡ a.stream_id
  pub version :
      (e : EventEnvelope Payload) (cursor version : ℕ)
      → (m.write e cursor (record a { version = version })).version ≡ version
  pub written :
      (e : EventEnvelope Payload) (cursor : ℕ)
      → (on_milestone cursor e m.payload a >>= (λ b. ok (record b { version = e.stream_version })))
        ≡ ok (m.write e cursor (record a { version = e.stream_version }))

abbrev IsRegistered : Activation → Registration → Type 0
IsRegistered a already_imported = Unit
IsRegistered a (to_record m) = IsReplayed a m

replayed :
    (a : Activation) (m : Move)
    → external_stream_prefix m.event_type ≡ none
    → is_milestone m.payload ≡ true
    → ((e : EventEnvelope Payload) (cursor version : ℕ)
        → is_uncommissioned (m.write e cursor (record a { version = version })).state ≡ false)
    → ((e : EventEnvelope Payload) (cursor version : ℕ)
        → (m.write e cursor (record a { version = version })).data_space_id ≡ a.data_space_id)
    → ((e : EventEnvelope Payload) (cursor version : ℕ)
        → (m.write e cursor (record a { version = version })).stream_id ≡ a.stream_id)
    → ((e : EventEnvelope Payload) (cursor version : ℕ)
        → (m.write e cursor (record a { version = version })).version ≡ version)
    → ((e : EventEnvelope Payload) (cursor : ℕ)
        → (on_milestone cursor e m.payload a
            >>= (λ b. ok (record b { version = e.stream_version })))
          ≡ ok (m.write e cursor (record a { version = e.stream_version })))
    → IsReplayed a m
replayed a m h q r x y z w = record {
  internal = h;
  milestone = q;
  commissioned = r;
  space = x;
  stream = y;
  version = z;
  written = w;
}

ruleset rules = (Ensures-ok, Ensures-raise_if, Ensures-require, Ensures-bind, replayed, refl)

Ensures-in_attempt :
    (a : Activation) (P : Move → Type 0) (m n : String) (f : Unit {0} → Result Move)
    → (is_uncommissioned a.state ≡ false → Ensures P (f tt))
    → Ensures P (in_attempt a m n >>= f)
Ensures-in_attempt a P m n f k =
    Ensures-bind (in_attempt a m n) f
      (λ u h. k (reorienting a.state (in_attempt-facts a m n u h).0))
  where
    reorienting :
        (s : ActivationState) → is_reorientation_only s ≡ true → is_uncommissioned s ≡ false
    reorienting s h = ground arith

-- The three events that start an attempt have one handler.
started :
    (a : Activation) (v : String × Payload)
    → start_event a.state a.reorientation_error a.pending_reorientation_revision_reason ≡ some v
    → (external_stream_prefix v.0 ≡ none)
      × (is_milestone v.1 ≡ true)
      × ((e : EventEnvelope Payload) (cursor : ℕ)
          → on_milestone cursor e v.1 a ≡ ok (on_reorientation_started e.stream_version a))
unfolding on_milestone
started a v h = opened a.state a.reorientation_error a.pending_reorientation_revision_reason h
  where
    opened :
        (s : ActivationState) (f : Option String) (r : Option ReorientationRevisionReason)
        → start_event s f r ≡ some v
        → (external_stream_prefix v.0 ≡ none)
          × (is_milestone v.1 ≡ true)
          × ((e : EventEnvelope Payload) (cursor : ℕ)
              → on_milestone cursor e v.1 a ≡ ok (on_reorientation_started e.stream_version a))
    opened ActivationState.history_imported f r h =
        let p : v ≡ (
          "reorientation_started",
          Payload.reorientation_started ActivationState.reorientation_only,
        ) =
          cc in
        rw p (refl, refl, λ e cursor. refl)
    opened ActivationState.reorientation_only (some x) r h =
        let p : v ≡ (
          "reorientation_retry_started",
          Payload.reorientation_retry_started ActivationState.reorientation_only x,
        ) =
          cc in
        rw p (refl, refl, λ e cursor. refl)
    opened ActivationState.reorientation_only none (some x) h =
        let p : v ≡ (
          "reorientation_revision_retry_started",
          Payload.reorientation_revision_retry_started ActivationState.reorientation_only x,
        ) =
          cc in
        rw p (refl, refl, λ e cursor. refl)
    opened ActivationState.reorientation_only none none h = absurd (cc)
    opened ActivationState.uncommissioned f r h = absurd (cc)
    opened ActivationState.awaiting_owner_confirmation f r h = absurd (cc)
    opened ActivationState.active f r h = absurd (cc)

module _ (a : Activation) (c : Caller) where
  failure-IsReplayed :
      (code : String) → Ensures (IsReplayed a) (record_reorientation_failure a code c)
  unfolding record_reorientation_failure on_milestone
  failure-IsReplayed code = search (Ensures-ok, Ensures-in_attempt, replayed, refl) depth 24

  interrupt-IsReplayed :
      (code : String) → Ensures (IsReplayed a) (interrupt_reorientation_attempt a code c)
  unfolding interrupt_reorientation_attempt on_milestone
  interrupt-IsReplayed code =
      let handled : not (code == process_restart_interrupted_attempt) ≡ false
          → (e : EventEnvelope Payload) (cursor : ℕ)
          → (on_reorientation_attempt_interrupted code a
              >>= (λ b. ok (record b { version = e.stream_version })))
            ≡ ok (record (end_attempt code a) { version = e.stream_version }) =
        λ q e cursor. rw q refl in
      search (Ensures-ok, Ensures-raise_if, Ensures-in_attempt, replayed, handled, refl) depth 24

  checkpoint-IsReplayed :
      (session : String)
      → Ensures (IsReplayed a) (record_reorientation_session_checkpoint a session c)
  unfolding record_reorientation_session_checkpoint on_milestone
  checkpoint-IsReplayed session =
      let handled : (session == "") ≡ false
          → (e : EventEnvelope Payload) (cursor : ℕ)
          → (on_reorientation_session_checkpointed session a
              >>= (λ b. ok (record b { version = e.stream_version })))
            ≡ ok (record a {
              reorientation_provider_session_id = some session;
              version = e.stream_version;
            }) =
        λ q e cursor. rw q refl in
      search (Ensures-ok, Ensures-raise_if, Ensures-in_attempt, replayed, handled, refl) depth 24

  usage-IsReplayed : (i o : ℕ) → Ensures (IsReplayed a) (record_reorientation_usage a i o c)
  unfolding record_reorientation_usage on_milestone
  usage-IsReplayed i o =
      let there : (not (is_reorientation_only a.state) || not a.reorientation_attempt_in_progress)
            ≡ false
          → is_uncommissioned a.state ≡ false =
        λ q. ground arith in
      search (rules, there) depth 24

  start-IsReplayed : Ensures (IsReplayed a) (start_reorientation a c)
  unfolding start_reorientation
  start-IsReplayed =
      let leaf : (v : String × Payload)
          → start_event a.state a.reorientation_error a.pending_reorientation_revision_reason
            ≡ some v
          → IsReplayed a (record {
            event_type = v.0;
            payload = v.1;
            actor_type = pilot;
            caller = c;
            write = λ event cursor s. on_reorientation_started event.stream_version s;
          }) =
        λ v h.
          let (internal, milestone, handled) = started a v h in
          replayed a _ internal milestone (λ e cursor version. refl) (λ e cursor version. refl)
            (λ e cursor version. refl) (λ e cursor version. refl)
            (λ e cursor. rw (handled e cursor) refl) in
      search (Ensures-ok, Ensures-raise_if, Ensures-require, leaf) depth 24

  submit-IsReplayed :
      (decimal : ℕ → String) (s : ReorientationAssessment) (xs ys : List String) (b : Bool)
      → Ensures (IsReplayed a) (submit_assessment decimal a s xs ys b c)
  unfolding submit_assessment on_milestone
  submit-IsReplayed decimal s xs ys b =
      let leaf : IsReplayed a (record {
        event_type = "reorientation_assessment_accepted";
        payload =
            Payload.reorientation_assessment_accepted s ActivationState.awaiting_owner_confirmation;
        actor_type = pilot;
        caller = c;
        write = λ event cursor t. record t {
          assessment = some s;
          state = ActivationState.awaiting_owner_confirmation;
          pending_reorientation_revision_reason = none;
          reorientation_attempt_in_progress = false;
          reorientation_attempt_started_stream_version = none;
        };
      }) =
        replayed a _ refl refl (λ e cursor version. refl) (λ e cursor version. refl)
          (λ e cursor version. refl) (λ e cursor version. refl) (λ e cursor. refl) in
      search (Ensures-ok, Ensures-raise_if, Ensures-require, Ensures-bind, leaf) depth 40 fits
        100000

  revision-IsReplayed :
      (reason : ReorientationRevisionReason) (r : Requester)
      → Ensures (IsReplayed a) (request_assessment_revision a reason r c)
  unfolding request_assessment_revision on_milestone
  revision-IsReplayed reason r =
      let handled : (prior : ReorientationAssessment)
          → a.assessment ≡ some prior
          → (e : EventEnvelope Payload) (cursor : ℕ)
          → (on_reorientation_assessment_revision_requested prior.assessment_id reason
                ActivationState.reorientation_only a
              >>= (λ b. ok (record b { version = e.stream_version })))
            ≡ ok (record a {
              version = e.stream_version;
              assessment = none;
              reorientation_error = none;
              pending_reorientation_revision_reason = some reason;
              reorientation_attempt_in_progress = false;
              reorientation_attempt_started_stream_version = none;
              state = ActivationState.reorientation_only;
            }) =
        λ prior h e cursor. rw (h, (eq_iff prior.assessment_id prior.assessment_id).1 refl) refl in
      search (rules, handled) depth 24

  approve-IsReplayed : (id : String) (at : ℕ) → Ensures (IsReplayed a) (approve a id at c)
  unfolding approve on_milestone
  approve-IsReplayed id at = search (rules) depth 24

  register-IsRegistered :
      (receipt : HistoryImportReceipt) (conversation : String)
      → (is_uncommissioned a.state ≡ true → IsIdle a)
      → Ensures (IsRegistered a) (register_history_import a receipt conversation c)
  unfolding register_history_import on_milestone
  register-IsRegistered receipt conversation idle =
      let handled : not (is_uncommissioned a.state) ≡ false
          → (conversation == "") ≡ false
          → (e : EventEnvelope Payload) (cursor : ℕ)
          → (on_history_import_verified receipt conversation cursor a
              >>= (λ b. ok (record b { version = e.stream_version })))
            ≡ ok (record a {
              version = e.stream_version;
              import_receipt = some receipt;
              reorientation_conversation_id = some conversation;
              sessions = by_ref receipt.sessions empty;
              state = ActivationState.history_imported;
              import_event_cursor = cursor;
            }) =
        λ q named e cursor. ground (arith, idle) in
      search (rules, Ensures-err, Ensures-if, handled) depth 24

  moving-IsReplayed :
      (r : Result Move) (m : Move)
      → Ensures (IsReplayed a) r
      → moving r ≡ ok (some m)
      → IsReplayed a m
  moving-IsReplayed (err e) m h p = absurd (cc)
  moving-IsReplayed (ok n) m h p = h.at m (cc)

  recorded-IsReplayed :
      (r : Result Registration) (m : Move)
      → Ensures (IsRegistered a) r
      → (r >>= λ registration. ok (recorded registration)) ≡ ok (some m)
      → IsReplayed a m
  recorded-IsReplayed (err e) m h p = absurd (cc)
  recorded-IsReplayed (ok already_imported) m h p = absurd (cc)
  recorded-IsReplayed (ok (to_record n)) m h p = h.at (to_record m) (cc)

  -- When no attempt was made before the import of the history, for every method that makes a move:
  -- the handler of its event, with the version that it sets, computes the state that the method
  -- leaves. The event is one that the projection takes up, and the move leaves uncommissioned state
  -- and keeps the DataSpace, the stream and the version that was counted.
  pub move_of-IsReplayed :
      (decimal : ℕ → String) (method : Method) (m : Move)
      → (is_uncommissioned a.state ≡ true → IsIdle a)
      → move_of decimal a method c ≡ ok (some m)
      → IsReplayed a m
  unfolding move_of
  move_of-IsReplayed decimal (Method.register_history_import r s) m idle p =
      recorded-IsReplayed _ m (register-IsRegistered r s idle) p
  move_of-IsReplayed decimal Method.start_reorientation m idle p =
      moving-IsReplayed _ m start-IsReplayed p
  move_of-IsReplayed decimal (Method.record_reorientation_failure code) m idle p =
      moving-IsReplayed _ m (failure-IsReplayed code) p
  move_of-IsReplayed decimal (Method.interrupt_reorientation_attempt code) m idle p =
      moving-IsReplayed _ m (interrupt-IsReplayed code) p
  move_of-IsReplayed decimal (Method.record_reorientation_session_checkpoint s) m idle p =
      moving-IsReplayed _ m (checkpoint-IsReplayed s) p
  move_of-IsReplayed decimal (Method.submit_assessment s xs ys b) m idle p =
      moving-IsReplayed _ m (submit-IsReplayed decimal s xs ys b) p
  move_of-IsReplayed decimal (Method.request_assessment_revision reason r) m idle p =
      moving-IsReplayed _ m (revision-IsReplayed reason r) p
  move_of-IsReplayed decimal (Method.approve id at) m idle p =
      moving-IsReplayed _ m (approve-IsReplayed id at) p
  move_of-IsReplayed decimal (Method.record_reorientation_usage i o) m idle p =
      moving-IsReplayed _ m (usage-IsReplayed i o) p
