-- ===== src/Kernel/Commands/Pauses.antt =====
-- vsm/kernel/service.py: the reasons of paused Executions.
use nanihold_os.Prelude.{ℕ, String, ◌≡◌, refl, false, not, ◌&&◌, Option, some, arith}
use nanihold_os.Result.{
  ok, Ensures, Ensures-ok, Ensures-err, Ensures-if, Ensures-raise_if, Ensures-require, Ensures-bind,
}
use nanihold_os.Dict.{Dict, get, put, Every, Every-put, Every-map_values}
use nanihold_os.Models.Execution.{Execution, ExecutionState, is_paused, is_fresh}
use nanihold_os.Models.Event.{ActorType}
use nanihold_os.Models.Payload.{PilotReceipt}
use nanihold_os.Activation.{Caller}
use nanihold_os.Kernel.{Kernel, Plan}
use nanihold_os.Kernel.Work.{intervene, pause_of_work}
use nanihold_os.Kernel.Executions.{
  create_execution, set_execution_state, record_pilot_execution_receipt, pilot_host_disconnected,
  pause_of_host, has_text, judge_receipt,
}
use nanihold_os.Ids.{Platform}
use nanihold_os.Models.Event.{EventEnvelope}
use nanihold_os.Models.Payload.{Payload}
use nanihold_os.Kernel.Commands.{Command, plan_of, execute}
use nanihold_os.Kernel.Commands.Running.{execute-keeps}
use nanihold_os.Kernel.Commands.Frames.{executions_frame, record_agent_name_assignment-Ensures}

-- If the Execution is paused, it has a reason that is not empty.
abbrev pub HasReason : Execution → Type 0
HasReason e = (is_paused e.state && not (has_text e.pause_reason)) ≡ false

abbrev pub PausesHaveReasons : Dict Execution → Type 0
PausesHaveReasons = Every (λ id e. HasReason e)

fresh-HasReason : (e : Execution) → not (is_fresh e.state) ≡ false → HasReason e
fresh-HasReason e h = ground arith

judged-HasReason :
    (r : PilotReceipt)
    → Ensures
        (λ (n : ExecutionState × Option String). (is_paused n.0 && not (has_text n.1)) ≡ false)
        (judge_receipt r)
judged-HasReason r = search (Ensures-ok, Ensures-err, Ensures-raise_if, Ensures-if, refl) depth 12

receipt-HasReason :
    (e : Execution) (r : PilotReceipt) (n : ExecutionState × Option String)
    → judge_receipt r ≡ ok n
    → HasReason
        (record e { state = n.0; provider_session_id = r.provider_session_id; pause_reason = n.1 })
receipt-HasReason e r n j = (judged-HasReason r).at n j

pause_of_work-HasReason :
    (work : String) (e : Execution) → HasReason e → HasReason (pause_of_work work e)
pause_of_work-HasReason work e h = ground arith

pause_of_host-HasReason :
    (host : String) (e : Execution) → HasReason e → HasReason (pause_of_host host e)
pause_of_host-HasReason host e h = ground arith

ruleset steps = (Ensures-ok, Ensures-raise_if, Ensures-require, Ensures-bind)

abbrev Keeps : Kernel → Plan → Type 0
Keeps k p = (id : String) → PausesHaveReasons (p.next id).executions

module _ (k : Kernel) (h : PausesHaveReasons k.registry.executions) (c : Caller) where
  create-Keeps : (e : Execution) → Ensures (Keeps k) (create_execution k e c)
  unfolding create_execution
  create-Keeps e =
      let leaf : not (is_fresh e.state) ≡ false
          → PausesHaveReasons (put k.registry.executions e.execution_id e) =
        λ q. Every-put k.registry.executions e.execution_id e h (fresh-HasReason e q) in
      search (Ensures-ok, Ensures-raise_if, Ensures-require, leaf) depth 24

  set-Keeps :
      (id : String) (s : ExecutionState) (a : ActorType) (r : Option String)
      → Ensures (Keeps k) (set_execution_state k id s a r c)
  unfolding set_execution_state
  set-Keeps id s a r = search (steps, Every-put) depth 24

  receipt-Keeps :
      (id : String) (r : PilotReceipt) → Ensures (Keeps k) (record_pilot_execution_receipt k id r c)
  unfolding record_pilot_execution_receipt
  receipt-Keeps id r = search (steps, Every-put, receipt-HasReason) depth 24

  paused_has_reason_plan : (command : Command) → Ensures (Keeps k) (plan_of k command c)
  unfolding plan_of
  paused_has_reason_plan (Command.create_execution e) = create-Keeps e
  paused_has_reason_plan (Command.set_execution_state id s a r) = set-Keeps id s a r
  paused_has_reason_plan (Command.record_pilot_execution_receipt id r) = receipt-Keeps id r
  paused_has_reason_plan (Command.pilot_host_disconnected host) =
      unfold pilot_host_disconnected in
      Ensures-ok
        (λ _. Every-map_values _ _ (λ id e found. pause_of_host-HasReason host e (h.at id e found)))
  paused_has_reason_plan (Command.intervene work reason) =
      unfold intervene in
      search
        (
          steps,
          Every-map_values,
          (λ (id : String) (e : Execution) (found : get k.registry.executions id ≡ some e).
              pause_of_work-HasReason work e (h.at id e found)),
        )
        depth 12
  paused_has_reason_plan (Command.record_agent_name_assignment a f) =
      record_agent_name_assignment-Ensures (Keeps k) k a f c
        (λ e found _. Every-put _ _ _ h (h.at _ e found))
  paused_has_reason_plan command = executions_frame PausesHaveReasons k command c refl h

-- If every paused Execution has a reason that is not empty, so it is after every command, also one
-- that raises.
pub paused_has_reason :
    (dump : EventEnvelope Payload → String) (platform : Platform) (now : ℕ) (command : Command)
    (c : Caller) (k : Kernel)
    → PausesHaveReasons k.registry.executions
    → PausesHaveReasons (execute dump platform now command c k).1.registry.executions
paused_has_reason dump platform now command c k h =
    execute-keeps dump platform (λ r. PausesHaveReasons r.executions) now command c k h
      (paused_has_reason_plan k h c command)
