-- ===== src/Kernel/Commands/Lifecycle.antt =====
-- vsm/kernel/service.py: what the commands do to the Executions that exist.
use mathlib.Core.Path.{subst}
use nanihold_os.Prelude.{
  ap, ℕ, String, ◌≡◌, refl, ◌∙◌, Bool, true, false, not, Option, some, ◌⊎◌, inl, inr, arith, ◌==◌,
  eq_iff, Bool-cases,
}
use nanihold_os.Result.{ok, Ensures, Ensures-ok, Ensures-raise_if, Ensures-require, Ensures-bind}
use nanihold_os.Dict.{Dict, get, put, get-put_self, get-put_ne, map_values, get-map_values, member}
use nanihold_os.Models.Execution.{Execution, ExecutionState, is_requested, is_active}
use nanihold_os.Models.Payload.{PilotReceipt}
use nanihold_os.Models.Event.{ActorType}
use nanihold_os.Activation.{Caller}
use nanihold_os.Kernel.{Kernel, Plan}
use nanihold_os.Kernel.Work.{intervene, pause_of_work, pause_for}
use nanihold_os.Kernel.Executions.{
  create_execution, set_execution_state, record_pilot_execution_receipt, pilot_host_disconnected,
  pause_of_host, is_allowed, judge_receipt,
}
use nanihold_os.Ids.{Platform}
use nanihold_os.Models.Event.{EventEnvelope}
use nanihold_os.Models.Payload.{Payload}
use nanihold_os.Kernel.Commands.{Command, plan_of, execute}
use nanihold_os.Kernel.Commands.Running.{execute-keeps}
use nanihold_os.Kernel.Commands.Frames.{executions_frame, record_agent_name_assignment-Ensures}

-- The command that takes up the receipt of a PilotHost, which has a table of its own.
abbrev pub is_receipt : Command → Bool
is_receipt (Command.record_pilot_execution_receipt _ _) = true
is_receipt _ = false

-- A step of the state: none, one of the table, or, by a receipt only, from requested to succeeded.
abbrev pub Progress : Bool → ExecutionState → ExecutionState → Type 0
Progress by_receipt s t =
    (t ≡ s)
    ⊎ (is_allowed s t ≡ true)
    ⊎ ((by_receipt ≡ true) × (s ≡ ExecutionState.requested) × (t ≡ ExecutionState.succeeded))

abbrev pub is_terminal : ExecutionState → Bool
is_terminal ExecutionState.succeeded = true
is_terminal ExecutionState.failed = true
is_terminal ExecutionState.cancelled = true
is_terminal _ = false

stays :
    (by_receipt : Bool) (s t : ExecutionState)
    → is_terminal s ≡ true
    → Progress by_receipt s t
    → t ≡ s
stays by_receipt s t h (inl same) = same
stays by_receipt s t h (inr (inl allowed)) = ground arith
stays by_receipt s t h (inr (inr (_, requested, _))) = absurd (cc (h, ap is_terminal requested))

-- One Execution before and after a command.
pub record Succession (by_receipt : Bool) (e f : Execution) : Type 0 where
  pub state : Progress by_receipt e.state f.state
  pub id : f.execution_id ≡ e.execution_id
  pub data_space : f.data_space_id ≡ e.data_space_id
  pub work_item : f.work_item_id ≡ e.work_item_id
  pub node : f.node_id ≡ e.node_id
  pub pilot : f.pilot_id ≡ e.pilot_id
  pub host : f.pilot_host_id ≡ e.pilot_host_id
  pub candidate : f.model_candidate_key ≡ e.model_candidate_key

-- Every Execution of `d` is still in `d'`, as a successor of what it was.
abbrev pub Follows : Bool → Dict Execution → Dict Execution → Type 0
Follows by_receipt d d' =
    (id : String) (e : Execution)
    → get d id ≡ some e
    → (f : Execution) × (get d' id ≡ some f) × Succession by_receipt e f

Succession-refl : (b : Bool) (e : Execution) → Succession b e e
Succession-refl b e = record {
  state = inl refl;
  id = refl;
  data_space = refl;
  work_item = refl;
  node = refl;
  pilot = refl;
  host = refl;
  candidate = refl;
}

Follows-refl : (b : Bool) (d : Dict Execution) → Follows b d d
Follows-refl b d id e h = (e, h, Succession-refl b e)

Follows-put :
    (b : Bool) (d : Dict Execution) (x : String) (e f : Execution)
    → get d x ≡ some e
    → Succession b e f
    → Follows b d (put d x f)
Follows-put b d x e f found s id g h = elim (Bool-cases (x == id)) [
  | inl same ↦
      let p = (eq_iff x id).0 same in
      (
        f,
        subst (λ j. get (put d x f) j ≡ some f) p (get-put_self d x f),
        subst (λ z. Succession b z f) (cc (found, ap (get d) p, h)) s,
      )
  | inr other ↦
      (g, get-put_ne d x id f (λ p. cc (other, (eq_iff x id).1 p)) ∙ h, Succession-refl b g)
]

Follows-put_new :
    (b : Bool) (d : Dict Execution) (x : String) (f : Execution)
    → member d x ≡ false
    → Follows b d (put d x f)
Follows-put_new b d x f absent id g h = (
  g,
  get-put_ne d x id f (λ p. let h' = ap (get d) p ∙ h in cc (rw h' at absent)) ∙ h,
  Succession-refl b g,
)

Follows-map_values :
    (b : Bool) (d : Dict Execution) (f : Execution → Execution)
    → ((e : Execution) → Succession b e (f e))
    → Follows b d (map_values f d)
Follows-map_values b d f step id e h = (f e, get-map_values f id d ∙ rw h, step e)

pause-Succession :
    (b : Bool) (reason : String) (e : Execution)
    → is_active e.state ≡ true
    → Succession b e (pause_for reason e)
pause-Succession b reason e h = ground arith

pause_of_work-Succession :
    (b : Bool) (id : String) (e : Execution) → Succession b e (pause_of_work id e)
pause_of_work-Succession b id e = ground arith

pause_of_host-Succession :
    (b : Bool) (id : String) (e : Execution) → Succession b e (pause_of_host id e)
pause_of_host-Succession b id e = ground arith

rename-Succession :
    (b : Bool) (e : Execution) (name : Option String)
    → Succession b e (record e { agent_name = name })
rename-Succession b e name = record {
  state = inl refl;
  id = refl;
  data_space = refl;
  work_item = refl;
  node = refl;
  pilot = refl;
  host = refl;
  candidate = refl;
}

set-Succession :
    (e : Execution) (s : ExecutionState) (reason : Option String)
    → not (is_allowed e.state s) ≡ false
    → Succession false e (record e { state = s; pause_reason = reason })
set-Succession e s reason h = record {
  state = inr (inl (transition e.state s h));
  id = refl;
  data_space = refl;
  work_item = refl;
  node = refl;
  pilot = refl;
  host = refl;
  candidate = refl;
}
  where
    transition : (s t : ExecutionState) → not (is_allowed s t) ≡ false → is_allowed s t ≡ true
    transition s t h = ground arith

receipt-Succession :
    (e : Execution) (r : PilotReceipt) (n : ExecutionState × Option String)
    → not (is_requested e.state) ≡ false
    → judge_receipt r ≡ ok n
    → Succession true e
        (record e { state = n.0; provider_session_id = r.provider_session_id; pause_reason = n.1 })
receipt-Succession e r n h j = record {
  state = judged e.state n h j;
  id = refl;
  data_space = refl;
  work_item = refl;
  node = refl;
  pilot = refl;
  host = refl;
  candidate = refl;
}
  where
    judged :
        (s : ExecutionState) (n : ExecutionState × Option String)
        → not (is_requested s) ≡ false
        → judge_receipt r ≡ ok n
        → Progress true s n.0
    judged ExecutionState.requested (ExecutionState.succeeded, _) h j = inr (inr (refl, refl, refl))
    judged ExecutionState.requested (ExecutionState.failed, _) h j = inr (inl refl)
    judged ExecutionState.requested (ExecutionState.paused, _) h j = inr (inl refl)
    judged s n h j = ground arith

abbrev Goes : Bool → Kernel → Plan → Type 0
Goes b k p = (id : String) → Follows b k.registry.executions (p.next id).executions

ruleset steps = (Ensures-ok, Ensures-raise_if, Ensures-require, Ensures-bind)

create-Goes :
    (k : Kernel) (e : Execution) (c : Caller) → Ensures (Goes false k) (create_execution k e c)
unfolding create_execution
create-Goes k e c = search (steps, Follows-put_new) depth 24

set-Goes :
    (k : Kernel) (id : String) (s : ExecutionState) (a : ActorType) (r : Option String) (c : Caller)
    → Ensures (Goes false k) (set_execution_state k id s a r c)
unfolding set_execution_state
set-Goes k id s a r c = search (steps, Follows-put, set-Succession) depth 24

receipt-Goes :
    (k : Kernel) (id : String) (r : PilotReceipt) (c : Caller)
    → Ensures (Goes true k) (record_pilot_execution_receipt k id r c)
unfolding record_pilot_execution_receipt
receipt-Goes k id r c = search (steps, Follows-put, receipt-Succession) depth 24

execution_lifecycle_plan :
    (k : Kernel) (command : Command) (c : Caller)
    → Ensures (Goes (is_receipt command) k) (plan_of k command c)
unfolding plan_of
execution_lifecycle_plan k (Command.create_execution e) c = create-Goes k e c
execution_lifecycle_plan k (Command.set_execution_state id s a r) c = set-Goes k id s a r c
execution_lifecycle_plan k (Command.record_pilot_execution_receipt id r) c = receipt-Goes k id r c
execution_lifecycle_plan k (Command.pilot_host_disconnected host) c =
    unfold pilot_host_disconnected in
    Ensures-ok (λ _. Follows-map_values _ _ _ (pause_of_host-Succession _ host))
execution_lifecycle_plan k (Command.intervene work reason) c =
    unfold intervene in search (steps, Follows-map_values, pause_of_work-Succession) depth 12
execution_lifecycle_plan k (Command.record_agent_name_assignment a f) c =
    record_agent_name_assignment-Ensures (Goes false k) k a f c
      (λ e found _. Follows-put _ _ _ e _ found (rename-Succession _ e _))
execution_lifecycle_plan k command c =
    unfold plan_of in
    executions_frame (Follows _ k.registry.executions) k command c refl (Follows-refl _ _)

-- Every command leaves every Execution in place, with its id, DataSpace, WorkItem, node, pilot, host
-- and model candidate, and in the state that it had or in one to which the table of
-- `set_execution_state` leads from it; only `record_pilot_execution_receipt` also takes an Execution
-- from requested to succeeded.
pub execution_lifecycle :
    (dump : EventEnvelope Payload → String) (platform : Platform) (now : ℕ) (command : Command)
    (c : Caller) (k : Kernel)
    → Follows
        (is_receipt command)
        k.registry.executions
        (execute dump platform now command c k).1.registry.executions
execution_lifecycle dump platform now command c k =
    execute-keeps dump platform
      (λ r. Follows (is_receipt command) k.registry.executions r.executions) now command c k
      (Follows-refl _ _) (execution_lifecycle_plan k command c)

-- An Execution that has succeeded, failed or been cancelled keeps its state under every command.
pub terminal_is_final :
    (dump : EventEnvelope Payload → String) (platform : Platform) (now : ℕ) (command : Command)
    (c : Caller) (k : Kernel) (id : String) (e : Execution)
    → get k.registry.executions id ≡ some e
    → is_terminal e.state ≡ true
    → (f : Execution) × (get (execute dump platform now command c k).1.registry.executions id
        ≡ some f)
      × (f.state ≡ e.state)
terminal_is_final dump platform now command c k id e found terminal =
    let (f, found', s) = execution_lifecycle dump platform now command c k id e found in
    (f, found', stays (is_receipt command) e.state f.state terminal s.state)
