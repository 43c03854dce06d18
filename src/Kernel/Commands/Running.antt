-- ===== src/Kernel/Commands/Running.antt =====
-- vsm/kernel/service.py: from the plan of a command to its execution. What holds of the registry
-- before a command and of the registry of its plan, holds after it, also when it raises.
use nanihold_os.Prelude.{ℕ, String, refl, Option, none, some}
use nanihold_os.Result.{Result, ok, err, Ensures}
use nanihold_os.Ids.{Platform}
use nanihold_os.Models.Event.{EventEnvelope, StoredEvent}
use nanihold_os.Models.Payload.{Payload}
use nanihold_os.Ledger.{append, finish}
use nanihold_os.Activation.{Caller}
use nanihold_os.Kernel.{
  Kernel, Plan, Registry, envelope, after_append, with_event_id, record_event, write_next, commit,
  run,
}
use nanihold_os.Kernel.Commands.{Command, plan_of, execute}

module _ (dump : EventEnvelope Payload → String) (platform : Platform) where
  after_append-keeps :
      (P : Registry → Type 0) (event : EventEnvelope Payload) (k : Kernel) (p : Plan)
      (r : Result (Option (StoredEvent Payload)))
      → P k.registry
      → ((id : String) → P (p.next id))
      → P
          (write_next dump platform p
            (after_append dump platform event k (finish dump r event k.ledger))).1.registry
  after_append-keeps P event k p (err _) h q = h
  after_append-keeps P event k p (ok (some _)) h q = q event.event_id
  after_append-keeps P event k p (ok none) h q = q event.event_id

  with_id-keeps :
      (P : Registry → Type 0) (now : ℕ) (p : Plan) (k : Kernel) (r : Result String)
      → P k.registry
      → ((id : String) → P (p.next id))
      → P (write_next dump platform p (with_event_id dump platform p.draft now k r)).1.registry
  unfolding append
  with_id-keeps P now p k (err _) h q = h
  with_id-keeps P now p k (ok id) h q = after_append-keeps P (envelope k p.draft now id) k p _ h q

  pub commit-keeps :
      (P : Registry → Type 0) (now : ℕ) (p : Plan) (k : Kernel)
      → P k.registry
      → ((id : String) → P (p.next id))
      → P (commit dump platform now p k).1.registry
  unfolding commit record_event
  commit-keeps P now p k h q = with_id-keeps P now p k _ h q

  pub run-keeps :
      (P : Registry → Type 0) (now : ℕ) (r : Result Plan) (k : Kernel)
      → P k.registry
      → Ensures (λ (p : Plan). (id : String) → P (p.next id)) r
      → P (run dump platform now r k).1.registry
  unfolding run
  run-keeps P now (err _) k h q = h
  run-keeps P now (ok p) k h q = commit-keeps P now p k h (q.at p refl)

  pub execute-keeps :
      (P : Registry → Type 0) (now : ℕ) (command : Command) (c : Caller) (k : Kernel)
      → P k.registry
      → Ensures (λ (p : Plan). (id : String) → P (p.next id)) (plan_of k command c)
      → P (execute dump platform now command c k).1.registry
  unfolding execute
  execute-keeps P now command c k h q = run-keeps P now (plan_of k command c) k h q
