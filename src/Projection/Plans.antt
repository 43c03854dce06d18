-- ===== src/Projection/Plans.antt =====
-- vsm/kernel/service.py, vsm/projection.py: the plans of commands and of imports, whose events the
-- projection takes up.

use nanihold_os.Prelude.{String, ◌≡◌, refl, false, Option, none, some}
use nanihold_os.Result.{Error, ok, Ensures, Ensures-ok, Ensures-raise_if, Ensures-bind}
use nanihold_os.Models.Activation.{CurrentWorkGraphSnapshot}
use nanihold_os.Models.Payload.{Payload}
use nanihold_os.Activation.{Caller}
use nanihold_os.Kernel.{Kernel, Plan}
use nanihold_os.Kernel.Commands.{Command, plan_of}
use nanihold_os.Kernel.Import.{plan_import, put_all, work_key}
use nanihold_os.Kernel.Late.{plan_of-never_late}
use nanihold_os.Kernel.Filing.{IsFiled, Filed, put_all-Filed, plan_of-IsFiled}
use nanihold_os.Projection.{marked, external_stream_prefix, is_milestone}
use nanihold_os.Projection.Kinds.{IsRegistryEvent, plan_of-IsCommandEvent}
use nanihold_os.Projection.Replay.{command-replays, import-Replays}
use nanihold_os.Projection.Commands.{Replays}

-- A plan whose event the projection takes up, and that keeps the registry filed.
pub record IsTracked (k : Kernel) (snapshot : Option String) (p : Plan) : Type 0 where
  pub kind : IsRegistryEvent p.draft.event_type p.draft.payload
  pub replays : Replays k p
  pub filed : (id : String) → IsFiled (p.next id)
  pub quiet : p.raises ≡ none
  pub marks :
      marked p.draft.payload k.activation
      ≡ record (k.activation) { work_graph_snapshot_id = snapshot }

pub command-IsTracked :
    (k : Kernel) (command : Command) (c : Caller) (p : Plan)
    → IsFiled k.registry
    → plan_of k command c ≡ ok p
    → IsTracked k k.activation.work_graph_snapshot_id p
command-IsTracked k command c p h q =
    let event = (plan_of-IsCommandEvent k command c).at p q in
    record {
      kind = event.kind;
      replays = λ now id. command-replays k command c p now id h q;
      filed = (plan_of-IsFiled k h c command).at p q;
      quiet = (plan_of-never_late k command c h).at p q;
      marks = event.unmarked k.activation;
    }

registry_event :
    (t : String) (p : Payload)
    → external_stream_prefix t ≡ none
    → is_milestone p ≡ false
    → IsRegistryEvent t p
registry_event t p h q = record { internal = h; registry = q }

pub import-IsTracked :
    (k : Kernel) (s : CurrentWorkGraphSnapshot) (digest : String) (c : Caller) (p : Plan)
    → IsFiled k.registry
    → plan_import k s digest c ≡ ok p
    → IsTracked k (some s.snapshot_id) p
unfolding plan_import
import-IsTracked k s digest c p h q =
    let facts : Ensures
        (λ (p : Plan).
          IsRegistryEvent p.draft.event_type p.draft.payload
          × ((id : String) → IsFiled (p.next id))
          × (p.raises ≡ none)
          × (marked p.draft.payload k.activation
              ≡ record (k.activation) { work_graph_snapshot_id = some s.snapshot_id }))
        (plan_import k s digest c) =
      let leaf : IsRegistryEvent "current_work_graph_imported"
            (Payload.current_work_graph_imported s)
          × ((id : String)
              → Filed (put_all work_key s.work_items k.registry.work_items) k.registry.findings
                  k.registry.agent_notifications k.registry.agent_name_assignments)
          × (◌≡◌ {A = Option Error} none none)
          × (record (k.activation) { work_graph_snapshot_id = some s.snapshot_id }
              ≡ record (k.activation) { work_graph_snapshot_id = some s.snapshot_id }) =
        (
          registry_event "current_work_graph_imported" (Payload.current_work_graph_imported s) refl
              refl,
          λ (id : String). put_all-Filed s.work_items h,
          refl,
          refl,
        ) in
      search (Ensures-ok, Ensures-raise_if, Ensures-bind, leaf) depth 40 fits 100000 in
    let (kind, filed, quiet, marks) = facts.at p q in
    record {
      kind = kind;
      replays = import-Replays k s digest c p q;
      filed = filed;
      quiet = quiet;
      marks = marks;
    }
