-- ===== src/Projection/History.antt =====
-- vsm/kernel/service.py, vsm/activation/service.py, vsm/projection.py: the Kernels that commands,
-- promotions, imports of Work Graphs, methods of the activation and queries of the history lead to, and the replay of their
-- ledgers.

use nanihold_os.Prelude.{ℕ, String, ◌≢◌, List}
use nanihold_os.Ids.{Platform}
use nanihold_os.Models.Work.{WorkItem}
use nanihold_os.Models.Activation.{CurrentWorkGraphSnapshot}
use nanihold_os.Models.Event.{EventEnvelope}
use nanihold_os.Models.Payload.{Payload}
use nanihold_os.Ledger.Place.{TellsPlace}
use nanihold_os.Activation.{Caller}
use nanihold_os.Activation.Queries.{HistoryToolService, ReadHistoryAction, resolve}
use nanihold_os.Activation.Methods.{Method, perform}
use nanihold_os.Kernel.{Kernel}
use nanihold_os.Kernel.Commands.{Command, plan_of, execute}
use nanihold_os.Kernel.Notifications.{promote_agent_notification}
use nanihold_os.Kernel.Import.{plan_import, import_current_work_graph}
use nanihold_os.Kernel.Recording.{IsElsewhere}
use nanihold_os.Kernel.Reachable.{service_of, with_service}
use nanihold_os.Projection.Tracking.{Tracked}
use nanihold_os.Projection.Steps.{
  command-Tracked, promotion-Tracked, import_after-Tracked, method-Tracked,
}
use nanihold_os.Projection.Queries.{resolve-Tracked}

-- The Kernels that the operations lead to from `start`. A command, a promotion or an import records
-- in other streams than the activation's.
module _ (dump : EventEnvelope Payload → String) (platform : Platform) (tells : TellsPlace dump)
    (decimal : ℕ → String) (digest : CurrentWorkGraphSnapshot → String) {J : Type 0}
    (tools : HistoryToolService J) (encode : J → List ℕ) (hash : List ℕ → String)
    (start : Kernel) where
  pub data History : Kernel → Type 0 where
    begun : History start
    commanded :
        (k : Kernel) (now : ℕ) (command : Command) (c : Caller)
        → IsElsewhere dump platform tells k (plan_of k command c)
        → History k
        → History (execute dump platform now command c k).1
    promoted :
        (k : Kernel) (id : String) (w : WorkItem) (c : Caller) (now later : ℕ)
        → w.work_item_id ≢ k.activation.stream_id
        → id ≢ k.activation.stream_id
        → History k
        → History (promote_agent_notification dump platform id w c now later k).1
    imported :
        (k : Kernel) (s : CurrentWorkGraphSnapshot) (c : Caller) (now : ℕ)
        → IsElsewhere dump platform tells k (plan_import k s (digest s) c)
        → History k
        → History (import_current_work_graph dump platform digest s c now k).1
    activated :
        (k : Kernel) (now : ℕ) (method : Method) (c : Caller)
        → History k
        → History (with_service k (perform dump platform decimal now method c (service_of k)).1)
    queried :
        (k : Kernel) (now : ℕ) (action : ReadHistoryAction) (c : Caller)
        → History k
        → History
            (with_service k (resolve tools encode hash dump platform now action c (service_of k)).1)

  pub History-Tracked : Tracked start start → (k : Kernel) → History k → Tracked start k
  unfolding import_current_work_graph
  History-Tracked h _ begun = h
  History-Tracked h _ (commanded k now command c other r) =
      command-Tracked dump platform tells start now command c k (History-Tracked h k r) other
  History-Tracked h _ (promoted k id w c now later other elsewhere r) =
      promotion-Tracked dump platform tells start id w c now later k (History-Tracked h k r) other
        elsewhere
  History-Tracked h _ (imported k s c now other r) =
      import_after-Tracked dump platform tells start digest k.activation.work_graph_snapshot_id s c
        now k (History-Tracked h k r) other
  History-Tracked h _ (activated k now method c r) =
      method-Tracked dump platform tells start decimal now method c k (History-Tracked h k r)
  History-Tracked h _ (queried k now action c r) =
      resolve-Tracked tools encode hash dump platform tells start now action c k
        (History-Tracked h k r)
