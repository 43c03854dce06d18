-- ===== src/Projection/Replay.antt =====
-- vsm/projection.py: the replay of every command of the Kernel, of the second event of a promotion,
-- and of the import of a Work Graph.
use nanihold_os.Prelude.{ℕ, String, ◌≡◌, ap, ◌∙◌, true, false, some, arith, is_some}
use nanihold_os.Result.{ok}
use nanihold_os.Dict.{get, put, member}
use nanihold_os.Models.Work.{WorkItem}
use nanihold_os.Models.Naming.{AgentNotification}
use nanihold_os.Models.Activation.{CurrentWorkGraphSnapshot}
use nanihold_os.Activation.{Caller}
use nanihold_os.Kernel.{Kernel, Plan, Registry, envelope}
use nanihold_os.Kernel.Commands.{Command, plan_of}
use nanihold_os.Kernel.Notifications.{promotion_plan}
use nanihold_os.Kernel.Import.{plan_import}
use nanihold_os.Kernel.Filing.{IsFiled}
use nanihold_os.Projection.{on_record}
use nanihold_os.Projection.Records.{on_agent_notification_promoted}
use nanihold_os.Projection.Commands
use nanihold_os.Projection.Commands.{Replays}
use nanihold_os.Projection.Receipts

-- On a filed registry, the handler of the event that a command records computes the registry that
-- the command leaves, for every command that its tests accept.
pub command-replays :
    (k : Kernel) (command : Command) (c : Caller) (p : Plan) (now : ℕ) (id : String)
    → IsFiled k.registry
    → plan_of k command c ≡ ok p
    → on_record (envelope k p.draft now id) p.draft.payload k.registry ≡ ok (p.next id)
unfolding plan_of
command-replays k (Command.register_node node) c p now id h q =
    Commands.register_node-Replays k node c p q now id
command-replays k (Command.grant_capability g t) c p now id h q =
    Commands.grant_capability-Replays k g t c p q now id
command-replays k (Command.register_reference_grant g t) c p now id h q =
    Commands.register_reference_grant-Replays k g t c p q now id
command-replays k (Command.reserve_budget b) c p now id h q =
    Commands.reserve_budget-Replays k b c p q now id
command-replays k (Command.create_work_item w) c p now id h q =
    Commands.create_work_item-Replays k w c p q now id
command-replays k (Command.add_dependency w on) c p now id h q =
    Commands.add_dependency-Replays k w on c p q now id
command-replays k (Command.delegate_work_item w node) c p now id h q =
    Commands.delegate-Replays k w node c p q now id
command-replays k (Command.prepare_owner_confirmed_resume w) c p now id h q =
    Commands.prepare_owner_confirmed_resume-Replays k w c p q now id
command-replays k (Command.complete_work_item w e) c p now id h q =
    Commands.complete_work_item-Replays k w e c p q now id
command-replays k (Command.intervene w reason) c p now id h q =
    Commands.intervene-Replays k w reason c p q now id
command-replays k (Command.create_execution e) c p now id h q =
    Commands.create_execution-Replays k e c p q now id
command-replays k (Command.set_execution_state x s a o) c p now id h q =
    Commands.set_execution_state-Replays k x s a o c p q now id
command-replays k (Command.record_pilot_execution_receipt x r) c p now id h q =
    Receipts.receipt-Replays k h c x r p q now id
command-replays k (Command.pilot_host_disconnected host) c p now id h q =
    Commands.host-Replays k host c.idempotency_key p q now id
command-replays k (Command.plan_effect l t) c p now id h q =
    Commands.plan_effect-Replays k l t c p q now id
command-replays k (Command.approve_effect l t) c p now id h q =
    Commands.approve_effect-Replays k l t c p q now id
command-replays k (Command.activate_effect l t) c p now id h q =
    Commands.activate_effect-Replays k l t c p q now id
command-replays k (Command.mark_effect_unknown l) c p now id h q =
    Commands.mark_effect_unknown-Replays k l c p q now id
command-replays k (Command.reconcile_effect l s) c p now id h q =
    Commands.reconcile_effect-Replays k l s c p q now id
command-replays k (Command.record_s3_star_finding f) c p now id h q =
    Commands.record_finding-Replays k f c p q now id
command-replays k (Command.accept_s3_star_risk x node rationale) c p now id h q =
    Receipts.accept-Replays k h c x node rationale p q now id
command-replays k (Command.register_route_snapshot s) c p now id h q =
    Commands.register_route_snapshot-Replays k s c p q now id
command-replays k (Command.approve_route_snapshot s approval) c p now id h q =
    Commands.approve_route_snapshot-Replays k s approval c p q now id
command-replays k (Command.publish_route_snapshot s) c p now id h q =
    Commands.publish_route_snapshot-Replays k s c p q now id
command-replays k (Command.retire_route_snapshot s r o) c p now id h q =
    Commands.retire_route_snapshot-Replays k s r o c p q now id
command-replays k (Command.record_agent_name_assignment a f) c p now id h q =
    Commands.name-Replays k a f c p q now id
command-replays k (Command.register_agent_identity i f) c p now id h q =
    Commands.identity-Replays k i f c p q now id
command-replays k (Command.record_agent_notification n) c p now id h q =
    Commands.notification-Replays k n c p q now id

promoted :
    (r : Registry) (stream work : String) (n : AgentNotification)
    → get r.agent_notifications stream ≡ some n
    → n.requires_work_item ≡ true
    → is_some n.promoted_work_item_id ≡ false
    → member r.work_items work ≡ true
    → on_agent_notification_promoted stream work r
      ≡ ok (record r {
        agent_notifications =
            put r.agent_notifications stream (record n { promoted_work_item_id = some work });
      })
promoted r stream work n found required unpromoted there = ground arith

-- The second event of a promotion, over the Kernel with the WorkItem.
pub promotion-Replays :
    (k : Kernel) (n : AgentNotification) (x : String) (w : WorkItem) (c : Caller)
    → IsFiled k.registry
    → get k.registry.agent_notifications x ≡ some n
    → n.requires_work_item ≡ true
    → is_some n.promoted_work_item_id ≡ false
    → member k.registry.work_items w.work_item_id ≡ true
    → Replays k (promotion_plan k n x w c)
unfolding on_record
promotion-Replays k n x w c h found required unpromoted there now id =
    let own = h.notifications_under_id x n found in
    promoted k.registry n.notification_id w.work_item_id n
      (ap (get k.registry.agent_notifications) own ∙ found) required unpromoted there
    ∙ ap
        (λ z. ok (record (k.registry) {
          agent_notifications =
              put k.registry.agent_notifications z
                (record n { promoted_work_item_id = some w.work_item_id });
        }))
        own

pub import-Replays :
    (k : Kernel) (s : CurrentWorkGraphSnapshot) (digest : String) (c : Caller) (p : Plan)
    → plan_import k s digest c ≡ ok p
    → Replays k p
unfolding on_record plan_import
import-Replays k s digest c p h now id = ground arith
