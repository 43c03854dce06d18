-- ===== src/Kernel/Notifications.antt =====
-- vsm/kernel/service.py: agent notifications, and their promotion to a WorkItem. A promotion calls
-- `create_work_item` first, and what that has written stays when the second event is refused.
use nanihold_os.Prelude.{
  ℕ, String, Bool, true, false, not, Option, none, some, ◌==◌, is_some, concat,
}
use nanihold_os.Result.{Result, ok, err, invariant_violation, ◌>>=◌, ◌>>◌, raise_if, require_some}
use nanihold_os.Dict.{get, put, member}
use nanihold_os.Ids.{Platform}
use nanihold_os.Models.Work.{WorkItem}
use nanihold_os.Models.Naming.{AgentNotification, is_agent_to_agent}
use nanihold_os.Models.Event.{EventEnvelope, system}
use nanihold_os.Models.Payload.{Payload}
use nanihold_os.Activation.{Caller}
use nanihold_os.Kernel.{Kernel, Plan, Registry, draft_of, commit, run}
use nanihold_os.Kernel.Names.{agent_name_is_registered}
use nanihold_os.Kernel.Work.{create_work_item}

abbrev sender_is_registered : Registry → Option String → Bool
sender_is_registered r none = false
sender_is_registered r (some sender) = agent_name_is_registered r sender

abbrev check_references : Registry → Option String → Option String → Result (Unit {0})
check_references r (some work_item_id) (some execution_id) = do
  work ←
      require_some (get r.work_items work_item_id)
        "agent-to-agent references must resolve to WorkItem and Execution"
  execution ←
      require_some (get r.executions execution_id)
        "agent-to-agent references must resolve to WorkItem and Execution"
  raise_if (not (execution.work_item_id == work.work_item_id))
      "agent-to-agent WorkItem and Execution references do not match"
check_references r _ _ =
    err (invariant_violation "agent-to-agent messages require WorkItem and Execution references")

unfoldable pub validate_agent_message_identity : Registry → AgentNotification → Result (Unit {0})
validate_agent_message_identity r n = do
  raise_if (not (sender_is_registered r n.sender_agent_name))
      "agent-to-agent sender must be issued by the agent-name registry"
  raise_if (not (agent_name_is_registered r n.recipient_agent_name))
      "agent-to-agent recipient must be issued by the agent-name registry"
  check_references r n.related_work_item_id n.related_execution_id

abbrev pub check_identity : Bool → Registry → AgentNotification → Result (Unit {0})
check_identity true r n = validate_agent_message_identity r n
check_identity false r n = ok tt

-- `notification.related_work_item_id or notification.notification_id`; a reference is never empty.
abbrev correlation : AgentNotification → Option String → String
correlation n none = n.notification_id
correlation n (some work_item_id) = work_item_id

unfoldable pub record_agent_notification : Kernel → AgentNotification → Caller → Result Plan
unfolding validate_agent_message_identity
record_agent_notification k n caller = do
  raise_if (not (n.data_space_id == k.data_space.data_space_id))
      "AgentNotification DataSpace mismatch"
  check_identity (is_agent_to_agent n.source_kind) k.registry n
  raise_if (member k.registry.agent_notifications n.notification_id)
      (concat "AgentNotification already exists: " n.notification_id)
  ok (record {
    draft =
        record (draft_of system n.notification_id "agent_notification_delivered"
          (Payload.agent_notification_delivered n) caller (correlation n n.related_work_item_id)) {
            causation_id = n.related_execution_id;
          };
    next = λ _. record (k.registry) {
      agent_notifications = put k.registry.agent_notifications n.notification_id n;
    };
    raises = none;
  })

-- The tests of `promote_agent_notification` before it creates the WorkItem.
unfoldable pub check_promotion : Kernel → String → WorkItem → Result AgentNotification
check_promotion k notification_id work = do
  n ←
      require_some (get k.registry.agent_notifications notification_id)
        "AgentNotification not found"
  raise_if (not n.requires_work_item)
      "AgentNotification does not satisfy the WorkItem promotion condition"
  raise_if (is_some n.promoted_work_item_id) "AgentNotification is already promoted"
  raise_if (not (work.data_space_id == k.data_space.data_space_id))
      "promoted WorkItem DataSpace mismatch"
  raise_if (work.work_item_id == n.notification_id)
      "promoted WorkItem must have a distinct identity from its notification"
  raise_if (member k.registry.work_items work.work_item_id) "promoted WorkItem already exists"
  ok n

-- The second event, over the state that `create_work_item` has left.
abbrev pub promotion_plan : Kernel → AgentNotification → String → WorkItem → Caller → Plan
promotion_plan k n notification_id work caller = record {
  draft =
      record (draft_of system n.notification_id "agent_notification_promoted"
        (Payload.agent_notification_promoted notification_id work.work_item_id) caller
        work.work_item_id) { causation_id = some n.notification_id };
  next = λ _. record (k.registry) {
    agent_notifications =
        put k.registry.agent_notifications notification_id
          (record n { promoted_work_item_id = some work.work_item_id });
  };
  raises = none;
}

module _ (dump : EventEnvelope Payload → String) (platform : Platform) where
  abbrev pub after_create :
      AgentNotification
      → String
      → WorkItem
      → Caller
      → ℕ
      → Result (EventEnvelope Payload) × Kernel
      → Result (EventEnvelope Payload) × Kernel
  after_create n notification_id work caller now (err e, k) = (err e, k)
  after_create n notification_id work caller now (ok _, k) =
      commit dump platform now (promotion_plan k n notification_id work caller) k

  abbrev pub promote_checked :
      Result AgentNotification
      → String
      → WorkItem
      → Caller
      → ℕ
      → ℕ
      → Kernel
      → Result (EventEnvelope Payload) × Kernel
  promote_checked (err e) notification_id work caller now later k = (err e, k)
  promote_checked (ok n) notification_id work caller now later k =
      let creator : Caller = record caller {
        idempotency_key = concat caller.idempotency_key ":work-item";
      } in
      after_create n notification_id work caller later
        (run dump platform now (create_work_item k work creator) k)

  -- The clock reads `now` for the first event and `later` for the second.
  unfoldable pub promote_agent_notification :
      String → WorkItem → Caller → ℕ → ℕ → Kernel → Result (EventEnvelope Payload) × Kernel
  promote_agent_notification notification_id work caller now later k =
      promote_checked (check_promotion k notification_id work) notification_id work caller now later
        k
