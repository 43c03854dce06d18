-- ===== src/Projection/Records.antt =====
-- vsm/projection.py: the handlers of the events that the Kernel records, over the parts of its state
-- that they write. An event's payload is decoded already, as `model_validate` does it.
use nanihold_os.Prelude.{
  String, Bool, true, false, not, ◌&&◌, ◌||◌, Option, none, some, [], ◌∷◌, ◌++◌, ◌==◌, is_none,
  is_some, option_eq, decides, if◌then◌else◌,
}
use nanihold_os.Result.{
  Result, ok, err, invariant_violation, ◌>>=◌, ◌>>◌, raise_if, require_some, require_key,
}
use nanihold_os.Dict.{Dict, get, put, member, any_value, map_values}
use nanihold_os.Models.Work.{
  WorkItem, WorkState, WorkEdge, S3StarFinding, is_severe, CompletionEvidence,
}
use nanihold_os.Models.Node.{UvsmNode}
use nanihold_os.Models.Grant.{CapabilityGrant, ReferenceGrant}
use nanihold_os.Models.Execution.{Execution, ExecutionState}
use nanihold_os.Models.Effect.{EffectLease, EffectLeaseState, EffectApproval, BudgetReservation}
use nanihold_os.Models.Route.{
  RouteSnapshot, RouteSnapshotState, RouteSnapshotRetirementReason, superseded_by_approved_snapshot,
  route_decommissioned, is_published, is_replacement_state, is_retired,
}
use nanihold_os.Models.Naming.{
  AgentNameAssignment, AgentIdentityRegistration, AgentNotification, AgentNotification-discrete,
  is_agent_to_agent,
}
use nanihold_os.Models.Event.{ActorType, is_human}
use nanihold_os.Kernel.{Registry}
use nanihold_os.Kernel.Work.{parent_edges, pause_of_work, revoke_of_work}
use nanihold_os.Kernel.Executions.{pause_of_host}
use nanihold_os.Kernel.Findings.{block_by, release}
use nanihold_os.Kernel.Names.{agent_name_is_registered, is_assignment, is_registration}
use nanihold_os.Kernel.Notifications.{check_identity}

-- `d[key] = change(d[key])`
abbrev pub change {ℓ} : {V : Type ℓ} → Dict V → String → (V → V) → Result (Dict V)
change d key f = do v ← require_key (get d key) key; ok (put d key (f v))

abbrev pub on_node_registered : UvsmNode → Registry → Registry
on_node_registered node r = record r { nodes = put r.nodes node.node_id node }

abbrev pub on_capability_granted : CapabilityGrant → Registry → Registry
on_capability_granted grant r = record r {
  capability_grants = put r.capability_grants grant.grant_id grant;
}

abbrev pub on_work_dependency_added : WorkEdge → Registry → Registry
on_work_dependency_added edge r = record r { work_edges = r.work_edges ++ edge ∷ [] }

abbrev pub on_execution_created : Execution → Registry → Registry
on_execution_created execution r = record r {
  executions = put r.executions execution.execution_id execution;
}

abbrev pub on_budget_reserved : BudgetReservation → Registry → Registry
on_budget_reserved b r = record r {
  budget_reservations = put r.budget_reservations b.reservation_id b;
}

abbrev pub on_effect_planned : EffectLease → Registry → Registry
on_effect_planned lease r = record r { effect_leases = put r.effect_leases lease.lease_id lease }

abbrev pub on_effect_approved : EffectApproval → Registry → Registry
on_effect_approved approval r = record r {
  effect_approvals = put r.effect_approvals approval.lease_id approval;
}

abbrev pub on_reference_granted : ReferenceGrant → Registry → Registry
on_reference_granted grant r = record r {
  reference_grants = put r.reference_grants grant.grant_id grant;
}

abbrev pub on_route_snapshot_registered : RouteSnapshot → Registry → Registry
on_route_snapshot_registered s r = record r {
  route_snapshots = put r.route_snapshots s.snapshot_id s;
}

abbrev pub on_work_item_created : WorkItem → Registry → Result Registry
on_work_item_created work r = ok (record r {
  work_items = put r.work_items work.work_item_id work;
  work_edges = r.work_edges ++ parent_edges work.work_item_id work.parent_work_item_id;
})

-- What the handlers do that only change the WorkItem of the stream.
abbrev pub on_work_item_changed : String → (WorkItem → WorkItem) → Registry → Result Registry
on_work_item_changed stream f r = do
  items ← change r.work_items stream f
  ok (record r { work_items = items })

abbrev pub on_work_item_delegated : String → String → Registry → Result Registry
on_work_item_delegated stream node_id r =
    on_work_item_changed stream
      (λ w. record w { delegated_to_node_id = node_id; state = WorkState.ready }) r

abbrev pub on_work_item_resume_prepared : String → Registry → Result Registry
on_work_item_resume_prepared stream r =
    on_work_item_changed stream (λ w. record w { state = WorkState.ready }) r

abbrev pub on_work_item_completed : String → CompletionEvidence → Registry → Result Registry
on_work_item_completed stream evidence r =
    on_work_item_changed stream
      (λ w. record w { state = WorkState.completed; completion_evidence = some evidence }) r

abbrev collides : Option AgentNotification → AgentNotification → Bool
collides none n = false
collides (some m) n = not (decides (AgentNotification-discrete m n))

abbrev pub on_agent_notification_delivered : AgentNotification → Registry → Result Registry
on_agent_notification_delivered n r = do
  check_identity (is_agent_to_agent n.source_kind) r n
  raise_if (collides (get r.agent_notifications n.notification_id) n)
      "agent notification identity collision during projection"
  ok (record r { agent_notifications = put r.agent_notifications n.notification_id n })

abbrev pub on_agent_notification_promoted : String → String → Registry → Result Registry
on_agent_notification_promoted stream work_item_id r = do
  n ←
      require_some (get r.agent_notifications stream)
        "agent notification promotion references an unknown notification"
  raise_if (not (member r.work_items work_item_id))
      "agent notification promotion references an unknown WorkItem"
  raise_if (not n.requires_work_item) "agent notification without promotion condition was promoted"
  raise_if
      (is_some n.promoted_work_item_id
        && not (option_eq n.promoted_work_item_id (some work_item_id)))
      "agent notification promotion identity collision"
  ok (record r {
    agent_notifications =
        put r.agent_notifications stream (record n { promoted_work_item_id = some work_item_id });
  })

-- Another assignment has the name.
abbrev pub names_other : AgentNameAssignment → AgentNameAssignment → Bool
names_other a b = b.agent_name == a.agent_name && not (b.assignment_id == a.assignment_id)

abbrev pub on_agent_name_assigned : AgentNameAssignment → Registry → Result Registry
on_agent_name_assigned a r = do
  raise_if
      (member r.agent_name_assignments a.assignment_id
        && not (is_assignment (get r.agent_name_assignments a.assignment_id) a))
      "agent-name assignment identity collision during projection"
  raise_if (any_value (names_other a) r.agent_name_assignments)
      "agent-name assignment name collision during projection"
  execution ←
      require_some (get r.executions a.execution_id)
        "agent-name assignment references an unknown Execution"
  raise_if (is_some execution.agent_name) "Execution already has an agent name"
  raise_if (not (execution.work_item_id == a.work_item_id))
      "agent-name assignment WorkItem does not match Execution"
  ok (record r {
    agent_name_assignments = put r.agent_name_assignments a.assignment_id a;
    executions =
        put r.executions a.execution_id (record execution { agent_name = some a.agent_name });
  })

-- Another registration has the name.
abbrev pub registers_other : AgentIdentityRegistration → AgentIdentityRegistration → Bool
registers_other i j = j.agent_name == i.agent_name && not (j.registration_id == i.registration_id)

abbrev pub on_agent_identity_registered : AgentIdentityRegistration → Registry → Result Registry
on_agent_identity_registered i r = do
  let existing = get r.agent_name_registrations i.registration_id
  raise_if (is_some existing && not (is_registration existing i))
      "agent identity registration collision during projection"
  raise_if
      ((any_value (registers_other i) r.agent_name_registrations
          || agent_name_is_registered r i.agent_name)
        && is_none existing)
      "agent identity registration name collision during projection"
  raise_if (not (member r.nodes i.node_id)) "agent identity registration references an unknown Node"
  ok (record r { agent_name_registrations = put r.agent_name_registrations i.registration_id i })

abbrev pub on_execution_state_changed :
    String → ExecutionState → Option String → Registry → Result Registry
on_execution_state_changed stream state pause_reason r = do
  executions ←
      change r.executions stream (λ e. record e { state = state; pause_reason = pause_reason })
  ok (record r { executions = executions })

abbrev is_of : String → Option AgentNameAssignment → Bool
is_of stream none = false
is_of stream (some a) = a.execution_id == stream

-- The assignment that a receipt names is one of the Execution.
abbrev pub assignment_matches : Dict AgentNameAssignment → String → Option String → Bool
assignment_matches d stream none = true
assignment_matches d stream (some assignment_id) = is_of stream (get d assignment_id)

abbrev pub on_pilot_execution_receipt_recorded :
    String
    → String
    → String
    → Option String
    → ExecutionState
    → Option String
    → Option String
    → Option String
    → Registry
    → Result Registry
on_pilot_execution_receipt_recorded stream execution_id work_item_id assignment_id state session
      reason agent_name r =
    do
      e ← require_key (get r.executions stream) stream
      raise_if (not (execution_id == stream))
          "PilotHost receipt Execution does not match its stream"
      raise_if (not (work_item_id == e.work_item_id))
          "PilotHost receipt WorkItem does not match Execution"
      raise_if (not (assignment_matches r.agent_name_assignments stream assignment_id))
          "PilotHost receipt assignment does not match Execution"
      raise_if (not (option_eq agent_name e.agent_name))
          "PilotHost receipt agent name does not match Execution"
      ok (record r {
        executions =
            put r.executions stream
              (record e { state = state; provider_session_id = session; pause_reason = reason });
      })

-- `_effect_state`, which serves three event types.
abbrev pub on_effect_state : String → EffectLeaseState → Registry → Result Registry
on_effect_state stream state r = do
  leases ← change r.effect_leases stream (λ l. record l { state = state })
  ok (record r { effect_leases = leases })

abbrev pub on_human_intervention : String → Registry → Result Registry
on_human_intervention stream r = do
  items ← change r.work_items stream (λ w. record w { state = WorkState.paused })
  ok (record r {
    work_items = items;
    executions = map_values (pause_of_work stream) r.executions;
    effect_leases = map_values (revoke_of_work stream) r.effect_leases;
  })

abbrev with_finding : S3StarFinding → Registry → Registry
with_finding f r = record r { findings = put r.findings f.finding_id f }

abbrev blocked : S3StarFinding → Registry → Result Registry
blocked f r = do
  w ← require_key (get r.work_items f.work_item_id) f.work_item_id
  ok (record (with_finding f r) {
    work_items = put r.work_items w.work_item_id (block_by f.finding_id w);
  })

abbrev pub on_s3_star_finding_recorded : S3StarFinding → Registry → Result Registry
on_s3_star_finding_recorded f r =
    if is_severe f.severity then blocked f r else ok (with_finding f r)

abbrev pub on_s3_star_risk_accepted : String → String → Registry → Result Registry
on_s3_star_risk_accepted stream finding_id r = do
  findings ← change r.findings finding_id (λ f. record f { accepted_by_s5 = true })
  items ← change r.work_items stream (release finding_id)
  ok (record r { findings = findings; work_items = items })

-- The state of the snapshot and the event of its approval.
abbrev pub on_route_snapshot_approved :
    String → String → RouteSnapshotState → RouteSnapshot → RouteSnapshot
on_route_snapshot_approved approval event_id state s =
    if approval == "s3_star"
    then record s { state = state; s3_star_approval_event_id = some event_id }
    else record s { state = state; owner_approval_event_id = some event_id }

-- The handlers that change the RouteSnapshot of the stream without a test.
abbrev pub on_route_snapshot_changed :
    String → (RouteSnapshot → RouteSnapshot) → Registry → Result Registry
on_route_snapshot_changed stream f r = do
  snapshots ← change r.route_snapshots stream f
  ok (record r { route_snapshots = snapshots })

abbrev pub on_route_snapshot_published : String → Registry → Result Registry
on_route_snapshot_published stream r =
    on_route_snapshot_changed stream (λ s. record s { state = RouteSnapshotState.published }) r

abbrev check_replacement : Registry → RouteSnapshot → Option String → Result (Unit {0})
check_replacement r s none =
    err (invariant_violation "RouteSnapshot retirement replacement identity is invalid")
check_replacement r s (some replacement_id) = do
  raise_if (replacement_id == s.snapshot_id)
      "RouteSnapshot retirement replacement must differ from source"
  replacement ←
      require_some (get r.route_snapshots replacement_id)
        "RouteSnapshot retirement replacement does not exist"
  raise_if (not (replacement.route_key == s.route_key))
      "RouteSnapshot retirement replacement route_key mismatch"
  raise_if (not (is_replacement_state replacement.state))
      "RouteSnapshot retirement replacement is not approved"

abbrev check_retirement :
    Registry → RouteSnapshot → RouteSnapshotRetirementReason → Option String → Result (Unit {0})
check_retirement r s route_decommissioned replacement =
    raise_if (is_some replacement) "decommissioned RouteSnapshot cannot have a replacement"
check_retirement r s superseded_by_approved_snapshot replacement = check_replacement r s replacement

abbrev pub on_route_snapshot_retired :
    String
    → ActorType
    → Option String
    → RouteSnapshotRetirementReason
    → Option String
    → RouteSnapshotState
    → Registry
    → Result Registry
on_route_snapshot_retired stream actor_type actor_id reason replacement state r = do
  raise_if (not (is_human actor_type) || is_none actor_id)
      "RouteSnapshot retirement must be an explicit human event"
  raise_if (not (is_retired state)) "RouteSnapshot retirement transition is invalid"
  s ←
      require_some (get r.route_snapshots stream)
        "RouteSnapshot retirement requires a published source"
  raise_if (not (is_published s.state)) "RouteSnapshot retirement requires a published source"
  check_retirement r s reason replacement
  ok (record r {
    route_snapshots =
        put r.route_snapshots stream (record s { state = RouteSnapshotState.retired });
  })

abbrev pub on_pilot_host_disconnected : String → Registry → Result Registry
on_pilot_host_disconnected host r =
    ok (record r { executions = map_values (pause_of_host host) r.executions })
