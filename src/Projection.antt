-- ===== src/Projection.antt =====
-- vsm/projection.py: `OperationalProjection`, which rebuilds the state of the Kernel and of the
-- activation from the ledger. Only the events of these two are here: a Kernel whose interface, routing
-- evidence, Token Lab and owner bootstrap have their streams, and the highest version that they count
-- in each, `others`. An event is decoded before its handler sees it. Where a handler raises, what it
-- has written is not looked at again, and is left out.
pub mod Records
pub mod Milestones
pub mod Commands
pub mod Receipts
pub mod Replay
pub mod Kinds
pub mod Moves
pub mod Events
pub mod Tracking
pub mod Plans
pub mod Steps
pub mod Queries
pub mod History
pub mod Rebuild
pub mod Recovery
use nanihold_os.Prelude.{
  ℕ, zero, suc, ◌+◌, String, Bool, true, false, not, Option, none, some, List, [], ◌∷◌, ◌++◌, ◌==◌,
  nat_eq, leb, length, if◌then◌else◌, starts_with, max, concat,
}
use nanihold_os.Result.{Result, ok, err, invariant_violation, ◌>>=◌, ◌>>◌, raise_if}
use nanihold_os.Dict.{Dict, empty, get, put}
use nanihold_os.Models.Node.{DataSpace}
use nanihold_os.Models.Activation.{CurrentWorkGraphSnapshot}
use nanihold_os.Models.Route.{RouteSnapshot, RouteSnapshotState}
use nanihold_os.Models.Work.{WorkItem, WorkState}
use nanihold_os.Models.Event.{EventEnvelope, StoredEvent}
use nanihold_os.Models.Payload.{Payload}
use nanihold_os.Models.Payload
use nanihold_os.Ledger.{Ledger, page}
use nanihold_os.Activation.{Activation}
use nanihold_os.Kernel.{Kernel, Registry, expected_version}
use nanihold_os.Kernel.Import.{put_all, node_key, work_key}
use nanihold_os.Projection.Records
use nanihold_os.Projection.Milestones.{on_milestone}

pub record Projection : Type 0 where
  pub kernel : Kernel
  pub others : String → ℕ
  pub cursor : ℕ

-- `LETHE_EXTERNAL_EVENT_STREAM_PREFIXES.get(event_type)`
abbrev pub external_stream_prefix : String → Option String
external_stream_prefix event_type =
    if event_type == "history.message_imported"
    then some "history-message:"
    else if event_type == "history.import_completed"
    then some "history-import:"
    else none

abbrev pub on_current_work_graph_imported : CurrentWorkGraphSnapshot → Registry → Registry
on_current_work_graph_imported s r = record r {
  nodes = put_all node_key s.nodes r.nodes;
  work_items = put_all work_key s.work_items r.work_items;
  work_edges = r.work_edges ++ s.edges;
}

-- The handler of an event of the Kernel, by its payload.
unfoldable pub on_record : EventEnvelope Payload → Payload → Registry → Result Registry
on_record e (Payload.node_registered node) r = ok (Records.on_node_registered node r)
on_record e (Payload.capability_granted grant) r = ok (Records.on_capability_granted grant r)
on_record e (Payload.work_item_created work) r = Records.on_work_item_created work r
on_record e (Payload.work_dependency_added edge) r = ok (Records.on_work_dependency_added edge r)
on_record e (Payload.current_work_graph_imported snapshot) r =
    ok (on_current_work_graph_imported snapshot r)
on_record e (Payload.work_item_delegated node_id) r =
    Records.on_work_item_delegated e.stream_id node_id r
on_record e (Payload.work_item_resume_prepared _) r =
    Records.on_work_item_resume_prepared e.stream_id r
on_record e (Payload.execution_created execution) r = ok (Records.on_execution_created execution r)
on_record e (Payload.agent_notification_delivered n) r = Records.on_agent_notification_delivered n r
on_record e (Payload.agent_notification_promoted _ work_item_id) r =
    Records.on_agent_notification_promoted e.stream_id work_item_id r
on_record e (Payload.agent_name_assigned a) r = Records.on_agent_name_assigned a r
on_record e (Payload.agent_identity_registered i) r = Records.on_agent_identity_registered i r
on_record e (Payload.execution_state_changed state reason) r =
    Records.on_execution_state_changed e.stream_id state reason r
on_record e
      (Payload.pilot_execution_receipt_recorded receipt execution_id work_item_id assignment_id
        state reason agent_name)
      r =
    Records.on_pilot_execution_receipt_recorded e.stream_id execution_id work_item_id assignment_id
      state receipt.provider_session_id reason agent_name r
on_record e (Payload.budget_reserved b) r = ok (Records.on_budget_reserved b r)
on_record e (Payload.effect_planned lease) r = ok (Records.on_effect_planned lease r)
on_record e (Payload.effect_approved approval) r = ok (Records.on_effect_approved approval r)
on_record e (Payload.effect_activated state) r = Records.on_effect_state e.stream_id state r
on_record e (Payload.effect_result_unknown state _) r = Records.on_effect_state e.stream_id state r
on_record e (Payload.effect_reconciled state _) r = Records.on_effect_state e.stream_id state r
on_record e (Payload.human_intervention _) r = Records.on_human_intervention e.stream_id r
on_record e (Payload.s3_star_finding_recorded finding) r =
    Records.on_s3_star_finding_recorded finding r
on_record e (Payload.s3_star_risk_accepted finding_id _ _) r =
    Records.on_s3_star_risk_accepted e.stream_id finding_id r
on_record e (Payload.work_item_completed evidence) r =
    Records.on_work_item_completed e.stream_id evidence r
on_record e (Payload.pilot_host_disconnected host) r = Records.on_pilot_host_disconnected host r
on_record e (Payload.reference_granted grant) r = ok (Records.on_reference_granted grant r)
on_record e (Payload.route_snapshot_registered s) r = ok (Records.on_route_snapshot_registered s r)
on_record e (Payload.route_snapshot_approved approval state) r =
    Records.on_route_snapshot_changed e.stream_id
      (Records.on_route_snapshot_approved approval e.event_id state) r
on_record e (Payload.route_snapshot_published _) r =
    Records.on_route_snapshot_published e.stream_id r
on_record e (Payload.route_snapshot_retired reason replacement state) r =
    Records.on_route_snapshot_retired e.stream_id e.actor_type e.actor_id reason replacement state r
on_record e _ r =
    err (invariant_violation (concat "projection has no handler for event type: " e.event_type))

-- The events whose handlers set the version of the activation.
abbrev pub is_milestone : Payload → Bool
is_milestone (Payload.history_import_verified _ _ _) = true
is_milestone (Payload.reorientation_started _) = true
is_milestone (Payload.reorientation_retry_started _ _) = true
is_milestone (Payload.reorientation_revision_retry_started _ _) = true
is_milestone (Payload.reorientation_failed _) = true
is_milestone (Payload.reorientation_attempt_interrupted _) = true
is_milestone (Payload.reorientation_session_checkpointed _) = true
is_milestone (Payload.reorientation_assessment_accepted _ _) = true
is_milestone (Payload.reorientation_assessment_revision_requested _ _ _) = true
is_milestone (Payload.activation_approved _ _ _) = true
is_milestone (Payload.reorientation_pilot_usage_recorded _ _) = true
is_milestone (Payload.history_query_resolved _ _ _ _ _ _ _ _) = true
is_milestone _ = false

-- The one event of the Kernel whose handler writes to the activation.
abbrev pub marked : Payload → Activation → Activation
marked (Payload.current_work_graph_imported s) a = record a {
  work_graph_snapshot_id = some s.snapshot_id;
}
marked _ a = a

-- `handler(event)`
unfoldable pub handle : EventEnvelope Payload → Projection → Result Projection
unfolding on_record on_milestone
handle e p =
    if is_milestone e.payload
    then (do
      a ← on_milestone (p.cursor + 1) e e.payload p.kernel.activation
      ok (record p {
        kernel = record (p.kernel) { activation = record a { version = e.stream_version } };
      }))
    else (do
      r ← on_record e e.payload p.kernel.registry
      ok (record p {
        kernel = record (p.kernel) {
          registry = r;
          activation = marked e.payload p.kernel.activation;
          versions = put p.kernel.versions e.stream_id e.stream_version;
        };
      }))

-- The highest version that a service counts for the stream.
abbrev pub known_version : Projection → String → ℕ
known_version p stream = max (expected_version p.kernel stream) (
    max (p.others stream)
      (if stream == p.kernel.activation.stream_id then p.kernel.activation.version else 0))

abbrev external : Projection → EventEnvelope Payload → String → Result Projection
external p e prefix = do
  raise_if (not (starts_with prefix e.stream_id))
      "LETHE external event does not match its reserved history stream"
  ok p

abbrev internal : Projection → EventEnvelope Payload → Result Projection
internal p e = do
  raise_if (not (nat_eq e.stream_version (known_version p e.stream_id + 1))) "projection stream gap"
  handle e p

abbrev by_prefix : Projection → EventEnvelope Payload → Option String → Result Projection
by_prefix p e none = internal p e
by_prefix p e (some prefix) = external p e prefix

unfoldable pub apply : EventEnvelope Payload → Projection → Result Projection
unfolding handle
apply e p = do
  raise_if (not (e.data_space_id == p.kernel.data_space.data_space_id))
      "projection event crossed its DataSpace"
  by_prefix p e (external_stream_prefix e.event_type)

-- The inner loop of `rebuild`, over one page.
unfoldable pub apply_page : List (StoredEvent Payload) → Projection → Result Projection
apply_page [] p = ok p
apply_page (stored ∷ rest) p = do
  raise_if (not (nat_eq stored.cursor (p.cursor + 1))) "Event Ledger cursor is not contiguous"
  q ← apply stored.event p
  apply_page rest (record q { cursor = stored.cursor })

-- `if not page: return`, or the rest.
abbrev pub if_empty :
    List (StoredEvent Payload) → Projection → Result Projection → Result Projection
if_empty [] p rest = ok p
if_empty (_ ∷ _) p rest = rest

-- The outer loop: pages until an empty one. The error without fuel is never met (see
-- `Projection.Rebuild`).
unfoldable pub rebuild_from : ℕ → ℕ → Projection → Result Projection
unfolding apply_page
rebuild_from zero page_size p = err (invariant_violation "out of fuel")
rebuild_from (suc fuel) page_size p = do
  events ← page p.cursor page_size p.kernel.ledger
  if_empty events p (do q ← apply_page events p; rebuild_from fuel page_size q)

-- `rebuild`; each round but the last applies one event at least.
unfoldable pub rebuild : ℕ → Projection → Result Projection
unfolding rebuild_from
rebuild page_size p = do
  raise_if (leb page_size 0) "projection page_size must be positive"
  rebuild_from (length p.kernel.ledger.events + 1) page_size p
