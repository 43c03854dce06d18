-- ===== src/Kernel/Routes.antt =====
-- vsm/kernel/service.py: the life of a RouteSnapshot.
use nanihold_os.Prelude.{String, Bool, not, ◌&&◌, Option, none, some, ◌==◌, is_some, if◌then◌else◌}
use nanihold_os.Result.{Result, ok, err, invariant_violation, ◌>>=◌, ◌>>◌, raise_if, require_some}
use nanihold_os.Dict.{get, put, any_value}
use nanihold_os.Models.Route.{
  RouteSnapshot, RouteSnapshotState, RouteSnapshotRetirementReason, superseded_by_approved_snapshot,
  route_decommissioned, is_draft, is_s3_star_approved, is_owner_approved, is_published,
  is_replacement_state,
}
use nanihold_os.Models.Event.{human}
use nanihold_os.Models.Payload
use nanihold_os.Activation.{Caller}
use nanihold_os.Kernel.{Kernel, Plan, Registry, draft_of}

abbrev set_snapshot : Registry → String → RouteSnapshot → Registry
set_snapshot r snapshot_id s = record r { route_snapshots = put r.route_snapshots snapshot_id s }

unfoldable pub register_route_snapshot : Kernel → RouteSnapshot → Caller → Result Plan
register_route_snapshot k snapshot caller = do
  raise_if (not (snapshot.data_space_id == k.data_space.data_space_id))
      "RouteSnapshot DataSpace mismatch"
  raise_if (not (is_draft snapshot.state)) "RouteSnapshot must start as draft"
  ok (record {
    draft =
        draft_of human snapshot.snapshot_id "route_snapshot_registered"
          (Payload.route_snapshot_registered snapshot) caller snapshot.snapshot_id;
    next = λ _. set_snapshot k.registry snapshot.snapshot_id snapshot;
    raises = none;
  })

-- The snapshot with its approval, which holds the id of the event.
abbrev pub approved_by :
    String → RouteSnapshot → Option (RouteSnapshotState × (String → RouteSnapshot))
approved_by approval s =
    if approval == "s3_star" && is_draft s.state
    then some (
      RouteSnapshotState.s3_star_approved,
      λ event_id. record s {
        state = RouteSnapshotState.s3_star_approved;
        s3_star_approval_event_id = some event_id;
      },
    )
    else if approval == "owner" && is_s3_star_approved s.state
    then some (
      RouteSnapshotState.owner_approved,
      λ event_id. record s {
        state = RouteSnapshotState.owner_approved;
        owner_approval_event_id = some event_id;
      },
    )
    else none

unfoldable pub approve_route_snapshot : Kernel → String → String → Caller → Result Plan
approve_route_snapshot k snapshot_id approval caller = do
  snapshot ← require_some (get k.registry.route_snapshots snapshot_id) "RouteSnapshot not found"
  approved ←
      require_some (approved_by approval snapshot)
        "RouteSnapshot approvals are ordered S3* then owner"
  ok (record {
    draft =
        draft_of human snapshot_id "route_snapshot_approved"
          (Payload.route_snapshot_approved approval approved.0) caller snapshot_id;
    next = λ event_id. set_snapshot k.registry snapshot_id (approved.1 event_id);
    raises = none;
  })

-- Another snapshot is published for the same route.
abbrev pub rivals : String → RouteSnapshot → RouteSnapshot → Bool
rivals snapshot_id s other =
    not (other.snapshot_id == snapshot_id)
    && other.route_key == s.route_key
    && is_published other.state

unfoldable pub publish_route_snapshot : Kernel → String → Caller → Result Plan
publish_route_snapshot k snapshot_id caller = do
  snapshot ←
      require_some (get k.registry.route_snapshots snapshot_id)
        "only an owner-approved RouteSnapshot can publish"
  raise_if (not (is_owner_approved snapshot.state))
      "only an owner-approved RouteSnapshot can publish"
  raise_if (any_value (rivals snapshot_id snapshot) k.registry.route_snapshots)
      "retire the published RouteSnapshot for this route_key before publishing"
  ok (record {
    draft =
        draft_of human snapshot_id "route_snapshot_published"
          (Payload.route_snapshot_published RouteSnapshotState.published) caller snapshot_id;
    next = λ _.
        set_snapshot k.registry snapshot_id
          (record snapshot { state = RouteSnapshotState.published });
    raises = none;
  })

abbrev validate_replacement : Kernel → RouteSnapshot → String → Result (Unit {0})
validate_replacement k snapshot replacement_snapshot_id = do
  raise_if (replacement_snapshot_id == snapshot.snapshot_id)
      "replacement RouteSnapshot must differ from retired RouteSnapshot"
  replacement ←
      require_some (get k.registry.route_snapshots replacement_snapshot_id)
        "replacement RouteSnapshot not found"
  raise_if (not (replacement.route_key == snapshot.route_key))
      "replacement RouteSnapshot must have the same route_key"
  raise_if (not (is_replacement_state replacement.state))
      "replacement RouteSnapshot must be owner-approved or published"

-- The tests on the replacement, by the reason of the retirement.
abbrev check_replacement :
    Kernel → RouteSnapshot → RouteSnapshotRetirementReason → Option String → Result (Unit {0})
check_replacement k s route_decommissioned replacement =
    raise_if (is_some replacement) "decommissioned route must not have a replacement RouteSnapshot"
check_replacement k s superseded_by_approved_snapshot none =
    err (invariant_violation "superseded RouteSnapshot requires a replacement RouteSnapshot")
check_replacement k s superseded_by_approved_snapshot (some replacement) =
    validate_replacement k s replacement

unfoldable pub retire_route_snapshot :
    Kernel → String → RouteSnapshotRetirementReason → Option String → Caller → Result Plan
retire_route_snapshot k snapshot_id reason_code replacement_snapshot_id caller = do
  snapshot ← require_some (get k.registry.route_snapshots snapshot_id) "RouteSnapshot not found"
  raise_if (not (is_published snapshot.state)) "only a published RouteSnapshot can retire"
  check_replacement k snapshot reason_code replacement_snapshot_id
  ok (record {
    draft =
        draft_of human snapshot_id "route_snapshot_retired"
          (Payload.route_snapshot_retired reason_code replacement_snapshot_id
            RouteSnapshotState.retired)
          caller snapshot_id;
    next = λ _.
        set_snapshot k.registry snapshot_id
          (record snapshot { state = RouteSnapshotState.retired });
    raises = none;
  })
