-- ===== src/Kernel/Grants.antt =====
-- vsm/kernel/service.py: `register_node`, `grant_capability`, `register_reference_grant` and
-- `reserve_budget`.
use nanihold_os.Prelude.{
  ℕ, String, Bool, not, ◌&&◌, ◌||◌, Option, none, some, ◌==◌, leb, ltb, concat,
}
use nanihold_os.Result.{Result, ok, ◌>>=◌, ◌>>◌, raise_if, require_some}
use nanihold_os.Dict.{get, put, member}
use nanihold_os.Models.Node.{UvsmNode}
use nanihold_os.Models.Grant.{CapabilityGrant, ReferenceGrant, is_active}
use nanihold_os.Models.Effect.{BudgetReservation}
use nanihold_os.Models.Event.{human}
use nanihold_os.Models.Payload
use nanihold_os.Activation.{Caller}
use nanihold_os.Kernel.{Kernel, Plan, draft_of}

abbrev check_parent : Kernel → UvsmNode → Option String → Result (Unit {0})
check_parent k node none = ok tt
check_parent k node (some parent_node_id) = do
  parent ←
      require_some (get k.registry.nodes parent_node_id)
        (concat "parent UVSMNode not found: " parent_node_id)
  raise_if (not (parent.data_space_id == node.data_space_id)) "a Node Tree cannot cross a DataSpace"

unfoldable pub register_node : Kernel → UvsmNode → Caller → Result Plan
register_node k node caller = do
  raise_if (not (node.data_space_id == k.data_space.data_space_id)) "UVSMNode DataSpace mismatch"
  raise_if (member k.registry.nodes node.node_id) (concat "UVSMNode already exists: " node.node_id)
  check_parent k node node.parent_node_id
  ok (record {
    draft =
        draft_of human node.node_id "node_registered" (Payload.node_registered node) caller
          node.node_id;
    next = λ _. record (k.registry) { nodes = put k.registry.nodes node.node_id node };
    raises = none;
  })

-- `valid_from <= clock() < expires_at`
abbrev is_current : ℕ → ℕ → ℕ → Bool
is_current valid_from now expires_at = leb valid_from now && ltb now expires_at

unfoldable pub grant_capability : Kernel → CapabilityGrant → ℕ → Caller → Result Plan
grant_capability k grant now caller = do
  raise_if (not (grant.data_space_id == k.data_space.data_space_id))
      "CapabilityGrant DataSpace mismatch"
  raise_if (not (is_active grant.state)) "new CapabilityGrant must be active"
  raise_if (not (is_current grant.valid_from now grant.expires_at))
      "CapabilityGrant is not currently valid"
  raise_if
      (not (member k.registry.nodes grant.grantor_node_id)
        || not (member k.registry.nodes grant.grantee_node_id))
      "CapabilityGrant nodes must exist"
  ok (record {
    draft =
        draft_of human grant.grant_id "capability_granted" (Payload.capability_granted grant) caller
          grant.grant_id;
    next = λ _. record (k.registry) {
      capability_grants = put k.registry.capability_grants grant.grant_id grant;
    };
    raises = none;
  })

unfoldable pub register_reference_grant : Kernel → ReferenceGrant → ℕ → Caller → Result Plan
register_reference_grant k grant now caller = do
  raise_if (not (grant.target_data_space_id == k.data_space.data_space_id))
      "ReferenceGrant target DataSpace mismatch"
  raise_if (not (is_active grant.state)) "new ReferenceGrant must be active"
  raise_if (not (is_current grant.valid_from now grant.expires_at))
      "ReferenceGrant is not currently valid"
  ok (record {
    draft =
        draft_of human grant.grant_id "reference_granted" (Payload.reference_granted grant) caller
          grant.grant_id;
    next = λ _. record (k.registry) {
      reference_grants = put k.registry.reference_grants grant.grant_id grant;
    };
    raises = none;
  })

unfoldable pub reserve_budget : Kernel → BudgetReservation → Caller → Result Plan
reserve_budget k reservation caller = do
  raise_if (not (reservation.data_space_id == k.data_space.data_space_id))
      "BudgetReservation DataSpace mismatch"
  raise_if (not (member k.registry.work_items reservation.work_item_id))
      "BudgetReservation WorkItem not found"
  ok (record {
    draft =
        draft_of human reservation.reservation_id "budget_reserved"
          (Payload.budget_reserved reservation) caller reservation.work_item_id;
    next = λ _. record (k.registry) {
      budget_reservations =
          put k.registry.budget_reservations reservation.reservation_id reservation;
    };
    raises = none;
  })
