-- ===== src/Kernel/Effects.antt =====
-- vsm/kernel/service.py: the life of an Effect Lease.
use nanihold_os.Prelude.{none, ℕ, String, Bool, true, false, not, ◌&&◌, ◌==◌, leb, concat}
use nanihold_os.Result.{
  Result, ok, err, reconciliation_required, ◌>>=◌, ◌>>◌, raise_if, require_some,
}
use nanihold_os.Dict.{get, put, member, any_value}
use nanihold_os.Models.Effect.{
  EffectLease, EffectApproval, EffectLeaseState, is_planned, is_active, is_unknown, is_result,
}
use nanihold_os.Models.Event.{human, pilot}
use nanihold_os.Models.Payload
use nanihold_os.Activation.{Caller, require_active}
use nanihold_os.Kernel.{Kernel, Plan, Registry, draft_of}

abbrev set_lease : Registry → String → EffectLease → Registry
set_lease r lease_id lease = record r { effect_leases = put r.effect_leases lease_id lease }

-- `lease is None or lease.state is not ...`: the two tests raise the same message.
abbrev pub lease_in : (EffectLeaseState → Bool) → Kernel → String → String → Result EffectLease
lease_in test k lease_id message = do
  lease ← require_some (get k.registry.effect_leases lease_id) message
  raise_if (not (test lease.state)) message
  ok lease

-- The idempotency key of the new lease is that of a lease with another id.
abbrev pub takes_key_of : EffectLease → EffectLease → Bool
takes_key_of lease existing =
    existing.idempotency_key == lease.idempotency_key && not (existing.lease_id == lease.lease_id)

unfoldable pub plan_effect : Kernel → EffectLease → ℕ → Caller → Result Plan
plan_effect k lease now caller = do
  require_active k.activation "Effect planning"
  raise_if (not (lease.data_space_id == k.data_space.data_space_id))
      "EffectLease DataSpace mismatch"
  raise_if (not (is_planned lease.state)) "a new EffectLease must be planned"
  raise_if (leb lease.expires_at now) "EffectLease must expire in the future"
  execution ←
      require_some (get k.registry.executions lease.execution_id)
        "EffectLease Execution/WorkItem mismatch"
  raise_if (not (execution.work_item_id == lease.work_item_id))
      "EffectLease Execution/WorkItem mismatch"
  raise_if (any_value (takes_key_of lease) k.registry.effect_leases)
      "effect idempotency key already belongs to another lease"
  ok (record {
    draft =
        draft_of pilot lease.lease_id "effect_planned" (Payload.effect_planned lease) caller
          lease.work_item_id;
    next = λ _. set_lease k.registry lease.lease_id lease;
    raises = none;
  })

-- The clock is read once for `approved_at`, and again for the event.
unfoldable pub approve_effect : Kernel → String → ℕ → Caller → Result Plan
approve_effect k lease_id approved_at caller = do
  require_active k.activation "Effect approval"
  lease ← lease_in is_planned k lease_id "only a planned EffectLease can be approved"
  raise_if (member k.registry.effect_approvals lease_id) "EffectLease is already approved"
  let approval : EffectApproval = record {
    lease_id = lease_id;
    approved_by = caller.actor_id;
    approved_at = approved_at;
  }
  ok (record {
    draft =
        draft_of human lease_id "effect_approved" (Payload.effect_approved approval) caller
          lease.work_item_id;
    next = λ _. record (k.registry) {
      effect_approvals = put k.registry.effect_approvals lease_id approval;
    };
    raises = none;
  })

-- The event and the write of an activation.
abbrev pub activation_plan : Kernel → String → EffectLease → Caller → Plan
activation_plan k lease_id lease caller = record {
  draft =
      draft_of pilot lease_id "effect_activated" (Payload.effect_activated EffectLeaseState.active)
        caller lease.work_item_id;
  next = λ _. set_lease k.registry lease_id (record lease { state = EffectLeaseState.active });
  raises = none;
}

unfoldable pub activate_effect : Kernel → String → ℕ → Caller → Result Plan
activate_effect k lease_id now caller = do
  require_active k.activation "Effect activation"
  lease ← lease_in is_planned k lease_id "only a LETHE-confirmed planned effect can activate"
  raise_if (leb lease.expires_at now) "expired EffectLease cannot activate"
  raise_if (not (member k.registry.effect_approvals lease_id))
      "EffectLease requires explicit owner approval"
  ok (activation_plan k lease_id lease caller)

unfoldable pub mark_effect_unknown : Kernel → String → Caller → Result Plan
mark_effect_unknown k lease_id caller = do
  lease ← lease_in is_active k lease_id "only an active effect can become unknown"
  ok (record {
    draft =
        draft_of pilot lease_id "effect_result_unknown"
          (Payload.effect_result_unknown EffectLeaseState.unknown lease.idempotency_key) caller
          lease.work_item_id;
    next = λ _. set_lease k.registry lease_id (record lease { state = EffectLeaseState.unknown });
    raises = none;
  })

abbrev needed : Bool → String → Result (Unit {0})
needed true key = err (reconciliation_required (concat "reconcile effect by idempotency key " key))
needed false key = ok tt

unfoldable pub require_effect_reconciliation : Kernel → String → Result (Unit {0})
require_effect_reconciliation k lease_id = do
  lease ← require_some (get k.registry.effect_leases lease_id) "EffectLease not found"
  needed (is_unknown lease.state) lease.idempotency_key

unfoldable pub reconcile_effect : Kernel → String → EffectLeaseState → Caller → Result Plan
reconcile_effect k lease_id result caller = do
  lease ← lease_in is_unknown k lease_id "only an unknown effect can be reconciled"
  raise_if (not (is_result result)) "reconciliation result must be succeeded or failed"
  ok (record {
    draft =
        draft_of human lease_id "effect_reconciled"
          (Payload.effect_reconciled result lease.idempotency_key) caller lease.work_item_id;
    next = λ _. set_lease k.registry lease_id (record lease { state = result });
    raises = none;
  })
