-- ===== src/Kernel/Commands/Replanning.antt =====
-- vsm/kernel/service.py: an Effect Lease that is planned again under the id of an approved one.
use nanihold_os.Prelude.{ℕ, String, ◌≡◌, refl, Bool, true, false, not, some, arith, leb}
use nanihold_os.Result.{ok, Ensures, Ensures-ok, Ensures-raise_if, Ensures-require}
use nanihold_os.Dict.{get, put, get-put_self, member}
use nanihold_os.Models.Effect.{EffectLease, is_planned}
use nanihold_os.Models.Activation.{is_active}
use nanihold_os.Activation.{Caller}
use nanihold_os.Kernel.{Kernel, Plan, Registry}
use nanihold_os.Kernel.Effects.{plan_effect, activate_effect, activation_plan}

-- The lease stands in the registry as it was planned, and the approvals are as they were.
record Replanned (k : Kernel) (l : EffectLease) (r : Registry) : Type 0 where
  active : is_active k.activation.state ≡ true
  planned : is_planned l.state ≡ true
  lease : get r.effect_leases l.lease_id ≡ some l
  approvals : r.effect_approvals ≡ k.registry.effect_approvals

replanned :
    (k : Kernel) (l : EffectLease)
    → not (is_active k.activation.state) ≡ false
    → not (is_planned l.state) ≡ false
    → Replanned k l
        (record (k.registry) { effect_leases = put k.registry.effect_leases l.lease_id l })
replanned k l active planned = record {
  active = affirmed _ active;
  planned = affirmed _ planned;
  lease = get-put_self _ _ _;
  approvals = refl;
}
  where
    affirmed : (b : Bool) → not b ≡ false → b ≡ true
    affirmed b h = ground arith

plan-Replanned :
    (k : Kernel) (l : EffectLease) (now : ℕ) (c : Caller)
    → Ensures (λ (p : Plan). (id : String) → Replanned k l (p.next id)) (plan_effect k l now c)
unfolding plan_effect
plan-Replanned k l now c =
    search (Ensures-ok, Ensures-raise_if, Ensures-require, replanned) depth 24

-- `plan_effect` does not ask whether the lease id is taken: a lease that is planned under the id of
-- one that was approved can be activated at once, on the approval of the former lease.
pub replanned_lease_activates :
    (k : Kernel) (lease : EffectLease) (now later : ℕ) (c c' : Caller) (p : Plan)
    (event_id : String)
    → plan_effect k lease now c ≡ ok p
    → member k.registry.effect_approvals lease.lease_id ≡ true
    → leb lease.expires_at later ≡ false
    → (q : Plan) × (activate_effect
          (record k { registry = p.next event_id })
          lease.lease_id
          later
          c'
        ≡ ok q)
unfolding activate_effect
replanned_lease_activates k lease now later c c' p event_id accepted approved in_time =
    let r = (plan-Replanned k lease now c).at p accepted event_id in
    (
      activation_plan (record k { registry = p.next event_id }) lease.lease_id lease c',
      rw (r.active, r.lease, r.planned, in_time, r.approvals, approved) refl,
    )
