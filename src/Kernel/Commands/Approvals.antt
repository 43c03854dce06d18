-- ===== src/Kernel/Commands/Approvals.antt =====
-- vsm/kernel/service.py: effects that have started, and their approvals.
use nanihold_os.Prelude.{String, ◌≡◌, refl, Bool, true, false, not, ◌||◌, some, arith, ℕ}
use nanihold_os.Result.{ok, Ensures, Ensures-ok, Ensures-raise_if, Ensures-require, Ensures-bind}
use nanihold_os.Dict.{Dict, get, put, get-put, member, Every, Every-put, Every-map_values}
use nanihold_os.Models.Effect.{
  EffectLease, EffectApproval, EffectLeaseState, is_planned, is_active, is_unknown,
}
use nanihold_os.Activation.{Caller}
use nanihold_os.Kernel.{Kernel, Plan}
use nanihold_os.Kernel.Work.{intervene, revoke_of_work}
use nanihold_os.Kernel.Effects.{
  plan_effect, approve_effect, activate_effect, mark_effect_unknown, reconcile_effect, lease_in,
}
use nanihold_os.Ids.{Platform}
use nanihold_os.Models.Event.{EventEnvelope}
use nanihold_os.Models.Payload.{Payload}
use nanihold_os.Kernel.Commands.{Command, plan_of, execute}
use nanihold_os.Kernel.Commands.Running.{execute-keeps}
use nanihold_os.Kernel.Commands.Frames.{effects_frame}

-- The effect has been started: it is active, or it has a result or an unknown one.
abbrev pub has_started : EffectLeaseState → Bool
has_started EffectLeaseState.planned = false
has_started EffectLeaseState.revoked = false
has_started _ = true

abbrev pub IsApproved : Dict EffectApproval → String → EffectLease → Type 0
IsApproved approvals id lease = (not (has_started lease.state) || member approvals id) ≡ true

-- Every effect that has been started has an approval under its lease.
abbrev pub EffectsAreApproved : Dict EffectApproval → Dict EffectLease → Type 0
EffectsAreApproved approvals leases = Every (IsApproved approvals) leases

planned-IsApproved :
    (a : Dict EffectApproval) (id : String) (l : EffectLease)
    → not (is_planned l.state) ≡ false
    → IsApproved a id l
planned-IsApproved a id l h = ground arith

revoke-IsApproved :
    (a : Dict EffectApproval) (work id : String) (l : EffectLease)
    → IsApproved a id l
    → IsApproved a id (revoke_of_work work l)
revoke-IsApproved a work id l h = ground arith

active-IsApproved :
    (a : Dict EffectApproval) (id : String) (l : EffectLease)
    → not (member a id) ≡ false
    → IsApproved a id (record l { state = EffectLeaseState.active })
active-IsApproved a id l h = ground arith

-- A lease that has started stays approved in a later state.
later-IsApproved :
    (a : Dict EffectApproval) (id : String) (l : EffectLease) (s : EffectLeaseState)
    → has_started l.state ≡ true
    → IsApproved a id l
    → IsApproved a id (record l { state = s })
later-IsApproved a id l s q h = ground arith

active_has_started : (s : EffectLeaseState) → not (is_active s) ≡ false → has_started s ≡ true
active_has_started s h = ground arith

unknown_has_started : (s : EffectLeaseState) → not (is_unknown s) ≡ false → has_started s ≡ true
unknown_has_started s h = ground arith

member-put :
    (a : Dict EffectApproval) (x id : String) (v : EffectApproval)
    → member a id ≡ true
    → member (put a x v) id ≡ true
member-put a x id v h = ground (arith, get-put a x id v)

put-IsApproved :
    (a : Dict EffectApproval) (x id : String) (v : EffectApproval) (l : EffectLease)
    → IsApproved a id l
    → IsApproved (put a x v) id l
put-IsApproved a x id v l h = ground (arith, member-put a x id v)

-- What a command on a lease in a state has looked up.
lease_in-found :
    (test : EffectLeaseState → Bool) (k : Kernel) (id message : String) (l : EffectLease)
    → lease_in test k id message ≡ ok l
    → (get k.registry.effect_leases id ≡ some l) × (not (test l.state) ≡ false)
lease_in-found test k id message l h = (ground arith, ground arith)

ruleset steps = (Ensures-ok, Ensures-raise_if, Ensures-require, Ensures-bind)

module _ (k : Kernel) (h : EffectsAreApproved k.registry.effect_approvals k.registry.effect_leases)
    (c : Caller) where
  abbrev Keeps : Plan → Type 0
  Keeps p =
      (id : String) → EffectsAreApproved (p.next id).effect_approvals (p.next id).effect_leases

  plan-Keeps : (l : EffectLease) (now : ℕ) → Ensures Keeps (plan_effect k l now c)
  unfolding plan_effect
  plan-Keeps l now =
      let leaf : not (is_planned l.state) ≡ false
          → EffectsAreApproved k.registry.effect_approvals
              (put k.registry.effect_leases l.lease_id l) =
        λ q. Every-put _ _ _ h (planned-IsApproved _ l.lease_id l q) in
      search (steps, leaf) depth 24

  approve-Keeps : (id : String) (at : ℕ) → Ensures Keeps (approve_effect k id at c)
  unfolding approve_effect
  approve-Keeps id at =
      let leaf : (v : EffectApproval)
          → EffectsAreApproved (put k.registry.effect_approvals id v) k.registry.effect_leases =
        λ v. record { at = λ x l found. put-IsApproved _ id x v l (h.at x l found) } in
      search (steps, leaf) depth 24

  activate-Keeps : (id : String) (now : ℕ) → Ensures Keeps (activate_effect k id now c)
  unfolding activate_effect
  activate-Keeps id now = search (steps, Every-put, h, active-IsApproved) depth 24

  unknown-Keeps : (id : String) → Ensures Keeps (mark_effect_unknown k id c)
  unfolding mark_effect_unknown
  unknown-Keeps id =
      let leaf : (m : String) (l : EffectLease)
          → lease_in is_active k id m ≡ ok l
          → EffectsAreApproved k.registry.effect_approvals
              (put k.registry.effect_leases id (record l { state = EffectLeaseState.unknown })) =
        λ m l p.
          let (found, q) = lease_in-found is_active k id m l p in
          Every-put _ _ _ h (
            later-IsApproved _ id l EffectLeaseState.unknown (active_has_started l.state q)
              (h.at id l found)) in
      search (steps, leaf) depth 24

  reconcile-Keeps : (id : String) (s : EffectLeaseState) → Ensures Keeps (reconcile_effect k id s c)
  unfolding reconcile_effect
  reconcile-Keeps id s =
      let leaf : (m : String) (l : EffectLease)
          → lease_in is_unknown k id m ≡ ok l
          → EffectsAreApproved k.registry.effect_approvals
              (put k.registry.effect_leases id (record l { state = s })) =
        λ m l p.
          let (found, q) = lease_in-found is_unknown k id m l p in
          Every-put _ _ _ h
            (later-IsApproved _ id l s (unknown_has_started l.state q) (h.at id l found)) in
      search (steps, leaf) depth 24

  started_is_approved_plan : (command : Command) → Ensures Keeps (plan_of k command c)
  unfolding plan_of
  started_is_approved_plan (Command.plan_effect l now) = plan-Keeps l now
  started_is_approved_plan (Command.approve_effect id at) = approve-Keeps id at
  started_is_approved_plan (Command.activate_effect id now) = activate-Keeps id now
  started_is_approved_plan (Command.mark_effect_unknown id) = unknown-Keeps id
  started_is_approved_plan (Command.reconcile_effect id s) = reconcile-Keeps id s
  started_is_approved_plan (Command.intervene work reason) =
      unfold intervene in
      search
        (
          steps,
          Every-map_values,
          (λ (id : String) (l : EffectLease) (found : get k.registry.effect_leases id ≡ some l).
              revoke-IsApproved _ work id l (h.at id l found)),
        )
        depth 12
  started_is_approved_plan command = effects_frame EffectsAreApproved k command c refl h

-- If every effect that has been started has an approval under its lease, so it is after every
-- command, also one that raises.
pub started_is_approved :
    (dump : EventEnvelope Payload → String) (platform : Platform) (now : ℕ) (command : Command)
    (c : Caller) (k : Kernel)
    → EffectsAreApproved k.registry.effect_approvals k.registry.effect_leases
    → EffectsAreApproved
        (execute dump platform now command c k).1.registry.effect_approvals
        (execute dump platform now command c k).1.registry.effect_leases
started_is_approved dump platform now command c k h =
    execute-keeps dump platform (λ r. EffectsAreApproved r.effect_approvals r.effect_leases) now
      command c k h (started_is_approved_plan k h c command)
