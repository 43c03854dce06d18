-- ===== src/Kernel/Commands/Intervention.antt =====
-- vsm/kernel/service.py: what an intervention of the owner stops.
use nanihold_os.Prelude.{
  String, ◌≡◌, ◌≢◌, refl, sym, ap, ◌∙◌, false, some, arith, eq_iff, inl, inr, Option-cases,
}
use nanihold_os.Result.{ok, Ensures, Ensures-ok, Ensures-require}
use nanihold_os.Dict.{Dict, get, put, get-put_self, map_values, get-map_values, after}
use nanihold_os.Models.Work.{WorkItem, WorkState}
use nanihold_os.Models.Execution.{Execution, is_active}
use nanihold_os.Models.Effect.{EffectLease, is_revocable}
use nanihold_os.Activation.{Caller}
use nanihold_os.Kernel.{Kernel, Plan, Registry}
use nanihold_os.Kernel.Work.{intervene, pause_of_work, revoke_of_work}

-- The WorkItem is paused, none of its Executions is active, none of its Effect Leases can still
-- start, and the Executions of other WorkItems are as they were.
pub record Stopped (work_item_id : String) (before after : Registry) : Type 0 where
  pub work :
      (w : WorkItem) × (get after.work_items work_item_id ≡ some w) × (w.state ≡ WorkState.paused)
  pub executions :
      (id : String) (e : Execution)
      → get after.executions id ≡ some e
      → e.work_item_id ≡ work_item_id
      → is_active e.state ≡ false
  pub leases :
      (id : String) (l : EffectLease)
      → get after.effect_leases id ≡ some l
      → l.work_item_id ≡ work_item_id
      → is_revocable l.state ≡ false
  pub others :
      (id : String) (e : Execution)
      → get before.executions id ≡ some e
      → e.work_item_id ≢ work_item_id
      → get after.executions id ≡ some e

-- A value of the mapped dictionary is the image of one that was there.
mapped :
    {V : Type 0} (f : V → V) (d : Dict V) (id : String) (v : V)
    → get (map_values f d) id ≡ some v
    → (u : V) × (f u ≡ v)
mapped f d id v h = elim (Option-cases (get d id)) [
  | inl absent ↦ absurd (ground (arith, get-map_values f id d))
  | inr (u, found) ↦ (u, ground (arith, get-map_values f id d))
]

paused_inactive :
    (work : String) (u : Execution)
    → (pause_of_work work u).work_item_id ≡ work
    → is_active (pause_of_work work u).state ≡ false
paused_inactive work u h = ground (arith, eq_iff u.work_item_id work)

revoked_stopped :
    (work : String) (u : EffectLease)
    → (revoke_of_work work u).work_item_id ≡ work
    → is_revocable (revoke_of_work work u).state ≡ false
revoked_stopped work u h = ground (arith, eq_iff u.work_item_id work)

other_kept : (work : String) (e : Execution) → e.work_item_id ≢ work → pause_of_work work e ≡ e
other_kept work e h = ground (arith, eq_iff e.work_item_id work)

module _ (k : Kernel) (work reason : String) (c : Caller) where
  stopped :
      (w : WorkItem)
      → Stopped work k.registry (record (k.registry) {
        work_items = put k.registry.work_items work (record w { state = WorkState.paused });
        executions = map_values (pause_of_work work) k.registry.executions;
        effect_leases = map_values (revoke_of_work work) k.registry.effect_leases;
      })
  stopped w = record {
    work = (record w { state = WorkState.paused }, get-put_self _ _ _, refl);
    executions = λ id e found same.
        let (u, p) = mapped (pause_of_work work) k.registry.executions id e found in
        ap (λ z. is_active (Execution.state z)) (sym p)
        ∙ paused_inactive work u (ap (λ z. Execution.work_item_id z) p ∙ same);
    leases = λ id l found same.
        let (u, p) = mapped (revoke_of_work work) k.registry.effect_leases id l found in
        ap (λ z. is_revocable (EffectLease.state z)) (sym p)
        ∙ revoked_stopped work u (ap (λ z. EffectLease.work_item_id z) p ∙ same);
    others = λ id e found other.
        get-map_values (pause_of_work work) id k.registry.executions
        ∙ ap (after (pause_of_work work)) found
        ∙ ap (λ z. some z) (other_kept work e other);
  }

  intervene-Stopped :
      Ensures
        (λ (p : Plan). (id : String) → Stopped work k.registry (p.next id))
        (intervene k work reason c)
  unfolding intervene
  intervene-Stopped = search (Ensures-ok, Ensures-require, stopped) depth 12

  -- An accepted intervention pauses the WorkItem, leaves none of its Executions active and none of its
  -- Effect Leases able to start, and does not touch the Executions of other WorkItems.
  pub intervention_stops :
      (p : Plan) (event_id : String)
      → intervene k work reason c ≡ ok p
      → Stopped work k.registry (p.next event_id)
  intervention_stops p event_id accepted = intervene-Stopped.at p accepted event_id
