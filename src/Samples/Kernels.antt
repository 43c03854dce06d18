-- ===== src/Samples/Kernels.antt =====
-- The theorems on the commands of the Kernel, tried on the sample Kernel.
use mathlib.Core.Path.{subst}
use nanihold_os.Prelude.{
  String, ◌≡◌, ◌↔◌, refl, sym, ap, ◌∙◌, Bool, true, false, none, some, eq_iff, inl, inr,
}
use nanihold_os.Dict.{
  get, put, empty, Every-put, Every-empty, get-put_cases, get-put_self, get-empty,
}
use nanihold_os.Models.Work.{WorkEdge}
use nanihold_os.Models.Execution.{Execution, ExecutionState}
use nanihold_os.Models.Route.{
  RouteSnapshot, RouteSnapshotState, is_published, candidates_and_approvals_are_consistent,
}
use nanihold_os.Models.Event.{ActorType}
use nanihold_os.Kernel.{Kernel}
use nanihold_os.Kernel.Graph.{would_cycle}
use nanihold_os.Kernel.Graph.Fuel.{would_cycle_total}
use nanihold_os.Kernel.Graph.Paths.{LeadsTo, here, step, DependsOn}
use nanihold_os.Kernel.Graph.Cycles.{would_cycle_iff}
use nanihold_os.Kernel.Commands.{Command, execute}
use nanihold_os.Kernel.Commands.Lifecycle.{Follows, execution_lifecycle, terminal_is_final}
use nanihold_os.Kernel.Commands.Pauses.{PausesHaveReasons, paused_has_reason}
use nanihold_os.Kernel.Commands.Approvals.{EffectsAreApproved, started_is_approved}
use nanihold_os.Kernel.Commands.Publication.{OnePublished, execute-OnePublished}
use nanihold_os.Kernel.Commands.Completion.{CompletionsAreGated, completed_is_gated}
use nanihold_os.Kernel.Commands.Acyclic.{IsAcyclic, execute-IsAcyclic}
use nanihold_os.Kernel.Commands.Consent.{SnapshotsAreConsistent, snapshots_stay_valid}
use nanihold_os.Samples.{
  sample_dump, sample_platform, sample_caller, sample_kernel, sample_registry, sample_evidence,
  execution_in, snapshot_in,
}

abbrev after_command : Command → Kernel
after_command command =
    (execute sample_dump sample_platform 7 command sample_caller sample_kernel).1

abbrev settle : Command
settle = Command.set_execution_state "execution:1" ExecutionState.succeeded ActorType.pilot none

execution_lifecycle_example :
    Follows false sample_registry.executions (after_command settle).registry.executions
execution_lifecycle_example =
    execution_lifecycle sample_dump sample_platform 7 settle sample_caller sample_kernel

-- A Kernel whose Execution has succeeded.
abbrev settled_kernel : Kernel
settled_kernel = record sample_kernel {
  registry = record sample_registry {
    executions = put empty "execution:1" (execution_in ExecutionState.succeeded);
  };
}

terminal_is_final_example :
    (f : Execution) × (get
        (execute sample_dump sample_platform 7
          (Command.intervene "work:1" "stop")
          sample_caller
          settled_kernel).1.registry.executions
        "execution:1"
      ≡ some f)
    × (f.state ≡ ExecutionState.succeeded)
terminal_is_final_example =
    terminal_is_final sample_dump sample_platform 7 (Command.intervene "work:1" "stop")
      sample_caller settled_kernel "execution:1" (execution_in ExecutionState.succeeded)
      (get-put_self empty "execution:1" _) refl

sample_pauses : PausesHaveReasons sample_registry.executions
sample_pauses = Every-put _ _ _ Every-empty refl

paused_has_reason_example :
    PausesHaveReasons (after_command (Command.intervene "work:1" "stop")).registry.executions
paused_has_reason_example =
    paused_has_reason sample_dump sample_platform 7 (Command.intervene "work:1" "stop")
      sample_caller sample_kernel sample_pauses

sample_effects : EffectsAreApproved sample_registry.effect_approvals sample_registry.effect_leases
sample_effects = Every-put _ _ _ Every-empty refl

started_is_approved_example :
    EffectsAreApproved
      (after_command (Command.activate_effect "lease:1" 5)).registry.effect_approvals
      (after_command (Command.activate_effect "lease:1" 5)).registry.effect_leases
started_is_approved_example =
    started_is_approved sample_dump sample_platform 7 (Command.activate_effect "lease:1" 5)
      sample_caller sample_kernel sample_effects

abbrev only : RouteSnapshot
only = snapshot_in RouteSnapshotState.owner_approved (some "event:1") (some "event:2")

sample_published : OnePublished sample_registry.route_snapshots
sample_published = record { under_id = under; one = one }
  where
    there :
        (id : String) (s : RouteSnapshot)
        → get sample_registry.route_snapshots id ≡ some s
        → ("snapshot:1" ≡ id) × (s ≡ only)
    there id s h = elim (get-put_cases empty "snapshot:1" id only s h) [
      | inl found ↦ found
      | inr (_, old) ↦ absurd (cc (old, get-empty {V = RouteSnapshot} id))
    ]

    under :
        (id : String) (s : RouteSnapshot)
        → get sample_registry.route_snapshots id ≡ some s
        → s.snapshot_id ≡ id
    under id s h = let (same, is) = there id s h in ap (λ z. RouteSnapshot.snapshot_id z) is ∙ same

    one :
        (i j : String) (s t : RouteSnapshot)
        → get sample_registry.route_snapshots i ≡ some s
        → get sample_registry.route_snapshots j ≡ some t
        → is_published s.state ≡ true
        → is_published t.state ≡ true
        → s.route_key ≡ t.route_key
        → i ≡ j
    one i j s t p q _ _ _ = sym (there i s p).0 ∙ (there j t q).0

execute-OnePublished_example :
    OnePublished
      (after_command (Command.publish_route_snapshot "snapshot:1")).registry.route_snapshots
execute-OnePublished_example =
    execute-OnePublished sample_dump sample_platform 7 (Command.publish_route_snapshot "snapshot:1")
      sample_caller sample_kernel sample_published

sample_snapshots : SnapshotsAreConsistent sample_registry.route_snapshots
unfolding candidates_and_approvals_are_consistent
sample_snapshots = Every-put _ _ _ Every-empty refl

snapshots_stay_valid_example :
    SnapshotsAreConsistent
      (after_command (Command.publish_route_snapshot "snapshot:1")).registry.route_snapshots
snapshots_stay_valid_example =
    snapshots_stay_valid sample_dump sample_platform 7 (Command.publish_route_snapshot "snapshot:1")
      sample_caller sample_kernel sample_snapshots (λ s p. absurd (cc))

sample_completions : CompletionsAreGated sample_registry.work_items
sample_completions = Every-put _ _ _ (Every-put _ _ _ Every-empty refl) refl

abbrev finish_work : Command
finish_work = Command.complete_work_item "work:1" sample_evidence

completed_is_gated_example : CompletionsAreGated (after_command finish_work).registry.work_items
completed_is_gated_example =
    completed_is_gated sample_dump sample_platform 7 finish_work sample_caller sample_kernel
      sample_completions

-- The only edge leads from work 1 to work 2.
edge_of_sample :
    (a b : String) → DependsOn sample_registry.work_edges a b → ("work:1" ≡ a) × ("work:2" ≡ b)
edge_of_sample a b d = elim d.listed [
  | inl same ↦ (
    ap (λ z. WorkEdge.source_work_item_id z) (sym same) ∙ d.source,
    ap (λ z. WorkEdge.target_work_item_id z) (sym same) ∙ d.target,
  )
  | inr nothing ↦ absurd nothing
]

no_way_back : (b : String) → LeadsTo sample_registry.work_edges "work:1" b → "work:2" ≡ b → ⊥
no_way_back b here p = cc (p, (eq_iff "work:2" "work:1").1 p)
no_way_back b (step d rest) p =
    let q = (edge_of_sample b _ d).0 ∙ sym p in cc (q, (eq_iff "work:1" "work:2").1 q)

sample-IsAcyclic : IsAcyclic sample_registry.work_edges
sample-IsAcyclic a b d p =
    let (from, to) = edge_of_sample a b d in
    no_way_back b (subst (λ z. LeadsTo sample_registry.work_edges z b) (sym from) p) to

execute-IsAcyclic_example :
    IsAcyclic (after_command (Command.add_dependency "work:2" "work:1")).registry.work_edges
execute-IsAcyclic_example =
    execute-IsAcyclic sample_dump sample_platform 7 (Command.add_dependency "work:2" "work:1")
      sample_caller sample_kernel sample-IsAcyclic

would_cycle_iff_example :
    (would_cycle sample_registry.work_edges "work:2" "work:1" ≡ some true)
    ↔ LeadsTo sample_registry.work_edges "work:2" "work:1"
would_cycle_iff_example = would_cycle_iff sample_registry.work_edges "work:2" "work:1"

would_cycle_total_example :
    (r : Bool) × (would_cycle sample_registry.work_edges "work:2" "work:1" ≡ some r)
would_cycle_total_example = would_cycle_total sample_registry.work_edges "work:2" "work:1"
