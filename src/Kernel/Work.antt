-- ===== src/Kernel/Work.antt =====
-- vsm/kernel/service.py: the commands on WorkItems.
use nanihold_os.Prelude.{
  String, Bool, true, false, not, ◌&&◌, ◌||◌, Option, none, some, List, [], ◌∷◌, ◌++◌, ◌==◌, any,
  contains, is_some, decides, concat, if◌then◌else◌,
}
use nanihold_os.Result.{
  Result, ok, err, key_error, invariant_violation, ◌>>=◌, ◌>>◌, raise_if, require_some,
}
use nanihold_os.Dict.{get, put, member, any_value, map_values}
use nanihold_os.Models.Work.{
  WorkItem, WorkEdge, WorkEdge-discrete, WorkEdgeKind, WorkState, CompletionEvidence,
  is_proposed_or_ready, is_completed, is_resumable,
}
use nanihold_os.Models.Execution.{Execution, ExecutionState, is_active}
use nanihold_os.Models.Effect.{EffectLease, EffectLeaseState, is_revocable}
use nanihold_os.Models.Event.{human}
use nanihold_os.Models.Payload
use nanihold_os.Models.Activation.{is_awaiting, ReorientationAssessment}
use nanihold_os.Activation.{Caller}
use nanihold_os.Kernel.{Kernel, Plan, Registry, draft_of}
use nanihold_os.Kernel.Graph.{dependencies, would_cycle}

abbrev pub set_work : Registry → String → WorkItem → Registry
set_work r work_item_id work = record r { work_items = put r.work_items work_item_id work }

abbrev pub is_empty : List String → Bool
is_empty [] = true
is_empty (_ ∷ _) = false

abbrev check_nodes : Kernel → List String → Result (Unit {0})
check_nodes k [] = ok tt
check_nodes k (node_id ∷ rest) = do
  raise_if (not (member k.registry.nodes node_id)) (concat "WorkItem node not found: " node_id)
  check_nodes k rest

abbrev check_parent : Kernel → WorkItem → Option String → Result (Unit {0})
check_parent k work none = ok tt
check_parent k work (some parent_id) = do
  parent ←
      require_some (get k.registry.work_items parent_id)
        (concat "parent WorkItem not found: " parent_id)
  raise_if (not (parent.integration_owner_node_id == work.integration_owner_node_id))
      "delegated child must retain its parent's integration owner"

-- The two edges between a parent and its new child.
abbrev pub parent_edges : String → Option String → List WorkEdge
parent_edges child none = []
parent_edges child (some parent) =
    record {
      source_work_item_id = parent;
      target_work_item_id = child;
      kind = WorkEdgeKind.delegated_to;
    }
    ∷ record {
      source_work_item_id = child;
      target_work_item_id = parent;
      kind = WorkEdgeKind.integrated_by;
    }
    ∷ []

unfoldable pub create_work_item : Kernel → WorkItem → Caller → Result Plan
create_work_item k work caller = do
  raise_if (not (work.data_space_id == k.data_space.data_space_id)) "WorkItem DataSpace mismatch"
  raise_if (not (is_proposed_or_ready work.state)) "new WorkItem must start proposed or ready"
  raise_if
      (is_some work.completion_evidence
        || not (is_empty work.blocking_s3_star_finding_ids)
        || is_empty work.acceptance_criteria)
      "new WorkItem requires acceptance and cannot start completed or blocked"
  check_nodes k
      (work.owner_node_id ∷ work.delegated_to_node_id ∷ work.integration_owner_node_id ∷ [])
  check_parent k work work.parent_work_item_id
  ok (record {
    draft =
        draft_of human work.work_item_id "work_item_created" (Payload.work_item_created work) caller
          work.work_item_id;
    next = λ _. record (set_work k.registry work.work_item_id work) {
      work_edges = k.registry.work_edges ++ parent_edges work.work_item_id work.parent_work_item_id;
    };
    raises = none;
  })

abbrev has_edge : WorkEdge → List WorkEdge → Bool
has_edge e edges = any (λ f. decides (WorkEdge-discrete e f)) edges

-- The search never runs out of fuel (`would_cycle_total`), so that its first message is never raised.
abbrev pub check_cycle : Option Bool → Result (Unit {0})
check_cycle none = err (invariant_violation "out of fuel")
check_cycle (some found) = raise_if found "WorkItem dependency would create a cycle"

abbrev pub dependency : String → String → WorkEdge
dependency work_item_id depends_on_id = record {
  source_work_item_id = work_item_id;
  target_work_item_id = depends_on_id;
  kind = WorkEdgeKind.depends_on;
}

unfoldable pub add_dependency : Kernel → String → String → Caller → Result Plan
add_dependency k work_item_id depends_on_id caller = do
  raise_if
      (not (member k.registry.work_items work_item_id)
        || not (member k.registry.work_items depends_on_id))
      "both WorkItems must exist"
  raise_if (work_item_id == depends_on_id) "a WorkItem cannot depend on itself"
  raise_if (has_edge (dependency work_item_id depends_on_id) k.registry.work_edges)
      "dependency already exists"
  check_cycle (would_cycle k.registry.work_edges work_item_id depends_on_id)
  ok (record {
    draft =
        draft_of human work_item_id "work_dependency_added"
          (Payload.work_dependency_added (dependency work_item_id depends_on_id)) caller
          work_item_id;
    next = λ _. record (k.registry) {
      work_edges = k.registry.work_edges ++ dependency work_item_id depends_on_id ∷ [];
    };
    raises = none;
  })

unfoldable pub delegate_work_item : Kernel → String → String → Caller → Result Plan
delegate_work_item k work_item_id delegated_to_node_id caller = do
  work ← require_some (get k.registry.work_items work_item_id) "WorkItem not found"
  raise_if (not (member k.registry.nodes delegated_to_node_id)) "delegated UVSMNode not found"
  raise_if (not (is_proposed_or_ready work.state))
      "only proposed or ready WorkItem can be delegated"
  raise_if (any_value (λ (e : Execution). e.work_item_id == work_item_id) k.registry.executions)
      "WorkItem with Executions cannot be redelegated"
  ok (record {
    draft =
        draft_of human work_item_id "work_item_delegated"
          (Payload.work_item_delegated delegated_to_node_id) caller work_item_id;
    next = λ _.
        set_work k.registry work_item_id
          (record work { delegated_to_node_id = delegated_to_node_id; state = WorkState.ready });
    raises = none;
  })

abbrev is_assessed : String → Option ReorientationAssessment → Bool
is_assessed work_item_id none = false
is_assessed work_item_id (some a) = contains work_item_id a.resume_work_item_ids

unfoldable pub validate_owner_confirmed_resume : Kernel → String → Result WorkItem
validate_owner_confirmed_resume k work_item_id = do
  raise_if (not (is_awaiting k.activation.state))
      "resume preparation requires awaiting owner confirmation"
  raise_if (not (is_assessed work_item_id k.activation.assessment))
      "only assessed resume WorkItems may be prepared"
  work ← require_some (get k.registry.work_items work_item_id) "resume WorkItem not found"
  raise_if (not (is_empty work.blocking_s3_star_finding_ids))
      "blocking S3* finding prevents WorkItem resume"
  raise_if (not (is_resumable work.state))
      "WorkItem state cannot be resumed after owner confirmation"
  raise_if (not (member k.registry.nodes work.delegated_to_node_id))
      "resume WorkItem delegated Node not found"
  ok work

unfoldable pub prepare_owner_confirmed_resume : Kernel → String → Caller → Result Plan
unfolding validate_owner_confirmed_resume
prepare_owner_confirmed_resume k work_item_id caller = do
  work ← validate_owner_confirmed_resume k work_item_id
  ok (record {
    draft =
        draft_of human work_item_id "work_item_resume_prepared"
          (Payload.work_item_resume_prepared WorkState.ready) caller work_item_id;
    next = λ _. set_work k.registry work_item_id (record work { state = WorkState.ready });
    raises = none;
  })

-- The gate of completion.
abbrev pub gate : CompletionEvidence → Bool
gate e =
    e.acceptance_satisfied
    && e.required_tests_passed
    && is_empty e.blocking_deviations
    && e.independent_s3_star_gate
    && e.integration_branch_merged
    && e.remote_push_succeeded

-- `self.work_items[id]`
abbrev pub work_at : String → Option WorkItem → Result WorkItem
work_at id none = err (key_error id)
work_at id (some work) = ok work

-- The dependencies that are not completed; a missing one is Python's `KeyError`.
unfoldable pub incomplete : Kernel → List String → Result (List String)
incomplete k [] = ok []
incomplete k (id ∷ ids) = do
  work ← work_at id (get k.registry.work_items id)
  rest ← incomplete k ids
  ok (if is_completed work.state then rest else id ∷ rest)

-- The event and the writes of a completion.
abbrev pub completion_plan : Kernel → String → CompletionEvidence → WorkItem → Caller → Plan
completion_plan k work_item_id evidence work caller = record {
  draft =
      draft_of human work_item_id "work_item_completed" (Payload.work_item_completed evidence)
        caller work_item_id;
  next = λ _.
      set_work k.registry work_item_id
        (record work { state = WorkState.completed; completion_evidence = some evidence });
  raises = none;
}

-- `', '.join(texts)`
abbrev join : List String → String
join [] = ""
join (text ∷ []) = text
join (text ∷ next ∷ rest) = concat text (concat ", " (join (next ∷ rest)))

unfoldable pub complete_work_item : Kernel → String → CompletionEvidence → Caller → Result Plan
complete_work_item k work_item_id evidence caller = do
  work ← require_some (get k.registry.work_items work_item_id) "WorkItem not found"
  raise_if (not (is_empty work.blocking_s3_star_finding_ids))
      "blocking S3* findings prevent integration"
  raise_if (not (gate evidence)) "completion gate is not satisfied"
  missing ← incomplete k (dependencies work_item_id k.registry.work_edges)
  raise_if (not (is_empty missing)) (concat "incomplete dependencies: " (join missing))
  ok (completion_plan k work_item_id evidence work caller)

abbrev pub pause_for : String → Execution → Execution
pause_for reason e = record e { state = ExecutionState.paused; pause_reason = some reason }

abbrev pub pause_of_work : String → Execution → Execution
pause_of_work work_item_id e =
    if e.work_item_id == work_item_id && is_active e.state
    then pause_for "human_intervention" e
    else e

abbrev pub revoke_of_work : String → EffectLease → EffectLease
revoke_of_work work_item_id l =
    if l.work_item_id == work_item_id && is_revocable l.state
    then record l { state = EffectLeaseState.revoked }
    else l

unfoldable pub intervene : Kernel → String → String → Caller → Result Plan
intervene k work_item_id reason caller = do
  work ← require_some (get k.registry.work_items work_item_id) "WorkItem not found"
  ok (record {
    draft =
        draft_of human work_item_id "human_intervention" (Payload.human_intervention reason) caller
          work_item_id;
    next = λ _.
        record (set_work k.registry work_item_id (record work { state = WorkState.paused })) {
          executions = map_values (pause_of_work work_item_id) k.registry.executions;
          effect_leases = map_values (revoke_of_work work_item_id) k.registry.effect_leases;
        };
    raises = none;
  })
