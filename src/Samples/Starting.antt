-- ===== src/Samples/Starting.antt =====
-- A DataSpace from its start to its first effect, which every part of the Kernel lets pass: import of
-- the Work Graph and of the history, reorientation with a query of the history, assessment, approval
-- by the owner, an Execution, and an effect that is planned, approved and started.
use nanihold_os.Prelude.{ℕ, String, ◌≡◌, refl, true, none, some, List, [], ◌∷◌, In, inl, inr}
use nanihold_os.Result.{Result, ok}
use nanihold_os.Dict.{get, put, any_value}
use nanihold_os.Models.Work.{WorkItem, WorkState}
use nanihold_os.Models.Execution.{ExecutionState}
use nanihold_os.Models.Effect.{EffectLeaseState}
use nanihold_os.Models.Activation.{
  CurrentWorkGraphSnapshot, ReorientationAssessment, totals_and_coverage_are_consistent,
  covers_required_kinds,
}
use nanihold_os.Activation.{Caller, new_activation}
use nanihold_os.Activation.Methods.{Method, perform, move_of}
use nanihold_os.Activation.Queries.{
  HistoryOperation, HistoryPage, HistoryToolService, ReadHistoryAction, find_page, resolve,
}
use nanihold_os.Kernel.{Kernel, empty_registry, run, commit, record_event}
use nanihold_os.Kernel.Executions.{create_execution}
use nanihold_os.Kernel.Effects.{plan_effect, approve_effect, activate_effect}
use nanihold_os.Ledger.{
  append, screen, store, stream_of, same_or_collision, check_version, put_blob,
}
use nanihold_os.Ids.{deterministic_event_id, validate_id}
use nanihold_os.Models.Event.{has_valid_fields}
use nanihold_os.Activation.Commands.{register_history_import, start_reorientation, approve}
use nanihold_os.Activation.Assessment.{submit_assessment}
use nanihold_os.Activation
use nanihold_os.Kernel.Import.{import_current_work_graph, plan_import}
use nanihold_os.Kernel.Commands.{Command, plan_of, execute}
use nanihold_os.Kernel.Commands.Acyclic.{empty-IsAcyclic}
use nanihold_os.Kernel.Commands.Completion.{IsGated}
use nanihold_os.Kernel.Reachable.{
  Sound, Reachable, new, imported, activated, queried, commanded, service_of, with_service,
  Reachable-Sound,
}
use nanihold_os.Samples.{
  sample_dump, sample_platform, sample_decimal, sample_space, sample_kernel, work_named,
  execution_in, lease_in_state,
}
use nanihold_os.Samples.Activations.{sample_receipt, sample_assessment}
use nanihold_os.Samples.Projections.{sample_node}

abbrev pub by_key : String → Caller
by_key key = record { actor_id = "owner:ada"; idempotency_key = key }

abbrev pub bytes : String → List ℕ
bytes s = []

abbrev any_page : Result (HistoryPage String)
any_page = ok (record { result_json = "state"; next_cursor = none; source_cursor = "end" })

abbrev pub sample_tools : HistoryToolService String
sample_tools = record {
  reader = record {
    read_timeline = λ _ _. any_page;
    read_raw = λ _ _. any_page;
    search_history = λ _ _. any_page;
    resolve_reference = λ _ _. any_page;
    list_open_commitments = λ _. any_page;
    get_current_state = λ _ _. any_page;
  };
  max_result_bytes = 1000;
}

abbrev pub hash : List ℕ → String
hash _ = "digest"

abbrev pub start_kernel : Kernel
start_kernel = record sample_kernel {
  activation = new_activation (λ s. "home") "space:home";
  registry = empty_registry;
}

abbrev pub sample_graph : CurrentWorkGraphSnapshot
sample_graph = record {
  snapshot_id = "graph:1";
  data_space_id = "space:home";
  captured_at = 0;
  nodes = sample_node ∷ [];
  work_items = work_named "work:1" WorkState.ready ∷ [];
  edges = [];
  snapshot_sha256 = "digest";
}

graph-IsGated : (w : WorkItem) → In w sample_graph.work_items → IsGated w
graph-IsGated w (inl same) = rw same refl
graph-IsGated w (inr none_left) = absurd none_left

abbrev Reached : Kernel → Type 0
Reached =
    Reachable sample_dump sample_platform sample_decimal (λ s. s.snapshot_sha256) sample_tools bytes
      hash

abbrev called : Kernel → String → Method → Kernel
called k key method =
    with_service k
      (perform sample_dump sample_platform sample_decimal 7 method (by_key key) (service_of k)).1

abbrev commanded_by : Kernel → String → Command → Kernel
commanded_by k key command = (execute sample_dump sample_platform 7 command (by_key key) k).1

abbrev pub with_graph : Kernel
with_graph =
    (import_current_work_graph sample_dump sample_platform (λ s. s.snapshot_sha256) sample_graph
      (by_key "key-1") 7 start_kernel).1

abbrev pub with_history : Kernel
with_history =
    called with_graph "key-2" (Method.register_history_import sample_receipt "conversation:1")

abbrev pub reorienting : Kernel
reorienting = called with_history "key-3" Method.start_reorientation

abbrev pub state_query : ReadHistoryAction
state_query = record {
  action_id = "action:1";
  operation = HistoryOperation.get_current_state;
  argument = none;
  page_cursor = none;
}

abbrev pub asked : Kernel
asked =
    with_service reorienting
      (resolve sample_tools bytes hash sample_dump sample_platform 7 state_query (by_key "key-4")
        (service_of reorienting)).1

abbrev first_assessment : ReorientationAssessment
first_assessment = record sample_assessment {
  resume_work_item_ids = "work:1" ∷ [];
  citations = record { claim_ref = "understanding"; evidence_ref = "event:key-4" } ∷ [];
}

abbrev pub assess : Method
assess = Method.submit_assessment first_assessment ("c1" ∷ []) ("work:1" ∷ []) true

abbrev pub assessed : Kernel
assessed = called asked "key-5" assess

abbrev pub commissioned : Kernel
commissioned = called assessed "key-6" (Method.approve "assessment:1" 6)

abbrev pub run_work : Command
run_work = Command.create_execution (execution_in ExecutionState.active)

abbrev pub executing : Kernel
executing = commanded_by commissioned "key-7" run_work

abbrev plan : Command
plan = Command.plan_effect (lease_in_state EffectLeaseState.planned) 5

abbrev planned : Kernel
planned = commanded_by executing "key-8" plan

abbrev approved : Kernel
approved = commanded_by planned "key-9" (Command.approve_effect "lease:1" 6)

abbrev pushing : Kernel
pushing = commanded_by approved "key-10" (Command.activate_effect "lease:1" 7)

reached : Reached pushing
reached =
    commanded approved 7 (Command.activate_effect "lease:1" 7) (by_key "key-10")
      (λ s p. absurd (cc))
      (commanded planned 7 (Command.approve_effect "lease:1" 6) (by_key "key-9")
        (λ s p. absurd (cc))
        (commanded executing 7 plan (by_key "key-8") (λ s p. absurd (cc))
          (commanded commissioned 7 run_work (by_key "key-7") (λ s p. absurd (cc))
            (activated assessed 7 (Method.approve "assessment:1" 6) (by_key "key-6") (
              activated asked 7 assess (by_key "key-5") (
                queried reorienting 7 state_query (by_key "key-4") (
                  activated with_history 7 Method.start_reorientation (by_key "key-3") (
                    activated with_graph 7
                      (Method.register_history_import sample_receipt "conversation:1")
                      (by_key "key-2")
                      (imported start_kernel sample_graph (by_key "key-1") 7
                        (record { gated = graph-IsGated; acyclic = empty-IsAcyclic })
                        (new (λ s. "home") sample_space "space:home" "space:home" start_kernel
                          refl))))))))))

-- All of these calls return: the effect has started, in the Execution of the imported WorkItem.
effect_started :
    get pushing.registry.effect_leases "lease:1" ≡ some (lease_in_state EffectLeaseState.active)
unfolding import_current_work_graph plan_import perform move_of register_history_import
    start_reorientation totals_and_coverage_are_consistent covers_required_kinds resolve find_page
    put_blob submit_assessment approve execute plan_of create_execution plan_effect approve_effect
    activate_effect run commit nanihold_os.Activation.commit record_event append screen store
    stream_of same_or_collision check_version deterministic_event_id validate_id has_valid_fields
    get put any_value
effect_started = refl

Reachable-Sound_example : Sound pushing.registry
Reachable-Sound_example =
    Reachable-Sound sample_dump sample_platform sample_decimal (λ s. s.snapshot_sha256) sample_tools
      bytes hash pushing reached
