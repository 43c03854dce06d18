-- ===== src/Samples/Restarts.antt =====
-- A restart after the start of a DataSpace: the replay of its ledger.
use nanihold_os.Prelude.{◌≡◌, refl, eq_iff, length, arith}
use nanihold_os.Result.{ok}
use nanihold_os.Dict.{get, put, any_value}
use nanihold_os.Models.Activation.{totals_and_coverage_are_consistent, covers_required_kinds}
use nanihold_os.Activation.{Caller, new_activation}
use nanihold_os.Activation.Methods.{Method, perform, move_of}
use nanihold_os.Activation.Queries.{find_page, resolve}
use nanihold_os.Kernel.{run, commit, record_event}
use nanihold_os.Kernel.Executions.{create_execution}
use nanihold_os.Kernel.Effects.{plan_effect, approve_effect, activate_effect}
use nanihold_os.Ledger.{
  append, screen, store, stream_of, same_or_collision, check_version, put_blob,
}
use nanihold_os.Ids.{deterministic_event_id, validate_id}
use nanihold_os.Models.Event.{has_valid_fields}
use nanihold_os.Activation.Commands.{register_history_import, start_reorientation, approve}
use nanihold_os.Activation.Assessment.{submit_assessment}
use nanihold_os.Activation
use nanihold_os.Kernel.Import.{import_current_work_graph, plan_import}
use nanihold_os.Kernel.Commands.{plan_of, execute}
use nanihold_os.Samples.{sample_dump, sample_platform, sample_decimal, sample_space}
use nanihold_os.Samples.Activations.{sample_receipt}
use nanihold_os.Kernel.Recording.{IsElsewhere}
use nanihold_os.Projection.{rebuild}
use nanihold_os.Projection.History.{begun, imported, activated, queried, commanded}
use nanihold_os.Projection.Recovery.{rebuild-restores}
use nanihold_os.Samples.Runs.{sample_tells}
use nanihold_os.Samples.Starting.{
  by_key, bytes, sample_tools, hash, start_kernel, sample_graph, with_graph, with_history,
  reorienting, state_query, asked, assess, assessed, commissioned, run_work, executing,
}

graph-IsElsewhere :
    IsElsewhere sample_dump sample_platform sample_tells start_kernel
      (plan_import start_kernel sample_graph "digest" (by_key "key-1"))
unfolding plan_import get put
graph-IsElsewhere p = cc (p, (eq_iff "graph:1" "activation:home").1 p)

work-IsElsewhere :
    IsElsewhere sample_dump sample_platform sample_tells commissioned
      (plan_of commissioned run_work (by_key "key-7"))
unfolding import_current_work_graph plan_import perform move_of register_history_import
    start_reorientation totals_and_coverage_are_consistent covers_required_kinds resolve find_page
    put_blob submit_assessment approve execute plan_of create_execution plan_effect approve_effect
    activate_effect run commit nanihold_os.Activation.commit record_event append screen store
    stream_of same_or_collision check_version deterministic_event_id validate_id has_valid_fields
    get put any_value
work-IsElsewhere p = cc (p, (eq_iff "execution:1" "activation:home").1 p)

rebuild-restores_example :
    rebuild 2 (record {
      kernel = record start_kernel { ledger = executing.ledger };
      others = λ _. 0;
      cursor = 0;
    })
    ≡ ok (record { kernel = executing; others = λ _. 0; cursor = length executing.ledger.events })
rebuild-restores_example =
    rebuild-restores sample_dump sample_platform sample_tells sample_decimal
      (λ s. s.snapshot_sha256) sample_tools bytes hash (λ s. "home") sample_space "space:home"
      "space:home" start_kernel executing 2 refl
      (commanded commissioned 7 run_work (by_key "key-7") work-IsElsewhere (
        activated assessed 7 (Method.approve "assessment:1" 6) (by_key "key-6") (
          activated asked 7 assess (by_key "key-5") (
            queried reorienting 7 state_query (by_key "key-4") (
              activated with_history 7 Method.start_reorientation (by_key "key-3") (
                activated with_graph 7
                  (Method.register_history_import sample_receipt "conversation:1") (by_key "key-2")
                  (imported start_kernel sample_graph (by_key "key-1") 7 graph-IsElsewhere
                    begun)))))))
      (omega arith)
