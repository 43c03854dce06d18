-- ===== src/Samples/Projections.antt =====
-- The theorems on the replay of the ledger, tried on a Kernel with one node and on the sample Kernel.
use nanihold_os.Prelude.{◌≡◌, refl, none, some, [], arith}
use nanihold_os.Result.{ok}
use nanihold_os.Dict.{get, put, empty}
use nanihold_os.Models.Node.{UvsmNode, NodeKind, NodeStatus, VsmFunction}
use nanihold_os.Kernel.{Kernel, Plan, envelope, draft_of, empty_registry}
use nanihold_os.Kernel.Commands.{Command, plan_of, execute}
use nanihold_os.Kernel.Grants.{register_node}
use nanihold_os.Kernel.Filing.{empty-IsFiled}
use nanihold_os.Activation.{Move}
use nanihold_os.Activation.Methods.{Method, move_of}
use nanihold_os.Activation.Commands.{record_reorientation_failure, end_attempt}
use nanihold_os.Projection.{Projection, on_record, rebuild, apply_page}
use nanihold_os.Projection.Moves.{IsReplayed, move_of-IsReplayed}
use nanihold_os.Projection.Replay.{command-replays}
use nanihold_os.Projection.Rebuild.{rebuild-apply_page}
use nanihold_os.Kernel.Reachable.{service_of, with_service}
use nanihold_os.Activation.Methods.{perform}
use nanihold_os.Samples.{sample_dump, sample_platform, sample_decimal, sample_caller}
use nanihold_os.Models.Event.{human, system}
use nanihold_os.Models.Payload.{Payload}
use nanihold_os.Samples.Activations.{running}
use nanihold_os.Samples.Runs.{first_kernel}

abbrev pub sample_node : UvsmNode
sample_node = record {
  node_id = "node:a";
  data_space_id = "space:home";
  owner_id = "owner:ada";
  name = "a";
  kind = NodeKind.organization;
  parent_node_id = none;
  resident_functions = [];
  resident_s3_parent_function = VsmFunction.s3;
  status = NodeStatus.active;
  memory_stream_id = "memory:a";
}

abbrev register : Command
register = Command.register_node sample_node

abbrev node_plan : Plan
node_plan = record {
  draft =
      draft_of human "node:a" "node_registered" (Payload.node_registered sample_node) sample_caller
        "node:a";
  next = λ _. record empty_registry { nodes = put empty "node:a" sample_node };
  raises = none;
}

node_accepted : plan_of first_kernel register sample_caller ≡ ok node_plan
unfolding plan_of register_node get
node_accepted = refl

-- The handler of the event of a registered node puts the node where the command does.
command-replays_example :
    on_record
      (envelope first_kernel node_plan.draft 7 "event:key-1")
      node_plan.draft.payload
      empty_registry
    ≡ ok (record empty_registry { nodes = put empty "node:a" sample_node })
command-replays_example =
    command-replays first_kernel register sample_caller node_plan 7 "event:key-1" empty-IsFiled
      node_accepted

abbrev with_node : Kernel
with_node = (execute sample_dump sample_platform 7 register sample_caller first_kernel).1

-- The Kernel with the node, after a method of the activation that is refused.
abbrev later : Kernel
later =
    with_service with_node
      (perform sample_dump sample_platform sample_decimal 8 Method.start_reorientation sample_caller
        (service_of with_node)).1

abbrev restarted : Projection
restarted = record {
  kernel = record first_kernel { ledger = later.ledger };
  others = λ _. 0;
  cursor = 0;
}

rebuild-apply_page_example : rebuild 1 restarted ≡ apply_page later.ledger.events restarted
rebuild-apply_page_example = rebuild-apply_page 1 restarted (omega arith)

abbrev failure_move : Move
failure_move = record {
  event_type = "reorientation_failed";
  payload = Payload.reorientation_failed "timeout";
  actor_type = system;
  caller = sample_caller;
  write = λ event cursor s. end_attempt "timeout" s;
}

failure_accepted :
    move_of sample_decimal running (Method.record_reorientation_failure "timeout") sample_caller
    ≡ ok (some failure_move)
unfolding move_of record_reorientation_failure
failure_accepted = refl

move_of-IsReplayed_example : IsReplayed running failure_move
move_of-IsReplayed_example =
    move_of-IsReplayed running sample_caller sample_decimal
      (Method.record_reorientation_failure "timeout") failure_move (λ early. absurd (cc (early)))
      failure_accepted
