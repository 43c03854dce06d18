-- ===== src/Kernel/Findings.antt =====
-- vsm/kernel/service.py: S3* findings, and the acceptance of their risk by the S5 of the node.
use nanihold_os.Prelude.{
  String, true, not, Option, none, some, List, [], ◌∷◌, ◌++◌, ◌==◌, if◌then◌else◌, keep,
}
use nanihold_os.Result.{Error, Result, ok, key_error, ◌>>=◌, ◌>>◌, raise_if, require_some}
use nanihold_os.Dict.{Dict, get, put, member}
use nanihold_os.Models.Work.{WorkItem, WorkState, S3StarFinding, is_severe}
use nanihold_os.Models.Event.{human, system}
use nanihold_os.Models.Payload
use nanihold_os.Activation.{Caller}
use nanihold_os.Kernel.{Kernel, Plan, draft_of}

abbrev pub block_by : String → WorkItem → WorkItem
block_by finding_id work = record work {
  state = WorkState.blocked;
  blocking_s3_star_finding_ids = work.blocking_s3_star_finding_ids ++ finding_id ∷ [];
}

unfoldable pub record_s3_star_finding : Kernel → S3StarFinding → Caller → Result Plan
record_s3_star_finding k finding caller = do
  work ←
      require_some (get k.registry.work_items finding.work_item_id)
        "S3* finding target does not exist"
  raise_if (not (member k.registry.nodes finding.node_id)) "S3* finding target does not exist"
  raise_if finding.accepted_by_s5 "a new S3* finding cannot start accepted"
  ok (record {
    draft =
        draft_of system finding.work_item_id "s3_star_finding_recorded"
          (Payload.s3_star_finding_recorded finding) caller finding.work_item_id;
    next = λ _. record (k.registry) {
      findings = put k.registry.findings finding.finding_id finding;
      work_items =
          if is_severe finding.severity
          then put k.registry.work_items work.work_item_id (block_by finding.finding_id work)
          else k.registry.work_items;
    };
    raises = none;
  })

abbrev pub without : String → List String → List String
without finding_id = keep (λ blocker. not (blocker == finding_id))

abbrev state_by : List String → WorkState
state_by [] = WorkState.ready
state_by (_ ∷ _) = WorkState.blocked

abbrev pub release : String → WorkItem → WorkItem
release finding_id work =
    let blockers = without finding_id work.blocking_s3_star_finding_ids in
    record work { state = state_by blockers; blocking_s3_star_finding_ids = blockers }

-- `self.work_items[finding.work_item_id]` is read after the event and the write of the finding: a
-- missing WorkItem leaves these, and is a `KeyError`.
abbrev pub missing_work : String → Option WorkItem → Option Error
missing_work work_item_id none = some (key_error work_item_id)
missing_work work_item_id (some _) = none

abbrev pub release_work : Dict WorkItem → String → Option WorkItem → Dict WorkItem
release_work d finding_id none = d
release_work d finding_id (some work) = put d work.work_item_id (release finding_id work)

unfoldable pub accept_s3_star_risk : Kernel → String → String → String → Caller → Result Plan
accept_s3_star_risk k finding_id s5_node_id rationale caller = do
  finding ← require_some (get k.registry.findings finding_id) "S3* finding not found"
  raise_if (not (s5_node_id == finding.node_id)) "risk acceptance must come from same-level S5"
  ok (record {
    draft =
        draft_of human finding.work_item_id "s3_star_risk_accepted"
          (Payload.s3_star_risk_accepted finding_id s5_node_id rationale) caller
          finding.work_item_id;
    next = λ _. record (k.registry) {
      findings = put k.registry.findings finding_id (record finding { accepted_by_s5 = true });
      work_items =
          release_work k.registry.work_items finding_id
            (get k.registry.work_items finding.work_item_id);
    };
    raises = missing_work finding.work_item_id (get k.registry.work_items finding.work_item_id);
  })
