-- ===== src/Projection/Receipts.antt =====
-- vsm/projection.py: the replay of PilotHost receipts and of accepted risks, whose handlers look up
-- what the commands have at hand: the assignment that a receipt names, the WorkItem of a finding.
use nanihold_os.Prelude.{
  ℕ, String, ◌≡◌, refl, ap, true, Option, none, some, inl, inr, Option-cases, ◌==◌, eq_iff, is_some,
  option_eq,
}
use nanihold_os.Result.{ok, Ensures, Ensures-ok, Ensures-raise_if, Ensures-require, Ensures-bind}
use nanihold_os.Dict.{get, put, first_value, get-first_value}
use nanihold_os.Models.Work.{S3StarFinding}
use nanihold_os.Models.Execution.{Execution, ExecutionState}
use nanihold_os.Models.Naming.{AgentNameAssignment}
use nanihold_os.Models.Payload.{PilotReceipt}
use nanihold_os.Activation.{Caller}
use nanihold_os.Kernel.{Kernel, Plan}
use nanihold_os.Kernel.Executions.{record_pilot_execution_receipt, assignment_id_of}
use nanihold_os.Kernel.Findings.{accept_s3_star_risk, release_work}
use nanihold_os.Kernel.Filing.{IsFiled}
use nanihold_os.Projection.{on_record}
use nanihold_os.Projection.Records.{
  assignment_matches, on_pilot_execution_receipt_recorded, on_s3_star_risk_accepted,
}
use nanihold_os.Projection.Commands.{Replays}

option_eq_self : (o : Option String) → option_eq o o ≡ true
option_eq_self none = refl
option_eq_self (some a) = (eq_iff a a).1 refl

ruleset steps = (Ensures-ok, Ensures-raise_if, Ensures-require, Ensures-bind)

module _ (k : Kernel) (h : IsFiled k.registry) (c : Caller) where
  -- The assignment that a receipt names is the first of the Execution, and found under its id.
  assignment_is_found :
      (x : String)
      → assignment_matches k.registry.agent_name_assignments x (
          assignment_id_of (
            first_value
              (λ (a : AgentNameAssignment). a.execution_id == x)
              k.registry.agent_name_assignments))
        ≡ true
  assignment_is_found x =
      elim (Option-cases (
        first_value (λ (a : AgentNameAssignment). a.execution_id == x)
          k.registry.agent_name_assignments)) [
            | inl missing ↦ rw missing refl
            | inr (a, first) ↦
                let (id, found, holds) =
                  get-first_value (λ (a : AgentNameAssignment). a.execution_id == x) a
                    k.registry.agent_name_assignments h.distinct_assignments first in
                rw (first, h.assignments_under_id id a found, found) holds
          ]

  pub receipt-Replays :
      (x : String) (r : PilotReceipt) (p : Plan)
      → record_pilot_execution_receipt k x r c ≡ ok p
      → Replays k p
  unfolding on_record record_pilot_execution_receipt
  receipt-Replays x r p q =
      let leaf : (e : Execution) (next : ExecutionState × Option String)
          → get k.registry.executions x ≡ some e
          → (now : ℕ) (id : String)
          → on_pilot_execution_receipt_recorded x x e.work_item_id
              (assignment_id_of (
                first_value (λ (a : AgentNameAssignment). a.execution_id == x)
                  k.registry.agent_name_assignments))
              next.0 r.provider_session_id next.1 e.agent_name k.registry
            ≡ ok (record (k.registry) {
              executions = put k.registry.executions x (record e {
                state = next.0;
                provider_session_id = r.provider_session_id;
                pause_reason = next.1;
              });
            }) =
        λ e next found now id.
          rw
            (
              found,
              (eq_iff x x).1 refl,
              (eq_iff e.work_item_id e.work_item_id).1 refl,
              assignment_is_found x,
              option_eq_self e.agent_name,
            )
            refl in
      let all : Ensures (Replays k) (record_pilot_execution_receipt k x r c) =
        search (steps, leaf) depth 24 in
      all.at p q

  pub accept-Replays :
      (x node rationale : String) (p : Plan)
      → accept_s3_star_risk k x node rationale c ≡ ok p
      → Replays k p
  unfolding on_record accept_s3_star_risk
  accept-Replays x node rationale p q =
      let leaf : (f : S3StarFinding)
          → get k.registry.findings x ≡ some f
          → (now : ℕ) (id : String)
          → on_s3_star_risk_accepted f.work_item_id x k.registry
            ≡ ok (record (k.registry) {
              findings = put k.registry.findings x (record f { accepted_by_s5 = true });
              work_items =
                  release_work k.registry.work_items x (get k.registry.work_items f.work_item_id);
            }) =
        λ f found now id. elim (Option-cases (get k.registry.work_items f.work_item_id)) [
          | inl missing ↦ absurd (cc (ap is_some missing, h.findings_of_works x f found))
          | inr (w, work) ↦ rw (found, work, h.works_under_id f.work_item_id w work) refl
        ] in
      let all : Ensures (Replays k) (accept_s3_star_risk k x node rationale c) =
        search (steps, leaf) depth 24 in
      all.at p q
