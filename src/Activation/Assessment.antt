-- ===== src/Activation/Assessment.antt =====
-- vsm/activation/service.py: `submit_assessment`, which accepts the reorientation assessment only
-- with evidence. `decimal` writes an index as Python's f-string does.
use nanihold_os.Prelude.{
  ℕ, ◌+◌, String, Bool, true, false, not, ◌&&◌, Option, none, some, List, [], ◌∷◌, ◌++◌, ◌==◌, map,
  any, nat_eq, ltb, contains, concat,
}
use nanihold_os.Result.{Result, ok, ◌>>=◌, ◌>>◌, raise_if, require_some}
use nanihold_os.Models.Event.{pilot}
use nanihold_os.Models.Payload
use nanihold_os.Models.Activation.{
  ActivationState, ReorientationAssessment, EvidenceCitation, is_reorientation_only,
}
use nanihold_os.Activation.{Activation, Caller, Move}

-- `set(xs).issubset(ys)`
abbrev pub subset : List String → List String → Bool
subset [] ys = true
subset (x ∷ xs) ys = contains x ys && subset xs ys

-- `set(xs) == set(ys)`
abbrev pub same_set : List String → List String → Bool
same_set xs ys = subset xs ys && subset ys xs

abbrev is_empty : List String → Bool
is_empty [] = true
is_empty (_ ∷ _) = false

abbrev is_conversation : String → Option String → Bool
is_conversation conversation_id none = false
is_conversation conversation_id (some c) = conversation_id == c

module _ (decimal : ℕ → String) where
  -- `f"{name}:{index}" for index in range(len(claims))`, from an index on.
  abbrev pub numbered_claims : String → ℕ → List String → List String
  numbered_claims name index [] = []
  numbered_claims name index (_ ∷ rest) =
      concat name (decimal index) ∷ numbered_claims name (index + 1) rest

  abbrev pub required_claims : ReorientationAssessment → List String
  required_claims s =
      "understanding"
      ∷ (numbered_claims "active_missions:" 0 s.active_missions
          ++ numbered_claims "decisions_and_constraints:" 0 s.decisions_and_constraints)

  -- The tests from the open commitments on, which read the evidence.
  abbrev pub check_evidence :
      Activation → ReorientationAssessment → List String → List String → Result (Unit {0})
  check_evidence a s open_commitment_ids existing_work_item_ids = do
    raise_if (not (same_set s.open_commitment_ids open_commitment_ids))
        "assessment open commitments are incomplete or stale"
    raise_if (not (is_empty existing_work_item_ids) && is_empty s.resume_work_item_ids)
        "assessment must select at least one current WorkItem for resume"
    raise_if (not (subset s.resume_work_item_ids existing_work_item_ids))
        "assessment references an unknown resume WorkItem"
    raise_if (ltb s.history_cursor a.import_event_cursor)
        "assessment history cursor predates verified import"
    raise_if (ltb s.current_state_cursor s.history_cursor)
        "current state must be read after history"
    raise_if (not (contains "get_current_state" a.history_query_operations))
        "assessment requires a current-state history query"
    raise_if
        (not (subset (required_claims s) (map (λ (c : EvidenceCitation). c.claim_ref) s.citations)))
        "assessment contains claims without evidence citations"
    raise_if
        (any (λ (c : EvidenceCitation). not (contains c.evidence_ref a.history_query_event_ids))
          s.citations)
        "assessment citations must reference audited history query results"

  unfoldable pub submit_assessment :
      Activation → ReorientationAssessment → List String → List String → Bool → Caller → Result Move
  submit_assessment a s open_commitment_ids existing_work_item_ids session_index_listed_to_end
        caller =
      do
        raise_if (not (is_reorientation_only a.state))
            "assessment requires reorientation-only state"
        raise_if (not a.reorientation_attempt_in_progress)
            "assessment requires a reorientation attempt in progress"
        receipt ← require_some a.import_receipt "assessment does not reference the verified import"
        raise_if (not (s.import_id == receipt.inventory_id))
            "assessment does not reference the verified import"
        raise_if (not (is_conversation s.conversation_id a.reorientation_conversation_id))
            "assessment does not reference the imported canonical Conversation"
        raise_if (not (s.covered_session_index_ref == receipt.session_index_ref))
            "assessment session index differs from verified import"
        raise_if (not (nat_eq s.covered_session_count receipt.session_count))
            "assessment session count differs from verified import"
        raise_if (not session_index_listed_to_end)
            "assessment requires a complete list_sessions traversal"
        check_evidence a s open_commitment_ids existing_work_item_ids
        ok (record {
          event_type = "reorientation_assessment_accepted";
          payload =
              Payload.reorientation_assessment_accepted s
                ActivationState.awaiting_owner_confirmation;
          actor_type = pilot;
          caller = caller;
          write = λ event cursor t. record t {
            assessment = some s;
            state = ActivationState.awaiting_owner_confirmation;
            pending_reorientation_revision_reason = none;
            reorientation_attempt_in_progress = false;
            reorientation_attempt_started_stream_version = none;
          };
        })
