-- ===== src/Models/Route.antt =====
-- vsm/kernel/models.py: RouteSnapshots, with the validator that ties the approvals to the state.
use nanihold_os.Prelude.{
  ℕ, String, Bool, true, false, not, ◌&&◌, Option, List, [], ◌∷◌, is_none, is_some, distinct,
}

pub data RouteSnapshotState : Type 0 where
  draft s3_star_approved owner_approved published retired : RouteSnapshotState

abbrev pub is_draft : RouteSnapshotState → Bool
is_draft RouteSnapshotState.draft = true
is_draft _ = false

abbrev pub is_s3_star_approved : RouteSnapshotState → Bool
is_s3_star_approved RouteSnapshotState.s3_star_approved = true
is_s3_star_approved _ = false

abbrev pub is_owner_approved : RouteSnapshotState → Bool
is_owner_approved RouteSnapshotState.owner_approved = true
is_owner_approved _ = false

abbrev pub is_published : RouteSnapshotState → Bool
is_published RouteSnapshotState.published = true
is_published _ = false

abbrev pub is_retired : RouteSnapshotState → Bool
is_retired RouteSnapshotState.retired = true
is_retired _ = false

-- `replacement.state in (OWNER_APPROVED, PUBLISHED)`
abbrev pub is_replacement_state : RouteSnapshotState → Bool
is_replacement_state RouteSnapshotState.owner_approved = true
is_replacement_state RouteSnapshotState.published = true
is_replacement_state _ = false

pub data RouteSnapshotRetirementReason : Type 0 where
  superseded_by_approved_snapshot route_decommissioned : RouteSnapshotRetirementReason

pub data ProductionObjective : Type 0 where
  reliability_then_cost expected_utility quality_max : ProductionObjective

pub record RouteSnapshot : Type 0 where
  pub snapshot_id : String
  pub data_space_id : String
  pub route_key : String
  pub evidence_cursor : ℕ
  pub candidate_keys : List String
  pub production_objective : ProductionObjective
  pub state : RouteSnapshotState
  pub s3_star_approval_event_id : Option String
  pub owner_approval_event_id : Option String

-- The part of the validator that reads the approvals.
abbrev pub approvals_are_consistent : RouteSnapshotState → Option String → Option String → Bool
approvals_are_consistent RouteSnapshotState.draft s3_star owner = is_none s3_star && is_none owner
approvals_are_consistent RouteSnapshotState.s3_star_approved s3_star owner =
    is_some s3_star && is_none owner
approvals_are_consistent _ s3_star owner = is_some s3_star && is_some owner

abbrev is_empty : List String → Bool
is_empty [] = true
is_empty (_ ∷ _) = false

-- `RouteSnapshot.candidates_and_approvals_are_consistent`
unfoldable pub candidates_and_approvals_are_consistent : RouteSnapshot → Bool
candidates_and_approvals_are_consistent s =
    (not (is_empty s.candidate_keys) && distinct s.candidate_keys)
    && approvals_are_consistent s.state s.s3_star_approval_event_id s.owner_approval_event_id
