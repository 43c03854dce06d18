-- ===== src/Models/Activation.antt =====
-- vsm/activation/models.py: the states of activation, the verified history import, the snapshot of
-- the Work Graph and the reorientation assessment.
use nanihold_os.Prelude.{
  ℕ, ◌+◌, String, Bool, true, false, not, ◌&&◌, List, [], ◌∷◌, ◌==◌, map, any, length, nat_eq,
  distinct, String-discrete,
}
use native.Mathlib.Decide.{ℕ_discrete}
use nanihold_os.Models.Node.{UvsmNode, UvsmNode-discrete}
use nanihold_os.Models.Work.{WorkItem, WorkItem-discrete, WorkEdge, WorkEdge-discrete}

pub data ActivationState : Type 0 where
  uncommissioned history_imported reorientation_only awaiting_owner_confirmation active :
      ActivationState

abbrev pub is_uncommissioned : ActivationState → Bool
is_uncommissioned ActivationState.uncommissioned = true
is_uncommissioned _ = false

abbrev pub is_reorientation_only : ActivationState → Bool
is_reorientation_only ActivationState.reorientation_only = true
is_reorientation_only _ = false

abbrev pub is_awaiting : ActivationState → Bool
is_awaiting ActivationState.awaiting_owner_confirmation = true
is_awaiting _ = false

abbrev pub is_active : ActivationState → Bool
is_active ActivationState.active = true
is_active _ = false

pub data ReorientationRevisionReason : Type 0 where
  missing_resume_work_item owner_correction : ReorientationRevisionReason

pub data HistorySourceKind : Type 0 where
  claude_code claude_ai codex intercom lethe nanihold_legacy system_snapshot : HistorySourceKind

abbrev pub rank : HistorySourceKind → ℕ
rank HistorySourceKind.claude_code = 1
rank HistorySourceKind.claude_ai = 2
rank HistorySourceKind.codex = 3
rank HistorySourceKind.intercom = 4
rank HistorySourceKind.lethe = 5
rank HistorySourceKind.nanihold_legacy = 6
rank HistorySourceKind.system_snapshot = 7

pub record HistorySession : Type 0 where
  pub session_ref : String
  pub source_session_id : String
  pub source_kind : HistorySourceKind
  pub source_id : String
  pub message_count : ℕ
  pub first_message_at : ℕ
  pub last_message_at : ℕ

pub record HistorySourceManifest : Type 0 where
  pub source_id : String
  pub source_kind : HistorySourceKind
  pub owner_id : String
  pub record_count : ℕ
  pub raw_bytes : ℕ
  pub digest_sha256 : String
  pub cutover_cursor : String

-- The fields `schema` and `schema_version` have one value each, and are left out.
pub record HistoryImportReceipt : Type 0 where
  pub inventory_id : String
  pub data_space_id : String
  pub manifest_digest : String
  pub record_count : ℕ
  pub raw_bytes : ℕ
  pub cross_source_overlap_identities : ℕ
  pub sources : List HistorySourceManifest
  pub session_count : ℕ
  pub sessions : List HistorySession
  pub session_index_ref : String
  pub open_commitments_ref : String
  pub current_state_ref : String

pub HistoryImportReceipt-discrete : Discrete HistoryImportReceipt
HistoryImportReceipt-discrete = hlevel (String-discrete, ℕ_discrete)

abbrev pub has_kind : HistorySourceKind → List HistorySourceManifest → Bool
has_kind k sources = any (λ s. nat_eq (rank s.source_kind) (rank k)) sources

-- `{source.source_kind for source in sources} == REQUIRED_HISTORY_SOURCE_KINDS`: the required set
-- holds every kind, so the two are equal when no kind is missing.
unfoldable pub covers_required_kinds : List HistorySourceManifest → Bool
covers_required_kinds sources =
    has_kind HistorySourceKind.claude_code sources
    && has_kind HistorySourceKind.claude_ai sources
    && has_kind HistorySourceKind.codex sources
    && has_kind HistorySourceKind.intercom sources
    && has_kind HistorySourceKind.lethe sources
    && has_kind HistorySourceKind.nanihold_legacy sources
    && has_kind HistorySourceKind.system_snapshot sources

abbrev sum_of : (HistorySourceManifest → ℕ) → List HistorySourceManifest → ℕ
sum_of f [] = 0
sum_of f (s ∷ rest) = f s + sum_of f rest

-- The session's source is among the sources, with the session's kind.
abbrev has_provenance : List HistorySourceManifest → HistorySession → Bool
has_provenance sources session =
    any
      (λ s.
        s.source_id == session.source_id && nat_eq (rank s.source_kind) (rank session.source_kind))
      sources

-- `HistoryImportReceipt.totals_and_coverage_are_consistent`; source identities are tested to be
-- unique first, so a session's source is the only one of its identity.
unfoldable pub totals_and_coverage_are_consistent : HistoryImportReceipt → Bool
unfolding covers_required_kinds
totals_and_coverage_are_consistent r =
    distinct (map (λ s. s.source_id) r.sources)
    && covers_required_kinds r.sources
    && nat_eq (sum_of (λ s. s.record_count) r.sources) r.record_count
    && nat_eq (sum_of (λ s. s.raw_bytes) r.sources) r.raw_bytes
    && nat_eq (length r.sessions) r.session_count
    && distinct (map (λ s. s.session_ref) r.sessions)
    && not (any (λ s. not (has_provenance r.sources s)) r.sessions)

pub record CurrentWorkGraphSnapshot : Type 0 where
  pub snapshot_id : String
  pub data_space_id : String
  pub captured_at : ℕ
  pub nodes : List UvsmNode
  pub work_items : List WorkItem
  pub edges : List WorkEdge
  pub snapshot_sha256 : String

pub CurrentWorkGraphSnapshot-discrete : Discrete CurrentWorkGraphSnapshot
CurrentWorkGraphSnapshot-discrete =
    hlevel (String-discrete, ℕ_discrete, UvsmNode-discrete, WorkItem-discrete, WorkEdge-discrete)

pub record EvidenceCitation : Type 0 where
  pub claim_ref : String
  pub evidence_ref : String

pub record ReorientationAssessment : Type 0 where
  pub assessment_id : String
  pub import_id : String
  pub conversation_id : String
  pub generated_at : ℕ
  pub understanding : String
  pub active_missions : List String
  pub decisions_and_constraints : List String
  pub open_commitment_ids : List String
  pub unknowns : List String
  pub resume_work_item_ids : List String
  pub covered_session_index_ref : String
  pub covered_session_count : ℕ
  pub history_cursor : ℕ
  pub current_state_cursor : ℕ
  pub citations : List EvidenceCitation
