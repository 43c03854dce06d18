-- ===== src/Models/Grant.antt =====
-- vsm/kernel/models.py: grants of capabilities and of references across DataSpaces, and the two
-- policies of a Kernel.
use nanihold_os.Prelude.{ℕ, String, Bool, true, false, List}

pub data GrantState : Type 0 where
  active revoked expired : GrantState

abbrev pub is_active : GrantState → Bool
is_active GrantState.active = true
is_active _ = false

pub record CapabilityGrant : Type 0 where
  pub grant_id : String
  pub data_space_id : String
  pub grantor_node_id : String
  pub grantee_node_id : String
  pub capabilities : List String
  pub purpose : String
  pub valid_from : ℕ
  pub expires_at : ℕ
  pub state : GrantState

pub record ReferenceGrant : Type 0 where
  pub grant_id : String
  pub source_data_space_id : String
  pub target_data_space_id : String
  pub granted_by : String
  pub purpose : String
  pub subject_refs : List String
  pub valid_from : ℕ
  pub expires_at : ℕ
  pub state : GrantState
