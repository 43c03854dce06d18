-- ===== src/Models/Effect.antt =====
-- vsm/kernel/models.py: Effect Leases, their approvals and the budget reservations.
use nanihold_os.Prelude.{ℕ, String, Bool, true, false}

pub data EffectLeaseState : Type 0 where
  planned active succeeded failed unknown revoked : EffectLeaseState

abbrev pub is_planned : EffectLeaseState → Bool
is_planned EffectLeaseState.planned = true
is_planned _ = false

abbrev pub is_active : EffectLeaseState → Bool
is_active EffectLeaseState.active = true
is_active _ = false

abbrev pub is_unknown : EffectLeaseState → Bool
is_unknown EffectLeaseState.unknown = true
is_unknown _ = false

-- `lease.state in (PLANNED, ACTIVE)`
abbrev pub is_revocable : EffectLeaseState → Bool
is_revocable EffectLeaseState.planned = true
is_revocable EffectLeaseState.active = true
is_revocable _ = false

-- `result in (SUCCEEDED, FAILED)`
abbrev pub is_result : EffectLeaseState → Bool
is_result EffectLeaseState.succeeded = true
is_result EffectLeaseState.failed = true
is_result _ = false

pub record EffectLease : Type 0 where
  pub lease_id : String
  pub data_space_id : String
  pub work_item_id : String
  pub execution_id : String
  pub effect_kind : String
  pub target : String
  pub idempotency_key : String
  pub plan_sha256 : String
  pub state : EffectLeaseState
  pub expires_at : ℕ

pub record EffectApproval : Type 0 where
  pub lease_id : String
  pub approved_by : String
  pub approved_at : ℕ

pub data BudgetReservationState : Type 0 where
  reserved consumed released : BudgetReservationState

-- The amount is a positive float that the Kernel only stores: it is kept as its decimal text.
pub record BudgetReservation : Type 0 where
  pub reservation_id : String
  pub data_space_id : String
  pub work_item_id : String
  pub currency : String
  pub amount : String
  pub token_limit : ℕ
  pub state : BudgetReservationState
