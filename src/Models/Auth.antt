-- ===== src/Models/Auth.antt =====
-- vsm/auth.py: the codes and sessions of the owner. Only digests of codes and tokens are kept. A time
-- is a number of seconds.
use nanihold_os.Prelude.{ℕ, String, Option}

pub record BootstrapCodeRecord : Type 0 where
  pub bootstrap_id : String
  pub owner_id : String
  pub code_sha256 : String
  pub issued_at : ℕ
  pub expires_at : ℕ
  pub used_at : Option ℕ

pub data BrowserSessionState : Type 0 where
  active revoked : BrowserSessionState

pub record BrowserSessionRecord : Type 0 where
  pub session_id : String
  pub owner_id : String
  pub device_id : String
  pub token_sha256 : String
  pub issued_at : ℕ
  pub expires_at : ℕ
  pub state : BrowserSessionState

pub record OwnerBootstrapGrant : Type 0 where
  pub bootstrap_id : String
  pub code : String
  pub link : String
  pub expires_at : ℕ

pub record OwnerSessionGrant : Type 0 where
  pub session_token : String
  pub device_id : String
  pub expires_at : ℕ
