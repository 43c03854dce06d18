-- ===== src/Samples/Owners.antt =====
-- The theorems on the codes and sessions of the owner, tried on a service with one code.
use nanihold_os.Prelude.{◌<◌, ◌≤◌, ◌≡◌, refl, true, false, none, ◌==◌}
use nanihold_os.Result.{Error, Result, ok, err}
use nanihold_os.Dict.{empty, put, get, any_value, first_value}
use nanihold_os.Dict.First.{IsKeyed, put-IsKeyed, empty-IsKeyed}
use nanihold_os.Ids.{deterministic_event_id, validate_id}
use nanihold_os.Models.Auth.{BootstrapCodeRecord, BrowserSessionRecord, OwnerSessionGrant}
use nanihold_os.Models.Activation.{ActivationState}
use nanihold_os.Ledger.{
  new_ledger, append, screen, store, stream_of, same_or_collision, check_version,
}
use nanihold_os.Models.Event.{has_valid_fields}
use nanihold_os.Owner.{Service, new_owner_bootstrap, run, exchange_step, authenticate}
use nanihold_os.Owner.Codes.{code_opens_one_session, session_authenticates}
use nanihold_os.Samples.{sample_dump, sample_platform}

abbrev sample_code : BootstrapCodeRecord
sample_code = record {
  bootstrap_id = "bootstrap:1";
  owner_id = "owner:ada";
  code_sha256 = "code";
  issued_at = 1;
  expires_at = 100;
  used_at = none;
}

abbrev sample_service : Service
sample_service = record {
  owner = record (new_owner_bootstrap (λ s. "home") "space:home" "owner:ada") {
    codes = put empty "bootstrap:1" sample_code;
  };
  ledger = new_ledger "space:home";
}

abbrev exchanged : Result OwnerSessionGrant × Service
exchanged =
    run sample_dump sample_platform
      (exchange_step (λ s. s) (λ s. s) sample_service.owner ActivationState.active true "code"
        "laptop" 60 "token" "owner-session:1" 5)
      "key-1" 6 sample_service

abbrev sample_grant : OwnerSessionGrant
sample_grant = record { session_token = "token"; device_id = "laptop"; expires_at = 65 }

exchange_returns : exchanged.0 ≡ ok sample_grant
unfolding run exchange_step append screen store stream_of same_or_collision check_version
    deterministic_event_id validate_id has_valid_fields get put first_value
exchange_returns = refl

sample_codes-IsKeyed :
    IsKeyed (λ (r : BootstrapCodeRecord). r.bootstrap_id) sample_service.owner.codes
sample_codes-IsKeyed =
    put-IsKeyed (λ r. r.bootstrap_id) sample_code empty (empty-IsKeyed (λ r. r.bootstrap_id))

-- The same code from another device.
code_opens_one_session_example :
    (e : Error) × (exchange_step
        (λ s. s)
        (λ s. s)
        exchanged.1.owner
        ActivationState.active
        true
        "code"
        "phone"
        60
        "token-2"
        "owner-session:2"
        7
      ≡ err e)
code_opens_one_session_example =
    code_opens_one_session sample_dump sample_platform (λ s. s) (λ s. s) sample_service
      ActivationState.active true "code" "laptop" 60 "token" "owner-session:1" "key-1" 5 6
      sample_grant sample_codes-IsKeyed exchange_returns ActivationState.active true "phone" 60
      "token-2" "owner-session:2" 7

no_session :
    any_value
      (λ (r : BrowserSessionRecord). r.token_sha256 == "token")
      sample_service.owner.sessions
    ≡ false
unfolding any_value
no_session = refl

session_authenticates_example :
    (10 < 65 → authenticate (λ s. s) exchanged.1.owner "token" 10 ≡ ok "laptop")
    × (65 ≤ 10 → (e : Error) × (authenticate (λ s. s) exchanged.1.owner "token" 10 ≡ err e))
session_authenticates_example =
    session_authenticates sample_dump sample_platform (λ s. s) (λ s. s) sample_service
      ActivationState.active true "code" "laptop" 60 "token" "owner-session:1" "key-1" 5 6
      sample_grant no_session exchange_returns 10
