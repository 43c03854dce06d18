-- ===== src/Owner.antt =====
-- vsm/auth.py: `OwnerBootstrapService`, which lets the owner's browser in. The hashing of a text,
-- `str.strip` and `str.rstrip('/')` are parameters; what `secrets` and `new_id` draw is an argument,
-- as are the answers of the two callbacks. The clock reads `now`, and `later` for the event.
pub mod Codes
use nanihold_os.Prelude.{
  ℕ, ◌+◌, String, Bool, true, false, not, ◌||◌, Option, none, some, ◌==◌, leb, ltb, is_some, concat,
}
use nanihold_os.Result.{Result, ok, err, invariant_violation, ◌>>=◌, ◌>>◌, raise_if, require_some}
use nanihold_os.Dict.{Dict, empty, put, first_value}
use nanihold_os.Ids.{Platform, deterministic_event_id}
use nanihold_os.Models.Auth.{
  BootstrapCodeRecord, BrowserSessionRecord, BrowserSessionState, OwnerBootstrapGrant,
  OwnerSessionGrant,
}
use nanihold_os.Models.Activation.{ActivationState, is_uncommissioned}
use nanihold_os.Models.Event.{EventEnvelope, AppendResult, system, id_of_valid}
use nanihold_os.Models.Payload
use nanihold_os.Models.Payload.{Payload}
use nanihold_os.Ledger.{Ledger, append}

pub record OwnerBootstrap : Type 0 where
  pub data_space_id : String
  pub owner_id : String
  pub codes : Dict BootstrapCodeRecord
  pub sessions : Dict BrowserSessionRecord
  pub stream_id : String
  pub version : ℕ

-- `OwnerBootstrapService.__init__`. `after_colon` is `s.split(':', 1)[-1]`.
abbrev pub new_owner_bootstrap : (String → String) → String → String → OwnerBootstrap
new_owner_bootstrap after_colon data_space_id owner_id = record {
  data_space_id = data_space_id;
  owner_id = owner_id;
  codes = empty;
  sessions = empty;
  stream_id = concat "owner-auth:" (after_colon data_space_id);
  version = 0;
}

-- The service and the ledger that it shares with the Kernel.
pub record Service : Type 0 where
  pub owner : OwnerBootstrap
  pub ledger : Ledger Payload

-- `_commissioned`, by what the callbacks answer.
abbrev pub commissioned : ActivationState → Bool → Result (Unit {0})
commissioned state owner_node_exists =
    raise_if (is_uncommissioned state || not owner_node_exists)
      "owner bootstrap requires commissioned history and owner node"

abbrev pub envelope :
    OwnerBootstrap → String → Payload → String → ℕ → String → EventEnvelope Payload
envelope o event_type payload idempotency_key later event_id = record {
  event_id = event_id;
  data_space_id = o.data_space_id;
  stream_id = o.stream_id;
  stream_version = o.version + 1;
  event_type = event_type;
  occurred_at = later;
  actor_type = system;
  actor_id = none;
  correlation_id = some o.stream_id;
  causation_id = none;
  idempotency_key = idempotency_key;
  payload = payload;
}

-- What a method does: the event, the writes after it, and the answer.
pub record Step (A : Type 0) : Type 0 where
  pub event_type : String
  pub payload : Payload
  pub write : OwnerBootstrap → OwnerBootstrap
  pub answer : A

module _ (dump : EventEnvelope Payload → String) (platform : Platform) {A : Type 0} where
  abbrev pub after_append :
      Step A → OwnerBootstrap → Result AppendResult × Ledger Payload → Result A × Service
  after_append step o (err e, ledger) = (err e, record { owner = o; ledger = ledger })
  after_append step o (ok result, ledger) = (
    ok step.answer,
    record { owner = step.write (record o { version = result.stream_version }); ledger = ledger },
  )

  abbrev pub with_event_id : Step A → String → ℕ → Service → Result String → Result A × Service
  with_event_id step key later s (err e) = (err e, s)
  with_event_id step key later s (ok event_id) =
      let event = envelope s.owner step.event_type step.payload key later event_id in
      after_append step s.owner (append dump event s.owner.version s.ledger)

  -- The id of the event, which its key determines, if `EventEnvelope(...)` accepts the fields.
  abbrev new_event_id : Step A → String → ℕ → Service → Result String
  new_event_id step key later s = do
    event_id ← deterministic_event_id platform s.owner.data_space_id s.owner.stream_id key
    id_of_valid (envelope s.owner step.event_type step.payload key later event_id)

  -- `_record`, the writes after it and the return; or what the tests have raised.
  unfoldable pub run : Result (Step A) → String → ℕ → Service → Result A × Service
  run (err e) key later s = (err e, s)
  run (ok step) key later s = with_event_id step key later s (new_event_id step key later s)

abbrev is_active : BrowserSessionState → Bool
is_active BrowserSessionState.active = true
is_active BrowserSessionState.revoked = false

module _ (sha : String → String) where
  module _ (rstrip : String → String) where
    -- `issue` up to its event; `code` and `bootstrap_id` are drawn.
    unfoldable pub issue_step :
        OwnerBootstrap
        → ActivationState
        → Bool
        → String
        → ℕ
        → String
        → String
        → ℕ
        → Result (Step OwnerBootstrapGrant)
    issue_step o state owner_node_exists base_url lifetime_seconds code bootstrap_id now = do
      commissioned state owner_node_exists
      raise_if (leb lifetime_seconds 0 || ltb 900 lifetime_seconds)
          "bootstrap lifetime must be 1..900 seconds"
      let issued : BootstrapCodeRecord = record {
        bootstrap_id = bootstrap_id;
        owner_id = o.owner_id;
        code_sha256 = sha code;
        issued_at = now;
        expires_at = now + lifetime_seconds;
        used_at = none;
      }
      ok (record {
        event_type = "owner_bootstrap_issued";
        payload = Payload.owner_bootstrap_issued issued;
        write = λ o. record o { codes = put o.codes issued.bootstrap_id issued };
        answer = record {
          bootstrap_id = bootstrap_id;
          code = code;
          link = concat (rstrip base_url) (concat "/owner-bootstrap?code=" code);
          expires_at = issued.expires_at;
        };
      })

  -- `next((item for item in self.codes.values() if item.code_sha256 == digest), None)`
  abbrev pub code_of : OwnerBootstrap → String → Option BootstrapCodeRecord
  code_of o code = first_value (λ (r : BootstrapCodeRecord). r.code_sha256 == sha code) o.codes

  module _ (strip : String → String) where
    -- `exchange` up to its event; `token` and `session_id` are drawn.
    unfoldable pub exchange_step :
        OwnerBootstrap
        → ActivationState
        → Bool
        → String
        → String
        → ℕ
        → String
        → String
        → ℕ
        → Result (Step OwnerSessionGrant)
    exchange_step o state owner_node_exists code device_id session_lifetime_seconds token session_id
          now =
        do
          commissioned state owner_node_exists
          raise_if (strip device_id == "") "owner browser device_id is required"
          raise_if (leb session_lifetime_seconds 0) "owner session lifetime must be positive"
          found ← require_some (code_of o code) "owner bootstrap code is invalid"
          raise_if (not (found.owner_id == o.owner_id)) "owner bootstrap code is invalid"
          raise_if (is_some found.used_at) "owner bootstrap code was already used"
          raise_if (leb found.expires_at now) "owner bootstrap code expired"
          let session : BrowserSessionRecord = record {
            session_id = session_id;
            owner_id = o.owner_id;
            device_id = device_id;
            token_sha256 = sha token;
            issued_at = now;
            expires_at = now + session_lifetime_seconds;
            state = BrowserSessionState.active;
          }
          ok (record {
            event_type = "owner_bootstrap_exchanged";
            payload = Payload.owner_bootstrap_exchanged found.bootstrap_id now session;
            write = λ o. record o {
              codes = put o.codes found.bootstrap_id (record found { used_at = some now });
              sessions = put o.sessions session_id session;
            };
            answer = record {
              session_token = token;
              device_id = device_id;
              expires_at = session.expires_at;
            };
          })

  unfoldable pub authenticate : OwnerBootstrap → String → ℕ → Result String
  authenticate o token now = do
    session ←
        require_some
          (first_value (λ (s : BrowserSessionRecord). s.token_sha256 == sha token) o.sessions)
          "owner browser session is invalid or expired"
    raise_if
        (not (session.owner_id == o.owner_id)
          || not (is_active session.state)
          || leb session.expires_at now)
        "owner browser session is invalid or expired"
    ok session.device_id
