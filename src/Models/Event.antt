-- ===== src/Models/Event.antt =====
-- vsm/kernel/models.py: the envelope of a ledger event, over the type of its payload, and what the
-- ledger answers.
use nanihold_os.Prelude.{ℕ, String, Bool, true, false, ◌&&◌, Option, none, some, if◌then◌else◌}
use nanihold_os.Result.{Result, ok, err, validation_error}
use nanihold_os.Ids.{is_identifier, is_non_blank}

pub data ActorType : Type 0 where
  human kernel pilot system : ActorType

abbrev pub is_human : ActorType → Bool
is_human ActorType.human = true
is_human _ = false

pub record EventEnvelope (P : Type 0) : Type 0 where
  pub event_id : String
  pub data_space_id : String
  pub stream_id : String
  pub stream_version : ℕ
  pub event_type : String
  pub occurred_at : ℕ
  pub actor_type : ActorType
  pub actor_id : Option String
  pub correlation_id : Option String
  pub causation_id : Option String
  pub idempotency_key : String
  pub payload : P

-- `Identifier | None`
abbrev is_reference : Option String → Bool
is_reference none = true
is_reference (some id) = is_identifier id

-- The constraints on the fields. The types of the others, and a version that is a successor, leave
-- nothing to test.
unfoldable pub has_valid_fields : {P : Type 0} → EventEnvelope P → Bool
has_valid_fields e =
    is_identifier e.event_id
    && is_identifier e.data_space_id
    && is_identifier e.stream_id
    && is_non_blank e.event_type
    && is_reference e.actor_id
    && is_reference e.correlation_id
    && is_reference e.causation_id
    && is_non_blank e.idempotency_key

-- The id of an envelope that can be constructed; otherwise Pydantic's error.
abbrev pub id_of_valid : {P : Type 0} → EventEnvelope P → Result String
id_of_valid e = if has_valid_fields e then ok e.event_id else err (validation_error "EventEnvelope")

pub data AppendOutcome : Type 0 where
  appended duplicate : AppendOutcome

pub record AppendResult : Type 0 where
  pub outcome : AppendOutcome
  pub cursor : ℕ
  pub stream_version : ℕ

pub record StoredEvent (P : Type 0) : Type 0 where
  pub cursor : ℕ
  pub event : EventEnvelope P
