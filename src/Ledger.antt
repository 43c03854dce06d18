-- ===== src/Ledger.antt =====
-- vsm/kernel/ledger.py: `InMemoryOperationalLedger`. Every method returns its result and the new
-- ledger. A stream that has no entry reads as empty, as in the source's `defaultdict`. Cursors,
-- versions and limits are numbers that are not negative, so of the range tests on them only the
-- one on `limit` is left.

pub mod Invariant
pub mod Idempotence
pub mod Paging
pub mod Place
use nanihold_os.Prelude.{
  ℕ, ◌+◌, String, ◌≡◌, Bool, true, false, not, Option, none, some, List, [], ◌∷◌, ◌++◌, ◌==◌,
  nat_eq, leb, if◌then◌else◌, length, take, drop, concat,
}
use nanihold_os.Result.{
  Error, Result, ok, err, invariant_violation, stream_conflict, ◌>>=◌, ◌>>◌, raise_if, require_some,
}
use nanihold_os.Dict.{Dict, empty, get, put}
use nanihold_os.Models.Event.{
  EventEnvelope, StoredEvent, AppendResult, AppendOutcome, appended, duplicate,
}

pub record Ledger (P : Type 0) : Type 0 where
  pub data_space_id : String
  pub events : List (StoredEvent P)
  pub streams : Dict (List (StoredEvent P))
  pub idempotency : Dict (StoredEvent P)
  pub event_ids : Dict (StoredEvent P)
  pub blobs : Dict (List ℕ)

-- `InMemoryOperationalLedger.__init__`
abbrev pub new_ledger : {P : Type 0} → String → Ledger P
new_ledger space = record {
  data_space_id = space;
  events = [];
  streams = empty;
  idempotency = empty;
  event_ids = empty;
  blobs = empty;
}

module _ {P : Type 0} where
  abbrev pub or_empty : Option (List (StoredEvent P)) → List (StoredEvent P)
  or_empty none = []
  or_empty (some es) = es

  -- `self._streams[stream_id]`
  unfoldable pub stream_of : Ledger P → String → List (StoredEvent P)
  stream_of l s = or_empty (get l.streams s)

  -- The answer for an event that the ledger has already.
  abbrev pub duplicate_of : StoredEvent P → AppendResult
  duplicate_of s = record {
    outcome = duplicate;
    cursor = s.cursor;
    stream_version = s.event.stream_version;
  }

  -- The writes of `append`, once every test has passed.
  unfoldable pub store : EventEnvelope P → Ledger P → Ledger P
  unfolding stream_of
  store event l =
      let stored : StoredEvent P = record { cursor = length l.events + 1; event = event } in
      record l {
        events = l.events ++ stored ∷ [];
        streams = put l.streams event.stream_id (stream_of l event.stream_id ++ stored ∷ []);
        idempotency = put l.idempotency event.idempotency_key stored;
        event_ids = put l.event_ids event.event_id stored;
      }

  -- An early return with what was found, or the rest of the tests.
  abbrev pub found_or :
      Option (StoredEvent P) → Result (Option (StoredEvent P)) → Result (Option (StoredEvent P))
  found_or (some s) rest = ok (some s)
  found_or none rest = rest

  -- `dump` is pydantic's `model_dump_json`.
  module _ (dump : EventEnvelope P → String) where
    -- What the ledger has under a key, if that is this event; another event there is a collision.
    unfoldable pub same_or_collision :
        Option (StoredEvent P) → EventEnvelope P → String → Result (Option (StoredEvent P))
    same_or_collision none event message = ok none
    same_or_collision (some stored) event message =
        if dump stored.event == dump event
        then ok (some stored)
        else err (invariant_violation message)

    -- The two tests on the version of the event.
    unfoldable pub check_version : EventEnvelope P → ℕ → ℕ → Result (Unit {0})
    check_version event expected actual =
        if nat_eq actual expected
        then raise_if (not (nat_eq event.stream_version (actual + 1)))
            "event stream version does not follow"
        else err (stream_conflict event.stream_id expected actual)

    -- The tests of `append`, in order: the stored event that this one repeats, if there is one.
    unfoldable pub screen : EventEnvelope P → ℕ → Ledger P → Result (Option (StoredEvent P))
    unfolding same_or_collision check_version
    screen event expected l = do
      raise_if (not (event.data_space_id == l.data_space_id)) "event DataSpace does not match"
      by_key ←
          same_or_collision (get l.idempotency event.idempotency_key) event
            (concat "idempotency collision: " event.idempotency_key)
      found_or by_key (do
        by_id ←
            same_or_collision (get l.event_ids event.event_id) event
              (concat "event id collision: " event.event_id)
        found_or by_id
            (do check_version event expected (length (stream_of l event.stream_id)); ok none))

    abbrev pub appended_as : EventEnvelope P → Ledger P → AppendResult
    appended_as event l = record {
      outcome = appended;
      cursor = length l.events + 1;
      stream_version = event.stream_version;
    }

    abbrev pub finish :
        Result (Option (StoredEvent P))
        → EventEnvelope P
        → Ledger P
        → Result AppendResult × Ledger P
    finish (err e) event l = (err e, l)
    finish (ok (some stored)) event l = (ok (duplicate_of stored), l)
    finish (ok none) event l = (ok (appended_as event l), store event l)

    unfoldable pub append : EventEnvelope P → ℕ → Ledger P → Result AppendResult × Ledger P
    append event expected l = finish (screen event expected l) event l

  unfoldable pub page : ℕ → ℕ → Ledger P → Result (List (StoredEvent P))
  page after_cursor limit l = do
    raise_if (leb limit 0) "cursor must be non-negative and limit positive"
    ok (take limit (drop after_cursor l.events))

  unfoldable pub stream : String → ℕ → ℕ → Ledger P → Result (List (StoredEvent P))
  unfolding stream_of
  stream stream_id after_stream_version limit l = do
    raise_if (leb limit 0) "version must be non-negative and limit positive"
    ok (take limit (drop after_stream_version (stream_of l stream_id)))

  -- `sha256` gives the hexadecimal digest of the data.
  unfoldable pub put_blob : (List ℕ → String) → List ℕ → Ledger P → String × Ledger P
  put_blob sha256 content l =
      let blob_ref = concat "blob:sha256:" (sha256 content) in
      (blob_ref, record l { blobs = put l.blobs blob_ref content })

  unfoldable pub get_blob : String → Ledger P → Result (List ℕ)
  get_blob blob_ref l = require_some (get l.blobs blob_ref) (concat "blob not found: " blob_ref)
