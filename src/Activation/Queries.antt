-- ===== src/Activation/Queries.antt =====
-- vsm/activation/reorientation.py: `HistoryToolService.resolve`, the audited queries of the history,
-- which alone fill the two fields of the activation that an assessment is tested against. The reader
-- of LETHE, the compact JSON of a result in UTF-8 and the digest of bytes are parameters. What the
-- method returns, the page with its digest and cursors, is left out. A query of the sessions is
-- refused, so that the cursor of their listing stays as it is.
use nanihold_os.Prelude.{
  ℕ, String, not, Option, none, some, List, ◌∷◌, contains, length, ltb, concat, if◌then◌else◌,
}
use nanihold_os.Result.{Result, ok, err, invariant_violation, ◌>>=◌, ◌>>◌, raise_if, require_some}
use nanihold_os.Ids.{Platform}
use nanihold_os.Models.Event.{EventEnvelope, pilot}
use nanihold_os.Models.Payload.{Payload}
use nanihold_os.Models.Activation.{is_reorientation_only}
use nanihold_os.Ledger.{put_blob}
use nanihold_os.Activation.{Activation, Caller, Move, Service, commit}

pub data HistoryOperation : Type 0 where
  list_sessions read_timeline read_raw search_history resolve_reference list_open_commitments
        get_current_state :
      HistoryOperation

-- The text of an operation, which the event and the activation keep.
abbrev pub operation_text : HistoryOperation → String
operation_text list_sessions = "list_sessions"
operation_text read_timeline = "read_timeline"
operation_text read_raw = "read_raw"
operation_text search_history = "search"
operation_text resolve_reference = "resolve_reference"
operation_text list_open_commitments = "list_open_commitments"
operation_text get_current_state = "get_current_state"

pub record ReadHistoryAction : Type 0 where
  pub action_id : String
  pub operation : HistoryOperation
  pub argument : Option String
  pub page_cursor : Option String

pub record HistoryPage (J : Type 0) : Type 0 where
  pub result_json : J
  pub next_cursor : Option String
  pub source_cursor : String

-- The port to LETHE. Each method takes its argument and the cursor of a page, and may raise.
pub record HistoryReader (J : Type 0) : Type 0 where
  pub read_timeline : String → Option String → Result (HistoryPage J)
  pub read_raw : String → Option String → Result (HistoryPage J)
  pub search_history : String → Option String → Result (HistoryPage J)
  pub resolve_reference : String → Option String → Result (HistoryPage J)
  pub list_open_commitments : Option String → Result (HistoryPage J)
  pub get_current_state : Option String → Option String → Result (HistoryPage J)

-- `HistoryToolService`: the reader and the limit.
pub record HistoryToolService (J : Type 0) : Type 0 where
  pub reader : HistoryReader J
  pub max_result_bytes : ℕ

-- `_require_argument`
abbrev require_argument : ReadHistoryAction → Result String
require_argument action =
    require_some action.argument
      (concat (operation_text action.operation) " requires an explicit argument")

-- `_forbid_argument`
abbrev forbid_argument : ReadHistoryAction → Option String → Result (Unit {0})
forbid_argument action none = ok tt
forbid_argument action (some _) =
    err (
      invariant_violation (concat (operation_text action.operation) " does not accept an argument"))

-- `s.add(x)`
abbrev pub add : String → List String → List String
add x s = if contains x s then s else x ∷ s

module _ {J : Type 0} (tools : HistoryToolService J) (encode : J → List ℕ)
    (digest : List ℕ → String) where
  -- The chain of `if action.operation == ...`.
  abbrev pub query : ReadHistoryAction → HistoryOperation → Result (HistoryPage J)
  query action list_sessions = err (
      invariant_violation
        "list_sessions is a deterministic reorientation preflight, not a Pilot tool")
  query action read_timeline = do
    argument ← require_argument action
    tools.reader.read_timeline argument action.page_cursor
  query action read_raw = do
    argument ← require_argument action
    tools.reader.read_raw argument action.page_cursor
  query action search_history = do
    argument ← require_argument action
    tools.reader.search_history argument action.page_cursor
  query action resolve_reference = do
    argument ← require_argument action
    tools.reader.resolve_reference argument action.page_cursor
  query action list_open_commitments = do
    forbid_argument action action.argument
    tools.reader.list_open_commitments action.page_cursor
  query action get_current_state = tools.reader.get_current_state action.argument action.page_cursor

  -- `resolve` up to its writes: the page that it records.
  unfoldable pub find_page : Activation → ReadHistoryAction → Result (HistoryPage J)
  find_page a action = do
    raise_if (not (is_reorientation_only a.state)) "history tools require reorientation-only state"
    page ← query action action.operation
    raise_if (ltb tools.max_result_bytes (length (encode page.result_json)))
        "LETHE history page exceeded max_result_bytes; implicit truncation is forbidden"
    ok page

  -- The event of a query, and its writes.
  abbrev pub query_move : ReadHistoryAction → HistoryPage J → String → Caller → Move
  query_move action page blob_ref caller = record {
    event_type = "history_query_resolved";
    payload =
        Payload.history_query_resolved action.action_id (operation_text action.operation)
          action.argument action.page_cursor page.next_cursor page.source_cursor blob_ref
          (digest (encode page.result_json));
    actor_type = pilot;
    caller = caller;
    write = λ event _ a. record a {
      history_query_operations = add (operation_text action.operation) a.history_query_operations;
      history_query_event_ids = add event.event_id a.history_query_event_ids;
    };
  }

  module _ (dump : EventEnvelope Payload → String) (platform : Platform) where
    -- The blob is stored before the event, and stays when the event is refused.
    abbrev pub record_page :
        ℕ
        → ReadHistoryAction
        → Caller
        → Service
        → Result (HistoryPage J)
        → Result (Unit {0}) × Service
    record_page now action caller s (err e) = (err e, s)
    record_page now action caller s (ok page) =
        let stored = put_blob digest (encode page.result_json) s.ledger in
        commit dump platform now (query_move action page stored.0 caller)
          (record s { ledger = stored.1 })

    unfoldable pub resolve : ℕ → ReadHistoryAction → Caller → Service → Result (Unit {0}) × Service
    unfolding find_page
    resolve now action caller s = record_page now action caller s (find_page s.activation action)
