-- ===== src/Projection/Queries.antt =====
-- vsm/activation/reorientation.py, vsm/projection.py: the replay of the ledger beside an audited query
-- of the history.
use mathlib.Core.Path.{subst}
use nanihold_os.Prelude.{ℕ, String, ◌≡◌, refl, false, not, List, some, arith}
use nanihold_os.Result.{Result, ok, err, Ensures, Ensures-ok, Ensures-raise_if, Ensures-bind}
use nanihold_os.Ids.{Platform}
use nanihold_os.Models.Event.{EventEnvelope}
use nanihold_os.Models.Payload.{Payload}
use nanihold_os.Models.Activation.{is_reorientation_only, is_uncommissioned}
use nanihold_os.Ledger.{Ledger, stream_of, put_blob}
use nanihold_os.Ledger.Invariant.{WellFormed}
use nanihold_os.Ledger.Place.{TellsPlace}
use nanihold_os.Activation.{Activation, Caller}
use nanihold_os.Activation.Queries.{
  HistoryPage, HistoryToolService, ReadHistoryAction, find_page, query_move, record_page, resolve,
}
use nanihold_os.Activation.Recording.{make-Made}
use nanihold_os.Kernel.{Kernel}
use nanihold_os.Kernel.Reachable.{service_of, with_service}
use nanihold_os.Projection.Milestones.{on_milestone}
use nanihold_os.Projection.Moves.{IsReplayed}
use nanihold_os.Projection.Tracking.{Tracked}
use nanihold_os.Projection.Steps.{Made-Tracked}

blob-WellFormed :
    (hash : List ℕ → String) (content : List ℕ) (l : Ledger Payload)
    → WellFormed l
    → WellFormed (put_blob hash content l).1
unfolding put_blob stream_of
blob-WellFormed hash content l h = record {
  numbered = h.numbered;
  streams = h.streams;
  versions = h.versions;
  key_found = h.key_found;
  key_stored = h.key_stored;
  id_found = h.id_found;
  id_stored = h.id_stored;
}

-- A blob is no event.
blob-Tracked :
    (hash : List ℕ → String) (content : List ℕ) (start k : Kernel)
    → Tracked start k
    → Tracked start (record k { ledger = (put_blob hash content k.ledger).1 })
unfolding put_blob stream_of
blob-Tracked hash content start k h = record {
  in_step = record {
    ledger = blob-WellFormed hash content k.ledger h.in_step.ledger;
    versions = h.in_step.versions;
    activation = h.in_step.activation;
  };
  filed = h.filed;
  space = h.space;
  own_stream = h.own_stream;
  idle = h.idle;
  replayed = h.replayed;
}

module _ {J : Type 0} (tools : HistoryToolService J) (encode : J → List ℕ)
    (hash : List ℕ → String) where
  commissioned :
      (a : Activation)
      → not (is_reorientation_only a.state) ≡ false
      → is_uncommissioned a.state ≡ false
  commissioned a h = ground arith

  found-commissioned :
      (a : Activation) (action : ReadHistoryAction)
      → Ensures
          (λ (page : HistoryPage J). is_uncommissioned a.state ≡ false)
          (find_page tools encode hash a action)
  unfolding find_page
  found-commissioned a action =
      let leaf = commissioned a in
      search (Ensures-ok, Ensures-raise_if, Ensures-bind, leaf) depth 24

  query-IsReplayed :
      (a : Activation) (action : ReadHistoryAction) (page : HistoryPage J) (blob_ref : String)
      (c : Caller)
      → is_uncommissioned a.state ≡ false
      → IsReplayed a (query_move tools encode hash action page blob_ref c)
  unfolding on_milestone
  query-IsReplayed a action page blob_ref c h = record {
    internal = refl;
    milestone = refl;
    commissioned = λ e cursor version. h;
    space = λ e cursor version. refl;
    stream = λ e cursor version. refl;
    version = λ e cursor version. refl;
    written = λ e cursor. refl;
  }

  module _ (dump : EventEnvelope Payload → String) (platform : Platform) (tells : TellsPlace dump)
      (start : Kernel) where
    page-Tracked :
        (now : ℕ) (action : ReadHistoryAction) (c : Caller) (k : Kernel)
        (r : Result (HistoryPage J))
        → find_page tools encode hash k.activation action ≡ r
        → Tracked start k
        → Tracked start (
            with_service k
              (record_page tools encode hash dump platform now action c (service_of k) r).1)
    page-Tracked now action c k (err e) found h = h
    page-Tracked now action c k (ok page) found h =
        let content = encode page.result_json in
        let stored = put_blob hash content k.ledger in
        let k' : Kernel = record k { ledger = stored.1 } in
        let h' = blob-Tracked hash content start k h in
        let replayed =
          query-IsReplayed k.activation action page stored.0 c
            ((found-commissioned k.activation action).at page found) in
        let m = query_move tools encode hash action page stored.0 c in
        Made-Tracked dump platform tells start now (ok (some m)) k' _ h'
          (λ m' p. subst (IsReplayed k.activation) (cc) replayed)
          (make-Made dump platform tells now (service_of k') h'.in_step.ledger h'.in_step.activation
            (ok (some m)))

    pub resolve-Tracked :
        (now : ℕ) (action : ReadHistoryAction) (c : Caller) (k : Kernel)
        → Tracked start k
        → Tracked start
            (with_service k (resolve tools encode hash dump platform now action c (service_of k)).1)
    unfolding resolve
    resolve-Tracked now action c k h = page-Tracked now action c k _ refl h
