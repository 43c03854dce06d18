-- ===== src/Kernel/Recording.antt =====
-- vsm/kernel/service.py: `Kernel._record`, and the versions that the Kernel counts for the streams of
-- the ledger.
use nanihold_os.Prelude.{ℕ, ◌+◌, String, ◌≡◌, ◌≢◌, refl, ap, Option, none, some, length}
use nanihold_os.Result.{Error, Result, ok, err}
use nanihold_os.Dict.{put}
use nanihold_os.Ids.{Platform}
use nanihold_os.Models.Event.{EventEnvelope, StoredEvent}
use nanihold_os.Models.Payload.{Payload}
use nanihold_os.Ledger.{stream_of, store, screen, append, finish}
use nanihold_os.Ledger.Invariant.{WellFormed, IsNext, screen-IsNext}
use nanihold_os.Ledger.Place.{TellsPlace, no_repeat}
use nanihold_os.Kernel.{
  Kernel, Plan, Draft, expected_version, envelope, after_append, with_event_id, record_event,
  answer, write_next, commit, run,
}

-- The versions of the Kernel and of the activation are the lengths of the streams of the ledger
-- that they share. The stream of the activation is the activation's.
pub record InStep (k : Kernel) : Type 0 where
  pub ledger : WellFormed k.ledger
  pub versions :
      (s : String)
      → s ≢ k.activation.stream_id
      → expected_version k s ≡ length (stream_of k.ledger s)
  pub activation : k.activation.version ≡ length (stream_of k.ledger k.activation.stream_id)

module _ (dump : EventEnvelope Payload → String) (platform : Platform)
    (tells : TellsPlace dump) where
  -- What `_record` returns and leaves: an error and the same Kernel, or the event that it has
  -- appended under the next version of its stream.
  pub data Recorded (d : Draft) (now : ℕ) (k : Kernel)
      : Result (EventEnvelope Payload) × Kernel → Type 0 where
    refused : (e : Error) → Recorded d now k (err e, k)
    recorded :
        (id : String)
        → IsNext (envelope k d now id) k.ledger
        → Recorded d now k (
          ok (envelope k d now id),
          record k {
            ledger = store (envelope k d now id) k.ledger;
            versions = put k.versions d.stream_id (expected_version k d.stream_id + 1);
          },
        )

  module _ (d : Draft) (now : ℕ) (k : Kernel) (h : InStep k)
      (other : d.stream_id ≢ k.activation.stream_id) where
    after_append-Recorded :
        (id : String) (r : Result (Option (StoredEvent Payload)))
        → screen dump (envelope k d now id) (expected_version k d.stream_id) k.ledger ≡ r
        → Recorded d now k (
            after_append dump platform
              (envelope k d now id)
              k
              (finish dump r (envelope k d now id) k.ledger))
    after_append-Recorded id (err e) p = refused e
    after_append-Recorded id (ok (some s)) p =
        let next = ap (λ n. n + 1) (h.versions d.stream_id other) in
        absurd (no_repeat dump (envelope k d now id) _ k.ledger s tells h.ledger next p)
    after_append-Recorded id (ok none) p = recorded id (screen-IsNext dump _ _ k.ledger p).0

    with_id-Recorded :
        (r : Result String) → Recorded d now k (with_event_id dump platform d now k r)
    unfolding append
    with_id-Recorded (err e) = refused e
    with_id-Recorded (ok id) = after_append-Recorded id _ refl

    record_event-Recorded : Recorded d now k (record_event dump platform d now k)
    unfolding record_event
    record_event-Recorded = with_id-Recorded _

  -- The Kernel after the event and the writes of a plan.
  abbrev pub written : Plan → ℕ → String → Kernel → Kernel
  written p now id k = record k {
    ledger = store (envelope k p.draft now id) k.ledger;
    registry = p.next id;
    versions = put k.versions p.draft.stream_id (expected_version k p.draft.stream_id + 1);
  }

  -- What a command returns and leaves: an error and the same Kernel; the event that it has appended
  -- and the registry of its plan; or these, and the error of its writes.
  pub data Ran (now : ℕ) (r : Result Plan) (k : Kernel)
      : Result (EventEnvelope Payload) × Kernel → Type 0 where
    raised : (e : Error) → Ran now r k (err e, k)
    returned :
        (p : Plan) (id : String)
        → r ≡ ok p
        → IsNext (envelope k p.draft now id) k.ledger
        → p.raises ≡ none
        → Ran now r k (ok (envelope k p.draft now id), written p now id k)
    raised_late :
        (p : Plan) (id : String) (e : Error)
        → r ≡ ok p
        → IsNext (envelope k p.draft now id) k.ledger
        → p.raises ≡ some e
        → Ran now r k (err e, written p now id k)

  write_next-Ran :
      (p : Plan) (now : ℕ) (k : Kernel) (x : Result (EventEnvelope Payload) × Kernel)
      → Recorded p.draft now k x
      → Ran now (ok p) k (write_next dump platform p x)
  write_next-Ran p now k _ (refused e) = raised e
  write_next-Ran p now k _ (recorded id next) = answered p.raises refl
    where
      answered :
          (o : Option Error)
          → p.raises ≡ o
          → Ran now
              (ok p)
              k
              (answer dump platform o (envelope k p.draft now id), written p now id k)
      answered none fine = returned p id refl next fine
      answered (some e) late = raised_late p id e refl next late

  -- The plan, if there is one, records in a stream that is not the activation's.
  abbrev pub IsElsewhere : Kernel → Result Plan → Type 0
  IsElsewhere k (err e) = Unit
  IsElsewhere k (ok p) = p.draft.stream_id ≢ k.activation.stream_id

  pub run-Ran :
      (now : ℕ) (r : Result Plan) (k : Kernel)
      → InStep k
      → IsElsewhere k r
      → Ran now r k (run dump platform now r k)
  unfolding run commit
  run-Ran now (err e) k h _ = raised e
  run-Ran now (ok p) k h other =
      write_next-Ran p now k _ (record_event-Recorded p.draft now k h other)
