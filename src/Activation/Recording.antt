-- ===== src/Activation/Recording.antt =====
-- vsm/activation/service.py: what a method of `ActivationService` returns and leaves.
use nanihold_os.Prelude.{ℕ, ◌+◌, String, ◌≡◌, refl, ap, Option, none, some, length}
use nanihold_os.Result.{Result, ok, err}
use nanihold_os.Ids.{Platform}
use nanihold_os.Models.Event.{EventEnvelope, StoredEvent}
use nanihold_os.Models.Payload.{Payload}
use nanihold_os.Ledger.{stream_of, store, screen, append, finish}
use nanihold_os.Ledger.Invariant.{WellFormed, IsNext, screen-IsNext}
use nanihold_os.Ledger.Place.{TellsPlace, no_repeat}
use nanihold_os.Activation.{Move, Service, envelope, after_append, with_event_id, commit}
use nanihold_os.Activation.Methods.{make}

module _ (dump : EventEnvelope Payload → String) (platform : Platform)
    (tells : TellsPlace dump) where
  -- The same service, or the event that the move has appended and its writes.
  pub data Made (now : ℕ) (r : Result (Option Move)) (s : Service)
      : Result (Unit {0}) × Service → Type 0 where
    unmoved : (answer : Result (Unit {0})) → Made now r s (answer, s)
    moved :
        (m : Move) (id : String)
        → r ≡ ok (some m)
        → IsNext (envelope s.activation m now id) s.ledger
        → Made now r s (
          ok tt,
          record {
            activation =
                m.write
                  (envelope s.activation m now id)
                  (length s.ledger.events + 1)
                  (record (s.activation) { version = s.activation.version + 1 });
            ledger = store (envelope s.activation m now id) s.ledger;
          },
        )

  module _ (now : ℕ) (s : Service) (h : WellFormed s.ledger)
      (here : s.activation.version ≡ length (stream_of s.ledger s.activation.stream_id)) where
    after_append-Made :
        (m : Move) (id : String) (r : Result (Option (StoredEvent Payload)))
        → screen dump (envelope s.activation m now id) s.activation.version s.ledger ≡ r
        → Made now (ok (some m)) s (
            after_append dump platform m
              (envelope s.activation m now id)
              s.activation
              (finish dump r (envelope s.activation m now id) s.ledger))
    after_append-Made m id (err e) p = unmoved (err e)
    after_append-Made m id (ok (some t)) p =
        let next = ap (λ n. n + 1) here in
        absurd (no_repeat dump (envelope s.activation m now id) _ s.ledger t tells h next p)
    after_append-Made m id (ok none) p = moved m id refl (screen-IsNext dump _ _ s.ledger p).0

    with_id-Made :
        (m : Move) (r : Result String)
        → Made now (ok (some m)) s (with_event_id dump platform m now s r)
    unfolding append
    with_id-Made m (err e) = unmoved (err e)
    with_id-Made m (ok id) = after_append-Made m id _ refl

    pub make-Made : (r : Result (Option Move)) → Made now r s (make dump platform now r s)
    unfolding commit
    make-Made (err e) = unmoved (err e)
    make-Made (ok none) = unmoved (ok tt)
    make-Made (ok (some m)) = with_id-Made m _
