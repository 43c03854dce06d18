-- ===== src/Projection/Tracking.antt =====
-- vsm/projection.py: a Kernel together with the replay of its ledger, and the events that it records.

use nanihold_os.Prelude.{
  ℕ, ◌+◌, String, ◌≡◌, ◌≢◌, refl, sym, ap, ◌∙◌, true, false, Option, [], ◌∷◌, ◌++◌, arith, ◌==◌,
  eq_iff, length, length-append,
}
use nanihold_os.Result.{ok}
use nanihold_os.Dict.{put, get-put_ne}
use nanihold_os.Ids.{Platform}
use nanihold_os.Models.Event.{EventEnvelope, StoredEvent}
use nanihold_os.Models.Payload.{Payload}
use nanihold_os.Models.Activation.{is_uncommissioned}
use nanihold_os.Ledger.{Ledger, store, stream_of}
use nanihold_os.Ledger.Invariant.{IsNext, store-WellFormed}
use nanihold_os.Ledger.Place.{TellsPlace}
use nanihold_os.Activation.{Activation, Move, Service}
use nanihold_os.Activation
use nanihold_os.Kernel.{Kernel, Draft, Registry, expected_version, envelope, or_zero}
use nanihold_os.Kernel.Recording.{InStep}
use nanihold_os.Kernel.Atomic.{stored-InStep, length-store_self, length-store_ne}
use nanihold_os.Kernel.Filing.{IsFiled}
use nanihold_os.Projection.{Projection, apply, apply_page, on_record, marked}
use nanihold_os.Projection.Kinds.{IsRegistryEvent}
use nanihold_os.Projection.Moves.{IsReplayed, IsIdle}
use nanihold_os.Projection.Events.{image, apply_registry_event, apply_milestone, apply_page-one}

-- The replay of the ledger of `k` on `start` gives `k`, over whatever ledger is read, with what the
-- replay of the next event needs.
pub record Tracked (start k : Kernel) : Type 0 where
  pub in_step : InStep k
  pub filed : IsFiled k.registry
  pub space : k.activation.data_space_id ≡ k.data_space.data_space_id
  pub own_stream : expected_version k k.activation.stream_id ≡ 0
  pub idle : is_uncommissioned k.activation.state ≡ true → IsIdle k.activation
  pub replayed : (l : Ledger Payload) → apply_page k.ledger.events (image l start) ≡ ok (image l k)

differs : (a b : String) → a ≢ b → (a == b) ≡ false
differs a b h = ground (arith, eq_iff a b)

module _ (dump : EventEnvelope Payload → String) (platform : Platform) (tells : TellsPlace dump)
    (start k : Kernel) (h : Tracked start k) where
  -- What the projection has after one more event.
  more :
      (l : Ledger Payload) (e : StoredEvent Payload) (p : Projection) (r : Projection)
      → e.cursor ≡ length k.ledger.events + 1
      → apply e.event (image l k) ≡ ok r
      → r ≡ record p { cursor = length k.ledger.events }
      → apply_page (k.ledger.events ++ e ∷ []) (image l start)
        ≡ ok (record p { cursor = length (k.ledger.events ++ e ∷ []) })
  more l e p r numbered applied same =
      apply_page-one k.ledger.events e (image l start) (image l k) r (h.replayed l) numbered applied
      ∙ ap (λ n. ok (record r { cursor = n }))
          (numbered ∙ sym (length-append k.ledger.events (e ∷ [])))
      ∙ ap (λ (z : Projection). ok (record z { cursor = length (k.ledger.events ++ e ∷ []) })) same

  -- An event of the Kernel, with its writes to the registry.
  pub registry_event-Tracked :
      (d : Draft) (now : ℕ) (id : String) (r : Registry) (snapshot : Option String)
      → IsNext (envelope k d now id) k.ledger
      → d.stream_id ≢ k.activation.stream_id
      → IsRegistryEvent d.event_type d.payload
      → on_record (envelope k d now id) d.payload k.registry ≡ ok r
      → IsFiled r
      → marked d.payload k.activation ≡ record (k.activation) { work_graph_snapshot_id = snapshot }
      → Tracked start (record k {
        ledger = store (envelope k d now id) k.ledger;
        registry = r;
        activation = record (k.activation) { work_graph_snapshot_id = snapshot };
        versions = put k.versions d.stream_id (expected_version k d.stream_id + 1);
      })
  unfolding store
  registry_event-Tracked d now id r snapshot next other kind handled filed mark =
      let i = stored-InStep dump platform tells k d now id r h.in_step other next in
      record {
        in_step = record { ledger = i.ledger; versions = i.versions; activation = i.activation };
        filed = filed;
        space = h.space;
        own_stream =
            ap or_zero (get-put_ne k.versions d.stream_id k.activation.stream_id _ other)
            ∙ h.own_stream;
        idle = λ p. record {
          attempt = (h.idle p).attempt;
          started = (h.idle p).started;
          pending = (h.idle p).pending;
        };
        replayed = λ l.
            more l _
              (image l (record k {
                registry = r;
                activation = record (k.activation) { work_graph_snapshot_id = snapshot };
                versions = put k.versions d.stream_id (expected_version k d.stream_id + 1);
              }))
              _ refl (apply_registry_event l k d now id r kind other handled)
              (ap
                (λ a. record (image l k) {
                  kernel = record k {
                    ledger = l;
                    registry = r;
                    activation = a;
                    versions = put k.versions d.stream_id (expected_version k d.stream_id + 1);
                  };
                })
                mark);
      }

  -- An event of the activation, with the writes of its move.
  pub milestone-Tracked :
      (m : Move) (now : ℕ) (id : String)
      → IsNext (Activation.envelope k.activation m now id) k.ledger
      → IsReplayed k.activation m
      → Tracked start (record k {
        ledger = store (Activation.envelope k.activation m now id) k.ledger;
        activation =
            m.write
              (Activation.envelope k.activation m now id)
              (length k.ledger.events + 1)
              (record (k.activation) { version = k.activation.version + 1 });
      })
  unfolding store
  milestone-Tracked m now id next replayed =
      let e = Activation.envelope k.activation m now id in
      let n = length k.ledger.events + 1 in
      let v = k.activation.version + 1 in
      let stream = replayed.stream e n v in
      record {
        in_step = record {
          ledger = store-WellFormed e k.ledger h.in_step.ledger next;
          versions = λ s elsewhere.
              h.in_step.versions s (λ q. elsewhere (q ∙ sym stream))
              ∙ sym (
                  length-store_ne e k.ledger s
                    (differs k.activation.stream_id s (λ q. elsewhere (sym q ∙ sym stream))));
          activation =
              replayed.version e n v
              ∙ ap (λ x. x + 1) h.in_step.activation
              ∙ sym (
                  ap (λ z. length (stream_of (store e k.ledger) z)) stream
                  ∙ length-store_self e k.ledger k.activation.stream_id refl);
        };
        filed = h.filed;
        space = replayed.space e n v ∙ h.space;
        own_stream = ap (expected_version k) stream ∙ h.own_stream;
        idle = λ p. absurd (cc (p, replayed.commissioned e n v));
        replayed = λ l.
            more l _
              (image l
                (record k { activation = m.write e n (record (k.activation) { version = v }) }))
              _ refl (apply_milestone l k m now id replayed h.space h.own_stream) refl;
      }
