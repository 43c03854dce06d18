-- ===== src/Projection/Events.antt =====
-- vsm/projection.py: `apply` at one event of the Kernel or of the activation, and the lists of events
-- that `rebuild` goes through.

use nanihold_os.Prelude.{
  ℕ, ◌+◌, String, ◌≡◌, ◌≢◌, refl, sym, ap, ◌∙◌, true, none, List, [], ◌∷◌, ◌++◌, arith, ◌==◌,
  eq_iff, nat_eq, length, max, inl, inr, Bool-cases,
}
use nanihold_os.Result.{Result, ok, err, ◌>>=◌}
use nanihold_os.Dict.{put}
use nanihold_os.Models.Event.{EventEnvelope, StoredEvent}
use nanihold_os.Models.Payload.{Payload}
use nanihold_os.Ledger.{Ledger}
use nanihold_os.Activation.{Activation, Move}
use nanihold_os.Activation
use nanihold_os.Kernel.{Kernel, Draft, Registry, expected_version, envelope}
use nanihold_os.Projection.{
  Projection, apply, apply_page, handle, on_record, marked, external_stream_prefix, known_version,
  by_prefix,
}
use nanihold_os.Projection.Kinds.{IsRegistryEvent}
use nanihold_os.Projection.Moves.{IsReplayed}

-- The projection that has gone through the events of a Kernel; its own Kernel has the ledger that it
-- reads.
abbrev pub image : Ledger Payload → Kernel → Projection
image l k = record {
  kernel = record k { ledger = l };
  others = λ _. 0;
  cursor = length k.ledger.events;
}

over_zeros : (n : ℕ) → max n (max 0 0) ≡ n
over_zeros n = ground arith

under_version : (n : ℕ) → max 0 (max 0 n) ≡ n
under_version n = ground arith

same_number : (n : ℕ) → nat_eq n n ≡ true
same_number n = ground arith

known_elsewhere :
    (l : Ledger Payload) (k : Kernel) (stream : String)
    → stream ≢ k.activation.stream_id
    → known_version (image l k) stream ≡ expected_version k stream
known_elsewhere l k stream other = elim (Bool-cases (stream == k.activation.stream_id)) [
  | inl same ↦ absurd (other ((eq_iff stream k.activation.stream_id).0 same))
  | inr ne ↦ rw ne (over_zeros (expected_version k stream))
]

known_here :
    (l : Ledger Payload) (k : Kernel)
    → expected_version k k.activation.stream_id ≡ 0
    → known_version (image l k) k.activation.stream_id ≡ k.activation.version
known_here l k none_of_its_own =
    rw (none_of_its_own, (eq_iff k.activation.stream_id k.activation.stream_id).1 refl)
      (under_version k.activation.version)

-- An event that continues its stream, in the DataSpace of the Kernel, reaches its handler.
apply-handle :
    (e : EventEnvelope Payload) (p : Projection)
    → e.data_space_id ≡ p.kernel.data_space.data_space_id
    → external_stream_prefix e.event_type ≡ none
    → e.stream_version ≡ known_version p e.stream_id + 1
    → apply e p ≡ handle e p
unfolding apply
apply-handle e p space inside next =
    let here : (e.data_space_id == p.kernel.data_space.data_space_id) ≡ true =
      (eq_iff _ _).1 space in
    let numbered : nat_eq e.stream_version (known_version p e.stream_id + 1) ≡ true =
      rw next (same_number _) in
    rw here (ap (by_prefix p e) inside ∙ rw numbered refl)

placed :
    (r : Result Activation) (v : ℕ) (a : Activation) (p : Projection)
    → (r >>= λ b. ok (record b { version = v })) ≡ ok a
    → (r >>= λ b.
        ok (record p { kernel = record (p.kernel) { activation = record b { version = v } } }))
      ≡ ok (record p { kernel = record (p.kernel) { activation = a } })
placed (err e) v a p h = absurd (cc)
placed (ok b) v a p h =
    let same : record b { version = v } ≡ a = cc in
    ap (λ z. ok (record p { kernel = record (p.kernel) { activation = z } })) same

module _ (l : Ledger Payload) (k : Kernel) where
  pub apply_registry_event :
      (d : Draft) (now : ℕ) (id : String) (r : Registry)
      → IsRegistryEvent d.event_type d.payload
      → d.stream_id ≢ k.activation.stream_id
      → on_record (envelope k d now id) d.payload k.registry ≡ ok r
      → apply (envelope k d now id) (image l k)
        ≡ ok (record (image l k) {
          kernel = record k {
            ledger = l;
            registry = r;
            activation = marked d.payload k.activation;
            versions = put k.versions d.stream_id (expected_version k d.stream_id + 1);
          };
        })
  unfolding handle
  apply_registry_event d now id r kind other h =
      apply-handle (envelope k d now id) (image l k) refl kind.internal
        (ap (λ n. n + 1) (sym (known_elsewhere l k d.stream_id other)))
      ∙ rw (kind.registry, h) refl

  pub apply_milestone :
      (m : Move) (now : ℕ) (id : String)
      → IsReplayed k.activation m
      → k.activation.data_space_id ≡ k.data_space.data_space_id
      → expected_version k k.activation.stream_id ≡ 0
      → apply (Activation.envelope k.activation m now id) (image l k)
        ≡ ok (record (image l k) {
          kernel = record k {
            ledger = l;
            activation =
                m.write
                  (Activation.envelope k.activation m now id)
                  (length k.ledger.events + 1)
                  (record (k.activation) { version = k.activation.version + 1 });
          };
        })
  unfolding handle
  apply_milestone m now id replayed space own =
      apply-handle (Activation.envelope k.activation m now id) (image l k) space replayed.internal
        (ap (λ n. n + 1) (sym (known_here l k own)))
      ∙ rw replayed.milestone (
          placed _ (k.activation.version + 1) _ (image l k) (
            replayed.written (Activation.envelope k.activation m now id)
              (length k.ledger.events + 1)))

chained :
    (guard : Result (Unit {0})) (r : Result Projection) (f g h : Projection → Result Projection)
    → ((q : Projection) → f q ≡ (g q >>= h))
    → (guard >>= λ passed. (r >>= f)) ≡ ((guard >>= λ passed. (r >>= g)) >>= h)
chained (err e) r f g h p = refl
chained (ok u) (err e) f g h p = refl
chained (ok u) (ok q) f g h p = p q

-- Two lists one after the other.
pub apply_page-append :
    (es fs : List (StoredEvent Payload)) (p : Projection)
    → apply_page (es ++ fs) p ≡ (apply_page es p >>= apply_page fs)
unfolding apply_page
apply_page-append [] fs p = refl
apply_page-append (e ∷ es) fs p =
    chained _ (apply e.event p) _ (λ q. apply_page es (record q { cursor = e.cursor }))
      (apply_page fs) (λ q. apply_page-append es fs (record q { cursor = e.cursor }))

-- One more event, at the next cursor.
pub apply_page-one :
    (es : List (StoredEvent Payload)) (e : StoredEvent Payload) (p q r : Projection)
    → apply_page es p ≡ ok q
    → e.cursor ≡ q.cursor + 1
    → apply e.event q ≡ ok r
    → apply_page (es ++ e ∷ []) p ≡ ok (record r { cursor = e.cursor })
unfolding apply_page
apply_page-one es e p q r h next applied =
    let numbered : nat_eq e.cursor (q.cursor + 1) ≡ true = rw next (same_number _) in
    apply_page-append es (e ∷ []) p ∙ rw (h, numbered, applied) refl
