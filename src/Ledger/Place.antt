-- ===== src/Ledger/Place.antt =====
-- vsm/kernel/ledger.py: the place of an event, which is its stream and version.
use nanihold_os.Prelude.{
  ℕ, suc, ◌+◌, ◌<◌, ◌≤◌, String, ◌≡◌, refl, sym, ap, ◌∙◌, some, List, [], ◌∷◌, inl, inr, arith,
  eq_iff, length, In, In-keep,
}
use nanihold_os.Result.{ok}
use nanihold_os.Models.Event.{EventEnvelope, StoredEvent}
use nanihold_os.Ledger.{Ledger, stream_of, screen}
use nanihold_os.Ledger.Invariant.{WellFormed, Versioned, on_stream}
use nanihold_os.Ledger.Idempotence.{Knows, by_key, by_id, screen-Knows}

module _ {P : Type 0} where
  -- The version of an event of a stream is at most the number of its events.
  Versioned-In :
      (n : ℕ) (es : List (StoredEvent P)) (e : StoredEvent P)
      → Versioned n es
      → In e es
      → e.event.stream_version < n + length es
  Versioned-In n [] e h m = absurd m
  Versioned-In n (x ∷ es) e h (inl p) =
      let q : e.event.stream_version ≡ n = ap (λ z. (StoredEvent.event z).stream_version) p ∙ h.0 in
      omega (arith, q)
  Versioned-In n (x ∷ es) e h (inr m) = omega (arith, Versioned-In (suc n) es e h.1 m)

  stored_version :
      (l : Ledger P) (e : StoredEvent P)
      → WellFormed l
      → In e l.events
      → e.event.stream_version ≤ length (stream_of l e.event.stream_id)
  stored_version l e h m =
      let s = e.event.stream_id in
      let here : In e (stream_of l s) =
        rw (h.streams s) (In-keep (on_stream s) e l.events m ((eq_iff s s).1 refl)) in
      omega (arith, Versioned-In 1 (stream_of l s) e (h.versions s) here)

  Knows-In :
      (dump : EventEnvelope P → String) (event : EventEnvelope P) (l : Ledger P) (s : StoredEvent P)
      → WellFormed l
      → Knows dump event l s
      → In s l.events × (dump s.event ≡ dump event)
  Knows-In dump event l s h (by_key found same) =
      ((h.key_stored _ s found).0, (eq_iff (dump s.event) (dump event)).0 same)
  Knows-In dump event l s h (by_id absent found same) =
      ((h.id_stored _ s found).0, (eq_iff (dump s.event) (dump event)).0 same)

  -- The text of an event tells its stream and its version.
  abbrev pub TellsPlace : (EventEnvelope P → String) → Type 0
  TellsPlace dump =
      (a b : EventEnvelope P)
      → dump a ≡ dump b
      → (a.stream_id ≡ b.stream_id) × (a.stream_version ≡ b.stream_version)

  -- The ledger has no event with the stream and version of the next one.
  pub no_repeat :
      (dump : EventEnvelope P → String) (event : EventEnvelope P) (n : ℕ) (l : Ledger P)
      (s : StoredEvent P)
      → TellsPlace dump
      → WellFormed l
      → event.stream_version ≡ length (stream_of l event.stream_id) + 1
      → screen dump event n l ≡ ok (some s)
      → ⊥
  no_repeat dump event n l s tells h next p =
      let (space, known) = screen-Knows dump event n l s p in
      let (m, same) = Knows-In dump event l s h known in
      let (stream, version) = tells s.event event same in
      let bound : s.event.stream_version ≤ length (stream_of l event.stream_id) =
        rw (sym stream) (stored_version l s h m) in
      omega (arith, bound, version, next)
