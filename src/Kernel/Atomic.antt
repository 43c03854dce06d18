-- ===== src/Kernel/Atomic.antt =====
-- vsm/kernel/service.py: what a command, from its call to its return, records and changes.
use mathlib.Core.Path.{subst}
use nanihold_os.Prelude.{
  ℕ, ◌+◌, String, ◌≡◌, ◌≢◌, refl, sym, ap, ◌∙◌, true, false, Option, none, some, [], ◌∷◌, ◌++◌, inl,
  inr, arith, ◌==◌, eq_iff, length, length-append, Bool-cases,
}
use nanihold_os.Result.{Error, Result, ok, err, Ensures}
use nanihold_os.Dict.{get, put, get-put}
use nanihold_os.Ids.{Platform, deterministic_event_id}
use nanihold_os.Models.Event.{EventEnvelope, StoredEvent, has_valid_fields}
use nanihold_os.Models.Payload.{Payload}
use nanihold_os.Ledger.{Ledger, stream_of, store, screen, append, finish}
use nanihold_os.Ledger.Invariant.{IsNext, stored_as, stream_of-store, store-WellFormed}
use nanihold_os.Ledger.Place.{TellsPlace}
use nanihold_os.Kernel.{
  Kernel, Plan, Draft, Registry, expected_version, envelope, after_append, with_event_id,
  record_event, answer, write_next, commit, run,
}
use nanihold_os.Kernel.Recording.{InStep, IsElsewhere, Ran, raised, returned, raised_late, run-Ran}
use nanihold_os.Kernel.Filing.{IsFiled}
use nanihold_os.Kernel.Commands.{Command, plan_of, execute}
use nanihold_os.Kernel.Late.{plan_of-never_late}
use nanihold_os.Activation.{Caller}

pub length-store_self :
    (event : EventEnvelope Payload) (l : Ledger Payload) (s : String)
    → event.stream_id ≡ s
    → length (stream_of (store event l) s) ≡ length (stream_of l s) + 1
length-store_self event l s same =
    rw (stream_of-store event l s, (eq_iff event.stream_id s).1 same)
      (length-append (stream_of l event.stream_id) (stored_as event l ∷ [])
        ∙ ap (λ z. length (stream_of l z) + 1) same)

pub length-store_ne :
    (event : EventEnvelope Payload) (l : Ledger Payload) (s : String)
    → (event.stream_id == s) ≡ false
    → length (stream_of (store event l) s) ≡ length (stream_of l s)
length-store_ne event l s other = rw (stream_of-store event l s, other) refl

module _ (dump : EventEnvelope Payload → String) (platform : Platform) where
  answered :
      (o : Option Error) (event : EventEnvelope Payload) (e : Error)
      → o ≡ none
      → answer dump platform o event ≢ err e
  answered none event e h q = cc
  answered (some _) event e h q = cc

  after_error :
      (p : Plan) (event : EventEnvelope Payload) (k : Kernel) (e : Error)
      (r : Result (Option (StoredEvent Payload)))
      → p.raises ≡ none
      → (write_next dump platform p
          (after_append dump platform event k (finish dump r event k.ledger))).0
        ≡ err e
      → (write_next dump platform p
          (after_append dump platform event k (finish dump r event k.ledger))).1
        ≡ k
  after_error p event k e (err _) h q = refl
  after_error p event k e (ok (some _)) h q = absurd (answered p.raises event e h q)
  after_error p event k e (ok none) h q = absurd (answered p.raises event e h q)

  id_error :
      (p : Plan) (now : ℕ) (k : Kernel) (e : Error) (r : Result String)
      → p.raises ≡ none
      → (write_next dump platform p (with_event_id dump platform p.draft now k r)).0 ≡ err e
      → (write_next dump platform p (with_event_id dump platform p.draft now k r)).1 ≡ k
  unfolding append
  id_error p now k e (err _) h q = refl
  id_error p now k e (ok id) h q = after_error p (envelope k p.draft now id) k e _ h q

  run_error :
      (now : ℕ) (r : Result Plan) (k : Kernel) (e : Error)
      → Ensures (λ (p : Plan). p.raises ≡ none) r
      → (run dump platform now r k).0 ≡ err e
      → (run dump platform now r k).1 ≡ k
  unfolding run commit record_event
  run_error now (err _) k e h q = refl
  run_error now (ok p) k e h q = id_error p now k e _ (h.at p refl) q

  -- A command that raises leaves the Kernel as it was, if its records stand under their own ids and
  -- every finding is of a WorkItem that exists:
  -- when its own tests refuse it, when its event is not valid and when the ledger refuses the event.
  pub raising_changes_nothing :
      (now : ℕ) (command : Command) (c : Caller) (k : Kernel) (e : Error)
      → IsFiled k.registry
      → (execute dump platform now command c k).0 ≡ err e
      → (execute dump platform now command c k).1 ≡ k
  unfolding execute
  raising_changes_nothing now command c k e h =
      run_error now (plan_of k command c) k e (plan_of-never_late k command c h)

  module _ (tells : TellsPlace dump) where
    pub stored-InStep :
        (k : Kernel) (d : Draft) (now : ℕ) (id : String) (next : Registry)
        → InStep k
        → d.stream_id ≢ k.activation.stream_id
        → IsNext (envelope k d now id) k.ledger
        → InStep (record k {
          ledger = store (envelope k d now id) k.ledger;
          registry = next;
          versions = put k.versions d.stream_id (expected_version k d.stream_id + 1);
        })
    stored-InStep k d now id next h other is_next = record {
      ledger = store-WellFormed (envelope k d now id) k.ledger h.ledger is_next;
      versions = λ s elsewhere. elim (Bool-cases (d.stream_id == s)) [
        | inl same ↦
            rw (get-put k.versions d.stream_id s (expected_version k d.stream_id + 1), same)
              (ap (λ n. n + 1) (h.versions d.stream_id other)
                ∙ sym (
                    length-store_self (envelope k d now id) k.ledger s
                      ((eq_iff d.stream_id s).0 same)
                    ∙ ap (λ z. length (stream_of k.ledger z) + 1)
                        (sym ((eq_iff d.stream_id s).0 same))))
        | inr ne ↦
            rw (get-put k.versions d.stream_id s (expected_version k d.stream_id + 1), ne)
              (h.versions s elsewhere ∙ sym (length-store_ne (envelope k d now id) k.ledger s ne))
      ];
      activation =
          h.activation
          ∙ sym (elim (Bool-cases (d.stream_id == k.activation.stream_id)) [
            | inl same ↦ absurd (other ((eq_iff _ _).0 same))
            | inr ne ↦ length-store_ne (envelope k d now id) k.ledger k.activation.stream_id ne
          ]);
    }

    Ran-InStep :
        (now : ℕ) (r : Result Plan) (k : Kernel) (x : Result (EventEnvelope Payload) × Kernel)
        → InStep k
        → IsElsewhere dump platform tells k r
        → Ran dump platform tells now r k x
        → InStep x.1
    Ran-InStep now r k _ h other (raised e) = h
    Ran-InStep now (ok q) k _ h other (returned p id planned next fine) =
        let same : p ≡ q = cc in stored-InStep k p.draft now id (p.next id) h (rw same other) next
    Ran-InStep now (ok q) k _ h other (raised_late p id e planned next late) =
        let same : p ≡ q = cc in stored-InStep k p.draft now id (p.next id) h (rw same other) next
    Ran-InStep now (err e) k _ h other (returned p id planned next fine) = absurd (cc)
    Ran-InStep now (err e) k _ h other (raised_late p id _ planned next late) = absurd (cc)

    -- When the text of an event tells its place and the command records in another stream than
    -- the activation's, a command keeps the versions in step with the ledger, and the ledger
    -- well formed.
    pub run-InStep :
        (now : ℕ) (r : Result Plan) (k : Kernel)
        → InStep k
        → IsElsewhere dump platform tells k r
        → InStep (run dump platform now r k).1
    run-InStep now r k h other =
        Ran-InStep now r k _ h other (run-Ran dump platform tells now r k h other)

    Ran-appends :
        (now : ℕ) (r : Result Plan) (k : Kernel) (event : EventEnvelope Payload)
        (x : Result (EventEnvelope Payload) × Kernel)
        → InStep k
        → IsElsewhere dump platform tells k r
        → Ran dump platform tells now r k x
        → x.0 ≡ ok event
        → (x.1.ledger.events
            ≡ k.ledger.events ++ record { cursor = length k.ledger.events + 1; event = event } ∷ [])
          × (event.stream_version ≡ length (stream_of k.ledger event.stream_id) + 1)
          × ((p : Plan) × (r ≡ ok p) × (x.1.registry ≡ p.next event.event_id))
    unfolding store
    Ran-appends now r k event _ h other (raised e) q = absurd (cc)
    Ran-appends now r k event _ h other (raised_late p id e planned next late) q = absurd (cc)
    Ran-appends now r k event _ h other (returned p id planned next fine) q =
        let same : envelope k p.draft now id ≡ event = cc in
        (
          ap
              (λ z.
                k.ledger.events ++ record { cursor = length k.ledger.events + 1; event = z } ∷ [])
              same,
          subst (λ z. z.stream_version ≡ length (stream_of k.ledger z.stream_id) + 1) same
              next.version,
          (p, planned, ap (λ z. p.next (EventEnvelope.event_id z)) same),
        )

    -- In a Kernel whose versions are in step with its ledger, when the text of an event tells
    -- its place and the command records in another stream than the activation's: a command that
    -- returns an event has appended exactly that event, as the next of its stream, and has the
    -- registry of its plan.
    pub returning_appends_one :
        (now : ℕ) (r : Result Plan) (k : Kernel) (event : EventEnvelope Payload)
        → InStep k
        → IsElsewhere dump platform tells k r
        → (run dump platform now r k).0 ≡ ok event
        → ((run dump platform now r k).1.ledger.events
            ≡ k.ledger.events ++ record { cursor = length k.ledger.events + 1; event = event } ∷ [])
          × (event.stream_version ≡ length (stream_of k.ledger event.stream_id) + 1)
          × ((p : Plan) × (r ≡ ok p)
              × ((run dump platform now r k).1.registry ≡ p.next event.event_id))
    returning_appends_one now r k event h other =
        Ran-appends now r k event _ h other (run-Ran dump platform tells now r k h other)

    not_new :
        (p q : Plan) (k : Kernel) (s : StoredEvent Payload)
        → get k.ledger.idempotency p.draft.idempotency_key ≡ some s
        → ok p ≡ ok q
        → get k.ledger.idempotency q.draft.idempotency_key ≡ none
        → ⊥
    not_new p q k s used planned new =
        let same : q ≡ p = cc in
        cc (used, ap (λ z. get k.ledger.idempotency z.draft.idempotency_key) same, new)

    Ran-used :
        (now : ℕ) (p : Plan) (k : Kernel) (s : StoredEvent Payload)
        (x : Result (EventEnvelope Payload) × Kernel)
        → get k.ledger.idempotency p.draft.idempotency_key ≡ some s
        → Ran dump platform tells now (ok p) k x
        → (e : Error) × (x ≡ (err e, k))
    Ran-used now p k s _ used (raised e) = (e, refl)
    Ran-used now p k s _ used (returned q id planned next fine) =
        absurd (not_new p q k s used planned next.new_key)
    Ran-used now p k s _ used (raised_late q id e planned next late) =
        absurd (not_new p q k s used planned next.new_key)

    -- In a Kernel whose versions are in step with its ledger, when the text of an event tells
    -- its place and the command records in another stream than the activation's: a command whose
    -- idempotency key the ledger has already raises and changes nothing. `_record` numbers the
    -- event anew, so that it is never the event that the ledger has under the key.
    pub used_key_raises :
        (now : ℕ) (p : Plan) (k : Kernel) (s : StoredEvent Payload)
        → InStep k
        → p.draft.stream_id ≢ k.activation.stream_id
        → get k.ledger.idempotency p.draft.idempotency_key ≡ some s
        → (e : Error) × (run dump platform now (ok p) k ≡ (err e, k))
    used_key_raises now p k s h other used =
        Ran-used now p k s _ used (run-Ran dump platform tells now (ok p) k h other)

  screen-next :
      (event : EventEnvelope Payload) (n : ℕ) (l : Ledger Payload)
      → IsNext event l
      → n ≡ length (stream_of l event.stream_id)
      → screen dump event n l ≡ ok none
  unfolding screen
  screen-next event n l next here = ground (
    arith,
    eq_iff event.data_space_id l.data_space_id,
    next.in_space,
    next.new_key,
    next.new_id,
    next.version,
  )

  fresh_run :
      (now : ℕ) (p : Plan) (k : Kernel) (id : String)
      → InStep k
      → p.draft.stream_id ≢ k.activation.stream_id
      → k.data_space.data_space_id ≡ k.ledger.data_space_id
      → deterministic_event_id platform k.data_space.data_space_id p.draft.stream_id
          p.draft.idempotency_key
        ≡ ok id
      → has_valid_fields (envelope k p.draft now id) ≡ true
      → get k.ledger.idempotency p.draft.idempotency_key ≡ none
      → get k.ledger.event_ids id ≡ none
      → p.raises ≡ none
      → ((run dump platform now (ok p) k).0 ≡ ok (envelope k p.draft now id))
        × ((run dump platform now (ok p) k).1.registry ≡ p.next id)
  unfolding run commit record_event append
  fresh_run now p k id h other space has_id valid new_key new_id fine =
      let versions = h.versions p.draft.stream_id other in
      let next : IsNext (envelope k p.draft now id) k.ledger = record {
        in_space = space;
        new_key = new_key;
        new_id = new_id;
        version = ap (λ n. n + 1) versions;
      } in
      let passes =
        screen-next (envelope k p.draft now id) (expected_version k p.draft.stream_id) k.ledger next
          versions in
      (
        rw (has_id, valid, with_event_id, passes, finish, after_append, write_next, fine) refl,
        rw (has_id, valid, with_event_id, passes, finish, after_append, write_next) refl,
      )

  -- Take a Kernel whose versions are in step with its ledger, which has the same DataSpace, and whose
  -- records stand under their own ids with findings of WorkItems that exist. A command whose tests pass, and which records in another
  -- stream than the activation's, returns its event and writes its registry, when its event id and
  -- the fields of its event are valid and the ledger has neither the id nor the idempotency key.
  pub fresh_key_returns :
      (now : ℕ) (command : Command) (c : Caller) (p : Plan) (k : Kernel) (id : String)
      → InStep k
      → IsFiled k.registry
      → plan_of k command c ≡ ok p
      → p.draft.stream_id ≢ k.activation.stream_id
      → k.data_space.data_space_id ≡ k.ledger.data_space_id
      → deterministic_event_id platform k.data_space.data_space_id p.draft.stream_id
          p.draft.idempotency_key
        ≡ ok id
      → has_valid_fields (envelope k p.draft now id) ≡ true
      → get k.ledger.idempotency p.draft.idempotency_key ≡ none
      → get k.ledger.event_ids id ≡ none
      → ((execute dump platform now command c k).0 ≡ ok (envelope k p.draft now id))
        × ((execute dump platform now command c k).1.registry ≡ p.next id)
  unfolding execute
  fresh_key_returns now command c p k id h filed planned other space has_id valid new_key new_id =
      let runs =
        fresh_run now p k id h other space has_id valid new_key new_id
          ((plan_of-never_late k command c filed).at p planned) in
      rw planned runs
