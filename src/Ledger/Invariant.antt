-- ===== src/Ledger/Invariant.antt =====
-- vsm/kernel/ledger.py: the invariant that ties the event list of the ledger to its three indexes.
use mathlib.Core.List.{append-nil}
use mathlib.Core.Path.{ap₂}
use nanihold_os.Prelude.{
  ℕ, suc, ◌+◌, String, ◌≡◌, refl, sym, ap, ◌∙◌, Bool, true, false, Option, none, some, List, [],
  ◌∷◌, ◌++◌, inl, inr, arith, ◌==◌, eq_iff, if◌then◌else◌, length, keep, keep-append, In, In-append,
  In-append_left, In-append_right, Bool-cases,
}
use nanihold_os.Result.{Result, ok, err}
use nanihold_os.Dict.{Dict, get, put, get-put, get-empty, get-put_ne, get-put_self, get-put_cases}
use nanihold_os.Models.Event.{EventEnvelope, StoredEvent}
use nanihold_os.Ledger.{Ledger, new_ledger, stream_of, or_empty, store, screen, finish, append}

module _ {P : Type 0} where
  -- Cursors count up from `n`.
  abbrev pub Numbered : ℕ → List (StoredEvent P) → Type 0
  Numbered n [] = Unit
  Numbered n (e ∷ es) = (e.cursor ≡ n) × Numbered (suc n) es

  -- Stream versions count up from `n`.
  abbrev pub Versioned : ℕ → List (StoredEvent P) → Type 0
  Versioned n [] = Unit
  Versioned n (e ∷ es) = (e.event.stream_version ≡ n) × Versioned (suc n) es

  abbrev pub on_stream : String → StoredEvent P → Bool
  on_stream s e = e.event.stream_id == s

  Numbered-append :
      (n : ℕ) (es : List (StoredEvent P)) (e : StoredEvent P)
      → Numbered n es
      → e.cursor ≡ n + length es
      → Numbered n (es ++ e ∷ [])
  Numbered-append n [] e h p = (omega arith, tt)
  Numbered-append n (x ∷ es) e h p = (h.0, Numbered-append (suc n) es e h.1 (omega arith))

  Versioned-append :
      (n : ℕ) (es : List (StoredEvent P)) (e : StoredEvent P)
      → Versioned n es
      → e.event.stream_version ≡ n + length es
      → Versioned n (es ++ e ∷ [])
  Versioned-append n [] e h p = (omega arith, tt)
  Versioned-append n (x ∷ es) e h p = (h.0, Versioned-append (suc n) es e h.1 (omega arith))

  pub record WellFormed (l : Ledger P) : Type 0 where
    pub numbered : Numbered 1 l.events
    pub streams : (s : String) → stream_of l s ≡ keep (on_stream s) l.events
    pub versions : (s : String) → Versioned 1 (stream_of l s)
    pub key_found :
        (e : StoredEvent P) → In e l.events → get l.idempotency e.event.idempotency_key ≡ some e
    pub key_stored :
        (k : String) (e : StoredEvent P)
        → get l.idempotency k ≡ some e
        → In e l.events × (e.event.idempotency_key ≡ k)
    pub id_found : (e : StoredEvent P) → In e l.events → get l.event_ids e.event.event_id ≡ some e
    pub id_stored :
        (k : String) (e : StoredEvent P)
        → get l.event_ids k ≡ some e
        → In e l.events × (e.event.event_id ≡ k)

  pub new_ledger-WellFormed : (space : String) → WellFormed (new_ledger {P = P} space)
  unfolding stream_of
  new_ledger-WellFormed space = record {
    numbered = tt;
    streams = λ s. ap or_empty (get-empty s);
    versions = λ s. rw (get-empty {V = List (StoredEvent P)} s, or_empty) tt;
    key_found = λ e m. absurd m;
    key_stored = λ k e h. cc (h, get-empty {V = StoredEvent P} k);
    id_found = λ e m. absurd m;
    id_stored = λ k e h. cc (h, get-empty {V = StoredEvent P} k);
  }

  unfoldable pub stored_as : EventEnvelope P → Ledger P → StoredEvent P
  stored_as event l = record { cursor = length l.events + 1; event = event }

  pub stream_of-store :
      (event : EventEnvelope P) (l : Ledger P) (s : String)
      → stream_of (store event l) s ≡ (
          if event.stream_id == s
          then stream_of l event.stream_id ++ stored_as event l ∷ []
          else stream_of l s)
  unfolding store stored_as
  stream_of-store event l s =
      ap or_empty (get-put l.streams event.stream_id s _)
      ∙ (elim (Bool-cases (event.stream_id == s)) [ inl e ↦ rw e | inr e ↦ rw e ])

  -- What an event must satisfy for `append` to store it.
  pub record IsNext (event : EventEnvelope P) (l : Ledger P) : Type 0 where
    pub in_space : event.data_space_id ≡ l.data_space_id
    pub new_key : get l.idempotency event.idempotency_key ≡ none
    pub new_id : get l.event_ids event.event_id ≡ none
    pub version : event.stream_version ≡ length (stream_of l event.stream_id) + 1

  module _ (dump : EventEnvelope P → String) where
    pub screen-IsNext :
        (event : EventEnvelope P) (expected : ℕ) (l : Ledger P)
        → screen dump event expected l ≡ ok none
        → IsNext event l × (expected ≡ length (stream_of l event.stream_id))
    unfolding screen
    screen-IsNext event expected l h = ground (arith, eq_iff event.data_space_id l.data_space_id)

  module _ (event : EventEnvelope P) (l : Ledger P) (h : WellFormed l) (next : IsNext event l) where
    abbrev new : StoredEvent P
    new = stored_as event l

    keep_same :
        (s : String) → (event.stream_id == s) ≡ true → keep (on_stream s) (new ∷ []) ≡ new ∷ []
    unfolding stored_as
    keep_same s e = ground arith

    keep_other : (s : String) → (event.stream_id == s) ≡ false → keep (on_stream s) (new ∷ []) ≡ []
    unfolding stored_as
    keep_other s e = ground arith

    store-streams :
        (s : String) → stream_of (store event l) s ≡ keep (on_stream s) (l.events ++ new ∷ [])
    store-streams s = rw (stream_of-store event l s) (
        rw (keep-append (on_stream s) l.events (new ∷ []))
          (elim (Bool-cases (event.stream_id == s)) [
            | inl same ↦ rw same (
                ap₂ ◌++◌ (ap (stream_of l) ((eq_iff event.stream_id s).0 same) ∙ h.streams s)
                  (sym (keep_same s same)))
            | inr other ↦ rw other (
                h.streams s
                ∙ sym (
                    ap (λ xs. keep (on_stream s) l.events ++ xs) (keep_other s other)
                    ∙ append-nil _))
          ]))

    new_version : new.event.stream_version ≡ 1 + length (stream_of l event.stream_id)
    unfolding stored_as
    new_version = omega (arith, next.version)

    store-versions : (s : String) → Versioned 1 (stream_of (store event l) s)
    store-versions s = rw (stream_of-store event l s) (elim (Bool-cases (event.stream_id == s)) [
      | inl same ↦
          rw same (Versioned-append 1 (stream_of l event.stream_id) new (h.versions _) new_version)
      | inr other ↦ rw other (h.versions s)
    ])

    -- An index that had no entry under the key of the new event, and now has the event there.
    module _ (index : Dict (StoredEvent P)) (key : EventEnvelope P → String)
        (absent : get index (key event) ≡ none) where
      indexed_found :
          ((e : StoredEvent P) → In e l.events → get index (key e.event) ≡ some e)
          → (e : StoredEvent P) → In e (l.events ++ new ∷ [])
          → get (put index (key event) new) (key e.event) ≡ some e
      unfolding stored_as
      indexed_found found e m = elim (In-append e l.events (new ∷ []) m) [
        | inl old ↦
            get-put_ne index (key event) (key e.event) new
              (λ p. cc (absent, ap (get index) p, found e old))
            ∙ found e old
        | inr (inl same) ↦ rw same (get-put_self index (key event) new)
        | inr (inr nothing) ↦ absurd nothing
      ]

      indexed_stored :
          ((k : String) (e : StoredEvent P)
            → get index k ≡ some e
            → In e l.events × (key e.event ≡ k))
          → (k : String) (e : StoredEvent P) → get (put index (key event) new) k ≡ some e
          → In e (l.events ++ new ∷ []) × (key e.event ≡ k)
      unfolding stored_as
      indexed_stored stored k e p = elim (get-put_cases index (key event) k new e p) [
        | inl (same, is_new) ↦ (
          In-append_right e l.events (new ∷ []) (inl is_new),
          ap (λ s. key s.event) is_new ∙ same,
        )
        | inr (other, old) ↦
            let (m, q) = stored k e old in (In-append_left e l.events (new ∷ []) m, q)
      ]

    -- The writes of `append` keep the invariant.
    pub store-WellFormed : WellFormed (store event l)
    unfolding store stored_as
    store-WellFormed = record {
      numbered = Numbered-append 1 l.events new h.numbered (omega arith);
      streams = store-streams;
      versions = store-versions;
      key_found = indexed_found l.idempotency (λ e. e.idempotency_key) next.new_key h.key_found;
      key_stored = indexed_stored l.idempotency (λ e. e.idempotency_key) next.new_key h.key_stored;
      id_found = indexed_found l.event_ids (λ e. e.event_id) next.new_id h.id_found;
      id_stored = indexed_stored l.event_ids (λ e. e.event_id) next.new_id h.id_stored;
    }

  module _ (dump : EventEnvelope P → String) (event : EventEnvelope P) (expected : ℕ)
      (l : Ledger P) where
    -- `append` keeps the ledger well formed, whether it stores the event, answers a duplicate or
    -- raises: cursors and stream versions count up, and the streams and both indexes agree with
    -- the event list.
    pub append-WellFormed : WellFormed l → WellFormed (append dump event expected l).1
    unfolding append
    append-WellFormed h = kept (screen dump event expected l) refl
      where
        kept :
            (r : Result (Option (StoredEvent P)))
            → screen dump event expected l ≡ r
            → WellFormed (finish dump r event l).1
        kept (err e) p = h
        kept (ok (some s)) p = h
        kept (ok none) p = store-WellFormed event l h (screen-IsNext dump event expected l p).0
