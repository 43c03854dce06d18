-- ===== src/Ledger/Idempotence.antt =====
-- vsm/kernel/ledger.py: what an `append` that repeats an event answers.
use nanihold_os.Prelude.{
  ℕ, String, ◌≡◌, refl, sym, ◌∙◌, true, Option, none, some, inl, inr, arith, ◌==◌, eq_iff,
  Option-cases,
}
use text.Mathlib.TextPositions.{eq_refl}
use nanihold_os.Result.{Result, ok, err}
use nanihold_os.Dict.{get, get-put_self}
use nanihold_os.Models.Event.{EventEnvelope, StoredEvent, AppendResult, duplicate}
use nanihold_os.Ledger.{Ledger, store, screen, append, finish, appended_as, duplicate_of}
use nanihold_os.Ledger.Invariant.{screen-IsNext, stored_as}

module _ {P : Type 0} (dump : EventEnvelope P → String) where
  -- The ledger knows the event: it has an event of the same text under its key, or no event under
  -- its key and one of the same text under its id.
  pub data Knows (event : EventEnvelope P) (l : Ledger P) (s : StoredEvent P) : Type 0 where
    by_key :
        get l.idempotency event.idempotency_key ≡ some s
        → (dump s.event == dump event) ≡ true
        → Knows event l s
    by_id :
        get l.idempotency event.idempotency_key ≡ none
        → get l.event_ids event.event_id ≡ some s
        → (dump s.event == dump event) ≡ true
        → Knows event l s

  pub Knows-screen :
      (event : EventEnvelope P) (expected : ℕ) (l : Ledger P) (s : StoredEvent P)
      → event.data_space_id ≡ l.data_space_id
      → Knows event l s
      → screen dump event expected l ≡ ok (some s)
  unfolding screen
  Knows-screen event expected l s space (by_key found same) =
      ground (arith, eq_iff event.data_space_id l.data_space_id)
  Knows-screen event expected l s space (by_id absent found same) =
      ground (arith, eq_iff event.data_space_id l.data_space_id)

  pub screen-Knows :
      (event : EventEnvelope P) (expected : ℕ) (l : Ledger P) (s : StoredEvent P)
      → screen dump event expected l ≡ ok (some s)
      → (event.data_space_id ≡ l.data_space_id) × Knows event l s
  unfolding screen
  screen-Knows event expected l s h =
      elim (Option-cases (get l.idempotency event.idempotency_key)) [
        | inl absent ↦ (
          ground (arith, eq_iff event.data_space_id l.data_space_id),
          by_id absent (ground arith) (ground arith),
        )
        | inr (t, found) ↦ (
          ground (arith, eq_iff event.data_space_id l.data_space_id),
          by_key (ground arith) (ground arith),
        )
      ]

  stored-Knows :
      (event : EventEnvelope P) (l : Ledger P) → Knows event (store event l) (stored_as event l)
  unfolding store stored_as
  stored-Knows event l =
      by_key (get-put_self l.idempotency event.idempotency_key _) (eq_refl (dump event))

  Knows-append :
      (event : EventEnvelope P) (expected : ℕ) (l : Ledger P) (s : StoredEvent P)
      → event.data_space_id ≡ l.data_space_id
      → Knows event l s
      → append dump event expected l ≡ (ok (duplicate_of s), l)
  unfolding append
  Knows-append event expected l s space k = rw (Knows-screen event expected l s space k, finish)

  pub space-store :
      (event : EventEnvelope P) (l : Ledger P) → (store event l).data_space_id ≡ l.data_space_id
  unfolding store
  space-store event l = refl

  stored_reply :
      (event : EventEnvelope P) (l : Ledger P) {r : AppendResult}
      → ok (appended_as dump event l) ≡ ok r
      → ◌≡◌ {A = Result AppendResult × Ledger P}
          (ok (duplicate_of (stored_as event l)), store event l)
          (ok (record r { outcome = duplicate }), store event l)
  unfolding stored_as
  stored_reply event l q = ground arith

  again :
      (event : EventEnvelope P) (expected expected' : ℕ) (l : Ledger P) {r : AppendResult}
      (v : Result (Option (StoredEvent P)))
      → screen dump event expected l ≡ v
      → (finish dump v event l).0 ≡ ok r
      → append dump event expected' (finish dump v event l).1
        ≡ (ok (record r { outcome = duplicate }), (finish dump v event l).1)
  again event expected expected' l (err e) p q = absurd (cc)
  again event expected expected' l (ok (some s)) p q =
      let (space, known) = screen-Knows event expected l s p in
      Knows-append event expected' l s space known ∙ ground arith
  again event expected expected' l (ok none) p q =
      let (next, _) = screen-IsNext dump event expected l p in
      Knows-append event expected' (store event l) (stored_as event l)
        (next.in_space ∙ sym (space-store event l)) (stored-Knows event l)
      ∙ stored_reply event l q

  -- A repeated `append` of an event that was accepted, whatever version it expects, changes nothing
  -- and answers "duplicate" with the cursor and the version of the first answer.
  pub append_again :
      (event : EventEnvelope P) (expected expected' : ℕ) (l : Ledger P) {r : AppendResult}
      → (append dump event expected l).0 ≡ ok r
      → append dump event expected' (append dump event expected l).1
        ≡ (ok (record r { outcome = duplicate }), (append dump event expected l).1)
  unfolding append
  append_again event expected expected' l h =
      again event expected expected' l (screen dump event expected l) refl h
