-- ===== src/Projection/Rebuild.antt =====
-- vsm/projection.py: the loops of `rebuild`, and the Kernel that they build.
use mathlib.Core.Path.{ap₂}
use nanihold_os.Prelude.{
  ℕ, zero, suc, ◌+◌, ◌≤◌, ◌<◌, String, ◌≡◌, refl, sym, ap, ◌∙◌, false, not, Option, none, some,
  List, [], ◌∷◌, arith, nat_eq, leb, length, take, drop, take-append-drop, drop-drop,
}
use nanihold_os.Result.{
  Result, ok, err, ◌>>=◌, Ensures, Ensures-ok, Ensures-raise_if, Ensures-bind, Ensures-if,
}
use nanihold_os.Models.Event.{EventEnvelope, StoredEvent}
use nanihold_os.Models.Payload.{Payload}
use nanihold_os.Ledger.{Ledger, page}
use nanihold_os.Projection.{Projection, apply_page, apply, handle, by_prefix, rebuild_from, rebuild}
use nanihold_os.Projection.Events.{apply_page-append}

-- `apply` neither moves the cursor nor replaces the ledger.
record Stays (p q : Projection) : Type 0 where
  pub cursor : q.cursor ≡ p.cursor
  pub ledger : q.kernel.ledger ≡ p.kernel.ledger

stays : (p q : Projection) → q.cursor ≡ p.cursor → q.kernel.ledger ≡ p.kernel.ledger → Stays p q
stays p q h r = record { cursor = h; ledger = r }

handle-Stays : (e : EventEnvelope Payload) (p : Projection) → Ensures (Stays p) (handle e p)
unfolding handle
handle-Stays e p = search (Ensures-ok, Ensures-if, Ensures-bind, stays, refl) depth 12

by_prefix-Stays :
    (e : EventEnvelope Payload) (p : Projection) (o : Option String)
    → Ensures (Stays p) (by_prefix p e o)
by_prefix-Stays e p none = search (Ensures-raise_if, handle-Stays) depth 8
by_prefix-Stays e p (some prefix) = search (Ensures-raise_if, Ensures-ok, stays, refl) depth 8

apply-Stays : (e : EventEnvelope Payload) (p : Projection) → Ensures (Stays p) (apply e p)
unfolding apply
apply-Stays e p = search (Ensures-raise_if, by_prefix-Stays) depth 8

-- The loop over a page moves the cursor by its events.
record Moves (n : ℕ) (p q : Projection) : Type 0 where
  pub cursor : q.cursor ≡ p.cursor + n
  pub ledger : q.kernel.ledger ≡ p.kernel.ledger

numbered : (a b : ℕ) → not (nat_eq a b) ≡ false → a ≡ b
numbered a b h = ground arith

apply_page-Moves :
    (es : List (StoredEvent Payload)) (p : Projection)
    → Ensures (Moves (length es) p) (apply_page es p)
unfolding apply_page
apply_page-Moves [] p = Ensures-ok (record { cursor = omega arith; ledger = refl })
apply_page-Moves (e ∷ es) p =
    let leaf : not (nat_eq e.cursor (p.cursor + 1)) ≡ false
        → (q : Projection) → apply e.event p ≡ ok q
        → Ensures (Moves (length (e ∷ es)) p) (apply_page es (record q { cursor = e.cursor })) =
      λ next q applied. record {
        at = λ r done.
            let s = (apply-Stays e.event p).at q applied in
            let m = (apply_page-Moves es (record q { cursor = e.cursor })).at r done in
            record {
              cursor = omega (arith, m.cursor, numbered e.cursor (p.cursor + 1) next);
              ledger = m.ledger ∙ s.ledger;
            };
      } in
    search (Ensures-raise_if, Ensures-bind, leaf) depth 8

drop-length-take : {A : Type 0} (n : ℕ) (xs : List A) → drop (length (take n xs)) xs ≡ drop n xs
drop-length-take zero xs = refl
drop-length-take (suc n) [] = refl
drop-length-take (suc n) (x ∷ xs) = drop-length-take n xs

length-drop_le : {A : Type 0} (n : ℕ) (xs : List A) → length (drop n xs) ≤ length xs
length-drop_le zero xs = omega arith
length-drop_le (suc n) [] = omega arith
length-drop_le (suc n) (x ∷ xs) = omega (arith, length-drop_le n xs)

length-drop_lt :
    {A : Type 0} (n : ℕ) (x : A) (xs : List A) → 0 < n → length (drop n (x ∷ xs)) < length (x ∷ xs)
length-drop_lt zero x xs h = absurd (omega arith)
length-drop_lt (suc n) x xs h = omega (arith, length-drop_le n xs)

Result-cong :
    (r : Result Projection) (f g : Projection → Result Projection)
    → ((q : Projection) → r ≡ ok q → f q ≡ g q)
    → (r >>= f) ≡ (r >>= g)
Result-cong (err e) f g h = refl
Result-cong (ok q) f g h = h q refl

-- The first page and what follows it.
one_page :
    (f : Projection → Result Projection) (n : ℕ) (xs : List (StoredEvent Payload)) (p : Projection)
    → ((q : Projection) → apply_page (take n xs) p ≡ ok q → f q ≡ apply_page (drop n xs) q)
    → (apply_page (take n xs) p >>= f) ≡ apply_page xs p
one_page f n xs p h =
    Result-cong (apply_page (take n xs) p) f (apply_page (drop n xs)) h
    ∙ sym (apply_page-append (take n xs) (drop n xs) p)
    ∙ ap (λ z. apply_page z p) (take-append-drop n xs)

page_lem :
    (after size : ℕ) (l : Ledger Payload)
    → 0 < size
    → page after size l ≡ ok (take size (drop after l.events))
unfolding page
page_lem after size l h = ground arith

-- The outer loop, over what is left, with more fuel than events.
rebuild_from-apply_page :
    (fuel size : ℕ) (p : Projection) (left : List (StoredEvent Payload))
    → left ≡ drop p.cursor p.kernel.ledger.events
    → length left < fuel
    → rebuild_from fuel (suc size) p ≡ apply_page left p
unfolding rebuild_from
rebuild_from-apply_page zero size p left h enough = absurd (omega arith)
rebuild_from-apply_page (suc fuel) size p [] h enough =
    rw (page_lem p.cursor (suc size) p.kernel.ledger (omega arith), sym h) refl
rebuild_from-apply_page (suc fuel) size p (e ∷ es) h enough =
    rw (page_lem p.cursor (suc size) p.kernel.ledger (omega arith), sym h)
      (one_page (rebuild_from fuel (suc size)) (suc size) (e ∷ es) p (λ q done.
        let m = (apply_page-Moves (take (suc size) (e ∷ es)) p).at q done in
        rebuild_from-apply_page fuel size q (drop (suc size) (e ∷ es))
          (sym (drop-length-take (suc size) (e ∷ es))
            ∙ ap (drop (length (take (suc size) (e ∷ es)))) h
            ∙ drop-drop p.cursor (length (take (suc size) (e ∷ es))) p.kernel.ledger.events
            ∙ ap₂ (λ n (l : Ledger Payload). drop n l.events) (sym m.cursor) (sym m.ledger))
          (omega (arith, length-drop_lt (suc size) e es (omega arith)))))

positive : (n : ℕ) → leb (suc n) 0 ≡ false
positive n = ground arith

-- For every positive page size `rebuild` does what one pass over the events after the cursor does,
-- errors included: its loop never runs out of fuel, and its result does not depend on the page size.
pub rebuild-apply_page :
    (page_size : ℕ) (p : Projection)
    → 0 < page_size
    → rebuild page_size p ≡ apply_page (drop p.cursor p.kernel.ledger.events) p
unfolding rebuild
rebuild-apply_page zero p h = absurd (omega arith)
rebuild-apply_page (suc size) p h = rw (positive size) (
    rebuild_from-apply_page (length p.kernel.ledger.events + 1) size p
      (drop p.cursor p.kernel.ledger.events) refl
      (omega (arith, length-drop_le p.cursor p.kernel.ledger.events)))
