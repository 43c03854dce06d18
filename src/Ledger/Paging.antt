-- ===== src/Ledger/Paging.antt =====
-- vsm/kernel/ledger.py: which events `page` returns.
use native.Mathlib.Nat.{add-zero}
use nanihold_os.Prelude.{
  ℕ, zero, suc, ◌+◌, ◌≤◌, ◌<◌, ◌≡◌, ◌↔◌, ap, List, [], ◌∷◌, inl, inr, arith, take, drop, length, In,
  length-take,
}
use nanihold_os.Result.{ok}
use nanihold_os.Models.Event.{StoredEvent}
use nanihold_os.Ledger.{Ledger, page}
use nanihold_os.Ledger.Invariant.{Numbered, WellFormed}

module _ {P : Type 0} where
  Numbered-ge :
      (n : ℕ) (es : List (StoredEvent P)) (e : StoredEvent P)
      → Numbered n es
      → In e es
      → n ≤ e.cursor
  Numbered-ge n (x ∷ es) e h (inl p) = omega (arith, ap (λ (s : StoredEvent P). s.cursor) p)
  Numbered-ge n (x ∷ es) e h (inr m) = omega (arith, Numbered-ge (suc n) es e h.1 m)
  Numbered-ge n [] e h m = absurd m

  -- In a numbered list the first `k` elements are those with a cursor below `n + k`.
  In-take :
      (k n : ℕ) (es : List (StoredEvent P)) (e : StoredEvent P)
      → Numbered n es
      → In e (take k es)
      → In e es × (e.cursor < n + k)
  In-take zero n es e h m = absurd m
  In-take (suc k) n [] e h m = absurd m
  In-take (suc k) n (x ∷ es) e h (inl p) =
      (inl p, omega (arith, ap (λ (s : StoredEvent P). s.cursor) p))
  In-take (suc k) n (x ∷ es) e h (inr m) =
      let (old, below) = In-take k (suc n) es e h.1 m in (inr old, omega arith)

  In-take_of_lt :
      (k n : ℕ) (es : List (StoredEvent P)) (e : StoredEvent P)
      → Numbered n es
      → In e es
      → e.cursor < n + k
      → In e (take k es)
  In-take_of_lt zero n es e h m p = absurd (omega (arith, Numbered-ge n es e h m))
  In-take_of_lt (suc k) n [] e h m p = absurd m
  In-take_of_lt (suc k) n (x ∷ es) e h (inl q) p = inl q
  In-take_of_lt (suc k) n (x ∷ es) e h (inr m) p =
      inr (In-take_of_lt k (suc n) es e h.1 m (omega arith))

  In-drop :
      (k n : ℕ) (es : List (StoredEvent P)) (e : StoredEvent P)
      → Numbered n es
      → In e (drop k es)
      → In e es × (n + k ≤ e.cursor)
  In-drop zero n es e h m = (m, omega (arith, Numbered-ge n es e h m))
  In-drop (suc k) n [] e h m = absurd m
  In-drop (suc k) n (x ∷ es) e h m =
      let (old, above) = In-drop k (suc n) es e h.1 m in (inr old, omega arith)

  In-drop_of_ge :
      (k n : ℕ) (es : List (StoredEvent P)) (e : StoredEvent P)
      → Numbered n es
      → In e es
      → n + k ≤ e.cursor
      → In e (drop k es)
  In-drop_of_ge zero n es e h m p = m
  In-drop_of_ge (suc k) n [] e h m p = m
  In-drop_of_ge (suc k) n (x ∷ es) e h (inl q) p =
      absurd (omega (arith, ap (λ (s : StoredEvent P). s.cursor) q))
  In-drop_of_ge (suc k) n (x ∷ es) e h (inr m) p = In-drop_of_ge k (suc n) es e h.1 m (omega arith)

  Numbered-drop :
      (k n : ℕ) (es : List (StoredEvent P)) → Numbered n es → Numbered (n + k) (drop k es)
  Numbered-drop zero n es h = rw add-zero h
  Numbered-drop (suc k) n [] h = tt
  Numbered-drop (suc k) n (x ∷ es) h =
      let e : n + suc k ≡ suc n + k = omega arith in rw e (Numbered-drop k (suc n) es h.1)

  -- On a well-formed ledger, `page(after, limit)` succeeds for every positive limit. It returns
  -- at most `limit` events, and exactly those of the ledger whose cursor lies after `after` and
  -- not after `after + limit`.
  pub page_lem :
      (after limit : ℕ) (l : Ledger P)
      → WellFormed l
      → 0 < limit
      → (es : List (StoredEvent P)) × (page after limit l ≡ ok es)
        × (length es ≤ limit)
        × ((e : StoredEvent P)
            → In e es ↔ (In e l.events × (after < e.cursor) × (e.cursor ≤ after + limit)))
  unfolding page
  page_lem after limit l h p = (
    take limit (drop after l.events),
    ground arith,
    length-take limit (drop after l.events),
    λ e. (
      λ m.
          let (mid, below) =
            In-take limit (1 + after) (drop after l.events) e
              (Numbered-drop after 1 l.events h.numbered) m in
          let (old, above) = In-drop after 1 l.events e h.numbered mid in
          (old, omega arith, omega arith),
      λ q.
          In-take_of_lt limit (1 + after) (drop after l.events) e
            (Numbered-drop after 1 l.events h.numbered)
            (In-drop_of_ge after 1 l.events e h.numbered q.0 (omega arith)) (omega arith),
    ),
  )
