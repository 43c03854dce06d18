-- ===== src/Activation/Evidence.antt =====
-- vsm/activation/service.py: what an accepted assessment has shown.
use nanihold_os.Prelude.{
  ℕ, ◌≤◌, String, ◌≡◌, refl, sym, Bool, true, false, not, List, [], ◌∷◌, inl, inr, arith, ◌==◌,
  eq_iff, map, any, contains, ltb, In, any-eq_false, Bool-cases,
}
use nanihold_os.Result.{
  Result, ok, raise_if, Ensures, Ensures-raise_if, Ensures-require, Ensures-bind, ◌>>=◌,
}
use nanihold_os.Models.Activation.{ReorientationAssessment, EvidenceCitation}
use nanihold_os.Activation.{Activation, Caller, Move}
use nanihold_os.Activation.Assessment.{
  submit_assessment, subset, same_set, required_claims, check_evidence,
}

contains-In : (x : String) (xs : List String) → contains x xs ≡ true → In x xs
contains-In x [] h = absurd (cc)
contains-In x (y ∷ ys) h = elim (Bool-cases (x == y)) [
  | inl same ↦ inl ((eq_iff x y).0 same)
  | inr other ↦ inr (contains-In x ys (ground arith))
]

subset-In : (xs ys : List String) (x : String) → subset xs ys ≡ true → In x xs → In x ys
subset-In [] ys x h m = absurd m
subset-In (y ∷ xs) ys x h (inl same) = contains-In x ys (rw same (ground arith))
subset-In (y ∷ xs) ys x h (inr m) = subset-In xs ys x (ground arith) m

In-map :
    (x : String) (cs : List EvidenceCitation)
    → In x (map (λ (c : EvidenceCitation). c.claim_ref) cs)
    → (c : EvidenceCitation) × In c cs × (c.claim_ref ≡ x)
In-map x [] m = absurd m
In-map x (c ∷ cs) (inl same) = (c, inl refl, sym same)
In-map x (c ∷ cs) (inr m) = let (d, at, same) = In-map x cs m in (d, inr at, same)

-- The evidence behind an assessment.
pub record Evidenced (decimal : ℕ → String) (a : Activation) (s : ReorientationAssessment)
    (open_commitment_ids existing_work_item_ids : List String) : Type 0 where
  pub claims :
      (x : String)
      → In x (required_claims decimal s)
      → (c : EvidenceCitation) × In c s.citations × (c.claim_ref ≡ x)
  pub audited :
      (c : EvidenceCitation) → In c s.citations → In c.evidence_ref a.history_query_event_ids
  pub commitments : (x : String) → In x open_commitment_ids → In x s.open_commitment_ids
  pub resumed : (x : String) → In x s.resume_work_item_ids → In x existing_work_item_ids
  pub cursors :
      (a.import_event_cursor ≤ s.history_cursor) × (s.history_cursor ≤ s.current_state_cursor)

not_ltb : (m n : ℕ) → ltb m n ≡ false → n ≤ m
not_ltb m n h = ground arith

Ensures-last :
    {P : Unit {0} → Type 0} (b : Bool) (m : String) → (b ≡ false → P tt) → Ensures P (raise_if b m)
Ensures-last true m h = record { at = λ u p. cc }
Ensures-last false m h = record { at = λ u p. h refl }

module _ (decimal : ℕ → String) (a : Activation) (s : ReorientationAssessment)
    (xs ys : List String) where
  evidenced :
      not (same_set s.open_commitment_ids xs) ≡ false
      → not (subset s.resume_work_item_ids ys) ≡ false
      → ltb s.history_cursor a.import_event_cursor ≡ false
      → ltb s.current_state_cursor s.history_cursor ≡ false
      → not (
          subset
            (required_claims decimal s)
            (map (λ (c : EvidenceCitation). c.claim_ref) s.citations))
        ≡ false
      → any
          (λ (c : EvidenceCitation). not (contains c.evidence_ref a.history_query_event_ids))
          s.citations
        ≡ false
      → Evidenced decimal a s xs ys
  evidenced open_ids resume after current claims audited = record {
    claims =
        λ x m. In-map x s.citations (subset-In (required_claims decimal s) _ x (ground arith) m);
    audited = λ c m.
        contains-In c.evidence_ref a.history_query_event_ids
          (affirmed _ (any-eq_false _ s.citations c audited m));
    commitments = λ x m. subset-In xs s.open_commitment_ids x (ground arith) m;
    resumed = λ x m. subset-In s.resume_work_item_ids ys x (ground arith) m;
    cursors = (
      not_ltb s.history_cursor a.import_event_cursor after,
      not_ltb s.current_state_cursor s.history_cursor current,
    );
  }
    where
      affirmed : (b : Bool) → not b ≡ false → b ≡ true
      affirmed b h = ground arith

  check_evidence-Evidenced :
      Ensures (λ _. Evidenced decimal a s xs ys) (check_evidence decimal a s xs ys)
  check_evidence-Evidenced = search (Ensures-raise_if, Ensures-last, evidenced) depth 16

  Ensures-evidence :
      (f : Unit {0} → Result Move)
      → Ensures (λ _. Evidenced decimal a s xs ys) (check_evidence decimal a s xs ys >>= f)
  Ensures-evidence f =
      Ensures-bind (check_evidence decimal a s xs ys) f
        (λ u p. record { at = λ m q. check_evidence-Evidenced.at u p })

  accepted-Evidenced :
      (listed : Bool) (c : Caller)
      → Ensures (λ _. Evidenced decimal a s xs ys) (submit_assessment decimal a s xs ys listed c)
  unfolding submit_assessment
  accepted-Evidenced listed c =
      search (Ensures-raise_if, Ensures-require, Ensures-evidence) depth 24

-- `submit_assessment` accepts an assessment only when every claim that needs evidence has a citation,
-- every citation is of an audited query, no open commitment is missing, every WorkItem to resume
-- exists, and the history was read after the import and the current state after the history.
pub submit_assessment-Evidenced :
    (decimal : ℕ → String) (a : Activation) (s : ReorientationAssessment) (xs ys : List String)
    (listed : Bool) (c : Caller) (m : Move)
    → submit_assessment decimal a s xs ys listed c ≡ ok m
    → Evidenced decimal a s xs ys
submit_assessment-Evidenced decimal a s xs ys listed c m accepted =
    (accepted-Evidenced decimal a s xs ys listed c).at m accepted
