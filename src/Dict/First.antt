-- ===== src/Dict/First.antt =====
-- Python's `next((v for v in d.values() if p(v)), None)` on a dictionary whose values have their keys.
use nanihold_os.Prelude.{
  String, ◌≡◌, refl, sym, ap, ◌∙◌, Bool, true, false, some, List, [], ◌∷◌, inl, inr, arith, ◌==◌,
  eq_iff, Bool-cases,
}
use nanihold_os.Dict.{
  Dict, empty, put, first_value, any_value, find, assign, first_entry, any_entry, DistinctEntries,
  HasDistinctKeys, first_entry-find, put-HasDistinctKeys, empty-HasDistinctKeys,
}

module _ {V : Type 0} (key : V → String) where
  pub KeyedEntries : List (String × V) → Type 0
  KeyedEntries [] = Unit
  KeyedEntries ((k, v) ∷ d) = (key v ≡ k) × KeyedEntries d

  -- Every value stands under its own key, and no key twice.
  pub record IsKeyed (d : Dict V) : Type 0 where
    pub keyed : KeyedEntries d.entries
    pub distinct : HasDistinctKeys d

  assign-Keyed :
      (v : V) (d : List (String × V)) → KeyedEntries d → KeyedEntries (assign (key v) v d)
  unfolding KeyedEntries assign
  assign-Keyed v [] h = (refl, tt)
  assign-Keyed v ((j, w) ∷ d) h = elim (Bool-cases (j == key v)) [
    | inl same ↦ rw same (sym ((eq_iff j (key v)).0 same), h.1)
    | inr other ↦ rw other (h.0, assign-Keyed v d h.1)
  ]

  pub put-IsKeyed : (v : V) (d : Dict V) → IsKeyed d → IsKeyed (put d (key v) v)
  unfolding put
  put-IsKeyed v d h = record {
    keyed = assign-Keyed v d.entries h.keyed;
    distinct = put-HasDistinctKeys d (key v) v h.distinct;
  }

  pub empty-IsKeyed : IsKeyed empty
  unfolding KeyedEntries
  empty-IsKeyed = record { keyed = tt; distinct = empty-HasDistinctKeys V }

  find-keyed :
      (k : String) (v : V) (d : List (String × V)) → KeyedEntries d → find k d ≡ some v → key v ≡ k
  unfolding KeyedEntries find
  find-keyed k v [] h e = absurd (cc)
  find-keyed k v ((j, w) ∷ d) h e = elim (Bool-cases (j == k)) [
    | inl same ↦ let is : w ≡ v = ground arith in sym (ap key is) ∙ h.0 ∙ (eq_iff j k).0 same
    | inr other ↦ find-keyed k v d h.1 (ground arith)
  ]

  first_entry-assign :
      (p : V → Bool) (v v' : V) (d : List (String × V))
      → KeyedEntries d
      → DistinctEntries d
      → first_entry p d ≡ some v
      → key v' ≡ key v
      → p v' ≡ true
      → first_entry p (assign (key v') v' d) ≡ some v'
  unfolding KeyedEntries DistinctEntries assign first_entry
  first_entry-assign p v v' [] h q e same holds = absurd (cc)
  first_entry-assign p v v' ((j, w) ∷ d) h q e same holds = elim (Bool-cases (p w)) [
    | inl first ↦
        let is : w ≡ v = ground arith in
        let here : j ≡ key v' = sym h.0 ∙ ap key is ∙ sym same in
        rw ((eq_iff j (key v')).1 here, holds) refl
    | inr fails ↦
        let rest : first_entry p d ≡ some v = ground arith in
        let (k, found, _) = first_entry-find p v d q.1 rest in
        let there : key v ≡ k = find-keyed k v d h.1 found in
        elim (Bool-cases (j == key v')) [
          | inl clash ↦
              let at_j : k ≡ j = sym there ∙ sym same ∙ sym ((eq_iff j (key v')).0 clash) in
              absurd (cc (found, ap (λ z. find z d) at_j, q.0))
          | inr other ↦ rw (other, fails) (first_entry-assign p v v' d h.1 q.1 rest same holds)
        ]
  ]

  -- The first value that passes a test is replaced under its key by another that passes it.
  pub first_value-put :
      (p : V → Bool) (v v' : V) (d : Dict V)
      → IsKeyed d
      → first_value p d ≡ some v
      → key v' ≡ key v
      → p v' ≡ true
      → first_value p (put d (key v') v') ≡ some v'
  unfolding first_value put HasDistinctKeys
  first_value-put p v v' d h e same holds =
      first_entry-assign p v v' d.entries h.keyed h.distinct e same holds

first_entry-assign_new :
    {V : Type 0} (p : V → Bool) (k : String) (v : V) (d : List (String × V))
    → any_entry p d ≡ false
    → p v ≡ true
    → first_entry p (assign k v d) ≡ some v
unfolding assign first_entry any_entry
first_entry-assign_new p k v [] h holds = rw holds refl
first_entry-assign_new p k v ((j, w) ∷ d) h holds = ground (arith, first_entry-assign_new p k v d)

-- A value that passes a test which no other passes is the first that does.
pub first_value-put_only :
    {V : Type 0} (p : V → Bool) (k : String) (v : V) (d : Dict V)
    → any_value p d ≡ false
    → p v ≡ true
    → first_value p (put d k v) ≡ some v
unfolding first_value put any_value
first_value-put_only p k v d h holds = first_entry-assign_new p k v d.entries h holds
