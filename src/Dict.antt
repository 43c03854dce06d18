-- ===== src/Dict.antt =====
-- Python's `dict` with text keys, in insertion order. Assigning to a present key keeps its place.
-- The laws say what a lookup finds after each update.
pub mod First
use mathlib.Core.Path.{subst, subst₂}
use nanihold_os.Prelude.{
  String, ◌≡◌, ◌≢◌, ◌⊎◌, inl, inr, Bool-cases, refl, sym, ◌∙◌, Bool, true, false, ◌&&◌, ◌||◌,
  Option, none, some, List, [], ◌∷◌, arith, ◌==◌, eq_iff, if◌then◌else◌, is_some,
}

pub record Dict {ℓ} (V : Type ℓ) : Type ℓ where
  pub entries : List (String × V)

module _ {ℓ} {V : Type ℓ} where
  find : String → List (String × V) → Option V
  find k [] = none
  find k ((j, v) ∷ d) = if j == k then some v else find k d

  assign : String → V → List (String × V) → List (String × V)
  assign k v [] = (k, v) ∷ []
  assign k v ((j, w) ∷ d) = if j == k then (j, v) ∷ d else (j, w) ∷ assign k v d

  any_entry : (V → Bool) → List (String × V) → Bool
  any_entry p [] = false
  any_entry p ((_, v) ∷ d) = p v || any_entry p d

  map_entries : (V → V) → List (String × V) → List (String × V)
  map_entries f [] = []
  map_entries f ((k, v) ∷ d) = (k, f v) ∷ map_entries f d

  first_entry : (V → Bool) → List (String × V) → Option V
  first_entry p [] = none
  first_entry p ((_, v) ∷ d) = if p v then some v else first_entry p d

  abbrev pub empty : Dict V
  empty = record { entries = [] }

  -- `d.get(k)`
  unfoldable pub get : Dict V → String → Option V
  unfolding find
  get d k = find k d.entries

  -- `k in d`
  abbrev pub member : Dict V → String → Bool
  member d k = is_some (get d k)

  -- `d[k] = v`
  unfoldable pub put : Dict V → String → V → Dict V
  unfolding assign
  put d k v = record { entries = assign k v d.entries }

  -- `any(p(v) for v in d.values())`
  unfoldable pub any_value : (V → Bool) → Dict V → Bool
  unfolding any_entry
  any_value p d = any_entry p d.entries

  -- `next((v for v in d.values() if p(v)), None)`
  unfoldable pub first_value : (V → Bool) → Dict V → Option V
  unfolding first_entry
  first_value p d = first_entry p d.entries

  -- `for k, v in tuple(d.items()): d[k] = f(v)`
  unfoldable pub map_values : (V → V) → Dict V → Dict V
  unfolding map_entries
  map_values f d = record { entries = map_entries f d.entries }

  find-assign :
      (k j : String) (v : V) (d : List (String × V))
      → find j (assign k v d) ≡ (if k == j then some v else find j d)
  unfolding find assign
  find-assign k j v [] = refl
  find-assign k j v ((i, w) ∷ d) =
      ground (arith, eq_iff i k, eq_iff i j, eq_iff k j, find-assign k j v d)

  -- A lookup after an assignment.
  pub get-put :
      (d : Dict V) (key asked : String) (new : V)
      → get (put d key new) asked ≡ (if key == asked then some new else get d asked)
  unfolding put get
  get-put d key asked new = find-assign key asked new d.entries

  pub get-put_self : (d : Dict V) (k : String) (v : V) → get (put d k v) k ≡ some v
  get-put_self d k v = get-put d k k v ∙ ground (arith, eq_iff k k)

  pub get-put_ne : (d : Dict V) (k j : String) (v : V) → k ≢ j → get (put d k v) j ≡ get d j
  get-put_ne d k j v h = get-put d k j v ∙ ground (arith, eq_iff k j)

  -- A lookup after an assignment finds the new value at its key, or the old one elsewhere.
  pub get-put_cases :
      (d : Dict V) (k j : String) (v w : V)
      → get (put d k v) j ≡ some w
      → ((k ≡ j) × (w ≡ v)) ⊎ ((k ≢ j) × (get d j ≡ some w))
  get-put_cases d k j v w e = elim (Bool-cases (k == j)) [
    | inl same ↦ inl ((eq_iff k j).0 same, ground (arith, get-put d k j v))
    | inr other ↦ inr (λ p. cc (other, (eq_iff k j).1 p), ground (arith, get-put d k j v))
  ]

  any_entry-find :
      (p : V → Bool) (k : String) (v : V) (d : List (String × V))
      → any_entry p d ≡ false
      → find k d ≡ some v
      → p v ≡ false
  unfolding any_entry find
  any_entry-find p k v [] h e = cc
  any_entry-find p k v ((j, w) ∷ d) h e = ground (arith, any_entry-find p k v d)

  -- What `any` rejects holds of no value that a lookup finds.
  pub get-any_value :
      (p : V → Bool) (k : String) (v : V) (d : Dict V)
      → any_value p d ≡ false
      → get d k ≡ some v
      → p v ≡ false
  unfolding any_value get
  get-any_value p k v d = any_entry-find p k v d.entries

  any_entry-and :
      (f g : V → Bool) (d : List (String × V))
      → any_entry f d ≡ false
      → any_entry (λ v. f v && g v) d ≡ false
  unfolding any_entry
  any_entry-and f g [] h = refl
  any_entry-and f g ((_, v) ∷ d) h = ground (arith, any_entry-and f g d)

  -- A narrower test rejects what `any` rejects.
  pub any_value-and :
      (f g : V → Bool) (d : Dict V) → any_value f d ≡ false → any_value (λ v. f v && g v) d ≡ false
  unfolding any_value
  any_value-and f g d h = any_entry-and f g d.entries h

  -- The option that a lookup gives after `map_values`.
  abbrev pub after : (V → V) → Option V → Option V
  after f none = none
  after f (some v) = some (f v)

  find-map_entries :
      (f : V → V) (k : String) (d : List (String × V))
      → find k (map_entries f d) ≡ after f (find k d)
  unfolding find map_entries
  find-map_entries f k [] = refl
  find-map_entries f k ((j, w) ∷ d) = ground (arith, find-map_entries f k d)

  pub get-map_values :
      (f : V → V) (k : String) (d : Dict V) → get (map_values f d) k ≡ after f (get d k)
  unfolding get map_values
  get-map_values f k d = find-map_entries f k d.entries

  pub get-empty : (k : String) → get empty k ≡ none
  unfolding get
  get-empty k = refl

  -- Every value that a lookup finds satisfies `P` with its key.
  pub record Every {κ} (P : String → V → Type κ) (d : Dict V) : Type (ℓ ⊔ κ) where
    pub at : (k : String) (v : V) → get d k ≡ some v → P k v

module _ {ℓ κ} {V : Type ℓ} where
  map_at :
      (P : String → V → Type κ) (f : V → V) (k : String) (o : Option V) (w : V)
      → ((v : V) → o ≡ some v → P k (f v))
      → after f o ≡ some w
      → P k w
  map_at P f k none w h e = absurd (cc)
  map_at P f k (some v) w h e = subst (P k) (cc) (h v refl)

module _ {ℓ κ} {V : Type ℓ} {P : String → V → Type κ} where
  pub Every-empty : Every P empty
  Every-empty = record { at = λ k v e. cc (e, get-empty {V = V} k) }

  put_at :
      (d : Dict V) (k : String) (v : V)
      → Every P d
      → P k v
      → (j : String) (w : V) (b : Bool) → (b ≡ true → k ≡ j)
      → (if b then some v else get d j) ≡ some w
      → P j w
  put_at d k v h p j w true same e = subst₂ P (same refl) (cc) p
  put_at d k v h p j w false same e = h.at j w e

  pub Every-put : (d : Dict V) (k : String) (v : V) → Every P d → P k v → Every P (put d k v)
  Every-put d k v h p = record {
    at = λ j w e. put_at d k v h p j w (k == j) (eq_iff k j).0 (sym (get-put d k j v) ∙ e);
  }

  pub Every-map_values :
      (f : V → V) (d : Dict V)
      → ((k : String) (v : V) → get d k ≡ some v → P k (f v))
      → Every P (map_values f d)
  Every-map_values f d h = record {
    at = λ k w e. map_at P f k (get d k) w (h k) (sym (get-map_values f k d) ∙ e);
  }

-- No key stands twice among the entries.
module _ {ℓ} {V : Type ℓ} where
  DistinctEntries : List (String × V) → Type ℓ
  unfolding find
  DistinctEntries [] = Unit
  DistinctEntries ((k, v) ∷ d) = (find k d ≡ none) × DistinctEntries d

  unfoldable pub HasDistinctKeys : Dict V → Type ℓ
  unfolding DistinctEntries
  HasDistinctKeys d = DistinctEntries d.entries

  assign-DistinctEntries :
      (k : String) (v : V) (d : List (String × V))
      → DistinctEntries d
      → DistinctEntries (assign k v d)
  unfolding DistinctEntries assign find
  assign-DistinctEntries k v [] h = (refl, tt)
  assign-DistinctEntries k v ((j, w) ∷ d) h = elim (Bool-cases (j == k)) [
    | inl same ↦ rw same h
    | inr other ↦ rw other (
      ground (arith, find-assign k j v d, eq_iff k j, eq_iff j k),
      assign-DistinctEntries k v d h.1,
    )
  ]

  pub put-HasDistinctKeys :
      (d : Dict V) (k : String) (v : V) → HasDistinctKeys d → HasDistinctKeys (put d k v)
  unfolding HasDistinctKeys put
  put-HasDistinctKeys d k v h = assign-DistinctEntries k v d.entries h

  first_entry-find :
      (p : V → Bool) (v : V) (d : List (String × V))
      → DistinctEntries d
      → first_entry p d ≡ some v
      → (k : String) × (find k d ≡ some v) × (p v ≡ true)
  unfolding DistinctEntries first_entry find
  first_entry-find p v [] h e = absurd (cc)
  first_entry-find p v ((j, w) ∷ d) h e = elim (Bool-cases (p w)) [
    | inl holds ↦ (j, ground (arith, eq_iff j j), ground arith)
    | inr fails ↦
        let (k, found, holds) = first_entry-find p v d h.1 (ground arith) in
        (k, ground (arith, eq_iff j k, h.0), holds)
  ]

  -- The first value that passes a test stands under some key.
  pub get-first_value :
      (p : V → Bool) (v : V) (d : Dict V)
      → HasDistinctKeys d
      → first_value p d ≡ some v
      → (k : String) × (get d k ≡ some v) × (p v ≡ true)
  unfolding HasDistinctKeys first_value get
  get-first_value p v d h e = first_entry-find p v d.entries h e

pub empty-HasDistinctKeys {ℓ} : (V : Type ℓ) → HasDistinctKeys (empty {V = V})
unfolding HasDistinctKeys DistinctEntries
empty-HasDistinctKeys V = tt
