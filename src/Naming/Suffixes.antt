-- ===== src/Naming/Suffixes.antt =====
-- vsm/agent_naming.py: the `while` loop of `_next_name`, which looks for a suffix that makes a name
-- new.
use text.Mathlib.TextLemmas.{append-nil, append_cancel_left}
use nanihold_os.Prelude.{
  ℕ, zero, suc, ◌+◌, ◌≤◌, ◌<◌, String, ◌≡◌, ◌≢◌, refl, sym, ap, ◌∙◌, true, false, not, List, [],
  ◌∷◌, inl, inr, arith, ◌==◌, eq_iff, nat_eq, nat_eq→eq, length, contains, keep, concat, Bool-cases,
}
use nanihold_os.Result.{Result, ok, err, Error, Ensures, Ensures-ok, Ensures-err, Ensures-if}
use nanihold_os.Naming.{suffixed, unused_suffix}

-- What `str` does to numbers: no two are written alike, and none is written as nothing.
pub record WritesNumbers (decimal : ℕ → String) : Type 0 where
  pub injective : (m n : ℕ) → decimal m ≡ decimal n → m ≡ n
  pub written : (n : ℕ) → decimal n ≢ ""

concat_self : (base s : String) → concat base s ≡ base → s ≡ ""
concat_self base s h = append_cancel_left base s "" (h ∙ sym (append-nil base))

others : String → List String → List String
others x = keep (λ z. not (z == x))

contains-others :
    (x y : String) (xs : List String)
    → (y == x) ≡ false
    → contains y xs ≡ true
    → contains y (others x xs) ≡ true
unfolding others
contains-others x y [] other h = h
contains-others x y (z ∷ xs) other h = ground (arith, contains-others x y xs other, eq_iff y z)

length-others : (x : String) (xs : List String) → length (others x xs) ≤ length xs
unfolding others
length-others x [] = omega arith
length-others x (z ∷ xs) = ground (arith, length-others x xs)

length-others_lt :
    (x : String) (xs : List String) → contains x xs ≡ true → length (others x xs) < length xs
unfolding others
length-others_lt x [] h = absurd (cc)
length-others_lt x (z ∷ xs) h =
    ground (arith, length-others x xs, length-others_lt x xs, eq_iff x z, eq_iff z x)

-- Different names that are all in a list are no more than its elements.
pigeonhole :
    (n : ℕ) (name : ℕ → String) (s : ℕ) (xs : List String)
    → ((i j : ℕ) → s ≤ i → s ≤ j → name i ≡ name j → i ≡ j)
    → ((i : ℕ) → s ≤ i → i < s + n → contains (name i) xs ≡ true)
    → n ≤ length xs
pigeonhole zero name s xs different inside = omega arith
pigeonhole (suc n) name s xs different inside =
    let here : contains (name s) xs ≡ true = inside s (omega arith) (omega arith) in
    let rest : n ≤ length (others (name s) xs) =
      pigeonhole n name (s + 1) (others (name s) xs)
        (λ i j p q. different i j (omega arith) (omega arith))
        (λ i p q.
          contains-others (name s) (name i) xs
            (elim (Bool-cases (name i == name s)) [
              | inl same ↦ absurd (
                  omega (
                    arith,
                    different i s (omega arith) (omega arith) ((eq_iff (name i) (name s)).0 same),
                  ))
              | inr other ↦ other
            ])
            (inside i (omega arith) (omega arith))) in
    omega (arith, rest, length-others_lt (name s) xs here)

module _ (decimal : ℕ → String) where
  first_suffix : (base : String) (i : ℕ) → nat_eq i 1 ≡ true → suffixed decimal base i ≡ base
  first_suffix base i h = rw h refl

  later_suffix :
      (base : String) (i : ℕ)
      → nat_eq i 1 ≡ false
      → suffixed decimal base i ≡ concat base (decimal i)
  later_suffix base i h = rw h refl

  suffixed-injective :
      WritesNumbers decimal
      → (base : String) (i j : ℕ) → suffixed decimal base i ≡ suffixed decimal base j
      → i ≡ j
  suffixed-injective w base i j h = elim (Bool-cases (nat_eq i 1)) [
    | inl p ↦ elim (Bool-cases (nat_eq j 1)) [
      | inl q ↦ omega (arith, nat_eq→eq i 1 p, nat_eq→eq j 1 q)
      | inr q ↦ absurd (
          w.written j (
            concat_self base (decimal j)
              (sym (later_suffix base j q) ∙ sym h ∙ first_suffix base i p)))
    ]
    | inr p ↦ elim (Bool-cases (nat_eq j 1)) [
      | inl q ↦ absurd (
          w.written i (
            concat_self base (decimal i) (sym (later_suffix base i p) ∙ h ∙ first_suffix base j q)))
      | inr q ↦ w.injective i j (
          append_cancel_left base (decimal i) (decimal j)
            (sym (later_suffix base i p) ∙ h ∙ later_suffix base j q))
    ]
  ]

  -- The loop that runs out of fuel has found every name in use.
  all_used :
      (fuel : ℕ) (used : List String) (base : String) (s : ℕ) (e : Error)
      → unused_suffix decimal fuel used base s ≡ err e
      → (i : ℕ) → s ≤ i
      → i < s + fuel
      → contains (suffixed decimal base i) used ≡ true
  unfolding unused_suffix
  all_used zero used base s e h i p q = absurd (omega arith)
  all_used (suc fuel) used base s e h i p q =
      elim (Bool-cases (contains (suffixed decimal base s) used)) [
        | inl here ↦ elim (Bool-cases (nat_eq i s)) [
          | inl same ↦ ap (λ n. contains (suffixed decimal base n) used) (nat_eq→eq i s same) ∙ here
          | inr later ↦
              all_used fuel used base (s + 1) e (ground arith) i (ground arith) (omega arith)
        ]
        | inr new ↦ absurd (ground arith)
      ]

  -- What the loop returns: the first suffix, from the given one on, whose name is not in use.
  pub record IsFirst (used : List String) (base : String) (s n : ℕ) : Type 0 where
    pub unused : contains (suffixed decimal base n) used ≡ false
    pub reached : s ≤ n
    pub first : (i : ℕ) → s ≤ i → i < n → contains (suffixed decimal base i) used ≡ true

  pub unused_suffix-IsFirst :
      (fuel : ℕ) (used : List String) (base : String) (s : ℕ)
      → Ensures (IsFirst used base s) (unused_suffix decimal fuel used base s)
  unfolding unused_suffix
  unused_suffix-IsFirst zero used base s = Ensures-err _
  unused_suffix-IsFirst (suc fuel) used base s =
      Ensures-if _ _ _
        (λ here. record {
          at = λ n h.
              let rest = (unused_suffix-IsFirst fuel used base (s + 1)).at n h in
              record {
                unused = rest.unused;
                reached = omega (arith, rest.reached);
                first = λ i p q. elim (Bool-cases (nat_eq i s)) [
                  | inl same ↦
                      ap (λ n. contains (suffixed decimal base n) used) (nat_eq→eq i s same) ∙ here
                  | inr later ↦ rest.first i (ground arith) q
                ];
              };
        })
        (λ new.
          Ensures-ok
            (record { unused = new; reached = omega arith; first = λ i p q. absurd (omega arith) }))

  -- With more fuel than names in use, the loop returns, and what it returns is the first suffix from
  -- the given one on whose name is not in use.
  pub unused_suffix_total :
      WritesNumbers decimal
      → (fuel : ℕ) (used : List String) (base : String) (s : ℕ) → length used < fuel
      → (n : ℕ) × (unused_suffix decimal fuel used base s ≡ ok n) × IsFirst used base s n
  unused_suffix_total w fuel used base s enough =
      returned (unused_suffix decimal fuel used base s) refl
    where
      returned :
          (r : Result ℕ)
          → unused_suffix decimal fuel used base s ≡ r
          → (n : ℕ) × (unused_suffix decimal fuel used base s ≡ ok n) × IsFirst used base s n
      returned (ok n) h = (n, h, (unused_suffix-IsFirst fuel used base s).at n h)
      returned (err e) h = absurd (
          omega (
            arith,
            pigeonhole fuel (suffixed decimal base) s used
                (λ i j _ _ same. suffixed-injective w base i j same)
                (all_used fuel used base s e h),
          ))
