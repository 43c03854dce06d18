-- ===== src/Naming/Identities.antt =====
-- vsm/agent_naming.py: no two identities of the registry have one name.
use mathlib.Core.Path.{subst}
use nanihold_os.Prelude.{
  ℕ, String, ◌≡◌, ◌≢◌, refl, sym, ap, ◌∙◌, true, false, some, List, [], ◌∷◌, inl, inr, arith,
  eq_iff, contains,
}
use nanihold_os.Result.{
  Result, ok, err, Ensures, Ensures-ok, Ensures-if, Ensures-bind, Ensures-raise_if,
}
use nanihold_os.Dict.{Dict, get, put, get-put_cases}
use nanihold_os.Models.Naming.{AgentNameAssignment, AgentIdentityRegistration}
use nanihold_os.Naming.{
  AgentNameRegistry, ModelCandidate, Allocating, Registering, allocate, allocate_out_of_pipeline,
  restore, restore_one, restore_registrations, restore_one_registration, each, after_step,
}
use nanihold_os.Naming.Allocation.{allocate-IsAllocated, register-IsRegistered}

pub record Distinguished (assignments : Dict AgentNameAssignment)
    (registrations : Dict AgentIdentityRegistration) (used : List String) : Type 0 where
  pub assigned :
      (i : String) (a : AgentNameAssignment)
      → get assignments i ≡ some a
      → contains a.agent_name used ≡ true
  pub registered :
      (i : String) (a : AgentIdentityRegistration)
      → get registrations i ≡ some a
      → contains a.agent_name used ≡ true
  pub one_assignment :
      (i j : String) (a b : AgentNameAssignment)
      → get assignments i ≡ some a
      → get assignments j ≡ some b
      → a.agent_name ≡ b.agent_name
      → i ≡ j
  pub one_registration :
      (i j : String) (a b : AgentIdentityRegistration)
      → get registrations i ≡ some a
      → get registrations j ≡ some b
      → a.agent_name ≡ b.agent_name
      → i ≡ j
  pub apart :
      (i j : String) (a : AgentNameAssignment) (b : AgentIdentityRegistration)
      → get assignments i ≡ some a
      → get registrations j ≡ some b
      → a.agent_name ≢ b.agent_name

abbrev pub IsDistinguished : AgentNameRegistry → Type 0
IsDistinguished r = Distinguished r.assignments r.registrations r.used_names

still_contains :
    (x y : String) (xs : List String) → contains y xs ≡ true → contains y (x ∷ xs) ≡ true
still_contains x y xs h = ground arith

contains_head : (x : String) (xs : List String) → contains x (x ∷ xs) ≡ true
contains_head x xs = rw ((eq_iff x x).1 refl) refl

module _ {assignments : Dict AgentNameAssignment} {registrations : Dict AgentIdentityRegistration}
    {used : List String} (h : Distinguished assignments registrations used) where
  -- A new name is not that of an identity.
  not_assigned :
      (i n : String) (a : AgentNameAssignment)
      → contains n used ≡ false
      → get assignments i ≡ some a
      → a.agent_name ≢ n
  not_assigned i n a is_new found same =
      cc (h.assigned i a found, ap (λ z. contains z used) same, is_new)

  not_registered :
      (i n : String) (a : AgentIdentityRegistration)
      → contains n used ≡ false
      → get registrations i ≡ some a
      → a.agent_name ≢ n
  not_registered i n a is_new found same =
      cc (h.registered i a found, ap (λ z. contains z used) same, is_new)

  assign-Distinguished :
      (x : String) (v : AgentNameAssignment)
      → contains v.agent_name used ≡ false
      → Distinguished (put assignments x v) registrations (v.agent_name ∷ used)
  assign-Distinguished x v is_new = record {
    assigned = λ i a found. elim (get-put_cases assignments x i v a found) [
      | inl (_, same) ↦
          subst (λ z. contains (AgentNameAssignment.agent_name z) (v.agent_name ∷ used) ≡ true)
            (sym same) (contains_head v.agent_name used)
      | inr (_, old) ↦ still_contains v.agent_name a.agent_name used (h.assigned i a old)
    ];
    registered =
        λ i a found. still_contains v.agent_name a.agent_name used (h.registered i a found);
    one_assignment = λ i j a b p q same. elim (get-put_cases assignments x i v a p) [
      | inl (here, is_v) ↦ elim (get-put_cases assignments x j v b q) [
        | inl (there, _) ↦ sym here ∙ there
        | inr (_, old) ↦ absurd (
            not_assigned j v.agent_name b is_new old
              (sym same ∙ ap (λ z. AgentNameAssignment.agent_name z) is_v))
      ]
      | inr (_, old) ↦ elim (get-put_cases assignments x j v b q) [
        | inl (_, is_v) ↦ absurd (
            not_assigned i v.agent_name a is_new old
              (same ∙ ap (λ z. AgentNameAssignment.agent_name z) is_v))
        | inr (_, older) ↦ h.one_assignment i j a b old older same
      ]
    ];
    one_registration = h.one_registration;
    apart = λ i j a b p q same. elim (get-put_cases assignments x i v a p) [
      | inl (_, is_v) ↦
          not_registered j v.agent_name b is_new q
            (sym same ∙ ap (λ z. AgentNameAssignment.agent_name z) is_v)
      | inr (_, old) ↦ h.apart i j a b old q same
    ];
  }

  register-Distinguished :
      (x : String) (v : AgentIdentityRegistration)
      → contains v.agent_name used ≡ false
      → Distinguished assignments (put registrations x v) (v.agent_name ∷ used)
  register-Distinguished x v is_new = record {
    assigned = λ i a found. still_contains v.agent_name a.agent_name used (h.assigned i a found);
    registered = λ i a found. elim (get-put_cases registrations x i v a found) [
      | inl (_, same) ↦
          subst
            (λ z. contains (AgentIdentityRegistration.agent_name z) (v.agent_name ∷ used) ≡ true)
            (sym same) (contains_head v.agent_name used)
      | inr (_, old) ↦ still_contains v.agent_name a.agent_name used (h.registered i a old)
    ];
    one_assignment = h.one_assignment;
    one_registration = λ i j a b p q same. elim (get-put_cases registrations x i v a p) [
      | inl (here, is_v) ↦ elim (get-put_cases registrations x j v b q) [
        | inl (there, _) ↦ sym here ∙ there
        | inr (_, old) ↦ absurd (
            not_registered j v.agent_name b is_new old
              (sym same ∙ ap (λ z. AgentIdentityRegistration.agent_name z) is_v))
      ]
      | inr (_, old) ↦ elim (get-put_cases registrations x j v b q) [
        | inl (_, is_v) ↦ absurd (
            not_registered i v.agent_name a is_new old
              (same ∙ ap (λ z. AgentIdentityRegistration.agent_name z) is_v))
        | inr (_, older) ↦ h.one_registration i j a b old older same
      ]
    ];
    apart = λ i j a b p q same. elim (get-put_cases registrations x j v b q) [
      | inl (_, is_v) ↦
          not_assigned i v.agent_name a is_new p
            (same ∙ ap (λ z. AgentIdentityRegistration.agent_name z) is_v)
      | inr (_, old) ↦ h.apart i j a b p old same
    ];
  }

each-keeps :
    {A : Type 0} (P : AgentNameRegistry → Type 0)
    (step : A → AgentNameRegistry → Result AgentNameRegistry)
    → ((x : A) (r : AgentNameRegistry) → P r → Ensures P (step x r))
    → (xs : List A) (r : AgentNameRegistry) → P r
    → P (each step xs r).1
each-keeps P step keeps [] r h = h
each-keeps P step keeps (x ∷ xs) r h = next (step x r) (keeps x r h) (each-keeps P step keeps xs)
  where
    next :
        (y : Result AgentNameRegistry)
        → Ensures P y
        → ((s : AgentNameRegistry) → P s → P (each step xs s).1)
        → P (after_step r y (each step xs)).1
    next (err e) q rest = h
    next (ok s) q rest = rest s (q.at s refl)

restore_one-IsDistinguished :
    (a : AgentNameAssignment) (r : AgentNameRegistry)
    → IsDistinguished r
    → Ensures IsDistinguished (restore_one a r)
unfolding restore_one
restore_one-IsDistinguished a r h =
    let leaf = assign-Distinguished h a.assignment_id a in
    search (Ensures-ok, Ensures-if, Ensures-raise_if, Ensures-bind, leaf) depth 16

restore_registration-IsDistinguished :
    (i : AgentIdentityRegistration) (r : AgentNameRegistry)
    → IsDistinguished r
    → Ensures IsDistinguished (restore_one_registration i r)
unfolding restore_one_registration
restore_registration-IsDistinguished i r h =
    let leaf = register-Distinguished h i.registration_id i in
    search (Ensures-ok, Ensures-if, Ensures-raise_if, Ensures-bind, leaf) depth 16

-- A registry in which no two identities have one name, and the names of all are in use, stays so:
-- when an assignment or a registration is issued, and when assignments or registrations are
-- restored, also if one of them is refused.
pub names_stay_distinct :
    (normalize : String → String) (decimal : ℕ → String) (candidate : ModelCandidate)
    (r : AgentNameRegistry)
    → IsDistinguished r
    → ((args : Allocating) (x : AgentNameAssignment × AgentNameRegistry)
        → allocate normalize decimal args candidate r ≡ ok x
        → IsDistinguished x.1)
      × ((args : Registering) (x : AgentIdentityRegistration × AgentNameRegistry)
          → allocate_out_of_pipeline normalize decimal args candidate r ≡ ok x
          → IsDistinguished x.1)
      × ((issued : List AgentNameAssignment) → IsDistinguished (restore issued r).1)
      × ((issued : List AgentIdentityRegistration)
          → IsDistinguished (restore_registrations issued r).1)
unfolding restore restore_registrations
names_stay_distinct normalize decimal candidate r h = (
  λ args x issued.
      let a = (allocate-IsAllocated decimal normalize candidate r args).at x issued in
      subst IsDistinguished (sym a.kept) (
        assign-Distinguished h x.0.assignment_id x.0
          (ap (λ n. contains n r.used_names) a.issued.spelled ∙ a.issued.first.unused)),
  λ args x issued.
      let i = (register-IsRegistered decimal normalize candidate r args).at x issued in
      subst IsDistinguished (sym i.kept) (
        register-Distinguished h x.0.registration_id x.0
          (ap (λ n. contains n r.used_names) i.issued.spelled ∙ i.issued.first.unused)),
  λ issued. each-keeps IsDistinguished restore_one restore_one-IsDistinguished issued r h,
  λ issued.
      each-keeps IsDistinguished restore_one_registration restore_registration-IsDistinguished
        issued r h,
)
