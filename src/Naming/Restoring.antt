-- ===== src/Naming/Restoring.antt =====
-- vsm/agent_naming.py: `restore` on assignments that the registry has issued.
use nanihold_os.Prelude.{
  ℕ, zero, suc, String, ◌≡◌, refl, sym, ap, ◌∙◌, Bool, true, false, ◌&&◌, some, List, [], ◌∷◌, inl,
  inr, arith, ◌==◌, eq_iff, nat_eq, contains, keep, any, concat, get_elem?, Bool-cases,
}
use nanihold_os.Result.{ok}
use nanihold_os.Models.Naming.{NameColumn, AgentNameAssignment}
use nanihold_os.Naming.{
  AgentNameRegistry, AgentNameRow, ModelCandidate, Allocating, allocate, name_for, is_allowed,
  is_empty, first_row, restore, restore_one, resolve_eligible_row,
}
use nanihold_os.Naming.Allocation.{allocate-IsAllocated, IsIssued}

-- The test by which a base name finds its row again.
abbrev fits : ℕ → NameColumn → String → AgentNameRow → Bool
fits scale column base_name row =
    (nat_eq row.scale scale && name_for column row == base_name) && is_allowed row

module _ {A : Type 0} where
  keep_head : (p : A → Bool) (x : A) (xs : List A) → p x ≡ true → keep p (x ∷ xs) ≡ x ∷ keep p xs
  keep_head p x xs h = rw (keep, h) refl

  keep_tail : (p : A → Bool) (x : A) (xs : List A) → p x ≡ false → keep p (x ∷ xs) ≡ keep p xs
  keep_tail p x xs h = rw (keep, h) refl

  any_later : (q : A → Bool) (x : A) (xs : List A) → any q xs ≡ true → any q (x ∷ xs) ≡ true
  any_later q x xs h = ground arith

  -- What an element that is kept has, some element has.
  any_kept :
      (p q : A → Bool) (xs : List A) (i : ℕ) (a : A)
      → (p a ≡ true → q a ≡ true)
      → get_elem? (keep p xs) i ≡ some a
      → any q xs ≡ true
  any_kept p q [] i a f h = absurd (cc)
  any_kept p q (x ∷ xs) i a f h = elim (Bool-cases (p x)) [
    | inl inside ↦
        at_index i (sym (ap (λ z. get_elem? z i) (keep_head p x xs inside)) ∙ h) inside
          (any_kept p q xs)
    | inr outside ↦
        any_later q x xs
          (any_kept p q xs i a f (sym (ap (λ z. get_elem? z i) (keep_tail p x xs outside)) ∙ h))
  ]
    where
      at_index :
          (j : ℕ)
          → get_elem? (x ∷ keep p xs) j ≡ some a
          → p x ≡ true
          → ((i : ℕ) (b : A)
              → (p b ≡ true → q b ≡ true)
              → get_elem? (keep p xs) i ≡ some b
              → any q xs ≡ true)
          → any q (x ∷ xs) ≡ true
      at_index zero here inside rest =
          let same : x ≡ a = cc in
          let holds : q x ≡ true = ap q same ∙ f (sym (ap p same) ∙ inside) in rw holds refl
      at_index (suc j) there inside rest = any_later q x xs (rest j a f there)

-- The rows that have a scale and a name.
abbrev named : ℕ → NameColumn → String → AgentNameRow → Bool
named scale column base_name row = nat_eq row.scale scale && name_for column row == base_name

is_fit :
    (scale : ℕ) (column : NameColumn) (base_name : String) (row : AgentNameRow)
    → base_name ≡ name_for column row
    → (nat_eq row.scale scale && is_allowed row) ≡ true
    → fits scale column base_name row ≡ true
is_fit scale column base_name row h r = ground (arith, eq_iff (name_for column row) base_name)

matching :
    (rows : List AgentNameRow) (scale : ℕ) (column : NameColumn) (base_name : String)
    → any (fits scale column base_name) rows ≡ true
    → is_empty (keep (named scale column base_name) rows) ≡ false
matching [] scale column base_name h = absurd (cc)
matching (x ∷ xs) scale column base_name h = ground (arith, matching xs scale column base_name)

allowed :
    (rows : List AgentNameRow) (scale : ℕ) (column : NameColumn) (base_name : String)
    → any (fits scale column base_name) rows ≡ true
    → is_empty (keep is_allowed (keep (named scale column base_name) rows)) ≡ false
allowed [] scale column base_name h = absurd (cc)
allowed (x ∷ xs) scale column base_name h = ground (arith, allowed xs scale column base_name)

first_row-ok :
    (rows : List AgentNameRow) (message : String)
    → is_empty rows ≡ false
    → (row : AgentNameRow) × (first_row rows message ≡ ok row)
first_row-ok [] message h = absurd (cc)
first_row-ok (row ∷ rows) message h = (row, refl)

-- A name that was issued for a row finds a row again.
issued_resolves :
    (decimal : ℕ → String) (scale : ℕ) (column : NameColumn) (agent_name base_name : String)
    (suffix : ℕ) (r : AgentNameRegistry) (missing forbidden : String)
    → IsIssued decimal scale column agent_name base_name suffix r
    → (row : AgentNameRow) × (resolve_eligible_row r scale column base_name missing forbidden
        ≡ ok row)
unfolding resolve_eligible_row
issued_resolves decimal scale column agent_name base_name suffix r missing forbidden h =
    let some_fits =
      any_kept _ (fits scale column base_name) r.rows h.index h.row
        (is_fit scale column base_name h.row h.named) h.found in
    let (row, first) = first_row-ok _ forbidden (allowed r.rows scale column base_name some_fits) in
    (row, rw (matching r.rows scale column base_name some_fits) first)

-- The registries that allocations lead to, and what they have issued.
pub data Allocates (normalize : String → String) (decimal : ℕ → String)
    : AgentNameRegistry → List AgentNameAssignment → AgentNameRegistry → Type 0 where
  none_issued : (r : AgentNameRegistry) → Allocates normalize decimal r [] r
  issued_first :
      (r s : AgentNameRegistry) (args : Allocating) (candidate : ModelCandidate)
      (x : AgentNameAssignment × AgentNameRegistry) (rest : List AgentNameAssignment)
      → allocate normalize decimal args candidate r ≡ ok x
      → Allocates normalize decimal x.1 rest s
      → Allocates normalize decimal r (x.0 ∷ rest) s

abbrev indexed : (ℕ → NameColumn → ℕ) → AgentNameRegistry → AgentNameRegistry
indexed f r = record r { next_index = f }

restore_one_issued :
    (normalize : String → String) (decimal : ℕ → String) (args : Allocating)
    (candidate : ModelCandidate) (r : AgentNameRegistry) (f : ℕ → NameColumn → ℕ)
    (x : AgentNameAssignment × AgentNameRegistry)
    → allocate normalize decimal args candidate r ≡ ok x
    → restore_one x.0 (indexed f r) ≡ ok (indexed f x.1)
unfolding restore_one resolve_eligible_row
restore_one_issued normalize decimal args candidate r f x h =
    let a = (allocate-IsAllocated decimal normalize candidate r args).at x h in
    let (row, found) =
      issued_resolves decimal x.0.scale x.0.name_column x.0.agent_name x.0.base_name x.0.suffix r
        (concat "assignment base name is not present in Agent_name.csv: " x.0.base_name)
        (concat "assignment uses a forbidden Agent_name.csv row: " x.0.base_name) a.issued in
    let fresh : contains x.0.agent_name r.used_names ≡ false =
      ap (λ n. contains n r.used_names) a.issued.spelled ∙ a.issued.first.unused in
    rw (a.new_id, fresh, found) (ap (λ z. ok (indexed f z)) (sym a.kept))

-- Assignments that were issued one after the other are all restored, in their order, on a registry
-- with the names that were in use before: it then has the assignments and the names in use that the
-- allocations have left. Only the next indices are those it had.
pub restore_issued :
    (normalize : String → String) (decimal : ℕ → String) (r s : AgentNameRegistry)
    (issued : List AgentNameAssignment) (f : ℕ → NameColumn → ℕ)
    → Allocates normalize decimal r issued s
    → restore issued (record r { next_index = f }) ≡ (ok tt, record s { next_index = f })
unfolding restore
restore_issued normalize decimal r _ [] f (none_issued _) = refl
restore_issued normalize decimal r s _ f (issued_first _ _ args candidate x rest h more) =
    rw (restore_one_issued normalize decimal args candidate r f x h)
      (restore_issued normalize decimal x.1 s rest f more)
