-- ===== src/Naming/Allocation.antt =====
-- vsm/agent_naming.py: `_next_name`, `allocate` and `allocate_out_of_pipeline`, and the names that
-- they give.
use Prim.Native.Nat.{◌%◌}
use native.Mathlib.Nat.{mod-lt}
use nanihold_os.Prelude.{
  ℕ, zero, suc, ◌+◌, ◌<◌, String, ◌≡◌, refl, ap, false, some, List, [], ◌∷◌, arith, length,
  get_elem?,
}
use nanihold_os.Result.{ok, Ensures, Ensures-ok, Ensures-bind, Ensures-require, Ensures-raise_if}
use nanihold_os.Dict.{member}
use nanihold_os.Models.Naming.{NameColumn, AgentNameAssignment, AgentIdentityRegistration}
use nanihold_os.Naming.{
  AgentNameRow, AgentNameRegistry, ModelCandidate, Allocating, Registering, name_for, name_column,
  scale_for, pool_of, first_unused, suffixed, unused_suffix, next_name, allocate,
  allocate_out_of_pipeline, or_start, add_assignment, add_registration, issue_assignment,
  issue_registration, set_next_index,
}
use nanihold_os.Naming.Suffixes.{WritesNumbers, IsFirst, unused_suffix_total, unused_suffix-IsFirst}

get_elem?-lt :
    {A : Type 0} (xs : List A) (i : ℕ) → i < length xs → (a : A) × (get_elem? xs i ≡ some a)
get_elem?-lt [] i h = absurd (omega arith)
get_elem?-lt (x ∷ xs) zero h = (x, refl)
get_elem?-lt (x ∷ xs) (suc i) h = get_elem?-lt xs i (omega arith)

-- For a pool that has a name and a start within it, the index that `_next_name` selects is within the
-- pool, whatever names are in use and however many offsets are tried.
first_unused-lt :
    (used : List String) (column : NameColumn) (pool : List AgentNameRow) (start offset left : ℕ)
    → 0 < length pool
    → start < length pool
    → or_start start (first_unused used column pool start offset left) < length pool
unfolding first_unused
first_unused-lt used column pool start offset zero h p = p
first_unused-lt used column pool start offset (suc left) h p =
    let index : (start + offset) % length pool < length pool = mod-lt (start + offset) h in
    ground (arith, first_unused-lt used column pool start (offset + 1) left h p)

module _ (decimal : ℕ → String) where
  -- What `_next_name` gives: a name of the pool, with the first suffix that makes it new; the
  -- registry keeps all but the next index.
  pub record IsNextName (column : NameColumn) (pool : List AgentNameRow) (r : AgentNameRegistry)
      (x : String × ℕ × AgentNameRegistry) : Type 0 where
    pub row : AgentNameRow
    pub index : ℕ
    pub found : get_elem? pool index ≡ some row
    pub named : x.0 ≡ name_for column row
    pub first : IsFirst decimal r.used_names x.0 1 x.1
    pub kept : record (x.2) { next_index = r.next_index } ≡ r

  next_name-IsNextName :
      (scale : ℕ) (column : NameColumn) (pool : List AgentNameRow) (r : AgentNameRegistry)
      → Ensures (IsNextName column pool r) (next_name decimal scale column pool r)
  unfolding next_name
  next_name-IsNextName scale column pool r = Ensures-require _ _ _ (λ row found.
      Ensures-bind
        (unused_suffix decimal (length r.used_names + 1) r.used_names (name_for column row) 1) _
        (λ suffix h. Ensures-ok (record {
          row = row;
          index = or_start (r.next_index scale column % length pool) (
              first_unused r.used_names column pool (r.next_index scale column % length pool) 0
                (length pool));
          found = found;
          named = refl;
          first =
              (unused_suffix-IsFirst decimal (length r.used_names + 1) r.used_names
                  (name_for column row) 1).at
                suffix h;
          kept = refl;
        })))

  -- When numbers are written in the usual way and the pool has a name, `_next_name` returns: both of
  -- its loops end, and no index is out of range. Its name is one of the pool with the first suffix
  -- that makes it new.
  pub next_name_total :
      (scale : ℕ) (column : NameColumn) (pool : List AgentNameRow) (r : AgentNameRegistry)
      → WritesNumbers decimal
      → 0 < length pool
      → (x : String × ℕ × AgentNameRegistry) × (next_name decimal scale column pool r ≡ ok x)
        × IsNextName column pool r x
  unfolding next_name
  next_name_total scale column pool r w h =
      let start = r.next_index scale column % length pool in
      let index = or_start start (first_unused r.used_names column pool start 0 (length pool)) in
      let (row, found) =
        get_elem?-lt pool index
          (first_unused-lt r.used_names column pool start 0 (length pool) h (mod-lt _ h)) in
      let (suffix, returned, _) =
        unused_suffix_total decimal w (length r.used_names + 1) r.used_names (name_for column row) 1
          (omega arith) in
      let run : next_name decimal scale column pool r
          ≡ ok (name_for column row, suffix, set_next_index scale column (index + 1) r) =
        rw (found, returned) refl in
      (_, run, (next_name-IsNextName scale column pool r).at _ run)

  -- What an allocation gives beside its arguments, as it comes from `_next_name`.
  pub record IsIssued (scale : ℕ) (column : NameColumn) (agent_name base_name : String) (suffix : ℕ)
      (r : AgentNameRegistry) : Type 0 where
    pub row : AgentNameRow
    pub index : ℕ
    pub found : get_elem? (pool_of r scale) index ≡ some row
    pub named : base_name ≡ name_for column row
    pub spelled : agent_name ≡ suffixed decimal base_name suffix
    pub first : IsFirst decimal r.used_names base_name 1 suffix

  module _ (normalize : String → String) (candidate : ModelCandidate) (r : AgentNameRegistry) where
    -- An assignment that is issued, and the registry after it.
    pub record IsAllocated (args : Allocating) (x : AgentNameAssignment × AgentNameRegistry)
        : Type 0 where
      pub scale : scale_for normalize candidate ≡ ok x.0.scale
      pub column : x.0.name_column ≡ name_column normalize candidate
      pub own_id : x.0.assignment_id ≡ args.assignment_id
      pub new_id : member r.assignments x.0.assignment_id ≡ false
      pub issued : IsIssued x.0.scale x.0.name_column x.0.agent_name x.0.base_name x.0.suffix r
      pub kept : record (x.1) { next_index = r.next_index } ≡ add_assignment x.0 r

    pub allocate-IsAllocated :
        (args : Allocating)
        → Ensures (IsAllocated args) (allocate normalize decimal args candidate r)
    unfolding allocate
    allocate-IsAllocated args =
        let leaf : (scale : ℕ)
            → scale_for normalize candidate ≡ ok scale
            → member r.assignments args.assignment_id ≡ false
            → (named : String × ℕ × AgentNameRegistry)
            → next_name decimal scale (name_column normalize candidate) (pool_of r scale) r
              ≡ ok named
            → IsAllocated args (
              issue_assignment normalize decimal args candidate scale
                  (name_column normalize candidate) named.0 named.1,
              add_assignment
                  (issue_assignment normalize decimal args candidate scale
                    (name_column normalize candidate) named.0 named.1)
                  named.2,
            ) =
          λ scale scaled is_new named h.
            let column = name_column normalize candidate in
            let next = (next_name-IsNextName scale column (pool_of r scale) r).at named h in
            record {
              scale = scaled;
              column = refl;
              own_id = refl;
              new_id = is_new;
              issued = record {
                row = next.row;
                index = next.index;
                found = next.found;
                named = next.named;
                spelled = refl;
                first = next.first;
              };
              kept =
                  ap
                    (add_assignment (
                      issue_assignment normalize decimal args candidate scale column named.0
                        named.1))
                    next.kept;
            } in
        search (Ensures-ok, Ensures-raise_if, Ensures-bind, leaf) depth 24 fits 10000

    -- A registration that is issued, and the registry after it.
    pub record IsRegistered (args : Registering) (x : AgentIdentityRegistration × AgentNameRegistry)
        : Type 0 where
      pub scale : scale_for normalize candidate ≡ ok x.0.scale
      pub column : x.0.name_column ≡ name_column normalize candidate
      pub own_id : x.0.registration_id ≡ args.registration_id
      pub new_id : member r.registrations x.0.registration_id ≡ false
      pub issued : IsIssued x.0.scale x.0.name_column x.0.agent_name x.0.base_name x.0.suffix r
      pub kept : record (x.1) { next_index = r.next_index } ≡ add_registration x.0 r

    pub register-IsRegistered :
        (args : Registering)
        → Ensures (IsRegistered args) (allocate_out_of_pipeline normalize decimal args candidate r)
    unfolding allocate_out_of_pipeline
    register-IsRegistered args =
        let leaf : (scale : ℕ)
            → scale_for normalize candidate ≡ ok scale
            → member r.registrations args.registration_id ≡ false
            → (named : String × ℕ × AgentNameRegistry)
            → next_name decimal scale (name_column normalize candidate) (pool_of r scale) r
              ≡ ok named
            → IsRegistered args (
              issue_registration normalize decimal args candidate scale
                  (name_column normalize candidate) named.0 named.1,
              add_registration
                  (issue_registration normalize decimal args candidate scale
                    (name_column normalize candidate) named.0 named.1)
                  named.2,
            ) =
          λ scale scaled is_new named h.
            let column = name_column normalize candidate in
            let next = (next_name-IsNextName scale column (pool_of r scale) r).at named h in
            record {
              scale = scaled;
              column = refl;
              own_id = refl;
              new_id = is_new;
              issued = record {
                row = next.row;
                index = next.index;
                found = next.found;
                named = next.named;
                spelled = refl;
                first = next.first;
              };
              kept =
                  ap
                    (add_registration (
                      issue_registration normalize decimal args candidate scale column named.0
                        named.1))
                    next.kept;
            } in
        search (Ensures-ok, Ensures-raise_if, Ensures-bind, leaf) depth 24 fits 10000
