-- ===== src/Naming.antt =====
-- vsm/agent_naming.py: `AgentNameRegistry`, which gives each agent a name of its own from a table of
-- names. Python's `strip().lower()` and its decimal writing of numbers are parameters, and the key of
-- a candidate, which `ModelCandidate` computes, is a field. The CSV file is read elsewhere. A method
-- that raises returns the registry as it has left it, and the identifiers that it is given are valid.
pub mod Suffixes
pub mod Allocation
pub mod Identities
pub mod Restoring
use Prim.Native.Nat.{◌%◌}
use nanihold_os.Prelude.{
  ℕ, zero, suc, ◌+◌, String, Bool, true, false, not, ◌&&◌, ◌||◌, Option, none, some, List, [], ◌∷◌,
  ◌==◌, nat_eq, length, if◌then◌else◌, contains, concat, starts_with, occurs_in, get_elem?, keep,
}
use nanihold_os.Result.{Result, ok, err, invariant_violation, ◌>>=◌, ◌>>◌, raise_if, require_some}
use nanihold_os.Dict.{Dict, empty, get, put, member}
use nanihold_os.Models.Naming.{NameColumn, AgentNameAssignment, AgentIdentityRegistration}
use nanihold_os.Kernel.Names.{reserved_agent_name, is_assignment, is_registration}

pub record AgentNameRow : Type 0 where
  pub category : String
  pub scale : ℕ
  pub semantic_coordinate : String
  pub japanese_name : String
  pub english_name : String
  pub latin_name : String
  pub likes : String

abbrev pub is_eligible : AgentNameRow → Bool
is_eligible row = not (row.likes == "0")

abbrev pub is_reserved : AgentNameRow → Bool
is_reserved row = row.japanese_name == reserved_agent_name || row.semantic_coordinate == "凪"

abbrev pub name_for : NameColumn → AgentNameRow → String
name_for NameColumn.japanese row = row.japanese_name
name_for NameColumn.english row = row.english_name
name_for NameColumn.latin row = row.latin_name

-- vsm/pilot/models.py: what the names depend on. `key` is a computed field.
pub record ModelCandidate : Type 0 where
  pub provider : String
  pub model_snapshot : Option String
  pub key : String

pub data ProviderFamily : Type 0 where
  claude gpt other : ProviderFamily

-- `snapshot or ""`
abbrev or_blank : Option String → String
or_blank none = ""
or_blank (some s) = s

module _ (normalize : String → String) where
  abbrev pub provider_family : ModelCandidate → ProviderFamily
  provider_family candidate =
      let provider = normalize candidate.provider in
      let snapshot = normalize (or_blank candidate.model_snapshot) in
      if provider == "anthropic" || provider == "claude" || occurs_in "claude" snapshot
      then ProviderFamily.claude
      else if provider == "openai" || provider == "gpt" || starts_with "gpt-" snapshot
      then ProviderFamily.gpt
      else ProviderFamily.other

  abbrev scale_of_model : String → ModelCandidate → Result ℕ
  scale_of_model model candidate =
      if occurs_in "sol" model || occurs_in "fable" model
      then ok 3
      else if occurs_in "terra" model || occurs_in "opus" model
      then ok 2
      else if occurs_in "luna" model || occurs_in "sonnet" model || occurs_in "haiku" model
      then ok 1
      else err (
          invariant_violation (
            concat "agent name assignment cannot determine model scale: "
              (or_blank candidate.model_snapshot)))

  abbrev pub scale_for : ModelCandidate → Result ℕ
  scale_for candidate = do
    let model = normalize (or_blank candidate.model_snapshot)
    raise_if (model == "")
        "agent name assignment requires a model snapshot to determine model scale"
    scale_of_model model candidate

abbrev column_of : ProviderFamily → NameColumn
column_of ProviderFamily.claude = NameColumn.japanese
column_of ProviderFamily.gpt = NameColumn.english
column_of ProviderFamily.other = NameColumn.latin

abbrev pub name_column : (String → String) → ModelCandidate → NameColumn
name_column normalize candidate = column_of (provider_family normalize candidate)

-- The set of used names is a list, and the `defaultdict` of the next indices a function.
pub record AgentNameRegistry : Type 0 where
  pub rows : List AgentNameRow
  pub next_index : ℕ → NameColumn → ℕ
  pub used_names : List String
  pub assignments : Dict AgentNameAssignment
  pub registrations : Dict AgentIdentityRegistration

abbrev pub is_empty : List AgentNameRow → Bool
is_empty [] = true
is_empty (_ ∷ _) = false

-- `AgentNameRegistry.__init__`
abbrev pub new_registry : List AgentNameRow → Result AgentNameRegistry
new_registry rows = do
  raise_if (is_empty rows) "Agent_name.csv must contain at least one row"
  ok (record {
    rows = rows;
    next_index = λ _ _. 0;
    used_names = [];
    assignments = empty;
    registrations = empty;
  })

abbrev pub is_allowed : AgentNameRow → Bool
is_allowed row = is_eligible row && not (is_reserved row)

abbrev pub first_row : List AgentNameRow → String → Result AgentNameRow
first_row [] message = err (invariant_violation message)
first_row (row ∷ _) message = ok row

-- `_resolve_eligible_row`, whose warning about several rows is left out.
unfoldable pub resolve_eligible_row :
    AgentNameRegistry → ℕ → NameColumn → String → String → String → Result AgentNameRow
resolve_eligible_row r scale column base_name not_present_message forbidden_message = do
  let matching =
      keep (λ (row : AgentNameRow). nat_eq row.scale scale && name_for column row == base_name)
        r.rows
  raise_if (is_empty matching) not_present_message
  first_row (keep is_allowed matching) forbidden_message

-- The names of `allocate` and `allocate_out_of_pipeline` for a scale.
abbrev pub pool_of : AgentNameRegistry → ℕ → List AgentNameRow
pool_of r scale = keep (λ (row : AgentNameRow). nat_eq row.scale scale && is_allowed row) r.rows

abbrev is_unused : List String → NameColumn → Option AgentNameRow → Bool
is_unused used column none = false
is_unused used column (some row) = not (contains (name_for column row) used)

-- The `for` loop of `_next_name`, over the offsets from one on: the first index with an unused name.
unfoldable pub first_unused : List String → NameColumn → List AgentNameRow → ℕ → ℕ → ℕ → Option ℕ
first_unused used column pool start offset zero = none
first_unused used column pool start offset (suc left) =
    let index = (start + offset) % length pool in
    let rest = first_unused used column pool start (offset + 1) left in
    if is_unused used column (get_elem? pool index) then some index else rest

abbrev pub or_start : ℕ → Option ℕ → ℕ
or_start start none = start
or_start start (some index) = index

abbrev same_column : NameColumn → NameColumn → Bool
same_column NameColumn.japanese NameColumn.japanese = true
same_column NameColumn.english NameColumn.english = true
same_column NameColumn.latin NameColumn.latin = true
same_column _ _ = false

abbrev pub set_next_index : ℕ → NameColumn → ℕ → AgentNameRegistry → AgentNameRegistry
set_next_index scale column n r = record r {
  next_index = λ s c. if nat_eq s scale && same_column c column then n else r.next_index s c;
}

module _ (decimal : ℕ → String) where
  -- A base name with a suffix, which the first agent of the name does without.
  abbrev pub suffixed : String → ℕ → String
  suffixed base_name suffix =
      if nat_eq suffix 1 then base_name else concat base_name (decimal suffix)

  -- The `while` loop of `_next_name`. The error without fuel is never met (see `Naming.Suffixes`).
  unfoldable pub unused_suffix : ℕ → List String → String → ℕ → Result ℕ
  unused_suffix zero used base_name suffix = err (invariant_violation "out of fuel")
  unused_suffix (suc fuel) used base_name suffix =
      let rest = unused_suffix fuel used base_name (suffix + 1) in
      if contains (suffixed base_name suffix) used then rest else ok suffix

  -- `_next_name`: the base name, the suffix, and the registry with the next index.
  unfoldable pub next_name :
      ℕ
      → NameColumn
      → List AgentNameRow
      → AgentNameRegistry
      → Result (String × ℕ × AgentNameRegistry)
  unfolding first_unused unused_suffix
  next_name scale column pool r = do
    let start = r.next_index scale column % length pool
    let index = or_start start (first_unused r.used_names column pool start 0 (length pool))
    row ← require_some (get_elem? pool index) "list index out of range"
    let base_name = name_for column row
    suffix ← unused_suffix (length r.used_names + 1) r.used_names base_name 1
    ok (base_name, suffix, set_next_index scale column (index + 1) r)

abbrev column_text : NameColumn → String
column_text NameColumn.japanese = "日"
column_text NameColumn.english = "英"
column_text NameColumn.latin = "羅"

abbrev no_names : NameColumn → String
no_names column =
    concat "Agent_name.csv has no eligible names for scale and column " (column_text column)

-- The arguments of `allocate` other than the candidate.
pub record Allocating : Type 0 where
  pub assignment_id : String
  pub data_space_id : String
  pub work_item_id : String
  pub execution_id : String
  pub node_id : String
  pub pilot_id : String

-- The arguments of `allocate_out_of_pipeline` other than the candidate.
pub record Registering : Type 0 where
  pub registration_id : String
  pub data_space_id : String
  pub node_id : String
  pub pilot_id : String

abbrev pub add_assignment : AgentNameAssignment → AgentNameRegistry → AgentNameRegistry
add_assignment a r = record r {
  assignments = put r.assignments a.assignment_id a;
  used_names = a.agent_name ∷ r.used_names;
}

abbrev pub add_registration : AgentIdentityRegistration → AgentNameRegistry → AgentNameRegistry
add_registration i r = record r {
  registrations = put r.registrations i.registration_id i;
  used_names = i.agent_name ∷ r.used_names;
}

module _ (normalize : String → String) (decimal : ℕ → String) where
  -- `AgentNameAssignment(...)`
  abbrev pub issue_assignment :
      Allocating → ModelCandidate → ℕ → NameColumn → String → ℕ → AgentNameAssignment
  issue_assignment args candidate scale column base_name suffix = record {
    assignment_id = args.assignment_id;
    data_space_id = args.data_space_id;
    work_item_id = args.work_item_id;
    execution_id = args.execution_id;
    node_id = args.node_id;
    pilot_id = args.pilot_id;
    agent_name = suffixed decimal base_name suffix;
    base_name = base_name;
    suffix = suffix;
    name_column = column;
    scale = scale;
    provider = candidate.provider;
    model_candidate_key = candidate.key;
  }

  -- `AgentIdentityRegistration(...)`
  abbrev pub issue_registration :
      Registering → ModelCandidate → ℕ → NameColumn → String → ℕ → AgentIdentityRegistration
  issue_registration args candidate scale column base_name suffix = record {
    registration_id = args.registration_id;
    data_space_id = args.data_space_id;
    node_id = args.node_id;
    pilot_id = args.pilot_id;
    agent_name = suffixed decimal base_name suffix;
    base_name = base_name;
    suffix = suffix;
    name_column = column;
    scale = scale;
    provider = candidate.provider;
    model_candidate_key = candidate.key;
  }

  unfoldable pub allocate :
      Allocating
      → ModelCandidate
      → AgentNameRegistry
      → Result (AgentNameAssignment × AgentNameRegistry)
  unfolding next_name
  allocate args candidate r = do
    scale ← scale_for normalize candidate
    let column = name_column normalize candidate
    let pool = pool_of r scale
    raise_if (is_empty pool) (no_names column)
    raise_if (member r.assignments args.assignment_id)
        (concat "agent-name assignment already exists: " args.assignment_id)
    named ← next_name decimal scale column pool r
    let assignment = issue_assignment args candidate scale column named.0 named.1
    ok (assignment, add_assignment assignment named.2)

  unfoldable pub allocate_out_of_pipeline :
      Registering
      → ModelCandidate
      → AgentNameRegistry
      → Result (AgentIdentityRegistration × AgentNameRegistry)
  unfolding next_name
  allocate_out_of_pipeline args candidate r = do
    scale ← scale_for normalize candidate
    let column = name_column normalize candidate
    let pool = pool_of r scale
    raise_if (is_empty pool) (no_names column)
    raise_if (member r.registrations args.registration_id)
        (concat "agent identity registration already exists: " args.registration_id)
    raise_if (member r.assignments args.registration_id)
        (concat "registration id collides with an agent-name assignment: " args.registration_id)
    named ← next_name decimal scale column pool r
    let registration = issue_registration args candidate scale column named.0 named.1
    ok (registration, add_registration registration named.2)

-- One assignment of `restore`, which has no state of its own before its writes.
unfoldable pub restore_one : AgentNameAssignment → AgentNameRegistry → Result AgentNameRegistry
unfolding resolve_eligible_row
restore_one a r =
    if member r.assignments a.assignment_id
    then (do
      raise_if (not (is_assignment (get r.assignments a.assignment_id) a))
          (concat "agent-name assignment collision: " a.assignment_id)
      ok r)
    else (do
      raise_if (contains a.agent_name r.used_names)
          (concat "agent name is assigned more than once: " a.agent_name)
      row ←
          resolve_eligible_row r a.scale a.name_column a.base_name
            (concat "assignment base name is not present in Agent_name.csv: " a.base_name)
            (concat "assignment uses a forbidden Agent_name.csv row: " a.base_name)
      ok (add_assignment a r))

unfoldable pub restore_one_registration :
    AgentIdentityRegistration → AgentNameRegistry → Result AgentNameRegistry
unfolding resolve_eligible_row
restore_one_registration i r =
    if member r.registrations i.registration_id
    then (do
      raise_if (not (is_registration (get r.registrations i.registration_id) i))
          (concat "agent identity registration collision: " i.registration_id)
      ok r)
    else (do
      raise_if (contains i.agent_name r.used_names)
          (concat "agent name is assigned more than once: " i.agent_name)
      row ←
          resolve_eligible_row r i.scale i.name_column i.base_name
            (concat "registration base name is not present in Agent_name.csv: " i.base_name)
            (concat "registration uses a forbidden Agent_name.csv row: " i.base_name)
      ok (add_registration i r))

abbrev pub after_step :
    AgentNameRegistry
    → Result AgentNameRegistry
    → (AgentNameRegistry → Result (Unit {0}) × AgentNameRegistry)
    → Result (Unit {0}) × AgentNameRegistry
after_step r (err e) rest = (err e, r)
after_step r (ok next) rest = rest next

-- A loop over records that stops at the first one that is refused, with what the others have written.
abbrev pub each :
    {A : Type 0}
    → (A → AgentNameRegistry → Result AgentNameRegistry)
    → List A
    → AgentNameRegistry
    → Result (Unit {0}) × AgentNameRegistry
each step [] r = (ok tt, r)
each step (x ∷ xs) r = after_step r (step x r) (each step xs)

unfoldable pub restore :
    List AgentNameAssignment → AgentNameRegistry → Result (Unit {0}) × AgentNameRegistry
unfolding restore_one
restore assignments r = each restore_one assignments r

unfoldable pub restore_registrations :
    List AgentIdentityRegistration → AgentNameRegistry → Result (Unit {0}) × AgentNameRegistry
unfolding restore_one_registration
restore_registrations registrations r = each restore_one_registration registrations r

-- `is_name_registered`
abbrev pub is_name_registered : AgentNameRegistry → String → Bool
is_name_registered r agent_name = contains agent_name r.used_names
