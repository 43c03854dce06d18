-- ===== src/Samples/Names.antt =====
-- The theorems on the agent-name registry, tried on a table of one row.

use nanihold_os.Prelude.{ℕ, zero, suc, String, ◌≡◌, ◌≢◌, refl, some, List, [], ◌∷◌, arith}
use nanihold_os.Result.{ok}
use nanihold_os.Dict.{empty, get, get-empty}
use nanihold_os.Models.Naming.{NameColumn, AgentNameAssignment, AgentIdentityRegistration}
use nanihold_os.Naming.{
  AgentNameRow, AgentNameRegistry, ModelCandidate, Allocating, Registering, allocate,
  allocate_out_of_pipeline, next_name, first_unused, restore, restore_registrations, unused_suffix,
  issue_assignment, add_assignment, set_next_index,
}
use nanihold_os.Naming.Suffixes.{WritesNumbers}
use nanihold_os.Naming.Allocation.{IsNextName, next_name_total}
use nanihold_os.Naming.Identities.{IsDistinguished, names_stay_distinct}
use nanihold_os.Naming.Restoring.{none_issued, issued_first, restore_issued}
use nanihold_os.Samples.{bars, sample_decimal}
use nanihold_os.Samples.Runs.{bars_tell}

bars_are_written : (n : ℕ) → bars n "" ≢ ""
bars_are_written zero h = cc
bars_are_written (suc n) h = cc

sample_writes : WritesNumbers sample_decimal
sample_writes = record {
  injective = λ m n h. (bars_tell m n "" "" h).1;
  written = bars_are_written;
}

abbrev sample_row : AgentNameRow
sample_row = record {
  category = "sky";
  scale = 3;
  semantic_coordinate = "moon";
  japanese_name = "Tsuki";
  english_name = "Moon";
  latin_name = "Luna";
  likes = "1";
}

abbrev sample_names : AgentNameRegistry
sample_names = record {
  rows = sample_row ∷ [];
  next_index = λ _ _. 0;
  used_names = [];
  assignments = empty;
  registrations = empty;
}

abbrev sample_candidate : ModelCandidate
sample_candidate = record { provider = "anthropic"; model_snapshot = some "fable"; key = "key" }

abbrev sample_request : Allocating
sample_request = record {
  assignment_id = "assignment:1";
  data_space_id = "space:home";
  work_item_id = "work:1";
  execution_id = "execution:1";
  node_id = "node:a";
  pilot_id = "pilot:1";
}

-- The only name is in use, and its second agent gets a suffix.
next_name_total_example :
    (x : String × ℕ × AgentNameRegistry) × (next_name sample_decimal 3 NameColumn.japanese
        (sample_row ∷ [])
        (record sample_names { used_names = "Tsuki" ∷ [] })
      ≡ ok x)
    × IsNextName sample_decimal NameColumn.japanese
        (sample_row ∷ [])
        (record sample_names { used_names = "Tsuki" ∷ [] })
        x
next_name_total_example =
    next_name_total sample_decimal 3 NameColumn.japanese (sample_row ∷ [])
      (record sample_names { used_names = "Tsuki" ∷ [] }) sample_writes (omega arith)

sample-IsDistinguished : IsDistinguished sample_names
sample-IsDistinguished = record {
  assigned = λ i a h. absurd (cc (h, get-empty {V = AgentNameAssignment} i));
  registered = λ i a h. absurd (cc (h, get-empty {V = AgentIdentityRegistration} i));
  one_assignment = λ i j a b h _ _. absurd (cc (h, get-empty {V = AgentNameAssignment} i));
  one_registration = λ i j a b h _ _. absurd (cc (h, get-empty {V = AgentIdentityRegistration} i));
  apart = λ i j a b h _ _. cc (h, get-empty {V = AgentNameAssignment} i);
}

names_stay_distinct_example :
    ((args : Allocating) (x : AgentNameAssignment × AgentNameRegistry)
      → allocate (λ s. s) sample_decimal args sample_candidate sample_names ≡ ok x
      → IsDistinguished x.1)
    × ((args : Registering) (x : AgentIdentityRegistration × AgentNameRegistry)
        → allocate_out_of_pipeline (λ s. s) sample_decimal args sample_candidate sample_names ≡ ok x
        → IsDistinguished x.1)
    × ((issued : List AgentNameAssignment) → IsDistinguished (restore issued sample_names).1)
    × ((issued : List AgentIdentityRegistration)
        → IsDistinguished (restore_registrations issued sample_names).1)
names_stay_distinct_example =
    names_stay_distinct (λ s. s) sample_decimal sample_candidate sample_names sample-IsDistinguished

abbrev sample_issued : AgentNameAssignment
sample_issued =
    issue_assignment (λ s. s) sample_decimal sample_request sample_candidate 3 NameColumn.japanese
      "Tsuki" 1

abbrev after_issue : AgentNameRegistry
after_issue = add_assignment sample_issued (set_next_index 3 NameColumn.japanese 1 sample_names)

sample_allocated :
    allocate (λ s. s) sample_decimal sample_request sample_candidate sample_names
    ≡ ok (sample_issued, after_issue)
unfolding allocate next_name first_unused unused_suffix get
sample_allocated = refl

restore_issued_example :
    restore (sample_issued ∷ []) sample_names
    ≡ (ok tt, record after_issue { next_index = λ _ _. 0 })
restore_issued_example =
    restore_issued (λ s. s) sample_decimal sample_names after_issue (sample_issued ∷ []) (λ _ _. 0)
      (issued_first sample_names after_issue sample_request sample_candidate
        (sample_issued, after_issue) [] sample_allocated (none_issued after_issue))
