-- ===== src/Projection/Kinds.antt =====
-- vsm/projection.py: the events of the Kernel among those that the ledger holds.
use nanihold_os.Prelude.{String, ◌≡◌, refl, false, none}
use nanihold_os.Result.{Ensures}
use nanihold_os.Models.Work.{WorkItem}
use nanihold_os.Models.Naming.{AgentNotification}
use nanihold_os.Models.Payload.{Payload}
use nanihold_os.Activation.{Caller, Activation}
use nanihold_os.Kernel.{Kernel, Plan}
use nanihold_os.Kernel.Commands.{Command, plan_of}
use nanihold_os.Kernel.Commands.Frames.{guards, opened, record_agent_name_assignment-Ensures}
use nanihold_os.Kernel.Notifications.{promotion_plan}
use nanihold_os.Projection.{external_stream_prefix, is_milestone, marked}

-- An event that the ledger of the Kernel records itself, and whose handler writes the registry.
pub record IsRegistryEvent (event_type : String) (payload : Payload) : Type 0 where
  pub internal : external_stream_prefix event_type ≡ none
  pub registry : is_milestone payload ≡ false

-- It leaves the activation.
pub record IsCommandEvent (p : Plan) : Type 0 where
  pub kind : IsRegistryEvent p.draft.event_type p.draft.payload
  pub unmarked : (a : Activation) → marked p.draft.payload a ≡ a

command_event :
    (p : Plan)
    → external_stream_prefix p.draft.event_type ≡ none
    → is_milestone p.draft.payload ≡ false
    → ((a : Activation) → marked p.draft.payload a ≡ a)
    → IsCommandEvent p
command_event p h q r = record { kind = record { internal = h; registry = q }; unmarked = r }

same : (a : Activation) → a ≡ a
same a = refl

pub plan_of-IsCommandEvent :
    (k : Kernel) (command : Command) (c : Caller) → Ensures IsCommandEvent (plan_of k command c)
unfolding opened
plan_of-IsCommandEvent k (Command.record_agent_name_assignment a f) c =
    record_agent_name_assignment-Ensures IsCommandEvent k a f c
      (λ e found. command_event _ refl refl same)
plan_of-IsCommandEvent k _ c = search (guards, command_event, refl, same) depth 24

pub promotion_plan-IsCommandEvent :
    (k : Kernel) (n : AgentNotification) (x : String) (w : WorkItem) (c : Caller)
    → IsCommandEvent (promotion_plan k n x w c)
promotion_plan-IsCommandEvent k n x w c = command_event _ refl refl same
