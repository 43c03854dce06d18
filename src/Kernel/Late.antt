-- ===== src/Kernel/Late.antt =====
-- vsm/kernel/service.py: what a command can raise after its event. Only `accept_s3_star_risk` reads a
-- dictionary then, and it finds its WorkItem where findings are of WorkItems that exist.
use nanihold_os.Prelude.{String, ◌≡◌, refl, is_some, Bool, true, false, Option, none, some}
use nanihold_os.Result.{Ensures}
use nanihold_os.Dict.{get}
use nanihold_os.Models.Work.{WorkItem, S3StarFinding}
use nanihold_os.Activation.{Caller}
use nanihold_os.Kernel.{Kernel, Plan}
use nanihold_os.Kernel.Findings.{accept_s3_star_risk, missing_work}
use nanihold_os.Kernel.Filing.{IsFiled}
use nanihold_os.Kernel.Commands.{Command, plan_of}
use nanihold_os.Kernel.Commands.Frames.{record_agent_name_assignment-Ensures, guards, opened}

abbrev IsQuiet : Plan → Type 0
IsQuiet p = p.raises ≡ none

-- The commands whose plan is opened as it stands.
abbrev is_plain : Command → Bool
is_plain (Command.accept_s3_star_risk _ _ _) = false
is_plain (Command.record_agent_name_assignment _ _) = false
is_plain _ = true

plain-IsQuiet :
    (k : Kernel) (command : Command) (c : Caller)
    → is_plain command ≡ true
    → Ensures IsQuiet (plan_of k command c)
unfolding opened
plain-IsQuiet k (Command.accept_s3_star_risk _ _ _) c q = absurd (cc)
plain-IsQuiet k (Command.record_agent_name_assignment _ _) c q = absurd (cc)
plain-IsQuiet k _ c q = search (guards, refl) depth 24

found-IsQuiet : (id : String) (o : Option WorkItem) → is_some o ≡ true → missing_work id o ≡ none
found-IsQuiet id none h = absurd (cc)
found-IsQuiet id (some w) h = refl

accept-IsQuiet :
    (k : Kernel) (id node rationale : String) (c : Caller)
    → IsFiled k.registry
    → Ensures IsQuiet (accept_s3_star_risk k id node rationale c)
unfolding accept_s3_star_risk
accept-IsQuiet k id node rationale c h =
    let leaf : (f : S3StarFinding)
        → get k.registry.findings id ≡ some f
        → missing_work f.work_item_id (get k.registry.work_items f.work_item_id) ≡ none =
      λ f found. found-IsQuiet f.work_item_id _ (h.findings_of_works id f found) in
    search (guards, leaf) depth 24

pub plan_of-never_late :
    (k : Kernel) (command : Command) (c : Caller)
    → IsFiled k.registry
    → Ensures (λ (p : Plan). p.raises ≡ none) (plan_of k command c)
unfolding plan_of
plan_of-never_late k (Command.accept_s3_star_risk id node rationale) c h =
    accept-IsQuiet k id node rationale c h
plan_of-never_late k (Command.record_agent_name_assignment a f) c h =
    record_agent_name_assignment-Ensures IsQuiet k a f c (λ e found. refl)
plan_of-never_late k command c h = plain-IsQuiet k command c refl
