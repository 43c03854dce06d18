-- ===== src/Kernel/Commands/Completion.antt =====
-- vsm/kernel/service.py: what a completed WorkItem has passed.
use mathlib.Core.Path.{subst}
use nanihold_os.Prelude.{
  ℕ, String, ◌≡◌, refl, sym, Bool, true, false, not, ◌&&◌, ◌||◌, Option, none, some, List, [], ◌∷◌,
  inl, inr, arith, In, if◌then◌else◌, Bool-cases,
}
use nanihold_os.Result.{
  Result, ok, err, Ensures, Ensures-ok, Ensures-raise_if, Ensures-require, Ensures-bind, ◌>>=◌,
}
use nanihold_os.Dict.{Dict, get, put, Every, Every-put}
use nanihold_os.Models.Work.{
  WorkItem, WorkState, CompletionEvidence, is_completed, is_proposed_or_ready,
}
use nanihold_os.Activation.{Caller}
use nanihold_os.Kernel.{Kernel, Plan}
use nanihold_os.Kernel.Graph.{dependencies}
use nanihold_os.Kernel.Graph.Paths.{DependsOn, DependsOn-dependencies, dependencies-DependsOn}
use nanihold_os.Kernel.Work.{
  create_work_item, delegate_work_item, prepare_owner_confirmed_resume, complete_work_item,
  completion_plan, intervene, incomplete, work_at, gate, is_empty,
}
use nanihold_os.Kernel.Findings.{
  record_s3_star_finding, accept_s3_star_risk, release_work, release, block_by,
}
use nanihold_os.Ids.{Platform}
use nanihold_os.Models.Event.{EventEnvelope}
use nanihold_os.Models.Payload.{Payload}
use nanihold_os.Kernel.Commands.{Command, plan_of, execute}
use nanihold_os.Kernel.Commands.Running.{execute-keeps}
use nanihold_os.Kernel.Commands.Frames.{work_items_frame}

abbrev pub passed : Option CompletionEvidence → Bool
passed none = false
passed (some e) = gate e

-- A completed WorkItem has evidence that passes the gate, and no blocking finding.
abbrev pub IsGated : WorkItem → Type 0
IsGated w =
    (not (is_completed w.state)
      || (passed w.completion_evidence && is_empty w.blocking_s3_star_finding_ids))
    ≡ true

abbrev pub CompletionsAreGated : Dict WorkItem → Type 0
CompletionsAreGated = Every (λ id w. IsGated w)

fresh-IsGated : (w : WorkItem) → not (is_proposed_or_ready w.state) ≡ false → IsGated w
fresh-IsGated w h = ground arith

complete-IsGated :
    (w : WorkItem) (e : CompletionEvidence)
    → not (is_empty w.blocking_s3_star_finding_ids) ≡ false
    → not (gate e) ≡ false
    → IsGated (record w { state = WorkState.completed; completion_evidence = some e })
complete-IsGated w e h g = ground arith

release-IsGated : (id : String) (w : WorkItem) → IsGated (release id w)
release-IsGated id w = ground arith

release_work-gated :
    (d : Dict WorkItem) (id : String) (o : Option WorkItem)
    → CompletionsAreGated d
    → CompletionsAreGated (release_work d id o)
release_work-gated d id none h = h
release_work-gated d id (some w) h =
    Every-put d w.work_item_id (release id w) h (release-IsGated id w)

record-gated :
    (d : Dict WorkItem) (t : Bool) (id : String) (w : WorkItem)
    → CompletionsAreGated d
    → CompletionsAreGated (if t then put d w.work_item_id (block_by id w) else d)
record-gated d true id w h = Every-put d w.work_item_id (block_by id w) h refl
record-gated d false id w h = h

ruleset steps = (Ensures-ok, Ensures-raise_if, Ensures-require, Ensures-bind)

module _ (k : Kernel) (h : CompletionsAreGated k.registry.work_items) (c : Caller) where
  abbrev Keeps : Plan → Type 0
  Keeps p = (id : String) → CompletionsAreGated (p.next id).work_items

  create-Keeps : (w : WorkItem) → Ensures Keeps (create_work_item k w c)
  unfolding create_work_item
  create-Keeps w =
      let leaf : not (is_proposed_or_ready w.state) ≡ false
          → CompletionsAreGated (put k.registry.work_items w.work_item_id w) =
        λ q. Every-put k.registry.work_items w.work_item_id w h (fresh-IsGated w q) in
      search (steps, leaf) depth 12

  complete-Keeps :
      (id : String) (e : CompletionEvidence) → Ensures Keeps (complete_work_item k id e c)
  unfolding complete_work_item
  complete-Keeps id e = search (steps, Every-put, complete-IsGated) depth 12

  completed_is_gated_plan : (command : Command) → Ensures Keeps (plan_of k command c)
  unfolding plan_of
  completed_is_gated_plan (Command.create_work_item w) = create-Keeps w
  completed_is_gated_plan (Command.complete_work_item id e) = complete-Keeps id e
  completed_is_gated_plan (Command.delegate_work_item work node) =
      unfold delegate_work_item in search (steps, Every-put, refl) depth 12
  completed_is_gated_plan (Command.prepare_owner_confirmed_resume work) =
      unfold prepare_owner_confirmed_resume in search (steps, Every-put, refl) depth 12
  completed_is_gated_plan (Command.intervene work reason) =
      unfold intervene in search (steps, Every-put, refl) depth 12
  completed_is_gated_plan (Command.record_s3_star_finding f) =
      unfold record_s3_star_finding in search (steps, record-gated) depth 12
  completed_is_gated_plan (Command.accept_s3_star_risk f node rationale) =
      unfold accept_s3_star_risk in search (steps, release_work-gated) depth 12
  completed_is_gated_plan command = work_items_frame CompletionsAreGated k command c refl h

-- One round of `incomplete` that adds nothing.
incomplete_round :
    (x : String) (o : Option WorkItem) (r : Result (List String)) (missing : List String)
    → (work_at x o >>= λ work.
        r >>= λ rest. ok (if is_completed work.state then rest else x ∷ rest))
      ≡ ok missing
    → not (is_empty missing) ≡ false
    → ((w : WorkItem) × (o ≡ some w) × (is_completed w.state ≡ true))
      × ((rest : List String) × (r ≡ ok rest) × (not (is_empty rest) ≡ false))
incomplete_round x none r missing h e = absurd (cc)
incomplete_round x (some w) (err f) missing h e = absurd (cc)
incomplete_round x (some w) (ok rest) missing h e = elim (Bool-cases (is_completed w.state)) [
  | inl done ↦ ((w, refl, done), (rest, refl, ground arith))
  | inr open_work ↦ absurd (ground arith)
]

incomplete-none :
    (k : Kernel) (ids : List String) (missing : List String)
    → incomplete k ids ≡ ok missing
    → not (is_empty missing) ≡ false
    → (id : String) → In id ids
    → (w : WorkItem) × (get k.registry.work_items id ≡ some w) × (is_completed w.state ≡ true)
unfolding incomplete
incomplete-none k [] missing h e id m = absurd m
incomplete-none k (x ∷ ids) missing h e id m =
    let ((w, found, done), (rest, q, none_left)) =
      incomplete_round x (get k.registry.work_items x) (incomplete k ids) missing h e in
    elim m [
      | inl same ↦ (w, subst (λ j. get k.registry.work_items j ≡ some w) (sym same) found, done)
      | inr later ↦ incomplete-none k ids rest q none_left id later
    ]

-- What `complete_work_item` has established when it accepts.
pub record MayComplete (k : Kernel) (id : String) (e : CompletionEvidence) : Type 0 where
  pub gated : gate e ≡ true
  pub unblocked :
      (w : WorkItem) × (get k.registry.work_items id ≡ some w)
      × (is_empty w.blocking_s3_star_finding_ids ≡ true)
  pub dependencies_done :
      (on : String)
      → DependsOn k.registry.work_edges id on
      → (w : WorkItem) × (get k.registry.work_items on ≡ some w) × (is_completed w.state ≡ true)

affirmed : (b : Bool) → not b ≡ false → b ≡ true
affirmed b h = ground arith

may_complete :
    (k : Kernel) (id : String) (e : CompletionEvidence) (w : WorkItem) (missing : List String)
    → get k.registry.work_items id ≡ some w
    → not (is_empty w.blocking_s3_star_finding_ids) ≡ false
    → not (gate e) ≡ false
    → incomplete k (dependencies id k.registry.work_edges) ≡ ok missing
    → not (is_empty missing) ≡ false
    → MayComplete k id e
may_complete k id e w missing found unblocked passes listed none_left = record {
  gated = affirmed _ passes;
  unblocked = (w, found, affirmed _ unblocked);
  dependencies_done = λ on d.
      incomplete-none k (dependencies id k.registry.work_edges) missing listed none_left on
        (DependsOn-dependencies k.registry.work_edges id on d);
}

complete_requires_plan :
    (k : Kernel) (id : String) (e : CompletionEvidence) (c : Caller)
    → Ensures (λ _. MayComplete k id e) (complete_work_item k id e c)
unfolding complete_work_item
complete_requires_plan k id e c = search (steps, may_complete k id e) depth 12

-- `complete_work_item` is accepted only when the evidence passes the gate, no S3* finding blocks the
-- WorkItem, and every WorkItem that it depends on is completed.
pub complete_requires :
    (k : Kernel) (id : String) (e : CompletionEvidence) (c : Caller) (p : Plan)
    → complete_work_item k id e c ≡ ok p
    → MayComplete k id e
complete_requires k id e c p accepted = (complete_requires_plan k id e c).at p accepted

incomplete-all :
    (k : Kernel) (ids : List String)
    → ((id : String)
        → In id ids
        → (w : WorkItem) × (get k.registry.work_items id ≡ some w) × (is_completed w.state ≡ true))
    → incomplete k ids ≡ ok []
unfolding incomplete
incomplete-all k [] h = refl
incomplete-all k (x ∷ ids) h =
    let (w, found, done) = h x (inl refl) in
    let rest = incomplete-all k ids (λ id m. h id (inr m)) in rw (found, work_at, rest, done) refl

-- `complete_work_item` accepts whenever the evidence passes the gate, no S3* finding blocks the
-- WorkItem, and every WorkItem that it depends on is completed, whatever the state of the WorkItem.
pub complete_accepts :
    (k : Kernel) (id : String) (e : CompletionEvidence) (c : Caller)
    → MayComplete k id e
    → (p : Plan) × (complete_work_item k id e c ≡ ok p)
unfolding complete_work_item
complete_accepts k id e c may =
    let (w, found, clear) = may.unblocked in
    let all =
      incomplete-all k (dependencies id k.registry.work_edges)
        (λ on m. may.dependencies_done on (dependencies-DependsOn k.registry.work_edges id on m)) in
    (completion_plan k id e w c, rw (found, clear, all, may.gated) refl)

-- If every completed WorkItem has evidence that passes the gate and no blocking finding, so it is
-- after every command, also one that raises.
pub completed_is_gated :
    (dump : EventEnvelope Payload → String) (platform : Platform) (now : ℕ) (command : Command)
    (c : Caller) (k : Kernel)
    → CompletionsAreGated k.registry.work_items
    → CompletionsAreGated (execute dump platform now command c k).1.registry.work_items
completed_is_gated dump platform now command c k h =
    execute-keeps dump platform (λ r. CompletionsAreGated r.work_items) now command c k h
      (completed_is_gated_plan k h c command)
