-- ===== src/Kernel/Commands/Acyclic.antt =====
-- vsm/kernel/service.py: cycles among the DEPENDS_ON edges of the Work Graph.
use mathlib.Core.Path.{subst}
use nanihold_os.Prelude.{
  ℕ, String, ◌≡◌, refl, sym, ap, ◌∙◌, Bool, true, false, Option, none, some, List, [], ◌∷◌, ◌++◌,
  ◌⊎◌, inl, inr, In-append,
}
use nanihold_os.Result.{ok, Ensures, Ensures-ok, Ensures-raise_if, Ensures-bind}
use nanihold_os.Models.Work.{WorkItem, WorkEdge, is_depends_on}
use nanihold_os.Activation.{Caller}
use nanihold_os.Kernel.{Kernel, Plan}
use nanihold_os.Kernel.Graph.{dependencies, would_cycle}
use nanihold_os.Kernel.Graph.Paths.{
  DependsOn-dependencies, DependsOn, LeadsTo, here, step, LeadsTo-trans,
}
use nanihold_os.Kernel.Graph.Cycles.{would_cycle_iff}
use nanihold_os.Kernel.Work.{
  create_work_item, add_dependency, parent_edges, dependency, check_cycle,
}
use nanihold_os.Ids.{Platform}
use nanihold_os.Models.Event.{EventEnvelope}
use nanihold_os.Models.Payload.{Payload}
use nanihold_os.Kernel.Commands.{Command, plan_of, execute}
use nanihold_os.Kernel.Commands.Running.{execute-keeps}
use nanihold_os.Kernel.Commands.Frames.{work_edges_frame}

-- No path of DEPENDS_ON edges leads back to where an edge started.
abbrev pub IsAcyclic : List WorkEdge → Type 0
IsAcyclic edges = (a b : String) → DependsOn edges a b → ¬ LeadsTo edges a b

pub empty-IsAcyclic : IsAcyclic []
unfolding dependencies
empty-IsAcyclic a b d = absurd (DependsOn-dependencies [] a b d)

-- An edge of an extended list is old, or it is in the extension.
DependsOn-append :
    (edges more : List WorkEdge) (a b : String)
    → DependsOn (edges ++ more) a b
    → DependsOn edges a b ⊎ DependsOn more a b
DependsOn-append edges more a b d = elim (In-append d.edge edges more d.listed) [
  | inl old ↦
      inl (record {
        edge = d.edge;
        listed = old;
        source = d.source;
        target = d.target;
        kind = d.kind;
      })
  | inr new ↦
      inr (record {
        edge = d.edge;
        listed = new;
        source = d.source;
        target = d.target;
        kind = d.kind;
      })
]

-- The edges to a parent are no dependencies.
parent_edges_other :
    (child : String) (parent : Option String) (a b : String)
    → ¬ DependsOn (parent_edges child parent) a b
parent_edges_other child none a b d = absurd d.listed
parent_edges_other child (some parent) a b d = elim d.listed [
  | inl e ↦ cc (d.kind, ap (λ (f : WorkEdge). is_depends_on f.kind) e)
  | inr (inl e) ↦ cc (d.kind, ap (λ (f : WorkEdge). is_depends_on f.kind) e)
  | inr (inr n) ↦ absurd n
]

module _ (edges more : List WorkEdge) (none_more : (a b : String) → ¬ DependsOn more a b) where
  other_edge : {a b : String} → DependsOn (edges ++ more) a b → DependsOn edges a b
  other_edge {a} {b} d = elim (DependsOn-append edges more a b d) [
    | inl old ↦ old
    | inr new ↦ absurd (none_more a b new)
  ]

  other_path : {b a : String} → LeadsTo (edges ++ more) b a → LeadsTo edges b a
  other_path here = here
  other_path (step d p) = step (other_edge d) (other_path p)

  append_other-IsAcyclic : IsAcyclic edges → IsAcyclic (edges ++ more)
  append_other-IsAcyclic h a b d p = h a b (other_edge d) (other_path p)

module _ (edges : List WorkEdge) (work on : String) (no_path : ¬ LeadsTo edges work on) where
  abbrev extended : List WorkEdge
  extended = edges ++ dependency work on ∷ []

  new_edge : {a b : String} → DependsOn (dependency work on ∷ []) a b → (a ≡ work) × (b ≡ on)
  new_edge d = elim d.listed [
    | inl e ↦ (
      sym d.source ∙ ap (λ f. f.source_work_item_id) e,
      sym d.target ∙ ap (λ f. f.target_work_item_id) e,
    )
    | inr n ↦ absurd n
  ]

  -- A path over the extended list goes by old edges, or reaches the start of the new one and leaves
  -- from its end.
  split_path :
      {b a : String}
      → LeadsTo extended b a
      → LeadsTo edges b a ⊎ (LeadsTo edges work a × LeadsTo edges b on)
  split_path here = inl here
  split_path {b} {a} (step {c} d p) =
      elim (DependsOn-append edges (dependency work on ∷ []) a c d) [
        | inl old ↦ elim (split_path p) [
          | inl q ↦ inl (step old q)
          | inr (to_work, from_on) ↦ inr (step old to_work, from_on)
        ]
        | inr new ↦
            let (at_work, at_on) = new_edge new in
            elim (split_path p) [
              | inl q ↦
                  inr
                    (subst (LeadsTo edges work) (sym at_work) here, subst (LeadsTo edges b) at_on q)
              | inr (_, from_on) ↦ inr (subst (LeadsTo edges work) (sym at_work) here, from_on)
            ]
      ]

  add-IsAcyclic : IsAcyclic edges → IsAcyclic extended
  add-IsAcyclic h a b d p = elim (DependsOn-append edges (dependency work on ∷ []) a b d) [
    | inl old ↦ elim (split_path p) [
      | inl q ↦ h a b old q
      | inr (to_work, from_on) ↦ no_path (LeadsTo-trans from_on (step old to_work))
    ]
    | inr new ↦
        let (at_work, at_on) = new_edge new in
        elim (split_path p) [
          | inl q ↦
              no_path (subst (LeadsTo edges work) at_on (subst (λ x. LeadsTo edges x b) at_work q))
          | inr (to_work, _) ↦ no_path (subst (LeadsTo edges work) at_on to_work)
        ]
  ]

unchecked : (o : Option Bool) (u : Unit {0}) → check_cycle o ≡ ok u → ¬ (o ≡ some true)
unchecked none u h e = cc
unchecked (some true) u h e = cc
unchecked (some false) u h e = cc

module _ (k : Kernel) (h : IsAcyclic k.registry.work_edges) (c : Caller) where
  abbrev Keeps : Plan → Type 0
  Keeps p = (id : String) → IsAcyclic (p.next id).work_edges

  create-Keeps : (w : WorkItem) → Ensures Keeps (create_work_item k w c)
  unfolding create_work_item
  create-Keeps w =
      let leaf : (id : String)
          → IsAcyclic (k.registry.work_edges ++ parent_edges w.work_item_id w.parent_work_item_id) =
        λ _.
          append_other-IsAcyclic k.registry.work_edges _
            (parent_edges_other w.work_item_id w.parent_work_item_id) h in
      search (Ensures-ok, Ensures-raise_if, Ensures-bind, leaf) depth 12

  add-Keeps : (work on : String) → Ensures Keeps (add_dependency k work on c)
  unfolding add_dependency
  add-Keeps work on =
      let leaf : (u : Unit {0})
          → check_cycle (would_cycle k.registry.work_edges work on) ≡ ok u
          → (id : String) → IsAcyclic (k.registry.work_edges ++ dependency work on ∷ []) =
        λ u e _.
          add-IsAcyclic k.registry.work_edges work on
            (λ p.
              unchecked (would_cycle k.registry.work_edges work on) u e
                ((would_cycle_iff k.registry.work_edges work on).1 p))
            h in
      search (Ensures-ok, Ensures-raise_if, Ensures-bind, leaf) depth 12

  plan_of-IsAcyclic : (command : Command) → Ensures Keeps (plan_of k command c)
  unfolding plan_of
  plan_of-IsAcyclic (Command.create_work_item w) = create-Keeps w
  plan_of-IsAcyclic (Command.add_dependency work on) = add-Keeps work on
  plan_of-IsAcyclic command = work_edges_frame IsAcyclic k command c refl h

-- If the dependencies between WorkItems form no cycle, they form none after every command, also one
-- that raises.
pub execute-IsAcyclic :
    (dump : EventEnvelope Payload → String) (platform : Platform) (now : ℕ) (command : Command)
    (c : Caller) (k : Kernel)
    → IsAcyclic k.registry.work_edges
    → IsAcyclic (execute dump platform now command c k).1.registry.work_edges
execute-IsAcyclic dump platform now command c k h =
    execute-keeps dump platform (λ r. IsAcyclic r.work_edges) now command c k h
      (plan_of-IsAcyclic k h c command)
