-- ===== src/Kernel/Graph/Paths.antt =====
-- vsm/kernel/service.py: paths of DEPENDS_ON edges, and what the search for a cycle finds.
use mathlib.Core.Path.{subst}
use nanihold_os.Prelude.{
  ℕ, zero, suc, String, ◌≡◌, refl, sym, ap, ◌∙◌, Bool, true, false, ◌&&◌, some, List, [], ◌∷◌, ◌⊎◌,
  inl, inr, arith, ◌==◌, eq_iff, contains, if◌then◌else◌, Bool-cases, In,
}
use nanihold_os.Models.Work.{WorkEdge, is_depends_on}
use nanihold_os.Kernel.Graph.{dependencies, push_all, search_from}

-- One WorkItem depends on another by an edge of the list.
pub record DependsOn (edges : List WorkEdge) (a b : String) : Type 0 where
  pub edge : WorkEdge
  pub listed : In edge edges
  pub source : edge.source_work_item_id ≡ a
  pub target : edge.target_work_item_id ≡ b
  pub kind : is_depends_on edge.kind ≡ true

-- `LeadsTo edges b a`: a path of such edges, which may be empty, leads from `a` to `b`.
pub data LeadsTo (edges : List WorkEdge) (b : String) : String → Type 0 where
  here : LeadsTo edges b b
  step : {a c : String} → DependsOn edges a c → LeadsTo edges b c → LeadsTo edges b a

pub LeadsTo-trans :
    {edges : List WorkEdge} {b c a : String}
    → LeadsTo edges b a
    → LeadsTo edges c b
    → LeadsTo edges c a
LeadsTo-trans here q = q
LeadsTo-trans (step d p) q = step d (LeadsTo-trans p q)

-- Membership in a list that a test extends.
In-extended :
    (t : Bool) (c x : String) (xs : List String)
    → In c (if t then x ∷ xs else xs)
    → ((t ≡ true) × (c ≡ x)) ⊎ In c xs
In-extended true c x xs (inl e) = inl (refl, e)
In-extended true c x xs (inr m) = inr m
In-extended false c x xs m = inr m

extended_old :
    (t : Bool) (c x : String) (xs : List String) → In c xs → In c (if t then x ∷ xs else xs)
extended_old true c x xs m = inr m
extended_old false c x xs m = m

extended_new :
    (t : Bool) (c x : String) (xs : List String)
    → t ≡ true
    → c ≡ x
    → In c (if t then x ∷ xs else xs)
extended_new true c x xs h e = inl e
extended_new false c x xs h e = absurd (cc)

later :
    {e : WorkEdge} {edges : List WorkEdge} {a b : String}
    → DependsOn edges a b
    → DependsOn (e ∷ edges) a b
later d = record {
  edge = d.edge;
  listed = inr d.listed;
  source = d.source;
  target = d.target;
  kind = d.kind;
}

is_edge_of : String → WorkEdge → Bool
is_edge_of a e = e.source_work_item_id == a && is_depends_on e.kind

first_edge :
    (e : WorkEdge) (edges : List WorkEdge) (a b : String)
    → is_edge_of a e ≡ true
    → b ≡ e.target_work_item_id
    → DependsOn (e ∷ edges) a b
unfolding is_edge_of
first_edge e edges a b q p = record {
  edge = e;
  listed = inl refl;
  source = ground (arith, eq_iff e.source_work_item_id a);
  target = sym p;
  kind = ground arith;
}

-- `dependencies` lists the targets.
pub dependencies-DependsOn :
    (edges : List WorkEdge) (a b : String) → In b (dependencies a edges) → DependsOn edges a b
unfolding dependencies is_edge_of
dependencies-DependsOn [] a b m = absurd m
dependencies-DependsOn (e ∷ edges) a b m =
    elim (In-extended (is_edge_of a e) b e.target_work_item_id (dependencies a edges) m) [
      | inl (q, p) ↦ first_edge e edges a b q p
      | inr old ↦ later (dependencies-DependsOn edges a b old)
    ]

edge_is_of :
    (e f : WorkEdge) (a : String)
    → f ≡ e
    → f.source_work_item_id ≡ a
    → is_depends_on f.kind ≡ true
    → is_edge_of a e ≡ true
unfolding is_edge_of
edge_is_of e f a same s k =
    ground (arith, eq_iff e.source_work_item_id a, eq_iff f.source_work_item_id a)

pub DependsOn-dependencies :
    (edges : List WorkEdge) (a b : String) → DependsOn edges a b → In b (dependencies a edges)
unfolding dependencies is_edge_of
DependsOn-dependencies [] a b d = absurd d.listed
DependsOn-dependencies (e ∷ edges) a b d = elim d.listed [
  | inl same ↦
      extended_new (is_edge_of a e) b e.target_work_item_id (dependencies a edges)
        (edge_is_of e d.edge a same d.source d.kind)
        (sym d.target ∙ ap (λ f. f.target_work_item_id) same)
  | inr old ↦ extended_old (is_edge_of a e) b e.target_work_item_id (dependencies a edges) (
      DependsOn-dependencies edges a b (record {
        edge = d.edge;
        listed = old;
        source = d.source;
        target = d.target;
        kind = d.kind;
      }))
]

In-push_all :
    (c : String) (ts pending : List String) → In c (push_all ts pending) → In c ts ⊎ In c pending
unfolding push_all
In-push_all c [] pending m = inr m
In-push_all c (t ∷ ts) pending m = elim (In-push_all c ts (t ∷ pending) m) [
  | inl l ↦ inl (inr l)
  | inr (inl e) ↦ inl (inl e)
  | inr (inr r) ↦ inr r
]

pub push_all_pending :
    (c : String) (ts pending : List String) → In c pending → In c (push_all ts pending)
unfolding push_all
push_all_pending c [] pending m = m
push_all_pending c (t ∷ ts) pending m = push_all_pending c ts (t ∷ pending) (inr m)

pub push_all_pushed : (c : String) (ts pending : List String) → In c ts → In c (push_all ts pending)
unfolding push_all
push_all_pushed c [] pending m = absurd m
push_all_pushed c (t ∷ ts) pending (inl e) = push_all_pending c ts (t ∷ pending) (inl e)
push_all_pushed c (t ∷ ts) pending (inr m) = push_all_pushed c ts (t ∷ pending) m

pub contains-In : (c : String) (xs : List String) → contains c xs ≡ true → In c xs
contains-In c [] h = absurd (cc)
contains-In c (x ∷ xs) h = elim (Bool-cases (c == x)) [
  | inl same ↦ inl ((eq_iff c x).0 same)
  | inr other ↦ inr (contains-In c xs (ground arith))
]

-- An answer "found" comes with a path from a pending WorkItem to the goal.
pub search_from_sound :
    (fuel : ℕ) (goal : String) (edges : List WorkEdge) (pending visited : List String)
    → search_from fuel goal edges pending visited ≡ some true
    → (c : String) × In c pending × LeadsTo edges goal c
unfolding search_from
search_from_sound zero goal edges pending visited h = absurd (cc)
search_from_sound (suc fuel) goal edges [] visited h = absurd (cc)
search_from_sound (suc fuel) goal edges (current ∷ pending) visited h =
    elim (Bool-cases (current == goal)) [
      | inl found ↦
          (current, inl refl, subst (LeadsTo edges goal) (sym ((eq_iff current goal).0 found)) here)
      | inr other ↦ elim (Bool-cases (contains current visited)) [
        | inl old ↦
            let (c, m, p) = search_from_sound fuel goal edges pending visited (ground arith) in
            (c, inr m, p)
        | inr new ↦
            let (c, m, p) =
              search_from_sound fuel goal edges (push_all (dependencies current edges) pending)
                (current ∷ visited) (ground arith) in
            elim (In-push_all c (dependencies current edges) pending m) [
              | inl pushed ↦
                  (current, inl refl, step (dependencies-DependsOn edges current c pushed) p)
              | inr waiting ↦ (c, inr waiting, p)
            ]
      ]
    ]
