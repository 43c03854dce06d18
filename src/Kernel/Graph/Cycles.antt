-- ===== src/Kernel/Graph/Cycles.antt =====
-- vsm/kernel/service.py: the answer of the search for a cycle, and the paths of DEPENDS_ON edges.
use mathlib.Core.Path.{subst}
use nanihold_os.Prelude.{
  ℕ, zero, suc, ◌+◌, String, ◌≡◌, ◌↔◌, refl, sym, Bool, true, false, some, List, [], ◌∷◌, ◌⊎◌, inl,
  inr, arith, ◌==◌, eq_iff, length, contains, Bool-cases, In,
}
use nanihold_os.Models.Work.{WorkEdge}
use nanihold_os.Kernel.Graph.{dependencies, push_all, search_from, would_cycle}
use nanihold_os.Kernel.Graph.Fuel.{would_cycle_total}
use nanihold_os.Kernel.Graph.Paths.{
  DependsOn, LeadsTo, DependsOn-dependencies, push_all_pending, push_all_pushed, contains-In,
  search_from_sound, here, step,
}

-- A set of WorkItems without the goal that no DEPENDS_ON edge leaves.
record IsClosed (goal : String) (edges : List WorkEdge) (set : List String) : Type 0 where
  without_goal : ¬ (In goal set)
  closed : (a b : String) → In a set → DependsOn edges a b → In b set

-- What the loop keeps: no visited WorkItem is the goal, and their dependencies are visited or wait.
record IsFrontier (goal : String) (edges : List WorkEdge) (pending visited : List String)
    : Type 0 where
  without_goal : ¬ (In goal visited)
  covered : (a b : String) → In a visited → DependsOn edges a b → In b visited ⊎ In b pending

skip-IsFrontier :
    (goal : String) (edges : List WorkEdge) (current : String) (pending visited : List String)
    → In current visited
    → IsFrontier goal edges (current ∷ pending) visited
    → IsFrontier goal edges pending visited
skip-IsFrontier goal edges current pending visited old f = record {
  without_goal = f.without_goal;
  covered = λ a b m d. elim (f.covered a b m d) [
    | inl v ↦ inl v
    | inr (inl e) ↦ inl (subst (λ x. In x visited) (sym e) old)
    | inr (inr p) ↦ inr p
  ];
}

expand-IsFrontier :
    (goal : String) (edges : List WorkEdge) (current : String) (pending visited : List String)
    → (current == goal) ≡ false
    → IsFrontier goal edges (current ∷ pending) visited
    → IsFrontier goal edges (push_all (dependencies current edges) pending) (current ∷ visited)
expand-IsFrontier goal edges current pending visited other f = record {
  without_goal = λ m. elim m [
    | inl e ↦ cc (other, (eq_iff current goal).1 (sym e))
    | inr v ↦ f.without_goal v
  ];
  covered = λ a b m d. elim m [
    | inl e ↦ inr (
        push_all_pushed b (dependencies current edges) pending
          (DependsOn-dependencies edges current b (subst (λ x. DependsOn edges x b) e d)))
    | inr v ↦ elim (f.covered a b v d) [
      | inl w ↦ inl (inr w)
      | inr (inl e) ↦ inl (inl e)
      | inr (inr p) ↦ inr (push_all_pending b (dependencies current edges) pending p)
    ]
  ];
}

search_from_complete :
    (fuel : ℕ) (goal : String) (edges : List WorkEdge) (pending visited : List String)
    → search_from fuel goal edges pending visited ≡ some false
    → IsFrontier goal edges pending visited
    → (set : List String) × IsClosed goal edges set
      × ((c : String) → In c pending ⊎ In c visited → In c set)
unfolding search_from
search_from_complete zero goal edges pending visited h f = absurd (cc)
search_from_complete (suc fuel) goal edges [] visited h f = (
  visited,
  record {
    without_goal = f.without_goal;
    closed = λ a b m d. elim (f.covered a b m d) [ inl v ↦ v | inr n ↦ absurd n ];
  },
  λ c m. elim m [ inl n ↦ absurd n | inr v ↦ v ],
)
search_from_complete (suc fuel) goal edges (current ∷ pending) visited h f =
    elim (Bool-cases (current == goal)) [
      | inl found ↦ absurd (cc (rw found at h))
      | inr other ↦ elim (Bool-cases (contains current visited)) [
        | inl old ↦
            let (set, closed, holds) =
              search_from_complete fuel goal edges pending visited (ground arith) (
                skip-IsFrontier goal edges current pending visited (contains-In current visited old)
                  f) in
            (
              set,
              closed,
              λ c m. elim m [
                | inl (inl e) ↦
                    holds c
                      (inr (subst (λ x. In x visited) (sym e) (contains-In current visited old)))
                | inl (inr p) ↦ holds c (inl p)
                | inr v ↦ holds c (inr v)
              ],
            )
        | inr new ↦
            let (set, closed, holds) =
              search_from_complete fuel goal edges (push_all (dependencies current edges) pending)
                (current ∷ visited) (ground arith)
                (expand-IsFrontier goal edges current pending visited other f) in
            (
              set,
              closed,
              λ c m. elim m [
                | inl (inl e) ↦ holds c (inr (inl e))
                | inl (inr p) ↦
                    holds c (inl (push_all_pending c (dependencies current edges) pending p))
                | inr v ↦ holds c (inr (inr v))
              ],
            )
      ]
    ]

stays_inside :
    (goal : String) (edges : List WorkEdge) (set : List String) {a : String}
    → IsClosed goal edges set
    → In a set
    → LeadsTo edges goal a
    → ⊥
stays_inside goal edges set k m here = k.without_goal m
stays_inside goal edges set k m (step d p) = stays_inside goal edges set k (k.closed _ _ m d) p

-- The search of `add_dependency` says "cycle" exactly when a path of DEPENDS_ON edges leads from the
-- WorkItem that is to be depended on to the one that is to depend on it.
pub would_cycle_iff :
    (edges : List WorkEdge) (work on : String)
    → (would_cycle edges work on ≡ some true) ↔ LeadsTo edges work on
unfolding would_cycle
would_cycle_iff edges work on = (
  λ h.
      let (c, m, p) = search_from_sound (length edges + 2) work edges (on ∷ []) [] h in
      elim m [ inl e ↦ subst (LeadsTo edges work) e p | inr n ↦ absurd n ],
  λ p. answered p (would_cycle_total edges work on),
)
  where
    refuted :
        LeadsTo edges work on
        → search_from (length edges + 2) work edges (on ∷ []) [] ≡ some false
        → ⊥
    refuted p h =
        let (set, closed, holds) =
          search_from_complete (length edges + 2) work edges (on ∷ []) [] h
            (record { without_goal = λ m. m; covered = λ a b m d. absurd m }) in
        stays_inside work edges set closed (holds on (inl (inl refl))) p

    answered :
        LeadsTo edges work on
        → (r : Bool) × (would_cycle edges work on ≡ some r)
        → search_from (length edges + 2) work edges (on ∷ []) [] ≡ some true
    answered p (true, h) = h
    answered p (false, h) = absurd (refuted p h)
