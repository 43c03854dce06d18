-- ===== src/Kernel/Graph/Fuel.antt =====
-- vsm/kernel/service.py: the fuel of the search for a cycle.
use nanihold_os.Prelude.{
  ℕ, zero, suc, ◌+◌, ◌≤◌, ◌<◌, String, ◌≡◌, refl, Bool, true, false, some, List, [], ◌∷◌, inl, inr,
  arith, ◌==◌, eq_iff, length, contains, if◌then◌else◌, Bool-cases,
}
use nanihold_os.Models.Work.{WorkEdge, is_depends_on}
use nanihold_os.Kernel.Graph.{dependencies, push_all, search_from, would_cycle}

length-push_all :
    (ts pending : List String) → length (push_all ts pending) ≡ length ts + length pending
unfolding push_all
length-push_all [] pending = omega arith
length-push_all (t ∷ ts) pending = omega (arith, length-push_all ts (t ∷ pending))

-- The DEPENDS_ON edges whose source is not visited yet.
open_edges : List WorkEdge → List String → ℕ
open_edges [] visited = 0
open_edges (e ∷ edges) visited =
    let rest = open_edges edges visited in
    if contains e.source_work_item_id visited
    then rest
    else if is_depends_on e.kind
    then rest + 1
    else rest

open_edges-le-length :
    (edges : List WorkEdge) (visited : List String) → open_edges edges visited ≤ length edges
unfolding open_edges
open_edges-le-length [] visited = omega arith
open_edges-le-length (e ∷ edges) visited = ground (arith, open_edges-le-length edges visited)

-- To visit a new WorkItem closes exactly the edges that it pushes.
open_edges-visit :
    (edges : List WorkEdge) (current : String) (visited : List String)
    → contains current visited ≡ false
    → open_edges edges (current ∷ visited) + length (dependencies current edges)
      ≡ open_edges edges visited
unfolding open_edges dependencies
open_edges-visit [] current visited h = omega arith
open_edges-visit (e ∷ edges) current visited h =
    ground (arith, open_edges-visit edges current visited h, eq_iff e.source_work_item_id current)

search_from_total :
    (fuel : ℕ) (goal : String) (edges : List WorkEdge) (pending visited : List String)
    → length pending + open_edges edges visited < fuel
    → (r : Bool) × (search_from fuel goal edges pending visited ≡ some r)
unfolding search_from
search_from_total zero goal edges pending visited h = absurd (omega arith)
search_from_total (suc fuel) goal edges [] visited h = (false, refl)
search_from_total (suc fuel) goal edges (current ∷ pending) visited h =
    elim (Bool-cases (current == goal)) [
      | inl found ↦ (true, rw found)
      | inr other ↦ elim (Bool-cases (contains current visited)) [
        | inl old ↦
            rw other (rw old (search_from_total fuel goal edges pending visited (omega arith)))
        | inr new ↦ rw other (
            rw new (
              search_from_total fuel goal edges (push_all (dependencies current edges) pending)
                (current ∷ visited)
                (omega (
                  arith,
                  length-push_all (dependencies current edges) pending,
                  open_edges-visit edges current visited new,
                ))))
      ]
    ]

-- The search for a cycle always answers: one round for each edge and two more are enough.
pub would_cycle_total :
    (edges : List WorkEdge) (work on : String) → (r : Bool) × (would_cycle edges work on ≡ some r)
unfolding would_cycle
would_cycle_total edges work on =
    search_from_total (length edges + 2) work edges (on ∷ []) []
      (omega (arith, open_edges-le-length edges []))
