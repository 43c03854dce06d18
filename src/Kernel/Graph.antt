-- ===== src/Kernel/Graph.antt =====
-- vsm/kernel/service.py: the search of `add_dependency` for a cycle. The list `pending` has its last
-- element first here, so `pop` takes the head, and `extend` pushes the targets one by one.
pub mod Fuel
pub mod Paths
pub mod Cycles
use nanihold_os.Prelude.{
  ℕ, zero, suc, ◌+◌, String, Bool, true, false, ◌&&◌, Option, none, some, List, [], ◌∷◌, ◌==◌,
  length, contains, if◌then◌else◌,
}
use nanihold_os.Models.Work.{WorkEdge, is_depends_on}

-- The targets of the DEPENDS_ON edges from a WorkItem, in order.
unfoldable pub dependencies : String → List WorkEdge → List String
dependencies current [] = []
dependencies current (e ∷ edges) =
    let rest = dependencies current edges in
    if e.source_work_item_id == current && is_depends_on e.kind
    then e.target_work_item_id ∷ rest
    else rest

-- `pending.extend(targets)`
unfoldable pub push_all : List String → List String → List String
push_all [] pending = pending
push_all (t ∷ targets) pending = push_all targets (t ∷ pending)

-- The loop `while pending`: whether it meets `goal`. `none` means that the fuel ran out.
unfoldable pub search_from : ℕ → String → List WorkEdge → List String → List String → Option Bool
search_from zero goal edges pending visited = none
search_from (suc fuel) goal edges [] visited = some false
search_from (suc fuel) goal edges (current ∷ pending) visited =
    let skip = search_from fuel goal edges pending visited in
    let expand =
      search_from fuel goal edges (push_all (dependencies current edges) pending)
        (current ∷ visited) in
    if current == goal then some true else if contains current visited then skip else expand

-- Each edge is pushed at most once, so the loop makes at most one round for each edge, one for the
-- first element and one that finds the list empty.
unfoldable pub would_cycle : List WorkEdge → String → String → Option Bool
unfolding search_from
would_cycle edges work_item_id depends_on_id =
    search_from (length edges + 2) work_item_id edges (depends_on_id ∷ []) []
