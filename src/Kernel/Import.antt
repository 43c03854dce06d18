-- ===== src/Kernel/Import.antt =====
-- vsm/kernel/service.py: `import_current_work_graph`. `calculated_sha256` is the digest of the
-- snapshot's canonical JSON.
use nanihold_os.Prelude.{
  ℕ, String, Bool, true, false, not, ◌||◌, Option, none, some, List, [], ◌∷◌, ◌++◌, ◌==◌, any,
  decides,
}
use nanihold_os.Result.{Result, ok, err, key_error, invariant_violation, ◌>>=◌, ◌>>◌, raise_if}
use nanihold_os.Dict.{Dict, empty, get, put, member}
use nanihold_os.Ids.{Platform}
use nanihold_os.Models.Node.{UvsmNode, UvsmNode-discrete}
use nanihold_os.Models.Work.{WorkItem, WorkEdge}
use nanihold_os.Models.Event.{EventEnvelope, StoredEvent, human}
use nanihold_os.Models.Payload.{Payload}
use nanihold_os.Models.Activation.{
  CurrentWorkGraphSnapshot, CurrentWorkGraphSnapshot-discrete, is_uncommissioned,
}
use nanihold_os.Ledger.{stream}
use nanihold_os.Activation.{Caller}
use nanihold_os.Kernel.{Kernel, Plan, draft_of, run}

-- `d.update({key(x): x for x in xs})`
abbrev pub put_all {ℓ} : {V : Type ℓ} → (V → String) → List V → Dict V → Dict V
put_all key [] d = d
put_all key (x ∷ xs) d = put_all key xs (put d (key x) x)

abbrev pub node_key : UvsmNode → String
node_key n = n.node_id

abbrev pub work_key : WorkItem → String
work_key w = w.work_item_id

abbrev stored_snapshot : Payload → Result CurrentWorkGraphSnapshot
stored_snapshot (Payload.current_work_graph_imported s) = ok s
stored_snapshot _ = err (key_error "snapshot")

-- A repeated import: the event of the first one, if the snapshot is the same.
abbrev check_repeated :
    CurrentWorkGraphSnapshot → List (StoredEvent Payload) → Result (EventEnvelope Payload)
check_repeated snapshot [] =
    err (invariant_violation "imported Work Graph event cannot be reconciled")
check_repeated snapshot (e ∷ _) = do
  stored ← stored_snapshot e.event.payload
  raise_if (not (decides (CurrentWorkGraphSnapshot-discrete stored snapshot)))
      "Work Graph snapshot identity collision"
  ok e.event

abbrev repeated : Kernel → CurrentWorkGraphSnapshot → String → Result (EventEnvelope Payload)
repeated k snapshot imported_id = do
  raise_if (not (imported_id == snapshot.snapshot_id)) "current Work Graph was already imported"
  events ← stream snapshot.snapshot_id 0 1 k.ledger
  check_repeated snapshot events

abbrev differs : Option UvsmNode → UvsmNode → Bool
differs none n = false
differs (some m) n = not (decides (UvsmNode-discrete m n))

module _ (k : Kernel) (snapshot : CurrentWorkGraphSnapshot) where
  -- `{item.work_item_id: item for item in snapshot.work_items}`
  abbrev imported_work : Dict WorkItem
  imported_work = put_all work_key snapshot.work_items empty

  abbrev has_node : String → Bool
  has_node id = member (put_all node_key snapshot.nodes empty) id || member k.registry.nodes id

  abbrev has_parent : Option String → Bool
  has_parent none = true
  has_parent (some id) = member imported_work id

  abbrev check_work : List WorkItem → Result (Unit {0})
  check_work [] = ok tt
  check_work (w ∷ rest) = do
    raise_if (not (w.data_space_id == k.data_space.data_space_id))
        "Work Graph snapshot WorkItem DataSpace mismatch"
    raise_if
        (not (has_node w.owner_node_id)
          || not (has_node w.delegated_to_node_id)
          || not (has_node w.integration_owner_node_id))
        "Work Graph snapshot WorkItem references an unknown Node"
    raise_if (not (has_parent w.parent_work_item_id))
        "Work Graph snapshot WorkItem parent is missing"
    check_work rest

  -- The tests of an import that is not a repeated one.
  unfoldable pub plan_import : String → Caller → Result Plan
  plan_import calculated_sha256 caller = do
    raise_if (not (is_uncommissioned k.activation.state))
        "current Work Graph import requires uncommissioned state"
    raise_if (not (snapshot.data_space_id == k.data_space.data_space_id))
        "Work Graph snapshot DataSpace mismatch"
    raise_if (not (calculated_sha256 == snapshot.snapshot_sha256))
        "Work Graph snapshot digest mismatch"
    raise_if
        (any (λ (n : UvsmNode). not (n.data_space_id == k.data_space.data_space_id)) snapshot.nodes)
        "Work Graph snapshot Node DataSpace mismatch"
    raise_if (any (λ (n : UvsmNode). differs (get k.registry.nodes n.node_id) n) snapshot.nodes)
        "Work Graph snapshot Node identity collision"
    raise_if
        (any (λ (w : WorkItem). member k.registry.work_items w.work_item_id) snapshot.work_items)
        "Work Graph snapshot WorkItem identity collision"
    check_work snapshot.work_items
    raise_if
        (any
          (λ (e : WorkEdge).
            not (member imported_work e.source_work_item_id)
            || not (member imported_work e.target_work_item_id))
          snapshot.edges)
        "Work Graph snapshot edge references an unknown WorkItem"
    ok (record {
      draft =
          draft_of human snapshot.snapshot_id "current_work_graph_imported"
            (Payload.current_work_graph_imported snapshot) caller snapshot.snapshot_id;
      next = λ _. record (k.registry) {
        nodes = put_all node_key snapshot.nodes k.registry.nodes;
        work_items = put_all work_key snapshot.work_items k.registry.work_items;
        work_edges = k.registry.work_edges ++ snapshot.edges;
      };
      raises = none;
    })

module _ (dump : EventEnvelope Payload → String) (platform : Platform)
    (calculated_sha256 : CurrentWorkGraphSnapshot → String) where
  -- `self.activation.work_graph_snapshot_id = snapshot.snapshot_id`
  abbrev pub mark_imported :
      String → Result (EventEnvelope Payload) × Kernel → Result (EventEnvelope Payload) × Kernel
  mark_imported snapshot_id (err e, k) = (err e, k)
  mark_imported snapshot_id (ok event, k) = (
    ok event,
    record k { activation = record (k.activation) { work_graph_snapshot_id = some snapshot_id } },
  )

  abbrev pub import_after :
      Option String
      → CurrentWorkGraphSnapshot
      → Caller
      → ℕ
      → Kernel
      → Result (EventEnvelope Payload) × Kernel
  import_after (some imported_id) snapshot caller now k = (repeated k snapshot imported_id, k)
  import_after none snapshot caller now k =
      mark_imported snapshot.snapshot_id
        (run dump platform now (plan_import k snapshot (calculated_sha256 snapshot) caller) k)

  unfoldable pub import_current_work_graph :
      CurrentWorkGraphSnapshot → Caller → ℕ → Kernel → Result (EventEnvelope Payload) × Kernel
  import_current_work_graph snapshot caller now k =
      import_after k.activation.work_graph_snapshot_id snapshot caller now k
