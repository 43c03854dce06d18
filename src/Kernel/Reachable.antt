-- ===== src/Kernel/Reachable.antt =====
-- vsm/kernel/service.py, vsm/activation/service.py: the states that the commands of the Kernel, its
-- promotions of notifications, imports of Work Graphs and the methods of the activation lead to, from
-- a new Kernel.
use nanihold_os.Prelude.{
  ℕ, String, ◌≡◌, refl, true, Option, none, some, List, [], ◌∷◌, ◌++◌, In, inl, inr, arith,
}
use nanihold_os.Result.{Result, ok, err, Ensures, Ensures-ok, Ensures-raise_if, Ensures-bind}
use nanihold_os.Dict.{Dict, put, Every-empty, Every-put, get-empty}
use nanihold_os.Ids.{Platform}
use nanihold_os.Models.Node.{DataSpace}
use nanihold_os.Models.Work.{WorkItem}
use nanihold_os.Models.Route.{RouteSnapshot, candidates_and_approvals_are_consistent}
use nanihold_os.Models.Naming.{AgentNotification}
use nanihold_os.Models.Event.{EventEnvelope}
use nanihold_os.Models.Payload.{Payload}
use nanihold_os.Activation.{Caller, Service}
use nanihold_os.Activation.Queries.{HistoryToolService, ReadHistoryAction, resolve}
use nanihold_os.Activation.Methods.{Method, perform}
use nanihold_os.Kernel.{Kernel, Plan, Registry, empty_registry, new_kernel}
use nanihold_os.Kernel.Commands.{Command, plan_of, execute}
use nanihold_os.Kernel.Commands.Running.{commit-keeps, run-keeps, execute-keeps}
use nanihold_os.Kernel.Import.{
  put_all, node_key, work_key, plan_import, mark_imported, import_after, import_current_work_graph,
}
use nanihold_os.Kernel.Filing.{
  IsFiled, empty-IsFiled, put_notification-Filed, put_all-Filed, plan_of-IsFiled,
}
use nanihold_os.Models.Activation.{CurrentWorkGraphSnapshot}
use nanihold_os.Kernel.Commands.Pauses.{PausesHaveReasons, paused_has_reason}
use nanihold_os.Kernel.Commands.Approvals.{EffectsAreApproved, started_is_approved}
use nanihold_os.Kernel.Commands.Publication.{OnePublished, execute-OnePublished}
use nanihold_os.Kernel.Commands.Completion.{IsGated, CompletionsAreGated, completed_is_gated}
use nanihold_os.Kernel.Commands.Acyclic.{IsAcyclic, empty-IsAcyclic, execute-IsAcyclic}
use nanihold_os.Kernel.Commands.Consent.{SnapshotsAreConsistent, snapshots_stay_valid}
use nanihold_os.Kernel.Notifications.{
  promote_agent_notification, check_promotion, promote_checked, after_create, promotion_plan,
}

pub record Sound (r : Registry) : Type 0 where
  pub pauses : PausesHaveReasons r.executions
  pub effects : EffectsAreApproved r.effect_approvals r.effect_leases
  pub published : OnePublished r.route_snapshots
  pub completions : CompletionsAreGated r.work_items
  pub acyclic : IsAcyclic r.work_edges
  pub snapshots : SnapshotsAreConsistent r.route_snapshots
  pub filed : IsFiled r

-- The activation and the ledger of the Kernel, which they share.
abbrev pub service_of : Kernel → Service
service_of k = record { activation = k.activation; ledger = k.ledger }

abbrev pub with_service : Kernel → Service → Kernel
with_service k s = record k { activation = s.activation; ledger = s.ledger }

empty-Sound : Sound empty_registry
empty-Sound = record {
  pauses = Every-empty;
  effects = Every-empty;
  published = record {
    under_id = λ id s h. absurd (cc (h, get-empty {V = RouteSnapshot} id));
    one = λ i j s t h _ _ _ _. absurd (cc (h, get-empty {V = RouteSnapshot} i));
  };
  completions = Every-empty;
  acyclic = empty-IsAcyclic;
  snapshots = Every-empty;
  filed = empty-IsFiled;
}

put_all-gated :
    (ws : List WorkItem) (d : Dict WorkItem)
    → CompletionsAreGated d
    → ((w : WorkItem) → In w ws → IsGated w)
    → CompletionsAreGated (put_all work_key ws d)
put_all-gated [] d h all = h
put_all-gated (w ∷ ws) d h all =
    put_all-gated ws (put d w.work_item_id w) (Every-put d w.work_item_id w h (all w (inl refl)))
      (λ v there. all v (inr there))

-- What `import_current_work_graph` does not test: the completed WorkItems of the Work Graph have
-- passed the gate, and no dependency of it closes a cycle.
pub record IsImportable (k : Kernel) (s : CurrentWorkGraphSnapshot) : Type 0 where
  pub gated : (w : WorkItem) → In w s.work_items → IsGated w
  pub acyclic : IsAcyclic (k.registry.work_edges ++ s.edges)

plan_import-Sound :
    (k : Kernel) (s : CurrentWorkGraphSnapshot) (digest : String) (c : Caller)
    → IsImportable k s
    → Sound k.registry
    → Ensures (λ (p : Plan). (id : String) → Sound (p.next id)) (plan_import k s digest c)
unfolding plan_import
plan_import-Sound k s digest c good h =
    let leaf : (id : String)
        → Sound (record (k.registry) {
          nodes = put_all node_key s.nodes k.registry.nodes;
          work_items = put_all work_key s.work_items k.registry.work_items;
          work_edges = k.registry.work_edges ++ s.edges;
        }) =
      λ id. record {
        pauses = h.pauses;
        effects = h.effects;
        published = h.published;
        completions = put_all-gated s.work_items k.registry.work_items h.completions good.gated;
        acyclic = good.acyclic;
        snapshots = h.snapshots;
        filed = put_all-Filed s.work_items h.filed;
      } in
    search (Ensures-ok, Ensures-raise_if, Ensures-bind, leaf) depth 40 fits 100000

module _ (dump : EventEnvelope Payload → String) (platform : Platform)
    (digest : CurrentWorkGraphSnapshot → String) where
  command-Sound :
      (now : ℕ) (command : Command) (c : Caller) (k : Kernel)
      → ((s : RouteSnapshot)
          → command ≡ Command.register_route_snapshot s
          → candidates_and_approvals_are_consistent s ≡ true)
      → Sound k.registry
      → Sound (execute dump platform now command c k).1.registry
  command-Sound now command c k valid h = record {
    pauses = paused_has_reason dump platform now command c k h.pauses;
    effects = started_is_approved dump platform now command c k h.effects;
    published = execute-OnePublished dump platform now command c k h.published;
    completions = completed_is_gated dump platform now command c k h.completions;
    acyclic = execute-IsAcyclic dump platform now command c k h.acyclic;
    snapshots = snapshots_stay_valid dump platform now command c k h.snapshots valid;
    filed =
        execute-keeps dump platform IsFiled now command c k h.filed
          (plan_of-IsFiled k h.filed c command);
  }

  -- A promotion writes nothing but the notifications after the WorkItem is created.
  promotion_plan-Sound :
      (k : Kernel) (n : AgentNotification) (id : String) (w : WorkItem) (c : Caller)
      → n.notification_id ≡ id
      → Sound k.registry
      → (event_id : String) → Sound ((promotion_plan k n id w c).next event_id)
  promotion_plan-Sound k n id w c own h event_id = record {
    pauses = h.pauses;
    effects = h.effects;
    published = h.published;
    completions = h.completions;
    acyclic = h.acyclic;
    snapshots = h.snapshots;
    filed = put_notification-Filed h.filed id _ own;
  }

  after_create-Sound :
      (n : AgentNotification) (id : String) (w : WorkItem) (c : Caller) (now : ℕ)
      (x : Result (EventEnvelope Payload) × Kernel)
      → n.notification_id ≡ id
      → Sound x.1.registry
      → Sound (after_create dump platform n id w c now x).1.registry
  after_create-Sound n id w c now (err e, k) own h = h
  after_create-Sound n id w c now (ok _, k) own h =
      commit-keeps dump platform Sound now (promotion_plan k n id w c) k h
        (promotion_plan-Sound k n id w c own h)

  promoted_own :
      (k : Kernel) (id : String) (w : WorkItem) (n : AgentNotification)
      → IsFiled k.registry
      → check_promotion k id w ≡ ok n
      → n.notification_id ≡ id
  unfolding check_promotion
  promoted_own k id w n h p = h.notifications_under_id id n (ground arith)

  checked-Sound :
      (r : Result AgentNotification) (id : String) (w : WorkItem) (c : Caller) (now later : ℕ)
      (k : Kernel)
      → ((n : AgentNotification) → r ≡ ok n → n.notification_id ≡ id)
      → Sound k.registry
      → Sound (promote_checked dump platform r id w c now later k).1.registry
  unfolding execute plan_of
  checked-Sound (err e) id w c now later k own h = h
  checked-Sound (ok n) id w c now later k own h =
      after_create-Sound n id w c later _ (own n refl)
        (command-Sound now (Command.create_work_item w) _ k (λ s p. absurd (cc)) h)

  promotion-Sound :
      (id : String) (w : WorkItem) (c : Caller) (now later : ℕ) (k : Kernel)
      → Sound k.registry
      → Sound (promote_agent_notification dump platform id w c now later k).1.registry
  unfolding promote_agent_notification
  promotion-Sound id w c now later k h =
      checked-Sound (check_promotion k id w) id w c now later k
        (λ n p. promoted_own k id w n h.filed p) h

  mark_imported-Sound :
      (id : String) (x : Result (EventEnvelope Payload) × Kernel)
      → Sound x.1.registry
      → Sound (mark_imported dump platform digest id x).1.registry
  mark_imported-Sound id (err e, k) h = h
  mark_imported-Sound id (ok _, k) h = h

  import_after-Sound :
      (before : Option String) (s : CurrentWorkGraphSnapshot) (c : Caller) (now : ℕ) (k : Kernel)
      → IsImportable k s
      → Sound k.registry
      → Sound (import_after dump platform digest before s c now k).1.registry
  import_after-Sound (some id) s c now k good h = h
  import_after-Sound none s c now k good h =
      mark_imported-Sound s.snapshot_id _
        (run-keeps dump platform Sound now _ k h (plan_import-Sound k s (digest s) c good h))

  import-Sound :
      (s : CurrentWorkGraphSnapshot) (c : Caller) (now : ℕ) (k : Kernel)
      → IsImportable k s
      → Sound k.registry
      → Sound (import_current_work_graph dump platform digest s c now k).1.registry
  unfolding import_current_work_graph
  import-Sound s c now k = import_after-Sound k.activation.work_graph_snapshot_id s c now k

-- A history tool, the JSON of its results, and their digest.
module _ (dump : EventEnvelope Payload → String) (platform : Platform) (decimal : ℕ → String)
    (digest : CurrentWorkGraphSnapshot → String) {J : Type 0} (tools : HistoryToolService J)
    (encode : J → List ℕ) (hash : List ℕ → String) where
  -- One step: a command, whose snapshot the models validate if it registers one; a promotion; an
  -- import of a Work Graph; a method of the activation, or
  -- an audited query of the history, over the ledger of the Kernel.
  pub data Reachable : Kernel → Type 0 where
    new :
        (after_colon : String → String) (space : DataSpace) (audit control : String) (k : Kernel)
        → new_kernel after_colon space audit control ≡ ok k
        → Reachable k
    commanded :
        (k : Kernel) (now : ℕ) (command : Command) (c : Caller)
        → ((s : RouteSnapshot)
            → command ≡ Command.register_route_snapshot s
            → candidates_and_approvals_are_consistent s ≡ true)
        → Reachable k
        → Reachable (execute dump platform now command c k).1
    promoted :
        (k : Kernel) (id : String) (w : WorkItem) (c : Caller) (now later : ℕ)
        → Reachable k
        → Reachable (promote_agent_notification dump platform id w c now later k).1
    imported :
        (k : Kernel) (s : CurrentWorkGraphSnapshot) (c : Caller) (now : ℕ)
        → IsImportable k s
        → Reachable k
        → Reachable (import_current_work_graph dump platform digest s c now k).1
    activated :
        (k : Kernel) (now : ℕ) (method : Method) (c : Caller)
        → Reachable k
        → Reachable (with_service k (perform dump platform decimal now method c (service_of k)).1)
    queried :
        (k : Kernel) (now : ℕ) (action : ReadHistoryAction) (c : Caller)
        → Reachable k
        → Reachable
            (with_service k (resolve tools encode hash dump platform now action c (service_of k)).1)

  new-Sound :
      (after_colon : String → String) (space : DataSpace) (audit control : String) (k : Kernel)
      → new_kernel after_colon space audit control ≡ ok k
      → Sound k.registry
  new-Sound after_colon space audit control k h =
      let start : Ensures (λ (k : Kernel). Sound k.registry)
          (new_kernel after_colon space audit control) =
        search (Ensures-ok, Ensures-raise_if, empty-Sound) depth 8 in
      start.at k h

  -- In every Kernel that commands, promotions, imports of Work Graphs, methods of the activation and
  -- queries of the history lead to from a new one, when each RouteSnapshot that is registered passes
  -- its validator, and each imported Work Graph has only gated completions and closes no cycle: a
  -- paused Execution has a reason, an effect that has started has an approval, at most one
  -- RouteSnapshot of a route is published, a completed WorkItem has passed the gate and has no
  -- blocking finding, the dependencies form no cycle, the RouteSnapshots pass their validator,
  -- WorkItems, notifications and assignments stand under their own ids, and every finding is of a
  -- WorkItem that exists.
  pub Reachable-Sound : (k : Kernel) → Reachable k → Sound k.registry
  Reachable-Sound k (new f space audit control _ h) = new-Sound f space audit control k h
  Reachable-Sound _ (commanded k now command c valid r) =
      command-Sound dump platform digest now command c k valid (Reachable-Sound k r)
  Reachable-Sound _ (promoted k id w c now later r) =
      promotion-Sound dump platform digest id w c now later k (Reachable-Sound k r)
  Reachable-Sound _ (imported k s c now good r) =
      import-Sound dump platform digest s c now k good (Reachable-Sound k r)
  Reachable-Sound _ (activated k now method c r) = Reachable-Sound k r
  Reachable-Sound _ (queried k now action c r) = Reachable-Sound k r
