-- ===== src/Projection/Steps.antt =====
-- vsm/kernel/service.py, vsm/activation/service.py, vsm/projection.py: the replay of the ledger beside
-- one command, promotion, import of a Work Graph or method of the activation.
use mathlib.Core.Path.{subst}
use nanihold_os.Prelude.{
  ℕ, String, ◌≡◌, ◌≢◌, refl, sym, ap, ◌∙◌, true, false, Option, none, some, arith, is_some, concat,
}
use nanihold_os.Result.{Result, ok, err, Ensures, Ensures-ok, Ensures-raise_if, Ensures-bind}
use nanihold_os.Dict.{get, put, member, get-put_self}
use nanihold_os.Ids.{Platform}
use nanihold_os.Models.Work.{WorkItem}
use nanihold_os.Models.Naming.{AgentNotification}
use nanihold_os.Models.Activation.{CurrentWorkGraphSnapshot}
use nanihold_os.Models.Event.{EventEnvelope}
use nanihold_os.Models.Payload.{Payload}
use nanihold_os.Ledger.Place.{TellsPlace}
use nanihold_os.Activation.{Caller, Service, Move}
use nanihold_os.Activation.Methods.{Method, perform, move_of}
use nanihold_os.Activation.Recording.{Made, unmoved, moved, make-Made}
use nanihold_os.Kernel.{Kernel, Plan, envelope, run}
use nanihold_os.Kernel.Commands.{Command, plan_of, execute}
use nanihold_os.Kernel.Work.{create_work_item}
use nanihold_os.Kernel.Notifications.{
  promote_agent_notification, check_promotion, promote_checked, after_create, promotion_plan,
}
use nanihold_os.Kernel.Import.{plan_import, import_after, mark_imported}
use nanihold_os.Kernel.Recording.{IsElsewhere, Ran, raised, returned, raised_late, run-Ran}
use nanihold_os.Kernel.Reachable.{service_of, with_service}
use nanihold_os.Kernel.Filing.{put_notification-Filed}
use nanihold_os.Projection.Kinds.{promotion_plan-IsCommandEvent}
use nanihold_os.Projection.Replay.{promotion-Replays}
use nanihold_os.Projection.Moves.{IsReplayed, move_of-IsReplayed}
use nanihold_os.Projection.Tracking.{Tracked, registry_event-Tracked, milestone-Tracked}
use nanihold_os.Projection.Plans.{IsTracked, command-IsTracked, import-IsTracked}

module _ (dump : EventEnvelope Payload → String) (platform : Platform) (tells : TellsPlace dump)
    (start : Kernel) where
  Ran-Tracked :
      (now : ℕ) (r : Result Plan) (k : Kernel) (x : Result (EventEnvelope Payload) × Kernel)
      → Tracked start k
      → IsElsewhere dump platform tells k r
      → ((p : Plan) → r ≡ ok p → IsTracked k k.activation.work_graph_snapshot_id p)
      → Ran dump platform tells now r k x
      → Tracked start x.1
  Ran-Tracked now r k _ h other fine (raised e) = h
  Ran-Tracked now (ok q) k _ h other fine (returned p id planned next quiet) =
      let same : p ≡ q = cc in
      let t = fine p planned in
      registry_event-Tracked dump platform tells start k h p.draft now id (p.next id)
        k.activation.work_graph_snapshot_id next (rw same other) t.kind (t.replays now id)
        (t.filed id) t.marks
  Ran-Tracked now r k _ h other fine (raised_late p id e planned next late) =
      absurd (cc ((fine p planned).quiet, late))
  Ran-Tracked now (err e) k _ h other fine (returned p id planned next quiet) = absurd (cc)

  run-Tracked :
      (now : ℕ) (r : Result Plan) (k : Kernel)
      → Tracked start k
      → IsElsewhere dump platform tells k r
      → ((p : Plan) → r ≡ ok p → IsTracked k k.activation.work_graph_snapshot_id p)
      → Tracked start (run dump platform now r k).1
  run-Tracked now r k h other fine =
      Ran-Tracked now r k _ h other fine (run-Ran dump platform tells now r k h.in_step other)

  pub command-Tracked :
      (now : ℕ) (command : Command) (c : Caller) (k : Kernel)
      → Tracked start k
      → IsElsewhere dump platform tells k (plan_of k command c)
      → Tracked start (execute dump platform now command c k).1
  unfolding execute
  command-Tracked now command c k h other =
      run-Tracked now (plan_of k command c) k h other
        (λ p q. command-IsTracked k command c p h.filed q)

  -- An import, from what its tests return to its return.
  Ran-imported :
      (now : ℕ) (r : Result Plan) (k : Kernel) (id : String)
      (digest : CurrentWorkGraphSnapshot → String) (x : Result (EventEnvelope Payload) × Kernel)
      → Tracked start k
      → IsElsewhere dump platform tells k r
      → ((p : Plan) → r ≡ ok p → IsTracked k (some id) p)
      → Ran dump platform tells now r k x
      → Tracked start (mark_imported dump platform digest id x).1
  Ran-imported now r k id digest _ h other fine (raised e) = h
  Ran-imported now (ok q) k id digest _ h other fine (returned p event_id planned next quiet) =
      let same : p ≡ q = cc in
      let t = fine p planned in
      registry_event-Tracked dump platform tells start k h p.draft now event_id (p.next event_id)
        (some id) next (rw same other) t.kind (t.replays now event_id) (t.filed event_id) t.marks
  Ran-imported now r k id digest _ h other fine (raised_late p _ e planned next late) =
      absurd (cc ((fine p planned).quiet, late))
  Ran-imported now (err e) k id digest _ h other fine (returned p event_id planned next quiet) =
      absurd (cc)

  pub import_after-Tracked :
      (digest : CurrentWorkGraphSnapshot → String) (before : Option String)
      (s : CurrentWorkGraphSnapshot) (c : Caller) (now : ℕ) (k : Kernel)
      → Tracked start k
      → IsElsewhere dump platform tells k (plan_import k s (digest s) c)
      → Tracked start (import_after dump platform digest before s c now k).1
  import_after-Tracked digest (some id) s c now k h other = h
  import_after-Tracked digest none s c now k h other =
      Ran-imported now _ k s.snapshot_id digest _ h other
        (λ p q. import-IsTracked k s (digest s) c p h.filed q)
        (run-Ran dump platform tells now (plan_import k s (digest s) c) k h.in_step other)

  -- A method of the activation.
  pub Made-Tracked :
      (now : ℕ) (r : Result (Option Move)) (k : Kernel) (x : Result (Unit {0}) × Service)
      → Tracked start k
      → ((m : Move) → r ≡ ok (some m) → IsReplayed k.activation m)
      → Made dump platform tells now r (service_of k) x
      → Tracked start (with_service k x.1)
  Made-Tracked now r k _ h fine (unmoved answer) = h
  Made-Tracked now r k _ h fine (moved m id planned next) =
      milestone-Tracked dump platform tells start k h m now id next (fine m planned)

  pub method-Tracked :
      (decimal : ℕ → String) (now : ℕ) (method : Method) (c : Caller) (k : Kernel)
      → Tracked start k
      → Tracked start (with_service k (perform dump platform decimal now method c (service_of k)).1)
  unfolding perform
  method-Tracked decimal now method c k h =
      Made-Tracked now _ k _ h (λ m q. move_of-IsReplayed k.activation c decimal method m h.idle q)
        (make-Made dump platform tells now (service_of k) h.in_step.ledger h.in_step.activation
          (move_of decimal k.activation method c))

  -- A promotion. The WorkItem that it creates is there before the second event.
  after_create-Tracked :
      (n : AgentNotification) (x : String) (w : WorkItem) (c : Caller) (later : ℕ)
      (y : Result (EventEnvelope Payload) × Kernel)
      → Tracked start y.1
      → get y.1.registry.agent_notifications x ≡ some n
      → n.requires_work_item ≡ true
      → is_some n.promoted_work_item_id ≡ false
      → ((e : EventEnvelope Payload)
          → y.0 ≡ ok e
          → member y.1.registry.work_items w.work_item_id ≡ true)
      → x ≢ y.1.activation.stream_id
      → Tracked start (after_create dump platform n x w c later y).1
  unfolding run
  after_create-Tracked n x w c later (err e, k) h found required unpromoted there other = h
  after_create-Tracked n x w c later (ok e, k) h found required unpromoted there other =
      let own : n.notification_id ≡ x = h.filed.notifications_under_id x n found in
      let event = promotion_plan-IsCommandEvent k n x w c in
      let tracked : IsTracked k k.activation.work_graph_snapshot_id (promotion_plan k n x w c) =
        record {
          kind = event.kind;
          replays = promotion-Replays k n x w c h.filed found required unpromoted (there e refl);
          filed = λ id. put_notification-Filed h.filed x _ own;
          quiet = refl;
          marks = event.unmarked k.activation;
        } in
      run-Tracked later (ok (promotion_plan k n x w c)) k h (λ q. other (sym own ∙ q))
        (λ p q. subst (IsTracked k k.activation.work_graph_snapshot_id) (cc) tracked)

  create-facts :
      (k : Kernel) (w : WorkItem) (c : Caller)
      → Ensures
          (λ (p : Plan).
            (p.draft.stream_id ≡ w.work_item_id)
            × ((id : String) → (p.next id).agent_notifications ≡ k.registry.agent_notifications)
            × ((id : String) → get (p.next id).work_items w.work_item_id ≡ some w))
          (create_work_item k w c)
  unfolding create_work_item
  create-facts k w c =
      let leaf : (w.work_item_id ≡ w.work_item_id)
          × ((id : String) → k.registry.agent_notifications ≡ k.registry.agent_notifications)
          × ((id : String)
              → get (put k.registry.work_items w.work_item_id w) w.work_item_id ≡ some w) =
        (refl, λ id. refl, λ id. get-put_self k.registry.work_items w.work_item_id w) in
      search (Ensures-ok, Ensures-raise_if, Ensures-bind, leaf) depth 24

  create-IsElsewhere :
      (k : Kernel) (w : WorkItem) (r : Result Plan)
      → ((p : Plan) → r ≡ ok p → p.draft.stream_id ≡ w.work_item_id)
      → w.work_item_id ≢ k.activation.stream_id
      → IsElsewhere dump platform tells k r
  create-IsElsewhere k w (err e) h other = tt
  create-IsElsewhere k w (ok p) h other = λ q. other (sym (h p refl) ∙ q)

  Ran-promoted :
      (n : AgentNotification) (x : String) (w : WorkItem) (c creator : Caller) (now later : ℕ)
      (k : Kernel) (y : Result (EventEnvelope Payload) × Kernel)
      → get k.registry.agent_notifications x ≡ some n
      → n.requires_work_item ≡ true
      → is_some n.promoted_work_item_id ≡ false
      → x ≢ k.activation.stream_id
      → Tracked start y.1
      → Ran dump platform tells now (create_work_item k w creator) k y
      → Tracked start (after_create dump platform n x w c later y).1
  Ran-promoted n x w c creator now later k _ found required unpromoted other h (raised e) = h
  Ran-promoted n x w c creator now later k _ found required unpromoted other h
        (raised_late p id e planned next late) =
      h
  Ran-promoted n x w c creator now later k _ found required unpromoted other h
        (returned p id planned next quiet) =
      let (_, notifications, works) = (create-facts k w creator).at p planned in
      after_create-Tracked n x w c later (ok (envelope k p.draft now id), _) h
        (ap (λ d. get d x) (notifications id) ∙ found) required unpromoted
        (λ e q. ap is_some (works id)) other

  promote-facts :
      (k : Kernel) (x : String) (w : WorkItem) (n : AgentNotification)
      → check_promotion k x w ≡ ok n
      → (get k.registry.agent_notifications x ≡ some n)
        × (n.requires_work_item ≡ true)
        × (is_some n.promoted_work_item_id ≡ false)
  unfolding check_promotion
  promote-facts k x w n h = (ground arith, ground arith, ground arith)

  pub promotion-Tracked :
      (x : String) (w : WorkItem) (c : Caller) (now later : ℕ) (k : Kernel)
      → Tracked start k
      → w.work_item_id ≢ k.activation.stream_id
      → x ≢ k.activation.stream_id
      → Tracked start (promote_agent_notification dump platform x w c now later k).1
  unfolding promote_agent_notification plan_of
  promotion-Tracked x w c now later k h other elsewhere = checked (check_promotion k x w) refl
    where
      checked :
          (r : Result AgentNotification)
          → check_promotion k x w ≡ r
          → Tracked start (promote_checked dump platform r x w c now later k).1
      checked (err e) p = h
      checked (ok n) p =
          let (found, required, unpromoted) = promote-facts k x w n p in
          let creator : Caller = record c {
            idempotency_key = concat c.idempotency_key ":work-item";
          } in
          let here =
            create-IsElsewhere k w (create_work_item k w creator)
              (λ q e. ((create-facts k w creator).at q e).0) other in
          Ran-promoted n x w c creator now later k _ found required unpromoted elsewhere
            (run-Tracked now (create_work_item k w creator) k h here
              (λ q e. command-IsTracked k (Command.create_work_item w) creator q h.filed e))
            (run-Ran dump platform tells now (create_work_item k w creator) k h.in_step here)
