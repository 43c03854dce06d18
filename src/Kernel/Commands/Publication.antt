-- ===== src/Kernel/Commands/Publication.antt =====
-- vsm/kernel/service.py: which RouteSnapshots are published.
use nanihold_os.Prelude.{
  ℕ, String, ◌≡◌, ◌≢◌, refl, sym, ap, ◌∙◌, true, false, not, Option, some, arith, eq_iff, inl, inr,
}
use nanihold_os.Result.{Ensures, Ensures-ok, Ensures-raise_if, Ensures-require, Ensures-bind}
use nanihold_os.Dict.{Dict, get, put, get-put_cases, get-any_value, any_value}
use nanihold_os.Models.Route.{
  RouteSnapshot, RouteSnapshotState, RouteSnapshotRetirementReason, is_draft, is_published,
}
use nanihold_os.Activation.{Caller}
use nanihold_os.Kernel.{Kernel, Plan}
use nanihold_os.Kernel.Routes.{
  register_route_snapshot, approve_route_snapshot, publish_route_snapshot, retire_route_snapshot,
  rivals, approved_by,
}
use nanihold_os.Ids.{Platform}
use nanihold_os.Models.Event.{EventEnvelope}
use nanihold_os.Models.Payload.{Payload}
use nanihold_os.Kernel.Commands.{Command, plan_of, execute}
use nanihold_os.Kernel.Commands.Running.{execute-keeps}
use nanihold_os.Kernel.Commands.Frames.{route_snapshots_frame}

-- The snapshot is kept under its own id.
abbrev pub IsUnderId : String → RouteSnapshot → Type 0
IsUnderId id s = s.snapshot_id ≡ id

-- The snapshots stand under their own ids, and no two of them are published for the same route.
pub record OnePublished (d : Dict RouteSnapshot) : Type 0 where
  pub under_id : (id : String) (s : RouteSnapshot) → get d id ≡ some s → s.snapshot_id ≡ id
  pub one :
      (i j : String) (s t : RouteSnapshot)
      → get d i ≡ some s
      → get d j ≡ some t
      → is_published s.state ≡ true
      → is_published t.state ≡ true
      → s.route_key ≡ t.route_key
      → i ≡ j

module _ (d : Dict RouteSnapshot) (h : OnePublished d) (x : String) (s : RouteSnapshot)
    (named : s.snapshot_id ≡ x) where
  put-under_id :
      (id : String) (t : RouteSnapshot) → get (put d x s) id ≡ some t → t.snapshot_id ≡ id
  put-under_id id t p = elim (get-put_cases d x id s t p) [
    | inl (same, is_new) ↦ ap (λ z. RouteSnapshot.snapshot_id z) is_new ∙ named ∙ same
    | inr (other, old) ↦ h.under_id id t old
  ]

  -- A snapshot may be put in its place when it has no published rival elsewhere.
  put-OnePublished :
      ((j : String) (t : RouteSnapshot)
        → x ≢ j
        → get d j ≡ some t
        → is_published s.state ≡ true
        → is_published t.state ≡ true
        → s.route_key ≡ t.route_key
        → ⊥)
      → OnePublished (put d x s)
  put-OnePublished alone = record {
    under_id = put-under_id;
    one = λ i j a b p q pa pb e. elim (get-put_cases d x i s a p) [
      | inl (i_same, a_new) ↦ elim (get-put_cases d x j s b q) [
        | inl (j_same, _) ↦ sym i_same ∙ j_same
        | inr (j_other, old) ↦ absurd (
            alone j b j_other old (ap (λ z. is_published (RouteSnapshot.state z)) (sym a_new) ∙ pa)
              pb (ap (λ z. RouteSnapshot.route_key z) (sym a_new) ∙ e))
      ]
      | inr (i_other, old) ↦ elim (get-put_cases d x j s b q) [
        | inl (_, b_new) ↦ absurd (
            alone i a i_other old (ap (λ z. is_published (RouteSnapshot.state z)) (sym b_new) ∙ pb)
              pa (ap (λ z. RouteSnapshot.route_key z) (sym b_new) ∙ sym e))
        | inr (_, old') ↦ h.one i j a b old old' pa pb e
      ]
    ];
  }

  unpublished-OnePublished : is_published s.state ≡ false → OnePublished (put d x s)
  unpublished-OnePublished q = put-OnePublished (λ j t _ _ p _ _. cc)

draft_unpublished : (s : RouteSnapshotState) → not (is_draft s) ≡ false → is_published s ≡ false
draft_unpublished s h = ground arith

approved_lem :
    (approval event_id : String) (s : RouteSnapshot)
    (a : RouteSnapshotState × (String → RouteSnapshot))
    → approved_by approval s ≡ some a
    → ((a.1 event_id).snapshot_id ≡ s.snapshot_id) × (is_published (a.1 event_id).state ≡ false)
approved_lem approval event_id s a h = (ground arith, ground arith)

no_rival :
    (x : String) (s t : RouteSnapshot)
    → rivals x s t ≡ false
    → t.snapshot_id ≢ x
    → is_published t.state ≡ true
    → s.route_key ≡ t.route_key
    → ⊥
no_rival x s t h other p e = ground (arith, eq_iff t.snapshot_id x, eq_iff t.route_key s.route_key)

ruleset steps = (Ensures-ok, Ensures-raise_if, Ensures-require, Ensures-bind)

abbrev Keeps : Plan → Type 0
Keeps p = (id : String) → OnePublished (p.next id).route_snapshots

module _ (k : Kernel) (h : OnePublished k.registry.route_snapshots) (c : Caller) where
  register-Keeps : (s : RouteSnapshot) → Ensures Keeps (register_route_snapshot k s c)
  unfolding register_route_snapshot
  register-Keeps s =
      let leaf : not (is_draft s.state) ≡ false
          → OnePublished (put k.registry.route_snapshots s.snapshot_id s) =
        λ q. unpublished-OnePublished _ h _ s refl (draft_unpublished s.state q) in
      search (steps, leaf) depth 24

  approve-Keeps : (x approval : String) → Ensures Keeps (approve_route_snapshot k x approval c)
  unfolding approve_route_snapshot
  approve-Keeps x approval =
      let leaf : (s : RouteSnapshot) (a : RouteSnapshotState × (String → RouteSnapshot))
            (id : String)
          → get k.registry.route_snapshots x ≡ some s
          → approved_by approval s ≡ some a
          → OnePublished (put k.registry.route_snapshots x (a.1 id)) =
        λ s a id found p.
          let (same, q) = approved_lem approval id s a p in
          unpublished-OnePublished _ h x (a.1 id) (same ∙ h.under_id x s found) q in
      search (steps, leaf) depth 24

  publish-Keeps : (x : String) → Ensures Keeps (publish_route_snapshot k x c)
  unfolding publish_route_snapshot
  publish-Keeps x =
      let leaf : (s : RouteSnapshot)
          → get k.registry.route_snapshots x ≡ some s
          → any_value (rivals x s) k.registry.route_snapshots ≡ false
          → OnePublished (
              put k.registry.route_snapshots x
                (record s { state = RouteSnapshotState.published })) =
        λ s found q.
          put-OnePublished _ h x (record s { state = RouteSnapshotState.published })
            (h.under_id x s found)
            (λ j t other there _ p e.
              no_rival x s t (get-any_value _ j t _ q there)
                (λ i. other (sym i ∙ h.under_id j t there)) p e) in
      search (steps, leaf) depth 24

  retire-Keeps :
      (x : String) (r : RouteSnapshotRetirementReason) (o : Option String)
      → Ensures Keeps (retire_route_snapshot k x r o c)
  unfolding retire_route_snapshot
  retire-Keeps x r o =
      let leaf : (s : RouteSnapshot)
          → get k.registry.route_snapshots x ≡ some s
          → OnePublished
              (put k.registry.route_snapshots x (record s { state = RouteSnapshotState.retired })) =
        λ s found.
          unpublished-OnePublished _ h x (record s { state = RouteSnapshotState.retired })
            (h.under_id x s found) refl in
      search (steps, leaf) depth 24

  plan_of-OnePublished : (command : Command) → Ensures Keeps (plan_of k command c)
  unfolding plan_of
  plan_of-OnePublished (Command.register_route_snapshot s) = register-Keeps s
  plan_of-OnePublished (Command.approve_route_snapshot x approval) = approve-Keeps x approval
  plan_of-OnePublished (Command.publish_route_snapshot x) = publish-Keeps x
  plan_of-OnePublished (Command.retire_route_snapshot x r o) = retire-Keeps x r o
  plan_of-OnePublished command = route_snapshots_frame OnePublished k command c refl h

-- If the RouteSnapshots stand under their own ids and at most one of them is published for each
-- route, so it is after every command, also one that raises.
pub execute-OnePublished :
    (dump : EventEnvelope Payload → String) (platform : Platform) (now : ℕ) (command : Command)
    (c : Caller) (k : Kernel)
    → OnePublished k.registry.route_snapshots
    → OnePublished (execute dump platform now command c k).1.registry.route_snapshots
execute-OnePublished dump platform now command c k h =
    execute-keeps dump platform (λ r. OnePublished r.route_snapshots) now command c k h
      (plan_of-OnePublished k h c command)
