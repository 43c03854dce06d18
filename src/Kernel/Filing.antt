-- ===== src/Kernel/Filing.antt =====
-- vsm/kernel/service.py: how the registry files its records: under their own ids, and findings only
-- of WorkItems that exist. The handlers of vsm/projection.py rely on it.

use nanihold_os.Prelude.{
  String, ◌≡◌, refl, ap, ◌∙◌, Bool, true, false, Option, none, some, List, [], ◌∷◌, arith,
  if◌then◌else◌, inl, inr,
}
use nanihold_os.Result.{ok, Ensures, Ensures-ok, Ensures-raise_if, Ensures-require, Ensures-bind}
use nanihold_os.Dict.{
  Dict, get, put, member, get-put, get-put_cases, get-empty, HasDistinctKeys, put-HasDistinctKeys,
  empty-HasDistinctKeys,
}
use nanihold_os.Models.Work.{WorkItem, S3StarFinding, CompletionEvidence}
use nanihold_os.Models.Naming.{AgentNameAssignment, AgentNotification}
use nanihold_os.Activation.{Caller}
use nanihold_os.Kernel.{Kernel, Plan, Registry, empty_registry}
use nanihold_os.Kernel.Work.{
  create_work_item, delegate_work_item, prepare_owner_confirmed_resume,
  validate_owner_confirmed_resume, complete_work_item, intervene,
}
use nanihold_os.Kernel.Findings.{
  record_s3_star_finding, accept_s3_star_risk, release_work, block_by,
}
use nanihold_os.Kernel.Notifications.{record_agent_notification}
use nanihold_os.Kernel.Import.{put_all, work_key}
use nanihold_os.Kernel.Commands.{Command, plan_of}
use nanihold_os.Kernel.Commands.Frames.{record_agent_name_assignment-Ensures, guards, opened}

pub record Filed (works : Dict WorkItem) (findings : Dict S3StarFinding)
    (notifications : Dict AgentNotification) (assignments : Dict AgentNameAssignment) : Type 0 where
  pub works_under_id : (id : String) (w : WorkItem) → get works id ≡ some w → w.work_item_id ≡ id
  pub findings_of_works :
      (id : String) (f : S3StarFinding)
      → get findings id ≡ some f
      → member works f.work_item_id ≡ true
  pub notifications_under_id :
      (id : String) (n : AgentNotification) → get notifications id ≡ some n → n.notification_id ≡ id
  pub assignments_under_id :
      (id : String) (a : AgentNameAssignment) → get assignments id ≡ some a → a.assignment_id ≡ id
  pub distinct_assignments : HasDistinctKeys assignments

-- `Filed` of a registry.
abbrev pub IsFiled : Registry → Type 0
IsFiled r = Filed r.work_items r.findings r.agent_notifications r.agent_name_assignments

pub empty-IsFiled : IsFiled empty_registry
empty-IsFiled = record {
  works_under_id = λ id w h. absurd (cc (h, get-empty {V = WorkItem} id));
  findings_of_works = λ id f h. absurd (cc (h, get-empty {V = S3StarFinding} id));
  notifications_under_id = λ id n h. absurd (cc (h, get-empty {V = AgentNotification} id));
  assignments_under_id = λ id a h. absurd (cc (h, get-empty {V = AgentNameAssignment} id));
  distinct_assignments = empty-HasDistinctKeys AgentNameAssignment;
}

-- A value that is put under its own id, in a dictionary whose values are.
own_id :
    {V : Type 0} (key : V → String) (d : Dict V) (x : String) (v : V)
    → ((id : String) (w : V) → get d id ≡ some w → key w ≡ id)
    → key v ≡ x
    → (id : String) (w : V) → get (put d x v) id ≡ some w
    → key w ≡ id
own_id key d x v h e id w found = elim (get-put_cases d x id v w found) [
  | inl (same, is_new) ↦ ap key is_new ∙ e ∙ same
  | inr (_, old) ↦ h id w old
]

member-put :
    {V : Type 0} (d : Dict V) (x id : String) (v : V)
    → member d id ≡ true
    → member (put d x v) id ≡ true
member-put d x id v h = ground (arith, get-put d x id v)

module _ {works : Dict WorkItem} {findings : Dict S3StarFinding}
    {notifications : Dict AgentNotification} {assignments : Dict AgentNameAssignment}
    (h : Filed works findings notifications assignments) where
  pub put_work-Filed :
      (x : String) (w : WorkItem)
      → w.work_item_id ≡ x
      → Filed (put works x w) findings notifications assignments
  put_work-Filed x w e = record {
    works_under_id = own_id (λ v. WorkItem.work_item_id v) works x w h.works_under_id e;
    findings_of_works =
        λ id f found. member-put works x f.work_item_id w (h.findings_of_works id f found);
    notifications_under_id = h.notifications_under_id;
    assignments_under_id = h.assignments_under_id;
    distinct_assignments = h.distinct_assignments;
  }

  pub put_finding-Filed :
      (x : String) (f : S3StarFinding)
      → member works f.work_item_id ≡ true
      → Filed works (put findings x f) notifications assignments
  put_finding-Filed x f there = record {
    works_under_id = h.works_under_id;
    findings_of_works = λ id g found. elim (get-put_cases findings x id f g found) [
      | inl (_, is_new) ↦ ap (λ z. member works (S3StarFinding.work_item_id z)) is_new ∙ there
      | inr (_, old) ↦ h.findings_of_works id g old
    ];
    notifications_under_id = h.notifications_under_id;
    assignments_under_id = h.assignments_under_id;
    distinct_assignments = h.distinct_assignments;
  }

  pub put_notification-Filed :
      (x : String) (n : AgentNotification)
      → n.notification_id ≡ x
      → Filed works findings (put notifications x n) assignments
  put_notification-Filed x n e = record {
    works_under_id = h.works_under_id;
    findings_of_works = h.findings_of_works;
    notifications_under_id =
        own_id (λ v. AgentNotification.notification_id v) notifications x n h.notifications_under_id
          e;
    assignments_under_id = h.assignments_under_id;
    distinct_assignments = h.distinct_assignments;
  }

  pub put_assignment-Filed :
      (a : AgentNameAssignment)
      → Filed works findings notifications (put assignments a.assignment_id a)
  put_assignment-Filed a = record {
    works_under_id = h.works_under_id;
    findings_of_works = h.findings_of_works;
    notifications_under_id = h.notifications_under_id;
    assignments_under_id =
        own_id (λ v. AgentNameAssignment.assignment_id v) assignments a.assignment_id a
          h.assignments_under_id refl;
    distinct_assignments = put-HasDistinctKeys assignments a.assignment_id a h.distinct_assignments;
  }

pub put_all-Filed :
    (ws : List WorkItem) {works : Dict WorkItem} {findings : Dict S3StarFinding}
    {notifications : Dict AgentNotification} {assignments : Dict AgentNameAssignment}
    → Filed works findings notifications assignments
    → Filed (put_all work_key ws works) findings notifications assignments
put_all-Filed [] h = h
put_all-Filed (w ∷ ws) h = put_all-Filed ws (put_work-Filed h w.work_item_id w refl)

-- The commands that write what `Filed` speaks of.
abbrev pub writes_files : Command → Bool
writes_files (Command.create_work_item _) = true
writes_files (Command.delegate_work_item _ _) = true
writes_files (Command.prepare_owner_confirmed_resume _) = true
writes_files (Command.complete_work_item _ _) = true
writes_files (Command.intervene _ _) = true
writes_files (Command.record_s3_star_finding _) = true
writes_files (Command.accept_s3_star_risk _ _ _) = true
writes_files (Command.record_agent_name_assignment _ _) = true
writes_files (Command.record_agent_notification _) = true
writes_files _ = false

files_frame :
    (k : Kernel) (command : Command) (c : Caller)
    → writes_files command ≡ false
    → IsFiled k.registry
    → Ensures (λ (p : Plan). (id : String) → IsFiled (p.next id)) (plan_of k command c)
unfolding opened
files_frame k (Command.create_work_item _) c q h = absurd (cc)
files_frame k (Command.delegate_work_item _ _) c q h = absurd (cc)
files_frame k (Command.prepare_owner_confirmed_resume _) c q h = absurd (cc)
files_frame k (Command.complete_work_item _ _) c q h = absurd (cc)
files_frame k (Command.intervene _ _) c q h = absurd (cc)
files_frame k (Command.record_s3_star_finding _) c q h = absurd (cc)
files_frame k (Command.accept_s3_star_risk _ _ _) c q h = absurd (cc)
files_frame k (Command.record_agent_name_assignment _ _) c q h = absurd (cc)
files_frame k (Command.record_agent_notification _) c q h = absurd (cc)
files_frame k _ c q h = search (guards) depth 24

ruleset steps = (Ensures-ok, Ensures-raise_if, Ensures-require, Ensures-bind)

abbrev Keeps : Plan → Type 0
Keeps p = (id : String) → IsFiled (p.next id)

module _ (k : Kernel) (h : IsFiled k.registry) (c : Caller) where
  -- A WorkItem that is looked up may be put back with other fields.
  changed :
      (x : String) (w : WorkItem) (v : WorkItem)
      → get k.registry.work_items x ≡ some w
      → v.work_item_id ≡ w.work_item_id
      → Filed
          (put k.registry.work_items x v)
          k.registry.findings
          k.registry.agent_notifications
          k.registry.agent_name_assignments
  changed x w v found same = put_work-Filed h x v (same ∙ h.works_under_id x w found)

  create-Keeps : (w : WorkItem) → Ensures Keeps (create_work_item k w c)
  unfolding create_work_item
  create-Keeps w =
      let leaf = put_work-Filed h w.work_item_id w refl in search (steps, leaf) depth 24

  delegate-Keeps : (work node : String) → Ensures Keeps (delegate_work_item k work node c)
  unfolding delegate_work_item
  delegate-Keeps work node = search (steps, changed, refl) depth 24

  validated :
      (x : String) (w : WorkItem)
      → validate_owner_confirmed_resume k x ≡ ok w
      → get k.registry.work_items x ≡ some w
  unfolding validate_owner_confirmed_resume
  validated x w p = ground arith

  prepare-Keeps : (work : String) → Ensures Keeps (prepare_owner_confirmed_resume k work c)
  unfolding prepare_owner_confirmed_resume
  prepare-Keeps work =
      Ensures-bind (validate_owner_confirmed_resume k work) _
        (λ w p. Ensures-ok (λ id. changed work w _ (validated work w p) refl))

  complete-Keeps :
      (work : String) (e : CompletionEvidence) → Ensures Keeps (complete_work_item k work e c)
  unfolding complete_work_item
  complete-Keeps work e = search (steps, changed, refl) depth 24

  intervene-Keeps : (work reason : String) → Ensures Keeps (intervene k work reason c)
  unfolding intervene
  intervene-Keeps work reason = search (steps, changed, refl) depth 24

  notification-Keeps : (n : AgentNotification) → Ensures Keeps (record_agent_notification k n c)
  unfolding record_agent_notification
  notification-Keeps n =
      let leaf = put_notification-Filed h n.notification_id n refl in search (steps, leaf) depth 24

  blocked-Filed :
      (f : S3StarFinding) (w : WorkItem) (severe : Bool)
      → get k.registry.work_items f.work_item_id ≡ some w
      → Filed
          (if severe
            then put k.registry.work_items w.work_item_id (block_by f.finding_id w)
            else k.registry.work_items)
          (put k.registry.findings f.finding_id f)
          k.registry.agent_notifications
          k.registry.agent_name_assignments
  blocked-Filed f w true found =
      put_finding-Filed (put_work-Filed h w.work_item_id _ refl) f.finding_id f
        (member-put k.registry.work_items w.work_item_id f.work_item_id _ (ground arith))
  blocked-Filed f w false found = put_finding-Filed h f.finding_id f (ground arith)

  finding-Keeps : (f : S3StarFinding) → Ensures Keeps (record_s3_star_finding k f c)
  unfolding record_s3_star_finding
  finding-Keeps f = search (steps, blocked-Filed) depth 24

  released-Filed :
      (x : String) (f : S3StarFinding) (o : Option WorkItem)
      → get k.registry.findings x ≡ some f
      → Filed
          (release_work k.registry.work_items x o)
          (put k.registry.findings x (record f { accepted_by_s5 = true }))
          k.registry.agent_notifications
          k.registry.agent_name_assignments
  released-Filed x f none found = put_finding-Filed h x _ (h.findings_of_works x f found)
  released-Filed x f (some w) found =
      put_finding-Filed (put_work-Filed h w.work_item_id _ refl) x _ (
        member-put k.registry.work_items w.work_item_id f.work_item_id _
          (h.findings_of_works x f found))

  accept-Keeps :
      (x node rationale : String) → Ensures Keeps (accept_s3_star_risk k x node rationale c)
  unfolding accept_s3_star_risk
  accept-Keeps x node rationale = search (steps, released-Filed) depth 24

  -- Every command keeps the registry filed.
  pub plan_of-IsFiled : (command : Command) → Ensures Keeps (plan_of k command c)
  unfolding plan_of
  plan_of-IsFiled (Command.create_work_item w) = create-Keeps w
  plan_of-IsFiled (Command.delegate_work_item work node) = delegate-Keeps work node
  plan_of-IsFiled (Command.prepare_owner_confirmed_resume work) = prepare-Keeps work
  plan_of-IsFiled (Command.complete_work_item work e) = complete-Keeps work e
  plan_of-IsFiled (Command.intervene work reason) = intervene-Keeps work reason
  plan_of-IsFiled (Command.record_s3_star_finding f) = finding-Keeps f
  plan_of-IsFiled (Command.accept_s3_star_risk x node rationale) = accept-Keeps x node rationale
  plan_of-IsFiled (Command.record_agent_name_assignment a f) =
      record_agent_name_assignment-Ensures Keeps k a f c (λ e found id. put_assignment-Filed h a)
  plan_of-IsFiled (Command.record_agent_notification n) = notification-Keeps n
  plan_of-IsFiled command = files_frame k command c refl h
