-- ===== src/Samples/Runs.antt =====
-- The theorems on what a command accepts and records, tried on the sample Kernel.

use Prim.Native.Char.{Char}
use nanihold_os.Prelude.{
  none, ℕ, zero, suc, ◌+◌, String, ◌≡◌, ◌≢◌, refl, sym, ap, true, some, List, [], ◌∷◌, length,
  eq_iff,
}
use nanihold_os.Result.{Error, Result, ok, err, invariant_violation}
use nanihold_os.Dict.{get, put, member, get-empty, any_value, map_values}
use nanihold_os.Ids.{validate_id, deterministic_event_id}
use nanihold_os.Models.Work.{WorkState}
use nanihold_os.Models.Effect.{EffectLease, EffectLeaseState}
use nanihold_os.Models.Event.{EventEnvelope, StoredEvent, human, has_valid_fields}
use nanihold_os.Models.Payload.{Payload}
use nanihold_os.Ledger.{append, store, screen, stream_of, same_or_collision, check_version}
use nanihold_os.Ledger.Invariant.{new_ledger-WellFormed}
use nanihold_os.Ledger.Place.{TellsPlace}
use nanihold_os.Activation.{new_activation}
use nanihold_os.Kernel.{Kernel, Plan, run, commit, record_event, envelope, draft_of, empty_registry}
use nanihold_os.Kernel.Work.{
  intervene, pause_of_work, revoke_of_work, complete_work_item, completion_plan, incomplete,
}
use nanihold_os.Kernel.Graph.{dependencies}
use nanihold_os.Kernel.Commands.{Command, execute, plan_of}
use nanihold_os.Kernel.Commands.Completion.{MayComplete, complete_requires, complete_accepts}
use nanihold_os.Kernel.Commands.Intervention.{Stopped, intervention_stops}
use nanihold_os.Kernel.Commands.Replanning.{replanned_lease_activates}
use nanihold_os.Kernel.Effects.{plan_effect, activate_effect}
use nanihold_os.Kernel.Filing.{IsFiled, empty-IsFiled, put_work-Filed, plan_of-IsFiled}
use nanihold_os.Kernel.Recording.{InStep}
use nanihold_os.Kernel.Atomic.{
  raising_changes_nothing, run-InStep, returning_appends_one, used_key_raises, fresh_key_returns,
}
use nanihold_os.Samples.{
  bars, sample_dump, sample_platform, sample_caller, sample_kernel, sample_evidence, work_named,
  lease_in_state, sample_registry,
}

abbrev accepted_plan : Plan
accepted_plan =
    completion_plan sample_kernel "work:1" sample_evidence (work_named "work:1" WorkState.ready)
      sample_caller

completion_accepted :
    complete_work_item sample_kernel "work:1" sample_evidence sample_caller ≡ ok accepted_plan
unfolding complete_work_item incomplete dependencies get put
completion_accepted = refl

complete_requires_example : MayComplete sample_kernel "work:1" sample_evidence
complete_requires_example =
    complete_requires sample_kernel "work:1" sample_evidence sample_caller accepted_plan
      completion_accepted

may_complete : MayComplete sample_kernel "work:1" sample_evidence
may_complete =
    complete_requires sample_kernel "work:1" sample_evidence sample_caller accepted_plan
      completion_accepted

complete_accepts_example :
    (p : Plan) × (complete_work_item sample_kernel "work:1" sample_evidence sample_caller ≡ ok p)
complete_accepts_example =
    complete_accepts sample_kernel "work:1" sample_evidence sample_caller may_complete

plan_of_ok : Result Plan → Plan
plan_of_ok (ok p) = p
plan_of_ok (err e) = accepted_plan

abbrev stop : Command
stop = Command.intervene "work:1" "stop"

abbrev stop_plan : Plan
stop_plan = record {
  draft =
      draft_of human "work:1" "human_intervention" (Payload.human_intervention "stop") sample_caller
        "work:1";
  next = λ _. record (sample_kernel.registry) {
    work_items =
        put sample_kernel.registry.work_items "work:1" (work_named "work:1" WorkState.paused);
    executions = map_values (pause_of_work "work:1") sample_kernel.registry.executions;
    effect_leases = map_values (revoke_of_work "work:1") sample_kernel.registry.effect_leases;
  };
  raises = none;
}

stop_accepted : intervene sample_kernel "work:1" "stop" sample_caller ≡ ok stop_plan
unfolding intervene get put
stop_accepted = refl

intervention_stops_example : Stopped "work:1" sample_kernel.registry (stop_plan.next "event:key-1")
intervention_stops_example =
    intervention_stops sample_kernel "work:1" "stop" sample_caller stop_plan "event:key-1"
      stop_accepted

-- Another effect under the id of the approved lease.
abbrev other_lease : EffectLease
other_lease = record (lease_in_state EffectLeaseState.planned) {
  target = "elsewhere";
  plan_sha256 = "other digest";
}

abbrev other_plan : Plan
unfolding plan_of_ok plan_effect get put any_value
other_plan = plan_of_ok (plan_effect sample_kernel other_lease 5 sample_caller)

other_accepted : plan_effect sample_kernel other_lease 5 sample_caller ≡ ok other_plan
unfolding plan_of_ok plan_effect get put any_value
other_accepted = refl

is_approved : member sample_kernel.registry.effect_approvals "lease:1" ≡ true
unfolding get put
is_approved = refl

replanned_lease_activates_example :
    (q : Plan) × (activate_effect
        (record sample_kernel { registry = other_plan.next "event:key-1" })
        "lease:1"
        6
        sample_caller
      ≡ ok q)
replanned_lease_activates_example =
    replanned_lease_activates sample_kernel other_lease 5 6 sample_caller sample_caller other_plan
      "event:key-1" other_accepted is_approved refl

tail_eq : (c : Char) (s t : String) → String.◌∷◌ c s ≡ String.◌∷◌ c t → s ≡ t
tail_eq c s t h = cc

colon_bar : (s t : String) → String.◌∷◌ ":" s ≡ String.◌∷◌ "|" t → ⊥
colon_bar s t h = cc

-- The text of an event tells its version and its stream.
pub bars_tell : (m n : ℕ) (s t : String) → bars m s ≡ bars n t → (s ≡ t) × (m ≡ n)
bars_tell zero zero s t h = (tail_eq ":" s t h, refl)
bars_tell zero (suc n) s t h = absurd (colon_bar s (bars n t) h)
bars_tell (suc m) zero s t h = absurd (colon_bar t (bars m s) (sym h))
bars_tell (suc m) (suc n) s t h =
    let (p, q) = bars_tell m n s t (tail_eq "|" (bars m s) (bars n t) h) in (p, ap suc q)

pub sample_tells : TellsPlace sample_dump
sample_tells a b h = bars_tell a.stream_version b.stream_version a.stream_id b.stream_id h

sample-InStep : InStep sample_kernel
unfolding stream_of
sample-InStep = record {
  ledger = new_ledger-WellFormed "space:home";
  versions = λ s _. rw (get-empty {V = ℕ} s, get-empty {V = List (StoredEvent Payload)} s) refl;
  activation =
      rw (get-empty {V = List (StoredEvent Payload)} sample_kernel.activation.stream_id) refl;
}

elsewhere : "work:1" ≢ sample_kernel.activation.stream_id
elsewhere p = cc (p, (eq_iff "work:1" sample_kernel.activation.stream_id).1 p)

abbrev stopped_kernel : Kernel
stopped_kernel = (run sample_dump sample_platform 7 (ok stop_plan) sample_kernel).1

abbrev stop_event : EventEnvelope Payload
stop_event = envelope sample_kernel stop_plan.draft 7 "event:key-1"

run-InStep_example : InStep stopped_kernel
run-InStep_example =
    run-InStep sample_dump sample_platform sample_tells 7 (ok stop_plan) sample_kernel sample-InStep
      elsewhere

stopped-InStep : InStep stopped_kernel
stopped-InStep =
    run-InStep sample_dump sample_platform sample_tells 7 (ok stop_plan) sample_kernel sample-InStep
      elsewhere

event_id_valid :
    deterministic_event_id sample_platform "space:home" "work:1" "key-1" ≡ ok "event:key-1"
unfolding deterministic_event_id validate_id
event_id_valid = refl

fields_valid : has_valid_fields stop_event ≡ true
unfolding has_valid_fields
fields_valid = refl

stop_planned : plan_of sample_kernel stop sample_caller ≡ ok stop_plan
unfolding plan_of
stop_planned = stop_accepted

-- The sample registry: two WorkItems, and no finding, notification or assignment.
sample-IsFiled : IsFiled sample_registry
sample-IsFiled =
    put_work-Filed
      (put_work-Filed (record (empty-IsFiled) { works_under_id = empty-IsFiled.works_under_id }) _ _
        refl)
      _ _ refl

fresh_key_returns_example :
    ((execute sample_dump sample_platform 7 stop sample_caller sample_kernel).0 ≡ ok stop_event)
    × ((execute sample_dump sample_platform 7 stop sample_caller sample_kernel).1.registry
        ≡ stop_plan.next "event:key-1")
fresh_key_returns_example =
    fresh_key_returns sample_dump sample_platform 7 stop sample_caller stop_plan sample_kernel
      "event:key-1" sample-InStep sample-IsFiled stop_planned elsewhere refl event_id_valid
      fields_valid (get-empty "key-1") (get-empty "event:key-1")

stop_returns : (run sample_dump sample_platform 7 (ok stop_plan) sample_kernel).0 ≡ ok stop_event
unfolding run commit record_event append screen store stream_of same_or_collision check_version
    deterministic_event_id validate_id has_valid_fields get put
stop_returns = refl

returning_appends_one_example :
    (stopped_kernel.ledger.events ≡ record { cursor = 1; event = stop_event } ∷ [])
    × (stop_event.stream_version ≡ length (stream_of sample_kernel.ledger "work:1") + 1)
    × ((p : Plan) × (◌≡◌ {A = Result Plan} (ok stop_plan) (ok p))
        × (stopped_kernel.registry ≡ p.next "event:key-1"))
returning_appends_one_example =
    returning_appends_one sample_dump sample_platform sample_tells 7 (ok stop_plan) sample_kernel
      stop_event sample-InStep elsewhere stop_returns

key_used :
    get stopped_kernel.ledger.idempotency "key-1" ≡ some (record { cursor = 1; event = stop_event })
unfolding run commit record_event append screen store stream_of same_or_collision check_version
    deterministic_event_id validate_id has_valid_fields get put
key_used = refl

still_elsewhere : "work:1" ≢ stopped_kernel.activation.stream_id
unfolding run commit record_event append screen store stream_of same_or_collision check_version
    deterministic_event_id validate_id has_valid_fields get put
still_elsewhere = elsewhere

used_key_raises_example :
    (e : Error) × (run sample_dump sample_platform 8 (ok stop_plan) stopped_kernel
      ≡ (err e, stopped_kernel))
used_key_raises_example =
    used_key_raises sample_dump sample_platform sample_tells 8 stop_plan stopped_kernel
      (record { cursor = 1; event = stop_event }) stopped-InStep still_elsewhere key_used

stopped-IsFiled : IsFiled stopped_kernel.registry
unfolding run commit record_event append screen store stream_of same_or_collision check_version
    deterministic_event_id validate_id has_valid_fields get put
stopped-IsFiled =
    (plan_of-IsFiled sample_kernel sample-IsFiled sample_caller stop).at stop_plan stop_planned
      "event:key-1"

-- The same command again, with the key that the ledger has.
stop_again :
    (execute sample_dump sample_platform 8 stop sample_caller stopped_kernel).0
    ≡ err (invariant_violation "idempotency collision: key-1")
unfolding execute plan_of intervene run commit record_event append screen store stream_of
    same_or_collision check_version deterministic_event_id validate_id has_valid_fields get put
stop_again = refl

raising_changes_nothing_example :
    (execute sample_dump sample_platform 8 stop sample_caller stopped_kernel).1 ≡ stopped_kernel
raising_changes_nothing_example =
    raising_changes_nothing sample_dump sample_platform 8 stop sample_caller stopped_kernel
      (invariant_violation "idempotency collision: key-1") stopped-IsFiled stop_again

-- A new Kernel, and a command on it.
abbrev pub first_kernel : Kernel
first_kernel = record sample_kernel {
  activation = new_activation (λ s. "home") "space:home";
  registry = empty_registry;
}
