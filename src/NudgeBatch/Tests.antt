-- ===== src/NudgeBatch/Tests.antt =====
-- A target with two batches, and the theorems at them.
use integration_service.Base.{
  Bool-cases, List, String, [], arith, eq_of_==, false, inl, inr, none, refl, some, subst, ◌&&◌,
  ◌<◌, ◌==◌, ◌||◌, ◌∷◌, ◌≡◌, ◌≤◌,
}
use integration_service.NudgeConfig.{NudgeConfigSpec, effective_batch_policy}
use integration_service.NudgeBatch.{
  AccumulatedEntry, ActiveBatch, BatchPhase, accepting_batch, accepts, batch_pipeline_run_name,
  batch_timer_expired, blocked, find_accumulating_batch, find_force_fire_batch, fires_for, firing,
  has_firing_nudge_batches, is_batch_firing_for_target, new_batch, new_batch_id,
  next_batch_wake_duration, remove_accumulated_component, remove_failed_component,
  schedule_batch_fire, shortest_wait, upsert_accumulated_entry, upsert_failed_entry,
}
use integration_service.NudgeBatch.Counting.{EveryBatch, count}
use integration_service.NudgeBatch.Recording.{
  record_failure, record_success, record_failed_validated_snapshot, record_failed_build,
  record_validated_snapshot, record_build, add_build, add_failure, failed_entry, store_build,
  unblock, validated_entry,
}
use integration_service.NudgeBatch.Soundness.{IsSound}
use integration_service.NudgeBatch.Firing.{
  Cluster, due_from, due_one, finished, fire_batch, firing_from, firing_one, force_fire_at,
  may_force_fire, process_due_nudge_batches, process_firing_nudge_batches,
  process_force_fire_action, retry_firing_batch,
}
use integration_service.NudgeBatch.Events.{
  Event, after_attempt, after_events, build_failed, due, force, poll, validated,
}
use integration_service.NudgeBatch.Invariant.{after_events-IsSound}
use integration_service.NudgeBatch.Effects.{HasBuild, store_build-HasBuild}
use integration_service.NudgeBatch.Opens.{IsOpened, store_build-opens}
use integration_service.NudgeBatch.Schedule.{
  WakesFor, is_ripe, is_timed, next_batch_wake_duration-WakesFor,
}
use integration_service.NudgeBatch.Due.{IsServed, process_due_nudge_batches-IsServed}

abbrev spec : NudgeConfigSpec
spec = record { batch_defaults = none; actions = none; target_config = [] }

abbrev entry : String → String → AccumulatedEntry
entry from digest = validated_entry from "run-1" digest "" 5

abbrev busy : ActiveBatch
busy = record (new_batch "operator" 1000 100) {
  phase = firing;
  accumulated = entry "api" "sha256:1" ∷ [];
  retry_count = 3;
}

abbrev held : ActiveBatch
held = record (new_batch "operator" 2_000_000_000 100) {
  phase = blocked;
  accumulated = entry "web" "sha256:2" ∷ [];
  failures = failed_entry "api" "run-2" "broken" 7 ∷ [];
}

abbrev two : List ActiveBatch
two = busy ∷ held ∷ []

abbrev cluster : Cluster
cluster = record {
  pipeline_run = λ name. finished false;
  payload_error = λ b. none;
  create_error = λ b. none;
}

abbrev events : List Event
events =
    validated spec "operator" "api" "run-3" "sha256:3" 3_000_000_000
    ∷ build_failed spec "operator" "db" none "" 3_000_000_001
    ∷ poll cluster
    ∷ force cluster (some (record { target = "operator"; include_partial = none }))
    ∷ due cluster 9_000_000_000_000_000
    ∷ []

program : Unit {0}
unfolding record_build record_validated_snapshot record_failed_build
    record_failed_validated_snapshot record_success record_failure store_build add_build add_failure
    upsert_accumulated_entry remove_failed_component upsert_failed_entry
    remove_accumulated_component unblock schedule_batch_fire accepting_batch effective_batch_policy
    process_due_nudge_batches due_from due_one fire_batch process_firing_nudge_batches firing_from
    firing_one retry_firing_batch process_force_fire_action force_fire_at find_force_fire_batch
    find_accumulating_batch may_force_fire is_batch_firing_for_target batch_timer_expired
    batch_pipeline_run_name new_batch_id
program = tt

abbrev phases : List ActiveBatch → List BatchPhase
phases [] = []
phases (b ∷ l) = b.phase ∷ phases l

-- The forceFire action picks the first stopped batch: the one whose retries are spent, and not the
-- blocked one after it.
events-phases : phases (after_events two events) ≡ firing ∷ blocked ∷ []
unfolding program
events-phases = refl

two-IsSound : IsSound two
two-IsSound = (
  (
    ((refl, tt), tt, (λ k. ground arith), (λ h. cc), (λ h. cc), omega arith),
    (((refl, tt), (refl, tt), (λ k. apart k), (λ h. refl), (λ h. refl), omega arith), tt),
  ),
  (λ t. accepting t),
  (λ t. firings t),
)
  where
    apart : (k : String) → ((("web" == k) || false) && (("api" == k) || false)) ≡ false
    apart k = elim (Bool-cases ("web" == k)) [
      | inl e ↦
          subst (λ x. ((("web" == x) || false) && (("api" == x) || false)) ≡ false)
            (eq_of_== "web" k e) refl
      | inr e ↦ rw e refl
    ]

    accepting : (t : String) → count (accepts t) two ≤ 1
    accepting t = ground arith

    firings : (t : String) → count (fires_for t) two ≤ 1
    firings t = ground arith

after_events-IsSound_example : IsSound (after_events two events)
after_events-IsSound_example = after_events-IsSound events two two-IsSound

store_build-HasBuild_example :
    (b : ActiveBatch) × (store_build spec "operator" (entry "api" "sha256:3") 9 two
      ≡ (busy ∷ b ∷ []))
    × HasBuild (entry "api" "sha256:3") 9 (effective_batch_policy spec "operator").debounce held b
store_build-HasBuild_example =
    store_build-HasBuild spec "operator" (entry "api" "sha256:3") 9 (busy ∷ []) held [] (refl, tt)
      refl

store_build-opens_example :
    (b : ActiveBatch) × (store_build spec "operator" (entry "api" "sha256:3") 9 (busy ∷ [])
      ≡ (busy ∷ b ∷ []))
    × IsOpened "operator"
        (entry "api" "sha256:3")
        9
        (effective_batch_policy spec "operator").debounce
        (effective_batch_policy spec "operator").max_wait
        b
store_build-opens_example =
    store_build-opens spec "operator" (entry "api" "sha256:3") 9 (busy ∷ []) (refl, tt)

abbrev waiting : List ActiveBatch
waiting =
    record (new_batch "operator" 1000 100) {
      accumulated = entry "api" "sha256:1" ∷ [];
      fire_at = some 1050;
    }
    ∷ record (new_batch "bundle" 1000 100) {
      accumulated = entry "api" "sha256:1" ∷ [];
      fire_at = some 1030;
    }
    ∷ []

waiting-wakes : next_batch_wake_duration 1010 waiting ≡ 20
unfolding program next_batch_wake_duration shortest_wait has_firing_nudge_batches
waiting-wakes = refl

next_batch_wake_duration-WakesFor_example :
    EveryBatch (WakesFor 1010 (next_batch_wake_duration 1010 waiting)) waiting
    × (0 < count is_timed waiting
        → count (is_ripe 1010) waiting ≡ 0
        → 0 < next_batch_wake_duration 1010 waiting)
unfolding has_firing_nudge_batches
next_batch_wake_duration-WakesFor_example = next_batch_wake_duration-WakesFor 1010 waiting refl

process_due_nudge_batches-IsServed_example :
    EveryBatch
      (IsServed 1040 (after_attempt waiting (process_due_nudge_batches cluster 1040 waiting)))
      (after_attempt waiting (process_due_nudge_batches cluster 1040 waiting))
process_due_nudge_batches-IsServed_example = process_due_nudge_batches-IsServed cluster 1040 waiting
