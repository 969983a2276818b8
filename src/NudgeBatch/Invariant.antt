-- ===== src/NudgeBatch/Invariant.antt =====
-- The batches after any sequence of events.
use integration_service.Base.{Bool-cases, List, Option, [], inl, inr, none, some, true, ◌==◌, ◌∷◌}
use integration_service.NudgeConfig.{ForceFireAction, or_else}
use integration_service.NudgeBatch.{ActiveBatch}
use integration_service.NudgeBatch.Recording.{
  record_failed_validated_snapshot, record_failed_build, record_validated_snapshot, record_build,
  accumulated_entry_from_build, or_reason,
}
use integration_service.NudgeBatch.Soundness.{IsSound}
use integration_service.NudgeBatch.Firing.{Cluster, process_force_fire_action}
use integration_service.NudgeBatch.Events.{
  Event, after_event, after_events, after_force, build, build_failed, due, force, poll, validated,
  validation_failed,
}
use integration_service.NudgeBatch.Recorded.{
  record_failure-IsSound, record_success-IsSound, store_build-IsSound,
}
use integration_service.NudgeBatch.Fires.{
  force_fire_at-IsSound, process_due-IsSound, process_firing-IsSound,
}

force-IsSound :
    (c : Cluster) (action : Option ForceFireAction) (batches : List ActiveBatch)
    → IsSound batches
    → IsSound (after_force batches (process_force_fire_action c action batches))
unfolding process_force_fire_action
force-IsSound c none batches s = s
force-IsSound c (some action) batches s =
    force_fire_at-IsSound c batches action.target (or_else action.include_partial true) s

after_event-IsSound :
    (batches : List ActiveBatch) (e : Event) → IsSound batches → IsSound (after_event batches e)
unfolding record_build record_validated_snapshot record_failed_build
    record_failed_validated_snapshot
after_event-IsSound batches (build spec target run none now) s = s
after_event-IsSound batches (build spec target run (some result) now) s =
    store_build-IsSound spec target (accumulated_entry_from_build run result now) now batches s
after_event-IsSound batches (validated spec target source ref digest now) s =
    elim (Bool-cases (digest == "")) [
      | inl e ↦ rw (e, record_validated_snapshot) s
      | inr e ↦
          rw (e, record_validated_snapshot)
            (record_success-IsSound spec target source ref digest "" now batches s)
    ]
after_event-IsSound batches (build_failed spec target source run reason now) s =
    record_failure-IsSound spec target source _ (or_reason reason "build pipeline failed") now
      batches s
after_event-IsSound batches (validation_failed spec target source ref reason now) s =
    record_failure-IsSound spec target source ref (or_reason reason "integration tests failed") now
      batches s
after_event-IsSound batches (due c now) s = process_due-IsSound c now batches s
after_event-IsSound batches (poll c) s = process_firing-IsSound c batches s
after_event-IsSound batches (force c action) s = force-IsSound c action batches s

-- Whatever builds, timers, polls and forceFire actions come, in any order and under any spec and any
-- answers of the cluster, sound batches stay sound: for a target at most one batch accepts builds
-- and at most one fires; in a batch a source is listed once, as a build or as a failure; a blocked
-- batch has a failure and no time to fire at; and the retries do not pass three.
pub after_events-IsSound :
    (events : List Event) (batches : List ActiveBatch)
    → IsSound batches
    → IsSound (after_events batches events)
after_events-IsSound [] batches s = s
after_events-IsSound (e ∷ events) batches s =
    after_events-IsSound events (after_event batches e) (after_event-IsSound batches e s)
