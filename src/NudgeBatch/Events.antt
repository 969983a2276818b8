-- ===== src/NudgeBatch/Events.antt =====
-- The operations as events on the batches of one NudgeConfig, and sequences of them. Each event
-- carries the spec that its attempt reads, since the spec may be edited in between.
use integration_service.Base.{List, Option, String, [], ℕ, ◌∷◌}
use integration_service.NudgeConfig.{ForceFireAction, NudgeConfigSpec, or_else}
use integration_service.NudgeBatch.{ActiveBatch}
use integration_service.NudgeBatch.Recording.{
  record_failed_validated_snapshot, record_failed_build, record_validated_snapshot, record_build,
  Attempt, BuildResult, BuildRun, patch,
}
use integration_service.NudgeBatch.Firing.{
  Cluster, ForceFired, forced, process_due_nudge_batches, process_firing_nudge_batches,
  process_force_fire_action,
}

pub data Event : Type 0 where
  build : NudgeConfigSpec → String → BuildRun → Option BuildResult → ℕ → Event
  validated : NudgeConfigSpec → String → String → String → String → ℕ → Event
  build_failed : NudgeConfigSpec → String → String → Option BuildRun → String → ℕ → Event
  validation_failed : NudgeConfigSpec → String → String → String → String → ℕ → Event
  due : Cluster → ℕ → Event
  poll : Cluster → Event
  force : Cluster → Option ForceFireAction → Event

-- The status after an attempt: what it patches, if it patches.
abbrev pub after_attempt : List ActiveBatch → Attempt → List ActiveBatch
after_attempt batches (patch batches') = batches'
after_attempt batches _ = batches

abbrev pub after_force : List ActiveBatch → ForceFired → List ActiveBatch
after_force batches (forced batches' e) = batches'
after_force batches _ = batches

abbrev pub after_event : List ActiveBatch → Event → List ActiveBatch
after_event batches (build spec target run result now) =
    or_else (record_build spec target run result now batches) batches
after_event batches (validated spec target source ref digest now) =
    after_attempt batches (record_validated_snapshot spec target source ref digest now batches)
after_event batches (build_failed spec target source run reason now) =
    after_attempt batches (record_failed_build spec target source run reason now batches)
after_event batches (validation_failed spec target source ref reason now) =
    after_attempt batches
      (record_failed_validated_snapshot spec target source ref reason now batches)
after_event batches (due c now) = after_attempt batches (process_due_nudge_batches c now batches)
after_event batches (poll c) = after_attempt batches (process_firing_nudge_batches c batches)
after_event batches (force c action) =
    after_force batches (process_force_fire_action c action batches)

abbrev pub after_events : List ActiveBatch → List Event → List ActiveBatch
after_events batches [] = batches
after_events batches (e ∷ events) = after_events (after_event batches e) events
