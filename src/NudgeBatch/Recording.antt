-- ===== src/NudgeBatch/Recording.antt =====
-- The operations that record builds: recordBuildPLRForBatchedNudge, recordSuccessForBatchedNudge and
-- recordFailureForBatchedNudge, with their callers' checks.
use integration_service.Base.{
  Bool, List, Option, String, [], false, if◌then◌else◌, none, some, ℕ, ◌&&◌, ◌==◌, ◌||◌, ◌∷◌,
}
use integration_service.NudgeConfig.{
  FailurePolicyType, NudgeConfigSpec, block, effective_batch_policy, proceed_with_partial,
}
use integration_service.NudgeBatch.{
  is_blocked, AccumulatedEntry, ActiveBatch, FailedEntry, accepting_batch, accepts, accumulating,
  blocked, is_empty, remove_accumulated_component, remove_failed_component, schedule_batch_fire,
  store_first, upsert_accumulated_entry, upsert_failed_entry,
}

-- What the entry takes of the build's PipelineRun, and its result.
pub record BuildRun : Type 0 where
  pub name : String
  pub uid : String
  pub service_account_name : String

pub record BuildResult : Type 0 where
  pub source_component_name : String
  pub digest : String
  pub built_image_repository : String
  pub built_image_tag : String
  pub file_matches : String
  pub git_repo_at_sha_link : String

abbrev pub accumulated_entry_from_build : BuildRun → BuildResult → ℕ → AccumulatedEntry
accumulated_entry_from_build run result captured_at = record {
  from = result.source_component_name;
  image_digest = result.digest;
  build_pipeline_run = run.name;
  built_image_repository = result.built_image_repository;
  built_image_tag = result.built_image_tag;
  nudge_file_matches = result.file_matches;
  git_repo_at_sha_link = result.git_repo_at_sha_link;
  build_pipeline_run_uid = run.uid;
  build_service_account_name = run.service_account_name;
  captured_at = captured_at;
}

-- A blocked batch with no failure left accumulates again.
unfoldable pub unblock : ActiveBatch → ActiveBatch
unblock b =
    if is_blocked b.phase && is_empty b.failures then record b { phase = accumulating } else b

-- A batch with one more successful build.
unfoldable pub add_build : AccumulatedEntry → ℕ → ℕ → ActiveBatch → ActiveBatch
unfolding upsert_accumulated_entry remove_failed_component unblock schedule_batch_fire
add_build entry now debounce b =
    schedule_batch_fire now debounce
      (unblock (remove_failed_component entry.from (upsert_accumulated_entry entry b)))

-- The batches after a build whose entry is given.
unfoldable pub store_build :
    NudgeConfigSpec → String → AccumulatedEntry → ℕ → List ActiveBatch → List ActiveBatch
store_build spec target entry now batches =
    let policy = effective_batch_policy spec target in
    store_first (accepts target)
      (add_build entry now policy.debounce (accepting_batch batches target now policy.max_wait))
      batches

-- RecordBuildForBatchedNudge; `none` is the error of a missing build result.
unfoldable pub record_build :
    NudgeConfigSpec
    → String
    → BuildRun
    → Option BuildResult
    → ℕ
    → List ActiveBatch
    → Option (List ActiveBatch)
record_build spec target run none now batches = none
record_build spec target run (some result) now batches =
    some (store_build spec target (accumulated_entry_from_build run result now) now batches)

abbrev pub is_same_success : String → String → String → AccumulatedEntry → Bool
is_same_success source digest ref e =
    e.from == source && e.image_digest == digest && e.build_pipeline_run == ref

abbrev pub any {ℓ} : {A : Type ℓ} → (A → Bool) → List A → Bool
any test [] = false
any test (e ∷ l) = test e || any test l

abbrev pub validated_entry : String → String → String → String → ℕ → AccumulatedEntry
validated_entry source ref digest service_account now = record {
  from = source;
  image_digest = digest;
  build_pipeline_run = ref;
  built_image_repository = "";
  built_image_tag = "";
  nudge_file_matches = "";
  git_repo_at_sha_link = "";
  build_pipeline_run_uid = "";
  build_service_account_name = service_account;
  captured_at = now;
}

-- `none` where nothing is patched, since the batch has the same entry already.
unfoldable pub record_success :
    NudgeConfigSpec
    → String
    → String
    → String
    → String
    → String
    → ℕ
    → List ActiveBatch
    → Option (List ActiveBatch)
record_success spec target source ref digest service_account now batches =
    let policy = effective_batch_policy spec target in
    let b = accepting_batch batches target now policy.max_wait in
    if any (is_same_success source digest ref) b.accumulated
    then none
    else some (
        store_build spec target (validated_entry source ref digest service_account now) now batches)

-- What an attempt comes to: an error, no patch, or the batches to patch.
pub data Attempt : Type 0 where
  error : String → Attempt
  unchanged : Attempt
  patch : List ActiveBatch → Attempt

abbrev pub to_attempt : Option (List ActiveBatch) → Attempt
to_attempt (some batches) = patch batches
to_attempt none = unchanged

-- RecordValidatedSnapshotForBatchedNudge
unfoldable pub record_validated_snapshot :
    NudgeConfigSpec → String → String → String → String → ℕ → List ActiveBatch → Attempt
record_validated_snapshot spec target source ref digest now batches =
    if digest == ""
    then error "digest is required"
    else to_attempt (record_success spec target source ref digest "" now batches)

abbrev pub is_same_failure : String → String → String → FailedEntry → Bool
is_same_failure source ref reason e =
    e.from == source && e.build_pipeline_run == ref && e.reason == reason

abbrev pub failed_entry : String → String → String → ℕ → FailedEntry
failed_entry source ref reason now = record {
  from = source;
  build_pipeline_run = ref;
  reason = reason;
  captured_at = now;
}

abbrev pub hold : FailurePolicyType → ActiveBatch → ActiveBatch
hold block b = record b { phase = blocked; fire_at = none }
hold proceed_with_partial b = b

-- A batch with one more failed build.
unfoldable pub add_failure : FailedEntry → FailurePolicyType → ActiveBatch → ActiveBatch
unfolding remove_accumulated_component upsert_failed_entry
add_failure entry policy b =
    hold policy (upsert_failed_entry entry (remove_accumulated_component entry.from b))

unfoldable pub record_failure :
    NudgeConfigSpec
    → String
    → String
    → String
    → String
    → ℕ
    → List ActiveBatch
    → Option (List ActiveBatch)
record_failure spec target source ref reason now batches =
    let policy = effective_batch_policy spec target in
    let b = accepting_batch batches target now policy.max_wait in
    if any (is_same_failure source ref reason) b.failures
    then none
    else some (
        store_first (accepts target)
          (add_failure (failed_entry source ref reason now) policy.failure b) batches)

abbrev pub or_reason : String → String → String
or_reason reason default = if reason == "" then default else reason

-- RecordFailedBuildForBatchedNudge; the build's PipelineRun may be nil.
unfoldable pub record_failed_build :
    NudgeConfigSpec → String → String → Option BuildRun → String → ℕ → List ActiveBatch → Attempt
record_failed_build spec target source run reason now batches = to_attempt (
    record_failure spec target source (elim run [ some r ↦ r.name | none ↦ "" ])
      (or_reason reason "build pipeline failed") now batches)

-- RecordFailedValidatedSnapshotForBatchedNudge
unfoldable pub record_failed_validated_snapshot :
    NudgeConfigSpec → String → String → String → String → ℕ → List ActiveBatch → Attempt
record_failed_validated_snapshot spec target source ref reason now batches = to_attempt (
    record_failure spec target source ref (or_reason reason "integration tests failed") now batches)
