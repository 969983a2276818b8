-- ===== src/NudgeBatch/Firing.antt =====
-- The operations that fire batches: fireBatch, retryFiringBatch, ProcessForceFireAction,
-- ProcessDueNudgeBatches and ProcessFiringNudgeBatches.
use Prim.Native.String.{◌++◌ as text_append}
use integration_service.Base.{
  Bool, List, Option, String, [], false, if◌then◌else◌, leb, length, none, not, some, true, ℕ, ◌&&◌,
  ◌++◌, ◌+◌, ◌==◌, ◌||◌, ◌∷◌,
}
use integration_service.NudgeConfig.{ForceFireAction, or_else}
use integration_service.Base.Text.{show_nat}
use integration_service.NudgeBatch.{
  FailedEntry, ActiveBatch, batch_pipeline_run_name, batch_timer_expired, completed, failed,
  find_accumulating_batch, find_force_fire_batch, firing, is_accumulating,
  is_batch_firing_for_target, is_empty, is_firing, is_stopped, store_first,
}
use integration_service.NudgeBatch.Recording.{Attempt, error, patch, unchanged}

-- What the cluster answers for a nudge PipelineRun. `succeeded` is HasPipelineRunSucceeded.
pub data FetchedRun : Type 0 where
  running : FetchedRun
  finished : (succeeded : Bool) → FetchedRun
  missing : String → FetchedRun

-- The answers during an attempt: a PipelineRun by name, and the errors of preparing the Renovate
-- payload of a batch (buildBatchedRenovatePayload) and of creating its PipelineRun
-- (CreateBatchedNudgePipelineRun), none for nil.
pub record Cluster : Type 0 where
  pub pipeline_run : String → FetchedRun
  pub payload_error : ActiveBatch → Option String
  pub create_error : ActiveBatch → Option String

pub data Fired : Type 0 where
  fired : ActiveBatch → Fired
  refused : String → Fired

abbrev pub exists_run : FetchedRun → Bool
exists_run (missing e) = false
exists_run _ = true

abbrev pub planned_name : ActiveBatch → String
planned_name b =
    if b.nudge_pipeline_run == ""
    then batch_pipeline_run_name b.batch_id b.retry_count
    else b.nudge_pipeline_run

abbrev pub fired_as : String → ActiveBatch → ActiveBatch
fired_as name b = record b {
  nudge_pipeline_run = name;
  phase = firing;
  message =
      text_append "fired with "
        (text_append (show_nat (length b.accumulated)) " accumulated build(s)");
}

-- The %q of fmt.Errorf, for the names of targets and batches, which have nothing to escape.
abbrev pub quote : String → String
quote name = text_append "\"" (text_append name "\"")

-- The caller of a refused firing sets the phase that fireBatch may have left.
unfoldable pub fire_batch : Cluster → ActiveBatch → Fired
fire_batch c b =
    if is_empty b.accumulated
    then refused (text_append "cannot fire empty batch " (quote b.batch_id))
    else if exists_run (c.pipeline_run (planned_name b))
    then fired (fired_as (planned_name b) b)
    else elim (c.payload_error b) [
      | some e ↦ refused e
      | none ↦ elim (c.create_error b) [
        | some e ↦ refused e
        | none ↦ fired (fired_as (batch_pipeline_run_name b.batch_id b.retry_count) b)
      ]
    ]

abbrev pub fail_with : String → ActiveBatch → ActiveBatch
fail_with e b = record b { phase = failed; message = e }

abbrev pub settle : ActiveBatch → Fired → ActiveBatch
settle b (fired b') = b'
settle b (refused e) = fail_with e b

unfoldable pub retry_firing_batch : Cluster → ActiveBatch → Fired
retry_firing_batch c b = elim (c.payload_error b) [
  | some e ↦ refused e
  | none ↦ elim (c.create_error b) [
    | some e ↦ refused e
    | none ↦ fired (record b {
      nudge_pipeline_run = batch_pipeline_run_name b.batch_id b.retry_count;
      message = text_append "retry " (
          text_append (show_nat b.retry_count) (
            text_append " for batch with "
              (text_append (show_nat (length b.accumulated)) " accumulated build(s)")));
    })
  ]
]

abbrev pub max_batch_nudge_plr_retries : ℕ
max_batch_nudge_plr_retries = 3

-- One round of the loop of ProcessDueNudgeBatches, at a batch with those before and after it; none
-- where it goes on without a change.
unfoldable pub due_one : Cluster → ℕ → List ActiveBatch → ActiveBatch → Option ActiveBatch
unfolding batch_timer_expired
due_one c now all b =
    if not (is_accumulating b.phase)
    then none
    else if not (batch_timer_expired now b)
    then none
    else if is_empty b.accumulated
    then some (fail_with "timer expired with no successful builds to nudge" b)
    else if is_batch_firing_for_target all b.target
    then none
    else some (settle b (fire_batch c b))

-- The loop over the batches from an index on; those before it are done.
unfoldable pub due_from :
    Cluster → ℕ → List ActiveBatch → List ActiveBatch → Bool → List ActiveBatch × Bool
unfolding due_one
due_from c now done [] changed = (done, changed)
due_from c now done (b ∷ rest) changed = elim (due_one c now (done ++ b ∷ rest) b) [
  | some b' ↦ due_from c now (done ++ b' ∷ []) rest true
  | none ↦ due_from c now (done ++ b ∷ []) rest changed
]

abbrev pub patch_if_changed : List ActiveBatch × Bool → Attempt
patch_if_changed (batches, changed) = if changed then patch batches else unchanged

unfoldable pub process_due_nudge_batches : Cluster → ℕ → List ActiveBatch → Attempt
unfolding due_from
process_due_nudge_batches c now batches = patch_if_changed (due_from c now [] batches false)

abbrev pub completed_batch : ActiveBatch → ActiveBatch
completed_batch b = record b {
  phase = completed;
  message = text_append "nudge PipelineRun " (text_append b.nudge_pipeline_run " succeeded");
}

abbrev pub exhausted_batch : ActiveBatch → ActiveBatch
exhausted_batch b =
    fail_with
      (text_append "nudge PipelineRun "
        (text_append b.nudge_pipeline_run " failed after 3 retries"))
      b

-- One round of the loop of ProcessFiringNudgeBatches: an error ends the attempt.
pub data Round : Type 0 where
  abort : String → Round
  keep : Round
  replaced_by : ActiveBatch → Round

unfoldable pub firing_one : Cluster → ActiveBatch → Round
unfolding retry_firing_batch
firing_one c b =
    if not (is_firing b.phase) || b.nudge_pipeline_run == ""
    then keep
    else elim (c.pipeline_run b.nudge_pipeline_run) [
      | missing e ↦ abort e
      | running ↦ keep
      | finished succeeded ↦
          if succeeded
          then replaced_by (completed_batch b)
          else if leb max_batch_nudge_plr_retries b.retry_count
          then replaced_by (exhausted_batch b)
          else let b' = record b { retry_count = b.retry_count + 1 } in
            replaced_by (settle b' (retry_firing_batch c b'))
    ]

unfoldable pub firing_from : Cluster → List ActiveBatch → List ActiveBatch → Bool → Attempt
unfolding firing_one
firing_from c done [] changed = patch_if_changed (done, changed)
firing_from c done (b ∷ rest) changed = elim (firing_one c b) [
  | abort e ↦ error e
  | keep ↦ firing_from c (done ++ b ∷ []) rest changed
  | replaced_by b' ↦ firing_from c (done ++ b' ∷ []) rest true
]

unfoldable pub process_firing_nudge_batches : Cluster → List ActiveBatch → Attempt
unfolding firing_from
process_firing_nudge_batches c batches = firing_from c [] batches false

-- The outcome of a forceFire action: ignored, rejected with no patch, or patched with the error of a
-- firing that was refused, if any.
pub data ForceFired : Type 0 where
  no_action ignored : ForceFired
  rejected : String → ForceFired
  forced : List ActiveBatch → Option String → ForceFired

-- validateForceFireBatch
unfoldable pub may_force_fire : ActiveBatch → Bool → Bool
may_force_fire b include_partial = include_partial || is_empty b.failures

-- strings.Join(failedComponentNames(batch), ", ")
abbrev join_names : List FailedEntry → String
join_names [] = ""
join_names (e ∷ []) = e.from
join_names (e ∷ e' ∷ l) = text_append e.from (text_append ", " (join_names (e' ∷ l)))

abbrev pub refusal : Fired → Option String
refusal (fired b) = none
refusal (refused e) = some e

-- findForceFireBatch takes the first accumulating batch, or else the first stopped one.
abbrev pub force_fire_test : List ActiveBatch → String → ActiveBatch → Bool
force_fire_test batches target b =
    b.target == target && elim (find_accumulating_batch batches target) [
      | some a ↦ is_accumulating b.phase
      | none ↦ is_stopped b.phase
    ]

unfoldable pub force_fire_at : Cluster → List ActiveBatch → String → Bool → ForceFired
unfolding may_force_fire find_force_fire_batch is_batch_firing_for_target
force_fire_at c batches target include_partial =
    if is_batch_firing_for_target batches target
    then ignored
    else elim (find_force_fire_batch batches target) [
      | none ↦ rejected (text_append "no force-fireable batch for target " (quote target))
      | some b ↦
          if is_empty b.accumulated
          then rejected (
              text_append "active batch for target "
                (text_append (quote target) " has no accumulated builds"))
          else if not (may_force_fire b include_partial)
          then rejected (
              text_append "forceFire rejected: includePartial=false but failed components remain: "
                (join_names b.failures))
          else forced
              (store_first (force_fire_test batches target) (settle b (fire_batch c b)) batches)
              (refusal (fire_batch c b))
    ]

unfoldable pub process_force_fire_action :
    Cluster → Option ForceFireAction → List ActiveBatch → ForceFired
process_force_fire_action c none batches = no_action
process_force_fire_action c (some action) batches =
    force_fire_at c batches action.target (or_else action.include_partial true)
