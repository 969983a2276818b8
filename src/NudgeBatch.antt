-- ===== src/NudgeBatch.antt =====
-- tekton/nudging/nudge_batch.go: the batches of builds that nudge one target together.
--
-- Each function of the source reads the latest NudgeConfig, computes, and patches the status, all of
-- it again when the patch meets a conflict. An operation here is one such attempt: it takes the
-- batches that were read, and returns those to patch, or none where the source does not patch.
-- A time is a count of nanoseconds, and 0 is the zero time.
mod Names
mod Entries
pub mod Counting
pub mod Recording
pub mod Firing
pub mod Events
pub mod Soundness
pub mod Recorded
pub mod Fires
pub mod Invariant
pub mod Due
pub mod Effects
pub mod Opens
pub mod Schedule
mod Tests
unfoldable pub use Names.{batch_pipeline_run_name, new_batch_id}
pub use Entries.{AccumulatedEntry, FailedEntry, from_of, failed_from_of, upsert, without, froms}
use integration_service.Base.{
  Bool, List, Option, String, [], false, if◌then◌else◌, leb, ltb, nat_eq, none, not, some, true, ℕ,
  ◌&&◌, ◌+◌, ◌-◌, ◌==◌, ◌||◌, ◌∷◌,
}
use integration_service.NudgeConfig.{FailurePolicyType, block, or_else, proceed_with_partial}

pub data BatchPhase : Type 0 where
  accumulating blocked firing failed completed : BatchPhase

pub record ActiveBatch : Type 0 where
  pub target : String
  pub batch_id : String
  pub phase : BatchPhase
  pub created_at : ℕ
  pub fire_at : Option ℕ
  pub hard_deadline : ℕ
  pub accumulated : List AccumulatedEntry
  pub failures : List FailedEntry
  pub nudge_pipeline_run : String
  pub message : String
  pub retry_count : ℕ

abbrev pub is_accumulating : BatchPhase → Bool
is_accumulating accumulating = true
is_accumulating _ = false

abbrev pub is_accepting : BatchPhase → Bool
is_accepting accumulating = true
is_accepting blocked = true
is_accepting _ = false

abbrev pub is_firing : BatchPhase → Bool
is_firing firing = true
is_firing _ = false

abbrev pub is_blocked : BatchPhase → Bool
is_blocked blocked = true
is_blocked _ = false

abbrev pub is_stopped : BatchPhase → Bool
is_stopped blocked = true
is_stopped failed = true
is_stopped _ = false

abbrev pub is_empty {ℓ} : {A : Type ℓ} → List A → Bool
is_empty [] = true
is_empty (x ∷ l) = false

abbrev pub accepts : String → ActiveBatch → Bool
accepts target b = b.target == target && is_accepting b.phase

abbrev pub fires_for : String → ActiveBatch → Bool
fires_for target b = b.target == target && is_firing b.phase

abbrev pub find_first : (ActiveBatch → Bool) → List ActiveBatch → Option ActiveBatch
find_first test [] = none
find_first test (b ∷ batches) = if test b then some b else find_first test batches

-- A write through the index of the first batch that passes the test, or an append if there is none.
abbrev pub store_first : (ActiveBatch → Bool) → ActiveBatch → List ActiveBatch → List ActiveBatch
store_first test new [] = new ∷ []
store_first test new (b ∷ batches) =
    let rest = store_first test new batches in if test b then new ∷ batches else b ∷ rest

unfoldable pub is_batch_firing_for_target : List ActiveBatch → String → Bool
is_batch_firing_for_target [] target = false
is_batch_firing_for_target (b ∷ batches) target =
    fires_for target b || is_batch_firing_for_target batches target

unfoldable pub has_firing_nudge_batches : List ActiveBatch → Bool
has_firing_nudge_batches [] = false
has_firing_nudge_batches (b ∷ batches) = is_firing b.phase || has_firing_nudge_batches batches

unfoldable pub find_accumulating_batch : List ActiveBatch → String → Option ActiveBatch
find_accumulating_batch batches target =
    find_first (λ b. b.target == target && is_accumulating b.phase) batches

unfoldable pub find_force_fire_batch : List ActiveBatch → String → Option ActiveBatch
unfolding find_accumulating_batch
find_force_fire_batch batches target = elim (find_accumulating_batch batches target) [
  | some b ↦ some b
  | none ↦ find_first (λ b. b.target == target && is_stopped b.phase) batches
]

abbrev pub new_batch : String → ℕ → ℕ → ActiveBatch
new_batch target now max_wait =
    let batch_id = new_batch_id target now in
    record {
      target = target;
      batch_id = batch_id;
      phase = accumulating;
      created_at = now;
      fire_at = none;
      hard_deadline = now + max_wait;
      accumulated = [];
      failures = [];
      nudge_pipeline_run = batch_pipeline_run_name batch_id 0;
      message = "";
      retry_count = 0;
    }

-- The batch that findOrCreateAcceptingBatch points to; `store_first (accepts target)` writes it back.
unfoldable pub accepting_batch : List ActiveBatch → String → ℕ → ℕ → ActiveBatch
accepting_batch batches target now max_wait =
    or_else (find_first (accepts target) batches) (new_batch target now max_wait)

unfoldable pub upsert_accumulated_entry : AccumulatedEntry → ActiveBatch → ActiveBatch
upsert_accumulated_entry entry b = record b { accumulated = upsert from_of entry b.accumulated }

unfoldable pub remove_accumulated_component : String → ActiveBatch → ActiveBatch
remove_accumulated_component from b = record b { accumulated = without from_of from b.accumulated }

unfoldable pub upsert_failed_entry : FailedEntry → ActiveBatch → ActiveBatch
upsert_failed_entry entry b = record b { failures = upsert failed_from_of entry b.failures }

unfoldable pub remove_failed_component : String → ActiveBatch → ActiveBatch
remove_failed_component from b = record b { failures = without failed_from_of from b.failures }

abbrev pub set_fire_at : Option ℕ → ActiveBatch → ActiveBatch
set_fire_at t b = record b { fire_at = t }

unfoldable pub schedule_batch_fire : ℕ → ℕ → ActiveBatch → ActiveBatch
schedule_batch_fire now debounce b =
    if is_blocked b.phase
    then b
    else if is_empty b.accumulated
    then set_fire_at none b
    else if leb b.hard_deadline now
    then set_fire_at (some now) b
    else set_fire_at (some (now + debounce)) b

unfoldable pub batch_timer_expired : ℕ → ActiveBatch → Bool
batch_timer_expired now b =
    not (nat_eq b.hard_deadline 0) && leb b.hard_deadline now
    || elim b.fire_at [ some t ↦ leb t now | none ↦ false ]

unfoldable pub batch_should_fire : ℕ → ActiveBatch → Bool
unfolding batch_timer_expired
batch_should_fire now b = not (is_empty b.accumulated) && batch_timer_expired now b

unfoldable pub batch_allows_scheduled_fire : ActiveBatch → FailurePolicyType → Bool
batch_allows_scheduled_fire b policy =
    is_empty b.failures
    || elim policy [ proceed_with_partial ↦ not (is_empty b.accumulated) | block ↦ false ]

-- The second loop of NextBatchWakeDuration: `next` is the shortest wait so far, 0 for none.
unfoldable pub shortest_wait : ℕ → ℕ → List ActiveBatch → ℕ
shortest_wait now next [] = next
shortest_wait now next (b ∷ batches) =
    let skip = shortest_wait now next batches in
    elim (is_accumulating b.phase) [
      | false ↦ skip
      | true ↦ elim b.fire_at [
        | none ↦ skip
        | some t ↦
            if leb t now
            then 0
            else shortest_wait now (if nat_eq next 0 || ltb (t - now) next then t - now else next)
                batches
      ]
    ]

unfoldable pub next_batch_wake_duration : ℕ → List ActiveBatch → ℕ
unfolding has_firing_nudge_batches shortest_wait
next_batch_wake_duration now batches =
    if has_firing_nudge_batches batches then 1 else shortest_wait now 0 batches
