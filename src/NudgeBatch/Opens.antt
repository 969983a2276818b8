-- ===== src/NudgeBatch/Opens.antt =====
-- What a record of a build does while its target has no open batch.
use integration_service.Base.{
  Bool-cases, List, String, [], ap, arith, false, if◌then◌else◌, inl, inr, leb, nat_eq, none, refl,
  some, ℕ, ◌++◌, ◌+◌, ◌∷◌, ◌≡◌,
}
use integration_service.NudgeConfig.{NudgeConfigSpec, effective_batch_policy}
use integration_service.NudgeBatch.{
  AccumulatedEntry, ActiveBatch, accepting_batch, accepts, accumulating, find_first, new_batch,
  remove_failed_component, schedule_batch_fire, store_first, upsert_accumulated_entry,
}
use integration_service.NudgeBatch.Counting.{EveryBatch}
use integration_service.NudgeBatch.Recording.{add_build, store_build, unblock}
use integration_service.NudgeBatch.Effects.{accepts_eq, is_open_for}

find_first-none :
    (target : String) (batches : List ActiveBatch)
    → EveryBatch (λ b. is_open_for target b ≡ false) batches
    → find_first (accepts target) batches ≡ none
find_first-none target [] h = refl
find_first-none target (b ∷ batches) h =
    rw (accepts_eq target b, h.0) (find_first-none target batches h.1)

store_first-none :
    (target : String) (new : ActiveBatch) (batches : List ActiveBatch)
    → EveryBatch (λ b. is_open_for target b ≡ false) batches
    → store_first (accepts target) new batches ≡ (batches ++ new ∷ [])
store_first-none target new [] h = refl
store_first-none target new (b ∷ batches) h =
    rw (accepts_eq target b, h.0) (ap (λ l. b ∷ l) (store_first-none target new batches h.1))

-- What a batch is that a build has opened.
pub record IsOpened (target : String) (entry : AccumulatedEntry) (now debounce max_wait : ℕ)
    (b : ActiveBatch) : Type 0 where
  pub for_target : b.target ≡ target
  pub accumulates : b.phase ≡ accumulating
  pub opened_now : b.created_at ≡ now
  pub deadline : b.hard_deadline ≡ now + max_wait
  pub alone : b.accumulated ≡ entry ∷ []
  pub nothing_failed : b.failures ≡ []
  pub due : b.fire_at ≡ some (if nat_eq max_wait 0 then now else now + debounce)
  pub not_retried : b.retry_count ≡ 0

leb-add : (now wait : ℕ) → leb (now + wait) now ≡ nat_eq wait 0
leb-add now wait = ground arith

add_build-IsOpened :
    (target : String) (entry : AccumulatedEntry) (now debounce max_wait : ℕ)
    → IsOpened target entry now debounce max_wait
        (add_build entry now debounce (new_batch target now max_wait))
unfolding add_build upsert_accumulated_entry remove_failed_component unblock schedule_batch_fire
add_build-IsOpened target entry now debounce max_wait = elim (Bool-cases (nat_eq max_wait 0)) [
  | inl e ↦ rw (leb-add now max_wait, e) (opened (rw e refl))
  | inr e ↦ rw (leb-add now max_wait, e) (opened (rw e refl))
]
  where
    opened :
        {t : ℕ}
        → some t ≡ some (if nat_eq max_wait 0 then now else now + debounce)
        → IsOpened target entry now debounce max_wait
            (record (new_batch target now max_wait) { accumulated = entry ∷ []; fire_at = some t })
    opened h = record {
      for_target = refl;
      accumulates = refl;
      opened_now = refl;
      deadline = refl;
      alone = refl;
      nothing_failed = refl;
      due = h;
      not_retried = refl;
    }

-- A record of a build while the target has no open batch appends one, which accumulates this build alone,
-- with a deadline after the longest wait, and due after the debounce time, or at once if the longest
-- wait is zero.
pub store_build-opens :
    (spec : NudgeConfigSpec) (target : String) (entry : AccumulatedEntry) (now : ℕ)
    (batches : List ActiveBatch)
    → EveryBatch (λ b. is_open_for target b ≡ false) batches
    → (b : ActiveBatch) × (store_build spec target entry now batches ≡ (batches ++ b ∷ []))
      × IsOpened target entry now
          (effective_batch_policy spec target).debounce
          (effective_batch_policy spec target).max_wait
          b
unfolding store_build accepting_batch
store_build-opens spec target entry now batches closed =
    let policy = effective_batch_policy spec target in
    let b = add_build entry now policy.debounce (new_batch target now policy.max_wait) in
    (
      b,
      rw (find_first-none target batches closed) (store_first-none target b batches closed),
      add_build-IsOpened target entry now policy.debounce policy.max_wait,
    )
