-- ===== src/NudgeBatch/Effects.antt =====
-- What one record of a build does to the batches of its target.
use integration_service.Base.{
  ==_self, Bool, Bool-cases, List, String, [], ap, arith, contains, false, if◌then◌else◌, inl, inr,
  leb, refl, some, sym, true, ℕ, ◌&&◌, ◌++◌, ◌+◌, ◌==◌, ◌||◌, ◌∙◌, ◌∷◌, ◌≡◌,
}
use integration_service.NudgeConfig.{NudgeConfigSpec, effective_batch_policy}
use integration_service.NudgeBatch.{
  AccumulatedEntry, ActiveBatch, BatchPhase, FailedEntry, accepting_batch, accepts, accumulating,
  blocked, completed, failed, failed_from_of, find_first, firing, from_of, froms, is_accepting,
  is_accumulating, is_blocked, is_empty, remove_failed_component, schedule_batch_fire, store_first,
  upsert, upsert_accumulated_entry, without,
}
use integration_service.NudgeBatch.Entries.{entry_of, entry_of-upsert, froms-without}
use integration_service.NudgeBatch.Counting.{EveryBatch}
use integration_service.NudgeBatch.Recording.{add_build, store_build, unblock}
use integration_service.NudgeBatch.Soundness.{upsert-is_empty}

-- A batch of the target that still takes builds: one that accumulates or is blocked.
abbrev pub is_open_for : String → ActiveBatch → Bool
is_open_for target b = b.target == target && (is_accumulating b.phase || is_blocked b.phase)

pub accepts_eq : (target : String) (b : ActiveBatch) → accepts target b ≡ is_open_for target b
accepts_eq target b = ap (λ x. b.target == target && x) (phases b.phase)
  where
    phases : (p : BatchPhase) → is_accepting p ≡ (is_accumulating p || is_blocked p)
    phases accumulating = refl
    phases blocked = refl
    phases firing = refl
    phases failed = refl
    phases completed = refl

find_first-append :
    (target : String) (front : List ActiveBatch) (old : ActiveBatch) (back : List ActiveBatch)
    → EveryBatch (λ b. is_open_for target b ≡ false) front
    → is_open_for target old ≡ true
    → find_first (accepts target) (front ++ old ∷ back) ≡ some old
find_first-append target [] old back h is_open = rw (accepts_eq target old, is_open) refl
find_first-append target (b ∷ front) old back h is_open =
    rw (accepts_eq target b, h.0) (find_first-append target front old back h.1 is_open)

store_first-append :
    (target : String) (new : ActiveBatch) (front : List ActiveBatch) (old : ActiveBatch)
    (back : List ActiveBatch)
    → EveryBatch (λ b. is_open_for target b ≡ false) front
    → is_open_for target old ≡ true
    → store_first (accepts target) new (front ++ old ∷ back) ≡ (front ++ new ∷ back)
store_first-append target new [] old back h is_open = rw (accepts_eq target old, is_open) refl
store_first-append target new (b ∷ front) old back h is_open =
    rw (accepts_eq target b, h.0)
      (ap (λ l. b ∷ l) (store_first-append target new front old back h.1 is_open))

-- What a batch is after a build that it was given.
pub record HasBuild (entry : AccumulatedEntry) (now debounce : ℕ) (old b : ActiveBatch)
    : Type 0 where
  pub listed : entry_of from_of entry.from b.accumulated ≡ some entry
  pub others_listed :
      (from : String)
      → (entry.from == from) ≡ false
      → entry_of from_of from b.accumulated ≡ entry_of from_of from old.accumulated
  pub not_failed : contains (froms failed_from_of b.failures) entry.from ≡ false
  pub others_failed :
      (from : String)
      → (entry.from == from) ≡ false
      → contains (froms failed_from_of b.failures) from
        ≡ contains (froms failed_from_of old.failures) from
  pub same_target : b.target ≡ old.target
  pub same_batch : b.batch_id ≡ old.batch_id
  pub same_deadline : b.hard_deadline ≡ old.hard_deadline
  pub scheduled :
      is_accumulating b.phase ≡ true
      → b.fire_at ≡ some (if leb old.hard_deadline now then now else now + debounce)
  pub freed : is_empty b.failures ≡ true → is_accumulating b.phase ≡ true

absurd_blocked {ℓ} :
    {A : Type ℓ} (p : BatchPhase) → is_blocked p ≡ true → is_accumulating p ≡ true → A
absurd_blocked accumulating = λ h k. cc
absurd_blocked blocked = λ h k. cc
absurd_blocked firing = λ h k. cc
absurd_blocked failed = λ h k. cc
absurd_blocked completed = λ h k. cc

not_blocked-accumulating :
    (p : BatchPhase) → is_accepting p ≡ true → is_blocked p ≡ false → is_accumulating p ≡ true
not_blocked-accumulating accumulating = λ h k. refl
not_blocked-accumulating blocked = λ h k. cc
not_blocked-accumulating firing = λ h k. cc
not_blocked-accumulating failed = λ h k. cc
not_blocked-accumulating completed = λ h k. cc

schedule-HasBuild :
    (entry : AccumulatedEntry) (now debounce : ℕ) (old b : ActiveBatch)
    → entry_of from_of entry.from b.accumulated ≡ some entry
    → contains (froms failed_from_of b.failures) entry.from ≡ false
    → ((from : String)
        → (entry.from == from) ≡ false
        → entry_of from_of from b.accumulated ≡ entry_of from_of from old.accumulated)
    → ((from : String)
        → (entry.from == from) ≡ false
        → contains (froms failed_from_of b.failures) from
          ≡ contains (froms failed_from_of old.failures) from)
    → b.target ≡ old.target
    → b.batch_id ≡ old.batch_id
    → b.hard_deadline ≡ old.hard_deadline
    → is_empty b.accumulated ≡ false
    → is_accepting b.phase ≡ true
    → (is_empty b.failures ≡ true → is_blocked b.phase ≡ false)
    → HasBuild entry now debounce old (schedule_batch_fire now debounce b)
unfolding schedule_batch_fire
schedule-HasBuild entry now debounce old b listed clear others failures target same deadline full
      accepting free =
    elim (Bool-cases (is_blocked b.phase)) [
      | inl e ↦ rw e (record {
        listed = listed;
        others_listed = others;
        not_failed = clear;
        others_failed = failures;
        same_target = target;
        same_batch = same;
        same_deadline = deadline;
        scheduled = λ h. absurd_blocked b.phase e h;
        freed = λ h. ground (arith, free h, e);
      })
      | inr e ↦ rw e (
          rw full (elim (Bool-cases (leb b.hard_deadline now)) [
            | inl late ↦ rw late (record {
              listed = listed;
              others_listed = others;
              not_failed = clear;
              others_failed = failures;
              same_target = target;
              same_batch = same;
              same_deadline = deadline;
              scheduled = λ h. rw (sym deadline) (rw late refl);
              freed = λ h. not_blocked-accumulating b.phase accepting e;
            })
            | inr early ↦ rw early (record {
              listed = listed;
              others_listed = others;
              not_failed = clear;
              others_failed = failures;
              same_target = target;
              same_batch = same;
              same_deadline = deadline;
              scheduled = λ h. rw (sym deadline) (rw early refl);
              freed = λ h. not_blocked-accumulating b.phase accepting e;
            })
          ]))
    ]

-- The source's build in place of its older build or failure.
abbrev swapped : AccumulatedEntry → ActiveBatch → ActiveBatch
swapped entry old = record old {
  accumulated = upsert from_of entry old.accumulated;
  failures = without failed_from_of entry.from old.failures;
}

add_build-HasBuild :
    (entry : AccumulatedEntry) (now debounce : ℕ) (old : ActiveBatch)
    → is_accepting old.phase ≡ true
    → HasBuild entry now debounce old (add_build entry now debounce old)
unfolding add_build upsert_accumulated_entry remove_failed_component unblock
add_build-HasBuild entry now debounce old a =
    elim (Bool-cases
      (is_blocked old.phase && is_empty (without failed_from_of entry.from old.failures))) [
        | inl e ↦ rw e (
            schedule-HasBuild entry now debounce old
              (record (swapped entry old) { phase = accumulating })
              (listed_now entry old.accumulated) (cleared entry.from old.failures)
              (others_stay old.accumulated) (failures_stay old.failures) refl refl refl
              (upsert-is_empty from_of entry old.accumulated) refl (λ h. refl))
        | inr e ↦ rw e (
            schedule-HasBuild entry now debounce old (swapped entry old)
              (listed_now entry old.accumulated) (cleared entry.from old.failures)
              (others_stay old.accumulated) (failures_stay old.failures) refl refl refl
              (upsert-is_empty from_of entry old.accumulated) a (λ h. ground (arith, e, h)))
      ]
  where
    listed_now :
        (entry : AccumulatedEntry) (l : List AccumulatedEntry)
        → entry_of from_of entry.from (upsert from_of entry l) ≡ some entry
    listed_now entry l =
        rw (entry_of-upsert from_of entry l entry.from) (rw (==_self entry.from) refl)

    others_stay :
        (l : List AccumulatedEntry) (from : String)
        → (entry.from == from) ≡ false
        → entry_of from_of from (upsert from_of entry l) ≡ entry_of from_of from l
    others_stay l from other = rw (entry_of-upsert from_of entry l from) (rw other refl)

    failures_stay :
        (l : List FailedEntry) (from : String)
        → (entry.from == from) ≡ false
        → contains (froms failed_from_of (without failed_from_of entry.from l)) from
          ≡ contains (froms failed_from_of l) from
    failures_stay l from other = rw (froms-without failed_from_of entry.from l from) (rw other refl)

    cleared :
        (from : String) (l : List FailedEntry)
        → contains (froms failed_from_of (without failed_from_of from l)) from ≡ false
    cleared from l = rw (froms-without failed_from_of from l from) (rw (==_self from) refl)

-- What a record of a build does to the first open batch of the target: it lists the build's entry in
-- place of the source's older build or failure, and keeps the builds and failures of the other sources;
-- the other batches stay as they are, and where they are. If the batch is not blocked, it is due after
-- the debounce time, or at once past its deadline; and it is not blocked if no failure is left.
pub store_build-HasBuild :
    (spec : NudgeConfigSpec) (target : String) (entry : AccumulatedEntry) (now : ℕ)
    (front : List ActiveBatch) (old : ActiveBatch) (back : List ActiveBatch)
    → EveryBatch (λ b. is_open_for target b ≡ false) front
    → is_open_for target old ≡ true
    → (b : ActiveBatch) × (store_build spec target entry now (front ++ old ∷ back)
        ≡ (front ++ b ∷ back))
      × HasBuild entry now (effective_batch_policy spec target).debounce old b
unfolding store_build accepting_batch
store_build-HasBuild spec target entry now front old back closed is_open =
    let debounce = (effective_batch_policy spec target).debounce in
    let accepted : accepts target old ≡ true = accepts_eq target old ∙ is_open in
    (
      add_build entry now debounce old,
      rw (find_first-append target front old back closed is_open) (
          store_first-append target (add_build entry now debounce old) front old back closed
            is_open),
      add_build-HasBuild entry now debounce old (ground (arith, accepted)),
    )
