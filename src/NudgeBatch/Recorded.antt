-- ===== src/NudgeBatch/Recorded.antt =====
-- Each operation that records a build keeps the invariant of Soundness.
use integration_service.Base.{
  Bool, Bool-cases, IsNodup, List, Option, Option-cases, String, arith, contains, eq_iff, eq_of_==,
  false, if◌then◌else◌, inl, inr, leb, none, refl, some, subst, sym, true, ℕ, ◌&&◌, ◌+◌, ◌==◌, ◌∙◌,
  ◌≡◌, ◌≤◌,
}
use integration_service.NudgeConfig.{
  FailurePolicyType, NudgeConfigSpec, block, effective_batch_policy, proceed_with_partial,
}
use integration_service.NudgeBatch.{
  AccumulatedEntry, ActiveBatch, FailedEntry, accepting_batch, accepts, failed_from_of, find_first,
  from_of, froms, is_accepting, is_blocked, is_empty, new_batch, remove_accumulated_component,
  remove_failed_component, schedule_batch_fire, set_fire_at, store_first, upsert_accumulated_entry,
  upsert_failed_entry,
}
use integration_service.NudgeBatch.Entries.{
  froms-upsert, froms-without, upsert-IsNodup, without-IsNodup,
}
use integration_service.NudgeBatch.Counting.{count, store_first-found, store_first-missing}
use integration_service.NudgeBatch.Recording.{
  record_failure, record_success, add_build, add_failure, failed_entry, store_build, to_attempt,
  unblock,
}
use integration_service.NudgeBatch.Soundness.{
  IsSound, IsSoundBatch, accepting-not_firing, append-IsSound, replace-IsSound, upsert-is_empty,
}
use integration_service.NudgeBatch.Firing.{max_batch_nudge_plr_retries}
use integration_service.NudgeBatch.Events.{after_attempt}

pub new_batch-IsSoundBatch :
    (target : String) (now max_wait : ℕ) → IsSoundBatch (new_batch target now max_wait)
new_batch-IsSoundBatch target now max_wait = (tt, tt, λ k. refl, λ h. refl, λ h. cc, omega arith)

pub find_first-missing_count :
    (target : String) (batches : List ActiveBatch) (t : String)
    → find_first (accepts target) batches ≡ none
    → (target == t) ≡ true
    → count (accepts t) batches ≡ 0
find_first-missing_count target batches t h e =
    subst (λ x. count (accepts x) batches ≡ 0) (eq_of_== target t e)
      (store_first-missing (accepts target) batches (new_batch target 0 0) h).1

-- A change of the accepting batch that keeps it sound, accepting and its target.
pub store_accepting-IsSound :
    (target : String) (now max_wait : ℕ) (change : ActiveBatch → ActiveBatch)
    → ((b : ActiveBatch) → is_accepting b.phase ≡ true → IsSoundBatch b → IsSoundBatch (change b))
    → ((b : ActiveBatch) → (change b).target ≡ b.target)
    → ((b : ActiveBatch) → is_accepting b.phase ≡ true → is_accepting (change b).phase ≡ true)
    → (batches : List ActiveBatch) → IsSound batches
    → IsSound (
        store_first (accepts target) (change (accepting_batch batches target now max_wait)) batches)
unfolding accepting_batch
store_accepting-IsSound target now max_wait change keeps same accept batches sound =
    elim (Option-cases (find_first (accepts target) batches)) [
      | inl absent ↦ rw absent (
          let new = change (new_batch target now max_wait) in
          subst IsSound (sym (store_first-missing (accepts target) batches new absent).0) (
            append-IsSound batches new
              (keeps (new_batch target now max_wait) refl
                (new_batch-IsSoundBatch target now max_wait))
              (λ t. λ h. find_first-missing_count target batches t absent (
                ground (
                  arith,
                  same (new_batch target now max_wait),
                  eq_iff (change (new_batch target now max_wait)).target t,
                  eq_iff target t,
                )))
              (ground (
                arith,
                accept (new_batch target now max_wait) refl,
                accepting-not_firing (change (new_batch target now max_wait)).phase,
              ))
              sound))
      | inr (b, found) ↦ rw found (
          let (l, rest, at, passes, write) = store_first-found (accepts target) batches b found in
          subst IsSound (sym (write (change b))) (
            replace-IsSound l b (change b) rest (keeps b (ground (arith, passes)))
              (λ t. λ h. ground (
                arith,
                passes,
                same b,
                eq_iff (change b).target t,
                eq_iff b.target t,
                eq_iff b.target target,
              ))
              (λ t. λ h. ground (arith, passes, accept b, accepting-not_firing (change b).phase))
              (subst IsSound at sound)))
    ]

if_sound :
    (b b' : ActiveBatch) (c : Bool)
    → IsSoundBatch b
    → IsSoundBatch b'
    → IsSoundBatch (if c then b else b')
if_sound b b' true s s' = s
if_sound b b' false s s' = s'

set_fire_at-IsSoundBatch :
    (t : Option ℕ) (b : ActiveBatch)
    → is_blocked b.phase ≡ false
    → IsSoundBatch b
    → IsSoundBatch (set_fire_at t b)
set_fire_at-IsSoundBatch t b e (n, m, d, held, why, r) = (n, m, d, (λ h. cc), why, r)

pub schedule-IsSoundBatch :
    (now debounce : ℕ) (b : ActiveBatch)
    → IsSoundBatch b
    → IsSoundBatch (schedule_batch_fire now debounce b)
unfolding schedule_batch_fire
schedule-IsSoundBatch now debounce b s = elim (Bool-cases (is_blocked b.phase)) [
  | inl e ↦ rw e s
  | inr e ↦ rw e (
      if_sound (set_fire_at none b) _ (is_empty b.accumulated) (set_fire_at-IsSoundBatch none b e s)
        (if_sound (set_fire_at (some now) b) (set_fire_at (some (now + debounce)) b)
          (leb b.hard_deadline now) (set_fire_at-IsSoundBatch (some now) b e s)
          (set_fire_at-IsSoundBatch (some (now + debounce)) b e s)))
]

-- Sound but for a blocked batch whose last failure is gone.
pub unblock-IsSoundBatch :
    (b : ActiveBatch)
    → IsNodup (froms from_of b.accumulated)
    → IsNodup (froms failed_from_of b.failures)
    → ((k : String)
        → (contains (froms from_of b.accumulated) k && contains (froms failed_from_of b.failures) k)
          ≡ false)
    → (is_blocked b.phase ≡ true → b.fire_at ≡ none)
    → b.retry_count ≤ max_batch_nudge_plr_retries
    → IsSoundBatch (unblock b)
unfolding unblock
unblock-IsSoundBatch b n m d held r =
    elim (Bool-cases (is_blocked b.phase && is_empty b.failures)) [
      | inl e ↦ rw e (n, m, d, (λ h. cc), (λ h. cc), r)
      | inr e ↦ rw e (n, m, d, held, (λ h. ground (arith, h, e)), r)
    ]

pub add_build-IsSoundBatch :
    (entry : AccumulatedEntry) (now debounce : ℕ) (b : ActiveBatch)
    → IsSoundBatch b
    → IsSoundBatch (add_build entry now debounce b)
unfolding add_build upsert_accumulated_entry remove_failed_component
add_build-IsSoundBatch entry now debounce b (n, m, d, held, why, r) =
    schedule-IsSoundBatch now debounce _ (
      unblock-IsSoundBatch _ (upsert-IsNodup from_of entry b.accumulated n)
        (without-IsNodup failed_from_of entry.from b.failures m)
        (λ k. ground (
          arith,
          d k,
          froms-upsert from_of entry b.accumulated k,
          froms-without failed_from_of entry.from b.failures k,
        ))
        held r)

pub add_failure-IsSoundBatch :
    (entry : FailedEntry) (policy : FailurePolicyType) (b : ActiveBatch)
    → IsSoundBatch b
    → IsSoundBatch (add_failure entry policy b)
unfolding add_failure upsert_failed_entry remove_accumulated_component
add_failure-IsSoundBatch entry block b (n, m, d, held, why, r) = (
  without-IsNodup from_of entry.from b.accumulated n,
  upsert-IsNodup failed_from_of entry b.failures m,
  (λ k. ground (
    arith,
    d k,
    froms-upsert failed_from_of entry b.failures k,
    froms-without from_of entry.from b.accumulated k,
  )),
  (λ h. refl),
  (λ h. upsert-is_empty failed_from_of entry b.failures),
  r,
)
add_failure-IsSoundBatch entry proceed_with_partial b (n, m, d, held, why, r) = (
  without-IsNodup from_of entry.from b.accumulated n,
  upsert-IsNodup failed_from_of entry b.failures m,
  (λ k. ground (
    arith,
    d k,
    froms-upsert failed_from_of entry b.failures k,
    froms-without from_of entry.from b.accumulated k,
  )),
  held,
  (λ h. upsert-is_empty failed_from_of entry b.failures),
  r,
)

pub schedule-accepting :
    (now debounce : ℕ) (b : ActiveBatch)
    → ((schedule_batch_fire now debounce b).target ≡ b.target)
      × ((schedule_batch_fire now debounce b).phase ≡ b.phase)
unfolding schedule_batch_fire
schedule-accepting now debounce b = ground arith

pub unblock-accepting :
    (b : ActiveBatch)
    → ((unblock b).target ≡ b.target)
      × (is_accepting b.phase ≡ true → is_accepting (unblock b).phase ≡ true)
unfolding unblock
unblock-accepting b = ground arith

pub store_build-IsSound :
    (spec : NudgeConfigSpec) (target : String) (entry : AccumulatedEntry) (now : ℕ)
    (batches : List ActiveBatch)
    → IsSound batches
    → IsSound (store_build spec target entry now batches)
unfolding store_build add_build upsert_accumulated_entry remove_failed_component
store_build-IsSound spec target entry now batches =
    let policy = effective_batch_policy spec target in
    store_accepting-IsSound target now policy.max_wait (add_build entry now policy.debounce)
      (λ b a. add_build-IsSoundBatch entry now policy.debounce b)
      (λ b. (schedule-accepting now policy.debounce _).0 ∙ (unblock-accepting _).0)
      (λ b a.
        subst (λ p. is_accepting p ≡ true) (sym (schedule-accepting now policy.debounce _).1)
          ((unblock-accepting _).1 a))
      batches

patch-IsSound :
    (unless : Bool) (new batches : List ActiveBatch)
    → IsSound new
    → IsSound batches
    → IsSound (after_attempt batches (to_attempt (if unless then none else some new)))
patch-IsSound true new batches s s' = s'
patch-IsSound false new batches s s' = s

pub record_success-IsSound :
    (spec : NudgeConfigSpec) (target source ref digest account : String) (now : ℕ)
    (batches : List ActiveBatch)
    → IsSound batches
    → IsSound (
        after_attempt batches
          (to_attempt (record_success spec target source ref digest account now batches)))
unfolding record_success
record_success-IsSound spec target source ref digest account now batches s =
    patch-IsSound _ _ batches (store_build-IsSound spec target _ now batches s) s

add_failure-accepting :
    (entry : FailedEntry) (policy : FailurePolicyType) (b : ActiveBatch)
    → ((add_failure entry policy b).target ≡ b.target)
      × (is_accepting b.phase ≡ true → is_accepting (add_failure entry policy b).phase ≡ true)
unfolding add_failure upsert_failed_entry remove_accumulated_component
add_failure-accepting entry block b = (refl, λ h. refl)
add_failure-accepting entry proceed_with_partial b = (refl, λ h. h)

pub record_failure-IsSound :
    (spec : NudgeConfigSpec) (target source ref reason : String) (now : ℕ)
    (batches : List ActiveBatch)
    → IsSound batches
    → IsSound (
        after_attempt batches
          (to_attempt (record_failure spec target source ref reason now batches)))
unfolding record_failure
record_failure-IsSound spec target source ref reason now batches s =
    let policy = effective_batch_policy spec target in
    let entry = failed_entry source ref reason now in
    patch-IsSound _ _ batches
      (store_accepting-IsSound target now policy.max_wait (add_failure entry policy.failure)
        (λ b a. add_failure-IsSoundBatch entry policy.failure b)
        (λ b. (add_failure-accepting entry policy.failure b).0)
        (λ b. (add_failure-accepting entry policy.failure b).1) batches s)
      s
