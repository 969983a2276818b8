-- ===== src/NudgeBatch/Schedule.antt =====
-- When the controller wakes up for the batches.
use integration_service.Base.{
  Bool, Bool-cases, List, Option-cases, [], ap, arith, false, if◌then◌else◌, inl, inr, leb, ltb,
  nat_eq, none, some, true, ℕ, ◌&&◌, ◌-◌, ◌<◌, ◌||◌, ◌∷◌, ◌≡◌, ◌≤◌,
}
use integration_service.NudgeConfig.{or_else}
use integration_service.NudgeBatch.{
  ActiveBatch, has_firing_nudge_batches, is_accumulating, next_batch_wake_duration, shortest_wait,
}
use integration_service.NudgeBatch.Counting.{EveryBatch, count}

-- A wake that comes no later than the batch's time to fire.
abbrev pub WakesFor : ℕ → ℕ → ActiveBatch → Type 0
WakesFor now wake b = (t : ℕ) → is_accumulating b.phase ≡ true → b.fire_at ≡ some t → wake ≤ t - now

-- The shortest wait with one more.
abbrev shorter : ℕ → ℕ → ℕ
shorter next wait = if nat_eq next 0 || ltb wait next then wait else next

shortest_wait-le :
    (now next : ℕ) (batches : List ActiveBatch) → 0 < next → shortest_wait now next batches ≤ next
unfolding shortest_wait
shortest_wait-le now next [] p = omega arith
shortest_wait-le now next (b ∷ batches) p = elim (Bool-cases (is_accumulating b.phase)) [
  | inr e ↦ rw (e, shortest_wait) (shortest_wait-le now next batches p)
  | inl e ↦
      rw (e, shortest_wait)
        (elim (Option-cases (b.fire_at)) [
          | inl f ↦ rw f (shortest_wait-le now next batches p)
          | inr (t, f) ↦
              rw f (ground (arith, shortest_wait-le now (shorter next (t - now)) batches))
        ])
]

shortest_wait-WakesFor :
    (now next wake : ℕ) (batches : List ActiveBatch)
    → wake ≤ shortest_wait now next batches
    → EveryBatch (WakesFor now wake) batches
unfolding shortest_wait
shortest_wait-WakesFor now next wake [] = λ h. tt
shortest_wait-WakesFor now next wake (b ∷ batches) = elim (Bool-cases (is_accumulating b.phase)) [
  | inr e ↦
      rw (e, shortest_wait) (λ h. ((λ t h'. cc), shortest_wait-WakesFor now next wake batches h))
  | inl e ↦
      rw (e, shortest_wait)
        (elim (Option-cases (b.fire_at)) [
          | inl f ↦ rw f (λ h. ((λ t h' k. cc), shortest_wait-WakesFor now next wake batches h))
          | inr (t, f) ↦ rw f (elim (Bool-cases (leb t now)) [
            | inl late ↦
                rw late (λ h. ((λ t' h' k. omega arith), every_zero wake batches (omega arith)))
            | inr early ↦ rw early (λ h. (
              (λ t' h' k.
                  at_once t t' h (ap (λ o. or_else o 0) k)
                    (shortest_wait-le now (shorter next (t - now)) batches)
                    (ground (arith, early))),
              shortest_wait-WakesFor now (shorter next (t - now)) wake batches h,
            ))
          ])
        ])
]
  where
    every_zero : (wake : ℕ) (l : List ActiveBatch) → wake ≤ 0 → EveryBatch (WakesFor now wake) l
    every_zero wake [] z = tt
    every_zero wake (b ∷ l) z = ((λ t h k. omega arith), every_zero wake l z)

    at_once :
        (t t' : ℕ)
        → wake ≤ shortest_wait now (shorter next (t - now)) batches
        → t ≡ t'
        → (0 < shorter next (t - now)
            → shortest_wait now (shorter next (t - now)) batches ≤ shorter next (t - now))
        → now < t
        → wake ≤ t' - now
    at_once t t' h same le early = ground arith

-- Whether a batch accumulates and has a time to fire, and whether that time has come.
abbrev pub is_timed : ActiveBatch → Bool
is_timed b = is_accumulating b.phase && elim b.fire_at [ some t ↦ true | none ↦ false ]

abbrev pub is_ripe : ℕ → ActiveBatch → Bool
is_ripe now b = is_accumulating b.phase && elim b.fire_at [ some t ↦ leb t now | none ↦ false ]

shortest_wait-positive :
    (now next : ℕ) (batches : List ActiveBatch)
    → (ltb 0 next || ltb 0 (count is_timed batches)) ≡ true
    → count (is_ripe now) batches ≡ 0
    → 0 < shortest_wait now next batches
unfolding shortest_wait
shortest_wait-positive now next [] = λ h k. ground arith
shortest_wait-positive now next (b ∷ batches) = elim (Bool-cases (is_accumulating b.phase)) [
  | inr e ↦
      rw (e, shortest_wait)
        (λ h k. shortest_wait-positive now next batches (ground (arith, h)) (omega arith))
  | inl e ↦
      rw (e, shortest_wait)
        (elim (Option-cases (b.fire_at)) [
          | inl f ↦
              rw f
                (λ h k. shortest_wait-positive now next batches (ground (arith, h)) (omega arith))
          | inr (t, f) ↦ rw f (elim (Bool-cases (leb t now)) [
            | inl late ↦ rw late (λ h k. ground (arith, k))
            | inr early ↦ rw early (λ h k.
                shortest_wait-positive now (shorter next (t - now)) batches (ground (arith, early))
                  (omega arith))
          ])
        ])
]

-- While no batch fires, the next wake comes no later than the time to fire of any accumulating
-- batch that has one; and if there is such a batch and none of them is due already, there is a
-- wake: it is not 0, which stands for none.
pub next_batch_wake_duration-WakesFor :
    (now : ℕ) (batches : List ActiveBatch)
    → has_firing_nudge_batches batches ≡ false
    → EveryBatch (WakesFor now (next_batch_wake_duration now batches)) batches
      × (0 < count is_timed batches
          → count (is_ripe now) batches ≡ 0
          → 0 < next_batch_wake_duration now batches)
unfolding next_batch_wake_duration
next_batch_wake_duration-WakesFor now batches quiet = (
  shortest_wait-WakesFor now 0 (next_batch_wake_duration now batches) batches
      (rw (quiet, next_batch_wake_duration) (omega arith)),
  rw (quiet, next_batch_wake_duration)
      (λ some_timed none_ripe. shortest_wait-positive now 0 batches (ground arith) none_ripe),
)
