-- ===== src/NudgeBatch/Soundness.antt =====
-- The invariant of the active batches: what each batch keeps, and what batches of one target keep.
use integration_service.Base.{
  Bool-cases, IsNodup, List, String, [], arith, contains, false, inl, inr, none, refl, true, ◌&&◌,
  ◌++◌, ◌==◌, ◌∷◌, ◌≡◌, ◌≤◌, ◌⊎◌,
}
use integration_service.NudgeBatch.{
  ActiveBatch, BatchPhase, accepts, accumulating, blocked, completed, failed, failed_from_of,
  fires_for, firing, from_of, froms, is_accepting, is_batch_firing_for_target, is_blocked, is_empty,
  is_firing, upsert,
}
use integration_service.NudgeBatch.Counting.{
  EveryBatch, EveryBatch-replace, EveryBatch-snoc, count, count-append, count-snoc,
}
use integration_service.NudgeBatch.Firing.{max_batch_nudge_plr_retries}

-- A source is in the list of a batch once, as a build or as a failure; a blocked batch has a failure
-- and no time to fire at; the retries are bounded.
abbrev pub IsSoundBatch : ActiveBatch → Type 0
IsSoundBatch b =
    IsNodup (froms from_of b.accumulated)
    × IsNodup (froms failed_from_of b.failures)
    × ((k : String)
        → (contains (froms from_of b.accumulated) k && contains (froms failed_from_of b.failures) k)
          ≡ false)
    × (is_blocked b.phase ≡ true → b.fire_at ≡ none)
    × (is_blocked b.phase ≡ true → is_empty b.failures ≡ false)
    × (b.retry_count ≤ max_batch_nudge_plr_retries)

-- For one target at most one batch accepts builds, and at most one fires.
abbrev pub IsSound : List ActiveBatch → Type 0
IsSound batches =
    EveryBatch IsSoundBatch batches
    × ((t : String) → count (accepts t) batches ≤ 1)
    × ((t : String) → count (fires_for t) batches ≤ 1)

pub accepting-not_firing : (p : BatchPhase) → is_accepting p ≡ true → is_firing p ≡ false
accepting-not_firing accumulating = λ h. refl
accepting-not_firing blocked = λ h. refl
accepting-not_firing firing = λ h. cc
accepting-not_firing failed = λ h. refl
accepting-not_firing completed = λ h. refl

pub upsert-is_empty {ℓ} :
    {A : Type ℓ} (key : A → String) (entry : A) (l : List A) → is_empty (upsert key entry l) ≡ false
upsert-is_empty key entry [] = refl
upsert-is_empty key entry (e ∷ l) = elim (Bool-cases (key e == key entry)) [
  | inl h ↦ rw h refl
  | inr h ↦ rw h refl
]

pub firing-not_accepting :
    (p : BatchPhase) → is_firing p ≡ true → (is_accepting p ≡ false) × (is_blocked p ≡ false)
firing-not_accepting accumulating = λ h. cc
firing-not_accepting blocked = λ h. cc
firing-not_accepting firing = λ h. (refl, refl)
firing-not_accepting failed = λ h. cc
firing-not_accepting completed = λ h. cc

pub not_firing-count :
    (batches : List ActiveBatch) (t : String)
    → is_batch_firing_for_target batches t ≡ false
    → count (fires_for t) batches ≡ 0
unfolding is_batch_firing_for_target
not_firing-count [] t h = refl
not_firing-count (b ∷ batches) t h = ground (arith, not_firing-count batches t)

-- A write that makes no batch accept that did not, and none fire beside another of the target.
pub replace-IsSound :
    (l : List ActiveBatch) (b new : ActiveBatch) (rest : List ActiveBatch)
    → (IsSoundBatch b → IsSoundBatch new)
    → ((t : String) → accepts t new ≡ true → accepts t b ≡ true)
    → ((t : String)
        → fires_for t new ≡ true
        → (fires_for t b ≡ true) ⊎ (is_batch_firing_for_target (l ++ b ∷ rest) t ≡ false))
    → IsSound (l ++ b ∷ rest)
    → IsSound (l ++ new ∷ rest)
replace-IsSound l b new rest keeps accept fire (each, one_accepts, one_fires) = (
  EveryBatch-replace IsSoundBatch l b new rest keeps each,
  (λ t. at_accepts t (one_accepts t)),
  (λ t. at_fires t (one_fires t)),
)
  where
    at_accepts :
        (t : String)
        → count (accepts t) (l ++ b ∷ rest) ≤ 1
        → count (accepts t) (l ++ new ∷ rest) ≤ 1
    at_accepts t h =
        ground
          (arith, accept t, count-append (accepts t) l b rest, count-append (accepts t) l new rest)

    at_fires :
        (t : String)
        → count (fires_for t) (l ++ b ∷ rest) ≤ 1
        → count (fires_for t) (l ++ new ∷ rest) ≤ 1
    at_fires t h = ground (
      arith,
      fire t,
      not_firing-count (l ++ b ∷ rest) t,
      count-append (fires_for t) l b rest,
      count-append (fires_for t) l new rest,
    )

-- A new batch where none accepted.
pub append-IsSound :
    (l : List ActiveBatch) (new : ActiveBatch)
    → IsSoundBatch new
    → ((t : String) → accepts t new ≡ true → count (accepts t) l ≡ 0)
    → is_firing new.phase ≡ false
    → IsSound l
    → IsSound (l ++ new ∷ [])
append-IsSound l new sound accept quiet (each, one_accepts, one_fires) = (
  EveryBatch-snoc IsSoundBatch l new each sound,
  (λ t. at_accepts t (one_accepts t)),
  (λ t. at_fires t (one_fires t)),
)
  where
    at_accepts : (t : String) → count (accepts t) l ≤ 1 → count (accepts t) (l ++ new ∷ []) ≤ 1
    at_accepts t h = ground (arith, accept t, count-snoc (accepts t) l new)

    at_fires : (t : String) → count (fires_for t) l ≤ 1 → count (fires_for t) (l ++ new ∷ []) ≤ 1
    at_fires t h = ground (arith, count-snoc (fires_for t) l new)
