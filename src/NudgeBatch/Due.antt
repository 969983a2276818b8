-- ===== src/NudgeBatch/Due.antt =====
-- A round of ProcessDueNudgeBatches leaves no due batch behind without a reason.
use integration_service.Base.{
  Bool, Bool-cases, List, Option-cases, String, [], ap, arith, false, inl, inr, none, refl, some,
  subst, sym, true, ℕ, ◌++◌, ◌||◌, ◌∙◌, ◌∷◌, ◌≡◌,
}
use integration_service.NudgeConfig.{or_else}
use integration_service.NudgeBatch.{
  accumulating, blocked, firing, failed, completed, ActiveBatch, BatchPhase, accumulating,
  batch_timer_expired, blocked, completed, failed, fires_for, firing, is_accepting, is_accumulating,
  is_batch_firing_for_target, is_empty, is_firing,
}
use integration_service.NudgeBatch.Counting.{EveryBatch, EveryBatch-snoc, append-nil, append-snoc}
use integration_service.NudgeBatch.Firing.{
  Cluster, due_from, due_one, fire_batch, process_due_nudge_batches, settle,
}
use integration_service.NudgeBatch.Events.{after_attempt}
use integration_service.NudgeBatch.Fires.{IsFiredFrom-not_accepting, settled-IsFiredFrom}

firing-append :
    (l : List ActiveBatch) (b : ActiveBatch) (rest : List ActiveBatch) (t : String)
    → is_batch_firing_for_target (l ++ b ∷ rest) t
      ≡ (is_batch_firing_for_target l t || (fires_for t b || is_batch_firing_for_target rest t))
unfolding is_batch_firing_for_target
firing-append [] b rest t = refl
firing-append (a ∷ l) b rest t = ground (arith, firing-append l b rest t)

-- A due batch that still accumulates stands back for one of its target that is firing.
abbrev pub IsServed : ℕ → List ActiveBatch → ActiveBatch → Type 0
IsServed now all b =
    is_accumulating b.phase ≡ true
    → batch_timer_expired now b ≡ true
    → is_batch_firing_for_target all b.target ≡ true

due_one-none :
    (c : Cluster) (now : ℕ) (all : List ActiveBatch) (b : ActiveBatch)
    → due_one c now all b ≡ none
    → IsServed now all b
unfolding due_one
due_one-none c now all b = elim (Bool-cases (is_accumulating b.phase)) [
  | inr e ↦ λ h a. cc
  | inl e ↦
      rw (e, due_one)
        (elim (Bool-cases (batch_timer_expired now b)) [
          | inr e ↦ λ h a x. cc
          | inl e ↦ rw e (elim (Bool-cases (is_empty b.accumulated)) [
            | inl e ↦ rw e (λ h. cc)
            | inr e ↦ rw e (elim (Bool-cases (is_batch_firing_for_target all b.target)) [
              | inl e ↦ λ h a x. e
              | inr e ↦ rw e (λ h. cc)
            ])
          ])
        ])
]

stopped : (p : BatchPhase) → is_accepting p ≡ false → is_accumulating p ≡ false
stopped accumulating = λ h. cc
stopped blocked = λ h. refl
stopped firing = λ h. refl
stopped failed = λ h. refl
stopped completed = λ h. refl

accumulating-not_firing : (p : BatchPhase) → is_accumulating p ≡ true → is_firing p ≡ false
accumulating-not_firing accumulating = λ h. refl
accumulating-not_firing blocked = λ h. cc
accumulating-not_firing firing = λ h. cc
accumulating-not_firing failed = λ h. cc
accumulating-not_firing completed = λ h. cc

due_one-some :
    (c : Cluster) (now : ℕ) (all : List ActiveBatch) (b new : ActiveBatch)
    → due_one c now all b ≡ some new
    → (is_accumulating b.phase ≡ true) × (is_accumulating new.phase ≡ false)
unfolding due_one
due_one-some c now all b new = elim (Bool-cases (is_accumulating b.phase)) [
  | inr e ↦ rw (e, due_one) (λ h. cc)
  | inl e ↦
      rw (e, due_one)
        (elim (Bool-cases (batch_timer_expired now b)) [
          | inr e ↦ rw e (λ h. cc)
          | inl e ↦ rw e (elim (Bool-cases (is_empty b.accumulated)) [
            | inl e ↦ rw e (λ h. (refl, ap (λ o. is_accumulating (or_else o b).phase) (sym h)))
            | inr e ↦ rw e (elim (Bool-cases (is_batch_firing_for_target all b.target)) [
              | inl e ↦ rw e (λ h. cc)
              | inr e ↦ rw e (λ h. (
                refl,
                ap (λ o. is_accumulating (or_else o b).phase) (sym h)
                    ∙ stopped (settle b (fire_batch c b)).phase
                        (IsFiredFrom-not_accepting b (settle b (fire_batch c b))
                          (settled-IsFiredFrom c b)).0,
              ))
            ])
          ])
        ])
]

serve-on :
    (now : ℕ) (all all' l : List ActiveBatch)
    → ((t : String)
        → is_batch_firing_for_target all t ≡ true
        → is_batch_firing_for_target all' t ≡ true)
    → EveryBatch (IsServed now all) l
    → EveryBatch (IsServed now all') l
serve-on now all all' [] f h = tt
serve-on now all all' (b ∷ l) f h = ((λ a x. f b.target (h.0 a x)), serve-on now all all' l f h.1)

due_from-IsServed :
    (c : Cluster) (now : ℕ) (done rest : List ActiveBatch) (changed : Bool)
    → EveryBatch (IsServed now (done ++ rest)) done
    → EveryBatch
        (IsServed now (due_from c now done rest changed).0)
        (due_from c now done rest changed).0
unfolding due_from
due_from-IsServed c now done [] changed h =
    subst (λ l. EveryBatch (IsServed now l) done) (append-nil done) h
due_from-IsServed c now done (b ∷ rest) changed h =
    elim (Option-cases (due_one c now (done ++ b ∷ rest) b)) [
      | inl e ↦
          rw (e, due_from)
            (due_from-IsServed c now (done ++ b ∷ []) rest changed (
              subst (λ l. EveryBatch (IsServed now l) (done ++ b ∷ []))
                (sym (append-snoc done b rest))
                (EveryBatch-snoc (IsServed now (done ++ b ∷ rest)) done b h
                  (due_one-none c now (done ++ b ∷ rest) b e))))
      | inr (b', e) ↦
          rw (e, due_from)
            (let turned = due_one-some c now (done ++ b ∷ rest) b b' e in
              due_from-IsServed c now (done ++ b' ∷ []) rest true (
                subst (λ l. EveryBatch (IsServed now l) (done ++ b' ∷ []))
                  (sym (append-snoc done b' rest))
                  (EveryBatch-snoc (IsServed now (done ++ b' ∷ rest)) done b'
                    (serve-on now (done ++ b ∷ rest) (done ++ b' ∷ rest) done
                      (λ t f. ground (
                        arith,
                        f,
                        accumulating-not_firing b.phase turned.0,
                        firing-append done b rest t,
                        firing-append done b' rest t,
                      ))
                      h)
                    (λ a x. ground (arith, a, turned.1)))))
    ]

due_from-changed :
    (c : Cluster) (now : ℕ) (done rest : List ActiveBatch)
    → (due_from c now done rest true).1 ≡ true
unfolding due_from
due_from-changed c now done [] = refl
due_from-changed c now done (b ∷ rest) = elim (Option-cases (due_one c now (done ++ b ∷ rest) b)) [
  | inl e ↦ rw (e, due_from) (due_from-changed c now (done ++ b ∷ []) rest)
  | inr (b', e) ↦ rw (e, due_from) (due_from-changed c now (done ++ b' ∷ []) rest)
]

due_from-unchanged :
    (c : Cluster) (now : ℕ) (done rest : List ActiveBatch)
    → (due_from c now done rest false).1 ≡ false
    → (due_from c now done rest false).0 ≡ (done ++ rest)
unfolding due_from
due_from-unchanged c now done [] = λ h. sym (append-nil done)
due_from-unchanged c now done (b ∷ rest) =
    elim (Option-cases (due_one c now (done ++ b ∷ rest) b)) [
      | inl e ↦
          rw (e, due_from)
            (λ h. due_from-unchanged c now (done ++ b ∷ []) rest h ∙ append-snoc done b rest)
      | inr (b', e) ↦
          rw (e, due_from) (λ h. ground (arith, h, due_from-changed c now (done ++ b' ∷ []) rest))
    ]

-- After a round of the due batches, whatever the cluster answers: a batch that still accumulates
-- although its timer has expired has a batch of the same target beside it that is firing.
pub process_due_nudge_batches-IsServed :
    (c : Cluster) (now : ℕ) (batches : List ActiveBatch)
    → EveryBatch
        (IsServed now (after_attempt batches (process_due_nudge_batches c now batches)))
        (after_attempt batches (process_due_nudge_batches c now batches))
unfolding process_due_nudge_batches
process_due_nudge_batches-IsServed c now batches =
    let served = due_from-IsServed c now [] batches false tt in
    elim (Bool-cases (due_from c now [] batches false).1) [
      | inl e ↦ rw (e, process_due_nudge_batches) served
      | inr e ↦
          rw (e, process_due_nudge_batches)
            (subst (λ l. EveryBatch (IsServed now l) l) (due_from-unchanged c now [] batches e)
              served)
    ]
