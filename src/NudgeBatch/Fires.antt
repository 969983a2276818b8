-- ===== src/NudgeBatch/Fires.antt =====
-- Each operation that fires batches keeps the invariant of Soundness.
use integration_service.Base.{
  Bool, Bool-cases, IsNodup, List, Option-cases, String, [], arith, eq_iff, eq_of_==, false, inl,
  inr, leb, not, refl, some, subst, sym, true, ℕ, ◌&&◌, ◌++◌, ◌+◌, ◌<◌, ◌==◌, ◌||◌, ◌∙◌, ◌∷◌, ◌≡◌,
  ◌≤◌, ◌⊎◌,
}
use integration_service.NudgeBatch.{
  ActiveBatch, batch_timer_expired, failed, failed_from_of, find_accumulating_batch, find_first,
  find_force_fire_batch, from_of, froms, is_accepting, is_accumulating, is_batch_firing_for_target,
  is_blocked, is_empty, is_firing, is_stopped, store_first,
}
use integration_service.NudgeBatch.Counting.{
  EveryBatch-at, append-nil, append-snoc, find_first-cong, store_first-found,
}
use integration_service.NudgeBatch.Soundness.{
  IsSound, IsSoundBatch, firing-not_accepting, replace-IsSound,
}
use integration_service.NudgeBatch.Firing.{
  Cluster, FetchedRun, Round, abort, completed_batch, due_from, due_one, exhausted_batch,
  exists_run, fail_with, finished, fire_batch, firing_from, firing_one, force_fire_at,
  force_fire_test, keep, max_batch_nudge_plr_retries, may_force_fire, missing, patch_if_changed,
  planned_name, process_due_nudge_batches, process_firing_nudge_batches, replaced_by,
  retry_firing_batch, running, settle,
}
use integration_service.NudgeBatch.Events.{after_attempt, after_force}

-- A batch that has stopped accepting, with the same builds.
pub leaves-IsSoundBatch :
    (b new : ActiveBatch)
    → new.accumulated ≡ b.accumulated
    → new.failures ≡ b.failures
    → is_blocked new.phase ≡ false
    → (b.retry_count ≤ max_batch_nudge_plr_retries → new.retry_count ≤ max_batch_nudge_plr_retries)
    → IsSoundBatch b
    → IsSoundBatch new
leaves-IsSoundBatch b new same same_failures unblocked retries (n, m, d, held, why, r) = (
  subst (λ l. IsNodup (froms from_of l)) (sym same) n,
  subst (λ l. IsNodup (froms failed_from_of l)) (sym same_failures) m,
  (λ k. rw same (rw same_failures (d k))),
  (λ h. cc),
  (λ h. cc),
  retries r,
)

-- What firing leaves of a batch.
abbrev pub IsFiredFrom : ActiveBatch → ActiveBatch → Type 0
IsFiredFrom b new =
    (new.target ≡ b.target)
    × (new.accumulated ≡ b.accumulated)
    × (new.failures ≡ b.failures)
    × (new.retry_count ≡ b.retry_count)
    × ((is_firing new.phase ≡ true) ⊎ (new.phase ≡ failed))

pub settled-IsFiredFrom :
    (c : Cluster) (b : ActiveBatch) → IsFiredFrom b (settle b (fire_batch c b))
unfolding fire_batch
settled-IsFiredFrom c b = elim (Bool-cases (is_empty b.accumulated)) [
  | inl e ↦ rw e (refl, refl, refl, refl, inr refl)
  | inr e ↦ rw e (elim (Bool-cases (exists_run (c.pipeline_run (planned_name b)))) [
    | inl x ↦ rw x (refl, refl, refl, refl, inl refl)
    | inr x ↦ rw x (elim (Option-cases (c.payload_error b)) [
      | inr (m, p) ↦ rw p (refl, refl, refl, refl, inr refl)
      | inl p ↦ rw p (elim (Option-cases (c.create_error b)) [
        | inr (m, q) ↦ rw q (refl, refl, refl, refl, inr refl)
        | inl q ↦ rw q (refl, refl, refl, refl, inl refl)
      ])
    ])
  ])
]

pub IsFiredFrom-not_accepting :
    (b new : ActiveBatch)
    → IsFiredFrom b new
    → (is_accepting new.phase ≡ false) × (is_blocked new.phase ≡ false)
IsFiredFrom-not_accepting b new (t, a, f, r, inl e) = firing-not_accepting new.phase e
IsFiredFrom-not_accepting b new (t, a, f, r, inr e) = rw e (refl, refl)

-- A firing where no batch of the target fires.
pub fired-IsSound :
    (l : List ActiveBatch) (b new : ActiveBatch) (rest : List ActiveBatch)
    → IsFiredFrom b new
    → is_batch_firing_for_target (l ++ b ∷ rest) b.target ≡ false ⊎ is_firing new.phase ≡ false
    → IsSound (l ++ b ∷ rest)
    → IsSound (l ++ new ∷ rest)
fired-IsSound l b new rest from free =
    replace-IsSound l b new rest
      (leaves-IsSoundBatch b new from.1 from.2 (IsFiredFrom-not_accepting b new from).1
        (λ r. rw from.3 r))
      (λ t h. ground (arith, h, (IsFiredFrom-not_accepting b new from).0))
      (λ t h. inr (elim free [
        | inl none_fires ↦
            subst (λ x. is_batch_firing_for_target (l ++ b ∷ rest) x ≡ false)
              (sym from.0 ∙ eq_of_== new.target t (ground (arith, h))) none_fires
        | inr quiet ↦ ground (arith, h, quiet)
      ]))

pub due_one-IsSound :
    (c : Cluster) (now : ℕ) (l : List ActiveBatch) (b new : ActiveBatch) (rest : List ActiveBatch)
    → due_one c now (l ++ b ∷ rest) b ≡ some new
    → IsSound (l ++ b ∷ rest)
    → IsSound (l ++ new ∷ rest)
unfolding due_one
due_one-IsSound c now l b new rest = elim (Bool-cases (is_accumulating b.phase)) [
  | inr e ↦ rw e (λ h. cc)
  | inl e ↦ rw e (elim (Bool-cases (batch_timer_expired now b)) [
    | inr e ↦ rw e (λ h. cc)
    | inl e ↦ rw e (elim (Bool-cases (is_empty b.accumulated)) [
      | inl e ↦ rw e (λ h.
          subst (λ x. IsSound (l ++ b ∷ rest) → IsSound (l ++ x ∷ rest)) (cc)
            (fired-IsSound l b (fail_with "timer expired with no successful builds to nudge" b) rest
              (refl, refl, refl, refl, inr refl) (inr refl)))
      | inr e ↦ rw e (elim (Bool-cases (is_batch_firing_for_target (l ++ b ∷ rest) b.target)) [
        | inl e ↦ rw e (λ h. cc)
        | inr e ↦ rw e (λ h.
            subst (λ x. IsSound (l ++ b ∷ rest) → IsSound (l ++ x ∷ rest)) (cc)
              (fired-IsSound l b (settle b (fire_batch c b)) rest (settled-IsFiredFrom c b)
                (inl e)))
      ])
    ])
  ])
]

pub due_from-IsSound :
    (c : Cluster) (now : ℕ) (done rest : List ActiveBatch) (changed : Bool)
    → IsSound (done ++ rest)
    → IsSound (due_from c now done rest changed).0
unfolding due_from
due_from-IsSound c now done [] changed s = subst IsSound (append-nil done) s
due_from-IsSound c now done (b ∷ rest) changed s =
    elim (Option-cases (due_one c now (done ++ b ∷ rest) b)) [
      | inl e ↦
          rw (e, due_from)
            (due_from-IsSound c now (done ++ b ∷ []) rest changed
              (subst IsSound (sym (append-snoc done b rest)) s))
      | inr (b', e) ↦
          rw (e, due_from)
            (due_from-IsSound c now (done ++ b' ∷ []) rest true (
              subst IsSound (sym (append-snoc done b' rest))
                (due_one-IsSound c now done b b' rest e s)))
    ]

patched-IsSound :
    (batches : List ActiveBatch) (result : List ActiveBatch × Bool)
    → IsSound batches
    → IsSound result.0
    → IsSound (after_attempt batches (patch_if_changed result))
patched-IsSound batches (new, true) s s' = s'
patched-IsSound batches (new, false) s s' = s

pub process_due-IsSound :
    (c : Cluster) (now : ℕ) (batches : List ActiveBatch)
    → IsSound batches
    → IsSound (after_attempt batches (process_due_nudge_batches c now batches))
unfolding process_due_nudge_batches
process_due-IsSound c now batches s =
    patched-IsSound batches (due_from c now [] batches false) s
      (due_from-IsSound c now [] batches false s)

-- What polling leaves of a firing batch.
abbrev pub IsPolledFrom : ActiveBatch → ActiveBatch → Type 0
IsPolledFrom b new =
    (new.target ≡ b.target)
    × (new.accumulated ≡ b.accumulated)
    × (new.failures ≡ b.failures)
    × (new.retry_count ≤ max_batch_nudge_plr_retries)
    × (is_accepting new.phase ≡ false)
    × (is_blocked new.phase ≡ false)
    × (is_firing b.phase ≡ true)

FetchedRun-cases :
    (r : FetchedRun)
    → (((e : String) × (r ≡ missing e)) ⊎ (r ≡ running)) ⊎ ((s : Bool) × (r ≡ finished s))
FetchedRun-cases (missing e) = inl (inl (e, refl))
FetchedRun-cases running = inl (inr refl)
FetchedRun-cases (finished s) = inr (s, refl)

-- The batch of a retry, with the count raised.
abbrev pub counted : ActiveBatch → ActiveBatch
counted b = record b { retry_count = b.retry_count + 1 }

retried-IsPolledFrom :
    (c : Cluster) (b : ActiveBatch)
    → b.retry_count < max_batch_nudge_plr_retries
    → is_firing b.phase ≡ true
    → IsPolledFrom b (settle (counted b) (retry_firing_batch c (counted b)))
unfolding retry_firing_batch
retried-IsPolledFrom c b r f = elim (Option-cases (c.payload_error (counted b))) [
  | inr (m, p) ↦ rw (p, retry_firing_batch) (refl, refl, refl, omega arith, refl, refl, f)
  | inl p ↦
      rw (p, retry_firing_batch)
        (elim (Option-cases (c.create_error (counted b))) [
          | inr (m, q) ↦ rw q (refl, refl, refl, omega arith, refl, refl, f)
          | inl q ↦ rw q (
            refl,
            refl,
            refl,
            omega arith,
            (firing-not_accepting b.phase f).0,
            (firing-not_accepting b.phase f).1,
            f,
          )
        ])
]

pub firing_one-IsPolledFrom :
    (c : Cluster) (b new : ActiveBatch)
    → b.retry_count ≤ max_batch_nudge_plr_retries
    → firing_one c b ≡ replaced_by new
    → IsPolledFrom b new
unfolding firing_one retry_firing_batch
firing_one-IsPolledFrom c b new r =
    elim (Bool-cases (not (is_firing b.phase) || b.nudge_pipeline_run == "")) [
      | inl e ↦ rw e (λ h. cc)
      | inr e ↦ rw e (elim (FetchedRun-cases (c.pipeline_run b.nudge_pipeline_run)) [
        | inl (inl (m, e)) ↦ rw e (λ h. cc)
        | inl (inr e) ↦ rw e (λ h. cc)
        | inr (true, x) ↦ rw x (λ h.
            subst (IsPolledFrom b) {x = completed_batch b} {y = new} (cc)
              (refl, refl, refl, r, refl, refl, ground (arith, e)))
        | inr (false, x) ↦ rw x (elim (Bool-cases (leb max_batch_nudge_plr_retries b.retry_count)) [
          | inl y ↦ rw y (λ h.
              subst (IsPolledFrom b) {x = exhausted_batch b} {y = new} (cc)
                (refl, refl, refl, r, refl, refl, ground (arith, e)))
          | inr y ↦ rw y (λ h.
              subst (IsPolledFrom b) {x = settle (counted b) (retry_firing_batch c (counted b))}
                {y = new} (cc) (retried-IsPolledFrom c b (ground (arith, y)) (ground (arith, e))))
        ])
      ])
    ]

Round-cases :
    (r : Round)
    → (((e : String) × (r ≡ abort e)) ⊎ (r ≡ keep)) ⊎ ((b : ActiveBatch) × (r ≡ replaced_by b))
Round-cases (abort e) = inl (inl (e, refl))
Round-cases keep = inl (inr refl)
Round-cases (replaced_by b) = inr (b, refl)

pub polled-IsSound :
    (l : List ActiveBatch) (b new : ActiveBatch) (rest : List ActiveBatch)
    → IsPolledFrom b new
    → IsSound (l ++ b ∷ rest)
    → IsSound (l ++ new ∷ rest)
polled-IsSound l b new rest (same, acc, fails, r, stopped, unblocked, was) =
    replace-IsSound l b new rest (leaves-IsSoundBatch b new acc fails unblocked (λ old. r))
      (λ t h. ground (arith, h, stopped))
      (λ t h. inl (ground (arith, was, h, same, eq_iff new.target t, eq_iff b.target t)))

pub firing_from-IsSound :
    (c : Cluster) (batches done rest : List ActiveBatch) (changed : Bool)
    → IsSound batches
    → IsSound (done ++ rest)
    → IsSound (after_attempt batches (firing_from c done rest changed))
unfolding firing_from
firing_from-IsSound c batches done [] changed s s' =
    patched-IsSound batches (done, changed) s (subst IsSound (append-nil done) s')
firing_from-IsSound c batches done (b ∷ rest) changed s s' = elim (Round-cases (firing_one c b)) [
  | inl (inl (m, e)) ↦ rw (e, firing_from) s
  | inl (inr e) ↦
      rw (e, firing_from)
        (firing_from-IsSound c batches (done ++ b ∷ []) rest changed s
          (subst IsSound (sym (append-snoc done b rest)) s'))
  | inr (b', e) ↦
      rw (e, firing_from)
        (firing_from-IsSound c batches (done ++ b' ∷ []) rest true s (
          subst IsSound (sym (append-snoc done b' rest)) (
            polled-IsSound done b b' rest
              (firing_one-IsPolledFrom c b b' (EveryBatch-at IsSoundBatch done b rest s'.0).5 e)
              s')))
]

pub process_firing-IsSound :
    (c : Cluster) (batches : List ActiveBatch)
    → IsSound batches
    → IsSound (after_attempt batches (process_firing_nudge_batches c batches))
unfolding process_firing_nudge_batches
process_firing-IsSound c batches s = firing_from-IsSound c batches [] batches false s s

find_first-force_fire :
    (batches : List ActiveBatch) (target : String) (b : ActiveBatch)
    → find_force_fire_batch batches target ≡ some b
    → find_first (force_fire_test batches target) batches ≡ some b
unfolding find_force_fire_batch find_accumulating_batch
find_first-force_fire batches target b =
    elim (Option-cases (find_accumulating_batch batches target)) [
      | inr (a, e) ↦
          rw (e, find_force_fire_batch)
            (λ h.
              find_first-cong (force_fire_test batches target)
                (λ x. x.target == target && is_accumulating x.phase) batches (λ x. rw e refl)
              ∙ (e ∙ h))
      | inl e ↦
          rw (e, find_force_fire_batch)
            (λ h.
              find_first-cong (force_fire_test batches target)
                (λ x. x.target == target && is_stopped x.phase) batches (λ x. rw e refl)
              ∙ h)
    ]

-- A write of the batch that a forceFire action picks.
store_forced-IsSound :
    (c : Cluster) (batches : List ActiveBatch) (target : String) (b : ActiveBatch)
    → is_batch_firing_for_target batches target ≡ false
    → find_force_fire_batch batches target ≡ some b
    → IsSound batches
    → IsSound (store_first (force_fire_test batches target) (settle b (fire_batch c b)) batches)
store_forced-IsSound c batches target b free found s =
    let test = force_fire_test batches target in
    let (l, rest, at, passes, write) =
      store_first-found test batches b (find_first-force_fire batches target b found) in
    let aimed = eq_of_== b.target target (ground (arith, passes)) in
    subst IsSound (sym (write (settle b (fire_batch c b)))) (
      fired-IsSound l b (settle b (fire_batch c b)) rest (settled-IsFiredFrom c b)
        (inl (
          subst (λ x. is_batch_firing_for_target x b.target ≡ false) at
            (subst (λ t. is_batch_firing_for_target batches t ≡ false) (sym aimed) free)))
        (subst IsSound at s))

pub force_fire_at-IsSound :
    (c : Cluster) (batches : List ActiveBatch) (target : String) (partial : Bool)
    → IsSound batches
    → IsSound (after_force batches (force_fire_at c batches target partial))
unfolding force_fire_at
force_fire_at-IsSound c batches target partial s =
    elim (Bool-cases (is_batch_firing_for_target batches target)) [
      | inl e ↦ rw (e, force_fire_at) s
      | inr free ↦
          rw (free, force_fire_at)
            (elim (Option-cases (find_force_fire_batch batches target)) [
              | inl e ↦ rw e s
              | inr (b, found) ↦ rw found (elim (Bool-cases (is_empty b.accumulated)) [
                | inl e ↦ rw e s
                | inr e ↦ rw e (elim (Bool-cases (may_force_fire b partial)) [
                  | inl e ↦ rw e (store_forced-IsSound c batches target b free found s)
                  | inr e ↦ rw e s
                ])
              ])
            ])
    ]
