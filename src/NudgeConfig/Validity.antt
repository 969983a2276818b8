-- ===== src/NudgeConfig/Validity.antt =====
-- Which specs the batch validation accepts.
use integration_service.Base.{
  ==_self, Bool-cases, IsNodup, List, Option-cases, String, [], arith, contains, eq_iff, false, inl,
  inr, none, refl, true, ◌*◌, ◌<◌, ◌↔◌, ◌∷◌, ◌≡◌, ◌≤◌,
}
use integration_service.NudgeConfig.{
  NudgeConfigSpec, TargetConfig, Timing, effective_batch_policy, effective_from, hour, is_batched,
  minute, unique_from, validate_batch_config, validate_effective_batch_policies,
  validate_resolved_batch_timing, validate_unique_target_config,
}

abbrev pub targets : List TargetConfig → List String
targets [] = []
targets (tc ∷ rest) = tc.target ∷ targets rest

-- Both times lie between one minute and a day, and the wait is the longer one.
pub record IsTimely (t : Timing) : Type 0 where
  pub debounce_low : minute ≤ t.debounce
  pub debounce_high : t.debounce ≤ 24 * hour
  pub wait_low : minute ≤ t.max_wait
  pub wait_high : t.max_wait ≤ 24 * hour
  pub longer : t.debounce < t.max_wait

-- Every batched entry has a timely effective policy.
abbrev pub AllTimely : NudgeConfigSpec → List TargetConfig → Type 0
AllTimely spec [] = Unit
AllTimely spec (tc ∷ rest) =
    (is_batched tc ≡ true → IsTimely (effective_batch_policy spec tc.target)) × AllTimely spec rest

timing_iff :
    (target : String) (t : Timing) → (validate_resolved_batch_timing target t ≡ none) ↔ IsTimely t
unfolding validate_resolved_batch_timing
timing_iff target t = ((λ h. ground arith), (λ h. ground arith))

effective_iff :
    (spec : NudgeConfigSpec) (l : List TargetConfig)
    → (effective_from spec l ≡ none) ↔ AllTimely spec l
unfolding effective_from
effective_iff spec [] = ((λ h. tt), (λ h. refl))
effective_iff spec (tc ∷ rest) =
    let more = effective_iff spec rest in
    let here = timing_iff tc.target (effective_batch_policy spec tc.target) in
    elim (Bool-cases (is_batched tc)) [
      | inr plain ↦ rw plain ((λ h. ((λ b. cc), more.0 h)), (λ h. more.1 h.1))
      | inl batched ↦
          rw batched
            (elim (Option-cases
              (validate_resolved_batch_timing tc.target (effective_batch_policy spec tc.target))) [
                | inl fine ↦
                    rw (fine, effective_from)
                      ((λ h. ((λ b. here.0 fine), more.0 h)), (λ h. more.1 h.1))
                | inr (e, wrong) ↦
                    rw (wrong, effective_from) ((λ h. cc), (λ h. cc (wrong, here.1 (h.0 refl))))
              ])
    ]

unique_iff :
    (seen : List String) (l : List TargetConfig)
    → (unique_from seen l ≡ none) ↔ (
        IsNodup (targets l)
        × ((k : String) → contains seen k ≡ true → contains (targets l) k ≡ false))
unfolding unique_from
unique_iff seen [] = ((λ h. (tt, λ k m. refl)), (λ h. refl))
unique_iff seen (tc ∷ rest) =
    let more = unique_iff (tc.target ∷ seen) rest in
    elim (Bool-cases (contains seen tc.target)) [
      | inl twice ↦ rw twice ((λ h. cc), (λ h. cc (h.1 tc.target twice, ==_self tc.target)))
      | inr new ↦ rw new (
        (λ h.
            let m = more.0 h in
            (
              (m.1 tc.target (ground (arith, eq_iff tc.target tc.target)), m.0),
              λ k i. ground (arith, m.1 k, eq_iff tc.target k),
            )),
        (λ h. more.1 (h.0.1, λ k i. ground (arith, h.1 k, eq_iff tc.target k))),
      )
    ]

-- A spec is accepted exactly when no target has two entries and the effective policy of every target
-- that is batched has both times between one minute and a day and a wait longer than the debounce.
pub validate_batch_config_iff :
    (spec : NudgeConfigSpec)
    → (validate_batch_config spec ≡ none)
      ↔ (IsNodup (targets spec.target_config) × AllTimely spec spec.target_config)
unfolding validate_batch_config
validate_batch_config_iff spec = elim (Option-cases (validate_unique_target_config spec)) [
  | inl fine ↦
      rw (fine, validate_batch_config)
        (
          (λ h. ((unique fine).0, (timely h))),
          (λ h.
              unfold validate_effective_batch_policies in
              (effective_iff spec spec.target_config).1 h.1),
        )
  | inr (e, wrong) ↦ rw (wrong, validate_batch_config) ((λ h. cc), (λ h. cc (wrong, all_new h.0)))
]
  where
    timely : validate_effective_batch_policies spec ≡ none → AllTimely spec spec.target_config
    timely h =
        (effective_iff spec spec.target_config).0 (unfold validate_effective_batch_policies in h)

    unique :
        validate_unique_target_config spec ≡ none
        → IsNodup (targets spec.target_config)
          × ((k : String) → contains [] k ≡ true → contains (targets spec.target_config) k ≡ false)
    unique h = (unique_iff [] spec.target_config).0 (unfold validate_unique_target_config in h)

    all_new : IsNodup (targets spec.target_config) → validate_unique_target_config spec ≡ none
    all_new n =
        unfold validate_unique_target_config in (unique_iff [] spec.target_config).1 (n, λ k h. cc)
