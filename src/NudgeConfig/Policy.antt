-- ===== src/NudgeConfig/Policy.antt =====
-- Where the effective policy takes each field from.
use integration_service.Base.{Option, Option-cases, String, inl, inr, none, refl, some, ◌*◌, ◌≡◌}
use integration_service.NudgeConfig.{
  BatchPolicy, NudgeConfigSpec, block, effective_batch_policy, hour, minute, or_else, override,
  resolve_target_config, runtime_defaults,
}

abbrev pub field_of {ℓ} : {A : Type ℓ} → (BatchPolicy → Option A) → Option BatchPolicy → Option A
field_of field none = none
field_of field (some p) = field p

-- The policy of the first entry that the spec has for the target.
abbrev pub own_policy : NudgeConfigSpec → String → Option BatchPolicy
own_policy spec target = elim (resolve_target_config target spec.target_config) [
  | some tc ↦ tc.batch_policy
  | none ↦ none
]

-- The target's own value, else that of the batch defaults, else the last resort.
abbrev pub first_given {ℓ} :
    {A : Type ℓ} → (BatchPolicy → Option A) → NudgeConfigSpec → String → A → A
first_given field spec target last =
    or_else (field_of field (own_policy spec target))
      (or_else (field_of field spec.batch_defaults) last)

overrides :
    (own defaults : Option BatchPolicy)
    → ((override own (override defaults runtime_defaults)).debounce
        ≡ or_else
            (field_of (λ p. p.debounce_timeout) own)
            (or_else (field_of (λ p. p.debounce_timeout) defaults) (30 * minute)))
      × ((override own (override defaults runtime_defaults)).max_wait
          ≡ or_else
              (field_of (λ p. p.max_wait_time) own)
              (or_else (field_of (λ p. p.max_wait_time) defaults) (4 * hour)))
      × ((override own (override defaults runtime_defaults)).failure
          ≡ or_else
              (field_of (λ p. p.failure_policy) own)
              (or_else (field_of (λ p. p.failure_policy) defaults) block))
overrides none none = (refl, refl, refl)
overrides none (some d) = (refl, refl, refl)
overrides (some p) none = (refl, refl, refl)
overrides (some p) (some d) = (refl, refl, refl)

own_override :
    (spec : NudgeConfigSpec) (target : String)
    → effective_batch_policy spec target
      ≡ override (own_policy spec target) (override spec.batch_defaults runtime_defaults)
unfolding effective_batch_policy
own_override spec target = elim (Option-cases (resolve_target_config target spec.target_config)) [
  | inl missing ↦ rw (missing, effective_batch_policy, own_policy) refl
  | inr (tc, found) ↦ rw (found, effective_batch_policy, own_policy) refl
]

-- Each field of the effective policy is the target's own value if the first entry for the target
-- sets one, else that of the batch defaults if they set one, else the runtime default: 30 minutes,
-- 4 hours and Block.
pub effective_batch_policy_fields :
    (spec : NudgeConfigSpec) (target : String)
    → ((effective_batch_policy spec target).debounce
        ≡ first_given (λ p. p.debounce_timeout) spec target (30 * minute))
      × ((effective_batch_policy spec target).max_wait
          ≡ first_given (λ p. p.max_wait_time) spec target (4 * hour))
      × ((effective_batch_policy spec target).failure
          ≡ first_given (λ p. p.failure_policy) spec target block)
effective_batch_policy_fields spec target =
    rw own_override (overrides (own_policy spec target) spec.batch_defaults)
