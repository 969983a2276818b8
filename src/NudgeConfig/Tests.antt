-- ===== src/NudgeConfig/Tests.antt =====
-- A spec with defaults and two targets, and the theorems at it.
use integration_service.Base.{IsNodup, [], false, none, refl, some, true, ◌*◌, ◌↔◌, ◌∷◌, ◌≡◌}
use integration_service.NudgeConfig.{
  NudgeConfigSpec, block, effective_batch_policy, hour, is_batched, is_target_batched, minute,
  proceed_with_partial, validate_batch_config, validate_effective_batch_policies,
  validate_resolved_batch_timing, validate_unique_target_config,
}
use integration_service.NudgeConfig.Policy.{effective_batch_policy_fields, first_given}
use integration_service.NudgeConfig.Validity.{AllTimely, targets, validate_batch_config_iff}

abbrev spec : NudgeConfigSpec
spec = record {
  batch_defaults = some (record {
    debounce_timeout = some (10 * minute);
    max_wait_time = none;
    failure_policy = some proceed_with_partial;
  });
  actions = none;
  target_config =
      record {
        target = "operator";
        batch_policy = some (record {
          debounce_timeout = none;
          max_wait_time = some (1 * hour);
          failure_policy = none;
        });
      }
      ∷ record { target = "bundle"; batch_policy = none }
      ∷ [];
}

program : Unit {0}
unfolding effective_batch_policy validate_batch_config validate_unique_target_config
    validate_effective_batch_policies is_batched validate_resolved_batch_timing is_target_batched
program = tt

operator_policy :
    effective_batch_policy spec "operator"
    ≡ record { debounce = 10 * minute; max_wait = 1 * hour; failure = proceed_with_partial }
unfolding program
operator_policy = refl

spec_accepted : validate_batch_config spec ≡ none
unfolding program
spec_accepted = refl

batched_targets :
    (is_target_batched spec "operator" ≡ true)
    × (is_target_batched spec "bundle" ≡ false)
    × (is_target_batched spec "other" ≡ false)
unfolding program
batched_targets = (refl, refl, refl)

effective_batch_policy_fields_example :
    ((effective_batch_policy spec "operator").debounce
      ≡ first_given (λ p. p.debounce_timeout) spec "operator" (30 * minute))
    × ((effective_batch_policy spec "operator").max_wait
        ≡ first_given (λ p. p.max_wait_time) spec "operator" (4 * hour))
    × ((effective_batch_policy spec "operator").failure
        ≡ first_given (λ p. p.failure_policy) spec "operator" block)
effective_batch_policy_fields_example = effective_batch_policy_fields spec "operator"

validate_batch_config_iff_example :
    (validate_batch_config spec ≡ none)
    ↔ (IsNodup (targets spec.target_config) × AllTimely spec spec.target_config)
validate_batch_config_iff_example = validate_batch_config_iff spec
