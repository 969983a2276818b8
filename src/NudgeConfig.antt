-- ===== src/NudgeConfig.antt =====
-- api/konflux/v1beta2/nudgeconfig_types.go: the batch policies of a NudgeConfig's spec, and their
-- validation. Durations are counts of nanoseconds; the API server admits no negative one.
pub mod Policy
pub mod Validity
mod Tests
use integration_service.Base.{
  Bool, List, Option, String, [], contains, false, if◌then◌else◌, leb, ltb, none, some, true, ℕ,
  ◌==◌, ◌||◌, ◌∷◌,
}

pub data FailurePolicyType : Type 0 where
  block proceed_with_partial : FailurePolicyType

-- BatchDefaults and BatchPolicy have the same fields.
pub record BatchPolicy : Type 0 where
  pub debounce_timeout : Option ℕ
  pub max_wait_time : Option ℕ
  pub failure_policy : Option FailurePolicyType

pub record TargetConfig : Type 0 where
  pub target : String
  pub batch_policy : Option BatchPolicy

pub record ForceFireAction : Type 0 where
  pub target : String
  pub include_partial : Option Bool

-- `actions` is the forceFire action of spec.actions, if both are set. The nudges are in pkg/dag.
pub record NudgeConfigSpec : Type 0 where
  pub batch_defaults : Option BatchPolicy
  pub actions : Option ForceFireAction
  pub target_config : List TargetConfig

abbrev pub second : ℕ
second = 1_000_000_000

abbrev pub minute : ℕ
minute = 60_000_000_000

abbrev pub hour : ℕ
hour = 3_600_000_000_000

abbrev pub default_batch_debounce_timeout : ℕ
default_batch_debounce_timeout = 1_800_000_000_000

abbrev pub default_batch_max_wait_time : ℕ
default_batch_max_wait_time = 14_400_000_000_000

abbrev pub min_batch_timing : ℕ
min_batch_timing = 60_000_000_000

abbrev pub max_batch_timing : ℕ
max_batch_timing = 86_400_000_000_000

unfoldable pub is_batched : TargetConfig → Bool
is_batched tc = elim tc.batch_policy [ some p ↦ true | none ↦ false ]

unfoldable pub resolve_target_config : String → List TargetConfig → Option TargetConfig
resolve_target_config target [] = none
resolve_target_config target (tc ∷ rest) =
    if tc.target == target then some tc else resolve_target_config target rest

unfoldable pub is_target_batched : NudgeConfigSpec → String → Bool
unfolding is_batched resolve_target_config
is_target_batched spec target = elim (resolve_target_config target spec.target_config) [
  | some tc ↦ is_batched tc
  | none ↦ false
]

pub record Timing : Type 0 where
  pub debounce : ℕ
  pub max_wait : ℕ
  pub failure : FailurePolicyType

abbrev pub or_else {ℓ} : {A : Type ℓ} → Option A → A → A
or_else (some a) b = a
or_else none b = b

-- The fields that a policy sets replace those of the timing.
abbrev pub override : Option BatchPolicy → Timing → Timing
override none t = t
override (some p) t = record {
  debounce = or_else p.debounce_timeout t.debounce;
  max_wait = or_else p.max_wait_time t.max_wait;
  failure = or_else p.failure_policy t.failure;
}

abbrev pub runtime_defaults : Timing
runtime_defaults = record {
  debounce = default_batch_debounce_timeout;
  max_wait = default_batch_max_wait_time;
  failure = block;
}

unfoldable pub effective_batch_policy : NudgeConfigSpec → String → Timing
unfolding resolve_target_config
effective_batch_policy spec target =
    let inherited = override spec.batch_defaults runtime_defaults in
    elim (resolve_target_config target spec.target_config) [
      | some tc ↦ override tc.batch_policy inherited
      | none ↦ inherited
    ]

-- The errors of the validation, each with the target that it names.
pub data BatchConfigError : Type 0 where
  duplicate_target : String → BatchConfigError
  bad_debounce bad_max_wait max_wait_too_short : String → Timing → BatchConfigError

unfoldable pub unique_from : List String → List TargetConfig → Option BatchConfigError
unique_from seen [] = none
unique_from seen (tc ∷ rest) =
    let more = unique_from (tc.target ∷ seen) rest in
    if contains seen tc.target then some (duplicate_target tc.target) else more

unfoldable pub validate_unique_target_config : NudgeConfigSpec → Option BatchConfigError
unfolding unique_from
validate_unique_target_config spec = unique_from [] spec.target_config

unfoldable pub validate_resolved_batch_timing : String → Timing → Option BatchConfigError
validate_resolved_batch_timing target t =
    if ltb t.debounce min_batch_timing || ltb max_batch_timing t.debounce
    then some (bad_debounce target t)
    else if ltb t.max_wait min_batch_timing || ltb max_batch_timing t.max_wait
    then some (bad_max_wait target t)
    else if leb t.max_wait t.debounce
    then some (max_wait_too_short target t)
    else none

unfoldable pub effective_from : NudgeConfigSpec → List TargetConfig → Option BatchConfigError
effective_from spec [] = none
effective_from spec (tc ∷ rest) =
    let more = effective_from spec rest in
    if is_batched tc
    then elim (validate_resolved_batch_timing tc.target (effective_batch_policy spec tc.target)) [
      | some e ↦ some e
      | none ↦ more
    ]
    else more

unfoldable pub validate_effective_batch_policies : NudgeConfigSpec → Option BatchConfigError
unfolding effective_from
validate_effective_batch_policies spec = effective_from spec spec.target_config

unfoldable pub validate_batch_config : NudgeConfigSpec → Option BatchConfigError
validate_batch_config spec = elim (validate_unique_target_config spec) [
  | some e ↦ some e
  | none ↦ validate_effective_batch_policies spec
]
