-- ===== src/NudgeBatch/Names.antt =====
-- The names that a batch gives: newBatchID and batchPipelineRunName.
-- Target names are ASCII, so strings.ToLower changes the letters A to Z alone.
use Prim.Native.String.{◌++◌ as text_append}
use integration_service.Base.{String, [], if◌then◌else◌, ltb, refl, ℕ, ◌/◌, ◌∷◌, ◌≡◌}
use integration_service.NudgeConfig.{second}
use integration_service.Base.Text.{map_chars, show_nat, swap_char, to_lower}

-- fmt.Sprintf("%s_%d", target, createdAt.Unix())
unfoldable pub new_batch_id : String → ℕ → String
unfolding show_nat
new_batch_id target created_at =
    text_append target (text_append "_" (show_nat (created_at / second)))

unfoldable pub batch_pipeline_run_name : String → ℕ → String
unfolding swap_char map_chars to_lower show_nat
batch_pipeline_run_name batch_id retry_attempt =
    let lower = to_lower batch_id in
    let safe = map_chars (swap_char (("_", "-") ∷ [])) lower in
    let base = text_append "nudge-batch-" safe in
    if ltb 0 retry_attempt
    then text_append base (text_append "-retry" (show_nat retry_attempt))
    else base

retry_name :
    batch_pipeline_run_name (new_batch_id "Operator" 1_732_600_000_123_456_789) 2
    ≡ "nudge-batch-operator-1732600000-retry2"
unfolding batch_pipeline_run_name new_batch_id
retry_name = refl
