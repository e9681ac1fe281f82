-- ===== src/Common/State/Outputs.antt =====
-- `StepState.reset_localization_outputs`: the outputs of a step, field by field.
use t_llm.Prelude.{◌≡◌, refl, []}
use t_llm.Common.State.{StepState, reset_localization_outputs}

-- The step has no output of a localization.
pub record NoOutputs (step : StepState) : Type 0 where
  pub decode_count : step.decode_count ≡ 0
  pub decode_prompt_idxs : step.decode_prompt_idxs ≡ []
  pub decode_sample_idxs : step.decode_sample_idxs ≡ []
  pub prefill_count : step.prefill_count ≡ 0
  pub prefill_row_indices : step.prefill_row_indices ≡ []
  pub prefill_prompt_idxs : step.prefill_prompt_idxs ≡ []
  pub prefill_sample_idxs : step.prefill_sample_idxs ≡ []
  pub prefill_token_offsets : step.prefill_token_offsets ≡ []

pub reset_localization_outputs-NoOutputs :
    (step : StepState) → NoOutputs (reset_localization_outputs step)
unfolding reset_localization_outputs
reset_localization_outputs-NoOutputs step = record {
  decode_count = refl;
  decode_prompt_idxs = refl;
  decode_sample_idxs = refl;
  prefill_count = refl;
  prefill_row_indices = refl;
  prefill_prompt_idxs = refl;
  prefill_sample_idxs = refl;
  prefill_token_offsets = refl;
}
