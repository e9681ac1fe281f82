-- ===== src/Common/Snapshot.antt =====
-- tllm/common/runtime_step_state.py: the snapshot that a step starts from.
pub mod Flags
use t_llm.Prelude.{
  ℕ, Bool, false, Option, none, some, List, [], ◌∷◌, leb, take, get_elem?, Result, ok, err, ◌>>=◌,
  index_error, list_eq, nat_eq,
}
use t_llm.Prelude.Dict.{Dict, lookup}
use t_llm.Prelude.Str.{Str}
use t_llm.Common.State.{LogitsIndices, StepState, reset_localization_outputs}

-- `runner.input_batch`, of vLLM; a `None` among the request ids is an empty slot.
pub record InputBatch : Type 0 where
  pub req_ids : List (Option Str)
  pub num_reqs : ℕ
  pub req_id_to_index : Dict Str ℕ
  pub num_prompt_tokens : List ℕ
  pub num_computed_tokens_cpu : List ℕ

unfoldable pub present : List (Option Str) → List Str
present [] = []
present (none ∷ rest) = present rest
present (some rid ∷ rest) = rid ∷ present rest

-- `array[i]`
abbrev pub item {ℓ} : {A : Type ℓ} → List A → ℕ → Result A
item xs i = elim (get_elem? xs i) [ none ↦ err index_error | some x ↦ ok x ]

module _ (batch : InputBatch) where
  unfoldable pub is_decode : Option ℕ → Result Bool
  is_decode none = ok false
  is_decode (some req_idx) = do
    computed ← item batch.num_computed_tokens_cpu req_idx
    prompt ← item batch.num_prompt_tokens req_idx
    ok (leb prompt computed)

  unfoldable pub decode_flags : List Str → Result (List Bool)
  unfolding is_decode
  decode_flags [] = ok []
  decode_flags (req_id ∷ rest) = do
    flag ← is_decode (lookup req_id batch.req_id_to_index)
    flags ← decode_flags rest
    ok (flag ∷ flags)

  -- An error leaves the step as it was.
  unfoldable pub snapshot_step_common :
      Option LogitsIndices → ℕ → Option (List ℕ) → StepState → Result StepState
  unfolding decode_flags reset_localization_outputs
  snapshot_step_common logits_indices num_actual_tokens num_scheduled_tokens_np step =
      let req_ids = present (take batch.num_reqs batch.req_ids) in
      decode_flags req_ids >>= λ flags. ok (
        reset_localization_outputs (record step {
          req_ids = req_ids;
          req_id_to_index = batch.req_id_to_index;
          is_decode_req = flags;
          logits_indices = logits_indices;
          num_actual_tokens = num_actual_tokens;
          num_prompt_tokens = batch.num_prompt_tokens;
          num_computed_tokens = batch.num_computed_tokens_cpu;
          num_scheduled_tokens_np = num_scheduled_tokens_np;
        }))
