-- ===== src/Producer/DecodeStep.antt =====
-- tllm/producer/decode.py: what a step does with the decode rows, on the shared state and the
-- buffers of the capture layer.
pub mod Export
pub mod Ready
pub mod Failure
use t_llm.Prelude.{
  ℕ, zero, suc, Bool, true, false, not, ◌||◌, Option, none, some, List, [], ◌∷◌, ◌++◌,
  if◌then◌else◌, ltb, eqb, is_empty, length, take, replicate, Result, ok, err, Exception,
  runtime_error, attribute_error, rows_exceed_scratch, prompt_mismatch, sample_mismatch,
  buffer_mismatch,
}
use t_llm.Prelude.Int.{ℤ, pos, is_negative, int_eq}
use t_llm.Prelude.Dict.{Dict, lookup, insert}
use t_llm.Prelude.Torch.{Indexing, Extremes, Masking, MaskValue, zeroed, filled}
use t_llm.Common.Objects.{PythonObjects}
use t_llm.Common.State.{StepState, DecodeBuffers, RuntimeState, resolve_prompt_sample_for_req_id}
use t_llm.Common.CaptureLayer.{find_capture_layer}
use t_llm.Producer.Decode.{DecodeLocalization, compute_decode_localization}

-- `buffer[: len(xs)].copy_(xs)`
unfoldable pub overwrite {ℓ} : {A : Type ℓ} → List A → List A → List A
overwrite [] buffer = buffer
overwrite (x ∷ xs) [] = []
overwrite (x ∷ xs) (y ∷ buffer) = x ∷ overwrite xs buffer

-- `d.get(k, [])`
abbrev pub rows_at : {Row : Type 0} → Dict ℤ (List Row) → ℤ → List Row
rows_at captured prompt_idx = elim (lookup prompt_idx captured) [ none ↦ [] | some rows ↦ rows ]

unfoldable pub clear_decode : StepState → StepState
clear_decode step = record step {
  decode_count = 0;
  decode_prompt_idxs = [];
  decode_sample_idxs = [];
}

module _ {Row : Type 0} where
  -- The rows of new buffers are not initialised: `empty` is what they happen to hold.
  pub ensure_decode_buffers : (rows : ℕ) (empty : List Row) → RuntimeState Row → RuntimeState Row
  ensure_decode_buffers rows empty state = record state {
    buffers = some (record {
      decode_row_idx = replicate rows (pos 0);
      decode_valid_mask = replicate rows zeroed;
      decode_hidden_rows_buffer = empty;
    });
    decode_hidden_rows = true;
  }

  -- `zero_()` on both buffers
  unfoldable pub clear_buffers : DecodeBuffers Row → DecodeBuffers Row
  clear_buffers buffers = record buffers {
    decode_row_idx = replicate (length buffers.decode_row_idx) (pos 0);
    decode_valid_mask = replicate (length buffers.decode_valid_mask) zeroed;
  }

  -- What follows the localization, from cleared outputs and buffers.
  unfoldable pub store_localization :
      DecodeLocalization
      → DecodeBuffers Row
      → RuntimeState Row
      → Result (Unit {0}) × RuntimeState Row
  store_localization found buffers state =
      let k = length found.row_idx in
      if eqb k 0
      then (ok tt, state)
      else if ltb (length buffers.decode_row_idx) k
      then (err (runtime_error rows_exceed_scratch), state)
      else (
        ok tt,
        record state {
          buffers = some (record buffers {
            decode_row_idx = overwrite found.row_idx buffers.decode_row_idx;
            decode_valid_mask = overwrite (replicate k filled) buffers.decode_valid_mask;
          });
          step = record state.step {
            decode_count = k;
            decode_prompt_idxs = found.prompt_idxs;
            decode_sample_idxs = found.sample_idxs;
          };
        },
      )

  -- The state behind the two resets at the start.
  unfoldable pub cleared : DecodeBuffers Row → RuntimeState Row → RuntimeState Row
  unfolding clear_decode clear_buffers
  cleared buffers state = record state {
    buffers = some (clear_buffers buffers);
    step = clear_decode state.step;
  }

  module _ (objects : PythonObjects) (indexing : Indexing ℤ) (extremes : Extremes) where
    -- `compute_decode_localization` on the step, as `prepare_decode_localization` calls it.
    abbrev pub localization : RuntimeState Row → Result DecodeLocalization
    localization state =
        compute_decode_localization indexing extremes
          (resolve_prompt_sample_for_req_id state.reqid_to_promptidx) state.step.req_ids
          state.step.is_decode_req state.step.logits_indices state.step.num_actual_tokens 0

    unfoldable pub prepare_with_buffers :
        Option (DecodeBuffers Row) → RuntimeState Row → Result (Unit {0}) × RuntimeState Row
    prepare_with_buffers none state = (err attribute_error, state)
    prepare_with_buffers (some buffers) state = elim (localization state) [
      | err e ↦ (err e, cleared buffers state)
      | ok found ↦ store_localization found (clear_buffers buffers) (cleared buffers state)
    ]

    unfoldable pub prepare_decode_localization :
        objects.Obj → RuntimeState Row → Result (Unit {0}) × RuntimeState Row
    unfolding prepare_with_buffers
    prepare_decode_localization model state = elim (find_capture_layer objects state.config model) [
      | err e ↦ (err e, state)
      | ok layer ↦ prepare_with_buffers state.buffers state
    ]

  module _ (masking : Masking Row) where
    open masking use {mul}

    pub mask_rows : List Row → List MaskValue → List Row
    mask_rows (r ∷ rows) (m ∷ mask) = mul r m ∷ mask_rows rows mask
    mask_rows _ _ = []

    pub gather_decode_hidden_from_scratch :
        Indexing Row → DecodeBuffers Row → List Row → DecodeBuffers Row
    unfolding mask_rows
    gather_decode_hidden_from_scratch indexing buffers scratch = record buffers {
      decode_hidden_rows_buffer =
          mask_rows (indexing.index_select scratch buffers.decode_row_idx)
            buffers.decode_valid_mask;
    }

  -- `if prompt_idx not in captured: captured[prompt_idx] = []` and the `append`
  pub append_row : ℤ → Row → Dict ℤ (List Row) → Dict ℤ (List Row)
  append_row prompt_idx row captured =
      insert prompt_idx (rows_at captured prompt_idx ++ (row ∷ [])) captured

  -- The loop over the first `count` rows; rows with no prompt are skipped.
  pub export_rows : ℕ → List ℤ → List Row → Dict ℤ (List Row) → Dict ℤ (List Row)
  unfolding append_row
  export_rows (suc count) (prompt_idx ∷ prompt_idxs) (row ∷ rows) captured =
      export_rows count prompt_idxs rows
        (if is_negative prompt_idx then captured else append_row prompt_idx row captured)
  export_rows _ _ _ captured = captured

  export_checked : DecodeBuffers Row → RuntimeState Row → Result (Unit {0}) × RuntimeState Row
  export_checked buffers state =
      let requested = state.step.decode_count in
      if ltb (length state.step.decode_prompt_idxs) requested
      then (err (runtime_error prompt_mismatch), state)
      else if ltb (length state.step.decode_sample_idxs) requested
      then (err (runtime_error sample_mismatch), state)
      else if ltb (length buffers.decode_hidden_rows_buffer) requested
      then (err (runtime_error buffer_mismatch), state)
      else (
        ok tt,
        record state {
          captured_decode =
              export_rows requested state.step.decode_prompt_idxs buffers.decode_hidden_rows_buffer
                state.captured_decode;
        },
      )

  export_bound :
      Option (DecodeBuffers Row) → RuntimeState Row → Result (Unit {0}) × RuntimeState Row
  unfolding export_checked
  export_bound none state = (ok tt, state)
  export_bound (some buffers) state = export_checked buffers state

  pub export_decode_capture : RuntimeState Row → Result (Unit {0}) × RuntimeState Row
  unfolding export_bound
  export_decode_capture state =
      if not state.capture_active || not state.decode_hidden_rows
      then (ok tt, state)
      else export_bound state.buffers state
