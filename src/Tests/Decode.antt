-- ===== src/Tests/Decode.antt =====
-- A step of three requests, of which two decode, on numbers as rows.
use t_llm.Prelude.{
  ℕ, ◌≡◌, refl, Bool, true, false, ◌&&◌, some, List, [], ◌∷◌, All, arith, take, ltb, contains,
  list_eq, nat_eq, ok, err, runtime_error, rows_exceed_scratch, logits_out_of_range,
}
use t_llm.Prelude.Int.{ℤ, pos, negsuc, int_eq}
use t_llm.Prelude.Dict.{lookup}
use t_llm.Prelude.Str.{Str, codes, join, break_at, isdigit}
use t_llm.Prelude.Torch.{MaskValue, zeroed, filled}
use t_llm.Common.PathResolution.{resolve_layers_container, layers_loop}
use t_llm.Common.State.{
  RuntimeState, LogitsIndices, DecodeBuffers, resolve_child, resolve_prompt_sample_for_req_id,
}
use t_llm.Common.CaptureLayer.{
  find_capture_layer, layer_by_index, checked_layer, decimal, decimal_from,
}
use t_llm.Producer.Decode.{
  DecodeLocalization, compute_decode_localization, decode_positions_from, is_contiguous,
  select_rows, out_of_range, resolve_positions, localize,
}
use t_llm.Producer.Decode.Rows.{IsLocalized, IsTokenRow}
use t_llm.Producer.Decode.Localization.{
  IsRejected, compute_decode_localization-IsLocalized, compute_decode_localization-IsRejected,
}
use t_llm.Producer.Decode.Chosen.{flag_at}
use t_llm.Producer.Decode.Positions.{contains-decode_positions}
use t_llm.Producer.DecodeStep.{
  prepare_decode_localization, prepare_with_buffers, store_localization, cleared, clear_decode,
  clear_buffers, gather_decode_hidden_from_scratch, export_decode_capture, rows_at,
}
use t_llm.Producer.DecodeStep.Ready.{prepare_decode_localization-gathers}
use t_llm.Producer.DecodeStep.Failure.{Reason, IsCleared, prepare_decode_localization-error}
use t_llm.Producer.DecodeStep.Export.{rows_at-export_decode_capture}
use t_llm.Tests.Tensors.{list_indexing, list_extremes, number_masking}
use t_llm.Tests.Models.{small_model}
use t_llm.Tests.Requests.{two_requests, empty_step, first_layer}

abbrev resolve : Str → ℤ × ℤ
resolve = resolve_prompt_sample_for_req_id two_requests

abbrev names : List Str
names = codes "a" ∷ codes "c" ∷ codes "1_b_1" ∷ []

abbrev flags : List Bool
flags = true ∷ false ∷ true ∷ []

abbrev logits : LogitsIndices
logits = record { values = pos 0 ∷ pos 2 ∷ pos 3 ∷ []; on_cuda = false }

abbrev two_rows : DecodeLocalization
two_rows = record {
  row_idx = pos 0 ∷ pos 3 ∷ [];
  prompt_idxs = pos 0 ∷ pos 7 ∷ [];
  sample_idxs = pos 0 ∷ pos 1 ∷ [];
  decode_positions = 0 ∷ 2 ∷ [];
}

localized :
    compute_decode_localization list_indexing list_extremes resolve names flags (some logits) 4 0
    ≡ ok two_rows
unfolding compute_decode_localization decode_positions_from is_contiguous select_rows out_of_range
    resolve_positions localize resolve_prompt_sample_for_req_id resolve_child lookup break_at
    isdigit list_eq nat_eq int_eq
localized = refl

compute_decode_localization-IsLocalized_example :
    IsLocalized resolve names logits.values two_rows
    × (logits.on_cuda ≡ false → All (IsTokenRow 4) two_rows.row_idx)
compute_decode_localization-IsLocalized_example =
    compute_decode_localization-IsLocalized list_indexing list_extremes resolve names flags logits 4
      0 two_rows localized

-- With three tokens the last row is outside the step.
rejected :
    compute_decode_localization list_indexing list_extremes resolve names flags (some logits) 3 2
    ≡ err (runtime_error logits_out_of_range)
unfolding compute_decode_localization decode_positions_from is_contiguous select_rows out_of_range
    resolve_positions localize resolve_prompt_sample_for_req_id resolve_child lookup break_at
    isdigit list_eq nat_eq int_eq
rejected = refl

compute_decode_localization-IsRejected_example :
    IsRejected list_indexing list_extremes resolve names flags logits 3 2
      (runtime_error logits_out_of_range)
compute_decode_localization-IsRejected_example =
    compute_decode_localization-IsRejected list_indexing list_extremes resolve names flags logits 3
      2 (runtime_error logits_out_of_range) rejected

contains-decode_positions_example :
    contains two_rows.decode_positions 2 ≡ (flag_at flags 2 && (ltb 2 3 && ltb 2 3))
contains-decode_positions_example =
    contains-decode_positions list_indexing list_extremes resolve names flags logits 4 2 two_rows
      localized (λ e. cc)

abbrev buffers_of : List ℤ → List MaskValue → List ℕ → DecodeBuffers ℕ
buffers_of rows mask hidden = record {
  decode_row_idx = rows;
  decode_valid_mask = mask;
  decode_hidden_rows_buffer = hidden;
}

abbrev buffers : DecodeBuffers ℕ
buffers =
    buffers_of (pos 9 ∷ pos 9 ∷ pos 9 ∷ []) (filled ∷ filled ∷ filled ∷ []) (90 ∷ 91 ∷ 92 ∷ [])

abbrev in_step : DecodeBuffers ℕ → RuntimeState ℕ
in_step bound = record first_layer {
  step = record empty_step {
    req_ids = names;
    is_decode_req = flags;
    logits_indices = some logits;
    num_actual_tokens = 4;
  };
  buffers = some bound;
  decode_hidden_rows = true;
}

layer_found : find_capture_layer small_model first_layer.config 0 ≡ ok (3, codes "model.layers[0]")
unfolding find_capture_layer layer_by_index checked_layer decimal decimal_from
    resolve_layers_container layers_loop join list_eq nat_eq
layer_found = refl

abbrev scratch : List ℕ
scratch = 10 ∷ 11 ∷ 12 ∷ 13 ∷ []

prepare_decode_localization-gathers_example :
    (after : RuntimeState ℕ) × (now : DecodeBuffers ℕ) × (prepare_decode_localization small_model
        list_indexing list_extremes 0
        (in_step buffers)
      ≡ (ok tt, after))
    × (after.buffers ≡ some now)
    × (after.step.decode_count ≡ 2)
    × (after.step.decode_prompt_idxs ≡ two_rows.prompt_idxs)
    × (after.step.decode_sample_idxs ≡ two_rows.sample_idxs)
    × (take after.step.decode_count
          (gather_decode_hidden_from_scratch number_masking list_indexing now
            scratch).decode_hidden_rows_buffer
        ≡ 10 ∷ 13 ∷ [])
prepare_decode_localization-gathers_example =
    prepare_decode_localization-gathers number_masking small_model list_indexing list_extremes
      list_indexing 0 (in_step buffers) (3, codes "model.layers[0]") buffers two_rows scratch
      (10 ∷ 13 ∷ []) layer_found refl refl localized (omega arith) (omega arith) refl

-- One row is too few.
abbrev one_row : DecodeBuffers ℕ
one_row = buffers_of (pos 5 ∷ []) (filled ∷ []) (90 ∷ [])

abbrev after_failure : RuntimeState ℕ
after_failure = record (in_step one_row) {
  buffers = some (buffers_of (pos 0 ∷ []) (zeroed ∷ []) (90 ∷ []));
}

too_few :
    prepare_decode_localization small_model list_indexing list_extremes 0 (in_step one_row)
    ≡ (err (runtime_error rows_exceed_scratch), after_failure)
unfolding prepare_decode_localization prepare_with_buffers store_localization cleared clear_decode
    clear_buffers
too_few = rw (layer_found, prepare_decode_localization) (rw (localized, prepare_with_buffers) refl)

prepare_decode_localization-error_example :
    Reason small_model list_indexing list_extremes
      (in_step one_row)
      one_row
      (runtime_error rows_exceed_scratch)
    × IsCleared small_model list_indexing list_extremes one_row after_failure
prepare_decode_localization-error_example =
    prepare_decode_localization-error small_model list_indexing list_extremes 0 (in_step one_row)
      after_failure (3, codes "model.layers[0]") one_row (runtime_error rows_exceed_scratch)
      layer_found refl too_few

-- Two decode rows, of which the second has no prompt.
abbrev exporting : RuntimeState ℕ
exporting = record (in_step buffers) {
  step = record empty_step {
    decode_count = 2;
    decode_prompt_idxs = pos 7 ∷ negsuc 0 ∷ [];
    decode_sample_idxs = pos 1 ∷ negsuc 0 ∷ [];
  };
  captured_decode = (pos 7, 50 ∷ []) ∷ [];
}

rows_at-export_decode_capture_example :
    ((export_decode_capture exporting).0 ≡ ok tt)
    × (rows_at (export_decode_capture exporting).1.captured_decode (pos 7) ≡ 50 ∷ 90 ∷ [])
unfolding lookup int_eq nat_eq
rows_at-export_decode_capture_example =
    rows_at-export_decode_capture exporting buffers (pos 7) refl refl
      (record { bound = refl; prompts = omega arith; samples = omega arith; rows = omega arith })
      refl
