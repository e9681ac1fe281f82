-- ===== src/Common/State.antt =====
-- tllm/common/state.py and tllm/common/runtime_step_state.py: the state that the producers share.
-- `STATE` is passed and returned. The capture layer's buffers stand in it too, and
-- `decode_hidden_rows` says whether `STATE.decode_hidden_rows` is bound to the layer's buffer, which
-- is the only tensor that the program binds it to. `tap_consumer` is never read and is left out.
pub mod Requests
pub mod Configure
pub mod Outputs
use t_llm.Prelude.{
  ℕ, ◌≡◌, Bool, true, false, ◌&&◌, ◌||◌, Option, none, some, List, [], ◌∷◌, ◌++◌, if◌then◌else◌,
  leb, is_empty, length, take, get_elem?, Result, ok, err, ◌>>=◌, runtime_error, index_error,
  empty_layer_path, index_out_of_range, path_invalid, not_a_module, list_eq, nat_eq,
}
use t_llm.Prelude.Int.{ℤ, pos, negsuc, ◌+ℤ◌, is_negative, clamp_zero, pos_part}
use t_llm.Prelude.Dict.{Dict, lookup}
use t_llm.Prelude.Str.{Str, codes, strip, isdigit, break_at, digits_value}
use t_llm.Prelude.Torch.{MaskValue}
use t_llm.Common.Objects.{PythonObjects}
use t_llm.Common.PathResolution.{
  candidate_capture_paths, resolve_object_by_path, resolve_layers_container,
}

pub record RuntimeConfig : Type 0 where
  pub graph_scratch_rows : ℕ
  pub enable_decode_producer : Bool
  pub enable_prefill_producer : Bool
  pub capture_layer_path : Str
  pub capture_layer_index : Option ℤ

-- A tensor of row numbers, and whether it lies on a CUDA device.
pub record LogitsIndices : Type 0 where
  pub values : List ℤ
  pub on_cuda : Bool

pub record StepState : Type 0 where
  pub req_ids : List Str
  pub req_id_to_index : Dict Str ℕ
  pub is_decode_req : List Bool
  pub logits_indices : Option LogitsIndices
  pub num_actual_tokens : ℕ
  pub num_prompt_tokens : List ℕ
  pub num_computed_tokens : List ℕ
  pub num_scheduled_tokens_np : Option (List ℕ)
  pub decode_count : ℕ
  pub decode_prompt_idxs : List ℤ
  pub decode_sample_idxs : List ℤ
  pub prefill_count : ℕ
  pub prefill_row_indices : List ℕ
  pub prefill_prompt_idxs : List ℤ
  pub prefill_sample_idxs : List ℤ
  pub prefill_token_offsets : List ℕ

unfoldable pub reset_localization_outputs : StepState → StepState
reset_localization_outputs step = record step {
  decode_count = 0;
  decode_prompt_idxs = [];
  decode_sample_idxs = [];
  prefill_count = 0;
  prefill_row_indices = [];
  prefill_prompt_idxs = [];
  prefill_sample_idxs = [];
  prefill_token_offsets = [];
}

-- The buffers that `ensure_decode_buffers` registers on the capture layer.
pub record DecodeBuffers (Row : Type 0) : Type 0 where
  pub decode_row_idx : List ℤ
  pub decode_valid_mask : List MaskValue
  pub decode_hidden_rows_buffer : List Row

pub record RuntimeState (Row : Type 0) : Type 0 where
  pub config : RuntimeConfig
  pub step : StepState
  pub capture_active : Bool
  pub reqid_to_promptidx : Dict Str ℤ
  pub captured_decode : Dict ℤ (List Row)
  pub captured_prefill : Dict ℤ (List Row)
  pub decode_hidden_rows : Bool
  pub prefill_hidden_rows : Option (List Row)
  pub buffers : Option (DecodeBuffers Row)

abbrev pub is_none_index : Option ℤ → Bool
is_none_index none = true
is_none_index (some i) = false

abbrev pub default_path : Str
default_path = codes "model.model.layers[0]"

module _ {Row : Type 0} where
  abbrev pub with_config : RuntimeState Row → RuntimeConfig → RuntimeState Row
  with_config state config = record state { config = config }

  -- The end of `configure`, which an error does not reach.
  abbrev configured : RuntimeState Row → RuntimeConfig → Result (Unit {0}) × RuntimeState Row
  configured state config = (
    ok tt,
    record state {
      config = config;
      step = reset_localization_outputs state.step;
      capture_active = false;
    },
  )

  pub configure :
      ℤ → Bool → Option Str → Option ℤ → RuntimeState Row → Result (Unit {0}) × RuntimeState Row
  configure rows prefill path (some index) state = configured state (record state.config {
    graph_scratch_rows = clamp_zero rows;
    enable_prefill_producer = prefill;
    capture_layer_index = some index;
    capture_layer_path = [];
  })
  configure rows prefill (some path) none state =
      let config = record state.config {
        graph_scratch_rows = clamp_zero rows;
        enable_prefill_producer = prefill;
      } in
      if is_empty (strip path)
      then (err (runtime_error empty_layer_path), with_config state config)
      else configured state
          (record config { capture_layer_index = none; capture_layer_path = strip path })
  configure rows prefill none none state =
      let config = record state.config {
        graph_scratch_rows = clamp_zero rows;
        enable_prefill_producer = prefill;
      } in
      configured state (
        if is_empty config.capture_layer_path && is_none_index config.capture_layer_index
        then record config { capture_layer_path = default_path }
        else config)

  pub reset_capture : RuntimeState Row → RuntimeState Row
  reset_capture state = record state {
    capture_active = false;
    reqid_to_promptidx = [];
    captured_decode = [];
    captured_prefill = [];
  }

  pub reset_runtime_tensors : RuntimeState Row → RuntimeState Row
  reset_runtime_tensors state = record state {
    decode_hidden_rows = false;
    prefill_hidden_rows = none;
    step = reset_localization_outputs state.step;
  }

abbrev pub unresolved : ℤ × ℤ
unresolved = (negsuc 0, negsuc 0)

-- The part behind `if "_" in req_id`
unfoldable pub resolve_child : Dict Str ℤ → Option (Str × Str) → ℤ × ℤ
resolve_child registry none = unresolved
resolve_child registry (some (maybe_sample_idx, parent_req_id)) =
    if isdigit maybe_sample_idx
    then elim (lookup parent_req_id registry) [
      | none ↦ unresolved
      | some parent_prompt_idx ↦ (parent_prompt_idx, pos (digits_value 0 maybe_sample_idx))
    ]
    else unresolved

unfoldable pub resolve_prompt_sample_for_req_id : Dict Str ℤ → Str → ℤ × ℤ
unfolding resolve_child
resolve_prompt_sample_for_req_id registry req_id = elim (lookup req_id registry) [
  | some prompt_idx ↦ (prompt_idx, pos 0)
  | none ↦ resolve_child registry (break_at b'_' req_id)
]
