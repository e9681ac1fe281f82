-- ===== src/Runtime/HiddenBatch.antt =====
-- tllm/runtime/hidden_event_bridge.py, with tllm/contracts/hidden_batch.py: the captured rows of a
-- layer as the batch of an event. A tensor is the list of its rows.
pub mod Rows
use t_llm.Prelude.{
  ℕ, Bool, true, false, not, ◌||◌, Option, none, some, List, [], ◌∷◌, ◌++◌, ◌+◌, take, length, min,
  if◌then◌else◌, is_empty, leb, eqb, contains, ◌==◌, list_eq, nat_eq, Result, ok, err, ◌>>=◌,
}
use t_llm.Prelude.Int.{ℤ}
use t_llm.Prelude.Str.{Str, codes, strip}
use t_llm.Prelude.Dict.{Dict, lookup}
use t_llm.Prelude.Torch.{MaskValue}
use t_llm.Runtime.DispatchPlan.{DispatchPlan, select}
use t_llm.Runtime.RowBatch.{DecodeRuntime, active_request_prompt_sample_metadata, decode_phase}
use t_llm.Runtime.ResidualBindings.{ResidualPathBinding, default_resolved_paths}
use t_llm.Runtime.Events.{EventCall, Methods, dispatch_runtime_event, followed_by}

pub record HiddenBatch (Row : Type 0) : Type 0 where
  pub step_id : ℕ
  pub phase : Str
  pub layer_path : Str
  pub rows_hidden : List Row
  pub row_idx : List ℤ
  pub valid_mask : List MaskValue
  pub prompt_idx : List ℤ
  pub sample_idx : List ℤ
  pub prompt_idxs : List ℤ
  pub sample_idxs : List ℤ
  pub full_rows_hidden : List Row

pub record ResidualRuntime (Row : Type 0) : Type 0 where
  pub decode : DecodeRuntime
  pub tap_decode_hidden : Dict Str (List Row)
  pub decode_row_idx : Option (List ℤ)
  pub decode_valid_mask : Option (List MaskValue)
  pub decode_count : ℕ
  pub decode_prompt_idx_tensor : Option (List ℤ)
  pub decode_sample_idx_tensor : Option (List ℤ)
  pub residual_bindings : Dict Str ResidualPathBinding
  pub source_resolved_path : Str
  pub target_resolved_path : Str

-- `tensor[:active]` of a tensor that is long enough, or else a tensor of the list
abbrev pub indices_of_tensor : Option (List ℤ) → ℕ → List ℤ → List ℤ
indices_of_tensor none active indices = indices
indices_of_tensor (some tensor) active indices =
    if leb active (length tensor) then take active tensor else indices

module _ {Row : Type 0} where
  unfoldable pub batch_of :
      ResidualRuntime Row → Str → List Row → List ℤ → List MaskValue → ℕ → Result (HiddenBatch Row)
  batch_of runtime layer_path decode_buf decode_row_idx decode_valid_mask active = do
    metadata ← active_request_prompt_sample_metadata runtime.decode active
    ok (record {
      step_id = runtime.decode.event_step_id;
      phase = decode_phase;
      layer_path = layer_path;
      rows_hidden = take active decode_buf;
      row_idx = take active decode_row_idx;
      valid_mask = take active decode_valid_mask;
      prompt_idx = indices_of_tensor runtime.decode_prompt_idx_tensor active metadata.1;
      sample_idx = indices_of_tensor runtime.decode_sample_idx_tensor active metadata.2;
      prompt_idxs = metadata.1;
      sample_idxs = metadata.2;
      full_rows_hidden = decode_buf;
    })

  -- The part behind the guards on the three tensors
  unfoldable pub batch_of_tensors :
      ResidualRuntime Row
      → Str
      → Option (List Row)
      → Option (List ℤ)
      → Option (List MaskValue)
      → Result (Option (HiddenBatch Row))
  unfolding batch_of
  batch_of_tensors runtime layer_path (some decode_buf) (some row_idx) (some valid_mask) =
      if eqb runtime.decode_count 0 then ok none else (do
        batch ←
            batch_of runtime layer_path decode_buf row_idx valid_mask
              (min runtime.decode_count (length row_idx))
        ok (some batch))
  batch_of_tensors runtime layer_path decode_buf row_idx valid_mask = ok none

  unfoldable pub build_runtime_hidden_batch :
      ResidualRuntime Row → Str → Result (Option (HiddenBatch Row))
  unfolding batch_of_tensors
  build_runtime_hidden_batch runtime layer_path =
      batch_of_tensors runtime layer_path (lookup layer_path runtime.tap_decode_hidden)
        runtime.decode_row_idx runtime.decode_valid_mask

  module _ {Consumer : Type 0} (methods : Methods Consumer) where
    -- The event of one layer, where a consumer subscribed to it; without a plan there is none.
    unfoldable pub dispatch_layer :
        ResidualRuntime Row
        → Option (DispatchPlan Consumer)
        → Str
        → List (EventCall Consumer (HiddenBatch Row)) × Result ℕ
    unfolding build_runtime_hidden_batch dispatch_runtime_event select
    dispatch_layer runtime none layer_key = ([], ok 0)
    dispatch_layer runtime (some plan) layer_key =
        if is_empty (select plan (codes "layer.post") (some decode_phase) (some layer_key) false)
        then ([], ok 0)
        else elim (build_runtime_hidden_batch runtime layer_key) [
          | err raised ↦ ([], err raised)
          | ok none ↦ ([], ok 0)
          | ok (some built) ↦
              dispatch_runtime_event methods false (some plan) (codes "layer.post")
                (some decode_phase) (some layer_key) (some false) (ok (some built))
        ]

    -- The loop over the two paths
    unfoldable pub dispatch_layers :
        ResidualRuntime Row
        → Option (DispatchPlan Consumer)
        → List Str
        → List Str
        → List (EventCall Consumer (HiddenBatch Row)) × Result ℕ
    unfolding dispatch_layer strip
    dispatch_layers runtime plan seen [] = ([], ok 0)
    dispatch_layers runtime plan seen (layer_path ∷ layer_paths) =
        let layer_key = strip layer_path in
        let skipped = dispatch_layers runtime plan seen layer_paths in
        let rest = dispatch_layers runtime plan (layer_key ∷ seen) layer_paths in
        if is_empty layer_key || contains seen layer_key
        then skipped
        else followed_by (dispatch_layer runtime plan layer_key) rest

    unfoldable pub dispatch_deferred_layer_batches :
        ResidualRuntime Row
        → Option (DispatchPlan Consumer)
        → List (EventCall Consumer (HiddenBatch Row)) × Result ℕ
    unfolding dispatch_layers default_resolved_paths
    dispatch_deferred_layer_batches runtime plan =
        let paths =
          default_resolved_paths runtime.residual_bindings
            (runtime.source_resolved_path, runtime.target_resolved_path) in
        dispatch_layers runtime plan [] (paths.0 ∷ paths.1 ∷ [])

    -- One event of a layer's life
    unfoldable pub layer_event :
        Option (DispatchPlan Consumer)
        → Str
        → Str
        → Bool
        → Result (Option (HiddenBatch Row))
        → List (EventCall Consumer (HiddenBatch Row)) × Result ℕ
    unfolding dispatch_runtime_event
    layer_event plan event_name layer_path capture_enabled batch =
        dispatch_runtime_event methods false plan event_name (some decode_phase) (some layer_path)
          (some capture_enabled) batch

    unfoldable pub dispatch_layer_lifecycle_events :
        ResidualRuntime Row
        → Option (DispatchPlan Consumer)
        → Str
        → Bool
        → List (EventCall Consumer (HiddenBatch Row)) × Result ℕ
    unfolding layer_event build_runtime_hidden_batch default_resolved_paths
    dispatch_layer_lifecycle_events runtime plan layer_path capture_enabled =
        let paths =
          default_resolved_paths runtime.residual_bindings
            (runtime.source_resolved_path, runtime.target_resolved_path) in
        followed_by (layer_event plan (codes "layer.pre") layer_path capture_enabled (ok none)) (
          followed_by
            (layer_event plan (codes "layer.post") layer_path capture_enabled
              (build_runtime_hidden_batch runtime layer_path))
            (followed_by (layer_event plan (codes "block.end") layer_path capture_enabled (ok none))
              (if layer_path == paths.1
                then layer_event plan (codes "stack.end") layer_path capture_enabled (ok none)
                else ([], ok 0))))
