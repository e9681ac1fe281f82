-- ===== src/Tests/HiddenBatch.antt =====
-- A layer with three captured rows, of which two decode in the step. Rows are numbers.
use t_llm.Prelude.{ℕ, ◌≡◌, refl, true, none, some, [], ◌∷◌, list_eq, nat_eq, ok}
use t_llm.Prelude.Int.{pos, int_eq}
use t_llm.Prelude.Str.{Str, codes, strip, lstrip_space}
use t_llm.Prelude.Dict.{lookup}
use t_llm.Prelude.Torch.{filled}
use t_llm.Runtime.Ports.{prefer, required, CapturePolicy, ConsumerSubscription}
use t_llm.Runtime.RowBatch.{active_request_prompt_sample_metadata, decode_phase}
use t_llm.Runtime.ResidualBindings.{default_resolved_paths}
use t_llm.Runtime.DispatchPlan.{DispatchPlan, select}
use t_llm.Runtime.Events.{
  consume, on_tick, Methods, step_end_calls, dispatch_consumer_event, dispatch_targets,
  dispatch_runtime_event,
}
use t_llm.Runtime.HiddenBatch.{
  HiddenBatch, ResidualRuntime, batch_of, batch_of_tensors, build_runtime_hidden_batch,
  dispatch_layer, dispatch_layers, dispatch_deferred_layer_batches,
}
use t_llm.Runtime.HiddenBatch.Rows.{IsAligned, build_runtime_hidden_batch-IsAligned}

abbrev path : Str
path = codes "model.layers[0]"

abbrev runtime : ResidualRuntime ℕ
runtime = record {
  decode = record {
    decode_request_ids = codes "a" ∷ codes "b" ∷ [];
    decode_prompt_idxs = pos 0 ∷ pos 1 ∷ [];
    decode_sample_idxs = pos 0 ∷ pos 0 ∷ [];
    event_step_id = 3;
  };
  tap_decode_hidden = (path, 20 ∷ 21 ∷ 22 ∷ []) ∷ [];
  decode_row_idx = some (pos 4 ∷ pos 6 ∷ pos 0 ∷ []);
  decode_valid_mask = some (filled ∷ filled ∷ filled ∷ []);
  decode_count = 2;
  decode_prompt_idx_tensor = none;
  decode_sample_idx_tensor = some (pos 0 ∷ pos 0 ∷ pos 0 ∷ []);
  residual_bindings = [];
  source_resolved_path = path;
  target_resolved_path = codes " model.layers[0]";
}

abbrev batch : HiddenBatch ℕ
batch = record {
  step_id = 3;
  phase = decode_phase;
  layer_path = path;
  rows_hidden = 20 ∷ 21 ∷ [];
  row_idx = pos 4 ∷ pos 6 ∷ [];
  valid_mask = filled ∷ filled ∷ [];
  prompt_idx = pos 0 ∷ pos 1 ∷ [];
  sample_idx = pos 0 ∷ pos 0 ∷ [];
  prompt_idxs = pos 0 ∷ pos 1 ∷ [];
  sample_idxs = pos 0 ∷ pos 0 ∷ [];
  full_rows_hidden = 20 ∷ 21 ∷ 22 ∷ [];
}

batch_lem : build_runtime_hidden_batch runtime path ≡ ok (some batch)
unfolding build_runtime_hidden_batch batch_of_tensors batch_of active_request_prompt_sample_metadata
    lookup list_eq nat_eq
batch_lem = refl

build_runtime_hidden_batch-IsAligned_example : IsAligned runtime path batch
build_runtime_hidden_batch-IsAligned_example =
    build_runtime_hidden_batch-IsAligned runtime path batch batch_lem

abbrev methods : Methods ℕ
methods = record {
  has_consume = λ consumer. true;
  has_tick = λ consumer. true;
  has_step_end = λ consumer. true;
  subscriptions = λ consumer. none;
}

abbrev sub_of : CapturePolicy → ConsumerSubscription
sub_of policy = record {
  consumer_id = codes "c";
  event_name = codes "layer.post";
  phase_filter = none;
  layer_filter = none;
  capture_policy = policy;
}

abbrev plan : DispatchPlan ℕ
plan = record {
  by_event =
      (
        codes "layer.post",
        record { consumer = 5; subscription = sub_of prefer }
            ∷ record { consumer = 6; subscription = sub_of required }
            ∷ [],
      )
      ∷ [];
  flow_targets = [];
}

-- The target's path is the source's, so its event is not dispatched again.
deferred :
    dispatch_deferred_layer_batches methods runtime (some plan)
    ≡ (consume 5 batch ∷ on_tick 5 (codes "layer.post") ∷ [], ok 1)
unfolding dispatch_deferred_layer_batches dispatch_layers dispatch_layer dispatch_runtime_event
    dispatch_targets dispatch_consumer_event step_end_calls select default_resolved_paths
    build_runtime_hidden_batch batch_of_tensors batch_of active_request_prompt_sample_metadata strip
    lstrip_space lookup list_eq nat_eq
deferred = refl
