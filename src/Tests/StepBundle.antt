-- ===== src/Tests/StepBundle.antt =====
-- A step with three decode rows of two prompts, and flows that read the rows of one layer.
use t_llm.Prelude.{
  ℕ, ◌+◌, ◌≡◌, refl, true, some, List, [], ◌∷◌, All, list_eq, nat_eq, option_eq, Result, ok,
}
use t_llm.Prelude.Int.{ℤ, pos, negsuc, int_eq}
use t_llm.Prelude.Str.{Str, codes, strip, lstrip_space}
use t_llm.Prelude.Dict.{lookup, insert, erase}
use t_llm.Runtime.Ports.{
  residual_stream, request_meta, residual_locator, request_meta_locator, entry_name, RowSelection,
  all, first_per_prompt, background, same_step, bundle, device_lease, borrowed, runtime_lease,
  FlowDelivery, BufferOwnership, FlowWindow, ConsumerFlow, step_scope_key, port_kind_eq, locator_eq,
  residual_locator_eq,
}
use t_llm.Runtime.RowBatch.{make_batch, active_request_prompt_sample_metadata, decode_phase}
use t_llm.Runtime.Compaction.{compact_first_per_prompt_from_runtime, kept_from_runtime}
use t_llm.Runtime.RowView.{selected_rows, regular_row_view, all_steps, last_of}
use t_llm.Runtime.ResidualBindings.{default_source_locator, resolved_path_for_locator}
use t_llm.Runtime.DispatchPlan.{DispatchPlan}
use t_llm.Runtime.Assembler.{
  one, PortBundle, group_key_eq, build_bindings, match_binding, project_group_key, merge_entry,
  set_default, normalize_key, finalize_entry, finalize_entries, build_bundle, emit, push_bound,
  push, finalize_groups, finalize_pending,
}
use t_llm.Runtime.BundleEntries.{
  Payload, hidden, row_batch, lease, PortDispatchRuntime, tensor_for_read, frames_from,
  build_decode_port_frames, compact_residual_hidden_for_read, rows_for_read, residual_entry,
  entry_of_kind, entry_for_flow_read,
}
use t_llm.Runtime.StepBundle.{
  rows_of_step, make_lease, lease_entry, lease_entries, deliver, bundle_of_rows, build_selected,
  build_step_scope_port_bundle,
}
use t_llm.Runtime.StepBundle.Complete.{IsComplete, build_step_scope_port_bundle-IsComplete}
use t_llm.Runtime.BundleDispatch.{
  flow_due_for_step, step_frames, dispatch_direct, push_frames, finish_target, dispatch_frames,
  dispatch_rest, dispatch_decode_port_bundles,
}
use t_llm.Runtime.BundleDispatch.Counts.{consumed, dispatch_decode_port_bundles-count}
use t_llm.Runtime.BundleDispatch.Calls.{IsDue, dispatch_decode_port_bundles-IsDue}
use t_llm.Tests.RowView.{Stored, stored_tensors}

abbrev layer : Stored
layer = record {
  rows = 4;
  columns = 2;
  row_stride = 2;
  column_stride = 1;
  offset = 0;
  storage = λ n. n + 10;
}

abbrev path : Str
path = codes "model.layers[0]"

abbrev runtime : PortDispatchRuntime Stored
runtime = record {
  decode = record {
    decode_request_ids = codes "a" ∷ codes "b" ∷ codes "c" ∷ [];
    decode_prompt_idxs = pos 0 ∷ pos 0 ∷ pos 1 ∷ [];
    decode_sample_idxs = pos 0 ∷ pos 1 ∷ pos 0 ∷ [];
    event_step_id = 6;
  };
  decode_count = 3;
  decode_compact_count = negsuc 0;
  decode_compact_row_ids = [];
  tap_decode_hidden = (path, layer) ∷ [];
  tap_decode_hidden_compact = [];
  residual_bindings =
      (
        path,
        record {
          locator = default_source_locator;
          resolved_path = path;
          include_request_meta = true;
        },
      )
      ∷ [];
}

abbrev flow_of :
    List Str → FlowDelivery → BufferOwnership → RowSelection → ℤ → FlowWindow → ConsumerFlow
flow_of bundle_key delivery ownership row_compaction cap window = record {
  reads =
      record {
        kind = residual_stream;
        locator = some (residual_locator default_source_locator);
        role = codes "source";
      }
      ∷ record { kind = request_meta; locator = some request_meta_locator; role = [] }
      ∷ [];
  window = window;
  bundle_key = bundle_key;
  dispatch_every_n_steps = pos 3;
  max_bundle_rows = cap;
  delivery = delivery;
  ownership = ownership;
  row_compaction = row_compaction;
}

abbrev leased_flow : ConsumerFlow
leased_flow = flow_of step_scope_key device_lease runtime_lease first_per_prompt (pos 2) same_step

abbrev row_flow : ConsumerFlow
row_flow = flow_of [] bundle borrowed all (pos 0) background

abbrev leased : PortBundle (Payload Stored)
leased = record {
  key = record {
    engine_step_id = 6;
    phase = decode_phase;
    request_id = codes "a";
    sample_idx = pos 0;
  };
  entries =
      (
        codes "request_meta",
        one (
            row_batch (record {
              request_ids = codes "a" ∷ codes "c" ∷ [];
              prompt_idxs = pos 0 ∷ pos 1 ∷ [];
              sample_idxs = pos 0 ∷ pos 0 ∷ [];
              phase = decode_phase;
              engine_step_id = 6;
              row_compaction = codes "first_per_prompt";
              row_ids = 0 ∷ 2 ∷ [];
            })),
      )
      ∷ (
        codes "device_lease",
        one (
            lease (record {
              entries =
                  (
                    codes "source",
                    record {
                      rows = 2;
                      columns = 2;
                      row_stride = 4;
                      column_stride = 1;
                      offset = 0;
                      storage = λ n. n + 10;
                    },
                  )
                  ∷ [];
              active_rows = 2;
            })),
      )
      ∷ [];
}

leased_lem : build_step_scope_port_bundle stored_tensors runtime leased_flow ≡ ok (some leased)
unfolding build_step_scope_port_bundle rows_of_step build_selected bundle_of_rows deliver
    lease_entries lease_entry make_lease entry_for_flow_read entry_of_kind entry_name strip
    lstrip_space residual_entry compact_residual_hidden_for_read rows_for_read tensor_for_read
    resolved_path_for_locator selected_rows regular_row_view all_steps last_of
    compact_first_per_prompt_from_runtime kept_from_runtime make_batch lookup insert list_eq nat_eq
    int_eq residual_locator_eq
leased_lem = refl

build_step_scope_port_bundle-IsComplete_example :
    (leased_flow.bundle_key ≡ step_scope_key) × IsComplete stored_tensors runtime leased_flow leased
build_step_scope_port_bundle-IsComplete_example =
    build_step_scope_port_bundle-IsComplete stored_tensors runtime leased_flow leased leased_lem

-- The consumer 0 has a leased flow and a flow of rows, the consumer 1 a flow that is not due.
abbrev plan : DispatchPlan ℕ
plan = record {
  by_event = [];
  flow_targets =
      record { consumer = 0; flow = leased_flow }
      ∷ record { consumer = 0; flow = row_flow }
      ∷ record { consumer = 1; flow = record leased_flow { dispatch_every_n_steps = pos 4 } }
      ∷ [];
}

abbrev stack : List (Payload Stored) → Result (Payload Stored)
stack payloads = ok (hidden layer)

dispatched_lem : (dispatch_decode_port_bundles stored_tensors stack runtime (some plan)).1 ≡ ok 4
unfolding dispatch_decode_port_bundles dispatch_direct dispatch_rest step_frames dispatch_frames
    push_frames finish_target flow_due_for_step build_decode_port_frames frames_from
    active_request_prompt_sample_metadata push push_bound emit merge_entry set_default match_binding
    build_bindings project_group_key build_bundle finalize_entries finalize_entry normalize_key
    finalize_pending finalize_groups build_step_scope_port_bundle rows_of_step build_selected
    bundle_of_rows deliver lease_entries lease_entry make_lease entry_for_flow_read entry_of_kind
    entry_name strip lstrip_space residual_entry compact_residual_hidden_for_read rows_for_read
    tensor_for_read resolved_path_for_locator selected_rows regular_row_view all_steps last_of
    compact_first_per_prompt_from_runtime kept_from_runtime make_batch lookup insert erase list_eq
    nat_eq int_eq option_eq residual_locator_eq locator_eq port_kind_eq group_key_eq
dispatched_lem = refl

dispatch_decode_port_bundles-count_example :
    4 ≡ consumed (dispatch_decode_port_bundles stored_tensors stack runtime (some plan)).0
dispatch_decode_port_bundles-count_example =
    dispatch_decode_port_bundles-count stored_tensors stack runtime (some plan) 4 dispatched_lem

dispatch_decode_port_bundles-IsDue_example :
    All
      (IsDue plan.flow_targets runtime.decode.event_step_id)
      (dispatch_decode_port_bundles stored_tensors stack runtime (some plan)).0
dispatch_decode_port_bundles-IsDue_example =
    dispatch_decode_port_bundles-IsDue stored_tensors stack runtime plan
