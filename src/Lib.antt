-- ===== src/Lib.antt =====
-- tLLM captures hidden states of a running vLLM engine and hands them to consumers. This library
-- models its core in Python, under `tllm/`.
--
-- A step runs through these parts. vLLM's `_prepare_inputs` fixes the order of the packed rows, and
-- `snapshot_step_common` copies what the step needs (Common/Snapshot). The decode producer finds
-- the row of each decoding request and loads row numbers and marks into fixed buffers of the
-- capture layer (Producer/Decode, Producer/DecodeStep); the layer's forward pass gathers these rows.
-- The prefill producer plans the rows of prompt tokens and selects them from the layer's output
-- (Producer/Prefill). Both export their rows by prompt. The capture layer is found by a path or an
-- index (Common/PathResolution, Common/CaptureLayer), and request ids are resolved to the indices of
-- a prompt and a sample (Common/State). The runtime hands the rows of a step to consumers in bundles;
-- a flow may ask for the first row of each prompt only (Runtime).
--
-- Files and code:
--   Prelude            numbers, tests, lists, results; Python's `str` and `dict`; PyTorch's indexing
--   Common/Objects     `getattr`, `getitem`, `isinstance` and `len` on a model, an interface
--   Common/PathResolution    tllm/common/path_resolution.py
--   Common/State, Common/CaptureLayer    tllm/common/state.py
--   Common/Snapshot    tllm/common/runtime_step_state.py
--   Producer/Decode, Producer/DecodeStep    tllm/producer/decode.py
--   Producer/Prefill   tllm/producer/prefill.py
--   Runtime/RowBatch   tllm/contracts/request_meta_view.py, tllm/runtime/decode_runtime_metadata.py
--   Runtime/Compaction, Runtime/RowView    tllm/runtime/ports/residual_bundle_dispatch.py
--   Runtime/BundleEntries, Runtime/StepBundle, Runtime/BundleDispatch
--                      tllm/runtime/ports/residual_bundle_dispatch.py, tllm/contracts/gpu_stage.py
--   Runtime/Ports      tllm/ports/base.py, tllm/contracts/subscription.py
--   Runtime/Ports/Declarations    the other modules of tllm/ports
--   Runtime/Flow       tllm/ports/base.py, the validation of a flow
--   Runtime/ResidualBindings    tllm/runtime/ports/residual_bindings.py
--   Runtime/Assembler  tllm/runtime/ports/assembler.py, frame.py, tllm/contracts/port_bundle.py
--   Runtime/DispatchPlan    tllm/runtime/dispatch_plan.py
--   Runtime/DecodeHook, Runtime/TapPaths    tllm/runtime/vllm_patch/port_runtime_hooks.py
--   Runtime/Events     tllm/runtime/vllm_patch/common_hooks.py, tllm/runtime/consumer_compat.py
--   Runtime/HiddenBatch    tllm/runtime/hidden_event_bridge.py, tllm/contracts/hidden_batch.py
--   Runtime/Precompute    tllm/runtime/residual_runtime.py, tllm/runtime/vllm_patch/sampler_patch.py
--   Runtime/Consumers  tllm/runtime/consumer_registry.py, tllm/runtime/active_targets.py, and the
--                      registration functions of tllm/runtime/residual_runtime.py
--   Runtime/Providers  tllm/runtime/ports/provider_registry.py
--   Tests              concrete inputs for every theorem with hypotheses, and tests
-- A file in a folder proves theorems on the definitions of the file that the folder is named after.
--
-- How the code is read:
--   * The global `STATE` is a record that is passed and returned. An exception is a value; what was
--     assigned before it was raised stays in the state returned beside it. Messages are left out:
--     each place that raises has its own `Reason`.
--   * A text is the list of its code points, which are taken to be ASCII; texts given to `int` have
--     fewer digits than Python's limit of 4300.
--   * Counts of tokens and rows are natural numbers; indices that may be -1 are integers.
--   * A tensor is the list of its rows. `narrow`, `index_select`, `min`, `max` and the product with a
--     mask are arguments of the code that uses them, with the documented behaviour that it relies on
--     as named laws (Prelude/Torch). Devices and dtypes are left out, but for the test for CUDA.
--   * The strided views of Runtime/RowView are views of tensors of two dimensions, with PyTorch's
--     layout of elements in a storage as laws; `ndim` is not tested.
--   * A call of a consumer is an item of a log, which stands beside the result of a dispatch. What
--     `torch.stack` returns or raises is an argument. Modes that the enumerations of a flow exclude
--     are left out.
--   * The id of a step is a natural number: it starts at 0 and is only counted up. The code of the
--     sampler, which tests for negative ids, has an integer.
--   * The decode buffers belong to one capture layer and stand in the state.
--   * A loop over a list is a recursion on it. `candidate_capture_paths` runs on fuel, as many rounds
--     as the path has characters; each round drops six. `resolve_layers_container` has the eight
--     rounds of the source. `decimal` has one more round than its number.
--
-- Not modelled: the token maps (tllm/runtime/token_map.py), what replaces the methods of vLLM, the
-- buffers, CUDA streams and graphs of the residual runtime, the sampler bridge and ESamp, which are
-- mostly numerical kernels, the dummy consumer, and the command-line workflows.
pub mod Prelude
pub mod Common
pub mod Producer
pub mod Runtime
mod Tests
