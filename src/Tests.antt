-- ===== src/Tests.antt =====
-- Concrete inputs: values of the interfaces, tests of the definitions, and the instances of the
-- theorems that have hypotheses.
mod Tensors
mod Models
mod Paths
mod Requests
mod Decode
mod Prefill
mod Compaction
mod RowView
mod Dispatch
mod Capture
mod Snapshot
mod Flow
mod Precompute
mod HiddenBatch
mod DecodeHook
mod Consumers
mod StepBundle
mod Bindings
mod Assembler
