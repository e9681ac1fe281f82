-- ===== src/Runtime.antt =====
-- tllm/runtime: what happens to the captured rows of a step.
pub mod Assembler
pub mod ResidualBindings
pub mod BundleEntries
pub mod StepBundle
pub mod BundleDispatch
pub mod Consumers
pub mod Providers
pub mod DecodeHook
pub mod TapPaths
pub mod Events
pub mod HiddenBatch
pub mod Precompute
pub mod RowBatch
pub mod Compaction
pub mod RowView
pub mod Ports
pub mod DispatchPlan
pub mod Flow
