-- ===== src/Common.antt =====
-- tllm/common: the helpers and the state that the producers share.
pub mod Objects
pub mod PathResolution
pub mod State
pub mod CaptureLayer
pub mod Snapshot
