-- ===== src/Producer.antt =====
-- tllm/producer: which rows of a step's packed hidden states belong to which request.
pub mod Decode
pub mod DecodeStep
pub mod Prefill
