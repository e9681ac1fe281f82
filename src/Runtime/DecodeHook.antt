-- ===== src/Runtime/DecodeHook.antt =====
-- `prepare_decode_localization` of tllm/runtime/vllm_patch/port_runtime_hooks.py: what the runtime
-- knows of the decode rows of a step. The four scratch buffers have the same length, and moving a
-- tensor to a device changes no element of it.
pub mod Consistent
use t_llm.Prelude.{
  ℕ, zero, suc, list_eq, nat_eq, ◌+◌, ◌-◌, ◌≡◌, Bool, true, false, not, ◌&&◌, ◌||◌, Option, none,
  some, List, [], ◌∷◌, map, if◌then◌else◌, ltb, leb, eqb, is_empty, length, take, replicate, Result,
  ok, err, ◌>>=◌, runtime_error, scratch_missing, scratch_exceeded, compact_scratch_exceeded,
}
use t_llm.Prelude.Int.{ℤ, pos}
use t_llm.Prelude.Str.{Str, break_at}
use t_llm.Prelude.Dict.{Dict, lookup}
use t_llm.Prelude.Torch.{Indexing, Extremes, MaskValue, filled, gather?}
use t_llm.Common.State.{LogitsIndices, resolve_child}
use t_llm.Common.Snapshot.{InputBatch, present, decode_flags}
use t_llm.Producer.Decode.{DecodeLocalization, compute_decode_localization}
use t_llm.Producer.DecodeStep.{overwrite}
use t_llm.Runtime.RowBatch.{DecodeRuntime, items}
use t_llm.Runtime.RowView.{all_steps, last_of}
use t_llm.Runtime.Compaction.{kept_rows}

-- The scratch buffers, which have one item for each row that they can hold
pub record Scratch : Type 0 where
  pub decode_row_idx : List ℤ
  pub decode_valid_mask : List MaskValue
  pub decode_prompt_idx_buf : List ℤ
  pub decode_sample_idx_buf : List ℤ

pub record HookRuntime : Type 0 where
  pub scratch : Option Scratch
  pub decode : DecodeRuntime
  pub decode_count : ℕ
  pub decode_prompt_idx_tensor : Option (List ℤ)
  pub decode_sample_idx_tensor : Option (List ℤ)
  pub decode_compact_row_idx : Option (List ℤ)
  pub decode_compact_count : ℕ
  pub decode_compact_row_ids : List ℕ

-- What vLLM prepared for the step
pub record PreparedStep : Type 0 where
  pub logits_indices : Option LogitsIndices
  pub num_actual_tokens : ℕ
  pub input_batch : InputBatch

-- `_resolve_prompt_sample_for_req_id` of tllm/runtime/residual_runtime.py
unfoldable pub resolve_runtime_req_id : Dict Str ℤ → Dict Str ℤ → Str → ℤ × ℤ
unfolding resolve_child
resolve_runtime_req_id reqid_to_promptidx reqid_to_sampleidx req_id =
    elim (lookup req_id reqid_to_promptidx) [
      | some prompt_idx ↦ (
        prompt_idx,
        elim (lookup req_id reqid_to_sampleidx) [ none ↦ pos 0 | some sample_idx ↦ sample_idx ],
      )
      | none ↦ resolve_child reqid_to_promptidx (break_at b'_' req_id)
    ]

-- The resets of a step without decode rows
unfoldable pub clear_rows : HookRuntime → HookRuntime
clear_rows runtime = record runtime {
  decode = record runtime.decode {
    decode_request_ids = [];
    decode_prompt_idxs = [];
    decode_sample_idxs = [];
  };
  decode_count = 0;
  decode_prompt_idx_tensor = none;
  decode_sample_idx_tensor = none;
  decode_compact_count = 0;
  decode_compact_row_ids = [];
}

-- `as_strided` of a tensor of one dimension, on the list of its elements: `n` elements from
-- `start` on, each `step` behind the one before.
pub record Striding : Type 0 where
  pub as_strided : List ℤ → (start step n : ℕ) → List ℤ

unfoldable pub store_scratch : Bool → DecodeLocalization → Scratch → Scratch
unfolding overwrite
store_scratch false found scratch = record scratch {
  decode_row_idx = overwrite found.row_idx scratch.decode_row_idx;
}
store_scratch true found scratch = record {
  decode_row_idx = overwrite found.row_idx scratch.decode_row_idx;
  decode_valid_mask = overwrite (replicate (length found.row_idx) filled) scratch.decode_valid_mask;
  decode_prompt_idx_buf = overwrite found.prompt_idxs scratch.decode_prompt_idx_buf;
  decode_sample_idx_buf = overwrite found.sample_idxs scratch.decode_sample_idx_buf;
}

-- The rows that are stored: their buffers, and then the fields that describe them.
unfoldable pub store_rows :
    Bool → DecodeLocalization → List Str → Scratch → HookRuntime → HookRuntime
unfolding store_scratch
store_rows needs_device_metadata found request_ids scratch runtime =
    let k = length found.row_idx in
    let stored = store_scratch needs_device_metadata found scratch in
    record runtime {
      scratch = some stored;
      decode = record runtime.decode {
        decode_request_ids = request_ids;
        decode_prompt_idxs = found.prompt_idxs;
        decode_sample_idxs = found.sample_idxs;
      };
      decode_count = k;
      decode_prompt_idx_tensor =
          if needs_device_metadata then some (take k stored.decode_prompt_idx_buf) else none;
      decode_sample_idx_tensor =
          if needs_device_metadata then some (take k stored.decode_sample_idx_buf) else none;
    }

module _ (striding : Striding) (indexing : Indexing ℤ) where
  open striding use {as_strided}
  open indexing use {index_select}

  unfoldable pub regular_position_view : List ℤ → List ℕ → Option (List ℤ)
  unfolding all_steps last_of
  regular_position_view tensor [] = some []
  regular_position_view tensor (start ∷ []) =
      if leb (length tensor) start then none else some (as_strided tensor start 1 1)
  regular_position_view tensor (start ∷ next ∷ rest) =
      let positions = start ∷ next ∷ rest in
      let step = next - start in
      if leb next start
      then none
      else if leb (length tensor) (last_of next rest)
      then none
      else if not (all_steps step positions)
      then none
      else some (as_strided tensor start step (length positions))

  unfoldable pub compact_values : List ℤ → List ℕ → List ℤ
  unfolding regular_position_view
  compact_values row_idx positions = elim (regular_position_view row_idx positions) [
    | some view ↦ view
    | none ↦ index_select row_idx (map pos positions)
  ]

  -- The part for the compact rows, on the rows of the step
  unfoldable pub compact_rows :
      DecodeLocalization → Option (List ℤ) → HookRuntime → Result (Unit {0}) × HookRuntime
  unfolding compact_values
  compact_rows found none runtime = (ok tt, runtime)
  compact_rows found (some compact_row_idx) runtime =
      let positions = kept_rows 0 [] (take (length found.row_idx) found.prompt_idxs) in
      let compact_count = length positions in
      if ltb (length compact_row_idx) compact_count
      then (err (runtime_error compact_scratch_exceeded), runtime)
      else (
        ok tt,
        record runtime {
          decode_compact_row_idx = some (
              if ltb 0 compact_count
              then overwrite (compact_values found.row_idx positions) compact_row_idx
              else compact_row_idx);
          decode_compact_count = compact_count;
          decode_compact_row_ids = positions;
        },
      )

  -- What follows a localization. Its positions are those of requests, so the request ids are there.
  unfoldable pub store_found :
      Bool → List Str → DecodeLocalization → Scratch → HookRuntime → Result (Unit {0}) × HookRuntime
  unfolding clear_rows store_rows compact_rows
  store_found needs_device_metadata req_ids found scratch runtime =
      if is_empty found.row_idx
      then (ok tt, clear_rows runtime)
      else if ltb (length scratch.decode_row_idx) (length found.row_idx)
      then (err (runtime_error scratch_exceeded), runtime)
      else elim (items req_ids (take (length found.row_idx) found.decode_positions)) [
        | err raised ↦ (err raised, runtime)
        | ok request_ids ↦
            compact_rows found runtime.decode_compact_row_idx
              (store_rows needs_device_metadata found request_ids scratch runtime)
      ]

  module _ (extremes : Extremes) (resolve_prompt_sample_fn : Str → ℤ × ℤ) where
    unfoldable pub localize_step :
        PreparedStep → LogitsIndices → Result (List Str × DecodeLocalization)
    unfolding decode_flags
    localize_step step logits_indices =
        let req_ids = present (take step.input_batch.num_reqs step.input_batch.req_ids) in
        do
          flags ← decode_flags step.input_batch req_ids
          found ←
              compute_decode_localization indexing extremes resolve_prompt_sample_fn req_ids flags
                (some logits_indices) step.num_actual_tokens 0
          ok (req_ids, found)

    unfoldable pub prepare_with_scratch :
        Bool
        → PreparedStep
        → LogitsIndices
        → Option Scratch
        → HookRuntime
        → Result (Unit {0}) × HookRuntime
    unfolding localize_step store_found
    prepare_with_scratch needs_device_metadata step logits_indices none runtime =
        (err (runtime_error scratch_missing), runtime)
    prepare_with_scratch needs_device_metadata step logits_indices (some scratch) runtime =
        if eqb step.num_actual_tokens 0
        then (ok tt, clear_rows runtime)
        else elim (localize_step step logits_indices) [
          | err raised ↦ (err raised, runtime)
          | ok found ↦ store_found needs_device_metadata found.0 found.1 scratch runtime
        ]

    unfoldable pub prepare_decode_rows :
        Bool → PreparedStep → HookRuntime → Result (Unit {0}) × HookRuntime
    unfolding prepare_with_scratch
    prepare_decode_rows needs_device_metadata step runtime = elim step.logits_indices [
      | none ↦ (ok tt, runtime)
      | some logits_indices ↦
          prepare_with_scratch needs_device_metadata step logits_indices runtime.scratch runtime
    ]
