-- ===== src/Producer/Decode.antt =====
-- tllm/producer/decode.py: the decode rows of a step, and their export.
pub mod Localization
pub mod Chosen
pub mod Rows
pub mod Positions
use t_llm.Prelude.{
  ℕ, zero, suc, ◌+◌, ◌≡◌, refl, Bool, true, false, not, ◌&&◌, ◌||◌, Option, none, some, List, [],
  ◌∷◌, ◌++◌, map, arith, if◌then◌else◌, ltb, leb, eqb, is_empty, length, take, drop, replicate,
  range_from, ◌==◌, list_eq, nat_eq, Result, ok, err, ◌>>=◌, ◌>>◌, raise_if, runtime_error,
  attribute_error, logits_out_of_range, rows_exceed_scratch, prompt_mismatch, sample_mismatch,
  buffer_mismatch,
}
use t_llm.Prelude.Int.{ℤ, pos, is_negative, pos_part, int_eq}
use t_llm.Prelude.Dict.{Dict, lookup, insert}
use t_llm.Prelude.Str.{Str}
use t_llm.Prelude.Torch.{Indexing, Extremes, Masking, MaskValue, zeroed, filled}
use t_llm.Common.Objects.{PythonObjects}
use t_llm.Common.State.{
  LogitsIndices, StepState, DecodeBuffers, RuntimeState, resolve_prompt_sample_for_req_id,
}
use t_llm.Common.CaptureLayer.{find_capture_layer}
use t_llm.Common.Snapshot.{item}

-- The positions of the decode requests that have a logits row and a request id, from position `i` on.
unfoldable pub decode_positions_from : (i numel reqs : ℕ) → List Bool → List ℕ
decode_positions_from i numel reqs [] = []
decode_positions_from i numel reqs (is_decode ∷ flags) =
    let rest = decode_positions_from (suc i) numel reqs flags in
    if is_decode && (ltb i numel && ltb i reqs) then i ∷ rest else rest

abbrev pub cap_rows : ℕ → List ℕ → List ℕ
cap_rows max_decode_rows positions =
    if ltb 0 max_decode_rows then take max_decode_rows positions else positions

pub record DecodeLocalization : Type 0 where
  pub row_idx : List ℤ
  pub prompt_idxs : List ℤ
  pub sample_idxs : List ℤ
  pub decode_positions : List ℕ

abbrev pub no_rows : DecodeLocalization
no_rows = record { row_idx = []; prompt_idxs = []; sample_idxs = []; decode_positions = [] }

-- `decode_positions == list(range(first, first + len(decode_positions)))`
unfoldable pub is_contiguous : List ℕ → Bool
is_contiguous [] = true
is_contiguous (first ∷ rest) = first ∷ rest == range_from first (length (first ∷ rest))

-- `decode_positions[0]`, of a list that is not empty
abbrev first_of : List ℕ → ℕ
first_of [] = 0
first_of (first ∷ rest) = first

module _ (indexing : Indexing ℤ) (extremes : Extremes) where
  open indexing use {narrow, index_select}
  open extremes use {min_of, max_of}

  unfoldable pub select_rows : List ℤ → List ℕ → List ℤ
  unfolding is_contiguous
  select_rows logits positions =
      if is_contiguous positions
      then narrow logits (first_of positions) (length positions)
      else index_select logits (map pos positions)

  -- The diagnostic on the CPU: `min_idx < 0 or max_idx >= num_actual_tokens`
  unfoldable pub out_of_range : ℕ → List ℤ → Bool
  out_of_range num_actual_tokens row_idx =
      is_negative (min_of row_idx)
      || (not (is_negative (max_of row_idx)) && leb num_actual_tokens (pos_part (max_of row_idx)))

  module _ (resolve_prompt_sample_fn : Str → ℤ × ℤ) where
    -- The loop over `decode_positions`
    unfoldable pub resolve_positions : List Str → List ℕ → Result (List (ℤ × ℤ))
    resolve_positions req_ids [] = ok []
    resolve_positions req_ids (req_pos ∷ rest) = do
      req_id ← item req_ids req_pos
      pairs ← resolve_positions req_ids rest
      ok (resolve_prompt_sample_fn req_id ∷ pairs)

    unfoldable pub localize : List Str → LogitsIndices → ℕ → List ℕ → Result DecodeLocalization
    unfolding select_rows out_of_range resolve_positions
    localize req_ids logits num_actual_tokens positions =
        let row_idx = select_rows logits.values positions in
        do
          raise_if (not logits.on_cuda && out_of_range num_actual_tokens row_idx)
              (runtime_error logits_out_of_range)
          pairs ← resolve_positions req_ids positions
          ok (record {
            row_idx = row_idx;
            prompt_idxs = map (λ p. p.0) pairs;
            sample_idxs = map (λ p. p.1) pairs;
            decode_positions = positions;
          })

    unfoldable pub compute_decode_localization :
        List Str → List Bool → Option LogitsIndices → ℕ → ℕ → Result DecodeLocalization
    unfolding decode_positions_from localize
    compute_decode_localization req_ids is_decode_req none num_actual_tokens max_decode_rows =
        ok no_rows
    compute_decode_localization req_ids is_decode_req (some logits) num_actual_tokens
          max_decode_rows =
        let positions =
          cap_rows max_decode_rows
            (decode_positions_from 0 (length logits.values) (length req_ids) is_decode_req) in
        if eqb num_actual_tokens 0 || is_empty logits.values || is_empty positions
        then ok no_rows
        else localize req_ids logits num_actual_tokens positions
