-- ===== src/Tests/Compaction.antt =====
-- Four decode rows of two prompts, one row with no prompt.
use t_llm.Prelude.{◌≡◌, refl, [], ◌∷◌, nat_eq, list_eq, ok, ◌>>=◌}
use t_llm.Prelude.Int.{pos, negsuc, int_eq}
use t_llm.Prelude.Str.{codes}
use t_llm.Runtime.RowBatch.{RowBatchMeta, make_batch, DecodeRuntime, items, decode_phase}
use t_llm.Runtime.Compaction.{
  request_meta_view, kept_rows, first_per_prompt, compact_first_per_prompt,
  compact_first_per_prompt_from_runtime,
}
use t_llm.Runtime.Compaction.Equivalence.{compact_first_per_prompt_from_runtime-eq}
use t_llm.Runtime.Compaction.First.{IsCompacted, compact_first_per_prompt-IsCompacted}

abbrev runtime : DecodeRuntime
runtime = record {
  decode_request_ids = codes "a" ∷ codes "x" ∷ codes "1_a" ∷ codes "b" ∷ [];
  decode_prompt_idxs = pos 5 ∷ negsuc 0 ∷ pos 5 ∷ pos 2 ∷ [];
  decode_sample_idxs = pos 0 ∷ negsuc 0 ∷ pos 1 ∷ pos 0 ∷ [];
  event_step_id = 9;
}

compact_first_per_prompt_from_runtime-eq_example :
    compact_first_per_prompt_from_runtime runtime 4
    ≡ (request_meta_view runtime 4 >>= compact_first_per_prompt)
compact_first_per_prompt_from_runtime-eq_example =
    compact_first_per_prompt_from_runtime-eq runtime 4

abbrev view : RowBatchMeta
view = record {
  request_ids = codes "a" ∷ codes "x" ∷ codes "1_a" ∷ codes "b" ∷ [];
  prompt_idxs = pos 5 ∷ negsuc 0 ∷ pos 5 ∷ pos 2 ∷ [];
  sample_idxs = pos 0 ∷ negsuc 0 ∷ pos 1 ∷ pos 0 ∷ [];
  phase = decode_phase;
  engine_step_id = 9;
  row_compaction = codes "none";
  row_ids = 0 ∷ 1 ∷ 2 ∷ 3 ∷ [];
}

abbrev batch : RowBatchMeta
batch = record {
  request_ids = codes "a" ∷ codes "b" ∷ [];
  prompt_idxs = pos 5 ∷ pos 2 ∷ [];
  sample_idxs = pos 0 ∷ pos 0 ∷ [];
  phase = decode_phase;
  engine_step_id = 9;
  row_compaction = first_per_prompt;
  row_ids = 0 ∷ 3 ∷ [];
}

compacted : compact_first_per_prompt view ≡ ok (batch, 0 ∷ 3 ∷ [])
unfolding compact_first_per_prompt kept_rows items make_batch int_eq nat_eq
compacted = refl

compact_first_per_prompt-IsCompacted_example : IsCompacted view batch (0 ∷ 3 ∷ [])
compact_first_per_prompt-IsCompacted_example =
    compact_first_per_prompt-IsCompacted view batch (0 ∷ 3 ∷ []) compacted
