-- ===== src/Runtime/Compaction.antt =====
-- The compaction of tllm/runtime/ports/residual_bundle_dispatch.py: one row for each prompt.
pub mod Equivalence
pub mod First
pub mod Rows
use t_llm.Prelude.{
  ℕ, zero, suc, Bool, true, false, ◌||◌, List, [], ◌∷◌, if◌then◌else◌, ltb, is_empty, length,
  range_from, contains, ◌==◌, Result, ok, err, ◌>>=◌, ◌>>◌, raise_if, runtime_error,
  metadata_inconsistent,
}
use t_llm.Prelude.Int.{ℤ, is_negative, int_eq}
use t_llm.Prelude.Str.{Str, codes}
use t_llm.Common.Snapshot.{item}
use t_llm.Runtime.RowBatch.{
  RowBatchMeta, make_batch, DecodeRuntime, active_request_prompt_sample_metadata, items,
  decode_phase,
}

-- `_request_meta_view`
unfoldable pub request_meta_view : DecodeRuntime → ℕ → Result RowBatchMeta
request_meta_view runtime active = do
  metadata ← active_request_prompt_sample_metadata runtime active
  request_ids ← items metadata.0 (range_from 0 active)
  prompt_idxs ← items metadata.1 (range_from 0 active)
  sample_idxs ← items metadata.2 (range_from 0 active)
  make_batch (record {
    request_ids = request_ids;
    prompt_idxs = prompt_idxs;
    sample_idxs = sample_idxs;
    phase = decode_phase;
    engine_step_id = runtime.event_step_id;
    row_compaction = codes "none";
    row_ids = range_from 0 active;
  })

-- The loop of `_compact_first_per_prompt`: the numbers of the rows that are kept.
unfoldable pub kept_rows : ℕ → List ℤ → List ℤ → List ℕ
kept_rows row seen [] = []
kept_rows row seen (prompt ∷ prompts) = elim (is_negative prompt || contains seen prompt) [
  | true ↦ kept_rows (suc row) seen prompts
  | false ↦ row ∷ kept_rows (suc row) (prompt ∷ seen) prompts
]

abbrev pub first_per_prompt : Str
first_per_prompt = codes "first_per_prompt"

-- `_compact_first_per_prompt`
unfoldable pub compact_first_per_prompt : RowBatchMeta → Result (RowBatchMeta × List ℕ)
compact_first_per_prompt view =
    let rows = kept_rows 0 [] view.prompt_idxs in
    do
      request_ids ← items view.request_ids rows
      prompt_idxs ← items view.prompt_idxs rows
      sample_idxs ← items view.sample_idxs rows
      row_ids ← (if is_empty view.row_ids then ok rows else items view.row_ids rows)
      batch ← make_batch (record {
        request_ids = request_ids;
        prompt_idxs = prompt_idxs;
        sample_idxs = sample_idxs;
        phase = view.phase;
        engine_step_id = view.engine_step_id;
        row_compaction = first_per_prompt;
        row_ids = row_ids;
      })
      ok (batch, rows)

-- What the loop of `_compact_first_per_prompt_from_runtime` appends to.
pub record Kept : Type 0 where
  pub keep : List ℕ
  pub compact_request_ids : List Str
  pub compact_prompt_idxs : List ℤ
  pub compact_sample_idxs : List ℤ

-- Its loop, with `left` rows to come from `row` on.
unfoldable pub kept_from_runtime : DecodeRuntime → (left row : ℕ) → List ℤ → Result Kept
kept_from_runtime runtime zero row seen = ok (record {
  keep = [];
  compact_request_ids = [];
  compact_prompt_idxs = [];
  compact_sample_idxs = [];
})
kept_from_runtime runtime (suc left) row seen = item runtime.decode_prompt_idxs row >>= λ prompt.
    elim (is_negative prompt || contains seen prompt) [
      | true ↦ kept_from_runtime runtime left (suc row) seen
      | false ↦ do
        request_id ← item runtime.decode_request_ids row
        sample_idx ← item runtime.decode_sample_idxs row
        rest ← kept_from_runtime runtime left (suc row) (prompt ∷ seen)
        ok (record {
          keep = row ∷ rest.keep;
          compact_request_ids = request_id ∷ rest.compact_request_ids;
          compact_prompt_idxs = prompt ∷ rest.compact_prompt_idxs;
          compact_sample_idxs = sample_idx ∷ rest.compact_sample_idxs;
        })
    ]

-- `_compact_first_per_prompt_from_runtime`
unfoldable pub compact_first_per_prompt_from_runtime :
    DecodeRuntime → ℕ → Result (RowBatchMeta × List ℕ)
compact_first_per_prompt_from_runtime runtime active =
    if ltb (length runtime.decode_request_ids) active
      || ltb (length runtime.decode_prompt_idxs) active
      || ltb (length runtime.decode_sample_idxs) active
    then err (runtime_error metadata_inconsistent)
    else do
      kept ← kept_from_runtime runtime active 0 []
      batch ← make_batch (record {
        request_ids = kept.compact_request_ids;
        prompt_idxs = kept.compact_prompt_idxs;
        sample_idxs = kept.compact_sample_idxs;
        phase = decode_phase;
        engine_step_id = runtime.event_step_id;
        row_compaction = first_per_prompt;
        row_ids = kept.keep;
      })
      ok (batch, kept.keep)
