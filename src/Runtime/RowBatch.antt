-- ===== src/Runtime/RowBatch.antt =====
-- tllm/contracts/request_meta_view.py and tllm/runtime/decode_runtime_metadata.py: the metadata of
-- the rows of a step.
use t_llm.Prelude.{
  ℕ, not, ◌&&◌, ◌||◌, List, [], ◌∷◌, if◌then◌else◌, eqb, is_empty, length, take, Result, ok, err,
  ◌>>=◌, value_error, runtime_error, metadata_inconsistent,
}
use t_llm.Prelude.Int.{ℤ}
use t_llm.Prelude.Str.{Str, codes}
use t_llm.Common.Snapshot.{item}

pub record RowBatchMeta : Type 0 where
  pub request_ids : List Str
  pub prompt_idxs : List ℤ
  pub sample_idxs : List ℤ
  pub phase : Str
  pub engine_step_id : ℕ
  pub row_compaction : Str
  pub row_ids : List ℕ

-- `RowBatchMeta(...)` with its `__post_init__`
unfoldable pub make_batch : RowBatchMeta → Result RowBatchMeta
make_batch batch =
    let rows = length batch.request_ids in
    if not (eqb rows (length batch.prompt_idxs) && eqb rows (length batch.sample_idxs))
    then err value_error
    else if not (is_empty batch.row_ids) && not (eqb (length batch.row_ids) rows)
    then err value_error
    else ok batch

-- The decode rows of the runtime's current step.
pub record DecodeRuntime : Type 0 where
  pub decode_request_ids : List Str
  pub decode_prompt_idxs : List ℤ
  pub decode_sample_idxs : List ℤ
  -- It starts at 0, and `wrapped_prepare_inputs` adds 1; nothing else sets it.
  pub event_step_id : ℕ

unfoldable pub active_request_prompt_sample_metadata :
    DecodeRuntime → ℕ → Result (List Str × List ℤ × List ℤ)
active_request_prompt_sample_metadata runtime active =
    let request_ids = take active runtime.decode_request_ids in
    let prompt_idxs = take active runtime.decode_prompt_idxs in
    let sample_idxs = take active runtime.decode_sample_idxs in
    if not (eqb (length request_ids) active)
      || not (eqb (length prompt_idxs) active)
      || not (eqb (length sample_idxs) active)
    then err (runtime_error metadata_inconsistent)
    else ok (request_ids, prompt_idxs, sample_idxs)

-- `tuple(xs[row_i] for row_i in rows)`
unfoldable pub items {ℓ} : {A : Type ℓ} → List A → List ℕ → Result (List A)
items xs [] = ok []
items xs (row ∷ rows) = do x ← item xs row; rest ← items xs rows; ok (x ∷ rest)

abbrev pub decode_phase : Str
decode_phase = codes "decode"
