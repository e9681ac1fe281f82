-- ===== src/Runtime/HiddenBatch/Rows.antt =====
-- A batch has its metadata for each of its rows.
use t_llm.Prelude.{
  ℕ, min, ◌≤◌, ◌≡◌, refl, subst, Option, none, some, List, length, take, length-take, eqb, inl, inr,
  Bool-cases, list_eq, nat_eq, ok, >>=-eq-ok, ok-injective, arith,
}
use t_llm.Prelude.Int.{ℤ}
use t_llm.Prelude.Str.{Str}
use t_llm.Prelude.Dict.{lookup}
use t_llm.Prelude.Torch.{MaskValue}
use t_llm.Runtime.RowBatch.{DecodeRuntime, active_request_prompt_sample_metadata}
use t_llm.Runtime.HiddenBatch.{
  HiddenBatch, ResidualRuntime, indices_of_tensor, batch_of, batch_of_tensors,
  build_runtime_hidden_batch,
}

metadata-length :
    (runtime : DecodeRuntime) (active : ℕ) (found : List Str × List ℤ × List ℤ)
    → active_request_prompt_sample_metadata runtime active ≡ ok found
    → (length found.1 ≡ active) × (length found.2 ≡ active)
unfolding active_request_prompt_sample_metadata
metadata-length runtime active found h = (ground arith, ground arith)

indices_of_tensor-length :
    (tensor : Option (List ℤ)) (active : ℕ) (indices : List ℤ)
    → length indices ≡ active
    → length (indices_of_tensor tensor active indices) ≡ active
indices_of_tensor-length none active indices h = h
indices_of_tensor-length (some tensor) active indices h = ground (arith, length-take active tensor)

module _ {Row : Type 0} where
  -- The batch has as many row numbers, prompt indices and sample indices as it counts rows, no more
  -- than decode in the step, and its hidden rows are the first of the layer's.
  pub record IsAligned (runtime : ResidualRuntime Row) (layer_path : Str) (batch : HiddenBatch Row)
      : Type 0 where
    pub rows : ℕ
    pub counted : rows ≤ runtime.decode_count
    pub numbers : length batch.row_idx ≡ rows
    pub prompts : length batch.prompt_idx ≡ rows
    pub samples : length batch.sample_idx ≡ rows
    pub listed : length batch.prompt_idxs ≡ rows
    pub hidden : batch.rows_hidden ≡ take rows batch.full_rows_hidden
    pub named : batch.layer_path ≡ layer_path
    pub captured : lookup layer_path runtime.tap_decode_hidden ≡ some batch.full_rows_hidden

  batch_of-IsAligned :
      (runtime : ResidualRuntime Row) (layer_path : Str) (decode_buf : List Row) (row_idx : List ℤ)
      (valid_mask : List MaskValue) (active : ℕ) (batch : HiddenBatch Row)
      → active ≤ runtime.decode_count
      → active ≤ length row_idx
      → lookup layer_path runtime.tap_decode_hidden ≡ some decode_buf
      → batch_of runtime layer_path decode_buf row_idx valid_mask active ≡ ok batch
      → IsAligned runtime layer_path batch
  unfolding batch_of
  batch_of-IsAligned runtime layer_path decode_buf row_idx valid_mask active batch counted fits
        captured h =
      let found =
        >>=-eq-ok (active_request_prompt_sample_metadata runtime.decode active) _ {last = batch}
          h in
      let metadata : List Str × List ℤ × List ℤ = found.0 in
      let lengths = metadata-length runtime.decode active metadata found.1 in
      subst (IsAligned runtime layer_path) (ok-injective _ batch found.2) (record {
        rows = active;
        counted = counted;
        numbers = omega (arith, length-take active row_idx);
        prompts =
            indices_of_tensor-length runtime.decode_prompt_idx_tensor active metadata.1 lengths.0;
        samples =
            indices_of_tensor-length runtime.decode_sample_idx_tensor active metadata.2 lengths.1;
        listed = lengths.0;
        hidden = refl;
        named = refl;
        captured = captured;
      })

  batch_of_tensors-IsAligned :
      (runtime : ResidualRuntime Row) (layer_path : Str) (decode_buf : Option (List Row))
      (row_idx : Option (List ℤ)) (valid_mask : Option (List MaskValue)) (batch : HiddenBatch Row)
      → lookup layer_path runtime.tap_decode_hidden ≡ decode_buf
      → batch_of_tensors runtime layer_path decode_buf row_idx valid_mask ≡ ok (some batch)
      → IsAligned runtime layer_path batch
  unfolding batch_of_tensors
  batch_of_tensors-IsAligned runtime layer_path none row_idx valid_mask batch captured h =
      absurd (cc)
  batch_of_tensors-IsAligned runtime layer_path (some decode_buf) none valid_mask batch captured h =
      absurd (cc)
  batch_of_tensors-IsAligned runtime layer_path (some decode_buf) (some row_idx) none batch captured
        h =
      absurd (cc)
  batch_of_tensors-IsAligned runtime layer_path (some decode_buf) (some row_idx) (some valid_mask)
        batch captured h =
      elim (Bool-cases (eqb runtime.decode_count 0)) [
        | inl idle ↦ absurd (ground (arith, idle, h))
        | inr busy ↦
            let active = min runtime.decode_count (length row_idx) in
            let made =
              >>=-eq-ok (batch_of runtime layer_path decode_buf row_idx valid_mask active)
                (λ built. ok (some built)) {last = some batch} (ground (arith, busy, h)) in
            batch_of-IsAligned runtime layer_path decode_buf row_idx valid_mask active batch
              (omega arith) (omega arith) captured (ground (arith, made.1, made.2))
      ]

  -- A batch that is built for a layer has the path of this layer, as many row numbers, prompt
  -- indices and sample indices as it counts rows, no more than decode in the step, and its hidden
  -- rows are the first of the rows captured at this layer.
  pub build_runtime_hidden_batch-IsAligned :
      (runtime : ResidualRuntime Row) (layer_path : Str) (batch : HiddenBatch Row)
      → build_runtime_hidden_batch runtime layer_path ≡ ok (some batch)
      → IsAligned runtime layer_path batch
  unfolding build_runtime_hidden_batch
  build_runtime_hidden_batch-IsAligned runtime layer_path batch h =
      batch_of_tensors-IsAligned runtime layer_path (lookup layer_path runtime.tap_decode_hidden)
        runtime.decode_row_idx runtime.decode_valid_mask batch refl h
