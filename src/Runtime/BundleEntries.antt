-- ===== src/Runtime/BundleEntries.antt =====
-- tllm/runtime/ports/residual_bundle_dispatch.py: the entries of a bundle of a whole step, and the
-- frames of single rows. `getattr` defaults for older runtimes are left out.
use t_llm.Prelude.{
  ℕ, suc, true, false, not, ◌||◌, Option, none, some, List, [], ◌∷◌, if◌then◌else◌, ltb, eqb, ◌==◌,
  list_eq, nat_eq, Result, ok, err, index_error, ◌>>=◌,
}
use t_llm.Prelude.Int.{ℤ, pos, int_eq}
use t_llm.Prelude.Str.{Str}
use t_llm.Prelude.Dict.{Dict, lookup}
use t_llm.Runtime.Ports.{
  PortKind, residual_stream, request_meta, ResidualLocator, Locator, residual_locator,
  request_meta_locator, PortRead, entry_name,
}
use t_llm.Runtime.RowBatch.{
  RowBatchMeta, DecodeRuntime, active_request_prompt_sample_metadata, decode_phase,
}
use t_llm.Runtime.RowView.{Strided, selected_rows}
use t_llm.Runtime.ResidualBindings.{ResidualPathBinding, resolved_path_for_locator}
use t_llm.Runtime.Assembler.{BundleKey, PortFrame}

-- A request's row as older consumers read it
pub record LegacyRow : Type 0 where
  pub request_id : Str
  pub prompt_idx : ℤ
  pub sample_idx : ℤ
  pub phase : Str
  pub engine_step_id : ℕ

-- The fields of `DeviceTensorLease`; its lifetime is always `consume_call`.
pub record DeviceTensorLease (Tensor : Type 0) : Type 0 where
  pub entries : Dict Str Tensor
  pub active_rows : ℕ

pub data Payload (Tensor : Type 0) : Type 0 where
  hidden : Tensor → Payload Tensor
  hidden_row : Tensor → ℕ → Payload Tensor
  legacy_rows : List LegacyRow → Payload Tensor
  legacy_row : LegacyRow → Payload Tensor
  row_batch : RowBatchMeta → Payload Tensor
  lease : DeviceTensorLease Tensor → Payload Tensor

pub record PortDispatchRuntime (Tensor : Type 0) : Type 0 where
  pub decode : DecodeRuntime
  pub decode_count : ℕ
  pub decode_compact_count : ℤ
  pub decode_compact_row_ids : List ℕ
  pub tap_decode_hidden : Dict Str Tensor
  pub tap_decode_hidden_compact : Dict Str Tensor
  pub residual_bindings : Dict Str ResidualPathBinding

-- `isinstance(locator, ResidualLocator)`
abbrev pub residual_of : Option Locator → Option ResidualLocator
residual_of none = none
residual_of (some (residual_locator locator)) = some locator
residual_of (some other) = none

-- `_request_meta_payload_from_view`
unfoldable pub legacy_rows_of : Str → ℕ → List Str → List ℤ → List ℤ → List LegacyRow
legacy_rows_of phase step (request_id ∷ ids) (prompt_idx ∷ prompts) (sample_idx ∷ samples) =
    record {
      request_id = request_id;
      prompt_idx = prompt_idx;
      sample_idx = sample_idx;
      phase = phase;
      engine_step_id = step;
    }
    ∷ legacy_rows_of phase step ids prompts samples
legacy_rows_of phase step ids prompts samples = []

abbrev pub request_meta_payload_from_view : RowBatchMeta → List LegacyRow
request_meta_payload_from_view view =
    legacy_rows_of view.phase view.engine_step_id view.request_ids view.prompt_idxs view.sample_idxs

module _ {Tensor : Type 0} where
  -- The tensor that a read's locator is bound to
  unfoldable pub tensor_for_read :
      Dict Str Tensor → Dict Str ResidualPathBinding → PortRead → Option Tensor
  unfolding resolved_path_for_locator
  tensor_for_read taps bindings read = elim (residual_of read.locator) [
    | none ↦ none
    | some locator ↦ elim (resolved_path_for_locator bindings locator) [
      | none ↦ none
      | some path ↦ lookup path taps
    ]
  ]

module _ {A : Type 0} (strided : Strided A) where
  open strided use {Tensor, rows, slice}

  -- The frames of one row, and then of the rows behind it
  unfoldable pub frames_from :
      Tensor
      → ResidualPathBinding
      → ℕ
      → ℕ
      → List Str
      → List ℤ
      → List ℤ
      → Result (List (PortFrame (Payload Tensor)))
  frames_from buffer binding step row (request_id ∷ ids) (prompt_idx ∷ prompts)
        (sample_idx ∷ samples) =
      let key : BundleKey = record {
        engine_step_id = step;
        phase = decode_phase;
        request_id = request_id;
        sample_idx = sample_idx;
      } in
      let stream : PortFrame (Payload Tensor) = record {
        key = key;
        kind = residual_stream;
        locator = some (residual_locator binding.locator);
        payload = hidden_row buffer row;
      } in
      let meta : PortFrame (Payload Tensor) = record {
        key = key;
        kind = request_meta;
        locator = some request_meta_locator;
        payload = legacy_row (record {
          request_id = request_id;
          prompt_idx = prompt_idx;
          sample_idx = sample_idx;
          phase = decode_phase;
          engine_step_id = step;
        });
      } in
      elim (ltb row (rows buffer)) [
        | false ↦ err index_error
        | true ↦ do
          rest ← frames_from buffer binding step (suc row) ids prompts samples
          ok (stream ∷ (if binding.include_request_meta then meta ∷ rest else rest))
      ]
  frames_from buffer binding step row ids prompts samples = ok []

  -- The loop over `range(active)` is a loop over the metadata, which has an item for each row.
  unfoldable pub build_decode_port_frames :
      PortDispatchRuntime Tensor → Str → Result (List (PortFrame (Payload Tensor)))
  unfolding frames_from
  build_decode_port_frames runtime layer_path = elim (lookup layer_path runtime.tap_decode_hidden) [
    | none ↦ ok []
    | some buffer ↦
        if eqb runtime.decode_count 0
        then ok []
        else elim (lookup layer_path runtime.residual_bindings) [
          | none ↦ ok []
          | some binding ↦ (do
            metadata ← active_request_prompt_sample_metadata runtime.decode runtime.decode_count
            frames_from buffer binding runtime.decode.event_step_id 0 metadata.0 metadata.1
                metadata.2)
        ]
  ]

  -- `_compact_residual_hidden_for_read`
  unfoldable pub compact_residual_hidden_for_read :
      PortDispatchRuntime Tensor → PortRead → ℕ → Option (List ℕ) → Option Tensor
  unfolding tensor_for_read
  compact_residual_hidden_for_read runtime read active none = none
  compact_residual_hidden_for_read runtime read active (some row_ids) =
      if not (runtime.decode_compact_count == pos active)
        || not (runtime.decode_compact_row_ids == row_ids)
      then none
      else elim (tensor_for_read runtime.tap_decode_hidden_compact runtime.residual_bindings read) [
        | none ↦ none
        | some tensor ↦ if ltb (rows tensor) active then none else some (slice tensor 0 active)
      ]

  -- The end of `_entry_for_flow_read`
  unfoldable pub rows_for_read : Tensor → ℕ → Option (List ℕ) → Result Tensor
  unfolding selected_rows
  rows_for_read tensor active none = ok (slice tensor 0 active)
  rows_for_read tensor active (some row_ids) = selected_rows strided tensor row_ids

  unfoldable pub residual_entry :
      PortDispatchRuntime Tensor → PortRead → ℕ → Option (List ℕ) → Result (Option (Payload Tensor))
  unfolding compact_residual_hidden_for_read rows_for_read
  residual_entry runtime read active row_ids =
      elim (compact_residual_hidden_for_read runtime read active row_ids) [
        | some compact ↦ ok (some (hidden compact))
        | none ↦ elim (tensor_for_read runtime.tap_decode_hidden runtime.residual_bindings read) [
          | none ↦ ok none
          | some tensor ↦ (do
            selected ← rows_for_read tensor active row_ids
            ok (some (hidden selected)))
        ]
      ]

  unfoldable pub entry_of_kind :
      PortDispatchRuntime Tensor
      → PortKind
      → PortRead
      → List LegacyRow
      → ℕ
      → Option (List ℕ)
      → Result (Option (Payload Tensor))
  unfolding residual_entry
  entry_of_kind runtime request_meta read payload active row_ids = ok (some (legacy_rows payload))
  entry_of_kind runtime residual_stream read payload active row_ids =
      residual_entry runtime read active row_ids
  entry_of_kind runtime kind read payload active row_ids = ok none

  -- An entry with the name of its read
  abbrev pub named : PortRead → Option (Payload Tensor) → Option (Str × Payload Tensor)
  named read none = none
  named read (some entry) = some (entry_name read, entry)

  unfoldable pub entry_for_flow_read :
      PortDispatchRuntime Tensor
      → PortRead
      → List LegacyRow
      → ℕ
      → Option (List ℕ)
      → Result (Option (Str × Payload Tensor))
  unfolding entry_of_kind entry_name
  entry_for_flow_read runtime read payload active row_ids =
      entry_of_kind runtime read.kind read payload active row_ids >>= λ found. ok (named read found)
